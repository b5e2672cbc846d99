-- ===== src/Bridge/Addressing.antt =====
-- The lights that the API describes are those that the engine drives, under the same numbers.
use text.Mathlib.Text.{◌==◌ as str_eq}
use ha_hue_entertainment.Prelude.{
  ℕ, suc, ◌+◌, ◌≤◌, ◌<◌, ◌≡◌, refl, ap, ◌∙◌, sym, String, Option, none, some, List, [], ◌∷◌, arith,
  length, ◌==◌, if◌then◌else◌,
}
use ha_hue_entertainment.Json.{Value, get, PyText}
use ha_hue_entertainment.ServiceData.{or_else}
use ha_hue_entertainment.HueApi.{fields}
use ha_hue_entertainment.HueApi.Host.{PyHost}
use ha_hue_entertainment.HueApi.Lights.{light_value, lights_from, build_v1_lights}
use ha_hue_entertainment.Engine.{
  LightMapping, new_mapping, insert_mapping, by_channel, get_mapping, new_engine,
}
use ha_hue_entertainment.Bridge.Setup.{mappings_from, Config, async_setup_entry}

-- What the API serves for a light of the engine.
abbrev pub described : PyHost → Option LightMapping → Option Value
described host none = none
described host (some m) = some (light_value host m.entity_id)

abbrev given : ℕ → String → ℕ → Option LightMapping
given k entity_id i = if k == i then some (new_mapping k entity_id) else none

get_mapping-insert_mapping :
    (t : List LightMapping) (k i : ℕ) (entity_id : String)
    → get_mapping k t ≡ none
    → get_mapping i (insert_mapping t (new_mapping k entity_id))
      ≡ or_else (get_mapping i t) (given k entity_id i)
unfolding get_mapping insert_mapping
get_mapping-insert_mapping [] k i entity_id h = ground arith
get_mapping-insert_mapping (x ∷ t) k i entity_id h =
    ground (arith, get_mapping-insert_mapping t k i entity_id)

get_mapping-mappings_from :
    (k i : ℕ) (entity_id : String) (rest : List String)
    → get_mapping i (mappings_from k (entity_id ∷ rest))
      ≡ or_else (given k entity_id i) (get_mapping i (mappings_from (suc k) rest))
unfolding get_mapping mappings_from
get_mapping-mappings_from k i entity_id rest = ground arith

or_else_assoc : (a b c : Option LightMapping) → or_else (or_else a b) c ≡ or_else a (or_else b c)
or_else_assoc none b c = refl
or_else_assoc (some m) b c = refl

or_else-none : (a : Option LightMapping) → or_else a none ≡ a
or_else-none none = refl
or_else-none (some m) = refl

insert_fresh :
    (t : List LightMapping) (k j : ℕ) (entity_id : String)
    → get_mapping k t ≡ none
    → get_mapping j t ≡ none
    → k < j
    → get_mapping j (insert_mapping t (new_mapping k entity_id)) ≡ none
insert_fresh t k j entity_id h hj lt = ground (arith, get_mapping-insert_mapping t k j entity_id h)

-- No number comes twice, so nothing is replaced in the table.
get_mapping-by_channel :
    (entities : List String) (t : List LightMapping) (k i : ℕ)
    → ((j : ℕ) → k ≤ j → get_mapping j t ≡ none)
    → get_mapping i (by_channel t (mappings_from k entities))
      ≡ or_else (get_mapping i t) (get_mapping i (mappings_from k entities))
unfolding by_channel mappings_from get_mapping
get_mapping-by_channel [] t k i h = sym (or_else-none (get_mapping i t))
get_mapping-by_channel (entity_id ∷ rest) t k i h =
    let here = h k (omega arith) in
    let t' = insert_mapping t (new_mapping k entity_id) in
    let more =
      get_mapping-by_channel rest t' (suc k) i
        (λ j le. insert_fresh t k j entity_id here (h j (omega arith)) (omega arith)) in
    more
    ∙ ap (λ o. or_else o (get_mapping i (mappings_from (suc k) rest)))
        (get_mapping-insert_mapping t k i entity_id here)
    ∙ or_else_assoc (get_mapping i t) (given k entity_id i)
        (get_mapping i (mappings_from (suc k) rest))
    ∙ ap (or_else (get_mapping i t)) (sym (get_mapping-mappings_from k i entity_id rest))

get-lights_from :
    (py : PyText) (host : PyHost) (entities : List String) (k i : ℕ)
    → ((j : ℕ) → k ≤ j → j < k + length entities → str_eq (py.str_of j) (py.str_of i) ≡ (j == i))
    → get (py.str_of i) (fields (lights_from py host k entities))
      ≡ described host (get_mapping i (mappings_from k entities))
unfolding get lights_from mappings_from get_mapping
get-lights_from py host [] k i h = refl
get-lights_from py host (entity_id ∷ rest) k i h =
    let same = h k (omega arith) (omega arith) in
    let more =
      get-lights_from py host rest (suc k) i (λ j le lt. h j (omega arith) (omega arith)) in
    ground (arith, same, more)

-- For every number: the API describes a light under it, by the decimal text of the number, exactly if
-- the engine of the set-up has a light under it, and it describes that one. The text is assumed to tell
-- the number from those of the lights.
pub build_v1_lights-get_mapping :
    (py : PyText) (host : PyHost) (c : Config) (now i : ℕ)
    → ((j : ℕ)
        → 1 ≤ j
        → j < 1 + length c.light_entities
        → str_eq (py.str_of j) (py.str_of i) ≡ (j == i))
    → let b = async_setup_entry c now in
      get (py.str_of i) (build_v1_lights py host b.api_server)
      ≡ described host (get_mapping i b.engine.mappings)
unfolding build_v1_lights async_setup_entry new_engine get_mapping
build_v1_lights-get_mapping py host c now i h =
    get-lights_from py host c.light_entities 1 i h
    ∙ ap (described host) (sym (get_mapping-by_channel c.light_entities [] 1 i (λ j le. refl)))
