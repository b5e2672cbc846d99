-- ===== src/Engine/Classic/Merge.antt =====
-- How successive commands for one light meet in its slot: `handle_light_command` of entertainment.py.
use ha_hue_entertainment.Prelude.{
  ℕ, ◌≡◌, sym, subst, String, some-injective, ap, ◌∙◌, true, false, none, some, arith, Option-cases,
  inl, inr, if◌then◌else◌,
}
use ha_hue_entertainment.Json.{Fields, get, is_bool, PyText}
use ha_hue_entertainment.ServiceData.{
  ServiceData, empty, update, is_empty, v1_state_to_service_data,
}
use ha_hue_entertainment.Engine.{Engine, LightMapping, suppressed, get_mapping, ensure_drain_task}
use ha_hue_entertainment.Engine.Lights.{get_mapping-channel_id, get_mapping-set_mapping_self}
use ha_hue_entertainment.Engine.Classic.{
  is_turn_off, queued, merge, write_command, store_command, apply_command, handle_light_command,
}

-- What a light's slot holds for a command that is waiting.
abbrev pub Waits : Engine → ℕ → ServiceData → Type 0
Waits e id d =
    (m : LightMapping) × (get_mapping id e.mappings ≡ some m)
    × (queued m ≡ record d { entity_id = some m.entity_id })

queued-write_command :
    (m : LightMapping) (d : ServiceData)
    → queued (write_command m d) ≡ record d { entity_id = some m.entity_id }
unfolding queued write_command
queued-write_command m d = ground arith

ensure_mappings : (e : Engine) (now : ℕ) → (ensure_drain_task e now).mappings ≡ e.mappings
unfolding ensure_drain_task
ensure_mappings e now = ground arith

store_found :
    (e : Engine) (id : ℕ) (m : LightMapping) (d : ServiceData) (now : ℕ)
    → get_mapping id e.mappings ≡ some m
    → get_mapping id (store_command e id m (some d) now).mappings ≡ some (write_command m d)
unfolding store_command write_command
store_found e id m d now g =
    ap (get_mapping id) (ensure_mappings _ now)
    ∙ get_mapping-set_mapping_self id (write_command m d) e.mappings m
        (get_mapping-channel_id id e.mappings m g) g

handle_found :
    (py : PyText) (e : Engine) (id : ℕ) (m : LightMapping) (body : Fields) (command : ServiceData)
    (now : ℕ)
    → suppressed e now ≡ false
    → get_mapping id e.mappings ≡ some m
    → v1_state_to_service_data py body ≡ some command
    → is_empty command ≡ false
    → handle_light_command py e id body now
      ≡ some (store_command e id m (merge body command (queued m)) now)
unfolding handle_light_command apply_command
handle_found py e id m body command now s g t n = ground arith

-- The command that two commands in a row come to: an "off" drops what came before it, an "off" that
-- waits gives way to an explicit "on" alone, and otherwise the second one is laid over the first.
pub followed_by : Fields → ServiceData → ServiceData → ServiceData
unfolding get update
followed_by second d1 d2 =
    if is_turn_off d2.service
    then d2
    else if is_turn_off d1.service
    then (if is_bool true (get "on" second) then d2 else d1)
    else update d1 d2

abbrev addressed : String → ServiceData → ServiceData
addressed entity d = record d { entity_id = some entity }

update-empty : (d : ServiceData) → update empty d ≡ d
unfolding update
update-empty d = ground arith

module _ (second : Fields) (d1 d2 : ServiceData) (entity : String) where
  merge-none :
      merge second d2 (addressed entity d1) ≡ none
      → addressed entity (followed_by second d1 d2) ≡ addressed entity d1
  unfolding merge followed_by
  merge-none h = ground arith

  merge-some :
      (d : ServiceData)
      → merge second d2 (addressed entity d1) ≡ some d
      → addressed entity d ≡ addressed entity (followed_by second d1 d2)
  unfolding merge followed_by
  merge-some d h = ground (arith, update-empty d2)

merge_fresh : (body : Fields) (d : ServiceData) → merge body d empty ≡ some d
unfolding merge
merge_fresh body d = ground (arith, update-empty d)

queued_clean : (m : LightMapping) → m.dirty ≡ false → queued m ≡ empty
unfolding queued
queued_clean m h = ground arith

-- The slot behind a command that meets a waiting one.
store_merged :
    (e : Engine) (id : ℕ) (m : LightMapping) (second : Fields) (d1 d2 : ServiceData) (now : ℕ)
    → get_mapping id e.mappings ≡ some m
    → queued m ≡ addressed m.entity_id d1
    → Waits (store_command e id m (merge second d2 (queued m)) now) id (followed_by second d1 d2)
unfolding store_command
store_merged e id m second d1 d2 now g q =
    elim (Option-cases (merge second d2 (addressed m.entity_id d1))) [
      | inl p ↦ rw (q, p) (m, g, q ∙ sym (merge-none second d1 d2 m.entity_id p))
      | inr (d, p) ↦
          rw (q, p)
            (
              write_command m d,
              store_found e id m d now g,
              queued-write_command m d ∙ merge-some second d1 d2 m.entity_id d p,
            )
    ]

module _ (py : PyText) (e e1 e2 : Engine) (id : ℕ) (m : LightMapping) (first second : Fields)
    (d1 d2 : ServiceData) (now later : ℕ) (free : suppressed e now ≡ false)
    (free1 : suppressed e1 later ≡ false) (light : get_mapping id e.mappings ≡ some m)
    (clean : m.dirty ≡ false) (first_means : v1_state_to_service_data py first ≡ some d1)
    (first_given : is_empty d1 ≡ false)
    (second_means : v1_state_to_service_data py second ≡ some d2)
    (second_given : is_empty d2 ≡ false)
    (first_done : handle_light_command py e id first now ≡ some e1)
    (second_done : handle_light_command py e1 id second later ≡ some e2) where
  m1 : LightMapping
  m1 = write_command m d1

  first_stored : store_command e id m (some d1) now ≡ e1
  first_stored = some-injective _ _ (
      ap (λ r. some (store_command e id m r now))
        (sym (ap (merge first d1) (queued_clean m clean) ∙ merge_fresh first d1))
      ∙ sym (handle_found py e id m first d1 now free light first_means first_given)
      ∙ first_done)

  light1 : get_mapping id e1.mappings ≡ some m1
  unfolding m1
  light1 =
      ap (λ (x : Engine). get_mapping id x.mappings) (sym first_stored)
      ∙ store_found e id m d1 now light

  second_stored : store_command e1 id m1 (merge second d2 (queued m1)) later ≡ e2
  second_stored = some-injective _ _ (
      sym (handle_found py e1 id m1 second d2 later free1 light1 second_means second_given)
      ∙ second_done)

  queued1 : queued m1 ≡ addressed m1.entity_id d1
  unfolding m1 write_command
  queued1 = queued-write_command m d1

  -- Two commands for a light that the engine knows and whose slot is empty, each of which
  -- translates to something, neither while paused or releasing, the second before the drain loop
  -- has taken the first, leave in the slot the one command that they come to.
  pub handle_light_command_twice : Waits e2 id (followed_by second d1 d2)
  handle_light_command_twice =
      subst (λ x. Waits x id (followed_by second d1 d2)) second_stored
        (store_merged e1 id m1 second d1 d2 later light1 queued1)
