-- ===== src/Engine/Lights.antt =====
-- Laws of the table of lights: a read behind a write.
use ha_hue_entertainment.Prelude.{
  ℕ, ◌≡◌, refl, false, some, List, [], ◌∷◌, arith, ◌==◌, Bool-cases, inl, inr,
}
use ha_hue_entertainment.Engine.{LightMapping, get_mapping, set_mapping}

-- The channel of a light that was found is the channel that was asked for.
pub get_mapping-channel_id :
    (id : ℕ) (ms : List LightMapping) (m : LightMapping)
    → get_mapping id ms ≡ some m
    → m.channel_id ≡ id
unfolding get_mapping
get_mapping-channel_id id [] m g = cc
get_mapping-channel_id id (x ∷ ms) m g = elim (Bool-cases (x.channel_id == id)) [
  | inl p ↦ ground arith
  | inr p ↦ get_mapping-channel_id id ms m (ground arith)
]

pub get_mapping-set_mapping_ne :
    (id j : ℕ) (new : LightMapping) (ms : List LightMapping)
    → new.channel_id ≡ id
    → (id == j) ≡ false
    → get_mapping j (set_mapping id new ms) ≡ get_mapping j ms
unfolding get_mapping set_mapping
get_mapping-set_mapping_ne id j new [] n d = refl
get_mapping-set_mapping_ne id j new (x ∷ ms) n d =
    ground (arith, get_mapping-set_mapping_ne id j new ms n d)

pub get_mapping-set_mapping_self :
    (id : ℕ) (new : LightMapping) (ms : List LightMapping) (m : LightMapping)
    → new.channel_id ≡ id
    → get_mapping id ms ≡ some m
    → get_mapping id (set_mapping id new ms) ≡ some new
unfolding get_mapping set_mapping
get_mapping-set_mapping_self id new [] m n g = cc
get_mapping-set_mapping_self id new (x ∷ ms) m n g = elim (Bool-cases (x.channel_id == id)) [
  | inl p ↦ ground arith
  | inr p ↦ ground (arith, get_mapping-set_mapping_self id new ms m n (ground arith))
]
