-- ===== src/Engine/Frames/Tolerance.antt =====
-- `_schedule_update` of entertainment.py: which colours reach a slot.
use ha_hue_entertainment.Prelude.{
  ℕ, ◌≡◌, ◌≢◌, ◌≤◌, ap, true, false, ◌&&◌, none, some, arith, ◌==◌, ltb, Option-cases, inl, inr,
  if◌then◌else◌,
}
use ha_hue_entertainment.Prelude.{String}
use ha_hue_entertainment.Prelude.Int.{Ratio, pos_part}
use ha_hue_entertainment.HueStream.{ChannelColor}
use ha_hue_entertainment.HueStream.Bounds.{Is16Bit}
use ha_hue_entertainment.ServiceData.{ServiceData}
use ha_hue_entertainment.Engine.{Engine, LightMapping, get_mapping, reset_mapping}
use ha_hue_entertainment.Engine.Lights.{
  get_mapping-channel_id, get_mapping-set_mapping_ne, get_mapping-set_mapping_self,
}
use ha_hue_entertainment.Engine.Frames.{
  color_space_xy, near_xy, near_level, within_tolerance, stream_data, write_slot, schedule_update,
}

near_xy_self : (v : ℕ) → near_xy v (some v) ≡ true
unfolding near_xy
near_xy_self v = ground arith

near_level_self : (v : ℕ) → near_level v (some v) ≡ true
unfolding near_level
near_level_self v = ground arith

-- A colour is within tolerance of the slot that was written for it.
within_tolerance-write_slot :
    (c : ChannelColor) (cs : ℕ) (m : LightMapping)
    → within_tolerance c cs (write_slot c cs m) ≡ true
unfolding within_tolerance write_slot
within_tolerance-write_slot c cs m = ground (
  arith,
  near_xy_self c.r,
  near_xy_self c.g,
  near_level_self c.r,
  near_level_self c.g,
  near_level_self c.b,
)

-- What `schedule_update` does to a light that it finds.
tracked : ChannelColor → ℕ → LightMapping → LightMapping
tracked c cs m = if within_tolerance c cs m then m else write_slot c cs m

schedule_update_found :
    (e : Engine) (c : ChannelColor) (cs : ℕ) (m : LightMapping)
    → get_mapping c.channel_id e.mappings ≡ some m
    → get_mapping c.channel_id (schedule_update e c cs).mappings ≡ some (tracked c cs m)
unfolding schedule_update tracked write_slot
schedule_update_found e c cs m g = ground (
  arith,
  get_mapping-set_mapping_self c.channel_id (write_slot c cs m) e.mappings m
      (get_mapping-channel_id c.channel_id e.mappings m g) g,
)

schedule_update_missing :
    (e : Engine) (c : ChannelColor) (cs : ℕ)
    → get_mapping c.channel_id e.mappings ≡ none
    → schedule_update e c cs ≡ e
unfolding schedule_update
schedule_update_missing e c cs g = ground arith

-- After an update, if the channel has a light, the values last written for that light are within
-- the tolerance of the colour that came, by the test of the frame's colour space.
pub schedule_update-tracks :
    (e : Engine) (c : ChannelColor) (cs : ℕ) (m : LightMapping)
    → get_mapping c.channel_id (schedule_update e c cs).mappings ≡ some m
    → within_tolerance c cs m ≡ true
unfolding tracked
schedule_update-tracks e c cs m g = elim (Option-cases (get_mapping c.channel_id e.mappings)) [
  | inl p ↦
      cc (
        ap (λ (x : Engine). get_mapping c.channel_id x.mappings) (schedule_update_missing e c cs p))
  | inr (m', p) ↦
      ground (arith, schedule_update_found e c cs m' p, within_tolerance-write_slot c cs m')
]

-- An update leaves the lights of all other channels alone.
schedule_update-others :
    (e : Engine) (c : ChannelColor) (cs j : ℕ)
    → c.channel_id ≢ j
    → get_mapping j (schedule_update e c cs).mappings ≡ get_mapping j e.mappings
unfolding schedule_update write_slot
schedule_update-others e c cs j d = elim (Option-cases (get_mapping c.channel_id e.mappings)) [
  | inl p ↦ ap (λ (x : Engine). get_mapping j x.mappings) (schedule_update_missing e c cs p)
  | inr (m, p) ↦ ground (
    arith,
    get_mapping-set_mapping_ne c.channel_id j (write_slot c cs m) e.mappings
        (get_mapping-channel_id c.channel_id e.mappings m p),
  )
]

schedule_update_near :
    (e : Engine) (c : ChannelColor) (cs : ℕ) (m : LightMapping)
    → get_mapping c.channel_id e.mappings ≡ some m
    → within_tolerance c cs m ≡ true
    → schedule_update e c cs ≡ e
unfolding schedule_update
schedule_update_near e c cs m g w = ground arith

-- A colour that comes again changes nothing.
schedule_update_idempotent :
    (e : Engine) (c : ChannelColor) (cs : ℕ)
    → schedule_update (schedule_update e c cs) c cs ≡ schedule_update e c cs
schedule_update_idempotent e c cs =
    elim (Option-cases (get_mapping c.channel_id (schedule_update e c cs).mappings)) [
      | inl p ↦ schedule_update_missing (schedule_update e c cs) c cs p
      | inr (m, p) ↦
          schedule_update_near (schedule_update e c cs) c cs m p (schedule_update-tracks e c cs m p)
    ]

-- In a fresh slot of an xy frame every colour is accepted; of an rgb frame only one with a level of at
-- least 15: -1, which stands for no last value, is within the tolerance of the levels below.
pub fresh_slot :
    (c : ChannelColor) (cs : ℕ) (m : LightMapping)
    → within_tolerance c cs (reset_mapping m)
      ≡ (if cs == color_space_xy then false else ltb c.r 15 && ltb c.g 15 && ltb c.b 15)
unfolding within_tolerance near_xy near_level reset_mapping
fresh_slot c cs m = ground arith

-- A command that a light can be sent.
pub record IsSendable (cs : ℕ) (c : ChannelColor) (d : ServiceData) : Type 0 where
  pub brightness_byte : (v : ℕ) → d.brightness ≡ some v → v ≤ 255
  pub rgb_lit : (v : ℕ) → (cs == color_space_xy) ≡ false → d.brightness ≡ some v → 1 ≤ v
  pub rgb_bytes : (r g b : ℕ) → d.rgb_color ≡ some (r, g, b) → (r ≤ 255) × (g ≤ 255) × (b ≤ 255)
  pub xy_fractions :
      (x y : Ratio) → d.xy_color ≡ some (x, y) → (pos_part x.num ≤ x.den) × (pos_part y.num ≤ y.den)

-- The command for a 16-bit colour: its brightness and its rgb levels are bytes, under rgb its
-- brightness is at least 1, and its xy coordinates are at most 1.
pub stream_data-IsSendable :
    (c : ChannelColor) (cs : ℕ) (entity_id : String)
    → Is16Bit c
    → IsSendable cs c (stream_data c cs entity_id)
unfolding stream_data
stream_data-IsSendable c cs entity_id h = record {
  brightness_byte = λ v p. ground arith;
  rgb_lit = λ v p q. ground arith;
  rgb_bytes = λ r g b p. ground arith;
  xy_fractions = λ x y p. ground arith;
}
