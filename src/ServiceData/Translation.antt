-- ===== src/ServiceData/Translation.antt =====
-- What holds of every command that a Hue v1 body translates to.
use ha_hue_entertainment.Prelude.{
  ℕ, ◌≤◌, ◌≡◌, ◌&&◌, ◌||◌, not, subst, some-injective, if-both, refl, true, false, Option, none,
  some, arith, Bool-cases, inl, inr,
}
use ha_hue_entertainment.Prelude.Int.{Ratio, ℤ, pos, negsuc}
use ha_hue_entertainment.Json.{Value, Fields, get, is_some, is_bool, PyText, to_int}
use ha_hue_entertainment.ServiceData.{
  turn_on, turn_off, ServiceData, empty, is_empty, transition_of, scale_brightness, brightness_of,
  int_or, xy_pair, set_xy, set_hs, color_by, add_color, finish, finish_if, v1_state_to_service_data,
}

pub record IsCommand (d : ServiceData) : Type 0 where
  pub bright : (v : ℕ) → d.brightness ≡ some v → (1 ≤ v) × (v ≤ 255)
  pub off_bare :
      d.service ≡ some turn_off
      → (d.brightness ≡ none)
        × (d.xy_color ≡ none)
        × (d.hs_color ≡ none)
        × (d.color_temp_kelvin ≡ none)
  pub no_rgb : d.rgb_color ≡ none
  pub unaddressed : d.entity_id ≡ none
  pub serviced : is_empty d ≡ false → is_some d.service ≡ true

scale_brightness_bounds : (z : ℤ) → (1 ≤ scale_brightness z) × (scale_brightness z ≤ 255)
unfolding scale_brightness
scale_brightness_bounds (pos n) = omega arith
scale_brightness_bounds (negsuc n) = omega arith

brightness_of_bounds :
    (py : PyText) (o : Option Value) (v : ℕ) → brightness_of py o ≡ some v → (1 ≤ v) × (v ≤ 255)
unfolding brightness_of
brightness_of_bounds py none v h = cc
brightness_of_bounds py (some x) v h =
    let z = int_or (pos 254) (to_int py x) in
    subst (λ n. (1 ≤ n) × (n ≤ 255)) (some-injective (scale_brightness z) v h)
      (scale_brightness_bounds z)

-- What the colour part is given and what it keeps.
record IsPartial (d : ServiceData) : Type 0 where
  bright : (v : ℕ) → d.brightness ≡ some v → (1 ≤ v) × (v ≤ 255)
  no_rgb : d.rgb_color ≡ none
  unaddressed : d.entity_id ≡ none

set_xy-IsPartial :
    (xy : Option (Ratio × Ratio)) (d d' : ServiceData)
    → set_xy xy d ≡ some d'
    → IsPartial d
    → IsPartial d'
unfolding set_xy
set_xy-IsPartial none d d' h p = cc
set_xy-IsPartial (some xy) d d' h p =
    subst IsPartial (some-injective _ d' h)
      (record { bright = p.bright; no_rgb = p.no_rgb; unaddressed = p.unaddressed })

set_hs-IsPartial :
    (hs : Option (Ratio × Ratio)) (d d' : ServiceData)
    → set_hs hs d ≡ some d'
    → IsPartial d
    → IsPartial d'
unfolding set_hs
set_hs-IsPartial none d d' h p = cc
set_hs-IsPartial (some hs) d d' h p =
    subst IsPartial (some-injective _ d' h)
      (record { bright = p.bright; no_rgb = p.no_rgb; unaddressed = p.unaddressed })

color_by-IsPartial :
    (py : PyText) (body : Fields) (o : Option (Value × Value)) (d d' : ServiceData)
    → color_by py body o d ≡ some d'
    → IsPartial d
    → IsPartial d'
unfolding color_by
color_by-IsPartial py body (some (x, y)) d d' h p = set_xy-IsPartial _ d d' h p
color_by-IsPartial py body none d d' h p =
    elim (Bool-cases (is_some (get "hue" body) || is_some (get "sat" body))) [
      | inl q ↦ set_hs-IsPartial _ d d' (rw q at h) p
      | inr q ↦
          subst IsPartial (some-injective _ d' (rw q at h))
            (record { bright = p.bright; no_rgb = p.no_rgb; unaddressed = p.unaddressed })
    ]

finish-IsCommand : (body : Fields) (d : ServiceData) → IsPartial d → IsCommand (finish body d)
unfolding finish is_empty
finish-IsCommand body d p =
    if-both IsCommand (is_empty d && not (is_bool true (get "on" body))) empty
      (record d { service = some turn_on })
      (λ _. record {
        bright = λ v h. cc;
        off_bare = λ h. cc;
        no_rgb = refl;
        unaddressed = refl;
        serviced = λ h. cc;
      })
      (λ _. record {
        bright = p.bright;
        off_bare = λ h. cc;
        no_rgb = p.no_rgb;
        unaddressed = p.unaddressed;
        serviced = λ h. refl;
      })

finish_if-IsCommand :
    (body : Fields) (o : Option ServiceData) (d : ServiceData)
    → ((p : ServiceData) → o ≡ some p → IsPartial p)
    → finish_if body o ≡ some d
    → IsCommand d
unfolding finish_if
finish_if-IsCommand body none d p h = cc
finish_if-IsCommand body (some x) d p h =
    subst IsCommand (some-injective (finish body x) d h) (finish-IsCommand body x (p x refl))

off-IsCommand :
    (t : Option ℕ) → IsCommand (record empty { transition = t; service = some turn_off })
unfolding is_empty
off-IsCommand t = record {
  bright = λ v h. cc;
  off_bare = λ h. (refl, refl, refl, refl);
  no_rgb = refl;
  unaddressed = refl;
  serviced = λ h. refl;
}

-- Every translation of a body: its brightness lies between 1 and 255, an "off" carries no colour and no
-- brightness, it names neither an rgb colour nor a light, and if it is not empty it names its service.
pub v1_state_to_service_data-IsCommand :
    (py : PyText) (body : Fields) (d : ServiceData)
    → v1_state_to_service_data py body ≡ some d
    → IsCommand d
unfolding v1_state_to_service_data add_color
v1_state_to_service_data-IsCommand py body d h =
    let t = transition_of py (get "transitiontime" body) in
    let b = brightness_of py (get "bri" body) in
    let start = record empty { transition = t; brightness = b } in
    elim (Bool-cases (is_bool false (get "on" body))) [
      | inl q ↦ subst IsCommand (some-injective _ d (rw q at h)) (off-IsCommand t)
      | inr q ↦
          finish_if-IsCommand body (color_by py body (xy_pair (get "xy" body)) start) d
            (λ p e. color_by-IsPartial py body (xy_pair (get "xy" body)) start p e (record {
              bright = brightness_of_bounds py (get "bri" body);
              no_rgb = refl;
              unaddressed = refl;
            }))
            (rw q at h)
    ]
