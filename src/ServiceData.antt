-- ===== src/ServiceData.antt =====
-- The `service_data` dict of a light command and its translation from a Hue v1 body:
-- custom_components/hue_entertainment/entertainment.py, lines 145-179.
-- The dict is a record with one optional field for each key that the code writes.
pub mod Translation
use ha_hue_entertainment.Prelude.{
  ℕ, ◌*◌, Bool, true, false, not, ◌&&◌, ◌||◌, String, Option, none, some, min, max, ltb,
  if◌then◌else◌,
}
use ha_hue_entertainment.Prelude.Int.{ℤ, pos, negsuc, pos_part, round_div, Ratio, scale_round}
use ha_hue_entertainment.Json.{
  Value, int, arr, nil, cons, Fields, get, is_some, is_bool, PyText, to_int, to_float,
}

pub data Service : Type 0 where
  turn_on turn_off : Service

pub record ServiceData : Type 0 where
  pub service : Option Service  -- "_service"
  pub entity_id : Option String
  pub transition : Option ℕ  -- milliseconds
  pub brightness : Option ℕ
  pub xy_color : Option (Ratio × Ratio)
  pub hs_color : Option (ℤ × ℤ)  -- hundredths
  pub rgb_color : Option (ℕ × ℕ × ℕ)
  pub color_temp_kelvin : Option ℕ

abbrev pub empty : ServiceData
empty = record {
  service = none;
  entity_id = none;
  transition = none;
  brightness = none;
  xy_color = none;
  hs_color = none;
  rgb_color = none;
  color_temp_kelvin = none;
}

abbrev pub or_else {ℓ} : {A : Type ℓ} → Option A → Option A → Option A
or_else (some a) b = some a
or_else none b = b

-- pending.update(data)
unfoldable pub update : ServiceData → ServiceData → ServiceData
update pending new = record {
  service = or_else new.service pending.service;
  entity_id = or_else new.entity_id pending.entity_id;
  transition = or_else new.transition pending.transition;
  brightness = or_else new.brightness pending.brightness;
  xy_color = or_else new.xy_color pending.xy_color;
  hs_color = or_else new.hs_color pending.hs_color;
  rgb_color = or_else new.rgb_color pending.rgb_color;
  color_temp_kelvin = or_else new.color_temp_kelvin pending.color_temp_kelvin;
}

-- `not data`
unfoldable pub is_empty : ServiceData → Bool
is_empty d = not (
    is_some d.service
    || is_some d.entity_id
    || is_some d.transition
    || is_some d.brightness
    || is_some d.xy_color
    || is_some d.hs_color
    || is_some d.rgb_color
    || is_some d.color_temp_kelvin)

-- max(int(value), 0) / 10 in seconds
transition_of : PyText → Option Value → Option ℕ
unfolding to_int
transition_of py none = none
transition_of py (some v) = elim (to_int py v) [ none ↦ none | some z ↦ some (pos_part z * 100) ]

-- max(1, min(255, round(bri * 255 / 254))); a negative `bri` rounds to at most 0
unfoldable pub scale_brightness : ℤ → ℕ
unfolding round_div
scale_brightness (pos n) = max 1 (min 255 (round_div (n * 255) 254))
scale_brightness (negsuc n) = 1

abbrev int_or : ℤ → Option ℤ → ℤ
int_or d none = d
int_or d (some z) = z

unfoldable pub brightness_of : PyText → Option Value → Option ℕ
unfolding to_int scale_brightness
brightness_of py none = none
brightness_of py (some v) = some (scale_brightness (int_or (pos 254) (to_int py v)))

-- isinstance(xy, list) and len(xy) == 2
xy_pair : Option Value → Option (Value × Value)
xy_pair (some (arr (cons x (cons y nil)))) = some (x, y)
xy_pair _ = none

abbrev value_or : Value → Option Value → Value
value_or d none = d
value_or d (some v) = v

both {ℓ} : {A : Type ℓ} → Option A → Option A → Option (A × A)
both none _ = none
both (some a) none = none
both (some a) (some b) = some (a, b)

-- [round(hue / 65535 * 360, 2), round(sat / 254 * 100, 2)]
hs_of : Ratio × Ratio → ℤ × ℤ
unfolding scale_round
hs_of (hue, sat) = (scale_round hue 36000 65535, scale_round sat 10000 254)

kelvin_of_mired : ℤ → Option ℕ
unfolding round_div
kelvin_of_mired (pos m) = if ltb 0 m then some (round_div 1000000 m) else none
kelvin_of_mired (negsuc m) = none

kelvin_of : PyText → Option Value → Option ℕ
unfolding to_int kelvin_of_mired
kelvin_of py none = none
kelvin_of py (some v) = elim (to_int py v) [ none ↦ none | some z ↦ kelvin_of_mired z ]

-- `none` where `float` raises
set_xy : Option (Ratio × Ratio) → ServiceData → Option ServiceData
set_xy none d = none
set_xy (some xy) d = some (record d { xy_color = some xy })

set_hs : Option (Ratio × Ratio) → ServiceData → Option ServiceData
unfolding hs_of
set_hs none d = none
set_hs (some hs) d = some (record d { hs_color = some (hs_of hs) })

-- The colour part: `xy`, else `hue` and `sat`, else `ct`.
color_by : PyText → Fields → Option (Value × Value) → ServiceData → Option ServiceData
unfolding get to_float both set_xy set_hs kelvin_of
color_by py body (some (x, y)) d = set_xy (both (to_float py x) (to_float py y)) d
color_by py body none d =
    if is_some (get "hue" body) || is_some (get "sat" body)
    then set_hs
        (both (to_float py (value_or (int (pos 0)) (get "hue" body)))
          (to_float py (value_or (int (pos 254)) (get "sat" body))))
        d
    else some (record d { color_temp_kelvin = kelvin_of py (get "ct" body) })

add_color : PyText → Fields → ServiceData → Option ServiceData
unfolding get xy_pair color_by
add_color py body d = color_by py body (xy_pair (get "xy" body)) d

-- The last lines: an empty translation without an explicit `on` stays empty.
finish : Fields → ServiceData → ServiceData
unfolding get is_empty
finish body d =
    if is_empty d && not (is_bool true (get "on" body))
    then empty
    else record d { service = some turn_on }

finish_if : Fields → Option ServiceData → Option ServiceData
unfolding finish
finish_if body none = none
finish_if body (some d) = some (finish body d)

-- `none` where the function raises TypeError or ValueError out of `float`.
unfoldable pub v1_state_to_service_data : PyText → Fields → Option ServiceData
unfolding get transition_of brightness_of add_color finish_if
v1_state_to_service_data py body =
    let start = record empty { transition = transition_of py (get "transitiontime" body) } in
    if is_bool false (get "on" body)
    then some (record start { service = some turn_off })
    else finish_if body
        (add_color py body (record start { brightness = brightness_of py (get "bri" body) }))
