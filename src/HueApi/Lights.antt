-- ===== src/HueApi/Lights.antt =====
-- The lights and the group that the API serves: hue_api.py, lines 254-333. A Python float is the decimal
-- that its literal names.
use Prim.Native.String.{◌++◌ as ◌&◌, slice}
use ha_hue_entertainment.Prelude.{
  ℕ, zero, suc, ◌-◌, ◌*◌, true, false, String, Option, none, some, List, [], ◌∷◌, length, max, ltb,
  if◌then◌else◌,
}
use ha_hue_entertainment.Prelude.Int.{ℤ, pos, negate, round_div}
use ha_hue_entertainment.Json.{Value, null, bool, dec, str, Fields, PyText}
use ha_hue_entertainment.HueApi.{HueApiServer, fields, dict}
use ha_hue_entertainment.HueApi.Host.{PyHost, number, list}

abbrev float_value : ℕ → ℕ → Value
float_value m k = dec (pos m) k

-- ":".join(h[j : j + 2] for j in range(0, 16, 2)) + "-0b"
unique_id : String → String
unique_id h =
    slice h 0 2
    & ":"
    & slice h 2 4
    & ":"
    & slice h 4 6
    & ":"
    & slice h 6 8
    & ":"
    & slice h 8 10
    & ":"
    & slice h 10 12
    & ":"
    & slice h 12 14
    & ":"
    & slice h 14 16
    & "-0b"

light_state_value : Value
light_state_value = dict (
    ("on", bool true)
    ∷ ("bri", number 254)
    ∷ ("hue", number 0)
    ∷ ("sat", number 0)
    ∷ ("xy", list (float_value 0 1 ∷ float_value 0 1 ∷ []))
    ∷ ("ct", number 500)
    ∷ ("alert", str "select")
    ∷ ("effect", str "none")
    ∷ ("colormode", str "xy")
    ∷ ("mode", str "homeautomation")
    ∷ ("reachable", bool true)
    ∷ [])

light_capabilities : Value
light_capabilities = dict (
    ("certified", bool true)
    ∷ (
      "control",
      dict (
          ("mindimlevel", number 200)
          ∷ ("maxlumen", number 800)
          ∷ ("colorgamuttype", str "C")
          ∷ (
            "colorgamut",
            list (
                list (float_value 6915 4 ∷ float_value 3083 4 ∷ [])
                ∷ list (float_value 17 2 ∷ float_value 7 1 ∷ [])
                ∷ list (float_value 1532 4 ∷ float_value 475 4 ∷ [])
                ∷ []),
          )
          ∷ ("ct", dict (("min", number 153) ∷ ("max", number 500) ∷ []))
          ∷ []),
    )
    ∷ ("streaming", dict (("renderer", bool true) ∷ ("proxy", bool false) ∷ []))
    ∷ [])

unfoldable pub light_value : PyHost → String → Value
unfolding unique_id light_state_value light_capabilities
light_value host entity_id = dict (
    ("state", light_state_value)
    ∷ ("type", str "Extended color light")
    ∷ ("name", str entity_id)
    ∷ ("modelid", str "LCT015")
    ∷ ("manufacturername", str "Signify Netherlands B.V.")
    ∷ ("productname", str "Hue color lamp")
    ∷ ("capabilities", light_capabilities)
    ∷ ("uniqueid", str (unique_id (host.uuid5_hex ("uniqueid-" & entity_id))))
    ∷ ("swversion", str "1.104.2")
    ∷ [])

-- The loop body of `_build_v1_lights` from the light with number i.
unfoldable pub lights_from : PyText → PyHost → ℕ → List String → List (String × Value)
unfolding light_value
lights_from py host i [] = []
lights_from py host i (entity_id ∷ rest) =
    (py.str_of i, light_value host entity_id) ∷ lights_from py host (suc i) rest

unfoldable pub build_v1_lights : PyText → PyHost → HueApiServer → Fields
unfolding lights_from
build_v1_lights py host api = fields (lights_from py host 1 api.light_entities)

-- [str(i) for i in range(i, i + n)]
light_ids : PyText → ℕ → ℕ → List Value
light_ids py i zero = []
light_ids py i (suc n) = str (py.str_of i) ∷ light_ids py (suc i) n

-- A difference of two numbers in ten-thousandths.
abbrev minus : ℕ → ℕ → ℤ
minus a b = if ltb a b then negate (b - a) else pos (a - b)

-- round(-1.0 + 2.0 * (i - 1) / max(n - 1, 1), 4)
unfoldable pub location_x : ℕ → ℕ → Value
location_x i n = dec (minus (round_div (20000 * (i - 1)) (max (n - 1) 1)) 10000) 4

locations_from : PyText → ℕ → ℕ → ℕ → List (String × Value)
unfolding location_x
locations_from py total i zero = []
locations_from py total i (suc n) =
    (py.str_of i, list (location_x i total ∷ float_value 10 1 ∷ float_value 0 1 ∷ []))
    ∷ locations_from py total (suc i) n

abbrev owner_value : Option String → Value
owner_value none = null
owner_value (some username) = str username

group_stream : PyText → HueApiServer → Value
group_stream py api = dict (
    ("proxymode", str "auto")
    ∷ ("proxynode", str ("/lights/" & py.str_of 1))
    ∷ ("active", bool api.entertainment_active)
    ∷ ("owner", owner_value api.entertainment_owner)
    ∷ [])

group_action : Value
group_action = dict (
    ("on", bool true)
    ∷ ("bri", number 254)
    ∷ ("hue", number 0)
    ∷ ("sat", number 0)
    ∷ ("effect", str "none")
    ∷ ("xy", list (float_value 0 1 ∷ float_value 0 1 ∷ []))
    ∷ ("ct", number 500)
    ∷ ("alert", str "none")
    ∷ ("colormode", str "xy")
    ∷ [])

group_value : PyText → HueApiServer → Value
unfolding light_ids locations_from group_stream group_action
group_value py api =
    let n = length api.light_entities in
    dict (
      ("name", str "TV Entertainment")
      ∷ ("lights", list (light_ids py 1 n))
      ∷ ("sensors", list [])
      ∷ ("type", str "Entertainment")
      ∷ ("class", str "TV")
      ∷ ("stream", group_stream py api)
      ∷ ("locations", dict (locations_from py n 1 n))
      ∷ ("state", dict (("any_on", bool true) ∷ ("all_on", bool true) ∷ []))
      ∷ ("action", group_action)
      ∷ [])

unfoldable pub build_v1_groups : PyText → HueApiServer → Fields
unfolding group_value
build_v1_groups py api = elim api.light_entities [
  | [] ↦ Fields.end
  | entity_id ∷ rest ↦ fields (("1", group_value py api) ∷ [])
]
