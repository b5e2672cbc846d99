-- ===== src/Engine/Stats.antt =====
-- What the engine tells of itself: `stats` and `status_attributes`, entertainment.py, lines 345-361 and
-- 418-430; what the sensors show: binary_sensor.py, lines 75-84, and sensor.py, lines 74-80.
use ha_hue_entertainment.Prelude.{
  ℕ, ◌-◌, Bool, String, Option, none, some, List, [], ◌∷◌, ◌++◌, if◌then◌else◌,
}
use ha_hue_entertainment.Prelude.Int.{pos, round_div}
use ha_hue_entertainment.Json.{Value, null, bool, dec, str}
use ha_hue_entertainment.HueApi.{HueApiServer, dict}
use ha_hue_entertainment.HueApi.Host.{number, list}
use ha_hue_entertainment.Engine.{
  LightMapping, Engine, Status, idle, streaming, classic, paused, releasing, is_paused, status,
  is_driving_lights,
}

abbrev pub status_text : Status → String
status_text idle = "idle"
status_text streaming = "streaming"
status_text classic = "classic"
status_text paused = "paused"
status_text releasing = "releasing"

-- round(seconds, 1), of milliseconds
abbrev pub tenths : ℕ → Value
tenths ms = dec (pos (round_div ms 100)) 1

abbrev remaining : Option ℕ → ℕ → List (String × Value)
remaining none now = []
remaining (some paused_until) now = ("paused_remaining_seconds", tenths (paused_until - now)) ∷ []

abbrev underlying : Engine → String
underlying e = if e.active then "streaming" else if e.drain_running then "classic" else "idle"

unfoldable pub status_attributes : Engine → ℕ → List (String × Value)
unfolding is_paused round_div
status_attributes e now =
    (if is_paused e now then remaining e.paused_until now else [])
    ++ ((if e.releasing_flag then (("release_forcing", bool e.release_forcing) ∷ []) else [])
        ++ (if e.releasing_flag
            then (("underlying_activity", str (underlying e)) ∷ [])
            else if is_paused e now
            then (("underlying_activity", str (underlying e)) ∷ [])
            else []))

unfoldable pub entity_ids : List LightMapping → List Value
entity_ids [] = []
entity_ids (m ∷ ms) = str m.entity_id ∷ entity_ids ms

unfoldable pub unavailable_ids : List LightMapping → List Value
unavailable_ids [] = []
unavailable_ids (m ∷ ms) =
    if m.unavailable_logged then str m.entity_id ∷ unavailable_ids ms else unavailable_ids ms

-- 0.0 stands for no frame yet.
abbrev since_last_frame : ℕ → ℕ → Value
since_last_frame ℕ.zero now = null
since_last_frame (ℕ.suc t) now = tenths (now - ℕ.suc t)

unfoldable pub stats : Engine → ℕ → List (String × Value)
unfolding status status_attributes entity_ids unavailable_ids round_div
stats e now =
    ("active", bool e.active)
    ∷ ("status", str (status_text (status e now)))
    ∷ ("status_attributes", dict (status_attributes e now))
    ∷ ("lights", list (entity_ids e.mappings))
    ∷ ("session_frames_received", number e.total_frames_received)
    ∷ ("session_commands_sent", number e.total_commands_sent)
    ∷ ("seconds_since_last_frame", since_last_frame e.last_frame_time now)
    ∷ ("unavailable_lights", list (unavailable_ids e.mappings))
    ∷ []

-- The binary sensor.
unfoldable pub is_on : Engine → ℕ → Bool
unfolding is_driving_lights
is_on e now = is_driving_lights e now

abbrev owner_entry : Option String → List (String × Value)
owner_entry none = []
owner_entry (some owner) = ("owner", str owner) ∷ []

-- The name of an owner is never empty: it is drawn by the pairing, or stands in a path.
unfoldable pub extra_state_attributes : Engine → HueApiServer → List (String × Value)
extra_state_attributes e api = if e.active then owner_entry api.entertainment_owner else []

-- The status sensor.
unfoldable pub native_value : Engine → ℕ → String
unfolding status
native_value e now = status_text (status e now)
