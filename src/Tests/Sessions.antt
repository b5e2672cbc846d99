-- ===== src/Tests/Sessions.antt =====
-- Sessions that are watched, fall silent, or are released.
use ha_hue_entertainment.Prelude.{◌≡◌, refl, ℕ, ◌<◌, ◌-◌, true, List, [], ◌∷◌, arith}
use ha_hue_entertainment.Engine.Valid.{IsValid}
use ha_hue_entertainment.Engine.Control.{on_release_grace_expired}
use ha_hue_entertainment.Engine.Frames.{handle_frame}
use ha_hue_entertainment.HueApi.Requests.{stream}
use ha_hue_entertainment.Bridge.{
  Bridge, sleeping, done, on_entertainment_start, bridge_step, frame_timeout, frame_watchdog,
  bridge_run, BridgeEvent, request, pause_service, release_service, watchdog_resumed, frame,
  grace_timer,
}
use ha_hue_entertainment.Bridge.Setup.{async_setup_entry}
use ha_hue_entertainment.Bridge.Watched.{is_watching, StartsApart, session_watched}
use ha_hue_entertainment.Bridge.Overtaken.{unwatched_session}
use ha_hue_entertainment.Bridge.Valid.{bridge_IsValid}
use ha_hue_entertainment.Bridge.Released.{IsEnded, frame_watchdog-timeout}
use ha_hue_entertainment.Bridge.Forced.{forced_release_ends}
use text.Mathlib.Text.{◌==◌ as str_eq}
use ha_hue_entertainment.Prelude.{◌==◌, ◌+◌, ◌≤◌, length}
use ha_hue_entertainment.Json.{get}
use ha_hue_entertainment.Engine.{get_mapping}
use ha_hue_entertainment.HueApi.Lights.{build_v1_lights}
use ha_hue_entertainment.Bridge.Addressing.{described, build_v1_lights-get_mapping}
use ha_hue_entertainment.Tests.{py, host, states, setup, activate, red_frame}

abbrev started_at : List (ℕ × BridgeEvent)
started_at =
    (0, request (stream "tv" "1") activate states)
    ∷ (0, watchdog_resumed)
    ∷ (100, frame red_frame)
    ∷ []

abbrev streaming_bridge : Bridge
streaming_bridge = bridge_run py host (async_setup_entry setup 10000) 10000 started_at

is_streaming :
    (streaming_bridge.engine.active ≡ true) × (streaming_bridge.watchdog ≡ sleeping 12000)
unfolding bridge_run async_setup_entry handle_frame
is_streaming = (refl, refl)

bridge_IsValid_example : IsValid streaming_bridge.engine
bridge_IsValid_example = bridge_IsValid py host setup 10000 started_at

streaming-IsValid : IsValid streaming_bridge.engine
streaming-IsValid = bridge_IsValid py host setup 10000 started_at

is_silent : frame_timeout < 16000 - streaming_bridge.engine.last_frame_time
unfolding bridge_run async_setup_entry handle_frame
is_silent = omega arith

frame_watchdog-timeout_example : IsEnded streaming_bridge (frame_watchdog streaming_bridge 16000)
frame_watchdog-timeout_example =
    frame_watchdog-timeout streaming_bridge 12000 16000 streaming-IsValid is_streaming.1
      is_streaming.0 (omega arith) is_silent

-- Started at 10 s, released at 10.1 s with a grace of 1 s, which runs out at 11.1 s.
abbrev release_history : List (ℕ × BridgeEvent)
release_history =
    (0, request (stream "tv" "1") activate states)
    ∷ (0, watchdog_resumed)
    ∷ (100, release_service 1000 0)
    ∷ (1000, grace_timer)
    ∷ (900, watchdog_resumed)
    ∷ (2000, watchdog_resumed)
    ∷ []

abbrev forced_bridge : Bridge
forced_bridge = bridge_run py host (async_setup_entry setup 10000) 10000 release_history

forced-IsValid : IsValid forced_bridge.engine
forced-IsValid = bridge_IsValid py host setup 10000 release_history

is_forced :
    (forced_bridge.engine.release_forcing ≡ true)
    × (forced_bridge.watchdog ≡ sleeping 16000)
    × (forced_bridge.engine.last_frame_time ≡ 10000)
unfolding bridge_run async_setup_entry on_release_grace_expired
is_forced = (refl, refl, refl)

-- The TV streams on until the poll at 16 s.
abbrev streaming_on : List (ℕ × BridgeEvent)
streaming_on = (500, frame red_frame) ∷ (500, pause_service 1000) ∷ (1000, frame red_frame) ∷ []

is_late : frame_timeout < 16000 - forced_bridge.engine.last_frame_time
unfolding bridge_run async_setup_entry on_release_grace_expired
is_late = omega arith

forced_release_ends_example :
    let b = bridge_run py host forced_bridge 14000 streaming_on in
    IsEnded b (frame_watchdog b 16000) × ((frame_watchdog b 16000).1 ≡ [])
forced_release_ends_example =
    forced_release_ends py host forced_bridge 14000 16000 streaming_on forced-IsValid is_forced.0
      is_forced.1 (refl, (refl, (refl, tt))) (omega arith) is_late

one_light :
    (j : ℕ)
    → 1 ≤ j
    → j < 1 + length setup.light_entities
    → str_eq (py.str_of j) (py.str_of 1) ≡ (j == 1)
one_light j le lt = ground arith

build_v1_lights-get_mapping_example :
    let b = async_setup_entry setup 10000 in
    get (py.str_of 1) (build_v1_lights py host b.api_server)
    ≡ described host (get_mapping 1 b.engine.mappings)
build_v1_lights-get_mapping_example = build_v1_lights-get_mapping py host setup 10000 1 one_light

-- A second session, after the first has fallen silent and the lights have been restored.
abbrev second_session : List (ℕ × BridgeEvent)
second_session =
    (0, request (stream "tv" "1") activate states)
    ∷ (0, watchdog_resumed)
    ∷ (6000, watchdog_resumed)
    ∷ (500, watchdog_resumed)
    ∷ (1000, request (stream "tv" "1") activate states)
    ∷ []

second-StartsApart : StartsApart py host (async_setup_entry setup 10000) 10000 second_session
unfolding bridge_step async_setup_entry
second-StartsApart = (
  λ p. absurd (ground arith),
  (
    λ p. absurd (ground arith),
    (λ p. absurd (ground arith), (λ p. refl, (λ p. absurd (ground arith), tt))),
  ),
)

second_active :
    (bridge_run py host (async_setup_entry setup 10000) 10000 second_session).engine.active ≡ true
unfolding bridge_run async_setup_entry
second_active = refl

session_watched_example :
    is_watching (bridge_run py host (async_setup_entry setup 10000) 10000 second_session).watchdog
    ≡ true
session_watched_example =
    session_watched py host setup 10000 second_session second-StartsApart second_active

unwatched_session_example :
    let started = on_entertainment_start states (frame_watchdog streaming_bridge 16000).0 17000 in
    let finished = (frame_watchdog started 18000).0 in
    (finished.engine.active ≡ true) × (finished.watchdog ≡ done)
unwatched_session_example =
    unwatched_session states streaming_bridge 12000 16000 17000 18000 streaming-IsValid
      is_streaming.1 is_streaming.0 (omega arith) is_silent
