-- ===== src/Engine/Steps.antt =====
-- The calls that the event loop makes on the engine, one at a time, in any order: the callbacks that
-- custom_components/hue_entertainment/__init__.py wires up, the services, the timers and the loop.
pub mod Keeps
use ha_hue_entertainment.Prelude.{ℕ, ◌+◌, Option, none, some, List, [], ◌∷◌, leb, if◌then◌else◌}
use ha_hue_entertainment.Json.{Fields, PyText}
use ha_hue_entertainment.Engine.{Engine}
use ha_hue_entertainment.Engine.Frames.{handle_frame}
use ha_hue_entertainment.Engine.Classic.{handle_light_command}
use ha_hue_entertainment.Engine.Control.{
  async_pause, async_resume, async_release, on_pause_expired, on_release_grace_expired,
}
use ha_hue_entertainment.Engine.Session.{States, async_snapshot_lights, async_restore_lights}
use ha_hue_entertainment.Engine.Drain.{drain_step}

pub data Event : Type 0 where
  frame : List ℕ → Event
  command : ℕ → Fields → Event
  start : States → Event  -- with what Home Assistant reports at the time
  stop : Event
  pause : ℕ → Event
  resume : Event
  release : ℕ → ℕ → Event
  pause_timer grace_timer : Event
  drain : States → Event

-- A timer fires once, and not before its deadline.
unfoldable pub fire {ℓ} : {A : Type ℓ} → Option ℕ → ℕ → A → A → A
fire none now fired e = e
fire (some deadline) now fired e = if leb deadline now then fired else e

-- The time at the end of a history: each call comes so long after the one before.
abbrev pub end_of : ℕ → List (ℕ × Event) → ℕ
end_of now [] = now
end_of now ((delay, event) ∷ rest) = end_of (now + delay) rest

or_same : Option Engine → Engine → Engine
or_same none e = e
or_same (some e') e = e'

module _ (py : PyText) where
  unfoldable pub step : Engine → Event → ℕ → Engine
  unfolding or_same fire
  step e (frame bytes) now = handle_frame e bytes now
  step e (command id body) now = or_same (handle_light_command py e id body now) e
  step e (start states) now = async_snapshot_lights states e now
  step e stop now = (async_restore_lights e now).0
  step e (pause seconds) now = async_pause e seconds now
  step e resume now = async_resume e now
  step e (release seconds settle) now = (async_release e seconds settle now).0
  step e pause_timer now = fire e.pause_cancel now (on_pause_expired e now) e
  step e grace_timer now = fire e.release_cancel now (on_release_grace_expired e now) e
  step e (drain states) now = (drain_step states e now).0

  -- A history: how long after the one before each call comes.
  unfoldable pub run : Engine → ℕ → List (ℕ × Event) → Engine
  unfolding step
  run e now [] = e
  run e now ((delay, event) ∷ rest) = run (step e event (now + delay)) (now + delay) rest
