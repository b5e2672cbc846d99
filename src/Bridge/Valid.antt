-- ===== src/Bridge/Valid.antt =====
-- The invariant of the engine holds for the whole bridge: all that it does to the engine are the calls
-- of `Engine.Steps`.
use ha_hue_entertainment.Prelude.{
  ℕ, ◌+◌, Option, none, some, List, [], ◌∷◌, Option-cases, inl, inr, if-both, leb, ltb, ◌-◌,
}
use ha_hue_entertainment.Json.{PyText}
use ha_hue_entertainment.HueApi.{Effect, started, stopped, light_command, Reply}
use ha_hue_entertainment.HueApi.Host.{PyHost}
use ha_hue_entertainment.HueApi.Handlers.{handle}
use ha_hue_entertainment.Engine.{Engine, State}
use ha_hue_entertainment.Engine.Classic.{handle_light_command, handle_light_command-Outcome}
use ha_hue_entertainment.Engine.Session.{States}
use ha_hue_entertainment.Engine.Steps.{Event, step}
use ha_hue_entertainment.Engine.Steps.Keeps.{step-keeps, Outcome-keeps}
use ha_hue_entertainment.Engine.Valid.{
  IsValid, async_pause-IsValid, async_resume-IsValid, async_release-IsValid, new_engine-IsValid,
}
use ha_hue_entertainment.Engine.Valid.Runs.{IsValid-Keeps}
use ha_hue_entertainment.Bridge.{
  Bridge, Watchdog, absent, created, sleeping, restoring, done, max_yield, max_settle,
  frame_timeout, stop_entertainment_session, watchdog_woken, watchdog_from, frame_watchdog,
  on_entertainment_start, on_entertainment_stop, call_back, serve, handle_pause, handle_resume,
  handle_release, or_refused, BridgeEvent, request, pause_service, resume_service, release_service,
  watchdog_resumed, frame, pause_timer, grace_timer, drain, bridge_step, bridge_run,
}
use ha_hue_entertainment.Bridge.Setup.{Config, mappings_from, async_setup_entry}

abbrev FirstValid : Bridge × List State → Type 0
FirstValid r = IsValid r.0.engine

keeps :
    (py : PyText) (e : Engine) (event : Event) (now : ℕ) → IsValid e → IsValid (step py e event now)
keeps py e event now v = step-keeps (λ e now. IsValid e) IsValid-Keeps py e event now v

module _ (py : PyText) (b : Bridge) (now : ℕ) (v : IsValid b.engine) where
  ended-IsValid : IsValid (stop_entertainment_session b now).0.engine
  unfolding stop_entertainment_session step
  ended-IsValid = keeps py b.engine Event.stop now v

  watchdog_woken-IsValid : IsValid (watchdog_woken b now).0.engine
  unfolding watchdog_woken
  watchdog_woken-IsValid =
      if-both FirstValid b.engine.active _ _
        (λ _.
          if-both FirstValid (ltb frame_timeout (now - b.engine.last_frame_time)) _ _
            (λ _. ended-IsValid) (λ _. v))
        (λ _. v)

  watchdog_from-IsValid : (task : Watchdog) → IsValid (watchdog_from task b now).0.engine
  unfolding watchdog_from
  watchdog_from-IsValid absent = v
  watchdog_from-IsValid created = if-both FirstValid b.engine.active _ _ (λ _. v) (λ _. v)
  watchdog_from-IsValid (sleeping wake_at) =
      if-both FirstValid (leb wake_at now) _ _ (λ _. watchdog_woken-IsValid) (λ _. v)
  watchdog_from-IsValid restoring = v
  watchdog_from-IsValid done = v

  call_back-IsValid :
      (states : States) (effect : Option Effect) (reply : Reply)
      → IsValid (call_back py states b effect reply now).0.engine
  unfolding call_back on_entertainment_start on_entertainment_stop stop_entertainment_session step
  call_back-IsValid states none reply = v
  call_back-IsValid states (some (started u)) reply = keeps py b.engine (Event.start states) now v
  call_back-IsValid states (some stopped) reply = keeps py b.engine Event.stop now v
  call_back-IsValid states (some (light_command id body)) reply =
      elim (Option-cases (handle_light_command py b.engine id body now)) [
        | inl p ↦ rw p v
        | inr (e, p) ↦ rw p (
            Outcome-keeps (λ e now. IsValid e) IsValid-Keeps b.engine e id now
              (handle_light_command-Outcome py b.engine id body now p) v)
      ]

  handle_pause-IsValid : (seconds : ℕ) → IsValid (or_refused b (handle_pause b seconds now)).engine
  unfolding handle_pause
  handle_pause-IsValid seconds =
      if-both (λ (o : Option Bridge). IsValid (or_refused b o).engine) (leb seconds max_yield) _ _
        (λ _. async_pause-IsValid b.engine now v seconds) (λ _. v)

  handle_release-IsValid :
      (seconds settle : ℕ) → IsValid (or_refused b (handle_release b seconds settle now)).engine
  unfolding handle_release
  handle_release-IsValid seconds settle =
      if-both (λ (o : Option Bridge). IsValid (or_refused b o).engine) (leb seconds max_yield) _ _
        (λ _.
          if-both (λ (o : Option Bridge). IsValid (or_refused b o).engine) (leb settle max_settle) _
            _ (λ _. async_release-IsValid b.engine now v seconds settle) (λ _. v))
        (λ _. v)

module _ (py : PyText) (host : PyHost) where
  bridge_step-IsValid :
      (b : Bridge) (event : BridgeEvent) (now : ℕ)
      → IsValid b.engine
      → IsValid (bridge_step py host b event now).engine
  unfolding bridge_step serve handle_resume frame_watchdog
  bridge_step-IsValid b (request route r states) now v =
      let o = handle py host b.api_server route r now in
      call_back-IsValid py (record b { api_server = o.api }) now v states o.effect o.reply
  bridge_step-IsValid b (pause_service seconds) now v = handle_pause-IsValid py b now v seconds
  bridge_step-IsValid b resume_service now v = async_resume-IsValid b.engine now v
  bridge_step-IsValid b (release_service seconds settle) now v =
      handle_release-IsValid py b now v seconds settle
  bridge_step-IsValid b watchdog_resumed now v = watchdog_from-IsValid py b now v b.watchdog
  bridge_step-IsValid b (frame bytes) now v = keeps py b.engine (Event.frame bytes) now v
  bridge_step-IsValid b pause_timer now v = keeps py b.engine Event.pause_timer now v
  bridge_step-IsValid b grace_timer now v = keeps py b.engine Event.grace_timer now v
  bridge_step-IsValid b (drain states) now v = keeps py b.engine (Event.drain states) now v

  pub bridge_run-IsValid :
      (b : Bridge) (now : ℕ) (history : List (ℕ × BridgeEvent))
      → IsValid b.engine
      → IsValid (bridge_run py host b now history).engine
  unfolding bridge_run
  bridge_run-IsValid b now [] v = v
  bridge_run-IsValid b now ((delay, event) ∷ rest) v =
      bridge_run-IsValid (bridge_step py host b event (now + delay)) (now + delay) rest
        (bridge_step-IsValid b event (now + delay) v)

  -- After any requests, service calls, frames, timers and resumed tasks at any times since the set-up,
  -- each a single step, a restore included, the engine's invariant holds: the timers and flags of pause
  -- and release agree, a release always has an end, and an active session has a drain loop.
  pub bridge_IsValid :
      (c : Config) (now : ℕ) (history : List (ℕ × BridgeEvent))
      → IsValid (bridge_run py host (async_setup_entry c now) now history).engine
  unfolding async_setup_entry
  bridge_IsValid c now history =
      bridge_run-IsValid (async_setup_entry c now) now history
        (new_engine-IsValid now (mappings_from 1 c.light_entities))
