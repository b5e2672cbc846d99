-- ===== src/Bridge/Watched.antt =====
-- The watchdog of a session: __init__.py, lines 253-303.
use ha_hue_entertainment.Prelude.{
  ℕ, ◌≡◌, refl, ap, if◌then◌else◌, Bool-cases, ◌∙◌, sym, Bool, true, false, Option, none, some,
  List, [], ◌∷◌, ◌+◌, ◌-◌, arith, Option-cases, inl, inr, if-both, leb, ltb,
}
use ha_hue_entertainment.Json.{PyText}
use ha_hue_entertainment.HueApi.{Effect, started, stopped, light_command, Reply}
use ha_hue_entertainment.HueApi.Host.{PyHost}
use ha_hue_entertainment.HueApi.Handlers.{handle}
use ha_hue_entertainment.Engine.{Engine, State, new_engine}
use ha_hue_entertainment.Engine.Classic.{handle_light_command}
use ha_hue_entertainment.Engine.Control.{async_resume, on_pause_expired, on_release_grace_expired}
use ha_hue_entertainment.Engine.Session.{States}
use ha_hue_entertainment.Engine.Frames.{handle_frame}
use ha_hue_entertainment.Engine.Drain.{drain_step}
use ha_hue_entertainment.Engine.Steps.{fire, step}
use ha_hue_entertainment.Engine.View.{view-handle_frame}
use ha_hue_entertainment.Engine.Pulse.{pulse-drain_step, pulse-handle_light_command}
use ha_hue_entertainment.Bridge.{
  Bridge, absent, created, sleeping, restoring, done, unwatched, cancel_watchdog,
  stop_entertainment_session, Watchdog, frame_timeout, watchdog_from, watchdog_woken,
  frame_watchdog, on_entertainment_start, on_entertainment_stop, call_back, serve, handle_pause,
  handle_resume, handle_release, BridgeEvent, request, pause_service, resume_service,
  release_service, watchdog_resumed, frame, pause_timer, grace_timer, drain, or_refused,
  bridge_step, bridge_run,
}
use ha_hue_entertainment.Bridge.Setup.{Config, async_setup_entry}
use ha_hue_entertainment.Bridge.Active.{
  async_restore_lights-active, fire-active, async_pause-active, async_resume-active,
  async_release-active, on_pause_expired-active, on_release_grace_expired-active,
}

-- The task will look at the session: its first step is still to come, or it sleeps until its next look.
abbrev pub is_watching : Watchdog → Bool
is_watching absent = false
is_watching created = true
is_watching (sleeping wake_at) = true
is_watching restoring = false
is_watching done = false

abbrev pub is_restoring : Watchdog → Bool
is_restoring absent = false
is_restoring created = false
is_restoring (sleeping wake_at) = false
is_restoring restoring = true
is_restoring done = false

abbrev IsWatched : Bridge → Type 0
IsWatched b = b.engine.active ≡ true → is_watching b.watchdog ≡ true

-- A part that keeps the watchdog and starts no session.
kept :
    (b : Bridge) (e : Engine)
    → e.active ≡ b.engine.active
    → IsWatched b
    → IsWatched (record b { engine = e })
kept b e p w a = w (sym p ∙ a)

inactive-IsWatched : (b : Bridge) → b.engine.active ≡ false → IsWatched b
inactive-IsWatched b p a = cc

ended-active : (b : Bridge) (now : ℕ) → (stop_entertainment_session b now).0.engine.active ≡ false
unfolding stop_entertainment_session
ended-active b now = async_restore_lights-active b.engine now

ended-IsWatched : (b : Bridge) (now : ℕ) → IsWatched (stop_entertainment_session b now).0
ended-IsWatched b now = inactive-IsWatched (stop_entertainment_session b now).0 (ended-active b now)

started_watching :
    (w : Watchdog)
    → is_restoring w ≡ false
    → is_watching (if unwatched w then created else w) ≡ true
started_watching absent n = refl
started_watching created n = refl
started_watching (sleeping wake_at) n = refl
started_watching restoring n = absurd (ground arith)
started_watching done n = refl

call_back-IsWatched :
    (py : PyText) (states : States) (b : Bridge) (effect : Option Effect) (reply : Reply) (now : ℕ)
    → is_restoring b.watchdog ≡ false
    → IsWatched b
    → IsWatched (call_back py states b effect reply now).0
unfolding call_back on_entertainment_start on_entertainment_stop
call_back-IsWatched py states b none reply now n w = w
call_back-IsWatched py states b (some (started u)) reply now n w =
    λ a. started_watching b.watchdog n
call_back-IsWatched py states b (some stopped) reply now n w =
    ended-IsWatched (cancel_watchdog b) now
call_back-IsWatched py states b (some (light_command id body)) reply now n w =
    elim (Option-cases (handle_light_command py b.engine id body now)) [
      | inl p ↦ rw p w
      | inr (e, p) ↦
          rw p
            (kept b e (ap (λ q. q.active) (pulse-handle_light_command py b.engine id body now p)) w)
    ]

started_task-IsWatched :
    (b : Bridge) (wake_at : ℕ) → IsWatched (record b { watchdog = sleeping wake_at })
started_task-IsWatched b wake_at a = refl

abbrev FirstWatched : Bridge × List State → Type 0
FirstWatched r = IsWatched r.0

watchdog_woken-IsWatched : (b : Bridge) (now : ℕ) → IsWatched (watchdog_woken b now).0
unfolding watchdog_woken
watchdog_woken-IsWatched b now =
    if-both FirstWatched b.engine.active _ _
      (λ p.
        if-both FirstWatched (ltb frame_timeout (now - b.engine.last_frame_time)) _ _
          (λ _.
            inactive-IsWatched
              (record (stop_entertainment_session b now).0 { watchdog = restoring })
              (ended-active b now))
          (λ _ a. refl))
      (λ p. inactive-IsWatched (record b { watchdog = done }) p)

watchdog_from-IsWatched :
    (task : Watchdog) (b : Bridge) (now : ℕ)
    → is_restoring task ≡ false
    → IsWatched b
    → IsWatched (watchdog_from task b now).0
unfolding watchdog_from
watchdog_from-IsWatched absent b now n w = w
watchdog_from-IsWatched created b now n w =
    if-both FirstWatched b.engine.active _ _ (λ p a. refl)
      (λ p. inactive-IsWatched (record b { watchdog = done }) p)
watchdog_from-IsWatched (sleeping wake_at) b now n w =
    if-both FirstWatched (leb wake_at now) _ _ (λ _. watchdog_woken-IsWatched b now) (λ _. w)
watchdog_from-IsWatched restoring b now n w = absurd (ground arith)
watchdog_from-IsWatched done b now n w = w

or_refused-IsWatched :
    (b : Bridge) (o : Option Bridge)
    → IsWatched b
    → ((b' : Bridge) → o ≡ some b' → IsWatched b')
    → IsWatched (or_refused b o)
or_refused-IsWatched b none w h = w
or_refused-IsWatched b (some b') w h = h b' refl

handle_pause-IsWatched :
    (b b' : Bridge) (seconds now : ℕ)
    → IsWatched b
    → handle_pause b seconds now ≡ some b'
    → IsWatched b'
unfolding handle_pause
handle_pause-IsWatched b b' seconds now w p =
    λ a. ground (arith, async_pause-active b.engine now seconds)

handle_release-IsWatched :
    (b b' : Bridge) (seconds settle now : ℕ)
    → IsWatched b
    → handle_release b seconds settle now ≡ some b'
    → IsWatched b'
unfolding handle_release
handle_release-IsWatched b b' seconds settle now w p =
    λ a. ground (arith, async_release-active b.engine now seconds settle)

module _ (py : PyText) (host : PyHost) where
  bridge_step-IsWatched :
      (b : Bridge) (event : BridgeEvent) (now : ℕ)
      → is_restoring b.watchdog ≡ false
      → IsWatched b
      → IsWatched (bridge_step py host b event now)
  unfolding bridge_step serve handle_resume frame_watchdog step
  bridge_step-IsWatched b (request route r states) now n w =
      let o = handle py host b.api_server route r now in
      call_back-IsWatched py states (record b { api_server = o.api }) o.effect o.reply now n w
  bridge_step-IsWatched b (pause_service seconds) now n w =
      or_refused-IsWatched b (handle_pause b seconds now) w
        (λ b' p. handle_pause-IsWatched b b' seconds now w p)
  bridge_step-IsWatched b resume_service now n w =
      kept b (async_resume b.engine now) (async_resume-active b.engine now) w
  bridge_step-IsWatched b (release_service seconds settle) now n w =
      or_refused-IsWatched b (handle_release b seconds settle now) w
        (λ b' p. handle_release-IsWatched b b' seconds settle now w p)
  bridge_step-IsWatched b watchdog_resumed now n w = watchdog_from-IsWatched b.watchdog b now n w
  bridge_step-IsWatched b (frame bytes) now n w =
      kept b (handle_frame b.engine bytes now)
        (ap (λ v. v.active) (view-handle_frame b.engine bytes now)) w
  bridge_step-IsWatched b pause_timer now n w =
      kept b (fire b.engine.pause_cancel now (on_pause_expired b.engine now) b.engine)
        (fire-active b.engine.pause_cancel now (on_pause_expired b.engine now) b.engine
          (on_pause_expired-active b.engine now))
        w
  bridge_step-IsWatched b grace_timer now n w =
      kept b (fire b.engine.release_cancel now (on_release_grace_expired b.engine now) b.engine)
        (fire-active b.engine.release_cancel now (on_release_grace_expired b.engine now) b.engine
          (on_release_grace_expired-active b.engine now))
        w
  bridge_step-IsWatched b (drain states) now n w =
      kept b (drain_step states b.engine now).0
        (ap (λ q. q.active) (pulse-drain_step states b.engine now)) w

  -- No session starts while the watchdog of the last one still awaits the restore of the lights.
  abbrev pub StartsApart : Bridge → ℕ → List (ℕ × BridgeEvent) → Type 0
  StartsApart b now [] = Unit
  StartsApart b now ((delay, event) ∷ rest) =
      let b' = bridge_step py host b event (now + delay) in
      (is_restoring b.watchdog ≡ true → b'.engine.active ≡ false)
      × StartsApart b' (now + delay) rest

  bridge_run-IsWatched :
      (b : Bridge) (now : ℕ) (history : List (ℕ × BridgeEvent))
      → StartsApart b now history
      → IsWatched b
      → IsWatched (bridge_run py host b now history)
  unfolding bridge_run
  bridge_run-IsWatched b now [] apart w = w
  bridge_run-IsWatched b now ((delay, event) ∷ rest) (apart, later) w =
      bridge_run-IsWatched (bridge_step py host b event (now + delay)) (now + delay) rest later
        (elim (Bool-cases (is_restoring b.watchdog)) [
          | inl p ↦ inactive-IsWatched (bridge_step py host b event (now + delay)) (apart p)
          | inr p ↦ bridge_step-IsWatched b event (now + delay) p w
        ])

new-IsWatched : (c : Config) (now : ℕ) → IsWatched (async_setup_entry c now)
unfolding async_setup_entry new_engine
new-IsWatched c now = inactive-IsWatched (async_setup_entry c now) refl

-- After any requests, service calls, frames, timers and resumed tasks at any times since the set-up, if
-- no session has started while a watchdog that ended the one before awaited the restore of the lights:
-- while a session is active, its watchdog is about to begin or sleeps until its next look.
pub session_watched :
    (py : PyText) (host : PyHost) (c : Config) (now : ℕ) (history : List (ℕ × BridgeEvent))
    → StartsApart py host (async_setup_entry c now) now history
    → let b = bridge_run py host (async_setup_entry c now) now history in
      b.engine.active ≡ true → is_watching b.watchdog ≡ true
session_watched py host c now history apart =
    bridge_run-IsWatched py host (async_setup_entry c now) now history apart (new-IsWatched c now)
