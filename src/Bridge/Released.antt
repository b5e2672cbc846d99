-- ===== src/Bridge/Released.antt =====
-- How the watchdog ends a session: one that has fallen silent, and one whose release was not heeded.
use ha_hue_entertainment.Prelude.{
  ℕ, ◌≡◌, refl, ap, ◌∙◌, sym, true, false, none, List, [], ◌+◌, ◌-◌, ◌<◌, ◌≤◌, if◌then◌else◌, ltb,
  le→leb, lt→ltb, subst,
}
use ha_hue_entertainment.HueApi.{clear_entertainment}
use ha_hue_entertainment.Engine.{State, no_task}
use ha_hue_entertainment.Engine.Session.{list_or}
use ha_hue_entertainment.Engine.Valid.{IsValid}
use ha_hue_entertainment.Engine.Valid.Restore.{
  async_restore_lights-IsRestored, async_restore_lights-states,
}
use ha_hue_entertainment.Bridge.{
  Bridge, sleeping, restoring, done, frame_timeout, stop_entertainment_session, watchdog_woken,
  watchdog_from, frame_watchdog,
}

-- The poll of the watchdog that finds no frame within the timeout is the end of the session.
watchdog_poll :
    (b : Bridge) (wake_at now : ℕ)
    → b.watchdog ≡ sleeping wake_at
    → b.engine.active ≡ true
    → wake_at ≤ now
    → frame_timeout < now - b.engine.last_frame_time
    → frame_watchdog b now ≡ (
      record (stop_entertainment_session b now).0 { watchdog = restoring },
      (stop_entertainment_session b now).1,
    )
unfolding frame_watchdog watchdog_from watchdog_woken
watchdog_poll b wake_at now w a le lt =
    ap (λ t. (watchdog_from t b now)) w
    ∙ ap (λ c. if c then watchdog_woken b now else (b, [])) (le→leb wake_at now le)
    ∙ ap
        (λ c.
          if c
          then (if ltb frame_timeout (now - b.engine.last_frame_time)
              then (
                record (stop_entertainment_session b now).0 { watchdog = restoring },
                (stop_entertainment_session b now).1,
              )
              else (record b { watchdog = sleeping (now + 2000) }, []))
          else (record b { watchdog = done }, []))
        a
    ∙ ap
        (λ c.
          if c
          then (
            record (stop_entertainment_session b now).0 { watchdog = restoring },
            (stop_entertainment_session b now).1,
          )
          else (record b { watchdog = sleeping (now + 2000) }, []))
        (lt→ltb _ _ lt)

pub record IsEnded (b : Bridge) (r : Bridge × List State) : Type 0 where
  pub inactive : r.0.engine.active ≡ false
  pub released : r.0.engine.releasing_flag ≡ false
  pub loop_gone : r.0.engine.drain_task ≡ no_task
  pub loop_stopped : r.0.engine.drain_running ≡ false
  pub flag_cleared : r.0.api_server.entertainment_active ≡ false
  pub owner_cleared : r.0.api_server.entertainment_owner ≡ none
  pub watchdog_ends : r.0.watchdog ≡ restoring
  pub lights_restored : r.1 ≡ list_or b.engine.saved_states

stop_entertainment_session-IsEnded :
    (b : Bridge) (now : ℕ)
    → IsValid b.engine
    → b.engine.active ≡ true
    → IsEnded b (
      record (stop_entertainment_session b now).0 { watchdog = restoring },
      (stop_entertainment_session b now).1,
    )
unfolding stop_entertainment_session clear_entertainment
stop_entertainment_session-IsEnded b now v a =
    let r = async_restore_lights-IsRestored b.engine now v a in
    record {
      inactive = r.inactive;
      released = r.released;
      loop_gone = r.loop_gone;
      loop_stopped = r.loop_stopped;
      flag_cleared = refl;
      owner_cleared = refl;
      watchdog_ends = refl;
      lights_restored = async_restore_lights-states b.engine now v a;
    }

-- On a bridge whose engine satisfies its invariant, a poll of the watchdog that is due and finds
-- an active session without a frame for more than the timeout ends it: the session, a release and the
-- drain loop are over, the API flags are cleared, the lights are given the states of the snapshot, none
-- where there is no snapshot, and the watchdog awaits nothing but them.
pub frame_watchdog-timeout :
    (b : Bridge) (wake_at now : ℕ)
    → IsValid b.engine
    → b.watchdog ≡ sleeping wake_at
    → b.engine.active ≡ true
    → wake_at ≤ now
    → frame_timeout < now - b.engine.last_frame_time
    → IsEnded b (frame_watchdog b now)
frame_watchdog-timeout b wake_at now v w a le lt =
    subst (IsEnded b) (sym (watchdog_poll b wake_at now w a le lt))
      (stop_entertainment_session-IsEnded b now v a)
