-- ===== src/Bridge/Overtaken.antt =====
-- A session that starts while the watchdog of the one before still restores the lights: __init__.py, lines
-- 280-303.
use ha_hue_entertainment.Prelude.{
  ℕ, ◌≡◌, ◌<◌, ◌≤◌, ◌-◌, ◌∙◌, ap, refl, sym, subst, true, if◌then◌else◌,
}
use ha_hue_entertainment.Engine.Session.{States}
use ha_hue_entertainment.Engine.Overlaps.{start_fresh}
use ha_hue_entertainment.Engine.Valid.{IsValid}
use ha_hue_entertainment.Bridge.{
  Bridge, sleeping, restoring, done, unwatched, created, frame_timeout, frame_watchdog,
  watchdog_from, on_entertainment_start,
}
use ha_hue_entertainment.Bridge.Released.{frame_watchdog-timeout}

-- The start makes no watchdog, since the old one is not done.
kept_watchdog :
    (states : States) (b : Bridge) (now : ℕ)
    → b.watchdog ≡ restoring
    → (on_entertainment_start states b now).watchdog ≡ restoring
unfolding on_entertainment_start
kept_watchdog states b now e =
    subst (λ w. (if unwatched w then created else w) ≡ restoring) (sym e) refl

then_done :
    (b : Bridge) (now : ℕ)
    → b.watchdog ≡ restoring
    → ((frame_watchdog b now).0.engine ≡ b.engine) × ((frame_watchdog b now).0.watchdog ≡ done)
unfolding frame_watchdog watchdog_from
then_done b now e = rw e (refl, refl)

-- A watchdog that is due finds its session without frames beyond the timeout, and ends it. If the next
-- session starts before the lights have been restored, it has no watchdog: once they have, the old one is
-- done, and the session is active.
pub unwatched_session :
    (states : States) (b : Bridge) (wake_at now then_at later : ℕ)
    → IsValid b.engine
    → b.watchdog ≡ sleeping wake_at
    → b.engine.active ≡ true
    → wake_at ≤ now
    → frame_timeout < now - b.engine.last_frame_time
    → let started = on_entertainment_start states (frame_watchdog b now).0 then_at in
      let finished = (frame_watchdog started later).0 in
      (finished.engine.active ≡ true) × (finished.watchdog ≡ done)
unfolding on_entertainment_start
unwatched_session states b wake_at now then_at later v w a le lt =
    let ended = frame_watchdog-timeout b wake_at now v w a le lt in
    let woken = (frame_watchdog b now).0 in
    let started = on_entertainment_start states woken then_at in
    let finished =
      then_done started later (kept_watchdog states woken then_at ended.watchdog_ends) in
    (
      ap (λ e. e.active) finished.0
          ∙ start_fresh states woken.engine then_at ended.released ended.inactive,
      finished.1,
    )
