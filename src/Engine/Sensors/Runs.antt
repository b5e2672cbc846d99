-- ===== src/Engine/Sensors/Runs.antt =====
-- The sensors show the current status after every history of calls.
use ha_hue_entertainment.Prelude.{
  ℕ, ◌≡◌, refl, sym, true, false, Option, List, arith, subst, if-both, if◌then◌else◌,
}
use ha_hue_entertainment.Json.{PyText}
use ha_hue_entertainment.Engine.{Engine, LightMapping, new_engine, status, is_driving_lights}
use ha_hue_entertainment.Engine.Control.{cancel_release}
use ha_hue_entertainment.Engine.Session.{
  States, begin_session, drain_cancelled, restore_begin, restore_rest, awaits_drain, straight,
  nothing, Restoring, async_snapshot_lights, async_restore_lights,
}
use ha_hue_entertainment.Engine.Drain.{go_idle}
use ha_hue_entertainment.Engine.Steps.{Event, end_of, run}
use ha_hue_entertainment.Engine.Steps.Keeps.{Keeps, run-keeps}
use ha_hue_entertainment.Engine.View.{view-scan}
use ha_hue_entertainment.Engine.Sensors.{
  is_overdue, CurrentView, IsCurrent, IsCurrent-later, handle_frame-IsCurrent,
  on_pause_expired-IsCurrent, async_release-IsCurrent, begin_session-IsCurrent,
  restore_finish-IsCurrent, async_pause-IsCurrent, async_resume-IsCurrent,
  on_release_grace_expired-IsCurrent, store_command-IsCurrent,
}

async_snapshot_lights-IsCurrent :
    (states : States) (e : Engine) (now : ℕ)
    → IsCurrent e now
    → IsCurrent (async_snapshot_lights states e now) now
unfolding async_snapshot_lights
async_snapshot_lights-IsCurrent states e now c =
    let P = λ (x : Engine). IsCurrent x now in
    let old = begin_session states (cancel_release e now) now in
    let fresh = begin_session states e now in
    if-both P e.releasing_flag old (if e.active then e else fresh)
      (λ p. begin_session-IsCurrent (cancel_release e now) now states)
      (λ p. if-both P e.active e fresh (λ q. c) (λ q. begin_session-IsCurrent e now states))

restore_begin_inactive :
    (e : Engine) (now : ℕ) → (restore_begin e now).1 ≡ nothing → (restore_begin e now).0 ≡ e
unfolding restore_begin
restore_begin_inactive e now p = ground arith

restore_rest-IsCurrent :
    (e : Engine) (how : Restoring) (now : ℕ)
    → (how ≡ nothing → IsCurrent e now)
    → IsCurrent (restore_rest e how now).0 now
unfolding restore_rest
restore_rest-IsCurrent e nothing now h = h refl
restore_rest-IsCurrent e awaits_drain now h =
    restore_finish-IsCurrent (drain_cancelled e now) now true
restore_rest-IsCurrent e straight now h = restore_finish-IsCurrent e now false

async_restore_lights-IsCurrent :
    (e : Engine) (now : ℕ) → IsCurrent e now → IsCurrent (async_restore_lights e now).0 now
unfolding async_restore_lights
async_restore_lights-IsCurrent e now c =
    restore_rest-IsCurrent (restore_begin e now).0 (restore_begin e now).1 now
      (λ p. rw (restore_begin_inactive e now p) c)

go_idle-IsCurrent :
    (e : Engine) (since : Option ℕ) (now : ℕ)
    → IsCurrent e now
    → IsCurrent (go_idle since e now).0 now
unfolding go_idle
go_idle-IsCurrent e since now c = ground arith

IsCurrent-Keeps : Keeps IsCurrent
IsCurrent-Keeps = record {
  later = IsCurrent-later;
  at_frame = handle_frame-IsCurrent;
  at_command = λ e id m d now s g c. store_command-IsCurrent e now c id m d;
  at_start = async_snapshot_lights-IsCurrent;
  at_stop = async_restore_lights-IsCurrent;
  at_pause = λ e seconds now c. async_pause-IsCurrent e now c seconds;
  at_resume = async_resume-IsCurrent;
  at_release = λ e seconds settle now c. async_release-IsCurrent e now seconds settle;
  at_pause_timer = λ e now c. on_pause_expired-IsCurrent e now;
  at_grace_timer = on_release_grace_expired-IsCurrent;
  drains = record {
    at_scan =
        λ states ids e now c. subst (λ v. CurrentView v now) (sym (view-scan states ids e now)) c;
    at_round = λ e now c. c;
    at_call =
        λ e rest now a c. record { shown_right = c.shown_right; driving_right = c.driving_right };
    at_idle = λ e since now a c. go_idle-IsCurrent e since now c;
  };
}

new_engine-IsCurrent :
    (now : ℕ) (lights : List LightMapping) → IsCurrent (new_engine now lights) now
unfolding new_engine
new_engine-IsCurrent now lights = record { shown_right = λ _. refl; driving_right = λ _. refl }

-- After any calls at any times both sensors show what the engine then is, unless a pause has run out
-- and its timer is still to fire.
pub sensors_show_status :
    (py : PyText) (start : ℕ) (lights : List LightMapping) (history : List (ℕ × Event))
    → let e = run py (new_engine start lights) start history in
      let now = end_of start history in
      is_overdue e.paused_until now ≡ false
      → (e.shown ≡ status e now) × (e.shown_driving ≡ is_driving_lights e now)
unfolding status is_driving_lights
sensors_show_status py start lights history h =
    let c =
      run-keeps IsCurrent IsCurrent-Keeps py (new_engine start lights) start history
        (new_engine-IsCurrent start lights) in
    (c.shown_right h, c.driving_right h)
