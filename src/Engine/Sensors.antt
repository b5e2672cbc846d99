-- ===== src/Engine/Sensors.antt =====
-- What the status sensor and the binary sensor show (sensor.py, binary_sensor.py) against the status
-- that the engine has.
pub mod Runs
use ha_hue_entertainment.Prelude.{
  ℕ, ◌+◌, ◌≡◌, refl, sym, ap, ◌∙◌, Bool, true, false, Option, none, some, List, arith, subst, leb,
  Bool-cases, inl, inr, if-both,
}
use ha_hue_entertainment.ServiceData.{ServiceData}
use ha_hue_entertainment.Engine.{
  Engine, LightMapping, notify, reset_stats, reset_mappings, ensure_drain_task,
}
use ha_hue_entertainment.Engine.Frames.{handle_frame}
use ha_hue_entertainment.Engine.Classic.{store_command}
use ha_hue_entertainment.Engine.Control.{
  cancel_release, async_pause, async_resume, async_release, on_pause_expired,
  on_release_grace_expired,
}
use ha_hue_entertainment.Engine.Session.{
  States, begin_session, drain_cancelled, restore_begin, restore_finish, restore_rest,
  async_restore_lights,
}
use ha_hue_entertainment.Engine.Drain.{scan, channel_ids, go_idle, run_round}
use ha_hue_entertainment.Engine.View.{
  View, view, view-handle_frame, view-scan, status_of, driving_of,
}

-- A pause is over and its timer has still to fire.
abbrev pub is_overdue : Option ℕ → ℕ → Bool
is_overdue none now = false
is_overdue (some until) now = leb until now

pub record CurrentView (v : View) (now : ℕ) : Type 0 where
  pub shown_right : is_overdue v.paused_until now ≡ false → v.shown ≡ status_of v now
  pub driving_right : is_overdue v.paused_until now ≡ false → v.shown_driving ≡ driving_of v now

abbrev pub IsCurrent : Engine → ℕ → Type 0
IsCurrent e now = CurrentView (view e) now

notify-IsCurrent : (e : Engine) (now : ℕ) → IsCurrent (notify e now) now
unfolding notify
notify-IsCurrent e now = record { shown_right = λ _. refl; driving_right = λ _. refl }

-- Nothing changes while time passes, up to the end of a pause.
pub IsCurrent-later : (e : Engine) (now delay : ℕ) → IsCurrent e now → IsCurrent e (now + delay)
IsCurrent-later e now delay c = ground arith

pub handle_frame-IsCurrent :
    (e : Engine) (bytes : List ℕ) (now : ℕ)
    → IsCurrent e now
    → IsCurrent (handle_frame e bytes now) now
handle_frame-IsCurrent e bytes now c =
    subst (λ v. CurrentView v now) (sym (view-handle_frame e bytes now)) c

module _ (e : Engine) (now : ℕ) where
  pub on_pause_expired-IsCurrent : IsCurrent (on_pause_expired e now) now
  unfolding on_pause_expired
  on_pause_expired-IsCurrent =
      notify-IsCurrent (record e { paused_until = none; pause_cancel = none }) now

  pub async_release-IsCurrent :
      (seconds settle : ℕ) → IsCurrent (async_release e seconds settle now).0 now
  unfolding async_release
  async_release-IsCurrent seconds settle = ground arith

  pub begin_session-IsCurrent : (states : States) → IsCurrent (begin_session states e now) now
  unfolding begin_session
  begin_session-IsCurrent states = ground arith

  pub restore_finish-IsCurrent : (awaited : Bool) → IsCurrent (restore_finish awaited e now).0 now
  unfolding restore_finish reset_stats
  restore_finish-IsCurrent awaited = ground arith

module _ (e : Engine) (now : ℕ) (c : IsCurrent e now) where
  pub async_pause-IsCurrent : (seconds : ℕ) → IsCurrent (async_pause e seconds now) now
  unfolding async_pause
  async_pause-IsCurrent seconds = ground arith

  pub async_resume-IsCurrent : IsCurrent (async_resume e now) now
  unfolding async_resume
  async_resume-IsCurrent = ground arith

  pub on_release_grace_expired-IsCurrent : IsCurrent (on_release_grace_expired e now) now
  unfolding on_release_grace_expired
  on_release_grace_expired-IsCurrent = ground arith

  pub store_command-IsCurrent :
      (id : ℕ) (m : LightMapping) (d : Option ServiceData)
      → IsCurrent (store_command e id m d now) now
  unfolding store_command
  store_command-IsCurrent id m none = c
  store_command-IsCurrent id m (some d) = ground arith
