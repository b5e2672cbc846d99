-- ===== src/Engine/Valid.antt =====
-- The invariant of the session, of pause and release, and of the drain loop.
pub mod Restore
pub mod Runs
use ha_hue_entertainment.Prelude.{
  ℕ, ◌+◌, ◌≡◌, refl, ◌⊎◌, inl, inr, Bool, true, false, Option, none, some, List, [], ◌∷◌, arith,
  subst, sym,
}
use ha_hue_entertainment.Json.{Fields, PyText, is_some}
use ha_hue_entertainment.ServiceData.{ServiceData}
use ha_hue_entertainment.Engine.{
  Engine, LightMapping, no_task, created, in_call, asleep, done, new_engine, notify, reset_mappings,
  reset_stats, ensure_drain_task,
}
use ha_hue_entertainment.Engine.Frames.{handle_frame}
use ha_hue_entertainment.Engine.Classic.{
  handle_light_command, Outcome, ignored, stored, handle_light_command-Outcome, store_command,
}
use ha_hue_entertainment.Engine.Control.{
  async_pause, async_resume, cancel_release, async_release, on_pause_expired,
  on_release_grace_expired,
}
use ha_hue_entertainment.Engine.Session.{
  States, is_alive, begin_session, Restoring, nothing, awaits_drain, straight, drain_cancelled,
  restore_finish, restore_begin, restore_rest, async_snapshot_lights, async_restore_lights,
}
use ha_hue_entertainment.Engine.Drain.{
  Action, scan, channel_ids, go_idle, run_round, finish_round, drain_step,
}
use ha_hue_entertainment.Engine.Steps.{
  Event, frame, command, start, stop, pause, resume, release, pause_timer, grace_timer, drain, fire,
  step, run,
}
use ha_hue_entertainment.Engine.View.{View, view, view-handle_frame, view-scan}

pub record ValidView (v : View) : Type 0 where
  pub timer_is_deadline : v.pause_cancel ≡ v.paused_until
  pub releasing_unpaused : v.releasing_flag ≡ true → v.paused_until ≡ none
  pub releasing_forgets : v.releasing_flag ≡ true → v.saved_states ≡ none
  pub releasing_ends :
      v.releasing_flag ≡ true → (v.release_forcing ≡ true) ⊎ (is_some v.release_cancel ≡ true)
  pub timer_releasing : is_some v.release_cancel ≡ true → v.releasing_flag ≡ true
  pub forcing_releasing : v.release_forcing ≡ true → v.releasing_flag ≡ true
  pub forcing_active : v.release_forcing ≡ true → v.active ≡ true
  pub active_drains : v.active ≡ true → v.drain_running ≡ true
  pub running_alive : v.drain_running ≡ is_alive v.drain_task

abbrev pub IsValid : Engine → Type 0
IsValid e = ValidView (view e)

pub new_engine-IsValid : (now : ℕ) (ms : List LightMapping) → IsValid (new_engine now ms)
unfolding new_engine
new_engine-IsValid now ms = ground arith

pub handle_frame-IsValid :
    (e : Engine) (bytes : List ℕ) (now : ℕ) → IsValid e → IsValid (handle_frame e bytes now)
handle_frame-IsValid e bytes now v = subst ValidView (sym (view-handle_frame e bytes now)) v

module _ (e : Engine) (now : ℕ) (v : IsValid e) where
  pub async_pause-IsValid : (seconds : ℕ) → IsValid (async_pause e seconds now)
  unfolding async_pause
  async_pause-IsValid seconds = ground arith

  pub async_resume-IsValid : IsValid (async_resume e now)
  unfolding async_resume
  async_resume-IsValid = ground arith

  pub async_release-IsValid : (seconds settle : ℕ) → IsValid (async_release e seconds settle now).0
  unfolding async_release
  async_release-IsValid seconds settle = ground arith

  pub on_pause_expired-IsValid : IsValid (on_pause_expired e now)
  unfolding on_pause_expired
  on_pause_expired-IsValid = ground arith

  pub on_release_grace_expired-IsValid : IsValid (on_release_grace_expired e now)
  unfolding on_release_grace_expired
  on_release_grace_expired-IsValid = ground arith

  pub cancel_release-IsValid :
      IsValid (cancel_release e now) × ((cancel_release e now).releasing_flag ≡ false)
  unfolding cancel_release
  cancel_release-IsValid = ground arith

  ensure_drain_task-IsValid : IsValid (ensure_drain_task e now)
  unfolding ensure_drain_task
  ensure_drain_task-IsValid = ground arith

  pub store_command-IsValid :
      (id : ℕ) (m : LightMapping) (d : Option ServiceData) → IsValid (store_command e id m d now)
  unfolding store_command
  store_command-IsValid id m none = v
  store_command-IsValid id m (some d) = ground arith

module _ (e : Engine) (now : ℕ) (v : IsValid e) where
  pub begin_session-IsValid :
      (states : States) → e.releasing_flag ≡ false → IsValid (begin_session states e now)
  unfolding begin_session
  begin_session-IsValid states r = ground arith
