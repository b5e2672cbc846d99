-- ===== src/Bridge/Active.antt =====
-- What ends a session and what leaves it: entertainment.py, lines 495-800.
use ha_hue_entertainment.Prelude.{ℕ, ◌≡◌, Bool, true, false, Option, arith}
use ha_hue_entertainment.Engine.{Engine}
use ha_hue_entertainment.Engine.Control.{
  async_pause, async_resume, async_release, on_pause_expired, on_release_grace_expired,
  cancel_release,
}
use ha_hue_entertainment.Engine.Session.{
  async_restore_lights, restore_begin, restore_rest, restore_finish, drain_cancelled,
}
use ha_hue_entertainment.Engine.Steps.{fire}
use ha_hue_entertainment.Engine.Valid.Restore.{drain_cancelled-lem, cancel_release-lem}

restore_finish-active :
    (awaited : Bool) (e : Engine) (now : ℕ) → (restore_finish awaited e now).0.active ≡ e.active
unfolding restore_finish
restore_finish-active true e now = ground arith
restore_finish-active false e now = ground arith

pub async_restore_lights-active :
    (e : Engine) (now : ℕ) → (async_restore_lights e now).0.active ≡ false
unfolding async_restore_lights restore_begin restore_rest
async_restore_lights-active e now =
    let ended = cancel_release (record e { active = false }) now in
    ground (
      arith,
      cancel_release-lem (record e { active = false }) now,
      drain_cancelled-lem ended now,
      restore_finish-active true (drain_cancelled ended now) now,
      restore_finish-active false ended now,
    )

pub fire-active :
    (timer : Option ℕ) (now : ℕ) (fired e : Engine)
    → fired.active ≡ e.active
    → (fire timer now fired e).active ≡ e.active
unfolding fire
fire-active timer now fired e p = ground arith

module _ (e : Engine) (now : ℕ) where
  pub async_pause-active : (seconds : ℕ) → (async_pause e seconds now).active ≡ e.active
  unfolding async_pause
  async_pause-active seconds = ground arith

  pub async_resume-active : (async_resume e now).active ≡ e.active
  unfolding async_resume
  async_resume-active = ground arith

  pub async_release-active :
      (seconds settle : ℕ) → (async_release e seconds settle now).0.active ≡ e.active
  unfolding async_release
  async_release-active seconds settle = ground arith

  pub on_pause_expired-active : (on_pause_expired e now).active ≡ e.active
  unfolding on_pause_expired
  on_pause_expired-active = ground arith

  pub on_release_grace_expired-active : (on_release_grace_expired e now).active ≡ e.active
  unfolding on_release_grace_expired cancel_release
  on_release_grace_expired-active = ground arith
