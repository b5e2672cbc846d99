-- ===== src/Engine/Valid/Restore.antt =====
-- What `async_restore_lights` of entertainment.py leaves behind.
use ha_hue_entertainment.Prelude.{ℕ, ◌≡◌, ap, ◌∙◌, true, false, none, [], arith}
use ha_hue_entertainment.Engine.{Engine, no_task, reset_stats}
use ha_hue_entertainment.Engine.Control.{cancel_release}
use ha_hue_entertainment.Engine.Session.{
  awaits_drain, drain_cancelled, restore_begin, restore_finish, restore_rest, async_restore_lights,
  list_or,
}
use ha_hue_entertainment.Engine.Valid.{IsValid}

module _ (e : Engine) (now : ℕ) where
  pub drain_cancelled-lem :
      let e' = drain_cancelled e now in
      (e'.active ≡ e.active)
      × (e'.saved_states ≡ e.saved_states)
      × (e'.paused_until ≡ e.paused_until)
      × (e'.pause_cancel ≡ e.pause_cancel)
      × (e'.releasing_flag ≡ e.releasing_flag)
      × (e'.release_forcing ≡ e.release_forcing)
      × (e'.release_cancel ≡ e.release_cancel)
  unfolding drain_cancelled
  drain_cancelled-lem = ground arith

  pub restore_finish-lem :
      let e' = (restore_finish true e now).0 in
      (e'.active ≡ e.active)
      × (e'.saved_states ≡ none)
      × (e'.drain_task ≡ no_task)
      × (e'.drain_running ≡ false)
      × (e'.paused_until ≡ e.paused_until)
      × (e'.pause_cancel ≡ e.pause_cancel)
      × (e'.releasing_flag ≡ e.releasing_flag)
      × (e'.release_forcing ≡ e.release_forcing)
      × (e'.release_cancel ≡ e.release_cancel)
  unfolding restore_finish reset_stats
  restore_finish-lem = ground arith

  pub cancel_release-lem :
      let e' = cancel_release e now in
      (e'.active ≡ e.active)
      × (e'.drain_task ≡ e.drain_task)
      × (e'.saved_states ≡ e.saved_states)
      × (e'.paused_until ≡ e.paused_until)
      × (e'.pause_cancel ≡ e.pause_cancel)
      × (e'.releasing_flag ≡ false)
      × (e'.release_forcing ≡ false)
      × (e'.release_cancel ≡ none)
  unfolding cancel_release
  cancel_release-lem = ground arith

-- With no other call between its parts the restore of a session waits for the drain loop and leaves
-- neither session, loop nor release behind.
pub record IsRestored (e e' : Engine) : Type 0 where
  pub inactive : e'.active ≡ false
  pub forgotten : e'.saved_states ≡ none
  pub loop_gone : e'.drain_task ≡ no_task
  pub loop_stopped : e'.drain_running ≡ false
  pub pause_kept : e'.paused_until ≡ e.paused_until
  pub timer_kept : e'.pause_cancel ≡ e.pause_cancel
  pub released : e'.releasing_flag ≡ false
  pub unforced : e'.release_forcing ≡ false
  pub grace_gone : e'.release_cancel ≡ none

pub restore_begin_lem :
    (e : Engine) (now : ℕ)
    → IsValid e
    → e.active ≡ true
    → restore_begin e now ≡ (cancel_release (record e { active = false }) now, awaits_drain)
unfolding restore_begin
restore_begin_lem e now v a = ground (arith, cancel_release-lem (record e { active = false }) now)

-- From an engine that satisfies its invariant and has a session, the restore leaves no session, no
-- snapshot, no drain loop and no release with its timer, and a pause with its timer as it was.
pub async_restore_lights-IsRestored :
    (e : Engine) (now : ℕ)
    → IsValid e
    → e.active ≡ true
    → IsRestored e (async_restore_lights e now).0
unfolding async_restore_lights restore_rest
async_restore_lights-IsRestored e now v a =
    let ended = cancel_release (record e { active = false }) now in
    rw (restore_begin_lem e now v a) (
      ground (
        arith,
        cancel_release-lem (record e { active = false }) now,
        drain_cancelled-lem ended now,
        restore_finish-lem (drain_cancelled ended now) now,
      ))

pub async_restore_lights_inactive :
    (e : Engine) (now : ℕ) → e.active ≡ false → async_restore_lights e now ≡ (e, [])
unfolding async_restore_lights restore_begin restore_rest
async_restore_lights_inactive e now a = rw a

-- What the lights are given.
pub async_restore_lights-states :
    (e : Engine) (now : ℕ)
    → IsValid e
    → e.active ≡ true
    → (async_restore_lights e now).1 ≡ list_or e.saved_states
unfolding async_restore_lights restore_rest restore_finish
async_restore_lights-states e now v a =
    let ended = cancel_release (record e { active = false }) now in
    rw (restore_begin_lem e now v a) (
      ap list_or (
        (drain_cancelled-lem ended now).1
        ∙ (cancel_release-lem (record e { active = false }) now).2))
