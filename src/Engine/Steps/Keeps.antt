-- ===== src/Engine/Steps/Keeps.antt =====
-- Invariants of the engine over every history of calls: what has to be shown of each operation, and
-- the induction that follows from it once and for all.
use ha_hue_entertainment.Prelude.{
  ℕ, ◌+◌, ◌≡◌, refl, ap, ◌∙◌, true, false, Option, none, some, List, [], ◌∷◌, Option-cases, inl,
  inr, if-both, leb,
}
use ha_hue_entertainment.Json.{Fields, PyText}
use ha_hue_entertainment.ServiceData.{ServiceData}
use ha_hue_entertainment.Engine.{
  Engine, LightMapping, DrainTask, no_task, created, in_call, asleep, done, suppressed, get_mapping,
}
use ha_hue_entertainment.Engine.Frames.{handle_frame}
use ha_hue_entertainment.Engine.Classic.{
  Outcome, ignored, stored, store_command, handle_light_command, handle_light_command-Outcome,
}
use ha_hue_entertainment.Engine.Control.{
  async_pause, async_resume, async_release, on_pause_expired, on_release_grace_expired,
}
use ha_hue_entertainment.Engine.Session.{
  States, is_alive, async_snapshot_lights, async_restore_lights,
}
use ha_hue_entertainment.Engine.Drain.{
  Action, Found, call_or, scan, channel_ids, go_idle, run_round, finish_round, resume_at,
  drain_step,
}
use ha_hue_entertainment.Engine.Steps.{
  Event, end_of, frame, command, start, stop, pause, resume, release, pause_timer, grace_timer,
  drain, fire, step, run,
}
use ha_hue_entertainment.Engine.View.{view-scan}

pub record Drains (P : Engine → ℕ → Type 0) : Type 0 where
  pub at_scan :
      (states : States) (ids : List ℕ) (e : Engine) (now : ℕ)
      → P e now
      → P (scan states ids e now).0 now
  pub at_round : (e : Engine) (now : ℕ) → P e now → P (record e { wake = false }) now
  pub at_call :
      (e : Engine) (rest : List ℕ) (now : ℕ)
      → is_alive e.drain_task ≡ true
      → P e now
      → P (record e { drain_task = in_call rest }) now
  pub at_idle :
      (e : Engine) (since : Option ℕ) (now : ℕ)
      → is_alive e.drain_task ≡ true
      → P e now
      → P (go_idle since e now).0 now

module _ (P : Engine → ℕ → Type 0) (d : Drains P) where
  scan_alive :
      (states : States) (ids : List ℕ) (e : Engine) (now : ℕ)
      → is_alive e.drain_task ≡ true
      → is_alive (scan states ids e now).0.drain_task ≡ true
  scan_alive states ids e now a = ap (λ v. is_alive v.drain_task) (view-scan states ids e now) ∙ a

  call_or-keeps :
      (found : Found) (go_on : Engine → Engine × Action) (now : ℕ)
      → is_alive found.0.drain_task ≡ true
      → P found.0 now
      → ((e : Engine) → is_alive e.drain_task ≡ true → P e now → P (go_on e).0 now)
      → P (call_or found go_on).0 now
  call_or-keeps (e, none) go_on now a h g = g e a h
  call_or-keeps (e, some (service, sent, ids)) go_on now a h g = d.at_call e ids now a h

  run_round-keeps :
      (states : States) (since : Option ℕ) (e : Engine) (now : ℕ)
      → is_alive e.drain_task ≡ true
      → P e now
      → P (run_round states since e now).0 now
  unfolding run_round
  run_round-keeps states since e now a h =
      let awake = record e { wake = false } in
      call_or-keeps (scan states (channel_ids e) awake now) (λ e'. go_idle since e' now) now
        (scan_alive states (channel_ids e) awake now a)
        (d.at_scan states (channel_ids e) awake now (d.at_round e now h))
        (λ e' a' h'. d.at_idle e' since now a' h')

  finish_round-keeps :
      (states : States) (rest : List ℕ) (e : Engine) (now : ℕ)
      → is_alive e.drain_task ≡ true
      → P e now
      → P (finish_round states rest e now).0 now
  unfolding finish_round
  finish_round-keeps states rest e now a h =
      call_or-keeps (scan states rest e now) (λ e'. run_round states none e' now) now
        (scan_alive states rest e now a) (d.at_scan states rest e now h)
        (λ e' a' h'. run_round-keeps states none e' now a' h')

  pub resume_at-keeps :
      (states : States) (task : DrainTask) (e : Engine) (now : ℕ)
      → e.drain_task ≡ task
      → P e now
      → P (resume_at states task e now).0 now
  unfolding resume_at
  resume_at-keeps states no_task e now t h = h
  resume_at-keeps states created e now t h = run_round-keeps states none e now (ap is_alive t) h
  resume_at-keeps states (in_call rest) e now t h =
      finish_round-keeps states rest e now (ap is_alive t) h
  resume_at-keeps states (asleep since) e now t h =
      run_round-keeps states since e now (ap is_alive t) h
  resume_at-keeps states done e now t h = h

pub record Keeps (P : Engine → ℕ → Type 0) : Type 0 where
  pub later : (e : Engine) (now delay : ℕ) → P e now → P e (now + delay)
  pub at_frame :
      (e : Engine) (bytes : List ℕ) (now : ℕ) → P e now → P (handle_frame e bytes now) now
  pub at_command :
      (e : Engine) (id : ℕ) (m : LightMapping) (d : Option ServiceData) (now : ℕ)
      → suppressed e now ≡ false
      → get_mapping id e.mappings ≡ some m
      → P e now
      → P (store_command e id m d now) now
  pub at_start :
      (states : States) (e : Engine) (now : ℕ)
      → P e now
      → P (async_snapshot_lights states e now) now
  pub at_stop : (e : Engine) (now : ℕ) → P e now → P (async_restore_lights e now).0 now
  pub at_pause : (e : Engine) (seconds now : ℕ) → P e now → P (async_pause e seconds now) now
  pub at_resume : (e : Engine) (now : ℕ) → P e now → P (async_resume e now) now
  pub at_release :
      (e : Engine) (seconds settle now : ℕ) → P e now → P (async_release e seconds settle now).0 now
  pub at_pause_timer : (e : Engine) (now : ℕ) → P e now → P (on_pause_expired e now) now
  pub at_grace_timer : (e : Engine) (now : ℕ) → P e now → P (on_release_grace_expired e now) now
  pub drains : Drains P

module _ (P : Engine → ℕ → Type 0) (k : Keeps P) where
  pub Outcome-keeps : (e e' : Engine) (id now : ℕ) → Outcome e id now e' → P e now → P e' now
  Outcome-keeps e e' id now (ignored p) h = rw p h
  Outcome-keeps e e' id now (stored m d s g p) h = rw p (k.at_command e id m d now s g h)

  command-keeps :
      (py : PyText) (e : Engine) (id : ℕ) (body : Fields) (now : ℕ)
      → P e now
      → P (step py e (command id body) now) now
  unfolding step
  command-keeps py e id body now h = elim (Option-cases (handle_light_command py e id body now)) [
    | inl p ↦ rw p h
    | inr (e', p) ↦
        rw p (Outcome-keeps e e' id now (handle_light_command-Outcome py e id body now p) h)
  ]

  fire-keeps :
      (timer : Option ℕ) (now : ℕ) (fired e : Engine)
      → P fired now
      → P e now
      → P (fire timer now fired e) now
  unfolding fire
  fire-keeps none now fired e f h = h
  fire-keeps (some deadline) now fired e f h =
      if-both (λ x. P x now) (leb deadline now) fired e (λ _. f) (λ _. h)

  pub step-keeps :
      (py : PyText) (e : Engine) (event : Event) (now : ℕ) → P e now → P (step py e event now) now
  unfolding step drain_step
  step-keeps py e (frame bytes) now h = k.at_frame e bytes now h
  step-keeps py e (command id body) now h = command-keeps py e id body now h
  step-keeps py e (start states) now h = k.at_start states e now h
  step-keeps py e stop now h = k.at_stop e now h
  step-keeps py e (pause seconds) now h = k.at_pause e seconds now h
  step-keeps py e resume now h = k.at_resume e now h
  step-keeps py e (release seconds settle) now h = k.at_release e seconds settle now h
  step-keeps py e pause_timer now h =
      fire-keeps e.pause_cancel now (on_pause_expired e now) e (k.at_pause_timer e now h) h
  step-keeps py e grace_timer now h =
      fire-keeps e.release_cancel now (on_release_grace_expired e now) e (k.at_grace_timer e now h)
        h
  step-keeps py e (drain states) now h = resume_at-keeps P k.drains states e.drain_task e now refl h

  pub run-keeps :
      (py : PyText) (e : Engine) (now : ℕ) (history : List (ℕ × Event))
      → P e now
      → P (run py e now history) (end_of now history)
  unfolding run
  run-keeps py e now [] h = h
  run-keeps py e now ((delay, event) ∷ rest) h =
      run-keeps py (step py e event (now + delay)) (now + delay) rest
        (step-keeps py e event (now + delay) (k.later e now delay h))
