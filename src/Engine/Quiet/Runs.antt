-- ===== src/Engine/Quiet/Runs.antt =====
-- The slots stay clean while the engine is paused or releasing, over every history of calls.
use ha_hue_entertainment.Prelude.{
  ℕ, ◌+◌, ◌≡◌, ◌⊎◌, refl, sym, ap, ◌∙◌, Bool, true, false, Option, none, some, List, map, arith,
  subst, Option-cases, inl, inr, if-both, if◌then◌else◌,
}
use ha_hue_entertainment.Json.{PyText}
use ha_hue_entertainment.ServiceData.{ServiceData}
use ha_hue_entertainment.HueStream.{parse_huestream_frame}
use ha_hue_entertainment.Engine.{
  Engine, LightMapping, in_call, new_engine, suppressed, reset_mapping, reset_mappings, reset_stats,
  ensure_drain_task,
}
use ha_hue_entertainment.Engine.Frames.{count_frame, log_fps, handle_frame}
use ha_hue_entertainment.Engine.Classic.{store_command}
use ha_hue_entertainment.Engine.Control.{
  cancel_release, async_pause, async_resume, async_release, on_pause_expired,
  on_release_grace_expired,
}
use ha_hue_entertainment.Engine.Session.{
  States, begin_session, async_snapshot_lights, restore_begin, restore_finish, restore_rest,
  Restoring, nothing, awaits_drain, straight, drain_cancelled, async_restore_lights,
}
use ha_hue_entertainment.Engine.Drain.{scan, go_idle, drain_step}
use ha_hue_entertainment.Engine.Steps.{Event, end_of, run}
use ha_hue_entertainment.Engine.Steps.Keeps.{Keeps, run-keeps}
use ha_hue_entertainment.Engine.View.{
  view, view-scan, view-handle_frame, suppressed_of, suppressed-view,
}
use ha_hue_entertainment.Engine.Quiet.{
  AllClean, IsQuiet, reset-AllClean, scan-clean, is_call, resume_at-silent,
}

-- Only what is suppressed before is suppressed after, so clean slots may stay as they are.
suppressed_later :
    (e : Engine) (now delay : ℕ) → suppressed e (now + delay) ≡ true → suppressed e now ≡ true
unfolding suppressed
suppressed_later e now delay h = ground arith

by_view :
    (e e' : Engine) (now : ℕ)
    → view e' ≡ view e
    → suppressed e' now ≡ true
    → suppressed e now ≡ true
by_view e e' now p h =
    suppressed-view e now ∙ ap (λ v. suppressed_of v now) (sym p) ∙ sym (suppressed-view e' now) ∙ h

module _ (e : Engine) (now : ℕ) (q : IsQuiet e now) where
  frame_mappings :
      (bytes : List ℕ) → suppressed e now ≡ true → (handle_frame e bytes now).mappings ≡ e.mappings
  unfolding handle_frame count_frame log_fps suppressed
  frame_mappings bytes s = elim (Option-cases (parse_huestream_frame bytes)) [
    | inl p ↦ rw p
    | inr (f, p) ↦ rw p (ground arith)
  ]

  handle_frame-IsQuiet : (bytes : List ℕ) → IsQuiet (handle_frame e bytes now) now
  handle_frame-IsQuiet bytes = record {
    clean = λ h.
        let s = by_view e (handle_frame e bytes now) now (view-handle_frame e bytes now) h in
        rw (frame_mappings bytes s) (q.clean s);
  }

  scan-IsQuiet : (states : States) (ids : List ℕ) → IsQuiet (scan states ids e now).0 now
  scan-IsQuiet states ids = record {
    clean = λ h.
        let c = q.clean (by_view e (scan states ids e now).0 now (view-scan states ids e now) h) in
        subst (λ r. AllClean r.0) (sym (scan-clean states ids e now c)) c;
  }

  store_suppressed :
      (id : ℕ) (m : LightMapping) (d : Option ServiceData)
      → suppressed (store_command e id m d now) now ≡ suppressed e now
  unfolding store_command suppressed
  store_suppressed id m none = refl
  store_suppressed id m (some d) = ground arith

  store_command-IsQuiet :
      (id : ℕ) (m : LightMapping) (d : Option ServiceData)
      → suppressed e now ≡ false
      → IsQuiet (store_command e id m d now) now
  store_command-IsQuiet id m d s = record { clean = λ h. cc (store_suppressed id m d) }

-- An operation leaves the lights alone and starts no suppression, or flushes every slot.
abbrev Flushes : Engine → Engine → ℕ → Type 0
Flushes e e' now =
    ((e'.mappings ≡ e.mappings) × (suppressed e' now ≡ true → suppressed e now ≡ true))
    ⊎ (e'.mappings ≡ map reset_mapping e.mappings)

Flushes-IsQuiet : (e e' : Engine) (now : ℕ) → Flushes e e' now → IsQuiet e now → IsQuiet e' now
Flushes-IsQuiet e e' now (inl (kept, s)) q = record { clean = λ h. rw kept (q.clean (s h)) }
Flushes-IsQuiet e e' now (inr flushed) q = record {
  clean = λ h. rw flushed (reset-AllClean e.mappings);
}

module _ (e : Engine) (now : ℕ) where
  async_pause-Flushes : (seconds : ℕ) → Flushes e (async_pause e seconds now) now
  unfolding async_pause reset_mappings suppressed
  async_pause-Flushes seconds = ground arith

  async_resume-Flushes : Flushes e (async_resume e now) now
  unfolding async_resume suppressed
  async_resume-Flushes = ground arith

  async_release-Flushes :
      (seconds settle : ℕ) → Flushes e (async_release e seconds settle now).0 now
  unfolding async_release
  async_release-Flushes seconds settle = inr refl

  on_pause_expired-Flushes : Flushes e (on_pause_expired e now) now
  unfolding on_pause_expired suppressed
  on_pause_expired-Flushes = ground arith

  on_release_grace_expired-Flushes : Flushes e (on_release_grace_expired e now) now
  unfolding on_release_grace_expired suppressed
  on_release_grace_expired-Flushes = ground arith

  begin_session-AllClean : (states : States) → AllClean (begin_session states e now)
  unfolding begin_session ensure_drain_task reset_mappings
  begin_session-AllClean states = ground (arith, reset-AllClean e.mappings)

  restore_finish-AllClean : (awaited : Bool) → AllClean (restore_finish awaited e now).0
  unfolding restore_finish reset_stats
  restore_finish-AllClean awaited = ground (arith, reset-AllClean e.mappings)

async_snapshot_lights-IsQuiet :
    (states : States) (e : Engine) (now : ℕ)
    → IsQuiet e now
    → IsQuiet (async_snapshot_lights states e now) now
unfolding async_snapshot_lights
async_snapshot_lights-IsQuiet states e now q =
    let P = λ (x : Engine). IsQuiet x now in
    let old = begin_session states (cancel_release e now) now in
    let fresh = begin_session states e now in
    if-both P e.releasing_flag old (if e.active then e else fresh)
      (λ p. record { clean = λ h. begin_session-AllClean (cancel_release e now) now states })
      (λ p.
        if-both P e.active e fresh (λ r. q)
          (λ r. record { clean = λ h. begin_session-AllClean e now states }))

restore_begin_inactive :
    (e : Engine) (now : ℕ) → (restore_begin e now).1 ≡ nothing → (restore_begin e now).0 ≡ e
unfolding restore_begin
restore_begin_inactive e now p = ground arith

restore_rest-IsQuiet :
    (e : Engine) (how : Restoring) (now : ℕ)
    → (how ≡ nothing → IsQuiet e now)
    → IsQuiet (restore_rest e how now).0 now
unfolding restore_rest
restore_rest-IsQuiet e nothing now h = h refl
restore_rest-IsQuiet e awaits_drain now h = record {
  clean = λ s. restore_finish-AllClean (drain_cancelled e now) now true;
}
restore_rest-IsQuiet e straight now h = record { clean = λ s. restore_finish-AllClean e now false }

async_restore_lights-IsQuiet :
    (e : Engine) (now : ℕ) → IsQuiet e now → IsQuiet (async_restore_lights e now).0 now
unfolding async_restore_lights
async_restore_lights-IsQuiet e now q =
    restore_rest-IsQuiet (restore_begin e now).0 (restore_begin e now).1 now
      (λ p. rw (restore_begin_inactive e now p) q)

go_idle-Flushes : (e : Engine) (since : Option ℕ) (now : ℕ) → Flushes e (go_idle since e now).0 now
unfolding go_idle suppressed
go_idle-Flushes e since now = ground arith

same_suppressed :
    (e e' : Engine) (now : ℕ)
    → e'.mappings ≡ e.mappings
    → suppressed e' now ≡ suppressed e now
    → IsQuiet e now
    → IsQuiet e' now
same_suppressed e e' now m s q = Flushes-IsQuiet e e' now (inl (m, λ h. sym s ∙ h)) q

wake-IsQuiet : (e : Engine) (now : ℕ) → IsQuiet e now → IsQuiet (record e { wake = false }) now
unfolding suppressed
wake-IsQuiet e now q = same_suppressed e (record e { wake = false }) now refl refl q

in_call-IsQuiet :
    (e : Engine) (rest : List ℕ) (now : ℕ)
    → IsQuiet e now
    → IsQuiet (record e { drain_task = in_call rest }) now
unfolding suppressed
in_call-IsQuiet e rest now q =
    same_suppressed e (record e { drain_task = in_call rest }) now refl refl q

IsQuiet-Keeps : Keeps IsQuiet
IsQuiet-Keeps = record {
  later = λ e now delay q. record { clean = λ h. q.clean (suppressed_later e now delay h) };
  at_frame = λ e bytes now q. handle_frame-IsQuiet e now q bytes;
  at_command = λ e id m d now s g q. store_command-IsQuiet e now q id m d s;
  at_start = async_snapshot_lights-IsQuiet;
  at_stop = async_restore_lights-IsQuiet;
  at_pause = λ e seconds now q.
      Flushes-IsQuiet e (async_pause e seconds now) now (async_pause-Flushes e now seconds) q;
  at_resume = λ e now q. Flushes-IsQuiet e (async_resume e now) now (async_resume-Flushes e now) q;
  at_release = λ e seconds settle now q.
      Flushes-IsQuiet e (async_release e seconds settle now).0 now
        (async_release-Flushes e now seconds settle) q;
  at_pause_timer =
      λ e now q. Flushes-IsQuiet e (on_pause_expired e now) now (on_pause_expired-Flushes e now) q;
  at_grace_timer = λ e now q.
      Flushes-IsQuiet e (on_release_grace_expired e now) now
        (on_release_grace_expired-Flushes e now) q;
  drains = record {
    at_scan = λ states ids e now q. scan-IsQuiet e now q states ids;
    at_round = wake-IsQuiet;
    at_call = λ e rest now a q. in_call-IsQuiet e rest now q;
    at_idle = λ e since now a q.
        Flushes-IsQuiet e (go_idle since e now).0 now (go_idle-Flushes e since now) q;
  };
}

new_engine-IsQuiet : (now : ℕ) (lights : List LightMapping) → IsQuiet (new_engine now lights) now
unfolding new_engine suppressed
new_engine-IsQuiet now lights = record { clean = λ h. cc }

-- After any calls at any times: while the engine is paused or releasing, the drain loop, resumed
-- wherever it waits, makes no service call.
pub suppressed-drain_step :
    (py : PyText) (states : States) (start : ℕ) (lights : List LightMapping)
    (history : List (ℕ × Event))
    → let e = run py (new_engine start lights) start history in
      let now = end_of start history in
      suppressed e now ≡ true → is_call (drain_step states e now).1 ≡ false
unfolding drain_step
suppressed-drain_step py states start lights history h =
    let e = run py (new_engine start lights) start history in
    let now = end_of start history in
    let q =
      run-keeps IsQuiet IsQuiet-Keeps py (new_engine start lights) start history
        (new_engine-IsQuiet start lights) in
    resume_at-silent states e.drain_task e now (q.clean h)
