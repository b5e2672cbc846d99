-- ===== src/Engine/Quiet.antt =====
-- While the engine is paused or releasing, no slot holds a command and the drain loop sends none.
pub mod Runs
use ha_hue_entertainment.Prelude.{
  ℕ, ◌+◌, ◌≡◌, refl, sym, ap, ◌∙◌, Bool, true, false, Option, none, some, List, [], ◌∷◌, map, All,
  arith, subst, Bool-cases, Option-cases, inl, inr, if-both, if◌then◌else◌, ◌==◌, ltb,
}
use ha_hue_entertainment.Json.{PyText}
use ha_hue_entertainment.ServiceData.{ServiceData}
use ha_hue_entertainment.HueStream.{parse_huestream_frame}
use ha_hue_entertainment.Engine.{
  Engine, LightMapping, DrainTask, no_task, created, in_call, asleep, done, new_engine, is_before,
  suppressed, get_mapping, reset_mapping, reset_mappings, reset_stats, ensure_drain_task,
}
use ha_hue_entertainment.Engine.Frames.{count_frame, log_fps, handle_frame}
use ha_hue_entertainment.Engine.Classic.{store_command}
use ha_hue_entertainment.Engine.Control.{
  cancel_release, async_pause, async_resume, async_release, on_pause_expired,
  on_release_grace_expired,
}
use ha_hue_entertainment.Engine.Session.{
  States, is_alive, begin_session, async_snapshot_lights, restore_begin, restore_finish,
  restore_rest, Restoring, nothing, awaits_drain, straight, drain_cancelled, async_restore_lights,
}
use ha_hue_entertainment.Engine.Drain.{
  Action, call, wait, returned, visit, scan, found_or, call_or, channel_ids, go_idle, run_round,
  finish_round, resume_at, drain_step,
}
use ha_hue_entertainment.Engine.Steps.{Event, end_of, run}
use ha_hue_entertainment.Engine.Steps.Keeps.{Keeps, run-keeps}
use ha_hue_entertainment.Engine.View.{
  View, view, view-scan, view-handle_frame, suppressed_of, suppressed-view,
}

abbrev pub AllClean : Engine → Type 0
AllClean e = All (λ m. m.dirty ≡ false) e.mappings

pub reset-AllClean : (ms : List LightMapping) → All (λ m. m.dirty ≡ false) (map reset_mapping ms)
unfolding reset_mapping
reset-AllClean [] = tt
reset-AllClean (m ∷ ms) = (refl, reset-AllClean ms)

-- What is suppressed is clean.
pub record IsQuiet (e : Engine) (now : ℕ) : Type 0 where
  pub clean : suppressed e now ≡ true → AllClean e

get_mapping-clean :
    (id : ℕ) (ms : List LightMapping) (m : LightMapping)
    → All (λ m. m.dirty ≡ false) ms
    → get_mapping id ms ≡ some m
    → m.dirty ≡ false
unfolding get_mapping
get_mapping-clean id [] m c g = cc
get_mapping-clean id (x ∷ ms) m c g = elim (Bool-cases (x.channel_id == id)) [
  | inl p ↦ ground arith
  | inr p ↦ get_mapping-clean id ms m c.1 (ground arith)
]

visit-clean :
    (states : States) (id : ℕ) (e : Engine) (now : ℕ)
    → AllClean e
    → visit states id e now ≡ (e, none)
unfolding visit
visit-clean states id e now c = elim (Option-cases (get_mapping id e.mappings)) [
  | inl p ↦ ground arith
  | inr (m, p) ↦ ground (arith, get_mapping-clean id e.mappings m c p)
]

-- Over clean slots a round sends nothing and changes nothing.
pub scan-clean :
    (states : States) (ids : List ℕ) (e : Engine) (now : ℕ)
    → AllClean e
    → scan states ids e now ≡ (e, none)
unfolding scan
scan-clean states [] e now c = refl
scan-clean states (id ∷ ids) e now c =
    ap (λ r. found_or r ids (λ e'. scan states ids e' now)) (visit-clean states id e now c)
    ∙ scan-clean states ids e now c

abbrev pub is_call : Action → Bool
is_call (call service d) = true
is_call wait = false
is_call returned = false

go_idle-silent : (since : Option ℕ) (e : Engine) (now : ℕ) → is_call (go_idle since e now).1 ≡ false
unfolding go_idle
go_idle-silent since e now = ground arith

run_round-silent :
    (states : States) (since : Option ℕ) (e : Engine) (now : ℕ)
    → AllClean e
    → is_call (run_round states since e now).1 ≡ false
unfolding run_round
run_round-silent states since e now c =
    let awake = record e { wake = false } in
    ap (λ r. is_call (call_or r (λ e'. go_idle since e' now)).1)
      (scan-clean states (channel_ids e) awake now c)
    ∙ go_idle-silent since awake now

pub resume_at-silent :
    (states : States) (task : DrainTask) (e : Engine) (now : ℕ)
    → AllClean e
    → is_call (resume_at states task e now).1 ≡ false
unfolding resume_at finish_round
resume_at-silent states no_task e now c = refl
resume_at-silent states created e now c = run_round-silent states none e now c
resume_at-silent states (in_call rest) e now c =
    ap (λ r. is_call (call_or r (λ e'. run_round states none e' now)).1)
      (scan-clean states rest e now c)
    ∙ run_round-silent states none e now c
resume_at-silent states (asleep since) e now c = run_round-silent states since e now c
resume_at-silent states done e now c = refl
