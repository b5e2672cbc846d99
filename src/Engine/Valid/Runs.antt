-- ===== src/Engine/Valid/Runs.antt =====
-- Every call on the engine keeps its invariant.
use ha_hue_entertainment.Prelude.{
  ℕ, sym, true, List, arith, subst, Bool-cases, inl, inr, if-both, if◌then◌else◌, Option, ◌≡◌,
}
use ha_hue_entertainment.Json.{PyText}
use ha_hue_entertainment.Engine.{Engine, LightMapping, in_call, new_engine}
use ha_hue_entertainment.Engine.Control.{cancel_release}
use ha_hue_entertainment.Engine.Session.{
  States, is_alive, begin_session, async_snapshot_lights, async_restore_lights,
}
use ha_hue_entertainment.Engine.Drain.{go_idle}
use ha_hue_entertainment.Engine.Steps.{Event, run}
use ha_hue_entertainment.Engine.Steps.Keeps.{Keeps, run-keeps}
use ha_hue_entertainment.Engine.View.{view-scan}
use ha_hue_entertainment.Engine.Valid.{
  IsValid, ValidView, new_engine-IsValid, handle_frame-IsValid, async_pause-IsValid,
  async_resume-IsValid, async_release-IsValid, on_pause_expired-IsValid,
  on_release_grace_expired-IsValid, cancel_release-IsValid, store_command-IsValid,
  begin_session-IsValid,
}
use ha_hue_entertainment.Engine.Valid.Restore.{
  async_restore_lights-IsRestored, async_restore_lights_inactive,
}

async_snapshot_lights-IsValid :
    (states : States) (e : Engine) (now : ℕ)
    → IsValid e
    → IsValid (async_snapshot_lights states e now)
unfolding async_snapshot_lights
async_snapshot_lights-IsValid states e now v =
    let (v', r) = cancel_release-IsValid e now v in
    let old = begin_session states (cancel_release e now) now in
    let fresh = begin_session states e now in
    if-both IsValid e.releasing_flag old (if e.active then e else fresh)
      (λ p. begin_session-IsValid (cancel_release e now) now v' states r)
      (λ p. if-both IsValid e.active e fresh (λ q. v) (λ q. begin_session-IsValid e now v states p))

async_restore_lights-IsValid :
    (e : Engine) (now : ℕ) → IsValid e → IsValid (async_restore_lights e now).0
async_restore_lights-IsValid e now v = elim (Bool-cases e.active) [
  | inl a ↦ ground (arith, async_restore_lights-IsRestored e now v a)
  | inr a ↦ rw (async_restore_lights_inactive e now a) v
]

in_call-IsValid :
    (e : Engine) (rest : List ℕ)
    → is_alive e.drain_task ≡ true
    → IsValid e
    → IsValid (record e { drain_task = in_call rest })
in_call-IsValid e rest a v = ground arith

go_idle-IsValid :
    (e : Engine) (since : Option ℕ) (now : ℕ)
    → is_alive e.drain_task ≡ true
    → IsValid e
    → IsValid (go_idle since e now).0
unfolding go_idle
go_idle-IsValid e since now a v = ground arith

pub IsValid-Keeps : Keeps (λ e now. IsValid e)
IsValid-Keeps = record {
  later = λ e now delay v. v;
  at_frame = λ e bytes now v. handle_frame-IsValid e bytes now v;
  at_command = λ e id m d now s g v. store_command-IsValid e now v id m d;
  at_start = λ states e now v. async_snapshot_lights-IsValid states e now v;
  at_stop = λ e now v. async_restore_lights-IsValid e now v;
  at_pause = λ e seconds now v. async_pause-IsValid e now v seconds;
  at_resume = λ e now v. async_resume-IsValid e now v;
  at_release = λ e seconds settle now v. async_release-IsValid e now v seconds settle;
  at_pause_timer = λ e now v. on_pause_expired-IsValid e now v;
  at_grace_timer = λ e now v. on_release_grace_expired-IsValid e now v;
  drains = record {
    at_scan = λ states ids e now v. subst ValidView (sym (view-scan states ids e now)) v;
    at_round = λ e now v. v;
    at_call = λ e rest now a v. in_call-IsValid e rest a v;
    at_idle = λ e since now a v. go_idle-IsValid e since now a v;
  };
}

-- After any calls at any times a new engine satisfies the invariant.
pub run-IsValid :
    (py : PyText) (now : ℕ) (lights : List LightMapping) (history : List (ℕ × Event))
    → IsValid (run py (new_engine now lights) now history)
run-IsValid py now lights history =
    run-keeps (λ e now. IsValid e) IsValid-Keeps py (new_engine now lights) now history
      (new_engine-IsValid now lights)
