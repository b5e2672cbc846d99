-- ===== src/Engine/Snapshot.antt =====
-- The states that the lights get back at the end of a session are those from before it:
-- `async_snapshot_lights` and `async_restore_lights` of entertainment.py with what runs between them.
use ha_hue_entertainment.Prelude.{
  ℕ, ◌+◌, ◌≡◌, refl, ap, ◌∙◌, sym, subst, Bool, true, false, Option, none, some, List, [], ◌∷◌,
  arith, All, Option-cases, inl, inr, if-both, leb,
}
use ha_hue_entertainment.Json.{PyText}
use ha_hue_entertainment.ServiceData.{ServiceData}
use ha_hue_entertainment.Engine.{Engine, LightMapping, State}
use ha_hue_entertainment.Engine.Classic.{
  handle_light_command, Outcome, ignored, stored, handle_light_command-Outcome, store_command,
}
use ha_hue_entertainment.Engine.Control.{
  async_pause, async_resume, on_pause_expired, on_release_grace_expired,
}
use ha_hue_entertainment.Engine.Session.{
  States, snapshot_states, begin_session, async_snapshot_lights, async_restore_lights, list_or,
}
use ha_hue_entertainment.Engine.Drain.{go_idle, drain_step}
use ha_hue_entertainment.Engine.Steps.{
  Event, frame, command, start, stop, pause, resume, release, pause_timer, grace_timer, drain, fire,
  step, run,
}
use ha_hue_entertainment.Engine.Steps.Keeps.{Drains, resume_at-keeps, run-keeps}
use ha_hue_entertainment.Engine.View.{View, view, view-handle_frame, view-scan}
use ha_hue_entertainment.Engine.Valid.{IsValid}
use ha_hue_entertainment.Engine.Valid.Runs.{IsValid-Keeps}
use ha_hue_entertainment.Engine.Valid.Restore.{async_restore_lights-states}

-- A session whose snapshot is `saved`, and no release.
record HoldsView (saved : List State) (v : View) : Type 0 where
  pub active : v.active ≡ true
  pub unreleased : v.releasing_flag ≡ false
  pub kept : v.saved_states ≡ some saved

abbrev Holds : List State → Engine → Type 0
Holds saved e = HoldsView saved (view e)

-- What neither ends the session nor asks for its end.
abbrev pub goes_on : Event → Bool
goes_on stop = false
goes_on (release seconds settle) = false
goes_on _ = true

module _ (saved : List State) (e : Engine) (now : ℕ) (h : Holds saved e) where
  async_pause-Holds : (seconds : ℕ) → Holds saved (async_pause e seconds now)
  unfolding async_pause
  async_pause-Holds seconds = ground arith

  async_resume-Holds : Holds saved (async_resume e now)
  unfolding async_resume
  async_resume-Holds = ground arith

  on_pause_expired-Holds : Holds saved (on_pause_expired e now)
  unfolding on_pause_expired
  on_pause_expired-Holds = ground arith

  on_release_grace_expired-Holds : Holds saved (on_release_grace_expired e now)
  unfolding on_release_grace_expired
  on_release_grace_expired-Holds = ground arith

  async_snapshot_lights-Holds : (states : States) → Holds saved (async_snapshot_lights states e now)
  unfolding async_snapshot_lights
  async_snapshot_lights-Holds states = ground arith

  store_command-Holds :
      (id : ℕ) (m : LightMapping) (d : Option ServiceData)
      → Holds saved (store_command e id m d now)
  unfolding store_command
  store_command-Holds id m none = h
  store_command-Holds id m (some d) = ground arith

  go_idle-Holds : (since : Option ℕ) → Holds saved (go_idle since e now).0
  unfolding go_idle
  go_idle-Holds since = ground arith

  Outcome-Holds : (e' : Engine) (id : ℕ) → Outcome e id now e' → Holds saved e'
  Outcome-Holds e' id (ignored p) = rw p h
  Outcome-Holds e' id (stored m d s g p) = rw p (store_command-Holds id m d)

  fire-Holds :
      (timer : Option ℕ) (fired : Engine) → Holds saved fired → Holds saved (fire timer now fired e)
  unfolding fire
  fire-Holds none fired f = h
  fire-Holds (some deadline) fired f =
      if-both (Holds saved) (leb deadline now) fired e (λ _. f) (λ _. h)

Holds-Drains : (saved : List State) → Drains (λ e now. Holds saved e)
Holds-Drains saved = record {
  at_scan = λ states ids e now h. subst (HoldsView saved) (sym (view-scan states ids e now)) h;
  at_round = λ e now h. h;
  at_call =
      λ e rest now a h. record { active = h.active; unreleased = h.unreleased; kept = h.kept };
  at_idle = λ e since now a h. go_idle-Holds saved e now h since;
}

step-Holds :
    (py : PyText) (saved : List State) (e : Engine) (event : Event) (now : ℕ)
    → Holds saved e
    → goes_on event ≡ true
    → Holds saved (step py e event now)
unfolding step drain_step
step-Holds py saved e (frame bytes) now h g =
    subst (HoldsView saved) (sym (view-handle_frame e bytes now)) h
step-Holds py saved e (command id body) now h g =
    elim (Option-cases (handle_light_command py e id body now)) [
      | inl p ↦ rw p h
      | inr (e', p) ↦
          rw p (Outcome-Holds saved e now h e' id (handle_light_command-Outcome py e id body now p))
    ]
step-Holds py saved e (start states) now h g = async_snapshot_lights-Holds saved e now h states
step-Holds py saved e (pause seconds) now h g = async_pause-Holds saved e now h seconds
step-Holds py saved e resume now h g = async_resume-Holds saved e now h
step-Holds py saved e pause_timer now h g =
    fire-Holds saved e now h e.pause_cancel (on_pause_expired e now)
      (on_pause_expired-Holds saved e now h)
step-Holds py saved e grace_timer now h g =
    fire-Holds saved e now h e.release_cancel (on_release_grace_expired e now)
      (on_release_grace_expired-Holds saved e now h)
step-Holds py saved e (drain states) now h g =
    resume_at-keeps (λ e now. Holds saved e) (Holds-Drains saved) states e.drain_task e now refl h
step-Holds py saved e stop now h g = cc
step-Holds py saved e (release seconds settle) now h g = cc

run-Holds :
    (py : PyText) (saved : List State) (e : Engine) (now : ℕ) (history : List (ℕ × Event))
    → Holds saved e
    → All (λ (x : ℕ × Event). goes_on x.1 ≡ true) history
    → Holds saved (run py e now history)
unfolding run
run-Holds py saved e now [] h g = h
run-Holds py saved e now ((delay, event) ∷ rest) h (g, gs) =
    run-Holds py saved (step py e event (now + delay)) (now + delay) rest
      (step-Holds py saved e event (now + delay) h g) gs

begin_session-Holds :
    (states : States) (e : Engine) (now : ℕ)
    → e.releasing_flag ≡ false
    → Holds (snapshot_states states e.mappings) (begin_session states e now)
unfolding begin_session
begin_session-Holds states e now r = ground arith

start-Holds :
    (states : States) (e : Engine) (now : ℕ)
    → e.active ≡ false
    → e.releasing_flag ≡ false
    → Holds (snapshot_states states e.mappings) (async_snapshot_lights states e now)
unfolding async_snapshot_lights
start-Holds states e now a r =
    if-both (Holds (snapshot_states states e.mappings)) e.releasing_flag _ _
      (λ p. absurd (ground arith))
      (λ _.
        if-both (Holds (snapshot_states states e.mappings)) e.active _ _
          (λ p. absurd (ground arith)) (λ _. begin_session-Holds states e now r))

-- A session is started on an engine that satisfies its invariant, without a session or a release, and
-- anything comes but a stop or a release, other starts included: the restore at its end is given the
-- states that the lights had at the start.
pub async_restore_lights-snapshot :
    (py : PyText) (states : States) (e : Engine) (now later : ℕ) (history : List (ℕ × Event))
    → IsValid e
    → e.active ≡ false
    → e.releasing_flag ≡ false
    → All (λ (x : ℕ × Event). goes_on x.1 ≡ true) history
    → (async_restore_lights (run py (async_snapshot_lights states e now) now history) later).1
      ≡ snapshot_states states e.mappings
async_restore_lights-snapshot py states e now later history v a r g =
    let begun = async_snapshot_lights states e now in
    let saved = snapshot_states states e.mappings in
    let h = run-Holds py saved begun now history (start-Holds states e now a r) g in
    let v' =
      run-keeps (λ e now. IsValid e) IsValid-Keeps py begun now history
        (IsValid-Keeps.at_start states e now v) in
    async_restore_lights-states (run py begun now history) later v' h.active ∙ ap list_or h.kept
