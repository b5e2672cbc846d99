-- ===== src/Engine/Session.antt =====
-- The begin and the end of a streaming session: entertainment.py, lines 468-549.
use ha_hue_entertainment.Prelude.{
  ℕ, Bool, true, false, String, Option, none, some, List, [], ◌∷◌, if◌then◌else◌,
}
use ha_hue_entertainment.Engine.{
  Engine, LightMapping, State, DrainTask, no_task, created, in_call, asleep, done, notify,
  reset_mappings, reset_stats, ensure_drain_task,
}
use ha_hue_entertainment.Engine.Control.{cancel_release}

-- hass.states.get
abbrev pub States : Type 0
States = String → Option State

-- The states of the lights that Home Assistant knows.
unfoldable pub snapshot_states : States → List LightMapping → List State
snapshot_states states [] = []
snapshot_states states (m ∷ ms) =
    let rest = snapshot_states states ms in
    elim (states m.entity_id) [ none ↦ rest | some state ↦ state ∷ rest ]

unfoldable pub begin_session : States → Engine → ℕ → Engine
unfolding snapshot_states reset_mappings notify ensure_drain_task
begin_session states e now =
    let saved = record e { saved_states = some (snapshot_states states e.mappings) } in
    let started = record (reset_mappings saved) { active = true; last_frame_time = now } in
    ensure_drain_task (notify started now) now

unfoldable pub async_snapshot_lights : States → Engine → ℕ → Engine
unfolding cancel_release begin_session
async_snapshot_lights states e now =
    if e.releasing_flag
    then begin_session states (cancel_release e now) now
    else if e.active
    then e
    else begin_session states e now

-- `_drain_task is not None and not _drain_task.done()`
abbrev pub is_alive : DrainTask → Bool
is_alive no_task = false
is_alive created = true
is_alive (in_call rest) = true
is_alive (asleep idle_since) = true
is_alive done = false

-- The cancellation reaches the loop: its `finally` runs, unless its first step never did.
unfoldable pub drain_cancelled : Engine → ℕ → Engine
unfolding notify
drain_cancelled e now = elim e.drain_task [
  | created ↦ record e { drain_task = done }
  | in_call rest ↦ notify (record e { drain_task = done; drain_running = false }) now
  | asleep idle_since ↦ notify (record e { drain_task = done; drain_running = false }) now
  | _ ↦ e
]

-- How `async_restore_lights` goes on behind its first part.
pub data Restoring : Type 0 where
  nothing : Restoring  -- no session: it has returned
  awaits_drain : Restoring  -- it has cancelled the drain loop and waits for its end
  straight : Restoring  -- there is no loop to wait for

-- Up to the cancellation of the drain loop.
unfoldable pub restore_begin : Engine → ℕ → Engine × Restoring
unfolding cancel_release
restore_begin e now =
    let ended = cancel_release (record e { active = false }) now in
    if e.active
    then (ended, if is_alive ended.drain_task then awaits_drain else straight)
    else (e, nothing)

abbrev pub list_or : Option (List State) → List State
list_or none = []
list_or (some states) = states

-- From there to the light restore; the second component is what `async_reproduce_state` is given, and
-- it is not called for an empty list. Nothing of the engine is written behind it.
unfoldable pub restore_finish : Bool → Engine → ℕ → Engine × List State
unfolding notify reset_stats
restore_finish awaited e now =
    let joined = if awaited then record e { drain_task = no_task } else e in
    let stopped = notify (record joined { drain_running = false }) now in
    (reset_stats (record stopped { saved_states = none }) now, list_or stopped.saved_states)

unfoldable pub restore_rest : Engine → Restoring → ℕ → Engine × List State
unfolding drain_cancelled restore_finish
restore_rest e nothing now = (e, [])
restore_rest e awaits_drain now = restore_finish true (drain_cancelled e now) now
restore_rest e straight now = restore_finish false e now

-- The whole call, where no other step of the event loop comes between its parts.
unfoldable pub async_restore_lights : Engine → ℕ → Engine × List State
unfolding restore_begin restore_rest
async_restore_lights e now = let (e', how) = restore_begin e now in restore_rest e' how now
