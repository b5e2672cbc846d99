-- ===== src/Engine/Drain/Ends.antt =====
-- Without new input the drain loop soon has nothing to send: each call takes a dirty slot for good.
use ha_hue_entertainment.Prelude.{
  ℕ, ◌+◌, ◌≤◌, ◌≡◌, Bool, true, false, Option, none, some, List, [], ◌∷◌, arith, Option-cases, inl,
  inr,
}
use ha_hue_entertainment.ServiceData.{Service, ServiceData}
use ha_hue_entertainment.Engine.{
  Engine, LightMapping, DrainTask, no_task, created, in_call, asleep, done, get_mapping,
  set_mapping,
}
use ha_hue_entertainment.Engine.Session.{States}
use ha_hue_entertainment.Engine.Drain.{
  Action, call, wait, returned, Found, found_or, call_or, clear_slot, light_available, take_slot,
  count_command, visit, scan, channel_ids, go_idle, run_round, finish_round, resume_at, drain_step,
}

abbrev one_if : Bool → ℕ
one_if true = 1
one_if false = 0

abbrev pub dirty_count : List LightMapping → ℕ
dirty_count [] = 0
dirty_count (m ∷ ms) = one_if m.dirty + dirty_count ms

abbrev pub one_if_call : Action → ℕ
one_if_call (call s d) = 1
one_if_call wait = 0
one_if_call returned = 0

dirty_count-set_mapping :
    (id : ℕ) (m new : LightMapping) (ms : List LightMapping)
    → get_mapping id ms ≡ some m
    → dirty_count (set_mapping id new ms) + one_if m.dirty ≡ dirty_count ms + one_if new.dirty
unfolding get_mapping set_mapping
dirty_count-set_mapping id m new [] h = ground arith
dirty_count-set_mapping id m new (x ∷ ms) h = ground (arith, dirty_count-set_mapping id m new ms)

take_slot-dirty :
    (states : States) (m : LightMapping) (now : ℕ) → (take_slot states m now).0.dirty ≡ false
unfolding take_slot clear_slot light_available
take_slot-dirty states m now = ground arith

abbrev one_if_sent : Option (Service × ServiceData) → ℕ
one_if_sent none = 0
one_if_sent (some s) = 1

visit_bound :
    (states : States) (id : ℕ) (e : Engine) (now : ℕ)
    → dirty_count (visit states id e now).0.mappings + one_if_sent (visit states id e now).1
      ≤ dirty_count e.mappings
unfolding visit count_command
visit_bound states id e now = elim (Option-cases (get_mapping id e.mappings)) [
  | inl p ↦ ground arith
  | inr (m, p) ↦ ground (
    arith,
    take_slot-dirty states m now,
    dirty_count-set_mapping id m (take_slot states m now).0 e.mappings p,
  )
]

-- What a scan leaves dirty, and one more for a command that it has found.
abbrev found_count : Found → ℕ
found_count (e, none) = dirty_count e.mappings
found_count (e, some (s, d, ids)) = 1 + dirty_count e.mappings

found_or-bound :
    (r : Engine × Option (Service × ServiceData)) (ids : List ℕ) (go_on : Engine → Found) (n : ℕ)
    → dirty_count r.0.mappings + one_if_sent r.1 ≤ n
    → ((e : Engine) → found_count (go_on e) ≤ dirty_count e.mappings)
    → found_count (found_or r ids go_on) ≤ n
found_or-bound (e, none) ids go_on n h g = omega (arith, h, g e)
found_or-bound (e, some (s, d)) ids go_on n h g = omega (arith, h)

scan_bound :
    (states : States) (ids : List ℕ) (e : Engine) (now : ℕ)
    → found_count (scan states ids e now) ≤ dirty_count e.mappings
unfolding scan
scan_bound states [] e now = omega arith
scan_bound states (id ∷ ids) e now =
    found_or-bound (visit states id e now) ids (λ e'. scan states ids e' now)
      (dirty_count e.mappings) (visit_bound states id e now) (λ e'. scan_bound states ids e' now)

abbrev left_count : Engine × Action → ℕ
left_count r = dirty_count r.0.mappings + one_if_call r.1

call_or-bound :
    (f : Found) (go_on : Engine → Engine × Action) (n : ℕ)
    → found_count f ≤ n
    → ((e : Engine) → left_count (go_on e) ≤ dirty_count e.mappings)
    → left_count (call_or f go_on) ≤ n
call_or-bound (e, none) go_on n h g = omega (arith, h, g e)
call_or-bound (e, some (s, d, ids)) go_on n h g = omega (arith, h)

go_idle_bound :
    (since : Option ℕ) (e : Engine) (now : ℕ)
    → left_count (go_idle since e now) ≤ dirty_count e.mappings
unfolding go_idle
go_idle_bound since e now = ground arith

run_round_bound :
    (states : States) (since : Option ℕ) (e : Engine) (now : ℕ)
    → left_count (run_round states since e now) ≤ dirty_count e.mappings
unfolding run_round
run_round_bound states since e now =
    call_or-bound (scan states (channel_ids e) (record e { wake = false }) now)
      (λ e'. go_idle since e' now) (dirty_count e.mappings)
      (scan_bound states (channel_ids e) (record e { wake = false }) now)
      (λ e'. go_idle_bound since e' now)

resume_at-bound :
    (states : States) (task : DrainTask) (e : Engine) (now : ℕ)
    → left_count (resume_at states task e now) ≤ dirty_count e.mappings
unfolding resume_at finish_round
resume_at-bound states no_task e now = omega arith
resume_at-bound states created e now = run_round_bound states none e now
resume_at-bound states (in_call rest) e now =
    call_or-bound (scan states rest e now) (λ e'. run_round states none e' now)
      (dirty_count e.mappings) (scan_bound states rest e now)
      (λ e'. run_round_bound states none e' now)
resume_at-bound states (asleep since) e now = run_round_bound states since e now
resume_at-bound states done e now = omega arith

-- How many service calls the loop makes when it is resumed at the given times and nothing else happens.
unfoldable pub calls_made : Engine → List (States × ℕ) → ℕ
unfolding drain_step
calls_made e [] = 0
calls_made e ((states, now) ∷ rest) =
    let (e', action) = drain_step states e now in one_if_call action + calls_made e' rest

-- However often the loop is resumed without new input, and whatever Home Assistant reports: it makes at
-- most one service call for each dirty slot, so with nothing dirty it makes none.
pub calls_made-dirty_count :
    (e : Engine) (times : List (States × ℕ)) → calls_made e times ≤ dirty_count e.mappings
unfolding calls_made
calls_made-dirty_count e [] = omega arith
calls_made-dirty_count e ((states, now) ∷ rest) = omega (
  arith,
  resume_at-bound states e.drain_task e now,
  calls_made-dirty_count (drain_step states e now).0 rest,
)
