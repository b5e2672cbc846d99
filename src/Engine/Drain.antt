-- ===== src/Engine/Drain.antt =====
-- The drain loop as a machine that runs from one `await` to the next: entertainment.py, lines 711-801.
pub mod Transition
pub mod Sent
pub mod Ends
use ha_hue_entertainment.Prelude.{
  ℕ, ◌+◌, ◌-◌, ◌*◌, Bool, true, false, Option, none, some, List, [], ◌∷◌, map, min, max, ltb,
  if◌then◌else◌,
}
use ha_hue_entertainment.Prelude.Int.{round_div}
use ha_hue_entertainment.ServiceData.{Service, turn_on, ServiceData}
use ha_hue_entertainment.Engine.{
  Engine, LightMapping, State, DrainTask, no_task, created, in_call, asleep, done, notify,
  get_mapping, set_mapping,
}
use ha_hue_entertainment.Engine.Session.{States}
use text.Mathlib.Text.{◌==◌ as str_eq}

abbrev pub classic_drain_idle : ℕ
classic_drain_idle = 2000

-- What the loop does at the `await` where it stops.
pub data Action : Type 0 where
  call : Service → ServiceData → Action  -- hass.services.async_call("light", service, data)
  wait : Action  -- for the wake event, at most CLASSIC_DRAIN_IDLE
  returned : Action

abbrev pub is_unavailable : Option State → Bool
is_unavailable none = false
is_unavailable (some s) = str_eq s.state "unavailable"

-- The light with its log flag, and whether it can be sent to.
unfoldable pub light_available : States → LightMapping → LightMapping × Bool
light_available states m =
    if is_unavailable (states m.entity_id)
    then (record m { unavailable_logged = true }, false)
    else (record m { unavailable_logged = false }, true)

-- The fade: to the tenth of a second, between 0.1 and 2 seconds; none for the first command.
unfoldable pub dynamic_transition : ℕ → ℕ → ℕ
unfolding round_div
dynamic_transition last_sent now =
    if ltb 0 last_sent then min (max (round_div (now - last_sent) 100 * 100) 100) 2000 else 0

abbrev pub service_or : Option Service → Service
service_or none = turn_on
service_or (some s) = s

-- The data that is sent: `_service` taken out and, without an explicit one, a transition put in.
unfoldable pub outgoing : LightMapping → ServiceData → ℕ → ServiceData
unfolding dynamic_transition
outgoing m d now =
    let popped = record d { service = none } in
    if m.explicit_transition
    then popped
    else record popped { transition = some (dynamic_transition m.last_sent now) }

unfoldable pub clear_slot : LightMapping → LightMapping
clear_slot m = record m { dirty = false; pending_data = none; explicit_transition = false }

-- One turn of the `for` loop at a dirty light: the light as it is left, and what is sent.
unfoldable pub take_slot : States → LightMapping → ℕ → LightMapping × Option (Service × ServiceData)
unfolding clear_slot light_available outgoing
take_slot states m now = elim m.pending_data [
  | none ↦ (clear_slot m, none)
  | some d ↦
      let (checked, ok) = light_available states (clear_slot m) in
      if ok
      then (record checked { last_sent = now }, some (service_or d.service, outgoing m d now))
      else (checked, none)
]

-- The counters of a command that is sent.
unfoldable pub count_command : Engine → ℕ → LightMapping → Option (Service × ServiceData) → Engine
unfolding set_mapping
count_command e id m none = record e { mappings = set_mapping id m e.mappings }
count_command e id m (some sent) = record e {
  mappings = set_mapping id m e.mappings;
  total_commands_sent = e.total_commands_sent + 1;
  window_commands = e.window_commands + 1;
}

-- One turn of the `for` loop.
unfoldable pub visit : States → ℕ → Engine → ℕ → Engine × Option (Service × ServiceData)
unfolding get_mapping take_slot count_command
visit states id e now = elim (get_mapping id e.mappings) [
  | none ↦ (e, none)
  | some m ↦
      let (left, sent) = take_slot states m now in
      if m.dirty then (count_command e id left sent, sent) else (e, none)
]

-- What a scan has found: a command, and the lights that come behind it in the round.
abbrev pub Found : Type 0
Found = Engine × Option (Service × ServiceData × List ℕ)

abbrev pub found_or : Engine × Option (Service × ServiceData) → List ℕ → (Engine → Found) → Found
found_or (e, none) ids go_on = go_on e
found_or (e, some (service, d)) ids go_on = (e, some (service, d, ids))

-- The first send of the lights that are left of a round.
unfoldable pub scan : States → List ℕ → Engine → ℕ → Found
unfolding visit
scan states [] e now = (e, none)
scan states (id ∷ ids) e now = found_or (visit states id e now) ids (λ e'. scan states ids e' now)

-- The loop returns, and its `finally` runs.
unfoldable pub drain_return : Engine → ℕ → Engine
unfolding notify
drain_return e now = notify (record e { drain_task = done; drain_running = false }) now

-- A round in which nothing was sent.
unfoldable pub go_idle : Option ℕ → Engine → ℕ → Engine × Action
unfolding drain_return
go_idle idle_since e now =
    if e.active then (record e { drain_task = asleep idle_since }, wait) else elim idle_since [
      | none ↦ (record e { drain_task = asleep (some now) }, wait)
      | some since ↦
          if ltb classic_drain_idle (now - since)
          then (drain_return e now, returned)
          else (record e { drain_task = asleep (some since) }, wait)
    ]

abbrev pub channel_ids : Engine → List ℕ
channel_ids e = map (λ m. m.channel_id) e.mappings

-- The call at which the loop stops, or what it does where nothing was found.
abbrev pub call_or : Found → (Engine → Engine × Action) → Engine × Action
call_or (e, none) go_on = go_on e
call_or (e, some (service, d, ids)) go_on = (record e { drain_task = in_call ids }, call service d)

-- A round from its start.
unfoldable pub run_round : States → Option ℕ → Engine → ℕ → Engine × Action
unfolding scan go_idle
run_round states idle_since e now =
    call_or (scan states (channel_ids e) (record e { wake = false }) now)
      (λ e'. go_idle idle_since e' now)

-- The rest of a round in which a command was sent; if nothing is left, the next round starts at once.
unfoldable pub finish_round : States → List ℕ → Engine → ℕ → Engine × Action
unfolding scan run_round
finish_round states rest e now =
    call_or (scan states rest e now) (λ e'. run_round states none e' now)

unfoldable pub resume_at : States → DrainTask → Engine → ℕ → Engine × Action
unfolding run_round finish_round
resume_at states no_task e now = (e, returned)
resume_at states created e now = run_round states none e now
resume_at states (in_call rest) e now = finish_round states rest e now
resume_at states (asleep idle_since) e now = run_round states idle_since e now
resume_at states done e now = (e, returned)

-- The event loop resumes the task: its first step has come, its call has returned, or it was woken.
unfoldable pub drain_step : States → Engine → ℕ → Engine × Action
unfolding resume_at
drain_step states e now = resume_at states e.drain_task e now
