-- ===== src/Tests/Lights.antt =====
-- Commands for one light, by stream and by REST.
use ha_hue_entertainment.Prelude.{
  ◌≡◌, ◌≢◌, ◌≤◌, refl, ℕ, true, false, none, some, List, [], ◌∷◌, arith,
}
use ha_hue_entertainment.Prelude.Int.{pos}
use ha_hue_entertainment.Json.{bool, int, Fields}
use ha_hue_entertainment.HueStream.{ChannelColor}
use ha_hue_entertainment.HueStream.Bounds.{Is16Bit}
use ha_hue_entertainment.ServiceData.{
  ServiceData, empty, turn_on, is_empty, v1_state_to_service_data,
}
use ha_hue_entertainment.ServiceData.Translation.{IsCommand, v1_state_to_service_data-IsCommand}
use ha_hue_entertainment.Engine.{
  Engine, LightMapping, new_engine, get_mapping, reset_mapping, suppressed, status,
  is_driving_lights,
}
use ha_hue_entertainment.Engine.Frames.{within_tolerance, stream_data, schedule_update}
use ha_hue_entertainment.Engine.Frames.Tolerance.{
  schedule_update-tracks, fresh_slot, IsSendable, stream_data-IsSendable,
}
use ha_hue_entertainment.Engine.Classic.{handle_light_command}
use ha_hue_entertainment.Engine.Classic.Merge.{Waits, followed_by, handle_light_command_twice}
use ha_hue_entertainment.Engine.Session.{async_snapshot_lights, async_restore_lights}
use ha_hue_entertainment.Engine.Control.{async_pause}
use ha_hue_entertainment.Engine.Drain.{outgoing, drain_step}
use ha_hue_entertainment.Engine.Drain.Ends.{calls_made, dirty_count, calls_made-dirty_count}
use ha_hue_entertainment.Engine.Drain.Sent.{Sent}
use ha_hue_entertainment.Engine.Steps.{Event, start, pause, command, run}
use ha_hue_entertainment.Engine.Valid.{IsValid}
use ha_hue_entertainment.Engine.Valid.Restore.{IsRestored, async_restore_lights-IsRestored}
use ha_hue_entertainment.Engine.Valid.Runs.{run-IsValid}
use ha_hue_entertainment.Engine.Sensors.Runs.{sensors_show_status}
use ha_hue_entertainment.Engine.Quiet.{is_call}
use ha_hue_entertainment.Engine.Sensors.{is_overdue}
use ha_hue_entertainment.Engine.Quiet.Runs.{suppressed-drain_step}
use ha_hue_entertainment.Engine.Overlaps.{outgoing-reset_mapping, async_snapshot_lights_overtaken}
use ha_hue_entertainment.Engine.Snapshot.{async_restore_lights-snapshot}
use ha_hue_entertainment.Engine.Valid.{new_engine-IsValid}
use ha_hue_entertainment.Engine.{no_task}
use ha_hue_entertainment.Engine.Session.{
  snapshot_states, restore_begin, restore_finish, drain_cancelled,
}
use ha_hue_entertainment.Engine.Frames.{write_slot}
use ha_hue_entertainment.Engine.Classic.{write_command}
use ha_hue_entertainment.Tests.{py, states, lamp}

abbrev red : ChannelColor
red = record { channel_id = 1; r = 65535; g = 0; b = 0 }

abbrev idle_engine : Engine
idle_engine = new_engine 10000 (lamp ∷ [])

abbrev red_lamp : LightMapping
red_lamp = record lamp {
  last_r = some 65535;
  last_g = some 0;
  last_b = some 0;
  pending_data = some (record empty {
    entity_id = some "light.lamp";
    rgb_color = some (255, 0, 0);
    brightness = some 255;
  });
  dirty = true;
}

red_slotted : get_mapping 1 (schedule_update idle_engine red 0).mappings ≡ some red_lamp
unfolding get_mapping schedule_update new_engine
red_slotted = refl

schedule_update-tracks_example : within_tolerance red 0 red_lamp ≡ true
schedule_update-tracks_example = schedule_update-tracks idle_engine red 0 red_lamp red_slotted

abbrev first_channel : ℕ
first_channel = 1

first_not_second : first_channel ≢ 2
first_not_second = λ h. omega arith

fresh_slot_example : within_tolerance red 0 (reset_mapping lamp) ≡ false
fresh_slot_example = fresh_slot red 0 lamp

red_16_bit : Is16Bit red
red_16_bit = ground arith

stream_data-IsSendable_example : IsSendable 0 red (stream_data red 0 "light.lamp")
stream_data-IsSendable_example = stream_data-IsSendable red 0 "light.lamp" red_16_bit

abbrev on_body : Fields
on_body = Fields.field "on" (bool true) Fields.end

abbrev dim_body : Fields
dim_body = Fields.field "bri" (int (pos 100)) Fields.end

abbrev on_command : ServiceData
on_command = record empty { service = some turn_on }

abbrev dim_command : ServiceData
dim_command = record empty { service = some turn_on; brightness = some 100 }

translated :
    (v1_state_to_service_data py on_body ≡ some on_command)
    × (v1_state_to_service_data py dim_body ≡ some dim_command)
unfolding v1_state_to_service_data
translated = (refl, refl)

v1_state_to_service_data-IsCommand_example : IsCommand dim_command
v1_state_to_service_data-IsCommand_example =
    v1_state_to_service_data-IsCommand py dim_body dim_command translated.1

given : (is_empty on_command ≡ false) × (is_empty dim_command ≡ false)
unfolding is_empty
given = (refl, refl)

abbrev after_on : Engine
after_on = run py idle_engine 10000 ((0, command 1 on_body) ∷ [])

abbrev after_dim : Engine
after_dim = run py after_on 10000 ((50, command 1 dim_body) ∷ [])

commands_taken :
    (handle_light_command py idle_engine 1 on_body 10000 ≡ some after_on)
    × (handle_light_command py after_on 1 dim_body 10050 ≡ some after_dim)
unfolding handle_light_command run new_engine
commands_taken = (refl, refl)

commands_free :
    (suppressed idle_engine 10000 ≡ false)
    × (suppressed after_on 10050 ≡ false)
    × (get_mapping 1 idle_engine.mappings ≡ some lamp)
unfolding suppressed run new_engine get_mapping handle_light_command
commands_free = (refl, refl, refl)

handle_light_command_twice_example : Waits after_dim 1 (followed_by dim_body on_command dim_command)
handle_light_command_twice_example =
    handle_light_command_twice py idle_engine after_on after_dim 1 lamp on_body dim_body on_command
      dim_command 10000 10050 commands_free.0 commands_free.1 commands_free.2 refl translated.0
      given.0 translated.1 given.1 commands_taken.0 commands_taken.1

abbrev sent_command : ServiceData
sent_command = record dim_command { service = none; entity_id = some "light.lamp" }

abbrev session_history : List (ℕ × Event)
session_history = (0, start states) ∷ (100, pause 1000) ∷ []

abbrev paused_engine : Engine
paused_engine = run py idle_engine 10000 session_history

paused-IsValid : IsValid paused_engine
paused-IsValid = run-IsValid py 10000 (lamp ∷ []) session_history

paused_active : paused_engine.active ≡ true
unfolding run new_engine async_pause async_snapshot_lights
paused_active = refl

async_restore_lights-IsRestored_example :
    IsRestored paused_engine (async_restore_lights paused_engine 10200).0
async_restore_lights-IsRestored_example =
    async_restore_lights-IsRestored paused_engine 10200 paused-IsValid paused_active

not_overdue : is_overdue paused_engine.paused_until 10100 ≡ false
unfolding run new_engine async_pause async_snapshot_lights
not_overdue = refl

sensors_show_status_example :
    (paused_engine.shown ≡ status paused_engine 10100)
    × (paused_engine.shown_driving ≡ is_driving_lights paused_engine 10100)
sensors_show_status_example = sensors_show_status py 10000 (lamp ∷ []) session_history not_overdue

paused_suppressed : suppressed paused_engine 10100 ≡ true
unfolding suppressed run new_engine async_pause async_snapshot_lights
paused_suppressed = refl

suppressed-drain_step_example : is_call (drain_step states paused_engine 10100).1 ≡ false
suppressed-drain_step_example =
    suppressed-drain_step py states 10000 (lamp ∷ []) session_history paused_suppressed

outgoing-reset_mapping_example :
    let slot = write_slot red 0 (reset_mapping (write_command lamp dim_command)) in
    (slot.pending_data ≡ some (stream_data red 0 lamp.entity_id))
    × ((outgoing slot (stream_data red 0 lamp.entity_id) 10000).transition ≡ none)
outgoing-reset_mapping_example = outgoing-reset_mapping lamp dim_command red 0 10000

async_snapshot_lights_overtaken_example :
    let started = async_snapshot_lights states (restore_begin paused_engine 10200).0 10210 in
    let finished = (restore_finish true (drain_cancelled started 10220) 10220).0 in
    (finished.active ≡ true)
    × (finished.drain_task ≡ no_task)
    × (finished.drain_running ≡ false)
    × (finished.saved_states ≡ none)
async_snapshot_lights_overtaken_example =
    async_snapshot_lights_overtaken states paused_engine 10200 10210 10220 paused-IsValid
      paused_active

idle-IsValid : IsValid idle_engine
idle-IsValid = new_engine-IsValid 10000 (lamp ∷ [])

idle_session : (idle_engine.active ≡ false) × (idle_engine.releasing_flag ≡ false)
unfolding new_engine
idle_session = (refl, refl)

abbrev pause_and_dim : List (ℕ × Event)
pause_and_dim = (100, command 1 dim_body) ∷ (100, pause 1000) ∷ (50, start states) ∷ []

async_restore_lights-snapshot_example :
    (async_restore_lights
      (run py (async_snapshot_lights states idle_engine 10000) 10000 pause_and_dim)
      11000).1
    ≡ snapshot_states states idle_engine.mappings
async_restore_lights-snapshot_example =
    async_restore_lights-snapshot py states idle_engine 10000 11000 pause_and_dim idle-IsValid
      idle_session.0 idle_session.1 (refl, (refl, (refl, tt)))

calls_made-dirty_count_example :
    calls_made after_dim ((states, 10060) ∷ (states, 10300) ∷ []) ≤ dirty_count after_dim.mappings
calls_made-dirty_count_example =
    calls_made-dirty_count after_dim ((states, 10060) ∷ (states, 10300) ∷ [])
