-- ===== src/Engine.antt =====
-- The state of `EntertainmentEngine` and `LightMapping`, and its properties:
-- custom_components/hue_entertainment/entertainment.py, lines 62-80, 232-277 and 363-460; what the
-- sensors read of it: binary_sensor.py and sensor.py.
-- Times are milliseconds of the monotonic clock, which each step reads once.
pub mod Frames
pub mod Lights
pub mod Classic
pub mod Control
pub mod Session
pub mod Drain
pub mod Steps
pub mod View
pub mod Valid
pub mod Sensors
pub mod Quiet
pub mod Pulse
pub mod Overlaps
pub mod Snapshot
pub mod Stats
use ha_hue_entertainment.Prelude.{
  ℕ, ◌+◌, ◌-◌, ◌<◌, Bool, true, false, not, ◌&&◌, ◌||◌, String, Option, none, some, List, [], ◌∷◌,
  map, ltb, ◌==◌, if◌then◌else◌,
}
use ha_hue_entertainment.ServiceData.{ServiceData}

pub record LightMapping : Type 0 where
  pub channel_id : ℕ
  pub entity_id : String
  pub last_r : Option ℕ  -- `none` is the -1 of the source
  pub last_g : Option ℕ
  pub last_b : Option ℕ
  pub pending_data : Option ServiceData
  pub dirty : Bool
  pub last_sent : ℕ
  pub explicit_transition : Bool
  pub unavailable_logged : Bool

abbrev pub new_mapping : ℕ → String → LightMapping
new_mapping channel_id entity_id = record {
  channel_id = channel_id;
  entity_id = entity_id;
  last_r = none;
  last_g = none;
  last_b = none;
  pending_data = none;
  dirty = false;
  last_sent = 0;
  explicit_transition = false;
  unavailable_logged = false;
}

-- A state that Home Assistant reports for an entity. The engine reads `.state` and passes it back.
pub record State : Type 0 where
  pub entity_id : String
  pub state : String

-- Where the coroutine of the drain loop waits.
pub data DrainTask : Type 0 where
  no_task : DrainTask  -- `_drain_task is None`
  created : DrainTask  -- scheduled, its first step still to run
  in_call : List ℕ → DrainTask  -- in the service call; the channels that are left of the round
  asleep : Option ℕ → DrainTask  -- in `wait_for(self._wake.wait(), …)`, with `idle_since`
  done : DrainTask

pub data Status : Type 0 where
  idle streaming classic paused releasing : Status

pub record Engine : Type 0 where
  pub mappings : List LightMapping
  pub total_frames_received : ℕ
  pub total_commands_sent : ℕ
  pub window_received : ℕ
  pub window_commands : ℕ
  pub fps_time : ℕ
  pub first_frame_logged : Bool
  pub last_frame_time : ℕ
  pub active : Bool
  pub saved_states : Option (List State)
  pub drain_task : DrainTask
  pub drain_running : Bool
  pub wake : Bool
  pub paused_until : Option ℕ
  pub pause_cancel : Option ℕ  -- the deadline of the timer that the handle cancels
  pub releasing_flag : Bool
  pub release_forcing : Bool
  pub release_cancel : Option ℕ
  pub shown : Status  -- what the status sensor wrote last
  pub shown_driving : Bool  -- what the binary sensor wrote last

-- {m.channel_id: m for m in light_mappings}: a later light replaces an earlier one in its place
unfoldable pub insert_mapping : List LightMapping → LightMapping → List LightMapping
insert_mapping [] m = m ∷ []
insert_mapping (x ∷ xs) m = if x.channel_id == m.channel_id then m ∷ xs else x ∷ insert_mapping xs m

unfoldable pub by_channel : List LightMapping → List LightMapping → List LightMapping
unfolding insert_mapping
by_channel table [] = table
by_channel table (m ∷ ms) = by_channel (insert_mapping table m) ms

unfoldable pub new_engine : ℕ → List LightMapping → Engine
unfolding by_channel
new_engine now light_mappings = record {
  mappings = by_channel [] light_mappings;
  total_frames_received = 0;
  total_commands_sent = 0;
  window_received = 0;
  window_commands = 0;
  fps_time = now;
  first_frame_logged = false;
  last_frame_time = 0;
  active = false;
  saved_states = none;
  drain_task = no_task;
  drain_running = false;
  wake = false;
  paused_until = none;
  pause_cancel = none;
  releasing_flag = false;
  release_forcing = false;
  release_cancel = none;
  shown = idle;
  shown_driving = false;
}

-- `deadline is not None and now < deadline`
abbrev pub is_before : Option ℕ → ℕ → Bool
is_before none now = false
is_before (some deadline) now = ltb now deadline

unfoldable pub is_paused : Engine → ℕ → Bool
is_paused e now = is_before e.paused_until now

unfoldable pub suppressed : Engine → ℕ → Bool
unfolding is_paused
suppressed e now = is_paused e now || e.releasing_flag

unfoldable pub is_driving_lights : Engine → ℕ → Bool
unfolding suppressed
is_driving_lights e now = not (suppressed e now) && (e.active || e.drain_running)

unfoldable pub status : Engine → ℕ → Status
unfolding is_paused
status e now =
    if e.releasing_flag
    then releasing
    else if is_paused e now
    then paused
    else if e.active
    then streaming
    else if e.drain_running
    then classic
    else idle

-- The callback sends the dispatcher signal, on which both sensors write their state.
unfoldable pub notify : Engine → ℕ → Engine
unfolding status is_driving_lights
notify e now = record e { shown = status e now; shown_driving = is_driving_lights e now }

unfoldable pub reset_mapping : LightMapping → LightMapping
reset_mapping m = record m {
  dirty = false;
  pending_data = none;
  last_r = none;
  last_g = none;
  last_b = none;
  last_sent = 0;
}

unfoldable pub reset_mappings : Engine → Engine
unfolding reset_mapping
reset_mappings e = record e { mappings = map reset_mapping e.mappings }

unfoldable pub reset_stats : Engine → ℕ → Engine
unfolding reset_mappings
reset_stats e now = reset_mappings (record e {
  total_frames_received = 0;
  total_commands_sent = 0;
  window_received = 0;
  window_commands = 0;
  fps_time = now;
  first_frame_logged = false;
})

unfoldable pub ensure_drain_task : Engine → ℕ → Engine
unfolding notify
ensure_drain_task e now =
    if e.drain_running
    then e
    else notify (record e { drain_task = created; drain_running = true }) now

-- self._mappings.get(channel_id)
unfoldable pub get_mapping : ℕ → List LightMapping → Option LightMapping
get_mapping id [] = none
get_mapping id (m ∷ ms) = if m.channel_id == id then some m else get_mapping id ms

-- A write to the fields of the light that `get_mapping` finds.
unfoldable pub set_mapping : ℕ → LightMapping → List LightMapping → List LightMapping
set_mapping id new [] = []
set_mapping id new (m ∷ ms) = if m.channel_id == id then new ∷ ms else m ∷ set_mapping id new ms
