-- ===== src/Bridge.antt =====
-- The parts wired together: custom_components/hue_entertainment/__init__.py, lines 58-77, 103-131,
-- 182-214, 253-314 and 383-404. Times are milliseconds; each call reads the clock once.
pub mod Setup
pub mod Lifecycle
pub mod Services
pub mod Stopped
pub mod Deferred
pub mod Paired
pub mod Addressing
pub mod Active
pub mod Watched
pub mod Released
pub mod Overtaken
pub mod Valid
pub mod Forced
use ha_hue_entertainment.Prelude.{
  ℕ, ◌+◌, ◌-◌, Bool, true, false, String, Option, none, some, List, [], ◌∷◌, ltb, leb,
  if◌then◌else◌,
}
use ha_hue_entertainment.Json.{Fields, PyText}
use ha_hue_entertainment.HueApi.{
  HueApiServer, Effect, started, stopped, light_command, Reply, raised, Outcome,
  clear_entertainment,
}
use ha_hue_entertainment.HueApi.Host.{PyHost}
use ha_hue_entertainment.HueApi.Requests.{Route, Request}
use ha_hue_entertainment.HueApi.Handlers.{handle}
use ha_hue_entertainment.Engine.{Engine, State}
use ha_hue_entertainment.Engine.Classic.{handle_light_command}
use ha_hue_entertainment.Engine.Control.{async_pause, async_resume, async_release}
use ha_hue_entertainment.Engine.Session.{States, async_snapshot_lights, async_restore_lights}
use ha_hue_entertainment.Engine.Steps.{Event, step}

abbrev pub frame_watchdog_interval : ℕ
frame_watchdog_interval = 2000

abbrev pub frame_timeout : ℕ
frame_timeout = 5000

abbrev pub max_yield : ℕ
max_yield = 30000

abbrev pub max_settle : ℕ
max_settle = 5000

-- Where the coroutine of the watchdog is.
pub data Watchdog : Type 0 where
  absent : Watchdog  -- `watchdog_task is None`
  created : Watchdog  -- its first step is still to run
  sleeping : ℕ → Watchdog  -- in `asyncio.sleep`, until then
  restoring : Watchdog  -- it has ended the session, and awaits the restore of the lights
  done : Watchdog

pub record Bridge : Type 0 where
  pub api_server : HueApiServer
  pub engine : Engine
  pub watchdog : Watchdog

-- `watchdog_task is None or watchdog_task.done()`
abbrev pub unwatched : Watchdog → Bool
unwatched absent = true
unwatched created = false
unwatched (sleeping wake_at) = false
unwatched restoring = false
unwatched done = true

unfoldable pub cancel_watchdog : Bridge → Bridge
cancel_watchdog b = record b { watchdog = absent }

-- Ends the session; the second component is what the lights are restored to.
unfoldable pub stop_entertainment_session : Bridge → ℕ → Bridge × List State
unfolding clear_entertainment async_restore_lights
stop_entertainment_session b now =
    let (engine, states) = async_restore_lights b.engine now in
    (record b { api_server = clear_entertainment b.api_server; engine = engine }, states)

-- From a wake-up to the next `await` or the end. What the restore writes, it writes before it awaits the
-- lights; the task is not done before they have answered, or have not in time.
unfoldable pub watchdog_woken : Bridge → ℕ → Bridge × List State
unfolding stop_entertainment_session
watchdog_woken b now =
    let (ended, states) = stop_entertainment_session b now in
    if b.engine.active
    then (if ltb frame_timeout (now - b.engine.last_frame_time)
        then (record ended { watchdog = restoring }, states)
        else (record b { watchdog = sleeping (now + frame_watchdog_interval) }, []))
    else (record b { watchdog = done }, [])

-- The watchdog goes on from where it is; a sleep that is not over does not end.
unfoldable pub watchdog_from : Watchdog → Bridge → ℕ → Bridge × List State
unfolding watchdog_woken
watchdog_from absent b now = (b, [])
watchdog_from created b now =
    if b.engine.active
    then (record b { watchdog = sleeping (now + frame_watchdog_interval) }, [])
    else (record b { watchdog = done }, [])
watchdog_from (sleeping wake_at) b now = if leb wake_at now then watchdog_woken b now else (b, [])
watchdog_from restoring b now = (record b { watchdog = done }, [])
watchdog_from done b now = (b, [])

unfoldable pub frame_watchdog : Bridge → ℕ → Bridge × List State
unfolding watchdog_from
frame_watchdog b now = watchdog_from b.watchdog b now

unfoldable pub on_entertainment_start : States → Bridge → ℕ → Bridge
unfolding async_snapshot_lights
on_entertainment_start states b now = record b {
  engine = async_snapshot_lights states b.engine now;
  watchdog = if unwatched b.watchdog then created else b.watchdog;
}

unfoldable pub on_entertainment_stop : Bridge → ℕ → Bridge × List State
unfolding cancel_watchdog stop_entertainment_session
on_entertainment_stop b now = stop_entertainment_session (cancel_watchdog b) now

-- The reply of a light command whose callback has returned, or has raised.
abbrev pub command_reply : Bridge → Option Engine → Reply → Bridge × Reply
command_reply b none reply = (b, raised)
command_reply b (some engine) reply = (record b { engine = engine }, reply)

-- The callback of a request, and the reply after it.
unfoldable pub call_back : PyText → States → Bridge → Option Effect → Reply → ℕ → Bridge × Reply
unfolding on_entertainment_start on_entertainment_stop handle_light_command
call_back py states b none reply now = (b, reply)
call_back py states b (some (started username)) reply now =
    (on_entertainment_start states b now, reply)
call_back py states b (some stopped) reply now = ((on_entertainment_stop b now).0, reply)
call_back py states b (some (light_command light_id body)) reply now =
    command_reply b (handle_light_command py b.engine light_id body now) reply

unfoldable pub serve : PyText → PyHost → States → Bridge → Route → Request → ℕ → Bridge × Reply
unfolding handle call_back
serve py host states b route request now =
    let o = handle py host b.api_server route request now in
    call_back py states (record b { api_server = o.api }) o.effect o.reply now

-- The services, for one loaded bridge; a number out of the range of the schema is refused.
unfoldable pub handle_pause : Bridge → ℕ → ℕ → Option Bridge
unfolding async_pause
handle_pause b seconds now =
    if leb seconds max_yield
    then some (record b { engine = async_pause b.engine seconds now })
    else none

unfoldable pub handle_resume : Bridge → ℕ → Bridge
unfolding async_resume
handle_resume b now = record b { engine = async_resume b.engine now }

unfoldable pub handle_release : Bridge → ℕ → ℕ → ℕ → Option Bridge
unfolding clear_entertainment async_release
handle_release b seconds settle_seconds now =
    if leb seconds max_yield
    then (if leb settle_seconds max_settle
        then some (record b {
          api_server = clear_entertainment b.api_server;
          engine = (async_release b.engine seconds settle_seconds now).0;
        })
        else none)
    else none

-- The end of the entry: the servers have stopped before the lights are restored.
unfoldable pub async_unload_entry : Bridge → ℕ → Bridge × List State
unfolding cancel_watchdog async_restore_lights
async_unload_entry b now =
    let (engine, states) = async_restore_lights b.engine now in
    (record (cancel_watchdog b) { engine = engine }, states)

pub data BridgeEvent : Type 0 where
  request : Route → Request → States → BridgeEvent
  pause_service : ℕ → BridgeEvent
  resume_service : BridgeEvent
  release_service : ℕ → ℕ → BridgeEvent
  watchdog_resumed : BridgeEvent
  frame : List ℕ → BridgeEvent  -- from the mailbox
  pause_timer grace_timer : BridgeEvent
  drain : States → BridgeEvent

abbrev pub or_refused : Bridge → Option Bridge → Bridge
or_refused b none = b
or_refused b (some b') = b'

module _ (py : PyText) (host : PyHost) where
  unfoldable pub bridge_step : Bridge → BridgeEvent → ℕ → Bridge
  unfolding serve handle_pause handle_resume handle_release frame_watchdog step
  bridge_step b (request route r states) now = (serve py host states b route r now).0
  bridge_step b (pause_service seconds) now = or_refused b (handle_pause b seconds now)
  bridge_step b resume_service now = handle_resume b now
  bridge_step b (release_service seconds settle) now =
      or_refused b (handle_release b seconds settle now)
  bridge_step b watchdog_resumed now = (frame_watchdog b now).0
  bridge_step b (frame bytes) now = record b { engine = step py b.engine (Event.frame bytes) now }
  bridge_step b pause_timer now = record b { engine = step py b.engine Event.pause_timer now }
  bridge_step b grace_timer now = record b { engine = step py b.engine Event.grace_timer now }
  bridge_step b (drain states) now = record b { engine = step py b.engine (Event.drain states) now }

  unfoldable pub bridge_run : Bridge → ℕ → List (ℕ × BridgeEvent) → Bridge
  unfolding bridge_step
  bridge_run b now [] = b
  bridge_run b now ((delay, event) ∷ rest) =
      bridge_run (bridge_step b event (now + delay)) (now + delay) rest
