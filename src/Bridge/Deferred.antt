-- ===== src/Bridge/Deferred.antt =====
-- The life of an entry from its set-up to its unload, with the start that is put off until Home Assistant
-- has started: __init__.py, lines 349-389 and 400-411.
pub mod Fits
pub mod Sound
pub mod Unloaded
use ha_hue_entertainment.Prelude.{◌≡◌, ◌≢◌, refl, Bool, true, false, some, if◌then◌else◌}
use ha_hue_entertainment.HueApi.Host.{PyHost}
use ha_hue_entertainment.HaHttp.{HueHttpHost}
use ha_hue_entertainment.Bridge.Lifecycle.{
  Servers, Machine, Start, ready, not_ready, failed, Outcome, async_start, stop_servers,
}

-- `hass.state`, as far as the code and the events tell it apart.
pub data CoreState : Type 0 where
  not_started : CoreState  -- EVENT_HOMEASSISTANT_STARTED is still to come
  running : CoreState
  stopping : CoreState

-- How far the entry has come: `leaving` while `async_unload_entry` waits for the platforms to unload,
-- `unloading` from then until the unload callbacks are called, or for good where the platforms have not.
pub data Phase : Type 0 where
  set_up refused leaving unloading unloaded : Phase

pub record Life : Type 0 where
  pub hass_state : CoreState
  pub phase : Phase
  pub waits : Bool  -- the one-shot listener of EVENT_HOMEASSISTANT_STARTED is on the bus
  pub stop_waits : Bool  -- that of EVENT_HOMEASSISTANT_STOP
  pub servers : Servers

abbrev was_set_up : Start → Phase
was_set_up ready = set_up
was_set_up not_ready = refused
was_set_up failed = refused

abbrev stops_later : Start → Bool
stops_later ready = true
stops_later not_ready = false
stops_later failed = false

-- An exception ends the set-up before the listener of the stop is made.
abbrev pub started_now : CoreState → Outcome → Life
started_now state (s, start) = record {
  hass_state = state;
  phase = was_set_up start;
  waits = false;
  stop_waits = stops_later start;
  servers = s;
}

abbrev pub put_off : CoreState → Servers → Life
put_off state s = record {
  hass_state = state;
  phase = set_up;
  waits = true;
  stop_waits = true;
  servers = s;
}

-- The end of the set-up, with the servers that it has made.
unfoldable pub set_up_entry : PyHost → Machine → CoreState → Servers → Life
set_up_entry python m not_started s = put_off not_started s
set_up_entry python m running s = started_now running (async_start python m s)
set_up_entry python m stopping s = put_off stopping s

-- Home Assistant has started: a listener that still waits is taken off the bus and called.
unfoldable pub deferred_start : PyHost → Machine → Life → Life
deferred_start python m l =
    if l.waits
    then record l {
      hass_state = running;
      waits = false;
      servers = (async_start python m l.servers).0;
    }
    else record l { hass_state = running }

-- Home Assistant stops; the thread ends in time.
unfoldable pub stop_event : Life → Life
stop_event l =
    if l.stop_waits
    then record l {
      hass_state = stopping;
      stop_waits = false;
      servers = stop_servers true l.servers;
    }
    else record l { hass_state = stopping }

-- The platforms are unloaded, or refuse to be.
unfoldable pub unload_platforms : Life → Life
unload_platforms l = record l { phase = leaving }

-- The servers are stopped, the thread ends in time.
unfoldable pub unload_entry : Life → Life
unload_entry l = record l { phase = unloading; servers = stop_servers true l.servers }

-- `unsub_started`, unless Home Assistant runs.
unfoldable pub cancel_deferred_start : CoreState → Bool → Bool
cancel_deferred_start not_started waits = false
cancel_deferred_start running waits = waits
cancel_deferred_start stopping waits = false

-- The callbacks of `entry.async_on_unload`, which Home Assistant calls when the entry is unloaded.
unfoldable pub on_unload : Life → Life
unfolding cancel_deferred_start
on_unload l = record l {
  phase = unloaded;
  waits = cancel_deferred_start l.hass_state l.waits;
  stop_waits = false;
}

abbrev pub with_host : Life → HueHttpHost → Life
with_host l host = record l {
  servers = record l.servers { api = record l.servers.api { host = host } };
}

-- What Home Assistant and the other entries do next. It has started once, before it stops, and unloads an
-- entry that is set up; others attach and detach their own servers. It may start while the platforms unload.
-- Behind that `async_unload_entry` waits for a thread, a port, a service or a session that it ends; while
-- the start is still to come there is none of them, and nothing comes before the callbacks.
pub data Step (python : PyHost) : Life → Life → Type 0 where
  has_started :
      (l : Life) (m : Machine)
      → l.hass_state ≡ not_started
      → l.phase ≢ unloading
      → Step python l (deferred_start python m l)
  stops : (l : Life) → Step python l (stop_event l)
  leaves : (l : Life) → l.phase ≡ set_up → Step python l (unload_platforms l)
  unloads : (l : Life) → l.phase ≡ leaving → Step python l (unload_entry l)
  calls_back : (l : Life) → l.phase ≡ unloading → Step python l (on_unload l)
  elsewhere :
      (l : Life) (host : HueHttpHost)
      → (host.target ≡ some l.servers.api.site.server
          → l.servers.api.host.target ≡ some l.servers.api.site.server)
      → Step python l (with_host l host)

pub data Lives (python : PyHost) (s : Servers) : Life → Type 0 where
  begins : (m : Machine) (state : CoreState) → Lives python s (set_up_entry python m state s)
  goes_on : {l l' : Life} → Lives python s l → Step python l l' → Lives python s l'
