-- ===== src/Lib.antt =====
-- Verification of the Hue Entertainment Bridge, an integration of Home Assistant that lets a TV drive
-- lights as if they were those of a Hue bridge.
--
-- The parts and how they work together. A dialog makes an entry (ConfigFlow): it opens a temporary bridge,
-- with which a TV pairs. The entry then runs three servers (Bridge/Lifecycle): a REST API (HueApi), by
-- itself or on Home Assistant's own HTTP server (HaHttp), for control; a DTLS server (Dtls), over which
-- the TV streams colours; and an announcement by mDNS (Discovery). The thread of the DTLS server reads
-- the stream and hands each frame to the event loop through a mailbox (Mailbox), which keeps the newest
-- frame alone. The engine (Engine) parses a frame (HueStream), writes
-- the colours into one slot for each light, and a drain loop sends one command at a time from the
-- slots. Commands for single lights that come by REST are translated (ServiceData) and merged into the
-- same slots. Other automations can ask for silence: `pause` drops what comes for a time, `release`
-- asks for the end of the session and, after a grace period, forces it. A watchdog (Bridge) ends a
-- session without frames. Sensors (Engine/Stats) and a download of diagnostics (Diagnostics) show the state.
--
-- Files and code (all under custom_components/hue_entertainment/):
--   HueStream         entertainment.py: ChannelColor, parse_huestream_frame and its helpers
--   Json              the values of Python's json module, and int(), float(), bool(), == on them
--   ServiceData       entertainment.py: _v1_state_to_service_data
--   Mailbox           entertainment.py: FrameMailbox; Mailbox/Handoff has the steps of its two threads
--   Engine            entertainment.py: LightMapping, EntertainmentEngine: state, properties, resets
--   Engine/Frames     handle_frame, _schedule_update, _log_fps
--   Engine/Classic    handle_light_command
--   Engine/Control    async_pause, async_resume, async_release, their cancellations and timers
--   Engine/Session    async_snapshot_lights, async_restore_lights
--   Engine/Drain      _drain_loop, _drain_until_idle_or_cancelled, _light_available
--   Engine/Steps      the calls that the event loop makes on the engine, in any order
--   UserStore         user_store.py, and the import of users in __init__.py
--   HueApi            hue_api.py: state; HueApi/Lights and HueApi/Resources what it serves (on
--                     HueApi/Host), HueApi/Requests what handlers share, HueApi/Handlers the handlers
--   HueApi/Site       hue_api.py: async_start and async_stop of the server
--   HaHttp            ha_http.py: is_lan_request, resolve_use_ha_http, HueHttpHost, _HueView
--   Dtls              dtls_psk/server.py: the callbacks of OpenSSL, async_start, async_stop; psk_lookup of
--                     __init__.py; Dtls/Session the thread, from _serve_loop on; Dtls/HandedOn
--                     _dispatch_frame, with the mailbox and the queue of the event loop behind it
--   Discovery         discovery.py
--   ConfigFlow        config_flow.py: mac_from_bridge_id, _wait_for_new_user
--   ConfigFlow/Steps  HueEntertainmentConfigFlow; ConfigFlow/Dialog has the order of its steps, in which
--                     Home Assistant calls them, and ConfigFlow/Options is OptionsFlowHandler
--   Engine/Stats      entertainment.py: stats, status_attributes; binary_sensor.py; sensor.py
--   Diagnostics       diagnostics.py
--   Bridge            __init__.py: callbacks, watchdog, services; Bridge/Setup builds the state
--   Bridge/Services   __init__.py: _loaded_entries and the services over all entries
--   Bridge/Lifecycle  __init__.py: options, addresses and ports, _async_start, _async_stop
--   Bridge/Deferred   __init__.py: the end of async_setup_entry, the start put off until Home Assistant
--                     has started, and the unload, as a step relation on the entry's listeners
--   Prelude           numbers, lists, texts, results of calls and tests that the modules share
-- The other modules prove something of the module that they stand under, by the name of what they show;
-- Tests holds concrete inputs. Functions have the names of the code without the leading underscore.
--
-- How the code is read.
-- * Time is in milliseconds of the monotonic clock, a natural number; it is read once in each step, and
--   where two times are subtracted the clock's order makes the result exact, or 0 where the first is
--   smaller and only a comparison follows.
-- * What Python computes in floats is exact: a tolerance on fractions is a comparison of products, a
--   rounded quotient is the rounding of the fraction to the nearest, ties to even. The infinities, NaN
--   and the OverflowError of very large numbers are left out.
-- * -1 as the last value of a light is `none`. A dict is the list of its entries in their order; keys of
--   parsed JSON are distinct.
-- * Where Python raises, the function returns `none`, the handler's reply is `raised`, or the call's result
--   (Prelude/Calls) is one of the exceptions that the caller tells apart.
-- * What OpenSSL, sockets, zeroconf and Home Assistant answer is given to a step from outside, call by call:
--   `Client` and `Read` for a turn of the DTLS thread, `Machine` for a start, `Surroundings` for a step of
--   the dialog. A list of answers that runs out is a thread that is still inside its call. A server object
--   is a number, and every server that can be told apart by `is` has its own.
-- * A coroutine is a machine that is resumed where it waits. The drain loop stops at its service call and
--   at its wait; `async_restore_lights` is split where it waits for the cancelled loop and is one step in
--   the histories, as is every request handler. Requests reach a handler by the router of aiohttp, which
--   gives the parts of the path. A callback's work is done within the step of the request.
-- * The state that the two sensors wrote last is kept in the engine and written by its notification.
-- * Conversions between text and numbers (`PyText`), IP addresses (`IpAddress`, `IpText`), letter case,
--   hashes and timestamps (`PyHost`), new credentials (`Request`), the redaction of Home Assistant (`Redact`)
--   and the states that it reports (`States`) are parameters.
-- * The polling loop of the dialog and the loops of the DTLS thread recurse on the list of their turns; the
--   theorems on the wait and on a silent TV say how many turns are enough.
-- * The parser's loops run on fuel, the length of the data: each round moves on by at least seven bytes.
--   The round trip and the count of the channels show that it is enough.
--
-- Not modelled: the declarations of OpenSSL for cffi (dtls_psk/_openssl.py) and sockets, beyond
-- whether their ports could be bound; which view of aiohttp a path reaches; the schemas of forms, the registration of services, platforms and
-- entities; what Home Assistant does when it removes a dialog;
-- an unload or a stop between the awaits of a start, which Bridge/Deferred takes as one step; log messages.
pub mod Prelude
pub mod HueStream
pub mod Json
pub mod ServiceData
pub mod Engine
pub mod Mailbox
pub mod UserStore
pub mod HueApi
pub mod HaHttp
pub mod Dtls
pub mod Discovery
pub mod ConfigFlow
pub mod Diagnostics
pub mod Bridge
mod Tests
