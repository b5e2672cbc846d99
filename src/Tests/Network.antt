-- ===== src/Tests/Network.antt =====
-- Requests through Home Assistant's server, and a stream of two frames.
use ha_hue_entertainment.Prelude.{
  ℕ, ◌≡◌, ◌≢◌, ◌≤◌, ◌-◌, ◌↔◌, arith, refl, true, false, String, Option, some, List, [], ◌∷◌, ◌++◌,
  map, length, Bool, true, false,
}
use ha_hue_entertainment.Json.{Fields}
use ha_hue_entertainment.HueApi.{HueApiServer, link_button_active}
use ha_hue_entertainment.HueApi.Requests.{Request, create_user}
use ha_hue_entertainment.HaHttp.{HassHttp, WebRequest, IpAddress, dispatch}
use ha_hue_entertainment.HaHttp.Attached.{
  HostEvent, attached, detached, host_after, Serves, first_attachment, views_for,
  host_after-IsHosted,
}
use ha_hue_entertainment.HaHttp.Refused.{IsDirect}
use ha_hue_entertainment.HaHttp.Reached.{
  servers_after, IsDispatched, dispatch-IsDispatched, dispatch-users,
}
use ha_hue_entertainment.Dtls.{Bytes, psk_lookup, psk_server_callback}
use ha_hue_entertainment.Dtls.Keys.{HasKey, psk_server_callback-HasKey}
use ha_hue_entertainment.Dtls.{new_server, async_start}
use ha_hue_entertainment.Dtls.HandedOn.{dispatch_all, run_callbacks}
use ha_hue_entertainment.Dtls.HandedOn.Stalled.{idle_hand, emptied, stalled_loop}
use ha_hue_entertainment.Dtls.Reads.{without_reads}
use ha_hue_entertainment.Dtls.Session.{
  not_handed_on, raised, want_read, zero_return, positive, data_read, failed, Read,
  dispatch as dispatched, returned, blocked, Client, read_loop, serve_loop,
}
use ha_hue_entertainment.Dtls.Streamed.{
  Kept, done, fed, quiet, IsOver, frames_of, last_of, timeout_at, read_loop-IsStream,
  read_loop-silence,
}
use ha_hue_entertainment.Dtls.Freed.{nothing, IsNothing, IsBalanced}
use ha_hue_entertainment.Dtls.Freed.Thread.{serve_loop-IsBalanced}
use ha_hue_entertainment.Bridge.Setup.{async_setup_entry}
use ha_hue_entertainment.Tests.{py, host, setup, put_body}

abbrev hass : HassHttp
hass = record { server_port = 80; has_certificate = false; has_config_route = true; has_api = true }

abbrev ip : IpAddress
ip = λ s. some false

abbrev from_tv : WebRequest
from_tv = record {
  has_header = λ h. false;
  remote = some "192.168.1.7";
  authenticated = false;
  path = "/api";
}

abbrev pairing : Request
pairing = put_body Fields.end

abbrev servers : ℕ → HueApiServer
servers = λ i. (async_setup_entry setup 10000).api_server

-- The entry's server follows the one of the pairing, which detaches late.
abbrev past : List HostEvent
past = detached 1 ∷ attached hass 2 ∷ attached hass 1 ∷ []

host_after-IsHosted_example :
    (((host_after past).target ≡ some 2) ↔ Serves 2 past)
    × ((host_after past).views ≡ views_for (first_attachment past))
host_after-IsHosted_example = host_after-IsHosted past 2

not_open : (IsDirect ip from_tv × Serves 2 past × (link_button_active (servers 2) 11000 ≡ true)) → ⊥
unfolding link_button_active async_setup_entry
not_open (d, s, pressed) = ground arith

dispatch-users_example :
    (servers_after servers
      (dispatch py host ip servers (host_after past) from_tv create_user pairing 11000)
      2).user_store
    ≡ (servers 2).user_store
dispatch-users_example =
    dispatch-users py host ip servers past from_tv create_user pairing 11000 2 not_open

dispatch-IsDispatched_example :
    IsDispatched py host ip servers past from_tv create_user pairing 11000
      (dispatch py host ip servers (host_after past) from_tv create_user pairing 11000)
dispatch-IsDispatched_example =
    dispatch-IsDispatched py host ip servers past from_tv create_user pairing 11000

abbrev key_of_hex : String → Option Bytes
key_of_hex = λ s. some (0 ∷ 255 ∷ [])

abbrev api : HueApiServer
api = (async_setup_entry setup 10000).api_server

psk_server_callback-HasKey_example :
    ((psk_server_callback (psk_lookup key_of_hex api) (some "tv") 256).size ≢ 0
      → HasKey key_of_hex api
          (some "tv")
          256
          (psk_server_callback (psk_lookup key_of_hex api) (some "tv") 256).buffer)
    × ((key : Bytes)
        → HasKey key_of_hex api (some "tv") 256 key
        → psk_server_callback (psk_lookup key_of_hex api) (some "tv") 256
          ≡ record { size = length key; buffer = key })
psk_server_callback-HasKey_example = psk_server_callback-HasKey key_of_hex api 256 (some "tv")

abbrev frame_at : ℕ → Bytes → Read
frame_at now bytes = record {
  running_before = true;
  result = data_read bytes;
  running = true;
  now = now;
}

abbrev two_frames : List Read
two_frames = frame_at 1000 (1 ∷ []) ∷ timeout_at 2000 ∷ frame_at 2500 (2 ∷ []) ∷ []

two_frames-Kept : Kept 30000 500 two_frames
two_frames-Kept = fed 500 1000 (1 ∷ []) true (timeout_at 2000 ∷ frame_at 2500 (2 ∷ []) ∷ []) (
    quiet 1000 (timeout_at 2000) (frame_at 2500 (2 ∷ []) ∷ []) (refl, refl, refl, omega arith)
      (fed 1000 2500 (2 ∷ []) true [] (done 2500)))

read_loop-IsStream_example :
    (without_reads (read_loop 30000 500 two_frames)
      ≡ record { calls = map dispatched (frames_of two_frames); ending = blocked })
    × ((r : Read) (rest : List Read)
        → IsOver 30000 (last_of 500 two_frames) r
        → without_reads (read_loop 30000 500 (two_frames ++ (r ∷ rest)))
          ≡ record { calls = map dispatched (frames_of two_frames); ending = returned })
    × ((r : Read) (frame : Bytes) (rest : List Read)
        → r.running_before ≡ true
        → r.result ≡ not_handed_on frame
        → without_reads (read_loop 30000 500 (two_frames ++ (r ∷ rest)))
          ≡ record { calls = map dispatched (frames_of two_frames); ending = raised })
read_loop-IsStream_example = read_loop-IsStream 30000 500 two_frames two_frames-Kept

silent : 30000 ≤ 32500 - last_of 500 two_frames
silent = omega arith

read_loop-silence_example :
    without_reads (
      read_loop 30000 500
        (two_frames ++ (map timeout_at (10000 ∷ 20000 ∷ []) ++ (timeout_at 32500 ∷ []))))
    ≡ record { calls = dispatched (1 ∷ []) ∷ dispatched (2 ∷ []) ∷ []; ending = returned }
read_loop-silence_example =
    read_loop-silence 30000 500 two_frames (10000 ∷ 20000 ∷ []) 32500 [] two_frames-Kept silent

abbrev tv : Client
tv = record {
  has_ssl = true;
  has_bio = true;
  has_addr = true;
  listened = some (record { ret = positive; err = want_read; running = true });
  handshake_began = 400;
  handshakes = record { ok = true; err = want_read; running = true; now = 500 } ∷ [];
  stream_began = 500;
  reads =
      frame_at 1000 (1 ∷ [])
      ∷ record { running_before = true; result = failed zero_return; running = true; now = 1500 }
      ∷ [];
}

serve_loop-IsBalanced_example :
    IsBalanced nothing IsNothing (serve_loop 30000 true ((true, tv) ∷ (false, tv) ∷ []))
serve_loop-IsBalanced_example = serve_loop-IsBalanced 30000 true ((true, tv) ∷ (false, tv) ∷ [])

stalled_loop_example :
    ((ok : Bool) → (async_start ok new_server).after.loop ≡ true)
    × (length (dispatch_all (idle_hand true 0) ((1 ∷ []) ∷ (2 ∷ []) ∷ [])).queue ≡ 2)
    × (run_callbacks 3 (dispatch_all (idle_hand true 0) ((1 ∷ []) ∷ (2 ∷ []) ∷ []))
        ≡ emptied true (2 ∷ []) 1)
    × (length (dispatch_all (idle_hand false 0) ((1 ∷ []) ∷ (2 ∷ []) ∷ [])).queue ≡ 1)
    × (run_callbacks 1 (dispatch_all (idle_hand false 0) ((1 ∷ []) ∷ (2 ∷ []) ∷ []))
        ≡ emptied false (2 ∷ []) 1)
stalled_loop_example = stalled_loop 0 (1 ∷ []) ((2 ∷ []) ∷ [])
