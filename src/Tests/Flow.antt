-- ===== src/Tests/Flow.antt =====
-- The dialog for a new entry, from its first form to the handshake of the stream, and a failed start.
use text.Mathlib.Text.{◌==◌ as str_eq}
use Prim.Native.String.{count}
use ha_hue_entertainment.Prelude.{
  ◌+◌, ◌*◌, ◌≡◌, ◌≤◌, refl, Bool, true, false, String, Option, none, some, List, [], ◌∷◌, length,
  arith, if◌then◌else◌,
}
use ha_hue_entertainment.Prelude.Text.{take, drop, contains}
use ha_hue_entertainment.Json.{null, str, bool, Fields, get, truthy}
use ha_hue_entertainment.UserStore.{find, get_by_devicetype}
use ha_hue_entertainment.HueApi.{HueApiServer, set_link_button, link_button_active}
use ha_hue_entertainment.HueApi.Handlers.{credentials}
use ha_hue_entertainment.HaHttp.{HassHttp, new_host}
use ha_hue_entertainment.Dtls.{Bytes, psk_lookup, psk_server_callback}
use ha_hue_entertainment.ConfigFlow.{
  with_colons, bridge_id_of, mac_from_bridge_id, Poll, wait_for_new_user,
}
use ha_hue_entertainment.ConfigFlow.Mac.{mac_from_bridge_id-bridge_id_of}
use ha_hue_entertainment.ConfigFlow.Waiting.{Spaced, IsAnswer, wait_for_new_user-IsAnswer}
use ha_hue_entertainment.ConfigFlow.Steps.{Surroundings, form_user}
use ha_hue_entertainment.ConfigFlow.Dialog.{
  new_flow, chosen, confirmed, continued, task_ended, dialog_run,
}
use ha_hue_entertainment.ConfigFlow.Cleaned.{IsClean}
use ha_hue_entertainment.ConfigFlow.Clean.Runs.{dialog_run-IsClean}
use ha_hue_entertainment.Bridge.Setup.{async_setup_entry}
use ha_hue_entertainment.Bridge.Lifecycle.{
  EntryOptions, Resolved, resolve_options, Machine, new_servers, async_start, stop_servers,
}
use ha_hue_entertainment.Bridge.Stopped.{IsStarted, NothingRuns, async_start-IsStarted}
use ha_hue_entertainment.Bridge.Paired.{paired_client-psk, waiting_flow, pairing_events}
use ha_hue_entertainment.ConfigFlow.Steps.{TempApi, progress, entry}
use ha_hue_entertainment.HueApi.Site.{new_site}
use ha_hue_entertainment.HueApi.Handlers.{handle}
use ha_hue_entertainment.HueApi.Requests.{create_user}
use ha_hue_entertainment.UserStore.{Users}
use ha_hue_entertainment.Mailbox.{new_mailbox}
use ha_hue_entertainment.Diagnostics.{Redact, async_get_config_entry_diagnostics}
use ha_hue_entertainment.Diagnostics.Hidden.{entry_data, Hides, IsLookAlike, diagnostics-LookAlike}
use ha_hue_entertainment.Tests.{py, host, setup, put_body}

raw_twelve : count "AABBCC112233" ≡ 12
raw_twelve = refl

no_fffe :
    (contains "FFFE" (take 6 "AABBCC112233") ≡ false)
    × (contains "FFFE" (drop 6 "AABBCC112233") ≡ false)
unfolding contains take drop
no_fffe = (refl, refl)

mac_from_bridge_id-bridge_id_of_example :
    mac_from_bridge_id host (bridge_id_of "AABBCC112233") ≡ with_colons "AABBCC112233"
mac_from_bridge_id-bridge_id_of_example =
    mac_from_bridge_id-bridge_id_of host "AABBCC112233" raw_twelve no_fffe.0 no_fffe.1

-- With "FFFE" among the random digits the address is too short.
mac_too_short : mac_from_bridge_id host (bridge_id_of "FFFE00112233") ≡ "00:11:22:33::"
unfolding mac_from_bridge_id bridge_id_of
mac_too_short = refl

abbrev polls : List Poll
polls =
    record { now = 0; users = [] }
    ∷ record { now = 520; users = "tv" ∷ [] }
    ∷ record { now = 1030; users = "tv" ∷ [] }
    ∷ []

polls-Spaced : Spaced 0 polls
polls-Spaced = (omega arith, (omega arith, (omega arith, tt)))

enough : 1000 + 500 ≤ 500 * length polls
enough = omega arith

wait_for_new_user-IsAnswer_example : IsAnswer 1000 [] polls (wait_for_new_user 0 [] 1000 polls)
wait_for_new_user-IsAnswer_example = wait_for_new_user-IsAnswer 0 1000 [] polls polls-Spaced enough

abbrev pub hass : HassHttp
hass = record {
  server_port = 8123;
  has_certificate = false;
  has_config_route = true;
  has_api = true;
}

abbrev around : Surroundings
around = record {
  hass = hass;
  host_ip = "192.168.1.2";
  bound = true;
  registered = true;
  server = 1;
  now = 10000;
}

dialog_run-IsClean_example : IsClean (
    dialog_run py host
      (new_flow new_host, form_user)
      ((around, chosen false "aabbcc112233ffff" ("light.lamp" ∷ []))
        ∷ (around, confirmed)
        ∷ (around, task_ended (some true))
        ∷ (around, continued)
        ∷ []))
dialog_run-IsClean_example = dialog_run-IsClean py host new_host (
    (around, chosen false "aabbcc112233ffff" ("light.lamp" ∷ []))
    ∷ (around, confirmed)
    ∷ (around, task_ended (some true))
    ∷ (around, continued)
    ∷ [])

abbrev no_options : EntryOptions
no_options = record {
  lights = none;
  bind_ip = none;
  entertainment_port = none;
  api_port = none;
  http_mode = none;
}

abbrev pub resolved : Resolved
resolved =
    resolve_options hass
      (record { url_host = none; loopback = λ s. none; source_ip = "192.168.1.2" }) no_options
      no_options

abbrev port_taken : Machine
port_taken = record {
  hass = hass;
  bound = false;
  context = true;
  dtls_bound = false;
  registered = true;
}

async_start-IsStarted_example :
    IsStarted false
      (async_start host port_taken (new_servers new_host 1 "001788fffe000001" resolved))
    × NothingRuns (
        stop_servers true
          (async_start host port_taken (new_servers new_host 1 "001788fffe000001" resolved)).0)
async_start-IsStarted_example =
    async_start-IsStarted host port_taken new_host 1 "001788fffe000001" resolved

abbrev pair_body : Fields
pair_body =
    Fields.field "devicetype" (str "ambilight")
      (Fields.field "generateclientkey" (bool true) Fields.end)

abbrev open_api : HueApiServer
open_api = record (set_link_button (async_setup_entry setup 10000).api_server true 10000) {
  user_store = record { ha_store = none; users = [] };
}

abbrev from_hex : String → Option Bytes
from_hex = λ s. if str_eq s "abcd" then some (171 ∷ 205 ∷ []) else none

link_open : link_button_active open_api 11000 ≡ true
unfolding link_button_active set_link_button
link_open = refl

no_device : get_by_devicetype open_api.user_store (str "ambilight") ≡ none
unfolding get_by_devicetype
no_device = refl

not_stored : find "fresh" setup.stored ≡ none
unfolding find
not_stored = refl

abbrev open_temp : TempApi
open_temp = record {
  site = record (new_site 1 false) { runner = true; listening = true };
  api = open_api;
}

paired_client-psk_example :
    ((handle py host open_api create_user (put_body pair_body) 11000).reply
      ≡ credentials "fresh" "abcd" true)
    × (users : Users) × ((dialog_run py host
          (waiting_flow (new_flow new_host) open_temp, progress)
          (pairing_events (put_body pair_body) 11000 around)).1
        ≡ entry [] "" users)
    × (psk_server_callback
          (psk_lookup from_hex
            (async_setup_entry (record setup { initial_users = users }) 90000).api_server)
          (some "fresh")
          256
        ≡ record { size = 2; buffer = 171 ∷ 205 ∷ [] })
unfolding get truthy new_flow
paired_client-psk_example =
    paired_client-psk py host from_hex (new_flow new_host) open_temp (put_body pair_body) pair_body
      11000 90000 256 around setup (171 ∷ 205 ∷ []) refl link_open no_device refl not_stored refl
      (omega arith)

abbrev is_key : String → List String → Bool
is_key k [] = false
is_key k (key ∷ keys) = if str_eq k key then true else is_key k keys

abbrev redact : Redact
redact Fields.end keys = Fields.end
redact (Fields.field k v rest) keys =
    Fields.field k (if is_key k keys then str "**REDACTED**" else v) (redact rest keys)

redact-Hides : Hides redact
redact-Hides lights bridge_id users users' = refl

abbrev other_api : HueApiServer
other_api = record open_api {
  user_store = record {
    ha_store = none;
    users = ("0123456789", record { clientkey = "00"; devicetype = some (str "tv") }) ∷ [];
  };
}

abbrev look_alike : HueApiServer
look_alike = record open_api {
  user_store = record {
    ha_store = none;
    users = ("012345ffff", record { clientkey = "ff"; devicetype = some (str "tv") }) ∷ [];
  };
}

look_alike-IsLookAlike : IsLookAlike other_api look_alike
unfolding take
look_alike-IsLookAlike = record {
  same_id = refl;
  same_active = refl;
  same_owner = refl;
  same_users = (refl, refl, tt);
}

diagnostics-LookAlike_example :
    async_get_config_entry_diagnostics redact
      (entry_data null "id" Fields.end)
      Fields.end
      other_api
      (async_setup_entry setup 10000).engine
      new_mailbox
      20000
    ≡ async_get_config_entry_diagnostics redact
        (entry_data null "id" Fields.end)
        Fields.end
        look_alike
        (async_setup_entry setup 10000).engine
        new_mailbox
        20000
diagnostics-LookAlike_example =
    diagnostics-LookAlike redact null "id" Fields.end Fields.end Fields.end other_api look_alike
      (async_setup_entry setup 10000).engine new_mailbox 20000 redact-Hides look_alike-IsLookAlike
