-- ===== src/ConfigFlow/Steps.antt =====
-- `HueEntertainmentConfigFlow`, the dialog for a new entry: config_flow.py, lines 76-216, and the order in
-- which Home Assistant calls its steps. A method is one step; what the calls of other code give is in
-- `Surroundings`, where their exceptions matter.
use ha_hue_entertainment.Prelude.{
  ℕ, Bool, true, false, String, Option, none, some, List, [], if◌then◌else◌, length,
}
use ha_hue_entertainment.Prelude.Calls.{Called, returned, os_error, other_error}
use ha_hue_entertainment.UserStore.{Users, UserStore}
use ha_hue_entertainment.HueApi.{HueApiServer, set_link_button}
use ha_hue_entertainment.HueApi.Host.{PyHost}
use ha_hue_entertainment.HueApi.Site.{Site, new_site, start_site, stop_site, Served}
use ha_hue_entertainment.HaHttp.{HassHttp, HueHttpHost, resolve_use_ha_http, http_mode_auto}
use ha_hue_entertainment.Discovery.{ServiceInfo, Discovery, start_discovery, stop_discovery}
use ha_hue_entertainment.ConfigFlow.{mac_from_bridge_id, new_bridge_id}

abbrev pub default_api_port : ℕ
default_api_port = 80

-- `_pairing_task`; a task that has ended has the result of the wait, or `none` for its exception.
pub data Task : Type 0 where
  no_task pending : Task
  finished : Option Bool → Task

pub record TempApi : Type 0 where
  pub site : Site
  pub api : HueApiServer

-- `temp_user_store` and `user_store` of `temp_api` are one object: a request writes both.
pub record Flow : Type 0 where
  pub lights : List String
  pub bridge_id : String
  pub paired : Bool
  pub task : Task
  pub temp_api : Option TempApi
  pub temp_discovery : Option Discovery
  pub temp_user_store : Option UserStore
  pub host : HueHttpHost  -- Home Assistant's, shared
  pub attached : Option ℕ  -- the last temporary server that Home Assistant's was to serve
  pub port_held : Bool  -- a temporary server has the port to itself
  pub advertised : Bool  -- zeroconf has been given a temporary service, and has it still

pub record Surroundings : Type 0 where
  pub hass : HassHttp
  pub host_ip : String  -- async_get_source_ip
  pub bound : Bool  -- the port can be bound
  pub registered : Bool  -- zeroconf takes the service
  pub server : ℕ  -- the new HueAPIServer
  pub now : ℕ

-- What a step gives back to Home Assistant.
pub data Shown : Type 0 where
  form_user form_pre_pairing progress done_paired done_not_paired form_not_paired raised : Shown
  aborted : String → Shown
  entry : List String → String → Users → Shown

abbrev pub stopped_at : Flow → Served → Flow
stopped_at f s = record f { host = s.host; port_held = s.site.listening; temp_api = none }

abbrev pub stop_temp_api : Option TempApi → Flow → Flow
stop_temp_api none f = f
stop_temp_api (some t) f = stopped_at f (stop_site (record { host = f.host; site = t.site }))

abbrev pub is_advertised : Option ServiceInfo → Bool
is_advertised none = false
is_advertised (some info) = true

abbrev pub stop_temp_discovery : Option Discovery → Flow → Flow
stop_temp_discovery none f = f
stop_temp_discovery (some d) f = record f {
  advertised = is_advertised (stop_discovery d).service_info;
  temp_discovery = none;
}

abbrev pub cancel_task : Task → Task
cancel_task no_task = no_task
cancel_task pending = no_task
cancel_task (finished result) = finished result

unfoldable pub cleanup_temp_servers : Flow → Flow
unfolding stop_site stop_discovery
cleanup_temp_servers f =
    let no_api = stop_temp_api f.temp_api f in
    record (stop_temp_discovery f.temp_discovery no_api) { task = cancel_task f.task }

abbrev pub users_or_none : Option UserStore → Users
users_or_none none = []
users_or_none (some store) = store.users

unfoldable pub create_entry : Flow → Shown
create_entry f = entry f.lights f.bridge_id (users_or_none f.temp_user_store)

-- The temporary API server, before it starts.
unfoldable pub temp_api_of : PyHost → Surroundings → Flow → TempApi
unfolding resolve_use_ha_http mac_from_bridge_id
temp_api_of python around f =
    let use_ha_http = resolve_use_ha_http around.hass http_mode_auto in
    record {
      site = new_site around.server use_ha_http;
      api = record {
        bridge_id = f.bridge_id;
        mac = mac_from_bridge_id python f.bridge_id;
        host_ip = around.host_ip;
        http_port = if use_ha_http then around.hass.server_port else default_api_port;
        channel_count = length f.lights;
        light_entities = f.lights;
        user_store = record { ha_store = none; users = [] };
        link_button_expires = 0;
        entertainment_active = false;
        entertainment_owner = none;
      };
    }

abbrev pub Step : Type 0
Step = Flow × Shown

abbrev pub discovered : Called Unit → Flow → Step
discovered (returned u) f = (record f { task = pending }, progress)
discovered os_error f = (f, raised)
discovered other_error f = (f, raised)

-- The mDNS service, after the API has started; an exception of zeroconf leaves the step.
abbrev pub with_discovery : PyHost → Surroundings → Flow → TempApi → Step
with_discovery python around f t =
    let d = start_discovery python around.registered (record {
      bridge_id = f.bridge_id;
      host_ip = around.host_ip;
      port = t.api.http_port;
      service_info = none;
    }) in
    discovered d.result (record f {
      temp_api = some (record t { api = set_link_button t.api true around.now });
      temp_discovery = some d.after;
      advertised = is_advertised d.after.service_info;
    })

abbrev pub started_or_aborted : PyHost → Surroundings → Flow → TempApi → Called Unit → Step
started_or_aborted python around f t (returned u) = with_discovery python around f t
started_or_aborted python around f t os_error =
    (cleanup_temp_servers (record f { temp_api = some t }), aborted "port_in_use")
started_or_aborted python around f t other_error = (record f { temp_api = some t }, raised)

unfoldable pub open_with : PyHost → Surroundings → Flow → TempApi → Step
unfolding start_site set_link_button start_discovery cleanup_temp_servers
open_with python around f t =
    let s = start_site around.hass around.bound (record { host = f.host; site = t.site }) in
    started_or_aborted python around
      (record f {
        temp_user_store = some t.api.user_store;
        host = s.after.host;
        attached = if t.site.hosted then some t.site.server else none;
        port_held = s.after.site.listening;
      })
      (record t { site = s.after.site }) s.result

unfoldable pub open_pairing : PyHost → Surroundings → Flow → Step
unfolding temp_api_of open_with
open_pairing python around f = open_with python around f (temp_api_of python around f)

abbrev pub is_paired : Option Bool → Bool
is_paired none = false
is_paired (some paired) = paired

unfoldable pub close_pairing : Flow → Option Bool → Step
unfolding cleanup_temp_servers
close_pairing f result =
    let paired = is_paired result in
    (
      cleanup_temp_servers (record f { paired = paired }),
      if paired then done_paired else done_not_paired,
    )

abbrev pub pairing_by : Task → PyHost → Surroundings → Flow → Step
pairing_by no_task python around f = open_pairing python around f
pairing_by pending python around f = (f, progress)
pairing_by (finished result) python around f = close_pairing f result

unfoldable pub async_step_pairing : PyHost → Surroundings → Flow → Step
unfolding open_pairing close_pairing
async_step_pairing python around f = pairing_by f.task python around f

unfoldable pub async_step_pre_pairing : PyHost → Surroundings → Flow → Bool → Step
unfolding async_step_pairing
async_step_pre_pairing python around f submitted =
    if submitted then async_step_pairing python around f else (f, form_pre_pairing)

-- `configured`: there is an entry already; `hex` is uuid.uuid4().hex.
abbrev pub user_step : PyHost → Surroundings → Flow → Bool → String → Option (List String) → Step
user_step python around f configured hex none = (f, form_user)
user_step python around f configured hex (some lights) =
    if configured
    then (f, aborted "already_configured")
    else async_step_pre_pairing python around
        (record f { lights = lights; bridge_id = new_bridge_id python hex }) false

unfoldable pub async_step_user :
    PyHost → Surroundings → Flow → Bool → String → Option (List String) → Step
unfolding async_step_pre_pairing new_bridge_id
async_step_user python around f configured hex input =
    user_step python around f configured hex input

unfoldable pub async_step_paired : Flow → Step
unfolding create_entry
async_step_paired f = (f, create_entry f)

unfoldable pub async_step_not_paired : Flow → Bool → Step
unfolding create_entry
async_step_not_paired f submitted = if submitted then (f, create_entry f) else (f, form_not_paired)
