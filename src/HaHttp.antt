-- ===== src/HaHttp.antt =====
-- The Hue API on Home Assistant's own HTTP server: custom_components/hue_entertainment/ha_http.py.
-- A server object is a number: `is` compares the numbers.

pub mod Attached
pub mod Refused
pub mod Reached
use text.Mathlib.Text.{◌==◌ as str_eq}
use ha_hue_entertainment.Prelude.{
  ℕ, Bool, true, false, not, ◌&&◌, ◌||◌, String, Option, none, some, List, [], ◌∷◌, ◌++◌, ◌==◌,
  if◌then◌else◌,
}
use ha_hue_entertainment.Prelude.Text.{replace}
use ha_hue_entertainment.Json.{Value, PyText}
use ha_hue_entertainment.HueApi.{HueApiServer, Outcome}
use ha_hue_entertainment.HueApi.Host.{PyHost}
use ha_hue_entertainment.HueApi.Requests.{Route, Request, config, error_reply}
use ha_hue_entertainment.HueApi.Handlers.{handle}

-- What the guards read of a request of aiohttp.
pub record WebRequest : Type 0 where
  pub has_header : String → Bool
  pub remote : Option String
  pub authenticated : Bool  -- request.get(KEY_AUTHENTICATED, False)
  pub path : String

abbrev pub proxy_headers : List String
proxy_headers =
    "X-Forwarded-For" ∷ "X-Forwarded-Host" ∷ "X-Forwarded-Proto" ∷ "X-Real-IP" ∷ "Forwarded" ∷ []

unfoldable pub any_header : WebRequest → List String → Bool
any_header request [] = false
any_header request (h ∷ hs) = request.has_header h || any_header request hs

-- `ip_address(s).is_global`, `none` where it raises ValueError
abbrev pub IpAddress : Type 0
IpAddress = String → Option Bool

abbrev pub not_global : Option Bool → Bool
not_global none = false
not_global (some is_global) = not is_global

abbrev pub remote_on_lan : IpAddress → Option String → Bool
remote_on_lan ip none = false
remote_on_lan ip (some remote) = if str_eq remote "" then false else not_global (ip remote)

unfoldable pub is_lan_request : IpAddress → WebRequest → Bool
unfolding any_header
is_lan_request ip request =
    if any_header request proxy_headers then false else remote_on_lan ip request.remote

-- The options of the setting "Hue API server".
abbrev pub http_mode_auto : String
http_mode_auto = "auto"

abbrev pub http_mode_standalone : String
http_mode_standalone = "standalone"

abbrev pub http_mode_homeassistant : String
http_mode_homeassistant = "homeassistant"

-- What is read of `hass.http`.
pub record HassHttp : Type 0 where
  pub server_port : ℕ
  pub has_certificate : Bool
  pub has_config_route : Bool  -- a resource "/api/config" of the router has a route for GET
  pub has_api : Bool  -- "api" in hass.config.components

unfoldable pub resolve_use_ha_http : HassHttp → String → Bool
resolve_use_ha_http hass mode =
    if str_eq mode http_mode_homeassistant
    then true
    else if str_eq mode http_mode_standalone
    then false
    else (hass.server_port == 80) && not hass.has_certificate

pub record View : Type 0 where
  pub method : String
  pub url : String
  pub attr : String

pub record HueHttpHost : Type 0 where
  pub target : Option ℕ
  pub registered : Bool
  pub views : List View  -- of hass.http, by this host
  pub shimmed : Bool  -- its own handler stands in front of Home Assistant's GET /api/config

abbrev pub new_host : HueHttpHost
new_host = record { target = none; registered = false; views = []; shimmed = false }

abbrev pub view : String → String → String → View
view method url attr = record { method = method; url = url; attr = attr }

unfoldable pub routes : List View
routes =
    view "GET" "/description.xml" "_handle_description_xml"
    ∷ view "GET" "/api/nouser/config" "_handle_config"
    ∷ view "GET" "/api/config" "_handle_config"
    ∷ view "POST" "/api" "_handle_create_user"
    ∷ view "GET" "/api/{username}" "_handle_full_datastore"
    ∷ view "GET" "/api/{username}/config" "_handle_config_auth"
    ∷ view "GET" "/api/{username}/capabilities" "_handle_capabilities"
    ∷ view "GET" "/api/{username}/lights" "_handle_v1_lights"
    ∷ view "GET" "/api/{username}/lights/{light_id}" "_handle_v1_light_by_id"
    ∷ view "PUT" "/api/{username}/lights/{light_id}/state" "_handle_v1_light_state"
    ∷ view "GET" "/api/{username}/groups" "_handle_v1_groups"
    ∷ view "GET" "/api/{username}/groups/{group_id}" "_handle_v1_group_by_id"
    ∷ view "PUT" "/api/{username}/groups/{group_id}" "_handle_v1_group_put"
    ∷ view "PUT" "/api/{username}/groups/{group_id}/stream" "_handle_v1_stream"
    ∷ view "GET" "/api/{username}/{resource}" "_handle_v1_catchall"
    ∷ view "GET" "/api/{username}/{resource}/{id}" "_handle_v1_catchall"
    ∷ view "PUT" "/api/{username}/{resource}/{id}" "_handle_v1_put_catchall"
    ∷ view "PUT" "/api/{username}/{resource}/{id}/{param}" "_handle_v1_put_catchall"
    ∷ view "POST" "/api/{username}/{resource}" "_handle_v1_post_catchall"
    ∷ view "DELETE" "/api/{username}/{resource}/{id}" "_handle_v1_delete_catchall"
    ∷ []

abbrev pub ha_owned : View → Bool
ha_owned v = str_eq v.method "GET" && str_eq v.url "/api/config"

unfoldable pub hosted : View → View
unfolding replace
hosted v = record v { url = replace v.url "{username}" "{username:[0-9a-f]{32}}" }

unfoldable pub hosted_views : List View → List View
unfolding hosted
hosted_views [] = []
hosted_views (v ∷ vs) = if ha_owned v then hosted_views vs else hosted v ∷ hosted_views vs

-- The view of its own for the route that Home Assistant would have: only where that has no `api`.
unfoldable pub config_views : HassHttp → List View
config_views hass =
    if hass.has_config_route
    then []
    else if hass.has_api
    then []
    else view "GET" "/api/config" "_handle_config" ∷ []

unfoldable pub register_views : HassHttp → HueHttpHost → HueHttpHost
unfolding hosted_views config_views routes
register_views hass host = record host {
  views = host.views ++ (hosted_views routes ++ config_views hass);
  shimmed = host.shimmed || hass.has_config_route;
}

unfoldable pub attach : HassHttp → HueHttpHost → ℕ → HueHttpHost
unfolding register_views
attach hass host server =
    let ready =
      if host.registered then host else record (register_views hass host) { registered = true } in
    record ready { target = some server }

-- `self._target is server`
abbrev pub is_target : Option ℕ → ℕ → Bool
is_target none server = false
is_target (some target) server = target == server

unfoldable pub detach : HueHttpHost → ℕ → HueHttpHost
detach host server = if is_target host.target server then record host { target = none } else host

-- What becomes of a request: aiohttp's 404, the reply with status 503, Home Assistant's own handler, or
-- a handler of the server with that number.
pub data Answered : Type 0 where
  refused : Answered
  unavailable : Value → Answered
  by_hass : Answered
  by_server : ℕ → Outcome → Answered

module _ (py : PyText) (python : PyHost) (ip : IpAddress) (servers : ℕ → HueApiServer) where
  abbrev forwarded : Option ℕ → WebRequest → Route → Request → ℕ → Answered
  forwarded none web route request now = unavailable (error_reply 901 web.path "bridge not running")
  forwarded (some i) web route request now =
      by_server i (handle py python (servers i) route request now)

  -- A view's handler: `route` is the handler with the parts of the path that it was registered for.
  unfoldable pub dispatch : HueHttpHost → WebRequest → Route → Request → ℕ → Answered
  unfolding is_lan_request
  dispatch host web route request now =
      if is_lan_request ip web then forwarded host.target web route request now else refused

  abbrev shimmed_to : Option ℕ → WebRequest → Request → ℕ → Answered
  shimmed_to none web request now = by_hass
  shimmed_to (some i) web request now =
      if web.authenticated
      then by_hass
      else if is_lan_request ip web
      then by_server i (handle py python (servers i) config request now)
      else by_hass

  -- GET /api/config, where Home Assistant has a handler for it.
  unfoldable pub shim : HueHttpHost → WebRequest → Request → ℕ → Answered
  shim host web request now = shimmed_to host.target web request now
