-- ===== src/Bridge/Lifecycle.antt =====
-- The options of an entry, and the start and stop of its servers: __init__.py, lines 151-189, 216-250,
-- 326-381 and 400-430.
use text.Mathlib.Text.{◌==◌ as str_eq}
use ha_hue_entertainment.Prelude.{
  ℕ, Bool, true, false, not, String, Option, none, some, List, [], if◌then◌else◌,
}
use ha_hue_entertainment.Prelude.Calls.{Called, returned, os_error, other_error}
use ha_hue_entertainment.HueApi.Host.{PyHost}
use ha_hue_entertainment.HueApi.Site.{new_site, Served, start_site, stop_site}
use ha_hue_entertainment.HaHttp.{HassHttp, HueHttpHost, http_mode_auto, resolve_use_ha_http}
use ha_hue_entertainment.Discovery.{Discovery, start_discovery, stop_discovery}
use ha_hue_entertainment.Dtls.{DtlsServer, new_server, socket_bound}
use ha_hue_entertainment.Dtls as Dtls

-- The keys that `entry.options` or `entry.data` has.
pub record EntryOptions : Type 0 where
  pub lights : Option (List String)
  pub bind_ip : Option String  -- None, like the empty text, counts as missing
  pub entertainment_port : Option ℕ
  pub api_port : Option ℕ
  pub http_mode : Option String

-- options.get(key, data.get(key, default))
abbrev pub first_of {ℓ} : {A : Type ℓ} → Option A → Option A → A → A
first_of none none default = default
first_of none (some v) default = v
first_of (some v) data_value default = v

abbrev truthy_text : Option String → Option String
truthy_text none = none
truthy_text (some s) = if str_eq s "" then none else some s

-- options.get(CONF_BIND_IP) or data.get(CONF_BIND_IP), where a false value is none
abbrev pub bind_ip_of : EntryOptions → EntryOptions → Option String
bind_ip_of options data_ = elim (truthy_text options.bind_ip) [
  | none ↦ truthy_text data_.bind_ip
  | some s ↦ some s
]

-- Home Assistant's network: the host of its internal URL, `none` where `get_url` raises or the URL has
-- none; for a text that is an IP address, whether it is a loopback one; the source address.
pub record Network : Type 0 where
  pub url_host : Option String
  pub loopback : String → Option Bool
  pub source_ip : String

abbrev usable : Option Bool → Bool
usable none = false
usable (some is_loopback) = not is_loopback

abbrev host_ip_by : Network → Option String → String
host_ip_by net none = net.source_ip
host_ip_by net (some h) =
    if str_eq h "" then net.source_ip else if usable (net.loopback h) then h else net.source_ip

unfoldable pub get_host_ip : Network → String
get_host_ip net = host_ip_by net net.url_host

pub record Resolved : Type 0 where
  pub light_entities : List String
  pub bind_ip : Option String
  pub host_ip : String
  pub ent_port : ℕ
  pub use_ha_http : Bool
  pub http_port : ℕ

abbrev or_host_ip : Option String → Network → String
or_host_ip none net = get_host_ip net
or_host_ip (some ip) net = ip

unfoldable pub resolve_options : HassHttp → Network → EntryOptions → EntryOptions → Resolved
unfolding get_host_ip resolve_use_ha_http
resolve_options hass net options data_ =
    let use_ha_http =
      resolve_use_ha_http hass (first_of options.http_mode data_.http_mode http_mode_auto) in
    let bind_ip = bind_ip_of options data_ in
    record {
      light_entities = first_of options.lights data_.lights [];
      bind_ip = bind_ip;
      host_ip = or_host_ip bind_ip net;
      ent_port = first_of options.entertainment_port data_.entertainment_port 2100;
      use_ha_http = use_ha_http;
      http_port =
          if use_ha_http then hass.server_port else first_of options.api_port data_.api_port 80;
    }

-- The three servers of an entry, with the host that all entries share.
pub record Servers : Type 0 where
  pub api : Served
  pub dtls : DtlsServer
  pub discovery : Discovery

-- `server`: the new HueAPIServer.
unfoldable pub new_servers : HueHttpHost → ℕ → String → Resolved → Servers
new_servers host server bridge_id r = record {
  api = record { host = host; site = new_site server r.use_ha_http };
  dtls = new_server;
  discovery = record {
    bridge_id = bridge_id;
    host_ip = r.host_ip;
    port = r.http_port;
    service_info = none;
  };
}

-- What the ports, OpenSSL and zeroconf do.
pub record Machine : Type 0 where
  pub hass : HassHttp
  pub bound : Bool  -- the port of the API can be bound
  pub context : Bool  -- SSL_CTX_new succeeds
  pub dtls_bound : Bool  -- the port of the stream can be bound, by the thread
  pub registered : Bool  -- zeroconf takes the service

-- How `_async_start` ends: it returns, or raises ConfigEntryNotReady, or another exception.
pub data Start : Type 0 where
  ready not_ready failed : Start

abbrev pub Outcome : Type 0
Outcome = Servers × Start

unfoldable pub stop_both : Servers → Servers
unfolding stop_site Dtls.async_stop
stop_both s = record s { dtls = Dtls.async_stop true s.dtls; api = stop_site s.api }

abbrev pub advertised : Servers → Discovery → Called Unit → Outcome
advertised s d (returned u) = (record s { discovery = d }, ready)
advertised s d os_error = (record s { discovery = d }, failed)
advertised s d other_error = (record s { discovery = d }, failed)

-- The thread begins by itself: how its socket fares does not reach the start.
abbrev pub after_dtls : PyHost → Machine → Servers → Called Unit → Outcome
after_dtls host m s (returned u) =
    let d = start_discovery host m.registered s.discovery in
    advertised (record s { dtls = socket_bound m.dtls_bound s.dtls }) d.after d.result
after_dtls host m s os_error = (stop_both s, not_ready)
after_dtls host m s other_error = (s, failed)

abbrev pub after_api : PyHost → Machine → Servers → Called Unit → Outcome
after_api host m s (returned u) =
    let d = Dtls.async_start m.context s.dtls in
    after_dtls host m (record s { dtls = d.after }) d.result
after_api host m s os_error = (stop_both s, not_ready)
after_api host m s other_error = (s, failed)

unfoldable pub async_start : PyHost → Machine → Servers → Outcome
unfolding start_site Dtls.async_start start_discovery stop_both socket_bound
async_start host m s =
    let a = start_site m.hass m.bound s.api in
    after_api host m (record s { api = a.after }) a.result

-- The order of `_async_stop` and `async_unload_entry`, before the lights are restored; `joined`: the
-- thread ends in time.
unfoldable pub stop_servers : Bool → Servers → Servers
unfolding stop_site Dtls.async_stop stop_discovery
stop_servers joined s = record {
  dtls = Dtls.async_stop joined s.dtls;
  api = stop_site s.api;
  discovery = stop_discovery s.discovery;
}

-- What Home Assistant does about the end of a start: with the set-up of the entry, or later, when the
-- start was put off until Home Assistant has started.
pub data Reaction : Type 0 where
  loaded retried setup_error reloaded logged : Reaction

unfoldable pub reaction : Bool → Start → Reaction
reaction running ready = loaded
reaction running not_ready = if running then retried else reloaded
reaction running failed = if running then setup_error else logged
