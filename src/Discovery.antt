-- ===== src/Discovery.antt =====
-- `HueBridgeDiscovery`: custom_components/hue_entertainment/discovery.py. What it registers with
-- zeroconf, which Home Assistant shares.
use Prim.Native.String.{◌++◌ as ◌&◌, count}
use ha_hue_entertainment.Prelude.{
  ℕ, ◌-◌, String, Option, none, some, List, [], ◌∷◌, Bool, if◌then◌else◌,
}
use ha_hue_entertainment.Prelude.Text.{drop}
use ha_hue_entertainment.HueApi.Host.{PyHost}
use ha_hue_entertainment.Prelude.Calls.{returned, other_error, Started}

pub record ServiceInfo : Type 0 where
  pub name : String
  pub address : String
  pub port : ℕ
  pub properties : List (String × String)
  pub server : String

pub record Discovery : Type 0 where
  pub bridge_id : String
  pub host_ip : String
  pub port : ℕ
  pub service_info : Option ServiceInfo

-- self._bridge_id[-6:]
abbrev pub last_six : String → String
last_six s = drop (count s - 6) s

unfoldable pub service_of : PyHost → Discovery → ServiceInfo
unfolding drop
service_of host d = record {
  name = "Philips Hue - " & host.upper (last_six d.bridge_id) & "._hue._tcp.local.";
  address = d.host_ip;
  port = d.port;
  properties = ("bridgeid", host.upper d.bridge_id) ∷ ("modelid", "BSB002") ∷ [];
  server = "philips-hue-" & host.lower (host.upper (last_six d.bridge_id)) & ".local.";
}

-- `registered`: zeroconf took the service, and did not raise.
unfoldable pub start_discovery : PyHost → Bool → Discovery → Started Discovery
unfolding service_of
start_discovery host registered d = record {
  after = record d { service_info = some (service_of host d) };
  result = if registered then returned tt else other_error;
}

unfoldable pub stop_discovery : Discovery → Discovery
stop_discovery d = record d { service_info = none }
