-- ===== src/Tests.antt =====
-- Concrete inputs at which the theorems apply: one bridge with one light and one user.
mod Stream
mod Lights
mod Pairing
mod Sessions
mod Handover
mod Network
mod Flow
mod Unload
use ha_hue_entertainment.Prelude.{
  ℕ, ◌==◌, Bool, true, false, String, Option, none, some, List, [], ◌∷◌,
}
use ha_hue_entertainment.Prelude.Int.{ℤ, pos}
use ha_hue_entertainment.Json.{Value, str, bool, Fields, PyText}
use ha_hue_entertainment.UserStore.{Users}
use ha_hue_entertainment.Engine.{State, LightMapping, new_mapping}
use ha_hue_entertainment.Engine.Session.{States}
use ha_hue_entertainment.HueApi.Host.{PyHost}
use ha_hue_entertainment.HueApi.Requests.{Request}
use ha_hue_entertainment.Bridge.Setup.{Config}

-- The conversions on the texts that the examples use.
abbrev pub py : PyText
py = record {
  is_digit = λ s. true;
  str_of = λ n. "1";
  int_of = λ s. some (pos 1);
  float_of = λ s. none;
}

abbrev pub host : PyHost
host = record {
  upper = λ s. s;
  lower = λ s. s;
  without_colons = λ s. s;
  before_last_dot = λ s. "192.168.1";
  uuid5_hex = λ s. "0123456789abcdef0123456789abcdef";
  utc = "2026-01-01T00:00:00";
  localtime = "2026-01-01T00:00:00";
}

abbrev pub states : States
states = λ entity_id. some (record { entity_id = entity_id; state = "on" })

abbrev pub tv_users : Users
tv_users = ("tv", record { clientkey = "00ff"; devicetype = some (str "ambilight") }) ∷ []

abbrev pub setup : Config
setup = record {
  bridge_id = "001788fffe000001";
  mac = "00:17:88:00:00:01";
  host_ip = "192.168.1.2";
  http_port = 80;
  light_entities = "light.lamp" ∷ [];
  stored = tv_users;
  initial_users = [];
}

abbrev pub lamp : LightMapping
lamp = new_mapping 1 "light.lamp"

abbrev pub put_body : Fields → Request
put_body fs = record {
  body = some (Value.obj fs);
  fresh_username = "fresh";
  fresh_clientkey = "abcd";
}

abbrev pub activate : Request
activate =
    put_body
      (Fields.field "stream" (Value.obj (Fields.field "active" (bool true) Fields.end)) Fields.end)

-- A version 2 frame with one red channel for light 1.
abbrev pub red_frame : List ℕ
red_frame =
    72 ∷ 117 ∷ 101 ∷ 83 ∷ 116 ∷ 114 ∷ 101 ∷ 97 ∷ 109 ∷ 2 ∷ 0 ∷ 0 ∷ 0 ∷ 0 ∷ 0 ∷ 0 ∷ 0 ∷ 0 ∷ 0 ∷ 0 ∷ 0
    ∷ 0 ∷ 0 ∷ 0 ∷ 0 ∷ 0 ∷ 0 ∷ 0 ∷ 0 ∷ 0 ∷ 0 ∷ 0 ∷ 0 ∷ 0 ∷ 0 ∷ 0 ∷ 0 ∷ 0 ∷ 0 ∷ 0 ∷ 0 ∷ 0 ∷ 0 ∷ 0 ∷ 0
    ∷ 0 ∷ 0 ∷ 0 ∷ 0 ∷ 0 ∷ 0 ∷ 0 ∷ 1 ∷ 255 ∷ 255 ∷ 0 ∷ 0 ∷ 0 ∷ 0 ∷ []
