-- ===== src/HueApi.antt =====
-- `HueAPIServer`, its state, and the parts of a handler that all of them share:
-- custom_components/hue_entertainment/hue_api.py, lines 37-122.
-- Times are milliseconds of the monotonic clock, which each request reads once.
pub mod Host
pub mod Site
pub mod Lights
pub mod Resources
pub mod Requests
pub mod Handlers
pub mod Access
pub mod Guarded
pub mod Pairing
use ha_hue_entertainment.Prelude.{
  ℕ, ◌+◌, Bool, true, false, String, Option, none, some, List, [], ◌∷◌, ltb, if◌then◌else◌,
}
use ha_hue_entertainment.Json.{Value, Items, Fields}
use ha_hue_entertainment.UserStore.{UserStore, get_psk}

abbrev pub link_button_timeout : ℕ
link_button_timeout = 60000

pub record HueApiServer : Type 0 where
  pub bridge_id : String
  pub mac : String
  pub host_ip : String
  pub http_port : ℕ
  pub channel_count : ℕ
  pub light_entities : List String
  pub user_store : UserStore
  pub link_button_expires : ℕ
  pub entertainment_active : Bool
  pub entertainment_owner : Option String

unfoldable pub clear_entertainment : HueApiServer → HueApiServer
clear_entertainment api = record api { entertainment_active = false; entertainment_owner = none }

unfoldable pub link_button_active : HueApiServer → ℕ → Bool
link_button_active api now = ltb now api.link_button_expires

unfoldable pub set_link_button : HueApiServer → Bool → ℕ → HueApiServer
set_link_button api active now = record api {
  link_button_expires = if active then now + link_button_timeout else 0;
}

unfoldable pub get_user_psk : HueApiServer → String → Option String
unfolding get_psk
get_user_psk api username = get_psk api.user_store username

-- The callback that a handler calls.
pub data Effect : Type 0 where
  started : String → Effect
  stopped : Effect
  light_command : ℕ → Fields → Effect

pub data Reply : Type 0 where
  json : Value → Reply  -- web.json_response(data)
  not_found : Value → Reply  -- the same with status=404
  page : String → Reply  -- web.Response(text=…)
  raised : Reply  -- an exception leaves the handler

pub record Outcome : Type 0 where
  pub api : HueApiServer
  pub effect : Option Effect
  pub reply : Reply

abbrev pub answer : HueApiServer → Reply → Outcome
answer api reply = record { api = api; effect = none; reply = reply }

-- A dict display: keys as they are written.
abbrev pub fields : List (String × Value) → Fields
fields [] = Fields.end
fields ((k, v) ∷ rest) = Fields.field k v (fields rest)

abbrev pub dict : List (String × Value) → Value
dict entries = Value.obj (fields entries)

abbrev pub one : Value → Value
one v = Value.arr (Items.cons v Items.nil)
