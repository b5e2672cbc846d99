-- ===== src/Tests/Pairing.antt =====
-- The store of the paired users and the requests that need one.
use ha_hue_entertainment.Prelude.{◌≡◌, refl, true, none, some, []}
use ha_hue_entertainment.Json.{Value, str, bool, Fields, get, eq_value}
use ha_hue_entertainment.UserStore.{get_psk}
use ha_hue_entertainment.HueApi.{HueApiServer, set_link_button, link_button_active, answer}
use ha_hue_entertainment.HueApi.Requests.{Request, stream, unauthorized_response}
use ha_hue_entertainment.HueApi.Handlers.{handle, handle_create_user}
use ha_hue_entertainment.HueApi.Access.{handle_unknown}
use ha_hue_entertainment.HueApi.Guarded.{IsGuarded, handle-IsGuarded}
use ha_hue_entertainment.HueApi.Pairing.{create_user_twice}
use ha_hue_entertainment.Bridge.Setup.{async_setup_entry}
use ha_hue_entertainment.Tests.{py, host, setup, put_body, activate}

text_itself : eq_value (str "ambilight") (str "ambilight") ≡ true
unfolding eq_value
text_itself = refl

abbrev api : HueApiServer
api = (async_setup_entry setup 10000).api_server

other_unknown : get_psk api.user_store "other" ≡ none
unfolding get_psk async_setup_entry
other_unknown = refl

handle_unknown_example :
    handle py host api (stream "other" "1") activate 10000 ≡ answer api unauthorized_response
handle_unknown_example =
    handle_unknown py host api (stream "other" "1") activate 10000 "other" refl other_unknown

handle-IsGuarded_example : IsGuarded api 10000 (handle py host api (stream "tv" "1") activate 10000)
handle-IsGuarded_example = handle-IsGuarded py host api activate 10000 (stream "tv" "1")

abbrev pair_body : Fields
pair_body =
    Fields.field "devicetype" (str "ambilight")
      (Fields.field "generateclientkey" (bool true) Fields.end)

abbrev open_api : HueApiServer
open_api = record (set_link_button api true 10000) {
  user_store = record { ha_store = none; users = [] };
}

abbrev again : Request
again = record {
  body = some (Value.obj pair_body);
  fresh_username = "later";
  fresh_clientkey = "ef01";
}

link_open : (link_button_active open_api 11000 ≡ true) × (link_button_active open_api 12000 ≡ true)
unfolding link_button_active set_link_button
link_open = (refl, refl)

fresh_unknown : get_psk open_api.user_store "fresh" ≡ none
unfolding get_psk
fresh_unknown = refl

create_user_twice_example :
    let first = handle_create_user open_api (put_body pair_body) 11000 in
    let second = handle_create_user first.api again 12000 in
    (second.api ≡ first.api) × (second.reply ≡ first.reply)
unfolding get
create_user_twice_example =
    create_user_twice open_api pair_body (put_body pair_body) again 11000 12000 refl refl
      link_open.0 link_open.1 text_itself fresh_unknown
