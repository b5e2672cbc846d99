-- ===== src/HueApi/Access.antt =====
-- A request without a known username gets nothing, and the open configuration gives none away.
use ha_hue_entertainment.Prelude.{ℕ, ◌≡◌, refl, String, Option, none, some, arith}
use ha_hue_entertainment.Json.{PyText}
use ha_hue_entertainment.UserStore.{UserStore, get_psk}
use ha_hue_entertainment.HueApi.{HueApiServer, Outcome, answer}
use ha_hue_entertainment.HueApi.Host.{PyHost}
use ha_hue_entertainment.HueApi.Resources.{pop, build_v1_config}
use ha_hue_entertainment.HueApi.Requests.{
  Route, description_xml, config, create_user, datastore, config_auth, capabilities_of, lights,
  groups, light_by_id, light_state, group_by_id, group_put, stream, catchall, put_catchall,
  post_catchall, delete_catchall, Request, authorized, unauthorized_response,
}
use ha_hue_entertainment.HueApi.Handlers.{handle}

-- The {username} of the path.
abbrev pub user_of : Route → Option String
user_of description_xml = none
user_of config = none
user_of create_user = none
user_of (datastore u) = some u
user_of (config_auth u) = some u
user_of (capabilities_of u) = some u
user_of (lights u) = some u
user_of (groups u) = some u
user_of (light_by_id u id) = some u
user_of (light_state u id) = some u
user_of (group_by_id u id) = some u
user_of (group_put u id) = some u
user_of (stream u id) = some u
user_of (catchall u) = some u
user_of (put_catchall u resource id param) = some u
user_of (post_catchall u resource) = some u
user_of (delete_catchall u resource id) = some u

authorized_unknown :
    (api : HueApiServer) (u v : String) (o : Outcome)
    → some u ≡ some v
    → get_psk api.user_store v ≡ none
    → authorized api u o ≡ answer api unauthorized_response
unfolding authorized
authorized_unknown api u v o p h = ground arith

-- A request whose path has a username that the store does not know is answered with the error
-- "unauthorized user", calls no callback and changes nothing, whichever handler it is for.
pub handle_unknown :
    (py : PyText) (host : PyHost) (api : HueApiServer) (route : Route) (request : Request) (now : ℕ)
    (u : String)
    → user_of route ≡ some u
    → get_psk api.user_store u ≡ none
    → handle py host api route request now ≡ answer api unauthorized_response
unfolding handle
handle_unknown py host api description_xml request now u p h = cc
handle_unknown py host api config request now u p h = cc
handle_unknown py host api create_user request now u p h = cc
handle_unknown py host api (datastore v) request now u p h = authorized_unknown api v u _ p h
handle_unknown py host api (config_auth v) request now u p h = authorized_unknown api v u _ p h
handle_unknown py host api (capabilities_of v) request now u p h = authorized_unknown api v u _ p h
handle_unknown py host api (lights v) request now u p h = authorized_unknown api v u _ p h
handle_unknown py host api (groups v) request now u p h = authorized_unknown api v u _ p h
handle_unknown py host api (light_by_id v id) request now u p h = authorized_unknown api v u _ p h
handle_unknown py host api (light_state v id) request now u p h = authorized_unknown api v u _ p h
handle_unknown py host api (group_by_id v id) request now u p h = authorized_unknown api v u _ p h
handle_unknown py host api (group_put v id) request now u p h = authorized_unknown api v u _ p h
handle_unknown py host api (stream v id) request now u p h = authorized_unknown api v u _ p h
handle_unknown py host api (catchall v) request now u p h = authorized_unknown api v u _ p h
handle_unknown py host api (put_catchall v resource id param) request now u p h =
    authorized_unknown api v u _ p h
handle_unknown py host api (post_catchall v resource) request now u p h =
    authorized_unknown api v u _ p h
handle_unknown py host api (delete_catchall v resource id) request now u p h =
    authorized_unknown api v u _ p h

-- The configuration that anyone may read is the same whoever is paired: it gives no username away.
config_hides_users :
    (py : PyText) (host : PyHost) (api : HueApiServer) (request : Request) (now : ℕ)
    (users : UserStore)
    → (handle py host (record api { user_store = users }) config request now).reply
      ≡ (handle py host api config request now).reply
unfolding handle pop build_v1_config
config_hides_users py host api request now users = refl
