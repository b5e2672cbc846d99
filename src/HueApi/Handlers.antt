-- ===== src/HueApi/Handlers.antt =====
-- The request handlers: hue_api.py, lines 193-198 and 401-690. A handler is one step: it reads nothing
-- of the server before its last `await` but whether the username is known, and no user is ever removed.
use Prim.Native.String.{◌++◌ as ◌&◌}
use text.Mathlib.Text.{◌==◌ as str_eq}
use ha_hue_entertainment.Prelude.{
  ℕ, Bool, false, String, Option, none, some, [], ◌∷◌, if◌then◌else◌,
}
use ha_hue_entertainment.Prelude.Int.{ℤ, pos, negsuc}
use ha_hue_entertainment.Json.{Value, null, bool, str, obj, Fields, get, truthy, PyText}
use ha_hue_entertainment.UserStore.{UserStore, add, get_by_devicetype, async_save}
use ha_hue_entertainment.HueApi.{
  HueApiServer, link_button_active, light_command, Reply, json, not_found, raised, Outcome, answer,
  dict, one,
}
use ha_hue_entertainment.HueApi.Host.{PyHost}
use ha_hue_entertainment.HueApi.Resources.{
  build_v1_config, pop, handle_description_xml, capabilities, full_datastore,
}
use ha_hue_entertainment.HueApi.Lights.{build_v1_lights, build_v1_groups}
use ha_hue_entertainment.HueApi.Requests.{
  Route, Request, description_xml, config, create_user, datastore, config_auth, capabilities_of,
  lights, groups, light_by_id, light_state, group_by_id, group_put, stream, catchall, put_catchall,
  post_catchall, delete_catchall, error_reply, authorized, with_json, set_entertainment_active,
  echo, results, echo_group,
}

abbrev pub or_false : Option Value → Value
or_false none = bool false
or_false (some v) = v

abbrev pub or_unknown : Option Value → Value
or_unknown none = str "unknown"
or_unknown (some v) = v

-- The user of a pairing request: the one that has the device type already, or a new one.
unfoldable pub user_or_new :
    UserStore → Value → Request → Option (String × String) → UserStore × String × String
unfolding add async_save
user_or_new store devicetype request (some (username, clientkey)) = (store, username, clientkey)
user_or_new store devicetype request none = (
  async_save (add store request.fresh_username request.fresh_clientkey devicetype),
  request.fresh_username,
  request.fresh_clientkey,
)

unfoldable pub paired_user : UserStore → Value → Request → UserStore × String × String
unfolding get_by_devicetype user_or_new
paired_user store devicetype request =
    user_or_new store devicetype request (get_by_devicetype store devicetype)

abbrev pub credentials : String → String → Bool → Reply
credentials username clientkey generate_clientkey = json (
    one (
      dict (
        (
          "success",
          dict (
              ("username", str username)
              ∷ (if generate_clientkey then (("clientkey", str clientkey) ∷ []) else [])),
        )
        ∷ [])))

unfoldable pub handle_create_user : HueApiServer → Request → ℕ → Outcome
unfolding with_json get link_button_active paired_user truthy
handle_create_user api request now = with_json api request.body (λ body.
    if link_button_active api now
    then (let (store, username, clientkey) =
          paired_user api.user_store (or_unknown (get "devicetype" body)) request in
        answer (record api { user_store = store })
          (credentials username clientkey (truthy (or_false (get "generateclientkey" body)))))
    else answer api (json (error_reply 101 "" "link button not pressed")))

-- The callback gets the number of the light; a negative one is no light's, and is not read from digits.
abbrev pub commanded : HueApiServer → Option ℤ → Fields → Reply → Outcome
commanded api none body reply = answer api raised
commanded api (some (pos n)) body reply = record {
  api = api;
  effect = some (light_command n body);
  reply = reply;
}
commanded api (some (negsuc n)) body reply = answer api reply

unfoldable pub handle_v1_light_state : PyText → HueApiServer → String → Request → Outcome
unfolding with_json echo
handle_v1_light_state py api light_id request = with_json api request.body (λ body.
    let reply = results (echo ("/lights/" & light_id & "/state") body) in
    if py.is_digit light_id
    then commanded api (py.int_of light_id) body reply
    else answer api reply)

-- One object of a resource, or the error 404.
abbrev pub found_or_404 : HueApiServer → String → String → Option Value → Outcome
found_or_404 api prefix id none =
    answer api
      (not_found (error_reply 3 (prefix & id) ("resource, " & prefix & id & ", not available")))
found_or_404 api prefix id (some v) = answer api (json v)

unfoldable pub one_of : HueApiServer → String → String → Fields → Outcome
unfolding get
one_of api prefix id resources = found_or_404 api prefix id (get id resources)

-- `stream.get("active", False)` and the call with it; `.get` of another value than a dict raises.
unfoldable pub activated : HueApiServer → String → Value → (Value → Reply) → Outcome
unfolding get truthy set_entertainment_active
activated api username (obj fs) reply =
    let active = or_false (get "active" fs) in
    set_entertainment_active api (truthy active) username (reply active)
activated api username other reply = answer api raised

abbrev pub group_activated : HueApiServer → String → Reply → Option Value → Outcome
group_activated api username reply none = answer api reply
group_activated api username reply (some null) = answer api reply
group_activated api username reply (some chosen) = activated api username chosen (λ active. reply)

unfoldable pub handle_v1_group_put : HueApiServer → String → String → Request → Outcome
unfolding with_json get echo_group activated
handle_v1_group_put api username group_id request = with_json api request.body (λ body.
    let reply = results (echo_group ("/groups/" & group_id) body) in
    group_activated api username reply (get "stream" body))

abbrev pub stream_reply : Value → Reply
stream_reply active =
    json (one (dict (("success", dict (("/groups/1/stream/active", active) ∷ [])) ∷ [])))

abbrev pub stream_or : Fields → Option Value → Value
stream_or body none = obj body
stream_or body (some chosen) = chosen

unfoldable pub handle_v1_stream : HueApiServer → String → Request → Outcome
unfolding with_json get activated
handle_v1_stream api username request =
    with_json api request.body
      (λ body. activated api username (stream_or body (get "stream" body)) stream_reply)

unfoldable pub handle_v1_put_catchall : HueApiServer → String → String → String → Request → Outcome
unfolding with_json echo
handle_v1_put_catchall api resource rid param request = with_json api request.body (λ body.
    let prefix = "/" & resource & "/" & rid in
    answer api (results (echo (if str_eq param "" then prefix else prefix & "/" & param) body)))

unfoldable pub handle_v1_post_catchall : HueApiServer → String → Outcome
handle_v1_post_catchall api resource = answer api (
    json (
      one (
        dict (
          (
            "success",
            dict (
                (if str_eq resource "lights"
                  then ("/lights", str "Searching for new devices")
                  else ("id", str "0"))
                ∷ []),
          )
          ∷ []))))

unfoldable pub handle_v1_delete_catchall : HueApiServer → String → String → Outcome
handle_v1_delete_catchall api resource rid =
    answer api (json (one (dict (("success", str ("/" & resource & "/" & rid & " deleted")) ∷ []))))

unfoldable pub handle : PyText → PyHost → HueApiServer → Route → Request → ℕ → Outcome
unfolding authorized handle_create_user handle_v1_light_state handle_v1_group_put handle_v1_stream
    handle_v1_put_catchall handle_v1_post_catchall handle_v1_delete_catchall one_of
    handle_description_xml build_v1_config pop build_v1_lights build_v1_groups capabilities
    full_datastore
handle py host api description_xml request now = answer api (handle_description_xml py host api)
handle py host api config request now =
    answer api (json (obj (pop "whitelist" (build_v1_config host api now))))
handle py host api create_user request now = handle_create_user api request now
handle py host api (datastore u) request now =
    authorized api u (answer api (json (obj (full_datastore py host api now))))
handle py host api (config_auth u) request now =
    authorized api u (answer api (json (obj (build_v1_config host api now))))
handle py host api (capabilities_of u) request now =
    authorized api u (answer api (json (obj (capabilities api))))
handle py host api (lights u) request now =
    authorized api u (answer api (json (obj (build_v1_lights py host api))))
handle py host api (groups u) request now =
    authorized api u (answer api (json (obj (build_v1_groups py api))))
handle py host api (light_by_id u id) request now =
    authorized api u (one_of api "/lights/" id (build_v1_lights py host api))
handle py host api (light_state u id) request now =
    authorized api u (handle_v1_light_state py api id request)
handle py host api (group_by_id u id) request now =
    authorized api u (one_of api "/groups/" id (build_v1_groups py api))
handle py host api (group_put u id) request now =
    authorized api u (handle_v1_group_put api u id request)
handle py host api (stream u id) request now = authorized api u (handle_v1_stream api u request)
handle py host api (catchall u) request now = authorized api u (answer api (json (obj Fields.end)))
handle py host api (put_catchall u resource id param) request now =
    authorized api u (handle_v1_put_catchall api resource id param request)
handle py host api (post_catchall u resource) request now =
    authorized api u (handle_v1_post_catchall api resource)
handle py host api (delete_catchall u resource id) request now =
    authorized api u (handle_v1_delete_catchall api resource id)
