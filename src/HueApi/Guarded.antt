-- ===== src/HueApi/Guarded.antt =====
-- What a request may change, shown handler by handler.
use ha_hue_entertainment.Prelude.{
  ℕ, ◌≡◌, ◌≢◌, refl, Bool, true, false, String, Option, none, some, Option-cases, inl, inr, if-both,
}
use ha_hue_entertainment.Prelude.Int.{ℤ, pos, negsuc}
use ha_hue_entertainment.Json.{Value, null, bool, int, dec, str, arr, obj, Fields, get, PyText}
use ha_hue_entertainment.UserStore.{get_psk}
use ha_hue_entertainment.HueApi.{
  HueApiServer, link_button_active, Effect, started, stopped, light_command, Reply, Outcome, answer,
}
use ha_hue_entertainment.HueApi.Host.{PyHost}
use ha_hue_entertainment.HueApi.Requests.{
  Route, description_xml, config, create_user, datastore, config_auth, capabilities_of, lights,
  groups, light_by_id, light_state, group_by_id, group_put, stream, catchall, put_catchall,
  post_catchall, delete_catchall, Request, authorized, with_json, set_entertainment_active,
  check_username, unauthorized_response,
}
use ha_hue_entertainment.HueApi.Handlers.{
  activated, found_or_404, group_activated, commanded, stream_or, stream_reply,
  handle_v1_put_catchall, handle_v1_post_catchall, handle_v1_delete_catchall, handle_create_user,
  handle_v1_light_state, handle_v1_group_put, handle_v1_stream, one_of, handle,
}

-- What a callback goes with: the flags that it tells of.
abbrev pub Follows : HueApiServer → HueApiServer → Option Effect → Type 0
Follows api api' none =
    (api'.entertainment_active ≡ api.entertainment_active)
    × (api'.entertainment_owner ≡ api.entertainment_owner)
Follows api api' (some (light_command n body)) = api' ≡ api
Follows api api' (some stopped) =
    (api'.entertainment_active ≡ false) × (api'.entertainment_owner ≡ none)
Follows api api' (some (started u)) =
    (api'.entertainment_active ≡ true)
    × (api'.entertainment_owner ≡ some u)
    × (get_psk api.user_store u ≢ none)

pub record IsGuarded (api : HueApiServer) (now : ℕ) (o : Outcome) : Type 0 where
  pub users_kept : link_button_active api now ≡ false → o.api.user_store ≡ api.user_store
  pub session : Follows api o.api o.effect

answer-IsGuarded :
    (api : HueApiServer) (now : ℕ) (reply : Reply) → IsGuarded api now (answer api reply)
answer-IsGuarded api now reply = record { users_kept = λ h. refl; session = (refl, refl) }

module _ (P : Outcome → Type 0) (api : HueApiServer)
    (answered : (reply : Reply) → P (answer api reply)) where
  pub authorized-all :
      (u : String) (o : Outcome) → (get_psk api.user_store u ≢ none → P o) → P (authorized api u o)
  unfolding authorized check_username
  authorized-all u o granted = elim (Option-cases (get_psk api.user_store u)) [
    | inl p ↦ rw p (answered unauthorized_response)
    | inr (key, p) ↦ rw p (granted (λ h. cc))
  ]

  pub with_json-all :
      (body : Option Value) (go_on : Fields → Outcome)
      → ((fs : Fields) → P (go_on fs))
      → P (with_json api body go_on)
  unfolding with_json
  with_json-all none go_on h = answered _
  with_json-all (some null) go_on h = answered _
  with_json-all (some (bool b)) go_on h = answered _
  with_json-all (some (int z)) go_on h = answered _
  with_json-all (some (dec m k)) go_on h = answered _
  with_json-all (some (str s)) go_on h = answered _
  with_json-all (some (arr xs)) go_on h = answered _
  with_json-all (some (obj fs)) go_on h = h fs

  pub found_or_404-all : (prefix id : String) (v : Option Value) → P (found_or_404 api prefix id v)
  found_or_404-all prefix id none = answered _
  found_or_404-all prefix id (some v) = answered _

  activated-all :
      (u : String) (v : Value) (reply : Value → Reply)
      → ((active : Bool) (r : Reply) → P (set_entertainment_active api active u r))
      → P (activated api u v reply)
  unfolding activated
  activated-all u null reply h = answered _
  activated-all u (bool b) reply h = answered _
  activated-all u (int z) reply h = answered _
  activated-all u (dec m k) reply h = answered _
  activated-all u (str s) reply h = answered _
  activated-all u (arr xs) reply h = answered _
  activated-all u (obj fs) reply h = h _ _

  group_activated-all :
      (u : String) (reply : Reply) (v : Option Value)
      → ((active : Bool) (r : Reply) → P (set_entertainment_active api active u r))
      → P (group_activated api u reply v)
  group_activated-all u reply none h = answered _
  group_activated-all u reply (some null) h = answered _
  group_activated-all u reply (some (bool b)) h = activated-all u (bool b) _ h
  group_activated-all u reply (some (int z)) h = activated-all u (int z) _ h
  group_activated-all u reply (some (dec m k)) h = activated-all u (dec m k) _ h
  group_activated-all u reply (some (str s)) h = activated-all u (str s) _ h
  group_activated-all u reply (some (arr xs)) h = activated-all u (arr xs) _ h
  group_activated-all u reply (some (obj fs)) h = activated-all u (obj fs) _ h

  pub commanded-all :
      (id : Option ℤ) (body : Fields) (reply : Reply)
      → ((n : ℕ) → P (record { api = api; effect = some (light_command n body); reply = reply }))
      → P (commanded api id body reply)
  commanded-all none body reply h = answered _
  commanded-all (some (pos n)) body reply h = h n
  commanded-all (some (negsuc n)) body reply h = answered _

module _ (api : HueApiServer) (now : ℕ) where
  abbrev answered : (reply : Reply) → IsGuarded api now (answer api reply)
  answered = answer-IsGuarded api now

  set_entertainment_active-IsGuarded :
      (u : String)
      → get_psk api.user_store u ≢ none
      → (active : Bool) (reply : Reply)
      → IsGuarded api now (set_entertainment_active api active u reply)
  unfolding set_entertainment_active
  set_entertainment_active-IsGuarded u h true reply = record {
    users_kept = λ w. refl;
    session = (refl, refl, h);
  }
  set_entertainment_active-IsGuarded u h false reply = record {
    users_kept = λ w. refl;
    session = (refl, refl);
  }

  handle_v1_stream-IsGuarded :
      (u : String) (request : Request)
      → get_psk api.user_store u ≢ none
      → IsGuarded api now (handle_v1_stream api u request)
  unfolding handle_v1_stream
  handle_v1_stream-IsGuarded u request h =
      with_json-all (IsGuarded api now) api answered request.body _ (λ fs.
        activated-all (IsGuarded api now) api answered u (stream_or fs (get "stream" fs))
          stream_reply (set_entertainment_active-IsGuarded u h))

  handle_v1_group_put-IsGuarded :
      (u id : String) (request : Request)
      → get_psk api.user_store u ≢ none
      → IsGuarded api now (handle_v1_group_put api u id request)
  unfolding handle_v1_group_put
  handle_v1_group_put-IsGuarded u id request h =
      with_json-all (IsGuarded api now) api answered request.body _ (λ fs.
        group_activated-all (IsGuarded api now) api answered u _ (get "stream" fs)
          (set_entertainment_active-IsGuarded u h))

  handle_v1_light_state-IsGuarded :
      (py : PyText) (id : String) (request : Request)
      → IsGuarded api now (handle_v1_light_state py api id request)
  unfolding handle_v1_light_state
  handle_v1_light_state-IsGuarded py id request =
      with_json-all (IsGuarded api now) api answered request.body _ (λ fs.
        if-both (IsGuarded api now) (py.is_digit id) _ _
          (λ p.
            commanded-all (IsGuarded api now) api answered (py.int_of id) fs _
              (λ n. record { users_kept = λ w. refl; session = refl }))
          (λ p. answered _))

  handle_create_user-IsGuarded :
      (request : Request) → IsGuarded api now (handle_create_user api request now)
  unfolding handle_create_user
  handle_create_user-IsGuarded request =
      with_json-all (IsGuarded api now) api answered request.body _ (λ fs.
        if-both (IsGuarded api now) (link_button_active api now) _ _
          (λ p. record { users_kept = λ w. cc; session = (refl, refl) }) (λ p. answered _))

  handle_v1_put_catchall-IsGuarded :
      (resource id param : String) (request : Request)
      → IsGuarded api now (handle_v1_put_catchall api resource id param request)
  unfolding handle_v1_put_catchall
  handle_v1_put_catchall-IsGuarded resource id param request =
      with_json-all (IsGuarded api now) api answered request.body _ (λ fs. answered _)

module _ (py : PyText) (host : PyHost) (api : HueApiServer) (request : Request) (now : ℕ) where
  granted-IsGuarded :
      (u : String) (o : Outcome)
      → (get_psk api.user_store u ≢ none → IsGuarded api now o)
      → IsGuarded api now (authorized api u o)
  granted-IsGuarded = authorized-all (IsGuarded api now) api (answer-IsGuarded api now)

  read-IsGuarded :
      (u : String) (reply : Reply) → IsGuarded api now (authorized api u (answer api reply))
  read-IsGuarded u reply =
      granted-IsGuarded u (answer api reply) (λ h. answer-IsGuarded api now reply)

  one_of-IsGuarded :
      (u prefix id : String) (resources : Fields)
      → IsGuarded api now (authorized api u (one_of api prefix id resources))
  unfolding one_of
  one_of-IsGuarded u prefix id resources =
      granted-IsGuarded u _
        (λ h. found_or_404-all (IsGuarded api now) api (answer-IsGuarded api now) prefix id _)

  -- Whatever the request: the user store changes only while the link button is active; a start or
  -- stop of the session is called only with the flags and the owner already set to it, and a start
  -- only for a user that the store knows; in every other case the flag and the owner stay.
  pub handle-IsGuarded : (route : Route) → IsGuarded api now (handle py host api route request now)
  unfolding handle handle_v1_post_catchall handle_v1_delete_catchall
  handle-IsGuarded description_xml = answer-IsGuarded api now _
  handle-IsGuarded config = answer-IsGuarded api now _
  handle-IsGuarded create_user = handle_create_user-IsGuarded api now request
  handle-IsGuarded (datastore u) = read-IsGuarded u _
  handle-IsGuarded (config_auth u) = read-IsGuarded u _
  handle-IsGuarded (capabilities_of u) = read-IsGuarded u _
  handle-IsGuarded (lights u) = read-IsGuarded u _
  handle-IsGuarded (groups u) = read-IsGuarded u _
  handle-IsGuarded (light_by_id u id) = one_of-IsGuarded u _ id _
  handle-IsGuarded (light_state u id) =
      granted-IsGuarded u _ (λ h. handle_v1_light_state-IsGuarded api now py id request)
  handle-IsGuarded (group_by_id u id) = one_of-IsGuarded u _ id _
  handle-IsGuarded (group_put u id) =
      granted-IsGuarded u _ (handle_v1_group_put-IsGuarded api now u id request)
  handle-IsGuarded (stream u id) =
      granted-IsGuarded u _ (handle_v1_stream-IsGuarded api now u request)
  handle-IsGuarded (catchall u) = read-IsGuarded u _
  handle-IsGuarded (put_catchall u resource id param) =
      granted-IsGuarded u _
        (λ h. handle_v1_put_catchall-IsGuarded api now resource id param request)
  handle-IsGuarded (post_catchall u resource) = read-IsGuarded u _
  handle-IsGuarded (delete_catchall u resource id) = read-IsGuarded u _
