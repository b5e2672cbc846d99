-- ===== src/HueApi/Requests.antt =====
-- What the handlers share: routes, bodies, the check of the username, replies: hue_api.py, lines 160-186,
-- 364-399 and 516-615.
use Prim.Native.String.{◌++◌ as ◌&◌}
use ha_hue_entertainment.Prelude.{
  ℕ, Bool, true, false, String, Option, none, some, List, [], ◌∷◌, ◌++◌, if◌then◌else◌,
}
use ha_hue_entertainment.Prelude.Int.{pos}
use ha_hue_entertainment.Json.{Value, null, int, str, arr, obj, Items, Fields, is_some}
use ha_hue_entertainment.UserStore.{get_psk}
use ha_hue_entertainment.HueApi.{
  HueApiServer, started, stopped, Reply, json, raised, Outcome, answer, dict, one,
}

-- A handler with what the router took from the path.
pub data Route : Type 0 where
  description_xml config create_user : Route
  datastore config_auth capabilities_of lights groups : String → Route
  light_by_id light_state group_by_id group_put stream : String → String → Route
  catchall : String → Route
  put_catchall : String → String → String → String → Route  -- without a `param` that is ""
  post_catchall : String → String → Route
  delete_catchall : String → String → String → Route

pub record Request : Type 0 where
  pub body : Option Value  -- what `request.json()` returns, `none` where it raises ValueError
  pub fresh_username : String  -- uuid.uuid4().hex[:32]
  pub fresh_clientkey : String  -- secrets.token_hex(16)

-- The body that `_safe_json` returns; JSON's null is Python's None.
abbrev pub safe_json : Option Value → Option Value
safe_json none = none
safe_json (some null) = none
safe_json (some v) = some v

unfoldable pub check_username : HueApiServer → String → Option String
unfolding get_psk
check_username api username =
    if is_some (get_psk api.user_store username) then some username else none

abbrev pub error_reply : ℕ → String → String → Value
error_reply kind address description = one (
    dict (
      (
        "error",
        dict (
            ("type", int (pos kind))
            ∷ ("address", str address)
            ∷ ("description", str description)
            ∷ []),
      )
      ∷ []))

abbrev pub unauthorized_response : Reply
unauthorized_response = json (error_reply 1 "/" "unauthorized user")

abbrev pub invalid_json : Reply
invalid_json = json (error_reply 2 "/" "body contains invalid json")

-- What the handlers do behind `_check_username`.
unfoldable pub authorized : HueApiServer → String → Outcome → Outcome
unfolding check_username
authorized api username granted =
    if is_some (check_username api username) then granted else answer api unauthorized_response

-- The body of a PUT or POST: malformed, not an object (whose `.get` or `.items` raises), or a dict.
unfoldable pub with_json : HueApiServer → Option Value → (Fields → Outcome) → Outcome
with_json api body go_on = elim (safe_json body) [
  | none ↦ answer api invalid_json
  | some (obj fs) ↦ go_on fs
  | some other ↦ answer api raised
]

unfoldable pub set_entertainment_active : HueApiServer → Bool → String → Reply → Outcome
set_entertainment_active api active username reply =
    if active
    then record {
      api = record api { entertainment_active = true; entertainment_owner = some username };
      effect = some (started username);
      reply = reply;
    }
    else record {
      api = record api { entertainment_active = false; entertainment_owner = none };
      effect = some stopped;
      reply = reply;
    }

-- [{"success": {f"{prefix}/{k}": v}} for k, v in body.items()]
unfoldable pub echo : String → Fields → List Value
echo prefix Fields.end = []
echo prefix (Fields.field k v rest) =
    dict (("success", dict ((prefix & "/" & k, v) ∷ [])) ∷ []) ∷ echo prefix rest

abbrev all_of : List Value → Items
all_of [] = Items.nil
all_of (v ∷ vs) = Items.cons v (all_of vs)

abbrev pub results : List Value → Reply
results vs = json (arr (all_of vs))

-- One entry of the body of a group: the entries of a dict one by one.
unfoldable pub echo_entry : String → String → Value → List Value
unfolding echo
echo_entry prefix k (obj fs) = echo (prefix & "/" & k) fs
echo_entry prefix k v = dict (("success", dict ((prefix & "/" & k, v) ∷ [])) ∷ []) ∷ []

unfoldable pub echo_group : String → Fields → List Value
unfolding echo_entry
echo_group prefix Fields.end = []
echo_group prefix (Fields.field k v rest) = echo_entry prefix k v ++ echo_group prefix rest
