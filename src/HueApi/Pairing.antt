-- ===== src/HueApi/Pairing.antt =====
-- The pairing request repeated: a TV sends a burst of them and uses the reply that it likes.
use ha_hue_entertainment.Prelude.{
  ℕ, ◌≡◌, refl, ◌∙◌, true, none, some, arith, Option-cases, inl, inr,
}
use ha_hue_entertainment.Json.{Value, obj, Fields, get, eq_value}
use ha_hue_entertainment.UserStore.{UserStore, get_psk, get_by_devicetype, add, async_save}
use ha_hue_entertainment.UserStore.Lookup.{get_by_devicetype-add}
use ha_hue_entertainment.HueApi.{HueApiServer, link_button_active}
use ha_hue_entertainment.HueApi.Requests.{Request, with_json}
use ha_hue_entertainment.HueApi.Handlers.{user_or_new, paired_user, handle_create_user, or_unknown}

get_by_devicetype-async_save :
    (store : UserStore) (d : Value)
    → get_by_devicetype (async_save store) d ≡ get_by_devicetype store d
unfolding get_by_devicetype async_save
get_by_devicetype-async_save store d = ground arith

-- Once a device type has a user, pairing gives that one.
paired_user-again :
    (store : UserStore) (d : Value) (r1 r2 : Request)
    → eq_value d d ≡ true
    → get_psk store r1.fresh_username ≡ none
    → paired_user (paired_user store d r1).0 d r2 ≡ paired_user store d r1
unfolding paired_user user_or_new
paired_user-again store d r1 r2 same fresh = elim (Option-cases (get_by_devicetype store d)) [
  | inr ((username, clientkey), p) ↦ rw (p, p) refl
  | inl p ↦
      let found =
        get_by_devicetype-async_save (add store r1.fresh_username r1.fresh_clientkey d) d
        ∙ get_by_devicetype-add store r1.fresh_username r1.fresh_clientkey d same fresh in
      rw (p, found) refl
]

module _ (api : HueApiServer) (fs : Fields) (r1 r2 : Request) (t1 t2 : ℕ) where
  -- A second pairing request with the same body, whatever credentials are drawn for it, is given the
  -- reply of the first one and changes nothing, if both come while the link button is active, the
  -- username that was drawn for the first is new and the device type equals itself, as a text does.
  pub create_user_twice :
      r1.body ≡ some (obj fs)
      → r2.body ≡ some (obj fs)
      → link_button_active api t1 ≡ true
      → link_button_active api t2 ≡ true
      → eq_value (or_unknown (get "devicetype" fs)) (or_unknown (get "devicetype" fs)) ≡ true
      → get_psk api.user_store r1.fresh_username ≡ none
      → let first = handle_create_user api r1 t1 in
        let second = handle_create_user first.api r2 t2 in
        (second.api ≡ first.api) × (second.reply ≡ first.reply)
  unfolding handle_create_user with_json link_button_active
  create_user_twice b1 b2 l1 l2 same fresh =
      let d = or_unknown (get "devicetype" fs) in
      let again = paired_user-again api.user_store d r1 r2 same fresh in
      rw (b1, b2, l1, l2, again) (refl, refl)
