-- ===== src/Bridge/Paired.antt =====
-- From the pairing in the config flow to the handshake of the stream: config_flow.py, lines 139-216,
-- __init__.py, lines 202-233, dtls_psk/server.py, lines 133-149.
use text.Mathlib.TextPositions.{eq_refl}
use ha_hue_entertainment.Prelude.{
  ℕ, ◌≡◌, ◌≤◌, refl, ◌∙◌, ap, true, String, Option, none, some, List, [], ◌∷◌, length, arith,
  Option-cases, inl, inr,
}
use ha_hue_entertainment.Json.{PyText, Value, obj, Fields, get, truthy}
use ha_hue_entertainment.ServiceData.{or_else}
use ha_hue_entertainment.UserStore.{
  Users, UserStore, find, key_of, add, get_psk, get_by_devicetype, async_load, async_save,
}
use ha_hue_entertainment.UserStore.Lookup.{get_psk-add, get_psk-import_initial_users}
use ha_hue_entertainment.HueApi.{HueApiServer, link_button_active, get_user_psk, Outcome, answer}
use ha_hue_entertainment.HueApi.Requests.{Request, create_user, with_json}
use ha_hue_entertainment.HueApi.Host.{PyHost}
use ha_hue_entertainment.HueApi.Site.{stop_site}
use ha_hue_entertainment.Discovery.{stop_discovery}
use ha_hue_entertainment.ConfigFlow.Steps.{
  Flow, TempApi, Surroundings, progress, entry, pending, finished, create_entry,
  cleanup_temp_servers, async_step_pairing, close_pairing, async_step_paired,
}
use ha_hue_entertainment.ConfigFlow.Dialog.{
  DialogEvent, request, task_ended, continued, dialog_step, dialog_run,
}
use ha_hue_entertainment.HueApi.Handlers.{
  or_false, or_unknown, user_or_new, paired_user, credentials, handle_create_user, handle,
}
use ha_hue_entertainment.Dtls.{Bytes, psk_lookup, psk_server_callback}
use ha_hue_entertainment.Dtls.Keys.{psk_server_callback-HasKey}
use ha_hue_entertainment.Bridge.Setup.{Config, setup_store, async_setup_entry}

-- The keys of the entry: those of the store, and for the others those of the config flow.
entry_psk :
    (c : Config) (now : ℕ) (u : String)
    → get_user_psk (async_setup_entry c now).api_server u
      ≡ or_else (key_of (find u c.stored)) (key_of (find u c.initial_users))
unfolding get_user_psk async_setup_entry setup_store async_load get_psk
entry_psk c now u =
    get_psk-import_initial_users (record { ha_store = some c.stored; users = c.stored })
      c.initial_users u

saved_users : (store : UserStore) → (async_save store).users ≡ store.users
unfolding async_save
saved_users store = ground arith

-- The store that knows the new user.
abbrev with_user : UserStore → Value → Request → UserStore
with_user store d r = async_save (add store r.fresh_username r.fresh_clientkey d)

new_user_psk :
    (store : UserStore) (d : Value) (r : Request)
    → key_of (find r.fresh_username (with_user store d r).users) ≡ some r.fresh_clientkey
unfolding get_psk
new_user_psk store d r =
    ap (λ users. key_of (find r.fresh_username users))
      (saved_users (add store r.fresh_username r.fresh_clientkey d))
    ∙ get_psk-add store r.fresh_username r.fresh_clientkey d r.fresh_username
    ∙ rw (eq_refl r.fresh_username) refl

-- What the pairing comes to for a new device.
pairing_outcome : HueApiServer → Fields → Request → Outcome
pairing_outcome api fs r =
    answer
      (record api { user_store = with_user api.user_store (or_unknown (get "devicetype" fs)) r })
      (credentials r.fresh_username r.fresh_clientkey
        (truthy (or_false (get "generateclientkey" fs))))

new_device :
    (api : HueApiServer) (r : Request) (fs : Fields) (now : ℕ)
    → r.body ≡ some (obj fs)
    → link_button_active api now ≡ true
    → get_by_devicetype api.user_store (or_unknown (get "devicetype" fs)) ≡ none
    → handle_create_user api r now ≡ pairing_outcome api fs r
unfolding handle_create_user with_json paired_user user_or_new pairing_outcome
new_device api r fs now b l n = rw (b, l, n) refl

-- The clean-up keeps what the entry is made of.
create_entry-cleanup_temp_servers :
    (f : Flow) → create_entry (cleanup_temp_servers f) ≡ create_entry f
unfolding create_entry cleanup_temp_servers stop_site stop_discovery
create_entry-cleanup_temp_servers f = elim (Option-cases f.temp_api) [
  | inl p ↦ elim (Option-cases f.temp_discovery) [
    | inl q ↦ rw (p, q) refl
    | inr (d, q) ↦ rw (p, q) refl
  ]
  | inr (t, p) ↦ elim (Option-cases f.temp_discovery) [
    | inl q ↦ rw (p, q) refl
    | inr (d, q) ↦ rw (p, q) refl
  ]
]

-- The dialog while it waits for the TV.
abbrev pub waiting_flow : Flow → TempApi → Flow
waiting_flow f t = record f { temp_api = some t; task = pending }

-- What happens next to a dialog that waits: a pairing request, the end of the wait, and the two steps that
-- Home Assistant then takes.
abbrev pub pairing_events : Request → ℕ → Surroundings → List (Surroundings × DialogEvent)
pairing_events r now around =
    (around, request create_user r now)
    ∷ (around, task_ended (some true))
    ∷ (around, continued)
    ∷ (around, continued)
    ∷ []

paired_entry :
    (py : PyText) (python : PyHost) (f : Flow) (t : TempApi) (r : Request) (now : ℕ)
    (around : Surroundings)
    → (dialog_run py python (waiting_flow f t, progress) (pairing_events r now around)).1
      ≡ entry f.lights f.bridge_id (handle_create_user t.api r now).api.user_store.users
unfolding dialog_run dialog_step handle async_step_pairing close_pairing async_step_paired
    create_entry
paired_entry py python f t r now around =
    let o = handle_create_user t.api r now in
    create_entry-cleanup_temp_servers (record f {
      temp_api = some (record t { api = o.api });
      temp_user_store = some o.api.user_store;
      task = finished (some true);
      paired = true;
    })

-- A TV that pairs while the dialog for a new entry waits, and asks for a key, is told a name and a key;
-- the dialog, when the wait has ended, makes an entry; and when that is set up, the handshake of the
-- stream is given that key under that name, whatever else the store and the dialog hold. It is assumed
-- that the link button is active, that no user has the device type, that the store does not know the
-- new name, and that the new key is hexadecimal and has room in the buffer of OpenSSL.
pub paired_client-psk :
    (py : PyText) (python : PyHost) (fromhex : String → Option Bytes) (f : Flow) (t : TempApi)
    (r : Request) (fs : Fields) (now later max_psk_len : ℕ) (around : Surroundings) (c : Config)
    (key : Bytes)
    → r.body ≡ some (obj fs)
    → link_button_active t.api now ≡ true
    → get_by_devicetype t.api.user_store (or_unknown (get "devicetype" fs)) ≡ none
    → truthy (or_false (get "generateclientkey" fs)) ≡ true
    → find r.fresh_username c.stored ≡ none
    → fromhex r.fresh_clientkey ≡ some key
    → length key ≤ max_psk_len
    → ((handle py python t.api create_user r now).reply
        ≡ credentials r.fresh_username r.fresh_clientkey true)
      × (users : Users) × ((dialog_run py python
            (waiting_flow f t, progress)
            (pairing_events r now around)).1
          ≡ entry f.lights f.bridge_id users)
      × (psk_server_callback
            (psk_lookup fromhex
              (async_setup_entry (record c { initial_users = users }) later).api_server)
            (some r.fresh_username)
            max_psk_len
          ≡ record { size = length key; buffer = key })
unfolding pairing_outcome handle
paired_client-psk py python fromhex f t r fs now later max_psk_len around c key b l n g s x fits =
    let d = or_unknown (get "devicetype" fs) in
    let users = (with_user t.api.user_store d r).users in
    let c' = record c { initial_users = users } in
    let outcome = new_device t.api r fs now b l n in
    let paired : get_user_psk (async_setup_entry c' later).api_server r.fresh_username
        ≡ some r.fresh_clientkey =
      entry_psk c' later r.fresh_username ∙ rw (s, new_user_psk t.api.user_store d r) refl in
    (
      ap (λ (o : Outcome). o.reply) outcome ∙ ap (credentials r.fresh_username r.fresh_clientkey) g,
      users,
      paired_entry py python f t r now around
          ∙ ap (λ (o : Outcome). entry f.lights f.bridge_id o.api.user_store.users) outcome,
      (psk_server_callback-HasKey fromhex (async_setup_entry c' later).api_server max_psk_len
            (some r.fresh_username)).1
          key
          (record {
            user = r.fresh_username;
            hex_key = r.fresh_clientkey;
            named = refl;
            paired = paired;
            decoded = x;
            fits = fits;
          }),
    )
