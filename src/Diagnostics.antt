-- ===== src/Diagnostics.antt =====
-- The download of diagnostics: custom_components/hue_entertainment/diagnostics.py.
pub mod Hidden
use Prim.Native.String.{◌++◌ as ◌&◌}
use ha_hue_entertainment.Prelude.{ℕ, ◌≡◌, refl, ap, Bool, String, Option, none, some, List, [], ◌∷◌}
use ha_hue_entertainment.Prelude.Text.{take}
use ha_hue_entertainment.Json.{Value, null, bool, str, obj, Fields}
use ha_hue_entertainment.UserStore.{User, Users}
use ha_hue_entertainment.HueApi.{HueApiServer, dict}
use ha_hue_entertainment.HueApi.Host.{number, list}
use ha_hue_entertainment.Engine.{Engine}
use ha_hue_entertainment.Engine.Stats.{stats}
use ha_hue_entertainment.Mailbox.{Mailbox}

abbrev pub to_redact : List String
to_redact = "clientkey" ∷ "initial_users" ∷ []

-- f"{username[:6]}…"
unfoldable pub short : Option String → Value
unfolding take
short none = null
short (some username) = str (take 6 username & "…")

abbrev pub or_null : Option Value → Value
or_null none = null
or_null (some v) = v

unfoldable pub paired_users : Users → List Value
unfolding short
paired_users [] = []
paired_users ((name, user) ∷ rest) =
    dict (("username", short (some name)) ∷ ("devicetype", or_null user.devicetype) ∷ [])
    ∷ paired_users rest

-- `async_redact_data` of Home Assistant.
abbrev pub Redact : Type 0
Redact = Fields → List String → Fields

abbrev pub report :
    Fields → Fields → String → Bool → Value → List Value → List (String × Value) → ℕ → Value
report data_ options bridge_id active owner users engine coalesced = dict (
    ("entry", dict (("data", obj data_) ∷ ("options", obj options) ∷ []))
    ∷ (
      "bridge",
      dict (
          ("bridge_id", str bridge_id)
          ∷ ("entertainment_active", bool active)
          ∷ ("entertainment_owner", owner)
          ∷ ("paired_users", list users)
          ∷ []),
    )
    ∷ ("engine", dict engine)
    ∷ ("dtls", dict (("frames_coalesced_in_mailbox", number coalesced) ∷ []))
    ∷ [])

unfoldable pub async_get_config_entry_diagnostics :
    Redact → Fields → Fields → HueApiServer → Engine → Mailbox → ℕ → Value
unfolding paired_users stats
async_get_config_entry_diagnostics redact data_ options api engine mailbox now =
    report (redact data_ to_redact) options api.bridge_id api.entertainment_active
      (short api.entertainment_owner) (paired_users api.user_store.users) (stats engine now)
      mailbox.coalesced
