-- ===== src/Diagnostics/Hidden.antt =====
-- What the diagnostics do not give away: diagnostics.py, lines 13-42.
use Prim.Native.String.{◌++◌ as ◌&◌}
use ha_hue_entertainment.Prelude.{ℕ, ◌≡◌, refl, String, [], ◌∷◌}
use ha_hue_entertainment.Prelude.Text.{take}
use ha_hue_entertainment.Json.{Value, str, obj, Fields}
use ha_hue_entertainment.UserStore.{Users}
use ha_hue_entertainment.HueApi.{HueApiServer, dict}
use ha_hue_entertainment.Engine.{Engine}
use ha_hue_entertainment.Engine.Stats.{stats}
use ha_hue_entertainment.Mailbox.{Mailbox}
use ha_hue_entertainment.Diagnostics.{
  to_redact, short, or_null, paired_users, Redact, report, async_get_config_entry_diagnostics,
}

-- What the config flow leaves in the entry.
abbrev pub entry_data : Value → String → Fields → Fields
entry_data lights bridge_id initial_users = Fields.field "lights" lights (
    Fields.field "bridge_id" (str bridge_id)
      (Fields.field "initial_users" (obj initial_users) Fields.end))

-- The value of a key of `to_redact` does not show.
abbrev pub Hides : Redact → Type 0
Hides redact =
    (lights : Value) (bridge_id : String) (users users' : Fields)
    → redact (entry_data lights bridge_id users) to_redact
      ≡ redact (entry_data lights bridge_id users') to_redact

-- The same devices in the same order, under names that begin alike; the keys may be any.
abbrev pub LookAlike : Users → Users → Type 0
LookAlike [] [] = Unit
LookAlike [] (u ∷ us) = ⊥
LookAlike (u ∷ us) [] = ⊥
LookAlike ((name, user) ∷ us) ((name', user') ∷ us') =
    (take 6 name ≡ take 6 name') × (user.devicetype ≡ user'.devicetype) × LookAlike us us'

paired_users-LookAlike : (us us' : Users) → LookAlike us us' → paired_users us ≡ paired_users us'
unfolding paired_users short
paired_users-LookAlike [] [] h = refl
paired_users-LookAlike [] (u ∷ us') h = absurd h
paired_users-LookAlike (u ∷ us) [] h = absurd h
paired_users-LookAlike ((name, user) ∷ us) ((name', user') ∷ us') (n, d, rest) = λ i.
    dict (("username", str (n i & "…")) ∷ ("devicetype", or_null (d i)) ∷ [])
    ∷ paired_users-LookAlike us us' rest i

-- Two servers that differ in the keys of their users, and in what follows the sixth character of names.
pub record IsLookAlike (api api' : HueApiServer) : Type 0 where
  pub same_id : api.bridge_id ≡ api'.bridge_id
  pub same_active : api.entertainment_active ≡ api'.entertainment_active
  pub same_owner : short api.entertainment_owner ≡ short api'.entertainment_owner
  pub same_users : LookAlike api.user_store.users api'.user_store.users

-- The diagnostics are the same for two bridges whose paired users differ in their keys and in what
-- follows the sixth character of their names, whatever the config flow left of them in the entry, if
-- Home Assistant's redaction hides the values of the keys that it is given: none of that can be read
-- off them.
pub diagnostics-LookAlike :
    (redact : Redact) (lights : Value) (bridge_id : String) (users users' options : Fields)
    (api api' : HueApiServer) (engine : Engine) (mailbox : Mailbox) (now : ℕ)
    → Hides redact
    → IsLookAlike api api'
    → async_get_config_entry_diagnostics redact
        (entry_data lights bridge_id users)
        options
        api
        engine
        mailbox
        now
      ≡ async_get_config_entry_diagnostics redact
          (entry_data lights bridge_id users')
          options
          api'
          engine
          mailbox
          now
unfolding async_get_config_entry_diagnostics
diagnostics-LookAlike redact lights bridge_id users users' options api api' engine mailbox now h s =
    λ i.
      report (h lights bridge_id users users' i) options (s.same_id i) (s.same_active i)
        (s.same_owner i)
        (paired_users-LookAlike api.user_store.users api'.user_store.users s.same_users i)
        (stats engine now) mailbox.coalesced
