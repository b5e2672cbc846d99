-- ===== src/ConfigFlow.antt =====
-- The parts of the config flow: custom_components/hue_entertainment/config_flow.py, lines 57-73 and 115-116.
-- Steps has the dialog for a new entry, Options the one that changes it.
pub mod Mac
pub mod Steps
pub mod Dialog
pub mod Cleaned
pub mod Clean
pub mod Options
pub mod ValidIp
pub mod Waiting
use Prim.Native.String.{◌++◌ as ◌&◌}
use text.Mathlib.Text.{◌==◌ as str_eq}
use ha_hue_entertainment.Prelude.{
  ℕ, zero, suc, ◌+◌, Bool, true, false, not, ◌||◌, String, Option, none, some, List, [], ◌∷◌, ltb,
  if◌then◌else◌,
}
use ha_hue_entertainment.Prelude.Text.{take, drop, replace}
use ha_hue_entertainment.HueApi.Host.{PyHost}
use ha_hue_entertainment.UserStore.{Users}

-- The slices of two characters each.
unfoldable pub pairs : ℕ → String → List String
unfolding take drop
pairs zero s = []
pairs (suc n) s = take 2 s ∷ pairs n (drop 2 s)

-- ":".join(…)
unfoldable pub join_colons : List String → String
join_colons [] = ""
join_colons (s ∷ []) = s
join_colons (s ∷ (t ∷ rest)) = s & (":" & join_colons (t ∷ rest))

unfoldable pub with_colons : String → String
unfolding pairs join_colons
with_colons hex12 = join_colons (pairs 6 hex12)

unfoldable pub mac_from_bridge_id : PyHost → String → String
unfolding replace take with_colons
mac_from_bridge_id host bridge_id = with_colons (host.lower (take 12 (replace bridge_id "FFFE" "")))

-- raw[:6] + "FFFE" + raw[6:]
unfoldable pub bridge_id_of : String → String
unfolding take drop
bridge_id_of raw = take 6 raw & ("FFFE" & drop 6 raw)

-- `hex` is uuid.uuid4().hex
unfoldable pub new_bridge_id : PyHost → String → String
unfolding bridge_id_of take
new_bridge_id host hex = bridge_id_of (host.upper (take 12 hex))

unfoldable pub is_member : String → List String → Bool
is_member s [] = false
is_member s (t ∷ rest) = str_eq s t || is_member s rest

-- set(users.keys()) - initial_users, where that is not empty
unfoldable pub has_new : List String → List String → Bool
unfolding is_member
has_new [] initial_users = false
has_new (name ∷ names) initial_users =
    not (is_member name initial_users) || has_new names initial_users

abbrev pub names_of : Users → List String
names_of [] = []
names_of ((name, user) ∷ rest) = name ∷ names_of rest

-- One turn of the polling loop: the clock, and the users that are then in the store.
pub record Poll : Type 0 where
  pub now : ℕ
  pub users : List String

abbrev pub poll_interval : ℕ
poll_interval = 500

abbrev pub pairing_timeout : ℕ
pairing_timeout = 60000

-- `none` while it still sleeps after the last of the polls.
unfoldable pub poll_until : ℕ → List String → List Poll → Option Bool
unfolding has_new
poll_until deadline initial_users [] = none
poll_until deadline initial_users (p ∷ rest) =
    let later = poll_until deadline initial_users rest in
    if ltb p.now deadline
    then (if has_new p.users initial_users then some true else later)
    else some false

unfoldable pub wait_for_new_user : ℕ → List String → ℕ → List Poll → Option Bool
unfolding poll_until
wait_for_new_user start initial_users timeout polls =
    poll_until (start + timeout) initial_users polls
