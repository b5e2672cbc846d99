-- ===== src/UserStore.antt =====
-- `UserStore`: custom_components/hue_entertainment/user_store.py; the import of the users that the
-- config flow paired: custom_components/hue_entertainment/__init__.py, lines 205-214.
-- A dict is the list of its entries in the order of insertion. Each method holds the lock throughout.
pub mod Lookup
use text.Mathlib.Text.{◌==◌ as str_eq}
use ha_hue_entertainment.Prelude.{
  Bool, true, false, String, Option, none, some, List, [], ◌∷◌, ◌++◌, reverse, if◌then◌else◌,
}
use ha_hue_entertainment.Json.{Value, null, str, eq_value}

pub record User : Type 0 where
  pub clientkey : String
  pub devicetype : Option Value  -- whatever JSON the client sent; a stored entry may lack it

abbrev pub Users : Type 0
Users = List (String × User)

pub record UserStore : Type 0 where
  pub ha_store : Option Users  -- Home Assistant's store and what it holds, if there is one
  pub users : Users

-- users.get(username)
unfoldable pub find : String → Users → Option User
find username [] = none
find username ((name, user) ∷ rest) = if str_eq name username then some user else find username rest

-- users[username] = user
unfoldable pub assign : String → User → Users → Users
assign username user [] = (username, user) ∷ []
assign username user ((name, old) ∷ rest) =
    if str_eq name username then (name, user) ∷ rest else (name, old) ∷ assign username user rest

unfoldable pub add : UserStore → String → String → Value → UserStore
unfolding assign
add store username clientkey devicetype = record store {
  users =
      assign username (record { clientkey = clientkey; devicetype = some devicetype }) store.users;
}

abbrev pub key_of : Option User → Option String
key_of none = none
key_of (some user) = some user.clientkey

unfoldable pub get_psk : UserStore → String → Option String
unfolding find
get_psk store username = key_of (find username store.users)

-- info.get("devicetype") == devicetype, where a missing key is None
abbrev pub has_type : Value → Option Value → Bool
has_type devicetype none = eq_value null devicetype
has_type devicetype (some d) = eq_value d devicetype

-- The first entry with the device type.
unfoldable pub first_of_type : Value → Users → Option (String × String)
first_of_type devicetype [] = none
first_of_type devicetype ((name, user) ∷ rest) =
    if has_type devicetype user.devicetype
    then some (name, user.clientkey)
    else first_of_type devicetype rest

unfoldable pub get_by_devicetype : UserStore → Value → Option (String × String)
unfolding first_of_type
get_by_devicetype store devicetype = first_of_type devicetype (reverse store.users)

-- `loaded` is what the store's `async_load` returns, `none` where that is no dict.
unfoldable pub async_load : UserStore → Option Users → UserStore
async_load store loaded = elim store.ha_store [
  | none ↦ store
  | some held ↦ elim loaded [ none ↦ store | some users ↦ record store { users = users } ]
]

unfoldable pub async_save : UserStore → UserStore
async_save store = elim store.ha_store [
  | none ↦ store
  | some held ↦ record store { ha_store = some store.users }
]

abbrev pub type_or : Option Value → Value
type_or none = str "unknown"
type_or (some d) = d

-- One turn of the import: a user that is there already keeps its key.
import_user : UserStore → String → User → UserStore
unfolding get_psk add
import_user store username user = elim (get_psk store username) [
  | none ↦ add store username user.clientkey (type_or user.devicetype)
  | some key ↦ store
]

import_users : UserStore → Users → UserStore
unfolding import_user
import_users store [] = store
import_users store ((name, user) ∷ rest) = import_users (import_user store name user) rest

unfoldable pub import_initial_users : UserStore → Users → UserStore
unfolding import_users async_save
import_initial_users store [] = store
import_initial_users store (u ∷ users) = async_save (import_users store (u ∷ users))
