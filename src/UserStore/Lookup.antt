-- ===== src/UserStore/Lookup.antt =====
-- What a pairing leaves in the store, and what a later one finds there.
use text.Mathlib.Text.{◌==◌ as str_eq}
use text.Mathlib.TextEquality.{eq_iff}
use mathlib.Core.List.{reverse-append}
use ha_hue_entertainment.Prelude.{
  ◌≡◌, refl, ap, ◌∙◌, true, String, none, some, [], ◌∷◌, ◌++◌, reverse, arith, Option-cases, inl,
  inr, if◌then◌else◌,
}
use ha_hue_entertainment.Json.{Value, eq_value}
use ha_hue_entertainment.ServiceData.{or_else}
use ha_hue_entertainment.UserStore.{
  User, Users, UserStore, find, assign, add, key_of, get_psk, first_of_type, get_by_devicetype,
  async_save, type_or, import_user, import_users, import_initial_users,
}

find-assign :
    (k j : String) (u : User) (users : Users)
    → find j (assign k u users) ≡ (if str_eq k j then some u else find j users)
unfolding find assign
find-assign k j u [] = refl
find-assign k j u ((name, old) ∷ rest) =
    ground (arith, find-assign k j u rest, eq_iff name k, eq_iff name j, eq_iff k j)

-- After `add` the key of that user is the new one, and every other user's key is what it was.
pub get_psk-add :
    (store : UserStore) (k key : String) (devicetype : Value) (j : String)
    → get_psk (add store k key devicetype) j ≡ (if str_eq k j then some key else get_psk store j)
unfolding get_psk add
get_psk-add store k key devicetype j =
    ground (
      arith,
      find-assign k j (record { clientkey = key; devicetype = some devicetype }) store.users,
    )

assign-new :
    (k : String) (u : User) (users : Users)
    → find k users ≡ none
    → assign k u users ≡ users ++ ((k, u) ∷ [])
unfolding assign find
assign-new k u [] h = refl
assign-new k u ((name, old) ∷ rest) h = ground (arith, assign-new k u rest)

find-none : (k : String) (users : Users) → key_of (find k users) ≡ none → find k users ≡ none
find-none k users h = ground arith

first_of_type_head :
    (username key : String) (devicetype : Value) (rest : Users)
    → eq_value devicetype devicetype ≡ true
    → first_of_type devicetype
        ((username, record { clientkey = key; devicetype = some devicetype }) ∷ rest)
      ≡ some (username, key)
unfolding first_of_type
first_of_type_head username key devicetype rest same = rw same

-- After a user that the store does not know is added with a device type that equals itself, as
-- every text does, `get_by_devicetype` finds that user, whoever else has the type.
pub get_by_devicetype-add :
    (store : UserStore) (username key : String) (devicetype : Value)
    → eq_value devicetype devicetype ≡ true
    → get_psk store username ≡ none
    → get_by_devicetype (add store username key devicetype) devicetype ≡ some (username, key)
unfolding get_by_devicetype add get_psk
get_by_devicetype-add store username key devicetype same h =
    let u : User = record { clientkey = key; devicetype = some devicetype } in
    ap (λ (l : Users). first_of_type devicetype (reverse l))
      (assign-new username u store.users (find-none username store.users h))
    ∙ ap (first_of_type devicetype) (reverse-append store.users ((username, u) ∷ []))
    ∙ first_of_type_head username key devicetype (reverse store.users) same

saved : (store : UserStore) (j : String) → get_psk (async_save store) j ≡ get_psk store j
unfolding async_save get_psk
saved store j = ground arith

get_psk-import_user :
    (store : UserStore) (name j : String) (user : User)
    → get_psk (import_user store name user) j
      ≡ or_else (get_psk store j) (if str_eq name j then some user.clientkey else none)
unfolding import_user
get_psk-import_user store name j user = elim (Option-cases (get_psk store name)) [
  | inl p ↦
      ground
        (arith, get_psk-add store name user.clientkey (type_or user.devicetype) j, eq_iff name j)
  | inr (k, p) ↦ ground (arith, eq_iff name j)
]

get_psk-import_users :
    (users : Users) (store : UserStore) (j : String)
    → get_psk (import_users store users) j ≡ or_else (get_psk store j) (key_of (find j users))
unfolding import_users find
get_psk-import_users [] store j = ground arith
get_psk-import_users ((name, user) ∷ rest) store j = ground (
  arith,
  get_psk-import_users rest (import_user store name user) j,
  get_psk-import_user store name j user,
)

-- The import of the users that the config flow paired: a user that the store knows keeps its key, a
-- user that it does not know gets the imported one, and nobody else gets a key.
pub get_psk-import_initial_users :
    (store : UserStore) (users : Users) (j : String)
    → get_psk (import_initial_users store users) j
      ≡ or_else (get_psk store j) (key_of (find j users))
unfolding import_initial_users find
get_psk-import_initial_users store [] j = ground arith
get_psk-import_initial_users store (u ∷ users) j =
    saved (import_users store (u ∷ users)) j ∙ get_psk-import_users (u ∷ users) store j
