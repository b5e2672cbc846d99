-- ===== src/Dtls/Keys.antt =====
-- Who is given a key for the handshake: dtls_psk/server.py, lines 36-53 and 133-149; __init__.py, lines
-- 229-233.
use ha_hue_entertainment.Prelude.{
  ℕ, ◌≤◌, ◌≡◌, ◌≢◌, ◌↔◌, refl, sym, true, String, Option, none, some, some-injective, subst, [],
  ◌∷◌, ltb, ◌==◌, ==_refl, length, arith, Bool-cases, inl, inr,
}
use ha_hue_entertainment.Prelude.Calls.{returned}
use ha_hue_entertainment.HueApi.{HueApiServer, get_user_psk}
use ha_hue_entertainment.Dtls.{
  Bytes, decoded_key, key_bytes, psk_lookup, Psk, checked_psk, psk_server_callback, cookie_verify,
  same_bytes,
}

-- The client names a paired user, whose key is hexadecimal and has room in the buffer.
pub record HasKey (fromhex : String → Option Bytes) (api : HueApiServer) (identity : Option String)
    (max_psk_len : ℕ) (key : Bytes) : Type 0 where
  pub user : String
  pub hex_key : String
  pub named : identity ≡ some user
  pub paired : get_user_psk api user ≡ some hex_key
  pub decoded : fromhex hex_key ≡ some key
  pub fits : length key ≤ max_psk_len

given_key :
    (max_psk_len : ℕ) (key : Bytes)
    → length key ≤ max_psk_len
    → checked_psk max_psk_len (returned (some key)) ≡ record { size = length key; buffer = key }
given_key max_psk_len key h = ground arith

too_long :
    (max_psk_len : ℕ) (key : Bytes)
    → ltb max_psk_len (length key) ≡ true
    → (checked_psk max_psk_len (returned (some key))).size ≡ 0
too_long max_psk_len key h = rw h refl

module _ (fromhex : String → Option Bytes) (api : HueApiServer) (max_psk_len : ℕ) where
  decoded_or_refused :
      (user hex_key : String) (d : Option Bytes)
      → get_user_psk api user ≡ some hex_key
      → fromhex hex_key ≡ d
      → (checked_psk max_psk_len (decoded_key d)).size ≢ 0
      → HasKey fromhex api (some user) max_psk_len (checked_psk max_psk_len (decoded_key d)).buffer
  decoded_or_refused user hex_key none h e n = absurd (n refl)
  decoded_or_refused user hex_key (some key) h e n =
      elim (Bool-cases (ltb max_psk_len (length key))) [
        | inl p ↦ absurd (n (too_long max_psk_len key p))
        | inr p ↦
            (let fits : length key ≤ max_psk_len = ground arith in
              subst (λ (q : Psk). HasKey fromhex api (some user) max_psk_len q.buffer)
                (sym (given_key max_psk_len key fits))
                (record {
                  user = user;
                  hex_key = hex_key;
                  named = refl;
                  paired = h;
                  decoded = e;
                  fits = fits;
                }))
      ]

  refused_or_key :
      (user : String) (key : Option String)
      → get_user_psk api user ≡ key
      → (checked_psk max_psk_len (key_bytes fromhex key)).size ≢ 0
      → HasKey fromhex api
          (some user)
          max_psk_len
          (checked_psk max_psk_len (key_bytes fromhex key)).buffer
  refused_or_key user none h n = absurd (n refl)
  refused_or_key user (some hex_key) h n =
      decoded_or_refused user hex_key (fromhex hex_key) h refl n

  key_given :
      (user : String) (key : Bytes)
      → HasKey fromhex api (some user) max_psk_len key
      → checked_psk max_psk_len (psk_lookup fromhex api user)
        ≡ record { size = length key; buffer = key }
  unfolding psk_lookup
  key_given user key h =
      let e : h.user ≡ user = sym (some-injective user h.user h.named) in
      rw⁻¹ e (rw (h.paired, h.decoded) (given_key max_psk_len key h.fits))

  -- The handshake is given the key of a user that is paired, under the name that the client gives, if it
  -- is hexadecimal and not too long for the buffer, and never any other: not for an unknown name, a name
  -- that cannot be read or a key that cannot be used.
  pub psk_server_callback-HasKey :
      (identity : Option String)
      → ((psk_server_callback (psk_lookup fromhex api) identity max_psk_len).size ≢ 0
          → HasKey fromhex api identity max_psk_len
              (psk_server_callback (psk_lookup fromhex api) identity max_psk_len).buffer)
        × ((key : Bytes)
            → HasKey fromhex api identity max_psk_len key
            → psk_server_callback (psk_lookup fromhex api) identity max_psk_len
              ≡ record { size = length key; buffer = key })
  unfolding psk_server_callback psk_lookup
  psk_server_callback-HasKey none =
      (λ n. absurd (n refl), λ key h. (let e = h.named in absurd (ground arith)))
  psk_server_callback-HasKey (some user) =
      (refused_or_key user (get_user_psk api user) refl, λ key h. key_given user key h)

same_bytes-eq : (xs ys : Bytes) → same_bytes xs ys ≡ true → xs ≡ ys
unfolding same_bytes
same_bytes-eq [] [] h = refl
same_bytes-eq [] (y ∷ ys) h = absurd (ground arith)
same_bytes-eq (x ∷ xs) [] h = absurd (ground arith)
same_bytes-eq (x ∷ xs) (y ∷ ys) h = elim (Bool-cases (x == y)) [
  | inl p ↦ (let e : x ≡ y = ground arith in λ i. e i ∷ same_bytes-eq xs ys (ground arith) i)
  | inr p ↦ absurd (ground arith)
]

same_bytes_refl : (xs : Bytes) → same_bytes xs xs ≡ true
unfolding same_bytes
same_bytes_refl [] = refl
same_bytes_refl (x ∷ xs) = rw (==_refl x) (same_bytes_refl xs)

accepted_tag :
    (tag received : Bytes) (cookie_len : ℕ)
    → cookie_verify tag received cookie_len ≡ 1
    → (cookie_len ≡ length tag) × (received ≡ tag)
unfolding cookie_verify
accepted_tag tag received cookie_len h = elim (Bool-cases (cookie_len == length tag)) [
  | inl p ↦ elim (Bool-cases (same_bytes received tag)) [
    | inl q ↦ (ground arith, same_bytes-eq received tag q)
    | inr q ↦ absurd (ground arith)
  ]
  | inr p ↦ absurd (ground arith)
]

-- A cookie is accepted exactly if it is the tag, with its length.
cookie_verify-tag :
    (tag received : Bytes) (cookie_len : ℕ)
    → (cookie_verify tag received cookie_len ≡ 1) ↔ ((cookie_len ≡ length tag) × (received ≡ tag))
unfolding cookie_verify
cookie_verify-tag tag received cookie_len = (
  accepted_tag tag received cookie_len,
  λ (l, e). rw (l, e, ==_refl (length tag), same_bytes_refl tag) refl,
)
