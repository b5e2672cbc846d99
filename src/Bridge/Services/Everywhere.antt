-- ===== src/Bridge/Services/Everywhere.antt =====
-- A service reaches every loaded entry and no other: __init__.py, lines 87-126.
use ha_hue_entertainment.Prelude.{
  ℕ, ◌+◌, ◌≤◌, ◌≡◌, refl, ◌∙◌, ap, true, false, none, some, List, [], ◌∷◌, leb, if◌then◌else◌,
  if-both, le→leb, arith,
}
use ha_hue_entertainment.HueApi.{clear_entertainment}
use ha_hue_entertainment.Engine.{reset_mappings, notify}
use ha_hue_entertainment.Engine.Control.{async_release, cancel_pause}
use ha_hue_entertainment.Bridge.{Bridge, max_yield, max_settle, handle_release}
use ha_hue_entertainment.Bridge.Services.{
  Entry, any_loaded, for_loaded, over_loaded, or_same, async_handle_release,
}

-- Entry by entry: the loaded ones are related, the others are as they were.
abbrev pub Changed : (Bridge → Bridge → Type 0) → Entry → Entry → Type 0
Changed Q e e' =
    (e'.loaded ≡ e.loaded)
    × (e.loaded ≡ true → Q e.bridge e'.bridge)
    × (e.loaded ≡ false → e'.bridge ≡ e.bridge)

abbrev pub Each : (Entry → Entry → Type 0) → List Entry → List Entry → Type 0
Each P [] [] = Unit
Each P [] (e' ∷ es') = ⊥
Each P (e ∷ es) [] = ⊥
Each P (e ∷ es) (e' ∷ es') = P e e' × Each P es es'

for_loaded-Each :
    (Q : Bridge → Bridge → Type 0) (act : Bridge → ℕ → Bridge) (delay : ℕ)
    → ((b : Bridge) (t : ℕ) → Q b (act b t))
    → (now : ℕ) (es : List Entry) → Each (Changed Q) es (for_loaded act delay now es)
unfolding for_loaded
for_loaded-Each Q act delay h now [] = tt
for_loaded-Each Q act delay h now (e ∷ es) =
    if-both (Each (Changed Q) (e ∷ es)) e.loaded _ _
      (λ p. (
        (refl, λ q. h e.bridge now, λ q. absurd (ground arith)),
        for_loaded-Each Q act delay h (now + delay) es,
      ))
      (λ p. ((refl, λ q. absurd (ground arith), λ q. refl), for_loaded-Each Q act delay h now es))

-- What a release does to a bridge.
pub record IsReleased (b b' : Bridge) : Type 0 where
  pub api_clear :
      (b'.api_server.entertainment_active ≡ false) × (b'.api_server.entertainment_owner ≡ none)
  pub releasing : b'.engine.releasing_flag ≡ true
  pub no_pause : b'.engine.paused_until ≡ none

released :
    (seconds settle_seconds : ℕ)
    → seconds ≤ max_yield
    → settle_seconds ≤ max_settle
    → (b : Bridge) (t : ℕ) → IsReleased b (or_same b (handle_release b seconds settle_seconds t))
unfolding handle_release clear_entertainment async_release cancel_pause reset_mappings notify
released seconds settle_seconds h k b t =
    rw (le→leb seconds max_yield h, le→leb settle_seconds max_settle k)
      (record { api_clear = (refl, refl); releasing = refl; no_pause = refl })

in_range :
    (es : List Entry) (seconds settle_seconds now : ℕ)
    → seconds ≤ max_yield
    → settle_seconds ≤ max_settle
    → async_handle_release es seconds settle_seconds now
      ≡ over_loaded
          (λ b t. or_same b (handle_release b seconds settle_seconds t))
          settle_seconds
          now
          es
unfolding async_handle_release
in_range es seconds settle_seconds now h k =
    let done =
      over_loaded (λ b t. or_same b (handle_release b seconds settle_seconds t)) settle_seconds now
        es in
    ap (λ c. if c then (if leb settle_seconds max_settle then done else none) else none)
      (le→leb seconds max_yield h)
    ∙ ap (λ c. if c then done else none) (le→leb settle_seconds max_settle k)

-- A release with numbers in the range of its schema, with at least one entry loaded: every loaded bridge
-- is releasing, its pause is over and its API shows no session, whatever it did before; the entries that
-- are not loaded stay as they are. With no entry loaded the call is refused.
async_handle_release-Each :
    (es : List Entry) (seconds settle_seconds now : ℕ)
    → seconds ≤ max_yield
    → settle_seconds ≤ max_settle
    → (any_loaded es ≡ true
        → (es' : List Entry) × (async_handle_release es seconds settle_seconds now ≡ some es')
          × Each (Changed IsReleased) es es')
      × (any_loaded es ≡ false → async_handle_release es seconds settle_seconds now ≡ none)
async_handle_release-Each es seconds settle_seconds now h k =
    let act : Bridge → ℕ → Bridge = λ b t. or_same b (handle_release b seconds settle_seconds t) in
    let accepted = in_range es seconds settle_seconds now h k in
    (
      λ a. (
        for_loaded act settle_seconds now es,
        accepted ∙ ap (λ c. if c then some (for_loaded act settle_seconds now es) else none) a,
        for_loaded-Each IsReleased act settle_seconds (released seconds settle_seconds h k) now es,
      ),
      λ a. accepted ∙ ap (λ c. if c then some (for_loaded act settle_seconds now es) else none) a,
    )
