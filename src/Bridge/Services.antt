-- ===== src/Bridge/Services.antt =====
-- The services over all entries: __init__.py, lines 87-131. The entries are handled one after the other; a
-- release waits for its settle time before the next.
pub mod Everywhere
use ha_hue_entertainment.Prelude.{
  ℕ, ◌+◌, Bool, true, false, Option, none, some, List, [], ◌∷◌, leb, if◌then◌else◌,
}
use ha_hue_entertainment.Bridge.{
  Bridge, max_yield, max_settle, handle_pause, handle_resume, handle_release,
}

pub record Entry : Type 0 where
  pub loaded : Bool
  pub bridge : Bridge

unfoldable pub any_loaded : List Entry → Bool
any_loaded [] = false
any_loaded (e ∷ es) = if e.loaded then true else any_loaded es

-- What is done for the loaded entries, in their order, each beginning some time after the one before.
unfoldable pub for_loaded : (Bridge → ℕ → Bridge) → ℕ → ℕ → List Entry → List Entry
for_loaded act delay now [] = []
for_loaded act delay now (e ∷ es) =
    let later = for_loaded act delay (now + delay) es in
    let at_once = for_loaded act delay now es in
    if e.loaded then record e { bridge = act e.bridge now } ∷ later else e ∷ at_once

-- `_loaded_entries` raises where there is none.
abbrev pub over_loaded : (Bridge → ℕ → Bridge) → ℕ → ℕ → List Entry → Option (List Entry)
over_loaded act delay now es = if any_loaded es then some (for_loaded act delay now es) else none

abbrev pub or_same : Bridge → Option Bridge → Bridge
or_same b none = b
or_same b (some b') = b'

-- Numbers out of the range of the schema are refused before anything is done.
unfoldable pub async_handle_pause : List Entry → ℕ → ℕ → Option (List Entry)
unfolding for_loaded any_loaded handle_pause
async_handle_pause es seconds now =
    if leb seconds max_yield
    then over_loaded (λ b t. or_same b (handle_pause b seconds t)) 0 now es
    else none

unfoldable pub async_handle_resume : List Entry → ℕ → Option (List Entry)
unfolding for_loaded any_loaded handle_resume
async_handle_resume es now = over_loaded handle_resume 0 now es

unfoldable pub async_handle_release : List Entry → ℕ → ℕ → ℕ → Option (List Entry)
unfolding for_loaded any_loaded handle_release
async_handle_release es seconds settle_seconds now =
    if leb seconds max_yield
    then (if leb settle_seconds max_settle
        then over_loaded (λ b t. or_same b (handle_release b seconds settle_seconds t))
            settle_seconds now es
        else none)
    else none
