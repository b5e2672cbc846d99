-- ===== src/ConfigFlow/Waiting.antt =====
-- The wait for the TV to pair: config_flow.py, lines 57-67.
use ha_hue_entertainment.Prelude.{
  ℕ, ◌+◌, ◌*◌, ◌≤◌, ◌<◌, ◌≡◌, ◌↔◌, refl, Bool, true, false, String, Option, none, some, List, [],
  ◌∷◌, ltb, if◌then◌else◌, length, arith, Bool-cases, inl, inr, ◌⊎◌, if-both, ltb→lt,
}
use ha_hue_entertainment.ConfigFlow.{has_new, Poll, poll_interval, poll_until, wait_for_new_user}

-- Each poll comes at least one sleep after the one before, the first not before the time.
abbrev pub Spaced : ℕ → List Poll → Type 0
Spaced earliest [] = Unit
Spaced earliest (p ∷ rest) = (earliest ≤ p.now) × Spaced (p.now + poll_interval) rest

-- One of the polls, before the deadline, finds a user that was not there at the start.
pub data Seen (deadline : ℕ) (initial_users : List String) : List Poll → Type 0 where
  now_seen :
      (p : Poll) (rest : List Poll)
      → p.now < deadline
      → has_new p.users initial_users ≡ true
      → Seen deadline initial_users (p ∷ rest)
  later_seen :
      (p : Poll) (rest : List Poll)
      → Seen deadline initial_users rest
      → Seen deadline initial_users (p ∷ rest)

unseen : (deadline : ℕ) (initial_users : List String) → Seen deadline initial_users [] → ⊥
unseen deadline initial_users t = elim t [ ]

Seen-cases :
    (deadline : ℕ) (initial_users : List String) (p : Poll) (rest : List Poll)
    → Seen deadline initial_users (p ∷ rest)
    → ((p.now < deadline) × (has_new p.users initial_users ≡ true))
      ⊎ Seen deadline initial_users rest
Seen-cases deadline initial_users p rest (now_seen _ _ l n) = inl (l, n)
Seen-cases deadline initial_users p rest (later_seen _ _ t) = inr t

-- The answer is right.
abbrev pub IsAnswer : ℕ → List String → List Poll → Option Bool → Type 0
IsAnswer deadline initial_users polls none = ⊥
IsAnswer deadline initial_users polls (some found) =
    (found ≡ true) ↔ Seen deadline initial_users polls

not_after :
    (deadline earliest : ℕ) (initial_users : List String) (polls : List Poll)
    → Spaced earliest polls
    → deadline ≤ earliest
    → Seen deadline initial_users polls
    → ⊥
not_after deadline earliest initial_users [] s h t = unseen deadline initial_users t
not_after deadline earliest initial_users (p ∷ rest) (e, s) h t =
    elim (Seen-cases deadline initial_users p rest t) [
      | inl (l, n) ↦ ground arith
      | inr t' ↦
          not_after deadline (p.now + poll_interval) initial_users rest s (omega (arith, e, h)) t'
    ]

module _ (deadline : ℕ) (initial_users : List String) (p : Poll) (rest : List Poll) where
  -- The answer after one more poll, from the one of the rest.
  polled :
      (later : Option Bool)
      → p.now < deadline
      → IsAnswer deadline initial_users rest later
      → IsAnswer deadline initial_users
          (p ∷ rest)
          (if has_new p.users initial_users then some true else later)
  polled none l a = absurd a
  polled (some found) l a = elim (Bool-cases (has_new p.users initial_users)) [
    | inl n ↦ rw n (λ e. now_seen p rest l n, λ t. refl)
    | inr n ↦ rw n (
      (λ e. later_seen p rest (a.0 e)),
      λ t. elim (Seen-cases deadline initial_users p rest t) [
        | inl (l', n') ↦ absurd (ground arith)
        | inr t' ↦ a.1 t'
      ],
    )
  ]

  late :
      (earliest : ℕ)
      → Spaced earliest (p ∷ rest)
      → ltb p.now deadline ≡ false
      → IsAnswer deadline initial_users (p ∷ rest) (some false)
  late earliest (e, s) h = (
    λ f. absurd (ground arith),
    λ t.
        absurd
          (not_after deadline p.now initial_users (p ∷ rest) (ground arith, s) (ground arith) t),
  )

poll_until-IsAnswer :
    (deadline earliest : ℕ) (initial_users : List String) (polls : List Poll)
    → Spaced earliest polls
    → earliest < deadline + poll_interval
    → deadline + poll_interval ≤ earliest + poll_interval * length polls
    → IsAnswer deadline initial_users polls (poll_until deadline initial_users polls)
unfolding poll_until
poll_until-IsAnswer deadline earliest initial_users [] s b h = omega (arith, b, h)
poll_until-IsAnswer deadline earliest initial_users (p ∷ rest) (e, s) b h =
    if-both (IsAnswer deadline initial_users (p ∷ rest)) (ltb p.now deadline) _ _
      (λ l.
        let l' = ltb→lt p.now deadline l in
        polled deadline initial_users p rest (poll_until deadline initial_users rest) l' (
          poll_until-IsAnswer deadline (p.now + poll_interval) initial_users rest s
            (omega (arith, l')) (omega (arith, e, h))))
      (λ l. late deadline initial_users p rest earliest (e, s) l)

-- The wait is over after one poll more than the sleeps of half a second that fit into the timeout,
-- however long the turns of the loop take; and it answers yes exactly if a poll before the deadline
-- finds a user that was not there at the start.
pub wait_for_new_user-IsAnswer :
    (start timeout : ℕ) (initial_users : List String) (polls : List Poll)
    → Spaced start polls
    → timeout + poll_interval ≤ poll_interval * length polls
    → IsAnswer
        (start + timeout)
        initial_users
        polls
        (wait_for_new_user start initial_users timeout polls)
unfolding wait_for_new_user
wait_for_new_user-IsAnswer start timeout initial_users polls s h =
    poll_until-IsAnswer (start + timeout) start initial_users polls s (omega arith)
      (omega (arith, h))
