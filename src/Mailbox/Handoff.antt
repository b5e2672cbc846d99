-- ===== src/Mailbox/Handoff.antt =====
-- The mailbox between its two threads: `put` stores under the lock and then wakes the loop, and between
-- the two the loop may run whatever callbacks it already has.
use ha_hue_entertainment.Prelude.{
  ℕ, suc, ◌+◌, ◌≤◌, ◌≡◌, ◌⊎◌, refl, Bool, true, false, Option, none, some, List, [], ◌∷◌, length,
  arith, Option-cases, inl, inr,
}
use ha_hue_entertainment.Mailbox.{Mailbox, new_mailbox, waiting, put, put_failed, deliver}

pub record World : Type 0 where
  pub box : Mailbox
  pub waking : Bool  -- the DTLS thread stands between the lock and `call_soon_threadsafe`
  pub callbacks : ℕ  -- calls of `_deliver` that the loop has still to make
  pub closed : Bool  -- the event loop
  pub puts : ℕ
  pub last_put : Option (List ℕ)
  pub handled : List (List ℕ)  -- what the handler was given, the newest first

abbrev pub at_start : World
at_start = record {
  box = new_mailbox;
  waking = false;
  callbacks = 0;
  closed = false;
  puts = 0;
  last_put = none;
  handled = [];
}

abbrev hand_over : Option (List ℕ) → List (List ℕ) → List (List ℕ)
hand_over none handled = handled
hand_over (some f) handled = f ∷ handled

pub data Step : World → World → Type 0 where
  puts_frame :
      (w : World) (f : List ℕ)
      → w.waking ≡ false
      → Step w (record w {
        box = (put w.box f).0;
        waking = (put w.box f).1;
        puts = w.puts + 1;
        last_put = some f;
      })
  wakes :
      (w : World)
      → w.waking ≡ true
      → w.closed ≡ false
      → Step w (record w { waking = false; callbacks = w.callbacks + 1 })
  fails :
      (w : World)
      → w.waking ≡ true
      → w.closed ≡ true
      → Step w (record w { waking = false; box = put_failed w.box })
  delivers :
      (w : World) (n : ℕ)
      → w.callbacks ≡ suc n
      → Step w (record w {
        box = (deliver w.box).0;
        callbacks = n;
        handled = hand_over (deliver w.box).1 w.handled;
      })
  closes : (w : World) → Step w (record w { closed = true })

pub data Reach : World → Type 0 where
  here : Reach at_start
  next : {v w : World} → Reach v → Step v w → Reach w

pub record IsConsistent (w : World) : Type 0 where
  -- at most one callback is ever outstanding
  pub one_callback : w.callbacks ≤ 1
  pub not_both : w.waking ≡ true → w.callbacks ≡ 0
  pub scheduled_wakes : w.box.scheduled ≡ true → (w.waking ≡ true) ⊎ (w.callbacks ≡ 1)
  pub wakes_scheduled : (w.waking ≡ true) ⊎ (w.callbacks ≡ 1) → w.box.scheduled ≡ true
  -- a frame that waits is the newest
  pub freshest : (f : List ℕ) → w.box.latest ≡ some f → w.last_put ≡ some f
  -- every frame was handled, superseded, or waits
  pub counted : w.puts ≡ length w.handled + w.box.coalesced + waiting w.box.latest
  -- while the loop runs, no waiting frame is forgotten
  pub no_lost_wake :
      w.closed ≡ false → waiting w.box.latest ≡ 1 → (w.waking ≡ true) ⊎ (w.callbacks ≡ 1)
  -- the newest frame waits, or it is the one that the handler was given last
  pub newest :
      (f : List ℕ)
      → w.last_put ≡ some f
      → (w.box.latest ≡ some f) ⊎ ((r : List (List ℕ)) × (w.handled ≡ f ∷ r))

newest_delivered :
    (w : World) (g : List ℕ)
    → w.last_put ≡ some g
    → IsConsistent w
    → (◌≡◌ {A = Option (List ℕ)} none (some g))
      ⊎ ((r : List (List ℕ)) × (hand_over w.box.latest w.handled ≡ g ∷ r))
newest_delivered w g h c = elim (Option-cases w.box.latest) [
  | inl p ↦ elim (c.newest g h) [ inl q ↦ absurd (ground arith) | inr (r, q) ↦ inr (r, rw p q) ]
  | inr (f, p) ↦ inr (w.handled, ground (arith, c.freshest f p))
]

Step-IsConsistent : {v w : World} → Step v w → IsConsistent v → IsConsistent w
unfolding put put_failed deliver
Step-IsConsistent (puts_frame w f a) c = record {
  one_callback = c.one_callback;
  not_both = ground arith;
  scheduled_wakes = ground arith;
  wakes_scheduled = ground arith;
  freshest = λ g h. ground arith;
  counted = ground arith;
  no_lost_wake = ground arith;
  newest = λ g h. ground arith;
}
Step-IsConsistent (wakes w a o) c = ground arith
Step-IsConsistent (fails w a o) c = ground arith
Step-IsConsistent (delivers w n a) c = record {
  one_callback = ground arith;
  not_both = ground arith;
  scheduled_wakes = ground arith;
  wakes_scheduled = ground arith;
  freshest = λ g h. ground arith;
  counted = ground arith;
  no_lost_wake = ground arith;
  newest = λ g h. newest_delivered w g h c;
}
Step-IsConsistent (closes w) c = ground arith

IsConsistent-at_start : IsConsistent at_start
IsConsistent-at_start = record {
  one_callback = omega arith;
  not_both = λ h. refl;
  scheduled_wakes = λ h. cc;
  wakes_scheduled = λ h. ground arith;
  freshest = λ f h. cc;
  counted = omega arith;
  no_lost_wake = λ c h. ground arith;
  newest = λ f h. cc;
}

-- However the two threads interleave: the loop never has more than one callback outstanding, a waiting
-- frame is the newest, every frame was handled, counted as superseded or waits, no waiting frame is
-- forgotten while the loop is open, and the newest frame waits unless it was the last one handled.
pub Reach-IsConsistent : {w : World} → Reach w → IsConsistent w
Reach-IsConsistent here = IsConsistent-at_start
Reach-IsConsistent (next r s) = Step-IsConsistent s (Reach-IsConsistent r)
