-- ===== src/Mailbox.antt =====
-- `FrameMailbox`: custom_components/hue_entertainment/entertainment.py, lines 182-220. The DTLS thread
-- puts frames in, or has the loop do it (Dtls.HandedOn); the event loop delivers them; the sections under
-- the lock are single steps.
pub mod Handoff
use ha_hue_entertainment.Prelude.{ℕ, ◌+◌, Bool, true, false, Option, none, some, List}

pub record Mailbox : Type 0 where
  pub latest : Option (List ℕ)
  pub scheduled : Bool
  pub coalesced : ℕ

abbrev pub new_mailbox : Mailbox
new_mailbox = record { latest = none; scheduled = false; coalesced = 0 }

abbrev pub waiting : Option (List ℕ) → ℕ
waiting none = 0
waiting (some f) = 1

-- The locked part of `put`; the second component says that the loop is to be woken.
unfoldable pub put : Mailbox → List ℕ → Mailbox × Bool
put box f =
    let stored = record box { latest = some f; coalesced = box.coalesced + waiting box.latest } in
    elim box.scheduled [
      | true ↦ (stored, false)
      | false ↦ (record stored { scheduled = true }, true)
    ]

-- `call_soon_threadsafe` has raised RuntimeError.
unfoldable pub put_failed : Mailbox → Mailbox
put_failed box = record box { scheduled = false }

-- The second component is the frame that the handler is given.
unfoldable pub deliver : Mailbox → Mailbox × Option (List ℕ)
deliver box = (record box { latest = none; scheduled = false }, box.latest)
