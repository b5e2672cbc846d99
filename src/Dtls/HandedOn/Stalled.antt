-- ===== src/Dtls/HandedOn/Stalled.antt =====
-- Frames that come while the event loop is busy: dtls_psk/server.py, lines 96 and 297-302.
use mathlib.Core.List.{append-nil, append_assoc}
use ha_hue_entertainment.Prelude.{
  ℕ, suc, ◌+◌, ◌≡◌, refl, sym, ◌∙◌, ap, Bool, true, false, none, some, List, [], ◌∷◌, ◌++◌, map,
  length, length-map, if-both, arith,
}
use ha_hue_entertainment.Mailbox.{Mailbox, put, deliver}
use ha_hue_entertainment.Dtls.{Bytes, new_server, setup_ctx, then_thread, async_start}
use ha_hue_entertainment.Dtls.HandedOn.{
  put_frame, deliver_frame, Callback, Hand, put_in, dispatch_frame, dispatch_all, run_callbacks,
}

abbrev pub newest_of : Bytes → List Bytes → Bytes
newest_of frame [] = frame
newest_of frame (next ∷ frames) = newest_of next frames

-- A mailbox in which nothing waits.
abbrev pub empty_box : ℕ → Mailbox
empty_box coalesced = record { latest = none; scheduled = false; coalesced = coalesced }

abbrev full_box : Bytes → ℕ → Mailbox
full_box frame coalesced = record { latest = some frame; scheduled = true; coalesced = coalesced }

abbrev pub idle_hand : Bool → ℕ → Hand
idle_hand has_loop coalesced = record {
  has_loop = has_loop;
  queue = [];
  box = empty_box coalesced;
  handled = [];
}

abbrev direct_hand : Bytes → ℕ → Hand
direct_hand frame coalesced = record {
  has_loop = false;
  queue = deliver_frame ∷ [];
  box = full_box frame coalesced;
  handled = [];
}

-- Nothing is left to call, and the handler has had one frame.
abbrev pub emptied : Bool → Bytes → ℕ → Hand
emptied has_loop frame coalesced = record {
  has_loop = has_loop;
  queue = [];
  box = empty_box coalesced;
  handled = frame ∷ [];
}

dispatch_all-queue :
    (queue : List Callback) (box : Mailbox) (frames : List Bytes)
    → dispatch_all (record { has_loop = true; queue = queue; box = box; handled = [] }) frames
      ≡ record { has_loop = true; queue = queue ++ map put_frame frames; box = box; handled = [] }
unfolding dispatch_all dispatch_frame
dispatch_all-queue queue box [] =
    ap (λ q. record { has_loop = true; queue = q; box = box; handled = [] })
      (sym (append-nil queue))
dispatch_all-queue queue box (frame ∷ frames) =
    dispatch_all-queue (queue ++ (put_frame frame ∷ [])) box frames
    ∙ ap (λ q. record { has_loop = true; queue = q; box = box; handled = [] })
        (append_assoc queue (put_frame frame ∷ []) (map put_frame frames))

dispatch_all-direct :
    (frame : Bytes) (coalesced : ℕ) (frames : List Bytes)
    → dispatch_all (direct_hand frame coalesced) frames
      ≡ direct_hand (newest_of frame frames) (coalesced + length frames)
unfolding dispatch_all dispatch_frame put_in put
dispatch_all-direct frame coalesced [] = ap (direct_hand (newest_of frame [])) (omega arith)
dispatch_all-direct frame coalesced (next ∷ frames) =
    dispatch_all-direct next (coalesced + 1) frames
    ∙ ap (direct_hand (newest_of next frames)) (omega arith)

run_puts :
    (frame : Bytes) (coalesced : ℕ) (frames : List Bytes)
    → run_callbacks (suc (length frames)) (record {
      has_loop = true;
      queue = map put_frame frames ++ (deliver_frame ∷ []);
      box = full_box frame coalesced;
      handled = [];
    })
      ≡ emptied true (newest_of frame frames) (coalesced + length frames)
unfolding run_callbacks put_in put deliver
run_puts frame coalesced [] = ap (emptied true (newest_of frame [])) (omega arith)
run_puts frame coalesced (next ∷ frames) =
    run_puts next (coalesced + 1) frames ∙ ap (emptied true (newest_of next frames)) (omega arith)

-- The first frame in an empty mailbox.
first_in :
    (has_loop : Bool) (queue : List Callback) (coalesced : ℕ) (frame : Bytes)
    → put_in
        (record { has_loop = has_loop; queue = queue; box = empty_box coalesced; handled = [] })
        frame
      ≡ record {
        has_loop = has_loop;
        queue = queue ++ (deliver_frame ∷ []);
        box = full_box frame coalesced;
        handled = [];
      }
unfolding put_in put
first_in has_loop queue coalesced frame =
    ap
      (λ c. record {
        has_loop = has_loop;
        queue = queue ++ (deliver_frame ∷ []);
        box = full_box frame c;
        handled = [];
      })
      (omega arith)

module _ (coalesced : ℕ) (frame : Bytes) (frames : List Bytes) where
  queued_frames : dispatch_all (idle_hand true coalesced) (frame ∷ frames) ≡ record {
    has_loop = true;
    queue = map put_frame (frame ∷ frames);
    box = empty_box coalesced;
    handled = [];
  }
  queued_frames = dispatch_all-queue [] (empty_box coalesced) (frame ∷ frames)

  put_frames :
      dispatch_all (idle_hand false coalesced) (frame ∷ frames)
      ≡ direct_hand (newest_of frame frames) (coalesced + length frames)
  unfolding dispatch_all dispatch_frame
  put_frames =
      ap (λ h. dispatch_all h frames) (first_in false [] coalesced frame)
      ∙ dispatch_all-direct frame coalesced frames

  run_queued :
      run_callbacks
        (suc (suc (length frames)))
        (dispatch_all (idle_hand true coalesced) (frame ∷ frames))
      ≡ emptied true (newest_of frame frames) (coalesced + length frames)
  unfolding run_callbacks
  run_queued =
      ap (run_callbacks (suc (suc (length frames)))) queued_frames
      ∙ ap (run_callbacks (suc (length frames)))
          (first_in true (map put_frame frames) coalesced frame)
      ∙ run_puts frame coalesced frames

  -- Frames that come while the event loop is busy, in an empty mailbox: once the loop has made its calls,
  -- the handler has had the newest frame alone, and all others are counted as superseded. A server that
  -- puts them in from its thread leaves one call to make, however many they are; one that has a loop, as
  -- every server has that was started, leaves one call for each frame, and makes one more.
  pub stalled_loop :
      ((ok : Bool) → (async_start ok new_server).after.loop ≡ true)
      × (length (dispatch_all (idle_hand true coalesced) (frame ∷ frames)).queue
          ≡ suc (length frames))
      × (run_callbacks
            (suc (suc (length frames)))
            (dispatch_all (idle_hand true coalesced) (frame ∷ frames))
          ≡ emptied true (newest_of frame frames) (coalesced + length frames))
      × (length (dispatch_all (idle_hand false coalesced) (frame ∷ frames)).queue ≡ 1)
      × (run_callbacks 1 (dispatch_all (idle_hand false coalesced) (frame ∷ frames))
          ≡ emptied false (newest_of frame frames) (coalesced + length frames))
  unfolding async_start setup_ctx run_callbacks
  stalled_loop = (
    λ ok. if-both (λ d. (then_thread d).after.loop ≡ true) ok _ _ (λ p. refl) (λ p. refl),
    ap (λ (h : Hand). length h.queue) queued_frames ∙ length-map (frame ∷ frames) put_frame,
    run_queued,
    ap (λ (h : Hand). length h.queue) put_frames,
    ap (run_callbacks 1) put_frames,
  )
