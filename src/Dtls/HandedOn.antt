-- ===== src/Dtls/HandedOn.antt =====
-- How the frames of the thread reach the handler: `_dispatch_frame`, dtls_psk/server.py, lines 297-302, with
-- the loop that `async_start` keeps, line 96, and the mailbox that is its callback, __init__.py, lines
-- 238-246. The event loop is not closed; where it is, the dispatch raises (Dtls/Session).
pub mod Stalled
use mathlib.Core.List.{append-nil, append_assoc}
use ha_hue_entertainment.Prelude.{
  ℕ, suc, ◌+◌, ◌≤◌, ◌≡◌, refl, sym, ◌∙◌, ap, Bool, true, false, Option, none, some, List, [], ◌∷◌,
  ◌++◌, map, if◌then◌else◌, length, length-map, if-both, arith,
}
use ha_hue_entertainment.Prelude.Calls.{returned}
use ha_hue_entertainment.Mailbox.{Mailbox, put, deliver}
use ha_hue_entertainment.Dtls.{Bytes, DtlsServer, new_server, setup_ctx, then_thread, async_start}

-- What the event loop has still to call.
pub data Callback : Type 0 where
  put_frame : Bytes → Callback  -- FrameMailbox.put
  deliver_frame : Callback  -- FrameMailbox._deliver

pub record Hand : Type 0 where
  pub has_loop : Bool  -- of the server
  pub queue : List Callback  -- of the event loop, the next one first
  pub box : Mailbox
  pub handled : List Bytes  -- what the engine was given, in order

-- A put that returns, in whichever thread.
unfoldable pub put_in : Hand → Bytes → Hand
unfolding put
put_in h frame =
    let stored = put h.box frame in
    record h {
      box = stored.0;
      queue = if stored.1 then h.queue ++ (deliver_frame ∷ []) else h.queue;
    }

unfoldable pub dispatch_frame : Hand → Bytes → Hand
unfolding put_in
dispatch_frame h frame =
    if h.has_loop then record h { queue = h.queue ++ (put_frame frame ∷ []) } else put_in h frame

unfoldable pub dispatch_all : Hand → List Bytes → Hand
unfolding dispatch_frame
dispatch_all h [] = h
dispatch_all h (frame ∷ frames) = dispatch_all (dispatch_frame h frame) frames

abbrev pub handed : Option Bytes → List Bytes → List Bytes
handed none handled = handled
handed (some frame) handled = handled ++ (frame ∷ [])

abbrev pub run_next : Hand → List Callback → Hand
run_next h [] = h
run_next h (put_frame frame ∷ rest) = put_in (record h { queue = rest }) frame
run_next h (deliver_frame ∷ rest) =
    let taken = deliver h.box in
    record h { queue = rest; box = taken.0; handled = handed taken.1 h.handled }

-- The event loop makes that many calls, if it has them.
unfoldable pub run_callbacks : ℕ → Hand → Hand
unfolding put_in deliver
run_callbacks ℕ.zero h = h
run_callbacks (suc n) h = run_callbacks n (run_next h h.queue)
