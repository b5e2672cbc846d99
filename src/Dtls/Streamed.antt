-- ===== src/Dtls/Streamed.antt =====
-- What a session hands on, and when it ends: dtls_psk/server.py, lines 265-294.
use mathlib.Core.List.{append-nil}
use ha_hue_entertainment.Prelude.{
  ℕ, ◌-◌, ◌<◌, ◌≤◌, ◌≡◌, ◌≢◌, refl, sym, ◌∙◌, ap, Bool, true, false, List, [], ◌∷◌, ◌++◌, map, ltb,
  arith, Bool-cases, lt→ltb, ltb→lt, inl, inr,
}
use ha_hue_entertainment.Dtls.{Bytes}
use ha_hue_entertainment.Dtls.Reads.{without_reads}
use ha_hue_entertainment.Dtls.Session.{
  not_handed_on, SslError, want_read, zero_return, syscall, other, is_want_read, Call, dispatch,
  Ending, returned, raised, blocked, Run, ends, after_call, ReadResult, data_read, failed, Read,
  goes_on, read_loop,
}

-- A failed read that leaves the session on: a receive timeout, before the session has been idle.
abbrev pub IsQuiet : ℕ → ℕ → Read → Type 0
IsQuiet read_timeout last_frame r =
    (r.running_before ≡ true)
    × (r.result ≡ failed want_read)
    × (r.running ≡ true)
    × (r.now - last_frame < read_timeout)

abbrev pub read_payload : ReadResult → List Bytes
read_payload (data_read frame) = frame ∷ []
read_payload (not_handed_on frame) = []
read_payload (failed err) = []

abbrev pub frame_time : ReadResult → ℕ → ℕ → ℕ
frame_time (data_read frame) last_frame now = now
frame_time (not_handed_on frame) last_frame now = now
frame_time (failed err) last_frame now = last_frame

-- What was received, in order, and the time of the last frame.
abbrev pub frames_of : List Read → List Bytes
frames_of [] = []
frames_of (r ∷ rest) = read_payload r.result ++ frames_of rest

abbrev pub last_of : ℕ → List Read → ℕ
last_of last_frame [] = last_frame
last_of last_frame (r ∷ rest) = last_of (frame_time r.result last_frame r.now) rest

-- Reads throughout which the session stays on.
pub data Kept (read_timeout : ℕ) : ℕ → List Read → Type 0 where
  done : (last_frame : ℕ) → Kept read_timeout last_frame []
  fed :
      (last_frame now : ℕ) (frame : Bytes) (running : Bool) (rest : List Read)
      → Kept read_timeout now rest
      → Kept read_timeout last_frame (
          record { running_before = true; result = data_read frame; running = running; now = now }
          ∷ rest)
  quiet :
      (last_frame : ℕ) (r : Read) (rest : List Read)
      → IsQuiet read_timeout last_frame r
      → Kept read_timeout last_frame rest
      → Kept read_timeout last_frame (r ∷ rest)

-- Why a read ends the session.
pub data IsOver (read_timeout last_frame : ℕ) (r : Read) : Type 0 where
  stopped : r.running_before ≡ false → IsOver read_timeout last_frame r
  stopped_in_read :
      (err : SslError)
      → r.result ≡ failed err
      → r.running ≡ false
      → IsOver read_timeout last_frame r
  closed_or_broken :
      (err : SslError) → r.result ≡ failed err → err ≢ want_read → IsOver read_timeout last_frame r
  idle :
      r.result ≡ failed want_read
      → read_timeout ≤ r.now - last_frame
      → IsOver read_timeout last_frame r

abbrev pub after_frames : List Bytes → Run → Run
after_frames frames r = record r { calls = map dispatch frames ++ r.calls }

after_frames-ends :
    (frames : List Bytes) (e : Ending)
    → after_frames frames (ends e) ≡ record { calls = map dispatch frames; ending = e }
after_frames-ends frames e =
    ap (λ (l : List Call). record { calls = l; ending = e }) (append-nil (map dispatch frames))

not_want_read : (err : SslError) → err ≢ want_read → is_want_read err ≡ false
not_want_read want_read n = absurd (n refl)
not_want_read zero_return n = refl
not_want_read syscall n = refl
not_want_read other n = refl

quiet_read :
    (read_timeout last_frame : ℕ) (r : Read) (rest : List Read)
    → IsQuiet read_timeout last_frame r
    → without_reads (read_loop read_timeout last_frame (r ∷ rest))
      ≡ without_reads (read_loop read_timeout last_frame rest)
unfolding read_loop goes_on
quiet_read read_timeout last_frame r rest (b, e, u, t) =
    rw (b, e, u, lt→ltb (r.now - last_frame) read_timeout t) refl

read_loop-append :
    (read_timeout last_frame : ℕ) (before rest : List Read)
    → Kept read_timeout last_frame before
    → without_reads (read_loop read_timeout last_frame (before ++ rest))
      ≡ after_frames
          (frames_of before)
          (without_reads (read_loop read_timeout (last_of last_frame before) rest))
unfolding read_loop
read_loop-append read_timeout last_frame _ rest (done _) = refl
read_loop-append read_timeout last_frame _ rest (fed _ now frame running before k) =
    ap (after_call (dispatch frame)) (read_loop-append read_timeout now before rest k)
read_loop-append read_timeout last_frame _ rest (quiet _ r before q k) =
    quiet_read read_timeout last_frame r (before ++ rest) q
    ∙ read_loop-append read_timeout last_frame before rest k
    ∙ rw q.1 refl

ended_read :
    (read_timeout last_frame : ℕ) (r : Read) (rest : List Read) (err : SslError)
    → r.result ≡ failed err
    → goes_on read_timeout last_frame err r.running r.now ≡ false
    → without_reads (read_loop read_timeout last_frame (r ∷ rest)) ≡ ends returned
unfolding read_loop
ended_read read_timeout last_frame r rest err p q = elim (Bool-cases r.running_before) [
  | inl b ↦ rw (b, p, q) refl
  | inr b ↦ rw b refl
]

over_read :
    (read_timeout last_frame : ℕ) (r : Read) (rest : List Read)
    → IsOver read_timeout last_frame r
    → without_reads (read_loop read_timeout last_frame (r ∷ rest)) ≡ ends returned
unfolding read_loop goes_on
over_read read_timeout last_frame r rest (stopped p) = rw p refl
over_read read_timeout last_frame r rest (stopped_in_read err p q) =
    ended_read read_timeout last_frame r rest err p (rw q refl)
over_read read_timeout last_frame r rest (closed_or_broken err p n) =
    ended_read read_timeout last_frame r rest err p (let e = not_want_read err n in ground arith)
over_read read_timeout last_frame r rest (idle p t) =
    ended_read read_timeout last_frame r rest want_read p (ground arith)

raised_read :
    (read_timeout last_frame : ℕ) (r : Read) (frame : Bytes) (rest : List Read)
    → r.running_before ≡ true
    → r.result ≡ not_handed_on frame
    → without_reads (read_loop read_timeout last_frame (r ∷ rest)) ≡ ends raised
unfolding read_loop
raised_read read_timeout last_frame r frame rest p q = rw (p, q) refl

-- However long a session streams: while data comes, or the receive times out within the read timeout
-- since the last data, the session stays on, and has handed on exactly the data, in order; the first
-- read after a stop, the first that fails otherwise, or that times out with the read timeout over,
-- ends it, and hands on nothing more; and so does the first data that cannot be handed on, with an
-- exception.
pub read_loop-IsStream :
    (read_timeout last_frame : ℕ) (before : List Read)
    → Kept read_timeout last_frame before
    → (without_reads (read_loop read_timeout last_frame before)
        ≡ record { calls = map dispatch (frames_of before); ending = blocked })
      × ((r : Read) (rest : List Read)
          → IsOver read_timeout (last_of last_frame before) r
          → without_reads (read_loop read_timeout last_frame (before ++ (r ∷ rest)))
            ≡ record { calls = map dispatch (frames_of before); ending = returned })
      × ((r : Read) (frame : Bytes) (rest : List Read)
          → r.running_before ≡ true
          → r.result ≡ not_handed_on frame
          → without_reads (read_loop read_timeout last_frame (before ++ (r ∷ rest)))
            ≡ record { calls = map dispatch (frames_of before); ending = raised })
unfolding read_loop
read_loop-IsStream read_timeout last_frame before k = (
  sym (ap (λ reads. without_reads (read_loop read_timeout last_frame reads)) (append-nil before))
      ∙ read_loop-append read_timeout last_frame before [] k
      ∙ after_frames-ends (frames_of before) blocked,
  λ r rest o.
      read_loop-append read_timeout last_frame before (r ∷ rest) k
      ∙ ap (after_frames (frames_of before))
          (over_read read_timeout (last_of last_frame before) r rest o)
      ∙ after_frames-ends (frames_of before) returned,
  λ r frame rest p q.
      read_loop-append read_timeout last_frame before (r ∷ rest) k
      ∙ ap (after_frames (frames_of before))
          (raised_read read_timeout (last_of last_frame before) r frame rest p q)
      ∙ after_frames-ends (frames_of before) raised,
)

-- A receive timeout, while the server is running, at that time.
abbrev pub timeout_at : ℕ → Read
timeout_at now = record {
  running_before = true;
  result = failed want_read;
  running = true;
  now = now;
}

quiet_reads :
    (read_timeout last_frame : ℕ) (times : List ℕ) (now : ℕ) (rest : List Read)
    → read_timeout ≤ now - last_frame
    → without_reads
        (read_loop read_timeout last_frame (map timeout_at times ++ (timeout_at now ∷ rest)))
      ≡ ends returned
quiet_reads read_timeout last_frame [] now rest t =
    over_read read_timeout last_frame (timeout_at now) rest (idle refl t)
quiet_reads read_timeout last_frame (u ∷ times) now rest t =
    elim (Bool-cases (ltb (u - last_frame) read_timeout)) [
      | inl p ↦
          quiet_read read_timeout last_frame (timeout_at u) _ (refl, refl, refl, ltb→lt _ _ p)
          ∙ quiet_reads read_timeout last_frame times now rest t
      | inr p ↦ over_read read_timeout last_frame (timeout_at u) _ (idle refl (ground arith))
    ]

-- A TV that vanishes does not hold the server: whatever the session received before, once the receive
-- only times out, and one of the timeouts comes with the read timeout over since the last data, the
-- session has ended, and has handed on all that was received.
pub read_loop-silence :
    (read_timeout last_frame : ℕ) (before : List Read) (times : List ℕ) (now : ℕ) (rest : List Read)
    → Kept read_timeout last_frame before
    → read_timeout ≤ now - last_of last_frame before
    → without_reads (
        read_loop read_timeout last_frame
          (before ++ (map timeout_at times ++ (timeout_at now ∷ rest))))
      ≡ record { calls = map dispatch (frames_of before); ending = returned }
read_loop-silence read_timeout last_frame before times now rest k t =
    read_loop-append read_timeout last_frame before _ k
    ∙ ap (after_frames (frames_of before))
        (quiet_reads read_timeout (last_of last_frame before) times now rest t)
    ∙ after_frames-ends (frames_of before) returned
