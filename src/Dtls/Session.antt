-- ===== src/Dtls/Session.antt =====
-- The thread of the DTLS server: dtls_psk/server.py, lines 169-302. What OpenSSL, the socket and the
-- clock answer is given from outside, call by call; where the answers run out, the thread is still
-- inside a call.
use ha_hue_entertainment.Prelude.{
  ℕ, ◌+◌, ◌-◌, Bool, true, false, not, ◌&&◌, Option, none, some, List, [], ◌∷◌, ◌++◌, ltb,
  if◌then◌else◌,
}
use ha_hue_entertainment.Dtls.{Bytes}

-- The results of SSL_get_error that the code tells apart.
pub data SslError : Type 0 where
  want_read zero_return syscall other : SslError

abbrev pub is_want_read : SslError → Bool
is_want_read want_read = true
is_want_read zero_return = false
is_want_read syscall = false
is_want_read other = false

-- The calls of OpenSSL, and the frames that are handed on, in their order. A call that gives NULL is not
-- there, nor one that has not returned.
pub data Call : Type 0 where
  ssl_new ssl_shutdown ssl_free : Call
  bio_new : Call
  set_bio : Call  -- SSL_set_bio: the SSL object owns the BIO
  addr_new addr_free : Call
  listen : Call  -- DTLSv1_listen, with the address
  do_handshake : Call
  handshake_done : Call  -- it has returned 1
  ssl_read : Call
  dispatch : Bytes → Call

pub data Ending : Type 0 where
  returned : Ending
  raised : Ending
  blocked : Ending  -- still in a call of OpenSSL

pub record Run : Type 0 where
  pub calls : List Call
  pub ending : Ending

abbrev pub ends : Ending → Run
ends e = record { calls = []; ending = e }

abbrev pub after_call : Call → Run → Run
after_call c r = record r { calls = c ∷ r.calls }

-- The sign of what a call returns.
pub data Ret : Type 0 where
  negative zero positive : Ret

pub record Listened : Type 0 where
  pub ret : Ret  -- of DTLSv1_listen
  pub err : SslError
  pub running : Bool  -- self._running after it

pub record Handshake : Type 0 where
  pub ok : Bool  -- SSL_do_handshake returned 1
  pub err : SslError
  pub running : Bool
  pub now : ℕ

pub data ReadResult : Type 0 where
  data_read : Bytes → ReadResult  -- positive
  not_handed_on : Bytes → ReadResult  -- positive, but `_dispatch_frame` raises
  failed : SslError → ReadResult

pub record Read : Type 0 where
  pub running_before : Bool  -- the condition of the loop
  pub result : ReadResult  -- of SSL_read
  pub running : Bool  -- after it
  pub now : ℕ

-- What a call of `_accept_and_stream` meets.
pub record Client : Type 0 where
  pub has_ssl : Bool  -- not NULL
  pub has_bio : Bool
  pub has_addr : Bool
  pub listened : Option Listened
  pub handshake_began : ℕ
  pub handshakes : List Handshake
  pub stream_began : ℕ
  pub reads : List Read

-- A failed read: whether the session goes on.
unfoldable pub goes_on : ℕ → ℕ → SslError → Bool → ℕ → Bool
goes_on read_timeout last_frame err running now =
    running && is_want_read err && ltb (now - last_frame) read_timeout

abbrev pub by_result : ReadResult → (Bytes → Run) → (SslError → Run) → Run
by_result (data_read frame) on_frame on_error = on_frame frame
by_result (not_handed_on frame) on_frame on_error = ends raised
by_result (failed err) on_frame on_error = on_error err

unfoldable pub read_loop : ℕ → ℕ → List Read → Run
unfolding goes_on
read_loop read_timeout last_frame [] = ends blocked
read_loop read_timeout last_frame (r ∷ rest) =
    let quiet = read_loop read_timeout last_frame rest in
    let fed = read_loop read_timeout r.now rest in
    if r.running_before
    then after_call ssl_read (
        by_result r.result (λ frame. after_call (dispatch frame) fed)
          (λ err.
            if goes_on read_timeout last_frame err r.running r.now then quiet else ends returned))
    else ends returned

-- The loop of the handshake, and what follows it.
unfoldable pub handshake_loop : ℕ → Run → List Handshake → Run
handshake_loop deadline streamed [] = ends blocked
handshake_loop deadline streamed (h ∷ rest) =
    let again = handshake_loop deadline streamed rest in
    after_call do_handshake (
      if h.ok
      then after_call handshake_done streamed
      else if not h.running
      then ends returned
      else if is_want_read h.err && ltb h.now deadline
      then again
      else ends raised)

-- What a failed DTLSv1_listen comes to.
abbrev pub not_listened : Ret → Listened → Run → Run
not_listened positive l accepted = accepted
not_listened zero l accepted = ends returned
not_listened negative l accepted =
    if not l.running
    then ends returned
    else if is_want_read l.err
    then ends returned
    else ends raised

-- After DTLSv1_listen, within `finally: BIO_ADDR_free`.
unfoldable pub after_listen : Listened → Run → Run
after_listen l accepted = after_call addr_free (not_listened l.ret l accepted)

abbrev pub listening : Option Listened → Run → Run
listening none accepted = ends blocked
listening (some l) accepted = after_call listen (after_listen l accepted)

-- With the BIO and the address; `finally` frees the address once.
unfoldable pub do_accept_and_stream : ℕ → Client → Run
unfolding handshake_loop read_loop after_listen
do_accept_and_stream read_timeout c =
    if not c.has_bio
    then ends raised
    else after_call bio_new (
        after_call set_bio (
          if not c.has_addr
          then ends raised
          else after_call addr_new (
              listening c.listened (
                handshake_loop (c.handshake_began + read_timeout)
                  (read_loop read_timeout c.stream_began c.reads) c.handshakes))))

abbrev pub unless_blocked : Ending → Run → Run → Run
unless_blocked returned r r' = r'
unless_blocked raised r r' = r'
unless_blocked blocked r r' = r

-- `finally`, unless the thread is still inside the `try`.
abbrev pub finally : List Call → Run → Run
finally calls r = unless_blocked r.ending r (record r { calls = r.calls ++ calls })

unfoldable pub accept_and_stream : ℕ → Client → Run
unfolding do_accept_and_stream
accept_and_stream read_timeout c =
    if not c.has_ssl
    then ends raised
    else after_call ssl_new
        (finally (ssl_shutdown ∷ ssl_free ∷ []) (do_accept_and_stream read_timeout c))

-- One turn after another: an exception is logged. Each client comes with `self._running` before it.
abbrev pub then_rest : Run → Run → Run
then_rest r rest = unless_blocked r.ending r (record rest { calls = r.calls ++ rest.calls })

unfoldable pub accept_loop : ℕ → List (Bool × Client) → Run
unfolding accept_and_stream
accept_loop read_timeout [] = ends blocked
accept_loop read_timeout ((running, c) ∷ clients) =
    let rest = accept_loop read_timeout clients in
    if running then then_rest (accept_and_stream read_timeout c) rest else ends returned

-- `bound`: the socket was made, set up and bound; an OSError is logged and ends the thread.
unfoldable pub serve_loop : ℕ → Bool → List (Bool × Client) → Run
unfolding accept_loop
serve_loop read_timeout bound clients =
    if bound then accept_loop read_timeout clients else ends returned
