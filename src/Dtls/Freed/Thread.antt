-- ===== src/Dtls/Freed/Thread.antt =====
-- Call by call through the thread's loops: dtls_psk/server.py, lines 169-302.
use ha_hue_entertainment.Prelude.{
  ℕ, ◌+◌, refl, Bool, not, ◌&&◌, Option, none, some, List, [], ◌∷◌, ltb, if-both,
}
use ha_hue_entertainment.Dtls.{Bytes}
use ha_hue_entertainment.Dtls.Session.{
  ssl_new, addr_new, addr_free, handshake_done, bio_new, set_bio, listen, do_handshake, ssl_read,
  not_handed_on, dispatch, returned, raised, blocked, Run, negative, zero, positive, Listened,
  Handshake, ReadResult, data_read, failed, is_want_read, by_result, SslError, not_listened, Ret,
  goes_on, Read, Client, read_loop, handshake_loop, after_listen, listening, do_accept_and_stream,
  accept_and_stream, accept_loop, serve_loop,
}
use ha_hue_entertainment.Dtls.Freed.{
  nothing, ssl, loose_bio, ssl_with_bio, with_addr, heard, streaming, after_use, held_after,
  IsNothing, IsSession, IsBalanced, ends-IsBalanced, after_call-IsBalanced, appended-IsBalanced,
  finally-IsBalanced,
}

by_result-IsBalanced :
    (x : ReadResult) (on_frame : Bytes → Run) (on_error : SslError → Run)
    → ((frame : Bytes) → IsBalanced streaming IsSession (on_frame frame))
    → ((err : SslError) → IsBalanced streaming IsSession (on_error err))
    → IsBalanced streaming IsSession (by_result x on_frame on_error)
by_result-IsBalanced (data_read frame) on_frame on_error f g = f frame
by_result-IsBalanced (not_handed_on frame) on_frame on_error f g =
    ends-IsBalanced IsSession streaming raised tt
by_result-IsBalanced (failed err) on_frame on_error f g = g err

read_loop-IsBalanced :
    (read_timeout last_frame : ℕ) (reads : List Read)
    → IsBalanced streaming IsSession (read_loop read_timeout last_frame reads)
unfolding read_loop after_use
read_loop-IsBalanced read_timeout last_frame [] = ends-IsBalanced IsSession streaming blocked tt
read_loop-IsBalanced read_timeout last_frame (r ∷ rest) =
    if-both (IsBalanced streaming IsSession) r.running_before _ _
      (λ p. after_call-IsBalanced IsSession streaming streaming ssl_read _ refl (
        by_result-IsBalanced r.result _ _
          (λ frame.
            after_call-IsBalanced IsSession streaming streaming (dispatch frame) _ refl
              (read_loop-IsBalanced read_timeout r.now rest))
          (λ err.
            if-both (IsBalanced streaming IsSession)
              (goes_on read_timeout last_frame err r.running r.now) _ _
              (λ q. read_loop-IsBalanced read_timeout last_frame rest)
              (λ q. ends-IsBalanced IsSession streaming returned tt))))
      (λ p. ends-IsBalanced IsSession streaming returned tt)

handshake_loop-IsBalanced :
    (deadline : ℕ) (streamed : Run) (handshakes : List Handshake)
    → IsBalanced streaming IsSession streamed
    → IsBalanced heard IsSession (handshake_loop deadline streamed handshakes)
unfolding handshake_loop after_use
handshake_loop-IsBalanced deadline streamed [] b = ends-IsBalanced IsSession heard blocked tt
handshake_loop-IsBalanced deadline streamed (h ∷ rest) b =
    after_call-IsBalanced IsSession heard heard do_handshake _ refl (
      if-both (IsBalanced heard IsSession) h.ok _ _
        (λ p. after_call-IsBalanced IsSession heard streaming handshake_done streamed refl b)
        (λ p.
          if-both (IsBalanced heard IsSession) (not h.running) _ _
            (λ q. ends-IsBalanced IsSession heard returned tt)
            (λ q.
              if-both (IsBalanced heard IsSession) (is_want_read h.err && ltb h.now deadline) _ _
                (λ w. handshake_loop-IsBalanced deadline streamed rest b)
                (λ w. ends-IsBalanced IsSession heard raised tt))))

not_listened-IsBalanced :
    (ret : Ret) (l : Listened) (accepted : Run)
    → IsBalanced heard IsSession accepted
    → IsBalanced heard IsSession (not_listened ret l accepted)
not_listened-IsBalanced positive l accepted b = b
not_listened-IsBalanced zero l accepted b = ends-IsBalanced IsSession heard returned tt
not_listened-IsBalanced negative l accepted b =
    if-both (IsBalanced heard IsSession) (not l.running) _ _
      (λ p. ends-IsBalanced IsSession heard returned tt)
      (λ p.
        if-both (IsBalanced heard IsSession) (is_want_read l.err) _ _
          (λ q. ends-IsBalanced IsSession heard returned tt)
          (λ q. ends-IsBalanced IsSession heard raised tt))

listening-IsBalanced :
    (listened : Option Listened) (accepted : Run)
    → IsBalanced heard IsSession accepted
    → IsBalanced with_addr IsSession (listening listened accepted)
unfolding after_listen after_use held_after
listening-IsBalanced none accepted b = (with_addr, refl)
listening-IsBalanced (some l) accepted b =
    after_call-IsBalanced IsSession with_addr with_addr listen (after_listen l accepted) refl (
      after_call-IsBalanced IsSession with_addr heard addr_free (not_listened l.ret l accepted) refl
        (not_listened-IsBalanced l.ret l accepted b))

do_accept_and_stream-IsBalanced :
    (read_timeout : ℕ) (c : Client) → IsBalanced ssl IsSession (do_accept_and_stream read_timeout c)
unfolding do_accept_and_stream after_use
do_accept_and_stream-IsBalanced read_timeout c =
    if-both (IsBalanced ssl IsSession) (not c.has_bio) _ _
      (λ p. ends-IsBalanced IsSession ssl raised tt)
      (λ p.
        let streamed = read_loop read_timeout c.stream_began c.reads in
        let accepted = handshake_loop (c.handshake_began + read_timeout) streamed c.handshakes in
        after_call-IsBalanced IsSession ssl loose_bio bio_new _ refl (
          after_call-IsBalanced IsSession loose_bio ssl_with_bio set_bio _ refl (
            if-both (IsBalanced ssl_with_bio IsSession) (not c.has_addr) _ _
              (λ q. ends-IsBalanced IsSession ssl_with_bio raised tt)
              (λ q.
                after_call-IsBalanced IsSession ssl_with_bio with_addr addr_new
                  (listening c.listened accepted) refl
                  (listening-IsBalanced c.listened accepted (
                    handshake_loop-IsBalanced _ streamed c.handshakes
                      (read_loop-IsBalanced read_timeout c.stream_began c.reads)))))))

accept_and_stream-IsBalanced :
    (read_timeout : ℕ) (c : Client)
    → IsBalanced nothing IsNothing (accept_and_stream read_timeout c)
unfolding accept_and_stream after_use
accept_and_stream-IsBalanced read_timeout c =
    let r = do_accept_and_stream read_timeout c in
    if-both (IsBalanced nothing IsNothing) (not c.has_ssl) _ _
      (λ p. ends-IsBalanced IsNothing nothing raised tt)
      (λ p.
        after_call-IsBalanced IsNothing nothing ssl ssl_new _ refl (
          finally-IsBalanced ssl r.ending r.calls (do_accept_and_stream-IsBalanced read_timeout c)))

accept_loop-IsBalanced :
    (read_timeout : ℕ) (clients : List (Bool × Client))
    → IsBalanced nothing IsNothing (accept_loop read_timeout clients)
unfolding accept_loop
accept_loop-IsBalanced read_timeout [] = ends-IsBalanced IsNothing nothing blocked tt
accept_loop-IsBalanced read_timeout ((running, c) ∷ clients) =
    let r = accept_and_stream read_timeout c in
    if-both (IsBalanced nothing IsNothing) running _ _
      (λ p.
        appended-IsBalanced nothing r.ending r.calls (accept_loop read_timeout clients)
          (accept_and_stream-IsBalanced read_timeout c)
          (accept_loop-IsBalanced read_timeout clients))
      (λ p. ends-IsBalanced IsNothing nothing returned tt)

-- Whatever OpenSSL, the socket, the clients and the event loop do, failures of every call included: the
-- thread calls OpenSSL on an SSL object, a BIO or an address only while it holds it, has one SSL object
-- at a time, gives every BIO to its SSL object at once, listens, shakes hands and reads in that order,
-- frees the address of each listening exactly once and before the handshake, hands on no frame before the
-- handshake of its session is complete, and when it leaves its loops it has freed every SSL object, BIO
-- and address. The socket is not among these: `async_stop` closes it.
pub serve_loop-IsBalanced :
    (read_timeout : ℕ) (bound : Bool) (clients : List (Bool × Client))
    → IsBalanced nothing IsNothing (serve_loop read_timeout bound clients)
unfolding serve_loop
serve_loop-IsBalanced read_timeout bound clients =
    if-both (IsBalanced nothing IsNothing) bound _ _
      (λ p. accept_loop-IsBalanced read_timeout clients)
      (λ p. ends-IsBalanced IsNothing nothing returned tt)
