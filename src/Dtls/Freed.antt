-- ===== src/Dtls/Freed.antt =====
-- What the thread takes from OpenSSL it gives back, once: dtls_psk/server.py, lines 169-302.
pub mod Thread
use ha_hue_entertainment.Prelude.{
  ℕ, ◌+◌, ◌≡◌, refl, sym, ◌∙◌, ap, Bool, not, ◌&&◌, Option, none, some, some-injective, List, [],
  ◌∷◌, ◌++◌, ltb, arith, if-both, Option-cases, inl, inr,
}
use ha_hue_entertainment.Dtls.{Bytes}
use ha_hue_entertainment.Dtls.Session.{
  Call, ssl_new, ssl_shutdown, ssl_free, addr_new, addr_free, handshake_done, bio_new, set_bio,
  listen, do_handshake, ssl_read, dispatch, Ending, returned, raised, blocked, Run, ends,
  after_call, negative, zero, positive, Listened, Handshake, ReadResult, data_read, failed,
  is_want_read, by_result, SslError, not_listened, unless_blocked, Ret, goes_on, Read, Client,
  read_loop, handshake_loop, after_listen, listening, do_accept_and_stream, finally,
  accept_and_stream, accept_loop, serve_loop,
}

-- Where a session is: no SSL object; one; one and a BIO that nothing owns; one with its BIO; the same with
-- an address, to listen; one that has listened; one whose handshake is complete.
pub data Held : Type 0 where
  nothing ssl loose_bio ssl_with_bio with_addr heard streaming : Held

-- A call is in order when what it uses is held, and what it takes is not; a handshake comes behind the
-- listening, a read and a frame behind a complete handshake.
unfoldable pub after_use : Held → Call → Option Held
after_use nothing ssl_new = some ssl
after_use ssl bio_new = some loose_bio
after_use loose_bio set_bio = some ssl_with_bio
after_use ssl_with_bio addr_new = some with_addr
after_use with_addr listen = some with_addr
after_use with_addr addr_free = some heard
after_use heard do_handshake = some heard
after_use heard handshake_done = some streaming
after_use streaming ssl_read = some streaming
after_use streaming (dispatch frame) = some streaming
after_use ssl ssl_shutdown = some ssl
after_use ssl_with_bio ssl_shutdown = some ssl_with_bio
after_use heard ssl_shutdown = some heard
after_use streaming ssl_shutdown = some streaming
after_use ssl ssl_free = some nothing
after_use ssl_with_bio ssl_free = some nothing
after_use heard ssl_free = some nothing
after_use streaming ssl_free = some nothing
after_use h c = none

abbrev if_in_order : Option Held → (Held → Option Held) → Option Held
if_in_order none go_on = none
if_in_order (some h) go_on = go_on h

unfoldable pub held_after : Held → List Call → Option Held
unfolding after_use
held_after h [] = some h
held_after h (c ∷ cs) = if_in_order (after_use h c) (λ h'. held_after h' cs)

abbrev pub IsNothing : Held → Type 0
IsNothing nothing = Unit
IsNothing ssl = ⊥
IsNothing loose_bio = ⊥
IsNothing ssl_with_bio = ⊥
IsNothing with_addr = ⊥
IsNothing heard = ⊥
IsNothing streaming = ⊥

-- An SSL object, and no address or BIO beside it.
abbrev pub IsSession : Held → Type 0
IsSession nothing = ⊥
IsSession ssl = Unit
IsSession loose_bio = ⊥
IsSession ssl_with_bio = Unit
IsSession with_addr = ⊥
IsSession heard = Unit
IsSession streaming = Unit

-- All calls are in order; and unless the thread is still inside one, what is left satisfies the predicate.
abbrev pub Leaves : Ending → (Held → Type 0) → Option Held → Type 0
Leaves returned Left held = (h : Held) × (held ≡ some h) × Left h
Leaves raised Left held = (h : Held) × (held ≡ some h) × Left h
Leaves blocked Left held = (h : Held) × (held ≡ some h)

abbrev pub IsBalanced : Held → (Held → Type 0) → Run → Type 0
IsBalanced before Left r = Leaves r.ending Left (held_after before r.calls)

module _ (Left : Held → Type 0) where
  pub ends-IsBalanced : (h : Held) (e : Ending) → Left h → IsBalanced h Left (ends e)
  unfolding held_after
  ends-IsBalanced h returned l = (h, refl, l)
  ends-IsBalanced h raised l = (h, refl, l)
  ends-IsBalanced h blocked l = (h, refl)

  pub after_call-IsBalanced :
      (before next : Held) (c : Call) (r : Run)
      → after_use before c ≡ some next
      → IsBalanced next Left r
      → IsBalanced before Left (after_call c r)
  unfolding held_after
  after_call-IsBalanced before next c r u b = rw u b

held_after-append :
    (cs ds : List Call) (h next : Held)
    → held_after h cs ≡ some next
    → held_after h (cs ++ ds) ≡ held_after next ds
unfolding held_after
held_after-append [] ds h next e = ap (λ x. held_after x ds) (some-injective h next e)
held_after-append (c ∷ cs) ds h next e = elim (Option-cases (after_use h c)) [
  | inl p ↦
      (let n : none ≡ some next = sym (ap (λ o. if_in_order o (λ x. held_after x cs)) p) ∙ e in
        absurd (ground arith))
  | inr (h', p) ↦
      rw p (
        held_after-append cs ds h' next
          (sym (ap (λ o. if_in_order o (λ x. held_after x cs)) p) ∙ e))
]

nothing_only : (h : Held) → IsNothing h → h ≡ nothing
nothing_only nothing n = refl
nothing_only ssl n = absurd n
nothing_only loose_bio n = absurd n
nothing_only ssl_with_bio n = absurd n
nothing_only with_addr n = absurd n
nothing_only heard n = absurd n
nothing_only streaming n = absurd n

-- One run after another.
pub appended-IsBalanced :
    (before : Held) (e : Ending) (cs : List Call) (r : Run)
    → IsBalanced before IsNothing (record { calls = cs; ending = e })
    → IsBalanced nothing IsNothing r
    → IsBalanced before IsNothing
        (unless_blocked e (record { calls = cs; ending = e }) (record r { calls = cs ++ r.calls }))
appended-IsBalanced before returned cs r (h, b, n) b' =
    rw (held_after-append cs r.calls before nothing (b ∙ ap some (nothing_only h n))) b'
appended-IsBalanced before raised cs r (h, b, n) b' =
    rw (held_after-append cs r.calls before nothing (b ∙ ap some (nothing_only h n))) b'
appended-IsBalanced before blocked cs r b b' = b

shut_down : (h : Held) → IsSession h → held_after h (ssl_shutdown ∷ ssl_free ∷ []) ≡ some nothing
unfolding held_after after_use
shut_down nothing s = absurd s
shut_down ssl s = refl
shut_down loose_bio s = absurd s
shut_down ssl_with_bio s = refl
shut_down with_addr s = absurd s
shut_down heard s = refl
shut_down streaming s = refl

-- The `finally` that ends a session.
pub finally-IsBalanced :
    (before : Held) (e : Ending) (cs : List Call)
    → IsBalanced before IsSession (record { calls = cs; ending = e })
    → IsBalanced before IsNothing
        (finally (ssl_shutdown ∷ ssl_free ∷ []) (record { calls = cs; ending = e }))
finally-IsBalanced before returned cs (h, b, s) =
    (nothing, held_after-append cs (ssl_shutdown ∷ ssl_free ∷ []) before h b ∙ shut_down h s, tt)
finally-IsBalanced before raised cs (h, b, s) =
    (nothing, held_after-append cs (ssl_shutdown ∷ ssl_free ∷ []) before h b ∙ shut_down h s, tt)
finally-IsBalanced before blocked cs b = b
