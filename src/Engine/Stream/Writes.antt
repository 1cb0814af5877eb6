-- ===== src/Engine/Stream/Writes.antt =====
-- Whether the packets of a channel reach the stream, at good and at failing writes.
use net_hive.Prelude.{
  ℕ, zero, suc, ◌≤◌, ◌≡◌, refl, ap, subst, ◌∙◌, true, false, none, List, [], ◌∷◌, arith, Bytes,
  length, drop, replicate, length-replicate,
}
use net_hive.Engine.{Payload, ChanRef, Maps, Engine}
use net_hive.Engine.Stream.{peer_send, handler_loop, conn_loop}
use net_hive.Engine.Stream.Loops.{
  written, up_to_error, has_error, peer_send-none, Wrote, handler_loop_lem, conn_loop_lem,
  conn_loop-returned,
}
use net_hive.Engine.System.Moves.{packets_of}

up_to_error-good : (n : ℕ) → up_to_error (replicate n true) ≡ replicate n true
unfolding up_to_error
up_to_error-good zero = refl
up_to_error-good (suc n) = ap (λ l. true ∷ l) (up_to_error-good n)

written-good :
    (n : ℕ) (ps : List Payload)
    → length ps ≤ n
    → written (replicate n true) (packets_of ps) ≡ packets_of ps
unfolding written packets_of
written-good zero [] le = refl
written-good zero (p ∷ ps) le = absurd (omega (arith, le))
written-good (suc n) [] le = refl
written-good (suc n) (p ∷ ps) le = ap (λ l. p.bytes ∷ l) (written-good n ps (omega (arith, le)))

written-bad : (n : ℕ) (bs : List Bytes) → written (replicate n false) bs ≡ []
unfolding written
written-bad zero bs = refl
written-bad (suc n) [] = refl
written-bad (suc n) (b ∷ bs) = written-bad n bs

drop_all : {A : Type 0} (n : ℕ) (xs : List A) → length xs ≤ n → drop n xs ≡ []
drop_all zero [] le = refl
drop_all zero (x ∷ xs) le = absurd (omega (arith, le))
drop_all (suc n) [] le = refl
drop_all (suc n) (x ∷ xs) le = drop_all n xs (omega (arith, le))

has_error-good : (n : ℕ) → has_error (replicate n true) ≡ false
unfolding has_error
has_error-good zero = refl
has_error-good (suc n) = has_error-good n

module _ (T : Maps) where
  -- The writing loop of `addConn` terminates in waiting: when every call of `WriteMsg` succeeds, as
  -- many iterations as packets wait in the channel write all of them to the peer, in order, after
  -- which the channel is empty, the loop waits, and it has not returned.
  pub conn_loop-all_written :
      (c : ChanRef) (e : Engine T)
      → let n = length (e.net.chans c) in
        let out = conn_loop T c (replicate n true) e in
        (out.0 ≡ false) × (out.1 ≡ packets_of (e.net.chans c)) × (peer_send T c out.2 ≡ none)
  conn_loop-all_written c e =
      let n = length (e.net.chans c) in
      let w =
        subst
          (λ os.
            Wrote T os c e (conn_loop T c (replicate n true) e).1
              (conn_loop T c (replicate n true) e).2)
          (up_to_error-good n) (conn_loop_lem T (replicate n true) c e) in
      (
        conn_loop-returned T (replicate n true) c e (omega (arith, length-replicate n true))
            ∙ has_error-good n,
        w.sent ∙ written-good n (e.net.chans c) (omega arith),
        peer_send-none T c _ (
            w.left
            ∙ drop_all (length (replicate n true)) (e.net.chans c)
                (omega (arith, length-replicate n true))),
      )

  -- At a broken stream, where every call of `WriteMsg` fails, the loop of `VPNHandler` goes on: it
  -- takes each packet that waits in the channel, and none of them reaches the peer. The loop of
  -- `addConn` returns at the first, and the others stay in the channel.
  pub handler_loop-loses :
      (c : ChanRef) (p : Payload) (ps : List Payload) (e : Engine T)
      → e.net.chans c ≡ p ∷ ps
      → let os = replicate (length (e.net.chans c)) false in
        let handler = handler_loop T c os e in
        let conn = conn_loop T c os e in
        (handler.0 ≡ [])
        × (handler.1.net.chans c ≡ [])
        × (conn.0 ≡ true)
        × (conn.1 ≡ [])
        × (conn.2.net.chans c ≡ ps)
  unfolding up_to_error has_error written packets_of
  handler_loop-loses c p ps e queue =
      let n = length (e.net.chans c) in
      let os = replicate n false in
      let w = handler_loop_lem T os c e in
      let v = conn_loop_lem T os c e in
      (
        w.sent ∙ written-bad n (packets_of (e.net.chans c)),
        w.left ∙ drop_all (length os) (e.net.chans c) (omega (arith, length-replicate n false)),
        conn_loop-returned T os c e (omega (arith, length-replicate n false))
            ∙ ap (λ (l : List Payload). has_error (replicate (length l) false)) queue,
        v.sent
            ∙ ap
                (λ (l : List Payload).
                  written (up_to_error (replicate (length l) false)) (packets_of l))
                queue,
        v.left
            ∙ ap (λ (l : List Payload). drop (length (up_to_error (replicate (length l) false))) l)
                queue,
      )
