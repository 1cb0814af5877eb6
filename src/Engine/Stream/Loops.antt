-- ===== src/Engine/Stream/Loops.antt =====
-- What the writing loops of a stream take from a channel, and what reaches the peer.
use net_hive.Prelude.{
  suc, ◌-◌, ◌≤◌, min, ◌≡◌, refl, sym, ap, ◌∙◌, ◌≢◌, ◌⊎◌, inl, inr, Bool, true, false, none, some,
  List, [], ◌∷◌, arith, if◌then◌else◌, Bytes, Bool-cases, Option-cases, length, drop, List-cases,
}
use net_hive.Engine.{Payload, ChanRef, Maps, update, update_self, update_ne, Engine}
use net_hive.Engine.Routine.{put_payload}
use net_hive.Engine.Stream.{peer_send, handler_loop, conn_loop}
use net_hive.Engine.System.Moves.{packets_of}

-- The packets whose write succeeds.
unfoldable pub written : List Bool → List Bytes → List Bytes
written [] bs = []
written (o ∷ os) [] = []
written (o ∷ os) (b ∷ bs) = let rest = written os bs in if o then b ∷ rest else rest

-- The outcomes up to the first error.
unfoldable pub up_to_error : List Bool → List Bool
up_to_error [] = []
up_to_error (o ∷ os) = o ∷ (let rest = up_to_error os in if o then rest else [])

unfoldable pub has_error : List Bool → Bool
has_error [] = false
has_error (o ∷ os) = let rest = has_error os in if o then rest else true

module _ (T : Maps) where
  -- The channel after one iteration, and what the loop leaves alone.
  pub record Only (c : ChanRef) (e e' : Engine T) : Type 0 where
    pub table : e'.net.table ≡ e.net.table
    pub workers : e'.net.workers ≡ e.net.workers
    pub chans : (d : ChanRef) → d ≢ c → e'.net.chans d ≡ e.net.chans d
    pub dev_reader : e'.dev_reader ≡ e.dev_reader
    pub dev_writer : e'.dev_writer ≡ e.dev_writer
    pub streams : e'.streams ≡ e.streams

  pub Only-refl : (c : ChanRef) (e : Engine T) → Only c e e
  Only-refl c e = record {
    table = refl;
    workers = refl;
    chans = λ d ne. refl;
    dev_reader = refl;
    dev_writer = refl;
    streams = refl;
  }

  pub Only-trans : {c : ChanRef} {e f g : Engine T} → Only c e f → Only c f g → Only c e g
  Only-trans o p = record {
    table = p.table ∙ o.table;
    workers = p.workers ∙ o.workers;
    chans = λ d ne. p.chans d ne ∙ o.chans d ne;
    dev_reader = p.dev_reader ∙ o.dev_reader;
    dev_writer = p.dev_writer ∙ o.dev_writer;
    streams = p.streams ∙ o.streams;
  }

  -- One iteration.
  pub peer_send-some :
      (c : ChanRef) (e : Engine T) (p : Payload) (ps : List Payload)
      → e.net.chans c ≡ p ∷ ps
      → (e' : Engine T) × (peer_send T c e ≡ some (p.bytes, e'))
        × (e'.net.chans c ≡ ps)
        × (e'.buffers ≡ e.buffers - 1)
        × Only c e e'
  unfolding peer_send
  peer_send-some c e p ps queue = (
    put_payload T p (record e { net = record e.net { chans = update e.net.chans c ps } }),
    rw (queue, peer_send) refl,
    update_self e.net.chans c ps,
    refl,
    record {
      table = refl;
      workers = refl;
      chans = λ d ne. update_ne e.net.chans c d ps ne;
      dev_reader = refl;
      dev_writer = refl;
      streams = refl;
    },
  )

  pub peer_send-none : (c : ChanRef) (e : Engine T) → e.net.chans c ≡ [] → peer_send T c e ≡ none
  unfolding peer_send
  peer_send-none c e empty = rw (empty, peer_send) refl

  -- What a loop comes to at outcomes of `WriteMsg`: the peer gets the packets of the channel whose
  -- write succeeded, in order, and one packet leaves the channel for each outcome.
  pub record Wrote (os : List Bool) (c : ChanRef) (e : Engine T) (bs : List Bytes) (e' : Engine T)
      : Type 0 where
    pub sent : bs ≡ written os (packets_of (e.net.chans c))
    pub left : e'.net.chans c ≡ drop (length os) (e.net.chans c)
    pub buffers : e'.buffers ≡ e.buffers - min (length os) (length (e.net.chans c))
    pub only : Only c e e'

  Wrote-done :
      (os : List Bool) (c : ChanRef) (e : Engine T)
      → (os ≡ []) ⊎ (e.net.chans c ≡ [])
      → Wrote os c e [] e
  unfolding written packets_of
  Wrote-done [] c e done = record {
    sent = refl;
    left = refl;
    buffers = omega arith;
    only = Only-refl c e;
  }
  Wrote-done (o ∷ os) c e done = elim done [
    | inl done_now ↦ cc (done_now)
    | inr empty ↦ record {
      sent = rw empty refl;
      left = empty ∙ sym (ap (λ l. drop (suc (length os)) l) empty);
      buffers = rw empty (omega arith);
      only = Only-refl c e;
    }
  ]

  -- One outcome more, at a channel that is not empty.
  Wrote-more :
      (o : Bool) (os : List Bool) (c : ChanRef) (e : Engine T) (p : Payload) (ps : List Payload)
      → e.net.chans c ≡ p ∷ ps
      → (e' : Engine T) × (peer_send T c e ≡ some (p.bytes, e'))
        × ((bs : List Bytes) (f : Engine T)
            → Wrote os c e' bs f
            → Wrote (o ∷ os) c e (if o then p.bytes ∷ bs else bs) f)
  unfolding written packets_of
  Wrote-more o os c e p ps queue =
      let (e', sent, after, buffers, only) = peer_send-some c e p ps queue in
      (
        e',
        sent,
        λ bs f w. record {
          sent = rw queue (
              ap (λ l. if o then p.bytes ∷ l else l)
                (w.sent ∙ ap (λ l. written os (packets_of l)) after));
          left = rw queue (w.left ∙ ap (drop (length os)) after);
          buffers = omega (arith, ap length queue, ap length after, w.buffers, buffers);
          only = Only-trans only w.only;
        },
      )

  -- The writing loop of `VPNHandler`, at any outcomes of its calls of `WriteMsg`.
  pub handler_loop_lem :
      (os : List Bool) (c : ChanRef) (e : Engine T)
      → Wrote os c e (handler_loop T c os e).0 (handler_loop T c os e).1
  unfolding handler_loop
  handler_loop_lem [] c e = Wrote-done [] c e (inl refl)
  handler_loop_lem (o ∷ os) c e = elim (List-cases (e.net.chans c)) [
    | inl empty ↦ rw (peer_send-none c e empty, handler_loop) (Wrote-done (o ∷ os) c e (inr empty))
    | inr (p, ps, queue) ↦
        let (e', sent, more) = Wrote-more o os c e p ps queue in
        let wrote = more _ _ (handler_loop_lem os c e') in
        elim (Bool-cases o) [
          | inl good ↦ rw (sent, good, handler_loop) (rw good at wrote)
          | inr bad ↦ rw (sent, bad, handler_loop) (rw bad at wrote)
        ]
  ]

  -- The loop of `addConn` is that of `VPNHandler` cut off after the first error.
  conn_loop-handler_loop :
      (os : List Bool) (c : ChanRef) (e : Engine T)
      → (conn_loop T c os e).1 ≡ (handler_loop T c (up_to_error os) e).0
        × ((conn_loop T c os e).2 ≡ (handler_loop T c (up_to_error os) e).1)
  unfolding conn_loop handler_loop up_to_error
  conn_loop-handler_loop [] c e = (refl, refl)
  conn_loop-handler_loop (o ∷ os) c e = elim (Option-cases (peer_send T c e)) [
    | inl empty ↦ rw (empty, conn_loop, handler_loop) (refl, refl)
    | inr ((b, e'), sent) ↦
        let (same, after) = conn_loop-handler_loop os c e' in
        elim (Bool-cases o) [
          | inl good ↦ rw (sent, good, conn_loop, handler_loop) (ap (λ l. b ∷ l) same, after)
          | inr bad ↦ rw (sent, bad, conn_loop, handler_loop) (refl, refl)
        ]
  ]

  -- The loop of `addConn` returns exactly if a write fails.
  pub conn_loop-returned :
      (os : List Bool) (c : ChanRef) (e : Engine T)
      → length os ≤ length (e.net.chans c)
      → (conn_loop T c os e).0 ≡ has_error os
  unfolding conn_loop has_error
  conn_loop-returned [] c e room = refl
  conn_loop-returned (o ∷ os) c e room = elim (List-cases (e.net.chans c)) [
    | inl empty ↦ absurd (omega (arith, room, ap length empty))
    | inr (p, ps, queue) ↦
        let (e', sent, after, _, _) = peer_send-some c e p ps queue in
        let rest =
          conn_loop-returned os c e' (omega (arith, room, ap length queue, ap length after)) in
        elim (Bool-cases o) [
          | inl good ↦ rw (sent, good, conn_loop) rest
          | inr bad ↦ rw (sent, bad, conn_loop) refl
        ]
  ]

  -- The writing loop of `addConn`, at any outcomes of its calls of `WriteMsg`.
  pub conn_loop_lem :
      (os : List Bool) (c : ChanRef) (e : Engine T)
      → Wrote (up_to_error os) c e (conn_loop T c os e).1 (conn_loop T c os e).2
  conn_loop_lem os c e =
      let (sent, after) = conn_loop-handler_loop os c e in
      rw (sent, after) (handler_loop_lem (up_to_error os) c e)
