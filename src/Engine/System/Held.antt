-- ===== src/Engine/System/Held.antt =====
-- The buffers that the pool has handed out, and the payloads that wait with them.
use net_hive.Prelude.{
  ℕ, zero, suc, ◌+◌, ◌-◌, ◌≤◌, ◌≡◌, refl, sym, ap, inl, inr, some, List, [], ◌∷◌, arith, Bytes,
  Option-cases, length, length-append, List-cases, subst_some,
}
use net_hive.Engine.System.Handed.{Held, carry-Held, read-Held, route-Held}
use net_hive.Engine.{Payload, ChanRef, Maps, Engine, try_send, try_send-some}
use net_hive.Engine.System.Buffers.{total, total_less}
use net_hive.Engine.Conn.{exit_addr, exit_id}
use net_hive.Engine.Conn.Lookup.{IsNet}
use net_hive.Engine.Routine.{tun_writer, payload_get}
use net_hive.Engine.Stream.{peer_send, peer_receive}
use net_hive.Engine.System.{
  Step, read, route, write, dial, serve, send, receive, leave, end, IsStart, Reach, here, next,
}
use net_hive.Engine.System.Safety.{Reach-IsValid}
use net_hive.Engine.System.Moves.{length-packets_of, packets_of, at_channel, send-Balanced}

module _ (T : Maps) where
  write-Held : (e e' : Engine T) (b : Bytes) → tun_writer T e ≡ some (b, e') → Held T e → Held T e'
  unfolding tun_writer
  write-Held e e' b h v = elim (List-cases e.dev_writer) [
    | inl empty ↦ cc (rw (empty, tun_writer) at h)
    | inr (p, ps, queue) ↦
        carry-Held T _ (b, e') (rw (queue, tun_writer) at h)
          (λ n. omega (arith, v n, ap length queue))
  ]

  -- What a step of the writing loop leaves of the state.
  send-frame :
      (e e' : Engine T) (c : ChanRef) (b : Bytes)
      → peer_send T c e ≡ some (b, e')
      → (e'.dev_reader ≡ e.dev_reader)
        × (e'.dev_writer ≡ e.dev_writer)
        × (e'.buffers ≡ e.buffers - 1)
  unfolding peer_send
  send-frame e e' c b h = elim (List-cases (e.net.chans c)) [
    | inl empty ↦ cc (rw (empty, peer_send) at h)
    | inr (p, ps, queue) ↦ frame_after _ (b, e') (rw (queue, peer_send) at h) (refl, refl, refl)
  ]
    where
      frame_after :
          (x y : Bytes × Engine T)
          → some x ≡ some y
          → (x.1.dev_reader ≡ e.dev_reader)
            × (x.1.dev_writer ≡ e.dev_writer)
            × (x.1.buffers ≡ e.buffers - 1)
          → (y.1.dev_reader ≡ e.dev_reader)
            × (y.1.dev_writer ≡ e.dev_writer)
            × (y.1.buffers ≡ e.buffers - 1)
      frame_after x y h t = let same : x ≡ y = cc (h) in rw (← same) t

  sent-total :
      (e e' : Engine T) (c : ChanRef) (b : Bytes)
      → peer_send T c e ≡ some (b, e')
      → (d : ChanRef) → length (e.net.chans d) ≡ length (e'.net.chans d) + length (at_channel d c b)
  sent-total e e' c b h d = omega (
    arith,
    ap length (send-Balanced T e e' c b h d),
    length-append (packets_of (e.net.chans d)) [],
    length-append (at_channel d c b) (packets_of (e'.net.chans d)),
    length-packets_of (e.net.chans d),
    length-packets_of (e'.net.chans d),
  )

  send-Held :
      (e e' : Engine T) (c : ChanRef) (b : Bytes)
      → peer_send T c e ≡ some (b, e')
      → Held T e
      → Held T e'
  send-Held e e' c b h v n =
      let (reader, writer, back) = send-frame e e' c b h in
      let (m, less) = total_less c b e'.net.chans e.net.chans (sent-total e e' c b h) n in
      rw (reader, writer, back) (omega (arith, v m, less))

  receive-Held :
      (e e' : Engine T) (msg : Bytes) → peer_receive T msg e ≡ some e' → Held T e → Held T e'
  unfolding peer_receive
  receive-Held e e' msg h v =
      let p = record (payload_get e.payloads).0 { bytes = msg } in
      elim (Option-cases (try_send e.dev_writer p)) [
        | inl stuck ↦ cc (rw stuck at h)
        | inr (q, room) ↦
            let (is, small) = try_send-some e.dev_writer p q room in
            subst_some (Held T) _ e' (rw room at h)
              (λ n. omega (arith, v n, ap length is, length-append e.dev_writer (p ∷ [])))
      ]

  Step-Held : {e e' : Engine T} → Step T e e' → IsNet T e.net → Held T e → Held T e'
  unfolding exit_addr exit_id
  Step-Held {e} {e'} (read r o h) v held = read-Held T e e' r o h held
  Step-Held {e} {e'} (route p ps h same) v held = rw same (route-Held T e p ps v h held)
  Step-Held {e} {e'} (write b h) v held = write-Held e e' b h held
  Step-Held {e} {e'} (send c b w h) v held = send-Held e e' c b h held
  Step-Held {e} {e'} (receive msg h) v held = receive-Held e e' msg h held
  Step-Held {e} {e'} (dial c w at runs same) v held = rw same held
  Step-Held {e} {e'} (serve id c takes same) v held = rw same held
  Step-Held {e} {e'} (leave c w at runs same) v held = rw same held
  Step-Held {e} {e'} (end c w at leaves same) v held = rw same held

  start-Held : {e : Engine T} → IsStart T e → Held T e
  unfolding total
  start-Held {e} s n = rw (s.reader_empty, s.writer_empty) (omega (arith, nothing n))
    where
      nothing : (n : ℕ) → total n e.net.chans ≡ 0
      nothing zero = refl
      nothing (suc n) = omega (arith, nothing n, ap length (s.no_queues n))

  Reach-Held : {e e' : Engine T} → IsStart T e → Reach T e e' → Held T e'
  Reach-Held s here = start-Held s
  Reach-Held s (next r st) = Step-Held st (Reach-IsValid T s r).net (Reach-Held s r)

  written-buffers :
      (e e' : Engine T) (b : Bytes)
      → tun_writer T e ≡ some (b, e')
      → (e'.buffers ≡ e.buffers - 1) × (1 ≤ length e.dev_writer)
  unfolding tun_writer
  written-buffers e e' b h = elim (List-cases e.dev_writer) [
    | inl empty ↦ cc (rw (empty, tun_writer) at h)
    | inr (p, ps, queue) ↦
        (buffers_after _ (b, e') (rw (queue, tun_writer) at h), omega (arith, ap length queue))
  ]
    where
      buffers_after : (x y : Bytes × Engine T) → some x ≡ some y → y.1.buffers ≡ x.1.buffers
      buffers_after x y h =
          let same : x ≡ y = cc (h) in ap (λ (z : Bytes × Engine T). z.1.buffers) (sym same)

  -- No buffer goes back to the pool that is not out. In every state that the goroutines reach from
  -- a start without connections and with empty queues, the pool has handed out, and not got back,
  -- at least one buffer for every payload that waits in the device's two channels and in any number
  -- of the peers' channels; so an iteration of `RoutineTUNWriter`, or of the writing loop of a
  -- peer, brings back exactly one that was out, and there is one for a payload that the router is
  -- about to take.
  pub buffers_held :
      {e e' : Engine T}
      → IsStart T e
      → Reach T e e'
      → ((n : ℕ) → total n e'.net.chans + length e'.dev_reader + length e'.dev_writer ≤ e'.buffers)
        × ((b : Bytes) (f : Engine T) → tun_writer T e' ≡ some (b, f) → f.buffers + 1 ≡ e'.buffers)
        × ((c : ChanRef) (b : Bytes) (f : Engine T)
            → peer_send T c e' ≡ some (b, f)
            → f.buffers + 1 ≡ e'.buffers)
        × ((p : Payload) (ps : List Payload) → e'.dev_reader ≡ p ∷ ps → 1 ≤ e'.buffers)
  buffers_held {e} {e'} s r =
      let held = Reach-Held s r in
      (
        held,
        λ b f h.
            let (back, some_left) = written-buffers e' f b h in
            omega (arith, held 0, back, some_left),
        λ c b f h.
            let (_, _, back) = send-frame e' f c b h in
            let (m, less) = total_less c b f.net.chans e'.net.chans (sent-total e' f c b h) 0 in
            omega (arith, held m, back, less),
        λ p ps queue. omega (arith, held 0, ap length queue),
      )
