-- ===== src/Engine/System/Handed.antt =====
-- A buffer for every payload that waits: what the loops at the device's queue do to it.
use net_hive.Prelude.{
  subst_some, ℕ, ◌+◌, ◌≤◌, ◌≡◌, sym, ap, ◌∙◌, Option, none, some, List, [], ◌∷◌, ◌++◌, arith, Bytes,
  length, length-append,
}
use net_hive.Engine.{Payload, ChanRef, Maps, Engine}
use net_hive.Engine.System.Buffers.{total, total-same, total_more}
use net_hive.Engine.Conn.Lookup.{IsNet}
use net_hive.Engine.Routine.{
  RouterOutcome, broadcast, no_route, sent, full, ReaderOutcome, queued, queue_full, invalid,
  group_off, read_error, tun_reader, route_packet,
}
use net_hive.Engine.Routine.Reader.{Read, tun_reader_lem}
use net_hive.Engine.Routine.Router.{Routed, route_packet_lem, route_packet-SameDev}
use net_hive.Engine.System.Moves.{
  length-packets_of, packets_of, at_channel, arrived, route_packet-Moved,
}

module _ (T : Maps) where
  -- The pool has handed out a buffer for every payload that waits.
  abbrev pub Held : Engine T → Type 0
  Held e = (n : ℕ) → total n e.net.chans + length e.dev_reader + length e.dev_writer ≤ e.buffers

  pub carry-Held : {O : Type 0} (a b : O × Engine T) → some a ≡ some b → Held a.1 → Held b.1
  carry-Held {O} a b h v = subst_some (λ (x : O × Engine T). Held x.1) a b h v

  reader_outcome-Held :
      (packet : Bytes) (e e' : Engine T) (o : ReaderOutcome)
      → e'.net ≡ e.net
      → e'.dev_writer ≡ e.dev_writer
      → Read T packet e e' o
      → Held e
      → Held e'
  reader_outcome-Held packet e e' read_error net writer r v n = absurd r
  reader_outcome-Held packet e e' invalid net writer (_, reader, got) v n =
      rw (net, writer, reader, got) (omega (arith, v n))
  reader_outcome-Held packet e e' group_off net writer (_, _, _, reader, got) v n =
      rw (net, writer, reader, got) (omega (arith, v n))
  reader_outcome-Held packet e e' queued net writer (_, p, _, _, _, last, got) v n =
      rw (net, writer, last, got) (omega (arith, v n, length-append e.dev_reader (p ∷ [])))
  reader_outcome-Held packet e e' queue_full net writer (_, _, reader, got) v n =
      rw (net, writer, reader, got) (v n)

  pub read-Held :
      (e e' : Engine T) (r : Option Bytes) (o : ReaderOutcome)
      → tun_reader T r e ≡ some (o, e')
      → Held e
      → Held e'
  unfolding tun_reader
  read-Held e e' none o h v = carry-Held _ (o, e') h (λ n. omega (arith, v n))
  read-Held e e' (some packet) o h v =
      let ((o1, e1), got, (frame, what)) = tun_reader_lem T packet e in
      carry-Held (o1, e1) (o, e') (sym got ∙ h)
        (reader_outcome-Held packet e e1 o1 frame.net frame.dev_writer what v)

  router_outcome-Held :
      (p : Payload) (ps : List Payload) (e e' : Engine T) (o : RouterOutcome)
      → e.dev_reader ≡ p ∷ ps
      → Routed T p (record e { dev_reader = ps }) e' o
      → ((c : ChanRef)
          → packets_of (e'.net.chans c) ≡ packets_of (e.net.chans c) ++ arrived o c p.bytes)
      → e'.dev_reader ≡ ps
      → e'.dev_writer ≡ e.dev_writer
      → Held e
      → Held e'
  unfolding arrived
  router_outcome-Held p ps e e' broadcast queue (_, same) moved reader writer v n =
      rw same (omega (arith, v n, ap length queue))
  router_outcome-Held p ps e e' no_route queue (_, same) moved reader writer v n =
      rw same (omega (arith, v n, ap length queue))
  router_outcome-Held p ps e e' (sent c) queue (_, _, _, kept) moved reader writer v n =
      rw (reader, writer, kept)
        (omega (
          arith,
          v n,
          ap length queue,
          total_more c p.bytes e.net.chans e'.net.chans
              (λ d. omega (
                arith,
                ap length (moved d),
                length-append (packets_of (e.net.chans d)) (at_channel d c p.bytes),
                length-packets_of (e.net.chans d),
                length-packets_of (e'.net.chans d),
              ))
              n,
        ))
  router_outcome-Held p ps e e' (full c) queue (_, _, back, _) moved reader writer v n =
      rw (reader, writer, back)
        (omega (
          arith,
          v n,
          ap length queue,
          total-same n e.net.chans e'.net.chans (λ d. omega (
            arith,
            ap length (moved d),
            length-append (packets_of (e.net.chans d)) [],
            length-packets_of (e.net.chans d),
            length-packets_of (e'.net.chans d),
          )),
        ))

  pub route-Held :
      (e : Engine T) (p : Payload) (ps : List Payload)
      → IsNet T e.net
      → e.dev_reader ≡ p ∷ ps
      → Held e
      → Held (route_packet T p (record e { dev_reader = ps })).1
  route-Held e p ps v queue held =
      let e1 = record e { dev_reader = ps } in
      let out = route_packet T p e1 in
      let (reader, writer, _) = route_packet-SameDev T p e1 in
      router_outcome-Held p ps e out.1 out.0 queue (route_packet_lem T p e1 v).1
        (route_packet-Moved T p e1 v) reader writer held
