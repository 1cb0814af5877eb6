-- ===== src/Engine/System/Deliver.antt =====
-- A packet on its way from the device of one engine to the device of another.
use net_hive.Prelude.{
  ◌<◌, ◌≡◌, refl, sym, ap, subst, ◌∙◌, Bool, true, false, some, [], ◌∷◌, ◌++◌, arith, ==_iff,
  if◌then◌else◌, Bytes, length, replicate, length-append,
}
use net_hive.Protocol.Parse.{WellFormed, decode}
use net_hive.Engine.{Net, Payload, PeerId, ChanRef, Maps, Engine, try_send, chan_size}
use net_hive.Engine.Conn.Tables.{Routes}
use net_hive.Engine.Conn.Queues.{Serves}
use net_hive.Engine.Conn.Lookup.{IsNet}
use net_hive.Engine.Routine.{
  RouterOutcome, broadcast, no_route, sent, full, ReaderOutcome, queued, queue_full, invalid,
  group_off, read_error, is_group, tun_reader, tun_writer, route_packet, payload_get, get_buffer,
  put_payload,
}
use net_hive.Engine.Routine.Reader.{Read, tun_reader_lem}
use net_hive.Engine.Routine.Router.{Routed, route_packet_lem}
use net_hive.Engine.Stream.{peer_receive, conn_loop}
use net_hive.Engine.Stream.Writes.{conn_loop-all_written}
use net_hive.Engine.System.Moves.{length-packets_of, packets_of, arrived, route_packet-Moved}

module _ (T : Maps) where
  -- A packet that is not for a group, at a device queue with room, is queued.
  tun_reader-queued :
      (packet : Bytes) (e : Engine T) (o : ReaderOutcome) (e' : Engine T)
      → Read T packet e e' o
      → WellFormed packet
      → is_group (decode packet).dst ≡ false
      → length e.dev_reader < chan_size
      → (o ≡ queued)
        × (p : Payload) × (p.bytes ≡ packet)
        × (p.dst ≡ (decode packet).dst)
        × (e'.dev_reader ≡ e.dev_reader ++ p ∷ [])
  tun_reader-queued packet e read_error e' r w single room = absurd r
  tun_reader-queued packet e invalid e' (bad, _, _) w single room = absurd (bad w)
  tun_reader-queued packet e group_off e' (_, group, _, _, _) w single room = cc (group, single)
  tun_reader-queued packet e queued e' (_, p, bytes, dst, _, last, _) w single room =
      (refl, p, bytes, dst, last)
  tun_reader-queued packet e queue_full e' (_, stuck, _, _) w single room =
      absurd (omega (arith, stuck, room))

  -- A packet that a peer routes to, at channels with room, is sent to a channel of such a peer.
  route_packet-sent :
      (p : Payload) (key : PeerId) (e : Engine T) (o : RouterOutcome) (e' : Engine T)
      → Routed T p e e' o
      → ((c : ChanRef)
          → packets_of (e'.net.chans c) ≡ packets_of (e.net.chans c) ++ arrived o c p.bytes)
      → is_group p.dst ≡ false
      → Routes T e.net.table.m key p.dst
      → ((c : ChanRef) → length (e.net.chans c) < chan_size)
      → (c : ChanRef) × (o ≡ sent c)
        × Serves T e'.net c p.dst
        × (packets_of (e'.net.chans c) ≡ packets_of (e.net.chans c) ++ p.bytes ∷ [])
  unfolding arrived
  route_packet-sent p key e broadcast e' (group, _) moved single to room = cc (rw single at group)
  route_packet-sent p key e no_route e' (alone, _) moved single to room = absurd (alone key to)
  route_packet-sent p key e (sent c) e' (serves, _, _, _) moved single to room = (
    c,
    refl,
    serves,
    moved c
        ∙ ap (λ (b : Bool). packets_of (e.net.chans c) ++ (if b then p.bytes ∷ [] else []))
            ((==_iff c c).1 refl),
  )
  route_packet-sent p key e (full c) e' (_, stuck, _, _) moved single to room = absurd (
      omega (
        arith,
        stuck,
        room c,
        length-packets_of (e.net.chans c),
        length-packets_of (e'.net.chans c),
        ap length (moved c),
        length-append (packets_of (e.net.chans c)) [],
      ))

  -- At the other end: a message goes to the device as it came.
  peer_receive-tun_writer :
      (msg : Bytes) (f : Engine T)
      → f.dev_writer ≡ []
      → (g : Engine T) × (h : Engine T) × (peer_receive T msg f ≡ some g)
        × (tun_writer T g ≡ some (msg, h))
  unfolding peer_receive tun_writer try_send
  peer_receive-tun_writer msg f idle =
      let (p, ps) = payload_get f.payloads in
      let g : Engine T = record (get_buffer T f) {
        payloads = ps;
        dev_writer = record p { bytes = msg } ∷ [];
      } in
      (
        g,
        put_payload T (record p { bytes = msg }) (record g { dev_writer = [] }),
        rw idle refl,
        refl,
      )

  -- The way of a packet from the device of `e` to that of `f`: the states and the channel on the
  -- way.
  pub record Delivered (packet : Bytes) (e f : Engine T) : Type 0 where
    pub after_read : Engine T
    pub payload : Payload
    pub chan : ChanRef
    pub after_route : Engine T
    pub read : tun_reader T (some packet) e ≡ some (queued, after_read)
    pub waits : after_read.dev_reader ≡ payload ∷ []
    pub routed :
        route_packet T payload (record after_read { dev_reader = [] }) ≡ (sent chan, after_route)
    pub serves : Serves T after_route.net chan (decode packet).dst
    pub to_peer :
        (conn_loop T chan (replicate (length (after_route.net.chans chan)) true) after_route).1
        ≡ packets_of (e.net.chans chan) ++ packet ∷ []
    pub received :
        (g : Engine T) × (h : Engine T) × (peer_receive T packet f ≡ some g)
        × (tun_writer T g ≡ some (packet, h))

  -- A packet is delivered. Let the device of an engine give a well-formed packet for an address
  -- that is no group, let a peer route to that address, let the engine's route table be valid, its
  -- device queue be empty and each channel have room. Then `RoutineTUNReader` queues the packet,
  -- `RoutineRouteTableWriter` puts it on the channel of a peer that routes to the address, and,
  -- when every write succeeds, the loop of `addConn` for that channel writes what waited there and
  -- then this packet, whole, to the stream. An engine that receives it while its `devWriter` is
  -- empty hands it to its device, byte for byte.
  pub delivered :
      (packet : Bytes) (key : PeerId) (e f : Engine T)
      → IsNet T e.net
      → WellFormed packet
      → is_group (decode packet).dst ≡ false
      → Routes T e.net.table.m key (decode packet).dst
      → e.dev_reader ≡ []
      → ((c : ChanRef) → length (e.net.chans c) < chan_size)
      → f.dev_writer ≡ []
      → Delivered packet e f
  delivered packet key e f v w single to empty room idle =
      let ((o, e1), read, (frame, is)) = tun_reader_lem T packet e in
      let (now, p, bytes, dst, last) =
        tun_reader-queued packet e o e1 is w single (rw empty (omega arith)) in
      let e1' : Engine T = record e1 { dev_reader = [] } in
      let out = route_packet T p e1' in
      let net : e1.net ≡ e.net = frame.net in
      let v' : IsNet T e1.net = subst (IsNet T) (sym net) v in
      let (c, is_sent, serves, moved) =
        route_packet-sent p key e1' out.0 out.1 (route_packet_lem T p e1' v').1
          (route_packet-Moved T p e1' v') (ap is_group dst ∙ single)
          (subst (λ (n : Net T). Routes T n.table.m key p.dst) (sym net)
            (subst (Routes T e.net.table.m key) (sym dst) to))
          (λ c. subst (λ (n : Net T). length (n.chans c) < chan_size) (sym net) (room c)) in
      record {
        after_read = e1;
        payload = p;
        chan = c;
        after_route = out.1;
        read = read ∙ ap (λ o. some (o, e1)) now;
        waits = last ∙ ap (λ q. q ++ p ∷ []) empty;
        routed = ap (λ o. (o, out.1)) is_sent;
        serves = subst (Serves T out.1.net c) dst serves;
        to_peer =
            (conn_loop-all_written T c out.1).1
            ∙ moved
            ∙ ap (λ (n : Net T). packets_of (n.chans c) ++ p.bytes ∷ []) net
            ∙ ap (λ b. packets_of (e.net.chans c) ++ b ∷ []) bytes;
        received = peer_receive-tun_writer packet f idle;
      }
