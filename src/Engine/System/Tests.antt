-- ===== src/Engine/System/Tests.antt =====
-- Runs of the goroutines from the first packet to the stream of its peer.
use net_hive.Prelude.{
  ℕ, ◌+◌, ◌≤◌, ◌≡◌, refl, inl, true, false, Option, none, some, List, [], ◌∷◌, ◌++◌, arith, Bytes,
  bytes_eq, length, replicate, slice,
}
use net_hive.XMap.Assoc
use net_hive.Netip.{is_multicast, is_link_local_multicast}
use net_hive.Engine.Routine.{tun_writer, is_group, queued}
use net_hive.Engine.Conn.Tables.{Routes}
use net_hive.Protocol.Parse.{WellFormed, version_of, decode}
use net_hive.Engine.{Payload, ChanRef, PeerId, Engine}
use net_hive.Engine.Tests.{
  maps, peer_b, addr_b, start, packet, payload, after_route, start-IsStart, reached, start-IsNet,
  after_read, tun_reader-start, worker, route_packet_first,
}
use net_hive.Engine.Stream.{peer_send, handler_loop, conn_loop, vpn_handler, read_loop}
use net_hive.Engine.System.{Reach, Runs, read, dial, here, next}
use net_hive.Engine.Stream.Handler.{Handled, vpn_handler_lem}
use net_hive.Engine.Stream.Reads.{received, has_error, read_loop_lem}
use net_hive.Engine.Stream.Writes.{conn_loop-all_written, handler_loop-loses}
use net_hive.Engine.System.Moves.{packets_of}
use net_hive.Engine.System.Buffers.{total}
use net_hive.Engine.System.Held.{buffers_held}
use net_hive.Engine.System.Drain.{IsDraining, followed_by}
use net_hive.Engine.System.Progress.{queues_drain}
use net_hive.Engine.System.Order.{all_entered, all_left}
use net_hive.Engine.System.Carried.{reader_in, reader_out, writer_in, writer_out}
use net_hive.Engine.System.DeviceOrder.{all_passed, queues_in_order}
use net_hive.Engine.System.Deliver.{Delivered, delivered}
use net_hive.Engine.Spec.{view, VpnRun}
use net_hive.Engine.Spec.Refine.{trace, refines_queues}

refines_queues_example :
    ((k : PeerId) → (view maps start.net).waiting k ≡ [])
    × ((k : PeerId) (c : ChanRef) → (view maps start.net).given_up k c ≡ [])
    × VpnRun maps start.enable_broadcast
        (view maps start.net)
        (trace maps reached)
        (view maps after_route.net)
refines_queues_example = refines_queues maps start-IsStart reached

conn_loop-all_written_example :
    ((conn_loop maps 0 (replicate (length (after_route.net.chans 0)) true) after_route).0 ≡ false)
    × ((conn_loop maps 0 (replicate (length (after_route.net.chans 0)) true) after_route).1
        ≡ packets_of (after_route.net.chans 0))
    × (peer_send maps 0
          (conn_loop maps 0 (replicate (length (after_route.net.chans 0)) true) after_route).2
        ≡ none)
conn_loop-all_written_example = conn_loop-all_written maps 0 after_route

abbrev broken : Engine maps
broken = record start { net = record start.net { chans = λ _. payload ∷ payload ∷ [] } }

handler_loop-loses_example :
    ((handler_loop maps 0 (false ∷ false ∷ []) broken).0 ≡ [])
    × ((handler_loop maps 0 (false ∷ false ∷ []) broken).1.net.chans 0 ≡ [])
    × ((conn_loop maps 0 (false ∷ false ∷ []) broken).0 ≡ true)
    × ((conn_loop maps 0 (false ∷ false ∷ []) broken).1 ≡ [])
    × ((conn_loop maps 0 (false ∷ false ∷ []) broken).2.net.chans 0 ≡ payload ∷ [])
handler_loop-loses_example = handler_loop-loses maps 0 payload (payload ∷ []) broken refl

packet-WellFormed : WellFormed packet
unfolding version_of slice
packet-WellFormed = (omega arith, inl refl)

packet_single : is_group (decode packet).dst ≡ false
unfolding is_group is_multicast is_link_local_multicast decode version_of
packet_single = refl

packet-Routes : Routes maps start.net.table.m peer_b (decode packet).dst
unfolding Assoc.load bytes_eq decode version_of
packet-Routes = record { value = record { addr = addr_b; bits = 24 }; known = refl; same = refl }

delivered_example : Delivered maps packet start start
delivered_example =
    delivered maps packet peer_b start start start-IsNet packet-WellFormed packet_single
      packet-Routes refl (λ c. omega arith) refl

vpn_handler_lem_example :
    Handled maps peer_b after_route.net (vpn_handler maps peer_b after_route.net)
vpn_handler_lem_example = vpn_handler_lem maps start-IsStart reached peer_b

-- Two messages and then an error.
abbrev messages : List (Option Bytes)
messages = some packet ∷ some (1 ∷ []) ∷ none ∷ some (2 ∷ []) ∷ []

read_loop_lem_example :
    ((read_loop maps messages start).0 ≡ has_error messages)
    × (packets_of (read_loop maps messages start).1.dev_writer
        ≡ packets_of start.dev_writer ++ received messages)
    × ((read_loop maps messages start).1.net ≡ start.net)
    × ((read_loop maps messages start).1.dev_reader ≡ start.dev_reader)
    × Reach maps start (read_loop maps messages start).1
read_loop_lem_example = read_loop_lem maps messages start (omega arith)

-- The first packet is read, and not yet routed.
abbrev read_first : Reach maps start after_read
read_first = next here (read (some packet) queued tun_reader-start)

buffers_held_example :
    ((n : ℕ)
      → total n after_route.net.chans
          + length after_route.dev_reader
          + length after_route.dev_writer
        ≤ after_route.buffers)
    × ((b : Bytes) (f : Engine maps)
        → tun_writer maps after_route ≡ some (b, f)
        → f.buffers + 1 ≡ after_route.buffers)
    × ((c : ChanRef) (b : Bytes) (f : Engine maps)
        → peer_send maps c after_route ≡ some (b, f)
        → f.buffers + 1 ≡ after_route.buffers)
    × ((p : Payload) (ps : List Payload)
        → after_route.dev_reader ≡ p ∷ ps
        → 1 ≤ after_route.buffers)
buffers_held_example = buffers_held maps start-IsStart reached

queues_in_order_example :
    (all_passed maps reader_in reached
      ≡ all_passed maps reader_out reached ++ packets_of after_route.dev_reader)
    × ((c : ChanRef)
        → all_entered maps reached c
          ≡ all_left maps reached c ++ packets_of (after_route.net.chans c))
    × (all_passed maps writer_in reached
        ≡ all_passed maps writer_out reached ++ packets_of after_route.dev_writer)
queues_in_order_example = queues_in_order maps start-IsStart reached

-- The goroutine of the channel has found its peer.
abbrev after_dial : Engine maps
after_dial = record after_route { streams = 0 ∷ after_route.streams }

reached_dial : Reach maps start after_dial
reached_dial = next reached (dial 0 worker (route_packet_first.2) refl refl)

queues_drain_example :
    (g : Engine maps) × (d : Reach maps after_dial g) × IsDraining maps d
    × (all_passed maps reader_out (followed_by maps reached_dial d)
        ≡ all_passed maps reader_in reached_dial)
    × (all_passed maps writer_out (followed_by maps reached_dial d)
        ≡ all_passed maps writer_in reached_dial)
    × ((c : ChanRef)
        → Runs maps g c
        → all_left maps (followed_by maps reached_dial d) c
          ≡ all_entered maps (followed_by maps reached_dial d) c)
queues_drain_example = queues_drain maps start-IsStart reached_dial
