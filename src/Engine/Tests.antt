-- ===== src/Engine/Tests.antt =====
-- A packet from the device to the channel of the peer that owns its address.
use net_hive.Prelude.{
  ◌≡◌, refl, ◌⊎◌, false, none, some, List, [], ◌∷◌, Bytes, bytes_eq, bytes_eq_refl, bytes_eq_sound,
  replicate, slice, All, ok, err,
}
use net_hive.Netip.{
  Addr, ip4, addr_eq, addr_eq_refl, addr_eq_sound, Prefix, is_multicast, is_link_local_multicast,
}
use net_hive.Protocol.{parse_ip, parse_version, parse_ipv4, release_ip}
use net_hive.Protocol.Header.{ipv4_packet}
use net_hive.XMap.Assoc
use net_hive.XMap.Assoc.{assoc}
use net_hive.Engine.{Payload, PeerId, ChanRef, Maps, running, Worker, Engine, try_send, new_payload}
use net_hive.Engine.Conn.{conn_for, range_routes, add_conn_by_dst, no_route}
use net_hive.Engine.Conn.Queues.{Serves}
use net_hive.Engine.Routine.{
  queued, sent, is_group, enqueue, reader_parsed, tun_reader, send_to_peer, router_connected,
  route_packet, ReaderOutcome,
}
use net_hive.Engine.System.{read, route, IsStart, Reach, here, next}
use net_hive.Engine.Conn.Tables.{Routes}
use net_hive.Engine.Conn.Lookup.{IsNet, Connected, add_conn_by_dst_lem}
use net_hive.Engine.Routine.Reader.{ReadAll, tun_reader_lem}
use net_hive.Engine.Routine.Router.{RoutedAll, route_packet_lem}
use net_hive.Engine.System.Safety.{Reach-IsValid, never_misdelivered, one_worker, addr_current}

abbrev pub maps : Maps
maps = record {
  m = assoc bytes_eq bytes_eq_refl bytes_eq_sound;
  id = assoc bytes_eq bytes_eq_refl bytes_eq_sound;
  addr = assoc addr_eq addr_eq_refl addr_eq_sound;
}

abbrev peer_a : PeerId
peer_a = 65 ∷ []

abbrev pub peer_b : PeerId
peer_b = 66 ∷ []

abbrev pub addr_b : Addr
addr_b = ip4 (10 ∷ 0 ∷ 0 ∷ 2 ∷ [])

abbrev routes : List (PeerId × Prefix)
routes =
    (peer_a, record { addr = ip4 (10 ∷ 0 ∷ 0 ∷ 1 ∷ []); bits = 24 })
    ∷ (peer_b, record { addr = addr_b; bits = 24 })
    ∷ []

abbrev pub start : Engine maps
start = record {
  enable_broadcast = false;
  net = record {
    table = record { m = routes; id = []; addr = [] };
    chans = λ _. [];
    workers = λ _. none;
    fresh = 0;
  };
  dev_reader = [];
  dev_writer = [];
  buffers = 0;
  payloads = [];
  packets = [];
  streams = [];
  handlers = [];
}

abbrev pub packet : Bytes
packet = ipv4_packet 5 (replicate 11 0) (10 ∷ 0 ∷ 0 ∷ 9 ∷ []) (10 ∷ 0 ∷ 0 ∷ 2 ∷ []) (1 ∷ 2 ∷ [])

abbrev pub payload : Payload
payload = record new_payload { dst = addr_b; bytes = packet }

abbrev pub after_read : Engine maps
after_read = record start {
  dev_reader = payload ∷ [];
  buffers = 1;
  packets = record { version = 4; src = ip4 (10 ∷ 0 ∷ 0 ∷ 9 ∷ []); dst = addr_b } ∷ [];
}

abbrev pub after_route : Engine maps
after_route = (route_packet maps payload (record after_read { dev_reader = [] })).1

pub tun_reader-start : tun_reader maps (some packet) start ≡ some (queued, after_read)
unfolding tun_reader parse_ip parse_version parse_ipv4 reader_parsed enqueue release_ip is_group
    is_multicast is_link_local_multicast try_send slice
tun_reader-start = refl

-- The packet waits in the first channel, which the peer's goroutine serves.
pub route_packet_first :
    ((route_packet maps payload (record after_read { dev_reader = [] })).0 ≡ sent 0)
    × (after_route.net.chans 0 ≡ payload ∷ [])
    × (after_route.net.workers 0
        ≡ some (record { key = peer_b; dst = some addr_b; phase = running }))
unfolding route_packet is_group is_multicast is_link_local_multicast Assoc.load add_conn_by_dst
    range_routes Assoc.range Assoc.remove bytes_eq addr_eq conn_for router_connected send_to_peer
    try_send
route_packet_first = (refl, refl, refl)

addr_b_found : maps.addr.load after_route.net.table.addr addr_b ≡ some 0
unfolding route_packet is_group is_multicast is_link_local_multicast Assoc.load add_conn_by_dst
    range_routes Assoc.range Assoc.remove bytes_eq addr_eq conn_for router_connected send_to_peer
    try_send
addr_b_found = refl

pub start-IsStart : IsStart maps start
start-IsStart = record {
  no_workers = λ c. refl;
  no_queues = λ c. refl;
  id_empty = refl;
  addr_empty = refl;
  reader_empty = refl;
  writer_empty = refl;
  no_streams = refl;
  no_handlers = refl;
}

pub reached : Reach maps start after_route
reached = next (next here (read (some packet) queued tun_reader-start)) (route payload [] refl refl)

never_misdelivered_example :
    All (λ p. Serves maps after_route.net 0 p.dst) (after_route.net.chans 0)
never_misdelivered_example = never_misdelivered maps start-IsStart reached 0

abbrev pub worker : Worker
worker = record { key = peer_b; dst = some addr_b; phase = running }

one_worker_example : ◌≡◌ {A = ChanRef} 0 0
one_worker_example =
    one_worker maps start-IsStart reached 0 0 worker worker route_packet_first.2
      route_packet_first.2 (λ e. cc (e)) (λ e. cc (e)) refl

addr_current_example :
    (w : Worker) × (after_route.net.workers 0 ≡ some w)
    × (w.dst ≡ some addr_b)
    × (w.phase ≡ running)
    × (maps.id.load after_route.net.table.id w.key ≡ some 0)
addr_current_example = addr_current maps start-IsStart reached addr_b 0 addr_b_found

pub start-IsNet : IsNet maps start.net
start-IsNet = (Reach-IsValid maps start-IsStart here).net

after_read-IsNet : IsNet maps after_read.net
after_read-IsNet =
    (Reach-IsValid maps start-IsStart (next here (read (some packet) queued tun_reader-start))).net

add_conn_by_dst_lem_example :
    ((c : ChanRef) × ((add_conn_by_dst maps addr_b start.net).0 ≡ ok c)
      × Connected maps addr_b c (add_conn_by_dst maps addr_b start.net).1)
    ⊎ ((add_conn_by_dst maps addr_b start.net ≡ (err (no_route addr_b), start.net))
        × ((key : PeerId) → Routes maps start.net.table.m key addr_b → ⊥))
add_conn_by_dst_lem_example = add_conn_by_dst_lem maps addr_b start-IsNet

route_packet_lem_example : RoutedAll maps payload after_read (route_packet maps payload after_read)
route_packet_lem_example = route_packet_lem maps payload after_read after_read-IsNet

tun_reader_lem_example :
    (out : ReaderOutcome × Engine maps) × (tun_reader maps (some packet) start ≡ some out)
    × ReadAll maps packet start out
tun_reader_lem_example = tun_reader_lem maps packet start
