-- ===== src/Program/Writes/Tests.antt =====
-- A packet that the program reads from its device and writes to the peer that it is for.
use net_hive.Prelude.{
  ◌-◌, ◌≡◌, refl, some, List, [], ◌∷◌, ◌==◌, if◌then◌else◌, Bytes, bytes_eq, replicate, slice, ok,
}
use net_hive.Netip.{ip4, is_multicast, is_link_local_multicast, addr_eq}
use net_hive.Protocol.{parse_ip, parse_version, parse_ipv4, release_ip}
use net_hive.Protocol.Header.{ipv4_packet}
use net_hive.XMap.Assoc
use net_hive.Config.{Config}
use net_hive.Config.Load.{Document, load}
use net_hive.Config.Sample.{toy_crypto, toy_files}
use net_hive.Log.{CoreConfig}
use net_hive.Engine.{Payload, Engine, new_payload, try_send}
use net_hive.Engine.Conn.{conn_for, range_routes, add_conn_by_dst}
use net_hive.Engine.Routine.{
  queued, is_group, enqueue, reader_parsed, tun_reader, send_to_peer, router_connected,
  route_packet,
}
use net_hive.Engine.Stream.{peer_send}
use net_hive.Engine.System.{read, route, Reach, here, next}
use net_hive.Engine.Setup.{new_engine, started}
use net_hive.Engine.Setup.Configured.{Addressed}
use net_hive.Program.{parse}
use net_hive.Program.Tests.{
  maps, zap, libp2p, calls, answers, path, config, disk, v4, served, main-v4, v4-Distinct,
}
use net_hive.Program.Writes.{main-Addressed}

abbrev packet : Bytes
packet = ipv4_packet 5 (replicate 11 0) (10 ∷ 0 ∷ 0 ∷ 9 ∷ []) (10 ∷ 0 ∷ 0 ∷ 2 ∷ []) (1 ∷ 2 ∷ [])

abbrev payload : Payload
payload = record new_payload { dst = v4.addr; bytes = packet }

abbrev after_read : Engine maps
after_read = record (served.engine) {
  dev_reader = payload ∷ [];
  buffers = 1;
  packets = record { version = 4; src = ip4 (10 ∷ 0 ∷ 0 ∷ 9 ∷ []); dst = v4.addr } ∷ [];
  streams = [];
  handlers = [];
}

abbrev after_route : Engine maps
after_route = (route_packet maps payload (record after_read { dev_reader = [] })).1

abbrev after_write : Engine maps
after_write = record after_route {
  net = record after_route.net { chans = λ c. if c == 0 then [] else after_route.net.chans c };
  buffers = after_route.buffers - 1;
  payloads = payload ∷ after_route.payloads;
}

served_reads : tun_reader maps (some packet) served.engine ≡ some (queued, after_read)
unfolding tun_reader parse_ip parse_version parse_ipv4 reader_parsed enqueue release_ip is_group
    is_multicast is_link_local_multicast try_send slice new_engine
served_reads = refl

served_writes : peer_send maps 0 after_route ≡ some (packet, after_write)
unfolding peer_send route_packet is_group is_multicast is_link_local_multicast Assoc.load
    add_conn_by_dst range_routes Assoc.range Assoc.remove bytes_eq addr_eq conn_for router_connected
    send_to_peer try_send new_engine
served_writes = refl

served_reaches : Reach maps served.engine after_route
served_reaches =
    next (next here (read (some packet) queued served_reads)) (route payload [] refl refl)

main-Addressed_example :
    (cfg : Config CoreConfig) × (d : List (Bytes × Document CoreConfig)) × (load toy_files
        toy_crypto []
        (9 ∷ [])
        (disk v4)
        (parse (some path))
      ≡ some (ok (cfg, d)))
    × Addressed maps cfg after_route.net 0 packet
main-Addressed_example =
    main-Addressed maps toy_crypto zap libp2p toy_files calls answers [] (9 ∷ []) (disk v4) tt
      (some path) served (started (config v4)) after_route 0 packet after_write v4-Distinct main-v4
      served_reaches served_writes
