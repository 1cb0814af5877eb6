-- ===== src/Engine/Routine.antt =====
-- core/engine/routine.go: one iteration of each of the three loops between the TUN device and the
-- peers' channels. The device is outside: what `Read` returns is an argument, and the error of
-- `Write` is only logged.
pub mod Reader
pub mod Router
use net_hive.Netip.{Addr, is_multicast, is_link_local_multicast}
use net_hive.Protocol
use net_hive.XPool.{get_or}
use net_hive.Protocol.{IpPacket, parse_ip, release_ip}
use net_hive.Engine.{Payload, new_payload, ChanRef, Maps, update, Net, Engine, try_send}
use net_hive.Engine.Conn
use net_hive.Engine.Conn.{add_conn_by_dst}
use net_hive.Prelude.{
  ◌+◌, ◌-◌, Bool, not, ◌&&◌, ◌||◌, Option, none, some, List, [], ◌∷◌, if◌then◌else◌, Bytes, Result,
  ok, err, ◌>>=◌,
}

-- What an iteration comes to, as the log tells it.
pub data ReaderOutcome : Type 0 where
  read_error invalid group_off queued queue_full : ReaderOutcome

pub data RouterOutcome : Type 0 where
  broadcast no_route : RouterOutcome
  sent full : ChanRef → RouterOutcome

unfoldable pub is_group : Addr → Bool
is_group a = is_link_local_multicast a || is_multicast a

-- `payloadPool.Get`: a payload that was put back, with its old fields, or a new one.
abbrev pub payload_get : List Payload → Payload × List Payload
payload_get = get_or new_payload

module _ (T : Maps) where
  -- `bufferPool.Get`
  abbrev pub get_buffer : Engine T → Engine T
  get_buffer e = record e { buffers = e.buffers + 1 }

  -- `bufferPool.Put`
  abbrev pub put_buffer : Engine T → Engine T
  put_buffer e = record e { buffers = e.buffers - 1 }

  -- `bufferPool.Put(payload.Data)` and `payloadPool.Put(payload)`.
  abbrev pub put_payload : Payload → Engine T → Engine T
  put_payload p e = record (put_buffer e) { payloads = p ∷ e.payloads }

  -- The payload for a packet, and the `select` that sends it to `devReader` or drops it.
  unfoldable pub enqueue : Payload → Engine T → ReaderOutcome × Engine T
  enqueue p e = elim (try_send e.dev_reader p) [
    | some q ↦ (queued, record e { dev_reader = q })
    | none ↦ (queue_full, put_payload p e)
  ]

  -- After `ParseIP`. The two `continue`s leave the buffer to the garbage collector.
  unfoldable pub reader_parsed :
      Bytes → Result Protocol.Error IpPacket → Engine T → ReaderOutcome × Engine T
  reader_parsed packet (err x) e = (invalid, e)
  reader_parsed packet (ok ip) e =
      if is_group ip.dst && not e.enable_broadcast
      then (group_off, e)
      else let (p, ps) = payload_get e.payloads in
        enqueue (record p { dst = ip.dst; bytes = packet })
          (record e { payloads = ps; packets = release_ip e.packets ip })

  -- `RoutineTUNReader`; the argument is `none` for an error of `Read`, or the bytes `buff[:n]`.
  -- The result is `none` if `ParseIP` panics.
  unfoldable pub tun_reader : Option Bytes → Engine T → Option (ReaderOutcome × Engine T)
  tun_reader none e = some (read_error, put_buffer (get_buffer e))
  tun_reader (some packet) e = do
    (ps, r) ← parse_ip e.packets packet
    some (reader_parsed packet r (record (get_buffer e) { packets = ps }))

  -- `RoutineTUNWriter`: the packet that goes to the device; `none` while the channel is empty.
  unfoldable pub tun_writer : Engine T → Option (Bytes × Engine T)
  tun_writer e = elim e.dev_writer [
    | [] ↦ none
    | p ∷ ps ↦ some (p.bytes, put_payload p (record e { dev_writer = ps }))
  ]

  -- The `select` at the end of `RoutineRouteTableWriter`. A channel of the table is never `nil`.
  unfoldable pub send_to_peer : ChanRef → Payload → Engine T → RouterOutcome × Engine T
  send_to_peer c p e = elim (try_send (e.net.chans c) p) [
    | some q ↦ (sent c, record e { net = record e.net { chans = update e.net.chans c q } })
    | none ↦ (full c, put_payload p e)
  ]

  -- After `addConnByDst`.
  unfoldable pub router_connected :
      Payload → Engine T → Result Conn.Error ChanRef × Net T → RouterOutcome × Engine T
  router_connected p e (ok c, n) = send_to_peer c p (record e { net = n })
  router_connected p e (err x, n) = (no_route, record e { net = n })

  -- `RoutineRouteTableWriter`, at a payload that it took from `devReader`.
  unfoldable pub route_packet : Payload → Engine T → RouterOutcome × Engine T
  route_packet p e =
      if is_group p.dst && e.enable_broadcast
      then (broadcast, e)
      else elim (T.addr.load e.net.table.addr p.dst) [
        | some c ↦ send_to_peer c p e
        | none ↦ router_connected p e (add_conn_by_dst T p.dst e.net)
      ]
