-- ===== src/Engine/Stream.antt =====
-- The two ends of a peer's stream: the loops of `addConn` (core/engine/conn.go) and of `VPNHandler`
-- (core/engine/engine.go), between a peer's channel, the stream and `devWriter`.
use net_hive.Prelude.{
  Bool, true, false, Option, none, some, List, [], ◌∷◌, if◌then◌else◌, Bytes, ◌>>=◌,
}
pub mod Loops
pub mod Writes
pub mod Reads
pub mod Handler
use net_hive.Engine.{PeerId, ChanRef, Maps, update, Net, Engine, try_send}
use net_hive.Engine.Routine.{payload_get, get_buffer, put_payload}

-- What `VPNHandler` does with an incoming stream.
pub data Handling : Type 0 where
  refused no_channel : Handling
  serves : ChanRef → Handling

module _ (T : Maps) where
  -- The writing loop: the bytes that go to `WriteMsg`; `none` while the channel is empty. The
  -- buffer and the payload go back to their pools also when the write fails.
  unfoldable pub peer_send : ChanRef → Engine T → Option (Bytes × Engine T)
  peer_send c e = elim (e.net.chans c) [
    | [] ↦ none
    | p ∷ ps ↦ some (
      p.bytes,
      put_payload T p (record e { net = record e.net { chans = update e.net.chans c ps } }),
    )
  ]

  -- The writing loop of `VPNHandler`, at the outcomes of its calls of `WriteMsg` in their order:
  -- what reaches the stream, and the engine after it. It goes on after an error, and it waits at an
  -- empty channel.
  unfoldable pub handler_loop : ChanRef → List Bool → Engine T → List Bytes × Engine T
  handler_loop c [] e = ([], e)
  handler_loop c (written ∷ outcomes) e = elim (peer_send c e) [
    | none ↦ ([], e)
    | some (b, e') ↦
        let rest = handler_loop c outcomes e' in if written then (b ∷ rest.0, rest.1) else rest
  ]

  -- The same for `addConn`, which returns at the first error: the Boolean says whether it did.
  unfoldable pub conn_loop : ChanRef → List Bool → Engine T → Bool × List Bytes × Engine T
  conn_loop c [] e = (false, [], e)
  conn_loop c (written ∷ outcomes) e = elim (peer_send c e) [
    | none ↦ (false, [], e)
    | some (b, e') ↦
        let rest = conn_loop c outcomes e' in
        if written then (rest.0, b ∷ rest.1, rest.2) else (true, [], e')
  ]

  -- The reading loop, at a message of the peer: it waits (`none`) while `devWriter` is full.
  unfoldable pub peer_receive : Bytes → Engine T → Option (Engine T)
  peer_receive msg e =
      let (p, ps) = payload_get e.payloads in
      do
        q ← try_send e.dev_writer (record p { bytes = msg })
        some (record (get_buffer T e) { payloads = ps; dev_writer = q })

  -- The reading loop of `addConn`, and that of `VPNHandler`, at what its calls of `ReadMsg` give,
  -- where `none` is an error: whether it has returned, and the engine after it. Messages that are
  -- still to come when `devWriter` is full wait with the loop.
  unfoldable pub read_loop : List (Option Bytes) → Engine T → Bool × Engine T
  read_loop [] e = (false, e)
  read_loop (none ∷ msgs) e = (true, e)
  read_loop (some msg ∷ msgs) e = elim (peer_receive msg e) [
    | none ↦ (false, e)
    | some e' ↦ read_loop msgs e'
  ]

  -- `VPNHandler` closes a stream of a peer without a route, and leaves one of a peer without a
  -- channel; otherwise it serves the channel.
  unfoldable pub vpn_handler : PeerId → Net T → Handling
  vpn_handler id n = elim (T.m.load n.table.m id) [
    | none ↦ refused
    | some _ ↦ elim (T.id.load n.table.id id) [ none ↦ no_channel | some c ↦ serves c ]
  ]
