-- ===== src/Engine/Routine/Router.antt =====
-- What becomes of a payload that `RoutineRouteTableWriter` takes from `devReader`.
use net_hive.Engine.{
  Payload, PeerId, ChanRef, Maps, update, update_self, Net, Engine, try_send, try_send-some,
  try_send-none, chan_size,
}
use net_hive.Engine.Conn
use net_hive.Engine.Conn.{add_conn_by_dst}
use net_hive.Engine.Conn.Tables.{Routes, chans-IsTables}
use net_hive.Engine.Conn.Queues.{Serves, send-IsQueues}
use net_hive.Engine.Conn.Lookup.{IsNet, Connected, addr-Serves, add_conn_by_dst_lem}
use net_hive.Engine.Routine.{
  RouterOutcome, broadcast, no_route, sent, full, is_group, send_to_peer, router_connected,
  route_packet,
}
use net_hive.Prelude.{
  ◌-◌, ◌≤◌, ◌≡◌, refl, ap, ◌∙◌, inl, inr, true, ◌&&◌, List, [], ◌∷◌, ◌++◌, Bool-cases, Option-cases,
  length, Result, ok, err,
}

module _ (T : Maps) where
  open T use {m as M, id as I, addr as A}

  module _ (p : Payload) (e e' : Engine T) where
    -- What each outcome says of the states before and after.
    abbrev pub Routed : RouterOutcome → Type 0
    Routed broadcast = ((is_group p.dst && e.enable_broadcast) ≡ true) × (e' ≡ e)
    Routed no_route = ((key : PeerId) → Routes T e.net.table.m key p.dst → ⊥) × (e' ≡ e)
    Routed (sent c) =
        Serves T e'.net c p.dst
        × (q : List Payload) × (e'.net.chans c ≡ q ++ p ∷ [])
        × (e'.buffers ≡ e.buffers)
    Routed (full c) =
        Serves T e'.net c p.dst
        × (chan_size ≤ length (e'.net.chans c))
        × (e'.buffers ≡ e.buffers - 1)
        × (e'.payloads ≡ p ∷ e.payloads)

  abbrev pub RoutedAll : Payload → Engine T → RouterOutcome × Engine T → Type 0
  RoutedAll p e (o, e') = IsNet T e'.net × Routed p e e' o

  send_to_peer_lem :
      (c : ChanRef) (p : Payload) (e : Engine T) {n : Net T}
      → Connected T p.dst c n
      → RoutedAll p e (send_to_peer T c p (record e { net = n }))
  unfolding send_to_peer
  send_to_peer_lem c p e {n} k = elim (Option-cases (try_send (n.chans c) p)) [
    | inr (q, room) ↦
        let (is, small) = try_send-some (n.chans c) p q room in
        rw (room, send_to_peer)
          (
            record {
              tables = chans-IsTables T (update n.chans c q) k.valid.tables;
              queues = send-IsQueues T c p k.valid.queues k.serves room;
            },
            (
              record { worker = k.serves.worker; at = k.serves.at; to = k.serves.to },
              n.chans c,
              update_self n.chans c q ∙ is,
              refl,
            ),
          )
    | inl stuck ↦
        rw (stuck, send_to_peer)
          (k.valid, (k.serves, try_send-none (n.chans c) p stuck, refl, refl))
  ]

  router_connected-ok :
      (p : Payload) (e : Engine T) (r : Result Conn.Error ChanRef × Net T) (c : ChanRef)
      → r.0 ≡ ok c
      → router_connected T p e r ≡ send_to_peer T c p (record e { net = r.1 })
  unfolding router_connected
  router_connected-ok p e (ok c', n) c h =
      let same : c' ≡ c = cc (h) in
      ap (λ (x : ChanRef). send_to_peer T x p (record e { net = n })) same
  router_connected-ok p e (err x, n) c h = cc (h)

  router_connected_lem :
      (p : Payload) (e : Engine T)
      → IsNet T e.net
      → RoutedAll p e (router_connected T p e (add_conn_by_dst T p.dst e.net))
  unfolding router_connected
  router_connected_lem p e v = elim (add_conn_by_dst_lem T p.dst v) [
    | inl (c, got, k) ↦
        rw (router_connected-ok p e (add_conn_by_dst T p.dst e.net) c got)
          (send_to_peer_lem c p e k)
    | inr (same, alone) ↦ rw same (v, (alone, refl))
  ]

  -- `RoutineRouteTableWriter` at one payload keeps the invariant of the route table and the queues.
  -- It drops a group packet in broadcast mode; it drops a packet that no peer routes to, and
  -- changes nothing; and otherwise it picks a channel whose peer routes to the packet's address,
  -- where the packet then waits last, unless that channel is full: then buffer and payload go back
  -- to their pools.
  pub route_packet_lem :
      (p : Payload) (e : Engine T) → IsNet T e.net → RoutedAll p e (route_packet T p e)
  unfolding route_packet
  route_packet_lem p e v = elim (Bool-cases (is_group p.dst && e.enable_broadcast)) [
    | inl group ↦ rw (group, route_packet) (v, (group, refl))
    | inr single ↦ elim (Option-cases (A.load e.net.table.addr p.dst)) [
      | inr (c, old) ↦
          rw (single, old, route_packet)
            (send_to_peer_lem c p e
              (record { valid = v; serves = addr-Serves T v.tables p.dst c old }))
      | inl free ↦ rw (single, free, route_packet) (router_connected_lem p e v)
    ]
  ]

  -- The iteration leaves the device's channels alone.
  abbrev pub SameDev : Engine T → Engine T → Type 0
  SameDev e e' =
      (e'.dev_reader ≡ e.dev_reader)
      × (e'.dev_writer ≡ e.dev_writer)
      × (e'.enable_broadcast ≡ e.enable_broadcast)

  send_to_peer-SameDev :
      (c : ChanRef) (p : Payload) (e : Engine T) → SameDev e (send_to_peer T c p e).1
  unfolding send_to_peer
  send_to_peer-SameDev c p e = elim (Option-cases (try_send (e.net.chans c) p)) [
    | inr (q, room) ↦ rw (room, send_to_peer) (refl, refl, refl)
    | inl stuck ↦ rw (stuck, send_to_peer) (refl, refl, refl)
  ]

  router_connected-SameDev :
      (p : Payload) (e : Engine T) (r : Result Conn.Error ChanRef × Net T)
      → SameDev e (router_connected T p e r).1
  unfolding router_connected
  router_connected-SameDev p e (ok c, n) = send_to_peer-SameDev c p (record e { net = n })
  router_connected-SameDev p e (err x, n) = (refl, refl, refl)

  pub route_packet-SameDev : (p : Payload) (e : Engine T) → SameDev e (route_packet T p e).1
  unfolding route_packet
  route_packet-SameDev p e = elim (Bool-cases (is_group p.dst && e.enable_broadcast)) [
    | inl group ↦ rw (group, route_packet) (refl, refl, refl)
    | inr single ↦ elim (Option-cases (A.load e.net.table.addr p.dst)) [
      | inr (c, old) ↦ rw (single, old, route_packet) (send_to_peer-SameDev c p e)
      | inl free ↦
          rw (single, free, route_packet)
            (router_connected-SameDev p e (add_conn_by_dst T p.dst e.net))
    ]
  ]
