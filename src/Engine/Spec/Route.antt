-- ===== src/Engine/Spec/Route.antt =====
-- What `RoutineRouteTableWriter` does to the queues of the peers.
use net_hive.Prelude.{
  ◌≤◌, ◌≡◌, refl, sym, ap, subst, ◌∙◌, ◌≢◌, inl, inr, Bool, true, ◌&&◌, some, List, arith,
  Bool-cases, Option-cases, length, err,
}
use net_hive.Netip.{Addr}
use net_hive.Engine.Conn.{add_conn_by_dst, no_route}
use net_hive.Engine.Conn.Lookup.{IsNet, add_conn_by_dst_lem}
use net_hive.Engine.Routine.{is_group, router_connected, route_packet, send_to_peer}
use net_hive.Engine.Spec.{
  Vpn, VpnStep, group, unrouted, crowded, accept, dropped, took, behind, view, abandoned, gone_at,
}
use net_hive.Engine.Spec.Connect.{Found, add_conn_by_dst-Found}
use net_hive.Engine.{
  ℕ_discrete, Payload, PeerId, ChanRef, Maps, update, update_self, update_ne, Net, Engine, try_send,
  try_send-none, chan_size, try_send-some,
}
use net_hive.Engine.Conn.Tables.{Routes, IsTables}
use net_hive.Engine.Spec.GivenUp.{held_by}

and_true : (a b : Bool) → (a && b) ≡ true → (a ≡ true) × (b ≡ true)
and_true a b h = ground arith

module _ (T : Maps) where
  open T use {m as M, id as I, addr as A}

  -- Two peers have two channels.
  pub other_channel :
      {n : Net T} (k j : PeerId) (c d : ChanRef)
      → IsTables T n
      → I.load n.table.id k ≡ some c
      → I.load n.table.id j ≡ some d
      → j ≢ k
      → d ≢ c
  other_channel {n} k j c d v hk hj ne e =
      let (w, at, key, _) = v.id_live k c hk in
      let (x, there, key', _) = v.id_live j d hj in
      let same : w ≡ x = cc (at, there, ap n.workers e) in
      ne (sym key' ∙ ap (λ w. w.key) (sym same) ∙ key)

  -- A change of the channel of one peer is not seen at another.
  pub behind_other :
      {n : Net T} (k j : PeerId) (c : ChanRef) (q : List Payload)
      → IsTables T n
      → I.load n.table.id k ≡ some c
      → j ≢ k
      → behind T (update n.chans c q) (I.load n.table.id j) ≡ behind T n.chans (I.load n.table.id j)
  unfolding behind
  behind_other {n} k j c q v hk ne = elim (Option-cases (I.load n.table.id j)) [
    | inl none_there ↦ rw none_there refl
    | inr (d, hj) ↦ rw hj (update_ne n.chans c d q (other_channel k j c d v hk hj ne))
  ]

  -- A change of a channel that is the entry of its peer gives nothing up.
  pub held_change :
      {n : Net T} (k : PeerId) (c : ChanRef) (q : List Payload)
      → IsTables T n
      → I.load n.table.id k ≡ some c
      → (j : PeerId) (d : ChanRef)
      → gone_at T (record n { chans = update n.chans c q }) j d ≡ gone_at T n j d
  held_change {n} k c q v at j d = elim (ℕ_discrete d c) [
    | no ne ↦ ap (abandoned T (n.workers d) (I.load n.table.id j) j d) (update_ne n.chans c d q ne)
    | yes same ↦
        let there = at ∙ ap some (sym same) in
        held_by T k j d (update n.chans c q d) v there ∙ sym (held_by T k j d (n.chans d) v there)
  ]

  -- Without a route `addConnByDst` gives its error.
  nobody :
      (d : Addr) (n : Net T)
      → IsNet T n
      → add_conn_by_dst T d n ≡ (err (no_route d), n)
      → (k : PeerId) → Routes T n.table.m k d
      → ⊥
  nobody d n v fails = elim (add_conn_by_dst_lem T d v) [
    | inl (c, got, connected) ↦ cc (got, fails)
    | inr (_, none_there) ↦ none_there
  ]

  send_to_peer-VpnStep :
      (k : PeerId) (c : ChanRef) (p : Payload) (e : Engine T)
      → IsTables T e.net
      → I.load e.net.table.id k ≡ some c
      → Routes T e.net.table.m k p.dst
      → VpnStep T e.enable_broadcast (view T e.net) (view T (send_to_peer T c p e).1.net) (took p)
  unfolding send_to_peer behind
  send_to_peer-VpnStep k c p e v at to = elim (Option-cases (try_send (e.net.chans c) p)) [
    | inl stuck ↦
        let long : chan_size ≤ length (behind T e.net.chans (I.load e.net.table.id k)) =
          rw (at, behind) (try_send-none (e.net.chans c) p stuck) in
        rw (stuck, send_to_peer) (dropped p (crowded k to long) refl)
    | inr (q, room) ↦
        let is = (try_send-some (e.net.chans c) p q room).0 in
        rw (room, send_to_peer)
          (accept k p to refl (rw (at, behind) (update_self e.net.chans c q ∙ is))
            (λ j ne. behind_other k j c q v at ne) (held_change k c q v at))
  ]

  -- A channel that was found in a state that looks the same.
  send_again-VpnStep :
      (c : ChanRef) (p : Payload) (e : Engine T) (n' : Net T)
      → Found T p.dst c e.net n'
      → IsTables T n'
      → VpnStep T e.enable_broadcast
          (view T e.net)
          (view T (send_to_peer T c p (record e { net = n' })).1.net)
          (took p)
  send_again-VpnStep c p e n' f v =
      let after : Engine T = record e { net = n' } in
      let routes : n'.table.m ≡ e.net.table.m = ap (λ (x : Vpn T). x.routes) f.unseen in
      subst
        (λ (x : Vpn T).
          VpnStep T e.enable_broadcast x (view T (send_to_peer T c p after).1.net) (took p))
        f.unseen
        (send_to_peer-VpnStep f.key c p after v f.at
          (subst (λ (m : M.Map). Routes T m f.key p.dst) (sym routes) f.to))

  pub route_packet-VpnStep :
      (p : Payload) (e : Engine T)
      → IsNet T e.net
      → VpnStep T e.enable_broadcast (view T e.net) (view T (route_packet T p e).1.net) (took p)
  unfolding route_packet router_connected
  route_packet-VpnStep p e v = elim (Bool-cases (is_group p.dst && e.enable_broadcast)) [
    | inl both ↦
        let (is, on) = and_true (is_group p.dst) e.enable_broadcast both in
        rw (both, route_packet) (dropped p (group is on) refl)
    | inr single ↦ elim (Option-cases (A.load e.net.table.addr p.dst)) [
      | inr (c, old) ↦
          let (w, at, to, runs) = v.tables.addr_live p.dst c old in
          rw (single, old, route_packet)
            (send_to_peer-VpnStep w.key c p e v.tables
              (v.tables.live_id c w at (λ gone. cc (gone, runs))) (v.tables.owns c w p.dst at to))
      | inl free ↦ elim (add_conn_by_dst-Found T p.dst v free) [
        | inr same ↦
            rw (single, free, same, route_packet)
              (dropped p (unrouted (nobody p.dst e.net v same)) refl)
        | inl (c, n', same, found) ↦
            let valid : IsTables T n' = elim (add_conn_by_dst_lem T p.dst v) [
              | inl (d, got, connected) ↦
                  subst (IsTables T) (ap (λ r. r.1) same) connected.valid.tables
              | inr (stays, _) ↦ subst (IsTables T) (ap (λ r. r.1) (sym stays ∙ same)) v.tables
            ] in
            rw (single, free, same, route_packet) (send_again-VpnStep c p e n' found valid)
      ]
    ]
  ]
