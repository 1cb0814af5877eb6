-- ===== src/Engine/System/Moves.antt =====
-- What one step does to a channel.
use net_hive.Prelude.{
  suc, length, ◌≡◌, refl, sym, ap, ◌∙◌, inl, inr, ◌&&◌, Option, none, some, List, [], ◌∷◌, ◌++◌,
  ◌==◌, ==_iff, if◌then◌else◌, Bytes, Bool-cases, Option-cases, List-cases, Result, ok, err,
}
use net_hive.Engine.{Payload, ChanRef, Maps, update, Net, Engine, try_send, try_send-some}
use net_hive.Engine.Conn
use net_hive.Engine.Conn.{add_conn_by_dst}
use net_hive.Engine.Conn.Lookup.{IsNet}
use net_hive.Engine.Conn.Channels.{SameChans, add_conn_by_dst-SameChans}
use net_hive.Engine.Routine
use net_hive.Engine.Routine.{
  RouterOutcome, broadcast, no_route, sent, full, is_group, tun_reader, tun_writer, send_to_peer,
  router_connected, route_packet, payload_get,
}
use net_hive.Engine.Routine.Reader.{tun_reader_lem}
use net_hive.Engine.Stream.{peer_send, peer_receive}

-- The packet on channel `c`, if `d` is that channel.
abbrev pub at_channel : ChanRef → ChanRef → Bytes → List Bytes
at_channel c d b = if c == d then b ∷ [] else []

-- What an iteration of `RoutineRouteTableWriter` sends to a channel.
unfoldable pub arrived : RouterOutcome → ChanRef → Bytes → List Bytes
arrived broadcast c b = []
arrived no_route c b = []
arrived (sent d) c b = at_channel c d b
arrived (full d) c b = []

pub append_assoc : (xs ys zs : List Bytes) → (xs ++ ys) ++ zs ≡ xs ++ (ys ++ zs)
append_assoc [] ys zs = refl
append_assoc (x ∷ xs) ys zs = ap (λ l. x ∷ l) (append_assoc xs ys zs)

pub append_nil : (xs : List Bytes) → xs ++ [] ≡ xs
append_nil [] = refl
append_nil (x ∷ xs) = ap (λ l. x ∷ l) (append_nil xs)

-- The packets of payloads.
unfoldable pub packets_of : List Payload → List Bytes
packets_of [] = []
packets_of (p ∷ ps) = p.bytes ∷ packets_of ps

pub length-packets_of : (ps : List Payload) → length (packets_of ps) ≡ length ps
unfolding packets_of
length-packets_of [] = refl
length-packets_of (p ∷ ps) = ap suc (length-packets_of ps)

pub packets_of-append :
    (ps qs : List Payload) → packets_of (ps ++ qs) ≡ packets_of ps ++ packets_of qs
unfolding packets_of
packets_of-append [] qs = refl
packets_of-append (p ∷ ps) qs = ap (λ l. p.bytes ∷ l) (packets_of-append ps qs)

module _ (T : Maps) where
  open T use {m as M, id as I, addr as A}

  -- An outcome of the router: what was in a channel, and what it put there, are in it now.
  abbrev Moved : Payload → Engine T → RouterOutcome × Engine T → Type 0
  Moved p e (o, e') =
      (c : ChanRef)
      → packets_of (e'.net.chans c) ≡ packets_of (e.net.chans c) ++ arrived o c p.bytes

  send_to_peer-Moved : (d : ChanRef) (p : Payload) (e : Engine T) → Moved p e (send_to_peer T d p e)
  unfolding send_to_peer arrived packets_of
  send_to_peer-Moved d p e c = elim (Option-cases (try_send (e.net.chans d) p)) [
    | inl stuck ↦ rw (stuck, send_to_peer) (sym (append_nil (packets_of (e.net.chans c))))
    | inr (q, room) ↦
        let is = (try_send-some (e.net.chans d) p q room).0 in
        rw (room, send_to_peer)
          (elim (Bool-cases (c == d)) [
            | inr other ↦ rw other (sym (append_nil (packets_of (e.net.chans c))))
            | inl same ↦ rw same (
                ap packets_of is
                ∙ packets_of-append (e.net.chans d) (p ∷ [])
                ∙ ap (λ k. packets_of (e.net.chans k) ++ p.bytes ∷ []) (sym ((==_iff c d).0 same)))
          ])
  ]

  router_connected-Moved :
      (p : Payload) (e : Engine T) (r : Result Conn.Error ChanRef × Net T)
      → SameChans T e.net r.1
      → Moved p e (router_connected T p e r)
  unfolding router_connected arrived
  router_connected-Moved p e (ok d, n) same c =
      send_to_peer-Moved d p (record e { net = n }) c
      ∙ ap (λ qs. packets_of qs ++ arrived (send_to_peer T d p (record e { net = n })).0 c p.bytes)
          (same c)
  router_connected-Moved p e (err x, n) same c =
      ap packets_of (same c) ∙ sym (append_nil (packets_of (e.net.chans c)))

  pub route_packet-Moved :
      (p : Payload) (e : Engine T) → IsNet T e.net → Moved p e (route_packet T p e)
  unfolding route_packet arrived
  route_packet-Moved p e v c = elim (Bool-cases (is_group p.dst && e.enable_broadcast)) [
    | inl group ↦ rw (group, route_packet) (sym (append_nil (packets_of (e.net.chans c))))
    | inr single ↦ elim (Option-cases (A.load e.net.table.addr p.dst)) [
      | inr (d, old) ↦ rw (single, old, route_packet) (send_to_peer-Moved d p e c)
      | inl free ↦
          rw (single, free, route_packet)
            (router_connected-Moved p e (add_conn_by_dst T p.dst e.net)
              (add_conn_by_dst-SameChans T p.dst v) c)
    ]
  ]

  -- A step on the channel: what was there and what enters is what leaves and what is there.
  abbrev pub Balanced : Engine T → Engine T → ChanRef → List Bytes → List Bytes → Type 0
  Balanced e e' c came went =
      packets_of (e.net.chans c) ++ came ≡ went ++ packets_of (e'.net.chans c)

  pub still :
      (e e' : Engine T) (c : ChanRef) → e'.net.chans c ≡ e.net.chans c → Balanced e e' c [] []
  still e e' c same = append_nil (packets_of (e.net.chans c)) ∙ ap packets_of (sym same)

  pub net_after : {O : Type 0} (a b : O × Engine T) → some a ≡ some b → b.1.net ≡ a.1.net
  net_after a b h = let same : a ≡ b = cc (h) in ap (λ x. x.1.net) (sym same)

  net_or : Net T → Option (Engine T) → Net T
  net_or n none = n
  net_or n (some e) = e.net

  -- A channel whose first payload is taken.
  taken_from :
      (e : Engine T) (d c : ChanRef) (p : Payload) (ps : List Payload)
      → e.net.chans d ≡ p ∷ ps
      → packets_of (e.net.chans c)
        ≡ at_channel c d p.bytes ++ packets_of (update e.net.chans d ps c)
  unfolding packets_of
  taken_from e d c p ps queue = elim (Bool-cases (c == d)) [
    | inr other ↦ rw other refl
    | inl same ↦
        rw same (ap (λ k. packets_of (e.net.chans k)) ((==_iff c d).0 same) ∙ ap packets_of queue)
  ]

  pub read-still :
      (e e' : Engine T) (r : Option Bytes) (o : Routine.ReaderOutcome)
      → tun_reader T r e ≡ some (o, e')
      → e'.net ≡ e.net
  unfolding tun_reader
  read-still e e' none o h = net_after _ (o, e') h
  read-still e e' (some packet) o h =
      let (out, got, (frame, _)) = tun_reader_lem T packet e in
      net_after out (o, e') (sym got ∙ h) ∙ frame.net

  pub write-still : (e e' : Engine T) (b : Bytes) → tun_writer T e ≡ some (b, e') → e'.net ≡ e.net
  unfolding tun_writer
  write-still e e' b h = elim (List-cases e.dev_writer) [
    | inl empty ↦ cc (rw (empty, tun_writer) at h)
    | inr (p, ps, queue) ↦ net_after _ (b, e') (rw (queue, tun_writer) at h)
  ]

  pub receive-still :
      (e e' : Engine T) (msg : Bytes) → peer_receive T msg e ≡ some e' → e'.net ≡ e.net
  unfolding peer_receive net_or
  receive-still e e' msg h =
      let p = record (payload_get e.payloads).0 { bytes = msg } in
      elim (Option-cases (try_send e.dev_writer p)) [
        | inl stuck ↦ cc (rw stuck at h)
        | inr (q, room) ↦
            let after = rw room at h in ap (λ (o : Option (Engine T)). net_or e.net o) (sym after)
      ]

  pub send-Balanced :
      (e e' : Engine T) (d : ChanRef) (b : Bytes)
      → peer_send T d e ≡ some (b, e')
      → (c : ChanRef) → Balanced e e' c [] (at_channel c d b)
  unfolding peer_send packets_of
  send-Balanced e e' d b h c = elim (List-cases (e.net.chans d)) [
    | inl empty ↦ cc (rw (empty, peer_send) at h)
    | inr (p, ps, queue) ↦
        let after = rw (queue, peer_send) at h in
        let net = sym (net_after _ (b, e') after) in
        let is : p.bytes ≡ b = cc (after) in
        append_nil (packets_of (e.net.chans c))
        ∙ taken_from e d c p ps queue
        ∙ (λ i. at_channel c d (is i) ++ packets_of ((net i).chans c))
  ]
