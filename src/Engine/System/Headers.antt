-- ===== src/Engine/System/Headers.antt =====
-- The address under which a packet waits, and that in its own header.
use net_hive.Prelude.{
  ◌≡◌, sym, ap, subst, ◌∙◌, inl, inr, ◌&&◌, Option, none, some, List, [], ◌∷◌, ◌++◌, Bytes,
  Bool-cases, Option-cases, List-cases, All, Result, ok, err, subst_some,
}
use net_hive.Protocol.Parse.{WellFormed, decode}
use net_hive.Engine.{
  Payload, ChanRef, Maps, update, update_self, update_ne, ℕ_discrete, Net, Engine, try_send,
  try_send-some,
}
use net_hive.Engine.Conn
use net_hive.Engine.Conn.{add_conn_by_dst, add_conn_by_id, exit_addr, exit_id}
use net_hive.Engine.Conn.Lookup.{IsNet}
use net_hive.Engine.Conn.Channels.{SameChans, add_conn_by_dst-SameChans}
use net_hive.Engine.Routine.{
  ReaderOutcome, queued, queue_full, invalid, group_off, read_error, is_group, tun_reader,
  tun_writer, send_to_peer, router_connected, route_packet, payload_get,
}
use net_hive.Engine.Routine.Reader.{Read, tun_reader_lem}
use net_hive.Engine.Routine.Router.{route_packet-SameDev}
use net_hive.Engine.Stream.{peer_send, peer_receive}
use net_hive.Engine.System.{
  Step, read, route, write, dial, serve, send, receive, leave, end, IsStart, Reach, here, next,
}
use net_hive.Engine.System.Safety.{Reach-IsValid}

All-snoc :
    {A : Type 0} (P : A → Type 0) (xs : List A) (x : A) → All P xs → P x → All P (xs ++ x ∷ [])
All-snoc P [] x h p = (p, tt)
All-snoc P (y ∷ ys) x h p = (h.0, All-snoc P ys x h.1 p)

-- The packet is well formed, and waits under the destination of its header.
pub record Headed (p : Payload) : Type 0 where
  pub formed : WellFormed p.bytes
  pub dst : p.dst ≡ (decode p.bytes).dst

module _ (T : Maps) where
  open T use {m as M, id as I, addr as A}

  abbrev Waiting : Net T → Type 0
  Waiting n = (c : ChanRef) → All Headed (n.chans c)

  -- Every packet on its way from the device to a peer.
  pub record IsHeaded (e : Engine T) : Type 0 where
    pub reader : All Headed e.dev_reader
    pub waiting : (c : ChanRef) → All Headed (e.net.chans c)

  Waiting-update :
      (n : Net T) (c : ChanRef) (q : List Payload)
      → All Headed q
      → Waiting n
      → (d : ChanRef) → All Headed (update n.chans c q d)
  Waiting-update n c q h v d = elim (ℕ_discrete d c) [
    | yes e ↦ rw (ap (update n.chans c q) e ∙ update_self n.chans c q) h
    | no ne ↦ rw (update_ne n.chans c d q ne) (v d)
  ]

  send_to_peer-Waiting :
      (c : ChanRef) (p : Payload) (e : Engine T)
      → Headed p
      → Waiting e.net
      → Waiting (send_to_peer T c p e).1.net
  unfolding send_to_peer
  send_to_peer-Waiting c p e h v = elim (Option-cases (try_send (e.net.chans c) p)) [
    | inl stuck ↦ rw (stuck, send_to_peer) v
    | inr (q, room) ↦
        let is = (try_send-some (e.net.chans c) p q room).0 in
        rw (room, send_to_peer)
          (Waiting-update e.net c q (rw is (All-snoc Headed (e.net.chans c) p (v c) h)) v)
  ]

  router_connected-Waiting :
      (p : Payload) (e : Engine T) (r : Result Conn.Error ChanRef × Net T)
      → SameChans T e.net r.1
      → Headed p
      → Waiting e.net
      → Waiting (router_connected T p e r).1.net
  unfolding router_connected
  router_connected-Waiting p e (ok c, n) same h v =
      send_to_peer-Waiting c p (record e { net = n }) h (λ d. rw (same d) (v d))
  router_connected-Waiting p e (err x, n) same h v = λ d. rw (same d) (v d)

  route_packet-Waiting :
      (p : Payload) (e : Engine T)
      → IsNet T e.net
      → Headed p
      → Waiting e.net
      → Waiting (route_packet T p e).1.net
  unfolding route_packet
  route_packet-Waiting p e w h v = elim (Bool-cases (is_group p.dst && e.enable_broadcast)) [
    | inl group ↦ rw (group, route_packet) v
    | inr single ↦ elim (Option-cases (A.load e.net.table.addr p.dst)) [
      | inr (d, old) ↦ rw (single, old, route_packet) (send_to_peer-Waiting d p e h v)
      | inl free ↦
          rw (single, free, route_packet)
            (router_connected-Waiting p e (add_conn_by_dst T p.dst e.net)
              (add_conn_by_dst-SameChans T p.dst w) h v)
    ]
  ]

  after : {O : Type 0} (a b : O × Engine T) → some a ≡ some b → IsHeaded a.1 → IsHeaded b.1
  after {O} a b h v = subst_some (λ (x : O × Engine T). IsHeaded x.1) a b h v

  outcome-IsHeaded :
      (packet : Bytes) (e e' : Engine T) (o : ReaderOutcome)
      → e'.net ≡ e.net
      → Read T packet e e' o
      → IsHeaded e
      → IsHeaded e'
  outcome-IsHeaded packet e e' read_error net r v = absurd r
  outcome-IsHeaded packet e e' invalid net (_, reader, _) v = record {
    reader = rw reader v.reader;
    waiting = rw net v.waiting;
  }
  outcome-IsHeaded packet e e' group_off net (_, _, _, reader, _) v = record {
    reader = rw reader v.reader;
    waiting = rw net v.waiting;
  }
  outcome-IsHeaded packet e e' queued net (formed, p, bytes, dst, _, last, _) v = record {
    reader = rw last (
        All-snoc Headed e.dev_reader p v.reader (record {
          formed = subst WellFormed (sym bytes) formed;
          dst = dst ∙ ap (λ b. (decode b).dst) (sym bytes);
        }));
    waiting = rw net v.waiting;
  }
  outcome-IsHeaded packet e e' queue_full net (_, _, reader, _) v = record {
    reader = rw reader v.reader;
    waiting = rw net v.waiting;
  }

  read-IsHeaded :
      (e e' : Engine T) (r : Option Bytes) (o : ReaderOutcome)
      → tun_reader T r e ≡ some (o, e')
      → IsHeaded e
      → IsHeaded e'
  unfolding tun_reader
  read-IsHeaded e e' none o h v =
      after _ (o, e') h (record { reader = v.reader; waiting = v.waiting })
  read-IsHeaded e e' (some packet) o h v =
      let ((o1, e1), got, (frame, what)) = tun_reader_lem T packet e in
      after (o1, e1) (o, e') (sym got ∙ h) (outcome-IsHeaded packet e e1 o1 frame.net what v)

  route-IsHeaded :
      (e : Engine T) (p : Payload) (ps : List Payload)
      → IsNet T e.net
      → e.dev_reader ≡ p ∷ ps
      → IsHeaded e
      → IsHeaded (route_packet T p (record e { dev_reader = ps })).1
  route-IsHeaded e p ps w queue v =
      let e1 = record e { dev_reader = ps } in
      let (first, others) = subst (All Headed) queue v.reader in
      record {
        reader = rw (route_packet-SameDev T p e1).0 others;
        waiting = route_packet-Waiting p e1 w first v.waiting;
      }

  write-IsHeaded :
      (e e' : Engine T) (b : Bytes) → tun_writer T e ≡ some (b, e') → IsHeaded e → IsHeaded e'
  unfolding tun_writer
  write-IsHeaded e e' b h v = elim (List-cases e.dev_writer) [
    | inl empty ↦ cc (rw (empty, tun_writer) at h)
    | inr (p, ps, queue) ↦
        after _ (b, e') (rw (queue, tun_writer) at h)
          (record { reader = v.reader; waiting = v.waiting })
  ]

  send-IsHeaded :
      (e e' : Engine T) (c : ChanRef) (b : Bytes)
      → peer_send T c e ≡ some (b, e')
      → IsHeaded e
      → IsHeaded e'
  unfolding peer_send
  send-IsHeaded e e' c b h v = elim (List-cases (e.net.chans c)) [
    | inl empty ↦ cc (rw (empty, peer_send) at h)
    | inr (p, ps, queue) ↦
        after _ (b, e') (rw (queue, peer_send) at h)
          (record {
            reader = v.reader;
            waiting =
                Waiting-update e.net c ps (subst (All Headed) queue (v.waiting c)).1 v.waiting;
          })
  ]

  receive-IsHeaded :
      (e e' : Engine T) (msg : Bytes) → peer_receive T msg e ≡ some e' → IsHeaded e → IsHeaded e'
  unfolding peer_receive
  receive-IsHeaded e e' msg h v =
      let p = record (payload_get e.payloads).0 { bytes = msg } in
      elim (Option-cases (try_send e.dev_writer p)) [
        | inl stuck ↦ cc (rw stuck at h)
        | inr (q, room) ↦
            subst_some IsHeaded _ e' (rw room at h)
              (record { reader = v.reader; waiting = v.waiting })
      ]

  Step-IsHeaded : {e e' : Engine T} → Step T e e' → IsNet T e.net → IsHeaded e → IsHeaded e'
  unfolding exit_addr exit_id
  Step-IsHeaded {e} {e'} (read r o h) w v = read-IsHeaded e e' r o h v
  Step-IsHeaded {e} {e'} (route p ps h same) w v = rw same (route-IsHeaded e p ps w h v)
  Step-IsHeaded {e} {e'} (write b h) w v = write-IsHeaded e e' b h v
  Step-IsHeaded {e} {e'} (send c b writes h) w v = send-IsHeaded e e' c b h v
  Step-IsHeaded {e} {e'} (receive msg h) w v = receive-IsHeaded e e' msg h v
  Step-IsHeaded {e} {e'} (dial c x at runs same) w v =
      rw same (record { reader = v.reader; waiting = v.waiting })
  Step-IsHeaded {e} {e'} (serve id c takes same) w v =
      rw same (record { reader = v.reader; waiting = v.waiting })
  Step-IsHeaded {e} {e'} (leave c x at runs same) w v =
      rw same (record { reader = v.reader; waiting = v.waiting })
  Step-IsHeaded {e} {e'} (end c x at leaves same) w v =
      rw same (record { reader = v.reader; waiting = v.waiting })

  -- From the start of the goroutines on.
  pub Reach-IsHeaded : {e e' : Engine T} → IsStart T e → Reach T e e' → IsHeaded e'
  Reach-IsHeaded s here = record {
    reader = rw s.reader_empty tt;
    waiting = λ c. rw (s.no_queues c) tt;
  }
  Reach-IsHeaded s (next r st) = Step-IsHeaded st (Reach-IsValid T s r).net (Reach-IsHeaded s r)
