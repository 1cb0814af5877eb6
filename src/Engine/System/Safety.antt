-- ===== src/Engine/System/Safety.antt =====
-- What holds in every state that the engine's goroutines reach.
use net_hive.Prelude.{
  subst, subst_some, List-cases, ◌≤◌, ◌≡◌, refl, sym, ap, ◌∙◌, ◌≢◌, inl, inr, Option, none, some,
  List, ◌∷◌, arith, Bytes, Option-cases, length, All,
}
use net_hive.Netip.{Addr}
use net_hive.Engine.{
  Payload, ChanRef, Maps, running, ended, Worker, update, Engine, try_send, try_send-some,
  chan_size,
}
use net_hive.Engine.Conn.Tables.{chans-IsTables}
use net_hive.Engine.Conn.Exit.{exit_addr-IsTables, exit_id-IsTables}
use net_hive.Engine.Conn.Queues.{Serves, take-IsQueues, exit_addr-IsQueues, exit_id-IsQueues}
use net_hive.Engine.Conn.Lookup.{IsNet}
use net_hive.Engine.Routine.{ReaderOutcome, tun_reader, tun_writer, route_packet, payload_get}
use net_hive.Engine.Routine.Reader.{tun_reader_lem}
use net_hive.Engine.Routine.Router.{route_packet-SameDev, route_packet_lem}
use net_hive.Engine.Stream.{peer_send, peer_receive}
use net_hive.Engine.System.{
  Step, read, route, write, dial, serve, send, receive, leave, end, IsStart, Reach, here, next,
}

module _ (T : Maps) where
  open T use {m as M, id as I, addr as A}

  pub record IsValid (e : Engine T) : Type 0 where
    pub net : IsNet T e.net
    pub reader_bounded : length e.dev_reader ≤ chan_size
    pub writer_bounded : length e.dev_writer ≤ chan_size

  start-IsValid : {e : Engine T} → IsStart T e → IsValid e
  start-IsValid {e} s = record {
    net = record {
      tables = record {
        fresh_none = λ c h. s.no_workers c;
        id_live = λ k c h. cc (h, I.load-empty k, ap (λ (m : I.Map). I.load m k) s.id_empty);
        live_id = λ c w h live. cc (h, s.no_workers c);
        addr_live = λ d c h. cc (h, A.load-empty d, ap (λ (m : A.Map). A.load m d) s.addr_empty);
        live_addr = λ c w d h to runs. cc (h, s.no_workers c);
        owns = λ c w d h to. cc (h, s.no_workers c);
      };
      queues = record {
        bounded = λ c. rw (s.no_queues c) (omega arith);
        meant = λ c. rw (s.no_queues c) tt;
      };
    };
    reader_bounded = rw s.reader_empty (omega arith);
    writer_bounded = rw s.writer_empty (omega arith);
  }

  -- A step that touches neither the channels of the peers nor their tables.
  framed-IsValid :
      {e e' : Engine T}
      → IsValid e
      → e'.net ≡ e.net
      → length e'.dev_reader ≤ chan_size
      → length e'.dev_writer ≤ chan_size
      → IsValid e'
  framed-IsValid v same r w = record { net = rw same v.net; reader_bounded = r; writer_bounded = w }

  carry : {O : Type 0} (a b : O × Engine T) → some a ≡ some b → IsValid a.1 → IsValid b.1
  carry {O} a b e v = subst_some (λ (x : O × Engine T). IsValid x.1) a b e v

  read-IsValid :
      {e e' : Engine T} (r : Option Bytes) (o : ReaderOutcome)
      → IsValid e
      → tun_reader T r e ≡ some (o, e')
      → IsValid e'
  unfolding tun_reader
  read-IsValid none o v h = carry _ _ h (framed-IsValid v refl v.reader_bounded v.writer_bounded)
  read-IsValid {e} (some packet) o v h =
      let (out, got, (frame, _)) = tun_reader_lem T packet e in
      carry out _ (sym got ∙ h) (
        framed-IsValid v frame.net (frame.bounded v.reader_bounded)
          (rw frame.dev_writer v.writer_bounded))

  route-IsValid :
      {e : Engine T} (p : Payload) (ps : List Payload)
      → IsValid e
      → e.dev_reader ≡ p ∷ ps
      → IsValid (route_packet T p (record e { dev_reader = ps })).1
  route-IsValid {e} p ps v h =
      let e1 = record e { dev_reader = ps } in
      let (reader, writer, _) = route_packet-SameDev T p e1 in
      record {
        net = (route_packet_lem T p e1 v.net).0;
        reader_bounded = rw reader (omega (arith, ap length h, v.reader_bounded));
        writer_bounded = rw writer v.writer_bounded;
      }

  write-IsValid :
      {e e' : Engine T} (b : Bytes) → IsValid e → tun_writer T e ≡ some (b, e') → IsValid e'
  unfolding tun_writer
  write-IsValid {e} b v h = elim (List-cases e.dev_writer) [
    | inl empty ↦ cc (rw (empty, tun_writer) at h)
    | inr (p, ps, queue) ↦
        carry _ _ (rw (queue, tun_writer) at h) (
          framed-IsValid v refl v.reader_bounded (omega (arith, ap length queue, v.writer_bounded)))
  ]

  send-IsValid :
      {e e' : Engine T} (c : ChanRef) (b : Bytes)
      → IsValid e
      → peer_send T c e ≡ some (b, e')
      → IsValid e'
  unfolding peer_send
  send-IsValid {e} c b v h = elim (List-cases (e.net.chans c)) [
    | inl empty ↦ cc (rw (empty, peer_send) at h)
    | inr (p, ps, queue) ↦ carry _ _ (rw (queue, peer_send) at h) (record {
      net = record {
        tables = chans-IsTables T (update e.net.chans c ps) v.net.tables;
        queues = take-IsQueues T c v.net.queues queue;
      };
      reader_bounded = v.reader_bounded;
      writer_bounded = v.writer_bounded;
    })
  ]

  receive-IsValid :
      {e e' : Engine T} (msg : Bytes) → IsValid e → peer_receive T msg e ≡ some e' → IsValid e'
  unfolding peer_receive
  receive-IsValid {e} msg v h =
      let p = record (payload_get e.payloads).0 { bytes = msg } in
      elim (Option-cases (try_send e.dev_writer p)) [
        | inl full ↦ cc (rw full at h)
        | inr (q, room) ↦
            let (is, small) = try_send-some e.dev_writer p q room in
            let same = rw room at h in
            subst_some IsValid _ _ same (framed-IsValid v refl v.reader_bounded small)
      ]

  Step-IsValid : {e e' : Engine T} → Step T e e' → IsValid e → IsValid e'
  Step-IsValid (read r o h) v = read-IsValid r o v h
  Step-IsValid (route p ps h same) v = rw same (route-IsValid p ps v h)
  Step-IsValid (write b h) v = write-IsValid b v h
  Step-IsValid (send c b w h) v = send-IsValid c b v h
  Step-IsValid (receive msg h) v = receive-IsValid msg v h
  Step-IsValid (dial c w at runs same) v =
      subst IsValid (sym same) (framed-IsValid v refl v.reader_bounded v.writer_bounded)
  Step-IsValid (serve id c takes same) v =
      subst IsValid (sym same) (framed-IsValid v refl v.reader_bounded v.writer_bounded)
  Step-IsValid (leave c w at runs same) v = rw same (record {
    net = record {
      tables = exit_addr-IsTables T c w v.net.tables at runs;
      queues = exit_addr-IsQueues T c w at v.net.queues;
    };
    reader_bounded = v.reader_bounded;
    writer_bounded = v.writer_bounded;
  })
  Step-IsValid (end c w at leaves same) v = rw same (record {
    net = record {
      tables = exit_id-IsTables T c w v.net.tables at leaves;
      queues = exit_id-IsQueues T c w at v.net.queues;
    };
    reader_bounded = v.reader_bounded;
    writer_bounded = v.writer_bounded;
  })

  pub Reach-IsValid : {e e' : Engine T} → IsStart T e → Reach T e e' → IsValid e'
  Reach-IsValid s here = start-IsValid s
  Reach-IsValid s (next r st) = Step-IsValid st (Reach-IsValid s r)

  module _ {e e' : Engine T} (s : IsStart T e) (r : Reach T e e') where
    -- No packet is delivered to the wrong peer: in every state that the goroutines reach from a
    -- start without connections and with empty queues, a payload that waits in a channel has the
    -- address that the route table gives to the peer whose goroutine serves that channel.
    pub never_misdelivered : (c : ChanRef) → All (λ p. Serves T e'.net c p.dst) (e'.net.chans c)
    never_misdelivered = (Reach-IsValid s r).net.queues.meant

    -- In every state that the goroutines reach from a start without connections and with
    -- empty queues, the two channels of the device and
    -- the channel of each peer hold at most `ChanSize` payloads.
    queues_bounded :
        (length e'.dev_reader ≤ chan_size)
        × (length e'.dev_writer ≤ chan_size)
        × ((c : ChanRef) → length (e'.net.chans c) ≤ chan_size)
    queues_bounded =
        let v = Reach-IsValid s r in (v.reader_bounded, v.writer_bounded, v.net.queues.bounded)

    -- In every state that the goroutines reach from a start without connections and with empty
    -- queues, a peer has at most one goroutine of those that `addConnByDst` starts: two that have
    -- not ended and serve the same peer are one. Only the router calls `addConnByDst`, and nothing
    -- calls `addConnByID`.
    pub one_worker :
        (c d : ChanRef) (w x : Worker)
        → e'.net.workers c ≡ some w
        → e'.net.workers d ≡ some x
        → w.phase ≢ ended
        → x.phase ≢ ended
        → w.key ≡ x.key
        → c ≡ d
    one_worker c d w x at there live alive same =
        let v = (Reach-IsValid s r).net.tables in
        cc (v.live_id c w at live, v.live_id d x there alive, ap (I.load e'.net.table.id) same)

    -- In every state that the goroutines reach from a start without connections and with empty
    -- queues, the map `addr` has no stale entry: a channel that it holds has a goroutine that runs,
    -- was started for that address, and is the one that the map `id` holds for its peer.
    pub addr_current :
        (a : Addr) (c : ChanRef)
        → A.load e'.net.table.addr a ≡ some c
        → (w : Worker) × (e'.net.workers c ≡ some w)
          × (w.dst ≡ some a)
          × (w.phase ≡ running)
          × (I.load e'.net.table.id w.key ≡ some c)
    addr_current a c h =
        let v = (Reach-IsValid s r).net.tables in
        let (w, at, to, runs) = v.addr_live a c h in
        (w, at, to, runs, v.live_id c w at (λ gone. cc (gone, runs)))
