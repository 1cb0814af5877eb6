-- ===== src/Engine/Conn/Tables.antt =====
-- The invariant of the route table and its goroutines: the maps `id` and `addr` hold exactly the
-- goroutines that are there.
use net_hive.Prelude.{
  subst, ◌+◌, ◌≤◌, ◌≡◌, refl, ap, ◌∙◌, ◌≢◌, inl, inr, Option, none, some, List, arith,
  Bytes-discrete, Option-cases,
}
use net_hive.Engine.Conn.{conn_for, add_conn_by_id}
use net_hive.Netip.{Addr-discrete, Addr, Prefix}
use net_hive.XMap.Cases.{store_cases}
use net_hive.Engine.{
  Payload, PeerId, ChanRef, Maps, running, ended, Worker, update, update_self, update_ne,
  update_cases, Net,
}

module _ (T : Maps) where
  open T use {m as M, id as I, addr as A}

  -- The peer routes to the address.
  pub record Routes (m : M.Map) (key : PeerId) (d : Addr) : Type 0 where
    pub value : Prefix
    pub known : M.load m key ≡ some value
    pub same : value.addr ≡ d

  pub record IsTables (n : Net T) : Type 0 where
    pub fresh_none : (c : ChanRef) → n.fresh ≤ c → n.workers c ≡ none
    -- A channel that `id` holds has a goroutine, for that peer, which has not ended, and the other
    -- way round: so a peer has at most one.
    pub id_live :
        (k : PeerId) (c : ChanRef)
        → I.load n.table.id k ≡ some c
        → (w : Worker) × (n.workers c ≡ some w) × (w.key ≡ k) × (w.phase ≢ ended)
    pub live_id :
        (c : ChanRef) (w : Worker)
        → n.workers c ≡ some w
        → w.phase ≢ ended
        → I.load n.table.id w.key ≡ some c
    -- A channel that `addr` holds has a goroutine that runs and was started for that address, and
    -- the other way round.
    pub addr_live :
        (d : Addr) (c : ChanRef)
        → A.load n.table.addr d ≡ some c
        → (w : Worker) × (n.workers c ≡ some w) × (w.dst ≡ some d) × (w.phase ≡ running)
    pub live_addr :
        (c : ChanRef) (w : Worker) (d : Addr)
        → n.workers c ≡ some w
        → w.dst ≡ some d
        → w.phase ≡ running
        → A.load n.table.addr d ≡ some c
    -- A goroutine that was started for an address serves a peer that routes to it.
    pub owns :
        (c : ChanRef) (w : Worker) (d : Addr)
        → n.workers c ≡ some w
        → w.dst ≡ some d
        → Routes n.table.m w.key d

  module _ {n : Net T} (v : IsTables n) where
    -- A channel with a goroutine is not the next one.
    old-ne-fresh : (c : ChanRef) (w : Worker) → n.workers c ≡ some w → c ≢ n.fresh
    old-ne-fresh c w h e = cc (h, v.fresh_none c (omega (arith, e)))

    -- A new goroutine leaves those alone that are there.
    kept :
        (c : ChanRef) (w x : Worker)
        → n.workers c ≡ some w
        → update n.workers n.fresh (some x) c ≡ some w
    kept c w x h = update_ne n.workers n.fresh c (some x) (old-ne-fresh c w h) ∙ h

    module _ (x : Worker) (starts : x.phase ≡ running) (new : I.load n.table.id x.key ≡ none) where
      abbrev workers' : ChanRef → Option Worker
      workers' = update n.workers n.fresh (some x)

      abbrev id' : I.Map
      id' = I.store n.table.id x.key n.fresh

      open-fresh_none : (c : ChanRef) → n.fresh + 1 ≤ c → workers' c ≡ none
      open-fresh_none c h =
          update_ne n.workers n.fresh c (some x) (λ e. omega (arith, e))
          ∙ v.fresh_none c (omega arith)

      open-id_live :
          (k : PeerId) (c : ChanRef)
          → I.load id' k ≡ some c
          → (w : Worker) × (workers' c ≡ some w) × (w.key ≡ k) × (w.phase ≢ ended)
      open-id_live k c h = elim (store_cases I Bytes-discrete n.table.id x.key k n.fresh c h) [
        | inl (e, f) ↦
            (x, rw (← f) (update_self n.workers n.fresh (some x)), e, λ p. cc (p, starts))
        | inr (ne, old) ↦
            let (w, at, key, live) = v.id_live k c old in (w, kept c w x at, key, live)
      ]

      open-live_id :
          (c : ChanRef) (w : Worker)
          → workers' c ≡ some w
          → w.phase ≢ ended
          → I.load id' w.key ≡ some c
      open-live_id c w h live = elim (update_cases n.workers n.fresh c (some x) (some w) h) [
        | inl (e, f) ↦
            cc (I.load-store_self n.table.id x.key n.fresh, ap (λ (o : Option Worker). o) f, e)
        | inr (ne, old) ↦
            let here = v.live_id c w old live in
            I.load-store_ne n.table.id x.key w.key n.fresh
              (λ e. cc (new, here, ap (I.load n.table.id) e))
            ∙ here
      ]

      open-owns :
          ((d : Addr) → x.dst ≡ some d → Routes n.table.m x.key d)
          → (c : ChanRef) (w : Worker) (d : Addr) → workers' c ≡ some w
          → w.dst ≡ some d
          → Routes n.table.m w.key d
      open-owns route c w d h g = elim (update_cases n.workers n.fresh c (some x) (some w) h) [
        | inl (e, f) ↦
            let same : x ≡ w = cc (f) in
            subst (λ (y : Worker). Routes n.table.m y.key d) same (route d (cc (g, same)))
        | inr (ne, old) ↦ v.owns c w d old g
      ]

      -- A goroutine with no address.
      module _ (nowhere : x.dst ≡ none) where
        bare-addr_live :
            (d : Addr) (c : ChanRef)
            → A.load n.table.addr d ≡ some c
            → (w : Worker) × (workers' c ≡ some w) × (w.dst ≡ some d) × (w.phase ≡ running)
        bare-addr_live d c h =
            let (w, at, to, runs) = v.addr_live d c h in (w, kept c w x at, to, runs)

        bare-live_addr :
            (c : ChanRef) (w : Worker) (d : Addr)
            → workers' c ≡ some w
            → w.dst ≡ some d
            → w.phase ≡ running
            → A.load n.table.addr d ≡ some c
        bare-live_addr c w d h g runs =
            elim (update_cases n.workers n.fresh c (some x) (some w) h) [
              | inl (e, f) ↦ cc (f, g, nowhere)
              | inr (ne, old) ↦ v.live_addr c w d old g runs
            ]

      -- A goroutine with the address `a`, which has none yet.
      module _ (a : Addr) (to : x.dst ≡ some a) (free : A.load n.table.addr a ≡ none) where
        abbrev addr' : A.Map
        addr' = A.store n.table.addr a n.fresh

        open-addr_live :
            (d : Addr) (c : ChanRef)
            → A.load addr' d ≡ some c
            → (w : Worker) × (workers' c ≡ some w) × (w.dst ≡ some d) × (w.phase ≡ running)
        open-addr_live d c h = elim (store_cases A Addr-discrete n.table.addr a d n.fresh c h) [
          | inl (e, f) ↦
              (x, rw (← f) (update_self n.workers n.fresh (some x)), to ∙ ap some e, starts)
          | inr (ne, old) ↦
              let (w, at, for, runs) = v.addr_live d c old in (w, kept c w x at, for, runs)
        ]

        open-live_addr :
            (c : ChanRef) (w : Worker) (d : Addr)
            → workers' c ≡ some w
            → w.dst ≡ some d
            → w.phase ≡ running
            → A.load addr' d ≡ some c
        open-live_addr c w d h g runs =
            elim (update_cases n.workers n.fresh c (some x) (some w) h) [
              | inl (e, f) ↦
                  let same : x ≡ w = cc (f) in
                  let here : a ≡ d = cc (to, g, same) in
                  cc (A.load-store_self n.table.addr a n.fresh, here, e)
              | inr (ne, old) ↦
                  let there = v.live_addr c w d old g runs in
                  A.load-store_ne n.table.addr a d n.fresh
                    (λ e. cc (free, there, ap (A.load n.table.addr) e))
                  ∙ there
            ]

  -- `addConnByDst` keeps the invariant at a peer that routes to the address, if no channel is there
  -- for the address.
  pub conn_for-IsTables :
      (dst : Addr) (key : PeerId) {n : Net T}
      → IsTables n
      → A.load n.table.addr dst ≡ none
      → Routes n.table.m key dst
      → IsTables (conn_for T dst key n).1
  unfolding conn_for
  conn_for-IsTables dst key {n} v free route = elim (Option-cases (I.load n.table.id key)) [
    | inl new ↦
        let x : Worker = record { key = key; dst = some dst; phase = running } in
        rw (new, conn_for)
          (record {
            fresh_none = open-fresh_none v x refl new;
            id_live = open-id_live v x refl new;
            live_id = open-live_id v x refl new;
            addr_live = open-addr_live v x refl new dst refl free;
            live_addr = open-live_addr v x refl new dst refl free;
            owns = open-owns v x refl new (λ d e. subst (Routes n.table.m key) (cc (e)) route);
          })
    | inr (c, old) ↦ rw (old, conn_for) v
  ]

  pub add_conn_by_id-IsTables :
      (id : PeerId) {n : Net T} → IsTables n → IsTables (add_conn_by_id T id n).1
  unfolding add_conn_by_id
  add_conn_by_id-IsTables id {n} v = elim (Option-cases (I.load n.table.id id)) [
    | inl new ↦
        let x : Worker = record { key = id; dst = none; phase = running } in
        rw (new, add_conn_by_id)
          (record {
            fresh_none = open-fresh_none v x refl new;
            id_live = open-id_live v x refl new;
            live_id = open-live_id v x refl new;
            addr_live = bare-addr_live v x refl new refl;
            live_addr = bare-live_addr v x refl new refl;
            owns = open-owns v x refl new (λ d e. cc (e));
          })
    | inr (c, old) ↦ rw (old, add_conn_by_id) v
  ]

  -- The contents of the channels do not matter.
  pub chans-IsTables :
      {n : Net T} (f : ChanRef → List Payload) → IsTables n → IsTables (record n { chans = f })
  chans-IsTables f v = record {
    fresh_none = v.fresh_none;
    id_live = v.id_live;
    live_id = v.live_id;
    addr_live = v.addr_live;
    live_addr = v.live_addr;
    owns = v.owns;
  }
