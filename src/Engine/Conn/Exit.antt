-- ===== src/Engine/Conn/Exit.antt =====
-- The deferred deletions of a goroutine keep the invariant of the route table.
use native.Mathlib.Decide.{ℕ_discrete}
use net_hive.Netip.{Addr, Addr-discrete}
use net_hive.XMap.Cases.{delete_cases}
use net_hive.Engine.{
  PeerId, ChanRef, Maps, Phase, running, leaving, ended, Worker, update, update_self, update_ne,
  update_cases, Net,
}
use net_hive.Engine.Conn.{delete_addr, exit_addr, exit_id}
use net_hive.Engine.Conn.Tables.{Routes, IsTables}
use net_hive.Prelude.{
  ◌≤◌, ◌≡◌, refl, sym, ap, ◌∙◌, ◌≢◌, inl, inr, Option, none, some, Bytes-discrete,
}

module _ (T : Maps) where
  open T use {m as M, id as I, addr as A}

  module _ (c : ChanRef) (w : Worker) {n : Net T} (v : IsTables T n)
      (at : n.workers c ≡ some w) where
    -- Another goroutine is not touched by a change of this one.
    others :
        (x : Worker) (c' : ChanRef) (w' : Worker)
        → c' ≢ c
        → n.workers c' ≡ some w'
        → update n.workers c (some x) c' ≡ some w'
    others x c' w' ne h = update_ne n.workers c c' (some x) ne ∙ h

    module _ (p : Phase) where
      abbrev w' : Worker
      w' = record w { phase = p }

      abbrev workers'' : ChanRef → Option Worker
      workers'' = update n.workers c (some w')

      exit-fresh_none : (c' : ChanRef) → n.fresh ≤ c' → workers'' c' ≡ none
      exit-fresh_none c' h =
          update_ne n.workers c c' (some w') (λ e. old-ne-fresh-le c' h e) ∙ v.fresh_none c' h
        where
          old-ne-fresh-le : (c' : ChanRef) → n.fresh ≤ c' → c' ≡ c → ⊥
          old-ne-fresh-le c' h e = cc (v.fresh_none c' h, at, ap n.workers e)

      exit-owns :
          (c' : ChanRef) (x : Worker) (d : Addr)
          → workers'' c' ≡ some x
          → x.dst ≡ some d
          → Routes T n.table.m x.key d
      exit-owns c' x d h g = elim (update_cases n.workers c c' (some w') (some x) h) [
        | inl (e, f) ↦
            let same : w' ≡ x = cc (f) in
            let key : w.key ≡ x.key = ap (λ (y : Worker). y.key) same in
            rw (← key) (v.owns c w d at (ap (λ (y : Worker). y.dst) same ∙ g))
        | inr (ne, old) ↦ v.owns c' x d old g
      ]

      -- While the goroutine is still there, `id` stays as it was.
      module _ (was : w.phase ≢ ended) (is : p ≢ ended) where
        exit-id_live :
            (k : PeerId) (c' : ChanRef)
            → I.load n.table.id k ≡ some c'
            → (x : Worker) × (workers'' c' ≡ some x) × (x.key ≡ k) × (x.phase ≢ ended)
        exit-id_live k c' h =
            let (x, there, key, live) = v.id_live k c' h in
            elim (ℕ_discrete c' c) [
              | yes e ↦
                  let same : x ≡ w = cc (there, at, ap n.workers e) in
                  (w', cc (update_self n.workers c (some w'), ap workers'' e), cc (key, same), is)
              | no ne ↦ (x, others w' c' x ne there, key, live)
            ]

        exit-live_id :
            (c' : ChanRef) (x : Worker)
            → workers'' c' ≡ some x
            → x.phase ≢ ended
            → I.load n.table.id x.key ≡ some c'
        exit-live_id c' x h live = elim (update_cases n.workers c c' (some w') (some x) h) [
          | inl (e, f) ↦
              let same : w' ≡ x = cc (f) in
              let key : w.key ≡ x.key = ap (λ (y : Worker). y.key) same in
              rw (← key, e) (v.live_id c w at was)
          | inr (ne, old) ↦ v.live_id c' x old live
        ]

      -- Another goroutine that runs keeps its place in `addr`.
      exit-live_addr :
          p ≢ running
          → (c' : ChanRef) (x : Worker) (d : Addr) → workers'' c' ≡ some x
          → x.dst ≡ some d
          → x.phase ≡ running
          → (c' ≢ c) × (A.load n.table.addr d ≡ some c')
      exit-live_addr gone c' x d h g runs =
          elim (update_cases n.workers c c' (some w') (some x) h) [
            | inl (e, f) ↦
                let same : w' ≡ x = cc (f) in
                absurd (gone (ap (λ (y : Worker). y.phase) same ∙ runs))
            | inr (ne, old) ↦ (ne, v.live_addr c' x d old g runs)
          ]

      exit-addr_live :
          (d : Addr) (c' : ChanRef)
          → c' ≢ c
          → A.load n.table.addr d ≡ some c'
          → (x : Worker) × (workers'' c' ≡ some x) × (x.dst ≡ some d) × (x.phase ≡ running)
      exit-addr_live d c' ne h =
          let (x, there, to, runs) = v.addr_live d c' h in (x, others w' c' x ne there, to, runs)

  delete_addr_cases :
      (o : Option Addr) (m : A.Map) (d : Addr) (c : ChanRef)
      → A.load (delete_addr T o m) d ≡ some c
      → (o ≢ some d) × (A.load m d ≡ some c)
  unfolding delete_addr
  delete_addr_cases none m d c h = (λ e. cc (e), h)
  delete_addr_cases (some a) m d c h =
      let (ne, old) = delete_cases A Addr-discrete m a d c h in (λ e. ne (cc (e)), old)

  load-delete_addr_ne :
      (o : Option Addr) (m : A.Map) (d : Addr)
      → o ≢ some d
      → A.load (delete_addr T o m) d ≡ A.load m d
  unfolding delete_addr
  load-delete_addr_ne none m d ne = refl
  load-delete_addr_ne (some a) m d ne = A.load-delete_ne m a d (λ e. ne (ap some e))

  -- What `addr` says of the goroutine of the channel that it holds.
  addr_at :
      (c : ChanRef) (w : Worker) {n : Net T}
      → IsTables T n
      → n.workers c ≡ some w
      → (d : Addr) → A.load n.table.addr d ≡ some c
      → (w.dst ≡ some d) × (w.phase ≡ running)
  addr_at c w v at d h =
      let (x, there, to, runs) = v.addr_live d c h in
      let same : x ≡ w = cc (there, at) in (cc (to, same), cc (runs, same))

  -- `addr.Delete(dst)`, at a goroutine that runs.
  pub exit_addr-IsTables :
      (c : ChanRef) (w : Worker) {n : Net T}
      → IsTables T n
      → n.workers c ≡ some w
      → w.phase ≡ running
      → IsTables T (exit_addr T c w n)
  unfolding exit_addr
  exit_addr-IsTables c w {n} v at runs = record {
    fresh_none = exit-fresh_none c w v at leaving;
    id_live = exit-id_live c w v at leaving (λ e. cc (e, runs)) (λ e. cc (e));
    live_id = exit-live_id c w v at leaving (λ e. cc (e, runs)) (λ e. cc (e));
    addr_live = λ d c' h.
        let (ne, old) = delete_addr_cases w.dst n.table.addr d c' h in
        exit-addr_live c w v at leaving d c' (λ e. ne (addr_at c w v at d (old ∙ ap some e)).0) old;
    live_addr = λ c' x d h g r.
        let (ne, old) = exit-live_addr c w v at leaving (λ e. cc (e)) c' x d h g r in
        load-delete_addr_ne w.dst n.table.addr d (λ to. ne (cc (old, v.live_addr c w d at to runs)))
        ∙ old;
    owns = exit-owns c w v at leaving;
  }

  -- `id.Delete(key)`, after `addr.Delete(dst)`.
  pub exit_id-IsTables :
      (c : ChanRef) (w : Worker) {n : Net T}
      → IsTables T n
      → n.workers c ≡ some w
      → w.phase ≡ leaving
      → IsTables T (exit_id T c w n)
  unfolding exit_id
  exit_id-IsTables c w {n} v at leaves = record {
    fresh_none = exit-fresh_none c w v at ended;
    id_live = λ k c' h.
        let (ne, old) = delete_cases I Bytes-discrete n.table.id w.key k c' h in
        let (x, there, key, live) = v.id_live k c' old in
        (
          x,
          others c w v at (record w { phase = ended }) c' x
              (λ e. ne (cc (key, there, at, ap n.workers e))) there,
          key,
          live,
        );
    live_id = λ c' x h live.
        elim (update_cases n.workers c c' (some (record w { phase = ended })) (some x) h) [
          | inl (e, f) ↦
              let same : record w { phase = ended } ≡ x = cc (f) in
              absurd (live (sym (ap (λ (y : Worker). y.phase) same)))
          | inr (ne, old) ↦
              let here = v.live_id c' x old live in
              I.load-delete_ne n.table.id w.key x.key (λ e.
                ne (cc (here, v.live_id c w at (λ g. cc (g, leaves)), ap (I.load n.table.id) e)))
              ∙ here
        ];
    addr_live = λ d c' h.
        exit-addr_live c w v at ended d c'
          (λ e. cc (leaves, (addr_at c w v at d (h ∙ ap some e)).1)) h;
    live_addr = λ c' x d h g r. (exit-live_addr c w v at ended (λ e. cc (e)) c' x d h g r).1;
    owns = exit-owns c w v at ended;
  }
