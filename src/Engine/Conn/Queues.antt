-- ===== src/Engine/Conn/Queues.antt =====
-- What waits in a peer's channel is meant for that peer.
use native.Mathlib.Nat.{le_refl}
use net_hive.Netip.{Addr}
use net_hive.Engine.{
  try_send-some, try_send, ℕ_discrete, Payload, PeerId, ChanRef, Maps, running, leaving, ended,
  Worker, update, update_self, update_ne, Net, chan_size,
}
use net_hive.Engine.Conn.{conn_for, add_conn_by_id, exit_addr, exit_id}
use net_hive.Engine.Conn.Tables.{Routes, IsTables}
use net_hive.Prelude.{
  ◌≤◌, ◌≡◌, refl, ap, ◌∙◌, ◌⊎◌, inl, inr, Option, none, some, List, [], ◌∷◌, ◌++◌, arith, ◌==◌,
  ==_iff, Bool-cases, Option-cases, length, All,
}

module _ (T : Maps) where
  open T use {m as M, id as I, addr as A}

  -- The channel has a goroutine, and its peer routes to the address.
  pub record Serves (n : Net T) (c : ChanRef) (d : Addr) : Type 0 where
    pub worker : Worker
    pub at : n.workers c ≡ some worker
    pub to : Routes T n.table.m worker.key d

  pub record IsQueues (n : Net T) : Type 0 where
    pub bounded : (c : ChanRef) → length (n.chans c) ≤ chan_size
    pub meant : (c : ChanRef) → All (λ p. Serves n c p.dst) (n.chans c)

  -- From one state to the next, goroutines keep their peers and routes stay.
  abbrev pub Keeps : Net T → Net T → Type 0
  Keeps n n' = (c : ChanRef) (d : Addr) → Serves n c d → Serves n' c d

  Serves-map :
      {n n' : Net T}
      → Keeps n n'
      → (c : ChanRef) (ps : List Payload) → All (λ p. Serves n c p.dst) ps
      → All (λ p. Serves n' c p.dst) ps
  Serves-map k c [] h = tt
  Serves-map k c (p ∷ ps) h = (k c p.dst h.0, Serves-map k c ps h.1)

  pub IsQueues-map :
      {n n' : Net T}
      → Keeps n n'
      → ((c : ChanRef) → (n'.chans c ≡ n.chans c) ⊎ (n'.chans c ≡ []))
      → IsQueues n
      → IsQueues n'
  IsQueues-map {n} {n'} k same q = record {
    bounded = λ c. elim (same c) [ inl e ↦ rw e (q.bounded c) | inr e ↦ rw e (omega arith) ];
    meant = λ c. elim (same c) [
      | inl e ↦ rw e (Serves-map k c (n.chans c) (q.meant c))
      | inr e ↦ rw e tt
    ];
  }

  -- A change of one goroutine that keeps its peer.
  module _ (c : ChanRef) (w x : Worker) {n : Net T} (at : n.workers c ≡ some w)
      (key : x.key ≡ w.key) where
    workers-Keeps :
        (n' : Net T)
        → n'.workers ≡ update n.workers c (some x)
        → n'.table.m ≡ n.table.m
        → Keeps n n'
    workers-Keeps n' e f c' d s = elim (ℕ_discrete c' c) [
      | yes g ↦
          let same : s.worker ≡ w = cc (s.at, at, ap n.workers g) in
          record {
            worker = x;
            at =
                ap (λ (f : ChanRef → Option Worker). f c') e
                ∙ (ap (update n.workers c (some x)) g ∙ update_self n.workers c (some x));
            to = rw (f, key, ← same) s.to;
          }
      | no ne ↦ record {
        worker = s.worker;
        at =
            ap (λ (f : ChanRef → Option Worker). f c') e
            ∙ (update_ne n.workers c c' (some x) ne ∙ s.at);
        to = rw f s.to;
      }
    ]

  pub exit_addr-IsQueues :
      (c : ChanRef) (w : Worker) {n : Net T}
      → n.workers c ≡ some w
      → IsQueues n
      → IsQueues (exit_addr T c w n)
  unfolding exit_addr
  exit_addr-IsQueues c w at q =
      IsQueues-map (workers-Keeps c w (record w { phase = leaving }) at refl _ refl refl)
        (λ c'. inl refl) q

  pub exit_id-IsQueues :
      (c : ChanRef) (w : Worker) {n : Net T}
      → n.workers c ≡ some w
      → IsQueues n
      → IsQueues (exit_id T c w n)
  unfolding exit_id
  exit_id-IsQueues c w at q =
      IsQueues-map (workers-Keeps c w (record w { phase = ended }) at refl _ refl refl)
        (λ c'. inl refl) q

  -- A new goroutine in a number that none has.
  open-Keeps :
      (x : Worker) {n : Net T} (n' : Net T)
      → IsTables T n
      → n'.workers ≡ update n.workers n.fresh (some x)
      → n'.table.m ≡ n.table.m
      → Keeps n n'
  open-Keeps x {n} n' v e f c d s = record {
    worker = s.worker;
    at =
        ap (λ (g : ChanRef → Option Worker). g c) e
        ∙ (update_ne n.workers n.fresh c (some x)
              (λ g. cc (s.at, v.fresh_none n.fresh (le_refl n.fresh), ap n.workers g))
            ∙ s.at);
    to = rw f s.to;
  }

  open-chans :
      (n : Net T) (c : ChanRef)
      → (update n.chans n.fresh [] c ≡ n.chans c) ⊎ (update n.chans n.fresh [] c ≡ [])
  open-chans n c = elim (Bool-cases (c == n.fresh)) [ inl e ↦ inr (rw e) | inr e ↦ inl (rw e) ]

  -- `conn_for` keeps the queues, and its channel serves the address.
  pub conn_for-IsQueues :
      (dst : Addr) (key : PeerId) {n : Net T}
      → IsTables T n
      → IsQueues n
      → Routes T n.table.m key dst
      → let (c, n') = conn_for T dst key n in IsQueues n' × Serves n' c dst
  unfolding conn_for
  conn_for-IsQueues dst key {n} v q route = elim (Option-cases (I.load n.table.id key)) [
    | inl new ↦
        let x : Worker = record { key = key; dst = some dst; phase = running } in
        rw (new, conn_for)
          (
            IsQueues-map (open-Keeps x _ v refl refl) (open-chans n) q,
            record { worker = x; at = update_self n.workers n.fresh (some x); to = route },
          )
    | inr (c, old) ↦
        rw (old, conn_for)
          (
            q,
            let (w, at, same, live) = v.id_live key c old in
                record { worker = w; at = at; to = rw same route },
          )
  ]

  pub add_conn_by_id-IsQueues :
      (id : PeerId) {n : Net T} → IsTables T n → IsQueues n → IsQueues (add_conn_by_id T id n).1
  unfolding add_conn_by_id
  add_conn_by_id-IsQueues id {n} v q = elim (Option-cases (I.load n.table.id id)) [
    | inl new ↦
        let x : Worker = record { key = id; dst = none; phase = running } in
        rw (new, add_conn_by_id) (IsQueues-map (open-Keeps x _ v refl refl) (open-chans n) q)
    | inr (c, old) ↦ rw (old, add_conn_by_id) q
  ]

  All-snoc :
      (P : Payload → Type 0) (ps : List Payload) (p : Payload)
      → All P ps
      → P p
      → All P (ps ++ p ∷ [])
  All-snoc P [] p h g = (g, tt)
  All-snoc P (x ∷ ps) p h g = (h.0, All-snoc P ps p h.1 g)

  -- One channel gets another content.
  set-IsQueues :
      (c : ChanRef) {n : Net T} (ps : List Payload)
      → length ps ≤ chan_size
      → All (λ p. Serves n c p.dst) ps
      → IsQueues n
      → IsQueues (record n { chans = update n.chans c ps })
  set-IsQueues c {n} ps small meant q = record {
    bounded =
        λ c'. elim (Bool-cases (c' == c)) [ inl e ↦ rw e small | inr e ↦ rw e (q.bounded c') ];
    meant = λ c'. elim (Bool-cases (c' == c)) [
      | inl e ↦
          let here = (==_iff c' c).0 e in
          rw e (
            Serves-map {n = n} (λ i d s. record { worker = s.worker; at = s.at; to = s.to }) c' ps
              (rw here meant))
      | inr e ↦ rw e (
          Serves-map (λ i d s. record { worker = s.worker; at = s.at; to = s.to }) c' (n.chans c')
            (q.meant c'))
    ];
  }

  -- A payload that joins the queue of a channel that serves its address.
  pub send-IsQueues :
      (c : ChanRef) (p : Payload) {n : Net T} {ps : List Payload}
      → IsQueues n
      → Serves n c p.dst
      → try_send (n.chans c) p ≡ some ps
      → IsQueues (record n { chans = update n.chans c ps })
  send-IsQueues c p {n} {ps} q s h =
      let (is, small) = try_send-some (n.chans c) p ps h in
      set-IsQueues c ps small (rw is (All-snoc _ (n.chans c) p (q.meant c) s)) q

  -- The head of a queue that is taken away.
  pub take-IsQueues :
      (c : ChanRef) {n : Net T} {p : Payload} {ps : List Payload}
      → IsQueues n
      → n.chans c ≡ p ∷ ps
      → IsQueues (record n { chans = update n.chans c ps })
  take-IsQueues c {n} {p} {ps} q h =
      let meant : All (λ p. Serves n c p.dst) (p ∷ ps) = rw h at (q.meant c) in
      set-IsQueues c ps (omega (arith, ap length h, q.bounded c)) meant.1 q
