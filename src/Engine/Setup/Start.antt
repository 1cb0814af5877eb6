-- ===== src/Engine/Setup/Start.antt =====
-- The state in which the engine's goroutines start.
use net_hive.Netip.{Prefix}
use net_hive.Config.{Config}
use net_hive.Engine.{Maps, Engine, PeerId}
use net_hive.Engine.System.{IsStart}
use net_hive.Engine.Setup.{
  Goroutine, Answers, check, non_empty, new_engine, store_routes, started, start_services,
  start_goroutines, with_name, run,
}
use net_hive.Prelude.{
  ◌≡◌, refl, sym, ap, subst, ◌∙◌, ◌≢◌, inl, inr, Option, none, some, List, [], ◌∷◌, if◌then◌else◌,
  Bytes, Option-cases, All, Result, ok, Result-cases,
}

-- The keys of a Go map are distinct.
unfoldable pub Distinct : List (PeerId × Prefix) → Type 0
Distinct [] = Unit
Distinct ((k, v) ∷ rs) = All (λ r. r.0 ≢ k) rs × Distinct rs

module _ (T : Maps) where
  open T use {m as M}

  store_routes-cons :
      {E : Type 0} (add : Prefix → Option (Option E)) (k : PeerId) (v : Prefix)
      (rs : List (PeerId × Prefix)) (m m' : M.Map) (ps : List Prefix)
      → store_routes T add ((k, v) ∷ rs) m ≡ some (m', ps)
      → (qs : List Prefix) × (store_routes T add rs (M.store m k v) ≡ some (m', qs))
  unfolding store_routes
  store_routes-cons add k v rs m m' ps h = elim (Option-cases (add v)) [
    | inl panics ↦ cc (rw panics at h)
    | inr (answer, goes) ↦ elim (Option-cases (store_routes T add rs (M.store m k v))) [
      | inl panics ↦ cc (rw (goes, panics) at h)
      | inr ((m1, qs), rest) ↦
          let same : m1 ≡ m' = cc (rw (goes, rest) at h) in
          (qs, rest ∙ ap (λ (x : M.Map). some (x, qs)) same)
    ]
  ]

  -- A key that is not in the list keeps its value.
  store_routes-other :
      {E : Type 0} (add : Prefix → Option (Option E)) (k : PeerId) (rs : List (PeerId × Prefix))
      (m m' : M.Map) (ps : List Prefix)
      → All (λ r. r.0 ≢ k) rs
      → store_routes T add rs m ≡ some (m', ps)
      → M.load m' k ≡ M.load m k
  unfolding store_routes
  store_routes-other add k [] m m' ps h got =
      let same : m ≡ m' = cc (got) in ap (λ (x : M.Map). M.load x k) (sym same)
  store_routes-other add k ((j, v) ∷ rs) m m' ps h got =
      let (qs, rest) = store_routes-cons add j v rs m m' ps got in
      store_routes-other add k rs (M.store m j v) m' qs h.1 rest ∙ M.load-store_ne m j k v h.0

  store_routes-load :
      {E : Type 0} (add : Prefix → Option (Option E)) (rs : List (PeerId × Prefix)) (m m' : M.Map)
      (ps : List Prefix)
      → Distinct rs
      → store_routes T add rs m ≡ some (m', ps)
      → All (λ (k, v). M.load m' k ≡ some v) rs
  unfolding Distinct
  store_routes-load add [] m m' ps h got = tt
  store_routes-load add ((k, v) ∷ rs) m m' ps h got =
      let (qs, rest) = store_routes-cons add k v rs m m' ps got in
      (
        store_routes-other add k rs (M.store m k v) m' qs h.0 rest ∙ M.load-store_self m k v,
        store_routes-load add rs (M.store m k v) m' qs h.1 rest,
      )

  check-ok :
      {E A : Type 0} (o : Option E) (next : Option (Result E A)) (a : A)
      → check o next ≡ some (ok a)
      → (o ≡ none) × (next ≡ some (ok a))
  unfolding check
  check-ok none next a h = (refl, h)
  check-ok (some x) next a h = cc (h)

  -- What holds when the goroutines start.
  pub record Ready {L : Type 0} (cfg : Config L) (e : Engine T) (gs : List Goroutine) : Type 0 where
    pub is_start : IsStart T e
    pub routes : All (λ (k, v). M.load e.net.table.m k ≡ some v) cfg.peers_route_table
    pub others :
        (k : PeerId) → All (λ r. r.0 ≢ k) cfg.peers_route_table → M.load e.net.table.m k ≡ none
    pub broadcast : e.enable_broadcast ≡ cfg.enable_broadcast
    pub goroutines : gs ≡ started cfg

  start_goroutines-Ready :
      {E R L : Type 0} (a : Answers E R) (cfg : Config L) (m : M.Map) {e : Engine T}
      {gs : List Goroutine}
      → All (λ (k, v). M.load m k ≡ some v) cfg.peers_route_table
      → ((k : PeerId) → All (λ r. r.0 ≢ k) cfg.peers_route_table → M.load m k ≡ none)
      → start_goroutines T a cfg (new_engine T cfg) m ≡ some (ok (e, gs))
      → Ready cfg e gs
  unfolding start_goroutines new_engine
  start_goroutines-Ready a cfg m {e} {gs} known nobody h =
      let (dht, h1) =
        check-ok (if non_empty cfg.bootstraps then a.enable_dht else none) _ (e, gs) h in
      let (mdns, h2) = check-ok (if cfg.enable_mdns then a.enable_mdns else none) _ (e, gs) h1 in
      let start = new_engine T cfg in
      let e1 : Engine T = record start {
        net = record start.net { table = record start.net.table { m = m } };
      } in
      let is : (e1, started cfg) ≡ (e, gs) = cc (h2) in
      subst (λ (p : Engine T × List Goroutine). Ready cfg p.0 p.1) is
        (record {
          is_start = record {
            no_workers = λ c. refl;
            no_queues = λ c. refl;
            id_empty = refl;
            addr_empty = refl;
            reader_empty = refl;
            writer_empty = refl;
            no_streams = refl;
            no_handlers = refl;
          };
          routes = known;
          others = nobody;
          broadcast = refl;
          goroutines = refl;
        })

  start_services-Ready :
      {E R L : Type 0} (a : Answers E R) (cfg : Config L) (name : Bytes) {e : Engine T}
      {gs : List Goroutine}
      → Distinct cfg.peers_route_table
      → start_services T a cfg name (new_engine T cfg) ≡ some (ok (e, gs))
      → Ready cfg e gs
  unfolding start_services new_engine
  start_services-Ready a cfg name d h =
      let stored =
        store_routes T (a.add_route name) cfg.peers_route_table (new_engine T cfg).net.table.m in
      elim (Option-cases stored) [
        | inl panics ↦ cc (rw panics at h)
        | inr ((m, ps), got) ↦
            start_goroutines-Ready a cfg m
              (store_routes-load (a.add_route name) cfg.peers_route_table _ m ps d got)
              (λ k absent.
                store_routes-other (a.add_route name) k cfg.peers_route_table M.empty m ps absent
                  got
                ∙ M.load-empty k)
              (rw got at h)
      ]

  -- When the method `Run` gets as far as its goroutines, with the engine that the function `Run`
  -- makes of a configuration whose peers are distinct, the engine is in the start state: without
  -- connections and with empty queues. Its route table has every peer of the configuration with its
  -- prefix, also where the operating system refuses the route, and no other peer, and the three
  -- loops are started, with the services that the configuration asks for.
  pub run-Ready :
      {E R L : Type 0} (a : Answers E R) (cfg : Config L) {e : Engine T} {gs : List Goroutine}
      → Distinct cfg.peers_route_table
      → run T a cfg (new_engine T cfg) ≡ some (ok (e, gs))
      → Ready cfg e gs
  unfolding run with_name
  run-Ready a cfg {e} {gs} d h =
      let (tun, h1) = check-ok a.create_tun _ (e, gs) h in
      elim (Result-cases a.name) [
        | inr (x, fails) ↦ cc (rw (fails, with_name) at h1)
        | inl (name, named) ↦
            let (addr, h2) =
              check-ok (a.add_address cfg.local_addr) _ (e, gs) (rw (named, with_name) at h1) in
            let (up, h3) = check-ok a.up _ (e, gs) h2 in start_services-Ready a cfg name d h3
      ]
