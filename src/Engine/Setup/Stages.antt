-- ===== src/Engine/Setup/Stages.antt =====
-- The stages of the method `Run`, any of which may end it.
use net_hive.Prelude.{
  ◌≡◌, refl, ◌≢◌, inl, inr, Option, none, some, List, [], ◌∷◌, if◌then◌else◌, Bytes, Option-cases,
  All, Result, ok, err,
}
use net_hive.Netip.{Prefix}
use net_hive.Config.{Config}
use net_hive.Engine.{Maps, Engine, PeerId}
use net_hive.Engine.Setup.{
  Answers, check, non_empty, store_routes, refused_by, started, start_goroutines, start_services,
  with_name, run,
}

-- The error of a result.
unfoldable pub error_of : {E A : Type 0} → Result E A → Option E
error_of (ok a) = none
error_of (err x) = some x

-- The first error of a list of answers.
unfoldable pub first_error : {E : Type 0} → List (Option E) → Option E
first_error [] = none
first_error (none ∷ rest) = first_error rest
first_error (some x ∷ rest) = some x

-- The answers that `Run` asks for, in its order, those of the services only if they are configured.
unfoldable pub stages : {E R L : Type 0} → Answers E R → Config L → List (Option E)
stages a cfg =
    a.create_tun
    ∷ error_of a.name
    ∷ a.add_address cfg.local_addr
    ∷ a.up
    ∷ (if non_empty cfg.bootstraps then a.enable_dht else none)
    ∷ (if cfg.enable_mdns then a.enable_mdns else none)
    ∷ []

unfoldable pub ends_with : {E A : Type 0} → Option E → A → Result E A
ends_with none a = ok a
ends_with (some x) a = err x

check-first :
    {E A : Type 0} (o : Option E) (rest : List (Option E)) (next : Option (Result E A)) (a : A)
    → next ≡ some (ends_with (first_error rest) a)
    → check o next ≡ some (ends_with (first_error (o ∷ rest)) a)
unfolding check first_error ends_with
check-first none rest next a h = h
check-first (some x) rest next a h = refl

module _ (T : Maps) where
  -- Without a panic of `route.Add` the loop goes through all routes.
  store_routes-some :
      {R : Type 0} (add : Prefix → Option (Option R)) (rs : List (PeerId × Prefix)) (m : T.m.Map)
      → All (λ (k, p). add p ≢ none) rs
      → (out : T.m.Map × List Prefix) × (store_routes T add rs m ≡ some out)
  unfolding store_routes
  store_routes-some add [] m h = ((m, []), refl)
  store_routes-some add ((k, p) ∷ rs) m h = elim (Option-cases (add p)) [
    | inl panics ↦ absurd (h.0 panics)
    | inr (answer, goes) ↦
        let ((m', ps), got) = store_routes-some add rs (T.m.store m k p) h.1 in
        ((m', refused_by T answer p ps), rw (goes, got) refl)
  ]

  after_name :
      {E R L : Type 0} (a : Answers E R) (cfg : Config L) (e : Engine T) (name : Bytes)
      → All (λ (k, p). a.add_route name p ≢ none) cfg.peers_route_table
      → (e' : Engine T) × (start_services T a cfg name e
          ≡ some (
              ends_with
                (first_error (
                  (if non_empty cfg.bootstraps then a.enable_dht else none)
                  ∷ (if cfg.enable_mdns then a.enable_mdns else none)
                  ∷ []))
                (e', started cfg)))
  unfolding start_services start_goroutines first_error ends_with
  after_name a cfg e name h =
      let ((m, ps), got) =
        store_routes-some (a.add_route name) cfg.peers_route_table e.net.table.m h in
      (
        record e { net = record e.net { table = record e.net.table { m = m } } },
        rw got (
            check-first (if non_empty cfg.bootstraps then a.enable_dht else none) _ _ _
              (check-first (if cfg.enable_mdns then a.enable_mdns else none) [] _ _ refl)),
      )

  from_name :
      {E R L : Type 0} (a : Answers E R) (cfg : Config L) (e : Engine T) (r : Result E Bytes)
      → ((name : Bytes) → All (λ (k, p). a.add_route name p ≢ none) cfg.peers_route_table)
      → (e' : Engine T) × (with_name T a cfg e r
          ≡ some (
              ends_with
                (first_error (
                  error_of r
                  ∷ a.add_address cfg.local_addr
                  ∷ a.up
                  ∷ (if non_empty cfg.bootstraps then a.enable_dht else none)
                  ∷ (if cfg.enable_mdns then a.enable_mdns else none)
                  ∷ []))
                (e', started cfg)))
  unfolding with_name error_of first_error ends_with
  from_name a cfg e (err x) h = (e, refl)
  from_name a cfg e (ok name) h =
      let (e', goes) = after_name a cfg e name (h name) in
      (e', check-first (a.add_address cfg.local_addr) _ _ _ (check-first a.up _ _ _ goes))

  -- The method `Run` gets to its end or to its first error. If `route.Add` does not panic on a
  -- prefix of the configuration, whatever the name of the device, then `Run` returns the first
  -- error of its stages, in their order; and if there is none it starts exactly the goroutines that
  -- the configuration asks for. An error of `route.Add` is no error of `Run`.
  pub run_lem :
      {E R L : Type 0} (a : Answers E R) (cfg : Config L) (e : Engine T)
      → ((name : Bytes) → All (λ (k, p). a.add_route name p ≢ none) cfg.peers_route_table)
      → (e' : Engine T) × (run T a cfg e
          ≡ some (ends_with (first_error (stages a cfg)) (e', started cfg)))
  unfolding run stages
  run_lem a cfg e h =
      let (e', goes) = from_name a cfg e a.name h in (e', check-first a.create_tun _ _ _ goes)
