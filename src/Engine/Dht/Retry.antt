-- ===== src/Engine/Dht/Retry.antt =====
-- The loop that retries the connection to the bootstrap nodes.
use net_hive.Engine.Dht.{Wake, done, tick, advertised, cancelled, bootstraps_loop}
use net_hive.Prelude.{
  ℕ, zero, suc, ◌+◌, ◌≡◌, refl, ap, ◌∙◌, Bool, true, false, none, some, List, ◌∷◌, ◌++◌, arith,
  replicate,
}

-- `n` attempts that fail, each followed by a tick.
abbrev pub failures : ℕ → List (Bool × Wake)
failures n = replicate n (false, tick)

-- `connectBootstrapsLoop` tries again at each tick for as long as the attempts fail. The first that
-- succeeds ends it, whatever comes later, and so does a cancelled context after a failure; the
-- count is then that of the last attempt.
pub bootstraps_loop_lem :
    (n i : ℕ) (last : Wake) (rest : List (Bool × Wake))
    → (bootstraps_loop i (failures n) ≡ none)
      × (bootstraps_loop i (failures n ++ (true, last) ∷ rest) ≡ some (advertised (i + n)))
      × (bootstraps_loop i (failures n ++ (false, done) ∷ rest) ≡ some (cancelled (i + n)))
unfolding bootstraps_loop
bootstraps_loop_lem zero i last rest =
    (refl, ap (λ k. some (advertised k)) (omega arith), ap (λ k. some (cancelled k)) (omega arith))
bootstraps_loop_lem (suc n) i last rest =
    let (waits, ends, stops) = bootstraps_loop_lem n (i + 1) last rest in
    (
      waits,
      ends ∙ ap (λ k. some (advertised k)) (omega arith),
      stops ∙ ap (λ k. some (cancelled k)) (omega arith),
    )
