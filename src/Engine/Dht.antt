-- ===== src/Engine/Dht.antt =====
-- core/engine/dht.go: the connection to the bootstrap nodes, and the loop that retries it.
pub mod Bootstraps
pub mod Retry
mod Tests
use net_hive.Prelude.{
  ℕ, ◌+◌, Bool, true, false, Option, none, some, List, [], ◌∷◌, leb, if◌then◌else◌, Bytes, length,
  Result, ok, err,
}

-- What libp2p does: `peer.AddrInfoFromString`, `none` for its error, and whether `host.Connect`
-- succeeds.
pub record Dialer : Type 1 where
  pub AddrInfo : Type 0
  pub parse : Bytes → Option AddrInfo
  pub connect : AddrInfo → Bool

pub data BootstrapError : Type 0 where
  no_bootstrap : BootstrapError

-- `EnableDHT`, at the answers of `dht.New` and of its `Bootstrap`, where `none` is `nil`: the
-- error, or the DHT with which the loop is started.
unfoldable pub enable_dht : {Dht E : Type 0} → Result E Dht → (Dht → Option E) → Result E Dht
enable_dht (err x) bootstrap = err x
enable_dht (ok d) bootstrap = elim (bootstrap d) [ some x ↦ err x | none ↦ ok d ]

module _ (D : Dialer) where
  open D use {AddrInfo, parse, connect}

  -- The addresses for which a goroutine is started; one that does not parse is skipped.
  pub dialled : List Bytes → List AddrInfo
  dialled [] = []
  dialled (s ∷ ss) = elim (parse s) [ none ↦ dialled ss | some a ↦ a ∷ dialled ss ]

  -- What the goroutines report: `true` on the channel `sc`, `false` on `fc`.
  pub reports : List AddrInfo → List Bool
  reports [] = []
  reports (a ∷ infos) = connect a ∷ reports infos

-- The loop over `fcnt`, at the reports in the order in which `select` takes them. `none`: it waits
-- for a report that never comes.
unfoldable pub wait_reports :
    (total fcnt : ℕ) → List Bool → Option (Result BootstrapError (Unit {0}))
wait_reports total fcnt [] = none
wait_reports total fcnt (true ∷ rs) = some (ok tt)
wait_reports total fcnt (false ∷ rs) =
    let rest = wait_reports total (fcnt + 1) rs in
    if leb total (fcnt + 1) then some (err no_bootstrap) else rest

-- `connectBootstraps`, at the reports in some order.
unfoldable pub connect_bootstraps :
    List Bytes → List Bool → Option (Result BootstrapError (Unit {0}))
connect_bootstraps bootstraps arrived = wait_reports (length bootstraps) 0 arrived

-- How `select` ends between two attempts of `connectBootstrapsLoop`.
pub data Wake : Type 0 where
  done tick : Wake

pub data LoopEnd : Type 0 where
  advertised cancelled : ℕ → LoopEnd

-- `connectBootstrapsLoop`: each attempt succeeds or fails, and then the loop wakes up. The number
-- is the count `i` of the last attempt; `none`: it is still in the loop.
pub bootstraps_loop : ℕ → List (Bool × Wake) → Option LoopEnd
bootstraps_loop i [] = none
bootstraps_loop i ((success, wake) ∷ rest) =
    let later = bootstraps_loop (i + 1) rest in
    if success then some (advertised i) else elim wake [ done ↦ some (cancelled i) | tick ↦ later ]
