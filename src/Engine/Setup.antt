-- ===== src/Engine/Setup.antt =====
-- core/engine/engine.go: `Run`, which makes an engine, and its method `Run`, which starts it.
use net_hive.Prelude.{
  ◌+◌, Bool, true, false, not, ◌&&◌, Option, none, some, List, [], ◌∷◌, ◌++◌, if◌then◌else◌, Bytes,
  Result, ok, err, ◌>>=◌,
}
pub mod Start
pub mod Make
pub mod Relays
pub mod Stages
pub mod OnDevice
pub mod Table
pub mod Order
pub mod Configured
mod Tests
use net_hive.Netip.{Prefix}
use net_hive.Config.{Config}
use net_hive.Engine.{Maps, Engine, PeerId}

-- The goroutines that `Run` starts. The first three are those of the engine's optional services.
pub data Goroutine : Type 0 where
  bootstraps mdns relay_finder tun_reader tun_writer route_table_writer : Goroutine

-- What the device, the operating system and libp2p answer; `none` is `nil`. Only `route.Add` may
-- panic, in which case its answer is `none`.
pub record Answers (E R : Type 0) : Type 0 where
  pub create_tun : Option E
  pub name : Result E Bytes
  pub add_address : Prefix → Option E
  pub up : Option E
  pub add_route : Bytes → Prefix → Option (Option R)
  pub enable_dht : Option E
  pub enable_mdns : Option E

-- `if err != nil { return err }`
unfoldable pub check : {E A : Type 0} → Option E → Option (Result E A) → Option (Result E A)
check none next = next
check (some x) next = some (err x)

unfoldable pub non_empty : {A : Type 0} → List A → Bool
non_empty [] = false
non_empty (x ∷ xs) = true

-- The goroutines that a configuration asks for.
unfoldable pub started : {L : Type 0} → Config L → List Goroutine
started cfg =
    (if non_empty cfg.bootstraps then bootstraps ∷ [] else [])
    ++ ((if cfg.enable_mdns then mdns ∷ [] else [])
        ++ ((if not (non_empty cfg.relays) && cfg.enable_auto_relay then relay_finder ∷ [] else [])
            ++ (tun_reader ∷ tun_writer ∷ route_table_writer ∷ [])))

module _ (T : Maps) where
  -- The engine that `Run` returns, before the device is there.
  unfoldable pub new_engine : {L : Type 0} → Config L → Engine T
  new_engine cfg = record {
    enable_broadcast = cfg.enable_broadcast;
    net = record {
      table = record { m = T.m.empty; id = T.id.empty; addr = T.addr.empty };
      chans = λ _. [];
      workers = λ _. none;
      fresh = 0;
    };
    dev_reader = [];
    dev_writer = [];
    buffers = 0;
    payloads = [];
    packets = [];
    streams = [];
    handlers = [];
  }

  abbrev pub refused_by : {R : Type 0} → Option R → Prefix → List Prefix → List Prefix
  refused_by none prefix ps = ps
  refused_by (some x) prefix ps = prefix ∷ ps

  -- The loop over `PeersRouteTable`: the route is stored, and then given to the operating system,
  -- whose error is only logged. The list is that of the prefixes for which that failed; `none` is a
  -- panic.
  unfoldable pub store_routes :
      {E : Type 0}
      → (Prefix → Option (Option E))
      → List (PeerId × Prefix)
      → T.m.Map
      → Option (T.m.Map × List Prefix)
  store_routes add [] m = some (m, [])
  store_routes add ((id, prefix) ∷ routes) m = do
    answer ← add prefix
    (m', refused) ← store_routes add routes (T.m.store m id prefix)
    some (m', refused_by answer prefix refused)

  -- The method `Run` from the first optional service on.
  unfoldable pub start_goroutines :
      {E R L : Type 0}
      → Answers E R
      → Config L
      → Engine T
      → T.m.Map
      → Option (Result E (Engine T × List Goroutine))
  start_goroutines a cfg e m = check (if non_empty cfg.bootstraps then a.enable_dht else none) (
      check (if cfg.enable_mdns then a.enable_mdns else none) (
        some (
          ok (
            record e { net = record e.net { table = record e.net.table { m = m } } },
            started cfg,
          ))))

  -- The part of the method `Run` after the device is up.
  unfoldable pub start_services :
      {E R L : Type 0}
      → Answers E R
      → Config L
      → Bytes
      → Engine T
      → Option (Result E (Engine T × List Goroutine))
  start_services a cfg name e = do
    (m, refused) ← store_routes (a.add_route name) cfg.peers_route_table e.net.table.m
    start_goroutines a cfg e m

  unfoldable pub with_name :
      {E R L : Type 0}
      → Answers E R
      → Config L
      → Engine T
      → Result E Bytes
      → Option (Result E (Engine T × List Goroutine))
  with_name a cfg e (err x) = some (err x)
  with_name a cfg e (ok name) =
      check (a.add_address cfg.local_addr) (check a.up (start_services a cfg name e))

  -- The method `Run`: its error, or the engine and the goroutines with which it waits on `errChan`,
  -- for ever, since that channel is `nil`; `none` is a panic.
  unfoldable pub run :
      {E R L : Type 0}
      → Answers E R
      → Config L
      → Engine T
      → Option (Result E (Engine T × List Goroutine))
  run a cfg e = check a.create_tun (with_name a cfg e a.name)
