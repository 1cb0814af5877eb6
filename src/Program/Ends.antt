-- ===== src/Program/Ends.antt =====
-- Whether the program serves, and if not, with which error it ends.
mod Tests
use net_hive.Prelude.{◌≡◌, refl, ◌≢◌, Option, none, some, List, [], ◌∷◌, Bytes, All, ok}
use net_hive.Netip.{as4, Prefix}
use net_hive.Config.{Config}
use net_hive.Config.Key.{Crypto}
use net_hive.Config.Load
use net_hive.Config.Load.{Files}
use net_hive.Log.{CoreConfig, Zap}
use net_hive.Route
use net_hive.Route.{RouteCalls, RouteError}
use net_hive.Route.Mask.{add-as4}
use net_hive.Engine.{Maps, Engine, PeerId}
use net_hive.Engine.Setup.{Answers, started}
use net_hive.Engine.Setup.Stages.{first_error, stages, ends_with, run_lem}
use net_hive.Engine.Setup.Make.{Libp2p, Made, make}
use net_hive.Program.{parse, with_routes, main_run, main_made, main_loaded, main}

-- The address of the prefix is an IPv4 address.
abbrev pub HasIp4 : Prefix → Type 0
HasIp4 p = (b : Bytes) × (as4 p.addr ≡ some b)

module _ (T : Maps) (C : Crypto) (Z : Zap) (P : Libp2p C.Key) (F : Files CoreConfig) {E S : Type 0}
    (routes : RouteCalls S)
    (answers : Config CoreConfig → Made T C Z P → Answers E (RouteError S)) where
  routes_go :
      (name : Bytes) (rs : List (PeerId × Prefix))
      → All (λ (k, p). HasIp4 p) rs
      → All (λ (k, p). Route.add routes name p ≢ none) rs
  routes_go name [] h = tt
  routes_go name ((k, p) ∷ rs) ((b, is), rest) =
      (add-as4 routes name p b is, routes_go name rs rest)

  -- The program serves, or ends with the error that stopped it, and does not panic. Let `Load` and
  -- the function `Run` succeed, and let every peer of the configuration have an IPv4 address. If
  -- making, naming and addressing the device, putting it up, and starting those optional services
  -- that are configured all succeed, then `main` serves, with exactly the goroutines that the
  -- configuration asks for; and otherwise it ends with the first of their errors, in this order.
  -- What the operating system says of a route is no matter.
  pub main-ends_with :
      (peers : List Bytes) (rand : C.Random) (d : F.Disk) (w : Z.World) (flag : Option Bytes)
      (cfg : Config CoreConfig) (d' : F.Disk) (made : Made T C Z P) (configs : List CoreConfig)
      (w' : Z.World)
      → Load.load F C peers rand d (parse flag) ≡ some (ok (cfg, d'))
      → make T C Z P cfg [] w ≡ some (ok made, configs, w')
      → All (λ (k, p). HasIp4 p) cfg.peers_route_table
      → (e : Engine T) × (main T C Z P F routes answers peers rand d w flag
          ≡ some (
              main_run T C Z P F routes answers made
                (ends_with (first_error (stages (answers cfg made) cfg)) (e, started cfg))))
  unfolding main main_loaded main_made with_routes stages
  main-ends_with peers rand d w flag cfg d' made configs w' loads makes v4 =
      let (e, got) =
        run_lem T (with_routes T C Z P F routes answers cfg made) cfg made.engine
          (λ name. routes_go name cfg.peers_route_table v4) in
      (e, rw (loads, makes, got, main, main_loaded, main_made) refl)
