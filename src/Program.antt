-- ===== src/Program.antt =====
-- cmd/main.go: the program, from its configuration file to the goroutines of its engine.
pub mod Serve
pub mod Writes
pub mod Ends
pub mod OnLinux
mod Tests
use net_hive.Prelude.{◌/◌, Option, none, some, List, [], ◌∷◌, Bytes, Result, ok, err, ◌>>=◌}
use net_hive.Config.{Config}
use net_hive.Config.Key.{Crypto}
use net_hive.Config.Load
use net_hive.Config.Load.{Files, LoadError}
use net_hive.Log.{CoreConfig, Zap}
use net_hive.Route
use net_hive.Route.{RouteCalls, RouteError}
use net_hive.Engine.{Maps, Engine}
use net_hive.Engine.Setup.{Answers, Goroutine, run}
use net_hive.Engine.Setup.Make.{Libp2p, MakeError, Made, make}

-- "/var/lib/NetHive/config.json"
abbrev pub default_path : Bytes
default_path =
    b'/' ∷ b'v' ∷ b'a' ∷ b'r' ∷ b'/' ∷ b'l' ∷ b'i' ∷ b'b' ∷ b'/' ∷ b'N' ∷ b'e' ∷ b't' ∷ b'H' ∷ b'i'
    ∷ b'v' ∷ b'e' ∷ b'/' ∷ b'c' ∷ b'o' ∷ b'n' ∷ b'f' ∷ b'i' ∷ b'g' ∷ b'.' ∷ b'j' ∷ b's' ∷ b'o'
    ∷ b'n' ∷ []

-- `parse`, at the value of the flag `config`, if it is given.
unfoldable pub parse : Option Bytes → Bytes
parse none = default_path
parse (some path) = path

-- `routes` is the socket and `ioctl` of `route.Add`, which replaces what `answers` says of it.
module _ (T : Maps) (C : Crypto) (Z : Zap) (P : Libp2p C.Key) (F : Files CoreConfig) {E S : Type 0}
    (routes : RouteCalls S)
    (answers : Config CoreConfig → Made T C Z P → Answers E (RouteError S)) where
  -- How `main` ends: in one of its three calls of `log.Fatal`, or not at all, since the method
  -- `Run` waits.
  pub data Exit : Type 0 where
    load_failed : LoadError F.Error C.Error → Exit
    make_failed : MakeError C.Error P.Error → Exit
    run_failed : E → Exit
    serving : Made T C Z P → List Goroutine → Exit

  unfoldable pub with_routes : Config CoreConfig → Made T C Z P → Answers E (RouteError S)
  with_routes cfg m = record (answers cfg m) { add_route = Route.add routes }

  unfoldable pub main_run : Made T C Z P → Result E (Engine T × List Goroutine) → Exit
  main_run m (err x) = run_failed x
  main_run m (ok (e, gs)) = serving (record m { engine = e }) gs

  unfoldable pub main_made :
      Config CoreConfig → Result (MakeError C.Error P.Error) (Made T C Z P) → Option Exit
  main_made cfg (err x) = some (make_failed x)
  main_made cfg (ok m) = do r ← run T (with_routes cfg m) cfg m.engine; some (main_run m r)

  unfoldable pub main_loaded :
      Z.World → Result (LoadError F.Error C.Error) (Config CoreConfig × F.Disk) → Option Exit
  main_loaded w (err x) = some (load_failed x)
  main_loaded w (ok (cfg, d)) = do (out, configs, w1) ← make T C Z P cfg [] w; main_made cfg out

  -- `main`; `none` is a panic.
  unfoldable pub main : List Bytes → C.Random → F.Disk → Z.World → Option Bytes → Option Exit
  main peers rand d w flag = do
    loaded ← Load.load F C peers rand d (parse flag)
    main_loaded w loaded
