-- ===== src/Program/Writes.antt =====
-- What the program writes to its peers.
mod Tests
use net_hive.Prelude.{◌≡◌, Option, some, List, Bytes, ok}
use net_hive.Config.{Config}
use net_hive.Config.Key.{Crypto}
use net_hive.Config.Load
use net_hive.Config.Load.{Files}
use net_hive.Log.{CoreConfig, Zap}
use net_hive.Route.{RouteCalls, RouteError}
use net_hive.Engine.{Maps, Engine, ChanRef}
use net_hive.Engine.Stream.{peer_send}
use net_hive.Engine.System.{Reach}
use net_hive.Engine.Setup.{Answers, Goroutine}
use net_hive.Engine.Setup.Start.{Distinct}
use net_hive.Engine.Setup.Make.{Libp2p, Made}
use net_hive.Engine.Setup.Configured.{Addressed, written-Addressed}
use net_hive.Program.{parse, serving, main}
use net_hive.Program.Serve.{main-Serves}

module _ (T : Maps) (C : Crypto) (Z : Zap) (P : Libp2p C.Key) (F : Files CoreConfig) {E S : Type 0}
    (routes : RouteCalls S)
    (answers : Config CoreConfig → Made T C Z P → Answers E (RouteError S)) where
  -- From the configuration file to the wire. When the program serves, then in every state that the
  -- goroutines of its engine reach, a packet that the writing loop of a channel takes is a
  -- well-formed IP packet whose destination address is the one that the loaded configuration gives
  -- to the peer for which the channel is served. The peers that `Load` gives are supposed to be
  -- distinct, as the keys of a map.
  pub main-Addressed :
      (peers : List Bytes) (rand : C.Random) (d : F.Disk) (w : Z.World) (flag : Option Bytes)
      (m : Made T C Z P) (gs : List Goroutine) (e : Engine T) (c : ChanRef) (b : Bytes)
      (f : Engine T)
      → ((cfg : Config CoreConfig) (d' : F.Disk)
          → Load.load F C peers rand d (parse flag) ≡ some (ok (cfg, d'))
          → Distinct cfg.peers_route_table)
      → main T C Z P F routes answers peers rand d w flag ≡ some (serving m gs)
      → Reach T m.engine e
      → peer_send T c e ≡ some (b, f)
      → (cfg : Config CoreConfig) × (d' : F.Disk) × (Load.load F C peers rand d (parse flag)
          ≡ some (ok (cfg, d')))
        × Addressed T cfg e.net c b
  main-Addressed peers rand d w flag m gs e c b f distinct serves r takes =
      let s = main-Serves T C Z P F routes answers peers rand d w flag m gs distinct serves in
      (s.cfg, s.disk, s.loaded, written-Addressed T s.cfg c b f s.ready r takes)
