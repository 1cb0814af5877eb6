-- ===== src/Program/OnLinux.antt =====
-- The program on a device of Linux.
mod Tests
use net_hive.Prelude.{ℕ, ◌≡◌, Option, some, List, Bytes, ok}
use net_hive.Config.{Config}
use net_hive.Config.Key.{Crypto}
use net_hive.Config.Load
use net_hive.Config.Load.{Files}
use net_hive.Log.{CoreConfig, Zap}
use net_hive.Command.{Shell}
use net_hive.Device.Linux.{Kernel, Tun}
use net_hive.Device.Linux.Methods.{TunFile}
use net_hive.Device.Linux.Methods.Interface.{linux, World, Error}
use net_hive.Device.Linux.Methods.Promise.{linux-IsDevice}
use net_hive.Route
use net_hive.Route.{RouteCalls, RouteError}
use net_hive.Engine.{Maps}
use net_hive.Engine.Setup.{Answers, Goroutine}
use net_hive.Engine.Setup.Start.{Distinct}
use net_hive.Engine.Setup.Make.{Libp2p, Made}
use net_hive.Engine.Setup.OnDevice.{on_device}
use net_hive.Engine.Setup.OnDevice.Up.{IsUp, run-IsUp}
use net_hive.Engine.Setup.OnDevice.OnLinux.{after_add, IsUp-shell}
use net_hive.Program.{parse, serving, with_routes, main}
use net_hive.Program.Serve.{main-Serves}

module _ (T : Maps) (C : Crypto) (Z : Zap) (P : Libp2p C.Key) (F : Files CoreConfig) (K : Kernel)
    (file : TunFile) (S : Shell) {E R : Type 0} (routes : RouteCalls R)
    (from_device : Error K file S → E) (services : Made T C Z P → Answers E (RouteError R))
    (now later : ℕ) (world : World K file S) where
  -- The device answers to the method `Run`, and `services` for what is not the device.
  unfoldable pub linux_answers : Config CoreConfig → Made T C Z P → Answers E (RouteError R)
  linux_answers cfg m = on_device (linux K file S) from_device cfg now later world (services m)

  -- When the program serves on a device of Linux, it has made the device with the name and the MTU
  -- of the loaded configuration, and the device was down; it has asked the device for its name,
  -- given it the local address of the configuration, and put it up, in this order, each on the
  -- world that the last call has left, without an error; the device is up; and the shell was given
  -- exactly one command, `ip -4 addr add` with that address and that name. The peers that `Load`
  -- gives are supposed to be distinct, as the keys of a map.
  pub main-IsUp :
      (peers : List Bytes) (rand : C.Random) (d : F.Disk) (w : Z.World) (flag : Option Bytes)
      (m : Made T C Z P) (gs : List Goroutine)
      → ((cfg : Config CoreConfig) (d' : F.Disk)
          → Load.load F C peers rand d (parse flag) ≡ some (ok (cfg, d'))
          → Distinct cfg.peers_route_table)
      → main T C Z P F routes linux_answers peers rand d w flag ≡ some (serving m gs)
      → (cfg : Config CoreConfig) × (d' : F.Disk) × (Load.load F C peers rand d (parse flag)
          ≡ some (ok (cfg, d')))
        × (n : Bytes) × (t : Tun) × (w' : World K file S) × IsUp
            (linux K file S)
            cfg
            now
            later
            world
            n
            t
            w'
        × (w'.shell ≡ after_add K file S cfg.local_addr n world.shell)
  unfolding linux_answers with_routes on_device
  main-IsUp peers rand d w flag m gs distinct serves =
      let s = main-Serves T C Z P F routes linux_answers peers rand d w flag m gs distinct serves in
      let cfg = s.cfg in
      let (n, t, w', up, _, _) =
        run-IsUp (linux K file S) T (linux-IsDevice K file S) from_device
          (record (services s.made) { add_route = Route.add routes }) cfg now later world s.distinct
          s.runs in
      (cfg, s.disk, s.loaded, n, t, w', up, IsUp-shell K file S cfg now later world n t w' up)
