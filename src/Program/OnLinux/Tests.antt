-- ===== src/Program/OnLinux/Tests.antt =====
-- The program on a device whose kernel calls it "tun0".
use net_hive.Prelude.{ℕ, ◌≡◌, refl, some, List, [], ◌∷◌, Bytes, ok}
use net_hive.XMap.Assoc
use net_hive.Config.{Config}
use net_hive.Config.Load.{Document, load}
use net_hive.Config.Sample.{toy_crypto, toy_files}
use net_hive.Log.{CoreConfig}
use net_hive.Device.Sample.{kernel, file, shell}
use net_hive.Command.{ip4_add_addr, bash}
use net_hive.Device.Lift.{lift, lift_error}
use net_hive.Device.Linux as L
use net_hive.Device.Linux.{
  Tun, change_state, create_tun, cut_name, get_if_index, get_mtu_from_sys, get_name_from_sys,
  if_req, set_mtu, set_up, tun_name, with_socket,
}
use net_hive.Device.Linux.Methods.{add_address, up}
use net_hive.Device.Linux.Methods.Interface.{linux, World, in_kernel, with_own_name}
use net_hive.Route
use net_hive.Route.{RouteError}
use net_hive.Engine.Setup.{
  Answers, check, new_engine, non_empty, run, start_goroutines, start_services, started,
  store_routes, with_name,
}
use net_hive.Engine.Setup.Make.{Made}
use net_hive.Engine.Setup.OnDevice.{
  addressed, and_then, created, error_with, first_with, keep, named, on_device, put_up,
  set_up_device, with_same,
}
use net_hive.Engine.Setup.OnDevice.Up.{IsUp}
use net_hive.Engine.Setup.OnDevice.OnLinux.{after_add}
use net_hive.Program.{parse, serving, with_routes, main, main_loaded, main_made, main_run}
use net_hive.Program.Tests.{
  maps, zap, libp2p, calls, answers, path, config, disk, v4, made, served, load-config, make-config,
  v4-Distinct,
}
use net_hive.Program.OnLinux.{linux_answers, main-IsUp}

abbrev services : Made maps toy_crypto zap libp2p → Answers ℕ (RouteError ℕ)
services m = answers (config v4) m

abbrev world : World kernel file shell
world = record { kernel = 3; files = 0; shell = [] }

-- What the device and the services answer.
abbrev device_answers :
    Config CoreConfig → Made maps toy_crypto zap libp2p → Answers ℕ (RouteError ℕ)
device_answers =
    linux_answers maps toy_crypto zap libp2p toy_files kernel file shell calls (λ x. 0) services 5 6
      world

run-device :
    run maps
      (with_routes maps toy_crypto zap libp2p toy_files calls device_answers (config v4) (made v4))
      (config v4)
      (made v4).engine
    ≡ some (ok (served.engine, started (config v4)))
unfolding run with_routes with_name start_services start_goroutines store_routes check Route.add
    Route.change_route Route.entry Route.parse_mask Assoc.remove non_empty new_engine linux_answers
    on_device set_up_device created named addressed put_up with_same and_then keep error_with
    first_with lift lift_error in_kernel with_own_name create_tun set_up get_name_from_sys
    get_if_index get_mtu_from_sys set_mtu with_socket tun_name add_address ip4_add_addr up
    change_state L.and_then if_req cut_name bash
run-device = refl

main-device :
    main maps toy_crypto zap libp2p toy_files calls device_answers []
      (9 ∷ [])
      (disk v4)
      tt
      (some path)
    ≡ some (serving served (started (config v4)))
unfolding main parse main_loaded main_made main_run
main-device = rw (load-config v4, make-config v4, run-device, main, main_loaded, main_made) refl

main-IsUp_example :
    (cfg : Config CoreConfig) × (d : List (Bytes × Document CoreConfig)) × (load toy_files
        toy_crypto []
        (9 ∷ [])
        (disk v4)
        (parse (some path))
      ≡ some (ok (cfg, d)))
    × (n : Bytes) × (t : Tun) × (w : World kernel file shell) × IsUp
        (linux kernel file shell)
        cfg
        5
        6
        world
        n
        t
        w
    × (w.shell ≡ after_add kernel file shell cfg.local_addr n [])
main-IsUp_example =
    main-IsUp maps toy_crypto zap libp2p toy_files kernel file shell calls (λ x. 0) services 5 6
      world [] (9 ∷ []) (disk v4) tt (some path) served (started (config v4)) v4-Distinct
      main-device
