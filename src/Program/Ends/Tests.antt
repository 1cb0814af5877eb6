-- ===== src/Program/Ends/Tests.antt =====
-- The program at a configuration with one peer.
use net_hive.Prelude.{◌≡◌, refl, some, [], ◌∷◌, ok}
use net_hive.Config.Sample.{toy_crypto, toy_files}
use net_hive.Engine.{Engine}
use net_hive.Engine.Setup.{started}
use net_hive.Engine.Setup.Stages.{first_error, stages, ends_with}
use net_hive.Program.{main, main_run, parse}
use net_hive.Config.Load.{encode, load}
use net_hive.Program.Tests.{
  maps, zap, libp2p, calls, answers, path, config, disk, v4, made, load-config, make-config,
}
use net_hive.Program.Ends.{main-ends_with}

load-v4 :
    load toy_files toy_crypto [] (9 ∷ []) (disk v4) (parse (some path))
    ≡ some (ok (config v4, (path, encode (config v4)) ∷ disk v4))
unfolding parse
load-v4 = load-config v4

main-ends_with_example :
    (e : Engine maps) × (main maps toy_crypto zap libp2p toy_files calls answers []
        (9 ∷ [])
        (disk v4)
        tt
        (some path)
      ≡ some (
          main_run maps toy_crypto zap libp2p toy_files calls answers (made v4) (
            ends_with
              (first_error (stages (answers (config v4) (made v4)) (config v4)))
              (e, started (config v4)))))
main-ends_with_example =
    main-ends_with maps toy_crypto zap libp2p toy_files calls answers [] (9 ∷ []) (disk v4) tt
      (some path) (config v4) ((path, encode (config v4)) ∷ disk v4) (made v4) [] tt load-v4
      (make-config v4) (((10 ∷ 0 ∷ 0 ∷ 2 ∷ []), refl), tt)
