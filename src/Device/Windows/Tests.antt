-- ===== src/Device/Windows/Tests.antt =====
-- A packet after an empty ring.
use net_hive.Device.Copy.{copy}
use net_hive.Device.Windows.{no_more_files, tun_read}
use net_hive.Prelude.{◌≡◌, refl, some, [], ◌∷◌, ok, err}

tun_read_empty :
    tun_read (1 ∷ 2 ∷ 3 ∷ []) (err no_more_files ∷ ok (69 ∷ 0 ∷ []) ∷ [])
    ≡ some (ok 2, 69 ∷ 0 ∷ 3 ∷ [])
unfolding tun_read copy
tun_read_empty = refl
