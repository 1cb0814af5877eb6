-- ===== src/Route/Tests.antt =====
-- The addition of a route, which the kernel refuses.
use net_hive.Netip.{ip4}
use net_hive.Route.{RouteCalls, change_route, entry, parse_mask, add, system}
use net_hive.Prelude.{ℕ, ◌≡◌, refl, none, some, [], ◌∷◌, Bytes}

abbrev calls : RouteCalls ℕ
calls = record { socket = none; siocaddrt = λ rt. some 3; siocdelrt = λ rt. none }

abbrev hive0 : Bytes
hive0 = b'h' ∷ b'i' ∷ b'v' ∷ b'e' ∷ b'0' ∷ []

add_refused :
    add calls hive0 (record { addr = ip4 (10 ∷ 0 ∷ 0 ∷ 2 ∷ []); bits = 24 })
    ≡ some (some (system 3))
unfolding add change_route entry parse_mask
add_refused = refl
