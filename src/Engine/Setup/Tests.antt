-- ===== src/Engine/Setup/Tests.antt =====
-- The start of an engine with two peers, whose routes the operating system refuses.
use net_hive.Prelude.{
  ℕ, ◌≡◌, refl, true, false, none, some, List, [], ◌∷◌, bytes_eq, bytes_eq_refl, bytes_eq_sound, ok,
}
use net_hive.Prelude.Int.{pos}
use net_hive.Netip.{ip4, Prefix, addr_eq, addr_eq_refl, addr_eq_sound}
use net_hive.XMap.Assoc.{assoc}
use net_hive.Config.{Config}
use net_hive.Engine.{Maps, Engine, PeerId}
use net_hive.Engine.Setup.{
  Answers, check, non_empty, new_engine, store_routes, started, start_goroutines, start_services,
  with_name, run,
}
use net_hive.Engine.Setup.Start.{Distinct}
use mathlib.Core.List.Permᴰ.{swap}
use net_hive.Engine.Setup.Order.{run_reordered}

abbrev maps : Maps
maps = record {
  m = assoc bytes_eq bytes_eq_refl bytes_eq_sound;
  id = assoc bytes_eq bytes_eq_refl bytes_eq_sound;
  addr = assoc addr_eq addr_eq_refl addr_eq_sound;
}

abbrev prefix_of : ℕ → Prefix
prefix_of n = record { addr = ip4 (10 ∷ 0 ∷ 0 ∷ n ∷ []); bits = 24 }

abbrev routes : List (PeerId × Prefix)
routes = ((1 ∷ []), prefix_of 1) ∷ ((0 ∷ []), prefix_of 2) ∷ []

abbrev config : Config (Unit {0})
config = record {
  path = [];
  tun_name = b'h' ∷ [];
  mtu = pos 1500;
  local_addr = prefix_of 1;
  enable_broadcast = false;
  private_key = none;
  peer_id = 1 ∷ [];
  bootstraps = (1 ∷ []) ∷ [];
  peers_route_table = routes;
  relays = [];
  enable_auto_relay = false;
  enable_mdns = true;
  log_configs = [];
}

abbrev answers : Answers ℕ ℕ
answers = record {
  create_tun = none;
  name = ok (b'h' ∷ []);
  add_address = λ p. none;
  up = none;
  add_route = λ name p. some (some 1);
  enable_dht = none;
  enable_mdns = none;
}

abbrev begin : Engine maps
begin = record (new_engine maps config) {
  net = record ((new_engine maps config).net) {
    table = record ((new_engine maps config).net.table) {
      m = maps.m.store (maps.m.store [] (1 ∷ []) (prefix_of 1)) (0 ∷ []) (prefix_of 2);
    };
  };
}

run-begin : run maps answers config (new_engine maps config) ≡ some (ok (begin, started config))
unfolding run with_name start_services start_goroutines store_routes check non_empty new_engine
run-begin = refl

routes-Distinct : Distinct routes
unfolding Distinct
routes-Distinct = (((λ e. cc (e)), tt), (tt, tt))

-- The same peers in the other order.
abbrev routes_reversed : List (PeerId × Prefix)
routes_reversed = ((0 ∷ []), prefix_of 2) ∷ ((1 ∷ []), prefix_of 1) ∷ []

abbrev config_reversed : Config (Unit {0})
config_reversed = record config { peers_route_table = routes_reversed }

run_reordered_example :
    (e' : Engine maps) × (run maps answers config_reversed (new_engine maps config_reversed)
      ≡ some (ok (e', started config)))
    × ((k : PeerId) → maps.m.load e'.net.table.m k ≡ maps.m.load begin.net.table.m k)
run_reordered_example =
    run_reordered maps answers config routes_reversed (swap refl refl) routes-Distinct
      (λ name. ((λ e. cc (e)), ((λ e. cc (e)), tt))) run-begin
