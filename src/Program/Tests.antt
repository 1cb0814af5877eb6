-- ===== src/Program/Tests.antt =====
-- A program that serves, and one whose configuration has a peer with an IPv6 prefix.
use net_hive.Prelude.{
  ℕ, ◌<◌, ◌≡◌, refl, sym, subst, ◌∙◌, inl, true, none, some, List, [], ◌∷◌, arith, Bytes, bytes_eq,
  bytes_eq_refl, bytes_eq_sound, replicate, All, ok, subst_some,
}
use net_hive.Prelude.Int.{pos}
use net_hive.XMap.Assoc
use net_hive.XMap.Assoc.{assoc}
use net_hive.Netip.{ip4, ip6, as4, Prefix, addr_eq, addr_eq_refl, addr_eq_sound}
use net_hive.Config.{
  Config, default_tun_name, default_local_addr, default_tun, default_mtu, default_addr, default_key,
  default_bootstraps, default_config, keep_or_generate,
}
use net_hive.Config.Key.{priv_key}
use net_hive.Config.Key.{PrivateKey}
use net_hive.Config.Load.{
  Document, encode, decode-encode, KeyIsBytes, scanned, decoded, empty_config, save, read_file,
  saved, completed, load_read, load,
}
use net_hive.Config.Sample.{toy_crypto, toy_read, is_some, toy_files}
use net_hive.Log
use net_hive.Log.{
  CoreConfig, Zap, opened, failed, Core, Logger, set_output_types, new_core, cores_of, or_fallback,
  console_core, console_opened, console_config, encoder, level_of, fallback, lower,
}
use net_hive.Route
use net_hive.Route.{RouteCalls, RouteError, system}
use net_hive.Engine.{Maps}
use net_hive.Engine.Setup.{
  Answers, check, non_empty, new_engine, store_routes, started, start_goroutines, start_services,
  with_name, run,
}
use net_hive.Engine.Setup.Start.{Distinct}
use net_hive.Engine.Setup.Make.{
  Libp2p, Made, relay_option, with_host, with_key, with_log, make, engine_name,
}
use net_hive.Program.{parse, serving, with_routes, main_run, main_made, main_loaded, main}
use net_hive.Program.Serve.{Serves, main-Serves, main-ip6}

abbrev pub maps : Maps
maps = record {
  m = assoc bytes_eq bytes_eq_refl bytes_eq_sound;
  id = assoc bytes_eq bytes_eq_refl bytes_eq_sound;
  addr = assoc addr_eq addr_eq_refl addr_eq_sound;
}

abbrev pub zap : Zap
zap = record {
  Level = ℕ;
  Sink = Bytes;
  World = Unit {0};
  info = 0;
  parse_level = λ t. none;
  zap_open = λ p w. (opened p, w);
  make_dir = λ p mode w. w;
}

abbrev pub libp2p : Libp2p Bytes
libp2p = record {
  Info = Bytes;
  Node = Bytes;
  Dht = Bytes;
  Error = ℕ;
  addr_info = λ t. some t;
  new_node = λ k o. ok k;
  new_dht = λ n. ok n;
}

abbrev pub calls : RouteCalls ℕ
calls = record { socket = none; siocaddrt = λ rt. none; siocdelrt = λ rt. none }

abbrev pub answers : Config CoreConfig → Made maps toy_crypto zap libp2p → Answers ℕ (RouteError ℕ)
answers cfg m = record {
  create_tun = none;
  name = ok (b'h' ∷ []);
  add_address = λ p. none;
  up = none;
  add_route = λ name p. none;
  enable_dht = none;
  enable_mdns = none;
}

abbrev pub path : Bytes
path = b'c' ∷ []

abbrev pub config : Prefix → Config CoreConfig
config prefix = record (empty_config CoreConfig path) {
  tun_name = default_tun_name;
  mtu = pos 1500;
  local_addr = default_local_addr;
  private_key = some (record { key = 7 ∷ [] });
  peer_id = 7 ∷ [];
  bootstraps = (b'p' ∷ []) ∷ [];
  peers_route_table = ((1 ∷ []), prefix) ∷ [];
  enable_auto_relay = true;
}

abbrev pub disk : Prefix → List (Bytes × Document CoreConfig)
disk prefix = (path, encode (config prefix)) ∷ []

abbrev pub v4 : Prefix
v4 = record { addr = ip4 (10 ∷ 0 ∷ 0 ∷ 2 ∷ []); bits = 24 }

abbrev v6 : Prefix
v6 = record { addr = ip6 (replicate 16 1) []; bits = 64 }

config-KeyIsBytes : (prefix : Prefix) → KeyIsBytes (config prefix)
config-KeyIsBytes prefix k h =
    subst_some (λ (x : PrivateKey). All (λ b. b < 256) x.key) (record { key = 7 ∷ [] }) k h
      (omega arith)

read-config :
    (prefix : Prefix) → read_file toy_files toy_crypto (disk prefix) path ≡ ok (config prefix)
unfolding read_file scanned decoded toy_read is_some Assoc.load bytes_eq
read-config prefix = rw (decode-encode (config prefix) path (config-KeyIsBytes prefix)) refl

pub load-config :
    (prefix : Prefix)
    → load toy_files toy_crypto [] (9 ∷ []) (disk prefix) path
      ≡ some (ok (config prefix, (path, encode (config prefix)) ∷ disk prefix))
unfolding load load_read completed saved save default_config default_key keep_or_generate
    default_tun default_mtu default_addr default_bootstraps
load-config prefix = rw (read-config prefix, load_read) refl

abbrev pub log : Logger zap
log = record {
  cores =
      some (record {
        encode = encoder [] (console_config true);
        writer = b's' ∷ b't' ∷ b'd' ∷ b'o' ∷ b'u' ∷ b't' ∷ [];
        level = 0;
      })
      ∷ [];
  add_caller = true;
  name = engine_name;
}

abbrev pub made : Prefix → Made maps toy_crypto zap libp2p
made prefix = record {
  engine = new_engine maps (config prefix);
  log = log;
  relay_chan = true;
  host = 7 ∷ [];
  dht = 7 ∷ [];
}

pub make-config :
    (prefix : Prefix)
    → make maps toy_crypto zap libp2p (config prefix) [] tt ≡ some (ok (made prefix), [], tt)
unfolding make Log.new new_core cores_of or_fallback console_core console_opened level_of with_log
    with_key with_host relay_option set_output_types bytes_eq priv_key non_empty lower
make-config prefix = refl

abbrev pub served : Made maps toy_crypto zap libp2p
served = record (made v4) {
  engine = record (new_engine maps (config v4)) {
    net = record ((new_engine maps (config v4)).net) {
      table = record ((new_engine maps (config v4)).net.table) { m = ((1 ∷ []), v4) ∷ [] };
    };
  };
}

run-v4 :
    run maps
      (with_routes maps toy_crypto zap libp2p toy_files calls answers (config v4) (made v4))
      (config v4)
      (made v4).engine
    ≡ some (ok (served.engine, started (config v4)))
unfolding run with_routes with_name start_services start_goroutines store_routes check Route.add
    Route.change_route Route.entry Route.parse_mask Assoc.remove non_empty new_engine
run-v4 = refl

pub main-v4 :
    main maps toy_crypto zap libp2p toy_files calls answers [] (9 ∷ []) (disk v4) tt (some path)
    ≡ some (serving served (started (config v4)))
unfolding main parse main_loaded main_made main_run
main-v4 = rw (load-config v4, make-config v4, run-v4, main, main_loaded, main_made) refl

pub v4-Distinct :
    (cfg : Config CoreConfig) (d : List (Bytes × Document CoreConfig))
    → load toy_files toy_crypto [] (9 ∷ []) (disk v4) (parse (some path)) ≡ some (ok (cfg, d))
    → Distinct cfg.peers_route_table
unfolding Distinct parse
v4-Distinct cfg d h =
    let same : config v4 ≡ cfg = cc (sym (load-config v4) ∙ h) in
    subst (λ (c : Config CoreConfig). Distinct c.peers_route_table) same (tt, tt)

main-Serves_example :
    Serves maps toy_crypto zap libp2p toy_files calls answers []
      (9 ∷ [])
      (disk v4)
      (some path)
      served
      (started (config v4))
main-Serves_example =
    main-Serves maps toy_crypto zap libp2p toy_files calls answers [] (9 ∷ []) (disk v4) tt
      (some path) served (started (config v4)) v4-Distinct main-v4

load-v6 :
    load toy_files toy_crypto [] (9 ∷ []) (disk v6) (parse (some path))
    ≡ some (ok (config v6, (path, encode (config v6)) ∷ disk v6))
unfolding parse
load-v6 = load-config v6

as4-v6 : as4 v6.addr ≡ none
unfolding bytes_eq
as4-v6 = refl

main-ip6_example :
    main maps toy_crypto zap libp2p toy_files calls answers [] (9 ∷ []) (disk v6) tt (some path)
    ≡ none
main-ip6_example =
    main-ip6 maps toy_crypto zap libp2p toy_files calls answers [] (9 ∷ []) (disk v6) tt (some path)
      (config v6) ((path, encode (config v6)) ∷ disk v6) (made v6) [] tt (b'h' ∷ []) (1 ∷ [])
      (replicate 16 1) [] 64 load-v6 (make-config v6) refl refl refl refl refl (inl refl)
      (omega arith) as4-v6
