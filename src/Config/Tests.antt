-- ===== src/Config/Tests.antt =====
-- The configuration of a node over a small disk, with keys that are byte strings.
use net_hive.Prelude.{
  ◌<◌, ◌≡◌, refl, none, some, List, [], ◌∷◌, arith, Bytes, bytes_eq, All, ok, err, subst_some,
}
use net_hive.Prelude.Int.{pos}
use net_hive.XMap.Assoc
use net_hive.XMap.Assoc.{load-cons_self}
use net_hive.Config.{
  Config, default_tun_name, default_local_addr, default_tun, default_mtu, default_addr, generated,
  default_key, default_bootstraps, default_config, keep_or_generate,
}
use net_hive.Config.Sample.{toy_generate, toy_crypto, toy_read, is_some, toy_files}
use net_hive.Config.Key.{PrivateKey, new_private_key, priv_key}
use net_hive.Config.Load.{
  Document, encode, decode, decode_key, key_to_text, scanned, decoded, KeyIsBytes, empty_config,
  save, read_file, saved, completed, load_read, load, load_again,
}

abbrev config_path : Bytes
config_path = b'c' ∷ []

abbrev peers : List Bytes
peers = (b'p' ∷ []) ∷ []

abbrev fresh_key : Bytes
fresh_key = 7 ∷ 8 ∷ []

-- A configuration file that sets the MTU only.
abbrev given : Config (Unit {0})
given = record (empty_config (Unit {0}) config_path) { mtu = pos 1400 }

abbrev complete : Config (Unit {0})
complete = record given {
  tun_name = default_tun_name;
  local_addr = default_local_addr;
  private_key = some (record { key = fresh_key });
  peer_id = fresh_key;
  bootstraps = peers;
}

given-complete : default_config toy_crypto peers fresh_key given ≡ some (complete, none)
unfolding default_config default_key keep_or_generate generated new_private_key priv_key
    toy_generate default_tun default_mtu default_addr default_bootstraps
given-complete = refl

abbrev first_disk : List (Bytes × Document (Unit {0}))
first_disk = (config_path, encode given) ∷ []

abbrev second_disk : List (Bytes × Document (Unit {0}))
second_disk = (config_path, encode complete) ∷ first_disk

first_load :
    load toy_files toy_crypto peers fresh_key first_disk config_path
    ≡ some (ok (complete, second_disk))
unfolding load load_read read_file completed saved save default_config default_key keep_or_generate
    generated new_private_key priv_key toy_generate toy_read is_some Assoc.load bytes_eq default_tun
    default_mtu default_addr default_bootstraps scanned decoded decode decode_key encode key_to_text
first_load = refl

complete-KeyIsBytes : KeyIsBytes complete
complete-KeyIsBytes k h =
    subst_some (λ (x : PrivateKey). All (λ b. b < 256) x.key) (record { key = fresh_key }) k h
      (omega arith)

load_again_example :
    load toy_files toy_crypto peers (9 ∷ []) second_disk config_path
    ≡ some (saved toy_files toy_crypto complete (save toy_files toy_crypto second_disk complete))
load_again_example =
    load_again toy_files toy_crypto peers fresh_key (9 ∷ []) first_disk config_path (λ e. cc (e))
      first_load tt complete-KeyIsBytes

toy_generate-fails : toy_generate [] ≡ err tt
unfolding toy_generate
toy_generate-fails = refl
