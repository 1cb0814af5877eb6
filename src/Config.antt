-- ===== src/Config.antt =====
-- core/config: the configuration file, its defaults and the private key in it.
pub mod Key
pub mod Defaults
pub mod Load
pub mod Sample
mod Tests
use net_hive.Prelude.Int.{ℤ, pos, negsuc}
use net_hive.Netip.{Addr, Prefix, ip4, is_valid}
use Key.{PrivateKey, Crypto, new_private_key, priv_key}
use net_hive.Prelude.{
  Bool, not, Option, none, some, List, [], ◌∷◌, ◌==◌, if◌then◌else◌, Bytes, Result, ok, err, ◌>>=◌,
}

-- `Config`. Its `LogConfigs` are only handed on to the logger.
pub record Config (L : Type 0) : Type 0 where
  pub path : Bytes
  pub tun_name : Bytes
  pub mtu : ℤ
  pub local_addr : Prefix
  pub enable_broadcast : Bool
  pub private_key : Option PrivateKey
  pub peer_id : Bytes
  pub bootstraps : List Bytes
  pub peers_route_table : List (Bytes × Prefix)
  pub relays : List Bytes
  pub enable_auto_relay : Bool
  pub enable_mdns : Bool
  pub log_configs : List L

-- "hive0"
abbrev pub default_tun_name : Bytes
default_tun_name = b'h' ∷ b'i' ∷ b'v' ∷ b'e' ∷ b'0' ∷ []

-- 192.168.168.1/24
abbrev pub default_local_addr : Prefix
default_local_addr = record { addr = ip4 (192 ∷ 168 ∷ 168 ∷ 1 ∷ []); bits = 24 }

-- `IsValid` of a `Prefix`.
abbrev pub is_valid_prefix : Prefix → Bool
is_valid_prefix p = is_valid p.addr

abbrev pub drop_error : {E : Type 0} → Result E PrivateKey → Option PrivateKey
drop_error (ok k) = some k
drop_error (err x) = none

-- `if cfg.TUNName == "" { … }`, and likewise for the settings below.
unfoldable pub default_tun : Bytes → Bytes
default_tun [] = default_tun_name
default_tun (c ∷ cs) = c ∷ cs

unfoldable pub default_mtu : ℤ → ℤ
default_mtu (pos n) = if n == 0 then pos 1500 else pos n
default_mtu (negsuc n) = negsuc n

unfoldable pub default_addr : Prefix → Prefix
default_addr p = if not (is_valid_prefix p) then default_local_addr else p

-- `dht.DefaultBootstrapPeers`, in text form, is the first argument.
unfoldable pub default_bootstraps : List Bytes → List Bytes → List Bytes
default_bootstraps peers [] = peers
default_bootstraps peers (b ∷ bs) = b ∷ bs

module _ (C : Crypto) {L : Type 0} where
  open C use {Key, Error, id_from_private_key}

  -- After `NewPrivateKey`: its error is thrown away, so that a `nil` key panics in `PrivKey`.
  unfoldable pub generated : Config L → Option PrivateKey → Option (Config L × Option Error)
  generated cfg none = none
  generated cfg (some k) =
      let cfg = record cfg { private_key = some k } in
      elim (priv_key C k) [
        | err x ↦ some (cfg, some x)
        | ok key ↦ elim (id_from_private_key key) [
          | err x ↦ some (cfg, some x)
          | ok id ↦ some (record cfg { peer_id = id }, none)
        ]
      ]

  unfoldable pub keep_or_generate :
      C.Random → Config L → Option PrivateKey → Option (Config L × Option Error)
  keep_or_generate rand cfg (some k) = some (cfg, none)
  keep_or_generate rand cfg none = generated cfg (drop_error (new_private_key C rand))

  unfoldable pub default_key : C.Random → Config L → Option (Config L × Option Error)
  unfolding keep_or_generate
  default_key rand cfg = keep_or_generate rand cfg cfg.private_key

  abbrev pub then_bootstraps : List Bytes → Config L × Option Error → Config L × Option Error
  then_bootstraps peers (cfg, some x) = (cfg, some x)
  then_bootstraps peers (cfg, none) =
      (record cfg { bootstraps = default_bootstraps peers cfg.bootstraps }, none)

  -- `defaultConfig`: the configuration that it leaves, and its error; `none` is a panic.
  unfoldable pub default_config :
      List Bytes → C.Random → Config L → Option (Config L × Option Error)
  default_config peers rand cfg = do
    out ← default_key rand (record cfg {
      tun_name = default_tun cfg.tun_name;
      mtu = default_mtu cfg.mtu;
      local_addr = default_addr cfg.local_addr;
    })
    some (then_bootstraps peers out)
