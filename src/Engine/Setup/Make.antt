-- ===== src/Engine/Setup/Make.antt =====
-- core/engine/engine.go: the function `Run`, which makes an engine from a configuration: its
-- logger, its private key, its relays and its node.
use net_hive.Prelude.{
  Bool, true, false, Option, none, some, List, [], ◌∷◌, if◌then◌else◌, Bytes, Result, ok, err,
  ◌>>=◌,
}
use net_hive.Config.{Config}
use net_hive.Config.Key.{PrivateKey, Crypto, priv_key}
use net_hive.Log
use net_hive.Log.{CoreConfig, Zap, Logger, set_output_types}
use net_hive.Engine.{Maps, Engine}
use net_hive.Engine.Setup.{non_empty, new_engine}

-- What the code hands to libp2p about relays.
pub data RelayOption (I : Type 0) : Type 0 where
  no_relay : RelayOption I
  static_relays : List I → RelayOption I
  peer_source : RelayOption I

-- libp2p: the parser of a peer's address, the node and the DHT.
pub record Libp2p (Key : Type 0) : Type 1 where
  pub Info : Type 0
  pub Node : Type 0
  pub Dht : Type 0
  pub Error : Type 0
  pub addr_info : Bytes → Option Info
  pub new_node : Key → RelayOption Info → Result Error Node
  pub new_dht : Node → Result Error Dht

pub data MakeError (E F : Type 0) : Type 0 where
  private_key : E → MakeError E F
  libp2p : F → MakeError E F

-- "engine"
abbrev pub engine_name : Bytes
engine_name = b'e' ∷ b'n' ∷ b'g' ∷ b'i' ∷ b'n' ∷ b'e' ∷ []

module _ (T : Maps) (C : Crypto) (Z : Zap) (P : Libp2p C.Key) where
  open P use {Info, Node, Dht, addr_info, new_node, new_dht}

  -- The part of `Engine` that the function `Run` fills in. `relay_chan` says whether the channel
  -- for candidates is made.
  pub record Made : Type 0 where
    pub engine : Engine T
    pub log : Logger Z
    pub relay_chan : Bool
    pub host : Node
    pub dht : Dht

  abbrev pub Outcome : Type 0
  Outcome = Result (MakeError C.Error P.Error) Made

  -- The loop over `Relays`: one that does not parse is passed over.
  unfoldable pub parse_relays : List Bytes → List Info
  parse_relays [] = []
  parse_relays (relay ∷ relays) =
      let rest = parse_relays relays in elim (addr_info relay) [ none ↦ rest | some i ↦ i ∷ rest ]

  -- The option for relays, and whether `relayChan` is made.
  unfoldable pub relay_option : Config CoreConfig → RelayOption Info × Bool
  relay_option cfg =
      if non_empty cfg.relays
      then (static_relays (parse_relays cfg.relays), false)
      else if cfg.enable_auto_relay
      then (peer_source, true)
      else (no_relay, false)

  unfoldable pub with_host : Config CoreConfig → Logger Z → Node → Outcome
  with_host cfg log node = elim (new_dht node) [
    | err x ↦ err (libp2p x)
    | ok dht ↦ ok (record {
      engine = new_engine T cfg;
      log = log;
      relay_chan = (relay_option cfg).1;
      host = node;
      dht = dht;
    })
  ]

  unfoldable pub with_key : Config CoreConfig → Logger Z → C.Key → Outcome
  with_key cfg log pk = elim (new_node pk (relay_option cfg).0) [
    | err x ↦ err (libp2p x)
    | ok node ↦ with_host cfg log node
  ]

  -- `cfg.PrivateKey.PrivKey()`, which panics at `nil`.
  unfoldable pub with_log : Config CoreConfig → Logger Z → Option PrivateKey → Option Outcome
  with_log cfg log none = none
  with_log cfg log (some k) = elim (priv_key C k) [
    | err x ↦ some (err (private_key x))
    | ok pk ↦ some (with_key cfg log pk)
  ]

  -- The function `Run`; `none` is a panic. Besides its result, what it leaves of the variable
  -- `coreConfigs` and of the outside world.
  unfoldable pub make :
      Config CoreConfig → List CoreConfig → Z.World → Option (Outcome × List CoreConfig × Z.World)
  make cfg core_configs w =
      let configs = set_output_types core_configs cfg.log_configs in
      do
        (log, w1) ← Log.new Z engine_name configs w
        out ← with_log cfg log cfg.private_key
        some (out, configs, w1)
