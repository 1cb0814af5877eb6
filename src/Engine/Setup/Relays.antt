-- ===== src/Engine/Setup/Relays.antt =====
-- When the engine's relay finder runs, and when it has a channel.
use net_hive.Prelude.{
  ◌≡◌, refl, sym, ap, subst, ◌∙◌, inl, inr, Bool, true, false, not, ◌&&◌, Option, none, some, List,
  [], ◌∷◌, ◌++◌, if◌then◌else◌, Bool-cases, Option-cases, ok, Result-cases,
}
use net_hive.Config.{Config}
use net_hive.Config.Key.{PrivateKey, Crypto, priv_key}
use net_hive.Log
use net_hive.Log.{CoreConfig, Zap, Logger, set_output_types}
use net_hive.Engine.{Maps}
use net_hive.Engine.Setup.{
  Goroutine, bootstraps, mdns, relay_finder, tun_reader, tun_writer, route_table_writer, non_empty,
  new_engine, started,
}
use net_hive.Engine.Setup.Make.{
  Libp2p, Made, relay_option, with_host, with_key, with_log, make, engine_name,
}

-- Whether the relay finder is among the goroutines.
unfoldable pub has_finder : List Goroutine → Bool
has_finder [] = false
has_finder (bootstraps ∷ gs) = has_finder gs
has_finder (mdns ∷ gs) = has_finder gs
has_finder (relay_finder ∷ gs) = true
has_finder (tun_reader ∷ gs) = has_finder gs
has_finder (tun_writer ∷ gs) = has_finder gs
has_finder (route_table_writer ∷ gs) = has_finder gs

finder :
    {L : Type 0} (cfg : Config L)
    → has_finder (
        (if not (non_empty cfg.relays) && cfg.enable_auto_relay then relay_finder ∷ [] else [])
        ++ (tun_reader ∷ tun_writer ∷ route_table_writer ∷ []))
      ≡ (not (non_empty cfg.relays) && cfg.enable_auto_relay)
unfolding has_finder
finder cfg = elim (Bool-cases (not (non_empty cfg.relays) && cfg.enable_auto_relay)) [
  | inl on ↦ rw on refl
  | inr off ↦ rw off refl
]

has_finder-started :
    {L : Type 0} (cfg : Config L)
    → has_finder (started cfg) ≡ (not (non_empty cfg.relays) && cfg.enable_auto_relay)
unfolding has_finder started
has_finder-started cfg = elim (Bool-cases (non_empty cfg.bootstraps)) [
  | inl b ↦ elim (Bool-cases cfg.enable_mdns) [
    | inl m ↦ rw (b, m) (finder cfg)
    | inr m ↦ rw (b, m) (finder cfg)
  ]
  | inr b ↦ elim (Bool-cases cfg.enable_mdns) [
    | inl m ↦ rw (b, m) (finder cfg)
    | inr m ↦ rw (b, m) (finder cfg)
  ]
]

module _ (T : Maps) (C : Crypto) (Z : Zap) (P : Libp2p C.Key) where
  -- What a successful call of the function `Run` has gone through.
  pub record IsMade (cfg : Config CoreConfig) (m : Made T C Z P) : Type 0 where
    pub text : PrivateKey
    pub key : C.Key
    pub in_config : cfg.private_key ≡ some text
    pub unmarshals : priv_key C text ≡ ok key
    pub node : P.new_node key (relay_option T C Z P cfg).0 ≡ ok m.host
    pub router : P.new_dht m.host ≡ ok m.dht
    pub engine : m.engine ≡ new_engine T cfg
    pub finder : m.relay_chan ≡ has_finder (started cfg)

  relay_option-started :
      (cfg : Config CoreConfig) → (relay_option T C Z P cfg).1 ≡ has_finder (started cfg)
  unfolding relay_option
  relay_option-started cfg =
      let is : (not (non_empty cfg.relays) && cfg.enable_auto_relay) ≡ has_finder (started cfg) =
        sym (has_finder-started cfg) in
      elim (Bool-cases (non_empty cfg.relays)) [
        | inl some_relays ↦ rw some_relays (rw some_relays at is)
        | inr no_relays ↦ elim (Bool-cases cfg.enable_auto_relay) [
          | inl on ↦ rw (no_relays, on) (rw (no_relays, on) at is)
          | inr off ↦ rw (no_relays, off) (rw (no_relays, off) at is)
        ]
      ]

  with_log-IsMade :
      (cfg : Config CoreConfig) (log : Logger Z) (m : Made T C Z P) (o : Option PrivateKey)
      → cfg.private_key ≡ o
      → with_log T C Z P cfg log o ≡ some (ok m)
      → IsMade cfg m
  unfolding with_log with_key with_host
  with_log-IsMade cfg log m none there h = cc (h)
  with_log-IsMade cfg log m (some text) there h = elim (Result-cases (priv_key C text)) [
    | inr (x, fails) ↦ cc (rw (fails, with_log) at h)
    | inl (key, unmarshals) ↦ elim (Result-cases (P.new_node key (relay_option T C Z P cfg).0)) [
      | inr (x, fails) ↦ cc (rw (unmarshals, fails, with_log, with_key) at h)
      | inl (node, made) ↦ elim (Result-cases (P.new_dht node)) [
        | inr (x, fails) ↦ cc (rw (unmarshals, made, fails, with_log, with_key, with_host) at h)
        | inl (dht, routes) ↦
            let m' : Made T C Z P = record {
              engine = new_engine T cfg;
              log = log;
              relay_chan = (relay_option T C Z P cfg).1;
              host = node;
              dht = dht;
            } in
            let same : m' ≡ m =
              cc (rw (unmarshals, made, routes, with_log, with_key, with_host) at h) in
            subst (IsMade cfg) same (record {
              text = text;
              key = key;
              in_config = there;
              unmarshals = unmarshals;
              node = made;
              router = routes;
              engine = refl;
              finder = relay_option-started cfg;
            })
      ]
    ]
  ]

  pub make-IsMade :
      (cfg : Config CoreConfig) (configs : List CoreConfig) (w : Z.World) (m : Made T C Z P)
      (configs' : List CoreConfig) (w' : Z.World)
      → make T C Z P cfg configs w ≡ some (ok m, configs', w')
      → IsMade cfg m
  unfolding make
  make-IsMade cfg configs w m configs' w' h =
      elim (Option-cases (Log.new Z engine_name (set_output_types configs cfg.log_configs) w)) [
        | inl panics ↦ cc (rw panics at h)
        | inr ((log, w1), logs) ↦ elim (Option-cases (with_log T C Z P cfg log cfg.private_key)) [
          | inl panics ↦ cc (rw (logs, panics) at h)
          | inr (out, got) ↦
              let same : out ≡ ok m = cc (rw (logs, got) at h) in
              with_log-IsMade cfg log m cfg.private_key refl (got ∙ ap some same)
        ]
      ]
