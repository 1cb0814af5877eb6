-- ===== src/Config/Defaults.antt =====
-- What `defaultConfig` fills in, and what it leaves.
use net_hive.Prelude.Int.{ℤ, pos, negsuc}
use net_hive.Netip.{Prefix}
use net_hive.Config.{
  keep_or_generate, Config, is_valid_prefix, default_tun, default_mtu, default_addr, generated,
  default_key, default_bootstraps, then_bootstraps, default_config,
}
use net_hive.Config.Key.{PrivateKey, Crypto, new_private_key, priv_key}
use net_hive.Prelude.{
  Result-cases, zero, suc, ◌≡◌, refl, sym, ap, ◌∙◌, ◌≢◌, inl, inr, true, Option, none, some, List,
  [], ◌∷◌, arith, Bytes, Bool-cases, Option-cases, err,
}

-- The result has a value for every setting that may be missing, keeps each one that was given, and
-- is otherwise the configuration that was read. A peer ID comes with a new key only.
pub record Filled {L : Type 0} (peers : List Bytes) (cfg cfg' : Config L) : Type 0 where
  pub tun_name : Bytes
  pub mtu : ℤ
  pub local_addr : Prefix
  pub private_key : PrivateKey
  pub peer_id : Bytes
  pub bootstraps : List Bytes
  pub result : cfg' ≡ record cfg {
    tun_name = tun_name;
    mtu = mtu;
    local_addr = local_addr;
    private_key = some private_key;
    peer_id = peer_id;
    bootstraps = bootstraps;
  }
  pub has_tun_name : tun_name ≢ []
  pub has_mtu : mtu ≢ pos 0
  pub has_local_addr : is_valid_prefix local_addr ≡ true
  pub has_bootstraps : peers ≢ [] → bootstraps ≢ []
  pub keeps_tun_name : cfg.tun_name ≢ [] → tun_name ≡ cfg.tun_name
  pub keeps_mtu : cfg.mtu ≢ pos 0 → mtu ≡ cfg.mtu
  pub keeps_local_addr : is_valid_prefix cfg.local_addr ≡ true → local_addr ≡ cfg.local_addr
  pub keeps_key :
      (k : PrivateKey) → cfg.private_key ≡ some k → (private_key ≡ k) × (peer_id ≡ cfg.peer_id)
  pub keeps_bootstraps : cfg.bootstraps ≢ [] → bootstraps ≡ cfg.bootstraps

tun_stage : (n : Bytes) → (default_tun n ≢ []) × (n ≢ [] → default_tun n ≡ n)
unfolding default_tun
tun_stage [] = (λ e. cc (e), λ ne. absurd (ne refl))
tun_stage (c ∷ cs) = (λ e. cc (e), λ ne. refl)

mtu_stage : (m : ℤ) → (default_mtu m ≢ pos 0) × (m ≢ pos 0 → default_mtu m ≡ m)
unfolding default_mtu
mtu_stage (pos zero) = (λ e. ground arith, λ ne. absurd (ne refl))
mtu_stage (pos (suc n)) = (λ e. ground arith, λ ne. ground arith)
mtu_stage (negsuc n) = (λ e. cc (e), λ ne. refl)

addr_stage :
    (p : Prefix)
    → (is_valid_prefix (default_addr p) ≡ true) × (is_valid_prefix p ≡ true → default_addr p ≡ p)
unfolding default_addr
addr_stage p = elim (Bool-cases (is_valid_prefix p)) [
  | inl given ↦ (simp (given, given), λ _. simp given)
  | inr missing ↦ (simp missing, λ given. cc (given, missing))
]

bootstraps_stage :
    (peers bs : List Bytes)
    → (peers ≢ [] → default_bootstraps peers bs ≢ []) × (bs ≢ [] → default_bootstraps peers bs ≡ bs)
unfolding default_bootstraps
bootstraps_stage peers [] = (λ ne. ne, λ ne. absurd (ne refl))
bootstraps_stage peers (b ∷ bs) = (λ _ e. cc (e), λ ne. refl)

module _ (C : Crypto) {L : Type 0} where
  -- A key that is given is kept; a new one comes with its ID.
  abbrev Keyed : Config L → Config L → Option PrivateKey → Type 0
  Keyed cfg cfg' o =
      (k : PrivateKey) × (id : Bytes) × (cfg' ≡ record cfg { private_key = some k; peer_id = id })
      × ((k' : PrivateKey) → o ≡ some k' → (k ≡ k') × (id ≡ cfg.peer_id))

  generated-some :
      (cfg cfg' : Config L) (o : Option PrivateKey)
      → generated C cfg o ≡ some (cfg', none)
      → Keyed cfg cfg' none
  unfolding generated
  generated-some cfg cfg' none h = cc (h)
  generated-some cfg cfg' (some k) h = elim (Result-cases (priv_key C k)) [
    | inr (x, failed) ↦ cc (rw (failed, generated) at h)
    | inl (key, read) ↦ elim (Result-cases (C.id_from_private_key key)) [
      | inr (x, failed) ↦ cc (rw (read, failed, generated) at h)
      | inl (id, named) ↦ (k, id, sym (cc (rw (read, named, generated) at h)), λ k' e. cc (e))
    ]
  ]

  key_stage :
      (rand : C.Random) (cfg cfg' : Config L) (o : Option PrivateKey)
      → cfg.private_key ≡ o
      → keep_or_generate C rand cfg o ≡ some (cfg', none)
      → Keyed cfg cfg' o
  unfolding keep_or_generate
  key_stage rand cfg cfg' (some k) given h =
      let same : cfg ≡ cfg' = cc (h) in
      (
        k,
        cfg.peer_id,
        sym same ∙ (λ i. record cfg { private_key = given i }),
        λ k' e. (cc (e), refl),
      )
  key_stage rand cfg cfg' none given h = generated-some cfg cfg' _ h

  abbrev first : Config L → Config L
  first cfg = record cfg {
    tun_name = default_tun cfg.tun_name;
    mtu = default_mtu cfg.mtu;
    local_addr = default_addr cfg.local_addr;
  }

  -- A configuration that `defaultConfig` accepts is complete afterwards, and keeps what was given.
  pub default_config-Filled :
      (peers : List Bytes) (rand : C.Random) {cfg cfg' : Config L}
      → default_config C peers rand cfg ≡ some (cfg', none)
      → Filled peers cfg cfg'
  unfolding default_config default_key
  default_config-Filled peers rand {cfg} {cfg'} h =
      elim (Option-cases (default_key C rand (first cfg))) [
        | inl panics ↦ cc (rw panics at h)
        | inr ((mid, some x), stops) ↦ cc (rw stops at h)
        | inr ((mid, none), goes) ↦
            let (k, id, is, kept) = key_stage rand (first cfg) mid cfg.private_key refl goes in
            let last : record mid { bootstraps = default_bootstraps peers mid.bootstraps } ≡ cfg' =
              cc (rw goes at h) in
            record {
              tun_name = default_tun cfg.tun_name;
              mtu = default_mtu cfg.mtu;
              local_addr = default_addr cfg.local_addr;
              private_key = k;
              peer_id = id;
              bootstraps = default_bootstraps peers cfg.bootstraps;
              result =
                  sym last
                  ∙ ap
                      (λ (c : Config L). record c {
                        bootstraps = default_bootstraps peers c.bootstraps;
                      })
                      is;
              has_tun_name = (tun_stage cfg.tun_name).0;
              has_mtu = (mtu_stage cfg.mtu).0;
              has_local_addr = (addr_stage cfg.local_addr).0;
              has_bootstraps = (bootstraps_stage peers cfg.bootstraps).0;
              keeps_tun_name = (tun_stage cfg.tun_name).1;
              keeps_mtu = (mtu_stage cfg.mtu).1;
              keeps_local_addr = (addr_stage cfg.local_addr).1;
              keeps_key = kept;
              keeps_bootstraps = (bootstraps_stage peers cfg.bootstraps).1;
            }
      ]

  keep_or_generate-some :
      (rand : C.Random) (cfg : Config L) (k : PrivateKey) (o : Option PrivateKey)
      → o ≡ some k
      → keep_or_generate C rand cfg o ≡ some (cfg, none)
  unfolding keep_or_generate
  keep_or_generate-some rand cfg k none e = cc (e)
  keep_or_generate-some rand cfg k (some k') e = refl

  keep_or_generate-none :
      (rand : C.Random) (cfg : Config L) (x : C.Error)
      → C.generate rand ≡ err x
      → (o : Option PrivateKey) → o ≡ none
      → keep_or_generate C rand cfg o ≡ none
  unfolding keep_or_generate generated new_private_key
  keep_or_generate-none rand cfg x fails none e = rw (fails, new_private_key)
  keep_or_generate-none rand cfg x fails (some k) e = cc (e)

  -- On a complete configuration (a TUN name, an MTU, a valid local address, a key and a bootstrap
  -- list) `defaultConfig` returns that configuration, whatever the source of randomness and the
  -- default bootstrap list.
  pub default_config_again :
      (peers : List Bytes) (rand : C.Random) {cfg : Config L} (k : PrivateKey)
      → cfg.tun_name ≢ []
      → cfg.mtu ≢ pos 0
      → is_valid_prefix cfg.local_addr ≡ true
      → cfg.private_key ≡ some k
      → cfg.bootstraps ≢ []
      → default_config C peers rand cfg ≡ some (cfg, none)
  unfolding default_config default_key
  default_config_again peers rand {cfg} k tun mtu addr key boot =
      let same : first cfg ≡ cfg = λ i. record cfg {
        tun_name = (tun_stage cfg.tun_name).1 tun i;
        mtu = (mtu_stage cfg.mtu).1 mtu i;
        local_addr = (addr_stage cfg.local_addr).1 addr i;
      } in
      let boots = (bootstraps_stage peers cfg.bootstraps).1 boot in
      rw (keep_or_generate-some rand (first cfg) k cfg.private_key key) (
        ap (λ (c : Config L). some (then_bootstraps C peers (c, none))) same
        ∙ (λ i. some (record cfg { bootstraps = boots i }, none)))

  -- When libp2p cannot generate a key, a configuration without one makes `defaultConfig` panic: it
  -- throws the error away and calls a method of the `nil` key.
  pub default_config_panics :
      (peers : List Bytes) (rand : C.Random) (cfg : Config L) (x : C.Error)
      → cfg.private_key ≡ none
      → C.generate rand ≡ err x
      → default_config C peers rand cfg ≡ none
  unfolding default_config default_key
  default_config_panics peers rand cfg x missing fails =
      rw (keep_or_generate-none rand (first cfg) x fails cfg.private_key missing)
