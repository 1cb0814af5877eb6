-- ===== src/Config/Load.antt =====
-- `Load` and `Save` of core/config/config.go, over a disk and a JSON library that are not part of
-- the program.
use net_hive.Prelude.Int.{pos}
use net_hive.Netip.{zero_addr}
use net_hive.Config.{Config, default_config, is_valid_prefix}
use net_hive.Config.Key.{Crypto, PrivateKey, marshal_text, unmarshal_text}
use net_hive.Config.Key.Hex.{HexError}
use net_hive.Config.Key.Text.{unmarshal_text-marshal_text}
use net_hive.Config.Defaults.{default_config-Filled, default_config_again}
use net_hive.Prelude.{
  ◌<◌, ◌≡◌, refl, sym, ap, ◌∙◌, ◌≢◌, inl, inr, Bool, true, false, Option, none, some, List, [],
  if◌then◌else◌, Bytes, Bool-cases, Option-cases, All, Result, ok, err, Result-cases, ◌>>=◌,
}

-- A configuration as the JSON library sees it: the settings, without the unexported path, and the
-- text of the key, if there is one.
pub record Document (L : Type 0) : Type 0 where
  pub settings : Config L
  pub key_text : Option Bytes

-- `gfile` and `gjson`. JSON keeps a document whose strings are text in UTF-8, and whose log
-- configurations it can write: such a one is read back as it was written.
pub record Files (L : Type 0) : Type 1 where
  pub Disk : Type 0
  pub Error : Type 0
  pub exists : Disk → Bytes → Bool
  -- `gjson.Load` and `Scan`, either of which may fail, up to the text of the key.
  pub read : Disk → Bytes → Result Error (Document L)
  -- `gfile.PutBytes` of the indented JSON.
  pub put : Disk → Bytes → Document L → Result Error Disk
  pub IsText : Document L → Type 0
  pub exists-put :
      (d d' : Disk) (p : Bytes) (c : Document L) → put d p c ≡ ok d' → exists d' p ≡ true
  pub read-put :
      (d d' : Disk) (p : Bytes) (c : Document L) → IsText c → put d p c ≡ ok d' → read d' p ≡ ok c

pub data LoadError (E F : Type 0) : Type 0 where
  file : E → LoadError E F
  key : HexError → LoadError E F
  crypto : F → LoadError E F

-- `&Config{path: path}`
abbrev pub empty_config : (L : Type 0) → Bytes → Config L
empty_config L path = record {
  path = path;
  tun_name = [];
  mtu = pos 0;
  local_addr = record { addr = zero_addr; bits = 0 };
  enable_broadcast = false;
  private_key = none;
  peer_id = [];
  bootstraps = [];
  peers_route_table = [];
  relays = [];
  enable_auto_relay = false;
  enable_mdns = false;
  log_configs = [];
}

unfoldable pub key_to_text : Option PrivateKey → Option Bytes
key_to_text none = none
key_to_text (some k) = some (marshal_text k)

-- What is written: the library calls `MarshalText` of the key.
unfoldable pub encode : {L : Type 0} → Config L → Document L
encode cfg = record {
  settings = record cfg { path = []; private_key = none };
  key_text = key_to_text cfg.private_key;
}

-- What is read into a configuration that has only its path: for the text of a key, the library
-- makes a `PrivateKey` and calls its `UnmarshalText`.
unfoldable pub with_key :
    {L : Type 0} → Config L → Result HexError PrivateKey → Result HexError (Config L)
with_key cfg (err x) = err x
with_key cfg (ok k) = ok (record cfg { private_key = some k })

unfoldable pub decode_key : {L : Type 0} → Config L → Option Bytes → Result HexError (Config L)
decode_key cfg none = ok (record cfg { private_key = none })
decode_key cfg (some text) = with_key cfg (unmarshal_text (record { key = [] }) text)

unfoldable pub decode : {L : Type 0} → Bytes → Document L → Result HexError (Config L)
decode path c = decode_key (record c.settings { path = path }) c.key_text

-- The keys of a configuration are bytes.
abbrev pub KeyIsBytes : {L : Type 0} → Config L → Type 0
KeyIsBytes cfg = (k : PrivateKey) → cfg.private_key ≡ some k → All (λ b. b < 256) k.key

decode_key-text :
    {L : Type 0} (cfg : Config L) (o : Option PrivateKey)
    → ((k : PrivateKey) → o ≡ some k → All (λ b. b < 256) k.key)
    → decode_key cfg (key_to_text o) ≡ ok (record cfg { private_key = o })
unfolding decode_key key_to_text with_key
decode_key-text cfg none bytes = refl
decode_key-text cfg (some k) bytes =
    rw (unmarshal_text-marshal_text (record { key = [] }) k (bytes k refl)) refl

-- A configuration is decoded as it was encoded, at its path.
pub decode-encode :
    {L : Type 0} (cfg : Config L) (path : Bytes)
    → KeyIsBytes cfg
    → decode path (encode cfg) ≡ ok (record cfg { path = path })
unfolding decode encode
decode-encode cfg path bytes =
    decode_key-text (record cfg { path = path; private_key = none }) cfg.private_key bytes

module _ {L : Type 0} (F : Files L) (C : Crypto) where
  open F use {Disk, exists, read, put}

  abbrev pub Loaded : Type 0
  Loaded = Result (LoadError F.Error C.Error) (Config L × Disk)

  -- `Save`
  unfoldable pub save : Disk → Config L → Result F.Error Disk
  save d cfg = put d cfg.path (encode cfg)

  unfoldable pub decoded :
      Result HexError (Config L) → Result (LoadError F.Error C.Error) (Config L)
  decoded (err x) = err (key x)
  decoded (ok cfg) = ok cfg

  unfoldable pub scanned :
      Bytes → Result F.Error (Document L) → Result (LoadError F.Error C.Error) (Config L)
  scanned path (err x) = err (file x)
  scanned path (ok c) = decoded (decode path c)

  unfoldable pub read_file : Disk → Bytes → Result (LoadError F.Error C.Error) (Config L)
  read_file d path = if exists d path then scanned path (read d path) else ok (empty_config L path)

  unfoldable pub saved : Config L → Result F.Error Disk → Loaded
  saved cfg (err x) = err (file x)
  saved cfg (ok d) = ok (cfg, d)

  unfoldable pub completed : Disk → Config L × Option C.Error → Loaded
  completed d (cfg, some x) = err (crypto x)
  completed d (cfg, none) = saved cfg (save d cfg)

  unfoldable pub load_read :
      List Bytes → C.Random → Disk → Result (LoadError F.Error C.Error) (Config L) → Option Loaded
  load_read peers rand d (err x) = some (err x)
  load_read peers rand d (ok cfg) = do out ← default_config C peers rand cfg; some (completed d out)

  -- `Load`: the configuration, and the disk after it was saved.
  unfoldable pub load : List Bytes → C.Random → Disk → Bytes → Option Loaded
  load peers rand d path = load_read peers rand d (read_file d path)

  -- What a successful `Load` has gone through.
  pub record Went (peers : List Bytes) (rand : C.Random) (d : Disk) (path : Bytes) (cfg : Config L)
      (d' : Disk) : Type 0 where
    pub found : Config L
    pub is_read : read_file d path ≡ ok found
    pub is_complete : default_config C peers rand found ≡ some (cfg, none)
    pub is_saved : save d cfg ≡ ok d'

  saved-ok :
      (cfg c : Config L) (d' : Disk) (r : Result F.Error Disk)
      → saved c r ≡ ok (cfg, d')
      → (c ≡ cfg) × (r ≡ ok d')
  unfolding saved
  saved-ok cfg c d' (err x) h = cc (h)
  saved-ok cfg c d' (ok d) h = (cc (h), cc (h))

  completed-ok :
      (d : Disk) (cfg : Config L) (d' : Disk) (out : Config L × Option C.Error)
      → completed d out ≡ ok (cfg, d')
      → (out ≡ (cfg, none)) × (save d cfg ≡ ok d')
  unfolding completed
  completed-ok d cfg d' (c, some x) h = cc (h)
  completed-ok d cfg d' (c, none) h =
      let (same, wrote) = saved-ok cfg c d' (save d c) h in
      ((λ i. (same i, none)), rw same at wrote)

  load_read-ok :
      (peers : List Bytes) (rand : C.Random) (d : Disk) (path : Bytes) (cfg : Config L) (d' : Disk)
      (r : Result (LoadError F.Error C.Error) (Config L))
      → read_file d path ≡ r
      → load_read peers rand d r ≡ some (ok (cfg, d'))
      → Went peers rand d path cfg d'
  unfolding load_read
  load_read-ok peers rand d path cfg d' (err x) e h = cc (h)
  load_read-ok peers rand d path cfg d' (ok found) e h =
      elim (Option-cases (default_config C peers rand found)) [
        | inl panics ↦ cc (rw panics at h)
        | inr (out, goes) ↦
            let (same, wrote) = completed-ok d cfg d' out (cc (rw goes at h)) in
            record {
              found = found;
              is_read = e;
              is_complete = goes ∙ ap some same;
              is_saved = wrote;
            }
      ]

  -- A successful `Load` has read, completed and saved the configuration.
  pub load-Went :
      (peers : List Bytes) (rand : C.Random) (d : Disk) (path : Bytes) (cfg : Config L) (d' : Disk)
      → load peers rand d path ≡ some (ok (cfg, d'))
      → Went peers rand d path cfg d'
  unfolding load
  load-Went peers rand d path cfg d' h =
      load_read-ok peers rand d path cfg d' (read_file d path) refl h

  decoded-path :
      (path : Bytes) (cfg : Config L) (o : Option Bytes) (found : Config L)
      → cfg.path ≡ path
      → decoded (decode_key cfg o) ≡ ok found
      → found.path ≡ path
  unfolding decoded decode_key with_key
  decoded-path path cfg none found is h =
      let same : record cfg { private_key = none } ≡ found = cc (h) in
      ap (λ (c : Config L). c.path) (sym same) ∙ is
  decoded-path path cfg (some text) found is h =
      elim (Result-cases (unmarshal_text (record { key = [] }) text)) [
        | inl (k, good) ↦
            let same : record cfg { private_key = some k } ≡ found = cc (rw good at h) in
            ap (λ (c : Config L). c.path) (sym same) ∙ is
        | inr (x, bad) ↦ cc (rw bad at h)
      ]

  scanned-path :
      (path : Bytes) (r : Result F.Error (Document L)) (found : Config L)
      → scanned path r ≡ ok found
      → found.path ≡ path
  unfolding scanned decode
  scanned-path path (err x) found h = cc (h)
  scanned-path path (ok c) found h =
      decoded-path path (record c.settings { path = path }) c.key_text found refl h

  path-found :
      (d : Disk) (path : Bytes) (found : Config L) → read_file d path ≡ ok found → found.path ≡ path
  unfolding read_file
  path-found d path found h = elim (Bool-cases (exists d path)) [
    | inl there ↦ scanned-path path (read d path) found (rw there at h)
    | inr absent ↦
        let same : empty_config L path ≡ found = cc (rw absent at h) in
        ap (λ (c : Config L). c.path) (sym same)
  ]

  -- It was saved to the file from which it was read.
  pub load-put :
      (peers : List Bytes) (rand : C.Random) (d : Disk) (path : Bytes) (cfg : Config L) (d' : Disk)
      → load peers rand d path ≡ some (ok (cfg, d'))
      → (cfg.path ≡ path) × (put d path (encode cfg) ≡ ok d')
  unfolding save
  load-put peers rand d path cfg d' h =
      let went = load-Went peers rand d path cfg d' h in
      let is_path : cfg.path ≡ path =
        ap (λ (c : Config L). c.path) (default_config-Filled C peers rand went.is_complete).result
        ∙ path-found d path went.found went.is_read in
      (is_path, ap (λ (p : Bytes). put d p (encode cfg)) (sym is_path) ∙ went.is_saved)

  read_file-put :
      (d d' : Disk) (path : Bytes) (cfg : Config L)
      → cfg.path ≡ path
      → F.IsText (encode cfg)
      → KeyIsBytes cfg
      → put d path (encode cfg) ≡ ok d'
      → read_file d' path ≡ ok cfg
  unfolding read_file scanned decoded
  read_file-put d d' path cfg e text bytes h =
      let back : decode path (encode cfg) ≡ ok cfg =
        decode-encode cfg path bytes ∙ (λ i. ok (record cfg { path = (sym e) i })) in
      rw (F.exists-put d d' path (encode cfg) h, F.read-put d d' path (encode cfg) text h, back)
        refl

  -- The identity of a node outlives a restart. Let the default bootstrap list not be empty. After a
  -- successful `Load` whose configuration has strings that JSON keeps, and a key of bytes, another
  -- `Load` from the disk that it left reads the same configuration, with the key that
  -- `UnmarshalText` gives for the text that `MarshalText` wrote, and the same peer ID, whatever the
  -- source of randomness, and comes to what saving that configuration again comes to.
  pub load_again :
      (peers : List Bytes) (rand rand' : C.Random) (d : Disk) (path : Bytes) {cfg : Config L}
      {d' : Disk}
      → peers ≢ []
      → load peers rand d path ≡ some (ok (cfg, d'))
      → F.IsText (encode cfg)
      → KeyIsBytes cfg
      → load peers rand' d' path ≡ some (saved cfg (save d' cfg))
  unfolding load save load_read saved
  load_again peers rand rand' d path {cfg} {d'} some_peers h text bytes =
      let went = load-Went peers rand d path cfg d' h in
      let filled = default_config-Filled C peers rand went.is_complete in
      let same = filled.result in
      let (is_path, wrote) = load-put peers rand d path cfg d' h in
      let again : read_file d' path ≡ ok cfg =
        read_file-put d d' path cfg is_path text bytes wrote in
      let complete : default_config C peers rand' cfg ≡ some (cfg, none) =
        default_config_again C peers rand' filled.private_key
          (λ e. filled.has_tun_name (sym (ap (λ (c : Config L). c.tun_name) same) ∙ e))
          (λ e. filled.has_mtu (sym (ap (λ (c : Config L). c.mtu) same) ∙ e))
          (ap (λ (c : Config L). is_valid_prefix c.local_addr) same ∙ filled.has_local_addr)
          (ap (λ (c : Config L). c.private_key) same)
          (λ e.
            filled.has_bootstraps some_peers
              (sym (ap (λ (c : Config L). c.bootstraps) same) ∙ e)) in
      rw (again, load_read) (rw complete (unfold completed in refl))
