-- ===== src/Program/Serve.antt =====
-- What the program has done when it serves, and a configuration with which it never does.
use net_hive.Prelude.{
  ℕ, ◌≤◌, ◌≡◌, refl, sym, ap, ◌∙◌, inl, inr, Option, none, some, List, [], ◌∷◌, Bytes, Option-cases,
  Elem, Result, ok, err,
}
use net_hive.Netip.{ip6, as4, Prefix}
use net_hive.Config.{Config}
use net_hive.Config.Key.{Crypto}
use net_hive.Config.Load
use net_hive.Config.Load.{Files, LoadError, encode}
use net_hive.Log.{CoreConfig, Zap}
use net_hive.Route
use net_hive.Route.{RouteCalls, RouteError}
use net_hive.Route.Mask.{add-ip6}
use net_hive.Engine.{Maps, Engine, PeerId}
use net_hive.Engine.Setup.{
  new_engine, Answers, Goroutine, check, store_routes, with_name, start_services, run,
}
use net_hive.Engine.Setup.Start.{Distinct, Ready, run-Ready}
use net_hive.Engine.Setup.Make.{Libp2p, MakeError, Made, make}
use net_hive.Engine.Setup.Relays.{IsMade, make-IsMade, has_finder}
use net_hive.Program.{parse, serving, with_routes, main_run, main_made, main_loaded, main}

-- A route whose addition panics, anywhere in the table.
store_routes-panics :
    (T : Maps) {R : Type 0} (add : Prefix → Option (Option R)) (rs : List (PeerId × Prefix))
    (m : T.m.Map) (id : PeerId) (p : Prefix)
    → Elem (id, p) rs
    → add p ≡ none
    → store_routes T add rs m ≡ none
unfolding store_routes
store_routes-panics T add [] m id p there panics = absurd there
store_routes-panics T add ((j, q) ∷ rs) m id p there panics = elim there [
  | inl same ↦ rw (ap add (ap (λ (r : PeerId × Prefix). r.1) (sym same)) ∙ panics) refl
  | inr later ↦ elim (Option-cases (add q)) [
    | inl now ↦ rw now refl
    | inr (answer, goes) ↦
        rw (goes, store_routes-panics T add rs (T.m.store m j q) id p later panics) refl
  ]
]

module _ (T : Maps) (C : Crypto) (Z : Zap) (P : Libp2p C.Key) (F : Files CoreConfig) {E S : Type 0}
    (routes : RouteCalls S)
    (answers : Config CoreConfig → Made T C Z P → Answers E (RouteError S)) where
  -- What has happened when the program serves with the engine of `m` and the goroutines `gs`.
  pub record Serves (peers : List Bytes) (rand : C.Random) (d : F.Disk) (flag : Option Bytes)
      (m : Made T C Z P) (gs : List Goroutine) : Type 0 where
    pub cfg : Config CoreConfig
    pub disk : F.Disk
    pub loaded : Load.load F C peers rand d (parse flag) ≡ some (ok (cfg, disk))
    -- What was read, how it was completed, and that this was saved to the same file.
    pub went : Load.Went F C peers rand d (parse flag) cfg disk
    pub wrote : F.put d (parse flag) (encode cfg) ≡ ok disk
    pub made : Made T C Z P
    pub is_made : IsMade T C Z P cfg made
    pub distinct : Distinct cfg.peers_route_table
    pub runs :
        run T (with_routes T C Z P F routes answers cfg made) cfg (new_engine T cfg)
        ≡ some (ok (m.engine, gs))
    pub ready : Ready T cfg m.engine gs
    pub finder : m.relay_chan ≡ has_finder gs
    pub host : m.host ≡ made.host

  main_run-serving :
      (made m : Made T C Z P) (gs : List Goroutine) (r : Result E (Engine T × List Goroutine))
      → main_run T C Z P F routes answers made r ≡ serving m gs
      → (r ≡ ok (m.engine, gs)) × (record made { engine = m.engine } ≡ m)
  unfolding main_run
  main_run-serving made m gs (err x) h = cc (h)
  main_run-serving made m gs (ok (e, gs')) h =
      let same : record made { engine = e } ≡ m = cc (h) in
      let all : gs' ≡ gs = cc (h) in
      let engine : e ≡ m.engine = ap (λ (x : Made T C Z P). x.engine) same in
      (
        (λ i. ok (engine i, all i)),
        ap (λ (x : Engine T). record made { engine = x }) (sym engine) ∙ same,
      )

  main_made-serving :
      (cfg : Config CoreConfig) (m : Made T C Z P) (gs : List Goroutine)
      (out : Result (MakeError C.Error P.Error) (Made T C Z P))
      → main_made T C Z P F routes answers cfg out ≡ some (serving m gs)
      → (made : Made T C Z P) × (out ≡ ok made)
        × (run T (with_routes T C Z P F routes answers cfg made) cfg made.engine
            ≡ some (ok (m.engine, gs)))
        × (record made { engine = m.engine } ≡ m)
  unfolding main_made
  main_made-serving cfg m gs (err x) h = cc (h)
  main_made-serving cfg m gs (ok made) h =
      elim (Option-cases (run T (with_routes T C Z P F routes answers cfg made) cfg made.engine)) [
        | inl panics ↦ cc (rw panics at h)
        | inr (r, goes) ↦
            let (same, is) = main_run-serving made m gs r (cc (rw goes at h)) in
            (made, refl, goes ∙ ap some same, is)
      ]

  main_loaded-Serves :
      (peers : List Bytes) (rand : C.Random) (d : F.Disk) (w : Z.World) (flag : Option Bytes)
      (m : Made T C Z P) (gs : List Goroutine)
      (loaded : Result (LoadError F.Error C.Error) (Config CoreConfig × F.Disk))
      → ((cfg : Config CoreConfig) (d' : F.Disk)
          → Load.load F C peers rand d (parse flag) ≡ some (ok (cfg, d'))
          → Distinct cfg.peers_route_table)
      → Load.load F C peers rand d (parse flag) ≡ some loaded
      → main_loaded T C Z P F routes answers w loaded ≡ some (serving m gs)
      → Serves peers rand d flag m gs
  unfolding main_loaded
  main_loaded-Serves peers rand d w flag m gs (err x) distinct got h = cc (h)
  main_loaded-Serves peers rand d w flag m gs (ok (cfg, d')) distinct got h =
      elim (Option-cases (make T C Z P cfg [] w)) [
        | inl panics ↦ cc (rw panics at h)
        | inr ((out, configs, w1), goes) ↦
            let (made, is_ok, runs, same) = main_made-serving cfg m gs out (rw goes at h) in
            let is : IsMade T C Z P cfg made =
              make-IsMade T C Z P cfg [] w made configs w1
                (goes ∙ ap (λ o. some (o, configs, w1)) is_ok) in
            let begun =
              ap (λ (e : Engine T). run T (with_routes T C Z P F routes answers cfg made) cfg e)
                is.engine in
            let started = sym begun ∙ runs in
            let ready =
              run-Ready T (with_routes T C Z P F routes answers cfg made) cfg (distinct cfg d' got)
                started in
            record {
              cfg = cfg;
              disk = d';
              loaded = got;
              went = Load.load-Went F C peers rand d (parse flag) cfg d' got;
              wrote = (Load.load-put F C peers rand d (parse flag) cfg d' got).1;
              made = made;
              is_made = is;
              distinct = distinct cfg d' got;
              runs = started;
              ready = ready;
              finder =
                  ap (λ (x : Made T C Z P). x.relay_chan) (sym same)
                  ∙ is.finder
                  ∙ ap has_finder (sym ready.goroutines);
              host = ap (λ (x : Made T C Z P). x.host) (sym same);
            }
      ]

  -- When the program serves, it has read the configuration from the file of the flag `config`, or
  -- of the default, completed it, and saved the completed one, encoded, to the same file; its node
  -- has the private key of that configuration; its engine is in the start state, with every peer of
  -- the configuration in its route table; and the finder of relays runs exactly if its channel is
  -- made. The peers that `Load` gives are supposed to be distinct, as the keys of a map.
  pub main-Serves :
      (peers : List Bytes) (rand : C.Random) (d : F.Disk) (w : Z.World) (flag : Option Bytes)
      (m : Made T C Z P) (gs : List Goroutine)
      → ((cfg : Config CoreConfig) (d' : F.Disk)
          → Load.load F C peers rand d (parse flag) ≡ some (ok (cfg, d'))
          → Distinct cfg.peers_route_table)
      → main T C Z P F routes answers peers rand d w flag ≡ some (serving m gs)
      → Serves peers rand d flag m gs
  unfolding main
  main-Serves peers rand d w flag m gs distinct h =
      elim (Option-cases (Load.load F C peers rand d (parse flag))) [
        | inl panics ↦ cc (rw panics at h)
        | inr (loaded, got) ↦
            main_loaded-Serves peers rand d w flag m gs loaded distinct got (rw got at h)
      ]

  -- A peer with an IPv6 prefix ends the program. Let `Load` and the function `Run` succeed, let the
  -- device be created, named, given its address and put up, and let there be a socket. If the
  -- configuration has, anywhere in its table of peers, a prefix with an IPv6 address that is not an
  -- IPv4 one, then `main` panics.
  pub main-ip6 :
      (peers : List Bytes) (rand : C.Random) (d : F.Disk) (w : Z.World) (flag : Option Bytes)
      (cfg : Config CoreConfig) (d' : F.Disk) (made : Made T C Z P) (configs : List CoreConfig)
      (w' : Z.World) (name : Bytes) (id : PeerId) (b z : Bytes) (k : ℕ)
      → Load.load F C peers rand d (parse flag) ≡ some (ok (cfg, d'))
      → make T C Z P cfg [] w ≡ some (ok made, configs, w')
      → (answers cfg made).create_tun ≡ none
      → (answers cfg made).name ≡ ok name
      → (answers cfg made).add_address cfg.local_addr ≡ none
      → (answers cfg made).up ≡ none
      → routes.socket ≡ none
      → Elem (id, record { addr = ip6 b z; bits = k }) cfg.peers_route_table
      → k ≤ 128
      → as4 (ip6 b z) ≡ none
      → main T C Z P F routes answers peers rand d w flag ≡ none
  unfolding main main_loaded main_made run with_name start_services check with_routes
  main-ip6 peers rand d w flag cfg d' made configs w' name id b z k loads makes tun named addr up
        sock there fits bad =
      let panics =
        store_routes-panics T (Route.add routes name) cfg.peers_route_table made.engine.net.table.m
          id (record { addr = ip6 b z; bits = k }) there
          (add-ip6 routes name b z k fits sock bad) in
      rw
        (
          loads, makes, tun, named, addr, up, panics, main, main_loaded, main_made, run, with_name,
          start_services,
        )
        refl
