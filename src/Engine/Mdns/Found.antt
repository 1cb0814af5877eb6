-- ===== src/Engine/Mdns/Found.antt =====
-- core/engine/mdns.go: the peers that mDNS finds, and what becomes of them.
use net_hive.Prelude.{
  ◌≡◌, refl, sym, subst, ◌≢◌, inl, inr, Bool, true, Option, none, some, List, [], ◌∷◌, arith, Bytes,
  Elem, List-cases, All,
}
use net_hive.Engine.Search.{
  AddrInfo, Net, has_addrs, search_by_cache, Interleaved, finished, left, right, SearchNode, Found,
  opened, add_conn,
}
use net_hive.Engine.Search.Stream.{Fails, add_conn_lem}

-- libp2p's store of addresses. `PeerInfo` gives the addresses under an ID, and `AddAddrs` adds some
-- for a time; the documented behaviour is that within it each of them is given.
pub record Peerstore : Type 1 where
  pub Store : Type 0
  pub peer_info : Store → Bytes → AddrInfo
  pub add_addrs : Store → Bytes → List Bytes → Store
  pub id-peer_info : (s : Store) (id : Bytes) → (peer_info s id).id ≡ id
  pub added :
      (s : Store) (id : Bytes) (addrs : List Bytes) (a : Bytes)
      → Elem a addrs
      → Elem a (peer_info (add_addrs s id addrs) id).addrs

-- `EnableMdns`: the service that is there, or a new one, for which the loop is started.
unfoldable pub enable_mdns : {S : Type 0} → S → Option S → S
enable_mdns new none = new
enable_mdns new (some s) = s

module _ (P : Peerstore) where
  -- `HandlePeerFound`
  unfoldable pub handle_peer_found : AddrInfo → P.Store → P.Store
  handle_peer_found info s = P.add_addrs s info.id info.addrs

  -- The network with the addresses of a store.
  abbrev pub net_of : Net → P.Store → Net
  net_of N s = record N { peer_info = P.peer_info s }

  found-has_addrs :
      (info : AddrInfo) (s : P.Store)
      → info.addrs ≢ []
      → has_addrs (P.peer_info (handle_peer_found info s) info.id) ≡ true
  unfolding handle_peer_found
  found-has_addrs info s some_addrs = elim (List-cases info.addrs) [
    | inl empty ↦ absurd (some_addrs empty)
    | inr (a, addrs, is) ↦
        elim (List-cases (P.peer_info (P.add_addrs s info.id info.addrs) info.id).addrs) [
          | inl gone ↦ absurd (
              subst (Elem a) gone
                (P.added s info.id info.addrs a (subst (Elem a) (sym is) (inl refl))))
          | inr (b, bs, there) ↦ rw there (ground arith)
        ]
  ]

  -- What one of two goroutines sends arrives.
  arrives :
      (N : Net) (Q : AddrInfo → Type 0) (x : AddrInfo) {xs ys zs : List AddrInfo}
      → Interleaved N xs ys zs
      → Elem x xs
      → All Q zs
      → Q x
  arrives N Q x finished e all = absurd e
  arrives N Q x (left y m) e all = elim e [
    | inl same ↦ subst Q (sym same) all.0
    | inr later ↦ arrives N Q x m later all.1
  ]
  arrives N Q x (right y m) e all = arrives N Q x m e all.1

  -- A peer that mDNS finds can be reached. After `HandlePeerFound` for a peer with an address, if
  -- the host connects to the addresses that are then stored under its ID and opens a stream to it,
  -- `addConn` for the text of that ID has a stream, to that peer, at every order in which the cache
  -- and the DHT give their entries.
  pub found-add_conn :
      (N : Net) (info : AddrInfo) (s : P.Store) (bootstraps : List Bytes) (reports : List Bool)
      (id : Bytes) (found : Bytes → Found)
      → info.addrs ≢ []
      → N.decode id ≡ some info.id
      → N.connect (P.peer_info (handle_peer_found info s) info.id) ≡ true
      → (t : N.Stream) → N.new_stream info.id ≡ some t
      → SearchNode (net_of N (handle_peer_found info s)) bootstraps reports info.id (found info.id)
      → (out : AddrInfo) × (u : N.Stream) × (add_conn (net_of N (handle_peer_found info s)) id found
          ≡ opened out u)
        × (out.id ≡ info.id)
        × (N.connect out ≡ true)
        × (N.new_stream out.id ≡ some u)
  unfolding search_by_cache
  found-add_conn N info s bootstraps reports id found some_addrs text up t opens m =
      let s' = handle_peer_found info s in
      let M = net_of N s' in
      let known = P.peer_info s' info.id in
      let own : known.id ≡ info.id = P.id-peer_info s' info.id in
      let cached : search_by_cache M info.id ≡ known ∷ [] =
        rw (found-has_addrs info s some_addrs) refl in
      let failed : All (Fails M) (found info.id).infos → ⊥ = λ fails.
        let no_stream =
          arrives M (Fails M) known m.arrives (subst (Elem known) (sym cached) (inl refl)) fails
            up in
        cc (no_stream, opens) in
      elim (add_conn_lem M bootstraps reports id info.id found text own m) [
        | inl (out, u, got, (reaches, c, st)) ↦ (out, u, got, reaches.0, c, st)
        | inr other ↦ elim other [
          | inl (_, fails) ↦ absurd (failed fails)
          | inr (_, fails, _, _) ↦ absurd (failed fails)
        ]
      ]
