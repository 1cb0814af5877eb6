-- ===== src/Engine/Search/Stream.antt =====
-- To whom `addConn` opens a stream.
use net_hive.Engine.Search.{
  AddrInfo, Net, has_addrs, search_by_cache, wanted, search_by_dht, Interleaved, finished, left,
  right, SearchNode, Found, Attempt, opened, gave_up, waits, open_stream, add_conn,
}
use net_hive.Prelude.{
  ◌≡◌, refl, sym, subst, ◌≢◌, ◌⊎◌, inl, inr, Bool, true, false, none, some, List, [], ◌∷◌, Bytes,
  bytes_eq, bytes_eq_sound, Bool-cases, Option-cases, All,
}
use net_hive.Engine.Dht.{connect_bootstraps}

module _ (N : Net) where
  -- An entry for the peer that has an address.
  abbrev pub Reaches : Bytes → AddrInfo → Type 0
  Reaches id info = (info.id ≡ id) × (info.addrs ≢ [])

  has_addrs_sound : (info : AddrInfo) → has_addrs info ≡ true → info.addrs ≢ []
  has_addrs_sound info h e = cc (rw e at h)

  search_by_cache-Reaches :
      (id : Bytes) → (N.peer_info id).id ≡ id → All (Reaches id) (search_by_cache N id)
  unfolding search_by_cache
  search_by_cache-Reaches id own = elim (Bool-cases (has_addrs (N.peer_info id))) [
    | inl some_addr ↦ rw some_addr ((own, has_addrs_sound (N.peer_info id) some_addr), tt)
    | inr no_addr ↦ rw no_addr tt
  ]

  wanted-Reaches : (id : Bytes) (infos : List AddrInfo) → All (Reaches id) (wanted N id infos)
  unfolding wanted
  wanted-Reaches id [] = tt
  wanted-Reaches id (info ∷ infos) = elim (Bool-cases (bytes_eq id info.id)) [
    | inr other ↦ rw other (wanted-Reaches id infos)
    | inl same ↦ elim (Bool-cases (has_addrs info)) [
      | inl some_addr ↦
          rw (same, some_addr)
            (
              (sym (bytes_eq_sound id info.id same), has_addrs_sound info some_addr),
              wanted-Reaches id infos,
            )
      | inr no_addr ↦ rw (same, no_addr) (wanted-Reaches id infos)
    ]
  ]

  -- It never returns only if `FindPeers` fails and `connectBootstraps` never returns.
  Hangs : List Bytes → List Bool → Bytes → Type 0
  Hangs bootstraps reports id =
      (N.find_peers id ≡ none) × (connect_bootstraps bootstraps reports ≡ none)

  search_by_dht_lem :
      (bootstraps : List Bytes) (reports : List Bool) (id : Bytes)
      → All (Reaches id) (search_by_dht N bootstraps reports id).0
        × (((search_by_dht N bootstraps reports id).1 ≡ true)
            ⊎ (((search_by_dht N bootstraps reports id).1 ≡ false) × Hangs bootstraps reports id))
  unfolding search_by_dht Hangs
  search_by_dht_lem bootstraps reports id = elim (Option-cases (N.find_peers id)) [
    | inr (infos, found) ↦ rw (found, search_by_dht) (wanted-Reaches id infos, inl refl)
    | inl fails ↦ elim (Option-cases (connect_bootstraps bootstraps reports)) [
      | inl hangs ↦ rw (fails, hangs, search_by_dht) (tt, inr (refl, (refl, refl)))
      | inr (out, returns) ↦ rw (fails, returns, search_by_dht) (tt, inl refl)
    ]
  ]

  All-Interleaved :
      (P : AddrInfo → Type 0) {xs ys zs : List AddrInfo}
      → Interleaved N xs ys zs
      → All P xs
      → All P ys
      → All P zs
  All-Interleaved P finished h g = tt
  All-Interleaved P (left x m) h g = (h.0, All-Interleaved P m h.1 g)
  All-Interleaved P (right y m) h g = (g.0, All-Interleaved P m h g.1)

  -- The stream is one that the peer answered, to an entry of the list.
  abbrev pub Opens : (AddrInfo → Type 0) → AddrInfo × N.Stream → Type 0
  Opens P (info, s) = P info × (N.connect info ≡ true) × (N.new_stream info.id ≡ some s)

  abbrev pub Fails : AddrInfo → Type 0
  Fails info = N.connect info ≡ true → N.new_stream info.id ≡ none

  -- A result of the loop over the list.
  pub data Outcome (P : AddrInfo → Type 0) (closes : Bool) (infos : List AddrInfo)
      : Attempt N → Type 0 where
    streams :
        (info : AddrInfo) (s : N.Stream)
        → Opens P (info, s)
        → Outcome P closes infos (opened info s)
    fails : closes ≡ true → All Fails infos → Outcome P closes infos gave_up
    hangs : closes ≡ false → All Fails infos → Outcome P closes infos waits

  skip :
      (P : AddrInfo → Type 0) (closes : Bool) (info : AddrInfo) (infos : List AddrInfo)
      (o : Attempt N)
      → Fails info
      → Outcome P closes infos o
      → Outcome P closes (info ∷ infos) o
  skip P closes info infos (opened x s) f (streams y t o) = streams x s o
  skip P closes info infos gave_up f (fails c all) = fails c (f, all)
  skip P closes info infos waits f (hangs c all) = hangs c (f, all)

  open_stream_lem :
      (P : AddrInfo → Type 0) (closes : Bool) (infos : List AddrInfo)
      → All P infos
      → Outcome P closes infos (open_stream N closes infos)
  unfolding open_stream
  open_stream_lem P true [] h = fails refl tt
  open_stream_lem P false [] h = hangs refl tt
  open_stream_lem P closes (info ∷ infos) h =
      let later : Fails info → Outcome P closes (info ∷ infos) (open_stream N closes infos) = λ f.
        skip P closes info infos (open_stream N closes infos) f
          (open_stream_lem P closes infos h.1) in
      elim (Bool-cases (N.connect info)) [
        | inr down ↦
            let e : open_stream N closes (info ∷ infos) ≡ open_stream N closes infos =
              rw down refl in
            subst (Outcome P closes (info ∷ infos)) (sym e) (later (λ up. cc (up, down)))
        | inl up ↦ elim (Option-cases (N.new_stream info.id)) [
          | inl no_stream ↦
              let e : open_stream N closes (info ∷ infos) ≡ open_stream N closes infos =
                rw (up, no_stream) refl in
              subst (Outcome P closes (info ∷ infos)) (sym e) (later (λ _. no_stream))
          | inr (s, made) ↦
              let e : open_stream N closes (info ∷ infos) ≡ opened info s = rw (up, made) refl in
              subst (Outcome P closes (info ∷ infos)) (sym e) (streams info s (h.0, up, made))
        ]
      ]

  -- What `addConn` comes to, and when it waits forever.
  abbrev pub Ends : List Bytes → List Bool → Bytes → List AddrInfo → Attempt N → Type 0
  Ends bootstraps reports id infos o =
      ((info : AddrInfo) × (s : N.Stream) × (o ≡ opened info s) × Opens (Reaches id) (info, s))
      ⊎ ((o ≡ gave_up) × All Fails infos)
      ⊎ ((o ≡ waits)
          × All Fails infos
          × (N.find_peers id ≡ none)
          × (connect_bootstraps bootstraps reports ≡ none))

  Outcome-Ends :
      (bootstraps : List Bytes) (reports : List Bool) (id : Bytes) (closes : Bool)
      (infos : List AddrInfo) (o : Attempt N)
      → (closes ≡ true) ⊎ ((closes ≡ false) × Hangs bootstraps reports id)
      → Outcome (Reaches id) closes infos o
      → Ends bootstraps reports id infos o
  unfolding Hangs
  Outcome-Ends bootstraps reports id closes infos (opened info s) c (streams x t o) =
      inl (info, s, refl, o)
  Outcome-Ends bootstraps reports id closes infos gave_up c (fails now all) = inr (inl (refl, all))
  Outcome-Ends bootstraps reports id closes infos waits (inl now) (hangs never all) =
      cc (now, never)
  Outcome-Ends bootstraps reports id closes infos waits (inr (_, why)) (hangs never all) =
      inr (inr (refl, all, why.0, why.1))

  -- `addConn`, for a text that decodes, at whatever order the entries of its peer arrive: either it
  -- has a stream, to the peer that it was asked for and no other, over an entry with an address; or
  -- it gives up, and then every entry failed; or it waits forever, with every entry failed, and
  -- then `FindPeers` has failed and the call of `connectBootstraps` that follows never returns.
  pub add_conn_lem :
      (bootstraps : List Bytes) (reports : List Bool) (id idr : Bytes) (found : Bytes → Found)
      → N.decode id ≡ some idr
      → (N.peer_info idr).id ≡ idr
      → SearchNode N bootstraps reports idr (found idr)
      → Ends bootstraps reports idr (found idr).infos (add_conn N id found)
  unfolding add_conn
  add_conn_lem bootstraps reports id idr found good own m =
      let (reaches, returns) = search_by_dht_lem bootstraps reports idr in
      rw (good, add_conn)
        (Outcome-Ends bootstraps reports idr (found idr).closes (found idr).infos _
          (rw m.closes returns)
          (open_stream_lem (Reaches idr) (found idr).closes (found idr).infos
            (All-Interleaved (Reaches idr) m.arrives (search_by_cache-Reaches idr own) reaches)))
