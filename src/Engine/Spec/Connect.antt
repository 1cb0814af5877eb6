-- ===== src/Engine/Spec/Connect.antt =====
-- A connection that is made is not seen: its queue is empty.
use net_hive.Prelude.{
  ◌≡◌, refl, sym, ap, ◌∙◌, ◌≢◌, ◌⊎◌, inl, inr, Option, none, some, List, [], ◌∷◌, Bytes-discrete,
  Bool-cases, Option-cases, All, ok, err,
}
use net_hive.Netip.{Addr, addr_eq, addr_eq_sound, Prefix}
use net_hive.Engine.{
  Payload, PeerId, ChanRef, Maps, Worker, running, Net, update, update_ne, ℕ_discrete,
}
use net_hive.Engine.Conn.{
  no_route, open_conn, conn_for, range_routes, found_or_error, add_conn_by_dst,
}
use net_hive.Engine.Conn.Tables.{Routes}
use net_hive.Engine.Conn.Lookup.{found_or_error-some, IsNet}
use net_hive.Engine.Conn.Channels.{SameChans, fresh_empty, open_conn-SameChans}
use net_hive.Engine.Spec.{view, view-ext, behind, abandoned, gone_at}
use net_hive.Engine.Spec.GivenUp.{abandoned-empty, abandoned-entry}

pub some-injective : {c d : ChanRef} → ◌≡◌ {A = Option ChanRef} (some c) (some d) → c ≡ d
some-injective h = cc (h)

module _ (T : Maps) where
  open T use {m as M, id as I, addr as A}

  -- A new, empty channel under a key that has none.
  module _ (key : PeerId) (w : Worker) (n n' : Net T) (v : IsNet T n)
      (new : I.load n.table.id key ≡ none) (id : n'.table.id ≡ I.store n.table.id key n.fresh)
      (workers : n'.workers ≡ update n.workers n.fresh (some w)) (same : SameChans T n n') where
    loads_new : (k : PeerId) → k ≡ key → I.load n'.table.id k ≡ some n.fresh
    loads_new k e =
        ap (λ (t : I.Map). I.load t k) id
        ∙ ap (I.load (I.store n.table.id key n.fresh)) e
        ∙ I.load-store_self n.table.id key n.fresh

    loads_old : (k : PeerId) → k ≢ key → I.load n'.table.id k ≡ I.load n.table.id k
    loads_old k ne =
        ap (λ (t : I.Map). I.load t k) id
        ∙ I.load-store_ne n.table.id key k n.fresh (λ e. ne (sym e))

    same_behind : (o : Option ChanRef) → behind T n'.chans o ≡ behind T n.chans o
    unfolding behind
    same_behind none = refl
    same_behind (some c) = same c

    stored_behind :
        (k : PeerId)
        → behind T n'.chans (I.load n'.table.id k) ≡ behind T n.chans (I.load n.table.id k)
    unfolding behind
    stored_behind k = elim (Bytes-discrete k key) [
      | yes e ↦
          let absent : I.load n.table.id k ≡ none = ap (I.load n.table.id) e ∙ new in
          rw (loads_new k e, absent, behind) (same n.fresh ∙ fresh_empty T v)
      | no ne ↦ rw (loads_old k ne) (same_behind (I.load n.table.id k))
    ]

    -- The entry of a peer is as before, for every channel but the new one.
    stored_entry :
        (o : Option Worker) (k : PeerId) (c : ChanRef) (q : List Payload)
        → c ≢ n.fresh
        → abandoned T o (I.load n'.table.id k) k c q ≡ abandoned T o (I.load n.table.id k) k c q
    stored_entry o k c q old = elim (Bytes-discrete k key) [
      | yes e ↦
          abandoned-entry T o (I.load n'.table.id k) (I.load n.table.id k) k c q
            (λ h. old (some-injective (sym h ∙ loads_new k e)))
            (λ h. cc (h, ap (I.load n.table.id) e ∙ new))
      | no ne ↦ rw (loads_old k ne) refl
    ]

    stored_gone : (k : PeerId) (c : ChanRef) → gone_at T n' k c ≡ gone_at T n k c
    stored_gone k c = elim (ℕ_discrete c n.fresh) [
      | yes e ↦
          let now : n'.chans c ≡ [] = same c ∙ ap n.chans e ∙ fresh_empty T v in
          let before : n.chans c ≡ [] = ap n.chans e ∙ fresh_empty T v in
          ap (abandoned T (n'.workers c) (I.load n'.table.id k) k c) now
          ∙ abandoned-empty T (n'.workers c) (I.load n'.table.id k) k c
          ∙ sym (abandoned-empty T (n.workers c) (I.load n.table.id k) k c)
          ∙ ap (abandoned T (n.workers c) (I.load n.table.id k) k c) (sym before)
      | no old ↦
          let worker : n'.workers c ≡ n.workers c =
            ap (λ (f : ChanRef → Option Worker). f c) workers
            ∙ update_ne n.workers n.fresh c (some w) old in
          ap (λ (o : Option Worker). abandoned T o (I.load n'.table.id k) k c (n'.chans c)) worker
          ∙ ap (abandoned T (n.workers c) (I.load n'.table.id k) k c) (same c)
          ∙ stored_entry (n.workers c) k c (n.chans c) old
    ]

    stored_view : n'.table.m ≡ n.table.m → view T n' ≡ view T n
    stored_view m = view-ext T n n' m stored_behind stored_gone

  -- What `addConnByDst` finds: a channel of a peer that routes to the address.
  pub record Found (d : Addr) (c : ChanRef) (n n' : Net T) : Type 0 where
    pub key : PeerId
    pub to : Routes T n.table.m key d
    pub at : I.load n'.table.id key ≡ some c
    pub unseen : view T n' ≡ view T n

  conn_for-Found :
      (d : Addr) (key : PeerId) {n : Net T}
      → IsNet T n
      → Routes T n.table.m key d
      → Found d (conn_for T d key n).0 n (conn_for T d key n).1
  unfolding conn_for open_conn
  conn_for-Found d key {n} v to = elim (Option-cases (I.load n.table.id key)) [
    | inr (c, old) ↦ rw (old, conn_for) (record { key = key; to = to; at = old; unseen = refl })
    | inl new ↦
        let n' : Net T = record (open_conn T key (some d) n) {
          table = record n.table {
            addr = A.store n.table.addr d n.fresh;
            id = I.store n.table.id key n.fresh;
          };
        } in
        rw (new, conn_for)
          (record {
            key = key;
            to = to;
            at = I.load-store_self n.table.id key n.fresh;
            unseen =
                stored_view key (record { key = key; dst = some d; phase = running }) n n' v new
                  refl refl (open_conn-SameChans T (some d) key v) refl;
          })
  ]

  -- The loop over the routes: a channel that is found, or nothing, and no change.
  range_routes-Found :
      (d : Addr) (routes : List (PeerId × Prefix)) {n : Net T}
      → IsNet T n
      → All (λ (k, v). M.load n.table.m k ≡ some v) routes
      → ((c : ChanRef) × ((range_routes T d routes n).0 ≡ some c)
          × Found d c n (range_routes T d routes n).1)
        ⊎ (range_routes T d routes n ≡ (none, n))
  unfolding range_routes
  range_routes-Found d [] v known = inr refl
  range_routes-Found d ((key, value) ∷ routes) {n} v known =
      elim (Bool-cases (addr_eq value.addr d)) [
        | inr miss ↦ rw miss (range_routes-Found d routes v known.1)
        | inl hit ↦
            let to : Routes T n.table.m key d = record {
              value = value;
              known = known.0;
              same = addr_eq_sound value.addr d hit;
            } in
            rw hit (inl ((conn_for T d key n).0, refl, conn_for-Found d key v to))
      ]

  pub add_conn_by_dst-Found :
      (d : Addr) {n : Net T}
      → IsNet T n
      → A.load n.table.addr d ≡ none
      → ((c : ChanRef) × (n' : Net T) × (add_conn_by_dst T d n ≡ (ok c, n')) × Found d c n n')
        ⊎ (add_conn_by_dst T d n ≡ (err (no_route d), n))
  unfolding add_conn_by_dst found_or_error
  add_conn_by_dst-Found d {n} v free =
      let routes = M.range n.table.m in
      rw (free, add_conn_by_dst)
        (elim (range_routes-Found d routes v (M.range_sound n.table.m)) [
          | inl (c, got, found) ↦ inl (
            c,
            (range_routes T d routes n).1,
            found_or_error-some T d (range_routes T d routes n) c got,
            found,
          )
          | inr same ↦ inr (rw same refl)
        ])
