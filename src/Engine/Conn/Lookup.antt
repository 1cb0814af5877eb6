-- ===== src/Engine/Conn/Lookup.antt =====
-- What `addConnByDst` returns: a channel of a peer that routes to the address, if there is one.
use net_hive.Netip.{Addr, addr_eq, addr_eq_refl, addr_eq_sound, Prefix}
use net_hive.Engine.{PeerId, ChanRef, Maps, Net}
use net_hive.Engine.Conn.{no_route, conn_for, range_routes, found_or_error, add_conn_by_dst}
use net_hive.Engine.Conn.Tables.{Routes, IsTables, conn_for-IsTables}
use net_hive.Engine.Conn.Queues.{Serves, IsQueues, conn_for-IsQueues}
use net_hive.Prelude.{
  Elem-All, ◌≡◌, refl, sym, ap, ◌≢◌, ◌⊎◌, inl, inr, Option, none, some, List, [], ◌∷◌, Bool-cases,
  Option-cases, All, ok, err,
}

module _ (T : Maps) where
  open T use {m as M, id as I, addr as A}

  pub record IsNet (n : Net T) : Type 0 where
    pub tables : IsTables T n
    pub queues : IsQueues T n

  -- The state and the channel after a call for the address.
  pub record Connected (d : Addr) (c : ChanRef) (n : Net T) : Type 0 where
    pub valid : IsNet n
    pub serves : Serves T n c d

  pub addr-Serves :
      {n : Net T}
      → IsTables T n
      → (d : Addr) (c : ChanRef) → A.load n.table.addr d ≡ some c
      → Serves T n c d
  addr-Serves v d c h =
      let (w, at, to, runs) = v.addr_live d c h in
      record { worker = w; at = at; to = v.owns c w d at to }

  -- The loop over the routes, from any point on: it stops with a channel that serves the address,
  -- or goes through all of them, none of which has it, and changes nothing.
  range_routes_lem :
      (d : Addr) {n : Net T}
      → IsNet n
      → A.load n.table.addr d ≡ none
      → (routes : List (PeerId × Prefix)) → All (λ (k, v). M.load n.table.m k ≡ some v) routes
      → ((c : ChanRef) × ((range_routes T d routes n).0 ≡ some c)
          × Connected d c (range_routes T d routes n).1)
        ⊎ (((range_routes T d routes n) ≡ (none, n)) × All (λ (k, v). v.addr ≢ d) routes)
  unfolding range_routes
  range_routes_lem d v free [] known = inr (refl, tt)
  range_routes_lem d {n} v free ((key, value) ∷ routes) known =
      elim (Bool-cases (addr_eq value.addr d)) [
        | inl hit ↦
            let route : Routes T n.table.m key d = record {
              value = value;
              known = known.0;
              same = addr_eq_sound value.addr d hit;
            } in
            let (q, s) = conn_for-IsQueues T d key v.tables v.queues route in
            rw hit (
              inl (
                (conn_for T d key n).0,
                refl,
                record {
                  valid = record {
                    tables = conn_for-IsTables T d key v.tables free route;
                    queues = q;
                  };
                  serves = s;
                },
              ))
        | inr miss ↦ rw miss (elim (range_routes_lem d v free routes known.1) [
          | inl found ↦ inl found
          | inr (same, others) ↦ inr (
            same,
            ((λ e. cc (miss, ap (addr_eq value.addr) (sym e), addr_eq_refl value.addr)), others),
          )
        ])
      ]

  pub found_or_error-some :
      (d : Addr) (r : Option ChanRef × Net T) (c : ChanRef)
      → r.0 ≡ some c
      → found_or_error T d r ≡ (ok c, r.1)
  unfolding found_or_error
  found_or_error-some d (some c', n) c h = cc (h)
  found_or_error-some d (none, n) c h = cc (h)

  -- `addConnByDst` on every branch, from a valid state. Either it returns a channel whose goroutine
  -- serves a peer that routes to the address, in a valid state; or it returns the error, changes
  -- nothing, and no peer in the table routes to the address.
  pub add_conn_by_dst_lem :
      (d : Addr) {n : Net T}
      → IsNet n
      → ((c : ChanRef) × ((add_conn_by_dst T d n).0 ≡ ok c)
          × Connected d c (add_conn_by_dst T d n).1)
        ⊎ ((add_conn_by_dst T d n ≡ (err (no_route d), n))
            × ((key : PeerId) → Routes T n.table.m key d → ⊥))
  unfolding add_conn_by_dst
  add_conn_by_dst_lem d {n} v = elim (Option-cases (A.load n.table.addr d)) [
    | inr (c, old) ↦
        rw (old, add_conn_by_dst)
          (inl (c, refl, record { valid = v; serves = addr-Serves v.tables d c old }))
    | inl free ↦
        rw (free, add_conn_by_dst)
          (elim (range_routes_lem d v free (M.range n.table.m) (M.range_sound n.table.m)) [
            | inl (c, got, connected) ↦
                rw (found_or_error-some d (range_routes T d (M.range n.table.m) n) c got)
                  (inl (c, refl, connected))
            | inr (same, others) ↦ inr (
              rw same,
              λ key r.
                  Elem-All _ (key, r.value) (M.range n.table.m)
                    (M.range_complete n.table.m key r.value r.known) others r.same,
            )
          ])
  ]
