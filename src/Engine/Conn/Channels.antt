-- ===== src/Engine/Conn/Channels.antt =====
-- What waits in the channels, while connections are made.
use native.Mathlib.Decide.{ℕ_discrete}
use net_hive.Netip.{Addr, addr_eq, Prefix}
use net_hive.Engine.{PeerId, ChanRef, Maps, update, update_self, update_ne, Net}
use net_hive.Engine.Conn.{
  open_conn, conn_for, range_routes, found_or_error, add_conn_by_dst, add_conn_by_id,
}
use net_hive.Engine.Conn.Queues.{Serves}
use net_hive.Engine.Conn.Lookup.{IsNet}
use net_hive.Prelude.{
  ◌≡◌, refl, sym, ap, subst, ◌∙◌, inl, inr, Option, none, some, List, [], ◌∷◌, arith, Bool-cases,
  Option-cases, List-cases, All,
}

module _ (T : Maps) where
  open T use {m as M, id as I, addr as A}

  abbrev pub SameChans : Net T → Net T → Type 0
  SameChans n n' = (c : ChanRef) → n'.chans c ≡ n.chans c

  -- The next channel is empty, before it is made.
  pub fresh_empty : {n : Net T} → IsNet T n → n.chans n.fresh ≡ []
  fresh_empty {n} v = elim (List-cases (n.chans n.fresh)) [
    | inl empty ↦ empty
    | inr (p, ps, queue) ↦
        let meant = subst (All (λ p. Serves T n n.fresh p.dst)) queue (v.queues.meant n.fresh) in
        cc (meant.0.at, v.tables.fresh_none n.fresh (omega arith))
  ]

  pub open_conn-SameChans :
      (o : Option Addr) (key : PeerId) {n : Net T} → IsNet T n → SameChans n (open_conn T key o n)
  unfolding open_conn
  open_conn-SameChans o key {n} v c = elim (ℕ_discrete c n.fresh) [
    | yes e ↦
        ap (update n.chans n.fresh []) e
        ∙ update_self n.chans n.fresh []
        ∙ sym (fresh_empty v)
        ∙ ap n.chans (sym e)
    | no ne ↦ update_ne n.chans n.fresh c [] ne
  ]

  pub conn_for-SameChans :
      (dst : Addr) (key : PeerId) {n : Net T} → IsNet T n → SameChans n (conn_for T dst key n).1
  unfolding conn_for
  conn_for-SameChans dst key {n} v c = elim (Option-cases (I.load n.table.id key)) [
    | inr (d, old) ↦ rw (old, conn_for) refl
    | inl new ↦ rw (new, conn_for) (open_conn-SameChans (some dst) key v c)
  ]

  range_routes-SameChans :
      (dst : Addr) (routes : List (PeerId × Prefix)) {n : Net T}
      → IsNet T n
      → SameChans n (range_routes T dst routes n).1
  unfolding range_routes
  range_routes-SameChans dst [] v c = refl
  range_routes-SameChans dst ((key, value) ∷ routes) v c =
      elim (Bool-cases (addr_eq value.addr dst)) [
        | inl hit ↦ rw hit (conn_for-SameChans dst key v c)
        | inr miss ↦ rw miss (range_routes-SameChans dst routes v c)
      ]

  pub found_or_error-net :
      (dst : Addr) (r : Option ChanRef × Net T) → (found_or_error T dst r).1 ≡ r.1
  unfolding found_or_error
  found_or_error-net dst (some c, n) = refl
  found_or_error-net dst (none, n) = refl

  -- `addConnByDst` and `addConnByID` leave every channel as it was.
  pub add_conn_by_dst-SameChans :
      (dst : Addr) {n : Net T} → IsNet T n → SameChans n (add_conn_by_dst T dst n).1
  unfolding add_conn_by_dst
  add_conn_by_dst-SameChans dst {n} v c = elim (Option-cases (A.load n.table.addr dst)) [
    | inr (d, old) ↦ rw (old, add_conn_by_dst) refl
    | inl free ↦
        rw (free, add_conn_by_dst)
          (ap (λ (m : Net T). m.chans c)
              (found_or_error-net dst (range_routes T dst (M.range n.table.m) n))
            ∙ range_routes-SameChans dst (M.range n.table.m) v c)
  ]

  pub add_conn_by_id-SameChans :
      (id : PeerId) {n : Net T} → IsNet T n → SameChans n (add_conn_by_id T id n).1
  unfolding add_conn_by_id
  add_conn_by_id-SameChans id {n} v c = elim (Option-cases (I.load n.table.id id)) [
    | inr (d, old) ↦ rw (old, add_conn_by_id) refl
    | inl new ↦ rw (new, add_conn_by_id) (open_conn-SameChans none id v c)
  ]
