-- ===== src/Engine/Setup/Order.antt =====
-- The order in which Go ranges over `PeersRouteTable`, a map, is not determined. It is not seen.
use net_hive.Prelude.{
  Elem-All, ◌≡◌, refl, sym, ap, subst, ◌∙◌, ◌≢◌, inl, inr, Option, none, some, List, Bytes, Elem,
  All, ok,
}
use mathlib.Core.List.{Permᴰ}
use mathlib.Core.List.Permᴰ.{nil, cons, swap, trans}
use net_hive.Netip.{Prefix}
use net_hive.Config.{Config}
use net_hive.Engine.{Maps, Engine, PeerId}
use net_hive.Engine.Setup.{Answers, Goroutine, new_engine, run, started}
use net_hive.Engine.Setup.Stages.{first_error, stages, ends_with, run_lem}
use net_hive.Engine.Setup.Table.{find}
use net_hive.Engine.Setup.Start.{Distinct, Ready, run-Ready}

All-Permᴰ : {A : Type 0} (P : A → Type 0) {xs ys : List A} → Permᴰ xs ys → All P xs → All P ys
All-Permᴰ P nil h = tt
All-Permᴰ P (cons e r) h = (subst P e h.0, All-Permᴰ P r h.1)
All-Permᴰ P (swap e f) (h, (g, rest)) = (subst P f g, (subst P e h, rest))
All-Permᴰ P (trans r s) h = All-Permᴰ P s (All-Permᴰ P r h)

Elem-Permᴰ : {A : Type 0} (x : A) {xs ys : List A} → Permᴰ xs ys → Elem x xs → Elem x ys
Elem-Permᴰ x nil h = absurd h
Elem-Permᴰ x (cons e r) (inl same) = inl (same ∙ e)
Elem-Permᴰ x (cons e r) (inr later) = inr (Elem-Permᴰ x r later)
Elem-Permᴰ x (swap e f) (inl same) = inr (inl (same ∙ e))
Elem-Permᴰ x (swap e f) (inr (inl same)) = inl (same ∙ f)
Elem-Permᴰ x (swap e f) (inr (inr later)) = inr (inr later)
Elem-Permᴰ x (trans r s) h = Elem-Permᴰ x s (Elem-Permᴰ x r h)

Distinct-Permᴰ : {rs qs : List (PeerId × Prefix)} → Permᴰ rs qs → Distinct rs → Distinct qs
unfolding Distinct
Distinct-Permᴰ nil d = tt
Distinct-Permᴰ (cons {a = r} {b = q} {l₁ = l₁} e p) d =
    let key : r.0 ≡ q.0 = ap (λ (x : PeerId × Prefix). x.0) e in
    (
      All-Permᴰ (λ x. x.0 ≢ q.0) p
          (subst (λ (k : PeerId). All {A = PeerId × Prefix} (λ x. x.0 ≢ k) l₁) key d.0),
      Distinct-Permᴰ p d.1,
    )
Distinct-Permᴰ (swap {a = a} {b = b} {a' = a'} {b' = b'} {l = l} e f) ((ba, al), (bl, rest)) =
    let e0 : a.0 ≡ b'.0 = ap (λ (r : PeerId × Prefix). r.0) e in
    let f0 : b.0 ≡ a'.0 = ap (λ (r : PeerId × Prefix). r.0) f in
    (
      (
        (λ same. ba (f0 ∙ sym same ∙ sym e0)),
        subst (λ (k : PeerId). All {A = PeerId × Prefix} (λ r. r.0 ≢ k) l) f0 bl,
      ),
      (subst (λ (k : PeerId). All {A = PeerId × Prefix} (λ r. r.0 ≢ k) l) e0 al, rest),
    )
Distinct-Permᴰ (trans p q) d = Distinct-Permᴰ q (Distinct-Permᴰ p d)

-- Two route tables with the same pairs, in any order.
module _ (T : Maps) where
  open T use {m as M}

  same_loads :
      {L : Type 0} (cfg : Config L) (rs : List (PeerId × Prefix)) (e e' : Engine T)
      (gs gs' : List Goroutine)
      → Permᴰ cfg.peers_route_table rs
      → Ready T cfg e gs
      → Ready T (record cfg { peers_route_table = rs }) e' gs'
      → (k : PeerId) → M.load e'.net.table.m k ≡ M.load e.net.table.m k
  same_loads cfg rs e e' gs gs' p r r' k = elim (find k cfg.peers_route_table) [
    | inl (v, there) ↦
        Elem-All (λ (j, w). M.load e'.net.table.m j ≡ some w) (k, v) rs (Elem-Permᴰ (k, v) p there)
          r'.routes
        ∙ sym (
            Elem-All (λ (j, w). M.load e.net.table.m j ≡ some w) (k, v) cfg.peers_route_table there
              r.routes)
    | inr absent ↦ r'.others k (All-Permᴰ (λ x. x.0 ≢ k) p absent) ∙ sym (r.others k absent)
  ]

  ends_with-ok :
      {E A : Type 0} (o : Option E) (a b : A) → ends_with o a ≡ ok b → (o ≡ none) × (a ≡ b)
  unfolding ends_with
  ends_with-ok none a b h = (refl, cc (h))
  ends_with-ok (some x) a b h = cc (h)

  -- The order in which Go ranges over the map `PeersRouteTable` makes no difference to the method
  -- `Run`. If its keys are distinct, `route.Add` panics at none of its prefixes, and `Run` gets as
  -- far as its goroutines in one order, then it does so in any other order, starts the same
  -- goroutines, and leaves a route table in which every peer is looked up with the same result.
  pub run_reordered :
      {E R L : Type 0} (a : Answers E R) (cfg : Config L) (rs : List (PeerId × Prefix))
      {e : Engine T} {gs : List Goroutine}
      → Permᴰ cfg.peers_route_table rs
      → Distinct cfg.peers_route_table
      → ((name : Bytes) → All (λ (k, p). a.add_route name p ≢ none) cfg.peers_route_table)
      → run T a cfg (new_engine T cfg) ≡ some (ok (e, gs))
      → (e' : Engine T) × (run T a
            (record cfg { peers_route_table = rs })
            (new_engine T (record cfg { peers_route_table = rs }))
          ≡ some (ok (e', gs)))
        × ((k : PeerId) → M.load e'.net.table.m k ≡ M.load e.net.table.m k)
  unfolding stages started ends_with
  run_reordered {E} a cfg rs {e} {gs} p d goes h =
      let cfg' = record cfg { peers_route_table = rs } in
      let (e1, got) = run_lem T a cfg (new_engine T cfg) goes in
      let (e2, got') =
        run_lem T a cfg' (new_engine T cfg')
          (λ name. All-Permᴰ (λ (k, p). a.add_route name p ≢ none) p (goes name)) in
      let both : some (ends_with (first_error (stages a cfg)) (e1, started cfg))
          ≡ some (ok (e, gs)) =
        sym got ∙ h in
      let (fine, same) =
        ends_with-ok {A = Engine T × List Goroutine} (first_error (stages a cfg)) (e1, started cfg)
          (e, gs) (cc (both)) in
      let begins : ends_with (first_error (stages a cfg)) (e2, started cfg) ≡ ok (e2, gs) =
        ap (λ (o : Option E). ends_with o (e2, started cfg)) fine
        ∙ ap (λ (q : Engine T × List Goroutine). ok (e2, q.1)) same in
      let runs = got' ∙ ap some begins in
      (
        e2,
        runs,
        same_loads cfg rs e e2 gs gs p (run-Ready T a cfg d h)
            (run-Ready T a cfg' (Distinct-Permᴰ p d) runs),
      )
