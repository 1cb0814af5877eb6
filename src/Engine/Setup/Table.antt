-- ===== src/Engine/Setup/Table.antt =====
-- The route table of an engine that runs has the peers of its configuration, and no others.
use net_hive.Prelude.{
  ◌≡◌, sym, subst, ◌≢◌, ◌⊎◌, inl, inr, some, List, [], ◌∷◌, Bytes-discrete, Elem, All, Elem-All,
}
use net_hive.Netip.{Prefix}
use net_hive.Config.{Config}
use net_hive.Engine.{Maps, Engine, PeerId}
use net_hive.Engine.Setup.{Goroutine}
use net_hive.Engine.Setup.Start.{Ready}

-- A key is in the list, or it is not.
pub find :
    (k : PeerId) (rs : List (PeerId × Prefix))
    → ((v : Prefix) × Elem (k, v) rs) ⊎ All (λ r. r.0 ≢ k) rs
find k [] = inr tt
find k ((j, v) ∷ rs) = elim (Bytes-discrete j k) [
  | yes e ↦ inl (v, inl (λ i. ((sym e) i, v)))
  | no ne ↦ elim (find k rs) [ inl (w, there) ↦ inl (w, inr there) | inr absent ↦ inr (ne, absent) ]
]

module _ (T : Maps) where
  open T use {m as M}

  pub Ready-Elem :
      {L : Type 0} (cfg : Config L) (e : Engine T) (gs : List Goroutine) (k : PeerId) (v : Prefix)
      → Ready T cfg e gs
      → M.load e.net.table.m k ≡ some v
      → Elem (k, v) cfg.peers_route_table
  Ready-Elem cfg e gs k v r at = elim (find k cfg.peers_route_table) [
    | inl (w, there) ↦
        let known =
          Elem-All (λ (j, u). M.load e.net.table.m j ≡ some u) (k, w) cfg.peers_route_table there
            r.routes in
        let same : w ≡ v = cc (known, at) in
        subst (λ (u : Prefix). Elem (k, u) cfg.peers_route_table) same there
    | inr absent ↦ cc (r.others k absent, at)
  ]
