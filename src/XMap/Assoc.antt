-- ===== src/XMap/Assoc.antt =====
-- A map as a list of pairs, the newest first: the assumptions on `xsync.Map` can be met.
use net_hive.Prelude.{
  ◌≡◌, refl, sym, ap, ◌∙◌, ◌≢◌, inl, inr, Bool, true, Option, none, some, List, [], ◌∷◌, arith,
  if◌then◌else◌, Bool-cases, Elem, All,
}
use net_hive.XMap.{XMap}

module _ {K V : Type 0} (eq : K → K → Bool) where
  unfoldable pub load : List (K × V) → K → Option V
  load [] k = none
  load ((j, v) ∷ m) k = if eq j k then some v else load m k

  unfoldable pub remove : List (K × V) → K → List (K × V)
  remove [] k = []
  remove ((j, v) ∷ m) k = if eq j k then remove m k else (j, v) ∷ remove m k

  -- Shadowed pairs are left out.
  unfoldable pub range : List (K × V) → List (K × V)
  range [] = []
  range ((j, v) ∷ m) = (j, v) ∷ remove (range m) j

module _ {K V : Type 0} (eq : K → K → Bool) (eq_refl : (k : K) → eq k k ≡ true)
    (eq_sound : (j k : K) → eq j k ≡ true → j ≡ k) where
  pub load-remove_self : (m : List (K × V)) (k : K) → load eq (remove eq m k) k ≡ none
  unfolding load remove
  load-remove_self [] k = refl
  load-remove_self ((j, v) ∷ m) k = ground (arith, load-remove_self m k)

  pub load-remove_ne :
      (m : List (K × V)) (k j : K) → k ≢ j → load eq (remove eq m k) j ≡ load eq m j
  unfolding load remove
  load-remove_ne [] k j ne = refl
  load-remove_ne ((i, v) ∷ m) k j ne =
      ground (arith, load-remove_ne m k j ne, eq_sound i k, eq_sound i j)

  pub load-cons_self : (m : List (K × V)) (k : K) (v : V) → load eq ((k, v) ∷ m) k ≡ some v
  unfolding load
  load-cons_self m k v = rw (eq_refl k)

  pub load-cons_ne :
      (m : List (K × V)) (k j : K) (v : V) → k ≢ j → load eq ((k, v) ∷ m) j ≡ load eq m j
  unfolding load
  load-cons_ne m k j v ne = ground (arith, eq_sound k j)

  All-remove :
      (P Q : K × V → Type 0) (k : K)
      → ((p : K × V) → P p → p.0 ≢ k → Q p)
      → (m : List (K × V)) → All P m
      → All Q (remove eq m k)
  unfolding remove
  All-remove P Q k f [] h = tt
  All-remove P Q k f ((j, v) ∷ m) h = elim (Bool-cases (eq j k)) [
    | inl same ↦ rw same (All-remove P Q k f m h.1)
    | inr other ↦
        rw other (f (j, v) h.0 (λ e. cc (other, ap (eq j) e, eq_refl j)), All-remove P Q k f m h.1)
  ]

  pub range_pairs_sound : (m : List (K × V)) → All (λ (k, v). load eq m k ≡ some v) (range eq m)
  unfolding range
  range_pairs_sound [] = tt
  range_pairs_sound ((j, v) ∷ m) = (
    load-cons_self m j v,
    All-remove _ _ j (λ p h ne. load-cons_ne m j p.0 v (λ e. ne (sym e)) ∙ h) (range eq m)
        (range_pairs_sound m),
  )

  Elem-remove :
      (k j : K) (v : V) → k ≢ j → (m : List (K × V)) → Elem (j, v) m → Elem (j, v) (remove eq m k)
  unfolding remove
  Elem-remove k j v ne [] h = absurd h
  Elem-remove k j v ne ((i, w) ∷ m) h = elim (Bool-cases (eq i k)) [
    | inl same ↦ rw same (elim h [
      | inl e ↦ absurd (ne (sym (ap (λ (p : K × V). p.0) e ∙ eq_sound i k same)))
      | inr later ↦ Elem-remove k j v ne m later
    ])
    | inr other ↦
        rw other (elim h [ inl e ↦ inl e | inr later ↦ inr (Elem-remove k j v ne m later) ])
  ]

  pub range_pairs_complete :
      (m : List (K × V)) (k : K) (v : V) → load eq m k ≡ some v → Elem (k, v) (range eq m)
  unfolding load range
  range_pairs_complete [] k v h = cc
  range_pairs_complete ((j, w) ∷ m) k v h = elim (Bool-cases (eq j k)) [
    | inl same ↦ inl (ground (arith, eq_sound j k same))
    | inr other ↦ inr (
        Elem-remove j k v (λ e. cc (other, ap (eq j) e, eq_refl j)) (range eq m)
          (range_pairs_complete m k v (ground arith)))
  ]

  pub load-nil : (k : K) → load {V = V} eq [] k ≡ none
  unfolding load
  load-nil k = refl

  abbrev pub assoc : XMap K V
  assoc = record {
    Map = List (K × V);
    empty = [];
    load = load eq;
    store = λ m k v. (k, v) ∷ m;
    delete = remove eq;
    range = range eq;
    load-empty = load-nil;
    load-store_self = load-cons_self;
    load-store_ne = load-cons_ne;
    load-delete_self = load-remove_self;
    load-delete_ne = load-remove_ne;
    range_sound = range_pairs_sound;
    range_complete = range_pairs_complete;
  }
