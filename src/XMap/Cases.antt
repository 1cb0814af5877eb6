-- ===== src/XMap/Cases.antt =====
-- What a key that is found says of the map before the last call.
use net_hive.XMap.{XMap}
use net_hive.Prelude.{◌≡◌, ap, ◌≢◌, ◌⊎◌, inl, inr, some}

module _ {K V : Type 0} (X : XMap K V) (dec : Discrete K) where
  open X use {
    Map, load, store, delete, load-store_self, load-store_ne, load-delete_self, load-delete_ne,
  }

  pub store_cases :
      (m : Map) (k j : K) (v w : V)
      → load (store m k v) j ≡ some w
      → ((k ≡ j) × (v ≡ w)) ⊎ ((k ≢ j) × (load m j ≡ some w))
  store_cases m k j v w h = elim (dec k j) [
    | yes e ↦ inl (e, cc (h, load-store_self m k v, ap (load (store m k v)) e))
    | no ne ↦ inr (ne, cc (h, load-store_ne m k j v ne))
  ]

  pub delete_cases :
      (m : Map) (k j : K) (w : V) → load (delete m k) j ≡ some w → (k ≢ j) × (load m j ≡ some w)
  delete_cases m k j w h = elim (dec k j) [
    | yes e ↦ cc (h, load-delete_self m k, ap (load (delete m k)) e)
    | no ne ↦ (ne, cc (h, load-delete_ne m k j ne))
  ]
