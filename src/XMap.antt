-- ===== src/XMap.antt =====
-- pkgs/xsync: a copy of the concurrent map of Go's library. What its users rely on, as the
-- documentation of `sync.Map` states it: each call acts on one map of keys to values, and `Range`
-- visits each key that is present, once.
pub mod Assoc
pub mod Cases
use net_hive.Prelude.{◌-◌, ◌≡◌, ◌≢◌, Option, none, some, List, Elem, All}

pub record XMap (K V : Type 0) : Type 1 where
  pub Map : Type 0
  pub empty : Map
  pub load : Map → K → Option V
  pub store : Map → K → V → Map
  pub delete : Map → K → Map
  -- The pairs in the order in which one call of `Range` visits them.
  pub range : Map → List (K × V)
  pub load-empty : (k : K) → load empty k ≡ none
  pub load-store_self : (m : Map) (k : K) (v : V) → load (store m k v) k ≡ some v
  pub load-store_ne : (m : Map) (k j : K) (v : V) → k ≢ j → load (store m k v) j ≡ load m j
  pub load-delete_self : (m : Map) (k : K) → load (delete m k) k ≡ none
  pub load-delete_ne : (m : Map) (k j : K) → k ≢ j → load (delete m k) j ≡ load m j
  pub range_sound : (m : Map) → All (λ (k, v). load m k ≡ some v) (range m)
  pub range_complete : (m : Map) (k : K) (v : V) → load m k ≡ some v → Elem (k, v) (range m)
