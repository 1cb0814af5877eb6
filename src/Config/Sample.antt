-- ===== src/Config/Sample.antt =====
-- A small disk, and keys that are byte strings.
use net_hive.Prelude.{
  ◌≡◌, refl, sym, Bool, true, false, Option, none, some, List, [], ◌∷◌, Bytes, bytes_eq,
  bytes_eq_refl, bytes_eq_sound, Result, ok, err,
}
use net_hive.XMap.Assoc
use net_hive.XMap.Assoc.{load-cons_self}
use net_hive.Config.Key.{Crypto}
use net_hive.Config.Load.{Files, Document}

-- A source of randomness is the key that it gives, and the empty one fails.
unfoldable pub toy_generate : Bytes → Result (Unit {0}) Bytes
toy_generate [] = err tt
toy_generate (b ∷ bs) = ok (b ∷ bs)

abbrev pub toy_crypto : Crypto
toy_crypto = record {
  Key = Bytes;
  Random = Bytes;
  Error = Unit {0};
  generate = toy_generate;
  marshal = ok;
  unmarshal = ok;
  id_from_private_key = ok;
  unmarshal-marshal = λ k b h. sym h;
}

module _ {L : Type 0} where
  unfoldable pub toy_read : Option (Document L) → Result (Unit {0}) (Document L)
  toy_read none = err tt
  toy_read (some c) = ok c

  unfoldable pub is_some : Option (Document L) → Bool
  is_some none = false
  is_some (some c) = true

  pub toy_read-put :
      (d d' : List (Bytes × Document L)) (p : Bytes) (c : Document L)
      → ◌≡◌ {A = Result (Unit {0}) (List (Bytes × Document L))} (ok ((p, c) ∷ d)) (ok d')
      → toy_read (Assoc.load bytes_eq d' p) ≡ ok c
  unfolding toy_read
  toy_read-put d d' p c h =
      let is : (p, c) ∷ d ≡ d' = cc (h) in
      rw (sym is, load-cons_self bytes_eq bytes_eq_refl bytes_eq_sound d p c) refl

  pub toy_exists-put :
      (d d' : List (Bytes × Document L)) (p : Bytes) (c : Document L)
      → ◌≡◌ {A = Result (Unit {0}) (List (Bytes × Document L))} (ok ((p, c) ∷ d)) (ok d')
      → is_some (Assoc.load bytes_eq d' p) ≡ true
  unfolding is_some
  toy_exists-put d d' p c h =
      let is : (p, c) ∷ d ≡ d' = cc (h) in
      rw (sym is, load-cons_self bytes_eq bytes_eq_refl bytes_eq_sound d p c) refl

  abbrev pub toy_files : Files L
  toy_files = record {
    Disk = List (Bytes × Document L);
    Error = Unit {0};
    exists = λ d p. is_some (Assoc.load bytes_eq d p);
    read = λ d p. toy_read (Assoc.load bytes_eq d p);
    put = λ d p c. ok ((p, c) ∷ d);
    IsText = λ c. Unit {0};
    exists-put = toy_exists-put;
    read-put = λ d d' p c text h. toy_read-put d d' p c h;
  }
