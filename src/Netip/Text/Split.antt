-- ===== src/Netip/Text/Split.antt =====
-- A text cut at a character.
use net_hive.Prelude.{
  ℕ, ◌≡◌, refl, ◌≢◌, inl, inr, false, List, [], ◌∷◌, ◌++◌, ◌==◌, ==_iff, if◌then◌else◌, Bytes,
  Bool-cases, All,
}

unfoldable pub cons_first : ℕ → List Bytes → List Bytes
cons_first c [] = (c ∷ []) ∷ []
cons_first c (w ∷ ws) = (c ∷ w) ∷ ws

unfoldable pub split : ℕ → Bytes → List Bytes
split sep [] = [] ∷ []
split sep (c ∷ cs) = let rest = split sep cs in if c == sep then [] ∷ rest else cons_first c rest

-- The character is not in the text.
abbrev pub Free : ℕ → Bytes → Type 0
Free sep w = All (λ c. c ≢ sep) w

pub Free-append : (sep : ℕ) (xs ys : Bytes) → Free sep xs → Free sep ys → Free sep (xs ++ ys)
Free-append sep [] ys f g = g
Free-append sep (x ∷ xs) ys f g = (f.0, Free-append sep xs ys f.1 g)

other : (c sep : ℕ) → c ≢ sep → (c == sep) ≡ false
other c sep ne = elim (Bool-cases (c == sep)) [
  | inl e ↦ absurd (ne ((==_iff c sep).0 e))
  | inr e ↦ e
]

pub split-Free : (sep : ℕ) (w : Bytes) → Free sep w → split sep w ≡ w ∷ []
unfolding split cons_first
split-Free sep [] f = refl
split-Free sep (c ∷ w) f = rw (other c sep f.0, split-Free sep w f.1) refl

pub split-append :
    (sep : ℕ) (w rest : Bytes) → Free sep w → split sep (w ++ sep ∷ rest) ≡ w ∷ split sep rest
unfolding split cons_first
split-append sep [] rest f = rw ((==_iff sep sep).1 refl) refl
split-append sep (c ∷ w) rest f = rw (other c sep f.0, split-append sep w rest f.1) refl
