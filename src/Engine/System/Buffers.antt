-- ===== src/Engine/System/Buffers.antt =====
-- How many payloads wait in the channels.
use net_hive.Prelude.{
  ℕ, zero, suc, ◌+◌, ◌≤◌, ◌<◌, ◌≡◌, refl, ap, ◌∙◌, ◌≢◌, inl, inr, Bool, List, [], ◌∷◌, arith, ◌==◌,
  ==_iff, if◌then◌else◌, Bytes, Bool-cases, length,
}
use net_hive.Engine.{dec_le, ℕ_discrete, Payload, ChanRef}
use net_hive.Engine.System.Moves.{at_channel}

-- What waits in the channels with a number below `n`.
unfoldable pub total : ℕ → (ChanRef → List Payload) → ℕ
total zero f = 0
total (suc n) f = total n f + length (f n)

pub total-same :
    (n : ℕ) (f g : ChanRef → List Payload)
    → ((c : ChanRef) → length (g c) ≡ length (f c))
    → total n g ≡ total n f
unfolding total
total-same zero f g h = refl
total-same (suc n) f g h = omega (arith, total-same n f g h, h n)

pub total_mono : (n m : ℕ) (f : ChanRef → List Payload) → n ≤ m → total n f ≤ total m f
unfolding total
total_mono n zero f h = let z : n ≡ 0 = omega (arith, h) in rw z (omega arith)
total_mono n (suc m) f h = elim (dec_le n m) [
  | yes le ↦ omega (arith, total_mono n m f le)
  | no gt ↦ let e : n ≡ suc m = omega (arith, h, gt) in rw e (omega arith)
]

-- One payload more in one channel.
module _ (c : ChanRef) (b : Bytes) (f g : ChanRef → List Payload)
    (one : (d : ChanRef) → length (g d) ≡ length (f d) + length (at_channel d c b)) where
  at_self : length (g c) ≡ length (f c) + 1
  at_self =
      one c
      ∙ ap (λ (t : Bool). length (f c) + length (if t then b ∷ [] else [])) ((==_iff c c).1 refl)

  at_ne : (d : ChanRef) → d ≢ c → length (g d) ≡ length (f d)
  at_ne d ne = elim (Bool-cases (d == c)) [
    | inl same ↦ absurd (ne ((==_iff d c).0 same))
    | inr other ↦ omega (arith, rw other at (one d))
  ]

  pub total-below : (n : ℕ) → n ≤ c → total n g ≡ total n f
  unfolding total
  total-below zero h = refl
  total-below (suc n) h =
      omega (arith, total-below n (omega (arith, h)), at_ne n (λ e. omega (arith, h, e)))

  pub total-above : (n : ℕ) → c < n → total n g ≡ total n f + 1
  unfolding total
  total-above zero h = absurd (omega (arith, h))
  total-above (suc n) h = elim (ℕ_discrete n c) [
    | yes e ↦
        let last : length (g n) ≡ length (f n) + 1 = rw e at_self in
        omega (arith, total-below n (omega (arith, e)), last)
    | no ne ↦ omega (arith, total-above n (omega (arith, h, ne)), at_ne n ne)
  ]

  pub total_more : (n : ℕ) → total n g ≤ total n f + 1
  total_more n = elim (dec_le n c) [
    | yes le ↦ omega (arith, total-below n le)
    | no gt ↦ omega (arith, total-above n (omega (arith, gt)))
  ]

  -- However many channels are counted, some count before the payload left had it.
  pub total_less : (n : ℕ) → (m : ℕ) × (total n f + 1 ≤ total m g)
  total_less n = (
    n + suc c,
    omega (arith, total-above (n + suc c) (omega arith), total_mono n (n + suc c) f (omega arith)),
  )
