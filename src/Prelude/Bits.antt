-- ===== src/Prelude/Bits.antt =====
-- Laws of the native `bit_xor`, `bit_or` and `bit_and` at variables, from the recursion on binary
-- digits that they stand for.
use Prim.Native.Nat.{digits, differ, bitwise, bit_xor, bit_or, bit_xor-bitwise, bit_or-bitwise}
use native.Mathlib.Nat.{pow-suc, le_refl, zero-add, suc-add}
use net_hive.Prelude.{
  ℕ, zero, suc, ◌+◌, ◌*◌, ◌/◌, ◌%◌, ◌^◌, ◌≤◌, ◌<◌, max, ◌≡◌, refl, ap, ◌∙◌, arith,
}

-- The count of digits does not matter once it is large enough.
module _ (z : ℕ → ℕ) (f : ℕ → ℕ → ℕ) where
  digits_irrelevant : (k l x y : ℕ) → x ≤ k → x ≤ l → digits z f k x y ≡ digits z f l x y
  digits_irrelevant zero zero x y h g = refl
  digits_irrelevant zero (suc l) zero y h g = refl
  digits_irrelevant (suc k) zero zero y h g = refl
  digits_irrelevant (suc k) (suc l) zero y h g = refl
  digits_irrelevant zero (suc l) (suc x) y h g = absurd (omega arith)
  digits_irrelevant (suc k) zero (suc x) y h g = absurd (omega arith)
  digits_irrelevant (suc k) (suc l) (suc x) y h g =
      ap (λ (t : ℕ). t * 2 + f (suc x % 2) (y % 2))
        (digits_irrelevant k l (suc x / 2) (y / 2) (omega arith) (omega arith))

  lowest_digit :
      (x y : ℕ)
      → bitwise z f (suc x) y ≡ bitwise z f (suc x / 2) (y / 2) * 2 + f (suc x % 2) (y % 2)
  lowest_digit x y =
      ap (λ (t : ℕ). t * 2 + f (suc x % 2) (y % 2))
        (digits_irrelevant x (suc x / 2) (suc x / 2) (y / 2) (omega arith) (le_refl _))

pub bit_xor_step : (x y : ℕ) → bit_xor x y ≡ bit_xor (x / 2) (y / 2) * 2 + differ (x % 2) (y % 2)
bit_xor_step zero y = simp bit_xor-bitwise (omega arith)
bit_xor_step (suc x) y = simp bit_xor-bitwise (lowest_digit (λ b. b) differ x y)

pub bit_or_step : (x y : ℕ) → bit_or x y ≡ bit_or (x / 2) (y / 2) * 2 + max (x % 2) (y % 2)
bit_or_step zero y = simp bit_or-bitwise (omega arith)
bit_or_step (suc x) y = simp bit_or-bitwise (lowest_digit (λ b. b) max x y)

zero-bit_xor : (y : ℕ) → bit_xor 0 y ≡ y
zero-bit_xor y = bit_xor-bitwise 0 y

-- Two digits that differ, told by arithmetic.
differ_digits : (x y : ℕ) → x < 2 → y < 2 → (differ (differ x y) y ≡ x) × (differ x y < 2)
differ_digits zero zero h g = omega arith
differ_digits zero (suc zero) h g = omega arith
differ_digits (suc zero) zero h g = omega arith
differ_digits (suc zero) (suc zero) h g = omega arith
differ_digits (suc (suc x)) y h g = absurd (omega arith)
differ_digits zero (suc (suc y)) h g = absurd (omega arith)
differ_digits (suc zero) (suc (suc y)) h g = absurd (omega arith)

-- Exclusive or does not leave the width of its operands.
pub bit_xor-lt : (k x y : ℕ) → x < 2 ^ k → y < 2 ^ k → bit_xor x y < 2 ^ k
bit_xor-lt zero zero zero h g = omega arith
bit_xor-lt zero zero (suc y) h g = absurd (omega arith)
bit_xor-lt zero (suc x) y h g = absurd (omega arith)
bit_xor-lt (suc k) x y h g = omega (
  arith,
  pow-suc 2 k,
  bit_xor_step x y,
  (differ_digits (x % 2) (y % 2) (omega arith) (omega arith)).1,
  bit_xor-lt k (x / 2) (y / 2) (omega (arith, pow-suc 2 k)) (omega (arith, pow-suc 2 k)),
)

-- Exclusive or with the same number twice changes nothing.
pub bit_xor_cancel : (k x y : ℕ) → x < 2 ^ k → y < 2 ^ k → bit_xor (bit_xor x y) y ≡ x
bit_xor_cancel zero zero zero h g = refl
bit_xor_cancel zero zero (suc y) h g = absurd (omega arith)
bit_xor_cancel zero (suc x) y h g = absurd (omega arith)
bit_xor_cancel (suc k) x y h g =
    let (back, small) = differ_digits (x % 2) (y % 2) (omega arith) (omega arith) in
    let upper : bit_xor x y / 2 ≡ bit_xor (x / 2) (y / 2) =
      omega (arith, bit_xor_step x y, small) in
    let lower : bit_xor x y % 2 ≡ differ (x % 2) (y % 2) = omega (arith, bit_xor_step x y, small) in
    let ih =
      bit_xor_cancel k (x / 2) (y / 2) (omega (arith, pow-suc 2 k)) (omega (arith, pow-suc 2 k)) in
    bit_xor_step (bit_xor x y) y ∙ rw (upper, lower, ih, back) (omega arith)

bit_or-zero : (k x : ℕ) → x < 2 ^ k → bit_or x 0 ≡ x
bit_or-zero zero zero h = refl
bit_or-zero zero (suc x) h = absurd (omega arith)
bit_or-zero (suc k) x h =
    omega (arith, bit_or_step x 0, bit_or-zero k (x / 2) (omega (arith, pow-suc 2 k)))

-- `|` of a multiple of `2 ^ k` and a number below it is their sum.
pub bit_or-add : (k w q r : ℕ) → r < 2 ^ k → q < 2 ^ w → bit_or (q * 2 ^ k) r ≡ q * 2 ^ k + r
bit_or-add zero w q zero h g =
    let e : q * 2 ^ 0 ≡ q = omega arith in rw e (bit_or-zero w q g ∙ omega arith)
bit_or-add zero w q (suc r) h g = absurd (omega arith)
bit_or-add (suc k) w q r h g =
    let e : q * 2 ^ suc k ≡ 2 * (q * 2 ^ k) = omega (arith, ap (λ (t : ℕ). q * t) (pow-suc 2 k)) in
    let upper : q * 2 ^ suc k / 2 ≡ q * 2 ^ k = omega (arith, e) in
    let lower : q * 2 ^ suc k % 2 ≡ 0 = omega (arith, e) in
    let ih = bit_or-add k w q (r / 2) (omega (arith, pow-suc 2 k)) g in
    bit_or_step (q * 2 ^ suc k) r ∙ rw (upper, lower, ih) (omega (arith, e))

pub pow-add : (m n : ℕ) → 2 ^ (m + n) ≡ 2 ^ m * 2 ^ n
pow-add zero n = omega (arith, ap (λ (t : ℕ). 2 ^ t) (zero-add n))
pow-add (suc m) n = rw (suc-add m n, pow-suc 2 (m + n), pow-add m n, pow-suc 2 m) (omega arith)
