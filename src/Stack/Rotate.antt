-- ===== src/Stack/Rotate.antt =====
-- `rol32` is a rotation.
use native.Mathlib.Nat.{
  one-le-pow, div-lt_iff_lt-mul, mul-add-mod_self_right, mod-eq_of_lt, mul-add-div_right,
  div-eq_of_lt, mod-lt, div-add-mod,
}
use net_hive.Prelude.Bits.{bit_or-add, pow-add}
use net_hive.Stack.{u32_mod, rol32}
use net_hive.Prelude.{ℕ, ◌+◌, ◌-◌, ◌*◌, ◌/◌, ◌%◌, ◌^◌, ◌<◌, ◌≡◌, sym, ap, ◌∙◌, arith}

-- A number of two digits, the lower one below `q`, and the rotation that swaps them.
module _ (p q w : ℕ) (p_pos : 0 < p) (q_pos : 0 < q) (w_lt : w < p * q) where
  split_digits : w ≡ w / q * q + w % q
  split_digits = omega (arith, div-add-mod w q)

  top_digit : w / q < p
  top_digit = (div-lt_iff_lt-mul q_pos).1 w_lt

  shifted : w * p ≡ w / q * (p * q) + w % q * p
  shifted = ap (λ (t : ℕ). t * p) split_digits ∙ omega arith

  -- What `(w * p) % (p * q)` keeps.
  upper_digits : w * p % (p * q) ≡ w % q * p
  upper_digits =
      let small : w % q * p < p * q = grind (arith, mod-lt w q_pos) in
      ap (λ (t : ℕ). t % (p * q)) shifted
      ∙ (mul-add-mod_self_right (w / q) (p * q) (w % q * p) ∙ mod-eq_of_lt small)

  swapped_div : (w % q * p + w / q) / p ≡ w % q
  swapped_div = mul-add-div_right p_pos (w % q) (w / q) ∙ omega (arith, div-eq_of_lt top_digit)

  swapped_mod : (w % q * p + w / q) % p ≡ w / q
  swapped_mod = mul-add-mod_self_right (w % q) p (w / q) ∙ mod-eq_of_lt top_digit

  swapped_lt : w % q * p + w / q < q * p
  swapped_lt = grind (arith, mod-lt w q_pos, top_digit)

module _ (s : ℕ) (small : s < 32) where
  halves : 2 ^ s * 2 ^ (32 - s) ≡ u32_mod
  halves =
      let whole : s + (32 - s) ≡ 32 = omega arith in
      sym (pow-add s (32 - s)) ∙ ap (λ (n : ℕ). 2 ^ n) whole

  module _ (w : ℕ) (fits : w < u32_mod) where
    fits_halves : w < 2 ^ s * 2 ^ (32 - s)
    fits_halves = rw halves fits

    -- `rol32` of a 32-bit word by `s`, from 1 to 31, is the rotation, as arithmetic
    -- on the upper `s` and the lower `32 - s` bits.
    pub rol32_digits : 0 < s → rol32 w s ≡ w % 2 ^ (32 - s) * 2 ^ s + w / 2 ^ (32 - s)
    unfolding rol32
    rol32_digits pos =
        let p_pos = one-le-pow s 2 (omega arith) in
        let q_pos = one-le-pow (32 - s) 2 (omega arith) in
        let back : (2 ^ 64 - s) % 32 ≡ 32 - s = omega arith in
        let upper =
          ap (λ (m : ℕ). w * 2 ^ s % m) (sym halves)
          ∙ upper_digits (2 ^ s) (2 ^ (32 - s)) w p_pos q_pos fits_halves in
        rw (back, upper)
          (bit_or-add s (32 - s) (w % 2 ^ (32 - s)) (w / 2 ^ (32 - s))
            (top_digit (2 ^ s) (2 ^ (32 - s)) w p_pos q_pos fits_halves) (mod-lt w q_pos))

-- `rol32` of a 32-bit word by `s`, from 1 to 31, is a word of 32 bits, and `rol32` by `32 - s`
-- undoes it.
pub rol32_lem :
    (w s : ℕ)
    → 0 < s
    → s < 32
    → w < u32_mod
    → (rol32 w s < u32_mod) × (rol32 (rol32 w s) (32 - s) ≡ w)
rol32_lem w s pos small fits =
    let p_pos = one-le-pow s 2 (omega arith) in
    let q_pos = one-le-pow (32 - s) 2 (omega arith) in
    let split = fits_halves s small w fits in
    let rest : 32 - (32 - s) ≡ s = omega arith in
    let in_range : w % 2 ^ (32 - s) * 2 ^ s + w / 2 ^ (32 - s) < u32_mod =
      omega (arith, swapped_lt (2 ^ s) (2 ^ (32 - s)) w p_pos q_pos split, halves s small) in
    rw (rol32_digits s small w fits pos) (
      in_range,
      rol32_digits (32 - s) (omega arith) _ in_range (omega arith)
          ∙ rw
              (
                rest,
                swapped_mod (2 ^ s) (2 ^ (32 - s)) w p_pos q_pos split,
                swapped_div (2 ^ s) (2 ^ (32 - s)) w p_pos q_pos split,
              )
              (sym (split_digits (2 ^ s) (2 ^ (32 - s)) w p_pos q_pos split)),
    )
