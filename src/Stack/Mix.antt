-- ===== src/Stack/Mix.antt =====
-- `jHashMix` loses nothing: each line of it, and so the whole, is a bijection of three words.
use net_hive.Prelude.{ℕ, ◌<◌, ◌≡◌, sym, ap, ◌∙◌, arith}
use Prim.Native.Nat.{bit_xor}
use net_hive.Prelude.Bits.{bit_xor-lt, bit_xor_cancel}
use net_hive.Stack.{j_hash_mix, mix, u32_mod, add32, sub32, rol32, Words, mix_ac, mix_ba, mix_cb}
use net_hive.Stack.Rotate.{rol32_lem}

pub record IsWords (m : Words) : Type 0 where
  pub a_lt : m.a < u32_mod
  pub b_lt : m.b < u32_mod
  pub c_lt : m.c < u32_mod

pub add32-lt : (x y : ℕ) → add32 x y < u32_mod
unfolding add32
add32-lt x y = omega arith

pub sub32-lt : (x y : ℕ) → sub32 x y < u32_mod
unfolding sub32
sub32-lt x y = omega arith

pub sub32-add32 : (x y : ℕ) → x < u32_mod → y < u32_mod → sub32 (add32 x y) y ≡ x
unfolding add32 sub32
sub32-add32 x y h g = omega arith

pub add32-sub32 : (x y : ℕ) → x < u32_mod → y < u32_mod → add32 (sub32 x y) y ≡ x
unfolding add32 sub32
add32-sub32 x y h g = omega arith

-- One line backwards: `x` was replaced by `(x - y) ^ rol32(y, k)`, and then `y` by `y + z`.
unfoldable pub undo_x : ℕ → ℕ → ℕ → ℕ
undo_x k x y = add32 (bit_xor x (rol32 y k)) y

module _ (k x y : ℕ) (pos : 0 < k) (small : k < 32) (y_lt : y < u32_mod) where
  new_x-lt : bit_xor (sub32 x y) (rol32 y k) < u32_mod
  new_x-lt = bit_xor-lt 32 (sub32 x y) (rol32 y k) (sub32-lt x y) (rol32_lem y k pos small y_lt).0

  undo_x-new_x : x < u32_mod → undo_x k (bit_xor (sub32 x y) (rol32 y k)) y ≡ x
  unfolding undo_x
  undo_x-new_x x_lt =
      rw (bit_xor_cancel 32 (sub32 x y) (rol32 y k) (sub32-lt x y) (rol32_lem y k pos small y_lt).0)
        (add32-sub32 x y x_lt y_lt)

  pub undo_x-lt : undo_x k x y < u32_mod
  unfolding undo_x
  undo_x-lt = add32-lt (bit_xor x (rol32 y k)) y

-- The three kinds of line, backwards.
unfoldable pub unmix_ac : ℕ → Words → Words
unmix_ac k m = let c = sub32 m.c m.b in record m { a = undo_x k m.a c; c = c }

unfoldable pub unmix_ba : ℕ → Words → Words
unmix_ba k m = let a = sub32 m.a m.c in record m { b = undo_x k m.b a; a = a }

unfoldable pub unmix_cb : ℕ → Words → Words
unmix_cb k m = let b = sub32 m.b m.a in record m { c = undo_x k m.c b; b = b }

module _ (k : ℕ) (pos : 0 < k) (small : k < 32) {m : Words} (w : IsWords m) where
  pub mix_ac-IsWords : IsWords (mix_ac k m)
  unfolding mix_ac
  mix_ac-IsWords = record {
    a_lt = new_x-lt k m.a m.c pos small w.c_lt;
    b_lt = w.b_lt;
    c_lt = add32-lt m.c m.b;
  }

  pub mix_ba-IsWords : IsWords (mix_ba k m)
  unfolding mix_ba
  mix_ba-IsWords = record {
    a_lt = add32-lt m.a m.c;
    b_lt = new_x-lt k m.b m.a pos small w.a_lt;
    c_lt = w.c_lt;
  }

  pub mix_cb-IsWords : IsWords (mix_cb k m)
  unfolding mix_cb
  mix_cb-IsWords = record {
    a_lt = w.a_lt;
    b_lt = add32-lt m.b m.a;
    c_lt = new_x-lt k m.c m.b pos small w.b_lt;
  }

  unmix_ac-mix_ac : unmix_ac k (mix_ac k m) ≡ m
  unfolding unmix_ac mix_ac
  unmix_ac-mix_ac =
      rw (sub32-add32 m.c m.b w.c_lt w.b_lt, undo_x-new_x k m.a m.c pos small w.c_lt w.a_lt)

  unmix_ba-mix_ba : unmix_ba k (mix_ba k m) ≡ m
  unfolding unmix_ba mix_ba
  unmix_ba-mix_ba =
      rw (sub32-add32 m.a m.c w.a_lt w.c_lt, undo_x-new_x k m.b m.a pos small w.a_lt w.b_lt)

  unmix_cb-mix_cb : unmix_cb k (mix_cb k m) ≡ m
  unfolding unmix_cb mix_cb
  unmix_cb-mix_cb =
      rw (sub32-add32 m.b m.a w.b_lt w.a_lt, undo_x-new_x k m.c m.b pos small w.b_lt w.c_lt)

unfoldable pub unmix : Words → Words
unmix m = unmix_ac 4 (unmix_ba 6 (unmix_cb 8 (unmix_ac 16 (unmix_ba 19 (unmix_cb 4 m)))))

-- `pos` and `small` of the shift that stands in the code.
module _ {m : Words} (w : IsWords m) where
  after_ac-4 : IsWords (mix_ac 4 m)
  after_ac-4 = mix_ac-IsWords 4 (omega arith) (omega arith) w

  after_ba-6 : IsWords (mix_ba 6 m)
  after_ba-6 = mix_ba-IsWords 6 (omega arith) (omega arith) w

  after_cb-8 : IsWords (mix_cb 8 m)
  after_cb-8 = mix_cb-IsWords 8 (omega arith) (omega arith) w

  after_ac-16 : IsWords (mix_ac 16 m)
  after_ac-16 = mix_ac-IsWords 16 (omega arith) (omega arith) w

  after_ba-19 : IsWords (mix_ba 19 m)
  after_ba-19 = mix_ba-IsWords 19 (omega arith) (omega arith) w

  after_cb-4 : IsWords (mix_cb 4 m)
  after_cb-4 = mix_cb-IsWords 4 (omega arith) (omega arith) w

-- The mix keeps three words of 32 bits, and the inverse sequence of operations gives back the three
-- words that it started from: distinct inputs never reach the same state.
pub mix_lem : {m : Words} → IsWords m → IsWords (mix m) × (unmix (mix m) ≡ m)
unfolding mix unmix
mix_lem {m} w =
    let w1 = after_ac-4 w in
    let w2 = after_ba-6 w1 in
    let w3 = after_cb-8 w2 in
    let w4 = after_ac-16 w3 in
    let w5 = after_ba-19 w4 in
    (
      after_cb-4 w5,
      rw (
        unmix_cb-mix_cb 4 (omega arith) (omega arith) w5,
        unmix_ba-mix_ba 19 (omega arith) (omega arith) w4,
        unmix_ac-mix_ac 16 (omega arith) (omega arith) w3,
        unmix_cb-mix_cb 8 (omega arith) (omega arith) w2,
        unmix_ba-mix_ba 6 (omega arith) (omega arith) w1,
        unmix_ac-mix_ac 4 (omega arith) (omega arith) w,
      ),
    )

pub mix-injective : {m n : Words} → IsWords m → IsWords n → mix m ≡ mix n → m ≡ n
mix-injective v w e = sym (mix_lem v).1 ∙ (ap unmix e ∙ (mix_lem w).1)

pub j_hash_mix-lt :
    (a b c : ℕ) → a < u32_mod → b < u32_mod → c < u32_mod → j_hash_mix a b c < u32_mod
unfolding j_hash_mix
j_hash_mix-lt a b c p q r = (mix_lem (record { a_lt = p; b_lt = q; c_lt = r })).0.c_lt
