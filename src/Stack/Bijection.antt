-- ===== src/Stack/Bijection.antt =====
-- `jHashMix` is a bijection of the triples of 32-bit words.
use net_hive.Prelude.{ℕ, ◌<◌, ◌≡◌, arith}
use Prim.Native.Nat.{bit_xor}
use mathlib.Core.Equiv.{IsEquiv, iso_to_equiv}
use mathlib.Core.HLevel.{Σ_prop_path}
use native.Mathlib.Bridge.{le_prop}
use net_hive.Prelude.Bits.{bit_xor-lt, bit_xor_cancel}
use net_hive.Stack.{mix, u32_mod, sub32, rol32, Words, mix_ac, mix_ba, mix_cb}
use net_hive.Stack.Rotate.{rol32_lem}
use net_hive.Stack.Mix.{
  IsWords, sub32-lt, sub32-add32, add32-sub32, undo_x, undo_x-lt, unmix_ac, unmix_ba, unmix_cb,
  unmix, mix_lem,
}

-- One assignment after its inverse.
new_x-undo_x :
    (k x y : ℕ)
    → 0 < k
    → k < 32
    → y < u32_mod
    → x < u32_mod
    → bit_xor (sub32 (undo_x k x y) y) (rol32 y k) ≡ x
unfolding undo_x
new_x-undo_x k x y pos small y_lt x_lt =
    let turned = (rol32_lem y k pos small y_lt).0 in
    rw (sub32-add32 (bit_xor x (rol32 y k)) y (bit_xor-lt 32 x (rol32 y k) x_lt turned) y_lt)
      (bit_xor_cancel 32 x (rol32 y k) x_lt turned)

module _ (k : ℕ) (pos : 0 < k) (small : k < 32) {m : Words} (w : IsWords m) where
  unmix_ac-IsWords : IsWords (unmix_ac k m)
  unfolding unmix_ac
  unmix_ac-IsWords = record {
    a_lt = undo_x-lt k m.a (sub32 m.c m.b) pos small (sub32-lt m.c m.b);
    b_lt = w.b_lt;
    c_lt = sub32-lt m.c m.b;
  }

  unmix_ba-IsWords : IsWords (unmix_ba k m)
  unfolding unmix_ba
  unmix_ba-IsWords = record {
    a_lt = sub32-lt m.a m.c;
    b_lt = undo_x-lt k m.b (sub32 m.a m.c) pos small (sub32-lt m.a m.c);
    c_lt = w.c_lt;
  }

  unmix_cb-IsWords : IsWords (unmix_cb k m)
  unfolding unmix_cb
  unmix_cb-IsWords = record {
    a_lt = w.a_lt;
    b_lt = sub32-lt m.b m.a;
    c_lt = undo_x-lt k m.c (sub32 m.b m.a) pos small (sub32-lt m.b m.a);
  }

  mix_ac-unmix_ac : mix_ac k (unmix_ac k m) ≡ m
  unfolding unmix_ac mix_ac
  mix_ac-unmix_ac = rw (
    add32-sub32 m.c m.b w.c_lt w.b_lt,
    new_x-undo_x k m.a (sub32 m.c m.b) pos small (sub32-lt m.c m.b) w.a_lt,
  )

  mix_ba-unmix_ba : mix_ba k (unmix_ba k m) ≡ m
  unfolding unmix_ba mix_ba
  mix_ba-unmix_ba = rw (
    add32-sub32 m.a m.c w.a_lt w.c_lt,
    new_x-undo_x k m.b (sub32 m.a m.c) pos small (sub32-lt m.a m.c) w.b_lt,
  )

  mix_cb-unmix_cb : mix_cb k (unmix_cb k m) ≡ m
  unfolding unmix_cb mix_cb
  mix_cb-unmix_cb = rw (
    add32-sub32 m.b m.a w.b_lt w.a_lt,
    new_x-undo_x k m.c (sub32 m.b m.a) pos small (sub32-lt m.b m.a) w.c_lt,
  )

unmix_lem : {m : Words} → IsWords m → IsWords (unmix m) × (mix (unmix m) ≡ m)
unfolding mix unmix
unmix_lem {m} w =
    let w1 = unmix_cb-IsWords 4 (omega arith) (omega arith) w in
    let w2 = unmix_ba-IsWords 19 (omega arith) (omega arith) w1 in
    let w3 = unmix_ac-IsWords 16 (omega arith) (omega arith) w2 in
    let w4 = unmix_cb-IsWords 8 (omega arith) (omega arith) w3 in
    let w5 = unmix_ba-IsWords 6 (omega arith) (omega arith) w4 in
    (
      unmix_ac-IsWords 4 (omega arith) (omega arith) w5,
      rw (
        mix_ac-unmix_ac 4 (omega arith) (omega arith) w5,
        mix_ba-unmix_ba 6 (omega arith) (omega arith) w4,
        mix_cb-unmix_cb 8 (omega arith) (omega arith) w3,
        mix_ac-unmix_ac 16 (omega arith) (omega arith) w2,
        mix_ba-unmix_ba 19 (omega arith) (omega arith) w1,
        mix_cb-unmix_cb 4 (omega arith) (omega arith) w,
      ),
    )

IsWords-prop : (m : Words) → IsProp (IsWords m)
IsWords-prop m u v = λ i. record {
  a_lt = le_prop u.a_lt v.a_lt i;
  b_lt = le_prop u.b_lt v.b_lt i;
  c_lt = le_prop u.c_lt v.c_lt i;
}

-- Three words of 32 bits, which are what `jHashMix` works on, and the state that it leaves.
abbrev pub WordTriple : Type 0
WordTriple = (m : Words) × IsWords m

unfoldable pub mix_triple : WordTriple → WordTriple
mix_triple (m, w) = (mix m, (mix_lem w).0)

-- `jHashMix` is an equivalence of the type of triples of 32-bit words with itself: every triple is
-- the state that it leaves for exactly one triple, so no part of a flow is lost in the mix.
pub mix_triple-IsEquiv : IsEquiv mix_triple
unfolding mix_triple
mix_triple-IsEquiv =
    (iso_to_equiv (record {
      fun = mix_triple;
      inv = λ (m, w). (unmix m, (unmix_lem w).0);
      rinv = λ (m, w). Σ_prop_path IsWords-prop (unmix_lem w).1;
      linv = λ (m, w). Σ_prop_path IsWords-prop (mix_lem w).1;
    })).1
