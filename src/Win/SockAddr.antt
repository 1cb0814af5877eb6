-- ===== src/Win/SockAddr.antt =====
-- The bytes of a socket address.
use net_hive.Prelude.{
  ℕ, zero, suc, ◌+◌, ◌*◌, ◌/◌, ◌%◌, ◌^◌, ◌<◌, ◌≡◌, refl, ap, ap₂, subst, ◌∙◌, some, [], ◌∷◌, ◌++◌,
  arith, Bytes, length, take, drop, replicate, length-append, length-drop, take-append, drop-append,
}
use net_hive.Netip.{ip4}
use native.Mathlib.Nat.{pow-suc}
use net_hive.Prelude.Bits.{bit_or_step, bit_or-add}
use Prim.Native.Nat.{bit_or}
use net_hive.Win.{be2se, se2be, uint16_bytes, set_addr_port}

bit_or_comm : (k x y : ℕ) → x < 2 ^ k → y < 2 ^ k → bit_or x y ≡ bit_or y x
bit_or_comm zero x y h g =
    let p : x ≡ 0 = omega arith in let q : y ≡ 0 = omega arith in rw (p, q) refl
bit_or_comm (suc k) x y h g = omega (
  arith,
  bit_or_step x y,
  bit_or_step y x,
  bit_or_comm k (x / 2) (y / 2) (omega (arith, pow-suc 2 k)) (omega (arith, pow-suc 2 k)),
)

be2se_swaps : (i : ℕ) → i < 2 ^ 16 → be2se i ≡ i % 256 * 256 + i / 256
unfolding be2se
be2se_swaps i h =
    let high : i / 2 ^ 8 % 256 ≡ i / 256 = omega arith in
    rw (high, bit_or_comm 16 (i / 256) (i % 256 * 2 ^ 8) (omega arith) (omega arith))
      (bit_or-add 8 8 (i % 256) (i / 256) (omega arith) (omega arith))

-- `be2se` exchanges the two bytes of a 16-bit number, and `se2be` undoes it.
pub be2se_lem : (i : ℕ) → i < 2 ^ 16 → (be2se i ≡ i % 256 * 256 + i / 256) × (se2be (be2se i) ≡ i)
unfolding se2be be2se
be2se_lem i h =
    let j = i % 256 * 256 + i / 256 in
    (be2se_swaps i h, ap be2se (be2se_swaps i h) ∙ be2se_swaps j (omega arith) ∙ omega arith)

-- The bytes of a port are in the order of the network, the upper byte first.
port_bytes : (p : ℕ) → p < 2 ^ 16 → uint16_bytes (be2se p) ≡ p / 256 ∷ p % 256 ∷ []
unfolding uint16_bytes
port_bytes p h =
    let e = be2se_swaps p h in ap₂ (λ a b. a ∷ b ∷ []) (omega (arith, e)) (omega (arith, e))

-- `SetAddrPort` of an IPv4 address: the family, the port with its upper byte first, the four bytes
-- of the address and eight zeros; the other bytes of a structure of 28 stay, and so does its size.
pub set_addr_port-ip4 :
    (s b : Bytes) (p : ℕ)
    → length s ≡ 28
    → length b ≡ 4
    → p < 2 ^ 16
    → (out : Bytes) × (set_addr_port s (record { addr = ip4 b; port = p }) ≡ some out)
      × (length out ≡ 28)
      × (take 4 out ≡ 2 ∷ 0 ∷ p / 256 ∷ p % 256 ∷ [])
      × (take 4 (drop 4 out) ≡ b)
      × (drop 8 out ≡ replicate 8 0 ++ drop 16 s)
unfolding set_addr_port uint16_bytes
set_addr_port-ip4 s b p hs hb hp =
    let tail = replicate 8 0 ++ drop 16 s in
    (
      2 ∷ 0 ∷ be2se p % 256 ∷ be2se p / 2 ^ 8 % 256 ∷ (b ++ tail),
      refl,
      omega (arith, length-append b tail, length-drop 16 s, hs, hb),
      ap (λ bs. 2 ∷ 0 ∷ bs) (port_bytes p hp),
      subst (λ k. take k (b ++ tail) ≡ b) hb (take-append b tail),
      subst (λ k. drop k (b ++ tail) ≡ tail) hb (drop-append b tail),
    )
