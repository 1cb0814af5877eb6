-- ===== src/Route/Mask.antt =====
-- What `Add` asks the kernel for.
use net_hive.Prelude.{
  Option-cases, inl, inr, ◌≢◌, ℕ, zero, suc, ◌+◌, ◌-◌, ◌*◌, ◌^◌, ◌≤◌, ◌<◌, ◌≡◌, refl, ap, ◌∙◌, Bool,
  true, ◌&&◌, none, some, ◌∷◌, arith, leb, le→leb, ◌==◌, ==_iff, Bytes,
}
use net_hive.Netip.{Prefix, ip4, ip6, as4}
use native.Mathlib.Decide.{ℕ_discrete}
use net_hive.Route.{
  RtEntry, RouteCalls, system_or_nil, cidr_mask, mask_byte, parse_mask, rtf_up, entry, dev_name,
  change_route, add,
}

-- Four bytes as a number, the upper byte first.
unfoldable pub number : Bytes → ℕ
number (p ∷ q ∷ r ∷ s ∷ bs) = p * 2 ^ 24 + q * 2 ^ 16 + r * 2 ^ 8 + s
number _ = 0

is_mask : ℕ → Bool
is_mask k = number (cidr_mask 4 k) == 2 ^ 32 - 2 ^ (32 - k)

all_masks : ℕ → Bool
all_masks zero = true
all_masks (suc n) = is_mask n && all_masks n

all_masks_sound : (n k : ℕ) → all_masks n ≡ true → k < n → is_mask k ≡ true
unfolding all_masks
all_masks_sound zero k h lt = absurd (omega arith)
all_masks_sound (suc n) k h lt = elim (ℕ_discrete k n) [
  | yes same ↦ ap is_mask same ∙ ground arith
  | no other ↦ all_masks_sound n k (ground arith) (omega (arith, other))
]

masks_hold : all_masks 33 ≡ true
unfolding all_masks is_mask cidr_mask mask_byte number
masks_hold = refl

-- The mask of an IPv4 prefix has its `bits` upper bits set and no other.
cidr_mask_lem : (k : ℕ) → k ≤ 32 → number (cidr_mask 4 k) ≡ 2 ^ 32 - 2 ^ (32 - k)
unfolding is_mask
cidr_mask_lem k h =
    (==_iff (number (cidr_mask 4 k)) (2 ^ 32 - 2 ^ (32 - k))).0
      (all_masks_sound 33 k masks_hold (omega arith))

module _ {E : Type 0} (S : RouteCalls E) (dev : Bytes) where
  -- `Add` of an IPv4 prefix does not panic. With a socket it hands the kernel one entry: for the
  -- address of the prefix, host bits included, with the mask that has as many upper bits set as the
  -- prefix says, up, and through the device; and it returns the kernel's error.
  pub add-ip4 :
      (b : Bytes) (k : ℕ)
      → k ≤ 32
      → S.socket ≡ none
      → (rt : RtEntry) × (add S dev (record { addr = ip4 b; bits = k })
          ≡ some (system_or_nil (S.siocaddrt rt)))
        × (rt.dst ≡ b)
        × (number rt.gen_mask ≡ 2 ^ 32 - 2 ^ (32 - k))
        × (rt.flags ≡ rtf_up)
        × (rt.dev ≡ some (dev_name dev))
  unfolding add change_route entry parse_mask cidr_mask
  add-ip4 b k h sock =
      let fits : leb k 32 ≡ true = le→leb k 32 h in
      rw (sock, fits, add, parse_mask)
        (
          record { dst = b; gen_mask = cidr_mask 4 k; flags = rtf_up; dev = some (dev_name dev) },
          refl,
          refl,
          cidr_mask_lem k h,
          refl,
          refl,
        )

  -- `Add` panics at no prefix of an address that is an IPv4 address, even in an IPv6 one.
  pub add-as4 : (p : Prefix) (b : Bytes) → as4 p.addr ≡ some b → add S dev p ≢ none
  unfolding add change_route entry
  add-as4 p b is = elim (Option-cases S.socket) [
    | inr (x, fails) ↦ rw (fails, add) (λ e. cc (e))
    | inl sock ↦ elim (Option-cases (parse_mask p)) [
      | inl bad ↦ rw (sock, bad, add) (λ e. cc (e))
      | inr (mask, good) ↦ rw (sock, good, is, add, change_route, entry) (λ e. cc (e))
    ]
  ]

  -- `Add` of an IPv6 prefix panics, unless its address is an IPv4 address in an IPv6 one, although
  -- the configuration accepts such a prefix.
  pub add-ip6 :
      (b z : Bytes) (k : ℕ)
      → k ≤ 128
      → S.socket ≡ none
      → as4 (ip6 b z) ≡ none
      → add S dev (record { addr = ip6 b z; bits = k }) ≡ none
  unfolding add change_route entry parse_mask
  add-ip6 b z k h sock bad =
      let fits : leb k 128 ≡ true = le→leb k 128 h in rw (sock, fits, bad, add, parse_mask) refl
