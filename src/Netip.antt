-- ===== src/Netip.antt =====
-- `net/netip` of Go's standard library, as far as the program uses it. An address is the zero
-- `Addr`, an IPv4 address of four bytes, or an IPv6 address of sixteen bytes with a zone.
pub mod Text
use native.Mathlib.Decide.{ℕ_discrete}
use net_hive.Prelude.{
  drop, take, some, ◌++◌, none, Option, replicate, ℕ, ◌/◌, ◌%◌, Bytes, Bool, true, false, ◌&&◌,
  ◌==◌, ◌≡◌, refl, ap, [], ◌∷◌, bytes_eq, bytes_eq_refl, bytes_eq_sound, length, if◌then◌else◌,
  arith,
}

pub data Addr : Type 0 where
  zero_addr : Addr
  ip4 : Bytes → Addr
  ip6 : Bytes → Bytes → Addr

-- `AddrFromSlice`.
abbrev pub addr_from_slice : Bytes → Addr × Bool
addr_from_slice b =
    if length b == 4
    then (ip4 b, true)
    else if length b == 16
    then (ip6 b [], true)
    else (zero_addr, false)

abbrev pub is_valid : Addr → Bool
is_valid zero_addr = false
is_valid (ip4 b) = true
is_valid (ip6 b z) = true

pub Addr-discrete : Discrete Addr
Addr-discrete = hlevel ℕ_discrete

-- `==` on addresses, which is `Compare` with the result 0.
unfoldable pub addr_eq : Addr → Addr → Bool
addr_eq zero_addr zero_addr = true
addr_eq (ip4 a) (ip4 b) = bytes_eq a b
addr_eq (ip6 a z) (ip6 b y) = bytes_eq a b && bytes_eq z y
addr_eq _ _ = false

pub addr_eq_refl : (a : Addr) → addr_eq a a ≡ true
unfolding addr_eq
addr_eq_refl zero_addr = refl
addr_eq_refl (ip4 a) = bytes_eq_refl a
addr_eq_refl (ip6 a z) = ground (arith, bytes_eq_refl a, bytes_eq_refl z)

pub addr_eq_sound : (a b : Addr) → addr_eq a b ≡ true → a ≡ b
unfolding addr_eq
addr_eq_sound zero_addr zero_addr h = refl
addr_eq_sound (ip4 a) (ip4 b) h = ap ip4 (bytes_eq_sound a b h)
addr_eq_sound (ip6 a z) (ip6 b y) h = ground (arith, bytes_eq_sound a b, bytes_eq_sound z y)
addr_eq_sound zero_addr (ip4 b) h = cc
addr_eq_sound zero_addr (ip6 b y) h = cc
addr_eq_sound (ip4 a) zero_addr h = cc
addr_eq_sound (ip4 a) (ip6 b y) h = cc
addr_eq_sound (ip6 a z) zero_addr h = cc
addr_eq_sound (ip6 a z) (ip4 b) h = cc

-- The first two bytes and the last-but-one decide the multicast tests.
head_bits : Bytes → ℕ → ℕ
head_bits [] k = 0
head_bits (b ∷ bs) k = b / k

-- `IsMulticast`: 224.0.0.0/4 and ff00::/8.
unfoldable pub is_multicast : Addr → Bool
unfolding head_bits
is_multicast zero_addr = false
is_multicast (ip4 b) = head_bits b 16 == 0xe
is_multicast (ip6 b z) = head_bits b 1 == 0xff

second_low : Bytes → ℕ
second_low (a ∷ b ∷ bs) = b % 16
second_low _ = 0

link_local_4 : Bytes → Bool
link_local_4 (a ∷ b ∷ c ∷ d ∷ bs) = (a == 224) && (b == 0) && (c == 0)
link_local_4 _ = false

-- `IsLinkLocalMulticast`: 224.0.0.0/24 and ffx2::/16.
unfoldable pub is_link_local_multicast : Addr → Bool
unfolding head_bits second_low link_local_4
is_link_local_multicast zero_addr = false
is_link_local_multicast (ip4 b) = link_local_4 b
is_link_local_multicast (ip6 b z) = (head_bits b 1 == 0xff) && (second_low b == 2)

-- `Prefix`: an address and a number of bits; the zero `Prefix` has the zero address.
pub record Prefix : Type 0 where
  pub addr : Addr
  pub bits : ℕ

-- `AddrPort`: an address and a 16-bit port.
pub record AddrPort : Type 0 where
  pub addr : Addr
  pub port : ℕ

abbrev mapped_head : Bytes
mapped_head = replicate 10 0 ++ (255 ∷ 255 ∷ [])

-- `As4`; `none` is its panic on the zero address and on an IPv6 address that is not mapped.
abbrev pub as4 : Addr → Option Bytes
as4 zero_addr = none
as4 (ip4 b) = some b
as4 (ip6 b z) = if bytes_eq (take 12 b) mapped_head then some (drop 12 b) else none

-- `As16`
abbrev pub as16 : Addr → Bytes
as16 zero_addr = replicate 16 0
as16 (ip4 b) = mapped_head ++ b
as16 (ip6 b z) = b
