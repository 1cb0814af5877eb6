-- ===== src/Stack.antt =====
-- core/stack/hash.go: the hash of a flow, Jenkins' mix of three 32-bit words. An address of the
-- standard library holds its bytes, so `binary.BigEndian.Uint32` reads arrays of known size.
pub mod Rotate
pub mod Mix
pub mod Bijection
pub mod Flow
mod Tests
use net_hive.Netip.{AddrPort, as4, as16}
use Prim.Native.Nat.{bit_xor, bit_or}
use net_hive.Prelude.{
  ℕ, ◌+◌, ◌-◌, ◌*◌, ◌/◌, ◌%◌, ◌^◌, Option, some, ◌∷◌, ◌==◌, if◌then◌else◌, Bytes, take, drop, ◌>>=◌,
}

-- `uint32` arithmetic.
abbrev pub u32_mod : ℕ
u32_mod = 2 ^ 32

pub add32 : ℕ → ℕ → ℕ
add32 x y = (x + y) % u32_mod

pub sub32 : ℕ → ℕ → ℕ
sub32 x y = (x + u32_mod - y) % u32_mod

-- `shift` is a `uint` of 64 bits, so `(-shift) & 31` is `(2^64 - shift)` modulo 32.
pub rol32 : (word shift : ℕ) → ℕ
rol32 word shift = bit_or (word * 2 ^ shift % u32_mod) (word / 2 ^ ((2 ^ 64 - shift) % 32))

-- The three variables of `jHashMix`.
pub record Words : Type 0 where
  pub a : ℕ
  pub b : ℕ
  pub c : ℕ

-- `a -= c; a ^= rol32(c, k); c += b`
pub mix_ac : ℕ → Words → Words
mix_ac k m = record m { a = bit_xor (sub32 m.a m.c) (rol32 m.c k); c = add32 m.c m.b }

-- `b -= a; b ^= rol32(a, k); a += c`
pub mix_ba : ℕ → Words → Words
mix_ba k m = record m { b = bit_xor (sub32 m.b m.a) (rol32 m.a k); a = add32 m.a m.c }

-- `c -= b; c ^= rol32(b, k); b += a`
pub mix_cb : ℕ → Words → Words
mix_cb k m = record m { c = bit_xor (sub32 m.c m.b) (rol32 m.b k); b = add32 m.b m.a }

-- The eighteen assignments of `jHashMix`, and the state that they leave.
pub mix : Words → Words
mix m = mix_cb 4 (mix_ba 19 (mix_ac 16 (mix_cb 8 (mix_ba 6 (mix_ac 4 m)))))

pub j_hash_mix : (a b c : ℕ) → ℕ
j_hash_mix a b c = (mix (record { a = a; b = b; c = c })).c

-- `binary.BigEndian.Uint32` of an array's first four bytes.
pub be_uint32 : Bytes → ℕ
be_uint32 (p ∷ q ∷ r ∷ s ∷ bs) = p * 2 ^ 24 + q * 2 ^ 16 + r * 2 ^ 8 + s
be_uint32 _ = 0

-- `uint32(src.Port())<<16 | uint32(dst.Port())`
pub ports : AddrPort → AddrPort → ℕ
ports src dst = bit_or (src.port * 2 ^ 16 % u32_mod) dst.port

-- The panics of `As4` come through.
pub net4_words : AddrPort → AddrPort → Option Words
net4_words src dst = do
  s ← as4 src.addr
  d ← as4 dst.addr
  some (record { a = be_uint32 s; b = be_uint32 d; c = ports src dst })

pub net4_hash_fn : AddrPort → AddrPort → Option ℕ
net4_hash_fn src dst = do m ← net4_words src dst; some (j_hash_mix m.a m.b m.c)

-- Of the source's sixteen bytes only the last four count.
pub net6_words : AddrPort → AddrPort → Words
net6_words src dst =
    let d = as16 dst.addr in
    record {
      a = be_uint32 (drop 12 (as16 src.addr));
      b =
          j_hash_mix (bit_xor (be_uint32 (take 4 d)) (be_uint32 (take 4 (drop 4 d))))
            (be_uint32 (take 4 (drop 8 d))) (be_uint32 (drop 12 d));
      c = ports src dst;
    }

pub net6_hash_fn : AddrPort → AddrPort → ℕ
net6_hash_fn src dst = let m = net6_words src dst in j_hash_mix m.a m.b m.c

-- `net.IPv4` and `net.IPv6` are constants of go-cidranger.
pub net_hash : (ipv4 ipv6 : ℕ) → (network : ℕ) → AddrPort → AddrPort → Option ℕ
net_hash ipv4 ipv6 network src dst =
    if network == ipv4
    then net4_hash_fn src dst
    else if network == ipv6
    then some (net6_hash_fn src dst)
    else some 0
