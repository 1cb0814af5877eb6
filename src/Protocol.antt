-- ===== src/Protocol.antt =====
-- core/protocol/ip.go: the version and the addresses of an IP packet, in a pooled `IPPacket`.
pub mod Parse
pub mod Header
mod Tests
use net_hive.Prelude.{
  ℕ, ◌/◌, ◌^◌, Bytes, Bool, not, ◌||◌, ◌==◌, ltb, Option, none, some, List, [], ◌∷◌, length,
  get_elem?, slice, ◌>>=◌, if◌then◌else◌, Result, ok, err,
}
use net_hive.Netip.{Addr, zero_addr, addr_from_slice, is_valid}

pub data Error : Type 0 where
  invalid_ip_packet : Error

-- `IPPacket`, the one implementation of the interface `IP`.
pub record IpPacket : Type 0 where
  pub version : ℕ
  pub src : Addr
  pub dst : Addr

-- The `New` of `ipPacketPool`.
abbrev pub new_ip_packet : IpPacket
new_ip_packet = record { version = 0; src = zero_addr; dst = zero_addr }

-- `ipPacketPool`: the packets at rest. `Get` may return any packet that was put back, whose fields
-- are stale.
abbrev pub Pool : Type 0
Pool = List IpPacket

abbrev pub pool_get : Pool → IpPacket × Pool
pool_get [] = (new_ip_packet, [])
pool_get (p ∷ ps) = (p, ps)

-- `ip.src, ok = netip.AddrFromSlice(s)`, and the test `!ok || !ip.src.IsValid()` that follows.
abbrev assign_src : IpPacket → Bytes → IpPacket × Bool
assign_src ip s =
    let (a, good) = addr_from_slice s in (record ip { src = a }, not good || not (is_valid a))

abbrev assign_dst : IpPacket → Bytes → IpPacket × Bool
assign_dst ip s =
    let (a, good) = addr_from_slice s in (record ip { dst = a }, not good || not (is_valid a))

-- The addresses at the offsets `lo`, `mid` and `hi`. Both parsers write through the pointer `ip`,
-- also when they fail; the error is `none` for `nil`.
abbrev parse_addrs : (lo mid hi : ℕ) → IpPacket → Bytes → Option (IpPacket × Option Error)
parse_addrs lo mid hi ip buff = do
  s ← slice buff lo mid
  let (ip1, bad) = assign_src ip s
  if bad then some (ip1, some invalid_ip_packet) else do
    d ← slice buff mid hi
    let (ip2, bad2) = assign_dst ip1 d
    some (ip2, if bad2 then some invalid_ip_packet else none)

unfoldable pub parse_ipv4 : IpPacket → Bytes → Option (IpPacket × Option Error)
parse_ipv4 ip buff = parse_addrs 12 16 20 ip buff

unfoldable pub parse_ipv6 : IpPacket → Bytes → Option (IpPacket × Option Error)
parse_ipv6 ip buff =
    if ltb (length buff) 40 then some (ip, some invalid_ip_packet) else parse_addrs 8 24 40 ip buff

-- The `switch` on the version; any other version is an error.
unfoldable pub parse_version : IpPacket → Bytes → Option (IpPacket × Option Error)
parse_version ip buff =
    if ip.version == 4
    then parse_ipv4 ip buff
    else if ip.version == 6
    then parse_ipv6 ip buff
    else some (ip, some invalid_ip_packet)

-- The packet goes back to the pool on an error, and to the caller otherwise.
abbrev settle : Pool → IpPacket × Option Error → Pool × Result Error IpPacket
settle ps (ip, some e) = (ip ∷ ps, err e)
settle ps (ip, none) = (ps, ok ip)

unfoldable pub parse_ip : Pool → Bytes → Option (Pool × Result Error IpPacket)
parse_ip pool buff = if ltb (length buff) 20 then some (pool, err invalid_ip_packet) else do
  b ← get_elem? buff 0
  let (ip, ps) = pool_get pool
  out ← parse_version (record ip { version = b / 2 ^ 4 }) buff
  some (settle ps out)

-- `ReleaseIP`
unfoldable pub release_ip : Pool → IpPacket → Pool
release_ip pool ip = ip ∷ pool
