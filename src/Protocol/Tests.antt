-- ===== src/Protocol/Tests.antt =====
-- `ParseIP` at packets of both versions, and what it refuses.
use net_hive.Netip.{ip6, zero_addr}
use net_hive.Protocol.{Pool, parse_ip, parse_ipv6, parse_version, invalid_ip_packet}
use net_hive.Protocol.Parse.{version_of, decode, parse_ip-decode, parse_ip-reject}
use net_hive.Protocol.Header.{ipv4_packet, ipv6_packet}
use net_hive.Prelude.{
  ◌≤◌, ◌≡◌, refl, inl, inr, some, [], ◌∷◌, arith, Bytes, length, replicate, ok, err,
}

abbrev src4 : Bytes
src4 = 10 ∷ 0 ∷ 0 ∷ 1 ∷ []

abbrev dst4 : Bytes
dst4 = 10 ∷ 0 ∷ 0 ∷ 2 ∷ []

abbrev packet4 : Bytes
packet4 = ipv4_packet 5 (replicate 11 0) src4 dst4 (1 ∷ 2 ∷ [])

abbrev packet6 : Bytes
packet6 = ipv6_packet 0 (replicate 7 0) (replicate 16 1) (replicate 16 2) []

-- A packet that an earlier call left in the pool.
abbrev stale : Pool
stale = record { version = 6; src = ip6 (replicate 16 9) []; dst = zero_addr } ∷ []

parse_ip_short_header :
    parse_ip [] (0x60 ∷ replicate 30 0)
    ≡ some (record { version = 6; src = zero_addr; dst = zero_addr } ∷ [], err invalid_ip_packet)
unfolding parse_ip parse_version parse_ipv6
parse_ip_short_header = refl

parse_ip-decode_example : parse_ip stale packet4 ≡ some ([], ok (decode packet4))
unfolding version_of
parse_ip-decode_example = parse_ip-decode stale packet4 (omega arith, inl refl)

parse_ip-reject_example :
    (ps : Pool) × (parse_ip stale (0x50 ∷ replicate 30 0) ≡ some (ps, err invalid_ip_packet))
    × (1 ≤ length ps)
unfolding version_of
parse_ip-reject_example =
    parse_ip-reject stale (0x50 ∷ replicate 30 0)
      (λ h. elim h.1 [ inl v ↦ omega (arith, v) | inr (v, k) ↦ omega (arith, v) ])
