-- ===== src/Protocol/Header.antt =====
-- Headers as a sender lays them out, read back by `ParseIP`.
use net_hive.Prelude.{
  ℕ, ◌+◌, ◌*◌, ◌/◌, ◌<◌, ◌≡◌, ◌∙◌, inl, inr, some, [], ◌∷◌, ◌++◌, arith, Bytes, length,
  length-append, take-drop-append, ok,
}
use mathlib.Core.List.{append_assoc}
use net_hive.Netip.{ip4, ip6}
use net_hive.Protocol.{Pool, pool_get, parse_ip}
use net_hive.Protocol.Parse.{version_of, field, decode, parse_ip-decode}

-- The IPv4 header of RFC 791: version and header length, eleven more bytes, source, destination,
-- and what follows.
abbrev pub ipv4_packet : (ihl : ℕ) (middle src dst rest : Bytes) → Bytes
ipv4_packet ihl middle src dst rest = ((4 * 16 + ihl) ∷ middle) ++ (src ++ (dst ++ rest))

-- The IPv6 header of RFC 8200: version and class, seven more bytes, source, destination.
abbrev pub ipv6_packet : (class : ℕ) (middle src dst rest : Bytes) → Bytes
ipv6_packet class middle src dst rest = ((6 * 16 + class) ∷ middle) ++ (src ++ (dst ++ rest))

module _ (pre src dst rest : Bytes) where
  field-src :
      (lo hi : ℕ)
      → lo ≡ length pre
      → hi ≡ lo + length src
      → field lo hi (pre ++ (src ++ (dst ++ rest))) ≡ src
  field-src lo hi p q = take-drop-append pre src (dst ++ rest) lo hi p q

  field-dst :
      (lo hi : ℕ)
      → lo ≡ length pre + length src
      → hi ≡ lo + length dst
      → field lo hi (pre ++ (src ++ (dst ++ rest))) ≡ dst
  field-dst lo hi p q =
      rw (← append_assoc pre src (dst ++ rest))
        (take-drop-append (pre ++ src) dst rest lo hi (omega (arith, length-append pre src)) q)

  length-packet :
      length (pre ++ (src ++ (dst ++ rest))) ≡ length pre + length src + length dst + length rest
  length-packet = omega (
    arith,
    length-append pre (src ++ (dst ++ rest)),
    length-append src (dst ++ rest),
    length-append dst rest,
  )

-- The round trip for IPv4: `ParseIP` of a packet laid out with any header length, middle bytes and
-- payload returns version 4 with its source and its destination.
pub parse_ip-ipv4_packet :
    (pool : Pool) (ihl : ℕ) (middle src dst rest : Bytes)
    → ihl < 16
    → length middle ≡ 11
    → length src ≡ 4
    → length dst ≡ 4
    → parse_ip pool (ipv4_packet ihl middle src dst rest)
      ≡ some ((pool_get pool).1, ok (record { version = 4; src = ip4 src; dst = ip4 dst }))
unfolding decode version_of
parse_ip-ipv4_packet pool ihl middle src dst rest h m s d =
    let v : (4 * 16 + ihl) / 16 ≡ 4 = omega arith in
    let pre = (4 * 16 + ihl) ∷ middle in
    parse_ip-decode pool (ipv4_packet ihl middle src dst rest)
      (omega (arith, length-packet pre src dst rest), inl v)
    ∙ rw (
      v,
      field-src pre src dst rest 12 16 (omega arith) (omega arith),
      field-dst pre src dst rest 16 20 (omega arith) (omega arith),
    )

-- The round trip for IPv6: version 6 with the two addresses of sixteen bytes, without a zone.
pub parse_ip-ipv6_packet :
    (pool : Pool) (class : ℕ) (middle src dst rest : Bytes)
    → class < 16
    → length middle ≡ 7
    → length src ≡ 16
    → length dst ≡ 16
    → parse_ip pool (ipv6_packet class middle src dst rest)
      ≡ some ((pool_get pool).1, ok (record { version = 6; src = ip6 src []; dst = ip6 dst [] }))
unfolding decode version_of
parse_ip-ipv6_packet pool class middle src dst rest h m s d =
    let v : (6 * 16 + class) / 16 ≡ 6 = omega arith in
    let pre = (6 * 16 + class) ∷ middle in
    let long = length-packet pre src dst rest in
    parse_ip-decode pool (ipv6_packet class middle src dst rest)
      (omega (arith, long), inr (v, omega (arith, long)))
    ∙ rw (
      v,
      field-src pre src dst rest 8 24 (omega arith) (omega arith),
      field-dst pre src dst rest 24 40 (omega arith) (omega arith),
    )
