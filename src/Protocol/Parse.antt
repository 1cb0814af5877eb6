-- ===== src/Protocol/Parse.antt =====
-- What `ParseIP` accepts and returns.
use net_hive.Prelude.{
  suc, ℕ, ◌-◌, ◌/◌, ◌≤◌, ◌<◌, ◌≡◌, refl, ◌∙◌, ◌≢◌, ◌⊎◌, inl, inr, true, false, none, some, [], ◌∷◌,
  arith, ltb, ◌==◌, if◌then◌else◌, Bytes, length, get_elem?, take, drop, length-take, length-drop,
  slice-eq_some, ok, err, ◌>>=◌,
}
use native.Mathlib.Decide.{dec_le, ℕ_discrete}
use net_hive.Netip.{ip4, ip6}
use net_hive.Protocol.{
  settle, invalid_ip_packet, pool_get, parse_version, parse_ip, Pool, IpPacket, parse_ipv4,
  parse_ipv6,
}

-- The version nibble, if the buffer holds one.
unfoldable pub version_of : Bytes → ℕ
version_of [] = 0
version_of (b ∷ bs) = b / 16

-- The bytes from `lo` up to `hi`.
abbrev pub field : ℕ → ℕ → Bytes → Bytes
field lo hi buff = take (hi - lo) (drop lo buff)

length-field :
    (lo hi : ℕ) (buff : Bytes) → lo ≤ hi → hi ≤ length buff → length (field lo hi buff) ≡ hi - lo
length-field lo hi buff p q =
    omega (arith, length-take (hi - lo) (drop lo buff), length-drop lo buff)

parse_ipv4_lem :
    (ip : IpPacket) (buff : Bytes)
    → 20 ≤ length buff
    → parse_ipv4 ip buff
      ≡ some (record ip { src = ip4 (field 12 16 buff); dst = ip4 (field 16 20 buff) }, none)
unfolding parse_ipv4
parse_ipv4_lem ip buff h = rw (
  slice-eq_some buff 12 16 (omega arith) (omega arith),
  length-field 12 16 buff (omega arith) (omega arith),
  slice-eq_some buff 16 20 (omega arith) (omega arith),
  length-field 16 20 buff (omega arith) (omega arith),
)

parse_ipv6_lem :
    (ip : IpPacket) (buff : Bytes)
    → 40 ≤ length buff
    → parse_ipv6 ip buff
      ≡ some (record ip { src = ip6 (field 8 24 buff) []; dst = ip6 (field 24 40 buff) [] }, none)
unfolding parse_ipv6
parse_ipv6_lem ip buff h =
    let long : ltb (length buff) 40 ≡ false = ground arith in
    rw (
      long,
      slice-eq_some buff 8 24 (omega arith) (omega arith),
      length-field 8 24 buff (omega arith) (omega arith),
      slice-eq_some buff 24 40 (omega arith) (omega arith),
      length-field 24 40 buff (omega arith) (omega arith),
    )

-- A buffer that carries an IPv4 header of at least 20 bytes or an IPv6 header of 40.
abbrev pub WellFormed : Bytes → Type 0
WellFormed buff =
    (20 ≤ length buff) × ((version_of buff ≡ 4) ⊎ ((version_of buff ≡ 6) × (40 ≤ length buff)))

pub dec_WellFormed : (buff : Bytes) → Dec (WellFormed buff)
dec_WellFormed buff = elim (dec_le 20 (length buff)) [
  | no short ↦ no (λ h. short h.0)
  | yes long ↦ elim (ℕ_discrete (version_of buff) 4) [
    | yes v ↦ yes (long, inl v)
    | no not4 ↦ elim (ℕ_discrete (version_of buff) 6) [
      | no not6 ↦ no (λ h. elim h.1 [ inl v ↦ not4 v | inr (v, k) ↦ not6 v ])
      | yes v ↦ elim (dec_le 40 (length buff)) [
        | yes longer ↦ yes (long, inr (v, longer))
        | no cut ↦ no (λ h. elim h.1 [ inl w ↦ not4 w | inr (w, k) ↦ cut k ])
      ]
    ]
  ]
]

-- The packet that such a header describes.
unfoldable pub decode : Bytes → IpPacket
decode buff =
    if version_of buff == 4
    then record { version = 4; src = ip4 (field 12 16 buff); dst = ip4 (field 16 20 buff) }
    else record { version = 6; src = ip6 (field 8 24 buff) []; dst = ip6 (field 24 40 buff) [] }

first_byte :
    (buff : Bytes)
    → 20 ≤ length buff
    → (b : ℕ) × (get_elem? buff 0 ≡ some b) × (version_of buff ≡ b / 16)
unfolding version_of
first_byte [] h = absurd (omega arith)
first_byte (b ∷ bs) h = (b, refl, refl)

-- On a buffer of 20 bytes the parser comes to the `switch`.
parse_ip-switch :
    (pool : Pool) (buff : Bytes)
    → 20 ≤ length buff
    → parse_ip pool buff ≡ (
        parse_version (record (pool_get pool).0 { version = version_of buff }) buff >>= λ out.
        some (settle (pool_get pool).1 out))
unfolding parse_ip
parse_ip-switch pool buff h =
    let (b, got, v) = first_byte buff h in
    let long : ltb (length buff) 20 ≡ false = ground arith in rw (long, got, v)

parse_ip_short :
    (pool : Pool) (buff : Bytes)
    → length buff < 20
    → parse_ip pool buff ≡ some (pool, err invalid_ip_packet)
unfolding parse_ip
parse_ip_short pool buff h = let short : ltb (length buff) 20 ≡ true = ground arith in rw short

length-pool_get : (pool : Pool) → length pool ≤ suc (length (pool_get pool).1)
length-pool_get [] = omega arith
length-pool_get (p ∷ ps) = omega arith

-- The `switch` fails on another version, and on an IPv6 packet that is cut short.
parse_version_fails :
    (ip : IpPacket) (buff : Bytes)
    → ip.version ≢ 4
    → ((ip.version ≡ 6) → length buff < 40)
    → parse_version ip buff ≡ some (ip, some invalid_ip_packet)
unfolding parse_version parse_ipv6
parse_version_fails ip buff h k = ground arith

module _ (pool : Pool) (buff : Bytes) where
  -- On a well formed buffer (version 4 and at least twenty bytes, or 6 and forty) `ParseIP`
  -- succeeds and returns exactly the version and the addresses of the header, whatever stale packet
  -- the pool hands out.
  pub parse_ip-decode :
      WellFormed buff → parse_ip pool buff ≡ some ((pool_get pool).1, ok (decode buff))
  unfolding parse_version decode
  parse_ip-decode (long, inl v) =
      parse_ip-switch pool buff long ∙ rw (v, parse_ipv4_lem _ buff long)
  parse_ip-decode (long, inr (v, longer)) =
      parse_ip-switch pool buff long ∙ rw (v, parse_ipv6_lem _ buff longer)

  -- On a buffer that is not well formed (fewer than twenty bytes, another version, or version 6
  -- with fewer than forty) `ParseIP` neither panics nor succeeds: it returns `ErrInvalidIPPacket`,
  -- and no packet is lost from the pool.
  pub parse_ip-reject :
      ¬ WellFormed buff
      → (ps : Pool) × (parse_ip pool buff ≡ some (ps, err invalid_ip_packet))
        × (length pool ≤ length ps)
  unfolding parse_version parse_ipv6
  parse_ip-reject bad = elim (dec_le 20 (length buff)) [
    | no short ↦ (pool, parse_ip_short pool buff (omega arith), omega arith)
    | yes long ↦
        let ip = record (pool_get pool).0 { version = version_of buff } in
        (
          ip ∷ (pool_get pool).1,
          parse_ip-switch pool buff long
              ∙ rw (parse_version_fails ip buff (λ v. bad (long, inl v)) (λ v. ground arith)),
          omega (arith, length-pool_get pool),
        )
  ]
