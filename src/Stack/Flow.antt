-- ===== src/Stack/Flow.antt =====
-- From the two ends of a flow to its hash.
use net_hive.Prelude.{
  All-drop, All-take, ℕ, ◌+◌, ◌*◌, ◌/◌, ◌%◌, ◌^◌, ◌<◌, ◌≡◌, refl, sym, ap, ◌∙◌, ◌≢◌, inl, inr, some,
  [], ◌∷◌, arith, ◌==◌, ==_iff, Bytes, Bool-cases, length, take, drop, All,
}
use net_hive.Prelude.Bits.{bit_or-add, bit_xor-lt}
use net_hive.Netip.{ip4, AddrPort, as16}
use net_hive.Stack.{
  u32_mod, Words, mix, be_uint32, ports, net4_words, net4_hash_fn, net6_words, net6_hash_fn,
  net_hash,
}
use net_hive.Stack.Mix.{IsWords, mix-injective, j_hash_mix-lt}

-- Bytes are below 256.
abbrev pub AreBytes : Bytes → Type 0
AreBytes = All (λ b. b < 256)

be_uint32-lt : (b : Bytes) → AreBytes b → be_uint32 b < u32_mod
unfolding be_uint32
be_uint32-lt [] h = omega arith
be_uint32-lt (p ∷ []) h = omega arith
be_uint32-lt (p ∷ q ∷ []) h = omega arith
be_uint32-lt (p ∷ q ∷ r ∷ []) h = omega arith
be_uint32-lt (p ∷ q ∷ r ∷ s ∷ bs) h = omega arith

-- The bytes of a word, highest first.
word_bytes : ℕ → Bytes
word_bytes w = (w / 2 ^ 24) ∷ (w / 2 ^ 16 % 256) ∷ (w / 2 ^ 8 % 256) ∷ (w % 256) ∷ []

word_bytes-be_uint32 : (b : Bytes) → length b ≡ 4 → AreBytes b → word_bytes (be_uint32 b) ≡ b
unfolding be_uint32 word_bytes
word_bytes-be_uint32 (p ∷ q ∷ r ∷ s ∷ []) l h = ground arith
word_bytes-be_uint32 (p ∷ q ∷ r ∷ s ∷ t ∷ bs) l h = absurd (omega arith)
word_bytes-be_uint32 (p ∷ q ∷ r ∷ []) l h = absurd (omega arith)
word_bytes-be_uint32 (p ∷ q ∷ []) l h = absurd (omega arith)
word_bytes-be_uint32 (p ∷ []) l h = absurd (omega arith)
word_bytes-be_uint32 [] l h = absurd (omega arith)

ports_lem :
    (src dst : AddrPort)
    → src.port < 2 ^ 16
    → dst.port < 2 ^ 16
    → ports src dst ≡ src.port * 2 ^ 16 + dst.port
unfolding ports
ports_lem src dst p q =
    let fits : src.port * 2 ^ 16 % u32_mod ≡ src.port * 2 ^ 16 = omega arith in
    rw fits (bit_or-add 16 16 src.port dst.port q p)

-- An end with an IPv4 address, as the program's packets have.
pub record IsV4 (e : AddrPort) (bytes : Bytes) : Type 0 where
  pub is_v4 : e.addr ≡ ip4 bytes
  pub size : length bytes ≡ 4
  pub small : AreBytes bytes
  pub port_lt : e.port < 2 ^ 16

abbrev flow_words : AddrPort → Bytes → AddrPort → Bytes → Words
flow_words src s dst d = record {
  a = be_uint32 s;
  b = be_uint32 d;
  c = src.port * 2 ^ 16 + dst.port;
}

module _ {src dst : AddrPort} {s d : Bytes} (vs : IsV4 src s) (vd : IsV4 dst d) where
  flow_words-IsWords : IsWords (flow_words src s dst d)
  flow_words-IsWords = record {
    a_lt = be_uint32-lt s vs.small;
    b_lt = be_uint32-lt d vd.small;
    c_lt = omega (arith, vs.port_lt, vd.port_lt);
  }

  pub net4_words_lem : net4_words src dst ≡ some (flow_words src s dst d)
  unfolding net4_words
  net4_words_lem = rw (ports_lem src dst vs.port_lt vd.port_lt) (simp (vs.is_v4, vd.is_v4))

ends_eq :
    {e e' : AddrPort} {b b' : Bytes}
    → IsV4 e b
    → IsV4 e' b'
    → be_uint32 b ≡ be_uint32 b'
    → e.port ≡ e'.port
    → e ≡ e'
ends_eq {b} {b'} v v' word port =
    let same : b ≡ b' =
      sym (word_bytes-be_uint32 b v.size v.small)
      ∙ (ap word_bytes word ∙ word_bytes-be_uint32 b' v'.size v'.small) in
    ground (arith, v.is_v4, v'.is_v4, same, port)

-- Two IPv4 flows whose three words reach the same state of `jHashMix` have the same source, the
-- same destination and the same ports.
pub mix_flow-injective :
    {src dst src' dst' : AddrPort} {s d s' d' : Bytes} {m m' : Words}
    → IsV4 src s
    → IsV4 dst d
    → IsV4 src' s'
    → IsV4 dst' d'
    → net4_words src dst ≡ some m
    → net4_words src' dst' ≡ some m'
    → mix m ≡ mix m'
    → (src ≡ src') × (dst ≡ dst')
mix_flow-injective {src} {dst} {src'} {dst'} {s} {d} {s'} {d'} {m} {m'} vs vd vs' vd' em em' e =
    let first : flow_words src s dst d ≡ m = cc (net4_words_lem vs vd, em) in
    let second : flow_words src' s' dst' d' ≡ m' = cc (net4_words_lem vs' vd', em') in
    let words =
      mix-injective (flow_words-IsWords vs vd) (flow_words-IsWords vs' vd')
        (ap mix first ∙ (e ∙ ap mix (sym second))) in
    let tags = ap (λ (n : Words). n.c) words in
    (
      ends_eq vs vs' (ap (λ (n : Words). n.a) words) (omega (arith, tags, vd.port_lt, vd'.port_lt)),
      ends_eq vd vd' (ap (λ (n : Words). n.b) words) (omega (arith, tags, vd.port_lt, vd'.port_lt)),
    )

-- An end of either family.
pub record IsEnd (e : AddrPort) : Type 0 where
  pub small : AreBytes (as16 e.addr)
  pub port_lt : e.port < 2 ^ 16

net6_hash_fn-lt : {src dst : AddrPort} → IsEnd src → IsEnd dst → net6_hash_fn src dst < u32_mod
unfolding net6_hash_fn net6_words
net6_hash_fn-lt {src} {dst} vs vd =
    let piece = λ (n k : ℕ). be_uint32-lt (take n (drop k (as16 dst.addr))) (
      All-take (λ b. b < 256) n (drop k (as16 dst.addr))
        (All-drop (λ b. b < 256) k (as16 dst.addr) vd.small)) in
    let tail = λ (e : AddrPort) (v : IsEnd e).
      be_uint32-lt (drop 12 (as16 e.addr)) (All-drop (λ b. b < 256) 12 (as16 e.addr) v.small) in
    j_hash_mix-lt _ _ _ (tail src vs)
      (j_hash_mix-lt _ _ _ (bit_xor-lt 32 _ _ (piece 4 0) (piece 4 4)) (piece 4 8) (tail dst vd))
      (omega (arith, ports_lem src dst vs.port_lt vd.port_lt, vs.port_lt, vd.port_lt))

net4_hash_fn-lt :
    {src dst : AddrPort} {s d : Bytes}
    → IsV4 src s
    → IsV4 dst d
    → (h : ℕ) × (net4_hash_fn src dst ≡ some h) × (h < u32_mod)
unfolding net4_hash_fn
net4_hash_fn-lt {src} {dst} {s} {d} vs vd =
    let w = flow_words-IsWords vs vd in
    (_, rw (net4_words_lem vs vd), j_hash_mix-lt _ _ _ w.a_lt w.b_lt w.c_lt)

-- `NetHash` returns, without the panic of `As4`, a 32-bit word: for the IPv4 network if both ends
-- have IPv4 addresses, and for any other network whatever the family. It is 0 for a network that is
-- neither of the two.
pub net_hash_lem :
    (ipv4 ipv6 network : ℕ) {src dst : AddrPort} {s d : Bytes}
    → IsEnd src
    → IsEnd dst
    → ((network ≡ ipv4) → IsV4 src s × IsV4 dst d)
    → (h : ℕ) × (net_hash ipv4 ipv6 network src dst ≡ some h)
      × (h < u32_mod)
      × (network ≢ ipv4 → network ≢ ipv6 → h ≡ 0)
unfolding net_hash
net_hash_lem ipv4 ipv6 network {src} {dst} vs vd v4 = elim (Bool-cases (network == ipv4)) [
  | inl is4 ↦
      let e = (==_iff network ipv4).0 is4 in
      let (h, got, lt) = net4_hash_fn-lt (v4 e).0 (v4 e).1 in
      rw is4 (h, got, lt, λ ne _. absurd (ne e))
  | inr not4 ↦ rw not4 (elim (Bool-cases (network == ipv6)) [
    | inl is6 ↦
        let e = (==_iff network ipv6).0 is6 in
        rw is6 (net6_hash_fn src dst, refl, net6_hash_fn-lt vs vd, λ _ ne. absurd (ne e))
    | inr not6 ↦ rw not6 (0, refl, omega arith, λ _ _. refl)
  ])
]
