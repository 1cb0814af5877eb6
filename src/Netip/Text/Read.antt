-- ===== src/Netip/Text/Read.antt =====
-- A prefix is read back from its text.
use net_hive.Prelude.{
  ℕ, ◌+◌, ◌-◌, ◌*◌, ◌/◌, ◌%◌, ◌≤◌, ◌<◌, ◌≡◌, sym, ap, ◌∙◌, ◌≢◌, inl, inr, true, Option, none, some,
  List, [], ◌∷◌, map, arith, leb, Bytes, Bool-cases, All,
}
use net_hive.Netip.{ip4}
use net_hive.Netip.Text.{append_decimal, join, text4, addr_text, prefix_text}
use net_hive.Netip.Text.Split.{split, Free, Free-append, split-Free, split-append}

-- The value of decimal digits.
unfoldable pub decimal : ℕ → Bytes → ℕ
decimal n [] = n
decimal n (c ∷ cs) = decimal (n * 10 + (c - b'0')) cs

unfoldable pub read_parts : List Bytes → Option (Bytes × ℕ)
read_parts (a ∷ k ∷ []) = some (map (decimal 0) (split b'.' a), decimal 0 k)
read_parts _ = none

-- The bytes and the bits in a text like 10.0.0.1/24.
unfoldable pub read_prefix : Bytes → Option (Bytes × ℕ)
read_prefix t = read_parts (split b'/' t)

decimal-append_decimal : (n : ℕ) → n < 1000 → decimal 0 (append_decimal n) ≡ n
unfolding decimal append_decimal
decimal-append_decimal n h = elim (Bool-cases (leb 100 n)) [
  | inl c ↦ let d : leb 10 n ≡ true = ground arith in rw (c, d) (omega arith)
  | inr c ↦
      let small : n < 100 = ground arith in
      elim (Bool-cases (leb 10 n)) [
        | inl d ↦ rw (c, d) (omega arith)
        | inr d ↦ let digit : n < 10 = ground arith in rw (c, d) (omega arith)
      ]
]

-- The digits of a number are no other character.
append_decimal-Free : (n sep : ℕ) → sep < b'0' → Free sep (append_decimal n)
unfolding append_decimal
append_decimal-Free n sep h = elim (Bool-cases (leb 100 n)) [
  | inl c ↦ elim (Bool-cases (leb 10 n)) [
    | inl d ↦
        rw (c, d) (digit sep (n / 100) h, (digit sep (n / 10 % 10) h, (digit sep (n % 10) h, tt)))
    | inr d ↦ rw (c, d) (digit sep (n / 100) h, (digit sep (n % 10) h, tt))
  ]
  | inr c ↦ elim (Bool-cases (leb 10 n)) [
    | inl d ↦ rw (c, d) (digit sep (n / 10 % 10) h, (digit sep (n % 10) h, tt))
    | inr d ↦ rw (c, d) (digit sep (n % 10) h, tt)
  ]
]
  where
    digit : (sep k : ℕ) → sep < b'0' → b'0' + k ≢ sep
    digit sep k h e = omega (arith, e, h)

-- The text of four bytes has no other character below the digits than the dots.
text4-Free : (a b c d sep : ℕ) → sep < b'0' → sep ≢ b'.' → Free sep (text4 (a ∷ b ∷ c ∷ d ∷ []))
unfolding text4 join
text4-Free a b c d sep h ne = Free-append sep (append_decimal a) _ (append_decimal-Free a sep h) (
  (λ e. ne (sym e)),
  Free-append sep (append_decimal b) _ (append_decimal-Free b sep h) (
    (λ e. ne (sym e)),
    Free-append sep (append_decimal c) _ (append_decimal-Free c sep h)
        ((λ e. ne (sym e)), append_decimal-Free d sep h),
  ),
)

pub prefix_text-Free :
    (a b c d bits sep : ℕ)
    → sep < b'0'
    → sep ≢ b'.'
    → sep ≢ b'/'
    → Free sep (prefix_text (record { addr = ip4 (a ∷ b ∷ c ∷ d ∷ []); bits = bits }))
unfolding prefix_text addr_text
prefix_text-Free a b c d bits sep h dot slash =
    Free-append sep (text4 (a ∷ b ∷ c ∷ d ∷ [])) _ (text4-Free a b c d sep h dot)
      ((λ e. slash (sym e)), append_decimal-Free bits sep h)

split-text4 :
    (a b c d : ℕ)
    → split b'.' (text4 (a ∷ b ∷ c ∷ d ∷ []))
      ≡ append_decimal a ∷ append_decimal b ∷ append_decimal c ∷ append_decimal d ∷ []
unfolding text4 join
split-text4 a b c d =
    split-append b'.' (append_decimal a) _ (free a)
    ∙ ap (λ l. append_decimal a ∷ l)
        (split-append b'.' (append_decimal b) _ (free b)
          ∙ ap (λ l. append_decimal b ∷ l)
              (split-append b'.' (append_decimal c) _ (free c)
                ∙ ap (λ l. append_decimal c ∷ l) (split-Free b'.' (append_decimal d) (free d))))
  where
    free : (n : ℕ) → Free b'.' (append_decimal n)
    free n = append_decimal-Free n b'.' (omega arith)

-- The text of an IPv4 prefix says which prefix it is.
pub read_prefix-prefix_text :
    (a b c d bits : ℕ)
    → All (λ n. n < 256) (a ∷ b ∷ c ∷ d ∷ [])
    → bits ≤ 32
    → read_prefix (prefix_text (record { addr = ip4 (a ∷ b ∷ c ∷ d ∷ []); bits = bits }))
      ≡ some (a ∷ b ∷ c ∷ d ∷ [], bits)
unfolding read_prefix read_parts prefix_text addr_text
read_prefix-prefix_text a b c d bits (ha, (hb, (hc, (hd, _)))) h =
    let small : (n : ℕ) → n < 256 → decimal 0 (append_decimal n) ≡ n =
      λ n lt. decimal-append_decimal n (omega arith) in
    let last : decimal 0 (append_decimal bits) ≡ bits = decimal-append_decimal bits (omega arith) in
    ap read_parts (
      split-append b'/' (text4 (a ∷ b ∷ c ∷ d ∷ [])) (append_decimal bits)
        (text4-Free a b c d b'/' (omega arith) (λ e. omega (arith, e)))
      ∙ ap (λ l. text4 (a ∷ b ∷ c ∷ d ∷ []) ∷ l)
          (split-Free b'/' (append_decimal bits) (append_decimal-Free bits b'/' (omega arith))))
    ∙ ap (λ l. some (map (decimal 0) l, decimal 0 (append_decimal bits))) (split-text4 a b c d)
    ∙ (λ i. some (small a ha i ∷ small b hb i ∷ small c hc i ∷ small d hd i ∷ [], last i))
