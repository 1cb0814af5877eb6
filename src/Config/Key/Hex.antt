-- ===== src/Config/Key/Hex.antt =====
-- `encoding/hex` of Go's standard library.
use net_hive.Prelude.{
  ℕ, ◌+◌, ◌-◌, ◌*◌, ◌/◌, ◌%◌, ◌<◌, ◌≡◌, refl, ◌∙◌, ◌&&◌, Option, none, some, [], ◌∷◌, arith, ltb,
  leb, if◌then◌else◌, Bytes, All, Result, ok, err,
}

pub data HexError : Type 0 where
  invalid_byte : ℕ → HexError
  odd_length : HexError

-- The digit of a nibble, in lower case.
hex_digit : ℕ → ℕ
hex_digit n = if ltb n 10 then b'0' + n else b'a' + (n - 10)

-- `fromHexChar`: both cases.
hex_value : ℕ → Option ℕ
hex_value c =
    if leb b'0' c && leb c b'9'
    then some (c - b'0')
    else if leb b'a' c && leb c b'f'
    then some (c - b'a' + 10)
    else if leb b'A' c && leb c b'F'
    then some (c - b'A' + 10)
    else none

pub hex_encode : Bytes → Bytes
hex_encode [] = []
hex_encode (b ∷ bs) = hex_digit (b / 16) ∷ hex_digit (b % 16) ∷ hex_encode bs

-- One pair of digits, before the rest.
decode_pair : ℕ → ℕ → Result HexError Bytes → Result HexError Bytes
decode_pair c d rest = elim (hex_value c) [
  | none ↦ err (invalid_byte c)
  | some h ↦ elim (hex_value d) [
    | none ↦ err (invalid_byte d)
    | some l ↦ elim rest [ err x ↦ err x | ok bs ↦ ok ((h * 16 + l) ∷ bs) ]
  ]
]

-- `DecodeString`; a digit that is left over is reported as such if it is one.
pub hex_decode : Bytes → Result HexError Bytes
hex_decode [] = ok []
hex_decode (c ∷ []) = elim (hex_value c) [ none ↦ err (invalid_byte c) | some h ↦ err odd_length ]
hex_decode (c ∷ d ∷ cs) = decode_pair c d (hex_decode cs)

-- A nibble's digit is read back as the nibble.
hex_value-hex_digit : (n : ℕ) → n < 16 → hex_value (hex_digit n) ≡ some n
unfolding hex_value hex_digit
hex_value-hex_digit n h = ground arith

decode_pair-some :
    (c d h l : ℕ) (bs : Bytes)
    → hex_value c ≡ some h
    → hex_value d ≡ some l
    → decode_pair c d (ok bs) ≡ ok ((h * 16 + l) ∷ bs)
unfolding decode_pair
decode_pair-some c d h l bs e f = rw (e, f, decode_pair)

pub hex_decode-hex_encode :
    (bs : Bytes) → All (λ b. b < 256) bs → hex_decode (hex_encode bs) ≡ ok bs
unfolding hex_encode hex_decode
hex_decode-hex_encode [] h = refl
hex_decode-hex_encode (b ∷ bs) h =
    let byte : b / 16 * 16 + b % 16 ≡ b = omega arith in
    rw (hex_decode-hex_encode bs h.1) (
      decode_pair-some _ _ (b / 16) (b % 16) bs (hex_value-hex_digit (b / 16) (omega arith))
        (hex_value-hex_digit (b % 16) (omega arith))
      ∙ rw byte)
