-- ===== src/Device/Copy.antt =====
-- What `copy` of Go, and a `Read` of an open file, leave of the buffer that they fill.
use net_hive.Prelude.{
  ◌≤◌, ◌≡◌, refl, ap, [], ◌∷◌, ◌++◌, arith, Bytes, length, take, drop, length-append, length-take,
  length-drop,
}

-- `copy(dst, src)`: what `dst` holds afterwards.
unfoldable pub copy : Bytes → Bytes → Bytes
copy dst src = take (length dst) src ++ drop (length src) dst

pub length-copy : (dst src : Bytes) → length (copy dst src) ≡ length dst
unfolding copy
length-copy dst src = omega (
  arith,
  length-append (take (length dst) src) (drop (length src) dst),
  length-take (length dst) src,
  length-drop (length src) dst,
)

pub take-copy : (dst src : Bytes) → length src ≤ length dst → take (length src) (copy dst src) ≡ src
unfolding copy
take-copy dst [] h = refl
take-copy [] (b ∷ bs) h = absurd (omega arith)
take-copy (d ∷ ds) (b ∷ bs) h = ap (λ xs. b ∷ xs) (take-copy ds bs (omega arith))
