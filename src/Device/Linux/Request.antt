-- ===== src/Device/Linux/Request.antt =====
-- The bytes of a request.
use net_hive.Prelude.Int.{ℤ, pos, negsuc}
use net_hive.Device.Linux.{
  if_name_size, if_req_size, if_req, put_at, to_uint32, uint32_bytes, int32, get_int32, with_flag,
  flags_req, mtu_req, cut_name,
}
use net_hive.Prelude.{
  ℕ, zero, suc, ◌+◌, ◌-◌, ◌*◌, ◌/◌, ◌%◌, ◌^◌, ◌≤◌, ◌<◌, ◌≡◌, refl, ap, subst, ◌∙◌, ◌≢◌, inl, inr,
  Bool, true, false, List, [], ◌∷◌, ◌++◌, arith, ltb, ltb→lt, lt→ltb, if◌then◌else◌, Bytes,
  Bool-cases, length, take, drop, replicate, length-append, length-take, length-drop,
  length-replicate, take-append, drop-append, All,
}

cut_name-append : (name rest : Bytes) → All (λ b. b ≢ 0) name → cut_name (name ++ 0 ∷ rest) ≡ name
unfolding cut_name
cut_name-append [] rest h = refl
cut_name-append (b ∷ bs) rest h = ground (arith, cut_name-append bs rest h.1, h.0)

take_all {ℓ} : {A : Type ℓ} (n : ℕ) (xs : List A) → length xs ≤ n → take n xs ≡ xs
take_all zero [] h = refl
take_all (suc n) [] h = refl
take_all zero (x ∷ xs) h = absurd (omega arith)
take_all (suc n) (x ∷ xs) h = ap (λ ys. x ∷ ys) (take_all n xs (omega arith))

-- The name of a device that a request carries is the one that `getNameFromSys` finds in its bytes,
-- if it is shorter than the request and has no NUL.
pub cut_name-if_req :
    (name : Bytes)
    → length name < if_req_size
    → All (λ b. b ≢ 0) name
    → cut_name (if_req name) ≡ name
unfolding if_req
cut_name-if_req name small h =
    let (k, e) : (k : ℕ) × (if_req_size - length name ≡ suc k) =
      (if_req_size - length name - 1, omega arith) in
    rw (e, take_all if_req_size name (omega arith)) (cut_name-append name (replicate k 0) h)

-- The numbers of an `int32`.
abbrev pub IsInt32 : ℤ → Type 0
IsInt32 (pos n) = n < 2 ^ 31
IsInt32 (negsuc n) = n < 2 ^ 31

uint32_digits :
    (n : ℕ)
    → n < 2 ^ 32
    → n % 256 + n / 2 ^ 8 % 256 * 2 ^ 8 + n / 2 ^ 16 % 256 * 2 ^ 16 + n / 2 ^ 24 % 256 * 2 ^ 24 ≡ n
uint32_digits n h = omega arith

int32-uint32_bytes :
    (n : ℤ) (rest : Bytes) → IsInt32 n → int32 (uint32_bytes (to_uint32 n) ++ rest) ≡ n
unfolding int32 uint32_bytes to_uint32
int32-uint32_bytes (pos n) rest h =
    let same : n % 2 ^ 32 ≡ n = omega arith in
    rw (same, uint32_digits n (omega arith)) (rw (lt→ltb n (2 ^ 31) h) refl)
int32-uint32_bytes (negsuc n) rest h =
    let same : 2 ^ 32 - 1 - n % 2 ^ 32 ≡ 2 ^ 32 - 1 - n = omega arith in
    rw (same, uint32_digits (2 ^ 32 - 1 - n) (omega arith))
      (elim (Bool-cases (ltb (2 ^ 32 - 1 - n) (2 ^ 31))) [
        | inl small ↦ absurd (omega (arith, ltb→lt (2 ^ 32 - 1 - n) (2 ^ 31) small))
        | inr large ↦ rw large (ap negsuc (omega arith))
      ])

length-if_req : (name : Bytes) → length (if_req name) ≡ if_req_size
unfolding if_req
length-if_req name = omega (
  arith,
  length-append (take if_req_size name) (replicate (if_req_size - length name) 0),
  length-take if_req_size name,
  length-replicate {A = ℕ} (if_req_size - length name) 0,
)

length-16 : (name : Bytes) → length (take if_name_size (if_req name)) ≡ if_name_size
length-16 name = omega (arith, length-take if_name_size (if_req name), length-if_req name)

drop_at : (k : ℕ) (xs ys : Bytes) → length xs ≡ k → drop k (xs ++ ys) ≡ ys
drop_at k xs ys h = subst (λ k. drop k (xs ++ ys) ≡ ys) h (drop-append xs ys)

take_at : (k : ℕ) (xs ys : Bytes) → length xs ≡ k → take k (xs ++ ys) ≡ xs
take_at k xs ys h = subst (λ k. take k (xs ++ ys) ≡ xs) h (take-append xs ys)

-- The request of `setMTU` for a name and a number of 32 bits keeps the name's bytes, is as long as
-- before, and has that number where `getMTUFromSys` reads it.
pub mtu_req_lem :
    (n : ℤ) (name : Bytes)
    → IsInt32 n
    → (get_int32 (mtu_req n name) ≡ n)
      × (take if_name_size (mtu_req n name) ≡ take if_name_size (if_req name))
      × (length (mtu_req n name) ≡ if_req_size)
unfolding get_int32 mtu_req put_at uint32_bytes
mtu_req_lem n name h =
    let ifr = if_req name in
    let bs = uint32_bytes (to_uint32 n) in
    let rest = drop (if_name_size + 4) ifr in
    (
      ap int32 (drop_at if_name_size (take if_name_size ifr) (bs ++ rest) (length-16 name))
          ∙ int32-uint32_bytes n rest h,
      take_at if_name_size (take if_name_size ifr) (bs ++ rest) (length-16 name),
      omega (
        arith,
        length-append (take if_name_size ifr) (bs ++ rest),
        length-16 name,
        length-drop (if_name_size + 4) ifr,
        length-if_req name,
      ),
    )

zeros : (j k : ℕ) → j ≡ k → replicate {A = ℕ} j 0 ≡ replicate k 0
zeros j k e = ap (λ j. replicate {A = ℕ} j 0) e

drop-replicate : (k m : ℕ) → drop k (replicate m 0) ≡ replicate {A = ℕ} (m - k) 0
drop-replicate zero m = zeros m (m - 0) (omega arith)
drop-replicate (suc k) zero = zeros 0 (0 - suc k) (omega arith)
drop-replicate (suc k) (suc m) = drop-replicate k m ∙ zeros (m - k) (suc m - suc k) (omega arith)

drop-padded :
    (k m : ℕ) (name : Bytes)
    → length name ≤ k
    → drop k (name ++ replicate m 0) ≡ replicate (m - (k - length name)) 0
drop-padded k m [] h = drop-replicate k m ∙ zeros (m - k) (m - (k - 0)) (omega arith)
drop-padded zero m (b ∷ bs) h = absurd (omega arith)
drop-padded (suc k) m (b ∷ bs) h =
    drop-padded k m bs (omega arith)
    ∙ zeros (m - (k - length bs)) (m - (suc k - suc (length bs))) (omega arith)

drop-if_req :
    (name : Bytes) → length name ≤ if_name_size → drop if_name_size (if_req name) ≡ replicate 24 0
unfolding if_req
drop-if_req name h =
    let e : if_req_size - length name - (if_name_size - length name) ≡ 24 = omega arith in
    rw (take_all if_req_size name (omega arith)) (
      drop-padded if_name_size (if_req_size - length name) name h
      ∙ zeros (if_req_size - length name - (if_name_size - length name)) 24 e)

with_flag-replicate :
    (up : Bool) → with_flag up (replicate 24 0) ≡ (if up then 1 else 0) ∷ replicate 23 0
unfolding with_flag
with_flag-replicate true = refl
with_flag-replicate false = refl

-- For a name that leaves room for a NUL, the flags in the request of `changeState` are `IFF_UP`
-- alone to bring the device up, and none to take it down, whatever flags the device has; the bytes
-- of the name stay.
pub flags_req_lem :
    (up : Bool) (name : Bytes)
    → length name < if_name_size
    → (take if_name_size (flags_req up name) ≡ take if_name_size (if_req name))
      × (drop if_name_size (flags_req up name) ≡ (if up then 1 else 0) ∷ replicate 23 0)
unfolding flags_req
flags_req_lem up name h =
    let ifr = if_req name in
    (
      take_at if_name_size (take if_name_size ifr) (with_flag up (drop if_name_size ifr))
          (length-16 name),
      drop_at if_name_size (take if_name_size ifr) (with_flag up (drop if_name_size ifr))
            (length-16 name)
          ∙ ap (with_flag up) (drop-if_req name (omega arith))
          ∙ with_flag-replicate up,
    )
