-- ===== src/Netip/Text.antt =====
-- The text of addresses and prefixes in `net/netip` of Go's standard library.
pub mod Split
pub mod Read
use net_hive.Prelude.{
  ℕ, ◌+◌, ◌-◌, ◌*◌, ◌/◌, ◌%◌, ◌&&◌, List, [], ◌∷◌, ◌++◌, map, ltb, leb, ◌==◌, if◌then◌else◌, Bytes,
  bytes_eq, take, drop,
}
use net_hive.Netip.{Addr, zero_addr, ip4, ip6, is_valid, Prefix, mapped_head}

-- `appendDecimal`, on numbers below 1000.
unfoldable pub append_decimal : ℕ → Bytes
append_decimal n =
    (if leb 100 n then (b'0' + n / 100) ∷ [] else [])
    ++ ((if leb 10 n then (b'0' + n / 10 % 10) ∷ [] else []) ++ (b'0' + n % 10) ∷ [])

unfoldable pub hex_digit : ℕ → ℕ
hex_digit n = if ltb n 10 then b'0' + n else b'a' + (n - 10)

-- `appendHex`, on numbers below 2^16.
unfoldable pub append_hex : ℕ → Bytes
append_hex n =
    (if leb 0x1000 n then hex_digit (n / 0x1000) ∷ [] else [])
    ++ ((if leb 0x100 n then hex_digit (n / 0x100 % 16) ∷ [] else [])
        ++ ((if leb 0x10 n then hex_digit (n / 0x10 % 16) ∷ [] else []) ++ hex_digit (n % 16) ∷ []))

-- Texts with a character between any two.
unfoldable pub join : ℕ → List Bytes → Bytes
join sep [] = []
join sep (w ∷ []) = w
join sep (w ∷ v ∷ ws) = w ++ sep ∷ join sep (v ∷ ws)

-- `string4`
unfoldable pub text4 : Bytes → Bytes
text4 b = join b'.' (map append_decimal b)

-- The eight numbers of an IPv6 address.
unfoldable pub groups : Bytes → List ℕ
groups (x ∷ y ∷ bs) = (x * 256 + y) ∷ groups bs
groups _ = []

unfoldable pub zeros : List ℕ → ℕ
zeros [] = 0
zeros (g ∷ gs) = if g == 0 then zeros gs + 1 else 0

-- The start and the length of the first of the longest runs of zeros, from the `i`th number on, if
-- one is longer than `best` and has at least two.
unfoldable pub zero_run : ℕ → ℕ × ℕ → List ℕ → ℕ × ℕ
zero_run i best [] = best
zero_run i best (g ∷ gs) =
    let l = zeros (g ∷ gs) in zero_run (i + 1) (if leb 2 l && ltb best.1 l then (i, l) else best) gs

-- `appendTo6`
unfoldable pub text6 : Bytes → Bytes
text6 b =
    let gs = groups b in
    let (start, len) = zero_run 0 (0, 0) gs in
    if len == 0
    then join b':' (map append_hex gs)
    else join b':' (map append_hex (take start gs))
      ++ (b':' ∷ b':' ∷ join b':' (map append_hex (drop (start + len) gs)))

abbrev pub with_zone : Bytes → Bytes
with_zone [] = []
with_zone (c ∷ cs) = b'%' ∷ c ∷ cs

-- "::ffff:"
abbrev pub mapped_text : Bytes
mapped_text = b':' ∷ b':' ∷ b'f' ∷ b'f' ∷ b'f' ∷ b'f' ∷ b':' ∷ []

-- "invalid IP"
abbrev pub invalid_ip : Bytes
invalid_ip = b'i' ∷ b'n' ∷ b'v' ∷ b'a' ∷ b'l' ∷ b'i' ∷ b'd' ∷ 32 ∷ b'I' ∷ b'P' ∷ []

-- "invalid Prefix"
abbrev pub invalid_prefix : Bytes
invalid_prefix =
    b'i' ∷ b'n' ∷ b'v' ∷ b'a' ∷ b'l' ∷ b'i' ∷ b'd' ∷ 32 ∷ b'P' ∷ b'r' ∷ b'e' ∷ b'f' ∷ b'i' ∷ b'x'
    ∷ []

-- `Addr.String`
unfoldable pub addr_text : Addr → Bytes
addr_text zero_addr = invalid_ip
addr_text (ip4 b) = text4 b
addr_text (ip6 b z) =
    (if bytes_eq (take 12 b) mapped_head then mapped_text ++ text4 (drop 12 b) else text6 b)
    ++ with_zone z

-- `Prefix.String`
unfoldable pub prefix_text : Prefix → Bytes
prefix_text p =
    if is_valid p.addr then addr_text p.addr ++ b'/' ∷ append_decimal p.bits else invalid_prefix
