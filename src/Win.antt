-- ===== src/Win.antt =====
-- pkgs/win: what the program uses of the Windows network API (util.go, sockaddr.go, netioapi.go,
-- interface.go, nldef.go). The numbers of a structure are laid out as on a little-endian machine.
pub mod SockAddr
pub mod Calls
mod Tests
use net_hive.Netip.{Addr, zero_addr, ip4, ip6, AddrPort, Prefix}
use Prim.Native.Nat.{bit_or}
use net_hive.Prelude.{
  ℕ, ◌+◌, ◌-◌, ◌*◌, ◌/◌, ◌%◌, ◌^◌, ap, Bool, false, ◌&&◌, Option, none, some, List, [], ◌∷◌, ◌++◌,
  ltb, leb, ◌==◌, if◌then◌else◌, Bytes, drop, replicate, Result, ok, err,
}

-- `uint16` values: `(i>>8)&0xFF | (i&0xFF)<<8`.
unfoldable pub be2se : ℕ → ℕ
be2se i = bit_or (i / 2 ^ 8 % 256) (i % 256 * 2 ^ 8)

unfoldable pub se2be : ℕ → ℕ
se2be i = bit_or (i / 2 ^ 8 % 256) (i % 256 * 2 ^ 8)

unfoldable pub uint16_bytes : ℕ → Bytes
uint16_bytes n = n % 256 ∷ n / 2 ^ 8 % 256 ∷ []

unfoldable pub uint32_bytes : ℕ → Bytes
uint32_bytes n = n % 256 ∷ n / 2 ^ 8 % 256 ∷ n / 2 ^ 16 % 256 ∷ n / 2 ^ 24 % 256 ∷ []

-- `strconv.ParseUint(z, 10, 32)`; `none` for its errors.
unfoldable pub add_digit : Option ℕ → ℕ → Option ℕ
add_digit none c = none
add_digit (some n) c =
    if leb b'0' c && leb c b'9' && ltb (n * 10 + (c - b'0')) (2 ^ 32)
    then some (n * 10 + (c - b'0'))
    else none

unfoldable pub add_digits : Option ℕ → Bytes → Option ℕ
add_digits n [] = n
add_digits n (c ∷ cs) = add_digits (add_digit n c) cs

-- The scope of a zone: 0 if there is none or if it is no number.
unfoldable pub scope_id : Bytes → ℕ
scope_id [] = 0
scope_id (c ∷ cs) = elim (add_digits (some 0) (c ∷ cs)) [ some n ↦ n | none ↦ 0 ]

-- `SetAddrPort`: the 28 bytes of the `SockAddrInet` afterwards; `none` is
-- `ERROR_INVALID_PARAMETER`. An IPv4 address does not touch what lies behind the 16 bytes that it
-- needs.
unfoldable pub set_addr_port : Bytes → AddrPort → Option Bytes
set_addr_port s ap = elim ap.addr [
  | zero_addr ↦ none
  | ip4 b ↦
      some (uint16_bytes 2 ++ (uint16_bytes (be2se ap.port) ++ (b ++ (replicate 8 0 ++ drop 16 s))))
  | ip6 b z ↦ some (
      uint16_bytes 23
      ++ (uint16_bytes (be2se ap.port)
          ++ (replicate 4 0 ++ (b ++ (uint32_bytes (scope_id z) ++ drop 28 s)))))
]

-- `NldsPreferred`
abbrev pub nlds_preferred : ℕ
nlds_preferred = 4

-- `MibUnicastIPAddressRow`
pub record MibUnicastIpAddressRow : Type 0 where
  pub address : Bytes
  pub interface_luid : ℕ
  pub interface_index : ℕ
  pub prefix_origin : ℕ
  pub suffix_origin : ℕ
  pub valid_lifetime : ℕ
  pub preferred_lifetime : ℕ
  pub on_link_prefix_length : ℕ
  pub skip_as_source : Bool
  pub dad_state : ℕ
  pub scope_id : ℕ
  pub creation_time_stamp : ℕ

-- `&MibUnicastIPAddressRow{}`
abbrev pub zero_row : MibUnicastIpAddressRow
zero_row = record {
  address = replicate 28 0;
  interface_luid = 0;
  interface_index = 0;
  prefix_origin = 0;
  suffix_origin = 0;
  valid_lifetime = 0;
  preferred_lifetime = 0;
  on_link_prefix_length = 0;
  skip_as_source = false;
  dad_state = 0;
  scope_id = 0;
  creation_time_stamp = 0;
}

-- A word of a call: a number, or the address of the row or the table in question.
pub data Word : Type 0 where
  number : ℕ → Word
  row_address table_address : Word

-- What the functions of iphlpapi.dll do, at the words of a call: the error, or the row, or the rows
-- of the table, that are then in the program's memory. Nothing is supposed of them: `Calls` has
-- what the words of the program's calls come to. A call that faults is not modelled.
pub record IpHelper : Type 1 where
  pub World : Type 0
  pub Error : Type 0
  pub initialize_entry :
      List Word → MibUnicastIpAddressRow → World → Result Error MibUnicastIpAddressRow × World
  pub invalid_parameter : Error
  pub get_table : List Word → World → Result Error (List MibUnicastIpAddressRow) × World
  pub delete_entry : List Word → MibUnicastIpAddressRow → World → World
  pub free_table : List Word → World → World

module _ (H : IpHelper) where
  open H use {World, Error}

  -- The row that `AddIPAddress` fills in, which it hands to nobody.
  unfoldable pub fill_row :
      ℕ → Prefix → MibUnicastIpAddressRow → Result Error MibUnicastIpAddressRow
  fill_row i address row =
      elim (set_addr_port row.address (record { addr = address.addr; port = 0 })) [
        | none ↦ err H.invalid_parameter
        | some a ↦ ok (record row {
          address = a;
          interface_luid = i;
          valid_lifetime = 0xffff_ffff;
          preferred_lifetime = 0xffff_ffff;
          on_link_prefix_length = address.bits % 256;
          dad_state = nlds_preferred;
        })
      ]

  unfoldable pub fill_initialized :
      ℕ
      → Prefix
      → Result Error MibUnicastIpAddressRow × World
      → Result Error MibUnicastIpAddressRow × World
  fill_initialized i address (err x, w) = (err x, w)
  fill_initialized i address (ok row, w) = (fill_row i address row, w)

  -- The call of `Init` passes the number of its parameters before the address of the row.
  unfoldable pub add_ip_address : ℕ → Prefix → World → Result Error MibUnicastIpAddressRow × World
  add_ip_address i address w =
      fill_initialized i address (H.initialize_entry (number 1 ∷ row_address ∷ []) zero_row w)

  -- The loop of `FlushAddress`, which drops the errors of the deletions.
  unfoldable pub flush_rows : ℕ → List MibUnicastIpAddressRow → World → World
  flush_rows i [] w = w
  flush_rows i (row ∷ rows) w =
      flush_rows i rows
        (if row.interface_luid == i then H.delete_entry (number 1 ∷ row_address ∷ []) row w else w)

  unfoldable pub flush_table :
      ℕ → Result Error (List MibUnicastIpAddressRow) × World → Result Error (Unit {0}) × World
  flush_table i (err x, w) = (err x, w)
  flush_table i (ok rows, w) =
      (ok tt, H.free_table (number 1 ∷ table_address ∷ []) (flush_rows i rows w))

  unfoldable pub flush_address : ℕ → World → Result Error (Unit {0}) × World
  flush_address i w = flush_table i (H.get_table (number 2 ∷ number 0 ∷ table_address ∷ []) w)
