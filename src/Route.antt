-- ===== src/Route.antt =====
-- core/route/route_linux.go: the entry of the routing table that `Add` and `Del` hand to the
-- kernel.
pub mod Mask
mod Tests
use net_hive.Netip.{Addr, zero_addr, ip4, ip6, Prefix, as4}
use net_hive.Prelude.{
  ℕ, zero, suc, ◌+◌, ◌-◌, ◌^◌, Option, none, some, [], ◌∷◌, ◌++◌, leb, if◌then◌else◌, Bytes, length,
  take, replicate, ◌>>=◌,
}

-- `RtEntry`, without its fields that stay zero. `dst` and `gen_mask` are the addresses of two
-- `RawSockaddrInet4`, whose family is `AF_INET`, and `dev` is the name that `Dev` points to.
pub record RtEntry : Type 0 where
  pub dst : Bytes
  pub gen_mask : Bytes
  pub flags : ℕ
  pub dev : Option Bytes

-- The socket and `ioctl`; `none` is `nil`.
pub record RouteCalls (E : Type 0) : Type 0 where
  pub socket : Option E
  pub siocaddrt : RtEntry → Option E
  pub siocdelrt : RtEntry → Option E

pub data RouteError (E : Type 0) : Type 0 where
  system : E → RouteError E
  parse_error : RouteError E

-- A byte of `net.CIDRMask`, at the number of ones that are left.
unfoldable pub mask_byte : ℕ → ℕ
mask_byte n = 256 - 2 ^ (8 - n)

unfoldable pub cidr_mask : (size bits : ℕ) → Bytes
cidr_mask zero bits = []
cidr_mask (suc size) bits = mask_byte bits ∷ cidr_mask size (bits - 8)

-- `net.ParseCIDR` of a prefix in text form, and its mask; `none` is its error on an invalid prefix.
unfoldable pub parse_mask : Prefix → Option Bytes
parse_mask p = elim p.addr [
  | zero_addr ↦ none
  | ip4 b ↦ if leb p.bits 32 then some (cidr_mask 4 p.bits) else none
  | ip6 b z ↦ if leb p.bits 128 then some (cidr_mask 16 p.bits) else none
]

-- `RTF_UP`
abbrev pub rtf_up : ℕ
rtf_up = 1

-- The entry for a mask. `none` is the panic of `As4`, on an IPv6 address.
unfoldable pub entry : ℕ → Option Bytes → Prefix → Bytes → Option RtEntry
entry flags dev target mask = do
  dst ← as4 target.addr
  some (record { dst = dst; gen_mask = take 4 mask; flags = flags; dev = dev })

-- The name of the device, in `IFNAMSIZ` bytes.
unfoldable pub dev_name : Bytes → Bytes
dev_name dev = take 16 dev ++ replicate (16 - length dev) 0

abbrev pub system_or_nil : {E : Type 0} → Option E → Option (RouteError E)
system_or_nil none = none
system_or_nil (some x) = some (system x)

module _ {E : Type 0} (S : RouteCalls E) where
  -- After `ParseCIDR`.
  unfoldable pub change_route :
      (RtEntry → Option E)
      → ℕ
      → Option Bytes
      → Prefix
      → Option Bytes
      → Option (Option (RouteError E))
  change_route call flags dev target none = some (some parse_error)
  change_route call flags dev target (some mask) = do
    rt ← entry flags dev target mask
    some (system_or_nil (call rt))

  -- `Add` and `Del`: the error, or `none` for a panic.
  unfoldable pub add : Bytes → Prefix → Option (Option (RouteError E))
  add dev target = elim S.socket [
    | some x ↦ some (some (system x))
    | none ↦ change_route S.siocaddrt rtf_up (some (dev_name dev)) target (parse_mask target)
  ]

  unfoldable pub del : Prefix → Option (Option (RouteError E))
  del target = elim S.socket [
    | some x ↦ some (some (system x))
    | none ↦ change_route S.siocdelrt 0 none target (parse_mask target)
  ]
