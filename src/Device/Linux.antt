-- ===== src/Device/Linux.antt =====
-- core/device/tun_linux.go: the TUN device of Linux, by the kernel calls that it makes. Numbers in
-- a request are laid out as on a little-endian machine.
pub mod Request
pub mod Files
pub mod Descriptors
pub mod Create
pub mod Methods
mod Tests
use net_hive.Prelude.Int.{ℤ, pos, negsuc}
use Prim.Native.Nat.{bit_or, bit_and}
use net_hive.Prelude.{
  ℕ, ◌+◌, ◌-◌, ◌*◌, ◌/◌, ◌%◌, ◌^◌, Bool, true, false, not, ◌&&◌, ◌||◌, [], ◌∷◌, ◌++◌, ltb, ◌==◌,
  if◌then◌else◌, Bytes, length, take, drop, replicate, Result, ok, err,
}

-- The requests of `ioctl` that the code makes.
pub data Call : Type 0 where
  siocsifflags siocgifmtu siocsifmtu siocgifindex tungetiff tunsetiff : Call

-- What the kernel and golang.org/x/sys do. Each call may fail; `open_files` counts the descriptors
-- that are open.
pub record Kernel : Type 1 where
  pub World : Type 0
  pub Error : Type 0
  pub open_files : World → ℕ
  -- `unix.Open` of the clone device, and `unix.Socket`.
  pub open_tun : World → Result Error ℕ × World
  pub socket : World → Result Error ℕ × World
  pub close : World → ℕ → World
  -- The call fails, or changes the bytes of its argument.
  pub ioctl : World → ℕ → Call → Bytes → Result Error Bytes × World
  pub set_nonblock : World → ℕ → Result Error (Unit {0}) × World
  -- `SyscallConn`, and then whether `Control` can use the file.
  pub syscall_conn : World → ℕ → Result Error (Unit {0})
  -- `unix.NewIfreq`, with the flags that `SetUint16` sets.
  pub new_ifreq : Bytes → Result Error Bytes

-- `IFNAMSIZ`, and the size of `ifReq`.
abbrev pub if_name_size : ℕ
if_name_size = 16

abbrev pub if_req_size : ℕ
if_req_size = 40

-- `var ifr ifReq; copy(ifr[:], name)`
unfoldable pub if_req : Bytes → Bytes
if_req name = take if_req_size name ++ replicate (if_req_size - length name) 0

-- The bytes of an argument from `IFNAMSIZ` on, with some of them replaced.
unfoldable pub put_at : Bytes → Bytes → Bytes
put_at ifr bs = take if_name_size ifr ++ (bs ++ drop (if_name_size + length bs) ifr)

-- `uint32(n)`, in four bytes.
unfoldable pub to_uint32 : ℤ → ℕ
to_uint32 (pos n) = n % 2 ^ 32
to_uint32 (negsuc n) = 2 ^ 32 - 1 - n % 2 ^ 32

unfoldable pub uint32_bytes : ℕ → Bytes
uint32_bytes n = n % 256 ∷ n / 2 ^ 8 % 256 ∷ n / 2 ^ 16 % 256 ∷ n / 2 ^ 24 % 256 ∷ []

unfoldable pub int32 : Bytes → ℤ
int32 (p ∷ q ∷ r ∷ s ∷ bs) =
    let n = p + q * 2 ^ 8 + r * 2 ^ 16 + s * 2 ^ 24 in
    if ltb n (2 ^ 31) then pos n else negsuc (2 ^ 32 - 1 - n)
int32 _ = pos 0

-- `*(*int32)(unsafe.Pointer(&ifr[unix.IFNAMSIZ]))`
unfoldable pub get_int32 : Bytes → ℤ
get_int32 ifr = int32 (drop if_name_size ifr)

-- `|= IFF_UP` or `&^= IFF_UP` on the flags. They are two bytes, and `IFF_UP` is 1.
unfoldable pub with_flag : Bool → Bytes → Bytes
with_flag up [] = []
with_flag true (b ∷ bs) = bit_or b 1 ∷ bs
with_flag false (b ∷ bs) = bit_and b 254 ∷ bs

unfoldable pub flags_req : Bool → Bytes → Bytes
flags_req up name =
    let ifr = if_req name in take if_name_size ifr ++ with_flag up (drop if_name_size ifr)

unfoldable pub mtu_req : ℤ → Bytes → Bytes
mtu_req n name = put_at (if_req name) (uint32_bytes (to_uint32 n))

-- The bytes before the first NUL, or all of them.
unfoldable pub cut_name : Bytes → Bytes
cut_name [] = []
cut_name (b ∷ bs) = let rest = cut_name bs in if b == 0 then [] else b ∷ rest

-- `tun`; `tun_file` is its descriptor.
pub record Tun : Type 0 where
  pub name : Bytes
  pub mtu : ℤ
  pub cache_time : ℕ
  pub index : ℤ
  pub tun_file : ℕ
  pub state : Bool

module _ (K : Kernel) where
  open K use {World, Error}

  -- `if err != nil { return … }`
  unfoldable pub and_then :
      {A B : Type 0}
      → Result Error A × World
      → (A → World → Result Error B × World)
      → Result Error B × World
  and_then (err x, w) f = (err x, w)
  and_then (ok a, w) f = f a w

  abbrev close_after : {A : Type 0} → ℕ → Result Error A × World → Result Error A × World
  close_after fd (r, w) = (r, K.close w fd)

  -- A socket that is closed again by `defer`.
  unfoldable pub with_socket :
      {A : Type 0} → (ℕ → World → Result Error A × World) → World → Result Error A × World
  with_socket body w = and_then (K.socket w) (λ fd w. close_after fd (body fd w))

  unfoldable pub change_state : Bool → Tun → World → Result Error Tun × World
  change_state state t w =
      if (t.state && state) || (not t.state && not state)
      then (ok t, w)
      else with_socket
          (λ fd w.
            and_then (K.ioctl w fd siocsifflags (flags_req state t.name))
              (λ _ w. (ok (record t { state = state }), w)))
          w

  -- `getNameFromSys` drops the error of its `ioctl`, whose argument then stays zero.
  abbrev control_name : Tun → Result Error Bytes × World → Result Error Tun × World
  control_name t (ok ifr, w) = (ok (record t { name = cut_name ifr }), w)
  control_name t (err x, w) = (ok (record t { name = cut_name (if_req []) }), w)

  unfoldable pub get_name_from_sys : Tun → World → Result Error Tun × World
  get_name_from_sys t w =
      and_then (K.syscall_conn w t.tun_file, w)
        (λ _ w. control_name t (K.ioctl w t.tun_file tungetiff (if_req [])))

  unfoldable pub get_mtu_from_sys : Bytes → World → Result Error ℤ × World
  get_mtu_from_sys name =
      with_socket (λ fd w.
        and_then (K.ioctl w fd siocgifmtu (if_req name)) (λ ifr w. (ok (get_int32 ifr), w)))

  unfoldable pub set_mtu : Bytes → ℤ → World → Result Error (Unit {0}) × World
  set_mtu name n =
      with_socket
        (λ fd w. and_then (K.ioctl w fd siocsifmtu (mtu_req n name)) (λ ifr w. (ok tt, w)))

  unfoldable pub get_if_index : Bytes → World → Result Error ℤ × World
  get_if_index name = with_socket (λ fd w.
      and_then (K.ioctl w fd siocgifindex (if_req name)) (λ ifr w. (ok (get_int32 ifr), w)))

  -- `MTU` and `Name` at a time: after `cacheTime`, which nothing renews, they ask the kernel.
  unfoldable pub tun_mtu : ℕ → Tun → World → Result Error ℤ × World
  tun_mtu now t w = if ltb t.cache_time now then get_mtu_from_sys t.name w else (ok t.mtu, w)

  unfoldable pub tun_name : ℕ → Tun → World → Result Error Tun × World
  tun_name now t w = if ltb t.cache_time now then get_name_from_sys t w else (ok t, w)

  -- Only this failure closes the file.
  abbrev nonblock_or_close : ℕ → Result Error (Unit {0}) × World → Result Error (Unit {0}) × World
  nonblock_or_close tfd (ok u, w) = (ok u, w)
  nonblock_or_close tfd (err x, w) = (err x, K.close w tfd)

  -- The part of `CreateTUN` after `os.NewFile`.
  unfoldable pub set_up : Tun → ℤ → World → Result Error Tun × World
  set_up d mtu w = and_then (get_name_from_sys d w) (λ d w.
      and_then (get_if_index d.name w) (λ index w. and_then (set_mtu d.name mtu w) (λ _ w.
        and_then (get_mtu_from_sys d.name w)
          (λ m w. (ok (record d { index = index; mtu = m }), w)))))

  abbrev new_tun : (now tfd : ℕ) → Tun
  new_tun now tfd = record {
    name = [];
    mtu = pos 0;
    cache_time = now;
    index = pos 0;
    tun_file = tfd;
    state = false;
  }

  unfoldable pub create_tun : Bytes → ℤ → (now : ℕ) → World → Result Error Tun × World
  create_tun name mtu now w = and_then (K.open_tun w) (λ tfd w.
      and_then (K.new_ifreq name, w)
        (λ ifreq w. and_then (K.ioctl w tfd tunsetiff ifreq) (λ _ w.
          and_then (nonblock_or_close tfd (K.set_nonblock w tfd))
            (λ _ w. set_up (new_tun now tfd) mtu w))))
