-- ===== src/System.antt =====
-- pkgs/system: the call of `ioctl`, whose kernel is outside.
use net_hive.Prelude.{ℕ, Option, none, some, [], ◌∷◌, ◌==◌, if◌then◌else◌, Bytes}

-- `os.SyscallError`: the name of the call and the number of its error.
pub record SyscallError : Type 0 where
  pub syscall : Bytes
  pub errno : ℕ

-- "ioctl"
abbrev pub ioctl_name : Bytes
ioctl_name = b'i' ∷ b'o' ∷ b'c' ∷ b't' ∷ b'l' ∷ []

abbrev pub failure : {W : Type 0} → ℕ × W → Option SyscallError × W
failure (e, w) =
    if e == 0 then (none, w) else (some (record { syscall = ioctl_name; errno = e }), w)

-- `Ioctl`, on the system call, which gives the number of its error or 0.
unfoldable pub ioctl :
    {W : Type 0} → (ℕ → ℕ → ℕ → W → ℕ × W) → (fd request argp : ℕ) → W → Option SyscallError × W
ioctl sys_ioctl fd request argp w = failure (sys_ioctl fd request argp w)
