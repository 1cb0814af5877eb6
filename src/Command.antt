-- ===== src/Command.antt =====
-- pkgs/command: the shell commands that give an interface its address. The shell is outside.
pub mod Words
mod Tests
use net_hive.Prelude.Int.{ℤ, pos, negsuc}
use net_hive.Prelude.{
  ◌+◌, ◌-◌, ◌/◌, Option, none, some, List, [], ◌∷◌, ◌++◌, Bytes, Result, ok, err,
}
use net_hive.Netip.{Prefix}
use net_hive.Netip.Text.{prefix_text}

-- `exec.Command(path, args…).Output()`: the output, or an error. The exit code is that of the
-- process state, and -1 if there is none since the program was not started.
pub record Shell : Type 1 where
  pub World : Type 0
  pub Error : Type 0
  pub output : Bytes → List Bytes → World → (ℤ × Result Error Bytes) × World

-- "/bin/bash"
abbrev pub bash_path : Bytes
bash_path = b'/' ∷ b'b' ∷ b'i' ∷ b'n' ∷ b'/' ∷ b'b' ∷ b'a' ∷ b's' ∷ b'h' ∷ []

-- "-c"
abbrev pub bash_flag : Bytes
bash_flag = b'-' ∷ b'c' ∷ []

-- "ip -4 addr "
abbrev pub ip4_addr : Bytes
ip4_addr = b'i' ∷ b'p' ∷ 32 ∷ b'-' ∷ b'4' ∷ 32 ∷ b'a' ∷ b'd' ∷ b'd' ∷ b'r' ∷ 32 ∷ []

-- "add ", " dev " and "flush dev "
abbrev pub add_text : Bytes
add_text = b'a' ∷ b'd' ∷ b'd' ∷ 32 ∷ []

abbrev pub dev_text : Bytes
dev_text = 32 ∷ b'd' ∷ b'e' ∷ b'v' ∷ 32 ∷ []

abbrev pub flush_text : Bytes
flush_text = b'f' ∷ b'l' ∷ b'u' ∷ b's' ∷ b'h' ∷ 32 ∷ b'd' ∷ b'e' ∷ b'v' ∷ 32 ∷ []

-- The texts that `Sprintf` makes.
unfoldable pub add_addr_command : Prefix → Bytes → Bytes
add_addr_command addr dev = ip4_addr ++ (add_text ++ (prefix_text addr ++ (dev_text ++ dev)))

unfoldable pub flush_addr_command : Bytes → Bytes
flush_addr_command dev = ip4_addr ++ (flush_text ++ dev)

module _ (S : Shell) where
  open S use {World, Error, output}

  -- The exit code, the output, which is `nil` on an error, and the error.
  abbrev pub bash_result : (ℤ × Result Error Bytes) × World → (ℤ × Bytes × Option Error) × World
  bash_result ((code, err x), w) = ((code, [], some x), w)
  bash_result ((code, ok out), w) = ((code, out, none), w)

  -- `Bash`
  unfoldable pub bash : Bytes → World → (ℤ × Bytes × Option Error) × World
  bash cmd w = bash_result (output bash_path (bash_flag ∷ cmd ∷ []) w)

  -- `BashCtx`: a context that is done before the start gives its error, and one that is never done
  -- changes nothing.
  unfoldable pub bash_ctx : Option Error → Bytes → World → (ℤ × Bytes × Option Error) × World
  bash_ctx (some x) cmd w = ((negsuc 0, [], some x), w)
  bash_ctx none cmd w = bash cmd w

  abbrev pub only_error : (ℤ × Bytes × Option Error) × World → Option Error × World
  only_error ((code, out, x), w) = (x, w)

  -- `IP4AddAddr`
  unfoldable pub ip4_add_addr : Prefix → Bytes → World → Option Error × World
  ip4_add_addr addr dev w = only_error (bash (add_addr_command addr dev) w)

  -- `IP4FlushAddr`
  unfoldable pub ip4_flush_addr : Bytes → World → Option Error × World
  ip4_flush_addr dev w = only_error (bash (flush_addr_command dev) w)
