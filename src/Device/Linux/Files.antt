-- ===== src/Device/Linux/Files.antt =====
-- Which files the device's operations leave open, and what they return.
use net_hive.Device.Linux.{Kernel, Call}
use net_hive.Prelude.{ℕ, ◌+◌, ◌-◌, ◌≡◌, Bool, not, ◌&&◌, ◌||◌, Bytes, Result, ok, err}

-- What the kernel does to the number of open files.
pub record CountsFiles (K : Kernel) : Type 0 where
  pub open_tun-ok :
      (w : K.World) (fd : ℕ)
      → (K.open_tun w).0 ≡ ok fd
      → K.open_files (K.open_tun w).1 ≡ K.open_files w + 1
  pub open_tun-err :
      (w : K.World) (x : K.Error)
      → (K.open_tun w).0 ≡ err x
      → K.open_files (K.open_tun w).1 ≡ K.open_files w
  pub socket-ok :
      (w : K.World) (fd : ℕ)
      → (K.socket w).0 ≡ ok fd
      → K.open_files (K.socket w).1 ≡ K.open_files w + 1
  pub socket-err :
      (w : K.World) (x : K.Error)
      → (K.socket w).0 ≡ err x
      → K.open_files (K.socket w).1 ≡ K.open_files w
  pub files-close : (w : K.World) (fd : ℕ) → K.open_files (K.close w fd) ≡ K.open_files w - 1
  pub files-ioctl :
      (w : K.World) (fd : ℕ) (c : Call) (b : Bytes)
      → K.open_files (K.ioctl w fd c b).1 ≡ K.open_files w
  pub files-set_nonblock :
      (w : K.World) (fd : ℕ) → K.open_files (K.set_nonblock w fd).1 ≡ K.open_files w

module _ (K : Kernel) (F : CountsFiles K) where
  open K use {World, Error}

  -- The number of open files after a call.
  abbrev pub files : {A : Type 0} → Result Error A × World → ℕ
  files r = K.open_files r.1

  abbrev agree : Bool → Bool → Bool
  agree a b = (a && b) || (not a && not b)
