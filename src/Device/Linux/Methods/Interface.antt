-- ===== src/Device/Linux/Methods/Interface.antt =====
-- The device of Linux as a `Device`, on a world of three parts: the kernel, the open files and the
-- shell.
use net_hive.Prelude.{ℕ, some, Bytes, length, Result, ok, err}
use net_hive.Command.{Shell}
use net_hive.Device.Copy.{copy}
use net_hive.Device.Lift.{lift, lift_error}
use net_hive.Device.Contract.{Device}
use net_hive.Device.Linux.{Kernel, Tun, create_tun, tun_mtu, tun_name}
use net_hive.Device.Linux.Methods.{
  TunFile, read, write, close, add_address, flush_address, up, down, state,
}

-- Where the error of a method comes from.
pub data LinuxError (K F S : Type 0) : Type 0 where
  from_kernel : K → LinuxError K F S
  from_file : F → LinuxError K F S
  from_shell : S → LinuxError K F S

-- The name that `Name` returns is that of the device from then on.
unfoldable pub with_own_name : {E W : Type 0} → Result E Tun × W → Result E (Bytes × Tun) × W
with_own_name (err x, w) = (err x, w)
with_own_name (ok t, w) = (ok (t.name, t), w)

unfoldable pub filled : {E E' : Type 0} → (E → E') → Bytes → Result E Bytes → Result E' ℕ × Bytes
filled f buff (err x) = (err (f x), buff)
filled f buff (ok bs) = (ok (length bs), copy buff bs)

unfoldable pub map_error : {E E' A : Type 0} → (E → E') → Result E A → Result E' A
map_error f (err x) = err (f x)
map_error f (ok a) = ok a

module _ (K : Kernel) (F : TunFile) (S : Shell) where
  pub record World : Type 0 where
    pub kernel : K.World
    pub files : F.World
    pub shell : S.World

  abbrev pub Error : Type 0
  Error = LinuxError K.Error F.Error S.Error

  unfoldable pub in_kernel :
      {A : Type 0} → World → Result K.Error A × K.World → Result Error A × World
  in_kernel w = lift from_kernel (λ k. record w { kernel = k })

  abbrev pub linux : Device
  linux = record {
    Tun = Tun;
    World = World;
    Driver = F.World;
    Error = Error;
    create = λ name mtu now w. in_kernel w (create_tun K name mtu now w.kernel);
    read = λ t buff d. some (filled from_file buff (read F t (length buff) d).0);
    write = λ t buff d. some (map_error from_file (write F t buff d).0);
    close = λ t w. lift_error from_file (λ f. record w { files = f }) (close F t w.files);
    mtu = λ now t w. in_kernel w (tun_mtu K now t w.kernel);
    name = λ now t w. in_kernel w (with_own_name (tun_name K now t w.kernel));
    add_address = λ t addr w.
        lift_error from_shell (λ s. record w { shell = s }) (add_address S t addr w.shell);
    flush_address =
        λ t w. lift_error from_shell (λ s. record w { shell = s }) (flush_address S t w.shell);
    up = λ t w. in_kernel w (up K t w.kernel);
    down = λ t w. in_kernel w (down K t w.kernel);
    state = state;
  }
