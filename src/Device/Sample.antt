-- ===== src/Device/Sample.antt =====
-- A kernel, files and a shell for the device of Linux, and a Wintun and an IP helper for that of
-- Windows, on which the devices are tried out.
use net_hive.Prelude.{ℕ, ◌+◌, ◌-◌, none, List, [], ◌∷◌, Bytes, length, replicate, ok}
use net_hive.Prelude.Int.{pos}
use net_hive.Command.{Shell}
use net_hive.Win.{IpHelper}
use net_hive.Device.Linux.{Kernel, Call, tungetiff, if_req}
use net_hive.Device.Linux.Methods.{TunFile}
use net_hive.Device.Windows.{Wintun}

abbrev pub tun0 : Bytes
tun0 = b't' ∷ b'u' ∷ b'n' ∷ b'0' ∷ []

abbrev pub answer : Call → Bytes → Bytes
answer tungetiff b = if_req tun0
answer c b = b

-- The kernel counts its open files.
abbrev pub kernel : Kernel
kernel = record {
  World = ℕ;
  Error = ℕ;
  open_files = λ w. w;
  open_tun = λ w. (ok w, w + 1);
  socket = λ w. (ok w, w + 1);
  close = λ w fd. w - 1;
  ioctl = λ w fd c b. (ok (answer c b), w);
  set_nonblock = λ w fd. (ok tt, w);
  syscall_conn = λ w fd. ok tt;
  new_ifreq = λ name. ok (if_req name);
}

abbrev pub file : TunFile
file = record {
  World = ℕ;
  Error = ℕ;
  read_file = λ fd size w. (ok (replicate size w), w + 1);
  write_file = λ fd buff w. (ok (length buff), w + 1);
  close_file = λ fd w. (none, w);
}

-- The shell keeps the words of its commands.
abbrev pub shell : Shell
shell = record {
  World = List (List Bytes);
  Error = ℕ;
  output = λ path args w. ((pos 0, ok []), args ∷ w);
}

abbrev pub wintun : Wintun
wintun = record {
  World = ℕ;
  Error = Unit {0};
  Adapter = ℕ;
  Session = ℕ;
  create_adapter = λ w name. (ok w, w + 1);
  start_session = λ w a. (ok a, w);
  close = λ w a. (none, w);
}

-- An IP helper whose table of addresses stays empty.
abbrev pub ip_helper : IpHelper
ip_helper = record {
  World = ℕ;
  Error = Unit {0};
  initialize_entry = λ words row w. (ok row, w);
  invalid_parameter = tt;
  get_table = λ words w. (ok [], w);
  delete_entry = λ words row w. w;
  free_table = λ words w. w;
}
