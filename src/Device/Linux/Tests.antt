-- ===== src/Device/Linux/Tests.antt =====
-- A kernel that only counts its open files, and a device on it.
use net_hive.Prelude.{
  ℕ, ◌+◌, ◌-◌, ◌≡◌, refl, sym, subst, ◌∙◌, ◌≢◌, inl, inr, Bool, true, false, ◌&&◌, [], ◌∷◌, arith,
  ltb, ltb→lt, lt→ltb, if◌then◌else◌, Bytes, Bool-cases, length, replicate, Result, ok, err,
}
use net_hive.Prelude.Int.{pos}
use net_hive.Device.Linux.{Kernel, Tun, if_req, create_tun}
use net_hive.Device.Linux.Create.{Ended, create_tun_lem}
use net_hive.Device.Linux.Descriptors.{Descriptors, Opens, Same}
use net_hive.Engine.{update, update_self, update_ne}

-- A name of sixteen bytes or more is not accepted.
unfoldable toy_ifreq : Bytes → Result (Unit {0}) Bytes
toy_ifreq name = if ltb (length name) 16 then ok (if_req name) else err tt

abbrev toy_kernel : Kernel
toy_kernel = record {
  World = ℕ;
  Error = Unit {0};
  open_files = λ w. w;
  open_tun = λ w. (ok w, w + 1);
  socket = λ w. (ok w, w + 1);
  close = λ w fd. w - 1;
  ioctl = λ w fd c b. (ok b, w);
  set_nonblock = λ w fd. (ok tt, w);
  syscall_conn = λ w fd. ok tt;
  new_ifreq = toy_ifreq;
}

-- "hive0"
abbrev hive0 : Bytes
hive0 = b'h' ∷ b'i' ∷ b'v' ∷ b'e' ∷ b'0' ∷ []

abbrev device : Tun
device = record {
  name = hive0;
  mtu = pos 1500;
  cache_time = 0;
  index = pos 3;
  tun_file = 4;
  state = false;
}

-- A kernel that knows which of the descriptors below a bound are open.
abbrev Table : Type 0
Table = ℕ × (ℕ → Bool)

abbrev in_table : Table → ℕ → Bool
in_table (n, f) y = ltb y n && f y

unfoldable open_next : Table → Result (Unit {0}) ℕ × Table
open_next (n, f) = (ok n, (n + 1, update f n true))

abbrev close_one : Table → ℕ → Table
close_one (n, f) fd = (n, update f fd false)

abbrev table_kernel : Kernel
table_kernel = record {
  World = Table;
  Error = Unit {0};
  open_files = λ w. w.0;
  open_tun = open_next;
  socket = open_next;
  close = close_one;
  ioctl = λ w fd c b. (ok b, w);
  set_nonblock = λ w fd. (ok tt, w);
  syscall_conn = λ w fd. ok tt;
  new_ifreq = toy_ifreq;
}

and_false : (b : Bool) → (b && false) ≡ false
and_false b = ground arith

ltb_suc : (y n : ℕ) → y ≢ n → ltb y (n + 1) ≡ ltb y n
ltb_suc y n ne = elim (Bool-cases (ltb y n)) [
  | inl lt ↦ lt→ltb y (n + 1) (omega (arith, ltb→lt y n lt)) ∙ sym lt
  | inr ge ↦ elim (Bool-cases (ltb y (n + 1))) [
    | inr far ↦ far ∙ sym ge
    | inl near ↦ absurd (cc (ge, lt→ltb y n (omega (arith, ltb→lt y (n + 1) near, ne))))
  ]
]

open_next-Opens : (w w' : Table) (fd : ℕ) → open_next w ≡ (ok fd, w') → Opens in_table w fd w'
unfolding open_next
open_next-Opens (n, f) w' fd h =
    let next : n ≡ fd = cc (h) in
    let then_table : (n + 1, update f n true) ≡ w' = cc (h) in
    subst (λ (x : Table). Opens in_table (n, f) fd x) then_table
      (subst (λ (y : ℕ). Opens in_table (n, f) y (n + 1, update f n true)) next
        (
          (elim (Bool-cases (ltb n n)) [
            | inl lt ↦ absurd (omega (arith, ltb→lt n n lt))
            | inr ge ↦ rw ge refl
          ]),
          rw (lt→ltb n (n + 1) (omega arith)) (update_self f n true),
          λ y ne. rw (ltb_suc y n ne, update_ne f n y true ne) refl,
        ))

open_next-never : (w w' : Table) (x : Unit {0}) → open_next w ≡ (err x, w') → Same in_table w w'
unfolding open_next
open_next-never (n, f) w' x h = cc (h)

table_kernel-Descriptors : Descriptors table_kernel
table_kernel-Descriptors = record {
  is_open = in_table;
  open_tun-ok = open_next-Opens;
  open_tun-err = open_next-never;
  socket-ok = open_next-Opens;
  socket-err = open_next-never;
  close_self = λ w fd. rw (update_self w.1 fd false) (and_false (ltb fd w.0));
  close_other = λ w fd y ne. rw (update_ne w.1 fd y false ne) refl;
  ioctl-Same = λ w fd c b y. refl;
  set_nonblock-Same = λ w fd y. refl;
}

create_tun_lem_example :
    Ended table_kernel table_kernel-Descriptors hive0
      (3, λ y. true)
      (create_tun table_kernel hive0 (pos 1500) 7 (3, λ y. true))
create_tun_lem_example =
    create_tun_lem table_kernel table_kernel-Descriptors hive0 (pos 1500) 7 (3, λ y. true)

long_name_refused : toy_ifreq (replicate 16 65) ≡ err tt
unfolding toy_ifreq
long_name_refused = refl
