-- ===== src/Device/Windows/Methods/Interface.antt =====
-- The device of Windows as a `Device`, on a world of two parts, Wintun and the interfaces; and that
-- it keeps the promise of the interface.
use net_hive.Prelude.{
  ℕ, ◌≡◌, refl, sym, ap, ◌∙◌, false, Option, none, some, List, [], ◌∷◌, Bytes, length, Result, ok,
  err,
}
use net_hive.Prelude.Int.{ℤ}
use net_hive.Win.{IpHelper}
use net_hive.Device.Copy.{copy, length-copy}
use net_hive.Device.Lift.{lift, lift_error, lift-ok}
use net_hive.Device.Contract.{Device, IsDevice}
use net_hive.Device.Windows.{
  Wintun, Tun, up, down, IoError, WinError, no_more_files, invalid_data, handle_eof,
  buffer_overflow, errno, tun_read, tun_write, create_tun, adapter_created, session_started,
  mtu_or_default,
}
use net_hive.Device.Windows.Methods.{Wrapped, add_address, flush_address, mtu, name, state, close}

-- Where the error of a method comes from.
pub data WindowsError (W H : Type 0) : Type 0 where
  from_wintun : W → WindowsError W H
  from_interface : Wrapped H → WindowsError W H
  from_session : IoError → WindowsError W H

unfoldable pub read_size :
    {E : Type 0} → (IoError → E) → Option (Result IoError ℕ × Bytes) → Option (Result E ℕ × Bytes)
read_size f none = none
read_size f (some (ok n, bs)) = some (ok n, bs)
read_size f (some (err x, bs)) = some (err (f x), bs)

unfoldable pub write_size :
    {E : Type 0} → (IoError → E) → Option (Result IoError ℕ × Option Bytes) → Option (Result E ℕ)
write_size f none = none
write_size f (some (ok n, sent)) = some (ok n)
write_size f (some (err x, sent)) = some (err (f x))

length-tun_read :
    (buff bs : Bytes) (r : Result IoError ℕ) (answers : List (Result WinError Bytes))
    → tun_read buff answers ≡ some (r, bs)
    → length bs ≡ length buff
unfolding tun_read
length-tun_read buff bs r [] h = cc (h)
length-tun_read buff bs r (ok packet ∷ rest) h =
    let is : copy buff packet ≡ bs = cc (h) in ap length (sym is) ∙ length-copy buff packet
length-tun_read buff bs r (err no_more_files ∷ rest) h = length-tun_read buff bs r rest h
length-tun_read buff bs r (err invalid_data ∷ rest) h =
    let is : buff ≡ bs = cc (h) in ap length (sym is)
length-tun_read buff bs r (err handle_eof ∷ rest) h =
    let is : buff ≡ bs = cc (h) in ap length (sym is)
length-tun_read buff bs r (err buffer_overflow ∷ rest) h =
    let is : buff ≡ bs = cc (h) in ap length (sym is)
length-tun_read buff bs r (err (errno n) ∷ rest) h =
    let is : buff ≡ bs = cc (h) in ap length (sym is)

length-read_size :
    {E : Type 0} (f : IoError → E) (k : ℕ) (o : Option (Result IoError ℕ × Bytes)) (r : Result E ℕ)
    (bs : Bytes)
    → ((q : Result IoError ℕ) (cs : Bytes) → o ≡ some (q, cs) → length cs ≡ k)
    → read_size f o ≡ some (r, bs)
    → length bs ≡ k
unfolding read_size
length-read_size f k none r bs all h = cc (h)
length-read_size f k (some (ok n, cs)) r bs all h =
    let is : cs ≡ bs = cc (h) in ap length (sym is) ∙ all (ok n) cs refl
length-read_size f k (some (err x, cs)) r bs all h =
    let is : cs ≡ bs = cc (h) in ap length (sym is) ∙ all (err x) cs refl

module _ (W : Wintun) (H : IpHelper) (luid : W.Adapter → ℕ) where
  pub record World : Type 0 where
    pub wintun : W.World
    pub interfaces : H.World

  abbrev pub Error : Type 0
  Error = WindowsError W.Error H.Error

  abbrev pub windows : Device
  windows = record {
    Tun = Tun W.Adapter W.Session;
    World = World;
    Driver = List (Result WinError Bytes);
    Error = Error;
    create = λ name mtu now w.
        lift from_wintun (λ v. record w { wintun = v }) (create_tun W name mtu w.wintun);
    read = λ t buff answers. read_size from_session (tun_read buff answers);
    write = λ t buff answers. write_size from_session (tun_write buff answers);
    close = λ t w. lift_error from_wintun (λ v. record w { wintun = v }) (close W t w.wintun);
    mtu = λ now t w. (ok (mtu t), w);
    name = λ now t w. (ok (name t, t), w);
    add_address = λ t addr w.
        lift_error from_interface (λ v. record w { interfaces = v })
          (add_address H luid t addr w.interfaces);
    flush_address = λ t w.
        lift_error from_interface (λ v. record w { interfaces = v })
          (flush_address H luid t w.interfaces);
    up = λ t w. (ok (up W t), w);
    down = λ t w. (ok (down W t), w);
    state = state;
  }

  result :
      {E A V : Type 0} (a b : A) (v w : V) → ◌≡◌ {A = Result E A × V} (ok a, v) (ok b, w) → a ≡ b
  result a b v w h = cc (ap (λ r. r.0) h)

  session_started-state :
      (a : W.Adapter) (n : Bytes) (m : ℤ) (r : Result W.Error W.Session × W.World)
      (t : Tun W.Adapter W.Session)
      → (session_started W a n m r).0 ≡ ok t
      → t.state ≡ false
  unfolding session_started
  session_started-state a n m (err x, w) t h = cc (h)
  session_started-state a n m (ok s, w) t h =
      let is : record { adapter = a; session = s; name = n; mtu = mtu_or_default m; state = false }
          ≡ t =
        cc (h) in
      ap (λ (t : Tun W.Adapter W.Session). t.state) (sym is)

  adapter_created-state :
      (n : Bytes) (m : ℤ) (r : Result W.Error W.Adapter × W.World) (t : Tun W.Adapter W.Session)
      → (adapter_created W n m r).0 ≡ ok t
      → t.state ≡ false
  unfolding adapter_created
  adapter_created-state n m (err x, w) t h = cc (h)
  adapter_created-state n m (ok a, w) t h = session_started-state a n m (W.start_session w a) t h

  pub windows-IsDevice : IsDevice windows
  unfolding create_tun
  windows-IsDevice = record {
    created-state = λ name mtu now t w h.
        adapter_created-state name mtu (W.create_adapter w.wintun name) t (lift-ok _ _ _ t h);
    up-state = λ t t' w w' h.
        ap (λ (t : Tun W.Adapter W.Session). t.state) (sym (result (up W t) t' w w' h));
    down-state = λ t t' w w' h.
        ap (λ (t : Tun W.Adapter W.Session). t.state) (sym (result (down W t) t' w w' h));
    up_again = λ t w h. ap (λ b. (ok (record t { state = b }), w)) (sym h);
    down_again = λ t w h. ap (λ b. (ok (record t { state = b }), w)) (sym h);
    name-state =
        λ now t t' w n h. ap (λ (t : Tun W.Adapter W.Session). t.state) (sym (same n t t' h));
    length-read = λ t buff answers r bs h.
        length-read_size from_session (length buff) (tun_read buff answers) r bs
          (λ q cs got. length-tun_read buff cs q answers got) h;
  }
    where
      same :
          (n : Bytes) (t t' : Tun W.Adapter W.Session)
          → ◌≡◌ {A = Result Error (Bytes × Tun W.Adapter W.Session)} (ok (t.name, t)) (ok (n, t'))
          → t ≡ t'
      same n t t' h = cc (h)
