-- ===== src/Device/Linux/Create.antt =====
-- Which descriptor `CreateTUN` leaves open.
use net_hive.Prelude.{ℕ, ◌≡◌, refl, sym, ap, subst, ◌⊎◌, inl, inr, Bytes, Result, ok, err}
use net_hive.Prelude.Int.{ℤ}
use net_hive.Device.Linux.{
  Kernel, Tun, and_then, nonblock_or_close, new_tun, create_tun, set_up, tunsetiff,
}
use net_hive.Device.Linux.Descriptors.{
  Descriptors, Opens, Same, closes, Opens-Same, set_up-Same, set_up-file,
}

module _ (K : Kernel) (F : Descriptors K) where
  open K use {World, Error}
  open F use {is_open}

  -- How `CreateTUN` ends, in the world in which it was called. The calls before the end are those
  -- that decide what is open.
  pub data Ended (name : Bytes) (w : World) : Result Error Tun × World → Type 0 where
    -- The device's file cannot be opened.
    unopened :
        (x : Error) (v : World)
        → K.open_tun w ≡ (err x, v)
        → Same is_open w v
        → Ended name w (err x, v)
    -- The file is opened, and closed again when it cannot be made non-blocking.
    closed :
        (fd : ℕ) (ifreq b : Bytes) (x : Error) (v u t t' : World)
        → K.open_tun w ≡ (ok fd, v)
        → K.new_ifreq name ≡ ok ifreq
        → K.ioctl v fd tunsetiff ifreq ≡ (ok b, u)
        → K.set_nonblock u fd ≡ (err x, t)
        → Same is_open w t'
        → Ended name w (err x, t')
    -- The name, or the call for it, is refused, and the file stays open.
    refused :
        (fd : ℕ) (x : Error) (v t : World)
        → K.open_tun w ≡ (ok fd, v)
        → (K.new_ifreq name ≡ err x)
          ⊎ ((ifreq : Bytes) × (K.new_ifreq name ≡ ok ifreq)
              × ((K.ioctl v fd tunsetiff ifreq).0 ≡ err x))
        → Opens is_open w fd t
        → Ended name w (err x, t)
    -- A later call fails, and the file stays open.
    broken :
        (fd : ℕ) (ifreq b : Bytes) (x : Error) (v u n t : World)
        → K.open_tun w ≡ (ok fd, v)
        → K.new_ifreq name ≡ ok ifreq
        → K.ioctl v fd tunsetiff ifreq ≡ (ok b, u)
        → K.set_nonblock u fd ≡ (ok tt, n)
        → Opens is_open w fd t
        → Ended name w (err x, t)
    -- The device is made, and its file is open.
    made :
        (d : Tun) (v t : World)
        → K.open_tun w ≡ (ok d.tun_file, v)
        → Opens is_open w d.tun_file t
        → Ended name w (ok d, t)

  module _ (name : Bytes) (mtu : ℤ) (now : ℕ) (w : World) (fd : ℕ) (v : World)
      (opens : K.open_tun w ≡ (ok fd, v)) where
    set_up-Ended :
        (ifreq b : Bytes) (u n : World)
        → K.new_ifreq name ≡ ok ifreq
        → K.ioctl v fd tunsetiff ifreq ≡ (ok b, u)
        → K.set_nonblock u fd ≡ (ok tt, n)
        → Opens is_open w fd n
        → (r : Result Error Tun × World) → set_up K (new_tun K now fd) mtu n ≡ r
        → Ended name w r
    set_up-Ended ifreq b u n named attached free o (err x, t) h =
        broken fd ifreq b x v u n t opens named attached free (
          Opens-Same K F w n t fd o (
            subst (λ (r : Result Error Tun × World). Same is_open n r.1) h
              (set_up-Same K F (new_tun K now fd) mtu n)))
    set_up-Ended ifreq b u n named attached free o (ok d, t) h =
        let file : d.tun_file ≡ fd = set_up-file K F (new_tun K now fd) mtu n d (ap (λ r. r.0) h) in
        let after : Opens is_open w fd t = Opens-Same K F w n t fd o (
          subst (λ (r : Result Error Tun × World). Same is_open n r.1) h
            (set_up-Same K F (new_tun K now fd) mtu n)) in
        made d v t (subst (λ (y : ℕ). K.open_tun w ≡ (ok y, v)) (sym file) opens)
          (subst (λ (y : ℕ). Opens is_open w y t) (sym file) after)

    nonblock-Ended :
        (ifreq b : Bytes) (u : World)
        → K.new_ifreq name ≡ ok ifreq
        → K.ioctl v fd tunsetiff ifreq ≡ (ok b, u)
        → Opens is_open w fd u
        → (r : Result Error (Unit {0}) × World) → K.set_nonblock u fd ≡ r
        → Ended name w
            (and_then K (nonblock_or_close K fd r) (λ _ n. set_up K (new_tun K now fd) mtu n))
    unfolding and_then
    nonblock-Ended ifreq b u named attached o (err x, t) h =
        let after : Opens is_open w fd t = Opens-Same K F w u t fd o (
          subst (λ (r : Result Error (Unit {0}) × World). Same is_open u r.1) h
            (F.set_nonblock-Same u fd)) in
        closed fd ifreq b x v u t (K.close t fd) opens named attached h (closes K F w t fd after)
    nonblock-Ended ifreq b u named attached o (ok tt, n) h =
        let after : Opens is_open w fd n = Opens-Same K F w u n fd o (
          subst (λ (r : Result Error (Unit {0}) × World). Same is_open u r.1) h
            (F.set_nonblock-Same u fd)) in
        set_up-Ended ifreq b u n named attached h after _ refl

    attach-Ended :
        (ifreq : Bytes)
        → K.new_ifreq name ≡ ok ifreq
        → (r : Result Error Bytes × World) → K.ioctl v fd tunsetiff ifreq ≡ r
        → Ended name w (
            and_then K r (λ _ u.
              and_then K
                (nonblock_or_close K fd (K.set_nonblock u fd))
                (λ _ n. set_up K (new_tun K now fd) mtu n)))
    unfolding and_then
    attach-Ended ifreq named r h = attached r h
      where
        after :
            (r : Result Error Bytes × World)
            → K.ioctl v fd tunsetiff ifreq ≡ r
            → Opens is_open w fd r.1
        after r h = Opens-Same K F w v r.1 fd (F.open_tun-ok w v fd opens) (
            subst (λ (r : Result Error Bytes × World). Same is_open v r.1) h
              (F.ioctl-Same v fd tunsetiff ifreq))

        attached :
            (r : Result Error Bytes × World)
            → K.ioctl v fd tunsetiff ifreq ≡ r
            → Ended name w (
                and_then K r (λ _ u.
                  and_then K
                    (nonblock_or_close K fd (K.set_nonblock u fd))
                    (λ _ n. set_up K (new_tun K now fd) mtu n)))
        attached (err x, t) h =
            refused fd x v t opens (inr (ifreq, named, ap (λ r. r.0) h)) (after (err x, t) h)
        attached (ok b, u) h = nonblock-Ended ifreq b u named h (after (ok b, u) h) _ refl

    named-Ended :
        (r : Result Error Bytes)
        → K.new_ifreq name ≡ r
        → Ended name w (
            and_then K
              (r, v)
              (λ ifreq u. and_then K (K.ioctl u fd tunsetiff ifreq) (λ _ u.
                and_then K
                  (nonblock_or_close K fd (K.set_nonblock u fd))
                  (λ _ n. set_up K (new_tun K now fd) mtu n))))
    unfolding and_then
    named-Ended (err x) h = refused fd x v v opens (inl h) (F.open_tun-ok w v fd opens)
    named-Ended (ok ifreq) h = attach-Ended ifreq h _ refl

  -- What `CreateTUN` leaves open, on every path. If the device's file cannot be opened, or cannot
  -- be made non-blocking, every descriptor is as before. In any other case exactly one descriptor
  -- is open that was not, that of the device's file: on success it is the file of the device that
  -- is returned, and when the name is refused, or a later call fails, it is left open behind the
  -- error.
  pub create_tun_lem :
      (name : Bytes) (mtu : ℤ) (now : ℕ) (w : World) → Ended name w (create_tun K name mtu now w)
  unfolding create_tun and_then
  create_tun_lem name mtu now w = opened (K.open_tun w) refl
    where
      opened :
          (r : Result Error ℕ × World)
          → K.open_tun w ≡ r
          → Ended name w (
              and_then K r (λ fd v.
                and_then K
                  (K.new_ifreq name, v)
                  (λ ifreq u. and_then K (K.ioctl u fd tunsetiff ifreq) (λ _ u.
                    and_then K
                      (nonblock_or_close K fd (K.set_nonblock u fd))
                      (λ _ n. set_up K (new_tun K now fd) mtu n)))))
      opened (err x, v) h = unopened x v h (F.open_tun-err w v x h)
      opened (ok fd, v) h = named-Ended name mtu now w fd v h (K.new_ifreq name) refl
