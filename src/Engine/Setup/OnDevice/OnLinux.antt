-- ===== src/Engine/Setup/OnDevice/OnLinux.antt =====
-- The command that gives the device of Linux its address.
use net_hive.Prelude.{ℕ, ◌≡◌, refl, sym, ◌∙◌, Option, none, some, [], ◌∷◌, Bytes, Result, ok, err}
use net_hive.Prelude.Int.{ℤ}
use net_hive.Netip.{Prefix}
use net_hive.Config.{Config}
use net_hive.Command.{
  bash_result, only_error, Shell, add_addr_command, bash_path, bash_flag, bash, ip4_add_addr,
}
use net_hive.Device.Lift.{lift, lift_error}
use net_hive.Device.Linux.{Kernel, Tun, tun_name, create_tun}
use net_hive.Device.Linux.Methods.{TunFile, add_address, up}
use net_hive.Device.Linux.Methods.Interface.{
  from_shell, linux, World, Error, in_kernel, with_own_name,
}
use net_hive.Device.Linux.Methods.Promise.{in_kernel-ok, with_own_name-ok}
use net_hive.Engine.Setup.OnDevice.Up.{IsUp}

module _ (K : Kernel) (F : TunFile) (S : Shell) where
  -- The shell after the one command that adds an address to an interface.
  unfoldable pub after_add : Prefix → Bytes → S.World → S.World
  after_add addr dev s = (S.output bash_path (bash_flag ∷ add_addr_command addr dev ∷ []) s).1

  shell-in_kernel :
      {A : Type 0} (w w' : World K F S) (r : Result K.Error A × K.World)
      (x : Result (Error K F S) A)
      → in_kernel K F S w r ≡ (x, w')
      → w'.shell ≡ w.shell
  unfolding in_kernel lift
  shell-in_kernel w w' (ok a, k) x h = λ i. ((sym h) i).1.shell
  shell-in_kernel w w' (err e, k) x h = λ i. ((sym h) i).1.shell

  shell-lift_error :
      (w w' : World K F S) (r : Option S.Error × S.World) (x : Option (Error K F S))
      → lift_error from_shell (λ s. record w { shell = s }) r ≡ (x, w')
      → w'.shell ≡ r.1
  unfolding lift_error
  shell-lift_error w w' (none, s) x h = λ i. ((sym h) i).1.shell
  shell-lift_error w w' (some e, s) x h = λ i. ((sym h) i).1.shell

  world-add_addr :
      (addr : Prefix) (dev : Bytes) (s : S.World)
      → (ip4_add_addr S addr dev s).1 ≡ after_add addr dev s
  unfolding ip4_add_addr bash after_add
  world-add_addr addr dev s = of (S.output bash_path (bash_flag ∷ add_addr_command addr dev ∷ []) s)
    where
      of : (r : (ℤ × Result S.Error Bytes) × S.World) → (only_error S (bash_result S r)).1 ≡ r.1
      of ((code, ok out), s) = refl
      of ((code, err x), s) = refl

  pub IsUp-shell :
      {L : Type 0} (cfg : Config L) (now later : ℕ) (w : World K F S) (n : Bytes) (t : Tun)
      (w' : World K F S)
      → IsUp (linux K F S) cfg now later w n t w'
      → w'.shell ≡ after_add cfg.local_addr n w.shell
  unfolding add_address
  IsUp-shell cfg now later w n t w' u =
      let s1 : u.w1.shell ≡ w.shell =
        shell-in_kernel w u.w1 (create_tun K cfg.tun_name cfg.mtu now w.kernel) _ u.makes in
      let s2 : u.w2.shell ≡ u.w1.shell =
        shell-in_kernel u.w1 u.w2 (with_own_name (tun_name K later u.new u.w1.kernel)) _ u.names in
      let s4 : w'.shell ≡ u.w3.shell =
        shell-in_kernel u.w3 w' (up K u.known u.w3.kernel) _ u.switches in
      let own : n ≡ u.known.name =
        (with_own_name-ok (tun_name K later u.new u.w1.kernel) n u.known (
          in_kernel-ok K F S u.w1 u.w2 (with_own_name (tun_name K later u.new u.w1.kernel))
            (n, u.known) u.names)).1 in
      let s3 : u.w3.shell ≡ after_add cfg.local_addr u.known.name u.w2.shell =
        shell-lift_error u.w2 u.w3 (ip4_add_addr S cfg.local_addr u.known.name u.w2.shell) _ u.adds
        ∙ world-add_addr cfg.local_addr u.known.name u.w2.shell in
      s4 ∙ s3 ∙ (λ i. after_add cfg.local_addr ((sym own) i) ((s2 ∙ s1) i))
