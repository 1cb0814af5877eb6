-- ===== src/Engine/System/Flag.antt =====
-- The flag `EnableBroadcast` stays as the configuration has set it.
use net_hive.Prelude.{
  ◌≡◌, refl, sym, ap, ◌∙◌, inl, inr, Bool, Option, none, some, Bytes, Option-cases, List-cases,
}
use net_hive.Engine.{ChanRef, Maps, Engine, try_send}
use net_hive.Engine.Routine
use net_hive.Engine.Routine.{tun_reader, tun_writer, route_packet, payload_get}
use net_hive.Engine.Routine.Reader.{tun_reader_lem}
use net_hive.Engine.Routine.Router.{route_packet-SameDev}
use net_hive.Engine.Stream.{peer_send, peer_receive}
use net_hive.Engine.System.{
  Step, read, route, write, dial, serve, send, receive, leave, end, Reach, here, next,
}

module _ (T : Maps) where
  flag_after :
      {O : Type 0} (a b : O × Engine T)
      → some a ≡ some b
      → b.1.enable_broadcast ≡ a.1.enable_broadcast
  flag_after a b h = let same : a ≡ b = cc (h) in ap (λ x. x.1.enable_broadcast) (sym same)

  flag_or : Bool → Option (Engine T) → Bool
  flag_or b none = b
  flag_or b (some e) = e.enable_broadcast

  read-flag :
      (e e' : Engine T) (r : Option Bytes) (o : Routine.ReaderOutcome)
      → tun_reader T r e ≡ some (o, e')
      → e'.enable_broadcast ≡ e.enable_broadcast
  unfolding tun_reader
  read-flag e e' none o h = flag_after _ (o, e') h
  read-flag e e' (some packet) o h =
      let (out, got, (frame, _)) = tun_reader_lem T packet e in
      flag_after out (o, e') (sym got ∙ h) ∙ frame.enable_broadcast

  write-flag :
      (e e' : Engine T) (b : Bytes)
      → tun_writer T e ≡ some (b, e')
      → e'.enable_broadcast ≡ e.enable_broadcast
  unfolding tun_writer
  write-flag e e' b h = elim (List-cases e.dev_writer) [
    | inl empty ↦ cc (rw (empty, tun_writer) at h)
    | inr (p, ps, queue) ↦ flag_after _ (b, e') (rw (queue, tun_writer) at h)
  ]

  send-flag :
      (e e' : Engine T) (c : ChanRef) (b : Bytes)
      → peer_send T c e ≡ some (b, e')
      → e'.enable_broadcast ≡ e.enable_broadcast
  unfolding peer_send
  send-flag e e' c b h = elim (List-cases (e.net.chans c)) [
    | inl empty ↦ cc (rw (empty, peer_send) at h)
    | inr (p, ps, queue) ↦ flag_after _ (b, e') (rw (queue, peer_send) at h)
  ]

  receive-flag :
      (e e' : Engine T) (msg : Bytes)
      → peer_receive T msg e ≡ some e'
      → e'.enable_broadcast ≡ e.enable_broadcast
  unfolding peer_receive flag_or
  receive-flag e e' msg h =
      let p = record (payload_get e.payloads).0 { bytes = msg } in
      elim (Option-cases (try_send e.dev_writer p)) [
        | inl stuck ↦ cc (rw stuck at h)
        | inr (q, room) ↦
            let after = rw room at h in
            ap (λ (o : Option (Engine T)). flag_or e.enable_broadcast o) (sym after)
      ]

  pub Step-flag : {e e' : Engine T} → Step T e e' → e'.enable_broadcast ≡ e.enable_broadcast
  Step-flag {e} {e'} (read r o h) = read-flag e e' r o h
  Step-flag {e} {e'} (route p ps h same) =
      ap (λ (x : Engine T). x.enable_broadcast) same
      ∙ (route_packet-SameDev T p (record e { dev_reader = ps })).2
  Step-flag {e} {e'} (write b h) = write-flag e e' b h
  Step-flag {e} {e'} (send c b w h) = send-flag e e' c b h
  Step-flag {e} {e'} (receive msg h) = receive-flag e e' msg h
  Step-flag (dial c w at runs same) = ap (λ (x : Engine T). x.enable_broadcast) same
  Step-flag (serve id c takes same) = ap (λ (x : Engine T). x.enable_broadcast) same
  Step-flag (leave c w at runs same) = ap (λ (x : Engine T). x.enable_broadcast) same
  Step-flag (end c w at leaves same) = ap (λ (x : Engine T). x.enable_broadcast) same

  pub Reach-flag : {e e' : Engine T} → Reach T e e' → e'.enable_broadcast ≡ e.enable_broadcast
  Reach-flag here = refl
  Reach-flag (next r st) = Step-flag st ∙ Reach-flag r
