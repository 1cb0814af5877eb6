-- ===== src/Engine/System/Drain.antt =====
-- Runs in which the loops only empty the queues: the router, `RoutineTUNWriter`, and the writing
-- loops of the goroutines of `addConn`.
use net_hive.Prelude.{
  ◌≡◌, refl, sym, ap, subst, ◌∙◌, ◌≢◌, ◌⊎◌, inl, inr, Option, some, List, [], ◌∷◌, Option-cases,
  Elem, subst_some,
}
use net_hive.Engine.{
  ℕ_discrete, Payload, ChanRef, Maps, Phase, running, leaving, ended, Worker, Engine,
}
use net_hive.Engine.Routine.{tun_writer, route_packet, put_payload}
use net_hive.Engine.Routine.Router.{route_packet-SameDev}
use net_hive.Engine.Stream.Loops.{peer_send-some, Only, Only-refl, Only-trans}
use net_hive.Engine.System.{
  Runs, read, route, write, dial, serve, send, receive, leave, end, Reach, here, next,
}

running_or_not : (p : Phase) → (p ≡ running) ⊎ (p ≢ running)
running_or_not running = inl refl
running_or_not leaving = inr (λ h. cc (h))
running_or_not ended = inr (λ h. cc (h))

module _ (T : Maps) where
  abbrev pub NoRun : Engine T → ChanRef → Type 0
  NoRun e c = Runs T e c → ⊥

  Elem-cases : (c : ChanRef) (cs : List ChanRef) → Elem c cs ⊎ (Elem c cs → ⊥)
  Elem-cases c [] = inr (λ h. h)
  Elem-cases c (d ∷ cs) = elim (ℕ_discrete c d) [
    | yes same ↦ inl (inl same)
    | no other ↦ elim (Elem-cases c cs) [
      | inl there ↦ inl (inr there)
      | inr gone ↦ inr (λ h. elim h [ inl same ↦ other same | inr there ↦ gone there ])
    ]
  ]

  pub Runs-cases : (e : Engine T) (c : ChanRef) → Runs T e c ⊎ NoRun e c
  Runs-cases e c = elim (Elem-cases c e.streams) [
    | inr closed ↦ inr (λ (w, at, runs, open_now). closed open_now)
    | inl open_now ↦ elim (Option-cases (e.net.workers c)) [
      | inl idle ↦ inr (λ (w, at, runs, _). cc (idle, at))
      | inr (w, at) ↦ elim (running_or_not w.phase) [
        | inl runs ↦ inl (w, at, runs, open_now)
        | inr stopped ↦ inr (λ (x, there, runs, _).
            stopped (subst_some (λ (y : Worker). y.phase ≡ running) x w (sym there ∙ at) runs))
      ]
    ]
  ]

  -- Nothing is read from the device or received, and no goroutine starts or ends but those that the
  -- router starts.
  unfoldable pub IsDraining : {e e' : Engine T} → Reach T e e' → Type 0
  IsDraining here = Unit
  IsDraining (next r (route p ps h same)) = IsDraining r
  IsDraining (next r (write b h)) = IsDraining r
  IsDraining (next {f} r (send c b w h)) = IsDraining r × Runs T f c
  IsDraining (next r _) = ⊥

  unfoldable pub followed_by : {e f g : Engine T} → Reach T e f → Reach T f g → Reach T e g
  followed_by r here = r
  followed_by r (next d st) = next (followed_by r d) st

  followed_by-IsDraining :
      {e f g : Engine T} (r : Reach T e f) (d : Reach T f g)
      → IsDraining r
      → IsDraining d
      → IsDraining (followed_by r d)
  unfolding followed_by IsDraining
  followed_by-IsDraining r here s t = s
  followed_by-IsDraining r (next d (route p ps h same)) s t = followed_by-IsDraining r d s t
  followed_by-IsDraining r (next d (write b h)) s t = followed_by-IsDraining r d s t
  followed_by-IsDraining r (next d (send c b w h)) s (t, runs) =
      (followed_by-IsDraining r d s t, runs)
  followed_by-IsDraining r (next d (read o x h)) s t = absurd t
  followed_by-IsDraining r (next d (receive m h)) s t = absurd t
  followed_by-IsDraining r (next d (dial c w at runs same)) s t = absurd t
  followed_by-IsDraining r (next d (serve id c takes same)) s t = absurd t
  followed_by-IsDraining r (next d (leave c w at runs same)) s t = absurd t
  followed_by-IsDraining r (next d (end c w at leaves same)) s t = absurd t

  abbrev pub Drains : Engine T → Engine T → Type 0
  Drains e e' = (d : Reach T e e') × IsDraining d

  pub Drains-refl : (e : Engine T) → Drains e e
  unfolding IsDraining
  Drains-refl e = (here, tt)

  pub Drains-trans : {e f g : Engine T} → Drains e f → Drains f g → Drains e g
  Drains-trans (r, s) (d, t) = (followed_by r d, followed_by-IsDraining r d s t)

  -- The router, until `devReader` is empty.
  pub route_all :
      (ps : List Payload) (e : Engine T)
      → e.dev_reader ≡ ps
      → (e' : Engine T) × Drains e e' × (e'.dev_reader ≡ []) × (e'.dev_writer ≡ e.dev_writer)
  unfolding IsDraining
  route_all [] e h = (e, Drains-refl e, h, refl)
  route_all (p ∷ ps) e h =
      let e1 = record e { dev_reader = ps } in
      let (reader, writer, _) = route_packet-SameDev T p e1 in
      let (e', d, empty, same) = route_all ps (route_packet T p e1).1 reader in
      (e', Drains-trans (next here (route p ps h refl), tt) d, empty, same ∙ writer)

  -- `RoutineTUNWriter`, until `devWriter` is empty.
  pub write_all :
      (ps : List Payload) (e : Engine T)
      → e.dev_writer ≡ ps
      → (e' : Engine T) × Drains e e'
        × (e'.dev_writer ≡ [])
        × (e'.dev_reader ≡ e.dev_reader)
        × (e'.net ≡ e.net)
  unfolding IsDraining tun_writer
  write_all [] e h = (e, Drains-refl e, h, refl, refl)
  write_all (p ∷ ps) e h =
      let e1 = put_payload T p (record e { dev_writer = ps }) in
      let wrote : tun_writer T e ≡ some (p.bytes, e1) = rw (h, tun_writer) refl in
      let (e', d, empty, reader, net) = write_all ps e1 refl in
      (e', Drains-trans (next here (write p.bytes wrote), tt) d, empty, reader, net)

  -- The writing loop of a goroutine that has its stream, until its channel is empty.
  pub send_all :
      (c : ChanRef) (ps : List Payload) (e : Engine T)
      → e.net.chans c ≡ ps
      → Runs T e c
      → (e' : Engine T) × Drains e e' × (e'.net.chans c ≡ []) × Only T c e e'
  unfolding IsDraining
  send_all c [] e h runs = (e, Drains-refl e, h, Only-refl T c e)
  send_all c (p ∷ ps) e h (w, at, runs, has_stream) =
      let (e1, sent, after, _, only) = peer_send-some T c e p ps h in
      let at1 = ap (λ (f : ChanRef → Option Worker). f c) only.workers ∙ at in
      let stream1 = subst (Elem c) (sym only.streams) has_stream in
      let now : Runs T e c = (w, at, runs, has_stream) in
      let (e', d, empty, rest) = send_all c ps e1 after (w, at1, runs, stream1) in
      (
        e',
        Drains-trans (next here (send c p.bytes (inl now) sent), (tt, now)) d,
        empty,
        Only-trans T only rest,
      )
