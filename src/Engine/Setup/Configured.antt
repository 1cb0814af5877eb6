-- ===== src/Engine/Setup/Configured.antt =====
-- What an engine that was started from a configuration writes to its peers.
use net_hive.Prelude.{
  ◌≡◌, refl, sym, ap, subst, ◌∙◌, inl, inr, Bool, some, List, Bytes, Elem, List-cases, All,
  subst_some,
}
use net_hive.Netip.{Prefix}
use net_hive.Protocol.Parse.{WellFormed, decode}
use net_hive.Config.{Config}
use net_hive.Engine.{Payload, ChanRef, Maps, Worker, Net, Engine}
use net_hive.Engine.Conn.Queues.{Serves}
use net_hive.Engine.Stream.{peer_send}
use net_hive.Engine.System.{Reach, IsStart}
use net_hive.Engine.System.Safety.{never_misdelivered}
use net_hive.Engine.System.Headers.{Headed, Reach-IsHeaded}
use net_hive.Engine.Spec.{
  Vpn, Event, VpnStep, VpnRun, accept, dropped, emit, late, lose, idle, start, more, view,
}
use net_hive.Engine.Spec.Refine.{refines_queues}
use net_hive.Engine.Setup.{Goroutine}
use net_hive.Engine.Setup.Start.{Ready}
use net_hive.Engine.Setup.Table.{Ready-Elem}

module _ (T : Maps) where
  open T use {m as M}

  VpnStep-routes : (g : Bool) (v v' : Vpn T) (o : Event) → VpnStep T g v v' o → v'.routes ≡ v.routes
  VpnStep-routes g v v' o (accept k p to same _ _ _) = same
  VpnStep-routes g v v' o (dropped p why same) = ap (λ (x : Vpn T). x.routes) same
  VpnStep-routes g v v' o (emit k p to same _ _ _) = same
  VpnStep-routes g v v' o (late k c p to same _ _ _) = same
  VpnStep-routes g v v' o (lose k c same _ _ _ _ _) = same
  VpnStep-routes g v v' o (idle same) = ap (λ (x : Vpn T). x.routes) same

  VpnRun-routes :
      (g : Bool) (v v' : Vpn T) (os : List Event) → VpnRun T g v os v' → v'.routes ≡ v.routes
  VpnRun-routes g v v' os start = refl
  VpnRun-routes g v v' os (more {es} {e} {u} {w} r st) =
      VpnStep-routes g u v' e st ∙ VpnRun-routes g v u es r

  routes_stay : {e e' : Engine T} → IsStart T e → Reach T e e' → e'.net.table.m ≡ e.net.table.m
  routes_stay {e} {e'} s r =
      VpnRun-routes e.enable_broadcast (view T e.net) (view T e'.net) _ (refines_queues T s r).2

  -- The channel is served for a peer that has, in the configuration, the destination in the header
  -- of the packet.
  pub record Addressed {L : Type 0} (cfg : Config L) (n : Net T) (c : ChanRef) (b : Bytes)
      : Type 0 where
    pub worker : Worker
    pub at : n.workers c ≡ some worker
    pub prefix : Prefix
    pub listed : Elem (worker.key, prefix) cfg.peers_route_table
    pub formed : WellFormed b
    pub same : prefix.addr ≡ (decode b).dst

  Addressed-of :
      {L : Type 0} (cfg : Config L) {e e' : Engine T} {gs : List Goroutine} (c : ChanRef)
      (p : Payload)
      → Ready T cfg e gs
      → Reach T e e'
      → Serves T e'.net c p.dst
      → Headed p
      → Addressed cfg e'.net c p.bytes
  Addressed-of cfg {e} {e'} {gs} c p ready r s h = record {
    worker = s.worker;
    at = s.at;
    prefix = s.to.value;
    listed = Ready-Elem T cfg e gs s.worker.key s.to.value ready (
        ap (λ (m : M.Map). M.load m s.worker.key) (sym (routes_stay ready.is_start r))
        ∙ s.to.known);
    formed = h.formed;
    same = s.to.same ∙ h.dst;
  }

  -- An engine that has been started from a configuration writes to a peer only packets for that
  -- peer. In every state that its goroutines reach, a packet that the writing loop of a channel
  -- takes is a well-formed IP packet; the goroutine of the channel serves a peer of the
  -- configuration, to which the configuration gives an address; and that is the destination
  -- address in the header of the packet.
  pub written-Addressed :
      {L : Type 0} (cfg : Config L) {e e' : Engine T} {gs : List Goroutine} (c : ChanRef)
      (b : Bytes) (f : Engine T)
      → Ready T cfg e gs
      → Reach T e e'
      → peer_send T c e' ≡ some (b, f)
      → Addressed cfg e'.net c b
  unfolding peer_send
  written-Addressed cfg {e} {e'} c b f ready r h = elim (List-cases (e'.net.chans c)) [
    | inl empty ↦ cc (rw (empty, peer_send) at h)
    | inr (p, ps, queue) ↦
        let served =
          subst (All (λ p. Serves T e'.net c p.dst)) queue
            (never_misdelivered T ready.is_start r c) in
        let headed = subst (All Headed) queue ((Reach-IsHeaded T ready.is_start r).waiting c) in
        subst_some (λ (x : Bytes × Engine T). Addressed cfg e'.net c x.0) _ (b, f)
          (rw (queue, peer_send) at h) (Addressed-of cfg c p ready r served.0 headed.0)
  ]
