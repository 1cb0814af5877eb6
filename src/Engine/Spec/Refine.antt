-- ===== src/Engine/Spec/Refine.antt =====
-- The goroutines of the engine keep the promise of the packet path.
use net_hive.Prelude.{
  ◌≡◌, sym, ap, subst, ◌∙◌, inl, inr, Bool, some, List, [], ◌∷◌, ◌++◌, Bytes, List-cases,
}
use net_hive.Engine.{PeerId, ChanRef, Maps, Net, Engine}
use net_hive.Engine.Conn.{exit_addr}
use net_hive.Engine.Conn.Lookup.{IsNet}
use net_hive.Engine.Stream.{peer_send}
use net_hive.Engine.System.{
  Step, read, route, write, dial, serve, send, receive, leave, end, IsStart, Reach, here, next,
}
use net_hive.Engine.System.Moves.{net_after, read-still, write-still, receive-still}
use net_hive.Engine.System.Flag.{Reach-flag}
use net_hive.Engine.System.Safety.{Reach-IsValid}
use net_hive.Engine.Spec.{
  Vpn, VpnStep, Event, took, silent, idle, VpnRun, start, more, behind, view, abandoned,
}
use net_hive.Engine.Spec.Route.{route_packet-VpnStep}
use net_hive.Engine.Spec.Ends.{to_peer, take-VpnStep, leave-view, exit_id-VpnStep}

module _ (T : Maps) where
  open T use {m as M, id as I, addr as A}

  send-VpnStep :
      (g : Bool) (e e' : Engine T) (c : ChanRef) (b : Bytes)
      → IsNet T e.net
      → peer_send T c e ≡ some (b, e')
      → VpnStep T g (view T e.net) (view T e'.net) (to_peer T (e.net.workers c) b)
  unfolding peer_send
  send-VpnStep g e e' c b v h = elim (List-cases (e.net.chans c)) [
    | inl empty ↦ cc (rw (empty, peer_send) at h)
    | inr (p, ps, queue) ↦
        let after = rw (queue, peer_send) at h in
        let is : p.bytes ≡ b = cc (after) in
        subst (λ b. VpnStep T g (view T e.net) (view T e'.net) (to_peer T (e.net.workers c) b)) is
          (subst
            (λ (n : Net T).
              VpnStep T g (view T e.net) (view T n) (to_peer T (e.net.workers c) p.bytes))
            (sym (net_after T _ (b, e') after)) (take-VpnStep T g c p ps v queue))
  ]

  seen_as :
      (g : Bool) {n n' : Net T} (v : Vpn T) (o : Event)
      → n' ≡ n
      → VpnStep T g v (view T n) o
      → VpnStep T g v (view T n') o
  seen_as g v o same = subst (λ (n : Net T). VpnStep T g v (view T n) o) (sym same)

  -- What is seen of a step, and of a run.
  unfoldable pub event : {e e' : Engine T} → Step T e e' → Event
  event (route p ps h same) = took p
  event {e} (send c b w h) = to_peer T (e.net.workers c) b
  event _ = silent

  unfoldable pub trace : {e e' : Engine T} → Reach T e e' → List Event
  trace here = []
  trace (next r st) = trace r ++ event st ∷ []

  Step-VpnStep :
      {e e' : Engine T} (st : Step T e e')
      → IsNet T e.net
      → VpnStep T e.enable_broadcast (view T e.net) (view T e'.net) (event st)
  unfolding exit_addr event
  Step-VpnStep {e} {e'} (read r o h) v = idle (ap (view T) (read-still T e e' r o h))
  Step-VpnStep {e} {e'} (route p ps h same) v =
      seen_as e.enable_broadcast (view T e.net) (took p) (ap (λ (x : Engine T). x.net) same)
        (route_packet-VpnStep T p (record e { dev_reader = ps }) v)
  Step-VpnStep {e} {e'} (write b h) v = idle (ap (view T) (write-still T e e' b h))
  Step-VpnStep {e} {e'} (send c b w h) v = send-VpnStep e.enable_broadcast e e' c b v h
  Step-VpnStep {e} {e'} (receive msg h) v = idle (ap (view T) (receive-still T e e' msg h))
  Step-VpnStep {e} {e'} (dial c w at runs same) v = idle (ap (λ (x : Engine T). view T x.net) same)
  Step-VpnStep {e} {e'} (serve id c takes same) v = idle (ap (λ (x : Engine T). view T x.net) same)
  Step-VpnStep {e} {e'} (leave c w at runs same) v =
      idle (ap (λ (x : Engine T). view T x.net) same ∙ leave-view T e.net c w at)
  Step-VpnStep {e} {e'} (end c w at leaves same) v =
      seen_as e.enable_broadcast (view T e.net) silent (ap (λ (x : Engine T). x.net) same) (
        exit_id-VpnStep T e.enable_broadcast e.net c w v.tables at
          (v.tables.live_id c w at (λ gone. cc (gone, leaves))))

  Reach-VpnRun :
      {e e' : Engine T}
      → IsStart T e
      → (r : Reach T e e') → VpnRun T e.enable_broadcast (view T e.net) (trace r) (view T e'.net)
  unfolding trace
  Reach-VpnRun s here = start
  Reach-VpnRun s (next {f} {g} r st) = more (Reach-VpnRun s r) (
      subst (λ (b : Bool). VpnStep T b (view T f.net) (view T g.net) (event st)) (Reach-flag T r)
        (Step-VpnStep st (Reach-IsValid T s r).net))

  -- The packet path refines queues for the peers, and what is seen of a run of the goroutines is
  -- what is seen of the queues: the packets that the router takes from the device's queue, each
  -- with its address, and the bytes that are written to a peer. In every run from a start without
  -- connections and with empty queues, no queue has a packet at the start, and none is given up.
  -- Then a packet that is taken goes to the end of the queue of a peer that the route table has at
  -- its address; or it is dropped, but only if it is for a group in broadcast mode, or the route
  -- table has no peer at its address, or the queue of one that it has there is full. Bytes that are
  -- written to a peer are those of the first packet of the peer's queue, or of a queue of the peer
  -- that was given up, which the packet leaves, and whose address is one of the peer. When the
  -- goroutine of a peer ends, the peer's queue is given up as it is. Nothing else changes a queue
  -- or the routes.
  pub refines_queues :
      {e e' : Engine T}
      → IsStart T e
      → (r : Reach T e e')
      → ((k : PeerId) → (view T e.net).waiting k ≡ [])
        × ((k : PeerId) (c : ChanRef) → (view T e.net).given_up k c ≡ [])
        × VpnRun T e.enable_broadcast (view T e.net) (trace r) (view T e'.net)
  unfolding behind abandoned
  refines_queues {e} s r = (
    λ k.
        ap (λ (m : I.Map). behind T e.net.chans (I.load m k)) s.id_empty
        ∙ ap (behind T e.net.chans) (I.load-empty k),
    λ k c. ap (λ o. abandoned T o (I.load e.net.table.id k) k c (e.net.chans c)) (s.no_workers c),
    Reach-VpnRun s r,
  )
