-- ===== src/Engine/Stream/Handler.antt =====
-- Which streams `VPNHandler` serves, and with which packets.
use net_hive.Prelude.{
  ◌≡◌, refl, ap, subst, ◌∙◌, ◌≢◌, ◌⊎◌, inl, inr, none, some, List, [], ◌∷◌, Option-cases, All,
}
use net_hive.Netip.{Prefix}
use net_hive.Engine.{
  Payload, PeerId, ChanRef, Maps, Net, Engine, Phase, running, leaving, ended, Worker,
}
use net_hive.Engine.Conn.Tables.{Routes}
use net_hive.Engine.Conn.Queues.{Serves}
use net_hive.Engine.Conn.Lookup.{IsNet}
use net_hive.Engine.Stream.{Handling, refused, no_channel, serves, vpn_handler}
use net_hive.Engine.System.{IsStart, Reach}
use net_hive.Engine.System.Safety.{Reach-IsValid}

module _ (T : Maps) where
  open T use {m as M, id as I}

  module _ (id : PeerId) (n : Net T) where
    -- What each outcome says of the peer and the state.
    abbrev pub Handled : Handling → Type 0
    Handled refused = M.load n.table.m id ≡ none
    Handled no_channel =
        ((p : Prefix) × (M.load n.table.m id ≡ some p))
        × ((c : ChanRef) (w : Worker) → n.workers c ≡ some w → w.key ≡ id → w.phase ≡ ended)
    Handled (serves c) =
        ((p : Prefix) × (M.load n.table.m id ≡ some p))
        × ((w : Worker) × (n.workers c ≡ some w) × (w.key ≡ id))
        × All (λ p. Routes T n.table.m id p.dst) (n.chans c)

  is_ended : (p : Phase) → (p ≡ ended) ⊎ (p ≢ ended)
  is_ended running = inr (λ e. cc (e))
  is_ended leaving = inr (λ e. cc (e))
  is_ended ended = inl refl

  -- What a channel's goroutine may serve is for the goroutine's peer.
  all_for :
      (n : Net T) (id : PeerId) (c : ChanRef) (w : Worker) (ps : List Payload)
      → n.workers c ≡ some w
      → w.key ≡ id
      → All (λ p. Serves T n c p.dst) ps
      → All (λ p. Routes T n.table.m id p.dst) ps
  all_for n id c w [] at key h = tt
  all_for n id c w (p ∷ ps) at key h =
      let same : h.0.worker ≡ w = cc (h.0.at, at) in
      (
        subst (λ k. Routes T n.table.m k p.dst) (ap (λ (w : Worker). w.key) same ∙ key) h.0.to,
        all_for n id c w ps at key h.1,
      )

  vpn_handler-Handled : (id : PeerId) (n : Net T) → IsNet T n → Handled id n (vpn_handler T id n)
  unfolding vpn_handler
  vpn_handler-Handled id n v = elim (Option-cases (M.load n.table.m id)) [
    | inl stranger ↦ rw (stranger, vpn_handler) stranger
    | inr (p, known) ↦ elim (Option-cases (I.load n.table.id id)) [
      | inl alone ↦
          rw (known, alone, vpn_handler)
            (
              (p, known),
              λ c w at key. elim (is_ended w.phase) [
                | inl gone ↦ gone
                | inr lives ↦ cc (v.tables.live_id c w at lives, alone, ap (I.load n.table.id) key)
              ],
            )
      | inr (c, there) ↦
          let (w, at, key, live) = v.tables.id_live id c there in
          rw (known, there, vpn_handler)
            ((p, known), (w, at, key), all_for n id c w (n.chans c) at key (v.queues.meant c))
    ]
  ]

  -- `VPNHandler` lets in peers of the route table only, and hands them nothing that is not theirs.
  -- In every state that the goroutines reach from a start without connections and with empty
  -- queues: a stream is closed only for a peer without a route; it is left without a channel only
  -- for a peer with a route whose goroutines have all ended; and otherwise the peer has a route,
  -- the channel that the handler serves is that of a goroutine for this very peer, and each packet
  -- that waits there is for an address that the route table gives to the peer.
  pub vpn_handler_lem :
      {e e' : Engine T}
      → IsStart T e
      → Reach T e e'
      → (id : PeerId) → Handled id e'.net (vpn_handler T id e'.net)
  vpn_handler_lem {e} {e'} s r id = vpn_handler-Handled id e'.net (Reach-IsValid T s r).net
