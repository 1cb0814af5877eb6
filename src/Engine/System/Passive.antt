-- ===== src/Engine/System/Passive.antt =====
-- A node that sends nothing: what it does with the streams of its peers.
use net_hive.Prelude.{◌≡◌, ◌⊎◌, none, some, []}
use net_hive.Netip.{Prefix}
use net_hive.Engine.{PeerId, ChanRef, Maps, Net, Engine}
use net_hive.Engine.Stream.{refused, no_channel, vpn_handler}
use net_hive.Engine.System.{route, Reach, here, next}

module _ (T : Maps) where
  open T use {m as M, id as I}

  -- The node routes no packet.
  unfoldable pub IsPassive : {e e' : Engine T} → Reach T e e' → Type 0
  IsPassive here = Unit
  IsPassive (next r (route p ps h same)) = ⊥
  IsPassive (next r _) = IsPassive r

  -- No peer has a channel, no goroutine was started, and no stream is in use.
  record Silent (e : Engine T) : Type 0 where
    alone : (k : PeerId) → I.load e.net.table.id k ≡ none
    workers : (c : ChanRef) → e.net.workers c ≡ none
    streams : e.streams ≡ []
    handlers : e.handlers ≡ []

  -- What `VPNHandler` does then: it closes the stream of a peer without a route, and returns from
  -- that of a peer with one.
  abbrev pub Turned : Net T → PeerId → Type 0
  Turned n id =
      ((M.load n.table.m id ≡ none) × (vpn_handler T id n ≡ refused))
      ⊎ ((p : Prefix) × (M.load n.table.m id ≡ some p) × (vpn_handler T id n ≡ no_channel))
