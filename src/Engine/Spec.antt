-- ===== src/Engine/Spec.antt =====
-- What the packet path promises: a queue of packets for each peer, to which only packets for that
-- peer are added, and from which they leave in order, unless the connection to the peer ends.
pub mod GivenUp
pub mod Connect
pub mod Route
pub mod Ends
pub mod Refine
use net_hive.Netip.{Addr}
use net_hive.Engine.Routine.{is_group}
use net_hive.Engine.{chan_size, Payload, PeerId, ChanRef, Maps, Worker, Net}
use net_hive.Engine.Conn.Tables.{Routes}
use net_hive.Prelude.{
  ◌+◌, ◌-◌, ◌≤◌, ◌≡◌, ◌≢◌, ◌⊎◌, Bool, true, false, not, ◌&&◌, Option, none, some, List, [], ◌∷◌,
  ◌++◌, ◌==◌, if◌then◌else◌, Bytes, bytes_eq, length,
}

-- What is seen of a step: a packet is taken from the device's queue, with the address under which
-- it waits there, or bytes are written to a peer.
pub data Event : Type 0 where
  took : Payload → Event
  wrote : PeerId → Bytes → Event
  silent : Event

module _ (T : Maps) where
  open T use {m as M, id as I, addr as A}

  -- The routes, the queue of each peer, and the queues of a peer that were given up, each under a
  -- number.
  pub record Vpn : Type 0 where
    pub routes : M.Map
    pub waiting : PeerId → List Payload
    pub given_up : PeerId → ChanRef → List Payload

  -- No queue but that of the peer changes.
  abbrev pub Only : PeerId → Vpn → Vpn → Type 0
  Only k v v' = (j : PeerId) → j ≢ k → v'.waiting j ≡ v.waiting j

  -- No queue that was given up changes, or only one of the peer.
  abbrev pub SameGivenUp : Vpn → Vpn → Type 0
  SameGivenUp v v' = (j : PeerId) (d : ChanRef) → v'.given_up j d ≡ v.given_up j d

  abbrev pub OnlyGivenUp : PeerId → ChanRef → Vpn → Vpn → Type 0
  OnlyGivenUp k c v v' =
      (j : PeerId) (d : ChanRef) → (j ≢ k) ⊎ (d ≢ c) → v'.given_up j d ≡ v.given_up j d

  -- Why a packet for an address is dropped, with the flag `EnableBroadcast`: it is for a group,
  -- which is not served in that mode; or no peer has the address in the route table; or the queue
  -- of one that has it is full.
  pub data Reason (broadcast : Bool) (v : Vpn) (d : Addr) : Type 0 where
    group : is_group d ≡ true → broadcast ≡ true → Reason broadcast v d
    unrouted : ((k : PeerId) → Routes T v.routes k d → ⊥) → Reason broadcast v d
    crowded :
        (k : PeerId)
        → Routes T v.routes k d
        → chan_size ≤ length (v.waiting k)
        → Reason broadcast v d

  pub data VpnStep (broadcast : Bool) (v v' : Vpn) : Event → Type 0 where
    -- A packet for an address of the peer goes to the end of the peer's queue.
    accept :
        (k : PeerId) (p : Payload)
        → Routes T v.routes k p.dst
        → v'.routes ≡ v.routes
        → v'.waiting k ≡ v.waiting k ++ p ∷ []
        → Only k v v'
        → SameGivenUp v v'
        → VpnStep broadcast v v' (took p)
    dropped : (p : Payload) → Reason broadcast v p.dst → v' ≡ v → VpnStep broadcast v v' (took p)
    -- The first packet of the queue, for an address of the peer, goes to the peer.
    emit :
        (k : PeerId) (p : Payload)
        → Routes T v.routes k p.dst
        → v'.routes ≡ v.routes
        → v.waiting k ≡ p ∷ v'.waiting k
        → Only k v v'
        → SameGivenUp v v'
        → VpnStep broadcast v v' (wrote k p.bytes)
    -- The same for a queue of the peer that was given up.
    late :
        (k : PeerId) (c : ChanRef) (p : Payload)
        → Routes T v.routes k p.dst
        → v'.routes ≡ v.routes
        → ((j : PeerId) → v'.waiting j ≡ v.waiting j)
        → v.given_up k c ≡ p ∷ v'.given_up k c
        → OnlyGivenUp k c v v'
        → VpnStep broadcast v v' (wrote k p.bytes)
    -- The connection to the peer ends, and its queue is given up.
    lose :
        (k : PeerId) (c : ChanRef)
        → v'.routes ≡ v.routes
        → v'.waiting k ≡ []
        → Only k v v'
        → v.given_up k c ≡ []
        → v'.given_up k c ≡ v.waiting k
        → OnlyGivenUp k c v v'
        → VpnStep broadcast v v' silent
    idle : v' ≡ v → VpnStep broadcast v v' silent

  -- A run, with its events in their order.
  pub data VpnRun (broadcast : Bool) (v : Vpn) : List Event → Vpn → Type 0 where
    start : VpnRun broadcast v [] v
    more :
        {es : List Event} {e : Event} {u w : Vpn}
        → VpnRun broadcast v es u
        → VpnStep broadcast u w e
        → VpnRun broadcast v (es ++ e ∷ []) w

  -- The queue behind an entry of the map `id`.
  unfoldable pub behind : (ChanRef → List Payload) → Option ChanRef → List Payload
  behind chans none = []
  behind chans (some c) = chans c

  pub is_at : Option ChanRef → ChanRef → Bool
  is_at none c = false
  is_at (some d) c = d == c

  -- What waits in a channel is given up for a peer if its goroutine is one of that peer, and the
  -- peer's entry of `id` is not this channel.
  unfoldable pub abandoned :
      Option Worker → Option ChanRef → PeerId → ChanRef → List Payload → List Payload
  abandoned none o k c q = []
  abandoned (some w) o k c q = if bytes_eq w.key k && not (is_at o c) then q else []

  abbrev pub gone_at : Net T → PeerId → ChanRef → List Payload
  gone_at n k c = abandoned (n.workers c) (I.load n.table.id k) k c (n.chans c)

  -- The engine as it is seen: the queue of a peer is what waits in the channel that `id` has for
  -- it.
  abbrev pub view : Net T → Vpn
  view n = record {
    routes = n.table.m;
    waiting = λ k. behind n.chans (I.load n.table.id k);
    given_up = gone_at n;
  }

  pub view-ext :
      (n n' : Net T)
      → n'.table.m ≡ n.table.m
      → ((k : PeerId)
          → behind n'.chans (I.load n'.table.id k) ≡ behind n.chans (I.load n.table.id k))
      → ((k : PeerId) (c : ChanRef) → gone_at n' k c ≡ gone_at n k c)
      → view n' ≡ view n
  view-ext n n' m same gone =
      λ i. record { routes = m i; waiting = λ k. same k i; given_up = λ k c. gone k c i }
