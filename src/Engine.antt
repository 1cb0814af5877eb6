-- ===== src/Engine.antt =====
-- core/engine: the state of the engine (engine.go and payload.go), and the channels and pools that
-- its goroutines share.
use net_hive.Prelude.{
  lt→ltb, ltb→lt, ℕ, ◌+◌, ◌-◌, ◌≤◌, ◌≡◌, refl, sym, ap, ◌≢◌, ◌⊎◌, inl, inr, Bool, Option, none,
  some, List, [], ◌∷◌, ◌++◌, arith, ltb, ◌==◌, ==_iff, if◌then◌else◌, Bytes, Bool-cases, length,
  length-append,
}
pub mod Conn
pub mod Routine
pub mod Stream
pub mod System
pub mod Dht
pub mod Search
pub mod Setup
pub mod Relay
pub mod Mdns
pub mod Spec
mod Tests
use net_hive.Netip.{Addr, zero_addr, Prefix}
use native.Mathlib.Decide.{ℕ_discrete, dec_le}
use net_hive.Protocol.{IpPacket}
use net_hive.XMap.{XMap}

abbrev pub buff_size : ℕ
buff_size = 1500

abbrev pub chan_size : ℕ
chan_size = 15000

-- `Payload`. A received payload keeps the addresses that it had when it went back to the pool.
pub record Payload : Type 0 where
  pub src : Addr
  pub dst : Addr
  pub bytes : Bytes

abbrev pub new_payload : Payload
new_payload = record { src = zero_addr; dst = zero_addr; bytes = [] }

-- A peer ID in its text form, and the number of a `PacketChan` in the order of its creation.
abbrev pub PeerId : Type 0
PeerId = Bytes

abbrev pub ChanRef : Type 0
ChanRef = ℕ

-- A send in a `select` with a `default`: `none` if the channel is full.
unfoldable pub try_send : List Payload → Payload → Option (List Payload)
try_send q p = if ltb (length q) chan_size then some (q ++ p ∷ []) else none

pub try_send-some :
    (q : List Payload) (p : Payload) (ps : List Payload)
    → try_send q p ≡ some ps
    → (ps ≡ q ++ p ∷ []) × (length ps ≤ chan_size)
unfolding try_send
try_send-some q p ps h = elim (Bool-cases (ltb (length q) chan_size)) [
  | inl room ↦
      let is : q ++ p ∷ [] ≡ ps = cc (rw room at h) in
      (sym is, omega (arith, ap length is, length-append q (p ∷ []), ltb→lt _ _ room))
  | inr full ↦ cc (rw full at h)
]

pub try_send-none : (q : List Payload) (p : Payload) → try_send q p ≡ none → chan_size ≤ length q
unfolding try_send
try_send-none q p h = elim (dec_le chan_size (length q)) [
  | yes le ↦ le
  | no lt ↦ cc (rw (lt→ltb (length q) chan_size (omega arith)) at h)
]

-- The three maps of `routeTable`, whose implementation is `xsync.Map`.
pub record Maps : Type 1 where
  pub m : XMap PeerId Prefix
  pub id : XMap PeerId ChanRef
  pub addr : XMap Addr ChanRef

-- Where a connection's goroutine stands: in `addConn`, between its two deferred deletions, or
-- ended.
pub data Phase : Type 0 where
  running leaving ended : Phase

-- The goroutine that serves one channel: the peer, and the address for which it was started, if it
-- was started by `addConnByDst`.
pub record Worker : Type 0 where
  pub key : PeerId
  pub dst : Option Addr
  pub phase : Phase

abbrev pub update {ℓ} : {A : Type ℓ} → (ℕ → A) → ℕ → A → ℕ → A
update f i a j = if j == i then a else f j

pub update_self {ℓ} : {A : Type ℓ} (f : ℕ → A) (i : ℕ) (a : A) → update f i a i ≡ a
update_self f i a = rw ((==_iff i i).1 refl)

pub update_ne {ℓ} : {A : Type ℓ} (f : ℕ → A) (i j : ℕ) (a : A) → j ≢ i → update f i a j ≡ f j
update_ne f i j a ne = elim (Bool-cases (j == i)) [
  | inl e ↦ absurd (ne ((==_iff j i).0 e))
  | inr e ↦ rw e
]

pub update_cases {ℓ} :
    {A : Type ℓ} (f : ℕ → A) (i j : ℕ) (a b : A)
    → update f i a j ≡ b
    → ((j ≡ i) × (a ≡ b)) ⊎ ((j ≢ i) × (f j ≡ b))
update_cases f i j a b h = elim (ℕ_discrete j i) [
  | yes e ↦ inl (e, cc (h, update_self f i a, ap (update f i a) e))
  | no ne ↦ inr (ne, cc (h, update_ne f i j a ne))
]

module _ (T : Maps) where
  -- `routeTable`
  pub record RouteTable : Type 0 where
    pub m : T.m.Map
    pub id : T.id.Map
    pub addr : T.addr.Map

  -- The route table with the channels that its maps refer to: `chans` has what waits in each, and
  -- `workers` its goroutine; `fresh` is the number of the next channel.
  pub record Net : Type 0 where
    pub table : RouteTable
    pub chans : ChanRef → List Payload
    pub workers : ChanRef → Option Worker
    pub fresh : ChanRef

  -- `Engine`, as far as the packet path uses it. `buffers` counts the buffers that the pool has
  -- handed out and not got back, `payloads` are the payloads at rest in their pool, and `packets`
  -- the IP packets at rest in theirs. `streams` are the channels whose `addConn` has opened its
  -- stream, and `handlers` those that a `VPNHandler` serves; the loops of both run on local
  -- variables, which stand here.
  pub record Engine : Type 0 where
    pub enable_broadcast : Bool
    pub net : Net
    pub dev_reader : List Payload
    pub dev_writer : List Payload
    pub buffers : ℕ
    pub payloads : List Payload
    pub packets : List IpPacket
    pub streams : List ChanRef
    pub handlers : List ChanRef
