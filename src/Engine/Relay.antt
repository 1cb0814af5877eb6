-- ===== src/Engine/Relay.antt =====
-- core/engine/relay.go, which collects candidates for relays, and the source of candidates that
-- `Run` (core/engine/engine.go) hands to libp2p.
use net_hive.Prelude.{
  ℕ, zero, suc, ◌+◌, ◌-◌, ◌≤◌, min, ◌≡◌, refl, sym, ap, subst, ◌∙◌, inl, inr, Bool, true, false,
  Option, none, some, List, [], ◌∷◌, ◌++◌, arith, ltb, ltb→lt, if◌then◌else◌, Bytes, Bool-cases,
  length, take, length-append, length-take, All-take, All,
}
mod Tests
use net_hive.Prelude.Int.{ℤ, pos, negsuc}
use net_hive.Engine.{chan_size}
use net_hive.Engine.Search.{AddrInfo, has_addrs}

-- The peerstore: the addresses of a peer.
abbrev pub Peerstore : Type 0
Peerstore = Bytes → List Bytes

-- The `select` that sends a candidate to `relayChan` or drops it.
unfoldable pub offer : List AddrInfo → AddrInfo → List AddrInfo
offer q node = if ltb (length q) chan_size then q ++ node ∷ [] else q

-- The loop over the peers: those without an address are passed over.
unfoldable pub offer_peers : Peerstore → List Bytes → List AddrInfo → List AddrInfo
offer_peers addrs [] q = q
offer_peers addrs (p ∷ ps) q =
    let node : AddrInfo = record { id = p; addrs = addrs p } in
    offer_peers addrs ps (if has_addrs node then offer q node else q)

-- A round of the `select`: the context is done, or the ticker fires and `GetClosestPeers` gives its
-- peers or an error. Meanwhile others may have taken candidates from the channel.
pub data RelayEvent : Type 0 where
  done : RelayEvent
  tick : Option (List Bytes) → RelayEvent
  taken : RelayEvent

abbrev pub rest_of : List AddrInfo → List AddrInfo
rest_of [] = []
rest_of (x ∷ xs) = xs

-- The loop of `autoRelayFinder`: what is in the channel, and whether the loop has ended.
unfoldable pub finder_loop : Peerstore → List RelayEvent → List AddrInfo → List AddrInfo × Bool
finder_loop addrs [] q = (q, false)
finder_loop addrs (done ∷ es) q = (q, true)
finder_loop addrs (tick none ∷ es) q = finder_loop addrs es q
finder_loop addrs (tick (some ps) ∷ es) q = finder_loop addrs es (offer_peers addrs ps q)
finder_loop addrs (taken ∷ es) q = finder_loop addrs es (rest_of q)

unfoldable pub auto_relay_finder :
    Peerstore → List Bytes → List RelayEvent → List AddrInfo → List AddrInfo × Bool
auto_relay_finder addrs peers es q = finder_loop addrs es (offer_peers addrs peers q)

-- The goroutine of the source: what it takes from `relayChan` for a request of `num` candidates,
-- while the context is not done.
unfoldable pub source : ℕ → List AddrInfo → List AddrInfo
source k [] = []
source zero (v ∷ vs) = v ∷ []
source (suc k) (v ∷ vs) = v ∷ source k vs

-- The source for libp2p: `make` of a channel with a negative capacity panics (`none`). The memory
-- for the channel is supposed to be there.
unfoldable pub peer_source : ℤ → List AddrInfo → Option (List AddrInfo)
peer_source (pos k) vs = some (source k vs)
peer_source (negsuc k) vs = none

-- A channel of candidates that are of use: each has an address, and there is room for all.
pub record IsCandidates (q : List AddrInfo) : Type 0 where
  pub useful : All (λ node. has_addrs node ≡ true) q
  pub bounded : length q ≤ chan_size

All-append :
    (P : AddrInfo → Type 0) (xs ys : List AddrInfo) → All P xs → All P ys → All P (xs ++ ys)
All-append P [] ys h g = g
All-append P (x ∷ xs) ys h g = (h.0, All-append P xs ys h.1 g)

offer-IsCandidates :
    (q : List AddrInfo) (node : AddrInfo)
    → has_addrs node ≡ true
    → IsCandidates q
    → IsCandidates (offer q node)
unfolding offer
offer-IsCandidates q node h c = elim (Bool-cases (ltb (length q) chan_size)) [
  | inr full ↦ rw full c
  | inl room ↦ rw room (record {
    useful = All-append _ q (node ∷ []) c.useful (h, tt);
    bounded = omega (arith, length-append q (node ∷ []), ltb→lt (length q) chan_size room);
  })
]

offer_peers-IsCandidates :
    (addrs : Peerstore) (ps : List Bytes) (q : List AddrInfo)
    → IsCandidates q
    → IsCandidates (offer_peers addrs ps q)
unfolding offer_peers
offer_peers-IsCandidates addrs [] q c = c
offer_peers-IsCandidates addrs (p ∷ ps) q c =
    let node : AddrInfo = record { id = p; addrs = addrs p } in
    elim (Bool-cases (has_addrs node)) [
      | inl some_addr ↦
          rw some_addr (
            offer_peers-IsCandidates addrs ps (offer q node)
              (offer-IsCandidates q node some_addr c))
      | inr no_addr ↦ rw no_addr (offer_peers-IsCandidates addrs ps q c)
    ]

rest-IsCandidates : (q : List AddrInfo) → IsCandidates q → IsCandidates (rest_of q)
rest-IsCandidates [] c = c
rest-IsCandidates (x ∷ xs) c = record { useful = c.useful.1; bounded = omega (arith, c.bounded) }

finder_loop-IsCandidates :
    (addrs : Peerstore) (es : List RelayEvent) (q : List AddrInfo)
    → IsCandidates q
    → IsCandidates (finder_loop addrs es q).0
unfolding finder_loop
finder_loop-IsCandidates addrs [] q c = c
finder_loop-IsCandidates addrs (done ∷ es) q c = c
finder_loop-IsCandidates addrs (tick none ∷ es) q c = finder_loop-IsCandidates addrs es q c
finder_loop-IsCandidates addrs (tick (some ps) ∷ es) q c =
    finder_loop-IsCandidates addrs es (offer_peers addrs ps q)
      (offer_peers-IsCandidates addrs ps q c)
finder_loop-IsCandidates addrs (taken ∷ es) q c =
    finder_loop-IsCandidates addrs es (rest_of q) (rest-IsCandidates q c)

auto_relay_finder-IsCandidates :
    (addrs : Peerstore) (peers : List Bytes) (es : List RelayEvent) (q : List AddrInfo)
    → IsCandidates q
    → IsCandidates (auto_relay_finder addrs peers es q).0
unfolding auto_relay_finder
auto_relay_finder-IsCandidates addrs peers es q c =
    finder_loop-IsCandidates addrs es (offer_peers addrs peers q)
      (offer_peers-IsCandidates addrs peers q c)

source-take : (k : ℕ) (q : List AddrInfo) → source k q ≡ take (suc k) q
unfolding source
source-take zero [] = refl
source-take (suc k) [] = refl
source-take zero (v ∷ vs) = refl
source-take (suc k) (v ∷ vs) = ap (λ xs. v ∷ xs) (source-take k vs)

source-useful :
    (k : ℕ) (q : List AddrInfo)
    → All (λ node. has_addrs node ≡ true) q
    → All (λ node. has_addrs node ≡ true) (source k q)
source-useful k q h =
    subst (All (λ node. has_addrs node ≡ true)) (sym (source-take k q))
      (All-take (λ node. has_addrs node ≡ true) (suc k) q h)

-- For a request of `num` candidates the source takes one more than `num` from the channel, if there
-- are so many, in their order; and it panics if `num` is negative.
pub peer_source_lem :
    (num : ℕ) (q : List AddrInfo)
    → (peer_source (pos num) q ≡ some (take (num + 1) q))
      × (length (take (num + 1) q) ≡ min (num + 1) (length q))
      × (peer_source (negsuc num) q ≡ none)
unfolding peer_source
peer_source_lem num q =
    let same : num + 1 ≡ suc num = omega arith in
    rw same (ap some (source-take num q), length-take (suc num) q ∙ omega arith, refl)

-- However its rounds go, `autoRelayFinder` puts only candidates with an address on the channel, and
-- never more than the channel holds; and for a request of any number that is not negative the
-- source of candidates hands libp2p only such.
pub candidates_lem :
    (addrs : Peerstore) (peers : List Bytes) (es : List RelayEvent) (q : List AddrInfo)
    → IsCandidates q
    → IsCandidates (auto_relay_finder addrs peers es q).0
      × ((num : ℕ)
          → (out : List AddrInfo) × (peer_source (pos num) (auto_relay_finder addrs peers es q).0
              ≡ some out)
            × All (λ node. has_addrs node ≡ true) out)
unfolding peer_source
candidates_lem addrs peers es q c =
    let after = auto_relay_finder-IsCandidates addrs peers es q c in
    (after, λ num. (source num _, refl, source-useful num _ after.useful))
