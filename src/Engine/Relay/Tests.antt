-- ===== src/Engine/Relay/Tests.antt =====
-- Two peers, one of them without an address, and a request of one candidate.
use net_hive.Prelude.{
  ℕ, zero, suc, ◌≡◌, true, none, some, List, [], ◌∷◌, arith, Bytes, length, take, All,
}
use net_hive.Prelude.Int.{pos, negsuc}
use net_hive.Engine.Search.{AddrInfo, has_addrs}
use net_hive.Engine.Relay.{
  RelayEvent, tick, taken, done, auto_relay_finder, peer_source, IsCandidates, candidates_lem,
  peer_source_lem,
}

unfoldable toy_addrs : Bytes → List Bytes
toy_addrs (suc zero ∷ bs) = []
toy_addrs bs = bs ∷ []

abbrev node : ℕ → AddrInfo
node n = record { id = n ∷ []; addrs = (n ∷ []) ∷ [] }

abbrev peers : List Bytes
peers = (1 ∷ []) ∷ (2 ∷ []) ∷ []

abbrev rounds : List RelayEvent
rounds = taken ∷ tick (some peers) ∷ done ∷ []

candidates_lem_example :
    IsCandidates (auto_relay_finder toy_addrs peers rounds []).0
    × ((num : ℕ)
        → (out : List AddrInfo) × (peer_source
              (pos num)
              (auto_relay_finder toy_addrs peers rounds []).0
            ≡ some out)
          × All (λ node. has_addrs node ≡ true) out)
candidates_lem_example =
    candidates_lem toy_addrs peers rounds [] (record { useful = tt; bounded = omega arith })

peer_source_lem_example :
    (peer_source (pos 1) (node 2 ∷ node 3 ∷ node 4 ∷ []) ≡ some (node 2 ∷ node 3 ∷ []))
    × (length (take 2 (node 2 ∷ node 3 ∷ node 4 ∷ [])) ≡ 2)
    × (peer_source (negsuc 1) (node 2 ∷ node 3 ∷ node 4 ∷ []) ≡ none)
peer_source_lem_example = peer_source_lem 1 (node 2 ∷ node 3 ∷ node 4 ∷ [])
