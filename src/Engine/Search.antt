-- ===== src/Engine/Search.antt =====
-- core/engine/search.go, and the first half of `addConn` (core/engine/conn.go): where the addresses
-- of a peer come from, and the stream that is opened to one of them.
pub mod Stream
mod Tests
use net_hive.Engine.Dht.{connect_bootstraps}
use net_hive.Prelude.{
  ℕ, ◌≡◌, Bool, true, false, not, ◌&&◌, Option, none, some, List, [], ◌∷◌, ◌==◌, if◌then◌else◌,
  Bytes, bytes_eq, length,
}

-- `peer.AddrInfo`: libp2p's peer ID in its binary form, and the multiaddresses.
pub record AddrInfo : Type 0 where
  pub id : Bytes
  pub addrs : List Bytes

-- `channelBuffLength`
abbrev pub channel_buff_length : ℕ
channel_buff_length = 10

-- What libp2p and base58 do: `none` stands for an error. `find_peers` gives what arrives on the
-- channel of `FindPeers` until it is closed.
pub record Net : Type 1 where
  pub Stream : Type 0
  pub decode : Bytes → Option Bytes
  pub peer_info : Bytes → AddrInfo
  pub find_peers : Bytes → Option (List AddrInfo)
  -- `host.Connect`, and then `host.NewStream` with the peer's ID.
  pub connect : AddrInfo → Bool
  pub new_stream : Bytes → Option Stream

-- What arrives on the channel of `SearchNode`, and whether it is closed then.
pub record Found : Type 0 where
  pub infos : List AddrInfo
  pub closes : Bool

abbrev pub has_addrs : AddrInfo → Bool
has_addrs info = not (length info.addrs == 0)

module _ (N : Net) where
  -- `searchByCache`: what it sends on the channel, if the context is not done before.
  unfoldable pub search_by_cache : Bytes → List AddrInfo
  search_by_cache id = if has_addrs (N.peer_info id) then N.peer_info id ∷ [] else []

  -- The loop over the peers that the DHT finds.
  unfoldable pub wanted : Bytes → List AddrInfo → List AddrInfo
  wanted id [] = []
  wanted id (info ∷ infos) =
      let rest = wanted id infos in
      if bytes_eq id info.id && has_addrs info then info ∷ rest else rest

  -- `searchByDHT`, with the list of bootstrap nodes and the reports of `connectBootstraps`, which
  -- it calls on an error: what it sends on the channel, and whether it returns.
  unfoldable pub search_by_dht : List Bytes → List Bool → Bytes → List AddrInfo × Bool
  search_by_dht bootstraps reports id = elim (N.find_peers id) [
    | none ↦ elim (connect_bootstraps bootstraps reports) [
      | none ↦ ([], false)
      | some outcome ↦ ([], true)
    ]
    | some infos ↦ (wanted id infos, true)
  ]

  -- `SearchNode`: the two goroutines send to one channel, so that a receiver sees their sequences
  -- interleaved.
  pub data Interleaved : List AddrInfo → List AddrInfo → List AddrInfo → Type 0 where
    finished : Interleaved [] [] []
    left :
        (x : AddrInfo) {xs ys zs : List AddrInfo}
        → Interleaved xs ys zs
        → Interleaved (x ∷ xs) ys (x ∷ zs)
    right :
        (y : AddrInfo) {xs ys zs : List AddrInfo}
        → Interleaved xs ys zs
        → Interleaved xs (y ∷ ys) (y ∷ zs)

  -- The channel is closed when both have returned.
  pub record SearchNode (bootstraps : List Bytes) (reports : List Bool) (id : Bytes) (found : Found)
      : Type 0 where
    pub arrives :
        Interleaved (search_by_cache id) (search_by_dht bootstraps reports id).0 found.infos
    pub closes : found.closes ≡ (search_by_dht bootstraps reports id).1

  -- How `addConn` goes on: with a stream, or it returns, or it waits for the channel.
  pub data Attempt : Type 0 where
    opened : AddrInfo → N.Stream → Attempt
    gave_up waits : Attempt

  -- The loop of `addConn` over the channel. After the last entry it ends if the channel is closed.
  unfoldable pub open_stream : Bool → List AddrInfo → Attempt
  open_stream closes [] = if closes then gave_up else waits
  open_stream closes (info ∷ infos) =
      let rest = open_stream closes infos in
      if N.connect info
      then elim (N.new_stream info.id) [ none ↦ rest | some s ↦ opened info s ]
      else rest

  -- `addConn` up to its loops, at what the channel of `SearchNode` gives for the peer that the text
  -- names.
  unfoldable pub add_conn : Bytes → (Bytes → Found) → Attempt
  add_conn id found = elim (N.decode id) [
    | none ↦ gave_up
    | some idr ↦ open_stream (found idr).closes (found idr).infos
  ]
