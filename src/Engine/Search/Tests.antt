-- ===== src/Engine/Search/Tests.antt =====
-- A peer that the cache does not know, and that the DHT finds beside another.
use net_hive.Engine.Search.{
  AddrInfo, Net, Found, finished, right, SearchNode, search_by_cache, search_by_dht, wanted,
  add_conn,
}
use net_hive.Engine.Search.Stream.{Ends, add_conn_lem}
use net_hive.Prelude.{refl, true, some, [], ◌∷◌, Bytes, bytes_eq}

abbrev peer_a : Bytes
peer_a = 1 ∷ []

abbrev info_a : AddrInfo
info_a = record { id = peer_a; addrs = (9 ∷ []) ∷ [] }

abbrev info_b : AddrInfo
info_b = record { id = 2 ∷ []; addrs = (8 ∷ []) ∷ [] }

abbrev toy_net : Net
toy_net = record {
  Stream = Bytes;
  decode = some;
  peer_info = λ id. record { id = id; addrs = [] };
  find_peers = λ id. some (info_b ∷ info_a ∷ []);
  connect = λ info. true;
  new_stream = some;
}

abbrev found : Bytes → Found
found id = record { infos = info_a ∷ []; closes = true }

found-SearchNode : SearchNode toy_net [] [] peer_a (found peer_a)
unfolding search_by_cache search_by_dht wanted bytes_eq
found-SearchNode = record { arrives = right info_a finished; closes = refl }

add_conn_lem_example : Ends toy_net [] [] peer_a (info_a ∷ []) (add_conn toy_net peer_a found)
add_conn_lem_example = add_conn_lem toy_net [] [] peer_a peer_a found refl refl found-SearchNode
