-- ===== src/Engine/Mdns/Tests.antt =====
-- A service that starts at the second tick, after the context is done.
use net_hive.Prelude.{◌≡◌, refl, true, false, none, some, List, [], ◌∷◌, Bytes}
use net_hive.Engine.Search.{
  AddrInfo, Net, SearchNode, search_by_cache, search_by_dht, left, finished, Found, opened,
  add_conn,
}
use net_hive.Engine.Mdns.Found.{Peerstore, net_of, handle_peer_found, found-add_conn}
use net_hive.Engine.Mdns.{cancelled, tick, mdns_loop, mdns_loop_lem}
use net_hive.Engine.Dht.{connect_bootstraps, wait_reports}

mdns_loop_lem_example :
    (mdns_loop true [] ≡ some 1)
    × (mdns_loop false (tick false ∷ cancelled ∷ cancelled ∷ []) ≡ none)
    × (mdns_loop false (tick false ∷ cancelled ∷ cancelled ∷ tick true ∷ []) ≡ some 5)
mdns_loop_lem_example =
    mdns_loop_lem (tick false ∷ cancelled ∷ cancelled ∷ []) [] (refl, (tt, (tt, tt)))

abbrev peer : AddrInfo
peer = record { id = 1 ∷ []; addrs = (9 ∷ []) ∷ [] }

-- The addresses that were added last, under any ID.
abbrev last_store : Peerstore
last_store = record {
  Store = List Bytes;
  peer_info = λ s id. record { id = id; addrs = s };
  add_addrs = λ s id addrs. addrs;
  id-peer_info = λ s id. refl;
  added = λ s id addrs a e. e;
}

abbrev net : Net
net = record {
  Stream = Bytes;
  decode = some;
  peer_info = λ id. record { id = id; addrs = [] };
  find_peers = λ id. none;
  connect = λ info. true;
  new_stream = some;
}

abbrev found : Bytes → Found
found id = record { infos = peer ∷ []; closes = false }

-- `FindPeers` fails, and without bootstrap nodes `connectBootstraps` never returns.
found-SearchNode :
    SearchNode
      (net_of last_store net (handle_peer_found last_store peer []))
      []
      []
      (1 ∷ [])
      (found (1 ∷ []))
unfolding search_by_cache search_by_dht handle_peer_found connect_bootstraps wait_reports
found-SearchNode = record { arrives = left peer finished; closes = refl }

found-add_conn_example :
    (out : AddrInfo) × (u : Bytes) × (add_conn
        (net_of last_store net (handle_peer_found last_store peer []))
        (1 ∷ [])
        found
      ≡ opened out u)
    × (out.id ≡ 1 ∷ [])
    × (net.connect out ≡ true)
    × (net.new_stream out.id ≡ some u)
found-add_conn_example =
    found-add_conn last_store net peer [] [] [] (1 ∷ []) found (λ e. cc (e)) refl refl (1 ∷ []) refl
      found-SearchNode
