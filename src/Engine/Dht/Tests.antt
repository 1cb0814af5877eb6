-- ===== src/Engine/Dht/Tests.antt =====
-- Three bootstrap nodes, one of which answers, and lists on which none does.
use net_hive.Engine.Dht.{Dialer, connect_bootstraps, reports, dialled, no_bootstrap}
use net_hive.Engine.Dht.Bootstraps.{
  count, Arrives, connect_bootstraps_lem, outcome, some_answer, answers, all_parse, parses,
}
use net_hive.Prelude.{
  ◌≡◌, refl, Bool, true, false, Option, none, some, List, [], ◌∷◌, Bytes, ok, err,
}

-- An empty string does not parse, and a node whose address has one byte answers.
unfoldable toy_parse : Bytes → Option Bytes
toy_parse [] = none
toy_parse (b ∷ bs) = some (b ∷ bs)

unfoldable toy_connect : Bytes → Bool
toy_connect (b ∷ []) = true
toy_connect bs = false

abbrev toy_dialer : Dialer
toy_dialer = record { AddrInfo = Bytes; parse = toy_parse; connect = toy_connect }

abbrev one_up : List Bytes
one_up = (1 ∷ 2 ∷ []) ∷ [] ∷ (3 ∷ []) ∷ []

abbrev all_down : List Bytes
all_down = (1 ∷ 2 ∷ []) ∷ (3 ∷ 4 ∷ []) ∷ []

abbrev one_bad : List Bytes
one_bad = (1 ∷ 2 ∷ []) ∷ [] ∷ []

one_up-Arrives : Arrives (true ∷ false ∷ []) (reports toy_dialer (dialled toy_dialer one_up))
unfolding reports dialled toy_parse toy_connect count
one_up-Arrives true = refl
one_up-Arrives false = refl

all_down-Arrives : Arrives (false ∷ false ∷ []) (reports toy_dialer (dialled toy_dialer all_down))
unfolding reports dialled toy_parse toy_connect count
all_down-Arrives true = refl
all_down-Arrives false = refl

one_bad-Arrives : Arrives (false ∷ []) (reports toy_dialer (dialled toy_dialer one_bad))
unfolding reports dialled toy_parse toy_connect count
one_bad-Arrives true = refl
one_bad-Arrives false = refl

-- One address does not parse and the other node is down: it waits for ever.
connect_bootstraps_lem_example :
    connect_bootstraps one_bad (false ∷ []) ≡ outcome toy_dialer one_bad
connect_bootstraps_lem_example =
    connect_bootstraps_lem toy_dialer one_bad (false ∷ []) one_bad-Arrives

one_bad_waits : outcome toy_dialer one_bad ≡ none
unfolding outcome some_answer answers all_parse parses toy_parse toy_connect
one_bad_waits = refl

one_up_succeeds : outcome toy_dialer one_up ≡ some (ok tt)
unfolding outcome some_answer answers all_parse parses toy_parse toy_connect
one_up_succeeds = refl

all_down_fails : outcome toy_dialer all_down ≡ some (err no_bootstrap)
unfolding outcome some_answer answers all_parse parses toy_parse toy_connect
all_down_fails = refl
