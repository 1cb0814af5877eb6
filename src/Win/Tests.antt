-- ===== src/Win/Tests.antt =====
-- Calls of functions that return their first parameter.
use net_hive.Win.Calls.{IphlpApi, SeesOwn, init_row, init_table, delete_row, free, calls_miss}
use net_hive.Prelude.{ℕ, suc, ◌≡◌, refl, List, [], ◌∷◌, take}

-- Functions that return their first parameter.
abbrev first_word : List ℕ → Unit {0} → ℕ × Unit {0}
first_word [] w = (0, w)
first_word (x ∷ xs) w = (x, w)

abbrev first_api : IphlpApi
first_api = record {
  World = Unit {0};
  initialize_unicast_ip_address_entry = first_word;
  get_unicast_ip_address_table = first_word;
  delete_unicast_ip_address_entry = first_word;
  free_mib_table = first_word;
}

first_word-take :
    (n : ℕ) (args : List ℕ) (w : Unit {0}) → first_word args w ≡ first_word (take (suc n) args) w
first_word-take n [] w = refl
first_word-take n (x ∷ xs) w = refl

first_api-SeesOwn : SeesOwn first_api
first_api-SeesOwn = record {
  initialize = first_word-take 0;
  get_table = first_word-take 1;
  delete = first_word-take 0;
  free_table = first_word-take 0;
}

calls_miss_example :
    (init_row first_api 16 tt ≡ init_row first_api 32 tt)
    × (init_table first_api 16 tt ≡ init_table first_api 32 tt)
    × (delete_row first_api 16 tt ≡ delete_row first_api 32 tt)
    × (free first_api 16 tt ≡ free first_api 32 tt)
calls_miss_example = calls_miss first_api first_api-SeesOwn 16 32 tt
