-- ===== src/Engine/Dht/Bootstraps.antt =====
-- When `connectBootstraps` returns, and what.
use net_hive.Prelude.{
  ℕ, suc, ◌+◌, ◌≤◌, ◌<◌, ◌≡◌, refl, ap, inl, inr, Bool, true, false, ◌&&◌, ◌||◌, Option, none, some,
  List, [], ◌∷◌, arith, if◌then◌else◌, Bytes, Bool-cases, Option-cases, length, Result, ok, err,
}
use net_hive.Engine.Dht.{
  BootstrapError, Dialer, no_bootstrap, dialled, reports, wait_reports, connect_bootstraps,
}

-- How many reports are `b`.
unfoldable pub count : Bool → List Bool → ℕ
count b [] = 0
count true (true ∷ rs) = count true rs + 1
count true (false ∷ rs) = count true rs
count false (true ∷ rs) = count false rs
count false (false ∷ rs) = count false rs + 1

-- The reports arrive in any order.
abbrev pub Arrives : List Bool → List Bool → Type 0
Arrives arrived sent = (b : Bool) → count b arrived ≡ count b sent

wait_reports-ok :
    (total fcnt : ℕ) (rs : List Bool)
    → 0 < count true rs
    → fcnt + count false rs < total
    → wait_reports total fcnt rs ≡ some (ok tt)
unfolding wait_reports count
wait_reports-ok total fcnt [] h g = absurd (omega arith)
wait_reports-ok total fcnt (true ∷ rs) h g = refl
wait_reports-ok total fcnt (false ∷ rs) h g = ground (arith, wait_reports-ok total (fcnt + 1) rs)

wait_reports-none :
    (total fcnt : ℕ) (rs : List Bool)
    → count true rs ≡ 0
    → fcnt + count false rs < total
    → wait_reports total fcnt rs ≡ none
unfolding wait_reports count
wait_reports-none total fcnt [] h g = refl
wait_reports-none total fcnt (true ∷ rs) h g = absurd (omega (arith, h))
wait_reports-none total fcnt (false ∷ rs) h g =
    ground (arith, wait_reports-none total (fcnt + 1) rs)

wait_reports-err :
    (total fcnt : ℕ) (rs : List Bool)
    → count true rs ≡ 0
    → fcnt < total
    → total ≤ fcnt + count false rs
    → wait_reports total fcnt rs ≡ some (err no_bootstrap)
unfolding wait_reports count
wait_reports-err total fcnt [] h g k = absurd (omega arith)
wait_reports-err total fcnt (true ∷ rs) h g k = absurd (omega (arith, h))
wait_reports-err total fcnt (false ∷ rs) h g k =
    ground (arith, wait_reports-err total (fcnt + 1) rs)

wait_reports_silent :
    (total fcnt : ℕ) (rs : List Bool)
    → count true rs ≡ 0
    → count false rs ≡ 0
    → wait_reports total fcnt rs ≡ none
unfolding wait_reports count
wait_reports_silent total fcnt [] h g = refl
wait_reports_silent total fcnt (true ∷ rs) h g = absurd (omega (arith, h))
wait_reports_silent total fcnt (false ∷ rs) h g = absurd (omega (arith, g))

module _ (D : Dialer) where
  -- One report for each address that is dialled.
  count-reports :
      (infos : List D.AddrInfo)
      → count true (reports D infos) + count false (reports D infos) ≡ length infos
  unfolding reports count
  count-reports [] = refl
  count-reports (a ∷ infos) = elim (Bool-cases (D.connect a)) [
    | inl up ↦ rw up (omega (arith, count-reports infos))
    | inr down ↦ rw down (omega (arith, count-reports infos))
  ]

  length-dialled : (ss : List Bytes) → length (dialled D ss) ≤ length ss
  unfolding dialled
  length-dialled [] = omega arith
  length-dialled (s ∷ ss) = elim (Option-cases (D.parse s)) [
    | inl bad ↦ rw (bad, dialled) (omega (arith, length-dialled ss))
    | inr (a, good) ↦ rw (good, dialled) (omega (arith, length-dialled ss))
  ]

  module _ (ss : List Bytes) (arrived : List Bool)
      (a : Arrives arrived (reports D (dialled D ss))) where
    -- If a bootstrap node of the list can be reached, `connectBootstraps` succeeds, in whatever
    -- order the reports of the goroutines arrive and whatever the other nodes do.
    connect_bootstraps-ok :
        0 < count true (reports D (dialled D ss)) → connect_bootstraps ss arrived ≡ some (ok tt)
    unfolding connect_bootstraps
    connect_bootstraps-ok up =
        wait_reports-ok (length ss) 0 arrived (omega (arith, a true))
          (omega (arith, a true, a false, count-reports (dialled D ss), length-dialled ss))

    -- If the list is not empty, each of its addresses parses and none of the nodes can be reached,
    -- `connectBootstraps` returns its error, once all reports have arrived, in whatever order.
    connect_bootstraps-err :
        0 < length ss
        → length (dialled D ss) ≡ length ss
        → count true (reports D (dialled D ss)) ≡ 0
        → connect_bootstraps ss arrived ≡ some (err no_bootstrap)
    unfolding connect_bootstraps
    connect_bootstraps-err some_nodes parsed down =
        wait_reports-err (length ss) 0 arrived (omega (arith, a true, down)) some_nodes
          (omega (arith, a false, down, parsed, count-reports (dialled D ss)))

    -- If an address of the list does not parse and none of the nodes can be reached,
    -- `connectBootstraps` never returns: it still waits when all reports have arrived.
    connect_bootstraps-waits :
        length (dialled D ss) < length ss
        → count true (reports D (dialled D ss)) ≡ 0
        → connect_bootstraps ss arrived ≡ none
    unfolding connect_bootstraps
    connect_bootstraps-waits bad down =
        wait_reports-none (length ss) 0 arrived (omega (arith, a true, down))
          (omega (arith, a false, down, bad, count-reports (dialled D ss)))

  -- What a list comes to, without goroutines and reports: whether some node of it answers, and
  -- whether all its addresses parse.
  unfoldable pub answers : Bytes → Bool
  answers s = elim (D.parse s) [ none ↦ false | some a ↦ D.connect a ]

  unfoldable pub parses : Bytes → Bool
  parses s = elim (D.parse s) [ none ↦ false | some a ↦ true ]

  unfoldable pub some_answer : List Bytes → Bool
  some_answer [] = false
  some_answer (s ∷ ss) = answers s || some_answer ss

  unfoldable pub all_parse : List Bytes → Bool
  all_parse [] = true
  all_parse (s ∷ ss) = parses s && all_parse ss

  unfoldable pub outcome : List Bytes → Option (Result BootstrapError (Unit {0}))
  outcome [] = none
  outcome (s ∷ ss) =
      if some_answer (s ∷ ss)
      then some (ok tt)
      else if all_parse (s ∷ ss)
      then some (err no_bootstrap)
      else none

  some_up : (ss : List Bytes) → some_answer ss ≡ true → 0 < count true (reports D (dialled D ss))
  unfolding some_answer answers dialled reports count
  some_up [] h = cc (h)
  some_up (s ∷ ss) h = elim (Option-cases (D.parse s)) [
    | inl bad ↦ rw (bad, dialled) (some_up ss (rw (bad, answers) at h))
    | inr (a, good) ↦ elim (Bool-cases (D.connect a)) [
      | inl up ↦ rw (good, dialled, up) (omega arith)
      | inr down ↦ rw (good, dialled, down) (some_up ss (rw (good, answers, down) at h))
    ]
  ]

  none_up : (ss : List Bytes) → some_answer ss ≡ false → count true (reports D (dialled D ss)) ≡ 0
  unfolding some_answer answers dialled reports count
  none_up [] h = refl
  none_up (s ∷ ss) h = elim (Option-cases (D.parse s)) [
    | inl bad ↦ rw (bad, dialled) (none_up ss (rw (bad, answers) at h))
    | inr (a, good) ↦ elim (Bool-cases (D.connect a)) [
      | inl up ↦ cc (rw (good, answers, up) at h)
      | inr down ↦ rw (good, dialled, down) (none_up ss (rw (good, answers, down) at h))
    ]
  ]

  all_dialled : (ss : List Bytes) → all_parse ss ≡ true → length (dialled D ss) ≡ length ss
  unfolding all_parse parses dialled
  all_dialled [] h = refl
  all_dialled (s ∷ ss) h = elim (Option-cases (D.parse s)) [
    | inl bad ↦ cc (rw (bad, parses) at h)
    | inr (a, good) ↦ rw (good, dialled) (ap suc (all_dialled ss (rw (good, parses) at h)))
  ]

  some_skipped : (ss : List Bytes) → all_parse ss ≡ false → length (dialled D ss) < length ss
  unfolding all_parse parses dialled
  some_skipped [] h = cc (h)
  some_skipped (s ∷ ss) h = elim (Option-cases (D.parse s)) [
    | inl bad ↦ rw (bad, dialled) (omega (arith, length-dialled ss))
    | inr (a, good) ↦ rw (good, dialled) (omega (arith, some_skipped ss (rw (good, parses) at h)))
  ]

  -- In whatever order the reports of its goroutines arrive, `connectBootstraps` comes to what the
  -- list says: it succeeds if some node of the list answers; if none does and all addresses parse
  -- it returns its error; and if none does and some address does not parse, or the list is empty,
  -- it never returns.
  pub connect_bootstraps_lem :
      (ss : List Bytes) (arrived : List Bool)
      → Arrives arrived (reports D (dialled D ss))
      → connect_bootstraps ss arrived ≡ outcome ss
  unfolding outcome connect_bootstraps dialled reports count
  connect_bootstraps_lem [] arrived a = wait_reports_silent 0 0 arrived (a true) (a false)
  connect_bootstraps_lem (s ∷ ss) arrived a = elim (Bool-cases (some_answer (s ∷ ss))) [
    | inl up ↦ rw up (connect_bootstraps-ok (s ∷ ss) arrived a (some_up (s ∷ ss) up))
    | inr down ↦ elim (Bool-cases (all_parse (s ∷ ss))) [
      | inl good ↦
          rw (down, good)
            (connect_bootstraps-err (s ∷ ss) arrived a (omega arith) (all_dialled (s ∷ ss) good)
              (none_up (s ∷ ss) down))
      | inr bad ↦
          rw (down, bad)
            (connect_bootstraps-waits (s ∷ ss) arrived a (some_skipped (s ∷ ss) bad)
              (none_up (s ∷ ss) down))
    ]
  ]
