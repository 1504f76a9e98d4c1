-- ===== src/Metrics/Counts.antt =====
-- internal/metrics: which events the gauge reports, and which are lost.
use mintmaker.Base.{ℕ, ◌+◌, ◌^◌, ◌<◌, true, List, [], ◌∷◌, ltb, ◌≡◌, refl, arith}
use mintmaker.Metrics.{
  BackendProbe, Gauge, add_event, signed, load_events, store_zero, add_events, check_events,
}

-- What happens to a counter: a run is counted, or a check begins, so many runs are counted, and it ends.
pub data Round : Type 0 where
  counted : Round
  checked : ℕ → Round

-- The values that the checks report, and the counter at the end.
unfoldable pub run_rounds : List Round → BackendProbe → List Gauge × BackendProbe
run_rounds [] q = ([], q)
run_rounds (Round.counted ∷ rounds) q = run_rounds rounds (add_event q)
run_rounds (Round.checked between ∷ rounds) q =
    let check = check_events between q in
    let rest = run_rounds rounds check.1 in (check.0 ∷ rest.0, rest.1)

-- The sum of the reports; a negative one counts for nothing.
abbrev pub reported : List Gauge → ℕ
reported [] = 0
reported (Gauge.pos n ∷ gauges) = n + reported gauges
reported (Gauge.negsuc n ∷ gauges) = reported gauges

-- All runs that are counted.
abbrev pub runs_counted : List Round → ℕ
runs_counted [] = 0
runs_counted (Round.counted ∷ rounds) = 1 + runs_counted rounds
runs_counted (Round.checked between ∷ rounds) = between + runs_counted rounds

-- Those that are counted within a check.
abbrev pub counted_within : List Round → ℕ
counted_within [] = 0
counted_within (Round.counted ∷ rounds) = counted_within rounds
counted_within (Round.checked between ∷ rounds) = between + counted_within rounds

abbrev width : ℕ
width = 4294967296

add_event_small :
    (q : BackendProbe)
    → q.scheduled_runs + 1 < 2147483648
    → (add_event q).scheduled_runs ≡ q.scheduled_runs + 1
unfolding add_event
add_event_small q h = omega arith

signed_small : (n : ℕ) → n < 2147483648 → signed n ≡ Gauge.pos n
unfolding signed
signed_small n h = let small : ltb n (2 ^ 31) ≡ true = ground arith in rw small refl

-- As long as fewer than 2³¹ runs are counted, all of them are reported or still in the counter,
-- except those that are counted between the two steps of a check, which are lost, each of them.
pub run_rounds_counts :
    (rounds : List Round) (q : BackendProbe)
    → q.scheduled_runs + runs_counted rounds < 2147483648
    → reported (run_rounds rounds q).0
        + (run_rounds rounds q).1.scheduled_runs
        + counted_within rounds
      ≡ q.scheduled_runs + runs_counted rounds
unfolding run_rounds check_events load_events store_zero
run_rounds_counts [] q h = omega arith
run_rounds_counts (Round.counted ∷ rounds) q h =
    let one = add_event_small q (omega arith) in
    let rest = run_rounds_counts rounds (add_event q) (omega arith) in omega arith
run_rounds_counts (Round.checked between ∷ rounds) q h =
    let value = signed_small q.scheduled_runs (omega arith) in
    let rest = run_rounds_counts rounds (store_zero (add_events between q)) (omega arith) in
    rw value (omega arith)
