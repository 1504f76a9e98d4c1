-- ===== src/Metrics/Tests.antt =====
-- An example of internal/metrics: three runs, of which one is counted within a check.
use mintmaker.Base.{[], ◌∷◌, List, ◌+◌, ◌≡◌, arith}
use mintmaker.Metrics.{new_backend_probe}
use mintmaker.Metrics.Counts.{
  Round, run_rounds, reported, runs_counted, counted_within, run_rounds_counts,
}

abbrev rounds : List Round
rounds = Round.counted ∷ Round.checked 1 ∷ Round.counted ∷ []

run_rounds_counts_example :
    reported (run_rounds rounds new_backend_probe).0
      + (run_rounds rounds new_backend_probe).1.scheduled_runs
      + counted_within rounds
    ≡ new_backend_probe.scheduled_runs + runs_counted rounds
run_rounds_counts_example = run_rounds_counts rounds new_backend_probe (omega arith)
