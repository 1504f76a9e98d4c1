-- ===== src/Metrics.antt =====
-- internal/metrics: `BackendProbe` and the counters of scheduled pipeline runs. The counter is 32
-- bits wide; each atomic operation on it is one step. The gauges are Prometheus's.
mod Counts
mod Tests
use mintmaker.Base.{
  ℕ, zero, suc, ◌+◌, ◌-◌, ◌%◌, ◌^◌, Bool, true, false, Option, none, some, List, [], ◌∷◌, ltb,
  if◌then◌else◌,
}

-- `BackendProbe`, with the bits of its counter
pub record BackendProbe : Type 0 where
  pub scheduled_runs : ℕ

-- A value of a gauge, which is a signed integer here.
pub data Gauge : Type 0 where
  pos : ℕ → Gauge
  negsuc : ℕ → Gauge

-- `NewBackendProbe`
abbrev pub new_backend_probe : BackendProbe
new_backend_probe = record { scheduled_runs = 0 }

-- `AddEvent`
unfoldable pub add_event : BackendProbe → BackendProbe
add_event q = record { scheduled_runs = (q.scheduled_runs + 1) % 2 ^ 32 }

-- `float64` of an `int32`
unfoldable pub signed : ℕ → Gauge
signed n = if ltb n (2 ^ 31) then Gauge.pos n else Gauge.negsuc (2 ^ 32 - n - 1)

-- The two steps of `CheckEvents`: it reads the counter, and on its return it sets it to zero.
unfoldable pub load_events : BackendProbe → Gauge
load_events q = signed q.scheduled_runs

unfoldable pub store_zero : BackendProbe → BackendProbe
store_zero q = record { scheduled_runs = 0 }

unfoldable pub add_events : ℕ → BackendProbe → BackendProbe
add_events zero q = q
add_events (suc n) q = add_events n (add_event q)

-- `CheckEvents`, with the number of events that others add between its two steps
unfoldable pub check_events : ℕ → BackendProbe → Gauge × BackendProbe
check_events between q = (load_events q, store_zero (add_events between q))

-- The variables of the package, and the two values of the gauge
pub record Metrics : Type 0 where
  pub probe_success : Option BackendProbe
  pub probe_failure : Option BackendProbe
  pub success : Option Gauge
  pub failure : Option Gauge

unfoldable pub probe_or_new : Option BackendProbe → BackendProbe
probe_or_new none = new_backend_probe
probe_or_new (some q) = q

-- `CountScheduledRunSuccess`
unfoldable pub count_scheduled_run_success : Metrics → Metrics
count_scheduled_run_success m = record m {
  probe_success = some (add_event (probe_or_new m.probe_success));
}

-- `CountScheduledRunFailure`
unfoldable pub count_scheduled_run_failure : Metrics → Metrics
count_scheduled_run_failure m = record m {
  probe_failure = some (add_event (probe_or_new m.probe_failure));
}

unfoldable pub check_success : ℕ → Option BackendProbe → Metrics → Metrics
check_success between none m = m
check_success between (some q) m =
    let checked = check_events between q in
    record m { probe_success = some checked.1; success = some checked.0 }

unfoldable pub check_failure : ℕ → Option BackendProbe → Metrics → Metrics
check_failure between none m = m
check_failure between (some q) m =
    let checked = check_events between q in
    record m { probe_failure = some checked.1; failure = some checked.0 }

-- `checkProbes`, with the numbers of events that are added between the steps of each check
unfoldable pub check_probes : ℕ → ℕ → Metrics → Metrics
check_probes during during' m =
    let first = check_success during m.probe_success m in
    check_failure during' first.probe_failure first
