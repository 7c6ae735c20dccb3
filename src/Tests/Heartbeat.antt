-- ===== src/Tests/Heartbeat.antt =====
-- A run of the heartbeat collector, with a database that fails.
use tacktcix.Prelude.{ℕ, ◌+◌, ◌≡◌, true, false, List, [], ◌∷◌, length}
use tacktcix.Prelude.Int.{pos}
use tacktcix.Prelude.Outcome.{ok, raise, runtime_error}
use tacktcix.Heartbeat.{Clock, Figures, MetricsDb, new_collector}
use tacktcix.Heartbeat.Totals.{
  Operation, started, ended, apply_all, counted, sum_from, collector_totals,
}
use tacktcix.Tests.Fixed.{fixed}

abbrev db : MetricsDb fixed
db = record {
  World = ℕ;
  insert_heartbeat = λ r w. (raise runtime_error, w);
  get_agent_summary = λ since w. (ok [], w);
  get_failure_rate = λ since w. (ok 0, w);
  get_sleep_trend = λ agent limit w. (ok [], w);
  health = λ w. (true, w);
}

abbrev clock : Clock fixed
clock = record { time = λ n. n; int_of = λ x. pos x }

abbrev figures : Figures
figures = record {
  scanned = pos 5;
  failures = pos 1;
  executed = pos 4;
  sleep_interval_ms = pos 100;
  status = "healthy";
  error_message = "";
}

-- The second end finds no cycle.
abbrev calls : List Operation
calls = started "a" "w1" ∷ ended "a" figures ∷ ended "a" figures ∷ []

collector_totals_example :
    let c = apply_all {db = db} clock calls (new_collector 0) in
    let xs = counted (λ a. false) calls in
    (c.total_scanned ≡ sum_from (pos 0) (λ x. x.scanned) xs)
    × (c.total_failures ≡ sum_from (pos 0) (λ x. x.failures) xs)
    × (c.total_executed ≡ sum_from (pos 0) (λ x. x.executed) xs)
    × (c.total_cycles ≡ length xs)
    × (c.flush_count + c.flush_errors ≡ length xs)
collector_totals_example = collector_totals db clock 0 calls
