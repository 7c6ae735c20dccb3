-- ===== src/Tests/Metrics.antt =====
-- Runs of the backend's metrics: a history of two checks, and a request that raises.
use tacktcix.Prelude.{
  ℕ, ◌-◌, min, ◌≡◌, ◌⊎◌, refl, true, false, [], ◌∷◌, ◌++◌, map, contains, drop, length,
  if◌then◌else◌, string_eq,
}
use tacktcix.Prelude.Int.{pos, ◌+ℤ◌}
use tacktcix.Prelude.Outcome.{Outcome, raise, runtime_error}
use tacktcix.Metrics.{get_health_history}
use tacktcix.Metrics.History.{Check, record_all, record_of, get_health_history_last}
use tacktcix.Metrics.Middleware.{
  Ends, HttpMetrics, add_in_flight, dispatch_request, dispatch_request_balances, flying,
  metrics_skip_paths,
}
use tacktcix.Tests.Fixed.{fixed}

abbrev good : Check fixed
good = record {
  timestamp = "t1";
  overall = true;
  checks = ("database", true) ∷ [];
  duration_ms = 5;
}

abbrev bad : Check fixed
bad = record {
  timestamp = "t2";
  overall = false;
  checks = ("database", false) ∷ [];
  duration_ms = 9;
}

abbrev round1 : ℕ → ℕ
round1 n = n

get_health_history_last_example :
    let s =
      record_all {f = fixed} round1
        (good ∷ [] ++ bad ∷ [])
        (record { history = []; health_check_status = 1 }) in
    let all = map (record_of {f = fixed} round1) (good ∷ [] ++ bad ∷ []) in
    (get_health_history (pos 1) s ≡ drop (length all - min 1 100) all)
    × (s.health_check_status ≡ (if bad.overall then 1 else 0))
get_health_history_last_example = get_health_history_last {f = fixed} round1 0 1 (good ∷ []) bad

-- An application that fails.
abbrev failing : HttpMetrics → Outcome ℕ × HttpMetrics
failing s = (raise runtime_error, s)

abbrev one_flying : HttpMetrics
one_flying = record { in_flight = ("GET", pos 1) ∷ []; requests = [] }

dispatch_request_balances_example :
    (flying "GET" (dispatch_request failing "/api/health" "GET" one_flying).1
      ≡ flying "GET" one_flying)
    × (((contains "/api/health" metrics_skip_paths ≡ true)
          × (dispatch_request failing "/api/health" "GET" one_flying ≡ failing one_flying))
        ⊎ ((contains "/api/health" metrics_skip_paths ≡ false)
            × Ends "/api/health" "GET"
                (failing (add_in_flight "GET" (λ n. n +ℤ pos 1) one_flying))
                (dispatch_request failing "/api/health" "GET" one_flying)))
dispatch_request_balances_example =
    dispatch_request_balances failing "/api/health" "GET" one_flying (λ s. refl)
