-- ===== src/Metrics/Middleware.antt =====
-- PrometheusMiddleware of backend/app/core/metrics.py. The rest of the application is a parameter that
-- may itself change the metrics, as requests that are handled at the same time do.
use tacktcix.Prelude.{
  ℕ, ◌≡◌, refl, ap, subst, sym, ◌∙◌, ◌⊎◌, inl, inr, String, true, false, none, some, List, [], ◌∷◌,
  ◌++◌, eq_refl, string_eq, if◌then◌else◌, contains, Bool-cases,
}
use tacktcix.Prelude.Dict.{Dict, get_or, insert, lookup-insert}
use tacktcix.Prelude.Int.{ℤ, pos, ◌+ℤ◌, ◌-ℤ◌, int_laws}
use tacktcix.Prelude.Outcome.{Outcome, ok, raise, Error, name_error}
use tacktcix.Metrics.Paths.{normalize_path}

-- A request that was counted; the duration is observed with the same labels.
pub record Counted : Type 0 where
  pub method : String
  pub endpoint : String
  pub status : ℕ

pub record HttpMetrics : Type 0 where
  pub in_flight : Dict String ℤ
  pub requests : List Counted

abbrev pub metrics_skip_paths : List String
metrics_skip_paths = "/metrics" ∷ "/metrics/openmetrics" ∷ "/metrics/api" ∷ "/favicon.ico" ∷ []

-- `labels(method=method).inc()` and `.dec()`
unfoldable pub add_in_flight : (method : String) → (ℤ → ℤ) → HttpMetrics → HttpMetrics
add_in_flight method g s = record s {
  in_flight = insert method (g (get_or method (pos 0) s.in_flight)) s.in_flight;
}

-- The end of a request: an exception of the application leaves `response` unbound, and reading it in the
-- `finally` raises another in its place.
unfoldable pub finish_request :
    (path method : String) → Outcome ℕ → HttpMetrics → Outcome ℕ × HttpMetrics
unfolding add_in_flight normalize_path
finish_request path method o s =
    let left = add_in_flight method (λ n. n -ℤ pos 1) s in
    elim o [
      | raise x ↦ (raise name_error, left)
      | ok status ↦ (
        ok status,
        record left {
          requests =
              left.requests
              ++ record { method = method; endpoint = normalize_path path; status = status } ∷ [];
        },
      )
    ]

unfoldable pub dispatch_request :
    (call_next : HttpMetrics → Outcome ℕ × HttpMetrics) (path method : String)
    → HttpMetrics
    → Outcome ℕ × HttpMetrics
unfolding add_in_flight finish_request
dispatch_request call_next path method s =
    if contains path metrics_skip_paths
    then call_next s
    else (let (o, s') = call_next (add_in_flight method (λ n. n +ℤ pos 1) s) in
        finish_request path method o s')

-- How many requests of the method are being handled.
abbrev pub flying : String → HttpMetrics → ℤ
flying method s = get_or method (pos 0) s.in_flight

flying-add_in_flight :
    (m : String) (g : ℤ → ℤ) (s : HttpMetrics) → flying m (add_in_flight m g s) ≡ g (flying m s)
unfolding add_in_flight
flying-add_in_flight m g s =
    ap (λ o. elim o [ none ↦ pos 0 | some w ↦ w ]) (lookup-insert m m _ s.in_flight)
    ∙ rw (eq_refl m) refl

one_less : (n : ℤ) → (n +ℤ pos 1) -ℤ pos 1 ≡ n
one_less n = grind int_laws

flying-finish_request :
    (path method : String) (o : Outcome ℕ) (s : HttpMetrics)
    → flying method (finish_request path method o s).1 ≡ flying method s -ℤ pos 1
unfolding finish_request
flying-finish_request path method (ok status) s = flying-add_in_flight method (λ n. n -ℤ pos 1) s
flying-finish_request path method (raise x) s = flying-add_in_flight method (λ n. n -ℤ pos 1) s

dispatch_request_counted :
    (call_next : HttpMetrics → Outcome ℕ × HttpMetrics) (path method : String) (s : HttpMetrics)
    → contains path metrics_skip_paths ≡ false
    → let after = call_next (add_in_flight method (λ n. n +ℤ pos 1) s) in
      dispatch_request call_next path method s ≡ finish_request path method after.0 after.1
unfolding dispatch_request
dispatch_request_counted call_next path method s counted = rw (dispatch_request, counted) refl

-- How a request that is counted ends.
pub data Ends (path method : String) (after : Outcome ℕ × HttpMetrics)
    : Outcome ℕ × HttpMetrics → Type 0 where
  answered :
      (status : ℕ) (s : HttpMetrics)
      → after.0 ≡ ok status
      → s.requests
        ≡ after.1.requests
          ++ record { method = method; endpoint = normalize_path path; status = status } ∷ []
      → Ends path method after (ok status, s)
  raised :
      (x : Error) (s : HttpMetrics)
      → after.0 ≡ raise x
      → s.requests ≡ after.1.requests
      → Ends path method after (raise name_error, s)

finish_request-Ends :
    (path method : String) (after : Outcome ℕ × HttpMetrics) (o : Outcome ℕ)
    → after.0 ≡ o
    → Ends path method after (finish_request path method o after.1)
unfolding finish_request add_in_flight
finish_request-Ends path method after (ok status) q = answered status _ q refl
finish_request-Ends path method after (raise x) q = raised x _ q refl

-- For an application that leaves as many requests of the method in flight as it finds, so does the
-- middleware, whether the request is answered or raises. One of the paths of the metrics is handed on
-- with nothing counted. Any other that is answered is counted once, with its status and its normalized
-- path; one that raises is not counted, and ends in a NameError.
pub dispatch_request_balances :
    (call_next : HttpMetrics → Outcome ℕ × HttpMetrics) (path method : String) (s : HttpMetrics)
    → ((s' : HttpMetrics) → flying method (call_next s').1 ≡ flying method s')
    → (flying method (dispatch_request call_next path method s).1 ≡ flying method s)
      × (((contains path metrics_skip_paths ≡ true)
            × (dispatch_request call_next path method s ≡ call_next s))
          ⊎ ((contains path metrics_skip_paths ≡ false)
              × Ends path method
                  (call_next (add_in_flight method (λ n. n +ℤ pos 1) s))
                  (dispatch_request call_next path method s)))
unfolding dispatch_request
dispatch_request_balances call_next path method s keeps =
    elim (Bool-cases (contains path metrics_skip_paths)) [
      | inl skip ↦
          let same : dispatch_request call_next path method s ≡ call_next s =
            rw (dispatch_request, skip) refl in
          (ap (λ r. flying method r.1) same ∙ keeps s, inl (skip, same))
      | inr counted ↦
          let began = add_in_flight method (λ n. n +ℤ pos 1) s in
          let after = call_next began in
          let same = dispatch_request_counted call_next path method s counted in
          (
            ap (λ r. flying method r.1) same
                ∙ flying-finish_request path method after.0 after.1
                ∙ ap (λ n. n -ℤ pos 1)
                    (keeps began ∙ flying-add_in_flight method (λ n. n +ℤ pos 1) s)
                ∙ one_less (flying method s),
            inr (
              counted,
              subst (Ends path method after) (sym same)
                  (finish_request-Ends path method after after.0 refl),
            ),
          )
    ]
