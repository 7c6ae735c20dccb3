-- ===== src/Metrics/Summary.antt =====
-- The JSON summary of backend/app/core/metrics.py, without its time and its text.
use tacktcix.Prelude.{
  ℕ, String, Option, none, some, List, [], ◌∷◌, ◌++◌, map, ◌==◌, string_eq, if◌then◌else◌,
}
use tacktcix.Prelude.Chars.{split_on}
use tacktcix.Prelude.Dict.{Dict, get_or, insert}
use tacktcix.Prelude.Float.{Float}
use tacktcix.Prelude.Int.{ℤ, pos}
use tacktcix.Prelude.Outcome.{Outcome, ok, ◌>>=◌}
use tacktcix.Prelude.SortedSet.{sorted_set}
use tacktcix.Prelude.Text.{◌+ₛ◌}
use text.Mathlib.Text.{starts_with}
use Prim.Native.String.{compare}
use tacktcix.Metrics.{HealthRecord, HealthState, get_health_history}
use tacktcix.Metrics.Quantiles.{Family, Latency, Sample, get_provider_latency_quantiles, last_or}

pub record ProviderSummary (f : Float) : Type 0 where
  pub latency : Latency f
  pub errors : Dict String f.F
  pub rate_limits : f.F

pub record Summary (f : Float) : Type 0 where
  pub providers : Dict String (ProviderSummary f)
  pub current : ℕ
  pub history : List (HealthRecord f)

unfoldable pub first_part : List String → String
first_part [] = ""
first_part (s ∷ _) = s

-- The first key that starts with the text.
unfoldable pub first_key {ℓ} : {A : Type ℓ} → (start : String) → Dict String A → Option String
first_key start [] = none
first_key start ((k, _) ∷ d) = if starts_with k start then some k else first_key start d

module _ (f : Float) where
  unfoldable pub add_error :
      Dict String (Dict String f.F) → List (Sample f) → Dict String (Dict String f.F)
  add_error result [] = result
  add_error result (s ∷ rest) =
      let provider = get_or "provider" "" s.labels in
      let err_type = get_or "error_type" "unknown" s.labels in
      let errors = get_or provider [] result in
      add_error
        (insert provider
          (insert err_type (f.add (get_or err_type (f.lit 0 0) errors) s.value) errors) result)
        rest

  unfoldable pub get_error_counts_by_provider :
      List (Family f) → Dict String (Dict String f.F) → Dict String (Dict String f.F)
  unfolding add_error
  get_error_counts_by_provider [] result = result
  get_error_counts_by_provider (family ∷ rest) result =
      get_error_counts_by_provider rest
        (if family.name == "provider_errors_total" then add_error result family.samples else result)

  unfoldable pub add_hits : Dict String f.F → List (Sample f) → Dict String f.F
  add_hits result [] = result
  add_hits result (s ∷ rest) =
      let provider = get_or "provider" "" s.labels in
      add_hits (insert provider (f.add (get_or provider (f.lit 0 0) result) s.value) result) rest

  unfoldable pub get_rate_limits_by_provider : List (Family f) → Dict String f.F → Dict String f.F
  unfolding add_hits
  get_rate_limits_by_provider [] result = result
  get_rate_limits_by_provider (family ∷ rest) result =
      get_rate_limits_by_provider rest
        (if family.name == "rate_limit_hits_total" then add_hits result family.samples else result)

  unfoldable pub default_latency : Latency f
  default_latency = record {
    p50 = f.lit 0 0;
    p95 = f.lit 0 0;
    p99 = f.lit 0 0;
    count = pos 0;
    sum = f.lit 0 0;
  }

  unfoldable pub latency_of_provider : Dict String (Latency f) → (provider : String) → Latency f
  unfolding first_key default_latency
  latency_of_provider latency provider = elim (first_key (provider +ₛ ":") latency) [
    | none ↦ default_latency
    | some key ↦ if key == "" then default_latency else get_or key default_latency latency
  ]

  unfoldable pub all_providers :
      Dict String (Latency f) → Dict String (Dict String f.F) → Dict String f.F → List String
  unfolding first_part
  all_providers latency errors rate_limits = sorted_set compare (
      map (λ e. first_part (split_on b':' e.0)) latency
      ++ map (λ e. e.0) errors
      ++ map (λ e. e.0) rate_limits)

  unfoldable pub current_status : List (HealthRecord f) → ℕ
  unfolding last_or
  current_status [] = 1
  current_status (r ∷ rs) = if (last_or r rs).overall then 1 else 0

  unfoldable pub summary_of :
      (collected : List (Family f)) → HealthState f → Dict String (Latency f) → Summary f
  unfolding get_error_counts_by_provider get_rate_limits_by_provider latency_of_provider
      all_providers current_status
  summary_of collected s latency =
      let errors = get_error_counts_by_provider collected [] in
      let rate_limits = get_rate_limits_by_provider collected [] in
      let history = get_health_history (pos 20) s in
      record {
        providers =
            map
              (λ pk. (
                pk,
                record {
                  latency = latency_of_provider latency pk;
                  errors = get_or pk [] errors;
                  rate_limits = get_or pk (f.lit 0 0) rate_limits;
                },
              ))
              (all_providers latency errors rate_limits);
        current = current_status history;
        history = history;
      }

module _ (f : Float) (int_of : f.F → ℤ) (float_of : String → f.F) where
  unfoldable pub metrics_json : (collected : List (Family f)) → HealthState f → Outcome (Summary f)
  unfolding get_provider_latency_quantiles summary_of
  metrics_json collected s =
      get_provider_latency_quantiles f int_of float_of collected [] >>= λ latency.
      ok (summary_of f collected s latency)
