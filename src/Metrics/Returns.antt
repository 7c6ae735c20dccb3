-- ===== src/Metrics/Returns.antt =====
-- The summary of the metrics (backend/app/core/metrics.py) never fails.
use tacktcix.Prelude.{
  suc, ◌≡◌, refl, ap, String, Option, Option-cases, none, some, List, [], ◌∷◌, length, Bool-cases,
  inl, inr, arith, string_eq, ◌==◌,
}
use tacktcix.Prelude.Dict.{Dict}
use tacktcix.Prelude.Float.{Float}
use tacktcix.Prelude.Int.{ℤ, pos, is_zero}
use tacktcix.Prelude.Outcome.{Outcome, ok, ◌>>=◌}
use tacktcix.Metrics.{HealthState, get_health_history}
use tacktcix.Metrics.Quantiles.{
  Family, Grouped, Key, Latency, accumulate, compute_quantile_from_buckets, find_bucket,
  interpolate, get_provider_latency_quantiles, group_samples, latencies, latency_of, last_or,
  upper_bounds,
}
use tacktcix.Metrics.Summary.{Summary, metrics_json, summary_of}

Returns {ℓ} : {A : Type ℓ} → Outcome A → Type ℓ
Returns {A = A} o = (a : A) × (o ≡ ok a)

bind-Returns {ℓ κ} :
    {A : Type ℓ} {B : Type κ} (o : Outcome A) (g : A → Outcome B)
    → Returns o
    → ((a : A) → Returns (g a))
    → Returns (o >>= g)
unfolding Returns
bind-Returns o g (a, q) h = let (b, e) = h a in (b, rw q e)

module _ (f : Float) where
  find_bucket-Returns :
      (target : f.F) (before : Option (f.F × ℤ)) (buckets : List f.F) (counts : List ℤ)
      (r : Outcome f.F)
      → length buckets ≡ length counts
      → find_bucket f target before buckets counts ≡ some r
      → Returns r
  unfolding find_bucket Returns
  find_bucket-Returns target before buckets [] r same q = cc
  find_bucket-Returns target before [] (c ∷ counts) r same q = absurd (omega (arith, same))
  find_bucket-Returns target before (b ∷ buckets) (c ∷ counts) r same q =
      elim (Bool-cases (f.le target (f.of_int c))) [
        | inl reached ↦
            let found : some (ok (interpolate f target before b c)) ≡ some r = rw reached at q in
            (interpolate f target before b c, cc)
        | inr missed ↦
            let later : find_bucket f target (some (b, c)) buckets counts ≡ some r =
              rw missed at q in
            find_bucket-Returns target (some (b, c)) buckets counts r (omega (arith, same)) later
      ]

  compute_quantile-Returns :
      (buckets : List f.F) (counts : List ℤ) (total : ℤ) (quantile : f.F)
      → length buckets ≡ length counts
      → Returns (compute_quantile_from_buckets f buckets counts total quantile)
  unfolding compute_quantile_from_buckets Returns
  compute_quantile-Returns buckets counts total quantile same = elim (Bool-cases (is_zero total)) [
    | inl z ↦ (f.lit 0 0, rw z refl)
    | inr z ↦
        elim (Option-cases (find_bucket f (f.mul (f.of_int total) quantile) none buckets counts)) [
          | inl q ↦ (last_or (f.lit 0 0) buckets, rw (z, q) refl)
          | inr (r, q) ↦
              let (v, e) = find_bucket-Returns _ none buckets counts r same q in (v, rw (z, q) e)
        ]
  ]

  length-accumulate :
      (bounds : List f.F) (running : ℤ) (buckets : List (f.F × ℤ))
      → length bounds ≡ length (accumulate f running bounds buckets)
  unfolding accumulate
  length-accumulate [] running buckets = refl
  length-accumulate (b ∷ bounds) running buckets = ap suc (length-accumulate bounds _ buckets)

  quantile-Returns :
      (buckets : List (f.F × ℤ)) (quantile : f.F)
      → let counts = accumulate f (pos 0) (upper_bounds f) buckets in
        Returns (
          compute_quantile_from_buckets f (upper_bounds f) counts (last_or (pos 0) counts) quantile)
  quantile-Returns buckets quantile =
      compute_quantile-Returns (upper_bounds f) (accumulate f (pos 0) (upper_bounds f) buckets) _
        quantile (length-accumulate (upper_bounds f) (pos 0) buckets)

  latency_of-Returns :
      (g : Grouped f) (key : Key) (buckets : List (f.F × ℤ)) → Returns (latency_of f g key buckets)
  unfolding latency_of Returns
  latency_of-Returns g key buckets =
      bind-Returns _ _ (quantile-Returns buckets (f.lit 50 2)) (λ p50.
        bind-Returns _ _ (quantile-Returns buckets (f.lit 95 2))
          (λ p95. bind-Returns _ _ (quantile-Returns buckets (f.lit 99 2)) (λ p99. (_, refl))))

  latencies-Returns :
      (g : Grouped f) (d : Dict Key (List (f.F × ℤ))) (result : Dict String (Latency f))
      → Returns (latencies f g d result)
  unfolding latencies Returns
  latencies-Returns g [] result = (result, refl)
  latencies-Returns g ((key, buckets) ∷ rest) result =
      bind-Returns (latency_of f g key buckets) _ (latency_of-Returns g key buckets)
        (λ latency. latencies-Returns g rest _)

module _ (f : Float) (int_of : f.F → ℤ) (float_of : String → f.F) where
  quantiles-Returns :
      (collected : List (Family f)) (result : Dict String (Latency f))
      → Returns (get_provider_latency_quantiles f int_of float_of collected result)
  unfolding get_provider_latency_quantiles Returns
  quantiles-Returns [] result = (result, refl)
  quantiles-Returns (family ∷ rest) result =
      elim (Bool-cases (family.name == "provider_request_duration_seconds")) [
        | inr other ↦ rw other (quantiles-Returns rest result)
        | inl latency ↦
            let g =
              group_samples f int_of float_of family.samples
                (record { buckets_by_labels = []; sums = []; counts = [] }) in
            rw latency (
              bind-Returns _ _ (latencies-Returns f g _ result)
                (λ more. quantiles-Returns rest more))
      ]

  -- Whatever the registry collects and whatever checks were recorded, the summary of the metrics is
  -- made without an exception: the counts that the quantiles are read from are as many as the bounds of
  -- the buckets. It answers the last 20 checks.
  metrics_json_returns :
      (collected : List (Family f)) (s : HealthState f)
      → (summary : Summary f) × (metrics_json f int_of float_of collected s ≡ ok summary)
        × (summary.history ≡ get_health_history (pos 20) s)
  unfolding metrics_json summary_of Returns
  metrics_json_returns collected s =
      let (latency, q) = quantiles-Returns collected [] in
      (summary_of f collected s latency, rw q refl, refl)
