-- ===== src/Metrics/Quantiles.antt =====
-- The quantiles of the latencies of backend/app/core/metrics.py. What the registry of prometheus_client
-- collects is given.
use tacktcix.Prelude.{
  String, Bool, true, Option, none, some, List, [], ◌∷◌, ◌==◌, string_eq, ◌&&◌, if◌then◌else◌, Eq,
  ◌≡◌, ◌↔◌, arith,
}
use tacktcix.Prelude.Dict.{Dict, lookup, get_or, insert}
use tacktcix.Prelude.Float.{Float, eq_float}
use tacktcix.Prelude.Int.{ℤ, pos, ◌+ℤ◌, ◌-ℤ◌, leb_ℤ, is_zero}
use tacktcix.Prelude.Outcome.{Outcome, ok, raise, index_error, ◌>>=◌}
use tacktcix.Prelude.Text.{◌+ₛ◌}
use tacktcix.Prelude.Chars.{ends_with}

pub record Sample (f : Float) : Type 0 where
  pub name : String
  pub labels : Dict String String
  pub value : f.F

pub record Family (f : Float) : Type 0 where
  pub name : String
  pub samples : List (Sample f)

-- `max(a, 1)`
unfoldable pub at_least_one : ℤ → ℤ
at_least_one n = if leb_ℤ (pos 1) n then n else pos 1

unfoldable pub last_or {ℓ} : {A : Type ℓ} → (default : A) → List A → A
last_or default [] = default
last_or default (x ∷ xs) = last_or x xs

module _ (f : Float) where
  -- The value inside the bucket with the bound `b` and the count `reached`; `before` is the bucket in front.
  unfoldable pub interpolate :
      (target : f.F) (before : Option (f.F × ℤ)) (b : f.F) (reached : ℤ) → f.F
  unfolding at_least_one
  interpolate target none b reached = f.mul b (f.div target (f.of_int (at_least_one reached)))
  interpolate target (some (lower, lower_count)) b reached =
      let width = f.sub b lower in
      let fraction =
        f.div (f.sub target (f.of_int lower_count))
          (f.of_int (at_least_one (reached -ℤ lower_count))) in
      f.round4 (f.add lower (f.mul fraction width))

  -- The first bucket whose count reaches the target; `none` if there is none.
  unfoldable pub find_bucket :
      (target : f.F) (before : Option (f.F × ℤ)) (buckets : List f.F) (cumulative_counts : List ℤ)
      → Option (Outcome f.F)
  unfolding interpolate
  find_bucket target before buckets [] = none
  find_bucket target before [] (reached ∷ rest) =
      let later = find_bucket target before [] rest in
      if f.le target (f.of_int reached) then some (raise index_error) else later
  find_bucket target before (b ∷ buckets) (reached ∷ rest) =
      let later = find_bucket target (some (b, reached)) buckets rest in
      if f.le target (f.of_int reached)
      then some (ok (interpolate target before b reached))
      else later

  unfoldable pub compute_quantile_from_buckets :
      (buckets : List f.F) (cumulative_counts : List ℤ) (total_count : ℤ) (quantile : f.F)
      → Outcome f.F
  unfolding find_bucket last_or
  compute_quantile_from_buckets buckets cumulative_counts total_count quantile =
      if is_zero total_count
      then ok (f.lit 0 0)
      else elim (find_bucket (f.mul (f.of_int total_count) quantile) none buckets
          cumulative_counts) [ none ↦ ok (last_or (f.lit 0 0) buckets) | some found ↦ found ]

  -- `buckets[le] = count`, the last one first, and `buckets.get(ub, 0)`
  unfoldable pub bucket_count : (upper_bound : f.F) → List (f.F × ℤ) → ℤ
  bucket_count upper_bound [] = pos 0
  bucket_count upper_bound ((le, n) ∷ rest) =
      if eq_float f upper_bound le then n else bucket_count upper_bound rest

-- Two labels as one key.
abbrev pub beq_pair : String × String → String × String → Bool
beq_pair p q = (p.0 == q.0) && (p.1 == q.1)

pub beq_pair_iff : (p q : String × String) → (beq_pair p q ≡ true) ↔ (p ≡ q)
beq_pair_iff (a, b) (c, d) = ground (arith, string_eq.beq_iff a c, string_eq.beq_iff b d)

instance abbrev pub labels_eq : Eq (String × String)
labels_eq = record { beq = beq_pair; beq_iff = beq_pair_iff }

abbrev pub Key : Type 0
Key = String × String

-- The buckets, sums and counts of the histogram, by provider and operation.
pub record Grouped (f : Float) : Type 0 where
  pub buckets_by_labels : Dict Key (List (f.F × ℤ))
  pub sums : Dict Key f.F
  pub counts : Dict Key ℤ

pub record Latency (f : Float) : Type 0 where
  pub p50 : f.F
  pub p95 : f.F
  pub p99 : f.F
  pub count : ℤ
  pub sum : f.F

-- `int` and `float` of a text.
module _ (f : Float) (int_of : f.F → ℤ) (float_of : String → f.F) where
  unfoldable pub group_sample : Sample f → Grouped f → Grouped f
  group_sample s g =
      let key : Key = (get_or "provider" "" s.labels, get_or "operation" "" s.labels) in
      elim (lookup "le" s.labels) [
        | some le ↦ record g {
          buckets_by_labels =
              insert key ((float_of le, int_of s.value) ∷ get_or key [] g.buckets_by_labels)
                g.buckets_by_labels;
        }
        | none ↦
            if ends_with "_sum" s.name
            then record g { sums = insert key s.value g.sums }
            else if ends_with "_count" s.name
            then record g { counts = insert key (int_of s.value) g.counts }
            else g
      ]

  unfoldable pub group_samples : List (Sample f) → Grouped f → Grouped f
  unfolding group_sample
  group_samples [] g = g
  group_samples (s ∷ rest) g = group_samples rest (group_sample s g)

module _ (f : Float) where
  unfoldable pub upper_bounds : List f.F
  upper_bounds =
      f.lit 1 2
      ∷ f.lit 5 2
      ∷ f.lit 1 1
      ∷ f.lit 25 2
      ∷ f.lit 5 1
      ∷ f.lit 1 0
      ∷ f.lit 25 1
      ∷ f.lit 5 0
      ∷ f.lit 10 0
      ∷ f.lit 30 0
      ∷ []

  -- The running sums of the counts of the buckets, and the last of them.
  unfoldable pub accumulate : (running : ℤ) (bounds : List f.F) → List (f.F × ℤ) → List ℤ
  unfolding bucket_count
  accumulate running [] buckets = []
  accumulate running (ub ∷ bounds) buckets =
      let sum = running +ℤ bucket_count f ub buckets in sum ∷ accumulate sum bounds buckets

  unfoldable pub latency_of : Grouped f → Key → List (f.F × ℤ) → Outcome (Latency f)
  unfolding accumulate compute_quantile_from_buckets upper_bounds last_or
  latency_of g key buckets =
      let cumulative = accumulate (pos 0) upper_bounds buckets in
      let total_count = last_or (pos 0) cumulative in
      (do
        p50 ← compute_quantile_from_buckets f upper_bounds cumulative total_count (f.lit 50 2)
        p95 ← compute_quantile_from_buckets f upper_bounds cumulative total_count (f.lit 95 2)
        p99 ← compute_quantile_from_buckets f upper_bounds cumulative total_count (f.lit 99 2)
        ok (record {
          p50 = p50;
          p95 = p95;
          p99 = p99;
          count = get_or key (pos 0) g.counts;
          sum = f.round4 (get_or key (f.lit 0 0) g.sums);
        }))

  unfoldable pub latencies :
      Grouped f
      → Dict Key (List (f.F × ℤ))
      → Dict String (Latency f)
      → Outcome (Dict String (Latency f))
  unfolding latency_of
  latencies g [] result = ok result
  latencies g ((key, buckets) ∷ rest) result = do
    latency ← latency_of g key buckets
    latencies g rest (insert (key.0 +ₛ ":" +ₛ key.1) latency result)

module _ (f : Float) (int_of : f.F → ℤ) (float_of : String → f.F) where
  unfoldable pub get_provider_latency_quantiles :
      List (Family f) → Dict String (Latency f) → Outcome (Dict String (Latency f))
  unfolding latencies group_samples
  get_provider_latency_quantiles [] result = ok result
  get_provider_latency_quantiles (family ∷ rest) result =
      let g =
        group_samples f int_of float_of family.samples
          (record { buckets_by_labels = []; sums = []; counts = [] }) in
      if family.name == "provider_request_duration_seconds"
      then latencies f g g.buckets_by_labels result >>= get_provider_latency_quantiles rest
      else get_provider_latency_quantiles rest result
