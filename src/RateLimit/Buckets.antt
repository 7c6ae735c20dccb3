-- ===== src/RateLimit/Buckets.antt =====
-- What the operations on one bucket and on a dict of buckets (src/ratelimit/token_bucket.py) keep:
-- no bucket holds less than nothing or more than its burst, and none is ahead of the clock.
use tacktcix.Prelude.{
  ℕ, suc, ◌+◌, ◌≤◌, ◌≡◌, String, true, [], ◌∷◌, arith, All, Bool-cases, Option-cases, inl, inr,
  string_eq,
}
use tacktcix.Prelude.Dict.{Dict, lookup, insert-All, lookup-All}
use tacktcix.Prelude.Float.{Float, eq_float, min_float}
use tacktcix.Prelude.FloatLaws.{FloatLaws, NonNeg, float_le_refl, mul_nonneg, add_nonneg}
use tacktcix.Prelude.Int.{ℤ, pos, ◌≤ℤ◌}
use tacktcix.RateLimit.{
  RedisClient, TokenBucket, Limits, new_bucket, refill, consume, retry_after, use_bucket,
  get_bucket, use_key,
}

pub record IsValid {f : Float} (l : Limits f) : Type 0 where
  pub rate : NonNeg f l.rate
  pub burst : pos 0 ≤ℤ l.burst

-- From the n-th reading on the clock is not behind the bucket.
pub record IsWithin {f : Float} (clock : ℕ → f.F) (n : ℕ) (b : TokenBucket f) : Type 0 where
  pub low : NonNeg f b.tokens
  pub high : f.le b.tokens (f.of_int b.burst) ≡ true
  pub rate : NonNeg f b.rate
  pub burst : pos 0 ≤ℤ b.burst
  pub past : (m : ℕ) → n ≤ m → f.le b.last_refill (clock m) ≡ true

abbrev pub IsMonotone : (f : Float) → (ℕ → f.F) → Type 0
IsMonotone f clock = (m n : ℕ) → m ≤ n → f.le (clock m) (clock n) ≡ true

abbrev pub AllWithin : {f : Float} → (ℕ → f.F) → ℕ → Dict String (TokenBucket f) → Type 0
AllWithin clock n = All (λ e. IsWithin clock n e.1)

module _ {f : Float} (laws : FloatLaws f) (clock : ℕ → f.F) (monotone : IsMonotone f clock) where
  pub IsWithin-later :
      (m n : ℕ) (b : TokenBucket f) → m ≤ n → IsWithin clock m b → IsWithin clock n b
  IsWithin-later m n b h w = record {
    low = w.low;
    high = w.high;
    rate = w.rate;
    burst = w.burst;
    past = λ k g. w.past k (omega (arith, h, g));
  }

  pub AllWithin-later :
      (m n : ℕ) (d : Dict String (TokenBucket f))
      → m ≤ n
      → AllWithin clock m d
      → AllWithin clock n d
  AllWithin-later m n [] h w = tt
  AllWithin-later m n ((k, b) ∷ d) h w = (IsWithin-later m n b h w.0, AllWithin-later m n d h w.1)

  new_bucket-IsWithin :
      (n : ℕ) (l : Limits f) → IsValid l → IsWithin clock n (new_bucket l (clock n))
  unfolding new_bucket
  new_bucket-IsWithin n l h = record {
    low = laws.of_int_nonneg l.burst h.burst;
    high = float_le_refl laws (f.of_int l.burst);
    rate = h.rate;
    burst = h.burst;
    past = λ m g. monotone n m g;
  }

  min-low : (x y : f.F) → NonNeg f x → NonNeg f y → NonNeg f (min_float f x y)
  min-low x y hx hy = ground (arith, hx, hy)

  min-high : (x y : f.F) → f.le (min_float f x y) x ≡ true
  min-high x y = elim (Bool-cases (f.le x y)) [
    | inl e ↦ rw (e, min_float) (float_le_refl laws x)
    | inr e ↦ rw (e, min_float) (laws.total x y e)
  ]

  refill-IsWithin :
      (n : ℕ) (b : TokenBucket f) → IsWithin clock n b → IsWithin clock n (refill (clock n) b)
  unfolding refill
  refill-IsWithin n b h = record {
    low = min-low _ _ (laws.of_int_nonneg b.burst h.burst) (
        add_nonneg laws _ _ h.low
          (mul_nonneg laws _ _ (laws.sub_nonneg _ _ (h.past n (omega arith))) h.rate));
    high = min-high _ _;
    rate = h.rate;
    burst = h.burst;
    past = λ m g. monotone n m g;
  }

  consume-IsWithin :
      (n : ℕ) (b : TokenBucket f)
      → IsWithin clock n b
      → IsWithin clock n (consume (clock n) (pos 1) b).1
  unfolding consume
  consume-IsWithin n b h =
      let r = refill (clock n) b in
      let w : IsWithin clock n r = refill-IsWithin n b h in
      elim (Bool-cases (f.le (f.of_int (pos 1)) r.tokens)) [
        | inl e ↦ rw e (record {
          low = laws.sub_nonneg _ _ e;
          high =
              laws.trans _ _ _
                (laws.sub_le r.tokens (f.of_int (pos 1)) (laws.of_int_nonneg (pos 1) (omega arith)))
                w.high;
          rate = w.rate;
          burst = w.burst;
          past = w.past;
        })
        | inr e ↦ rw e w
      ]

  retry_after-IsWithin :
      (n : ℕ) (b : TokenBucket f)
      → IsWithin clock n b
      → IsWithin clock n (retry_after (clock n) b).1
  unfolding retry_after
  retry_after-IsWithin n b h =
      let r = refill (clock n) b in
      let w : IsWithin clock n r = refill-IsWithin n b h in
      elim (Bool-cases (f.le (f.of_int (pos 1)) r.tokens)) [
        | inl e ↦ rw e w
        | inr e ↦ elim (Bool-cases (eq_float f r.rate (f.lit 0 0))) [
          | inl z ↦ rw (e, z) w
          | inr z ↦ rw (e, z) w
        ]
      ]

  module _ (c : RedisClient) (wall : ℕ → ℤ) where
    pub use_bucket-IsWithin :
        (limit_type actor_id : String) (n : ℕ) (b : TokenBucket f)
        → IsWithin clock n b
        → IsWithin clock (n + 2) (use_bucket c clock wall limit_type actor_id n b).1
    unfolding use_bucket
    use_bucket-IsWithin limit_type actor_id n b h = IsWithin-later (suc n) (n + 2) _ (omega arith) (
        retry_after-IsWithin (suc n) _
          (IsWithin-later n (suc n) _ (omega arith) (consume-IsWithin n b h)))

    get_bucket-IsWithin :
        (limits : Limits f) (key : String) (n : ℕ) (d : Dict String (TokenBucket f))
        → IsValid limits
        → AllWithin clock n d
        → IsWithin clock
            (get_bucket c clock wall limits key n d).1
            (get_bucket c clock wall limits key n d).0
          × n ≤ (get_bucket c clock wall limits key n d).1
    unfolding get_bucket
    get_bucket-IsWithin limits key n d hl h = elim (Option-cases (lookup key d)) [
      | inl e ↦
          rw (e, get_bucket)
            (
              IsWithin-later n (suc n) _ (omega arith) (new_bucket-IsWithin n limits hl),
              omega arith,
            )
      | inr (b, e) ↦
          rw (e, get_bucket) (lookup-All (λ e. IsWithin clock n e.1) key d b e h, omega arith)
    ]

    pub use_key-AllWithin :
        (limit_type actor_id key : String) (limits : Limits f) (n : ℕ)
        (d : Dict String (TokenBucket f))
        → IsValid limits
        → AllWithin clock n d
        → let r = use_key c clock wall limit_type actor_id key limits n d in
          AllWithin clock r.1.1 r.1.0 × n ≤ r.1.1
    unfolding use_key
    use_key-AllWithin limit_type actor_id key limits n d hl h =
        let m = (get_bucket c clock wall limits key n d).1 in
        let (w, later) = get_bucket-IsWithin limits key n d hl h in
        (
          insert-All (λ e. IsWithin clock (m + 2) e.1) key _ d
              (use_bucket-IsWithin limit_type actor_id m _ w)
              (AllWithin-later n (m + 2) d (omega (arith, later)) h),
          omega (arith, later),
        )
