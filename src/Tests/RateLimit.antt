-- ===== src/Tests/RateLimit.antt =====
-- A check of the rate limiter in memory, with a clock that moves on by a second at each reading.
use tacktcix.Prelude.{ℕ, ◌+◌, ◌*◌, ◌≢◌, refl, String, Option, none, some, [], ◌∷◌, arith, string_eq}
use tacktcix.Prelude.Int.{ℤ, pos}
use tacktcix.RateLimit.{RedisClient, TokenBucket, Limits, RateLimiter, check, cleanup_execution}
use tacktcix.RateLimit.Buckets.{IsMonotone}
use tacktcix.RateLimit.Invariant.{IsBounded, check-IsBounded}
use tacktcix.RateLimit.Scopes.{Same, check_isolates}
use tacktcix.Tests.Fixed.{fixed, fixed_laws}
use text.Mathlib.TextEquality.{eq_iff}

abbrev client : RedisClient
client = record {
  Store = ℕ;
  pipeline = λ key window_start now ttl store. (pos store, store + 1);
  oldest = λ key store. none;
  delete = λ key store. 0;
}

abbrev clock : ℕ → ℕ
clock n = n * 10000

abbrev wall : ℕ → ℤ
wall n = pos (n * 1000)

clock-IsMonotone : IsMonotone fixed clock
clock-IsMonotone m n h = ground (arith, h)

abbrev limits : Limits fixed
limits = record { rate = 5000; burst = pos 2 }

abbrev bucket : TokenBucket fixed
bucket = record { rate = 5000; burst = pos 2; tokens = 20000; last_refill = 0 }

abbrev limiter : RateLimiter fixed client
limiter = record {
  global_limits = limits;
  agent_limits = limits;
  execution_limits = limits;
  redis = none;
  redis_prefix = "ratelimit";
  window_size_s = pos 60;
  global_bucket = bucket;
  agent_buckets = ("a1", bucket) ∷ [];
  execution_buckets = ("run2", bucket) ∷ [];
  readings = 1;
}

limiter-IsBounded : IsBounded clock limiter
limiter-IsBounded = record {
  agent_limits = record { rate = refl; burst = omega arith };
  execution_limits = record { rate = refl; burst = omega arith };
  global_bucket = record {
    low = refl;
    high = refl;
    rate = refl;
    burst = omega arith;
    past = λ m h. ground arith;
  };
  agent_buckets = (
    record {
      low = refl;
      high = refl;
      rate = refl;
      burst = omega arith;
      past = λ m h. ground arith;
    },
    tt,
  );
  execution_buckets = (
    record {
      low = refl;
      high = refl;
      rate = refl;
      burst = omega arith;
      past = λ m h. ground arith;
    },
    tt,
  );
}

check-IsBounded_example :
    IsBounded clock (check client clock wall "a2" (some "run1") limiter).1
    × IsBounded clock (cleanup_execution client clock wall "run2" limiter)
check-IsBounded_example =
    check-IsBounded fixed_laws clock clock-IsMonotone client wall "a2" (some "run1") "run2" limiter
      limiter-IsBounded

other_agent : ◌≢◌ {A = String} "a1" "a2"
other_agent = ground (arith, eq_iff "a1" "a2")

other_run : ◌≢◌ {A = Option String} (some "run2") (some "run1")
other_run = ground (arith, eq_iff "run2" "run1")

check_isolates_example :
    Same "a1" "run2" limiter (check client clock wall "a2" (some "run1") limiter).1
check_isolates_example =
    check_isolates client clock wall "a1" "run2" "a2" (some "run1") limiter other_agent other_run
