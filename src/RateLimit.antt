-- ===== src/RateLimit.antt =====
-- src/ratelimit/token_bucket.py: token buckets and the rate limiter of three scopes.
-- The clock is a parameter: `clock n` is what the n-th reading of time.monotonic() gives, `wall n`
-- the n-th int(time.time() * 1000). The state counts the readings.
pub mod Buckets
pub mod Invariant
pub mod Scopes
use tacktcix.Prelude.{
  ℕ, String, Bool, true, false, Option, none, some, ◌+◌, ◌==◌, string_eq, if◌then◌else◌, suc,
}
use tacktcix.Prelude.Dict.{Dict, lookup, insert, erase}
use tacktcix.Prelude.Float.{Float, eq_float, min_float}
use tacktcix.Prelude.Int.{ℤ, pos, ◌+ℤ◌, ◌-ℤ◌, leb_ℤ, at_least_zero, scale_ℤ}
use tacktcix.Prelude.Text.{◌+ₛ◌}

-- The Redis client: a store of sorted sets and the calls that the limiter makes on it.
pub record RedisClient : Type 1 where
  pub Store : Type 0
  -- zremrangebyscore 0 window_start, zcard, zadd now, expire: the count is zcard's.
  pub pipeline : (key : String) (window_start now_ms ttl : ℤ) → Store → ℤ × Store
  -- The score of zrange 0 0.
  pub oldest : (key : String) → Store → Option ℤ
  pub delete : (key : String) → Store → Store

module _ (f : Float) where
  pub record TokenBucket : Type 0 where
    pub rate : f.F
    pub burst : ℤ
    pub tokens : f.F
    pub last_refill : f.F

  pub record Limits : Type 0 where
    pub rate : f.F
    pub burst : ℤ

  -- `retry` is `RateLimitExceeded`; a rate of zero ends in ZeroDivisionError.
  pub data Verdict : Type 0 where
    passed : Verdict
    exceeded : (retry_after_s : f.F) (limit_type actor_id : String) → Verdict
    zero_division : Verdict

  pub record RateLimiter (c : RedisClient) : Type 0 where
    pub global_limits : Limits
    pub agent_limits : Limits
    pub execution_limits : Limits
    pub redis : Option c.Store
    pub redis_prefix : String
    pub window_size_s : ℤ
    pub global_bucket : TokenBucket
    pub agent_buckets : Dict String TokenBucket
    pub execution_buckets : Dict String TokenBucket
    pub readings : ℕ

module _ {f : Float} where
  -- `__post_init__`
  unfoldable pub new_bucket : Limits f → (now : f.F) → TokenBucket f
  new_bucket limits now = record {
    rate = limits.rate;
    burst = limits.burst;
    tokens = f.of_int limits.burst;
    last_refill = now;
  }

  unfoldable pub refill : (now : f.F) → TokenBucket f → TokenBucket f
  refill now b =
      let elapsed = f.sub now b.last_refill in
      record b {
        tokens = min_float f (f.of_int b.burst) (f.add b.tokens (f.mul elapsed b.rate));
        last_refill = now;
      }

  unfoldable pub consume : (now : f.F) → ℤ → TokenBucket f → Bool × TokenBucket f
  unfolding refill
  consume now n b =
      let r = refill now b in
      if f.le (f.of_int n) r.tokens
      then (true, record r { tokens = f.sub r.tokens (f.of_int n) })
      else (false, r)

  -- `none` is ZeroDivisionError.
  unfoldable pub retry_after : (now : f.F) → TokenBucket f → Option f.F × TokenBucket f
  unfolding refill
  retry_after now b =
      let r = refill now b in
      if f.le (f.of_int (pos 1)) r.tokens
      then (some (f.lit 0 0), r)
      else if eq_float f r.rate (f.lit 0 0)
      then (none, r)
      else (some (f.div (f.sub (f.lit 1 0) r.tokens) r.rate), r)

  unfoldable pub verdict : (limit_type actor_id : String) → Bool → Option f.F → Verdict f
  verdict limit_type actor_id allowed none = zero_division
  verdict limit_type actor_id allowed (some retry) =
      if allowed then passed else exceeded retry limit_type actor_id

module _ (f : Float) (c : RedisClient) (wall : ℕ → ℤ) where
  unfoldable pub check_redis :
      (key : String) (burst : ℤ) (n : ℕ) (window_size_s : ℤ) (prefix : String)
      → c.Store
      → (Bool × f.F) × c.Store
  check_redis key burst n window_size_s prefix store =
      let window_ms = scale_ℤ window_size_s 1000 in
      let redis_key = prefix +ₛ ":" +ₛ key in
      let (count, store') =
        c.pipeline redis_key (wall n -ℤ window_ms) (wall n) (window_size_s +ℤ pos 10) store in
      if leb_ℤ count burst then ((true, f.lit 0 0), store') else elim (c.oldest redis_key store') [
        | none ↦ ((false, f.lit 1 0), store')
        | some score ↦ (
          (false, f.div (f.of_int (at_least_zero (score +ℤ window_ms -ℤ wall n))) (f.lit 1000 0)),
          store',
        )
      ]

module _ {f : Float} (c : RedisClient) (clock : ℕ → f.F) (wall : ℕ → ℤ) where
  -- `bucket.consume(1)` and `bucket.retry_after()`
  unfoldable pub use_bucket :
      (limit_type actor_id : String) (n : ℕ) → TokenBucket f → Verdict f × TokenBucket f
  unfolding consume retry_after verdict
  use_bucket limit_type actor_id n b =
      let (allowed, b1) = consume (clock n) (pos 1) b in
      let (retry, b2) = retry_after (clock (suc n)) b1 in
      (verdict limit_type actor_id allowed retry, b2)

  -- One scope: the sliding window in Redis if there is a client, the bucket otherwise.
  redis_verdict : (limit_type actor_id : String) → Bool × f.F → Verdict f
  redis_verdict limit_type actor_id (allowed, retry) =
      verdict limit_type actor_id allowed (some retry)

  check_window :
      (limit_type actor_id key : String)
      → ℤ
      → c.Store
      → RateLimiter f c
      → Verdict f × RateLimiter f c
  unfolding check_redis redis_verdict
  check_window limit_type actor_id key burst store l =
      let (answer, store') =
        check_redis f c wall key burst l.readings l.window_size_s l.redis_prefix store in
      (
        redis_verdict limit_type actor_id answer,
        record l { redis = some store'; readings = suc l.readings },
      )

  unfoldable pub check_global : (agent_id : String) → RateLimiter f c → Verdict f × RateLimiter f c
  unfolding check_window use_bucket
  check_global agent_id l = elim l.redis [
    | some store ↦ check_window "global" agent_id "global" l.global_limits.burst store l
    | none ↦
        let (v, b) = use_bucket "global" agent_id l.readings l.global_bucket in
        (v, record l { global_bucket = b; readings = l.readings + 2 })
  ]

  -- The bucket of a key, made full when it is missing: that takes a reading of the clock.
  unfoldable pub get_bucket :
      Limits f → String → ℕ → Dict String (TokenBucket f) → TokenBucket f × ℕ
  unfolding new_bucket
  get_bucket limits key n buckets = elim (lookup key buckets) [
    | some b ↦ (b, n)
    | none ↦ (new_bucket limits (clock n), suc n)
  ]

  unfoldable pub use_key :
      (limit_type actor_id key : String)
      → Limits f
      → ℕ
      → Dict String (TokenBucket f)
      → Verdict f × (Dict String (TokenBucket f) × ℕ)
  unfolding use_bucket get_bucket
  use_key limit_type actor_id key limits n buckets =
      let (bucket, m) = get_bucket limits key n buckets in
      let (v, b) = use_bucket limit_type actor_id m bucket in (v, (insert key b buckets, m + 2))

  unfoldable pub check_agent : (agent_id : String) → RateLimiter f c → Verdict f × RateLimiter f c
  unfolding check_window use_key
  check_agent agent_id l = elim l.redis [
    | some store ↦
        check_window "per_agent" agent_id ("agent:" +ₛ agent_id) l.agent_limits.burst store l
    | none ↦
        let (v, rest) =
          use_key "per_agent" agent_id agent_id l.agent_limits l.readings l.agent_buckets in
        (v, record l { agent_buckets = rest.0; readings = rest.1 })
  ]

  unfoldable pub check_execution :
      (agent_id execution_id : String) → RateLimiter f c → Verdict f × RateLimiter f c
  unfolding check_window use_key
  check_execution agent_id execution_id l = elim l.redis [
    | some store ↦
        check_window "per_execution" agent_id ("exec:" +ₛ execution_id) l.execution_limits.burst
          store l
    | none ↦
        let (v, rest) =
          use_key "per_execution" agent_id execution_id l.execution_limits l.readings
            l.execution_buckets in
        (v, record l { execution_buckets = rest.0; readings = rest.1 })
  ]

  -- The next scope is asked only when this one passes.
  unfoldable pub and_then :
      Verdict f × RateLimiter f c
      → (RateLimiter f c → Verdict f × RateLimiter f c)
      → Verdict f × RateLimiter f c
  and_then (passed, l) next = next l
  and_then (exceeded retry limit_type actor_id, l) next = (exceeded retry limit_type actor_id, l)
  and_then (zero_division, l) next = (zero_division, l)

  -- `if execution_id:`
  unfoldable pub check_given :
      (agent_id : String) → Option String → RateLimiter f c → Verdict f × RateLimiter f c
  unfolding check_execution
  check_given agent_id none l = (passed, l)
  check_given agent_id (some e) l = if e == "" then (passed, l) else check_execution agent_id e l

  unfoldable pub check :
      (agent_id : String) (execution_id : Option String)
      → RateLimiter f c
      → Verdict f × RateLimiter f c
  unfolding check_global check_agent check_given and_then
  check agent_id execution_id l =
      and_then (and_then (check_global agent_id l) (check_agent agent_id))
        (check_given agent_id execution_id)

  -- `none` is the ZeroDivisionError, which is not caught.
  unfoldable pub is_allowed :
      (agent_id : String) (execution_id : Option String)
      → RateLimiter f c
      → Option Bool × RateLimiter f c
  unfolding check
  is_allowed agent_id execution_id l =
      let (v, l') = check agent_id execution_id l in
      (elim v [ passed ↦ some true | exceeded _ _ _ ↦ some false | zero_division ↦ none ], l')

  unfoldable pub cleanup_execution : (execution_id : String) → RateLimiter f c → RateLimiter f c
  cleanup_execution execution_id l = record l {
    execution_buckets = erase execution_id l.execution_buckets;
    redis = elim l.redis [
      | none ↦ none
      | some store ↦ some (c.delete (l.redis_prefix +ₛ ":exec:" +ₛ execution_id) store)
    ];
  }
