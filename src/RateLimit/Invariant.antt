-- ===== src/RateLimit/Invariant.antt =====
-- No bucket of the limiter (src/ratelimit/token_bucket.py) holds less than nothing or more than its
-- burst, whichever calls are made and however the clock moves on.
use tacktcix.Prelude.{
  ℕ, suc, ◌+◌, String, Option, none, some, arith, Bool-cases, Option-cases, inl, inr, ◌==◌,
  string_eq,
}
use tacktcix.Prelude.Dict.{erase-All}
use tacktcix.Prelude.Float.{Float}
use tacktcix.Prelude.FloatLaws.{FloatLaws}
use tacktcix.Prelude.Int.{ℤ}
use tacktcix.Prelude.Text.{◌+ₛ◌}
use tacktcix.RateLimit.{
  RedisClient, RateLimiter, Verdict, passed, exceeded, zero_division, check_window, check_global,
  check_agent, check_execution, check_given, and_then, check, cleanup_execution,
}
use tacktcix.RateLimit.Buckets.{
  IsValid, IsWithin, IsMonotone, AllWithin, IsWithin-later, AllWithin-later, use_bucket-IsWithin,
  use_key-AllWithin,
}

pub record IsBounded {f : Float} {c : RedisClient} (clock : ℕ → f.F) (l : RateLimiter f c)
    : Type 0 where
  pub agent_limits : IsValid l.agent_limits
  pub execution_limits : IsValid l.execution_limits
  pub global_bucket : IsWithin clock l.readings l.global_bucket
  pub agent_buckets : AllWithin clock l.readings l.agent_buckets
  pub execution_buckets : AllWithin clock l.readings l.execution_buckets

module _ {f : Float} (laws : FloatLaws f) (clock : ℕ → f.F) (monotone : IsMonotone f clock)
    (c : RedisClient) (wall : ℕ → ℤ) where
  check_window-IsBounded :
      (limit_type actor_id key : String) (burst : ℤ) (store : c.Store) (l : RateLimiter f c)
      → IsBounded clock l
      → IsBounded clock (check_window c clock wall limit_type actor_id key burst store l).1
  unfolding check_window
  check_window-IsBounded limit_type actor_id key burst store l h = record {
    agent_limits = h.agent_limits;
    execution_limits = h.execution_limits;
    global_bucket =
        IsWithin-later laws clock monotone l.readings (suc l.readings) _ (omega arith)
          h.global_bucket;
    agent_buckets =
        AllWithin-later laws clock monotone l.readings (suc l.readings) _ (omega arith)
          h.agent_buckets;
    execution_buckets =
        AllWithin-later laws clock monotone l.readings (suc l.readings) _ (omega arith)
          h.execution_buckets;
  }

  check_global-IsBounded :
      (agent_id : String) (l : RateLimiter f c)
      → IsBounded clock l
      → IsBounded clock (check_global c clock wall agent_id l).1
  unfolding check_global
  check_global-IsBounded agent_id l h = elim (Option-cases l.redis) [
    | inr (store, e) ↦
        rw (e, check_global)
          (check_window-IsBounded "global" agent_id "global" l.global_limits.burst store l h)
    | inl e ↦
        rw (e, check_global)
          (record {
            agent_limits = h.agent_limits;
            execution_limits = h.execution_limits;
            global_bucket =
                use_bucket-IsWithin laws clock monotone c wall "global" agent_id l.readings
                  l.global_bucket h.global_bucket;
            agent_buckets =
                AllWithin-later laws clock monotone l.readings (l.readings + 2) _ (omega arith)
                  h.agent_buckets;
            execution_buckets =
                AllWithin-later laws clock monotone l.readings (l.readings + 2) _ (omega arith)
                  h.execution_buckets;
          })
  ]

  check_agent-IsBounded :
      (agent_id : String) (l : RateLimiter f c)
      → IsBounded clock l
      → IsBounded clock (check_agent c clock wall agent_id l).1
  unfolding check_agent
  check_agent-IsBounded agent_id l h = elim (Option-cases l.redis) [
    | inr (store, e) ↦
        rw (e, check_agent)
          (check_window-IsBounded "per_agent" agent_id ("agent:" +ₛ agent_id) l.agent_limits.burst
            store l h)
    | inl e ↦
        let (w, later) =
          use_key-AllWithin laws clock monotone c wall "per_agent" agent_id agent_id l.agent_limits
            l.readings l.agent_buckets h.agent_limits h.agent_buckets in
        rw (e, check_agent)
          (record {
            agent_limits = h.agent_limits;
            execution_limits = h.execution_limits;
            global_bucket = IsWithin-later laws clock monotone l.readings _ _ later h.global_bucket;
            agent_buckets = w;
            execution_buckets =
                AllWithin-later laws clock monotone l.readings _ _ later h.execution_buckets;
          })
  ]

  check_execution-IsBounded :
      (agent_id execution_id : String) (l : RateLimiter f c)
      → IsBounded clock l
      → IsBounded clock (check_execution c clock wall agent_id execution_id l).1
  unfolding check_execution
  check_execution-IsBounded agent_id execution_id l h = elim (Option-cases l.redis) [
    | inr (store, e) ↦
        rw (e, check_execution)
          (check_window-IsBounded "per_execution" agent_id ("exec:" +ₛ execution_id)
            l.execution_limits.burst store l h)
    | inl e ↦
        let (w, later) =
          use_key-AllWithin laws clock monotone c wall "per_execution" agent_id execution_id
            l.execution_limits l.readings l.execution_buckets h.execution_limits
            h.execution_buckets in
        rw (e, check_execution)
          (record {
            agent_limits = h.agent_limits;
            execution_limits = h.execution_limits;
            global_bucket = IsWithin-later laws clock monotone l.readings _ _ later h.global_bucket;
            agent_buckets =
                AllWithin-later laws clock monotone l.readings _ _ later h.agent_buckets;
            execution_buckets = w;
          })
  ]

  and_then-IsBounded :
      (r : Verdict f × RateLimiter f c) (next : RateLimiter f c → Verdict f × RateLimiter f c)
      → ((l : RateLimiter f c) → IsBounded clock l → IsBounded clock (next l).1)
      → IsBounded clock r.1
      → IsBounded clock (and_then c clock wall r next).1
  unfolding and_then
  and_then-IsBounded (passed, l) next keep h = keep l h
  and_then-IsBounded (exceeded _ _ _, l) next keep h = h
  and_then-IsBounded (zero_division, l) next keep h = h

  check_given-IsBounded :
      (agent_id : String) (execution_id : Option String) (l : RateLimiter f c)
      → IsBounded clock l
      → IsBounded clock (check_given c clock wall agent_id execution_id l).1
  unfolding check_given
  check_given-IsBounded agent_id none l h = h
  check_given-IsBounded agent_id (some x) l h = elim (Bool-cases (x == "")) [
    | inl e ↦ rw (e, check_given) h
    | inr e ↦ rw (e, check_given) (check_execution-IsBounded agent_id x l h)
  ]

  -- With a clock that never goes back and limits of at least zero: after a check, whatever its
  -- verdict, and after a clean-up, every bucket of the limiter again holds at least nothing and at
  -- most its burst, if every bucket did before.
  pub check-IsBounded :
      (agent_id : String) (execution_id : Option String) (done : String) (l : RateLimiter f c)
      → IsBounded clock l
      → IsBounded clock (check c clock wall agent_id execution_id l).1
        × IsBounded clock (cleanup_execution c clock wall done l)
  unfolding check cleanup_execution
  check-IsBounded agent_id execution_id done l h = (
    and_then-IsBounded _ _ (check_given-IsBounded agent_id execution_id) (
        and_then-IsBounded _ _ (check_agent-IsBounded agent_id)
          (check_global-IsBounded agent_id l h)),
    record {
      agent_limits = h.agent_limits;
      execution_limits = h.execution_limits;
      global_bucket = h.global_bucket;
      agent_buckets = h.agent_buckets;
      execution_buckets =
          erase-All (λ e. IsWithin clock l.readings e.1) done l.execution_buckets
            h.execution_buckets;
    },
  )
