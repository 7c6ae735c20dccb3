-- ===== src/RateLimit/Scopes.antt =====
-- Who a check (src/ratelimit/token_bucket.py) is charged to: the buckets of other agents and of
-- other executions stay as they are.
use tacktcix.Prelude.{
  ℕ, ◌≡◌, ◌≢◌, refl, ◌∙◌, String, false, Option, none, some, arith, Bool-cases, Option-cases, inl,
  inr, ◌==◌, string_eq,
}
use tacktcix.Prelude.Dict.{Dict, lookup, lookup-insert}
use tacktcix.Prelude.Float.{Float}
use tacktcix.Prelude.Int.{ℤ}
use tacktcix.RateLimit.{
  RedisClient, TokenBucket, RateLimiter, Limits, get_bucket, use_bucket, Verdict, passed, exceeded,
  zero_division, use_key, check_window, check_global, check_agent, check_execution, check_given,
  and_then, check,
}

-- The bucket of agent `a` and that of execution `x` are the same in both states.
pub record Same {f : Float} {c : RedisClient} (a x : String) (l m : RateLimiter f c) : Type 0 where
  pub agent : lookup a m.agent_buckets ≡ lookup a l.agent_buckets
  pub execution : lookup x m.execution_buckets ≡ lookup x l.execution_buckets

module _ {f : Float} (c : RedisClient) (clock : ℕ → f.F) (wall : ℕ → ℤ) (a x : String) where
  use_key_others :
      (other limit_type actor_id key : String) (limits : Limits f) (n : ℕ)
      (d : Dict String (TokenBucket f))
      → (other == key) ≡ false
      → lookup other (use_key c clock wall limit_type actor_id key limits n d).1.0 ≡ lookup other d
  unfolding use_key
  use_key_others other limit_type actor_id key limits n d differs =
      let b = (get_bucket c clock wall limits key n d).0 in
      let m = (get_bucket c clock wall limits key n d).1 in
      lookup-insert key other (use_bucket c clock wall limit_type actor_id m b).1 d
      ∙ (rw differs refl)

  Same-trans : (l m n : RateLimiter f c) → Same a x l m → Same a x m n → Same a x l n
  Same-trans l m n p q = record { agent = q.agent ∙ p.agent; execution = q.execution ∙ p.execution }

  check_global-Same :
      (agent_id : String) (l : RateLimiter f c)
      → Same a x l (check_global c clock wall agent_id l).1
  unfolding check_global check_window
  check_global-Same agent_id l = elim (Option-cases l.redis) [
    | inr (store, e) ↦ rw (e, check_global) (record { agent = refl; execution = refl })
    | inl e ↦ rw (e, check_global) (record { agent = refl; execution = refl })
  ]

  check_agent-Same :
      (agent_id : String) (l : RateLimiter f c)
      → (a == agent_id) ≡ false
      → Same a x l (check_agent c clock wall agent_id l).1
  unfolding check_agent check_window
  check_agent-Same agent_id l other = elim (Option-cases l.redis) [
    | inr (store, e) ↦ rw (e, check_agent) (record { agent = refl; execution = refl })
    | inl e ↦
        rw (e, check_agent)
          (record {
            agent =
                use_key_others a "per_agent" agent_id agent_id l.agent_limits l.readings
                  l.agent_buckets other;
            execution = refl;
          })
  ]

  check_execution-Same :
      (agent_id execution_id : String) (l : RateLimiter f c)
      → (x == execution_id) ≡ false
      → Same a x l (check_execution c clock wall agent_id execution_id l).1
  unfolding check_execution check_window
  check_execution-Same agent_id execution_id l other = elim (Option-cases l.redis) [
    | inr (store, e) ↦ rw (e, check_execution) (record { agent = refl; execution = refl })
    | inl e ↦
        rw (e, check_execution)
          (record {
            agent = refl;
            execution =
                use_key_others x "per_execution" agent_id execution_id l.execution_limits l.readings
                  l.execution_buckets other;
          })
  ]

  check_given-Same :
      (agent_id : String) (execution_id : Option String) (l : RateLimiter f c)
      → some x ≢ execution_id
      → Same a x l (check_given c clock wall agent_id execution_id l).1
  unfolding check_given
  check_given-Same agent_id none l other = record { agent = refl; execution = refl }
  check_given-Same agent_id (some y) l other = elim (Bool-cases (y == "")) [
    | inl e ↦ rw (e, check_given) (record { agent = refl; execution = refl })
    | inr e ↦
        rw (e, check_given)
          (check_execution-Same agent_id y l (ground (arith, string_eq.beq_iff x y)))
  ]

  and_then-Same :
      (l : RateLimiter f c) (r : Verdict f × RateLimiter f c)
      (next : RateLimiter f c → Verdict f × RateLimiter f c)
      → ((m : RateLimiter f c) → Same a x m (next m).1)
      → Same a x l r.1
      → Same a x l (and_then c clock wall r next).1
  unfolding and_then
  and_then-Same l (passed, m) next keep h = Same-trans l m (next m).1 h (keep m)
  and_then-Same l (exceeded _ _ _, m) next keep h = h
  and_then-Same l (zero_division, m) next keep h = h

  -- A check for one agent and one execution, or none, leaves the bucket of every other agent and of
  -- every other execution as it is, whatever its verdict.
  pub check_isolates :
      (agent_id : String) (execution_id : Option String) (l : RateLimiter f c)
      → a ≢ agent_id
      → some x ≢ execution_id
      → Same a x l (check c clock wall agent_id execution_id l).1
  unfolding check
  check_isolates agent_id execution_id l other_agent other_execution =
      and_then-Same l _ (check_given c clock wall agent_id execution_id)
        (λ m. check_given-Same agent_id execution_id m other_execution)
        (and_then-Same l _ (check_agent c clock wall agent_id)
          (λ m. check_agent-Same agent_id m (ground (arith, string_eq.beq_iff a agent_id)))
          (check_global-Same agent_id l))
