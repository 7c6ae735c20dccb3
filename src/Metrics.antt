-- ===== src/Metrics.antt =====
-- The health history of backend/app/core/metrics.py and the endpoints of backend/app/core/health.py. The
-- time, and the rounding to one digit, are given.
pub mod History
pub mod Middleware
pub mod Paths
pub mod Quantiles
pub mod Returns
pub mod Summary
use tacktcix.Prelude.{
  ℕ, zero, suc, ◌-◌, String, Bool, true, false, List, [], ◌∷◌, ◌++◌, if◌then◌else◌, ltb, length,
  drop,
}
use tacktcix.Prelude.Dict.{Dict}
use tacktcix.Prelude.Float.{Float}
use tacktcix.Prelude.Int.{ℤ, pos, negsuc}

pub record HealthRecord (f : Float) : Type 0 where
  pub timestamp : String
  pub overall : Bool
  pub checks : Dict String Bool
  pub duration_ms : f.F

-- The history and the gauge.
pub record HealthState (f : Float) : Type 0 where
  pub history : List (HealthRecord f)
  pub health_check_status : ℕ

pub record HealthReply (f : Float) : Type 0 where
  pub status : String
  pub service : String
  pub timestamp : f.F
  pub duration_ms : f.F
  pub database_status : String
  pub database_ms : f.F

-- `append` of a deque of at most `maxlen` values.
unfoldable pub push {ℓ} : {A : Type ℓ} → (maxlen : ℕ) → List A → A → List A
push maxlen xs x = if ltb (length xs) maxlen then xs ++ x ∷ [] else drop 1 (xs ++ x ∷ [])

-- `xs[-limit:]`
unfoldable pub last_slice {ℓ} : {A : Type ℓ} → (limit : ℤ) → List A → List A
last_slice (pos zero) xs = xs
last_slice (pos (suc n)) xs = drop (length xs - suc n) xs
last_slice (negsuc n) xs = drop (suc n) xs

module _ {f : Float} (round1 : f.F → f.F) where
  unfoldable pub record_health_check :
      (timestamp : String) (overall : Bool) (checks : Dict String Bool) (duration_ms : f.F)
      → HealthState f
      → HealthState f
  unfolding push
  record_health_check timestamp overall checks duration_ms s = record {
    history = push 100 s.history (record {
      timestamp = timestamp;
      overall = overall;
      checks = checks;
      duration_ms = round1 duration_ms;
    });
    health_check_status = if overall then 1 else 0;
  }

  -- `health_check`, for the answer of the database and the times that were measured.
  unfoldable pub health_check :
      (timestamp : String) (now : f.F) (database_ok : Bool) (database_ms elapsed : f.F)
      → HealthState f
      → HealthReply f × HealthState f
  unfolding record_health_check
  health_check timestamp now database_ok database_ms elapsed s =
      let reply : HealthReply f = record {
        status = if database_ok then "ok" else "degraded";
        service = "tacktcix-onboarding-engine";
        timestamp = now;
        duration_ms = round1 elapsed;
        database_status = if database_ok then "ok" else "error";
        database_ms = database_ms;
      } in
      (reply, record_health_check timestamp database_ok (("database", database_ok) ∷ []) elapsed s)

module _ {f : Float} where
  unfoldable pub get_health_history : (limit : ℤ) → HealthState f → List (HealthRecord f)
  unfolding last_slice
  get_health_history limit s = last_slice limit s.history
