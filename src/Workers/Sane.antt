-- ===== src/Workers/Sane.antt =====
-- Sane entries of the dict of executions (src/worker_manager.py): the timeouts, and the agreement of
-- status and exit code.
use tacktcix.Prelude.{
  ◌≤◌, ◌≡◌, refl, ap, true_not_false, ◌∙◌, String, Option, none, some, [], ◌∷◌, arith, All,
  Bool-cases, inl, inr, ◌==◌, string_eq, length,
}
use tacktcix.Prelude.Dict.{Dict, has_key, erase, IsDict, erase-All, erase-IsDict, length-erase}
use tacktcix.Prelude.Float.{Float}
use tacktcix.Prelude.Int.{ℤ, pos, ◌≤ℤ◌, is_zero, is_zero_iff}
use tacktcix.Workers.{
  Config, Status, running, timeout, completed, failed, ActiveExecution, clamp_timeout,
  change_execution, finish,
}

-- A running execution has no exit code yet, and 0 is the exit code of the completed ones.
abbrev pub Agree : Status → Option ℤ → Type 0
Agree running code = code ≡ none
Agree timeout code = Unit
Agree completed code = code ≡ some (pos 0)
Agree failed code = code ≡ some (pos 0) → ⊥

-- An entry of the dict: filed under its container, with a timeout in range.
pub record IsSane {f : Float} (c : Config) (entry : String × ActiveExecution f) : Type 0 where
  pub filed : entry.1.container_id ≡ entry.0
  pub positive : pos 1 ≤ℤ entry.1.timeout_s
  pub limited : entry.1.timeout_s ≤ℤ c.max_timeout_s
  pub agree : Agree entry.1.status entry.1.exit_code

pub record IsValidConfig (c : Config) : Type 0 where
  pub positive : pos 1 ≤ℤ c.default_timeout_s
  pub limited : c.default_timeout_s ≤ℤ c.max_timeout_s

pub record IsWellRun {f : Float} (c : Config) (active : Dict String (ActiveExecution f))
    : Type 0 where
  pub unique : IsDict active
  pub capacity : length active ≤ c.max_concurrent_jobs
  pub sane : All (IsSane c) active

-- Whatever timeout a job asks for, its clamped timeout is at least 1 and at most the maximum, and a
-- timeout in that range is kept, when the default is in that range.
pub clamp_timeout_range :
    (c : Config) (wanted : ℤ)
    → IsValidConfig c
    → pos 1 ≤ℤ clamp_timeout c wanted
      × clamp_timeout c wanted ≤ℤ c.max_timeout_s
      × (pos 1 ≤ℤ wanted → wanted ≤ℤ c.max_timeout_s → clamp_timeout c wanted ≡ wanted)
unfolding clamp_timeout
clamp_timeout_range c wanted h = ground arith

module _ {f : Float} (c : Config) where
  change_execution-All :
      (cid : String) (g : ActiveExecution f → ActiveExecution f)
      (d : Dict String (ActiveExecution f))
      → ((k : String) (e : ActiveExecution f) → IsSane c (k, e) → IsSane c (k, g e))
      → All (IsSane c) d
      → All (IsSane c) (change_execution cid g d)
  unfolding change_execution
  change_execution-All cid g [] keep h = tt
  change_execution-All cid g ((k, e) ∷ rest) keep h = elim (Bool-cases (cid == k)) [
    | inl q ↦ rw q (keep k e h.0, h.1)
    | inr q ↦ rw q (h.0, change_execution-All cid g rest keep h.1)
  ]

  change_execution-has_key :
      (cid k : String) (g : ActiveExecution f → ActiveExecution f)
      (d : Dict String (ActiveExecution f))
      → has_key k (change_execution cid g d) ≡ has_key k d
  unfolding change_execution
  change_execution-has_key cid k g [] = refl
  change_execution-has_key cid k g ((j, e) ∷ rest) =
      ground (arith, change_execution-has_key cid k g rest)

  change_execution-IsDict :
      (cid : String) (g : ActiveExecution f → ActiveExecution f)
      (d : Dict String (ActiveExecution f))
      → IsDict d
      → IsDict (change_execution cid g d)
  unfolding change_execution
  change_execution-IsDict cid g [] h = tt
  change_execution-IsDict cid g ((k, e) ∷ rest) h = elim (Bool-cases (cid == k)) [
    | inl q ↦ rw q h
    | inr q ↦
        rw q (change_execution-has_key cid k g rest ∙ h.0, change_execution-IsDict cid g rest h.1)
  ]

  change_execution-length :
      (cid : String) (g : ActiveExecution f → ActiveExecution f)
      (d : Dict String (ActiveExecution f))
      → length (change_execution cid g d) ≡ length d
  unfolding change_execution
  change_execution-length cid g [] = refl
  change_execution-length cid g ((k, e) ∷ rest) = ground (arith, change_execution-length cid g rest)

  pub change_execution-IsWellRun :
      (cid : String) (g : ActiveExecution f → ActiveExecution f)
      (d : Dict String (ActiveExecution f))
      → ((k : String) (e : ActiveExecution f) → IsSane c (k, e) → IsSane c (k, g e))
      → IsWellRun c d
      → IsWellRun c (change_execution cid g d)
  change_execution-IsWellRun cid g d keep h = record {
    unique = change_execution-IsDict cid g d h.unique;
    capacity = omega (arith, change_execution-length cid g d, h.capacity);
    sane = change_execution-All cid g d keep h.sane;
  }

  pub erase-IsWellRun :
      (cid : String) (d : Dict String (ActiveExecution f))
      → IsWellRun c d
      → IsWellRun c (erase cid d)
  erase-IsWellRun cid d h = record {
    unique = erase-IsDict cid d h.unique;
    capacity = omega (arith, length-erase cid d, h.capacity);
    sane = erase-All (IsSane c) cid d h.sane;
  }

  pub finish-IsSane :
      (code : Option ℤ) (k : String) (e : ActiveExecution f)
      → IsSane c (k, e)
      → IsSane c (k, finish code e)
  unfolding finish
  finish-IsSane none k e h = record {
    filed = h.filed;
    positive = h.positive;
    limited = h.limited;
    agree = λ q. cc;
  }
  finish-IsSane (some code) k e h = record {
    filed = h.filed;
    positive = h.positive;
    limited = h.limited;
    agree = elim (Bool-cases (is_zero code)) [
      | inl q ↦ rw q (ap some ((is_zero_iff code).0 q))
      | inr q ↦ rw q (λ zero. true_not_false ((is_zero_iff code).1 cc) q)
    ];
  }
