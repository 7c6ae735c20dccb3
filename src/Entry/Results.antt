-- ===== src/Entry/Results.antt =====
-- What the worker (src/main.py) makes of an execution that is over, and of the exit code that its wait
-- returned.
use tacktcix.Prelude.{◌≡◌, ◌≢◌, refl, ap, ◌⊎◌, inl, inr, String, Option, none, some, Bool-cases}
use tacktcix.Prelude.Float.{Float}
use tacktcix.Prelude.Int.{ℤ, pos, is_zero, is_zero_iff}
use tacktcix.Prelude.Text.{◌+ₛ◌}
use tacktcix.Orchestrator.{JobStatus}
use tacktcix.Workers.{ActiveExecution, Status}
use tacktcix.Entry.{error_of, outcome_of, exited, code_text}

Status-cases :
    (st : Status) (code : Option ℤ)
    → ((st ≡ Status.timeout) × (outcome_of st code ≡ JobStatus.timeout))
      ⊎ ((st ≢ Status.timeout) × (outcome_of st code ≡ exited code))
unfolding outcome_of
Status-cases Status.timeout code = inl (refl, refl)
Status-cases Status.running code = inr (λ e. cc e, refl)
Status-cases Status.completed code = inr (λ e. cc e, refl)
Status-cases Status.failed code = inr (λ e. cc e, refl)

module _ {f : Float} (str_int : ℤ → String) where
  -- The status and the error that are reported: the status of the execution counts only where it is the
  -- timeout, and else the exit code that the wait returned.
  pub data Judged (x : ActiveExecution f) (code : Option ℤ) : JobStatus → String → Type 0 where
    timed_out :
        x.status ≡ Status.timeout
        → Judged x code JobStatus.timeout ("Job timed out after " +ₛ str_int x.timeout_s +ₛ "s")
    succeeded :
        x.status ≢ Status.timeout → code ≡ some (pos 0) → Judged x code JobStatus.completed ""
    failed_with :
        (n : ℤ)
        → x.status ≢ Status.timeout
        → code ≡ some n
        → n ≢ pos 0
        → Judged x code JobStatus.failed ("Job exited with code " +ₛ str_int n)
    failed_without :
        x.status ≢ Status.timeout
        → code ≡ none
        → Judged x code JobStatus.failed "Job exited with code None"

  exited-Judged :
      (x : ActiveExecution f) (code : Option ℤ)
      → x.status ≢ Status.timeout
      → outcome_of x.status code ≡ exited code
      → Judged x code (outcome_of x.status code) (error_of str_int x code)
  unfolding exited error_of code_text
  exited-Judged x none other same = rw (same, error_of) (failed_without other refl)
  exited-Judged x (some n) other same = elim (Bool-cases (is_zero n)) [
    | inl z ↦ rw (rw z at same, error_of) (succeeded other (ap some ((is_zero_iff n).0 z)))
    | inr z ↦
        rw (rw z at same, error_of)
          (failed_with n other refl (λ e. let zero = (is_zero_iff n).1 e in cc (zero, z)))
  ]

  pub error_of-Judged :
      (x : ActiveExecution f) (code : Option ℤ)
      → Judged x code (outcome_of x.status code) (error_of str_int x code)
  unfolding error_of
  error_of-Judged x code = elim (Status-cases x.status code) [
    | inl (t, q) ↦ rw (q, error_of) (timed_out t)
    | inr (other, same) ↦ exited-Judged x code other same
  ]
