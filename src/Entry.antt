-- ===== src/Entry.antt =====
-- ExecutionWorker of src/main.py: how a job of the queue is run and reported.
pub mod Reports
pub mod Results
use tacktcix.Prelude.{ℕ, zero, suc, String, Option, none, some, [], ◌==◌, string_eq, if◌then◌else◌}
use tacktcix.Prelude.Dict.{lookup, erase}
use tacktcix.Prelude.Float.{Float}
use tacktcix.Prelude.Int.{ℤ, is_zero}
use tacktcix.Prelude.Json.{Json}
use tacktcix.Prelude.Outcome.{Outcome, ok, raise, Error, runtime_error}
use tacktcix.Prelude.Text.{◌+ₛ◌}
use tacktcix.Consumer.{Job}
use tacktcix.Orchestrator.{
  Engine, OrchestratorClient, JobResult, JobStatus, report_status, report_result,
}
use tacktcix.Orchestrator
use tacktcix.Workers.{
  ActiveExecution, Config, Manager, Sandbox, Status, check_active_containers, dispatch, is_over,
}
use tacktcix.Workers

-- The parts of the worker that a job goes through.
pub record Worker (f : Float) (sandbox : Sandbox) (e : Engine) : Type 0 where
  pub manager : Manager f sandbox
  pub orchestrator : OrchestratorClient e

-- `str` of an integer.
unfoldable pub code_text : (str_int : ℤ → String) → Option ℤ → String
code_text str_int none = "None"
code_text str_int (some n) = str_int n

unfoldable pub exited : Option ℤ → JobStatus
exited none = JobStatus.failed
exited (some n) = if is_zero n then JobStatus.completed else JobStatus.failed

unfoldable pub outcome_of : Status → Option ℤ → JobStatus
unfolding exited
outcome_of Status.timeout code = JobStatus.timeout
outcome_of Status.running code = exited code
outcome_of Status.completed code = exited code
outcome_of Status.failed code = exited code

module _ {f : Float} (str_int : ℤ → String) where
  unfoldable pub error_of : ActiveExecution f → Option ℤ → String
  unfolding outcome_of code_text
  error_of x code = elim (outcome_of x.status code) [
    | JobStatus.timeout ↦ "Job timed out after " +ₛ str_int x.timeout_s +ₛ "s"
    | JobStatus.completed ↦ ""
    | _ ↦ "Job exited with code " +ₛ code_text str_int code
  ]

  unfoldable pub job_result :
      (job_id : String) (duration_ms : ℤ) → ActiveExecution f → Option ℤ → JobResult
  unfolding outcome_of error_of
  job_result job_id duration_ms x code = record {
    job_id = job_id;
    status = outcome_of x.status code;
    exit_code = code;
    stdout = "";
    stderr = "";
    duration_ms = duration_ms;
    error = error_of x code;
    artifacts = [];
  }

module _ {f : Float} {sandbox : Sandbox} {e : Engine} where
  -- `except RuntimeError`
  unfoldable pub rejected :
      (job_id : String) → Error → Worker f sandbox e → Outcome {0} Unit × Worker f sandbox e
  rejected job_id runtime_error s =
      let (o, c) = report_status job_id JobStatus.queued s.orchestrator in
      (o, record s { orchestrator = c })
  rejected job_id x s = (raise x, s)

  -- The execution is taken out, and its result is reported.
  unfoldable pub conclude :
      (str_int : ℤ → String) (job_id cid : String) (duration_ms : ℤ) (code : Option ℤ)
      → Worker f sandbox e
      → Outcome {0} Unit × Worker f sandbox e
  unfolding job_result
  conclude str_int job_id cid duration_ms code s =
      let m = record s.manager { active = erase cid s.manager.active } in
      elim (lookup cid s.manager.active) [
        | none ↦ (ok tt, record s { manager = m })
        | some x ↦
            let (o, c) =
              report_result (job_result str_int job_id duration_ms x code) s.orchestrator in
            (o, record { manager = m; orchestrator = c })
      ]

module _ {f : Float} (sandbox : Sandbox) (clock : ℕ → f.F) (config : Config) where
  -- Passes of the monitor's thread.
  unfoldable pub passes : ℕ → Manager f sandbox → Manager f sandbox
  passes zero m = m
  passes (suc n) m = passes n (check_active_containers sandbox clock config m)

  -- `wait_for_job` on the manager: `between n` passes are made after the n-th look. `none` is a wait
  -- that has not ended after `fuel` looks.
  unfoldable pub watch :
      (between : ℕ → ℕ) (cid : String) (fuel n : ℕ)
      → Manager f sandbox
      → Option (Option ℤ × Manager f sandbox)
  unfolding passes is_over
  watch between cid zero n m = none
  watch between cid (suc fuel) n m =
      let rest = watch between cid fuel (suc n) (passes (between n) m) in
      elim (lookup cid m.active) [
        | none ↦ some (none, m)
        | some x ↦ if is_over x.status then some (x.exit_code, m) else rest
      ]

-- `last` passes are made between the look that ends the wait and the moment when the execution is taken
-- out; `duration` is the time that was measured.
module _ {f : Float} {e : Engine} (sandbox : Sandbox) (clock : ℕ → f.F) (config : Config)
    (str : Json → String) (str_int : ℤ → String) (between : ℕ → ℕ) (last : ℕ) (duration : ℤ) where
  unfoldable pub run_job :
      (fuel : ℕ)
      → Job
      → (cid : String) → Worker f sandbox e
      → Option (Outcome {0} Unit × Worker f sandbox e)
  unfolding watch conclude
  run_job fuel job cid s = elim (watch sandbox clock config between cid fuel 0 s.manager) [
    | none ↦ none
    | some (code, m) ↦ some (
        conclude str_int job.id cid duration code
          (record s { manager = passes sandbox clock config last m }))
  ]

  unfoldable pub dispatched :
      (fuel : ℕ) → Job → Worker f sandbox e → Option (Outcome {0} Unit × Worker f sandbox e)
  unfolding run_job rejected
  dispatched fuel job s =
      let (o, m) = dispatch sandbox clock config str job s.manager in
      let s' = record s { manager = m } in
      elim o [ raise x ↦ some (rejected job.id x s') | ok cid ↦ run_job fuel job cid s' ]

  unfoldable pub handle_job :
      (fuel : ℕ) → Job → Worker f sandbox e → Option (Outcome {0} Unit × Worker f sandbox e)
  unfolding dispatched
  handle_job fuel job s =
      let (o, c) = report_status job.id JobStatus.running s.orchestrator in
      let s' = record s { orchestrator = c } in
      elim o [ raise x ↦ some (raise x, s') | ok _ ↦ dispatched fuel job s' ]
