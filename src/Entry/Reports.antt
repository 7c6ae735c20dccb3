-- ===== src/Entry/Reports.antt =====
-- What the worker (src/main.py) reports of each job to the orchestration engine (src/orchestrator.py).
use tacktcix.Prelude.{
  ℕ, zero, suc, ◌<◌, ◌≤◌, ◌≡◌, ◌≢◌, refl, inl, inr, arith, String, Option, Option-cases, none, some,
  Bool-cases, string_eq,
}
use tacktcix.Prelude.Dict.{lookup, erase}
use tacktcix.Prelude.Float.{Float}
use tacktcix.Prelude.Int.{ℤ}
use tacktcix.Prelude.Json.{Json}
use tacktcix.Prelude.Outcome.{Outcome, ok, raise, Error, http_error, runtime_error, Outcome-cases}
use tacktcix.Consumer.{Job}
use tacktcix.Orchestrator.{
  Engine, OrchestratorClient, JobResult, JobStatus, send, except_http, report_status, report_result,
}
use tacktcix.Workers.{ActiveExecution, Config, Manager, Sandbox, dispatch, is_over}
use tacktcix.Workers.Shutdown.{IsOver, gone, over}
use tacktcix.Entry.Results.{Judged, error_of-Judged}
use tacktcix.Entry.{
  Worker, passes, watch, job_result, rejected, conclude, run_job, dispatched, handle_job,
}

-- A call of the engine's API fails by an HTTPError.
unfoldable pub OnlyHttpErrors : Engine → Type 0
OnlyHttpErrors e =
    (path : String) (body : Json) (w : e.World) (x : Error)
    → (e.post path body w).0 ≡ raise x
    → x ≡ http_error

module _ {e : Engine} (only_http : OnlyHttpErrors e) where
  send-ok : (path : String) (body : Json) (c : OrchestratorClient e) → (send path body c).0 ≡ ok tt
  unfolding send except_http OnlyHttpErrors
  send-ok path body c = elim (Bool-cases c.http) [
    | inr q ↦ rw q refl
    | inl q ↦ elim (Outcome-cases (e.post path body c.world).0) [
      | inl (r, k) ↦ rw (q, k) refl
      | inr (x, k) ↦ rw (q, k, only_http path body c.world x k) refl
    ]
  ]

  report_status-ok :
      (job_id : String) (status : JobStatus) (c : OrchestratorClient e)
      → (report_status job_id status c).0 ≡ ok tt
  unfolding report_status
  report_status-ok job_id status c = send-ok _ _ _

  report_result-ok : (r : JobResult) (c : OrchestratorClient e) → (report_result r c).0 ≡ ok tt
  unfolding report_result
  report_result-ok r c = send-ok _ _ _

abbrev pub taken_out :
    {f : Float} {sandbox : Sandbox} → (cid : String) → Manager f sandbox → Manager f sandbox
taken_out cid m = record m { active = erase cid m.active }

module _ {f : Float} (sandbox : Sandbox) (clock : ℕ → f.F) (config : Config) (between : ℕ → ℕ)
    (cid : String) where
  -- The manager as the k-th look after the n-th finds it.
  unfoldable pub seen : (k n : ℕ) → Manager f sandbox → Manager f sandbox
  seen zero n m = m
  seen (suc k) n m = seen k (suc n) (passes sandbox clock config (between n) m)

  watch_ends :
      (k fuel n : ℕ) (m : Manager f sandbox) (code : Option ℤ)
      → IsOver cid (seen k n m).active code
      → k < fuel
      → (j : ℕ) × (found : Option ℤ) × (j ≤ k)
        × IsOver cid (seen j n m).active found
        × (watch sandbox clock config between cid fuel n m ≡ some (found, seen j n m))
  unfolding watch seen
  watch_ends k zero n m code h enough = absurd (omega arith)
  watch_ends zero (suc fuel) n m _ (gone missing) enough =
      (0, none, omega arith, gone missing, rw (missing, watch) refl)
  watch_ends zero (suc fuel) n m _ (over x found q) enough =
      (0, x.exit_code, omega arith, over x found q, rw (found, watch, q) refl)
  watch_ends (suc k) (suc fuel) n m code h enough = elim (Option-cases (lookup cid m.active)) [
    | inl missing ↦ (0, none, omega arith, gone missing, rw (missing, watch) refl)
    | inr (x, found) ↦ elim (Bool-cases (is_over x.status)) [
      | inl q ↦ (0, x.exit_code, omega arith, over x found q, rw (found, watch, q) refl)
      | inr q ↦
          let (j, code', low, ends, returns) =
            watch_ends k fuel (suc n) (passes sandbox clock config (between n) m) code h
              (omega arith) in
          (suc j, code', omega arith, ends, rw (found, watch, q) returns)
    ]
  ]

module _ {f : Float} {e : Engine} (sandbox : Sandbox) (clock : ℕ → f.F) (config : Config)
    (str : Json → String) (str_int : ℤ → String) (between : ℕ → ℕ) (last : ℕ) (duration : ℤ) where
  -- The worker once the job is announced, once it is dispatched, and when its execution is taken out.
  abbrev pub announced : Job → Worker f sandbox e → OrchestratorClient e
  announced job s = (report_status job.id JobStatus.running s.orchestrator).1

  abbrev pub started : Job → Worker f sandbox e → Outcome String × Manager f sandbox
  started job s = dispatch sandbox clock config str job s.manager

  abbrev pub looked : (cid : String) (j : ℕ) → Job → Worker f sandbox e → Manager f sandbox
  looked cid j job s = seen sandbox clock config between cid j 0 (started job s).1

  abbrev pub at_end : (cid : String) (j : ℕ) → Job → Worker f sandbox e → Manager f sandbox
  at_end cid j job s = passes sandbox clock config last (looked cid j job s)

  -- The ends of `handle_job`: the reports that were made, in order, and the executions that are left.
  pub data Ends (job : Job) (s : Worker f sandbox e)
      : Option (Outcome {0} Unit × Worker f sandbox e) → Type 0 where
    at_capacity :
        (started job s).0 ≡ raise runtime_error
        → Ends job s (
            some (
              ok tt,
              record {
                manager = (started job s).1;
                orchestrator = (report_status job.id JobStatus.queued (announced job s)).1;
              },
            ))
    not_started :
        (x : Error)
        → (started job s).0 ≡ raise x
        → x ≢ runtime_error
        → Ends job s
            (some (raise x, record { manager = (started job s).1; orchestrator = announced job s }))
    lost :
        (cid : String) (j : ℕ) (code : Option ℤ)
        → (started job s).0 ≡ ok cid
        → IsOver cid (looked cid j job s).active code
        → lookup cid (at_end cid j job s).active ≡ none
        → Ends job s (
            some (
              ok tt,
              record {
                manager = taken_out cid (at_end cid j job s);
                orchestrator = announced job s;
              },
            ))
    reported :
        (cid : String) (j : ℕ) (code : Option ℤ) (x : ActiveExecution f) (r : JobResult)
        → (started job s).0 ≡ ok cid
        → IsOver cid (looked cid j job s).active code
        → lookup cid (at_end cid j job s).active ≡ some x
        → r.job_id ≡ job.id
        → r.exit_code ≡ code
        → r.duration_ms ≡ duration
        → Judged str_int x code r.status r.error
        → Ends job s (
            some (
              ok tt,
              record {
                manager = taken_out cid (at_end cid j job s);
                orchestrator = (report_result r (announced job s)).1;
              },
            ))

  rejected-Ends :
      OnlyHttpErrors e
      → (job : Job) (s : Worker f sandbox e) (x : Error) → (started job s).0 ≡ raise x
      → Ends job s (
          some (
            rejected job.id x
              (record { manager = (started job s).1; orchestrator = announced job s })))
  unfolding rejected
  rejected-Ends only_http job s runtime_error q =
      rw (report_status-ok only_http job.id JobStatus.queued (announced job s)) (at_capacity q)
  rejected-Ends only_http job s x q = not_started x q (λ same. cc)

  conclude-Ends :
      OnlyHttpErrors e
      → (job : Job) (s : Worker f sandbox e) (cid : String) (j : ℕ) (code : Option ℤ)
      → (started job s).0 ≡ ok cid
      → IsOver cid (looked cid j job s).active code
      → Ends job s (
          some (
            conclude str_int job.id cid duration code
              (record { manager = at_end cid j job s; orchestrator = announced job s })))
  unfolding conclude job_result
  conclude-Ends only_http job s cid j code q h =
      elim (Option-cases (lookup cid (at_end cid j job s).active)) [
        | inl k ↦ rw (k, conclude) (lost cid j code q h k)
        | inr (x, k) ↦
            rw
              (
                k,
                conclude,
                report_result-ok only_http (job_result str_int job.id duration x code)
                    (announced job s),
              )
              (reported cid j code x (job_result str_int job.id duration x code) q h k refl refl
                refl (error_of-Judged str_int x code))
      ]

  -- Where the engine's API fails by HTTPErrors only, and a look of the wait within the fuel finds each
  -- job that is started over or gone, handling a job ends, and in one of four ways, each after the
  -- report that the job is running. A worker at capacity reports it as queued and returns. Another
  -- error of the dispatch is raised, with no other report. Else the execution is taken out of the
  -- active ones. If it is there, one result is reported, with the job's id, the duration and the exit
  -- code that the wait found: a timeout where that is the execution's status by then, and otherwise, by
  -- that exit code alone, completed for the code 0 and failed for another or none. If the execution is
  -- gone, nothing more is reported.
  pub handle_job_reports :
      OnlyHttpErrors e
      → (fuel : ℕ) (job : Job) (s : Worker f sandbox e)
      → ((cid : String)
          → (started job s).0 ≡ ok cid
          → (k : ℕ) × (code : Option ℤ) × IsOver cid (looked cid k job s).active code × (k < fuel))
      → Ends job s (handle_job sandbox clock config str str_int between last duration fuel job s)
  unfolding handle_job dispatched run_job
  handle_job_reports only_http fuel job s ending =
      rw (report_status-ok only_http job.id JobStatus.running s.orchestrator, handle_job)
        (elim (Outcome-cases (started job s).0) [
          | inr (x, q) ↦ rw (q, dispatched) (rejected-Ends only_http job s x q)
          | inl (cid, q) ↦
              let (k, code, h, enough) = ending cid q in
              let (j, found, _, is_at_end, ends) =
                watch_ends sandbox clock config between cid k fuel 0 (started job s).1 code h
                  enough in
              rw (q, dispatched, ends, run_job)
                (conclude-Ends only_http job s cid j found q is_at_end)
        ])
