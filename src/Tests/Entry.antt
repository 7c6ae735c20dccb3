-- ===== src/Tests/Entry.antt =====
-- A job that the worker runs and reports: its container is found exited by the first monitor pass.
use tacktcix.Prelude.{
  ℕ, List, Option, subst, ◌<◌, ◌≡◌, refl, arith, String, true, none, some, [], ◌∷◌, ◌++◌,
}
use tacktcix.Prelude.Int.{ℤ, pos, is_zero}
use tacktcix.Prelude.Outcome.{ok, raise, http_error}
use tacktcix.Orchestrator.{Engine}
use tacktcix.Workers.{ActiveExecution, completed, dispatch, check_active_containers, is_over}
use tacktcix.Workers.Shutdown.{IsOver, over}
use tacktcix.Entry.{Worker, handle_job, passes}
use tacktcix.Entry.Reports.{OnlyHttpErrors, Ends, looked, seen, started, handle_job_reports}
use tacktcix.Tests.Fixed.{fixed}
use tacktcix.Tests.Workers.{sandbox, clock, config, job, str, idle_manager}

-- The engine's API is down; its paths are kept.
abbrev engine : Engine
engine = record {
  World = List String;
  on_status_change = none;
  on_result = none;
  post = λ path body w. (raise http_error, w ++ path ∷ []);
}

only_http : OnlyHttpErrors engine
unfolding OnlyHttpErrors
only_http path body w x q = cc

abbrev worker : Worker fixed sandbox engine
worker = record {
  manager = idle_manager;
  orchestrator = record { base_url = some "http://engine"; http = true; world = [] };
}

abbrev str_int : ℤ → String
str_int n = "n"

abbrev one_pass : ℕ → ℕ
one_pass n = 1

named :
    (cid : String)
    → (started {e = engine} sandbox clock config str str_int one_pass 0 (pos 9) job worker).0
      ≡ ok cid
    → "c1" ≡ cid
unfolding dispatch
named cid q = cc

abbrev finished : ActiveExecution fixed
finished = record {
  container_id = "c1";
  job_id = "1-0";
  job_type = "build";
  profile = "large";
  timeout_s = pos 3600;
  started_at = 0;
  status = completed;
  exit_code = some (pos 0);
}

ending :
    (cid : String)
    → (started {e = engine} sandbox clock config str str_int one_pass 0 (pos 9) job worker).0
      ≡ ok cid
    → (k : ℕ) × (code : Option ℤ) × IsOver cid
        (looked {e = engine} sandbox clock config str str_int one_pass 0
          (pos 9)
          cid
          k
          job
          worker).active
        code
      × (k < 3)
unfolding dispatch seen passes check_active_containers is_over is_zero
ending cid q =
    let same : "c1" ≡ cid = named cid q in
    subst
      (λ c.
        (k : ℕ) × (code : Option ℤ) × IsOver c
          (looked {e = engine} sandbox clock config str str_int one_pass 0 (pos 9) c k job
            worker).active
          code
        × (k < 3))
      same (1, some (pos 0), over finished refl refl, omega arith)

handle_job_reports_example :
    Ends {e = engine} sandbox clock config str str_int one_pass 0
      (pos 9)
      job
      worker
      (handle_job sandbox clock config str str_int one_pass 0 (pos 9) 3 job worker)
handle_job_reports_example =
    handle_job_reports sandbox clock config str str_int one_pass 0 (pos 9) only_http 3 job worker
      ending
