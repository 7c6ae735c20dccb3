-- ===== src/Tests/Workers.antt =====
-- Runs of the worker manager with a sandbox that starts containers c1, c2, ... and reports them exited.
use tacktcix.Prelude.{
  ℕ, suc, ◌*◌, ◌≤◌, ◌≡◌, refl, String, true, false, Option, none, some, [], ◌∷◌, arith, All,
  string_eq, leb,
}
use tacktcix.Prelude.Dict.{Dict}
use tacktcix.Prelude.Int.{ℤ, pos}
use tacktcix.Prelude.Json.{Json, text, object, member, end}
use tacktcix.Prelude.Outcome.{ok}
use tacktcix.Consumer.{Job}
use tacktcix.Workers.{
  Config, is_over, ResourceProfile, ActiveExecution, running, completed, Sandbox, Manager, dispatch,
  shutdown, wait_for_job, check_active_containers,
}
use tacktcix.Workers.Sane.{IsWellRun, IsValidConfig}
use tacktcix.Workers.Capacity.{Reach, here, next, dispatched, checked, Reach-IsWellRun}
use tacktcix.Workers.Shutdown.{
  IsOver, over, Answers, KillsLast, is_kill, wait_for_job_returns, shutdown_answers,
}
use tacktcix.Tests.Fixed.{fixed, fixed_laws}

abbrev pub sandbox : Sandbox
sandbox = record {
  World = ℕ;
  create_container = λ l w. (ok "c1", suc w);
  kill_container = λ cid w. w;
  stop_container = λ cid w. w;
  container_status = λ cid w. (ok (some "exited"), w);
  container_exit_code = λ cid w. (ok (some (pos 0)), w);
}

abbrev pub clock : ℕ → ℕ
clock n = n * 10000

abbrev pub medium : ResourceProfile
medium = record {
  cpu_shares = pos 512;
  cpu_quota = pos 50000;
  cpu_period = pos 100000;
  memory_mb = pos 512;
  memory_swap_mb = pos 512;
  disk_size_gb = pos 5;
  pids_limit = pos 100;
  description = "medium";
}

abbrev pub config : Config
config = record {
  max_concurrent_jobs = 1;
  shutdown_timeout = pos 2;
  default_profile = "medium";
  profiles = ("medium", medium) ∷ [];
  default_timeout_s = pos 600;
  max_timeout_s = pos 3600;
}

abbrev pub job : Job
job = record {
  id = "1-0";
  stream_key = "jobs";
  job_type = "build";
  payload = object (member "script" (text "make") end);
  timeout_s = pos 9000;
  profile = "large";
  network_access = false;
  workspace = none;
  agent_type = none;
  agent_capabilities = [];
}

abbrev pub str : Json → String
str (text s) = s
str _ = ""

abbrev pub idle_manager : Manager fixed sandbox
idle_manager = record { active = []; world = 0; readings = 0; monitoring = true }

config-IsValidConfig : IsValidConfig config
config-IsValidConfig = record { positive = omega arith; limited = omega arith }

idle-IsWellRun : IsWellRun {f = fixed} config []
idle-IsWellRun = record { unique = tt; capacity = omega arith; sane = tt }

abbrev one_job : Manager fixed sandbox
one_job = (dispatch sandbox clock config str job idle_manager).1

abbrev monitored : Manager fixed sandbox
monitored = check_active_containers sandbox clock config one_job

run : Reach config clock str idle_manager monitored
run = next (next here (dispatched job)) checked

Reach-IsWellRun_example : IsWellRun config monitored.active
Reach-IsWellRun_example = Reach-IsWellRun config clock str config-IsValidConfig idle-IsWellRun run

-- The job runs at the first two looks and is completed at the third.
abbrev execution : ActiveExecution fixed
execution = record {
  container_id = "c1";
  job_id = "1-0";
  job_type = "build";
  profile = "large";
  timeout_s = pos 600;
  started_at = 0;
  status = running;
  exit_code = none;
}

abbrev finished : ActiveExecution fixed
finished = record execution { status = completed; exit_code = some (pos 0) }

abbrev snapshot : ℕ → Dict String (ActiveExecution fixed)
snapshot n = elim (leb 2 n) [ true ↦ ("c1", finished) ∷ [] | false ↦ ("c1", execution) ∷ [] ]

third_look : IsOver "c1" (snapshot 2) (some (pos 0))
unfolding is_over
third_look = over finished refl refl

wait_for_job_returns_example :
    (j : ℕ) × (found : Option ℤ) × (0 ≤ j)
    × (j ≤ 2)
    × IsOver "c1" (snapshot j) found
    × (wait_for_job snapshot "c1" 5 0 ≡ some found)
wait_for_job_returns_example =
    wait_for_job_returns snapshot "c1" 0 2 5 (some (pos 0)) third_look (omega arith) (omega arith)

abbrev busy_manager : Manager fixed sandbox
busy_manager = record {
  active = ("c1", execution) ∷ [];
  world = 1;
  readings = 1;
  monitoring = true;
}

busy-IsWellRun : IsWellRun config busy_manager.active
busy-IsWellRun = record {
  unique = (refl, tt);
  capacity = omega arith;
  sane = (record { filed = refl; positive = omega arith; limited = omega arith; agree = refl }, tt);
}

shutdown_answers_example :
    Answers busy_manager.active (shutdown sandbox clock config true busy_manager)
    × Answers busy_manager.active (shutdown sandbox clock config false busy_manager)
    × KillsLast (shutdown sandbox clock config true busy_manager)
    × All (λ a. is_kill a ≡ true) (shutdown sandbox clock config false busy_manager)
shutdown_answers_example =
    shutdown_answers fixed_laws sandbox clock config (λ m n h. ground (arith, h)) busy_manager
      busy-IsWellRun
