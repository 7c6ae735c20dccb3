-- ===== src/Workers.antt =====
-- src/worker_manager.py: the executions of a worker. The sandbox that runs the containers is an
-- interface, which src/container_runtime.py fills; the clock is a parameter as for the rate limiter.
pub mod Command
pub mod Sane
pub mod Capacity
pub mod Shutdown
pub mod Worlds
use tacktcix.Prelude.{
  ℕ, zero, suc, ◌+◌, String, Bool, true, false, Option, none, some, List, [], ◌∷◌, ◌++◌, map,
  length, ◌==◌, string_eq, if◌then◌else◌, leb, ltb,
}
use tacktcix.Prelude.Dict.{Dict, lookup, insert, erase}
use tacktcix.Prelude.Float.{Float}
use tacktcix.Prelude.Int.{ℤ, pos, leb_ℤ, is_zero}
use tacktcix.Prelude.Json.{Json}
use tacktcix.Prelude.Outcome.{Outcome, ok, raise, Error, key_error, runtime_error}
use tacktcix.Consumer.{Job}
use tacktcix.Workers.Command.{build_command}

-- src/config.py
pub record ResourceProfile : Type 0 where
  pub cpu_shares : ℤ
  pub cpu_quota : ℤ
  pub cpu_period : ℤ
  pub memory_mb : ℤ
  pub memory_swap_mb : ℤ
  pub disk_size_gb : ℤ
  pub pids_limit : ℤ
  pub description : String

-- The settings of src/config.py that the manager reads.
pub record Config : Type 0 where
  pub max_concurrent_jobs : ℕ
  pub shutdown_timeout : ℤ
  pub default_profile : String
  pub profiles : Dict String ResourceProfile
  pub default_timeout_s : ℤ
  pub max_timeout_s : ℤ

pub data Status : Type 0 where
  running timeout completed failed : Status

pub record ActiveExecution (f : Float) : Type 0 where
  pub container_id : String
  pub job_id : String
  pub job_type : String
  pub profile : String
  pub timeout_s : ℤ
  pub started_at : f.F
  pub status : Status
  pub exit_code : Option ℤ

-- The arguments of `create_container`.
pub record Launch : Type 0 where
  pub job_id : String
  pub command : Json
  pub profile : ResourceProfile
  pub timeout_s : ℤ
  pub network_access : Bool
  pub workspace : Option String
  pub environment : Dict String String
  pub agent_type : Option String
  pub agent_capabilities : Option (List String)

pub record Sandbox : Type 1 where
  pub World : Type 0
  pub create_container : Launch → World → Outcome String × World
  pub kill_container : (cid : String) → World → World
  pub stop_container : (cid : String) → World → World
  pub container_status : (cid : String) → World → Outcome (Option String) × World
  pub container_exit_code : (cid : String) → World → Outcome (Option ℤ) × World

pub data ShutdownAction : Type 0 where
  kill wait : (cid : String) → ShutdownAction

-- `readings` counts the readings of the clock. `monitoring` is whether the monitor's thread lives: an
-- exception of a pass, which no code catches, ends it.
pub record Manager (f : Float) (sandbox : Sandbox) : Type 0 where
  pub active : Dict String (ActiveExecution f)
  pub world : sandbox.World
  pub readings : ℕ
  pub monitoring : Bool

-- `min(job.timeout_s, max_timeout_s)`, and the default for what is not positive.
unfoldable pub clamp_timeout : Config → ℤ → ℤ
clamp_timeout c wanted =
    let timeout = if leb_ℤ wanted c.max_timeout_s then wanted else c.max_timeout_s in
    if leb_ℤ timeout (pos 0) then c.default_timeout_s else timeout

-- `profiles.get(job.profile, profiles[default_profile])`
unfoldable pub choose_profile : Config → String → Outcome ResourceProfile
choose_profile c name = elim (lookup c.default_profile c.profiles) [
  | none ↦ raise key_error
  | some default ↦ ok (elim (lookup name c.profiles) [ none ↦ default | some p ↦ p ])
]

unfoldable pub environment_of : Job → Dict String String
environment_of job =
    ("PAPERCLIP_JOB_ID", job.id)
    ∷ ("PAPERCLIP_JOB_TYPE", job.job_type)
    ∷ ("PAPERCLIP_WORKSPACE", elim job.workspace [ none ↦ "" | some w ↦ w ])
    ∷ []

unfoldable pub launch_of : Config → Job → ResourceProfile → Json → Launch
unfolding clamp_timeout environment_of
launch_of c job profile command = record {
  job_id = job.id;
  command = command;
  profile = profile;
  timeout_s = clamp_timeout c job.timeout_s;
  network_access = job.network_access;
  workspace = job.workspace;
  environment = environment_of job;
  agent_type = job.agent_type;
  agent_capabilities = elim job.agent_capabilities [ [] ↦ none | x ∷ rest ↦ some (x ∷ rest) ];
}

-- `self._active[cid].status = ...`, for a container that is still there.
-- `status in ("completed", "failed", "timeout")`
unfoldable pub is_over : Status → Bool
is_over running = false
is_over timeout = true
is_over completed = true
is_over failed = true

module _ {f : Float} where
  unfoldable pub change_execution :
      String
      → (ActiveExecution f → ActiveExecution f)
      → Dict String (ActiveExecution f)
      → Dict String (ActiveExecution f)
  change_execution cid g [] = []
  change_execution cid g ((k, e) ∷ rest) =
      if cid == k then (k, g e) ∷ rest else (k, e) ∷ change_execution cid g rest

  -- `"completed" if exit_code == 0 else "failed"`
  pub finish : Option ℤ → ActiveExecution f → ActiveExecution f
  finish none e = record e { status = failed; exit_code = none }
  finish (some code) e = record e {
    status = if is_zero code then completed else failed;
    exit_code = some code;
  }

  -- `snapshot n` is what the n-th look at the active executions sees: the monitor's thread changes
  -- them. `none` is a wait that has not ended after `fuel` looks; `some none` is a container that is gone.
  unfoldable pub wait_for_job :
      (snapshot : ℕ → Dict String (ActiveExecution f)) (cid : String) (fuel n : ℕ)
      → Option (Option ℤ)
  unfolding is_over
  wait_for_job snapshot cid zero n = none
  wait_for_job snapshot cid (suc fuel) n =
      let rest = wait_for_job snapshot cid fuel (suc n) in
      elim (lookup cid (snapshot n)) [
        | none ↦ some none
        | some e ↦ if is_over e.status then some e.exit_code else rest
      ]

module _ {f : Float} (sandbox : Sandbox) (clock : ℕ → f.F) (config : Config) where
  unfoldable pub record_execution : Job → (cid : String) → Manager f sandbox → Manager f sandbox
  unfolding clamp_timeout
  record_execution job cid m =
      let execution : ActiveExecution f = record {
        container_id = cid;
        job_id = job.id;
        job_type = job.job_type;
        profile = job.profile;
        timeout_s = clamp_timeout config job.timeout_s;
        started_at = clock m.readings;
        status = running;
        exit_code = none;
      } in
      record m { active = insert cid execution m.active; readings = suc m.readings }

  launch : Job → Launch → Manager f sandbox → Outcome String × Manager f sandbox
  unfolding record_execution
  launch job l m =
      let (o, w) = sandbox.create_container l m.world in
      let m' = record m { world = w } in
      elim o [ raise x ↦ (raise x, m') | ok cid ↦ (ok cid, record_execution job cid m') ]

  launch_with :
      Job
      → Outcome ResourceProfile
      → Outcome Json
      → Manager f sandbox
      → Outcome String × Manager f sandbox
  unfolding launch launch_of
  launch_with job (raise x) command m = (raise x, m)
  launch_with job (ok profile) (raise x) m = (raise x, m)
  launch_with job (ok profile) (ok command) m = launch job (launch_of config job profile command) m

  unfoldable pub dispatch :
      (str : Json → String) → Job → Manager f sandbox → Outcome String × Manager f sandbox
  unfolding launch_with choose_profile build_command
  dispatch str job m =
      if leb config.max_concurrent_jobs (length m.active)
      then (raise runtime_error, m)
      else launch_with job (choose_profile config job.profile) (build_command str job.payload) m

  -- The two checks of one execution: its time, and the state of its container.
  check_time : (cid : String) → ActiveExecution f → Manager f sandbox → Manager f sandbox
  unfolding change_execution
  check_time cid e m =
      let elapsed = f.sub (clock m.readings) e.started_at in
      let m' = record m { readings = suc m.readings } in
      if f.le elapsed (f.of_int e.timeout_s) then m' else record m' {
        world = sandbox.kill_container cid m.world;
        active = change_execution cid (λ x. record x { status = timeout }) m.active;
      }

  on_exited : (cid : String) → Manager f sandbox → Manager f sandbox
  unfolding change_execution finish
  on_exited cid m =
      let (o, w) = sandbox.container_exit_code cid m.world in
      elim o [
        | raise _ ↦ record m { world = w; monitoring = false }
        | ok code ↦ record m {
          world = sandbox.stop_container cid w;
          active = change_execution cid (finish code) m.active;
        }
      ]

  check_status : (cid : String) → Manager f sandbox → Manager f sandbox
  unfolding on_exited
  check_status cid m =
      let (o, w) = sandbox.container_status cid m.world in
      let m' = record m { world = w } in
      elim o [
        | raise _ ↦ record m' { monitoring = false }
        | ok status ↦ elim status [
          | none ↦ record m' { active = erase cid m.active }
          | some s ↦ if s == "exited" then on_exited cid m' else m'
        ]
      ]

  check_each : Dict String (ActiveExecution f) → Manager f sandbox → Manager f sandbox
  unfolding check_time check_status
  check_each [] m = m
  check_each ((cid, e) ∷ rest) m =
      let checked = check_each rest (check_status cid (check_time cid e m)) in
      if m.monitoring then checked else m

  unfoldable pub check_active_containers : Manager f sandbox → Manager f sandbox
  unfolding check_each
  check_active_containers m = check_each m.active m

  -- What `shutdown` does for each execution that it finds, in order.
  unfoldable pub drain_each :
      (deadline : f.F) (readings : ℕ) → List (ActiveExecution f) → List ShutdownAction
  drain_each deadline n [] = []
  drain_each deadline n (e ∷ rest) =
      (if f.le (f.sub deadline (clock n)) (f.lit 0 0)
        then kill e.container_id
        else wait e.container_id)
      ∷ drain_each deadline (suc n) rest

  unfoldable pub shutdown : (drain : Bool) → Manager f sandbox → List ShutdownAction
  unfolding drain_each
  shutdown drain m =
      if drain
      then (let deadline = f.add (clock m.readings) (f.of_int config.shutdown_timeout) in
          drain_each deadline (suc m.readings) (map (λ e. e.1) m.active))
      else map (λ e. kill e.0) m.active
