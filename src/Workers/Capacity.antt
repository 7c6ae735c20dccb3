-- ===== src/Workers/Capacity.antt =====
-- What every dispatch and every pass of the monitor (src/worker_manager.py) keep: the number of
-- executions, their timeouts and the agreement of status and exit code.
use tacktcix.Prelude.{
  ℕ, suc, ◌≤◌, ◌≡◌, refl, String, Bool, true, false, none, some, if◌then◌else◌, [], ◌∷◌, arith,
  Bool-cases, inl, inr, ◌==◌, string_eq, length, leb,
}
use tacktcix.Prelude.Dict.{Dict, insert-All, insert-IsDict, length-insert}
use tacktcix.Prelude.Float.{Float}
use tacktcix.Prelude.Json.{Json}
use tacktcix.Prelude.Outcome.{Outcome, ok, raise, Outcome-cases}
use tacktcix.Consumer.{Job}
use tacktcix.Workers.{
  Config, timeout, ActiveExecution, Launch, Sandbox, Manager, launch, launch_with, launch_of,
  dispatch, record_execution, check_time, on_exited, check_status, check_each,
  check_active_containers, ResourceProfile,
}
use tacktcix.Workers.Sane.{
  IsSane, IsValidConfig, IsWellRun, clamp_timeout_range, change_execution-IsWellRun,
  erase-IsWellRun, finish-IsSane,
}

-- What holds of both branches holds of the test.
pub if_holds :
    {A : Type 0} (P : A → Type 0) (b : Bool) {x y : A} → P x → P y → P (if b then x else y)
if_holds P true h g = h
if_holds P false h g = g

below : {n m k : ℕ} → leb n m ≡ false → k ≤ suc m → k ≤ n
below h g = ground arith

module _ {f : Float} (c : Config) (sandbox : Sandbox) (clock : ℕ → f.F) where
  check_time-IsWellRun :
      (cid : String) (e : ActiveExecution f) (m : Manager f sandbox)
      → IsWellRun c m.active
      → IsWellRun c (check_time sandbox clock c cid e m).active
  unfolding check_time
  check_time-IsWellRun cid e m h =
      elim (Bool-cases (f.le (f.sub (clock m.readings) e.started_at) (f.of_int e.timeout_s))) [
        | inl q ↦ rw q h
        | inr q ↦ rw q (
            change_execution-IsWellRun c cid (λ x. record x { status = timeout }) m.active
              (λ k x sane. record {
                filed = sane.filed;
                positive = sane.positive;
                limited = sane.limited;
                agree = tt;
              })
              h)
      ]

  on_exited-IsWellRun :
      (cid : String) (m : Manager f sandbox)
      → IsWellRun c m.active
      → IsWellRun c (on_exited sandbox clock c cid m).active
  unfolding on_exited
  on_exited-IsWellRun cid m h = elim (Outcome-cases (sandbox.container_exit_code cid m.world).0) [
    | inl (code, q) ↦
        rw (q, on_exited) (change_execution-IsWellRun c cid _ m.active (finish-IsSane c _) h)
    | inr (x, q) ↦ rw (q, on_exited) h
  ]

  check_status-IsWellRun :
      (cid : String) (m : Manager f sandbox)
      → IsWellRun c m.active
      → IsWellRun c (check_status sandbox clock c cid m).active
  unfolding check_status
  check_status-IsWellRun cid m h = elim (Outcome-cases (sandbox.container_status cid m.world).0) [
    | inr (x, q) ↦ rw (q, check_status) h
    | inl (none, q) ↦ rw (q, check_status) (erase-IsWellRun c cid m.active h)
    | inl (some s, q) ↦ elim (Bool-cases (s == "exited")) [
      | inl r ↦ rw (q, check_status, r) (on_exited-IsWellRun cid _ h)
      | inr r ↦ rw (q, check_status, r) h
    ]
  ]

  check_each-IsWellRun :
      (d : Dict String (ActiveExecution f)) (m : Manager f sandbox)
      → IsWellRun c m.active
      → IsWellRun c (check_each sandbox clock c d m).active
  unfolding check_each
  check_each-IsWellRun [] m h = h
  check_each-IsWellRun ((cid, e) ∷ rest) m h =
      if_holds {A = Manager f sandbox} (λ n. IsWellRun c n.active) m.monitoring
        (check_each-IsWellRun rest _
          (check_status-IsWellRun cid _ (check_time-IsWellRun cid e m h)))
        h

  record_execution-IsWellRun :
      (job : Job) (cid : String) (m : Manager f sandbox)
      → IsValidConfig c
      → leb c.max_concurrent_jobs (length m.active) ≡ false
      → IsWellRun c m.active
      → IsWellRun c (record_execution sandbox clock c job cid m).active
  unfolding record_execution
  record_execution-IsWellRun job cid m valid room h =
      let range = clamp_timeout_range c job.timeout_s valid in
      record {
        unique = insert-IsDict cid _ m.active h.unique;
        capacity = below room (length-insert cid _ m.active);
        sane =
            insert-All (IsSane c) cid _ m.active
              (record { filed = refl; positive = range.0; limited = range.1; agree = refl }) h.sane;
      }

  launch-IsWellRun :
      (job : Job) (l : Launch) (m : Manager f sandbox)
      → IsValidConfig c
      → leb c.max_concurrent_jobs (length m.active) ≡ false
      → IsWellRun c m.active
      → IsWellRun c (launch sandbox clock c job l m).1.active
  unfolding launch
  launch-IsWellRun job l m valid room h =
      elim (Outcome-cases (sandbox.create_container l m.world).0) [
        | inl (cid, q) ↦
            rw (q, launch)
              (record_execution-IsWellRun job cid
                (record m { world = (sandbox.create_container l m.world).1 }) valid room h)
        | inr (x, q) ↦ rw (q, launch) h
      ]

  launch_with-IsWellRun :
      (job : Job) (profile : Outcome ResourceProfile) (command : Outcome Json)
      (m : Manager f sandbox)
      → IsValidConfig c
      → leb c.max_concurrent_jobs (length m.active) ≡ false
      → IsWellRun c m.active
      → IsWellRun c (launch_with sandbox clock c job profile command m).1.active
  unfolding launch_with
  launch_with-IsWellRun job (raise x) command m valid room h = h
  launch_with-IsWellRun job (ok profile) (raise x) m valid room h = h
  launch_with-IsWellRun job (ok profile) (ok command) m valid room h =
      launch-IsWellRun job (launch_of c job profile command) m valid room h

  dispatch-IsWellRun :
      (str : Json → String) (job : Job) (m : Manager f sandbox)
      → IsValidConfig c
      → IsWellRun c m.active
      → IsWellRun c (dispatch sandbox clock c str job m).1.active
  unfolding dispatch
  dispatch-IsWellRun str job m valid h =
      elim (Bool-cases (leb c.max_concurrent_jobs (length m.active))) [
        | inl q ↦ rw q h
        | inr q ↦ rw q (launch_with-IsWellRun job _ _ m valid q h)
      ]

-- One call of the manager.
pub data Step {f : Float} {sandbox : Sandbox} (c : Config) (clock : ℕ → f.F) (str : Json → String)
    (m : Manager f sandbox) : Manager f sandbox → Type 0 where
  dispatched : (job : Job) → Step c clock str m (dispatch sandbox clock c str job m).1
  checked : Step c clock str m (check_active_containers sandbox clock c m)

pub data Reach {f : Float} {sandbox : Sandbox} (c : Config) (clock : ℕ → f.F) (str : Json → String)
    (m : Manager f sandbox) : Manager f sandbox → Type 0 where
  here : Reach c clock str m m
  next :
      {n o : Manager f sandbox}
      → Reach c clock str m n
      → Step c clock str n o
      → Reach c clock str m o

module _ {f : Float} {sandbox : Sandbox} (c : Config) (clock : ℕ → f.F) (str : Json → String) where
  -- Whatever dispatches and monitor passes follow one another, one at a time: there are never more
  -- executions than the configured maximum, each is filed once and under its container, each timeout
  -- is at least 1 and at most the maximum, no running execution has an exit code, a completed one has
  -- the exit code 0 and a failed one has not. It is so from a state that is so, as the empty one, with a
  -- default timeout in that range.
  pub Reach-IsWellRun :
      {m n : Manager f sandbox}
      → IsValidConfig c
      → IsWellRun c m.active
      → Reach c clock str m n
      → IsWellRun c n.active
  unfolding check_active_containers
  Reach-IsWellRun valid h here = h
  Reach-IsWellRun valid h (next {n = n} r (dispatched job)) =
      dispatch-IsWellRun c sandbox clock str job n valid (Reach-IsWellRun valid h r)
  Reach-IsWellRun valid h (next {n = n} r checked) =
      check_each-IsWellRun c sandbox clock n.active n (Reach-IsWellRun valid h r)
