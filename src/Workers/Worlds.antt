-- ===== src/Workers/Worlds.antt =====
-- What the five calls of a sandbox keep of its world, every run of the manager (src/worker_manager.py)
-- keeps.
use tacktcix.Prelude.{
  ℕ, String, none, some, [], ◌∷◌, Bool-cases, inl, inr, ◌==◌, string_eq, length, leb,
}
use tacktcix.Prelude.Dict.{Dict}
use tacktcix.Prelude.Float.{Float}
use tacktcix.Prelude.Json.{Json}
use tacktcix.Prelude.Outcome.{Outcome, ok, raise, Outcome-cases}
use tacktcix.Consumer.{Job}
use tacktcix.Workers.{
  Config, ActiveExecution, Launch, Sandbox, Manager, launch, launch_with, launch_of, dispatch,
  record_execution, check_time, on_exited, check_status, check_each, check_active_containers,
  ResourceProfile,
}
use tacktcix.Workers.Capacity.{if_holds, Reach, here, next, dispatched, checked}

pub record Keeps (sandbox : Sandbox) (Q : sandbox.World → Type 0) : Type 0 where
  pub create : (l : Launch) (w : sandbox.World) → Q w → Q (sandbox.create_container l w).1
  pub kill : (cid : String) (w : sandbox.World) → Q w → Q (sandbox.kill_container cid w)
  pub stop : (cid : String) (w : sandbox.World) → Q w → Q (sandbox.stop_container cid w)
  pub status : (cid : String) (w : sandbox.World) → Q w → Q (sandbox.container_status cid w).1
  pub exit_code : (cid : String) (w : sandbox.World) → Q w → Q (sandbox.container_exit_code cid w).1

module _ {f : Float} {sandbox : Sandbox} (Q : sandbox.World → Type 0) (keeps : Keeps sandbox Q)
    (c : Config) (clock : ℕ → f.F) (str : Json → String) where
  launch-world :
      (job : Job) (l : Launch) (m : Manager f sandbox)
      → Q m.world
      → Q (launch sandbox clock c job l m).1.world
  unfolding launch record_execution
  launch-world job l m h = elim (Outcome-cases (sandbox.create_container l m.world).0) [
    | inl (cid, q) ↦ rw (q, launch) (keeps.create l m.world h)
    | inr (x, q) ↦ rw (q, launch) (keeps.create l m.world h)
  ]

  launch_with-world :
      (job : Job) (profile : Outcome ResourceProfile) (command : Outcome Json)
      (m : Manager f sandbox)
      → Q m.world
      → Q (launch_with sandbox clock c job profile command m).1.world
  unfolding launch_with
  launch_with-world job (raise x) command m h = h
  launch_with-world job (ok profile) (raise x) m h = h
  launch_with-world job (ok profile) (ok command) m h =
      launch-world job (launch_of c job profile command) m h

  dispatch-world :
      (job : Job) (m : Manager f sandbox)
      → Q m.world
      → Q (dispatch sandbox clock c str job m).1.world
  unfolding dispatch
  dispatch-world job m h = elim (Bool-cases (leb c.max_concurrent_jobs (length m.active))) [
    | inl q ↦ rw q h
    | inr q ↦ rw q (launch_with-world job _ _ m h)
  ]

  check_time-world :
      (cid : String) (e : ActiveExecution f) (m : Manager f sandbox)
      → Q m.world
      → Q (check_time sandbox clock c cid e m).world
  unfolding check_time
  check_time-world cid e m h =
      elim (Bool-cases (f.le (f.sub (clock m.readings) e.started_at) (f.of_int e.timeout_s))) [
        | inl q ↦ rw q h
        | inr q ↦ rw q (keeps.kill cid m.world h)
      ]

  on_exited-world :
      (cid : String) (m : Manager f sandbox) → Q m.world → Q (on_exited sandbox clock c cid m).world
  unfolding on_exited
  on_exited-world cid m h =
      let read = keeps.exit_code cid m.world h in
      elim (Outcome-cases (sandbox.container_exit_code cid m.world).0) [
        | inl (code, q) ↦ rw (q, on_exited) (keeps.stop cid _ read)
        | inr (x, q) ↦ rw (q, on_exited) read
      ]

  check_status-world :
      (cid : String) (m : Manager f sandbox)
      → Q m.world
      → Q (check_status sandbox clock c cid m).world
  unfolding check_status
  check_status-world cid m h =
      let looked = keeps.status cid m.world h in
      elim (Outcome-cases (sandbox.container_status cid m.world).0) [
        | inr (x, q) ↦ rw (q, check_status) looked
        | inl (none, q) ↦ rw (q, check_status) looked
        | inl (some s, q) ↦ elim (Bool-cases (s == "exited")) [
          | inl r ↦ rw (q, check_status, r) (on_exited-world cid _ looked)
          | inr r ↦ rw (q, check_status, r) looked
        ]
      ]

  check_each-world :
      (d : Dict String (ActiveExecution f)) (m : Manager f sandbox)
      → Q m.world
      → Q (check_each sandbox clock c d m).world
  unfolding check_each
  check_each-world [] m h = h
  check_each-world ((cid, e) ∷ rest) m h =
      if_holds {A = Manager f sandbox} (λ n. Q n.world) m.monitoring
        (check_each-world rest _ (check_status-world cid _ (check_time-world cid e m h))) h

  -- The rule of the invariant: it holds after any dispatches and monitor passes.
  pub Reach-world : {m n : Manager f sandbox} → Q m.world → Reach c clock str m n → Q n.world
  unfolding check_active_containers
  Reach-world h here = h
  Reach-world h (next {n = n} r (dispatched job)) = dispatch-world job n (Reach-world h r)
  Reach-world h (next {n = n} r checked) = check_each-world n.active n (Reach-world h r)
