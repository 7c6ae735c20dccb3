-- ===== src/Containers/Sandboxes.antt =====
-- The methods of SandboxManager (src/container_runtime.py).
use tacktcix.Prelude.{
  ℕ, suc, String, Bool, true, false, Option, none, some, List, [], ◌∷◌, ◌++◌, map, ◌==◌, string_eq,
  ◌||◌, if◌then◌else◌, contains,
}
use tacktcix.Prelude.Action.{Action, ◌>>=◌, ◌>>◌, returns, writes}
use tacktcix.Prelude.Dict.{get_or}
use tacktcix.Prelude.Int.{ℤ}
use tacktcix.Prelude.Outcome.{
  Outcome, ok, raise, attribute_error, not_found, docker_error, sandbox_error,
}
use tacktcix.Egress.{NetworkEgressConfig, resolve_policy}
use tacktcix.Egress.Rules.{ExecResult, apply_to_container}
use tacktcix.Workers.{Launch}
use tacktcix.Containers.{
  Docker, Settings, Runtime, RunOptions, ListedContainer, ContainerState, run_options, needs_egress,
  workspace_path,
}

-- `image or default_image`
unfoldable pub choose_image : Settings → Option String → String
choose_image settings none = settings.default_image
choose_image settings (some image) = if image == "" then settings.default_image else image

-- `docker_client.exec_run`. The client is a `docker.DockerClient`, which has no such attribute (a
-- container of it has): reading it raises, before any call of the daemon.
unfoldable pub exec_run : (container_id script : String) → Outcome ExecResult
exec_run container_id script = raise attribute_error

-- Whether the rules were applied, which is logged, and no more.
unfoldable pub apply_egress_rules :
    NetworkEgressConfig → (caps : List String) → (cid : String) → Bool
unfolding exec_run
apply_egress_rules c caps cid = apply_to_container exec_run cid (resolve_policy c caps)

module _ (d : Docker) where
  -- A call of the client, which `client` refuses before the connection is made.
  unfoldable pub call {ℓ} : {A : Type ℓ} → (d.World → Outcome A × d.World) → Action (Runtime d) A
  call g r =
      if r.connected
      then ((g r.world).0, record r { world = (g r.world).1 })
      else (raise sandbox_error, r)

  -- A call that is no call of the client.
  unfoldable pub host {ℓ} : {A : Type ℓ} → (d.World → Outcome A × d.World) → Action (Runtime d) A
  host g r = ((g r.world).0, record r { world = (g r.world).1 })

  -- `except NotFound` and the like: the handler runs for that exception, and others go on.
  unfoldable pub handle :
      Outcome (Unit {0})
      → (handler otherwise : Action (Runtime d) (Unit {0})) → Action (Runtime d) (Unit {0})
  handle (ok _) handler otherwise r = otherwise r
  handle (raise not_found) handler otherwise r = handler r
  handle (raise x) handler otherwise r = (raise x, r)

  unfoldable pub on_not_found :
      (attempt handler otherwise : Action (Runtime d) (Unit {0})) → Action (Runtime d) (Unit {0})
  unfolding handle
  on_not_found attempt handler otherwise r = handle (attempt r).0 handler otherwise (attempt r).1

  unfoldable pub ensure_network : Settings → Action (Runtime d) (Unit {0})
  unfolding call on_not_found
  ensure_network settings =
      on_not_found (call (d.has_network settings.network))
        (call (d.create_network settings.network)) (returns tt)

  unfoldable pub connect : Settings → Action (Runtime d) (Unit {0})
  unfolding ensure_network host
  connect settings = do
    host d.connect
    writes (λ r. (tt, record r { connected = true }))
    ensure_network settings

  unfoldable pub ensure_image : Settings → (image : String) → Action (Runtime d) (Unit {0})
  unfolding call on_not_found
  ensure_image settings image =
      if settings.pull_policy == "never"
      then returns tt
      else on_not_found (call (d.has_image image))
          (if settings.pull_policy == "missing" || settings.pull_policy == "always"
            then call (d.pull_image image)
            else returns tt)
          (if settings.pull_policy == "always" then call (d.pull_image image) else returns tt)

  unfoldable pub choose_workspace : Option String → Action (Runtime d) String
  unfolding host
  choose_workspace none = host d.make_temporary_dir
  choose_workspace (some w) =
      if w == "" then host d.make_temporary_dir else returns (workspace_path w)

  unfoldable pub prepare_workspace : Option String → Action (Runtime d) String
  unfolding choose_workspace host
  prepare_workspace workspace = do
    path ← choose_workspace workspace
    host (d.make_dirs path)
    returns path

  -- `containers.run`; what was started is noted.
  unfoldable pub run_container : RunOptions → Action (Runtime d) String
  run_container o r =
      if r.connected
      then elim (d.run o r.world).0 [
        | ok cid ↦ (ok cid, record r { world = (d.run o r.world).1; started = r.started ++ o ∷ [] })
        | raise x ↦ (raise x, record r { world = (d.run o r.world).1 })
      ]
      else (raise sandbox_error, r)

  unfoldable pub enforce_egress : Settings → Launch → (cid : String) → Runtime d → Runtime d
  unfolding apply_egress_rules
  enforce_egress settings l cid r =
      elim (needs_egress settings.egress l.network_access l.agent_capabilities) [
        | none ↦ r
        | some (c, caps) ↦ if apply_egress_rules c caps cid then r else r
      ]

  unfoldable pub create_container :
      Settings → (image : Option String) → Launch → Action (Runtime d) String
  create_container settings image l = do
    ensure_image settings (choose_image settings image)
    dir ← prepare_workspace l.workspace
    cid ← run_container (run_options settings (choose_image settings image) l dir)
    writes (λ r. (cid, enforce_egress settings l cid r))

  -- `except NotFound: pass` and `except DockerException`, of which the log alone learns.
  unfoldable pub forgiven : Outcome (Unit {0}) → Outcome (Unit {0})
  forgiven (ok _) = ok tt
  forgiven (raise not_found) = ok tt
  forgiven (raise docker_error) = ok tt
  forgiven (raise x) = raise x

  unfoldable pub forgiving : Action (Runtime d) (Unit {0}) → Action (Runtime d) (Unit {0})
  unfolding forgiven
  forgiving m r = (forgiven (m r).0, (m r).1)

  unfoldable pub stop_container : (cid : String) → (timeout : ℕ) → Action (Runtime d) (Unit {0})
  unfolding forgiving call
  stop_container cid timeout = forgiving (call (d.stop cid timeout))

  unfoldable pub kill_container : (cid : String) → Action (Runtime d) (Unit {0})
  unfolding forgiving call
  kill_container cid = forgiving (call (d.kill cid))

  -- Whether `get` finds the container; an exception other than NotFound goes on.
  unfoldable pub is_found : Outcome (Unit {0}) → Outcome Bool
  is_found (ok _) = ok true
  is_found (raise not_found) = ok false
  is_found (raise x) = raise x

  unfoldable pub get_container : (cid : String) → Action (Runtime d) Bool
  unfolding call is_found
  get_container cid r =
      (is_found (call (d.get_container cid) r).0, (call (d.get_container cid) r).1)

  -- What is read of the container after `reload`, which may raise too; none where it is not there.
  unfoldable pub with_container {ℓ} :
      {A : Type ℓ} (cid : String) → (ContainerState → Option A) → Action (Runtime d) (Option A)
  unfolding get_container call
  with_container cid read = do
    is_there ← get_container cid
    if is_there then (call (d.reload cid) >>= λ s. returns (read s)) else returns none

  unfoldable pub container_status : (cid : String) → Action (Runtime d) (Option String)
  unfolding with_container
  container_status cid = with_container cid (λ s. some s.status)

  unfoldable pub container_exit_code : (cid : String) → Action (Runtime d) (Option ℤ)
  unfolding with_container
  container_exit_code cid = with_container cid (λ s. s.exit_code)

  list_labelled : Action (Runtime d) (List ListedContainer)
  unfolding call
  list_labelled = call (d.list_all "paperclip.sandbox=true")

  -- The identifier, the name, the status and the job of each container.
  unfoldable pub list_sandbox_containers :
      Action (Runtime d) (List (String × String × String × String))
  unfolding list_labelled
  list_sandbox_containers = do
    containers ← list_labelled
    returns (map (λ c. (c.id, c.name, c.status, get_or "paperclip.job-id" "" c.labels)) containers)

  abbrev is_stale : ListedContainer → Bool
  is_stale c = contains c.status ("exited" ∷ "dead" ∷ "created" ∷ [])

  -- `cleaned` counts the containers removed so far. An error of the daemon passes over the container.
  unfoldable pub remove_each : (cleaned : ℕ) → List ListedContainer → Action (Runtime d) ℕ
  unfolding call
  remove_each cleaned [] r = (ok cleaned, r)
  remove_each cleaned (c ∷ rest) r =
      let kept = remove_each cleaned rest r in
      let removed = call (d.remove c.id) r in
      let counted = remove_each (suc cleaned) rest removed.1 in
      let passed_over = remove_each cleaned rest removed.1 in
      if is_stale c
      then elim removed.0 [
        | ok _ ↦ counted
        | raise not_found ↦ passed_over
        | raise docker_error ↦ passed_over
        | raise x ↦ (raise x, removed.1)
      ]
      else kept

  -- `max_age_s` is not read.
  unfoldable pub cleanup_stale_containers : (max_age_s : ℤ) → Action (Runtime d) ℕ
  unfolding list_labelled remove_each
  cleanup_stale_containers max_age_s = do containers ← list_labelled; remove_each 0 containers

  unfoldable pub close : Runtime d → Runtime d
  close r = record r { connected = false }
