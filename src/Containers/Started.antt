-- ===== src/Containers/Started.antt =====
-- What the calls of the runtime (src/container_runtime.py) do to the list of started containers: all
-- but `containers.run` keep it.
use tacktcix.Prelude.{
  ◌≡◌, refl, inl, inr, String, Bool, true, false, Option, none, some, Option-cases, List, ◌==◌,
  ◌||◌, string_eq, if◌then◌else◌, Bool-cases,
}
use tacktcix.Prelude.Action.{Action, ◌>>=◌, after, returns}
use tacktcix.Prelude.Outcome.{Outcome, ok, raise, not_found, Outcome-cases}
use tacktcix.Egress.Rules.{apply_to_container}
use tacktcix.Workers.{Launch}
use tacktcix.Containers.{
  Docker, Settings, Runtime, RunOptions, ContainerState, needs_egress, workspace_path,
}
use tacktcix.Containers.Sandboxes.{
  call, host, get_container, with_container, handle, on_not_found, ensure_image, choose_workspace,
  prepare_workspace, enforce_egress, apply_egress_rules, exec_run,
}

module _ (d : Docker) (settings : Settings) where
  pub enforce_egress_started :
      (l : Launch) (cid : String) (r : Runtime d)
      → (enforce_egress d settings l cid r).started ≡ r.started
  unfolding enforce_egress apply_egress_rules exec_run apply_to_container
  enforce_egress_started l cid r =
      elim (Option-cases (needs_egress settings.egress l.network_access l.agent_capabilities)) [
        | inl q ↦ rw (q, enforce_egress) refl
        | inr (e, q) ↦ rw (q, enforce_egress) refl
      ]

module _ (d : Docker) (settings : Settings) (P : List RunOptions → Type 0) where
  -- An action that keeps what holds of the list of started containers.
  pub record KeepsStarted {A : Type 0} (m : Action (Runtime d) A) : Type 0 where
    pub keep : (r : Runtime d) → P r.started → P (m r).1.started

  pub bind-KeepsStarted :
      {A B : Type 0} (m : Action (Runtime d) A) (g : A → Action (Runtime d) B)
      → KeepsStarted m
      → ((a : A) → KeepsStarted (g a))
      → KeepsStarted (m >>= g)
  bind-KeepsStarted m g km kg = record {
    keep = λ r h. elim (Outcome-cases (m r).0) [
      | inl (a, q) ↦ rw (q, after) ((kg a).keep (m r).1 (km.keep r h))
      | inr (x, q) ↦ rw (q, after) (km.keep r h)
    ];
  }

  pub call-KeepsStarted : {A : Type 0} (g : d.World → Outcome A × d.World) → KeepsStarted (call d g)
  unfolding call
  call-KeepsStarted g = record {
    keep = λ r h. elim (Bool-cases r.connected) [ inl q ↦ rw q h | inr q ↦ rw q h ];
  }

  host-KeepsStarted : {A : Type 0} (g : d.World → Outcome A × d.World) → KeepsStarted (host d g)
  unfolding host
  host-KeepsStarted g = record { keep = λ r h. h }

  returns-KeepsStarted : {A : Type 0} (a : A) → KeepsStarted (returns a)
  returns-KeepsStarted a = record { keep = λ r h. h }

  if-KeepsStarted :
      {A : Type 0} (b : Bool) (m n : Action (Runtime d) A)
      → KeepsStarted m
      → KeepsStarted n
      → KeepsStarted (if b then m else n)
  if-KeepsStarted true m n km kn = km
  if-KeepsStarted false m n km kn = kn

  handle-KeepsStarted :
      (o : Outcome (Unit {0})) (handler otherwise : Action (Runtime d) (Unit {0}))
      → KeepsStarted handler
      → KeepsStarted otherwise
      → KeepsStarted (handle d o handler otherwise)
  unfolding handle
  handle-KeepsStarted (ok a) handler otherwise kh ko = ko
  handle-KeepsStarted (raise not_found) handler otherwise kh ko = kh
  handle-KeepsStarted (raise x) handler otherwise kh ko = record { keep = λ r h. h }

  on_not_found-KeepsStarted :
      (m handler otherwise : Action (Runtime d) (Unit {0}))
      → KeepsStarted m
      → KeepsStarted handler
      → KeepsStarted otherwise
      → KeepsStarted (on_not_found d m handler otherwise)
  unfolding on_not_found
  on_not_found-KeepsStarted m handler otherwise km kh ko = record {
    keep = λ r h. (handle-KeepsStarted (m r).0 handler otherwise kh ko).keep (m r).1 (km.keep r h);
  }

  pub ensure_image-KeepsStarted : (image : String) → KeepsStarted (ensure_image d settings image)
  unfolding ensure_image
  ensure_image-KeepsStarted image =
      let pull = call-KeepsStarted (d.pull_image image) in
      let done = returns-KeepsStarted tt in
      if-KeepsStarted (settings.pull_policy == "never") _ _ done (
        on_not_found-KeepsStarted _ _ _ (call-KeepsStarted (d.has_image image))
          (if-KeepsStarted (settings.pull_policy == "missing" || settings.pull_policy == "always") _
            _ pull done)
          (if-KeepsStarted (settings.pull_policy == "always") _ _ pull done))

  -- So does every reading of a container.
  pub with_container-KeepsStarted :
      {A : Type 0} (cid : String) (read : ContainerState → Option A)
      → KeepsStarted (with_container d cid read)
  unfolding with_container get_container
  with_container-KeepsStarted cid read =
      bind-KeepsStarted _ _ (record { keep = (call-KeepsStarted (d.get_container cid)).keep })
        (λ is_there.
          if-KeepsStarted is_there _ _
            (bind-KeepsStarted _ _ (call-KeepsStarted (d.reload cid))
              (λ s. returns-KeepsStarted (read s)))
            (returns-KeepsStarted none))

  choose_workspace-KeepsStarted :
      (workspace : Option String) → KeepsStarted (choose_workspace d workspace)
  unfolding choose_workspace
  choose_workspace-KeepsStarted none = host-KeepsStarted d.make_temporary_dir
  choose_workspace-KeepsStarted (some w) =
      if-KeepsStarted (w == "") _ _ (host-KeepsStarted d.make_temporary_dir)
        (returns-KeepsStarted (workspace_path w))

  pub prepare_workspace-KeepsStarted :
      (workspace : Option String) → KeepsStarted (prepare_workspace d workspace)
  unfolding prepare_workspace
  prepare_workspace-KeepsStarted workspace =
      bind-KeepsStarted _ _ (choose_workspace-KeepsStarted workspace) (λ path.
        bind-KeepsStarted _ _ (host-KeepsStarted (d.make_dirs path))
          (λ _. returns-KeepsStarted path))
