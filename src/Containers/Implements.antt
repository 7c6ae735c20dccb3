-- ===== src/Containers/Implements.antt =====
-- The runtime (src/container_runtime.py) as the sandbox that the worker manager (src/worker_manager.py)
-- runs its jobs in, and what holds of every container that the two start together.
use tacktcix.Prelude.{
  ℕ, ◌≡◌, refl, ◌⊎◌, inl, inr, String, Bool, true, false, Option, none, some, List, [], ◌∷◌,
  string_eq, if◌then◌else◌, Bool-cases, All, All-append, contains,
}
use tacktcix.Prelude.Dict.{lookup}
use tacktcix.Prelude.Float.{Float}
use tacktcix.Prelude.Outcome.{Outcome-cases}
use tacktcix.Prelude.Json.{Json}
use tacktcix.Workers.{Config, Launch, Manager, Sandbox}
use tacktcix.Workers.Capacity.{Reach}
use tacktcix.Workers.Worlds.{Keeps, Reach-world}
use tacktcix.AppArmor.{build_security_opts}
use tacktcix.Containers.{
  Docker, Settings, Runtime, RunOptions, run_options, needs_egress, added_caps,
}
use tacktcix.Egress.{NetworkEgressConfig}
use tacktcix.Containers.Started.{
  KeepsStarted, bind-KeepsStarted, call-KeepsStarted, with_container-KeepsStarted,
  ensure_image-KeepsStarted, prepare_workspace-KeepsStarted, enforce_egress_started,
}
use tacktcix.Containers.Sandboxes.{
  run_container, create_container, kill_container, stop_container, container_status,
  container_exit_code, forgiving,
}

-- The sandbox of the worker: `dispatch` gives no image.
abbrev pub sandbox_of : Docker → Settings → Sandbox
sandbox_of d settings = record {
  World = Runtime d;
  create_container = λ l r. create_container d settings none l r;
  kill_container = λ cid r. (kill_container d cid r).1;
  stop_container = λ cid r. (stop_container d cid 10 r).1;
  container_status = λ cid r. container_status d cid r;
  container_exit_code = λ cid r. container_exit_code d cid r;
}

-- What isolates a container: no new privileges; the network of the sandbox or none; the capabilities
-- that filtering needs only together with that network, and no others; capabilities dropped and the
-- root file system read-only where the settings say so; and removal on exit.
pub record IsConfined (settings : Settings) (o : RunOptions) : Type 0 where
  pub privileges : contains "no-new-privileges:true" o.security_opt ≡ true
  pub network :
      (o.network ≡ "none") × (o.cap_add ≡ none)
      ⊎ ((o.network ≡ settings.network)
          × ((o.cap_add ≡ none) ⊎ (o.cap_add ≡ some ("NET_ADMIN" ∷ "NET_RAW" ∷ []))))
  pub dropped : settings.drop_all_capabilities ≡ true → o.cap_drop ≡ "ALL" ∷ []
  pub root : o.read_only ≡ settings.read_only_rootfs
  pub removed : o.remove ≡ true
  pub labelled : lookup "paperclip.sandbox" o.labels ≡ some "true"

module _ (d : Docker) (settings : Settings) where
  abbrev AllConfined : List RunOptions → Type 0
  AllConfined = All (IsConfined settings)

  privileges_dropped :
      (with_apparmor : Bool) (agent_type : Option String)
      → contains "no-new-privileges:true" (build_security_opts with_apparmor agent_type) ≡ true
  unfolding build_security_opts
  privileges_dropped false t = refl
  privileges_dropped true none = refl
  privileges_dropped true (some t) = refl

  -- Capabilities are added only for a job with network access.
  network_confined :
      (e : Option NetworkEgressConfig) (access : Bool) (caps : Option (List String))
      → let network = if access then settings.network else "none" in
        let added = added_caps (needs_egress e access caps) in
        (network ≡ "none") × (added ≡ none)
        ⊎ ((network ≡ settings.network)
            × ((added ≡ none) ⊎ (added ≡ some ("NET_ADMIN" ∷ "NET_RAW" ∷ []))))
  unfolding needs_egress added_caps
  network_confined none false caps = inl (refl, refl)
  network_confined (some c) false caps = inl (refl, refl)
  network_confined none true caps = inr (refl, inl refl)
  network_confined (some c) true none = inr (refl, inl refl)
  network_confined (some c) true (some caps) = inr (refl, inr refl)

  run_options-IsConfined :
      (image : String) (l : Launch) (dir : String)
      → IsConfined settings (run_options settings image l dir)
  unfolding run_options
  run_options-IsConfined image l dir = record {
    privileges = privileges_dropped settings.with_apparmor l.agent_type;
    network = network_confined settings.egress l.network_access l.agent_capabilities;
    dropped = λ all. rw all refl;
    root = refl;
    removed = refl;
    labelled = refl;
  }

  run_container_confined :
      (o : RunOptions)
      → IsConfined settings o
      → KeepsStarted d settings AllConfined (run_container d o)
  unfolding run_container
  run_container_confined o confined = record {
    keep = λ r h. elim (Bool-cases r.connected) [
      | inr q ↦ rw q h
      | inl q ↦ elim (Outcome-cases (d.run o r.world).0) [
        | inl (cid, k) ↦
            rw (q, k) (All-append (IsConfined settings) r.started (o ∷ []) h (confined, tt))
        | inr (x, k) ↦ rw (q, k) h
      ]
    ];
  }

  create_container_confined :
      (image : Option String) (l : Launch)
      → KeepsStarted d settings AllConfined (create_container d settings image l)
  unfolding create_container
  create_container_confined image l =
      bind-KeepsStarted d settings AllConfined _ _
        (ensure_image-KeepsStarted d settings AllConfined _)
        (λ _.
          bind-KeepsStarted d settings AllConfined _ _
            (prepare_workspace-KeepsStarted d settings AllConfined l.workspace)
            (λ dir.
              bind-KeepsStarted d settings AllConfined _ _
                (run_container_confined _ (run_options-IsConfined _ l dir))
                (λ cid. record { keep = λ r h. rw (enforce_egress_started d settings l cid r) h })))

  runtime-Keeps : Keeps (sandbox_of d settings) (λ r. AllConfined r.started)
  unfolding kill_container stop_container container_status container_exit_code forgiving
  runtime-Keeps = record {
    create = λ l. (create_container_confined none l).keep;
    kill = λ cid. (call-KeepsStarted d settings AllConfined (d.kill cid)).keep;
    stop = λ cid. (call-KeepsStarted d settings AllConfined (d.stop cid 10)).keep;
    status = λ cid. (with_container-KeepsStarted d settings AllConfined cid _).keep;
    exit_code = λ cid. (with_container-KeepsStarted d settings AllConfined cid _).keep;
  }

module _ {f : Float} (d : Docker) (settings : Settings) (c : Config) (clock : ℕ → f.F)
    (str : Json → String) where
  -- Let the worker manager run its jobs in this runtime. Whatever jobs are dispatched and whatever
  -- monitor passes are made, in any order, from a state whose started containers are confined, as the
  -- empty one, every container that was started is confined: no new privileges, no network and no added
  -- capability or the sandbox's network with at most the two that filtering needs, all capabilities
  -- dropped and the root file system read-only where the settings say so, removal on exit, and the
  -- label of the sandbox.
  pub Reach-IsConfined :
      {m n : Manager f (sandbox_of d settings)}
      → All (IsConfined settings) m.world.started
      → Reach c clock str m n
      → All (IsConfined settings) n.world.started
  Reach-IsConfined h r =
      Reach-world (λ r. All (IsConfined settings) r.started) (runtime-Keeps d settings) c clock str
        h r
