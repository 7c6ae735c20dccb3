-- ===== src/Tests/Containers.antt =====
-- Runs of the container runtime with a daemon that starts every container.
use tacktcix.Prelude.{ℕ, suc, ◌≡◌, ◌⊎◌, String, List, true, false, none, some, [], ◌∷◌, All}
use tacktcix.Prelude.Int.{pos}
use tacktcix.Prelude.Json.{Json, text}
use tacktcix.Prelude.Outcome.{Outcome, ok, raise, Error}
use tacktcix.Egress.{NetworkEgressConfig}
use tacktcix.Workers.{Launch, Manager, dispatch, check_active_containers}
use tacktcix.Workers.Capacity.{here, next, dispatched, checked}
use tacktcix.Containers.{Docker, Settings, Runtime, run_options}
use tacktcix.Containers.Implements.{sandbox_of, IsConfined, Reach-IsConfined}
use tacktcix.Containers.Outcomes.{create_container_outcome}
use tacktcix.Containers.Sandboxes.{apply_egress_rules, choose_image, create_container}
use tacktcix.Tests.Fixed.{fixed}
use tacktcix.Tests.Workers.{clock, config, job, medium}

abbrev fine : ℕ → Outcome (Unit {0}) × ℕ
fine w = (ok tt, suc w)

abbrev docker : Docker
docker = record {
  World = ℕ;
  connect = fine;
  has_network = λ name w. fine w;
  create_network = λ name w. fine w;
  has_image = λ image w. fine w;
  pull_image = λ image w. fine w;
  make_temporary_dir = λ w. (ok "/workspaces/job-1", suc w);
  make_dirs = λ path w. fine w;
  run = λ o w. (ok "c1", suc w);
  stop = λ cid timeout w. fine w;
  kill = λ cid w. fine w;
  get_container = λ cid w. fine w;
  reload = λ cid w. (ok (record { status = "exited"; exit_code = some (pos 0) }), w);
  list_all = λ label w. (ok [], w);
  remove = λ cid w. fine w;
}

abbrev settings : Settings
settings = record {
  default_image = "sandbox:1";
  network = "paperclip-sandbox";
  pull_policy = "missing";
  workspace_mount = "/workspace";
  read_only_rootfs = true;
  tmpfs_size_mb = pos 64;
  drop_all_capabilities = true;
  with_apparmor = true;
  egress =
      some (record { default_policy = "deny"; egress_rules = []; dns_servers = "8.8.8.8" ∷ [] });
  worker_id = "w1";
}

abbrev connected : Runtime docker
connected = record { connected = true; world = 0; started = [] }

abbrev manager : Manager fixed (sandbox_of docker settings)
manager = record { active = []; world = connected; readings = 0; monitoring = true }

abbrev as_text : Json → String
as_text v = ""

abbrev twice : Manager fixed (sandbox_of docker settings)
twice =
    (dispatch (sandbox_of docker settings) clock config as_text job (
      check_active_containers (sandbox_of docker settings) clock config
        (dispatch (sandbox_of docker settings) clock config as_text job manager).1)).1

Reach-IsConfined_example : All (IsConfined settings) twice.world.started
Reach-IsConfined_example =
    Reach-IsConfined docker settings config clock as_text tt
      (next (next (next here (dispatched job)) checked) (dispatched job))

abbrev networked : Launch
networked = record {
  job_id = "1-0";
  command = text "true";
  profile = medium;
  timeout_s = pos 60;
  network_access = true;
  workspace = some "/etc";
  environment = [];
  agent_type = none;
  agent_capabilities = some ("net.outbound_github" ∷ []);
}

create_container_outcome_example :
    let end = create_container docker settings none networked connected in
    ((x : Error) × (end.0 ≡ raise x) × (end.1.started ≡ []))
    ⊎ ((cid dir : String) × (w : ℕ) × (end.0 ≡ ok cid)
        × ((docker.run (run_options settings (choose_image settings none) networked dir) w).0
            ≡ ok cid)
        × (end.1.started ≡ run_options settings (choose_image settings none) networked dir ∷ [])
        × (end.1.world
            ≡ (docker.run (run_options settings (choose_image settings none) networked dir) w).1)
        × ((c : NetworkEgressConfig) (caps : List String) → apply_egress_rules c caps cid ≡ false))
create_container_outcome_example = create_container_outcome docker settings none networked connected
