-- ===== src/Containers.antt =====
-- src/container_runtime.py: the containers that jobs run in. The Docker daemon and the file system of
-- the host are an interface. `started` lists the options of each container that was started.
pub mod Implements
pub mod Outcomes
pub mod Sandboxes
pub mod Started
use tacktcix.Prelude.{
  ℕ, suc, ◌+◌, String, Bool, true, false, Option, none, some, List, [], ◌∷◌, ◌++◌, map, ◌==◌,
  string_eq, ◌&&◌, if◌then◌else◌, contains,
}
use tacktcix.Prelude.Action.{Action, ◌>>=◌, ◌>>◌, after, returns, raises, asks, writes}
use tacktcix.Prelude.Chars.{replace_char}
use tacktcix.Prelude.Dict.{Dict, get_or}
use tacktcix.Prelude.Int.{ℤ, pos}
use tacktcix.Prelude.Json.{Json}
use tacktcix.Prelude.Outcome.{Outcome, ok, raise, Error, not_found, docker_error, sandbox_error}
use tacktcix.Prelude.Text.{◌+ₛ◌}
use tacktcix.AppArmor.{build_security_opts}
use tacktcix.Egress.{NetworkEgressConfig, resolve_policy}
use tacktcix.Egress.Rules.{ExecResult, build_rules_script, apply_to_container}
use tacktcix.Workers.{ResourceProfile, Launch}
use text.Mathlib.Text.{starts_with}

pub record Mount : Type 0 where
  pub target : String
  pub source : String
  pub read_only : Bool

-- `Ulimit(name, soft, hard)`
pub record Ulimit : Type 0 where
  pub name : String
  pub soft : ℤ
  pub hard : ℤ

-- The arguments of `containers.run`. The limits of memory and of /tmp are texts of the number and m.
pub record RunOptions : Type 0 where
  pub image : String
  pub command : Json
  pub name : String
  pub detach : Bool
  pub remove : Bool
  pub network : String
  pub mounts : List Mount
  pub environment : Dict String String
  pub read_only : Bool
  pub cap_drop : List String
  pub cap_add : Option (List String)
  pub security_opt : List String
  pub cpu_shares : ℤ
  pub cpu_quota : ℤ
  pub cpu_period : ℤ
  pub mem_limit_mb : ℤ
  pub memswap_limit_mb : ℤ
  pub pids_limit : ℤ
  pub ulimits : List Ulimit
  pub tmp_size_mb : ℤ
  pub labels : Dict String String

pub record ListedContainer : Type 0 where
  pub id : String
  pub name : String
  pub status : String
  pub labels : Dict String String

-- What a container's `reload` reads: its status and `attrs.get("State", {}).get("ExitCode")`.
pub record ContainerState : Type 0 where
  pub status : String
  pub exit_code : Option ℤ

-- The daemon's calls. `has_image`, `has_network` and `get_container` raise `not_found` for what is not
-- there; like every call, they may raise another exception of the daemon.
pub record Docker : Type 1 where
  pub World : Type 0
  pub connect : World → Outcome (Unit {0}) × World
  pub has_network : String → World → Outcome (Unit {0}) × World
  pub create_network : String → World → Outcome (Unit {0}) × World
  pub has_image : String → World → Outcome (Unit {0}) × World
  pub pull_image : String → World → Outcome (Unit {0}) × World
  pub make_temporary_dir : World → Outcome String × World
  pub make_dirs : String → World → Outcome (Unit {0}) × World
  pub run : RunOptions → World → Outcome String × World
  pub stop : (cid : String) → (timeout : ℕ) → World → Outcome (Unit {0}) × World
  pub kill : (cid : String) → World → Outcome (Unit {0}) × World
  pub get_container : (cid : String) → World → Outcome (Unit {0}) × World
  pub reload : (cid : String) → World → Outcome ContainerState × World
  pub list_all : (label : String) → World → Outcome (List ListedContainer) × World
  pub remove : (cid : String) → World → Outcome (Unit {0}) × World

-- DockerConfig and the part of SandboxConfig that the runtime reads (src/config.py), the two managers
-- that it may have, and the worker's identifier.
pub record Settings : Type 0 where
  pub default_image : String
  pub network : String
  pub pull_policy : String
  pub workspace_mount : String
  pub read_only_rootfs : Bool
  pub tmpfs_size_mb : ℤ
  pub drop_all_capabilities : Bool
  pub with_apparmor : Bool
  pub egress : Option NetworkEgressConfig
  pub worker_id : String

pub record Runtime (d : Docker) : Type 0 where
  pub connected : Bool
  pub world : d.World
  pub started : List RunOptions

abbrev pub egress_required_caps : List String
egress_required_caps = "NET_ADMIN" ∷ "NET_RAW" ∷ []

-- `network_access and self._egress_manager is not None and agent_capabilities is not None`: the
-- manager's configuration and the capabilities.
unfoldable pub needs_egress :
    (egress : Option NetworkEgressConfig) (network_access : Bool)
    (agent_capabilities : Option (List String))
    → Option (NetworkEgressConfig × List String)
needs_egress none access caps = none
needs_egress (some c) false caps = none
needs_egress (some c) true none = none
needs_egress (some c) true (some caps) = some (c, caps)

unfoldable pub added_caps : Option (NetworkEgressConfig × List String) → Option (List String)
added_caps none = none
added_caps (some _) = some egress_required_caps

unfoldable pub build_mounts : Settings → (workspace_dir : String) → List Mount
build_mounts settings dir =
    record { target = settings.workspace_mount; source = dir; read_only = false } ∷ []

-- `os.path.join(base, workspace)`: a path from the root takes the place of the base.
unfoldable pub workspace_path : (workspace : String) → String
workspace_path workspace =
    if starts_with workspace "/" then workspace else "/workspaces/" +ₛ workspace

unfoldable pub run_options :
    Settings → (image : String) → Launch → (workspace_dir : String) → RunOptions
unfolding build_mounts
run_options settings image l dir = record {
  image = image;
  command = l.command;
  name = "exec-" +ₛ replace_char b':' "-" l.job_id;
  detach = true;
  remove = true;
  network = if l.network_access then settings.network else "none";
  mounts = build_mounts settings dir;
  environment = l.environment;
  read_only = settings.read_only_rootfs;
  cap_drop = if settings.drop_all_capabilities then "ALL" ∷ [] else [];
  cap_add = added_caps (needs_egress settings.egress l.network_access l.agent_capabilities);
  security_opt = build_security_opts settings.with_apparmor l.agent_type;
  cpu_shares = l.profile.cpu_shares;
  cpu_quota = l.profile.cpu_quota;
  cpu_period = l.profile.cpu_period;
  mem_limit_mb = l.profile.memory_mb;
  memswap_limit_mb = l.profile.memory_swap_mb;
  pids_limit = l.profile.pids_limit;
  ulimits =
      record { name = "nproc"; soft = l.profile.pids_limit; hard = l.profile.pids_limit }
      ∷ record { name = "nofile"; soft = pos 1024; hard = pos 4096 }
      ∷ [];
  tmp_size_mb = settings.tmpfs_size_mb;
  labels =
      ("paperclip.sandbox", "true")
      ∷ ("paperclip.job-id", l.job_id)
      ∷ ("paperclip.worker-id", settings.worker_id)
      ∷ [];
}
