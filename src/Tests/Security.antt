-- ===== src/Tests/Security.antt =====
-- Runs of the permissions engine, the egress policy and the sandbox profiles.
use tacktcix.Prelude.{
  arith, ◌⊎◌, ◌≡◌, refl, ◌↔◌, String, Bool, true, false, some, List, [], ◌∷◌, contains, string_eq,
  ◌||◌, ◌&&◌, not, ◌==◌,
}
use tacktcix.Prelude.Chars.{strip}
use tacktcix.Prelude.Dict.{lookup}
use tacktcix.Prelude.Outcome.{ok}
use tacktcix.Prelude.Text.{has_substring, ◌+ₛ◌}
use tacktcix.Permissions.{
  PermissionsEngine, PermissionResult, get_capabilities, is_command_allowed,
  validate_network_access,
}
use tacktcix.Permissions.Denial.{any_match, is_command_allowed-patterns}
use tacktcix.Permissions.Network.{names_github, validate_network_access-allows}
use tacktcix.Egress.{NetworkEgressConfig, EgressPolicy, resolve_policy}
use tacktcix.Egress.Policy.{granted as is_granted, resolve_policy_allows, resolve_policy_order}
use tacktcix.Egress.Rules.{build_rules, tcp, drop}
use tacktcix.Egress.Rules.Packets.{
  Packet, Chain, lets_out, run_lines, to_dns, to_cidr, asks_dns, lets_out-build_rules,
}
use tacktcix.AppArmor.Tables.{always_deny_paths}
use tacktcix.AppArmor.{
  AppArmorProfile, get_all_profiles, build_agent_profile, build_fallback_profile,
  build_security_opts,
}
use tacktcix.AppArmor.Options.{agent_types, build_security_opts_profile}
use tacktcix.Seccomp.Syscalls.{restrictive_removed, permissive_extras, always_blocked}
use tacktcix.Seccomp.{
  SeccompProfile, errno, validate_syscall, build_default_profile, build_restrictive_profile,
  build_permissive_profile, default_allowed_syscalls, load_profile, to_dict,
}
use tacktcix.Seccomp.Profiles.{built_in_profiles}
use tacktcix.Seccomp.Document.{sorted_lists, load_profile-to_dict}

abbrev engine : PermissionsEngine
engine = record {
  agent_capabilities = ("coder", "net.outbound_github" ∷ "fs.write" ∷ []) ∷ [];
  default_capabilities = "fs.read" ∷ [];
  safe_patterns = record { pattern = "^git "; search = λ s. has_substring "git " s } ∷ [];
  blocked_patterns = record { pattern = "rm -rf"; search = λ s. has_substring "rm -rf" s } ∷ [];
}

is_command_allowed-patterns_example : is_command_allowed engine " git status " ≡ (
    not (any_match (strip " git status ") engine.blocked_patterns)
    && any_match (strip " git status ") engine.safe_patterns)
is_command_allowed-patterns_example = is_command_allowed-patterns engine " git status "

validate_network_access-allows_example :
    ((validate_network_access engine "coder" "a1" "api.github.com").result
      ≡ PermissionResult.allowed)
    ↔ ((contains {A = String} "net.outbound_all" (get_capabilities engine "coder")
          || (contains {A = String} "net.outbound_github" (get_capabilities engine "coder")
              && names_github "api.github.com"))
        ≡ true)
validate_network_access-allows_example =
    validate_network_access-allows engine "coder" "a1" "api.github.com"

abbrev egress : NetworkEgressConfig
egress = record {
  default_policy = "deny";
  egress_rules = ("github", "140.82.112.0/20" ∷ []) ∷ ("pypi", "151.101.0.0/16" ∷ []) ∷ [];
  dns_servers = "8.8.8.8" ∷ [];
}

abbrev caps : List String
caps = "net.outbound_github" ∷ "net.outbound_pypi" ∷ []

resolve_policy_allows_example :
    contains {A = String} "151.101.0.0/16" (resolve_policy egress caps).allowed_cidrs
    ≡ is_granted egress "151.101.0.0/16" caps
resolve_policy_allows_example = resolve_policy_allows egress caps "151.101.0.0/16" refl

abbrev twice : List String
twice = "net.outbound_github" ∷ "net.outbound_pypi" ∷ "net.outbound_pypi" ∷ []

same_caps : (a : String) → contains {A = String} a caps ≡ contains {A = String} a twice
same_caps a = ground arith

resolve_policy_order_example : resolve_policy egress caps ≡ resolve_policy egress twice
resolve_policy_order_example = resolve_policy_order egress caps twice same_caps

abbrev packet : Packet
packet = record {
  loopback = false;
  established = false;
  protocol = tcp;
  port = 443;
  destination = "140.82.112.5";
}

abbrev inside : String → String → Bool
inside range destination = (range == "140.82.112.0/20") && (destination == "140.82.112.5")

abbrev policy : EgressPolicy
policy = record {
  allowed_cidrs = "140.82.112.0/20" ∷ [];
  dns_servers = "8.8.8.8" ∷ [];
  default_policy = "deny";
}

abbrev closed : Chain
closed = record { by_default = drop; rules = [] }

lets_out-build_rules_example :
    lets_out inside packet (run_lines inside packet (build_rules policy) closed) ≡ (
      ((false || false) || (asks_dns inside packet && to_dns inside packet ("8.8.8.8" ∷ [])))
      || (contains {A = String} "0.0.0.0/0" ("140.82.112.0/20" ∷ [])
          || to_cidr inside packet ("140.82.112.0/20" ∷ [])))
lets_out-build_rules_example = lets_out-build_rules inside packet policy closed

built_in_profiles_example :
    (validate_syscall build_default_profile "fork" ≡ (
      not (contains {A = String} "fork" always_blocked)
      && contains {A = String} "fork" default_allowed_syscalls))
    × (validate_syscall build_restrictive_profile "fork" ≡ (
        not (contains {A = String} "fork" always_blocked)
        && (contains {A = String} "fork" default_allowed_syscalls
            && not (contains {A = String} "fork" restrictive_removed))))
    × (validate_syscall build_permissive_profile "fork" ≡ (
        not (contains {A = String} "fork" always_blocked)
        && (contains {A = String} "fork" default_allowed_syscalls
            || contains {A = String} "fork" permissive_extras)))
built_in_profiles_example = built_in_profiles "fork"

abbrev profile : SeccompProfile
profile = record {
  name = "mine";
  default_action = errno;
  allowed_syscalls = "write" ∷ "read" ∷ [];
  blocked_syscalls = "mount" ∷ [];
}

load_profile-to_dict_example :
    (q : SeccompProfile) × (load_profile "mine" (to_dict profile) ≡ ok q)
    × (q ≡ sorted_lists profile)
    × ((s : String) → validate_syscall q s ≡ validate_syscall profile s)
load_profile-to_dict_example = load_profile-to_dict profile

build_security_opts_profile_example :
    ((t : String) × (some "qa" ≡ some t)
      × (contains t agent_types ≡ true)
      × (lookup t get_all_profiles ≡ some (build_agent_profile t))
      × ((build_agent_profile t).name ≡ "paperclip-execution-" +ₛ t)
      × (build_security_opts true (some "qa")
          ≡ "no-new-privileges:true" ∷ ("apparmor=" +ₛ ("paperclip-execution-" +ₛ t)) ∷ []))
    ⊎ (((t : String) → some "qa" ≡ some t → contains t agent_types ≡ false)
        × (lookup "default" get_all_profiles ≡ some build_fallback_profile)
        × (build_fallback_profile.name ≡ "paperclip-execution-default")
        × (build_security_opts true (some "qa")
            ≡ "no-new-privileges:true" ∷ "apparmor=paperclip-execution-default" ∷ []))
build_security_opts_profile_example = build_security_opts_profile (some "qa")

abbrev bare : AppArmorProfile
bare = record {
  name = "bare";
  capabilities = [];
  filesystem_rules = [];
  network_rules = [];
  comment = "";
}

shadow_is_protected : contains {A = String} "/etc/shadow" always_deny_paths ≡ true
unfolding always_deny_paths
shadow_is_protected = refl
