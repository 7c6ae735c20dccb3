-- ===== src/AppArmor.antt =====
-- src/sandbox/apparmor.py: the AppArmor profiles of the agent types, and their text.
pub mod Kinds
pub mod Tables
pub mod Options
use tacktcix.Prelude.{
  ℕ, String, Bool, true, false, Option, none, some, List, [], ◌∷◌, ◌++◌, map, ◌==◌, string_eq,
  if◌then◌else◌,
}
use tacktcix.Prelude.Chars.{strip, split_on}
use tacktcix.Prelude.Dict.{Dict, get_or, has_key, insert}
use tacktcix.Prelude.Outcome.{Outcome, ok, raise}
use tacktcix.Prelude.Int.{ℤ, is_zero}
use tacktcix.Prelude.Sorting.{sort}
use tacktcix.Prelude.Text.{◌+ₛ◌, join, has_substring}
use tacktcix.Prelude.TextOrder.{leb_text}
use tacktcix.AppArmor.Kinds.{
  AppArmorCapability, capability_value, dac_override, AppArmorNetwork, network_value, inet_tcp,
  unix_stream, unix_dgram,
}
use tacktcix.AppArmor.Tables.{
  agent_linux_capabilities, agent_filesystem_rules, agent_network_rules, base_abstractions,
  common_readonly_paths, always_deny_paths,
}

pub record AppArmorProfile : Type 0 where
  pub name : String
  pub capabilities : List AppArmorCapability
  pub filesystem_rules : List String
  pub network_rules : List AppArmorNetwork
  pub comment : String

-- `sorted(xs, key=lambda x: x.value)`
abbrev by_value {ℓ} : {A : Type ℓ} → (A → String) → A → A → Bool
by_value value a b = leb_text (value a) (value b)

comment_lines : String → List String
comment_lines comment =
    if comment == ""
    then []
    else map (λ s. "# " +ₛ strip s) (split_on b'\n' (strip comment)) ++ "" ∷ []

capability_lines : List AppArmorCapability → List String
unfolding capability_value
capability_lines [] = []
capability_lines (c ∷ caps) =
    ""
    ∷ "  # Linux capabilities"
    ∷ (map (λ x. "  capability " +ₛ capability_value x +ₛ ",")
          (sort (by_value capability_value) (c ∷ caps))
        ++ "  deny capability," ∷ [])

filesystem_lines : List String → List String
filesystem_lines [] = []
filesystem_lines (r ∷ rules) =
    "" ∷ "  # Filesystem access" ∷ map (λ x. "  " +ₛ x +ₛ ",") (r ∷ rules)

deny_lines : List String
unfolding always_deny_paths
deny_lines = "" ∷ "  # Explicitly denied paths" ∷ map (λ x. "  deny " +ₛ x +ₛ ",") always_deny_paths

network_lines : List AppArmorNetwork → List String
unfolding network_value
network_lines [] = []
network_lines (n ∷ nets) =
    ""
    ∷ "  # Network access"
    ∷ (map (λ x. "  network " +ₛ network_value x +ₛ ",") (sort (by_value network_value) (n ∷ nets))
        ++ "  deny network," ∷ [])

-- The rule for sending has no `f` prefix in the source, so it is printed with its braces.
abbrev last_lines : List String
last_lines =
    "" ∷ "  # Signal and ptrace restrictions" ∷ "  signal (receive) peer=unconfined,"
    ∷ "  signal (send) peer={self.name}," ∷ "  deny ptrace (readby) peer=unconfined,"
    ∷ "  deny ptrace (tracedby) peer=unconfined," ∷ ""
    ∷ "  # Default deny for mount, umount, and pivot_root" ∷ "  deny mount," ∷ "  deny umount,"
    ∷ "  deny pivot_root," ∷ "}" ∷ []

-- The lines down to the file system rules.
opening_lines : AppArmorProfile → List String
unfolding comment_lines capability_lines filesystem_lines base_abstractions
opening_lines p =
    "#include <tunables/global>"
    ∷ ""
    ∷ (comment_lines p.comment
        ++ ("profile " +ₛ p.name +ₛ " flags=(attach_disconnected,mediate_deleted) {")
          ∷ (map (λ a. "  #include <abstractions/" +ₛ a +ₛ ">") base_abstractions
              ++ (capability_lines p.capabilities ++ filesystem_lines p.filesystem_rules)))

unfoldable pub profile_lines : AppArmorProfile → List String
unfolding opening_lines deny_lines network_lines
profile_lines p = opening_lines p ++ (deny_lines ++ (network_lines p.network_rules ++ last_lines))

unfoldable pub generate : AppArmorProfile → String
unfolding profile_lines
generate p = join "\n" (profile_lines p) +ₛ "\n"

unfoldable pub to_docker_security_opt : AppArmorProfile → String
to_docker_security_opt p = "apparmor=" +ₛ p.name

unfoldable pub profile_name : (agent_type : String) → String
profile_name agent_type = "paperclip-execution-" +ₛ agent_type

unfoldable pub build_agent_profile : (agent_type : String) → AppArmorProfile
unfolding profile_name agent_linux_capabilities agent_filesystem_rules agent_network_rules
    common_readonly_paths
build_agent_profile agent_type = record {
  name = profile_name agent_type;
  capabilities = get_or agent_type (dac_override ∷ []) agent_linux_capabilities;
  filesystem_rules = common_readonly_paths ++ get_or agent_type [] agent_filesystem_rules;
  network_rules = get_or agent_type (inet_tcp ∷ []) agent_network_rules;
  comment = "Paperclip execution profile for agent type: " +ₛ agent_type;
}

-- The fallback; its name is the prefix with `-default`.
unfoldable pub build_fallback_profile : AppArmorProfile
unfolding common_readonly_paths
build_fallback_profile = record {
  name = "paperclip-execution-default";
  capabilities = dac_override ∷ [];
  filesystem_rules = common_readonly_paths ++ "/workspace/** r" ∷ "/tmp/** r" ∷ [];
  network_rules = unix_stream ∷ unix_dgram ∷ [];
  comment = "Default restrictive profile for unknown agent types";
}

-- `agent_type in AGENT_CAPABILITIES`
is_known : (agent_type : String) → Bool
is_known agent_type = has_key agent_type agent_linux_capabilities

unfoldable pub get_agent_profile : (agent_type : String) → Option AppArmorProfile
unfolding is_known build_agent_profile
get_agent_profile agent_type =
    if is_known agent_type then some (build_agent_profile agent_type) else none

unfoldable pub get_apparmor_opts : (agent_type : String) → List String
unfolding get_agent_profile build_fallback_profile to_docker_security_opt
get_apparmor_opts agent_type =
    to_docker_security_opt
      (elim (get_agent_profile agent_type) [ none ↦ build_fallback_profile | some p ↦ p ])
    ∷ []

unfoldable pub get_default_opt : List String
unfolding build_fallback_profile to_docker_security_opt
get_default_opt = to_docker_security_opt build_fallback_profile ∷ []

add_profiles :
    List (String × List AppArmorCapability)
    → Dict String AppArmorProfile
    → Dict String AppArmorProfile
unfolding build_agent_profile
add_profiles [] profiles = profiles
add_profiles ((agent_type, caps) ∷ rest) profiles =
    add_profiles rest (insert agent_type (build_agent_profile agent_type) profiles)

unfoldable pub get_all_profiles : Dict String AppArmorProfile
unfolding add_profiles build_fallback_profile agent_linux_capabilities
get_all_profiles = add_profiles agent_linux_capabilities (("default", build_fallback_profile) ∷ [])

opts_of : (listed : Bool) (agent_type : String) → List String
unfolding get_apparmor_opts get_default_opt
opts_of listed t = if listed then get_apparmor_opts t else get_default_opt

-- `_build_security_opts` of src/container_runtime.py, with or without an AppArmor manager.
unfoldable pub build_security_opts :
    (with_apparmor : Bool) → (agent_type : Option String) → List String
unfolding get_all_profiles get_default_opt opts_of
build_security_opts false agent_type = "no-new-privileges:true" ∷ []
build_security_opts true none = "no-new-privileges:true" ∷ get_default_opt
build_security_opts true (some t) =
    "no-new-privileges:true" ∷ opts_of (has_key t get_all_profiles) t
