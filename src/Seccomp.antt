-- ===== src/Seccomp.antt =====
-- src/sandbox/seccomp.py: seccomp profiles, built in, read and written.
pub mod Syscalls
pub mod Profiles
pub mod Document
use tacktcix.Prelude.{
  String, Bool, true, false, Option, none, some, List, [], ◌∷◌, ◌++◌, ◌==◌, string_eq,
  if◌then◌else◌, contains, not, filter_by,
}
use tacktcix.Prelude.Outcome.{Outcome, ok, raise, value_error}
use tacktcix.Prelude.Sorting.{sort}
use tacktcix.Prelude.SortedSet.{sorted_set}
use tacktcix.Prelude.TextOrder.{leb_text}
use tacktcix.Prelude.Text.{◌+ₛ◌}
use tacktcix.Seccomp.Syscalls.{
  safe_syscalls, restrictive_removed, permissive_extras, always_blocked,
}
use Prim.Native.String.{compare}

pub data SeccompAction : Type 0 where
  allow kill errno trap log : SeccompAction

unfoldable pub action_value : SeccompAction → String
action_value allow = "SCMP_ACT_ALLOW"
action_value kill = "SCMP_ACT_KILL"
action_value errno = "SCMP_ACT_ERRNO"
action_value trap = "SCMP_ACT_TRAP"
action_value log = "SCMP_ACT_LOG"

-- `SeccompAction(value)`; an unknown value is a ValueError.
unfoldable pub action_of : String → Outcome SeccompAction
action_of s =
    if s == "SCMP_ACT_ALLOW"
    then ok allow
    else if s == "SCMP_ACT_KILL"
    then ok kill
    else if s == "SCMP_ACT_ERRNO"
    then ok errno
    else if s == "SCMP_ACT_TRAP"
    then ok trap
    else if s == "SCMP_ACT_LOG"
    then ok log
    else raise value_error

unfoldable pub default_allowed_syscalls : List String
unfolding safe_syscalls
default_allowed_syscalls = sort leb_text safe_syscalls

pub record SeccompProfile : Type 0 where
  pub name : String
  pub default_action : SeccompAction
  pub allowed_syscalls : List String
  pub blocked_syscalls : List String

-- The JSON document of a profile, with what may be missing from one that was read.
pub record SyscallRule : Type 0 where
  pub names : Option (List String)
  pub action : Option String

pub record ProfileDocument : Type 0 where
  pub default_action : Option String
  pub architectures : List String
  pub syscalls : Option (List SyscallRule)

unfoldable pub to_dict : SeccompProfile → ProfileDocument
unfolding action_value
to_dict p = record {
  default_action = some (action_value p.default_action);
  architectures = "SCMP_ARCH_X86_64" ∷ [];
  syscalls = some (
      record { names = some p.allowed_syscalls; action = some (action_value allow) }
      ∷ record { names = some p.blocked_syscalls; action = some (action_value kill) }
      ∷ []);
}

unfoldable pub build_default_profile : SeccompProfile
unfolding default_allowed_syscalls
build_default_profile = record {
  name = "default";
  default_action = kill;
  allowed_syscalls = default_allowed_syscalls;
  blocked_syscalls = always_blocked;
}

unfoldable pub build_restrictive_profile : SeccompProfile
unfolding default_allowed_syscalls
build_restrictive_profile = record {
  name = "restrictive";
  default_action = kill;
  allowed_syscalls = filter_by (λ s. not (contains s restrictive_removed)) default_allowed_syscalls;
  blocked_syscalls = always_blocked;
}

unfoldable pub build_permissive_profile : SeccompProfile
unfolding default_allowed_syscalls
build_permissive_profile = record {
  name = "permissive";
  default_action = kill;
  allowed_syscalls = sorted_set compare (default_allowed_syscalls ++ permissive_extras);
  blocked_syscalls = always_blocked;
}

-- The loop over the entries of a document: the allowed and the blocked names.
rule_names : SyscallRule → List String
rule_names r = elim r.names [ none ↦ [] | some names ↦ names ]

rule_action : SyscallRule → String
rule_action r = elim r.action [ none ↦ "" | some action ↦ action ]

collect_allowed : List SyscallRule → List String
unfolding rule_names rule_action action_value
collect_allowed [] = []
collect_allowed (r ∷ rest) =
    if rule_action r == action_value allow
    then rule_names r ++ collect_allowed rest
    else collect_allowed rest

collect_blocked : List SyscallRule → List String
unfolding rule_names rule_action action_value
collect_blocked [] = []
collect_blocked (r ∷ rest) =
    if rule_action r == action_value allow
    then collect_blocked rest
    else if rule_action r == action_value kill
    then rule_names r ++ collect_blocked rest
    else if rule_action r == action_value errno
    then rule_names r ++ collect_blocked rest
    else collect_blocked rest

load_with : (stem : String) → List SyscallRule → Outcome SeccompAction → Outcome SeccompProfile
unfolding collect_allowed collect_blocked
load_with stem rules (raise e) = raise e
load_with stem rules (ok action) = ok (record {
  name = stem;
  default_action = action;
  allowed_syscalls = sort leb_text (collect_allowed rules);
  blocked_syscalls = sort leb_text (collect_blocked rules);
})

-- `stem` is the file's name without its suffix.
unfoldable pub load_profile : (stem : String) → ProfileDocument → Outcome SeccompProfile
unfolding load_with action_of
load_profile stem d =
    load_with stem (elim d.syscalls [ none ↦ [] | some rules ↦ rules ])
      (action_of (elim d.default_action [ none ↦ "SCMP_ACT_KILL" | some s ↦ s ]))

-- `file name` is the document of `{name}.json` in the profile directory, if there is one.
unfoldable pub get_profile :
    (file : String → Option ProfileDocument) → (name : String) → Outcome (Option SeccompProfile)
unfolding load_profile build_default_profile build_restrictive_profile build_permissive_profile
get_profile file name = elim (file name) [
  | some d ↦ elim (load_profile name d) [ raise e ↦ raise e | ok p ↦ ok (some p) ]
  | none ↦
      if name == "default"
      then ok (some build_default_profile)
      else if name == "restrictive"
      then ok (some build_restrictive_profile)
      else if name == "permissive"
      then ok (some build_permissive_profile)
      else ok none
]

is_kill : SeccompAction → Bool
is_kill allow = false
is_kill kill = true
is_kill errno = false
is_kill trap = false
is_kill log = false

unfoldable pub validate_syscall : SeccompProfile → (syscall_name : String) → Bool
unfolding is_kill
validate_syscall p syscall_name =
    if contains syscall_name p.blocked_syscalls
    then false
    else if is_kill p.default_action
    then contains syscall_name p.allowed_syscalls
    else not (contains syscall_name p.blocked_syscalls)

-- `dumps` is json.dumps.
unfoldable pub get_docker_security_opts :
    (dumps : ProfileDocument → String) (file : String → Option ProfileDocument)
    (profile_name : String)
    → Outcome (List String)
unfolding get_profile to_dict
get_docker_security_opts dumps file profile_name = elim (get_profile file profile_name) [
  | raise e ↦ raise e
  | ok found ↦ elim found [
    | none ↦ raise value_error
    | some p ↦ ok (("seccomp=" +ₛ dumps (to_dict p)) ∷ "no-new-privileges=true" ∷ [])
  ]
]
