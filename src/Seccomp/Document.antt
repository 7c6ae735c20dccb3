-- ===== src/Seccomp/Document.antt =====
-- A profile that is written and read again (src/sandbox/seccomp.py).
use tacktcix.Prelude.{◌≡◌, refl, String, string_eq}
use tacktcix.Prelude.Contains.{contains-sort}
use tacktcix.Prelude.Outcome.{ok}
use tacktcix.Prelude.Sorting.{sort}
use tacktcix.Prelude.TextOrder.{leb_text}
use mathlib.Core.List.{append-nil}
use tacktcix.Seccomp.{
  SeccompAction, allow, kill, errno, trap, log, SeccompProfile, action_value, action_of, to_dict,
  load_with, load_profile, collect_allowed, collect_blocked, rule_names, rule_action,
  validate_syscall,
}

action_of-action_value : (a : SeccompAction) → action_of (action_value a) ≡ ok a
unfolding action_of action_value
action_of-action_value allow = refl
action_of-action_value kill = refl
action_of-action_value errno = refl
action_of-action_value trap = refl
action_of-action_value log = refl

abbrev pub sorted_lists : SeccompProfile → SeccompProfile
sorted_lists p = record p {
  allowed_syscalls = sort leb_text p.allowed_syscalls;
  blocked_syscalls = sort leb_text p.blocked_syscalls;
}

load_to_dict : (p : SeccompProfile) → load_profile p.name (to_dict p) ≡ ok (sorted_lists p)
unfolding load_profile to_dict load_with collect_allowed collect_blocked rule_names rule_action
    action_value
load_to_dict p =
    rw
      (
        action_of-action_value p.default_action,
        append-nil p.allowed_syscalls,
        append-nil p.blocked_syscalls,
      )
      refl

validate-sorted :
    (p : SeccompProfile) (s : String) → validate_syscall (sorted_lists p) s ≡ validate_syscall p s
unfolding validate_syscall
validate-sorted p s =
    rw (contains-sort leb_text s p.allowed_syscalls, contains-sort leb_text s p.blocked_syscalls)
      refl

-- The document of a profile is read back under its name as the profile with its two lists sorted, and
-- that profile permits the same system calls.
pub load_profile-to_dict :
    (p : SeccompProfile)
    → (q : SeccompProfile) × (load_profile p.name (to_dict p) ≡ ok q)
      × (q ≡ sorted_lists p)
      × ((s : String) → validate_syscall q s ≡ validate_syscall p s)
load_profile-to_dict p = (sorted_lists p, load_to_dict p, refl, validate-sorted p)
