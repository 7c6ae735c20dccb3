-- ===== src/Seccomp/Profiles.antt =====
-- The three built-in profiles (src/sandbox/seccomp.py) against each other.
use tacktcix.Prelude.{
  ◌≡◌, refl, ap, ◌∙◌, String, Bool, true, false, contains, contains-append, string_eq, ◌||◌, ◌&&◌,
  not, if◌then◌else◌, ◌++◌,
}
use tacktcix.Prelude.Contains.{contains-filter_by}
use tacktcix.Prelude.SortedSet.{contains-sorted_set}
use tacktcix.Prelude.TextOrder.{text_order}
use Prim.Native.String.{compare}
use tacktcix.Seccomp.Syscalls.{restrictive_removed, permissive_extras, always_blocked}
use tacktcix.Seccomp.{
  default_allowed_syscalls, build_default_profile, build_restrictive_profile,
  build_permissive_profile, validate_syscall, is_kill,
}

by_lists :
    (blocked allowed : Bool) → (if blocked then false else allowed) ≡ (not blocked && allowed)
by_lists true allowed = refl
by_lists false allowed = refl

-- The default, the restrictive and the permissive profile permit no system call that is always
-- blocked. Of the others the default permits its list, the restrictive those of them that are not
-- removed, and the permissive these and its extras.
pub built_in_profiles :
    (s : String)
    → (validate_syscall build_default_profile s
        ≡ (not (contains s always_blocked) && contains s default_allowed_syscalls))
      × (validate_syscall build_restrictive_profile s ≡ (
          not (contains s always_blocked)
          && (contains s default_allowed_syscalls && not (contains s restrictive_removed))))
      × (validate_syscall build_permissive_profile s ≡ (
          not (contains s always_blocked)
          && (contains s default_allowed_syscalls || contains s permissive_extras)))
unfolding validate_syscall is_kill build_default_profile build_restrictive_profile
    build_permissive_profile
built_in_profiles s =
    let known = default_allowed_syscalls in
    (
      by_lists (contains s always_blocked) (contains s known),
      by_lists (contains s always_blocked) _
          ∙ ap (λ b. not (contains s always_blocked) && b)
              (contains-filter_by (λ t. not (contains t restrictive_removed)) s known),
      by_lists (contains s always_blocked) _
          ∙ ap (λ b. not (contains s always_blocked) && b)
              (contains-sorted_set compare text_order s (known ++ permissive_extras)
                ∙ contains-append s known permissive_extras),
    )
