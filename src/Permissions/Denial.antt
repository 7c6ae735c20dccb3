-- ===== src/Permissions/Denial.antt =====
-- Deny by default, and blocked before safe (src/permissions.py).
use tacktcix.Prelude.{
  ◌≡◌, refl, sym, ◌∙◌, ◌↔◌, String, Bool, true, false, Option, none, some, List, [], ◌∷◌, arith,
  Bool-cases, Option-cases, inl, inr, contains, contains-append, string_eq, ◌||◌, ◌&&◌, not,
  if◌then◌else◌,
}
use tacktcix.Prelude.Chars.{strip}
use tacktcix.Prelude.Dict.{get_or}
use tacktcix.Permissions.{
  PermissionsEngine, PermissionCheck, PermissionResult, denied, unknown_capability, Pattern,
  granted, require_capability, require_result, check_capability, get_capabilities, first_match,
  check_command, is_command_allowed,
}

-- Some pattern of the list is found in the command.
abbrev pub any_match : String → List Pattern → Bool
any_match command [] = false
any_match command (p ∷ rest) = p.search command || any_match command rest

first_match-any :
    (command : String) (ps : List Pattern)
    → any_match command ps ≡ elim (first_match command ps) [ none ↦ false | some _ ↦ true ]
unfolding first_match
first_match-any command [] = refl
first_match-any command (p ∷ rest) = elim (Bool-cases (p.search command)) [
  | inl e ↦ rw (e, first_match) refl
  | inr e ↦ rw (e, first_match) (first_match-any command rest)
]

-- A command is allowed exactly when no blocked pattern is found in it, without the spaces around it,
-- and a safe pattern is.
pub is_command_allowed-patterns :
    (p : PermissionsEngine) (command : String)
    → is_command_allowed p command ≡ (
        not (any_match (strip command) p.blocked_patterns)
        && any_match (strip command) p.safe_patterns)
unfolding is_command_allowed check_command
is_command_allowed-patterns p command =
    let blocked = first_match-any (strip command) p.blocked_patterns in
    let safe = first_match-any (strip command) p.safe_patterns in
    rw (blocked, safe)
      (elim (Option-cases (first_match (strip command) p.blocked_patterns)) [
        | inr (b, e) ↦ rw (e, is_command_allowed, check_command) refl
        | inl e ↦ elim (Option-cases (first_match (strip command) p.safe_patterns)) [
          | inr (s, k) ↦ rw (e, k, is_command_allowed, check_command) refl
          | inl k ↦ rw (e, k, is_command_allowed, check_command) refl
        ]
      ])

require_result-allowed :
    (check : PermissionCheck) (r : PermissionResult)
    → (require_result check r ≡ granted check) ↔ (r ≡ PermissionResult.allowed)
unfolding require_result
require_result-allowed check PermissionResult.allowed = ground arith
require_result-allowed check denied = ground arith
require_result-allowed check unknown_capability = ground arith

result-granted :
    (b : Bool)
    → ((if b then PermissionResult.allowed else denied) ≡ PermissionResult.allowed) ↔ (b ≡ true)
result-granted true = ground arith
result-granted false = ground arith

-- `require_capability` returns the check exactly when the capability is listed for the agent's type
-- or among the defaults, and otherwise it raises; a type that is not listed has the defaults only.
require_capability-grants :
    (p : PermissionsEngine) (agent_type agent_id capability : String) (resource : Option String)
    → (require_capability p agent_type agent_id capability resource
        ≡ granted (check_capability p agent_type agent_id capability resource))
      ↔ ((contains capability (get_or agent_type [] p.agent_capabilities)
            || contains capability p.default_capabilities)
          ≡ true)
unfolding require_capability check_capability get_capabilities require_result
require_capability-grants p agent_type agent_id capability resource =
    let same =
      contains-append capability (get_or agent_type [] p.agent_capabilities)
        p.default_capabilities in
    let check = check_capability p agent_type agent_id capability resource in
    let required = require_result-allowed check check.result in
    let listed = result-granted (contains capability (get_capabilities p agent_type)) in
    (λ h. sym same ∙ listed.0 (required.0 h), λ k. required.1 (listed.1 (same ∙ k)))
