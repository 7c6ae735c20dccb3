-- ===== src/Permissions.antt =====
-- src/permissions.py: the deny-by-default permissions engine. A set is the list of its elements. A
-- compiled pattern is its text with its `search`, which the engine only calls.
pub mod Denial
pub mod Network
use tacktcix.Prelude.{
  ℕ, String, Bool, true, false, Option, none, some, List, [], ◌∷◌, ◌++◌, ◌==◌, string_eq,
  if◌then◌else◌, contains, ◌||◌, ◌&&◌, filter_by,
}
use tacktcix.Prelude.Chars.{strip}
use tacktcix.Prelude.Dict.{Dict, get_or}
use tacktcix.Prelude.Text.{◌+ₛ◌, has_substring}
use text.Mathlib.Text.{starts_with}
use Prim.Native.String.{slice, len}

pub data PermissionResult : Type 0 where
  allowed denied unknown_capability : PermissionResult

pub record PermissionCheck : Type 0 where
  pub agent_id : String
  pub agent_type : String
  pub capability : String
  pub resource : Option String
  pub result : PermissionResult
  pub reason : String

pub record CommandCheck : Type 0 where
  pub command : String
  pub allowed : Bool
  pub matched_pattern : Option String

pub record Pattern : Type 0 where
  pub pattern : String
  pub search : String → Bool

pub record PermissionsEngine : Type 0 where
  pub agent_capabilities : Dict String (List String)
  pub default_capabilities : List String
  pub safe_patterns : List Pattern
  pub blocked_patterns : List Pattern

-- `x or []`
abbrev or_empty {ℓ} : {A : Type ℓ} → Option (List A) → List A
or_empty none = []
or_empty (some xs) = xs

-- `__init__`, with the patterns compiled.
unfoldable pub new_engine :
    Dict String (List String)
    → (default : Option (List String)) → (safe blocked : Option (List Pattern)) → PermissionsEngine
new_engine agent_capabilities default safe blocked = record {
  agent_capabilities = agent_capabilities;
  default_capabilities = or_empty default;
  safe_patterns = or_empty safe;
  blocked_patterns = or_empty blocked;
}

unfoldable pub get_capabilities : PermissionsEngine → (agent_type : String) → List String
get_capabilities p agent_type = get_or agent_type [] p.agent_capabilities ++ p.default_capabilities

unfoldable pub check_capability :
    PermissionsEngine → (agent_type agent_id capability : String) → Option String → PermissionCheck
unfolding get_capabilities
check_capability p agent_type agent_id capability resource =
    let granted = contains capability (get_capabilities p agent_type) in
    record {
      agent_id = agent_id;
      agent_type = agent_type;
      capability = capability;
      resource = resource;
      result = if granted then PermissionResult.allowed else denied;
      reason =
          if granted
          then "Capability '" +ₛ capability +ₛ "' granted to agent type '" +ₛ agent_type +ₛ "'"
          else "Capability '" +ₛ capability +ₛ "' not in allowlist for agent type '" +ₛ agent_type
            +ₛ "'";
    }

unfoldable pub verify_capability :
    PermissionsEngine → (agent_type agent_id capability : String) → Option String → PermissionCheck
unfolding check_capability
verify_capability p agent_type agent_id capability resource =
    check_capability p agent_type agent_id capability resource

-- A check, or the text of the PermissionError.
pub data Required : Type 0 where
  granted : PermissionCheck → Required
  refused : (reason : String) → Required

require_result : PermissionCheck → PermissionResult → Required
require_result check PermissionResult.allowed = granted check
require_result check denied = refused check.reason
require_result check unknown_capability = refused check.reason

unfoldable pub require_capability :
    PermissionsEngine → (agent_type agent_id capability : String) → Option String → Required
unfolding check_capability require_result
require_capability p agent_type agent_id capability resource =
    let check = check_capability p agent_type agent_id capability resource in
    require_result check check.result

-- The first pattern that is found in the command.
unfoldable pub first_match : String → List Pattern → Option String
first_match command [] = none
first_match command (p ∷ rest) =
    if p.search command then some p.pattern else first_match command rest

unfoldable pub check_command : PermissionsEngine → String → CommandCheck
unfolding first_match
check_command p command =
    let stripped = strip command in
    elim (first_match stripped p.blocked_patterns) [
      | some found ↦ record { command = stripped; allowed = false; matched_pattern = some found }
      | none ↦ elim (first_match stripped p.safe_patterns) [
        | some found ↦ record { command = stripped; allowed = true; matched_pattern = some found }
        | none ↦ record { command = stripped; allowed = false; matched_pattern = none }
      ]
    ]

unfoldable pub is_command_allowed : PermissionsEngine → String → Bool
unfolding check_command
is_command_allowed p command = (check_command p command).allowed

abbrev pub capability_prefix : String
capability_prefix = "net.outbound_"

-- `cap[len(capability_prefix):] == "github" and (...)`
opens : (target cap : String) → Bool
opens target cap =
    (slice cap (len capability_prefix) (len cap) == "github")
    && (has_substring "github.com" target || has_substring "github" target)

-- The loop over the network capabilities.
unfoldable pub first_opening : (target : String) → List String → Option String
unfolding opens
first_opening target [] = none
first_opening target (cap ∷ rest) = if opens target cap then some cap else first_opening target rest

unfoldable pub validate_network_access :
    PermissionsEngine → (agent_type agent_id target : String) → PermissionCheck
unfolding get_capabilities first_opening
validate_network_access p agent_type agent_id target =
    let caps = get_capabilities p agent_type in
    let net_caps = filter_by (λ c. starts_with c capability_prefix) caps in
    if contains "net.outbound_all" caps
    then record {
      agent_id = agent_id;
      agent_type = agent_type;
      capability = "net.outbound_all";
      resource = some target;
      result = PermissionResult.allowed;
      reason = "Wildcard network access granted";
    }
    else elim (first_opening target net_caps) [
      | some cap ↦ record {
        agent_id = agent_id;
        agent_type = agent_type;
        capability = cap;
        resource = some target;
        result = PermissionResult.allowed;
        reason = "";
      }
      | none ↦ record {
        agent_id = agent_id;
        agent_type = agent_type;
        capability = "net.outbound";
        resource = some target;
        result = denied;
        reason = "No network capability allows access to " +ₛ target;
      }
    ]
