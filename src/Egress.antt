-- ===== src/Egress.antt =====
-- src/network_egress.py: which addresses a container may reach, and the iptables script that says so.
pub mod Policy
pub mod Rules
use tacktcix.Prelude.{
  ℕ, suc, ◌+◌, String, Bool, true, false, Option, none, some, List, [], ◌∷◌, ◌++◌, map, ◌==◌,
  string_eq, if◌then◌else◌, contains, ltb, leb, nat_beq, ◌||◌, ◌&&◌,
}
use tacktcix.Prelude.Chars.{strip, is_digit}
use tacktcix.Prelude.Dict.{Dict, lookup, get_or}
use tacktcix.Prelude.SortedSet.{sorted_set}
use Prim.Native.Char.{code}
use Prim.Native.String.{compare}

abbrev pub capability_to_category : Dict String String
capability_to_category =
    ("net.outbound_github", "github")
    ∷ ("net.outbound_pypi", "pypi")
    ∷ ("net.outbound_npm", "npm")
    ∷ ("net.outbound_docker_registry", "docker_registry")
    ∷ ("net.outbound_cloud_apis", "cloud_apis")
    ∷ ("net.outbound_test_endpoints", "test_endpoints")
    ∷ ("net.outbound_scan_targets", "scan_targets")
    ∷ []

abbrev pub known_registry_cidrs : List String
known_registry_cidrs =
    "44.205.64.0/20" ∷ "54.85.0.0/16" ∷ "34.192.0.0/12" ∷ "3.224.0.0/12" ∷ "140.82.112.0/20" ∷ []

abbrev pub known_cloud_api_cidrs : List String
known_cloud_api_cidrs =
    "54.160.0.0/13" ∷ "54.208.0.0/15" ∷ "52.0.0.0/15" ∷ "3.208.0.0/13" ∷ "18.232.0.0/14"
    ∷ "44.192.0.0/11" ∷ []

abbrev pub known_gcp_api_cidrs : List String
known_gcp_api_cidrs =
    "8.34.208.0/20" ∷ "8.35.192.0/21" ∷ "8.35.200.0/23" ∷ "108.170.192.0/18" ∷ "108.177.0.0/17" ∷ []

pub record NetworkEgressConfig : Type 0 where
  pub default_policy : String
  pub egress_rules : Dict String (List String)
  pub dns_servers : List String

pub record EgressPolicy : Type 0 where
  pub allowed_cidrs : List String
  pub dns_servers : List String
  pub default_policy : String

-- How many digits may stand in the part: three in the four numbers, two after the slash.
abbrev digits_allowed : (part : ℕ) → ℕ
digits_allowed part = if nat_beq part 4 then 2 else 3

-- `re.match(r"^\d{1,3}\.\d{1,3}\.\d{1,3}\.\d{1,3}/\d{1,2}$", entry)`, on a stripped entry: `part` is
-- the number being read, from 0 to 4, and `seen` its digits so far.
cidr_from : (part seen : ℕ) → String → Bool
cidr_from part seen String.[] = nat_beq part 4 && leb 1 seen
cidr_from part seen (String.◌∷◌ c s) =
    let digit = cidr_from part (suc seen) s in
    let next_part = cidr_from (suc part) 0 s in
    if is_digit (code c)
    then ltb seen (digits_allowed part) && digit
    else leb 1 seen
      && ((ltb part 3 && nat_beq (code c) b'.') || (nat_beq part 3 && nat_beq (code c) b'/'))
      && next_part

unfoldable pub is_cidr : String → Bool
unfolding cidr_from
is_cidr entry = cidr_from 0 0 entry

-- The body of the loop over a category's entries.
entry_cidrs : (category entry : String) → List String
unfolding is_cidr
entry_cidrs category entry =
    let stripped = strip entry in
    if is_cidr stripped
    then stripped ∷ []
    else if category == "docker_registry"
    then known_registry_cidrs
    else if category == "cloud_apis"
    then known_cloud_api_cidrs ++ known_gcp_api_cidrs
    else []

entries_cidrs : (category : String) → List String → List String
unfolding entry_cidrs
entries_cidrs category [] = []
entries_cidrs category (entry ∷ rest) = entry_cidrs category entry ++ entries_cidrs category rest

unfoldable pub resolve_category_cidrs : NetworkEgressConfig → (category : String) → List String
unfolding entries_cidrs
resolve_category_cidrs c category = entries_cidrs category (get_or category [] c.egress_rules)

-- The loop over the capabilities, in the order in which the set gives them.
unfoldable pub collect_cidrs : NetworkEgressConfig → (seen caps : List String) → List String
unfolding resolve_category_cidrs
collect_cidrs c seen [] = []
collect_cidrs c seen (cap ∷ caps) = elim (lookup cap capability_to_category) [
  | none ↦ collect_cidrs c seen caps
  | some category ↦
      let rest = collect_cidrs c seen caps in
      let more = resolve_category_cidrs c category ++ collect_cidrs c (category ∷ seen) caps in
      if contains category seen then rest else more
]

unfoldable pub resolve_policy :
    NetworkEgressConfig → (agent_capabilities : List String) → EgressPolicy
unfolding collect_cidrs
resolve_policy c caps = record {
  allowed_cidrs =
      if contains "net.outbound_all" caps
      then "0.0.0.0/0" ∷ []
      else sorted_set compare (collect_cidrs c [] caps);
  dns_servers = c.dns_servers;
  default_policy = c.default_policy;
}
