-- ===== src/Egress/Rules.antt =====
-- The iptables script of src/network_egress.py, line by line, and the two calls of Docker around it.
pub mod Packets
use tacktcix.Prelude.{String, Bool, false, List, [], ◌∷◌, ◌++◌, map, ◌==◌, string_eq, if◌then◌else◌}
use tacktcix.Prelude.Chars.{split_on}
use tacktcix.Prelude.Int.{ℤ, is_zero}
use tacktcix.Prelude.Outcome.{Outcome, ok, raise}
use tacktcix.Prelude.Text.{◌+ₛ◌, join, has_substring}
use tacktcix.Egress.{EgressPolicy}

pub data Target : Type 0 where
  drop accept : Target

pub data Protocol : Type 0 where
  udp tcp other : Protocol

-- A line of the script: a command for iptables, or text that is no command.
pub data Line : Type 0 where
  remark : String → Line
  flush : Line
  set_policy : Target → Line
  accept_loopback : Line
  accept_established : Line
  accept_dns : Protocol → (server : String) → Line
  accept_to : (cidr : String) → Line

print_target : Target → String
print_target drop = "DROP"
print_target accept = "ACCEPT"

print_protocol : Protocol → String
print_protocol udp = "udp"
print_protocol tcp = "tcp"
print_protocol other = "all"

unfoldable pub print_line : Line → String
unfolding print_target print_protocol
print_line (remark s) = s
print_line flush = "iptables -F OUTPUT 2>/dev/null || true"
print_line (set_policy t) = "iptables -P OUTPUT " +ₛ print_target t
print_line accept_loopback = "iptables -A OUTPUT -o lo -j ACCEPT"
print_line accept_established =
    "iptables -A OUTPUT -m conntrack --ctstate ESTABLISHED,RELATED -j ACCEPT"
print_line (accept_dns p server) =
    "iptables -A OUTPUT -p " +ₛ print_protocol p +ₛ " --dport 53 -d " +ₛ server +ₛ " -j ACCEPT"
print_line (accept_to cidr) = "iptables -A OUTPUT -d " +ₛ cidr +ₛ " -j ACCEPT"

-- The fixed lines at the top.
abbrev pub head_lines : List Line
head_lines =
    remark "#!/usr/bin/env bash"
    ∷ remark "set -e"
    ∷ remark "# Network egress policy — generated by NetworkEgressManager"
    ∷ remark "# Default policy: deny all outbound"
    ∷ remark ""
    ∷ flush
    ∷ set_policy drop
    ∷ remark ""
    ∷ remark "# Allow loopback"
    ∷ accept_loopback
    ∷ remark ""
    ∷ remark "# Allow established/related traffic"
    ∷ accept_established
    ∷ remark ""
    ∷ remark "# DNS: only approved servers"
    ∷ []

dns_lines : List String → List Line
dns_lines [] = []
dns_lines (dns ∷ rest) = accept_dns udp dns ∷ accept_dns tcp dns ∷ dns_lines rest

abbrev middle_lines : List String → List Line
middle_lines [] =
    remark "" ∷ remark "# Allowed egress CIDRs" ∷ remark "# (none — all outbound blocked)" ∷ []
middle_lines (cidr ∷ rest) = remark "" ∷ remark "# Allowed egress CIDRs" ∷ []

-- The loop over the address ranges, which the one for everything ends.
cidr_lines : List String → List Line
cidr_lines [] = []
cidr_lines (cidr ∷ rest) =
    if cidr == "0.0.0.0/0"
    then set_policy accept ∷ remark "# Allow-all CIDR — default policy set to ACCEPT" ∷ []
    else accept_to cidr ∷ cidr_lines rest

unfoldable pub build_rules : EgressPolicy → List Line
unfolding dns_lines cidr_lines
build_rules p =
    head_lines
    ++ (dns_lines p.dns_servers ++ (middle_lines p.allowed_cidrs ++ cidr_lines p.allowed_cidrs))

unfoldable pub build_rules_script : EgressPolicy → String
unfolding build_rules print_line
build_rules_script p = join "\n" (map print_line (build_rules p)) +ₛ "\n"

-- The answer of `exec_run`: an exit code and an output.
pub record ExecResult : Type 0 where
  pub exit_code : ℤ
  pub output : String

unfoldable pub apply_to_container :
    (exec_run : (container_id script : String) → Outcome ExecResult) (container_id : String)
    → EgressPolicy
    → Bool
unfolding build_rules_script
apply_to_container exec_run container_id p = elim (exec_run container_id (build_rules_script p)) [
  | ok r ↦ is_zero r.exit_code
  | raise _ ↦ false
]

first_line : List String → String
first_line [] = ""
first_line (s ∷ rest) = s

-- `exec_run` runs `iptables -L OUTPUT -n`.
unfoldable pub verify_rules :
    (exec_run : (container_id : String) → Outcome ExecResult) (container_id : String) → Bool
unfolding first_line
verify_rules exec_run container_id = elim (exec_run container_id) [
  | ok r ↦
      if r.output == "" then false else has_substring "DROP" (first_line (split_on b'\n' r.output))
  | raise _ ↦ false
]
