-- ===== src/Egress/Rules/Packets.antt =====
-- What the script of src/network_egress.py does to packets: an abstract packet filter runs its lines,
-- and lets exactly the traffic of the policy out.
use tacktcix.Prelude.{
  ℕ, ◌≡◌, refl, sym, ap, ◌∙◌, String, Bool, true, false, List, [], ◌∷◌, ◌++◌, arith, Bool-cases,
  inl, inr, ◌==◌, string_eq, contains, nat_beq, ◌||◌, ◌&&◌,
}
use tacktcix.Egress.{EgressPolicy}
use tacktcix.Egress.Rules.{
  Target, drop, accept, Protocol, udp, tcp, other, Line, remark, flush, set_policy, accept_loopback,
  accept_established, accept_dns, accept_to, dns_lines, middle_lines, cidr_lines, build_rules,
}

pub record Packet : Type 0 where
  pub loopback : Bool
  pub established : Bool
  pub protocol : Protocol
  pub port : ℕ
  pub destination : String

-- The OUTPUT chain: what it does by default, and its rules.
pub record Chain : Type 0 where
  pub by_default : Target
  pub rules : List Line

abbrev pub same_protocol : Protocol → Protocol → Bool
same_protocol udp udp = true
same_protocol tcp tcp = true
same_protocol other other = true
same_protocol _ _ = false

two_dns :
    (old default u t port hit rest new : Bool)
    → new ≡ ((old || ((u && port && hit) || false)) || ((t && port && hit) || false))
    → ((new || default) || ((u || t) && port && rest))
      ≡ ((old || default) || ((u || t) && port && (hit || rest)))
two_dns old default u t port hit rest new h = ground (arith, h)

one_cidr :
    (old default hit all rest new : Bool)
    → new ≡ (old || (hit || false))
    → ((new || default) || (all || rest)) ≡ ((old || default) || (all || (hit || rest)))
one_cidr old default hit all rest new h = ground (arith, h)

start_lets_out :
    (lo established : Bool) → ((lo || (established || false)) || false) ≡ (lo || established)
start_lets_out lo established = ground arith

accept_all : (old default rest : Bool) → (old || true) ≡ ((old || default) || (true || rest))
accept_all old default rest = ground arith

-- `inside r d`: the destination d lies in the range r, as the kernel decides for `-d r`.
module _ (inside : (range destination : String) → Bool) (p : Packet) where
  abbrev pub matches : Line → Bool
  matches (remark s) = false
  matches flush = false
  matches (set_policy t) = false
  matches accept_loopback = p.loopback
  matches accept_established = p.established
  matches (accept_dns q server) =
      same_protocol p.protocol q && nat_beq p.port 53 && inside server p.destination
  matches (accept_to cidr) = inside cidr p.destination

  abbrev pub any_match : List Line → Bool
  any_match [] = false
  any_match (l ∷ rest) = matches l || any_match rest

  abbrev pub is_accept : Target → Bool
  is_accept drop = false
  is_accept accept = true

  abbrev pub lets_out : Chain → Bool
  lets_out c = any_match c.rules || is_accept c.by_default

  abbrev pub run_line : Line → Chain → Chain
  run_line (remark s) c = c
  run_line flush c = record c { rules = [] }
  run_line (set_policy t) c = record c { by_default = t }
  run_line accept_loopback c = record c { rules = c.rules ++ accept_loopback ∷ [] }
  run_line accept_established c = record c { rules = c.rules ++ accept_established ∷ [] }
  run_line (accept_dns q server) c = record c { rules = c.rules ++ accept_dns q server ∷ [] }
  run_line (accept_to cidr) c = record c { rules = c.rules ++ accept_to cidr ∷ [] }

  abbrev pub run_lines : List Line → Chain → Chain
  run_lines [] c = c
  run_lines (l ∷ rest) c = run_lines rest (run_line l c)

  abbrev pub to_dns : List String → Bool
  to_dns [] = false
  to_dns (server ∷ rest) = inside server p.destination || to_dns rest

  abbrev pub to_cidr : List String → Bool
  to_cidr [] = false
  to_cidr (cidr ∷ rest) = inside cidr p.destination || to_cidr rest

  any_match-append : (xs ys : List Line) → any_match (xs ++ ys) ≡ (any_match xs || any_match ys)
  any_match-append [] ys = refl
  any_match-append (x ∷ xs) ys = ground (arith, any_match-append xs ys)

  run_lines-append :
      (xs ys : List Line) (c : Chain) → run_lines (xs ++ ys) c ≡ run_lines ys (run_lines xs c)
  run_lines-append [] ys c = refl
  run_lines-append (x ∷ xs) ys c = run_lines-append xs ys (run_line x c)

  abbrev pub asks_dns : Bool
  asks_dns = (same_protocol p.protocol udp || same_protocol p.protocol tcp) && nat_beq p.port 53

  run_dns :
      (servers : List String) (c : Chain)
      → lets_out (run_lines (dns_lines servers) c) ≡ (lets_out c || (asks_dns && to_dns servers))
  unfolding dns_lines
  run_dns [] c = ground arith
  run_dns (s ∷ rest) c =
      let c1 = run_line (accept_dns udp s) c in
      let c2 = run_line (accept_dns tcp s) c1 in
      run_dns rest c2
      ∙ two_dns (any_match c.rules) (is_accept c.by_default) (same_protocol p.protocol udp)
          (same_protocol p.protocol tcp) (nat_beq p.port 53) (inside s p.destination) (to_dns rest)
          _
          (any_match-append c1.rules (accept_dns tcp s ∷ [])
            ∙ ap (λ b. b || any_match (accept_dns tcp s ∷ []))
                (any_match-append c.rules (accept_dns udp s ∷ [])))

  run_cidrs :
      (cidrs : List String) (c : Chain)
      → lets_out (run_lines (cidr_lines cidrs) c)
        ≡ (lets_out c || (contains "0.0.0.0/0" cidrs || to_cidr cidrs))
  unfolding cidr_lines
  run_cidrs [] c = ground arith
  run_cidrs (cidr ∷ rest) c = elim (Bool-cases (cidr == "0.0.0.0/0")) [
    | inl e ↦
        let same : ("0.0.0.0/0" == cidr) ≡ true =
          (string_eq.beq_iff _ _).1 (sym ((string_eq.beq_iff cidr "0.0.0.0/0").0 e)) in
        rw (e, same)
          (accept_all (any_match c.rules) (is_accept c.by_default) (to_cidr (cidr ∷ rest)))
    | inr e ↦
        let differs : ("0.0.0.0/0" == cidr) ≡ false =
          ground (arith, string_eq.beq_iff cidr "0.0.0.0/0", string_eq.beq_iff "0.0.0.0/0" cidr) in
        rw (e, differs)
          (run_cidrs rest (run_line (accept_to cidr) c)
            ∙ one_cidr (any_match c.rules) (is_accept c.by_default) (inside cidr p.destination)
                (contains "0.0.0.0/0" rest) (to_cidr rest) _
                (any_match-append c.rules (accept_to cidr ∷ [])))
  ]

  middle-nothing : (cidrs : List String) (c : Chain) → run_lines (middle_lines cidrs) c ≡ c
  middle-nothing [] c = refl
  middle-nothing (cidr ∷ rest) c = refl

  -- Whatever the chain was before, after the script a packet is let out exactly when it stays on the
  -- loopback interface, belongs to an established connection, goes to port 53 of an approved DNS
  -- server by UDP or TCP, or goes to an allowed range, of which 0.0.0.0/0 is everything.
  pub lets_out-build_rules :
      (policy : EgressPolicy) (before : Chain)
      → lets_out (run_lines (build_rules policy) before) ≡ (
          ((p.loopback || p.established) || (asks_dns && to_dns policy.dns_servers))
          || (contains "0.0.0.0/0" policy.allowed_cidrs || to_cidr policy.allowed_cidrs))
  unfolding build_rules
  lets_out-build_rules policy before =
      let start : Chain = record {
        by_default = drop;
        rules = accept_loopback ∷ accept_established ∷ [];
      } in
      let dns = dns_lines policy.dns_servers in
      let cidrs = cidr_lines policy.allowed_cidrs in
      let middle = middle_lines policy.allowed_cidrs in
      let listed = contains "0.0.0.0/0" policy.allowed_cidrs || to_cidr policy.allowed_cidrs in
      ap lets_out (
        run_lines-append dns (middle ++ cidrs) start
        ∙ run_lines-append middle cidrs (run_lines dns start)
        ∙ ap (run_lines cidrs) (middle-nothing policy.allowed_cidrs (run_lines dns start)))
      ∙ run_cidrs policy.allowed_cidrs (run_lines dns start)
      ∙ ap (λ b. b || listed)
          (run_dns policy.dns_servers start
            ∙ ap (λ b. b || (asks_dns && to_dns policy.dns_servers))
                (start_lets_out p.loopback p.established))
