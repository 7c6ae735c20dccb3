-- ===== src/Permissions/Network.antt =====
-- Which network targets an agent may reach (src/permissions.py).
use tacktcix.Prelude.{
  true_not_false, ◌≡◌, refl, sym, ap, subst, ◌∙◌, ◌↔◌, String, Bool, true, false, none, some, List,
  [], ◌∷◌, arith, Bool-cases, Option-cases, inl, inr, contains, string_eq, ◌==◌, ◌||◌, ◌&&◌,
  filter_by,
}
use tacktcix.Prelude.Text.{has_substring}
use tacktcix.Permissions.{
  PermissionsEngine, PermissionResult, get_capabilities, opens, first_opening, capability_prefix,
  validate_network_access,
}
use text.Mathlib.Text.{starts_with}
use text.Mathlib.TextEquality.{starts_with_iff}
use text.Mathlib.TextPositions.{slice-append_right, len-append}
use text.Mathlib.TextLemmas.{append_cancel_left}
use Prim.Native.String.{slice, len, ◌++◌}

abbrev pub names_github : String → Bool
names_github target = has_substring "github.com" target || has_substring "github" target

same_Bool : {a b : Bool} → (a ≡ true → b ≡ true) → (b ≡ true → a ≡ true) → a ≡ b
same_Bool f g = ground (arith, f, g)

after_prefix :
    (rest : String)
    → slice (capability_prefix ++ rest) (len capability_prefix) (len (capability_prefix ++ rest))
      ≡ rest
after_prefix rest =
    rw (len-append capability_prefix rest) (slice-append_right capability_prefix rest)

-- A capability with the prefix whose rest is `github` is one capability.
github_rest :
    (rest : String)
    → (slice (capability_prefix ++ rest) (len capability_prefix) (len (capability_prefix ++ rest))
        == "github")
      ≡ ("net.outbound_github" == (capability_prefix ++ rest))
github_rest rest =
    same_Bool
      (λ h. (string_eq.beq_iff _ _).1 (
        sym (
          ap (λ s. capability_prefix ++ s)
            (sym (after_prefix rest) ∙ (string_eq.beq_iff _ _).0 h))))
      (λ h. (string_eq.beq_iff _ _).1 (
        after_prefix rest
        ∙ append_cancel_left capability_prefix rest "github" (sym ((string_eq.beq_iff _ _).0 h))))

opens-github :
    (target cap : String)
    → starts_with cap capability_prefix ≡ true
    → opens target cap ≡ (("net.outbound_github" == cap) && names_github target)
unfolding opens
opens-github target cap h =
    let (rest, whole) = (starts_with_iff cap capability_prefix).0 h in
    ap (λ b. b && names_github target)
      (subst
        (λ c. (slice c (len capability_prefix) (len c) == "github") ≡ ("net.outbound_github" == c))
        whole (github_rest rest))

-- Among the network capabilities, one opens the target exactly when the GitHub capability is there.
first_opening-github :
    (target : String) (caps : List String)
    → elim (first_opening target (filter_by (λ c. starts_with c capability_prefix) caps)) [
      | none ↦ false
      | some _ ↦ true
    ]
      ≡ (contains "net.outbound_github" caps && names_github target)
unfolding first_opening
first_opening-github target [] = refl
first_opening-github target (cap ∷ rest) = elim (Bool-cases (starts_with cap capability_prefix)) [
  | inl e ↦ rw e (ground (arith, opens-github target cap e, first_opening-github target rest))
  | inr e ↦ rw e (elim (Bool-cases ("net.outbound_github" == cap)) [
    | inl q ↦ absurd (
        true_not_false
          (subst (λ c. starts_with c capability_prefix ≡ true)
            ((string_eq.beq_iff "net.outbound_github" cap).0 q) refl)
          e)
    | inr q ↦ rw q (first_opening-github target rest)
  ])
]

-- An agent's access to a target is allowed exactly when its type, or the defaults, list the capability
-- for all targets, or list the one for GitHub and the target's name contains `github.com` or `github`.
pub validate_network_access-allows :
    (p : PermissionsEngine) (agent_type agent_id target : String)
    → ((validate_network_access p agent_type agent_id target).result ≡ PermissionResult.allowed) ↔ (
        (contains "net.outbound_all" (get_capabilities p agent_type)
          || (contains "net.outbound_github" (get_capabilities p agent_type)
              && names_github target))
        ≡ true)
unfolding validate_network_access
validate_network_access-allows p agent_type agent_id target =
    let caps = get_capabilities p agent_type in
    let github = first_opening-github target caps in
    let opening = first_opening target (filter_by (λ c. starts_with c capability_prefix) caps) in
    elim (Bool-cases (contains "net.outbound_all" caps)) [
      | inl e ↦ rw (e, validate_network_access) (λ _. refl, λ _. refl)
      | inr e ↦ elim (Option-cases opening) [
        | inl k ↦ rw (← github, e, validate_network_access, k) (λ h. cc, λ h. cc)
        | inr (cap, k) ↦ rw (← github, e, validate_network_access, k) (λ _. refl, λ _. refl)
      ]
    ]
