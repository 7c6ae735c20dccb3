-- ===== src/AppArmor/Options.antt =====
-- The security options of a container name a profile that exists, and every profile's text denies the
-- protected paths (src/sandbox/apparmor.py, src/container_runtime.py).
use tacktcix.Prelude.{
  ◌≡◌, refl, sym, subst, ap, ◌⊎◌, ◌∙◌, String, Bool, true, false, Option, none, some, List, [], ◌∷◌,
  ◌++◌, map, arith, Bool-cases, inl, inr, ◌==◌, string_eq, contains, contains-append, if◌then◌else◌,
}
use tacktcix.Prelude.Dict.{Dict, lookup, has_key, insert, lookup-insert}
use tacktcix.Prelude.Text.{◌+ₛ◌}
use tacktcix.AppArmor.Kinds.{AppArmorCapability}
use tacktcix.AppArmor.Tables.{agent_linux_capabilities, always_deny_paths}
use tacktcix.AppArmor.{
  AppArmorProfile, build_agent_profile, build_fallback_profile, is_known, profile_name,
  get_agent_profile, get_apparmor_opts, get_default_opt, add_profiles, opts_of, get_all_profiles,
  to_docker_security_opt, build_security_opts, profile_lines, deny_lines, opening_lines,
  network_lines, last_lines,
}

lookup-add_profiles :
    (t : String) (table : List (String × List AppArmorCapability))
    (profiles : Dict String AppArmorProfile)
    → lookup t (add_profiles table profiles)
      ≡ (if has_key t table then some (build_agent_profile t) else lookup t profiles)
unfolding add_profiles
lookup-add_profiles t [] profiles = refl
lookup-add_profiles t ((k, caps) ∷ rest) profiles =
    lookup-add_profiles t rest (insert k (build_agent_profile k) profiles)
    ∙ rw (lookup-insert k t (build_agent_profile k) profiles) (elim (Bool-cases (t == k)) [
      | inl e ↦
          rw (e, has_key)
            (elim (Bool-cases (has_key t rest)) [
              | inl h ↦ rw h refl
              | inr h ↦
                  rw h (ap (λ x. some (build_agent_profile x)) (sym ((string_eq.beq_iff t k).0 e)))
            ])
      | inr e ↦ rw (e, has_key) refl
    ])

lookup-all_profiles :
    (t : String)
    → lookup t get_all_profiles ≡ (
        if is_known t
        then some (build_agent_profile t)
        else lookup t (("default", build_fallback_profile) ∷ []))
unfolding get_all_profiles is_known
lookup-all_profiles t =
    lookup-add_profiles t agent_linux_capabilities (("default", build_fallback_profile) ∷ [])

listed : (t : String) → is_known t ≡ true → has_key t get_all_profiles ≡ true
listed t known =
    let found : lookup t get_all_profiles ≡ some (build_agent_profile t) =
      lookup-all_profiles t ∙ rw known refl in
    ap (λ o. elim o [ none ↦ false | some _ ↦ true ]) found

opts_of-known :
    (b : Bool) (t : String)
    → b ≡ true
    → is_known t ≡ true
    → opts_of b t ≡ to_docker_security_opt (build_agent_profile t) ∷ []
unfolding opts_of get_apparmor_opts get_agent_profile
opts_of-known b t h known = rw (h, known, get_apparmor_opts, get_agent_profile) refl

opts_of-unknown :
    (b : Bool) (t : String)
    → is_known t ≡ false
    → opts_of b t ≡ to_docker_security_opt build_fallback_profile ∷ []
unfolding opts_of get_apparmor_opts get_agent_profile get_default_opt
opts_of-unknown true t unknown = rw (unknown, get_apparmor_opts, get_agent_profile) refl
opts_of-unknown false t unknown = refl

-- The types of agent that have a profile of their own.
abbrev pub agent_types : List String
agent_types = "coder" ∷ "devops" ∷ "qa" ∷ "securityengineer" ∷ "explore" ∷ []

has_key-contains :
    {A : Type 0} (k : String) (d : Dict String A) → has_key k d ≡ contains k (map (λ e. e.0) d)
has_key-contains k [] = refl
has_key-contains k ((j, x) ∷ d) = elim (Bool-cases (k == j)) [
  | inl e ↦ rw (e, has_key) refl
  | inr e ↦ rw (e, has_key) (has_key-contains k d)
]

is_known-contains : (t : String) → is_known t ≡ contains t agent_types
unfolding is_known agent_linux_capabilities
is_known-contains t = has_key-contains t agent_linux_capabilities

-- With AppArmor, the options of a container forbid new privileges and name one profile, which the
-- manager has: for one of the five listed types of agent that type's own profile, and for no type or any
-- other the default profile.
pub build_security_opts_profile :
    (agent_type : Option String)
    → ((t : String) × (agent_type ≡ some t)
        × (contains t agent_types ≡ true)
        × (lookup t get_all_profiles ≡ some (build_agent_profile t))
        × ((build_agent_profile t).name ≡ "paperclip-execution-" +ₛ t)
        × (build_security_opts true agent_type
            ≡ "no-new-privileges:true" ∷ ("apparmor=" +ₛ ("paperclip-execution-" +ₛ t)) ∷ []))
      ⊎ (((t : String) → agent_type ≡ some t → contains t agent_types ≡ false)
          × (lookup "default" get_all_profiles ≡ some build_fallback_profile)
          × (build_fallback_profile.name ≡ "paperclip-execution-default")
          × (build_security_opts true agent_type
              ≡ "no-new-privileges:true" ∷ "apparmor=paperclip-execution-default" ∷ []))
unfolding build_security_opts build_agent_profile profile_name to_docker_security_opt
    build_fallback_profile get_default_opt
build_security_opts_profile none = inr (λ t e. absurd (cc e), refl, refl, refl)
build_security_opts_profile (some t) = elim (Bool-cases (is_known t)) [
  | inl known ↦ inl (
    t,
    refl,
    sym (is_known-contains t) ∙ known,
    lookup-all_profiles t ∙ rw known refl,
    refl,
    ap (◌∷◌ "no-new-privileges:true") (opts_of-known _ t (listed t known) known),
  )
  | inr unknown ↦ inr (
    λ u e.
        let same : t ≡ u = cc e in
        subst (λ x. contains x agent_types ≡ false) same (sym (is_known-contains t) ∙ unknown),
    refl,
    refl,
    ap (◌∷◌ "no-new-privileges:true") (opts_of-unknown _ t unknown),
  )
]

contains-left :
    (x : String) (xs ys : List String) → contains x xs ≡ true → contains x (xs ++ ys) ≡ true
contains-left x xs ys h = ground (arith, contains-append x xs ys, h)

contains-right :
    (x : String) (xs ys : List String) → contains x ys ≡ true → contains x (xs ++ ys) ≡ true
contains-right x xs ys h = ground (arith, contains-append x xs ys, h)

contains-map :
    (g : String → String) (x : String) (xs : List String)
    → contains x xs ≡ true
    → contains (g x) (map g xs) ≡ true
contains-map g x [] h = cc
contains-map g x (y ∷ ys) h = elim (Bool-cases (x == y)) [
  | inl e ↦ rw ((string_eq.beq_iff (g x) (g y)).1 (ap g ((string_eq.beq_iff x y).0 e))) refl
  | inr e ↦ ground (arith, contains-map g x ys (rw e at h))
]

contains-later :
    (x a b : String) (xs : List String) → contains x xs ≡ true → contains x (a ∷ b ∷ xs) ≡ true
contains-later x a b xs h = ground (arith, h)

in_last :
    (p : AppArmorProfile) (x : String)
    → contains x last_lines ≡ true
    → contains x (profile_lines p) ≡ true
unfolding profile_lines
in_last p x h =
    contains-right x (opening_lines p) _ (
      contains-right x deny_lines _ (contains-right x (network_lines p.network_rules) last_lines h))

abbrev pub deny_line : String → String
deny_line path = "  deny " +ₛ path +ₛ ","

-- The text of every profile has a line that denies each of the protected paths, and lines that deny
-- mounting, unmounting and changing the root.
profile_lines-denies :
    (p : AppArmorProfile) (path : String)
    → contains path always_deny_paths ≡ true
    → (contains (deny_line path) (profile_lines p) ≡ true)
      × (contains "  deny mount," (profile_lines p) ≡ true)
      × (contains "  deny umount," (profile_lines p) ≡ true)
      × (contains "  deny pivot_root," (profile_lines p) ≡ true)
unfolding profile_lines deny_lines
profile_lines-denies p path h =
    let denied =
      contains-later (deny_line path) "" "  # Explicitly denied paths"
        (map deny_line always_deny_paths) (contains-map deny_line path always_deny_paths h) in
    (
      contains-right (deny_line path) (opening_lines p) _
          (contains-left (deny_line path) deny_lines _ denied),
      in_last p "  deny mount," refl,
      in_last p "  deny umount," refl,
      in_last p "  deny pivot_root," refl,
    )
