-- ===== src/Egress/Policy.antt =====
-- What a policy (src/network_egress.py) allows, and that it does not depend on the order in which
-- the set of capabilities is walked.
use tacktcix.Prelude.{
  ◌≡◌, refl, sym, ◌∙◌, String, Bool, true, false, none, some, List, [], ◌∷◌, arith, Bool-cases,
  Option-cases, inl, inr, contains, contains-append, eq_refl, string_eq, ◌||◌,
}
use tacktcix.Prelude.Dict.{lookup}
use tacktcix.Prelude.SortedSet.{sorted_set, contains-sorted_set, sorted_set_unique}
use tacktcix.Prelude.TextOrder.{text_order}
use Prim.Native.String.{compare}
use tacktcix.Egress.{
  NetworkEgressConfig, capability_to_category, resolve_category_cidrs, collect_cidrs,
  resolve_policy,
}

any_of {ℓ} : {A : Type ℓ} → (A → Bool) → List A → Bool
any_of p [] = false
any_of p (x ∷ xs) = p x || any_of p xs

any_of-contains :
    (p : String → Bool) (a : String) (xs : List String)
    → p a ≡ true
    → contains a xs ≡ true
    → any_of p xs ≡ true
unfolding any_of
any_of-contains p a [] h m = cc
any_of-contains p a (x ∷ xs) h m = ground (arith, string_eq.beq_iff a x, any_of-contains p a xs h)

any_of-subset :
    (p : String → Bool) (xs ys : List String)
    → ((a : String) → contains a xs ≡ true → contains a ys ≡ true)
    → any_of p xs ≡ true
    → any_of p ys ≡ true
unfolding any_of
any_of-subset p [] ys sub h = cc
any_of-subset p (x ∷ xs) ys sub h = elim (Bool-cases (p x)) [
  | inl e ↦ any_of-contains p x ys e (sub x (rw (eq_refl x) refl))
  | inr e ↦ any_of-subset p xs ys (λ a m. sub a (ground (arith, m))) (rw e at h)
]

-- The capability's category lists the address range.
pub grants : NetworkEgressConfig → (cidr cap : String) → Bool
grants c cidr cap = elim (lookup cap capability_to_category) [
  | none ↦ false
  | some category ↦ contains cidr (resolve_category_cidrs c category)
]

pub granted : NetworkEgressConfig → (cidr : String) → (caps : List String) → Bool
unfolding any_of
granted c cidr caps = any_of (grants c cidr) caps

among_seen : NetworkEgressConfig → (cidr : String) → (seen : List String) → Bool
unfolding any_of
among_seen c cidr seen = any_of (λ k. contains cidr (resolve_category_cidrs c k)) seen

old_category :
    (r x g a : Bool) → (r ≡ true → a ≡ true) → (x || a) ≡ (g || a) → (x || a) ≡ ((r || g) || a)
old_category true x g a h k = ground (arith, h, k)
old_category false x g a h k = k

new_category :
    (r y g a : Bool) → (y || (r || a)) ≡ (g || (r || a)) → ((r || y) || a) ≡ ((r || g) || a)
new_category true y g a k = refl
new_category false y g a k = k

same_Bool : {a b : Bool} → (a ≡ true → b ≡ true) → (b ≡ true → a ≡ true) → a ≡ b
same_Bool f g = ground (arith, f, g)

collect_cidrs-granted :
    (c : NetworkEgressConfig) (cidr : String) (seen caps : List String)
    → (contains cidr (collect_cidrs c seen caps) || among_seen c cidr seen)
      ≡ (granted c cidr caps || among_seen c cidr seen)
unfolding collect_cidrs granted grants among_seen any_of
collect_cidrs-granted c cidr seen [] = refl
collect_cidrs-granted c cidr seen (cap ∷ caps) =
    elim (Option-cases (lookup cap capability_to_category)) [
      | inl e ↦ rw (e, collect_cidrs, granted, grants) (collect_cidrs-granted c cidr seen caps)
      | inr (category, e) ↦
          let listed = contains cidr (resolve_category_cidrs c category) in
          let among = among_seen c cidr seen in
          elim (Bool-cases (contains category seen)) [
            | inl s ↦
                rw (e, collect_cidrs, granted, grants, s)
                  (old_category listed _ _ among
                    (λ h.
                      any_of-contains (λ k. contains cidr (resolve_category_cidrs c k)) category
                        seen h s)
                    (collect_cidrs-granted c cidr seen caps))
            | inr s ↦
                rw
                  (
                    e,
                    collect_cidrs,
                    granted,
                    grants,
                    s,
                    contains-append cidr (resolve_category_cidrs c category)
                        (collect_cidrs c (category ∷ seen) caps),
                  )
                  (new_category listed _ _ among
                    (collect_cidrs-granted c cidr (category ∷ seen) caps))
          ]
    ]

or_false : (b : Bool) → (b || false) ≡ b
or_false b = ground arith

collected :
    (c : NetworkEgressConfig) (cidr : String) (caps : List String)
    → contains cidr (collect_cidrs c [] caps) ≡ granted c cidr caps
unfolding among_seen granted
collected c cidr caps =
    sym (or_false (contains cidr (collect_cidrs c [] caps)))
    ∙ collect_cidrs-granted c cidr [] caps
    ∙ or_false (granted c cidr caps)

-- Without the capability for everything, an address range is allowed exactly when one of the agent's
-- capabilities names a category that lists it.
pub resolve_policy_allows :
    (c : NetworkEgressConfig) (caps : List String) (cidr : String)
    → contains "net.outbound_all" caps ≡ false
    → contains cidr (resolve_policy c caps).allowed_cidrs ≡ granted c cidr caps
unfolding resolve_policy
resolve_policy_allows c caps cidr h =
    rw h (
      contains-sorted_set compare text_order cidr (collect_cidrs c [] caps) ∙ collected c cidr caps)

granted-same :
    (c : NetworkEgressConfig) (cidr : String) (xs ys : List String)
    → ((a : String) → contains a xs ≡ contains a ys)
    → granted c cidr xs ≡ granted c cidr ys
unfolding granted
granted-same c cidr xs ys same =
    let forth = any_of-subset (grants c cidr) xs ys (λ a m. sym (same a) ∙ m) in
    let back = any_of-subset (grants c cidr) ys xs (λ a m. same a ∙ m) in same_Bool forth back

collected-same :
    (c : NetworkEgressConfig) (xs ys : List String)
    → ((a : String) → contains a xs ≡ contains a ys)
    → sorted_set compare (collect_cidrs c [] xs) ≡ sorted_set compare (collect_cidrs c [] ys)
collected-same c xs ys same =
    sorted_set_unique compare text_order _ _
      (λ cidr. collected c cidr xs ∙ granted-same c cidr xs ys same ∙ sym (collected c cidr ys))

-- Two lists with the same capabilities, whatever their order and however often each is listed, give
-- the same policy, the order of its address ranges included.
pub resolve_policy_order :
    (c : NetworkEgressConfig) (xs ys : List String)
    → ((a : String) → contains a xs ≡ contains a ys)
    → resolve_policy c xs ≡ resolve_policy c ys
unfolding resolve_policy
resolve_policy_order c xs ys same = cc (same "net.outbound_all", collected-same c xs ys same)
