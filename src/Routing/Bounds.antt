-- ===== src/Routing/Bounds.antt =====
-- Every score lies between 0 and 1, as the docstrings of the scoring engine say.
use tacktcix.Prelude.{
  ◌≡◌, String, true, none, some, List, [], ◌∷◌, arith, All, length, subst, if◌then◌else◌,
  Bool-cases, inl, inr, string_eq, ◌==◌,
}
use tacktcix.Prelude.Dict.{Dict, get_or}
use tacktcix.Prelude.Float.{Float, eq_float, max_float, min_float}
use tacktcix.Prelude.FloatLaws.{FloatLaws, NonNeg, InUnit, float_le_refl, mul_nonneg, add_nonneg}
use tacktcix.Prelude.Int.{ℤ, pos, ◌≤ℤ◌, leb_ℤ}
use tacktcix.Agents.{Agent, AgentRouteRequest}
use tacktcix.Routing.Scores.{
  try_entry, partial_match, proficiency, total_proficiency, capability_of, score_capability,
  score_load, score_cost, score_agent, w_capability, w_load, w_cost,
}

-- What the fields of the request and of the agent's row are documented to hold.
pub record IsPlausible {f : Float} (a : Agent f) (r : AgentRouteRequest f) : Type 0 where
  pub load : pos 0 ≤ℤ a.current_load
  pub cost : NonNeg f a.cost_per_task
  pub complexity : NonNeg f r.estimated_complexity
  pub proficiencies : All (λ e. NonNeg f e.1) (elim a.capabilities [ none ↦ [] | some caps ↦ caps ])

module _ {f : Float} (laws : FloatLaws f) where
  open laws use {
    total, trans, lit_nonneg, lit_pos, lit_le_one, lit_le_one', of_int_nonneg, of_int_pos,
    sqrt_nonneg, add_mono, mul_mono, mul_one, sub_anti, sub_zero, sub_self, div_nonneg, weights_sum,
  }

  try_entry_nonneg :
      (domain : String) (prof : f.F) (key : String) (val : f.F)
      → NonNeg f prof
      → NonNeg f val
      → NonNeg f (try_entry f domain prof key val)
  unfolding try_entry
  try_entry_nonneg domain prof key val hp hv =
      ground (arith, mul_nonneg laws val (f.lit 8 1) hv (lit_nonneg 8 1))

  partial_match_nonneg :
      (domain : String) (prof : f.F) (caps : Dict String f.F)
      → NonNeg f prof
      → All (λ e. NonNeg f e.1) caps
      → NonNeg f (partial_match f domain prof caps)
  unfolding partial_match
  partial_match_nonneg domain prof [] hp h = hp
  partial_match_nonneg domain prof ((key, val) ∷ caps) hp h =
      partial_match_nonneg domain (try_entry f domain prof key val) caps
        (try_entry_nonneg domain prof key val hp h.0) h.1

  get_or_nonneg :
      (domain : String) (caps : Dict String f.F)
      → All (λ e. NonNeg f e.1) caps
      → NonNeg f (get_or domain (f.lit 0 0) caps)
  get_or_nonneg domain [] h = lit_nonneg 0 0
  get_or_nonneg domain ((key, val) ∷ caps) h = elim (Bool-cases (domain == key)) [
    | inl e ↦ rw (e, get_or) h.0
    | inr e ↦ rw (e, get_or) (get_or_nonneg domain caps h.1)
  ]

  proficiency_nonneg :
      (caps : Dict String f.F) (d : String)
      → All (λ e. NonNeg f e.1) caps
      → NonNeg f (proficiency f caps d)
  unfolding proficiency
  proficiency_nonneg caps d h =
      let direct = get_or_nonneg d caps h in
      elim (Bool-cases (eq_float f (get_or d (f.lit 0 0) caps) (f.lit 0 0))) [
        | inl e ↦ rw e (partial_match_nonneg d _ caps direct h)
        | inr e ↦ rw e direct
      ]

  total_proficiency_nonneg :
      (caps : Dict String f.F) (sum : f.F) (ds : List String)
      → All (λ e. NonNeg f e.1) caps
      → NonNeg f sum
      → NonNeg f (total_proficiency f caps sum ds)
  unfolding total_proficiency
  total_proficiency_nonneg caps sum [] h hs = hs
  total_proficiency_nonneg caps sum (d ∷ ds) h hs =
      total_proficiency_nonneg caps (f.add sum (proficiency f caps d)) ds h
        (add_nonneg laws sum (proficiency f caps d) hs (proficiency_nonneg caps d h))

  min_one : (x : f.F) → NonNeg f x → InUnit f (min_float f x (f.lit 1 0))
  min_one x h = elim (Bool-cases (f.le x (f.lit 1 0))) [
    | inl e ↦ rw (e, min_float) (h, e)
    | inr e ↦ rw (e, min_float) (lit_nonneg 1 0, float_le_refl laws (f.lit 1 0))
  ]

  capability_of-InUnit :
      (caps : Dict String f.F) (ds : List String)
      → All (λ e. NonNeg f e.1) caps
      → InUnit f (capability_of f caps ds)
  unfolding capability_of
  capability_of-InUnit caps [] h = (lit_nonneg 8 1, lit_le_one)
  capability_of-InUnit [] (d ∷ ds) h = (lit_nonneg 3 1, lit_le_one')
  capability_of-InUnit (c ∷ caps) (d ∷ ds) h = min_one _ (
      div_nonneg _ _ (total_proficiency_nonneg (c ∷ caps) _ (d ∷ ds) h (lit_nonneg 0 0))
        (of_int_pos (pos (length (d ∷ ds))) (omega arith)))

  one_minus : (x : f.F) → NonNeg f x → f.le (f.sub (f.lit 1 0) x) (f.lit 1 0) ≡ true
  one_minus x h =
      subst (λ y. f.le (f.sub (f.lit 1 0) x) y ≡ true) sub_zero
        (sub_anti (f.lit 0 0) x (f.lit 1 0) h)

  one_minus_nonneg : (x : f.F) → f.le x (f.lit 1 0) ≡ true → NonNeg f (f.sub (f.lit 1 0) x)
  one_minus_nonneg x h =
      subst (λ y. f.le y (f.sub (f.lit 1 0) x) ≡ true) sub_self
        (sub_anti x (f.lit 1 0) (f.lit 1 0) h)

  zero-InUnit : InUnit f (f.lit 0 0)
  zero-InUnit = (lit_nonneg 0 0, lit_nonneg 1 0)

  free_share-InUnit :
      (x : f.F)
      → NonNeg f x
      → InUnit f (if f.le (f.lit 1 0) x then f.lit 0 0 else f.sub (f.lit 1 0) x)
  free_share-InUnit x h = elim (Bool-cases (f.le (f.lit 1 0) x)) [
    | inl e ↦ rw e zero-InUnit
    | inr e ↦ rw e (one_minus_nonneg x (total (f.lit 1 0) x e), one_minus x h)
  ]

  score_load-InUnit :
      (a : Agent f) (current : ℤ) → pos 0 ≤ℤ current → InUnit f (score_load f a current)
  unfolding score_load
  score_load-InUnit a current h = elim (Bool-cases (leb_ℤ a.max_concurrent_tasks (pos 0))) [
    | inl e ↦ rw e zero-InUnit
    | inr e ↦ rw e (
        free_share-InUnit _ (
          div_nonneg _ _ (of_int_nonneg current h)
            (of_int_pos a.max_concurrent_tasks (ground arith))))
  ]

  max_zero-InUnit : (x : f.F) → f.le x (f.lit 1 0) ≡ true → InUnit f (max_float f (f.lit 0 0) x)
  max_zero-InUnit x h = elim (Bool-cases (f.le x (f.lit 0 0))) [
    | inl e ↦ rw (e, max_float) zero-InUnit
    | inr e ↦ rw (e, max_float) (total x (f.lit 0 0) e, h)
  ]

  score_cost-InUnit :
      (a : Agent f) (r : AgentRouteRequest f) → IsPlausible a r → InUnit f (score_cost f a r)
  unfolding score_cost
  score_cost-InUnit a r ok = max_zero-InUnit _ (
      one_minus _
        (div_nonneg _ _ (mul_nonneg laws _ _ ok.cost (sqrt_nonneg _ ok.complexity)) (lit_pos 4)))

  weighted :
      (w x : f.F) → NonNeg f w → InUnit f x → NonNeg f (f.mul w x) × (f.le (f.mul w x) w ≡ true)
  weighted w x hw (low, high) = (
    mul_nonneg laws w x hw low,
    subst (λ y. f.le (f.mul w x) y ≡ true) (mul_one w) (mul_mono w x (f.lit 1 0) hw high),
  )

  score_capability-InUnit :
      (a : Agent f) (r : AgentRouteRequest f)
      → IsPlausible a r
      → InUnit f (score_capability f a r.required_domains)
  unfolding score_capability
  score_capability-InUnit a r ok =
      capability_of-InUnit (elim a.capabilities [ none ↦ [] | some caps ↦ caps ]) r.required_domains
        ok.proficiencies

  total-InUnit :
      (cap load cost : f.F)
      → InUnit f cap
      → InUnit f load
      → InUnit f cost
      → InUnit f (
          f.add
            (f.add (f.mul (w_capability f) cap) (f.mul (w_load f) load))
            (f.mul (w_cost f) cost))
  total-InUnit cap load cost h1 h2 h3 =
      let p1 = weighted (w_capability f) cap (lit_nonneg 60 2) h1 in
      let p2 = weighted (w_load f) load (lit_nonneg 25 2) h2 in
      let p3 = weighted (w_cost f) cost (lit_nonneg 15 2) h3 in
      (
        add_nonneg laws _ _ (add_nonneg laws _ _ p1.0 p2.0) p3.0,
        trans _ _ _ (add_mono _ _ _ _ (add_mono _ _ _ _ p1.1 p2.1) p3.1) weights_sum,
      )

  -- For an agent with a load, a cost and proficiencies of at least 0, and a request of a complexity of
  -- at least 0, the capability, the load and the cost score and their weighted total lie between 0 and 1.
  pub score_agent_bounds :
      (a : Agent f) (r : AgentRouteRequest f)
      → IsPlausible a r
      → InUnit f (score_capability f a r.required_domains)
        × InUnit f (score_load f a a.current_load)
        × InUnit f (score_cost f a r)
        × InUnit f (score_agent f r a a.current_load).total
  unfolding score_agent
  score_agent_bounds a r ok =
      let cap = score_capability-InUnit a r ok in
      let load = score_load-InUnit a a.current_load ok.load in
      let cost = score_cost-InUnit a r ok in (cap, load, cost, total-InUnit _ _ _ cap load cost)
