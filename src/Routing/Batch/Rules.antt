-- ===== src/Routing/Batch/Rules.antt =====
-- What one step of the batch pass does, and the rule for an invariant of the pass.
use tacktcix.Prelude.{
  ℕ, ◌≡◌, true, false, none, some, List, [], ◌∷◌, ◌++◌, nat_eq, All, Bool-cases, Option-cases, inl,
  inr, subst,
}
use mathlib.Core.Option.{some-injective}
use tacktcix.Prelude.Dict.{Dict, lookup, insert}
use tacktcix.Prelude.Float.{Float}
use tacktcix.Prelude.Int.{ℤ, pos, ◌+ℤ◌}
use tacktcix.Prelude.Outcome.{ok, ok-injective, raise, key_error, >>=-eq-ok}
use tacktcix.Prelude.Sorting.{sort-All, All-sort}
use tacktcix.Agents.{Agent, AgentRouteRequest}
use tacktcix.Routing.Scores.{Scored, score_agent}
use tacktcix.Routing.Select.{
  score_free, best_of, best_free, is_saturated, select_best_with_load, to_result,
}
use tacktcix.Routing.Batch.{RoutePass, bump, route_one, route_each}

module _ {f : Float} where
  score_free-All {κ} :
      (P : Agent f → Type κ) (r : AgentRouteRequest f) (table : Dict ℕ ℤ) (cs : List (Agent f))
      → All P cs
      → All (λ s. P s.agent × (is_saturated table s.agent ≡ false)) (score_free r table cs)
  unfolding score_free score_agent
  score_free-All P r table [] h = tt
  score_free-All P r table (a ∷ cs) h = elim (Bool-cases (is_saturated table a)) [
    | inl full ↦ rw full (score_free-All P r table cs h.1)
    | inr free ↦ rw free ((h.0, free), score_free-All P r table cs h.1)
  ]

  pub best_of-All {κ} :
      (P : Scored f → Type κ) (xs : List (Scored f)) {x : Scored f}
      → All P xs
      → best_of xs ≡ some x
      → P x
  unfolding best_of
  best_of-All P [] h e = cc
  best_of-All P (x ∷ xs) {x = y} h e = subst P (some-injective x y e) h.0

  -- The chosen agent is one of the candidates, and it is not saturated.
  pub best_free-All {κ} :
      (P : Agent f → Type κ) (r : AgentRouteRequest f) (cs : List (Agent f)) (table : Dict ℕ ℤ)
      {s : Scored f}
      → All P cs
      → best_free r cs table ≡ some s
      → P s.agent × (is_saturated table s.agent ≡ false)
  unfolding best_free
  best_free-All P r cs table h e =
      best_of-All (λ s. P s.agent × (is_saturated table s.agent ≡ false)) _
        (sort-All _ _ _ (score_free-All P r table cs h)) e

  none_free :
      (r : AgentRouteRequest f) (table : Dict ℕ ℤ) (cs : List (Agent f))
      → All (λ s. ⊥) (score_free r table cs)
      → All (λ a. is_saturated table a ≡ true) cs
  unfolding score_free
  none_free r table [] h = tt
  none_free r table (a ∷ cs) h = elim (Bool-cases (is_saturated table a)) [
    | inl full ↦ (full, none_free r table cs (rw full at h))
    | inr free ↦ absurd ((rw free at h).0)
  ]

  pub best_of-none : (xs : List (Scored f)) → best_of xs ≡ none → All (λ s. ⊥) xs
  unfolding best_of
  best_of-none [] e = tt
  best_of-none (x ∷ xs) e = cc

  -- Nothing is chosen only where every candidate is saturated.
  pub best_free-none :
      (r : AgentRouteRequest f) (cs : List (Agent f)) (table : Dict ℕ ℤ)
      → best_free r cs table ≡ none
      → All (λ a. is_saturated table a ≡ true) cs
  unfolding best_free
  best_free-none r cs table e = none_free r table cs (All-sort _ _ _ (best_of-none _ e))

  -- The two ways in which the loop's body ends.
  pub data RouteStep (cs : List (Agent f)) (r : AgentRouteRequest f) (p p' : RoutePass f)
      : Type 0 where
    skipped :
        best_free r cs p.virtual_load ≡ none
        → p' ≡ record p { unassigned = p.unassigned ++ r.task_title ∷ [] }
        → RouteStep cs r p p'
    assigned :
        (s : Scored f) (v : ℤ)
        → best_free r cs p.virtual_load ≡ some s
        → lookup s.agent.id p.virtual_load ≡ some v
        → p' ≡ record p {
          virtual_load = insert s.agent.id (v +ℤ pos 1) p.virtual_load;
          assignments =
              p.assignments ++ (record (to_result s) { task_title = some r.task_title }) ∷ [];
        }
        → RouteStep cs r p p'

  select-none :
      (r : AgentRouteRequest f) (cs : List (Agent f)) (table : Dict ℕ ℤ)
      → best_free r cs table ≡ none
      → select_best_with_load r cs table ≡ none
  unfolding select_best_with_load
  select-none r cs table e = rw (e, select_best_with_load)

  select-some :
      (r : AgentRouteRequest f) (cs : List (Agent f)) (table : Dict ℕ ℤ) {s : Scored f}
      → best_free r cs table ≡ some s
      → select_best_with_load r cs table ≡ some (to_result s)
  unfolding select_best_with_load
  select-some r cs table e = rw (e, select_best_with_load)

  module _ (cs : List (Agent f)) (r : AgentRouteRequest f) (p : RoutePass f) where
    pub route_one-skipped :
        best_free r cs p.virtual_load ≡ none
        → route_one cs r p ≡ ok (record p { unassigned = p.unassigned ++ r.task_title ∷ [] })
    unfolding route_one
    route_one-skipped e = rw (select-none r cs p.virtual_load e, route_one)

    abbrev pub after_choice : Scored f → ℤ → RoutePass f
    after_choice s v = record p {
      virtual_load = insert s.agent.id (v +ℤ pos 1) p.virtual_load;
      assignments = p.assignments ++ (record (to_result s) { task_title = some r.task_title }) ∷ [];
    }

    pub route_one-assigned :
        (s : Scored f) (v : ℤ)
        → best_free r cs p.virtual_load ≡ some s
        → lookup s.agent.id p.virtual_load ≡ some v
        → route_one cs r p ≡ ok (after_choice s v)
    unfolding route_one to_result
    route_one-assigned s v e found =
        rw (select-some r cs p.virtual_load e, route_one) (rw (found, bump, to_result))

    route_one-missing :
        (s : Scored f)
        → best_free r cs p.virtual_load ≡ some s
        → lookup s.agent.id p.virtual_load ≡ none
        → route_one cs r p ≡ raise key_error
    unfolding route_one to_result
    route_one-missing s e missing =
        rw (select-some r cs p.virtual_load e, route_one) (rw (missing, bump, to_result))

    -- Every run of the body that does not raise is such a step.
    route_one-RouteStep : {p' : RoutePass f} → route_one cs r p ≡ ok p' → RouteStep cs r p p'
    route_one-RouteStep h = elim (Option-cases (best_free r cs p.virtual_load)) [
      | inl e ↦ skipped e (cc (route_one-skipped e))
      | inr (s, e) ↦ elim (Option-cases (lookup s.agent.id p.virtual_load)) [
        | inl missing ↦ absurd (cc (route_one-missing s e missing))
        | inr (v, found) ↦ assigned s v e found (cc (route_one-assigned s v e found))
      ]
    ]

  -- The rule for an invariant of the loop; it may speak of the requests that are still to come.
  pub route_each_ind {κ} :
      (cs : List (Agent f)) (P : List (AgentRouteRequest f) → RoutePass f → Type κ)
      → ((r : AgentRouteRequest f) (rs : List (AgentRouteRequest f)) (p p' : RoutePass f)
          → RouteStep cs r p p'
          → P (r ∷ rs) p
          → P rs p')
      → (rs : List (AgentRouteRequest f)) (p : RoutePass f) {q : RoutePass f} → P rs p
      → route_each cs rs p ≡ ok q
      → P [] q
  unfolding route_each
  route_each_ind cs P step [] p h e = subst (P []) (ok-injective e) h
  route_each_ind cs P step (r ∷ rs) p h e =
      let (p', one, more) = >>=-eq-ok (route_one cs r p) (route_each cs rs) e in
      route_each_ind cs P step rs p' (step r rs p p' (route_one-RouteStep cs r p one) h) more
