-- ===== src/Routing/Best.antt =====
-- The selected agent is the best of the candidates.
use mathlib.Core.Option.{some-injective}
use tacktcix.Prelude.{
  ℕ, ◌≡◌, refl, ap, true, false, some, List, [], ◌∷◌, map, arith, All, All-map_weaken, Bool-cases,
  Option-cases, inl, inr, contains, nat_eq, true_not_false, eq_refl,
}
use tacktcix.Prelude.Dict.{Dict}
use tacktcix.Prelude.Float.{Float}
use tacktcix.Prelude.Int.{ℤ, ◌≤ℤ◌}
use tacktcix.Prelude.Outcome.{ok}
use tacktcix.Prelude.Sorting.{Preorder, sort, head-sort, sort-All, All-sort}
use tacktcix.Agents.{Agent, AgentRouteRequest}
use tacktcix.Routing.Scores.{Scored, score_agent}
use tacktcix.Routing.Batch.Rules.{best_of-none, best_of-All}
use tacktcix.Routing.Select.{
  by_score, score_all, score_free, best_of, best_free, select_best, to_result, effective_load,
  is_saturated,
}

-- Comparison of floats is total and transitive where no NaN occurs.
pub record FloatOrder (f : Float) : Type 0 where
  pub total : (a b : f.F) → f.le a b ≡ false → f.le b a ≡ true
  pub trans : (a b c : f.F) → f.le a b ≡ true → f.le b c ≡ true → f.le a c ≡ true

module _ {f : Float} where
  -- `s` is at least as good as the agent `a` would be: a higher total, or the same and no higher load.
  abbrev pub IsAtLeast : AgentRouteRequest f → (Agent f → ℤ) → Scored f → Agent f → Type 0
  IsAtLeast r load s a =
      let t = score_agent f r a (load a) in
      (f.le t.total s.total ≡ true) × (f.le s.total t.total ≡ true → load s.agent ≤ℤ load a)

  by_score-IsAtLeast :
      (r : AgentRouteRequest f) (load : Agent f → ℤ) (s : Scored f) (a : Agent f)
      → by_score load s (score_agent f r a (load a)) ≡ true
      → IsAtLeast r load s a
  unfolding score_agent
  by_score-IsAtLeast r load s a h = ground arith

  All-score_all {κ} :
      (P : Scored f → Type κ) (r : AgentRouteRequest f) (cs : List (Agent f))
      → All P (score_all cs r)
      → All (λ a. P (score_agent f r a a.current_load)) cs
  unfolding score_all
  All-score_all P r [] h = tt
  All-score_all P r (a ∷ cs) h = (h.0, All-score_all P r cs h.1)

  score_all-All {κ} :
      (P : Scored f → Type κ) (r : AgentRouteRequest f) (cs : List (Agent f))
      → All (λ a. P (score_agent f r a a.current_load)) cs
      → All P (score_all cs r)
  unfolding score_all
  score_all-All P r [] h = tt
  score_all-All P r (a ∷ cs) h = (h.0, score_all-All P r cs h.1)

  All-score_free {κ} :
      (P : Scored f → Type κ) (r : AgentRouteRequest f) (table : Dict ℕ ℤ) (cs : List (Agent f))
      → All P (score_free r table cs)
      → All (λ a. is_saturated table a ≡ false → P (score_agent f r a (effective_load table a))) cs
  unfolding score_free
  All-score_free P r table [] h = tt
  All-score_free P r table (a ∷ cs) h = elim (Bool-cases (is_saturated table a)) [
    | inl full ↦
        (λ free. absurd (true_not_false full free), All-score_free P r table cs (rw full at h))
    | inr free ↦ let k = rw free at h in (λ _. k.0, All-score_free P r table cs k.1)
  ]

  -- Each candidate's id is among the candidates' ids.
  ids_contain : (cs : List (Agent f)) → All (λ a. contains a.id (map (λ b. b.id) cs) ≡ true) cs
  ids_contain [] = tt
  ids_contain (c ∷ cs) = (
    rw (eq_refl c.id),
    All-map_weaken (λ a. contains a.id (map (λ b. b.id) cs) ≡ true) _ cs (λ a h. ground arith)
        (ids_contain cs),
  )

  -- A score is one of a candidate, at the candidate's own load.
  abbrev IsScoreOf : AgentRouteRequest f → List (Agent f) → Scored f → Type 0
  IsScoreOf r cs t =
      (contains t.agent.id (map (λ a. a.id) cs) ≡ true)
      × (t ≡ score_agent f r t.agent t.agent.current_load)

  score_all-IsScoreOf :
      (r : AgentRouteRequest f) (cs : List (Agent f)) → All (IsScoreOf r cs) (score_all cs r)
  unfolding score_agent
  score_all-IsScoreOf r cs =
      score_all-All (IsScoreOf r cs) r cs
        (All-map_weaken _ _ cs (λ a h. (h, refl)) (ids_contain cs))

  best_of-head :
      (xs : List (Scored f)) {s : Scored f}
      → best_of xs ≡ some s
      → (rest : List (Scored f)) × (xs ≡ s ∷ rest)
  unfolding best_of
  best_of-head [] e = cc
  best_of-head (x ∷ xs) {s} e = (xs, ap (λ y. y ∷ xs) (some-injective x s e))

  first_exists :
      (r : AgentRouteRequest f) (c : Agent f) (cs : List (Agent f))
      → (s : Scored f) × (best_of (sort (by_score (λ a. a.current_load)) (score_all (c ∷ cs) r))
          ≡ some s)
  unfolding score_all
  first_exists r c cs =
      elim (Option-cases (best_of (sort (by_score (λ a. a.current_load)) (score_all (c ∷ cs) r)))) [
        | inl e ↦ absurd ((All-sort _ _ (score_all (c ∷ cs) r) (best_of-none _ e)).0)
        | inr found ↦ found
      ]

  select_best-first :
      (r : AgentRouteRequest f) (c : Agent f) (cs : List (Agent f)) {s : Scored f}
      → best_of (sort (by_score (λ a. a.current_load)) (score_all (c ∷ cs) r)) ≡ some s
      → select_best r (c ∷ cs) ≡ ok (to_result s)
  unfolding select_best to_result
  select_best-first r c cs e = ground arith

  -- What holds of every candidate holds of the agent that selection returns.
  pub select_best-All {κ} :
      (P : Agent f → Type κ) (r : AgentRouteRequest f) (c : Agent f) (cs : List (Agent f))
      → All P (c ∷ cs)
      → (s : Scored f) × (select_best r (c ∷ cs) ≡ ok (to_result s)) × P s.agent
  unfolding score_agent
  select_best-All P r c cs h =
      let (s, e) = first_exists r c cs in
      (
        s,
        select_best-first r c cs e,
        best_of-All (λ t. P t.agent) _
            (sort-All _ _ _ (score_all-All (λ t. P t.agent) r (c ∷ cs) h)) e,
      )

module _ {f : Float} (o : FloatOrder f) where
  open o use {total, trans}

  -- The sort key (-total, load) is a total order.
  pub by_score-Preorder : (load : Agent f → ℤ) → Preorder (by_score load)
  by_score-Preorder load = record {
    total = λ s t h. ground (arith, total t.total s.total, total s.total t.total);
    trans = λ s t u h k. ground (
      arith,
      trans u.total t.total s.total,
      trans s.total t.total u.total,
      trans t.total s.total u.total,
      trans t.total u.total s.total,
      trans u.total s.total t.total,
      trans s.total u.total t.total,
    );
  }

  -- The first of the sorted scores is at least as good as each of them.
  best_of-sort :
      (load : Agent f → ℤ) (xs : List (Scored f)) {s : Scored f}
      → best_of (sort (by_score load) xs) ≡ some s
      → All (λ t. by_score load s t ≡ true) xs
  best_of-sort load xs e =
      let (rest, sorted) = best_of-head (sort (by_score load) xs) e in
      head-sort (by_score load) (by_score-Preorder load) xs sorted

  -- In the batch pass the chosen agent is, under the virtual loads, at least as good as every
  -- candidate that is not saturated: its total is no lower, and where the totals are equal its load
  -- is no higher.
  pub best_free_best :
      (r : AgentRouteRequest f) (cs : List (Agent f)) (table : Dict ℕ ℤ) {s : Scored f}
      → best_free r cs table ≡ some s
      → All (λ a. is_saturated table a ≡ false → IsAtLeast r (effective_load table) s a) cs
  unfolding best_free
  best_free_best r cs table {s} e =
      All-map_weaken _ _ cs (λ a h free. by_score-IsAtLeast r (effective_load table) s a (h free))
        (All-score_free (λ t. by_score (effective_load table) s t ≡ true) r table cs
          (best_of-sort (effective_load table) _ e))

  -- Selection over candidates, of which there is at least one, returns the result of one of them,
  -- scored at its own load, that is at least as good as every candidate: its total is no lower, and
  -- where the totals are equal its load is no higher.
  pub select_best_best :
      (r : AgentRouteRequest f) (c : Agent f) (cs : List (Agent f))
      → (s : Scored f) × (select_best r (c ∷ cs) ≡ ok (to_result s))
        × (contains s.agent.id (map (λ a. a.id) (c ∷ cs)) ≡ true)
        × (s ≡ score_agent f r s.agent s.agent.current_load)
        × All (IsAtLeast r (λ a. a.current_load) s) (c ∷ cs)
  select_best_best r c cs =
      let load : Agent f → ℤ = λ a. a.current_load in
      let (s, e) = first_exists r c cs in
      let own : IsScoreOf r (c ∷ cs) s =
        best_of-All (IsScoreOf r (c ∷ cs)) _ (sort-All _ _ _ (score_all-IsScoreOf r (c ∷ cs))) e in
      (
        s,
        select_best-first r c cs e,
        own.0,
        own.1,
        All-map_weaken _ _ (c ∷ cs) (by_score-IsAtLeast r load s)
            (All-score_all (λ t. by_score load s t ≡ true) r (c ∷ cs) (best_of-sort load _ e)),
      )
