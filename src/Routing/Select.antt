-- ===== src/Routing/Select.antt =====
-- Selection of the best-fit agent, for one task and in a batch
-- (backend/app/services/task_orchestrator_service.py).
use tacktcix.Prelude.{
  ℕ, String, Bool, true, false, Option, none, some, List, [], ◌∷◌, map, if◌then◌else◌, string_eq,
  nat_eq, filter_by, ◌||◌, ◌==◌,
}
use tacktcix.Prelude.Dict.{Dict, get_or}
use tacktcix.Prelude.Float.{Float}
use tacktcix.Prelude.Int.{ℤ, pos, leb_ℤ, ltb_ℤ}
use tacktcix.Prelude.Outcome.{Outcome, ok, raise, index_error, runtime_error}
use tacktcix.Prelude.Sorting.{sort}
use tacktcix.Agents.{Agent, AgentRouteRequest, AgentRouteResult, idle, busy}
use tacktcix.Registry.{Backend, list_agents}
use tacktcix.Routing.Scores.{Scored, score_agent, build_reason}

module _ {f : Float} where
  -- The sort key (-total, load) as an order: higher totals first, then lower loads.
  abbrev pub by_score : (Agent f → ℤ) → Scored f → Scored f → Bool
  by_score load s t =
      if f.le t.total s.total
      then if f.le s.total t.total then leb_ℤ (load s.agent) (load t.agent) else true
      else false

  -- The result made from the first of the sorted scores.
  unfoldable pub to_result : Scored f → AgentRouteResult f
  to_result s = record {
    agent_id = s.agent.id;
    agent_role = s.agent.role;
    agent_name = s.agent.name;
    score = f.round4 s.total;
    breakdown = s.breakdown;
    reason = build_reason f s.agent s.breakdown;
    task_title = none;
  }

  unfoldable pub score_all : List (Agent f) → AgentRouteRequest f → List (Scored f)
  score_all candidates r = map (λ a. score_agent f r a a.current_load) candidates

  unfoldable pub best_of : List (Scored f) → Option (Scored f)
  best_of [] = none
  best_of (s ∷ rest) = some s

  -- `scored[0]` of a list that is not empty.
  unfoldable pub select_best : AgentRouteRequest f → List (Agent f) → Outcome (AgentRouteResult f)
  unfolding score_all best_of to_result
  select_best r [] = raise runtime_error
  select_best r (c ∷ cs) =
      elim (best_of (sort (by_score (λ a. a.current_load)) (score_all (c ∷ cs) r))) [
        | none ↦ raise index_error
        | some s ↦ ok (to_result s)
      ]

  -- `virtual_load.get(agent.id, agent.current_load)`
  abbrev pub effective_load : Dict ℕ ℤ → Agent f → ℤ
  effective_load virtual_load a = get_or a.id a.current_load virtual_load

  abbrev pub is_saturated : Dict ℕ ℤ → Agent f → Bool
  is_saturated virtual_load a =
      if ltb_ℤ (pos 0) a.max_concurrent_tasks
      then leb_ℤ a.max_concurrent_tasks (effective_load virtual_load a)
      else false

  unfoldable pub score_free : AgentRouteRequest f → Dict ℕ ℤ → List (Agent f) → List (Scored f)
  score_free r virtual_load [] = []
  score_free r virtual_load (a ∷ candidates) =
      let rest = score_free r virtual_load candidates in
      if is_saturated virtual_load a
      then rest
      else score_agent f r a (effective_load virtual_load a) ∷ rest

  unfoldable pub best_free : AgentRouteRequest f → List (Agent f) → Dict ℕ ℤ → Option (Scored f)
  unfolding score_free best_of
  best_free r candidates virtual_load =
      best_of (sort (by_score (effective_load virtual_load)) (score_free r virtual_load candidates))

  -- `None` when every candidate is saturated.
  unfoldable pub select_best_with_load :
      AgentRouteRequest f → List (Agent f) → Dict ℕ ℤ → Option (AgentRouteResult f)
  unfolding best_free to_result
  select_best_with_load r candidates virtual_load = elim (best_free r candidates virtual_load) [
    | none ↦ none
    | some s ↦ some (to_result s)
  ]

  -- `_HEALTHY_STATUSES`
  abbrev pub is_healthy : Agent f → Bool
  is_healthy a = a.status == idle || a.status == busy

  unfoldable pub healthy_candidates :
      (List (Agent f) → List (Agent f)) → ℕ → Option String → Backend f → List (Agent f)
  unfolding list_agents
  healthy_candidates by_role company role s =
      filter_by is_healthy (list_agents by_role company role none s)
