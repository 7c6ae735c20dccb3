-- ===== src/Routing/Batch.antt =====
-- TaskOrchestrator.batch_route_tasks of backend/app/services/task_orchestrator_service.py: several
-- tasks in one pass, each routed under the load that the earlier ones will have made.
pub mod Rules
pub mod Total
pub mod Titles
pub mod Loads
use tacktcix.Prelude.{
  ℕ, String, Bool, Option, none, some, List, [], ◌∷◌, ◌++◌, map, length, string_eq, nat_eq, leb,
}
use tacktcix.Prelude.Dict.{Dict, get_or, lookup, insert}
use tacktcix.Prelude.Float.{Float}
use tacktcix.Prelude.Int.{ℤ, pos, ◌+ℤ◌}
use tacktcix.Prelude.Outcome.{Outcome, ok, raise, key_error, ◌>>=◌}
use tacktcix.Prelude.Sorting.{sort}
use tacktcix.Agents.{Agent, AgentRouteRequest, AgentRouteResult, BatchRouteResponse}
use tacktcix.Registry.{Backend, emit, batch_routed}
use tacktcix.Routing.Select.{select_best_with_load, healthy_candidates}

priority_sort : Dict String ℕ
priority_sort = ("high", 0) ∷ ("medium", 1) ∷ ("low", 2) ∷ []

unfoldable pub priority_rank : String → ℕ
unfolding priority_sort
priority_rank priority = get_or priority 1 priority_sort

pub record RoutePass (f : Float) : Type 0 where
  pub virtual_load : Dict ℕ ℤ
  pub assignments : List (AgentRouteResult f)
  pub unassigned : List String

-- `virtual_load[id] += 1`
unfoldable pub bump : ℕ → Dict ℕ ℤ → Outcome (Dict ℕ ℤ)
bump id table = elim (lookup id table) [
  | none ↦ raise key_error
  | some v ↦ ok (insert id (v +ℤ pos 1) table)
]

module _ {f : Float} where
  abbrev pub by_priority : AgentRouteRequest f → AgentRouteRequest f → Bool
  by_priority r t = leb (priority_rank r.priority) (priority_rank t.priority)

  -- `{a.id: a.current_load for a in candidates}`
  unfoldable pub load_table : List (Agent f) → Dict ℕ ℤ → Dict ℕ ℤ
  load_table [] table = table
  load_table (a ∷ candidates) table = load_table candidates (insert a.id a.current_load table)

  unfoldable pub route_one :
      List (Agent f) → AgentRouteRequest f → RoutePass f → Outcome (RoutePass f)
  unfolding bump
  route_one candidates r p = elim (select_best_with_load r candidates p.virtual_load) [
    | none ↦ ok (record p { unassigned = p.unassigned ++ r.task_title ∷ [] })
    | some best ↦ bump best.agent_id p.virtual_load >>= λ table. ok (record p {
      virtual_load = table;
      assignments = p.assignments ++ (record best { task_title = some r.task_title }) ∷ [];
    })
  ]

  unfoldable pub route_each :
      List (Agent f) → List (AgentRouteRequest f) → RoutePass f → Outcome (RoutePass f)
  unfolding route_one
  route_each candidates [] p = ok p
  route_each candidates (r ∷ rs) p = route_one candidates r p >>= route_each candidates rs

  abbrev pub start : List (Agent f) → RoutePass f
  start candidates = record {
    virtual_load = load_table candidates [];
    assignments = [];
    unassigned = [];
  }

  -- The pass over the candidates, before the event is published.
  unfoldable pub route_batch :
      List (Agent f) → List (AgentRouteRequest f) → Outcome (BatchRouteResponse f)
  unfolding route_each
  route_batch [] requests =
      ok (record { assignments = []; unassigned = map (λ r. r.task_title) requests })
  route_batch (c ∷ cs) requests =
      route_each (c ∷ cs) (sort by_priority requests) (start (c ∷ cs)) >>= λ p.
      ok (record { assignments = p.assignments; unassigned = p.unassigned })

  -- No event is published where there is no candidate.
  unfoldable pub publish_batch :
      ℕ → List (Agent f) → List (AgentRouteRequest f) → BatchRouteResponse f → Backend f → Backend f
  unfolding emit
  publish_batch company [] requests response s = s
  publish_batch company (c ∷ cs) requests response s =
      emit
        (batch_routed company (length requests) (length response.assignments) response.unassigned) s

  unfoldable pub batch_route_tasks :
      (List (Agent f) → List (Agent f))
      → ℕ
      → List (AgentRouteRequest f)
      → Backend f
      → Outcome (BatchRouteResponse f × Backend f)
  unfolding route_batch publish_batch
  batch_route_tasks by_role company requests s =
      let candidates = healthy_candidates by_role company none s in
      route_batch candidates requests >>= λ response.
      ok (response, publish_batch company candidates requests response s)
