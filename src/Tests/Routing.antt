-- ===== src/Tests/Routing.antt =====
-- Runs of the routing engine on the sample company.
use tacktcix.Prelude.{
  ◌≡◌, ◌≢◌, refl, ◌⊎◌, Bool, true, false, some, [], ◌∷◌, map, arith, All, contains, nat_eq,
  string_eq,
}
use mathlib.Core.List.{Perm}
use mathlib.Core.List.Perm
use tacktcix.Prelude.FloatLaws.{InUnit}
use tacktcix.Prelude.Int.{pos, ◌≤ℤ◌, ◌+ℤ◌}
use tacktcix.Prelude.Outcome.{ok, raise, runtime_error}
use tacktcix.Prelude.Sorting.{sort}
use tacktcix.Agents.{Agent, AgentRouteResult, BatchRouteResponse}
use tacktcix.Registry.{Backend}
use tacktcix.Routing.Scores.{Scored, score_capability, score_load, score_cost, score_agent}
use tacktcix.Routing.Select.{
  select_best_with_load, best_free, select_best, to_result, effective_load, is_saturated,
}
use tacktcix.Routing.Batch.{priority_rank, load_table, route_batch, batch_route_tasks}
use tacktcix.Routing.Batch.Loads.{IsKeyed, load_after, route_batch_capacity, route_batch_saturates}
use tacktcix.Routing.Batch.Titles.{titles, answered, batch_route_tasks_accounts}
use tacktcix.Routing.Best.{IsAtLeast, best_free_best, select_best_best}
use tacktcix.Routing.Bounds.{IsPlausible, score_agent_bounds}
use tacktcix.Routing.Single.{route_task}
use tacktcix.Routing.Single.Outcomes.{IsEligible, IsIneligible, route_task_outcome}
use tacktcix.Tests.Fixed.{fixed, fixed_order, fixed_laws}
use tacktcix.Tests.Samples.{
  coder, tester, rows, api_task, test_task, requests, company, backend, in_order,
}

rows-IsKeyed : IsKeyed rows
rows-IsKeyed = ((omega arith, tt), (tt, tt))

route_batch_capacity_example :
    (res : BatchRouteResponse fixed) × (route_batch rows requests ≡ ok res)
    × All
        (λ a.
          pos 1 ≤ℤ a.max_concurrent_tasks
          → a.current_load ≤ℤ a.max_concurrent_tasks
          → load_after a res.assignments ≤ℤ a.max_concurrent_tasks)
        rows
route_batch_capacity_example = route_batch_capacity rows requests rows-IsKeyed

route_batch_saturates_example :
    (res : BatchRouteResponse fixed) × (route_batch rows requests ≡ ok res)
    × (res.unassigned ≢ []
        → All
            (λ a.
              (pos 1 ≤ℤ a.max_concurrent_tasks)
              × (a.max_concurrent_tasks ≤ℤ load_after a res.assignments))
            rows)
route_batch_saturates_example = route_batch_saturates rows requests rows-IsKeyed

-- The sample has one task too many, so the pass does leave a task unassigned.
leftover : Bool
unfolding route_batch
leftover = elim (route_batch rows requests) [
  | raise _ ↦ false
  | ok res ↦ elim res.unassigned [ [] ↦ false | t ∷ rest ↦ true ]
]

one_left : leftover ≡ true
unfolding leftover sort priority_rank select_best_with_load load_table score_agent ◌+ℤ◌
one_left = refl

batch_route_tasks_accounts_example :
    (res : BatchRouteResponse fixed) × (s' : Backend fixed) × (batch_route_tasks in_order company
        requests backend
      ≡ ok (res, s'))
    × Perm (answered res.assignments res.unassigned) (titles requests)
    × (s'.agents ≡ backend.agents)
batch_route_tasks_accounts_example = batch_route_tasks_accounts in_order company requests backend

chosen : Scored fixed
unfolding score_agent
chosen = score_agent fixed test_task tester (pos 0)

found : best_free test_task rows [] ≡ some chosen
unfolding best_free chosen sort
found = refl

best_free_best_example :
    All (λ a. is_saturated [] a ≡ false → IsAtLeast test_task (effective_load []) chosen a) rows
best_free_best_example = best_free_best fixed_order test_task rows [] found

select_best_best_example :
    (s : Scored fixed) × (select_best api_task rows ≡ ok (to_result s))
    × (contains s.agent.id (map (λ a. a.id) rows) ≡ true)
    × (s ≡ score_agent fixed api_task s.agent s.agent.current_load)
    × All (IsAtLeast api_task (λ a. a.current_load) s) rows
select_best_best_example = select_best_best fixed_order api_task coder (tester ∷ [])

coder-IsPlausible : IsPlausible coder api_task
coder-IsPlausible = record {
  load = omega arith;
  cost = refl;
  complexity = refl;
  proficiencies = (refl, (refl, tt));
}

score_agent_bounds_example :
    InUnit fixed (score_capability fixed coder ("backend" ∷ []))
    × InUnit fixed (score_load fixed coder (pos 0))
    × InUnit fixed (score_cost fixed coder api_task)
    × InUnit fixed (score_agent fixed api_task coder (pos 0)).total
score_agent_bounds_example = score_agent_bounds fixed_laws coder api_task coder-IsPlausible

route_task_outcome_example :
    (route_task in_order company api_task backend ≡ raise runtime_error)
      × All (IsIneligible in_order (λ xs. Perm.rfl) company) backend.agents
    ⊎ ((a : Agent fixed) × (x : AgentRouteResult fixed) × (s' : Backend fixed) × (route_task
            in_order company api_task backend
          ≡ ok (x, s'))
        × (x.agent_id ≡ a.id)
        × IsEligible in_order (λ xs. Perm.rfl) company backend a
        × (s'.agents ≡ backend.agents))
route_task_outcome_example = route_task_outcome in_order (λ xs. Perm.rfl) company api_task backend
