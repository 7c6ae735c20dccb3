-- ===== src/Routing/Single.antt =====
-- Routing of one task (backend/app/services/task_orchestrator_service.py: route_task,
-- route_task_to_role, route_workflow_step).
pub mod Outcomes
use tacktcix.Prelude.{ℕ, String, none, some, List, [], ◌∷◌, string_eq}
use tacktcix.Prelude.Dict.{Dict, get_or}
use tacktcix.Prelude.Float.{Float}
use tacktcix.Prelude.Outcome.{Outcome, ok, ◌>>=◌}
use tacktcix.Prelude.Text.{◌+ₛ◌}
use tacktcix.Agents.{Agent, AgentRouteRequest, AgentRouteResult}
use tacktcix.Registry.{Backend, emit, task_routed}
use tacktcix.Routing.Actions.{domains_for_action}
use tacktcix.Routing.Select.{select_best, healthy_candidates}

module _ {f : Float} (by_role : List (Agent f) → List (Agent f)) (company : ℕ) where
  unfoldable pub route_task :
      AgentRouteRequest f → Backend f → Outcome (AgentRouteResult f × Backend f)
  unfolding emit
  route_task r s = select_best r (healthy_candidates by_role company none s) >>= λ result.
      ok (result, emit (task_routed company r.task_title result) s)

  -- The agents of the role, if one of them is healthy.
  from_role :
      AgentRouteRequest f → Backend f → List (Agent f) → Outcome (AgentRouteResult f × Backend f)
  unfolding route_task
  from_role r s [] = route_task r s
  from_role r s (c ∷ cs) = select_best r (c ∷ cs) >>= λ result. ok (result, s)

  unfoldable pub route_task_to_role :
      AgentRouteRequest f
      → (preferred_role : String) → Backend f
      → Outcome (AgentRouteResult f × Backend f)
  unfolding from_role
  route_task_to_role r preferred_role s =
      from_role r s (healthy_candidates by_role company (some preferred_role) s)

  -- `step` is a workflow step, with the keys `action` and `agent`.
  unfoldable pub route_workflow_step :
      Dict String String → Backend f → Outcome (AgentRouteResult f × Backend f)
  unfolding route_task_to_role
  route_workflow_step step s =
      let preferred_role = get_or "agent" "backend_dev" step in
      let step_action = get_or "action" "unknown" step in
      let request : AgentRouteRequest f = record {
        task_title = step_action;
        task_description = some ("Workflow step: " +ₛ step_action);
        required_domains = domains_for_action step_action preferred_role;
        estimated_complexity = f.lit 1 0;
        priority = "medium";
      } in
      route_task_to_role request preferred_role s
