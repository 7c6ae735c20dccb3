-- ===== src/Routing/Assign.antt =====
-- TaskOrchestrator.assign_tasks, assign_subtask and complete_subtask of
-- backend/app/services/task_orchestrator_service.py. The tasks are the rows of the caller's list.
pub mod Domains
pub mod Each
pub mod Rows
use tacktcix.Prelude.{
  ℕ, String, Bool, true, Option, none, some, List, [], ◌∷◌, ◌++◌, map, ◌==◌, nat_eq, string_eq,
  if◌then◌else◌,
}
use tacktcix.Prelude.Text.{or_default}
use tacktcix.Prelude.Dict.{Dict, lookup, insert}
use tacktcix.Prelude.Float.{Float}
use tacktcix.Prelude.Outcome.{Outcome, ok, raise, Error, runtime_error, value_error, ◌>>=◌}
use tacktcix.Prelude.Json.{Json, Items, nil, cons, text, array}
use tacktcix.Agents.{Agent, AgentRouteRequest, AgentRouteResult, BatchRouteResponse}
use tacktcix.Registry.{Backend, assign_task, complete_task}
use tacktcix.Routing.Batch.{batch_route_tasks}
use tacktcix.Routing.Single.{route_task_to_role}

-- What the routing reads of a task; `required_domains` is the value of that key of its metadata, which
-- may be any JSON.
pub record Task : Type 0 where
  pub id : ℕ
  pub title : String
  pub description : Option String
  pub assignee_role : Option String
  pub priority : Option String
  pub required_domains : Option Json
  pub assignee_agent_id : Option ℕ

-- One entry of the result: no agent and the score 0 for a task that cannot be routed.
pub record AssignedRow (f : Float) : Type 0 where
  pub task_id : ℕ
  pub task_title : String
  pub agent_id : Option ℕ
  pub agent_role : Option String
  pub agent_name : Option String
  pub score : f.F

-- `task_map[t.title] = t`: of tasks with one title the last stays.
unfoldable pub task_map : List Task → Dict String Task → Dict String Task
task_map [] table = table
task_map (t ∷ tasks) table = task_map tasks (insert t.title t table)

-- `task_obj.assignee_agent_id = ...`
unfoldable pub set_assignee : (task_id agent_id : ℕ) → List Task → List Task
set_assignee task_id agent_id [] = []
set_assignee task_id agent_id (t ∷ tasks) =
    if task_id == t.id
    then record t { assignee_agent_id = some agent_id } ∷ tasks
    else t ∷ set_assignee task_id agent_id tasks

-- What `assign_tasks` returns, the tasks and the backend after it.
pub record Assigned (f : Float) : Type 0 where
  pub rows : List (AssignedRow f)
  pub tasks : List Task
  pub backend : Backend f

-- `task_map.get(assignment.task_title)`
find_task : Option String → Dict String Task → Option Task
find_task none table = none
find_task (some title) table = lookup title table

-- The validation of `list[str]`; its ValidationError is a ValueError.
unfoldable pub texts_of : Items → Outcome (List String)
texts_of nil = ok []
texts_of (cons (text s) rest) = texts_of rest >>= λ xs. ok (s ∷ xs)
texts_of (cons x rest) = raise value_error

unfoldable pub domains_of : Option Json → Outcome (List String)
unfolding texts_of
domains_of none = ok []
domains_of (some (array items)) = texts_of items
domains_of (some x) = raise value_error

module _ {f : Float} where
  -- `AgentRouteRequest(...)`. A title is at most as long as the column of the task's allows, which is
  -- what the request does.
  unfoldable pub request_of : Task → Outcome (AgentRouteRequest f)
  unfolding or_default domains_of
  request_of t = domains_of t.required_domains >>= λ domains. ok (record {
    task_title = t.title;
    task_description = some (or_default t.description "");
    required_domains = domains;
    estimated_complexity = f.lit 1 0;
    priority = or_default t.priority "medium";
  })

  unfoldable pub requests_of : List Task → Outcome (List (AgentRouteRequest f))
  unfolding request_of
  requests_of [] = ok []
  requests_of (t ∷ ts) = request_of t >>= λ r. requests_of ts >>= λ rs. ok (r ∷ rs)

  unfoldable pub assigned_row : Task → AgentRouteResult f → AssignedRow f
  assigned_row t x = record {
    task_id = t.id;
    task_title = t.title;
    agent_id = some x.agent_id;
    agent_role = some x.agent_role;
    agent_name = some x.agent_name;
    score = x.score;
  }

  unfoldable pub unassigned_row : Task → AssignedRow f
  unassigned_row t = record {
    task_id = t.id;
    task_title = t.title;
    agent_id = none;
    agent_role = none;
    agent_name = none;
    score = f.lit 0 0;
  }

  -- The loop over the assignments: the rows, and the tasks with their assignees.
  assigned_rows :
      Dict String Task → List (AgentRouteResult f) → List Task → List (AssignedRow f) × List Task
  unfolding find_task assigned_row set_assignee
  assigned_rows table [] tasks = ([], tasks)
  assigned_rows table (x ∷ xs) tasks = elim (find_task x.task_title table) [
    | none ↦ assigned_rows table xs tasks
    | some t ↦
        let rest = assigned_rows table xs (set_assignee t.id x.agent_id tasks) in
        (assigned_row t x ∷ rest.0, rest.1)
  ]

  unassigned_rows : Dict String Task → List String → List (AssignedRow f)
  unfolding unassigned_row
  unassigned_rows table [] = []
  unassigned_rows table (title ∷ titles) =
      let rest = unassigned_rows table titles in
      elim (lookup title table) [ none ↦ rest | some t ↦ unassigned_row t ∷ rest ]

  unfoldable pub batch_rows :
      Dict String Task → BatchRouteResponse f → List Task → List (AssignedRow f) × List Task
  unfolding assigned_rows unassigned_rows
  batch_rows table b tasks =
      let done = assigned_rows table b.assignments tasks in
      (done.0 ++ unassigned_rows table b.unassigned, done.1)

module _ {f : Float} (by_role : List (Agent f) → List (Agent f)) (company : ℕ) where
  -- `batch=True`
  unfoldable pub assign_batch : List Task → Backend f → Outcome (Assigned f)
  unfolding batch_route_tasks batch_rows task_map requests_of
  assign_batch [] s = ok (record { rows = []; tasks = []; backend = s })
  assign_batch (t ∷ ts) s = requests_of (t ∷ ts) >>= λ rs.
      batch_route_tasks by_role company rs s >>= λ r.
      let done = batch_rows (task_map (t ∷ ts) []) r.0 (t ∷ ts) in
      ok (record { rows = done.0; tasks = done.1; backend = r.1 })

  -- `except RuntimeError`: the task is listed without an agent; any other exception goes on.
  assign_one :
      Task
      → Outcome (AgentRouteResult f × Backend f)
      → Backend f
      → Outcome (AssignedRow f × Task × Backend f)
  unfolding assigned_row unassigned_row
  assign_one t (ok (x, s')) s =
      ok (assigned_row t x, record t { assignee_agent_id = some x.agent_id }, s')
  assign_one t (raise runtime_error) s = ok (unassigned_row t, t, s)
  assign_one t (raise e) s = raise e

  -- `batch=False`
  unfoldable pub assign_each : List Task → Backend f → Outcome (Assigned f)
  unfolding assign_one route_task_to_role request_of or_default
  assign_each [] s = ok (record { rows = []; tasks = []; backend = s })
  assign_each (t ∷ ts) s =
      (request_of t >>= λ req.
      assign_one t
        (route_task_to_role by_role company req (or_default t.assignee_role "backend_dev") s) s)
      >>= λ r. assign_each ts r.2 >>= λ rest.
          ok (record { rows = r.0 ∷ rest.rows; tasks = r.1 ∷ rest.tasks; backend = rest.backend })

  unfoldable pub assign_tasks : (batch : Bool) → List Task → Backend f → Outcome (Assigned f)
  unfolding assign_batch assign_each
  assign_tasks batch tasks s = if batch then assign_batch tasks s else assign_each tasks s

module _ {f : Float} where
  unfoldable pub assign_subtask : (agent_id : ℕ) → Option String → Backend f → Backend f
  unfolding assign_task
  assign_subtask agent_id title s = (assign_task agent_id title s).1

  unfoldable pub complete_subtask : (agent_id : ℕ) → Option String → Backend f → Backend f
  unfolding complete_task
  complete_subtask agent_id title s = (complete_task agent_id title s).1
