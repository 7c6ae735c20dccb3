-- ===== src/Tests/Samples.antt =====
-- A small company: agents, requests and the backend that holds them.
use tacktcix.Prelude.{ℕ, none, some, List, [], ◌∷◌}
use tacktcix.Prelude.Int.{pos}
use tacktcix.Agents.{Agent, AgentRouteRequest, AgentRegister, idle, busy, offline}
use tacktcix.Registry.{Backend}
use tacktcix.Tests.Fixed.{fixed}

abbrev pub coder : Agent fixed
coder = record {
  id = 1;
  company_id = 7;
  role = "backend_dev";
  name = "Ada";
  description = none;
  status = idle;
  capabilities = some (("backend", 10000) ∷ ("api", 9000) ∷ []);
  cost_per_task = 10000;
  max_concurrent_tasks = pos 2;
  current_load = pos 0;
  meta = none;
}

abbrev pub tester : Agent fixed
tester = record {
  id = 2;
  company_id = 7;
  role = "qa";
  name = "Bo";
  description = none;
  status = busy;
  capabilities = some (("testing", 10000) ∷ []);
  cost_per_task = 5000;
  max_concurrent_tasks = pos 1;
  current_load = pos 0;
  meta = none;
}

abbrev pub absent : Agent fixed
absent = record tester { id = 3; name = "Cy"; status = offline }

abbrev pub rows : List (Agent fixed)
rows = coder ∷ tester ∷ []

abbrev pub api_task : AgentRouteRequest fixed
api_task = record {
  task_title = "api";
  task_description = none;
  required_domains = "backend" ∷ [];
  estimated_complexity = 10000;
  priority = "low";
}

abbrev pub test_task : AgentRouteRequest fixed
test_task = record api_task {
  task_title = "test";
  required_domains = "testing" ∷ [];
  priority = "high";
}

abbrev pub docs_task : AgentRouteRequest fixed
docs_task = record api_task { task_title = "docs"; required_domains = []; priority = "medium" }

abbrev pub more_task : AgentRouteRequest fixed
more_task = record api_task { task_title = "more" }

-- One more than the two agents can hold.
abbrev pub requests : List (AgentRouteRequest fixed)
requests = api_task ∷ test_task ∷ docs_task ∷ more_task ∷ []

abbrev pub company : ℕ
company = 7

abbrev pub backend : Backend fixed
backend = record { agents = coder ∷ tester ∷ absent ∷ []; events = some [] }

abbrev pub newcomer : AgentRegister fixed
newcomer = record {
  role = "qa";
  name = "Di";
  description = none;
  capabilities = none;
  cost_per_task = 10000;
  max_concurrent_tasks = pos 3;
  metadata = none;
}

-- A company whose rows come in the order of the table.
abbrev pub in_order : List (Agent fixed) → List (Agent fixed)
in_order xs = xs
