-- ===== src/Tests/Assign.antt =====
-- Runs of assign_tasks on the sample company.
use mathlib.Core.List.{Mem, Perm}
use mathlib.Core.List.Perm
use tacktcix.Prelude.{◌≡◌, refl, ◌⊎◌, All, true, false, none, some, List, [], ◌∷◌}
use tacktcix.Prelude.Outcome.{ok, raise, value_error}
use tacktcix.Prelude.Json.{text, array, cons, nil}
use tacktcix.Prelude.Sorting.{sort}
use tacktcix.Routing.Select.{healthy_candidates, select_best}
use tacktcix.Routing.Assign.{Task, Assigned, assign_tasks}
use tacktcix.Routing.Assign.Domains.{HasDomains}
use tacktcix.Routing.Assign.Rows.{row_titles, task_titles, assign_tasks_titles}
use tacktcix.Routing.Assign.Each.{AreRows, assign_tasks_rows}
use tacktcix.Tests.Fixed.{fixed}
use tacktcix.Tests.Samples.{company, backend, in_order}

-- Four tasks, one more than the agents can hold, two of them with one title.
abbrev api_work : Task
api_work = record {
  id = 11;
  title = "api";
  description = none;
  assignee_role = some "backend_dev";
  priority = some "high";
  required_domains = some (array (cons (text "backend") nil));
  assignee_agent_id = none;
}

abbrev test_work : Task
test_work = record api_work {
  id = 12;
  title = "test";
  assignee_role = none;
  required_domains = none;
}

abbrev work : List Task
work =
    api_work
    ∷ test_work
    ∷ record test_work { id = 13 }
    ∷ record api_work { id = 14; title = "docs" }
    ∷ []

-- The last task's domains are a text and not an array of texts.
abbrev odd_work : List Task
odd_work = api_work ∷ record api_work { id = 15; required_domains = some (text "backend") } ∷ []

refused_odd : (assign_tasks in_order company false odd_work backend) ≡ raise value_error
unfolding assign_tasks healthy_candidates select_best sort
refused_odd = refl

assign_tasks_rows_example :
    ((a : Assigned fixed) × (assign_tasks in_order company false work backend ≡ ok a)
      × All HasDomains work
      × AreRows in_order (λ xs. Perm.rfl) company backend work a.rows a.tasks
      × (a.backend.agents ≡ backend.agents))
    ⊎ ((assign_tasks in_order company false work backend ≡ raise value_error)
        × (t : Task) × Mem t work
        × (¬ HasDomains t))
assign_tasks_rows_example = assign_tasks_rows in_order (λ xs. Perm.rfl) company work backend

assign_tasks_titles_example :
    ((a : Assigned fixed) × (assign_tasks in_order company true work backend ≡ ok a)
      × All HasDomains work
      × Perm (row_titles fixed a.rows) (task_titles work)
      × (a.backend.agents ≡ backend.agents))
    ⊎ ((assign_tasks in_order company true work backend ≡ raise value_error)
        × (t : Task) × Mem t work
        × (¬ HasDomains t))
assign_tasks_titles_example = assign_tasks_titles fixed in_order company work backend
