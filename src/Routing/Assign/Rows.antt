-- ===== src/Routing/Assign/Rows.antt =====
-- The rows that assign_tasks (backend/app/services/task_orchestrator_service.py) returns in a batch.
use mathlib.Core.List.{Perm, Mem, mem-cons_self, mem-cons_of_mem, map-append}
use mathlib.Core.List.Perm
use tacktcix.Prelude.{
  ℕ, ◌≡◌, refl, sym, ap, ◌∙◌, ◌⊎◌, String, true, Option, none, some, List, [], ◌∷◌, map, arith, All,
  All-append_split, Bool-cases, inl, inr, ◌==◌, string_eq, eq_refl,
}
use tacktcix.Prelude.Dict.{
  Dict, lookup, has_key, insert, lookup-insert, has_key-insert, has_key→lookup,
}
use tacktcix.Prelude.Float.{Float}
use tacktcix.Prelude.Outcome.{ok, raise, value_error, ◌>>=◌}
use tacktcix.Prelude.Perms.{All-perm}
use tacktcix.Agents.{Agent, AgentRouteRequest, AgentRouteResult, BatchRouteResponse}
use tacktcix.Registry.{Backend}
use tacktcix.Routing.Batch.Titles.{titles, answered, batch_route_tasks_accounts}
use tacktcix.Routing.Assign.Domains.{HasDomains, request_with, domains_of-HasDomains}
use tacktcix.Routing.Assign.{
  Task, AssignedRow, Assigned, task_map, find_task, request_of, requests_of, assigned_row,
  unassigned_row, assigned_rows, unassigned_rows, batch_rows, assign_batch, assign_tasks,
  set_assignee,
}

-- A table that files tasks under their titles.
IsTable : Dict String Task → Type 0
IsTable table = (title : String) (t : Task) → lookup title table ≡ some t → t.title ≡ title

insert-IsTable :
    (t : Task) (table : Dict String Task) → IsTable table → IsTable (insert t.title t table)
unfolding IsTable
insert-IsTable t table h title u found = elim (Bool-cases (title == t.title)) [
  | inl e ↦
      let same : some t ≡ some u = rw (lookup-insert t.title title t table, e) at found in
      let equal : t ≡ u = cc in
      ap (λ x. x.title) (sym equal) ∙ sym ((string_eq.beq_iff title t.title).0 e)
  | inr e ↦ h title u (rw (lookup-insert t.title title t table, e) at found)
]

task_map-IsTable :
    (tasks : List Task) (table : Dict String Task) → IsTable table → IsTable (task_map tasks table)
unfolding task_map
task_map-IsTable [] table h = h
task_map-IsTable (t ∷ tasks) table h =
    task_map-IsTable tasks (insert t.title t table) (insert-IsTable t table h)

empty-IsTable : IsTable []
unfolding IsTable
empty-IsTable title t e = cc

task_map-keeps :
    (tasks : List Task) (table : Dict String Task) (title : String)
    → has_key title table ≡ true
    → has_key title (task_map tasks table) ≡ true
unfolding task_map
task_map-keeps [] table title h = h
task_map-keeps (t ∷ tasks) table title h =
    task_map-keeps tasks (insert t.title t table) title
      (rw (has_key-insert t.title title t table, h) (ground arith))

-- A title, which is a key of the table.
abbrev Listed : Dict String Task → Option String → Type 0
Listed table o = elim o [ none ↦ ⊥ | some title ↦ has_key title table ≡ true ]

Listed-IsProp : (table : Dict String Task) (o : Option String) → IsProp (Listed table o)
Listed-IsProp table none = λ x y. absurd x
Listed-IsProp table (some title) = hlevel

find_task-Listed :
    (table : Dict String Task) (o : Option String)
    → IsTable table
    → Listed table o
    → (t : Task) × (find_task o table ≡ some t) × (some t.title ≡ o)
unfolding find_task IsTable
find_task-Listed table none h l = absurd l
find_task-Listed table (some title) h l =
    let (t, found) = has_key→lookup title table l in (t, found, ap some (h title t found))

abbrev pub task_titles : List Task → List (Option String)
task_titles tasks = map (λ t. some t.title) tasks

task_map-lists :
    (tasks : List Task) (table : Dict String Task)
    → All (Listed (task_map tasks table)) (task_titles tasks)
unfolding task_map
task_map-lists [] table = tt
task_map-lists (t ∷ tasks) table = (
  task_map-keeps tasks (insert t.title t table) t.title
      (has_key-insert t.title t.title t table ∙ rw (eq_refl t.title) refl),
  task_map-lists tasks (insert t.title t table),
)

module _ (f : Float) where
  -- The titles of the rows, in their order.
  abbrev pub row_titles : List (AssignedRow f) → List (Option String)
  row_titles rows = map (λ r. some r.task_title) rows

  assigned_rows-titles :
      (table : Dict String Task) (xs : List (AgentRouteResult f)) (tasks : List Task)
      → IsTable table
      → All (Listed table) (map (λ x. x.task_title) xs)
      → row_titles (assigned_rows table xs tasks).0 ≡ map (λ x. x.task_title) xs
  unfolding assigned_rows assigned_row
  assigned_rows-titles table [] tasks h l = refl
  assigned_rows-titles table (x ∷ xs) tasks h l =
      let (t, found, same) = find_task-Listed table x.task_title h l.0 in
      rw (found, assigned_rows)
        (cc (same, assigned_rows-titles table xs (set_assignee t.id x.agent_id tasks) h l.1))

  unassigned_rows-titles :
      (table : Dict String Task) (us : List String)
      → IsTable table
      → All (Listed table) (map some us)
      → row_titles (unassigned_rows table us) ≡ map some us
  unfolding unassigned_rows unassigned_row IsTable
  unassigned_rows-titles table [] h l = refl
  unassigned_rows-titles table (u ∷ us) h l =
      let (t, found) = has_key→lookup u table l.0 in
      rw (found, unassigned_rows)
        (cc (ap some (h u t found), unassigned_rows-titles table us h l.1))

  rows-titles :
      (tasks : List Task) (b : BatchRouteResponse f)
      → Perm (answered b.assignments b.unassigned) (task_titles tasks)
      → row_titles (batch_rows (task_map tasks []) b tasks).0 ≡ answered b.assignments b.unassigned
  unfolding batch_rows
  rows-titles tasks b accounts =
      let table = task_map tasks [] in
      let filed : IsTable table = task_map-IsTable tasks [] empty-IsTable in
      let listed =
        All-perm (Listed table) (Listed-IsProp table) _ _ (Perm.symm accounts)
          (task_map-lists tasks []) in
      let (left, right) =
        All-append_split (Listed table) (map (λ x. x.task_title) b.assignments) _ listed in
      rw
        (
          map-append,
          assigned_rows-titles table b.assignments tasks filed left,
          unassigned_rows-titles table b.unassigned filed right,
        )
        refl

  -- The requests are made, with the titles of the tasks, or a task's domains are not accepted.
  requests_of-titles :
      (tasks : List Task)
      → ((rs : List (AgentRouteRequest f)) × (requests_of tasks ≡ ok rs)
          × All HasDomains tasks
          × (titles rs ≡ task_titles tasks))
        ⊎ ((requests_of {f = f} tasks ≡ raise value_error)
            × (t : Task) × Mem t tasks
            × (¬ HasDomains t))
  unfolding requests_of request_of
  requests_of-titles [] = inl ([], refl, tt, refl)
  requests_of-titles (t ∷ tasks) = elim (domains_of-HasDomains t.required_domains) [
    | inr (e, bad) ↦ inr (rw (e, ◌>>=◌) refl, t, mem-cons_self, bad)
    | inl (xs, e, good) ↦ elim (requests_of-titles tasks) [
      | inr (e', u, m, bad) ↦ inr (rw (e, ◌>>=◌) (rw (e', ◌>>=◌) refl), u, mem-cons_of_mem t m, bad)
      | inl (rs, e', goods, same) ↦ inl (
        request_with t xs ∷ rs,
        rw (e, ◌>>=◌) (rw (e', ◌>>=◌) refl),
        (good, goods),
        ap (◌∷◌ (some t.title)) same,
      )
    ]
  ]

  -- Assigning a list of tasks in a batch ends in one of two ways. Where the domains of a task are not an
  -- array of texts, it raises a ValueError. Where those of every task are, it lists as many rows as
  -- there are tasks: the titles of the rows are the titles of the tasks, each as often as it is there,
  -- in some order; and no agent's row is changed.
  pub assign_tasks_titles :
      (by_role : List (Agent f) → List (Agent f)) (company : ℕ) (tasks : List Task) (s : Backend f)
      → ((a : Assigned f) × (assign_tasks by_role company true tasks s ≡ ok a)
          × All HasDomains tasks
          × Perm (row_titles a.rows) (task_titles tasks)
          × (a.backend.agents ≡ s.agents))
        ⊎ ((assign_tasks by_role company true tasks s ≡ raise value_error)
            × (t : Task) × Mem t tasks
            × (¬ HasDomains t))
  unfolding assign_tasks assign_batch
  assign_tasks_titles by_role company [] s = inl (_, refl, tt, Perm.rfl, refl)
  assign_tasks_titles by_role company (t ∷ ts) s = elim (requests_of-titles (t ∷ ts)) [
    | inr (e, u, m, bad) ↦ inr (rw (e, ◌>>=◌) refl, u, m, bad)
    | inl (rs, e, goods, same) ↦
        let (res, s', run, accounts, kept) = batch_route_tasks_accounts by_role company rs s in
        let listed = rw same at accounts in
        let done = batch_rows (task_map (t ∷ ts) []) res (t ∷ ts) in
        inl (
          record { rows = done.0; tasks = done.1; backend = s' },
          rw (e, ◌>>=◌) (rw (run, ◌>>=◌) refl),
          goods,
          rw (rows-titles (t ∷ ts) res listed) listed,
          kept,
        )
  ]
