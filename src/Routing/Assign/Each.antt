-- ===== src/Routing/Assign/Each.antt =====
-- How assign_tasks (backend/app/services/task_orchestrator_service.py) ends when it routes the
-- tasks one by one.
use mathlib.Core.List.{Perm, Mem, mem-cons_self, mem-cons_of_mem}
use tacktcix.Prelude.Text.{or_default}
use tacktcix.Prelude.{
  ℕ, ◌≡◌, refl, ◌∙◌, ◌⊎◌, inl, inr, ap, subst, String, false, some, none, List, [], ◌∷◌, All,
}
use tacktcix.Prelude.Float.{Float}
use tacktcix.Prelude.Outcome.{Outcome, ok, raise, runtime_error, value_error, ◌>>=◌}
use tacktcix.Agents.{Agent, AgentRouteRequest, AgentRouteResult}
use tacktcix.Registry.{Backend}
use tacktcix.Routing.Single.{route_task_to_role}
use tacktcix.Routing.Single.Outcomes.{
  IsEligible, IsIneligible, route_task_outcome, route_task_to_role_outcome,
}
use tacktcix.Routing.Assign.Domains.{HasDomains, request_with, domains_of-HasDomains}
use tacktcix.Routing.Assign.{
  Task, AssignedRow, Assigned, request_of, assigned_row, unassigned_row, assign_one, assign_each,
  assign_tasks,
}

module _ {f : Float} (by_role : List (Agent f) → List (Agent f))
    (reorders : (rows : List (Agent f)) → Perm (by_role rows) rows) (company : ℕ) where
  -- What becomes of one task, with the agents of the table: its row, and the task after it.
  pub data IsRow (s : Backend f) (t : Task) : AssignedRow f → Task → Type 0 where
    chosen :
        (a : Agent f) (r : AssignedRow f) (u : Task)
        → IsEligible by_role reorders company s a
        → r.task_id ≡ t.id
        → r.task_title ≡ t.title
        → r.agent_id ≡ some a.id
        → u ≡ record t { assignee_agent_id = some a.id }
        → IsRow s t r u
    left :
        (r : AssignedRow f)
        → All (IsIneligible by_role reorders company) s.agents
        → r.task_id ≡ t.id
        → r.task_title ≡ t.title
        → r.agent_id ≡ none
        → r.score ≡ f.lit 0 0
        → IsRow s t r t

  -- One row and one task for each of the tasks, in their order.
  abbrev pub AreRows : Backend f → List Task → List (AssignedRow f) → List Task → Type 0
  AreRows s [] [] [] = Unit
  AreRows s (t ∷ ts) (r ∷ rows) (u ∷ us) = IsRow s t r u × AreRows s ts rows us
  AreRows s ts rows us = ⊥

  -- The routing of one task returns with an eligible agent and the same agents, or raises RuntimeError
  -- where no agent is eligible.
  Ends : Backend f → Outcome (AgentRouteResult f × Backend f) → Type 0
  Ends s o =
      (o ≡ raise runtime_error) × All (IsIneligible by_role reorders company) s.agents
      ⊎ ((a : Agent f) × (x : AgentRouteResult f) × (s' : Backend f) × (o ≡ ok (x, s'))
          × (x.agent_id ≡ a.id)
          × IsEligible by_role reorders company s a
          × (s'.agents ≡ s.agents))

  route_task_to_role-Ends :
      (r : AgentRouteRequest f) (role : String) (s : Backend f)
      → Ends s (route_task_to_role by_role company r role s)
  unfolding Ends
  route_task_to_role-Ends r role s =
      elim (route_task_to_role_outcome by_role reorders company r role s) [
        | inl (e, _) ↦ rw e (route_task_outcome by_role reorders company r s)
        | inr (a, x, e, same, fit, _) ↦ inr (a, x, s, e, same, fit, refl)
      ]

  assign_one-IsRow :
      (t : Task) (o : Outcome (AgentRouteResult f × Backend f)) (s s0 : Backend f)
      → s.agents ≡ s0.agents
      → Ends s o
      → (r : AssignedRow f × Task × Backend f) × (assign_one by_role company t o s ≡ ok r)
        × IsRow s0 t r.0 r.1
        × (r.2.agents ≡ s0.agents)
  unfolding Ends assign_one assigned_row unassigned_row
  assign_one-IsRow t o s s0 k (inl (e, none_fit)) = (
    (unassigned_row t, t, s),
    rw e refl,
    left (unassigned_row t) (subst (All (IsIneligible by_role reorders company)) k none_fit) refl
        refl refl refl,
    k,
  )
  assign_one-IsRow t o s s0 k (inr (a, x, s', e, same, (m, own, fit), k')) = (
    (assigned_row t x, record t { assignee_agent_id = some x.agent_id }, s'),
    rw e refl,
    chosen a (assigned_row t x) _ (subst (Mem a) k m, own, fit) refl refl (ap some same)
        (ap (λ i. record t { assignee_agent_id = some i }) same),
    k' ∙ k,
  )

  -- How assigning the tasks ends, with the agents that the table has.
  AssignsEach : List Task → Backend f → Outcome (Assigned f) → Type 0
  AssignsEach tasks s o =
      ((a : Assigned f) × (o ≡ ok a)
        × All HasDomains tasks
        × AreRows s tasks a.rows a.tasks
        × (a.backend.agents ≡ s.agents))
      ⊎ ((o ≡ raise value_error) × (t : Task) × Mem t tasks × (¬ HasDomains t))

  assign_each-Assigns :
      (tasks : List Task) (s s0 : Backend f)
      → s.agents ≡ s0.agents
      → AssignsEach tasks s0 (assign_each by_role company tasks s)
  unfolding assign_each AssignsEach request_of
  assign_each-Assigns [] s s0 k = inl (_, refl, tt, tt, k)
  assign_each-Assigns (t ∷ ts) s s0 k = elim (domains_of-HasDomains t.required_domains) [
    | inr (e, bad) ↦ inr (rw (e, ◌>>=◌) refl, t, mem-cons_self, bad)
    | inl (xs, e, good) ↦
        let role = or_default t.assignee_role "backend_dev" in
        let (r, run, row, k') =
          assign_one-IsRow t _ s s0 k (route_task_to_role-Ends (request_with t xs) role s) in
        elim (assign_each-Assigns ts r.2 s0 k') [
          | inr (e', u, m, bad) ↦
              inr
                (rw (e, ◌>>=◌) (rw (run, ◌>>=◌) (rw (e', ◌>>=◌) refl)), u, mem-cons_of_mem t m, bad)
          | inl (a, e', goods, rows, k'') ↦ inl (
            record { rows = r.0 ∷ a.rows; tasks = r.1 ∷ a.tasks; backend = a.backend },
            rw (e, ◌>>=◌) (rw (run, ◌>>=◌) (rw (e', ◌>>=◌) refl)),
            (good, goods),
            (row, rows),
            k'',
          )
        ]
  ]

  -- Assigning the tasks one by one ends in one of two ways. Where the domains of a task are not an array
  -- of texts, it raises a ValueError. Where those of every task are, it lists one row for each task, in
  -- their order, with the task's id and title: a row names an agent that is in the table, of the
  -- company, and idle or busy, and then the task is assigned to it; or it names none, with the score 0,
  -- and then every agent of the company in the table has another status and the task is unchanged. No
  -- agent's row is changed.
  pub assign_tasks_rows :
      (tasks : List Task) (s : Backend f)
      → ((a : Assigned f) × (assign_tasks by_role company false tasks s ≡ ok a)
          × All HasDomains tasks
          × AreRows s tasks a.rows a.tasks
          × (a.backend.agents ≡ s.agents))
        ⊎ ((assign_tasks by_role company false tasks s ≡ raise value_error)
            × (t : Task) × Mem t tasks
            × (¬ HasDomains t))
  unfolding assign_tasks AssignsEach
  assign_tasks_rows tasks s = assign_each-Assigns tasks s s refl
