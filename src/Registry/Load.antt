-- ===== src/Registry/Load.antt =====
-- What assigning and completing a task does to the load counters of the agent table
-- (AgentRegistryService.assign_task and complete_task).
use tacktcix.Prelude.{
  ℕ, ◌≡◌, ◌≢◌, refl, String, Option, none, some, List, [], ◌∷◌, arith, ◌==◌, nat_eq, eq_refl, inl,
  inr, nat_beq_iff, Bool-cases, if◌then◌else◌, Option-cases,
}
use tacktcix.Prelude.Float.{Float}
use tacktcix.Prelude.Int.{pos, ◌+ℤ◌, ◌-ℤ◌, ◌≤ℤ◌}
use tacktcix.Agents.{Agent, idle}
use tacktcix.Registry.{
  Backend, find_agent, change_agent, on_agent, take_task, drop_task, assign_task, complete_task,
  emit, task_assigned, task_completed,
}

module _ {f : Float} where
  -- The row found for `i` after the row of `j` was changed by `g`.
  abbrev pub touched : (i j : ℕ) → (Agent f → Agent f) → Option (Agent f) → Option (Agent f)
  touched i j g none = none
  touched i j g (some a) = some (if i == j then g a else a)

  -- A change that keeps the id is seen by the lookup of that id, and by no other.
  find_agent-change_agent :
      (i j : ℕ) (g : Agent f → Agent f) (rows : List (Agent f))
      → ((a : Agent f) → (g a).id ≡ a.id)
      → find_agent i (change_agent j g rows) ≡ touched i j g (find_agent i rows)
  unfolding find_agent change_agent
  find_agent-change_agent i j g [] keep = refl
  find_agent-change_agent i j g (a ∷ rows) keep =
      ground (arith, keep a, find_agent-change_agent i j g rows keep)

  touched_missing :
      (i j : ℕ) (g : Agent f → Agent f) (rows : List (Agent f))
      → find_agent j rows ≡ none
      → find_agent i rows ≡ touched i j g (find_agent i rows)
  touched_missing i j g rows missing = elim (Bool-cases (i == j)) [
    | inl same ↦ rw ((nat_beq_iff i j).0 same, missing)
    | inr other ↦ elim (Option-cases (find_agent i rows)) [
      | inl e ↦ rw e
      | inr (a, e) ↦ rw (e, other)
    ]
  ]

  pub find_agent-on_agent :
      (i j : ℕ) (g : Agent f → Agent f) (after : Agent f → Backend f → Backend f) (s : Backend f)
      → ((a : Agent f) → (g a).id ≡ a.id)
      → ((a : Agent f) (t : Backend f) → (after a t).agents ≡ t.agents)
      → find_agent i (on_agent j g after s).1.agents ≡ touched i j g (find_agent i s.agents)
  unfolding on_agent
  find_agent-on_agent i j g after s keep quiet = elim (Option-cases (find_agent j s.agents)) [
    | inl missing ↦ rw (missing, on_agent) (touched_missing i j g s.agents missing)
    | inr (a, found) ↦
        rw (found, on_agent)
          (rw (quiet (g a) (record s { agents = change_agent j g s.agents }))
            (find_agent-change_agent i j g s.agents keep))
  ]

  find_agent-assign_task :
      (i j : ℕ) (title : Option String) (s : Backend f)
      → find_agent i (assign_task j title s).1.agents
        ≡ touched i j take_task (find_agent i s.agents)
  unfolding assign_task
  find_agent-assign_task i j title s =
      find_agent-on_agent i j take_task (λ a. emit (task_assigned a title)) s (λ a. refl)
        (λ a t. refl)

  find_agent-complete_task :
      (i j : ℕ) (title : Option String) (s : Backend f)
      → find_agent i (complete_task j title s).1.agents
        ≡ touched i j drop_task (find_agent i s.agents)
  unfolding complete_task
  find_agent-complete_task i j title s =
      find_agent-on_agent i j drop_task (λ a. emit (task_completed a title)) s (λ a. refl)
        (λ a t. refl)

  drop-take_load :
      (a : Agent f)
      → pos 0 ≤ℤ a.current_load
      → (drop_task (take_task a)).current_load ≡ a.current_load
  unfolding drop_task take_task ◌+ℤ◌ ◌-ℤ◌
  drop-take_load a h = ground arith

  -- Assigning a task to an agent and completing it puts the agent's load counter back where it was,
  -- if that was not negative, and leaves the row of every other agent as it was.
  pub complete_task-assign_task :
      (i : ℕ) (title : Option String) (s : Backend f) (a : Agent f)
      → find_agent i s.agents ≡ some a
      → pos 0 ≤ℤ a.current_load
      → let s' = (complete_task i title (assign_task i title s).1).1 in
        ((b : Agent f) × (find_agent i s'.agents ≡ some b) × (b.current_load ≡ a.current_load))
        × ((j : ℕ) → j ≢ i → find_agent j s'.agents ≡ find_agent j s.agents)
  complete_task-assign_task i title s a found h = (
    (
      drop_task (take_task a),
      rw (find_agent-complete_task, find_agent-assign_task, found) (rw (eq_refl i)),
      drop-take_load a h,
    ),
    λ j other. rw (find_agent-complete_task, find_agent-assign_task) (ground arith),
  )

  -- Completing a task makes the agent idle as soon as it has room, whatever its status was: also an
  -- agent that is offline.
  complete_task_wakes :
      (i : ℕ) (title : Option String) (s : Backend f) (a : Agent f)
      → find_agent i s.agents ≡ some a
      → pos 1 ≤ℤ a.max_concurrent_tasks
      → a.current_load ≤ℤ a.max_concurrent_tasks
      → (b : Agent f) × (find_agent i (complete_task i title s).1.agents ≡ some b)
        × (b.status ≡ idle)
  complete_task_wakes i title s a found room fits = (
    drop_task a,
    rw (find_agent-complete_task, found) (rw (eq_refl i)),
    (unfold drop_task ◌-ℤ◌ in ground arith),
  )
