-- ===== src/Registry/Capacity.antt =====
-- An idle agent has room for one more task: an invariant of the registry's operations, as a step
-- relation on the agent table (backend/app/services/agent_registry_service.py).
use tacktcix.Prelude.{
  ℕ, ◌≡◌, ◌≢◌, refl, String, false, Option, none, some, List, [], ◌∷◌, arith, ◌==◌, nat_eq,
  string_eq, All, All-append, Bool-cases, Option-cases, ◌⊎◌, inl, inr, length,
}
use tacktcix.Prelude.Dict.{Dict}
use tacktcix.Prelude.Float.{Float}
use tacktcix.Prelude.Int.{ℤ, pos, ◌+ℤ◌, ◌-ℤ◌, ◌≤ℤ◌, leb_ℤ}
use tacktcix.Prelude.Json.{Json}
use tacktcix.Agents.{Agent, AgentRegister, AgentChange, idle, busy}
use tacktcix.Agents.Roles.{default_team}
use tacktcix.Registry.{
  Backend, find_agent, change_agent, on_agent, take_task, drop_task, register_agent, remove_agent,
  delete_agent, update_agent, set_fields, register_all, seed_default_agents, list_agents,
  update_heartbeat, assign_task, complete_task, emit, task_assigned, task_completed, heartbeat_meta,
}
use text.Mathlib.TextEquality.{eq_iff}

pub record IsSound {f : Float} (a : Agent f) : Type 0 where
  pub nonneg : pos 0 ≤ℤ a.current_load
  pub room : a.status ≡ idle → leb_ℤ a.max_concurrent_tasks a.current_load ≡ false

-- One call of the registry. A heartbeat is an agent's own report and an update the user's choice: both
-- are taken over as they are, so the step is there for a report, or for changes, that leave the agent
-- sound.
pub data Step {f : Float} (s : Backend f) : Backend f → Type 0 where
  register :
      (company id : ℕ) (p : AgentRegister f)
      → pos 1 ≤ℤ p.max_concurrent_tasks
      → Step s (register_agent company id p s).1
  assign : (id : ℕ) (title : Option String) → Step s (assign_task id title s).1
  complete : (id : ℕ) (title : Option String) → Step s (complete_task id title s).1
  delete : (id : ℕ) → Step s (delete_agent id s).1
  update :
      (id : ℕ) (changes : List (AgentChange f))
      → ((a : Agent f) → find_agent id s.agents ≡ some a → IsSound (set_fields changes a))
      → Step s (update_agent id changes s).1
  seed :
      (by_role : List (Agent f) → List (Agent f)) (new_id : ℕ → ℕ) (company : ℕ)
      → Step s (seed_default_agents by_role new_id company s).1
  heartbeat :
      (id : ℕ) (load : ℤ) (status : String) (metadata : Option (Dict String Json))
      → pos 0 ≤ℤ load
      → ((a : Agent f)
          → find_agent id s.agents ≡ some a
          → status ≡ idle
          → leb_ℤ a.max_concurrent_tasks load ≡ false)
      → Step s (update_heartbeat id load status metadata s).1

pub data Reach {f : Float} (s : Backend f) : Backend f → Type 0 where
  here : Reach s s
  next : {t u : Backend f} → Reach s t → Step t u → Reach s u

busy≢idle : busy ≢ idle
busy≢idle = ground (arith, eq_iff "busy" "idle")

-- Each agent of the standard team may hold a task.
default_team-valid : (f : Float) → All (λ p. pos 1 ≤ℤ p.max_concurrent_tasks) (default_team f)
unfolding default_team
default_team-valid f = ground arith

List-cases : {A : Type 0} (xs : List A) → xs ≡ [] ⊎ ((x : A) × (rest : List A) × (xs ≡ x ∷ rest))
List-cases [] = inl refl
List-cases (x ∷ rest) = inr (x, rest, refl)

module _ {f : Float} where
  change_agent-IsSound :
      (i : ℕ) (g : Agent f → Agent f) (rows : List (Agent f))
      → ((a : Agent f) → find_agent i rows ≡ some a → IsSound a → IsSound (g a))
      → All IsSound rows
      → All IsSound (change_agent i g rows)
  unfolding change_agent find_agent
  change_agent-IsSound i g [] keep h = tt
  change_agent-IsSound i g (a ∷ rows) keep h = elim (Bool-cases (i == a.id)) [
    | inl e ↦ rw e (keep a (rw e) h.0, h.1)
    | inr e ↦ rw e (h.0, change_agent-IsSound i g rows (λ b found. keep b (rw e found)) h.1)
  ]

  on_agent-IsSound :
      (i : ℕ) (g : Agent f → Agent f) (after : Agent f → Backend f → Backend f) (s : Backend f)
      → ((a : Agent f) → find_agent i s.agents ≡ some a → IsSound a → IsSound (g a))
      → ((a : Agent f) (t : Backend f) → (after a t).agents ≡ t.agents)
      → All IsSound s.agents
      → All IsSound (on_agent i g after s).1.agents
  unfolding on_agent
  on_agent-IsSound i g after s keep quiet h = elim (Option-cases (find_agent i s.agents)) [
    | inl missing ↦ rw (missing, on_agent) h
    | inr (a, found) ↦
        rw (found, on_agent)
          (rw (quiet (g a) (record s { agents = change_agent i g s.agents }))
            (change_agent-IsSound i g s.agents keep h))
  ]

  take_task-IsSound : (a : Agent f) → IsSound a → IsSound (take_task a)
  unfolding take_task ◌+ℤ◌
  take_task-IsSound a h = ground (arith, busy≢idle)

  drop_task-IsSound : (a : Agent f) → IsSound a → IsSound (drop_task a)
  unfolding drop_task ◌-ℤ◌
  drop_task-IsSound a h = ground arith

  remove_agent-IsSound :
      (i : ℕ) (rows : List (Agent f)) → All IsSound rows → All IsSound (remove_agent i rows)
  unfolding remove_agent
  remove_agent-IsSound i [] h = tt
  remove_agent-IsSound i (a ∷ rows) h = elim (Bool-cases (i == a.id)) [
    | inl e ↦ rw e h.1
    | inr e ↦ rw e (h.0, remove_agent-IsSound i rows h.1)
  ]

  delete_agent-IsSound :
      (i : ℕ) (s : Backend f) → All IsSound s.agents → All IsSound (delete_agent i s).1.agents
  unfolding delete_agent
  delete_agent-IsSound i s h = elim (Option-cases (find_agent i s.agents)) [
    | inl missing ↦ rw (missing, delete_agent) h
    | inr (a, found) ↦ rw (found, delete_agent) (remove_agent-IsSound i s.agents h)
  ]

  register_all-IsSound :
      (company : ℕ) (new_id : ℕ → ℕ) (ps : List (AgentRegister f)) (s : Backend f)
      → All (λ p. pos 1 ≤ℤ p.max_concurrent_tasks) ps
      → All IsSound s.agents
      → All IsSound (register_all company new_id ps s).1.agents
  unfolding register_all register_agent
  register_all-IsSound company new_id [] s valid h = h
  register_all-IsSound company new_id (p ∷ ps) s valid h =
      register_all-IsSound company new_id ps
        (register_agent company (new_id (length s.agents)) p s).1 valid.1
        (All-append IsSound s.agents _ h (let room = valid.0 in ground arith, tt))

  seed_default_agents-IsSound :
      (by_role : List (Agent f) → List (Agent f)) (new_id : ℕ → ℕ) (company : ℕ) (s : Backend f)
      → All IsSound s.agents
      → All IsSound (seed_default_agents by_role new_id company s).1.agents
  unfolding seed_default_agents
  seed_default_agents-IsSound by_role new_id company s h =
      elim (List-cases (list_agents by_role company none none s)) [
        | inl e ↦
            rw (e, seed_default_agents)
              (register_all-IsSound company new_id (default_team f) s (default_team-valid f) h)
        | inr (a, rest, e) ↦ rw (e, seed_default_agents) h
      ]

  Step-IsSound : {s t : Backend f} → Step s t → All IsSound s.agents → All IsSound t.agents
  unfolding register_agent assign_task complete_task update_agent update_heartbeat
  Step-IsSound {s = s} (register company id p valid) h =
      All-append IsSound s.agents _ h (ground arith, tt)
  Step-IsSound {s = s} (assign id title) h =
      on_agent-IsSound id take_task (λ a. emit (task_assigned a title)) s
        (λ a _. take_task-IsSound a) (λ a t. refl) h
  Step-IsSound {s = s} (complete id title) h =
      on_agent-IsSound id drop_task (λ a. emit (task_completed a title)) s
        (λ a _. drop_task-IsSound a) (λ a t. refl) h
  Step-IsSound {s = s} (delete id) h = delete_agent-IsSound id s h
  Step-IsSound {s = s} (update id changes valid) h =
      on_agent-IsSound id (set_fields changes) (λ _ t. t) s (λ a found _. valid a found)
        (λ a t. refl) h
  Step-IsSound {s = s} (seed by_role new_id company) h =
      seed_default_agents-IsSound by_role new_id company s h
  Step-IsSound {s = s} (heartbeat id load status metadata valid other) h =
      on_agent-IsSound id
        (λ a. record a { current_load = load; status = status; meta = heartbeat_meta metadata a })
        (λ _ t. t) s (λ a found sound. record { nonneg = valid; room = other a found })
        (λ a t. refl) h

  -- From a table of sound agents (a load of at least zero, and below the maximum where the agent is
  -- idle), every state that the registry's calls lead to has sound agents only: registrations of a
  -- maximum of at least one, the seeding of the standard team, assignments, completions, deletions,
  -- updates that leave the updated agent sound, and heartbeats that report a load of at least zero, and
  -- the status idle only below the agent's maximum.
  pub Reach-IsSound : {s t : Backend f} → All IsSound s.agents → Reach s t → All IsSound t.agents
  Reach-IsSound h here = h
  Reach-IsSound h (next r st) = Step-IsSound st (Reach-IsSound h r)
