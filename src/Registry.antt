-- ===== src/Registry.antt =====
-- backend/app/services/agent_registry_service.py: the agent table and the operations on it.
-- The session's rows are a list; the event service is a log of the calls made to it, if there is one.
pub mod Load
pub mod Capacity
use tacktcix.Prelude.{
  ℕ, String, Bool, true, false, Option, none, some, List, [], ◌∷◌, ◌++◌, map, ◌==◌, if◌then◌else◌,
  not, nat_eq, string_eq, ◌&&◌, length, filter_by,
}
use tacktcix.Prelude.Dict.{Dict, get_or, insert, merge}
use tacktcix.Prelude.Float.{Float, eq_float}
use tacktcix.Prelude.Int.{ℤ, pos, ◌+ℤ◌, ◌-ℤ◌, leb_ℤ, ltb_ℤ, at_least_zero}
use tacktcix.Prelude.Json.{Json}
use tacktcix.Agents.{
  Agent, AgentRegister, AgentChange, set_name, set_description, set_status, set_capabilities,
  set_cost_per_task, set_max_concurrent_tasks, set_metadata, AgentRouteResult, idle, busy,
}
use tacktcix.Agents.Roles.{role_capabilities, role_cost, default_team}

-- A call of the event service with the values that its texts are made from.
pub data Emitted (f : Float) : Type 0 where
  agent_registered : (agent : Agent f) → Emitted f
  task_assigned : (agent : Agent f) (title : Option String) → Emitted f
  task_completed : (agent : Agent f) (title : Option String) → Emitted f
  task_routed : (company : ℕ) (title : String) (result : AgentRouteResult f) → Emitted f
  batch_routed : (company total assigned : ℕ) (unassigned_titles : List String) → Emitted f

-- The database session and the optional event service that the services share.
pub record Backend (f : Float) : Type 0 where
  pub agents : List (Agent f)
  pub events : Option (List (Emitted f))

module _ {f : Float} where
  -- `if self.events: await self.events...`
  unfoldable pub emit : Emitted f → Backend f → Backend f
  emit e s = record s { events = elim s.events [ none ↦ none | some log ↦ some (log ++ e ∷ []) ] }

  -- `payload.capabilities or ROLE_CAPABILITIES.get(payload.role, {})`
  unfoldable pub default_capabilities : AgentRegister f → Dict String f.F
  default_capabilities p = elim p.capabilities [
    | none ↦ get_or p.role [] (role_capabilities f)
    | some c ↦ elim c [ [] ↦ get_or p.role [] (role_capabilities f) | x ∷ r ↦ x ∷ r ]
  ]

  unfoldable pub register_agent :
      (company id : ℕ) → AgentRegister f → Backend f → Agent f × Backend f
  unfolding emit default_capabilities
  register_agent company id p s =
      let agent : Agent f = record {
        id = id;
        company_id = company;
        role = p.role;
        name = p.name;
        description = p.description;
        status = idle;
        capabilities = some (default_capabilities p);
        cost_per_task =
            if not (eq_float f p.cost_per_task (f.lit 1 0))
            then p.cost_per_task
            else get_or p.role (f.lit 1 0) (role_cost f);
        max_concurrent_tasks = p.max_concurrent_tasks;
        current_load = pos 0;
        meta = p.metadata;
      } in
      (agent, emit (agent_registered agent) (record s { agents = s.agents ++ agent ∷ [] }))

  -- `select(Agent).where(Agent.id == agent_id)`; the id is the primary key.
  unfoldable pub find_agent : ℕ → List (Agent f) → Option (Agent f)
  find_agent id [] = none
  find_agent id (a ∷ rows) = if id == a.id then some a else find_agent id rows

  -- The object that the session holds for a row is changed in place.
  unfoldable pub change_agent : ℕ → (Agent f → Agent f) → List (Agent f) → List (Agent f)
  change_agent id g [] = []
  change_agent id g (a ∷ rows) = if id == a.id then g a ∷ rows else a ∷ change_agent id g rows

  -- `setattr(agent, field, value)`. The column is called `meta`: an attribute `metadata` is no column.
  unfoldable pub set_field : AgentChange f → Agent f → Agent f
  set_field (set_name x) a = record a { name = x }
  set_field (set_description x) a = record a { description = x }
  set_field (set_status x) a = record a { status = x }
  set_field (set_capabilities x) a = record a { capabilities = x }
  set_field (set_cost_per_task x) a = record a { cost_per_task = x }
  set_field (set_max_concurrent_tasks x) a = record a { max_concurrent_tasks = x }
  set_field (set_metadata x) a = a

  unfoldable pub set_fields : List (AgentChange f) → Agent f → Agent f
  unfolding set_field
  set_fields [] a = a
  set_fields (c ∷ cs) a = set_fields cs (set_field c a)

  -- An operation on one row: `None` when the row is missing, and then nothing is written.
  unfoldable pub on_agent :
      ℕ
      → (Agent f → Agent f)
      → (Agent f → Backend f → Backend f)
      → Backend f
      → Option (Agent f) × Backend f
  unfolding find_agent change_agent
  on_agent id g after s = elim (find_agent id s.agents) [
    | none ↦ (none, s)
    | some a ↦ (some (g a), after (g a) (record s { agents = change_agent id g s.agents }))
  ]

  unfoldable pub update_agent : ℕ → List (AgentChange f) → Backend f → Option (Agent f) × Backend f
  unfolding on_agent set_fields
  update_agent id changes = on_agent id (set_fields changes) (λ _ s. s)

  remove_agent : ℕ → List (Agent f) → List (Agent f)
  remove_agent id [] = []
  remove_agent id (a ∷ rows) = if id == a.id then rows else a ∷ remove_agent id rows

  unfoldable pub delete_agent : ℕ → Backend f → Bool × Backend f
  unfolding find_agent remove_agent
  delete_agent id s = elim (find_agent id s.agents) [
    | none ↦ (false, s)
    | some a ↦ (true, record s { agents = remove_agent id s.agents })
  ]

  -- `agent.meta = {**(agent.meta or {}), **metadata}`, when the heartbeat carries metadata.
  unfoldable pub heartbeat_meta : Option (Dict String Json) → Agent f → Option (Dict String Json)
  heartbeat_meta none a = a.meta
  heartbeat_meta (some []) a = a.meta
  heartbeat_meta (some (e ∷ more)) a =
      some (merge (elim a.meta [ none ↦ [] | some d ↦ d ]) (e ∷ more))

  unfoldable pub update_heartbeat :
      ℕ → ℤ → String → Option (Dict String Json) → Backend f → Option (Agent f) × Backend f
  unfolding on_agent heartbeat_meta
  update_heartbeat id load status metadata =
      on_agent id
        (λ a. record a { current_load = load; status = status; meta = heartbeat_meta metadata a })
        (λ _ s. s)

  -- The load goes up by one, and an agent without room becomes busy.
  unfoldable pub take_task : Agent f → Agent f
  take_task a =
      let load = a.current_load +ℤ pos 1 in
      record a {
        current_load = load;
        status = if leb_ℤ a.max_concurrent_tasks load then busy else a.status;
      }

  unfoldable pub assign_task : ℕ → Option String → Backend f → Option (Agent f) × Backend f
  unfolding on_agent take_task emit
  assign_task id title = on_agent id take_task (λ a. emit (task_assigned a title))

  -- The load goes down by one, not below zero, and an agent with room becomes idle.
  unfoldable pub drop_task : Agent f → Agent f
  unfolding at_least_zero
  drop_task a =
      let load = at_least_zero (a.current_load -ℤ pos 1) in
      record a {
        current_load = load;
        status = if ltb_ℤ load a.max_concurrent_tasks then idle else a.status;
      }

  unfoldable pub complete_task : ℕ → Option String → Backend f → Option (Agent f) × Backend f
  unfolding on_agent drop_task emit
  complete_task id title = on_agent id drop_task (λ a. emit (task_completed a title))

  -- The rows of a company, of one role if a role is given, of one status if a status is given. The
  -- database puts them in the order of their roles: `by_role` is its sort.
  unfoldable pub selected : ℕ → Option String → Option String → Agent f → Bool
  selected company role status a =
      (company == a.company_id)
      && elim role [ none ↦ true | some r ↦ if r == "" then true else r == a.role ]
      && elim status [ none ↦ true | some t ↦ if t == "" then true else t == a.status ]

  unfoldable pub list_agents :
      (List (Agent f) → List (Agent f))
      → ℕ
      → Option String
      → Option String
      → Backend f
      → List (Agent f)
  unfolding selected
  list_agents by_role company role status s =
      by_role (filter_by (selected company role status) s.agents)

  unfoldable pub register_all :
      (company : ℕ) (new_id : ℕ → ℕ)
      → List (AgentRegister f)
      → Backend f
      → List (Agent f) × Backend f
  unfolding register_agent
  register_all company new_id [] s = ([], s)
  register_all company new_id (p ∷ ps) s =
      let (agent, s') = register_agent company (new_id (length s.agents)) p s in
      let (rest, s'') = register_all company new_id ps s' in (agent ∷ rest, s'')

  -- The standard team is registered for a company that has no agent yet. `new_id` stands for the
  -- UUID that the database draws for a row.
  unfoldable pub seed_default_agents :
      (List (Agent f) → List (Agent f))
      → (new_id : ℕ → ℕ) → ℕ
      → Backend f
      → List (Agent f) × Backend f
  unfolding list_agents register_all
  seed_default_agents by_role new_id company s = elim (list_agents by_role company none none s) [
    | [] ↦ register_all company new_id (default_team f) s
    | a ∷ rest ↦ (a ∷ rest, s)
  ]
