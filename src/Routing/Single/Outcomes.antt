-- ===== src/Routing/Single/Outcomes.antt =====
-- How routing a single task ends: with a healthy agent of the company, or, where there is none, with
-- the exception.
use mathlib.Core.List.{Mem, Perm}
use mathlib.Core.List.Perm
use tacktcix.Prelude.{
  ℕ, ◌≡◌, ◌⊎◌, refl, String, true, false, Option, none, some, List, [], ◌∷◌, arith, All, All-zip,
  All-map_weaken, filter_by, filter_by-All, All-filter_by, inl, inr, nat_eq, string_eq, ◌==◌, ◌≢◌,
  Bool-cases, filter_by-none, All-unfilter,
}
use text.Mathlib.TextEquality.{eq_iff}
use tacktcix.Prelude.Float.{Float}
use tacktcix.Prelude.Outcome.{ok, raise, runtime_error}
use tacktcix.Prelude.Perms.{All-perm, All-Mem}
use tacktcix.Agents.{Agent, AgentRouteRequest, AgentRouteResult}
use tacktcix.Registry.{Backend, emit, task_routed, selected}
use tacktcix.Routing.Scores.{Scored}
use tacktcix.Routing.Select.{healthy_candidates, is_healthy, select_best, to_result}
use tacktcix.Routing.Best.{select_best-All}
use tacktcix.Routing.Single.{route_task, route_task_to_role, from_role}

module _ {f : Float} where
  -- Selection raises on no candidates, and on others returns one with what holds of all.
  select_cases :
      (Q : Agent f → Type 0) (r : AgentRouteRequest f) (cs : List (Agent f))
      → All Q cs
      → (cs ≡ []) × (select_best r cs ≡ raise runtime_error)
        ⊎ ((t : Scored f) × (select_best r cs ≡ ok (to_result t)) × Q t.agent)
  unfolding select_best
  select_cases Q r [] h = inl (refl, refl)
  select_cases Q r (c ∷ cs) h = inr (select_best-All Q r c cs h)

module _ {f : Float} (by_role : List (Agent f) → List (Agent f))
    (reorders : (rows : List (Agent f)) → Perm (by_role rows) rows) (company : ℕ) where
  -- A row of the table that may be given a task: of the company, and idle or busy.
  abbrev pub IsEligible : Backend f → Agent f → Type 0
  IsEligible s a =
      Mem a s.agents × (company ≡ a.company_id) × (a.status ≡ "idle" ⊎ a.status ≡ "busy")

  -- A row that may not be given one.
  abbrev pub IsIneligible : Agent f → Type 0
  IsIneligible a = company ≡ a.company_id → (a.status ≢ "idle") × (a.status ≢ "busy")

  is_healthy-status : (a : Agent f) → is_healthy a ≡ true → a.status ≡ "idle" ⊎ a.status ≡ "busy"
  is_healthy-status a h = elim (Bool-cases (a.status == "idle")) [
    | inl e ↦ inl ((eq_iff a.status "idle").0 e)
    | inr e ↦ inr ((eq_iff a.status "busy").0 (rw e at h))
  ]

  status-is_healthy :
      (a : Agent f) → is_healthy a ≡ false → (a.status ≢ "idle") × (a.status ≢ "busy")
  status-is_healthy a h = (
    λ e. let e' = (eq_iff a.status "idle").1 e in ground (arith, e', h),
    λ e. let e' = (eq_iff a.status "busy").1 e in ground (arith, e', h),
  )

  selected-company :
      (role status : Option String) (a : Agent f)
      → selected company role status a ≡ true
      → company ≡ a.company_id
  unfolding selected
  selected-company role status a h = ground arith

  selected-role :
      (role : String) (status : Option String) (a : Agent f)
      → selected company (some role) status a ≡ true
      → (role == "") ≡ false
      → (role == a.role) ≡ true
  unfolding selected
  selected-role role status a h named = ground arith

  -- What the query selects by holds of every healthy candidate.
  healthy-All :
      (P : Agent f → Type 0) (role : Option String) (s : Backend f)
      → ((a : Agent f) → IsProp (P a))
      → ((a : Agent f) → Mem a s.agents → selected company role none a ≡ true → P a)
      → All (λ a. P a × (is_healthy a ≡ true)) (healthy_candidates by_role company role s)
  unfolding healthy_candidates
  healthy-All P role s prop from =
      let rows = filter_by (selected company role none) s.agents in
      let found : All P rows =
        All-map_weaken (λ a. Mem a s.agents × (selected company role none a ≡ true)) P rows
          (λ a h. from a h.0 h.1)
          (All-zip _ _ rows (filter_by-All _ _ s.agents (All-Mem s.agents))
            (All-filter_by _ s.agents)) in
      let listed = All-perm P prop rows (by_role rows) (Perm.symm (reorders rows)) found in
      All-zip _ _ (filter_by is_healthy (by_role rows))
        (filter_by-All P is_healthy (by_role rows) listed) (All-filter_by is_healthy (by_role rows))

  healthy-IsEligible :
      (role : Option String) (s : Backend f)
      → All (IsEligible s) (healthy_candidates by_role company role s)
  healthy-IsEligible role s =
      All-map_weaken _ _ (healthy_candidates by_role company role s)
        (λ a h. (h.0.0, h.0.1, is_healthy-status a h.1))
        (healthy-All (λ a. Mem a s.agents × (company ≡ a.company_id)) role s (λ a. hlevel)
          (λ a m h. (m, selected-company role none a h)))

  company-selected : (a : Agent f) → company ≡ a.company_id → selected company none none a ≡ true
  unfolding selected
  company-selected a h = ground (arith, h)

  -- Where no candidate is left, no agent of the company may be given a task.
  none_healthy-IsIneligible :
      (s : Backend f) → healthy_candidates by_role company none s ≡ [] → All IsIneligible s.agents
  unfolding healthy_candidates
  none_healthy-IsIneligible s e =
      let rows = filter_by (selected company none none) s.agents in
      let unhealthy =
        All-perm (λ a. is_healthy a ≡ false) (λ a. hlevel) (by_role rows) rows (reorders rows)
          (filter_by-none is_healthy (by_role rows) e) in
      All-map_weaken _ _ s.agents (λ a h same. status-is_healthy a (h (company-selected a same)))
        (All-unfilter _ (selected company none none) s.agents unhealthy)

  -- Routing a task ends in one of two ways. It raises RuntimeError, and every agent of the company in
  -- the table has a status other than idle and busy; or it returns the id of an agent that is in the table, of the company and idle or busy, and
  -- changes no row.
  pub route_task_outcome :
      (r : AgentRouteRequest f) (s : Backend f)
      → (route_task by_role company r s ≡ raise runtime_error) × All IsIneligible s.agents
        ⊎ ((a : Agent f) × (x : AgentRouteResult f) × (s' : Backend f) × (route_task by_role company
                r s
              ≡ ok (x, s'))
            × (x.agent_id ≡ a.id)
            × IsEligible s a
            × (s'.agents ≡ s.agents))
  unfolding route_task to_result
  route_task_outcome r s = elim (select_cases (IsEligible s) r _ (healthy-IsEligible none s)) [
    | inl (e, k) ↦ inl (rw k, none_healthy-IsIneligible s e)
    | inr (t, k, q) ↦ inr (
      t.agent,
      to_result t,
      emit (task_routed company r.task_title (to_result t)) s,
      rw k,
      refl,
      q,
      refl,
    )
  ]

  from_role-cases :
      (r : AgentRouteRequest f) (role : String) (s : Backend f) (cs : List (Agent f))
      → All (λ a. IsEligible s a × ((role == "") ≡ false → role ≡ a.role)) cs
      → (from_role by_role company r s cs ≡ route_task by_role company r s) × (cs ≡ [])
        ⊎ ((a : Agent f) × (x : AgentRouteResult f) × (from_role by_role company r s cs ≡ ok (x, s))
            × (x.agent_id ≡ a.id)
            × IsEligible s a
            × ((role == "") ≡ false → role ≡ a.role))
  unfolding from_role to_result
  from_role-cases r role s [] h = inl (refl, refl)
  from_role-cases r role s (c ∷ cs) h =
      let (t, k, q) =
        select_best-All (λ a. IsEligible s a × ((role == "") ≡ false → role ≡ a.role)) r c cs h in
      inr (t.agent, to_result t, rw k, refl, q.0, q.1)

  -- Routing a task to a role returns an agent in the table, of the company, idle or busy, and of the
  -- role (unless the role is the empty text), and changes nothing; or no agent of the role is healthy,
  -- and the outcome is that of routing the task to any agent.
  pub route_task_to_role_outcome :
      (r : AgentRouteRequest f) (role : String) (s : Backend f)
      → (route_task_to_role by_role company r role s ≡ route_task by_role company r s)
          × (healthy_candidates by_role company (some role) s ≡ [])
        ⊎ ((a : Agent f) × (x : AgentRouteResult f) × (route_task_to_role by_role company r role s
              ≡ ok (x, s))
            × (x.agent_id ≡ a.id)
            × IsEligible s a
            × ((role == "") ≡ false → role ≡ a.role))
  unfolding route_task_to_role
  route_task_to_role_outcome r role s =
      from_role-cases r role s (healthy_candidates by_role company (some role) s) (
        All-map_weaken _ _ (healthy_candidates by_role company (some role) s)
          (λ a h. (
            (h.0.0, h.0.1, is_healthy-status a h.1),
            λ named. (eq_iff role a.role).0 (h.0.2 named),
          ))
          (healthy-All
            (λ a.
              Mem a s.agents
              × (company ≡ a.company_id)
              × ((role == "") ≡ false → (role == a.role) ≡ true))
            (some role) s (λ a. hlevel)
            (λ a m h. (m, selected-company (some role) none a h, selected-role role none a h))))
