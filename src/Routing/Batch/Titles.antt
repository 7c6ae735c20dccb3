-- ===== src/Routing/Batch/Titles.antt =====
-- The batch pass loses no task and invents none.
use mathlib.Core.List.{Perm, append_assoc, map-append, append-nil, perm_middle}
use mathlib.Core.List.Perm
use tacktcix.Prelude.{ℕ, ◌≡◌, refl, String, Option, none, some, List, [], ◌∷◌, ◌++◌, map, ap}
use tacktcix.Prelude.Float.{Float}
use tacktcix.Prelude.Outcome.{ok}
use tacktcix.Prelude.Sorting.{sort, sort-perm}
use tacktcix.Agents.{Agent, AgentRouteRequest, AgentRouteResult, BatchRouteResponse}
use tacktcix.Routing.Batch.{
  RoutePass, start, by_priority, route_batch, publish_batch, batch_route_tasks,
}
use tacktcix.Registry.{Backend}
use tacktcix.Routing.Select.{healthy_candidates}
use tacktcix.Routing.Batch.Rules.{RouteStep, skipped, assigned, route_each_ind}
use tacktcix.Routing.Batch.Total.{route_batch_total}

module _ {A : Type 0} (xs ys zs : List A) (t : A) where
  -- A value moves from the front of the third list to the end of the second, or of the first.
  move_second : (xs ++ (ys ++ t ∷ [])) ++ zs ≡ (xs ++ ys) ++ t ∷ zs
  move_second = simp append_assoc

  first_left : ((xs ++ t ∷ []) ++ ys) ++ zs ≡ xs ++ t ∷ (ys ++ zs)
  first_left = simp append_assoc

  move_first : Perm (((xs ++ t ∷ []) ++ ys) ++ zs) ((xs ++ ys) ++ t ∷ zs)
  move_first = rw first_left (
      Perm.trans (perm_middle xs (ys ++ zs))
        (rw (← append_assoc xs ys zs) (Perm.symm (perm_middle (xs ++ ys) zs))))

module _ {f : Float} where
  abbrev pub titles : List (AgentRouteRequest f) → List (Option String)
  titles rs = map (λ r. some r.task_title) rs

  -- The titles that the result accounts for: those of the assignments and the unassigned ones.
  abbrev pub answered : List (AgentRouteResult f) → List String → List (Option String)
  answered assignments unassigned = map (λ x. x.task_title) assignments ++ map some unassigned

  -- What is answered and what is still to come are the requests that the pass began with.
  IsFull : List (Option String) → List (AgentRouteRequest f) → RoutePass f → Type 0
  IsFull all rs p = Perm (answered p.assignments p.unassigned ++ titles rs) all

  IsFull-step :
      (cs : List (Agent f)) (all : List (Option String)) (r : AgentRouteRequest f)
      (rs : List (AgentRouteRequest f)) (p p' : RoutePass f)
      → RouteStep cs r p p'
      → IsFull all (r ∷ rs) p
      → IsFull all rs p'
  unfolding IsFull
  IsFull-step cs all r rs p p' (skipped _ e) h =
      rw (e, map-append) (rw (move_second _ _ (titles rs) _) h)
  IsFull-step cs all r rs p p' (assigned s v _ _ e) h =
      rw (e, map-append) (Perm.trans (move_first _ _ (titles rs) _) h)

  start-IsFull :
      (cs : List (Agent f)) (requests : List (AgentRouteRequest f))
      → IsFull (titles requests) (sort by_priority requests) (start cs)
  unfolding IsFull
  start-IsFull cs requests = Perm.map (λ r. some r.task_title) (sort-perm by_priority requests)

  map-some : (rs : List (AgentRouteRequest f)) → map some (map (λ r. r.task_title) rs) ≡ titles rs
  map-some [] = refl
  map-some (r ∷ rs) = ap (◌∷◌ (some r.task_title)) (map-some rs)

  publish_batch_agents :
      (company : ℕ) (cs : List (Agent f)) (requests : List (AgentRouteRequest f))
      (res : BatchRouteResponse f) (s : Backend f)
      → (publish_batch company cs requests res s).agents ≡ s.agents
  unfolding publish_batch
  publish_batch_agents company [] requests res s = refl
  publish_batch_agents company (c ∷ cs) requests res s = refl

  -- Over any candidates, none included, the pass returns, and its assignments' titles and its
  -- unassigned titles are together the requests' titles, each as often as it was requested.
  route_batch-titles :
      (cs : List (Agent f)) (requests : List (AgentRouteRequest f))
      → (res : BatchRouteResponse f) × (route_batch cs requests ≡ ok res)
        × Perm (answered res.assignments res.unassigned) (titles requests)
  unfolding route_batch IsFull
  route_batch-titles [] requests = (_, refl, rw (map-some requests) Perm.rfl)
  route_batch-titles (c ∷ cs) requests =
      let (q, run, e) = route_batch_total c cs requests in
      (
        _,
        e,
        rw (← append-nil (answered q.assignments q.unassigned)) (
            route_each_ind (c ∷ cs) (IsFull (titles requests))
              (IsFull-step (c ∷ cs) (titles requests)) _ _ (start-IsFull (c ∷ cs) requests) run),
      )

  -- Batch routing never raises. The titles of its assignments and the unassigned titles are together
  -- the titles of the requests, each as often as it was requested, and no agent's row is changed.
  pub batch_route_tasks_accounts :
      (by_role : List (Agent f) → List (Agent f)) (company : ℕ)
      (requests : List (AgentRouteRequest f)) (s : Backend f)
      → (res : BatchRouteResponse f) × (s' : Backend f) × (batch_route_tasks by_role company
            requests s
          ≡ ok (res, s'))
        × Perm (answered res.assignments res.unassigned) (titles requests)
        × (s'.agents ≡ s.agents)
  unfolding batch_route_tasks
  batch_route_tasks_accounts by_role company requests s =
      let candidates = healthy_candidates by_role company none s in
      let (res, e, full) = route_batch-titles candidates requests in
      (
        res,
        publish_batch company candidates requests res s,
        rw e,
        full,
        publish_batch_agents company candidates requests res s,
      )
