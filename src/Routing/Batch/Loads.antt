-- ===== src/Routing/Batch/Loads.antt =====
-- The loads under the batch pass: no agent is given more than it can hold, and a task is left over
-- only where no agent can hold one more.
use tacktcix.Prelude.{
  ℕ, ◌≡◌, ◌≢◌, ◌⊎◌, refl, sym, true, false, some, List, [], ◌∷◌, ◌++◌, arith, ◌+◌, nat_eq, ◌==◌,
  nat_beq_iff, All, All-zip, All-map_weaken, true_not_false, if◌then◌else◌, Bool-cases, inl, inr,
  subst, eq_refl, ◌∙◌, ap, map,
}
use mathlib.Core.Option.{some-injective}
use tacktcix.Prelude.Dict.{Dict, lookup, insert, lookup-insert}
use tacktcix.Prelude.Float.{Float}
use tacktcix.Prelude.Int.{ℤ, pos, ◌+ℤ◌, ◌≤ℤ◌, leb_ℤ, int_laws, room_for_one, ≤ℤ→leb_ℤ}
use tacktcix.Prelude.Outcome.{ok}
use tacktcix.Agents.{Agent, AgentRouteRequest, AgentRouteResult, BatchRouteResponse}
use tacktcix.Routing.Scores.{Scored}
use tacktcix.Routing.Select.{is_saturated, to_result}
use tacktcix.Routing.Batch.{RoutePass, load_table, start, route_batch}
use tacktcix.Routing.Batch.Rules.{
  RouteStep, skipped, assigned, route_each_ind, best_free-All, best_free-none,
}
use tacktcix.Routing.Batch.Total.{route_batch_total}

plus_none : (l : ℤ) → l ≡ l +ℤ pos 0
plus_none l = omega int_laws

module _ {f : Float} where
  -- No two agents of the list have the same id: the id is the table's primary key.
  abbrev pub IsKeyed : List (Agent f) → Type 0
  IsKeyed [] = Unit
  IsKeyed (a ∷ rest) = All (λ b. a.id ≢ b.id) rest × IsKeyed rest

  abbrev pub assigned_to : ℕ → List (AgentRouteResult f) → ℕ
  assigned_to id [] = 0
  assigned_to id (x ∷ xs) = (if id == x.agent_id then 1 else 0) + assigned_to id xs

  -- The load that the agent will have once its assignments are recorded.
  abbrev pub load_after : Agent f → List (AgentRouteResult f) → ℤ
  load_after a assignments = a.current_load +ℤ pos (assigned_to a.id assignments)

  Owns : List (Agent f) → Agent f → Type 0
  Owns cs a = All (λ b. b.id ≡ a.id → b ≡ a) cs

  IsKeyed-Owns : (cs : List (Agent f)) → IsKeyed cs → All (Owns cs) cs
  unfolding Owns
  IsKeyed-Owns [] k = tt
  IsKeyed-Owns (c ∷ cs) (k, ks) = (
    (λ e. refl, All-map_weaken (λ b. c.id ≢ b.id) _ cs (λ b ne e. absurd (ne (sym e))) k),
    All-map_weaken (λ a. (c.id ≢ a.id) × Owns cs a) _ cs (λ a h. (λ e. absurd (h.0 e), h.1))
        (All-zip _ _ cs k (IsKeyed-Owns cs ks)),
  )

  assigned_to-snoc :
      (id : ℕ) (xs : List (AgentRouteResult f)) (x : AgentRouteResult f)
      → assigned_to id (xs ++ x ∷ []) ≡ assigned_to id xs + (if id == x.agent_id then 1 else 0)
  assigned_to-snoc id [] x = ground arith
  assigned_to-snoc id (y ∷ xs) x = ground (arith, assigned_to-snoc id xs x)

  record Inv (p : RoutePass f) (a : Agent f) : Type 0 where
    entry : lookup a.id p.virtual_load ≡ some (load_after a p.assignments)
    fits :
        pos 1 ≤ℤ a.max_concurrent_tasks
        → a.current_load ≤ℤ a.max_concurrent_tasks
        → load_after a p.assignments ≤ℤ a.max_concurrent_tasks
    full :
        (p.unassigned ≡ [])
        ⊎ ((pos 1 ≤ℤ a.max_concurrent_tasks)
            × (a.max_concurrent_tasks ≤ℤ load_after a p.assignments))

  saturated :
      (table : Dict ℕ ℤ) (a : Agent f) (v : ℤ)
      → lookup a.id table ≡ some v
      → is_saturated table a ≡ true
      → (pos 1 ≤ℤ a.max_concurrent_tasks) × (a.max_concurrent_tasks ≤ℤ v)
  saturated table a v e h = ground arith

  not_saturated :
      (table : Dict ℕ ℤ) (a : Agent f) (v : ℤ)
      → lookup a.id table ≡ some v
      → is_saturated table a ≡ false
      → pos 1 ≤ℤ a.max_concurrent_tasks
      → leb_ℤ a.max_concurrent_tasks v ≡ false
  not_saturated table a v e h m = ground arith

  is_full :
      (q : RoutePass f) (a : Agent f)
      → q.unassigned ≢ []
      → (q.unassigned ≡ [])
        ⊎ ((pos 1 ≤ℤ a.max_concurrent_tasks)
            × (a.max_concurrent_tasks ≤ℤ load_after a q.assignments))
      → (pos 1 ≤ℤ a.max_concurrent_tasks) × (a.max_concurrent_tasks ≤ℤ load_after a q.assignments)
  is_full q a left (inl nothing) = absurd (left nothing)
  is_full q a left (inr full) = full

  skipped-Inv :
      (r : AgentRouteRequest f) (p : RoutePass f) (a : Agent f)
      → (is_saturated p.virtual_load a ≡ true) × Inv p a
      → Inv (record p { unassigned = p.unassigned ++ r.task_title ∷ [] }) a
  skipped-Inv r p a (sat, i) = record {
    entry = i.entry;
    fits = i.fits;
    full = inr (saturated p.virtual_load a _ i.entry sat);
  }

  chosen_load :
      (a : Agent f) (xs : List (AgentRouteResult f)) (x : AgentRouteResult f)
      → (a.id == x.agent_id) ≡ true
      → load_after a (xs ++ x ∷ []) ≡ load_after a xs +ℤ pos 1
  chosen_load a xs x h = rw (assigned_to-snoc a.id xs x, h) (omega int_laws)

  other_load :
      (a : Agent f) (xs : List (AgentRouteResult f)) (x : AgentRouteResult f)
      → (a.id == x.agent_id) ≡ false
      → load_after a (xs ++ x ∷ []) ≡ load_after a xs
  other_load a xs x h = rw (assigned_to-snoc a.id xs x, h) (omega int_laws)

  module _ (r : AgentRouteRequest f) (p : RoutePass f) (s : Scored f) (a : Agent f) where
    abbrev chosen : AgentRouteResult f
    chosen = record (to_result s) { task_title = some r.task_title }

    abbrev after : ℤ → RoutePass f
    after v = record p {
      virtual_load = insert s.agent.id (v +ℤ pos 1) p.virtual_load;
      assignments = p.assignments ++ chosen ∷ [];
    }

    -- The invariant of the agent that is chosen.
    chosen-Inv :
        (v : ℤ)
        → (a.id == s.agent.id) ≡ true
        → is_saturated p.virtual_load a ≡ false
        → v ≡ load_after a p.assignments
        → Inv p a
        → Inv (after v) a
    unfolding to_result
    chosen-Inv v e free ev i = record {
      entry =
          rw (lookup-insert s.agent.id a.id (v +ℤ pos 1) p.virtual_load, e)
            (rw (chosen_load a p.assignments chosen e, ev) refl);
      fits = λ m h.
          rw (chosen_load a p.assignments chosen e) (
            room_for_one _ a.max_concurrent_tasks
              (not_saturated p.virtual_load a _ i.entry free m));
      full = elim i.full [
        | inl none_left ↦ inl none_left
        | inr (m, h) ↦ absurd (
            true_not_false (≤ℤ→leb_ℤ a.max_concurrent_tasks _ h)
              (not_saturated p.virtual_load a _ i.entry free m))
      ];
    }

    other-Inv : (v : ℤ) → (a.id == s.agent.id) ≡ false → Inv p a → Inv (after v) a
    unfolding to_result
    other-Inv v e i = record {
      entry =
          rw (lookup-insert s.agent.id a.id (v +ℤ pos 1) p.virtual_load, e)
            (rw (other_load a p.assignments chosen e) i.entry);
      fits = λ m h. rw (other_load a p.assignments chosen e) (i.fits m h);
      full = rw (other_load a p.assignments chosen e) i.full;
    }

  assigned-Inv :
      (r : AgentRouteRequest f) (p : RoutePass f) (s : Scored f) (v : ℤ) (a : Agent f)
      → (s.agent.id ≡ a.id → s.agent ≡ a) × (is_saturated p.virtual_load s.agent ≡ false)
      → lookup s.agent.id p.virtual_load ≡ some v
      → Inv p a
      → Inv (after r p s a v) a
  assigned-Inv r p s v a (only, free) found i = elim (Bool-cases (a.id == s.agent.id)) [
    | inl e ↦
        let ids : a.id ≡ s.agent.id = (nat_beq_iff a.id s.agent.id).0 e in
        let same : s.agent ≡ a = only (sym ids) in
        chosen-Inv r p s a v e (subst (λ b. is_saturated p.virtual_load b ≡ false) same free)
          (some-injective _ _ (sym (rw (← ids) at found) ∙ i.entry)) i
    | inr e ↦ other-Inv r p s a v e i
  ]

  Inv-step :
      (cs : List (Agent f)) (r : AgentRouteRequest f) (p p' : RoutePass f)
      → All (Owns cs) cs
      → RouteStep cs r p p'
      → All (Inv p) cs
      → All (Inv p') cs
  unfolding Owns
  Inv-step cs r p p' own (skipped e same) h = rw same (
      All-map_weaken _ (Inv (record p { unassigned = p.unassigned ++ r.task_title ∷ [] })) cs
        (skipped-Inv r p) (All-zip _ _ cs (best_free-none r cs p.virtual_load e) h))
  Inv-step cs r p p' own (assigned s v e found same) h = rw same (
      All-map_weaken (λ a. Owns cs a × Inv p a) _ cs
        (λ a k.
          assigned-Inv r p s v a
            (best_free-All (λ b. b.id ≡ a.id → b ≡ a) r cs p.virtual_load k.0 e) found k.1)
        (All-zip _ _ cs own h))

  lookup-load_table :
      (j : ℕ) (cs : List (Agent f)) (table : Dict ℕ ℤ)
      → All (λ b. j ≢ b.id) cs
      → lookup j (load_table cs table) ≡ lookup j table
  unfolding load_table
  lookup-load_table j [] table h = refl
  lookup-load_table j (c ∷ cs) table h =
      lookup-load_table j cs _ h.1 ∙ rw (lookup-insert c.id j c.current_load table) (ground arith)

  load_table-entries :
      (cs : List (Agent f)) (table : Dict ℕ ℤ)
      → IsKeyed cs
      → All (λ a. lookup a.id (load_table cs table) ≡ some a.current_load) cs
  unfolding load_table
  load_table-entries [] table k = tt
  load_table-entries (c ∷ cs) table k = (
    lookup-load_table c.id cs _ k.0
        ∙ rw (lookup-insert c.id c.id c.current_load table) (rw (eq_refl c.id)),
    load_table-entries cs _ k.1,
  )

  start-Inv : (cs : List (Agent f)) → IsKeyed cs → All (Inv (start cs)) cs
  start-Inv cs k =
      All-map_weaken (λ a. lookup a.id (load_table cs []) ≡ some a.current_load) _ cs
        (λ a e. record {
          entry = e ∙ ap some (plus_none a.current_load);
          fits = λ m h. rw (← plus_none a.current_load) h;
          full = inl refl;
        })
        (load_table-entries cs [] k)

  route_batch-Inv :
      (cs : List (Agent f)) (requests : List (AgentRouteRequest f))
      → IsKeyed cs
      → (q : RoutePass f) × (route_batch cs requests
          ≡ ok (record { assignments = q.assignments; unassigned = q.unassigned }))
        × All (Inv q) cs
  unfolding route_batch
  route_batch-Inv [] requests k = (
    record { virtual_load = []; assignments = []; unassigned = map (λ r. r.task_title) requests },
    refl,
    tt,
  )
  route_batch-Inv (c ∷ cs) requests k =
      let (q, run, e) = route_batch_total c cs requests in
      (
        q,
        e,
        route_each_ind (c ∷ cs) (λ _ p. All (Inv p) (c ∷ cs))
            (λ r _ p p' step h. Inv-step (c ∷ cs) r p p' (IsKeyed-Owns (c ∷ cs) k) step h) _ _
            (start-Inv (c ∷ cs) k) run,
      )

  -- Over candidates with distinct ids, the pass gives no agent more than it can hold: an agent whose
  -- maximum is at least 1 and whose load is within it is within it with all its assignments added.
  pub route_batch_capacity :
      (cs : List (Agent f)) (requests : List (AgentRouteRequest f))
      → IsKeyed cs
      → (res : BatchRouteResponse f) × (route_batch cs requests ≡ ok res)
        × All
            (λ a.
              pos 1 ≤ℤ a.max_concurrent_tasks
              → a.current_load ≤ℤ a.max_concurrent_tasks
              → load_after a res.assignments ≤ℤ a.max_concurrent_tasks)
            cs
  route_batch_capacity cs requests k =
      let (q, e, inv) = route_batch-Inv cs requests k in
      (_, e, All-map_weaken (Inv q) _ cs (λ a i. i.fits) inv)

  -- Over candidates with distinct ids, if the pass leaves a task unassigned, then every candidate has a
  -- maximum of at least 1 and has reached it with its assignments added.
  pub route_batch_saturates :
      (cs : List (Agent f)) (requests : List (AgentRouteRequest f))
      → IsKeyed cs
      → (res : BatchRouteResponse f) × (route_batch cs requests ≡ ok res)
        × (res.unassigned ≢ []
            → All
                (λ a.
                  (pos 1 ≤ℤ a.max_concurrent_tasks)
                  × (a.max_concurrent_tasks ≤ℤ load_after a res.assignments))
                cs)
  route_batch_saturates cs requests k =
      let (q, e, inv) = route_batch-Inv cs requests k in
      (_, e, λ left. All-map_weaken (Inv q) _ cs (λ a i. is_full q a left i.full) inv)
