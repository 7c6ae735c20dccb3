-- ===== src/Routing/Batch/Total.antt =====
-- The batch pass never raises: every candidate has an entry in the table of virtual loads.
use tacktcix.Prelude.{
  ℕ, ◌≡◌, refl, true, List, [], ◌∷◌, arith, nat_eq, All, All-map_weaken, Option-cases, inl, inr,
  eq_refl,
}
use tacktcix.Prelude.Dict.{Dict, insert, has_key, has_key-insert, has_key→lookup}
use tacktcix.Prelude.Float.{Float}
use tacktcix.Prelude.Int.{ℤ}
use tacktcix.Prelude.Outcome.{ok}
use tacktcix.Prelude.Sorting.{sort}
use tacktcix.Agents.{Agent, AgentRouteRequest}
use tacktcix.Routing.Select.{best_free}
use tacktcix.Routing.Batch.{
  RoutePass, route_one, route_each, load_table, start, route_batch, by_priority,
}
use tacktcix.Routing.Batch.Rules.{best_free-All, route_one-skipped, route_one-assigned}

module _ {f : Float} where
  abbrev pub Covers : List (Agent f) → Dict ℕ ℤ → Type 0
  Covers cs table = All (λ a. has_key a.id table ≡ true) cs

  insert-Covers :
      (cs : List (Agent f)) (k : ℕ) (v : ℤ) (table : Dict ℕ ℤ)
      → Covers cs table
      → Covers cs (insert k v table)
  insert-Covers cs k v table h =
      All-map_weaken (λ a. has_key a.id table ≡ true) _ cs
        (λ a there. rw (has_key-insert k a.id v table) (ground arith)) h

  load_table_keeps :
      (j : ℕ) (cs : List (Agent f)) (table : Dict ℕ ℤ)
      → has_key j table ≡ true
      → has_key j (load_table cs table) ≡ true
  unfolding load_table
  load_table_keeps j [] table h = h
  load_table_keeps j (a ∷ cs) table h =
      load_table_keeps j cs _ (rw (has_key-insert a.id j a.current_load table) (ground arith))

  pub load_table-Covers : (cs : List (Agent f)) (table : Dict ℕ ℤ) → Covers cs (load_table cs table)
  unfolding load_table
  load_table-Covers [] table = tt
  load_table-Covers (a ∷ cs) table = (
    load_table_keeps a.id cs _
        (rw (has_key-insert a.id a.id a.current_load table) (rw (eq_refl a.id))),
    load_table-Covers cs _,
  )

  -- With an entry for every candidate the body ends, and every candidate still has its entry.
  route_one_total :
      (cs : List (Agent f)) (r : AgentRouteRequest f) (p : RoutePass f)
      → Covers cs p.virtual_load
      → (p' : RoutePass f) × (route_one cs r p ≡ ok p') × Covers cs p'.virtual_load
  route_one_total cs r p h = elim (Option-cases (best_free r cs p.virtual_load)) [
    | inl e ↦ (_, route_one-skipped cs r p e, h)
    | inr (s, e) ↦
        let (v, found) =
          has_key→lookup s.agent.id p.virtual_load
            (best_free-All (λ a. has_key a.id p.virtual_load ≡ true) r cs p.virtual_load h e).0 in
        (_, route_one-assigned cs r p s v e found, insert-Covers cs s.agent.id _ p.virtual_load h)
  ]

  pub route_each_total :
      (cs : List (Agent f)) (rs : List (AgentRouteRequest f)) (p : RoutePass f)
      → Covers cs p.virtual_load
      → (q : RoutePass f) × (route_each cs rs p ≡ ok q)
  unfolding route_each
  route_each_total cs [] p h = (p, refl)
  route_each_total cs (r ∷ rs) p h =
      let (p', one, h') = route_one_total cs r p h in
      let (q, more) = route_each_total cs rs p' h' in (q, rw one more)

  -- The whole pass over a list of candidates that is not empty.
  pub route_batch_total :
      (c : Agent f) (cs : List (Agent f)) (requests : List (AgentRouteRequest f))
      → (q : RoutePass f) × (route_each (c ∷ cs) (sort by_priority requests) (start (c ∷ cs))
          ≡ ok q)
        × (route_batch (c ∷ cs) requests
            ≡ ok (record { assignments = q.assignments; unassigned = q.unassigned }))
  unfolding route_batch
  route_batch_total c cs requests =
      let (q, e) =
        route_each_total (c ∷ cs) (sort by_priority requests) (start (c ∷ cs))
          (load_table-Covers (c ∷ cs) []) in
      (q, e, rw e)
