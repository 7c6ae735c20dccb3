-- ===== src/Routing/Scores.antt =====
-- How backend/app/services/task_orchestrator_service.py scores one agent for one request.
use tacktcix.Prelude.{
  String, none, some, List, [], ◌∷◌, ◌++◌, if◌then◌else◌, length, ◌||◌, string_eq,
}
use tacktcix.Prelude.Dict.{Dict, get_or}
use tacktcix.Prelude.Float.{Float, eq_float, max_float, min_float}
use tacktcix.Prelude.Int.{ℤ, pos, leb_ℤ}
use tacktcix.Prelude.Text.{◌+ₛ◌, join, has_substring}
use tacktcix.Agents.{Agent, AgentRouteRequest, Breakdown}

module _ (f : Float) where
  abbrev pub w_capability : f.F
  w_capability = f.lit 60 2

  abbrev pub w_load : f.F
  w_load = f.lit 25 2

  abbrev pub w_cost : f.F
  w_cost = f.lit 15 2

  abbrev zero_float : f.F
  zero_float = f.lit 0 0

  abbrev one_float : f.F
  one_float = f.lit 1 0

  -- One round of the inner `for`: an entry counts whose key contains the domain or is contained in it.
  unfoldable pub try_entry : String → f.F → String → f.F → f.F
  try_entry domain prof key val =
      if has_substring domain key || has_substring key domain
      then max_float f prof (f.mul val (f.lit 8 1))
      else prof

  unfoldable pub partial_match : String → f.F → Dict String f.F → f.F
  unfolding try_entry
  partial_match domain prof [] = prof
  partial_match domain prof ((key, val) ∷ caps) =
      partial_match domain (try_entry domain prof key val) caps

  unfoldable pub proficiency : Dict String f.F → String → f.F
  unfolding partial_match
  proficiency caps domain =
      let prof = get_or domain zero_float caps in
      if eq_float f prof zero_float then partial_match domain prof caps else prof

  unfoldable pub total_proficiency : Dict String f.F → f.F → List String → f.F
  unfolding proficiency
  total_proficiency caps total [] = total
  total_proficiency caps total (d ∷ ds) =
      total_proficiency caps (f.add total (proficiency caps d)) ds

  -- `caps` is `agent.capabilities or {}`
  unfoldable pub capability_of : Dict String f.F → List String → f.F
  unfolding total_proficiency
  capability_of caps [] = f.lit 8 1
  capability_of [] (d ∷ ds) = f.lit 3 1
  capability_of (c ∷ caps) (d ∷ ds) =
      let domains = d ∷ ds in
      let avg =
        f.div (total_proficiency (c ∷ caps) zero_float domains) (f.of_int (pos (length domains))) in
      min_float f avg one_float

  unfoldable pub score_capability : Agent f → List String → f.F
  unfolding capability_of
  score_capability a domains =
      capability_of (elim a.capabilities [ none ↦ [] | some caps ↦ caps ]) domains

  -- `current` is `agent.current_load`, which the batch pass patches for the time of the call.
  unfoldable pub score_load : Agent f → (current : ℤ) → f.F
  score_load a current =
      if leb_ℤ a.max_concurrent_tasks (pos 0)
      then zero_float
      else (let ratio = f.div (f.of_int current) (f.of_int a.max_concurrent_tasks) in
          if f.le one_float ratio then zero_float else f.sub one_float ratio)

  unfoldable pub score_cost : Agent f → AgentRouteRequest f → f.F
  score_cost a r =
      let effective = f.mul a.cost_per_task (f.sqrt r.estimated_complexity) in
      max_float f zero_float (f.sub one_float (f.div effective (f.lit 5 0)))

  pub record Scored : Type 0 where
    pub total : f.F
    pub breakdown : Breakdown f
    pub agent : Agent f

  -- The body of the scoring loops.
  unfoldable pub score_agent : AgentRouteRequest f → Agent f → (current : ℤ) → Scored
  unfolding score_capability score_load score_cost
  score_agent r a current =
      let cap_score = score_capability a r.required_domains in
      let load_score = score_load a current in
      let cost_score = score_cost a r in
      record {
        total =
            f.add (f.add (f.mul w_capability cap_score) (f.mul w_load load_score))
              (f.mul w_cost cost_score);
        breakdown = record {
          capability = f.round4 cap_score;
          load = f.round4 load_score;
          cost = f.round4 cost_score;
        };
        agent = a;
      }

  load_parts : Breakdown f → List String
  load_parts b =
      if f.le (f.lit 7 1) b.load
      then "low load" ∷ []
      else if f.le (f.lit 4 1) b.load
      then "moderate load" ∷ []
      else []

  unfoldable pub build_reason : Agent f → Breakdown f → String
  unfolding load_parts
  build_reason a b =
      let capability_part : String =
        if f.le (f.lit 7 1) b.capability
        then "strong capability match"
        else if f.le (f.lit 4 1) b.capability
        then "moderate capability match"
        else "weak capability match" in
      let cost_parts : List String =
        if f.le (f.lit 7 1) b.cost then "cost-effective" ∷ [] else [] in
      "Selected "
      +ₛ a.role
      +ₛ " ("
      +ₛ a.name
      +ₛ "): "
      +ₛ join ", " (capability_part ∷ load_parts b ++ cost_parts)
