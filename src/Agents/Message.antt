-- ===== src/Agents/Message.antt =====
-- The classes of backend/app/models/agent.py.
use tacktcix.Prelude.{ℕ, String, Option, List}
use tacktcix.Prelude.Dict.{Dict}
use tacktcix.Prelude.Float.{Float}
use tacktcix.Prelude.Int.{ℤ}
use tacktcix.Prelude.Json.{Json}

-- `status` is free text in the table; the program writes these three.
abbrev pub idle : String
idle = "idle"

abbrev pub busy : String
busy = "busy"

abbrev pub offline : String
offline = "offline"

pub record Agent (f : Float) : Type 0 where
  pub id : ℕ
  pub company_id : ℕ
  pub role : String
  pub name : String
  pub description : Option String
  pub status : String
  pub capabilities : Option (Dict String f.F)
  pub cost_per_task : f.F
  pub max_concurrent_tasks : ℤ
  pub current_load : ℤ
  pub meta : Option (Dict String Json)

pub record AgentRegister (f : Float) : Type 0 where
  pub role : String
  pub name : String
  pub description : Option String
  pub capabilities : Option (Dict String f.F)
  pub cost_per_task : f.F
  pub max_concurrent_tasks : ℤ
  pub metadata : Option (Dict String Json)

-- One entry of `payload.model_dump(exclude_unset=True)`: a field that the caller has set.
pub data AgentChange (f : Float) : Type 0 where
  set_name : String → AgentChange f
  set_description : Option String → AgentChange f
  set_status : String → AgentChange f
  set_capabilities : Option (Dict String f.F) → AgentChange f
  set_cost_per_task : f.F → AgentChange f
  set_max_concurrent_tasks : ℤ → AgentChange f
  set_metadata : Option (Dict String Json) → AgentChange f

pub record AgentRouteRequest (f : Float) : Type 0 where
  pub task_title : String
  pub task_description : Option String
  pub required_domains : List String
  pub estimated_complexity : f.F
  pub priority : String

-- The sub-scores, as the dictionary with these three keys.
pub record Breakdown (f : Float) : Type 0 where
  pub capability : f.F
  pub load : f.F
  pub cost : f.F

pub record AgentRouteResult (f : Float) : Type 0 where
  pub agent_id : ℕ
  pub agent_role : String
  pub agent_name : String
  pub score : f.F
  pub breakdown : Breakdown f
  pub reason : String
  pub task_title : Option String

pub record BatchRouteResponse (f : Float) : Type 0 where
  pub assignments : List (AgentRouteResult f)
  pub unassigned : List String
