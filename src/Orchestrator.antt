-- ===== src/Orchestrator.antt =====
-- OrchestratorClient of src/orchestrator.py: what the worker reports of its jobs. The callbacks and the
-- HTTP client are parameters that answer from a world of their own.
use tacktcix.Prelude.{
  String, Bool, true, false, Option, none, some, List, [], ◌∷◌, ◌==◌, string_eq, if◌then◌else◌,
}
use tacktcix.Prelude.Dict.{Dict, get_or}
use tacktcix.Prelude.Int.{ℤ}
use tacktcix.Prelude.Json.{
  Json, Items, Members, null, number, bool, text, array, object, nil, cons, end, member,
}
use tacktcix.Prelude.Outcome.{Outcome, ok, raise, http_error}
use tacktcix.Prelude.Text.{◌+ₛ◌}

pub data JobStatus : Type 0 where
  queued running completed failed timeout cancelled : JobStatus

unfoldable pub job_status_value : JobStatus → String
job_status_value queued = "queued"
job_status_value running = "running"
job_status_value completed = "completed"
job_status_value failed = "failed"
job_status_value timeout = "timeout"
job_status_value cancelled = "cancelled"

pub record JobResult : Type 0 where
  pub job_id : String
  pub status : JobStatus
  pub exit_code : Option ℤ
  pub stdout : String
  pub stderr : String
  pub duration_ms : ℤ
  pub error : String
  pub artifacts : List (Dict String String)

-- A response: what `raise_for_status` and `json` end in.
pub record Response : Type 0 where
  pub raise_for_status : Outcome {0} Unit
  pub json : Outcome (Dict String String)

pub record Engine : Type 1 where
  pub World : Type 0
  pub on_status_change : Option (String → JobStatus → World → Outcome {0} Unit × World)
  pub on_result : Option (JobResult → World → Outcome {0} Unit × World)
  pub post : (path : String) (json : Json) → World → Outcome Response × World

pub record OrchestratorClient (e : Engine) : Type 0 where
  pub base_url : Option String
  pub http : Bool
  pub world : e.World

-- `except httpx.HTTPError`
unfoldable pub except_http : Outcome Response → Outcome {0} Unit
except_http (ok r) = ok tt
except_http (raise http_error) = ok tt
except_http (raise x) = raise x

text_members : Dict String String → Members
text_members [] = end
text_members ((k, v) ∷ d) = member k (text v) (text_members d)

unfoldable pub artifact_items : List (Dict String String) → Items
unfolding text_members
artifact_items [] = nil
artifact_items (d ∷ rest) = cons (object (text_members d)) (artifact_items rest)

unfoldable pub status_body : JobStatus → Json
unfolding job_status_value
status_body status = object (member "status" (text (job_status_value status)) end)

unfoldable pub result_body : JobResult → Json
unfolding job_status_value artifact_items
result_body r = object (
    member "status" (text (job_status_value r.status)) (
      member "exit_code" (elim r.exit_code [ none ↦ null | some n ↦ number n ])
        (member "duration_ms" (number r.duration_ms) (
          member "error" (text r.error)
            (member "artifacts" (array (artifact_items r.artifacts)) end)))))

-- `data.get("job_id", "")` of a response of success
unfoldable pub job_id_of : Outcome Response → Outcome (Option String)
job_id_of (raise http_error) = ok none
job_id_of (raise x) = raise x
job_id_of (ok r) = elim r.raise_for_status [
  | raise http_error ↦ ok none
  | raise x ↦ raise x
  | ok _ ↦ elim r.json [ raise x ↦ raise x | ok d ↦ ok (some (get_or "job_id" "" d)) ]
]

module _ {e : Engine} where
  unfoldable pub connect : OrchestratorClient e → OrchestratorClient e
  connect c = elim c.base_url [
    | none ↦ c
    | some url ↦ if url == "" then c else record c { http = true }
  ]

  unfoldable pub close : OrchestratorClient e → OrchestratorClient e
  close c = record c { http = false }

  -- A callback, whatever it raises.
  unfoldable pub notify :
      Option (e.World → Outcome {0} Unit × e.World) → OrchestratorClient e → OrchestratorClient e
  notify none c = c
  notify (some g) c = record c { world = (g c.world).1 }

  unfoldable pub send :
      (path : String) → Json → OrchestratorClient e → Outcome {0} Unit × OrchestratorClient e
  unfolding except_http
  send path body c =
      if c.http
      then (let (o, w) = e.post path body c.world in (except_http o, record c { world = w }))
      else (ok tt, c)

  unfoldable pub report_status :
      (job_id : String) → JobStatus → OrchestratorClient e → Outcome {0} Unit × OrchestratorClient e
  unfolding notify send status_body
  report_status job_id status c =
      send ("/api/jobs/" +ₛ job_id +ₛ "/status") (status_body status)
        (notify (elim e.on_status_change [ none ↦ none | some g ↦ some (g job_id status) ]) c)

  unfoldable pub report_result :
      JobResult → OrchestratorClient e → Outcome {0} Unit × OrchestratorClient e
  unfolding notify send result_body
  report_result r c =
      send ("/api/jobs/" +ₛ r.job_id +ₛ "/result") (result_body r)
        (notify (elim e.on_result [ none ↦ none | some g ↦ some (g r) ]) c)

  unfoldable pub enqueue_job :
      (job_type : String) (payload : Json) (profile : String) (timeout_s : ℤ)
      (network_access : Bool) (workspace : Option String)
      → OrchestratorClient e
      → Outcome (Option String) × OrchestratorClient e
  unfolding job_id_of
  enqueue_job job_type payload profile timeout_s network_access workspace c =
      if c.http
      then (let (o, w) =
            e.post "/api/jobs"
              (object (
                member "type" (text job_type) (
                  member "payload" payload (
                    member "profile" (text profile) (
                      member "timeout_s" (number timeout_s) (
                        member "network_access" (bool network_access) (
                          member "workspace" (elim workspace [ none ↦ null | some w ↦ text w ])
                            end)))))))
              c.world in
          (job_id_of o, record c { world = w }))
      else (ok none, c)
