-- ===== src/Audit/Events.antt =====
-- The events that the log_ methods of src/audit/audit_logger.py make. `stamp` is the event's time and
-- its identifier, which the class takes from the clock and from uuid4.
use tacktcix.Prelude.{String, Option, none, some, [], ◌∷◌, ◌==◌, string_eq, if◌then◌else◌}
use tacktcix.Prelude.Dict.{Dict, merge}
use tacktcix.Prelude.Json.{Json, text}
use tacktcix.Prelude.Text.{◌+ₛ◌}
use tacktcix.Audit.{info, warning, error, AuditEvent}

-- `details or {}`
or_no_details : Option (Dict String Json) → Dict String Json
or_no_details none = []
or_no_details (some d) = d

module _ (stamp : String × String) (trace_id : Option String) where
  unfoldable pub execution_event :
      (action actor_id execution_id result actor_type : String)
      → Option (Dict String Json)
      → AuditEvent
  unfolding or_no_details
  execution_event action actor_id execution_id result actor_type details = record {
    action = action;
    actor_type = actor_type;
    actor_id = actor_id;
    resource_type = "execution";
    resource_id = execution_id;
    result = result;
    severity = if result == "failure" then error else info;
    trace_id = trace_id;
    source_ip = none;
    details = or_no_details details;
    timestamp = stamp.0;
    event_id = stamp.1;
  }

  unfoldable pub secret_access : (action actor_id secret_id result actor_type : String) → AuditEvent
  secret_access action actor_id secret_id result actor_type = record {
    action = "secret." +ₛ action;
    actor_type = actor_type;
    actor_id = actor_id;
    resource_type = "secret";
    resource_id = secret_id;
    result = result;
    severity = info;
    trace_id = trace_id;
    source_ip = none;
    details = [];
    timestamp = stamp.0;
    event_id = stamp.1;
  }

  unfoldable pub permission_denied :
      (actor_id resource_type resource_id permission actor_type : String)
      → Option (Dict String Json)
      → AuditEvent
  unfolding or_no_details
  permission_denied actor_id resource_type resource_id permission actor_type details = record {
    action = "permission.denied";
    actor_type = actor_type;
    actor_id = actor_id;
    resource_type = resource_type;
    resource_id = resource_id;
    result = "denied";
    severity = warning;
    trace_id = trace_id;
    source_ip = none;
    details = merge (("permission", text permission) ∷ []) (or_no_details details);
    timestamp = stamp.0;
    event_id = stamp.1;
  }

  unfoldable pub sandbox_violation :
      (actor_id execution_id violation_type actor_type : String)
      → Option (Dict String Json)
      → AuditEvent
  unfolding or_no_details
  sandbox_violation actor_id execution_id violation_type actor_type details = record {
    action = "sandbox." +ₛ violation_type;
    actor_type = actor_type;
    actor_id = actor_id;
    resource_type = "execution";
    resource_id = execution_id;
    result = "denied";
    severity = error;
    trace_id = trace_id;
    source_ip = none;
    details = or_no_details details;
    timestamp = stamp.0;
    event_id = stamp.1;
  }

  unfoldable pub rate_limit_exceeded :
      (actor_id limit_type actor_type : String) → Option (Dict String Json) → AuditEvent
  unfolding or_no_details
  rate_limit_exceeded actor_id limit_type actor_type details = record {
    action = "ratelimit.exceeded";
    actor_type = actor_type;
    actor_id = actor_id;
    resource_type = "rate_limit";
    resource_id = limit_type;
    result = "denied";
    severity = warning;
    trace_id = trace_id;
    source_ip = none;
    details = or_no_details details;
    timestamp = stamp.0;
    event_id = stamp.1;
  }
