-- ===== src/Audit.antt =====
-- The audit log of the worker (src/audit/audit_logger.py): events, redaction and the destinations.
pub mod Events
pub mod Redaction
pub mod Writes
use tacktcix.Prelude.{
  ℕ, String, Bool, true, Option, none, some, List, [], ◌∷◌, ◌++◌, map, ◌==◌, string_eq,
  if◌then◌else◌, leb,
}
use tacktcix.Prelude.Dict.{Dict, insert}
use tacktcix.Prelude.Json.{Json, null, bool, number, text, array, object, Members, end, member}
use tacktcix.Prelude.Outcome.{Outcome, ok, raise, ◌>>=◌}

pub data AuditSeverity : Type 0 where
  debug info warning error critical : AuditSeverity

severity_value : AuditSeverity → String
severity_value debug = "debug"
severity_value info = "info"
severity_value warning = "warning"
severity_value error = "error"
severity_value critical = "critical"

unfoldable pub severity_rank : AuditSeverity → ℕ
severity_rank debug = 10
severity_rank info = 20
severity_rank warning = 30
severity_rank error = 40
severity_rank critical = 50

pub record AuditEvent : Type 0 where
  pub action : String
  pub actor_type : String
  pub actor_id : String
  pub resource_type : String
  pub resource_id : String
  pub result : String
  pub severity : AuditSeverity
  pub trace_id : Option String
  pub source_ip : Option String
  pub details : Dict String Json
  pub timestamp : String
  pub event_id : String

optional_text : Option String → Json
optional_text none = null
optional_text (some s) = text s

members : Dict String Json → Members
members [] = end
members ((k, v) ∷ d) = member k v (members d)

-- `asdict`, with the severity's value.
unfoldable pub event_to_dict : AuditEvent → Dict String Json
unfolding severity_value optional_text members
event_to_dict e =
    ("action", text e.action)
    ∷ ("actor_type", text e.actor_type)
    ∷ ("actor_id", text e.actor_id)
    ∷ ("resource_type", text e.resource_type)
    ∷ ("resource_id", text e.resource_id)
    ∷ ("result", text e.result)
    ∷ ("severity", text (severity_value e.severity))
    ∷ ("trace_id", optional_text e.trace_id)
    ∷ ("source_ip", optional_text e.source_ip)
    ∷ ("details", object (members e.details))
    ∷ ("timestamp", text e.timestamp)
    ∷ ("event_id", text e.event_id)
    ∷ []

-- A rule is a regular expression and what replaces its matches.
pub record AuditLogger : Type 0 where
  pub destination : String
  pub file_path : Option String
  pub min_severity : AuditSeverity
  pub source_ip : Option String
  pub redaction_patterns : List (String × String)

-- What the log is written to: the lines of the two streams of the process and of the file, and the
-- entries of the Redis stream.
pub record Sinks : Type 0 where
  pub stdout : List String
  pub stderr : List String
  pub file : List String
  pub stream : List String

-- What the logger calls: `json.dumps`, `pattern.sub`, the appending to a file, and the client's
-- `xadd`, which is none where it raises.
pub record Calls : Type 0 where
  pub dumps : Dict String Json → String
  pub sub : String × String → String → String
  pub append : (path : String) → List String → String → Outcome (List String)
  pub xadd : List String → String → Option (List String)

abbrev pub default_redaction_patterns : List (String × String)
default_redaction_patterns =
    ("sk-[a-zA-Z0-9]{20,}", "[REDACTED_API_KEY]")
    ∷ ("ghp_[a-zA-Z0-9]{36}", "[REDACTED_GITHUB_TOKEN]")
    ∷ ("Bearer\\s+[a-zA-Z0-9._\\-]+", "Bearer [REDACTED]")
    ∷ ("[a-zA-Z0-9._%+\\-]+@[a-zA-Z0-9.\\-]+\\.[a-zA-Z]{2,}", "[REDACTED_EMAIL]")
    ∷ ("AKIA[0-9A-Z]{16}", "[REDACTED_AWS_KEY]")
    ∷ ("AIza[0-9A-Za-z\\-_]{35}", "[REDACTED_GCP_KEY]")
    ∷ (
      "(?i)(password|passwd|secret|token|api_key|private_key)[\"\\']?\\s*[:=]\\s*[\"\\']?([^\"\\'&\\s,}]+)",
      "\\1: [REDACTED]",
    )
    ∷ []

-- `if file_path`
path_of : Option String → Option String
path_of none = none
path_of (some path) = if path == "" then none else some path

extra_rules : Option (List (String × String)) → List (String × String)
extra_rules none = []
extra_rules (some rules) = rules

-- `__init__`, less the making of the file's directory.
unfoldable pub new_logger :
    (destination : String)
    → Option String
    → AuditSeverity
    → Option String
    → Option (List (String × String))
    → AuditLogger
unfolding path_of extra_rules
new_logger destination path min ip extra = record {
  destination = destination;
  file_path = path_of path;
  min_severity = min;
  source_ip = ip;
  redaction_patterns = default_redaction_patterns ++ extra_rules extra;
}

unfoldable pub should_log : AuditLogger → AuditSeverity → Bool
unfolding severity_rank
should_log l severity = leb (severity_rank l.min_severity) (severity_rank severity)

module _ (c : Calls) where
  unfoldable pub redact : List (String × String) → String → String
  redact [] s = s
  redact (rule ∷ rules) s = redact rules (c.sub rule s)

  unfoldable pub redact_detail : List (String × String) → Json → Json
  unfolding redact
  redact_detail rules (text s) = text (redact rules s)
  redact_detail rules null = null
  redact_detail rules (bool b) = bool b
  redact_detail rules (number n) = number n
  redact_detail rules (array items) = array items
  redact_detail rules (object ms) = object ms

  unfoldable pub redact_details : List (String × String) → Dict String Json → Dict String Json
  unfolding redact_detail
  redact_details rules d = map (λ e. (e.0, redact_detail rules e.1)) d

  -- The line that an event is written as.
  unfoldable pub event_json : AuditLogger → AuditEvent → String
  unfolding event_to_dict members redact_details
  event_json l e = c.dumps (
      insert "details" (object (members (redact_details l.redaction_patterns e.details)))
        (event_to_dict e))

  unfoldable pub emit_redis_stream : String → Sinks → Sinks
  emit_redis_stream line s = elim (c.xadd s.stream line) [
    | none ↦ record s { stderr = s.stderr ++ line ∷ [] }
    | some entries ↦ record s { stream = entries }
  ]

  -- `elif ... else` after the test for the file.
  unfoldable pub emit_elsewhere : AuditLogger → String → Sinks → Sinks
  unfolding emit_redis_stream
  emit_elsewhere l line s =
      if l.destination == "redis-stream"
      then emit_redis_stream line s
      else record s { stderr = s.stderr ++ line ∷ [] }

  unfoldable pub emit_file : AuditLogger → String → Sinks → Outcome Sinks
  unfolding emit_elsewhere
  emit_file l line s =
      if l.destination == "file"
      then elim l.file_path [
        | none ↦ ok (emit_elsewhere l line s)
        | some path ↦ c.append path s.file line >>= λ lines. ok (record s { file = lines })
      ]
      else ok (emit_elsewhere l line s)

  unfoldable pub emit_event : AuditLogger → AuditEvent → Sinks → Outcome Sinks
  unfolding should_log event_json emit_file
  emit_event l e s =
      if should_log l e.severity
      then (if l.destination == "stdout"
          then ok (record s { stdout = s.stdout ++ event_json l e ∷ [] })
          else emit_file l (event_json l e) s)
      else ok s

  -- `event.source_ip` is the logger's where the event has none.
  abbrev pub addressed : AuditLogger → AuditEvent → AuditEvent
  addressed l e = record e {
    source_ip = elim e.source_ip [ none ↦ l.source_ip | some ip ↦ some ip ];
  }

  unfoldable pub log : AuditLogger → AuditEvent → Sinks → Outcome (String × Sinks)
  unfolding emit_event
  log l e s = emit_event l (addressed l e) s >>= λ s'. ok ((addressed l e).event_id, s')
