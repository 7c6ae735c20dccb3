-- ===== src/Heartbeat/Export.antt =====
-- `prometheus_text` of src/heartbeat_metrics.py. `str_int` is `str` of an integer.
use tacktcix.Prelude.{
  ℕ, suc, String, Option, none, some, List, [], ◌∷◌, ◌++◌, ◌==◌, string_eq, if◌then◌else◌, contains,
}
use tacktcix.Prelude.Chars.{replace_char}
use tacktcix.Prelude.Dict.{Dict}
use tacktcix.Prelude.Float.{Float}
use tacktcix.Prelude.Int.{ℤ, pos}
use tacktcix.Prelude.Outcome.{ok, raise}
use tacktcix.Prelude.Text.{◌+ₛ◌, join}
use tacktcix.Heartbeat.{
  Clock, Collector, HeartbeatCycle, MetricsDb, SleepRow, SummaryRow, duration_ms,
}

unfoldable pub metric_header : (name help kind : String) → String
metric_header name help kind =
    "# HELP " +ₛ name +ₛ " " +ₛ help +ₛ "\n# TYPE " +ₛ name +ₛ " " +ₛ kind +ₛ "\n"

unfoldable pub plain_metric : (name help kind value : String) → String
unfolding metric_header
plain_metric name help kind value = metric_header name help kind +ₛ name +ₛ " " +ₛ value +ₛ "\n"

unfoldable pub safe_agent : String → String
safe_agent agent_id = replace_char b'"' "\\\"" agent_id

unfoldable pub agent_line : (name agent value : String) → String
agent_line name agent value = name +ₛ "{agent_id=\"" +ₛ agent +ₛ "\"} " +ₛ value +ₛ "\n"

-- `row.get("last_error_status") or "healthy"`, and `status_map.get(st, 1)`
unfoldable pub status_number : Option String → ℤ
status_number none = pos 1
status_number (some st) =
    if st == "unhealthy" then pos 0 else if st == "degraded" then pos 2 else pos 1

module _ {f : Float} (str_int : ℤ → String) where
  unfoldable pub active_lines : Dict String (HeartbeatCycle f) → List String
  unfolding agent_line safe_agent
  active_lines [] = []
  active_lines ((a, _) ∷ d) =
      agent_line "paperclip_heartbeat_active_cycles" (safe_agent a) "1" ∷ active_lines d

  -- Each duration reads the clock.
  unfoldable pub duration_lines :
      Clock f → (now : ℕ) → Dict String (HeartbeatCycle f) → List String × ℕ
  unfolding agent_line safe_agent
  duration_lines t now [] = ([], now)
  duration_lines t now ((a, cycle) ∷ d) =
      let line =
        agent_line "paperclip_heartbeat_cycle_duration_ms" (safe_agent a)
          (str_int (duration_ms t now cycle)) in
      let (rest, later) = duration_lines t (suc now) d in (line ∷ rest, later)

module _ (str_int : ℤ → String) where
  unfoldable pub status_lines : List SummaryRow → List String
  unfolding agent_line safe_agent status_number
  status_lines [] = []
  status_lines (r ∷ rows) =
      agent_line "paperclip_agent_heartbeat_status" (safe_agent r.agent_id)
        (str_int (status_number r.last_error_status))
      ∷ status_lines rows

  -- Only the first row of an agent, which is its last in time.
  unfoldable pub sleep_lines : (done : List String) → List SleepRow → List String
  unfolding agent_line safe_agent
  sleep_lines done [] = []
  sleep_lines done (r ∷ rows) =
      let agent = safe_agent r.agent_id in
      let skipped = sleep_lines done rows in
      let rest = sleep_lines (agent ∷ done) rows in
      if contains agent done
      then skipped
      else agent_line "paperclip_heartbeat_sleep_interval_ms" agent (str_int r.sleep_interval_ms)
        ∷ rest

module _ {f : Float} {db : MetricsDb f} (str_int : ℤ → String) (t : Clock f) where
  counter_lines : Collector db → List String
  unfolding plain_metric
  counter_lines c =
      plain_metric "paperclip_heartbeat_scanned_total" "Total tasks scanned across all heartbeats"
        "counter" (str_int c.total_scanned)
      ∷ plain_metric "paperclip_heartbeat_failures_total" "Total task failures detected" "counter"
          (str_int c.total_failures)
      ∷ plain_metric "paperclip_heartbeat_executed_total" "Total tasks executed" "counter"
          (str_int c.total_executed)
      ∷ plain_metric "paperclip_heartbeat_cycles_total" "Total heartbeat cycles completed" "counter"
          (str_int (pos c.total_cycles))
      ∷ plain_metric "paperclip_heartbeat_db_flush_errors_total" "DB flush error count" "counter"
          (str_int (pos c.flush_errors))
      ∷ []

  unfoldable pub prometheus_text : Collector db → String × Collector db
  unfolding counter_lines plain_metric metric_header active_lines duration_lines status_lines
      sleep_lines
  prometheus_text c =
      let (healthy, w1) = db.health c.world in
      let (durations, now) = duration_lines str_int t c.readings c.cycles in
      let (summary, w2) = db.get_agent_summary (pos 15) w1 in
      let (trend, w3) = db.get_sleep_trend none (pos 20) w2 in
      let lines =
        counter_lines c
        ++ plain_metric "paperclip_metrics_db_healthy" "Database connection health (1=ok, 0=down)"
            "gauge" (if healthy then "1" else "0")
          ∷ metric_header "paperclip_heartbeat_active_cycles" "Active heartbeat cycles in flight"
              "gauge"
          ∷ active_lines str_int c.cycles
        ++ metric_header "paperclip_heartbeat_cycle_duration_ms" "Current cycle duration in ms"
            "gauge"
          ∷ durations
        ++ metric_header "paperclip_agent_heartbeat_status"
            "Agent status (1=healthy, 0=unhealthy, 2=degraded)" "gauge"
          ∷ elim summary [ ok rows ↦ status_lines str_int rows | raise x ↦ [] ]
        ++ metric_header "paperclip_heartbeat_sleep_interval_ms" "Last sleep interval per agent"
            "gauge"
          ∷ elim trend [ ok rows ↦ sleep_lines str_int [] rows | raise x ↦ [] ] in
      (join "" lines, record c { world = w3; readings = now })
