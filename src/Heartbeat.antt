-- ===== src/Heartbeat.antt =====
-- HeartbeatMetricsCollector of src/heartbeat_metrics.py. The metrics database of src/db.py is an
-- interface; the clock is read by number.
pub mod Export
pub mod Totals
use tacktcix.Prelude.{
  ℕ, suc, ◌+◌, String, Bool, true, false, Option, none, some, List, [], ◌∷◌, map, string_eq,
}
use tacktcix.Prelude.Dict.{Dict, lookup, insert, erase}
use tacktcix.Prelude.Float.{Float}
use tacktcix.Prelude.Int.{ℤ, pos, ◌+ℤ◌}
use tacktcix.Prelude.Outcome.{Outcome, ok, raise}

pub record HeartbeatRecord : Type 0 where
  pub agent_id : String
  pub worker_id : String
  pub scanned : ℤ
  pub failures : ℤ
  pub executed : ℤ
  pub sleep_interval_ms : ℤ
  pub duration_ms : ℤ
  pub status : String
  pub error_message : String

-- A row of the summary of the agents, and of the trend of the sleep intervals.
pub record SummaryRow : Type 0 where
  pub agent_id : String
  pub last_error_status : Option String

pub record SleepRow : Type 0 where
  pub agent_id : String
  pub sleep_interval_ms : ℤ

pub record MetricsDb (f : Float) : Type 1 where
  pub World : Type 0
  pub insert_heartbeat : HeartbeatRecord → World → Outcome ℕ × World
  pub get_agent_summary : (since_minutes : ℤ) → World → Outcome (List SummaryRow) × World
  pub get_failure_rate : (since_minutes : ℤ) → World → Outcome f.F × World
  pub get_sleep_trend :
      (agent_id : Option String) (limit : ℤ) → World → Outcome (List SleepRow) × World
  pub health : World → Bool × World

-- `time.time()`, and `int` of a float.
pub record Clock (f : Float) : Type 0 where
  pub time : ℕ → f.F
  pub int_of : f.F → ℤ

pub record HeartbeatCycle (f : Float) : Type 0 where
  pub agent_id : String
  pub worker_id : String
  pub scanned : ℤ
  pub failures : ℤ
  pub executed : ℤ
  pub sleep_interval_ms : ℤ
  pub started_at : f.F
  pub status : String
  pub error_message : String
  pub completed : Bool

pub record Collector {f : Float} (db : MetricsDb f) : Type 0 where
  pub cycles : Dict String (HeartbeatCycle f)
  pub last_flush : f.F
  pub flush_count : ℕ
  pub flush_errors : ℕ
  pub total_scanned : ℤ
  pub total_failures : ℤ
  pub total_executed : ℤ
  pub total_cycles : ℕ
  pub world : db.World
  pub readings : ℕ

-- The figures that `end_cycle` and, where they are given, `update_cycle` set.
pub record Figures : Type 0 where
  pub scanned : ℤ
  pub failures : ℤ
  pub executed : ℤ
  pub sleep_interval_ms : ℤ
  pub status : String
  pub error_message : String

pub record Update : Type 0 where
  pub scanned : Option ℤ
  pub failures : Option ℤ
  pub executed : Option ℤ
  pub sleep_interval_ms : Option ℤ
  pub status : Option String
  pub error_message : Option String

-- The value that is given, or the old one.
unfoldable pub given_or {ℓ} : {A : Type ℓ} → Option A → A → A
given_or none old = old
given_or (some new) old = new

unfoldable pub orphaned : Figures
orphaned = record {
  scanned = pos 0;
  failures = pos 0;
  executed = pos 0;
  sleep_interval_ms = pos 0;
  status = "orphaned";
  error_message = "collector shutdown";
}

module _ {f : Float} where
  unfoldable pub duration_ms : Clock f → (now : ℕ) → HeartbeatCycle f → ℤ
  duration_ms t now cycle = t.int_of (f.mul (f.sub (t.time now) cycle.started_at) (f.lit 1000 0))

  unfoldable pub finish : Clock f → (now : ℕ) → HeartbeatCycle f → HeartbeatRecord
  unfolding duration_ms
  finish t now cycle = record {
    agent_id = cycle.agent_id;
    worker_id = cycle.worker_id;
    scanned = cycle.scanned;
    failures = cycle.failures;
    executed = cycle.executed;
    sleep_interval_ms = cycle.sleep_interval_ms;
    duration_ms = duration_ms t now cycle;
    status = cycle.status;
    error_message = cycle.error_message;
  }

  unfoldable pub with_figures : Figures → HeartbeatCycle f → HeartbeatCycle f
  with_figures x cycle = record cycle {
    scanned = x.scanned;
    failures = x.failures;
    executed = x.executed;
    sleep_interval_ms = x.sleep_interval_ms;
    status = x.status;
    error_message = x.error_message;
  }

  unfoldable pub updated : Update → HeartbeatCycle f → HeartbeatCycle f
  unfolding given_or
  updated u cycle = record cycle {
    scanned = given_or u.scanned cycle.scanned;
    failures = given_or u.failures cycle.failures;
    executed = given_or u.executed cycle.executed;
    sleep_interval_ms = given_or u.sleep_interval_ms cycle.sleep_interval_ms;
    status = given_or u.status cycle.status;
    error_message = given_or u.error_message cycle.error_message;
  }

module _ {f : Float} {db : MetricsDb f} where
  unfoldable pub new_collector : db.World → Collector db
  new_collector w = record {
    cycles = [];
    last_flush = f.lit 0 0;
    flush_count = 0;
    flush_errors = 0;
    total_scanned = pos 0;
    total_failures = pos 0;
    total_executed = pos 0;
    total_cycles = 0;
    world = w;
    readings = 0;
  }

  unfoldable pub start_cycle : Clock f → (agent_id worker_id : String) → Collector db → Collector db
  start_cycle t agent_id worker_id c =
      let cycle : HeartbeatCycle f = record {
        agent_id = agent_id;
        worker_id = worker_id;
        scanned = pos 0;
        failures = pos 0;
        executed = pos 0;
        sleep_interval_ms = pos 0;
        started_at = t.time c.readings;
        status = "healthy";
        error_message = "";
        completed = false;
      } in
      record c { cycles = insert agent_id cycle c.cycles; readings = suc c.readings }

  -- The cycle is taken out and added to the totals.
  unfoldable pub count_cycle : (agent_id : String) → Figures → Collector db → Collector db
  count_cycle agent_id x c = record c {
    cycles = erase agent_id c.cycles;
    total_scanned = c.total_scanned +ℤ x.scanned;
    total_failures = c.total_failures +ℤ x.failures;
    total_executed = c.total_executed +ℤ x.executed;
    total_cycles = suc c.total_cycles;
    readings = suc c.readings;
  }

  -- The record is written; an exception of the database is counted.
  unfoldable pub flush :
      Clock f → HeartbeatRecord → Collector db → Option HeartbeatRecord × Collector db
  flush t r c =
      let (o, w) = db.insert_heartbeat r c.world in
      elim o [
        | raise x ↦ (none, record c { flush_errors = suc c.flush_errors; world = w })
        | ok _ ↦ (
          some r,
          record c {
            flush_count = suc c.flush_count;
            last_flush = t.time c.readings;
            readings = suc c.readings;
            world = w;
          },
        )
      ]

  unfoldable pub end_cycle :
      Clock f → (agent_id : String) → Figures → Collector db → Option HeartbeatRecord × Collector db
  unfolding with_figures finish count_cycle flush
  end_cycle t agent_id x c = elim (lookup agent_id c.cycles) [
    | none ↦ (none, c)
    | some cycle ↦ flush t (finish t c.readings (with_figures x cycle)) (count_cycle agent_id x c)
  ]

  unfoldable pub update_cycle : (agent_id : String) → Update → Collector db → Collector db
  unfolding updated
  update_cycle agent_id u c = elim (lookup agent_id c.cycles) [
    | none ↦ c
    | some cycle ↦ record c { cycles = insert agent_id (updated u cycle) c.cycles }
  ]

  unfoldable pub end_each : Clock f → List String → Collector db → Collector db
  unfolding end_cycle orphaned
  end_each t [] c = c
  end_each t (agent_id ∷ rest) c = end_each t rest (end_cycle t agent_id orphaned c).1

  unfoldable pub close : Clock f → Collector db → Collector db
  unfolding end_each
  close t c = end_each t (map (λ e. e.0) c.cycles) c

  -- The queries, which answer nothing, or 0, for an exception.
  unfoldable pub get_agent_summary :
      (since_minutes : ℤ) → Collector db → List SummaryRow × Collector db
  get_agent_summary since_minutes c =
      let (o, w) = db.get_agent_summary since_minutes c.world in
      (elim o [ ok rows ↦ rows | raise x ↦ [] ], record c { world = w })

  unfoldable pub get_failure_rate : (since_minutes : ℤ) → Collector db → f.F × Collector db
  get_failure_rate since_minutes c =
      let (o, w) = db.get_failure_rate since_minutes c.world in
      (elim o [ ok rate ↦ rate | raise x ↦ f.lit 0 0 ], record c { world = w })

  unfoldable pub get_sleep_trend :
      (agent_id : Option String) (limit : ℤ) → Collector db → List SleepRow × Collector db
  get_sleep_trend agent_id limit c =
      let (o, w) = db.get_sleep_trend agent_id limit c.world in
      (elim o [ ok rows ↦ rows | raise x ↦ [] ], record c { world = w })
