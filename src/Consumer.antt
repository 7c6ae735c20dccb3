-- ===== src/Consumer.antt =====
-- src/consumer.py: the consumer of the job stream. The Redis client and the handler are parameters
-- that answer from a world of their own; what the consumer does to the stream is kept as a log.
pub mod Capabilities
pub mod Delivery
use tacktcix.Prelude.{
  ℕ, ◌+◌, ◌-◌, min, String, Bool, true, false, Option, none, some, List, [], ◌∷◌, ◌++◌, map, length,
  ◌==◌, string_eq, if◌then◌else◌, leb, filter_by, not,
}
use tacktcix.Prelude.Chars.{strip, split_on, lower_is, int_of}
use tacktcix.Prelude.Dict.{Dict, lookup, get_or}
use tacktcix.Prelude.Int.{ℤ, pos, ◌-ℤ◌, leb_ℤ}
use tacktcix.Prelude.Json.{Json, object, end}
use tacktcix.Prelude.Outcome.{Outcome, ok, raise, Error, value_error, ◌>>=◌}

pub record Job : Type 0 where
  pub id : String
  pub stream_key : String
  pub job_type : String
  pub payload : Json
  pub timeout_s : ℤ
  pub profile : String
  pub network_access : Bool
  pub workspace : Option String
  pub agent_type : Option String
  pub agent_capabilities : List String

-- A stream entry: its id and its fields.
pub record Entry : Type 0 where
  pub id : String
  pub fields : Dict String String

-- `s or None`
unfoldable pub non_empty : Option String → Option String
non_empty none = none
non_empty (some s) = if s == "" then none else some s

-- `[c.strip() for c in raw.split(",") if c.strip()]`, and nothing for an empty text.
keep_stripped : List String → List String
keep_stripped [] = []
keep_stripped (s ∷ rest) =
    if strip s == "" then keep_stripped rest else strip s ∷ keep_stripped rest

unfoldable pub parse_capabilities : String → List String
unfolding keep_stripped
parse_capabilities raw = if raw == "" then [] else keep_stripped (split_on b',' raw)

-- `int(fields.get("timeout_s", 600))`
parse_timeout : Option String → Outcome ℤ
parse_timeout none = ok (pos 600)
parse_timeout (some s) = elim (int_of s) [ none ↦ raise value_error | some n ↦ ok n ]

-- `loads` is json.loads; `none` is JSONDecodeError.
module _ (loads : String → Option Json) where
  unfoldable pub parse_message : (stream_key : String) → Entry → Outcome Job
  unfolding parse_capabilities parse_timeout non_empty
  parse_message stream_key e = do
    timeout ← parse_timeout (lookup "timeout_s" e.fields)
    ok (record {
      id = e.id;
      stream_key = stream_key;
      job_type = get_or "type" "unknown" e.fields;
      payload = elim (loads (get_or "payload" "{}" e.fields)) [ none ↦ object end | some p ↦ p ];
      timeout_s = timeout;
      profile = get_or "profile" "medium" e.fields;
      network_access = lower_is (get_or "network_access" "false" e.fields) "true";
      workspace = non_empty (lookup "workspace" e.fields);
      agent_type = non_empty (lookup "agent_type" e.fields);
      agent_capabilities = parse_capabilities (get_or "agent_capabilities" "" e.fields);
    })

-- What a tick does that can be seen from outside, in order.
pub data Effect : Type 0 where
  handled : (job_id : String) → Effect
  acked : (entry_id : String) → Effect
  slept : Effect

-- The calls of the Redis client for this worker's group, and the handler that was registered.
pub record Peers : Type 1 where
  pub World : Type 0
  pub xautoclaim : (min_idle_time : ℤ) (count : ℕ) → World → Outcome (List Entry) × World
  -- The consumers of the pending entries, up to 1000 of them.
  pub xpending_range : World → Outcome (List String) × World
  pub xreadgroup : (count : ℤ) → World → Outcome (List (String × List Entry)) × World
  pub xack : (entry_id : String) → World → Outcome {0} Unit × World
  pub handler : Job → World → Outcome {0} Unit × World

pub record Settings : Type 0 where
  pub worker_id : String
  pub stream : String
  pub max_concurrent : ℤ
  pub claim_timeout_ms : ℤ

-- The world, what was done so far, and what the last call ended in.
pub record Run (p : Peers) : Type 0 where
  pub world : p.World
  pub log : List Effect
  pub result : Outcome {0} Unit

-- `min(self._max_concurrent - active, 4)`
unfoldable pub batch_size : Settings → (active : ℕ) → ℤ
batch_size c active =
    let room = c.max_concurrent -ℤ pos active in if leb_ℤ room (pos 4) then room else pos 4

-- `except redis.RedisError: return 0`
forgive : Error → Outcome ℕ
forgive Error.redis_error = ok 0
forgive e = raise e

module _ (loads : String → Option Json) (p : Peers) where
  -- `self._handler(job)`, then `xack`: an exception leaves the rest undone.
  acknowledge : (entry_id : String) → List Effect → p.World → Run p
  acknowledge entry_id log w =
      let (o, w') = p.xack entry_id w in
      elim o [
        | ok _ ↦ record { world = w'; log = log ++ acked entry_id ∷ []; result = ok tt }
        | raise e ↦ record { world = w'; log = log; result = raise e }
      ]

  handle_job : (entry_id : String) → Job → List Effect → p.World → Run p
  unfolding acknowledge
  handle_job entry_id job log w =
      let (o, w') = p.handler job w in
      elim o [
        | ok _ ↦ acknowledge entry_id (log ++ handled job.id ∷ []) w'
        | raise e ↦ record { world = w'; log = log; result = raise e }
      ]

  handle_entry : (stream_key : String) → Entry → Run p → Run p
  unfolding parse_message handle_job
  handle_entry stream_key e r = elim (parse_message loads stream_key e) [
    | raise x ↦ record r { result = raise x }
    | ok job ↦ handle_job e.id job r.log r.world
  ]

  -- `for msg_id, fields in messages`
  unfoldable pub handle_all : (stream_key : String) → List Entry → Run p → Run p
  unfolding handle_entry
  handle_all stream_key [] r = r
  handle_all stream_key (e ∷ rest) r =
      let r' = handle_entry stream_key e r in
      let done = handle_all stream_key rest r' in elim r'.result [ raise x ↦ r' | ok _ ↦ done ]

  handle_streams : List (String × List Entry) → Run p → Run p
  unfolding handle_all
  handle_streams [] r = r
  handle_streams ((stream_key, entries) ∷ rest) r =
      let r' = handle_all stream_key entries r in
      let done = handle_streams rest r' in elim r'.result [ raise x ↦ r' | ok _ ↦ done ]

  unfoldable pub claim_stale : Settings → Run p → Run p
  unfolding handle_all
  claim_stale c r =
      let (o, w') = p.xautoclaim c.claim_timeout_ms 10 r.world in
      elim o [
        | raise e ↦ record r { world = w'; result = raise e }
        | ok entries ↦ handle_all c.stream entries (record r { world = w' })
      ]

  -- A RedisError counts as no pending entry; any other exception goes on.
  unfoldable pub active_job_count : Settings → p.World → Outcome ℕ × p.World
  unfolding forgive
  active_job_count c w =
      let (o, w') = p.xpending_range w in
      elim o [
        | ok consumers ↦ (ok (length (filter_by (λ x. x == c.worker_id) consumers)), w')
        | raise e ↦ (forgive e, w')
      ]

  unfoldable pub read_new : Settings → (active : ℕ) → Run p → Run p
  unfolding batch_size handle_streams
  read_new c active r =
      if leb_ℤ c.max_concurrent (pos active)
      then record r { log = r.log ++ slept ∷ [] }
      else (let (o, w') = p.xreadgroup (batch_size c active) r.world in
          elim o [
            | raise e ↦ record r { world = w'; result = raise e }
            | ok streams ↦ handle_streams streams (record r { world = w' })
          ])

  tick_rest : Settings → Run p → Run p
  unfolding active_job_count read_new
  tick_rest c r =
      let (o, w') = active_job_count c r.world in
      elim o [
        | raise e ↦ record r { world = w'; result = raise e }
        | ok active ↦ read_new c active (record r { world = w' })
      ]

  unfoldable pub tick : Settings → p.World → Run p
  unfolding claim_stale tick_rest
  tick c w =
      let r = claim_stale c (record { world = w; log = []; result = ok tt }) in
      let rest = tick_rest c r in elim r.result [ raise e ↦ r | ok _ ↦ rest ]
