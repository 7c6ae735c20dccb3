-- ===== src/Events/Stream.antt =====
-- The endpoints of backend/app/api/events.py: the stream of one client, and the polling fallback.
pub mod Sends
pub mod Turns
pub mod Requests
use tacktcix.Prelude.{
  ℕ, String, Bool, true, Option, none, some, List, [], ◌∷◌, ◌++◌, ◌==◌, nat_eq, string_eq,
  if◌then◌else◌, contains, filter_by, map, not, length,
}
use tacktcix.Prelude.Chars.{split_on, strip}
use tacktcix.Prelude.Dict.{lookup, insert}
use tacktcix.Prelude.Text.{◌+ₛ◌, join}
use tacktcix.Events.{Event, Queue, EventBus, subscribe, unsubscribe, publish}
use tacktcix.Prelude.Outcome.{Outcome, ok, raise, Error}
use tacktcix.Events.Response.{ActivityEventResponse, model_validate, validate_each}
use tacktcix.Events.Service.{
  ActivityEvent, Defaults, Feed, Filters, Optionals, Texts, event_types, get_event_by_id,
  get_events, record_event,
}

-- What is written to the client; the texts of the messages are made of the event by `json.dumps`.
pub data Chunk : Type 0 where
  connected keepalive : Chunk
  message : Event → Chunk

-- The bus, and what a client has been sent.
pub record Client : Type 0 where
  pub bus : EventBus
  pub sent : List Chunk

unfoldable pub passes : (type_filter : Option (List String)) → Event → Bool
passes none e = true
passes (some []) e = true
passes (some (t ∷ ts)) e = contains e.event_type (t ∷ ts)

unfoldable pub open_stream : (company_id : String) (queue : ℕ) → EventBus → Client
unfolding subscribe
open_stream company_id queue b = record {
  bus =
      subscribe company_id queue
        (record b { queues = insert queue (record { maxsize = 256; items = [] }) b.queues });
  sent = connected ∷ [];
}

unfoldable pub chunks : (type_filter : Option (List String)) → Event → List Chunk
chunks type_filter e = if passes type_filter e then message e ∷ [] else []

-- One turn of the loop for a client that is connected: the first event of the queue, or that none came
-- in time.
unfoldable pub turn : (type_filter : Option (List String)) (queue : ℕ) → Client → Client
unfolding chunks
turn type_filter queue s = elim (lookup queue s.bus.queues) [
  | none ↦ s
  | some q ↦ elim q.items [
    | [] ↦ record s { sent = s.sent ++ keepalive ∷ [] }
    | e ∷ rest ↦ record s {
      bus = record s.bus { queues = insert queue (record q { items = rest }) s.bus.queues };
      sent = s.sent ++ chunks type_filter e;
    }
  ]
]

-- The client has gone.
unfoldable pub close_stream : (company_id : String) (queue : ℕ) → Client → Client
close_stream company_id queue s = record s { bus = unsubscribe company_id queue s.bus }

pub data Moment : Type 0 where
  published : Event → Moment
  turned : Moment

unfoldable pub at_moment :
    (type_filter : Option (List String)) (queue : ℕ) → Moment → Client → Client
unfolding turn publish
at_moment type_filter queue (published e) s = record s { bus = publish e s.bus }
at_moment type_filter queue turned s = turn type_filter queue s

-- The stream between its start and its end, as the events of the process come.
unfoldable pub stream :
    (type_filter : Option (List String)) (queue : ℕ) → List Moment → Client → Client
unfolding at_moment
stream type_filter queue [] s = s
stream type_filter queue (m ∷ ms) s = stream type_filter queue ms (at_moment type_filter queue m s)

-- What an endpoint answers; where it raises, the client is sent the status 500.
pub data Reply {ℓ} (A : Type ℓ) : Type ℓ where
  replies : A → Reply A
  raises : Error → Reply A
  fails : (status : ℕ) (detail : String) → Reply A

unfoldable pub reply_of {ℓ} : {A : Type ℓ} → Outcome A → Reply A
reply_of (ok a) = replies a
reply_of (raise x) = raises x

unfoldable pub split_types : String → List String
split_types types = map strip (split_on b',' types)

-- `if types:`
unfoldable pub given : Option String → Option (List String)
unfolding split_types
given none = none
given (some types) = if types == "" then none else some (split_types types)

-- The valid types of the filter, without the order of a set.
unfoldable pub type_filter_of : Option String → Reply (Option (List String))
unfolding given
type_filter_of types = elim (given types) [
  | none ↦ replies none
  | some parts ↦ elim (filter_by (λ t. contains t parts) event_types) [
    | [] ↦ fails 400 ("Invalid type filter. Valid types: " +ₛ join ", " event_types)
    | t ∷ ts ↦ replies (some (t ∷ ts))
  ]
]

-- The company that is asked for, which must exist.
unfoldable pub company_of : Texts → (companies : List ℕ) (company_id : String) → Reply ℕ
company_of t companies company_id = elim (t.uuid_of company_id) [
  | none ↦ fails 400 "Invalid company_id"
  | some company ↦
      if contains company companies then replies company else fails 404 "Company not found"
]

-- The filter of the stream that is opened; the stream is subscribed under the text of the request.
unfoldable pub stream_events :
    Texts
    → (companies : List ℕ) (company_id : String) (types : Option String)
    → Reply (Option (List String))
unfolding company_of type_filter_of
stream_events t companies company_id types = elim (company_of t companies company_id) [
  | fails status detail ↦ fails status detail
  | raises x ↦ raises x
  | replies company ↦ type_filter_of types
]

unfoldable pub list_events :
    Texts
    → (companies : List ℕ) (company_id : String) (types source : Option String)
      (since before : Option ℕ) (limit : ℕ)
    → Feed
    → Reply (List ActivityEventResponse)
unfolding company_of given get_events reply_of
list_events t companies company_id types source since before limit s =
    elim (company_of t companies company_id) [
      | fails status detail ↦ fails status detail
      | raises x ↦ raises x
      | replies company ↦ reply_of (
          validate_each (
            get_events company
              (record { types = given types; source = source; since = since; before = before })
              limit s))
    ]

unfoldable pub get_event : (event_id : ℕ) → Feed → Reply ActivityEventResponse
unfolding get_event_by_id reply_of
get_event event_id s = elim (get_event_by_id event_id s.rows) [
  | none ↦ fails 404 "Event not found"
  | some e ↦ reply_of (model_validate e)
]

pub record EmitEventRequest : Type 0 where
  pub company_id : String
  pub event_type : String
  pub source : String
  pub title : String
  pub optionals : Optionals

unfoldable pub invalid_type : (event_type : String) → String
invalid_type event_type = "Invalid type '" +ₛ event_type +ₛ "'. Valid: " +ₛ join ", " event_types

-- The answer and the state of the session, which the code never commits, when the handler ends. `flush`
-- is the database's answer to the new row: an exception, as for a company that it does not have, takes
-- the row back before anything is published.
unfoldable pub emit_event :
    Texts
    → (flush : ActivityEvent → Outcome (Unit {0})) → Defaults
    → EmitEventRequest
    → Feed
    → Reply ActivityEventResponse × Feed
unfolding record_event reply_of
emit_event t flush d payload s =
    if contains payload.event_type event_types
    then elim (t.uuid_of payload.company_id) [
      | none ↦ (fails 400 "Invalid company_id", s)
      | some company ↦
          let (event, s') =
            record_event t d company payload.event_type payload.source payload.title
              payload.optionals s in
          elim (flush event) [
            | raise x ↦ (raises x, s)
            | ok _ ↦ (reply_of (model_validate event), s')
          ]
    ]
    else (fails 400 (invalid_type payload.event_type), s)
