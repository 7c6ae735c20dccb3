-- ===== src/Events/Service.antt =====
-- EventService of backend/app/services/event_service.py: the rows of the events, and the bus.
use tacktcix.Prelude.{
  ℕ, String, Bool, true, Option, none, some, List, [], ◌∷◌, ◌++◌, ◌==◌, ◌&&◌, nat_eq, string_eq,
  if◌then◌else◌, contains, leb, filter_by, take,
}
use tacktcix.Prelude.Dict.{Dict, merge}
use tacktcix.Prelude.Json.{Json, text}
use tacktcix.Prelude.Sorting.{sort}
use tacktcix.Prelude.Text.{◌+ₛ◌, or_default}
use tacktcix.Events.{Event, EventBus, publish}

-- A row; its time is in microseconds.
pub record ActivityEvent : Type 0 where
  pub id : ℕ
  pub company_id : ℕ
  pub event_type : String
  pub source : String
  pub source_id : Option String
  pub title : String
  pub description : Option String
  pub meta : Dict String Json
  pub created_at : ℕ

-- `str` and `isoformat`, and `uuid.UUID` of a text.
pub record Texts : Type 0 where
  pub uuid_text : ℕ → String
  pub isoformat : ℕ → String
  pub uuid_of : String → Option ℕ

-- The table of the events and the bus of the process.
pub record Feed : Type 0 where
  pub rows : List ActivityEvent
  pub bus : EventBus

-- The defaults of a new row: its id and its time.
pub record Defaults : Type 0 where
  pub id : ℕ
  pub created_at : ℕ

unfoldable pub published : Texts → ActivityEvent → Event
published t e = record {
  id = t.uuid_text e.id;
  company_id = t.uuid_text e.company_id;
  event_type = e.event_type;
  source = e.source;
  source_id = e.source_id;
  title = e.title;
  description = e.description;
  metadata = e.meta;
  created_at = t.isoformat e.created_at;
}

-- `metadata or {}`
unfoldable pub or_empty : Option (Dict String Json) → Dict String Json
or_empty none = []
or_empty (some d) = d

-- The optional arguments that every call has.
pub record Optionals : Type 0 where
  pub source_id : Option String
  pub description : Option String
  pub metadata : Option (Dict String Json)

unfoldable pub record_event :
    Texts
    → Defaults
    → (company_id : ℕ) (event_type source title : String) → Optionals
    → Feed
    → ActivityEvent × Feed
unfolding published or_empty
record_event t d company_id event_type source title o s =
    let event : ActivityEvent = record {
      id = d.id;
      company_id = company_id;
      event_type = event_type;
      source = source;
      source_id = o.source_id;
      title = title;
      description = o.description;
      meta = or_empty o.metadata;
      created_at = d.created_at;
    } in
    (event, record s { rows = s.rows ++ event ∷ []; bus = publish (published t event) s.bus })

abbrev pub task_transition_type : String
task_transition_type = "task_transition"

abbrev pub agent_action_type : String
agent_action_type = "agent_action"

abbrev pub error_type : String
error_type = "error"

abbrev pub workflow_event_type : String
workflow_event_type = "workflow_event"

abbrev pub event_types : List String
event_types = task_transition_type ∷ agent_action_type ∷ error_type ∷ workflow_event_type ∷ []

unfoldable pub task_transition :
    Texts
    → Defaults
    → (company_id : ℕ) (task_title old_status new_status source : String) → Optionals
    → Feed
    → ActivityEvent × Feed
unfolding record_event
task_transition t d company_id task_title old_status new_status source o =
    record_event t d company_id task_transition_type source
      ("Task \"" +ₛ task_title +ₛ "\" → " +ₛ new_status)
      (record o {
        description = some (
            or_default o.description
              ("Status changed from " +ₛ old_status +ₛ " to " +ₛ new_status));
        metadata = some (
            merge (("old_status", text old_status) ∷ ("new_status", text new_status) ∷ [])
              (or_empty o.metadata));
      })

unfoldable pub agent_action :
    Texts
    → Defaults
    → (company_id : ℕ) (agent_name action : String) → Optionals
    → Feed
    → ActivityEvent × Feed
agent_action t d company_id agent_name action =
    record_event t d company_id agent_action_type agent_name action

unfoldable pub error_event :
    Texts
    → Defaults
    → (company_id : ℕ) (source error_title : String) → Optionals
    → Feed
    → ActivityEvent × Feed
error_event t d company_id source error_title =
    record_event t d company_id error_type source error_title

unfoldable pub workflow_event :
    Texts
    → Defaults
    → (company_id : ℕ) (workflow_name event : String) → Optionals
    → Feed
    → ActivityEvent × Feed
unfolding or_empty
workflow_event t d company_id workflow_name event o =
    record_event t d company_id workflow_event_type "workflow"
      ("Workflow \"" +ₛ workflow_name +ₛ "\" — " +ₛ event)
      (record o {
        metadata = some (merge (("workflow_name", text workflow_name) ∷ []) (or_empty o.metadata));
      })

-- The filters of a query; an empty list, and an empty text, are no filter.
pub record Filters : Type 0 where
  pub types : Option (List String)
  pub source : Option String
  pub since : Option ℕ
  pub before : Option ℕ

unfoldable pub of_types : Option (List String) → ActivityEvent → Bool
of_types none e = true
of_types (some []) e = true
of_types (some (t ∷ ts)) e = contains e.event_type (t ∷ ts)

unfoldable pub of_source : Option String → ActivityEvent → Bool
of_source none e = true
of_source (some source) e = if source == "" then true else e.source == source

unfoldable pub not_before : Option ℕ → ActivityEvent → Bool
not_before none e = true
not_before (some since) e = leb since e.created_at

unfoldable pub not_after : Option ℕ → ActivityEvent → Bool
not_after none e = true
not_after (some before) e = leb e.created_at before

unfoldable pub matches : (company_id : ℕ) → Filters → ActivityEvent → Bool
matches company_id f e =
    e.company_id == company_id
    && of_types f.types e
    && of_source f.source e
    && not_before f.since e
    && not_after f.before e

unfoldable pub newest_first : ActivityEvent → ActivityEvent → Bool
newest_first a b = leb b.created_at a.created_at

unfoldable pub get_events : (company_id : ℕ) → Filters → (limit : ℕ) → Feed → List ActivityEvent
unfolding matches newest_first
get_events company_id f limit s =
    take limit (sort newest_first (filter_by (matches company_id f) s.rows))

-- Ids are the primary key.
unfoldable pub get_event_by_id : (event_id : ℕ) → List ActivityEvent → Option ActivityEvent
get_event_by_id event_id [] = none
get_event_by_id event_id (e ∷ rows) =
    if e.id == event_id then some e else get_event_by_id event_id rows
