-- ===== src/Tests/Events.antt =====
-- Runs of the events: two companies, a stream of each, and requests.
use mathlib.Core.List.{Perm}
use tacktcix.Prelude.{
  ℕ, ◌+◌, ◌-◌, min, ◌≡◌, ◌⊎◌, inl, inr, refl, subst, Bool-cases, String, true, false, none, some,
  List, [], ◌∷◌, ◌++◌, ◌==◌, nat_eq, string_eq, if◌then◌else◌, length, All, contains, filter_by,
  count, min, ◌≤◌,
}
use tacktcix.Prelude.Dict.{lookup, get_or}
use tacktcix.Prelude.Outcome.{Error, Outcome, ok, raise, value_error}
use tacktcix.Events.{Event, Queue, EventBus, publish, subscribe}
use tacktcix.Events.Delivery.{copies, room, publish_delivers}
use tacktcix.Events.Isolation.{IsApart, Reach, here, next, Step, subscribed, Reach-IsApart}
use tacktcix.Events.Isolation
use tacktcix.Events.Service.{
  ActivityEvent, Defaults, Feed, Filters, Texts, event_types, get_events, published,
}
use tacktcix.Events.Queries.{Passes, NewestFirst, get_events_newest}
use tacktcix.Events.Stream.{
  EmitEventRequest, emit_event, invalid_type, fails, raises, passes, stream, open_stream, turned,
}
use tacktcix.Events.Stream
use tacktcix.Events.Stream.Sends.{stream_sends}
use tacktcix.Events.Stream.Turns.{accepted, messages}
use tacktcix.Events.Stream.Requests.{emit_event_outcome}

abbrev event_of : (company_id event_type : String) → Event
event_of company_id event_type = record {
  id = "e1";
  company_id = company_id;
  event_type = event_type;
  source = "system";
  source_id = none;
  title = "t";
  description = none;
  metadata = [];
  created_at = "now";
}

-- Queue 1 follows "a" and has room for one event; queue 2 follows "b".
abbrev bus : EventBus
bus = record {
  subscribers = ("a", 1 ∷ []) ∷ ("b", 2 ∷ []) ∷ [];
  queues =
      (1, record { maxsize = 1; items = [] })
      ∷ (2, record { maxsize = 0; items = event_of "b" "error" ∷ [] })
      ∷ [];
}

abbrev error_of_a : Event
error_of_a = event_of "a" "error"

publish_delivers_example :
    let wanted =
      count 1 (get_or "a" [] bus.subscribers) + count 1 (get_or "*" [] bus.subscribers) in
    let q : Queue = record { maxsize = 1; items = [] } in
    (lookup 1 (publish error_of_a bus).queues
      ≡ some (record q { items = q.items ++ copies (room q wanted) error_of_a }))
    × (((q.maxsize ≡ 0) × (room q wanted ≡ wanted))
        ⊎ (room q wanted ≡ min wanted (q.maxsize - length q.items)))
publish_delivers_example =
    publish_delivers error_of_a bus 1 (record { maxsize = 1; items = [] }) refl

-- Queue 2 is kept apart from "a" while queue 3 subscribes to "a" and an event of "a" comes.
abbrev later : EventBus
unfolding publish subscribe
later = publish error_of_a (subscribe "a" 3 bus)

held : (q : Queue) → lookup 2 bus.queues ≡ some q → All (λ e. (e.company_id == "a") ≡ false) q.items
held q found =
    let same : record { maxsize = 0; items = event_of "b" "error" ∷ [] } ≡ q = cc in
    subst (λ (r : Queue). All (λ e. (e.company_id == "a") ≡ false) r.items) same (refl, tt)

fresh : (c : String) → count 3 (get_or c [] bus.subscribers) ≡ 0
fresh c = elim (Bool-cases (c == "a")) [
  | inl a ↦ rw (a, get_or, lookup) refl
  | inr a ↦ elim (Bool-cases (c == "b")) [
    | inl b ↦ rw (a, b, get_or, lookup) refl
    | inr b ↦ rw (a, b, get_or, lookup) refl
  ]
]

apart : IsApart "a" 2 bus
apart = record { own = refl; everyone = refl; items = held }

steps : Reach "a" 2 bus later
unfolding later
steps = next (next here (subscribed "a" 3 (inl refl))) (Isolation.published error_of_a)

Reach-IsApart_example : IsApart "a" 2 later
Reach-IsApart_example = Reach-IsApart apart steps

-- A new stream of "a", with its filter.
stream_sends_example :
    let s =
      stream
        (some ("error" ∷ []))
        3
        (Stream.published error_of_a
          ∷ turned
          ∷ Stream.published (event_of "b" "error")
          ∷ turned
          ∷ [])
        (open_stream "a" 3 bus) in
    (r : Queue) × (lookup 3 s.bus.queues ≡ some r)
    × (messages s.sent ++ filter_by (passes (some ("error" ∷ []))) r.items
        ≡ filter_by (passes (some ("error" ∷ []))) (
            accepted "a" 0 (
              Stream.published error_of_a
              ∷ turned
              ∷ Stream.published (event_of "b" "error")
              ∷ turned
              ∷ [])))
stream_sends_example =
    stream_sends "a" (some ("error" ∷ [])) 3 bus fresh refl
      (Stream.published error_of_a ∷ turned ∷ Stream.published (event_of "b" "error") ∷ turned ∷ [])

abbrev texts : Texts
texts = record {
  uuid_text = λ n. if n == 7 then "a" else "b";
  isoformat = λ n. "now";
  uuid_of = λ s. if s == "a" then some 7 else none;
}

abbrev row_at : ℕ → ActivityEvent
row_at n = record {
  id = n;
  company_id = 7;
  event_type = "error";
  source = "system";
  source_id = none;
  title = "t";
  description = none;
  meta = [];
  created_at = n;
}

abbrev feed : Feed
feed = record { rows = row_at 1 ∷ row_at 3 ∷ row_at 2 ∷ []; bus = bus }

abbrev since_two : Filters
since_two = record { types = some []; source = some ""; since = some 2; before = none }

get_events_newest_example :
    let answer = get_events 7 since_two 1 feed in
    (left_out others : List ActivityEvent) × Perm ((answer ++ left_out) ++ others) feed.rows
    × All (Passes 7 since_two) answer
    × All (Passes 7 since_two) left_out
    × All (λ e. ¬ Passes 7 since_two e) others
    × NewestFirst answer
    × All (λ e. All (λ x. x.created_at ≤ e.created_at) left_out) answer
    × (length answer ≡ min 1 (length (answer ++ left_out)))
get_events_newest_example = get_events_newest 7 since_two 1 feed

abbrev request : EmitEventRequest
request = record {
  company_id = "a";
  event_type = "error";
  source = "webhook";
  title = "t";
  optionals = record { source_id = none; description = none; metadata = none };
}

abbrev defaults : Defaults
defaults = record { id = 9; created_at = 4 }

abbrev accepts : ActivityEvent → Outcome (Unit {0})
accepts e = ok tt

emit_event_outcome_example :
    ((contains request.event_type event_types ≡ false)
      × (emit_event texts accepts defaults request feed
          ≡ (fails 400 (invalid_type request.event_type), feed)))
    ⊎ ((contains request.event_type event_types ≡ true)
        × (texts.uuid_of request.company_id ≡ none)
        × (emit_event texts accepts defaults request feed ≡ (fails 400 "Invalid company_id", feed)))
    ⊎ ((contains request.event_type event_types ≡ true)
        × ((company : ℕ) × (e : ActivityEvent) × (texts.uuid_of request.company_id ≡ some company)
            × (e.company_id ≡ company)
            × (e.event_type ≡ request.event_type)
            × (e.source ≡ request.source)
            × (e.title ≡ request.title)
            × (((x : Error) × (accepts e ≡ raise x)
                  × (emit_event texts accepts defaults request feed ≡ (raises x, feed)))
                ⊎ ((accepts e ≡ ok tt)
                    × ((published texts e).company_id ≡ texts.uuid_text company)
                    × (emit_event texts accepts defaults request feed ≡ (
                      raises value_error,
                      record {
                        rows = feed.rows ++ e ∷ [];
                        bus = publish (published texts e) feed.bus;
                      },
                    ))))))
emit_event_outcome_example = emit_event_outcome texts accepts defaults request feed
