-- ===== src/Events.antt =====
-- EventBus of backend/app/services/event_service.py. The queues of the subscribers are objects that the
-- subscriber and the bus share: `queues` is their store, by the identity of the queue.

pub mod Delivery
pub mod Isolation
pub mod Queries
pub mod Response
pub mod Service
pub mod Stream
use tacktcix.Prelude.{
  ℕ, suc, String, Bool, true, false, Option, none, some, List, [], ◌∷◌, ◌++◌, ◌==◌, ◌&&◌, nat_eq,
  string_eq, if◌then◌else◌, contains, length, leb, not,
}
use tacktcix.Prelude.Dict.{Dict, lookup, get_or, insert}
use tacktcix.Prelude.Json.{Json}

-- The dict that is published.
pub record Event : Type 0 where
  pub id : String
  pub company_id : String
  pub event_type : String
  pub source : String
  pub source_id : Option String
  pub title : String
  pub description : Option String
  pub metadata : Dict String Json
  pub created_at : String

-- `asyncio.Queue`: the size 0 is no bound.
pub record Queue : Type 0 where
  pub maxsize : ℕ
  pub items : List Event

pub record EventBus : Type 0 where
  pub subscribers : Dict String (List ℕ)
  pub queues : Dict ℕ Queue

unfoldable pub is_full : Queue → Bool
is_full q = not (q.maxsize == 0) && leb q.maxsize (length q.items)

-- `put_nowait`, with QueueFull passed over.
unfoldable pub put_nowait : Event → Queue → Queue
unfolding is_full
put_nowait e q = if is_full q then q else record q { items = q.items ++ e ∷ [] }

unfoldable pub offer : Event → (queue : ℕ) → Dict ℕ Queue → Dict ℕ Queue
unfolding put_nowait
offer e queue [] = []
offer e queue ((k, q) ∷ rest) =
    if queue == k then (k, put_nowait e q) ∷ rest else (k, q) ∷ offer e queue rest

unfoldable pub offer_each : Event → List ℕ → Dict ℕ Queue → Dict ℕ Queue
unfolding offer
offer_each e [] queues = queues
offer_each e (queue ∷ rest) queues = offer_each e rest (offer e queue queues)

-- `setdefault(company_id, []).append(queue)`
unfoldable pub subscribe : (company_id : String) (queue : ℕ) → EventBus → EventBus
subscribe company_id queue b = record b {
  subscribers = insert company_id (get_or company_id [] b.subscribers ++ queue ∷ []) b.subscribers;
}

-- `queues.remove(queue)`: the first one goes.
unfoldable pub remove_first : (queue : ℕ) → List ℕ → List ℕ
remove_first queue [] = []
remove_first queue (q ∷ rest) = if queue == q then rest else q ∷ remove_first queue rest

unfoldable pub unsubscribe : (company_id : String) (queue : ℕ) → EventBus → EventBus
unfolding remove_first
unsubscribe company_id queue b = elim (lookup company_id b.subscribers) [
  | none ↦ b
  | some queues ↦
      if contains queue queues
      then record b { subscribers = insert company_id (remove_first queue queues) b.subscribers }
      else b
]

unfoldable pub publish : Event → EventBus → EventBus
unfolding offer_each
publish e b = record b {
  queues =
      offer_each e (get_or "*" [] b.subscribers)
        (offer_each e (get_or e.company_id [] b.subscribers) b.queues);
}
