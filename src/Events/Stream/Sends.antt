-- ===== src/Events/Stream/Sends.antt =====
-- What the client of a stream (backend/app/api/events.py) is sent of the events that the process
-- publishes.
use tacktcix.Prelude.{
  ℕ, ◌≡◌, refl, sym, ap, ◌∙◌, String, false, Option, some, List, [], ◌∷◌, ◌++◌, ◌==◌, eq_refl,
  nat_eq, string_eq, length, filter_by, filter_by-append, count, count-append, arith,
}
use mathlib.Core.List.{append_assoc, append-nil}
use tacktcix.Prelude.Dict.{lookup, get_or, lookup-insert}
use tacktcix.Events.{Queue, EventBus, subscribe}
use tacktcix.Events.Isolation.{get_or-insert}
use tacktcix.Events.Stream.{Client, Moment, passes, open_stream, at_moment, stream}
use tacktcix.Events.Stream.Turns.{
  IsSubscribed, Kept, accepted, at_moment-Kept, messages, sent_and_waiting,
}

module _ (company : String) (type_filter : Option (List String)) (j : ℕ) where
  -- The same events, as they are written, or are put to the queue.
  stream_keeps :
      (ms : List Moment) (s : Client) (q : Queue)
      → IsSubscribed company j s.bus
      → q.maxsize ≡ 256
      → lookup j s.bus.queues ≡ some q
      → (r : Queue) × (lookup j (stream type_filter j ms s).bus.queues ≡ some r)
        × (sent_and_waiting company type_filter j (stream type_filter j ms s) r
            ≡ sent_and_waiting company type_filter j s q
              ++ filter_by (passes type_filter) (accepted company (length q.items) ms))
  unfolding stream Kept accepted
  stream_keeps [] s q sub bound found = (q, found, sym (append-nil _))
  stream_keeps (m ∷ ms) s q sub bound found =
      let (r, new, there, bound', sub', one, rest) =
        at_moment-Kept company type_filter j m s q sub bound found in
      let (z, last, all) = stream_keeps ms (at_moment type_filter j m s) r sub' bound' there in
      (
        z,
        last,
        all
            ∙ ap (λ l. l ++ filter_by (passes type_filter) (accepted company (length r.items) ms))
                one
            ∙ append_assoc (sent_and_waiting company type_filter j s q) _ _
            ∙ ap (λ l. sent_and_waiting company type_filter j s q ++ l)
                (sym (filter_by-append (passes type_filter) new _))
            ∙ ap
                (λ l.
                  sent_and_waiting company type_filter j s q ++ filter_by (passes type_filter) l)
                (sym (rest ms)),
      )

  opened-IsSubscribed :
      (b : EventBus)
      → ((c : String) → count j (get_or c [] b.subscribers) ≡ 0)
      → ("*" == company) ≡ false
      → IsSubscribed company j (open_stream company j b).bus
  unfolding open_stream subscribe
  opened-IsSubscribed b fresh named = record {
    once =
        ap (count j) (get_or-insert company company _ b.subscribers ∙ rw (eq_refl company) refl)
        ∙ count-append j (get_or company [] b.subscribers) (j ∷ [])
        ∙ rw (fresh company) (ground (arith, nat_eq.beq_iff j j));
    others =
        λ c other. ap (count j) (get_or-insert c company _ b.subscribers ∙ rw other refl) ∙ fresh c;
    named = named;
  }

-- A stream that is opened for a company under a queue that no one else uses sends the client exactly
-- the company's events that pass the filter, in the order in which they are published, each once:
-- what was sent and what waits to be sent are together those events, without the ones that came
-- while 256 waited, whatever other events are published and however the loop's turns fall.
pub stream_sends :
    (company : String) (type_filter : Option (List String)) (j : ℕ) (b : EventBus)
    → ((c : String) → count j (get_or c [] b.subscribers) ≡ 0)
    → ("*" == company) ≡ false
    → (ms : List Moment)
    → let s = stream type_filter j ms (open_stream company j b) in
      (r : Queue) × (lookup j s.bus.queues ≡ some r)
      × (messages s.sent ++ filter_by (passes type_filter) r.items
          ≡ filter_by (passes type_filter) (accepted company 0 ms))
unfolding open_stream subscribe sent_and_waiting messages
stream_sends company type_filter j b fresh named ms =
    let q : Queue = record { maxsize = 256; items = [] } in
    let there : lookup j (open_stream company j b).bus.queues ≡ some q =
      lookup-insert j j q b.queues ∙ rw (eq_refl j) refl in
    stream_keeps company type_filter j ms (open_stream company j b) q
      (opened-IsSubscribed company type_filter j b fresh named) refl there
