-- ===== src/Events/Stream/Requests.antt =====
-- How the endpoint backend/app/api/events.py:emit_event ends on each request.
use tacktcix.Prelude.{
  ℕ, ◌≡◌, refl, ◌⊎◌, inl, inr, true, false, Option-cases, none, some, [], ◌∷◌, ◌++◌, contains,
  string_eq, Bool-cases,
}
use tacktcix.Prelude.Outcome.{Outcome, ok, raise, Error, value_error, Outcome-cases}
use tacktcix.Events.{publish}
use tacktcix.Events.Response.{model_validate_raises}
use tacktcix.Events.Service.{
  ActivityEvent, Defaults, Feed, Texts, event_types, published, record_event,
}
use tacktcix.Events.Stream.{EmitEventRequest, fails, raises, reply_of, invalid_type, emit_event}

-- No request to emit an event is answered with the event. One of an unknown type, or whose company's id
-- is not one, is refused with the status 400, the type first, and changes nothing. Where the database
-- refuses the new row, which has the company, type, source and title of the request, its exception is
-- raised and nothing is published. Where it takes the row, the row is added and the event published to
-- the bus under the text of the company's id, and then the response's validation raises.
pub emit_event_outcome :
    (t : Texts) (flush : ActivityEvent → Outcome (Unit {0})) (d : Defaults)
    (payload : EmitEventRequest) (s : Feed)
    → ((contains payload.event_type event_types ≡ false)
        × (emit_event t flush d payload s ≡ (fails 400 (invalid_type payload.event_type), s)))
      ⊎ ((contains payload.event_type event_types ≡ true)
          × (t.uuid_of payload.company_id ≡ none)
          × (emit_event t flush d payload s ≡ (fails 400 "Invalid company_id", s)))
      ⊎ ((contains payload.event_type event_types ≡ true)
          × ((company : ℕ) × (e : ActivityEvent) × (t.uuid_of payload.company_id ≡ some company)
              × (e.company_id ≡ company)
              × (e.event_type ≡ payload.event_type)
              × (e.source ≡ payload.source)
              × (e.title ≡ payload.title)
              × (((x : Error) × (flush e ≡ raise x)
                    × (emit_event t flush d payload s ≡ (raises x, s)))
                  ⊎ ((flush e ≡ ok tt)
                      × ((published t e).company_id ≡ t.uuid_text company)
                      × (emit_event t flush d payload s ≡ (
                        raises value_error,
                        record { rows = s.rows ++ e ∷ []; bus = publish (published t e) s.bus },
                      ))))))
unfolding emit_event record_event published reply_of
emit_event_outcome t flush d payload s =
    elim (Bool-cases (contains payload.event_type event_types)) [
      | inr bad ↦ inl (bad, rw (bad, emit_event) refl)
      | inl good ↦ elim (Option-cases (t.uuid_of payload.company_id)) [
        | inl q ↦ inr (inl (good, q, rw (good, q, emit_event) refl))
        | inr (company, q) ↦
            let event =
              (record_event t d company payload.event_type payload.source payload.title
                payload.optionals s).0 in
            inr (
              inr (
                good,
                (
                  company,
                  event,
                  q,
                  refl,
                  refl,
                  refl,
                  refl,
                  elim (Outcome-cases (flush event)) [
                    | inr (x, k) ↦ inl (x, k, rw (good, q, k, emit_event) refl)
                    | inl (_, k) ↦ inr (
                      k,
                      refl,
                      rw (good, q, k, emit_event) (rw (model_validate_raises event, reply_of) refl),
                    )
                  ],
                ),
              ))
      ]
    ]
