-- ===== src/Events/Delivery.antt =====
-- What publishing an event (backend/app/services/event_service.py) does to each queue.
use tacktcix.Prelude.{
  ℕ, zero, suc, ◌+◌, ◌-◌, min, ◌≡◌, ◌⊎◌, refl, sym, ap, ◌∙◌, true, false, some, List, [], ◌∷◌, ◌++◌,
  ◌==◌, nat_eq, string_eq, if◌then◌else◌, length, length-append, Bool-cases, inl, inr, arith,
}
use tacktcix.Prelude.{count, count-append}
use mathlib.Core.List.{append_assoc, append-nil}
use tacktcix.Prelude.Dict.{Dict, lookup, get_or}
use tacktcix.Events.{Event, Queue, EventBus, is_full, put_nowait, offer, offer_each, publish}

-- How many more events fit, of `wanted`.
unfoldable pub room : Queue → (wanted : ℕ) → ℕ
room q wanted = if q.maxsize == 0 then wanted else min wanted (q.maxsize - length q.items)

unfoldable pub copies : ℕ → Event → List Event
copies zero e = []
copies (suc n) e = e ∷ copies n e

-- A queue that is offered the event `wanted` times takes it as often as it has room.
unfoldable pub taken : (wanted : ℕ) → Event → Queue → Queue
taken wanted e q = record q { items = q.items ++ copies (room q wanted) e }

room_full : (q : Queue) (n : ℕ) → is_full q ≡ true → room q n ≡ 0
unfolding is_full room
room_full q n h = ground arith

room_suc :
    (q : Queue) (n : ℕ) (e : Event)
    → is_full q ≡ false
    → room q (suc n) ≡ suc (room (record q { items = q.items ++ e ∷ [] }) n)
unfolding is_full room
room_suc q n e h = ground (arith, length-append {0} q.items (e ∷ []))

pub room_zero : (q : Queue) → room q 0 ≡ 0
unfolding room
room_zero q = ground arith

taken-zero : (e : Event) (q : Queue) → taken 0 e q ≡ q
unfolding taken copies
taken-zero e q = rw (room_zero q) (ap (λ i. record q { items = i }) (append-nil q.items))

taken-suc : (n : ℕ) (e : Event) (q : Queue) → taken (suc n) e q ≡ taken n e (put_nowait e q)
unfolding taken copies put_nowait
taken-suc n e q = elim (Bool-cases (is_full q)) [
  | inl full ↦ rw (full, room_full q n full, room_full q (suc n) full) refl
  | inr free ↦
      rw (free, room_suc q n e free)
        (ap (λ i. record q { items = i }) (sym (append_assoc q.items (e ∷ []) _)))
]

room_bounded :
    (q : Queue) (n : ℕ)
    → ((q.maxsize ≡ 0) × (room q n ≡ n)) ⊎ (room q n ≡ min n (q.maxsize - length q.items))
unfolding room
room_bounded q n = elim (Bool-cases (q.maxsize == 0)) [
  | inl e ↦ inl ((nat_eq.beq_iff q.maxsize 0).0 e, rw e refl)
  | inr e ↦ inr (rw e refl)
]

offer_found :
    (e : Event) (k j : ℕ) (d : Dict ℕ Queue) (q : Queue)
    → lookup j d ≡ some q
    → lookup j (offer e k d) ≡ some (if j == k then put_nowait e q else q)
unfolding offer
offer_found e k j [] q h = cc
offer_found e k j ((i, p) ∷ d) q h =
    ground
      (arith, nat_eq.beq_iff j k, nat_eq.beq_iff k i, nat_eq.beq_iff j i, offer_found e k j d q)

offer_each_found :
    (e : Event) (ks : List ℕ) (j : ℕ) (d : Dict ℕ Queue) (q : Queue)
    → lookup j d ≡ some q
    → lookup j (offer_each e ks d) ≡ some (taken (count j ks) e q)
unfolding offer_each
offer_each_found e [] j d q h = rw (taken-zero e q) h
offer_each_found e (k ∷ ks) j d q h =
    let put = offer_found e k j d q h in
    elim (Bool-cases (j == k)) [
      | inl here ↦
          let more : count j (k ∷ ks) ≡ suc (count j ks) = ground (arith, here) in
          offer_each_found e ks j (offer e k d) (put_nowait e q) (put ∙ rw here refl)
          ∙ ap some (sym (taken-suc (count j ks) e q))
          ∙ ap (λ n. some (taken n e q)) (sym more)
      | inr there ↦
          let same : count j (k ∷ ks) ≡ count j ks = ground (arith, there) in
          offer_each_found e ks j (offer e k d) q (put ∙ rw there refl)
          ∙ ap (λ n. some (taken n e q)) (sym same)
    ]

offer_each_append :
    (e : Event) (xs ys : List ℕ) (d : Dict ℕ Queue)
    → offer_each e ys (offer_each e xs d) ≡ offer_each e (xs ++ ys) d
unfolding offer_each
offer_each_append e [] ys d = refl
offer_each_append e (x ∷ xs) ys d = offer_each_append e xs ys (offer e x d)

-- A queue takes a published event as often as it is subscribed to the event's company and to all
-- companies together, and as it has room: at most up to its bound, or any number if it has none. What
-- it held before stays in front. A queue that is subscribed to neither is left as it is.
pub publish_delivers :
    (e : Event) (b : EventBus) (j : ℕ) (q : Queue)
    → lookup j b.queues ≡ some q
    → let wanted =
        count j (get_or e.company_id [] b.subscribers) + count j (get_or "*" [] b.subscribers) in
      (lookup j (publish e b).queues
        ≡ some (record q { items = q.items ++ copies (room q wanted) e }))
      × (((q.maxsize ≡ 0) × (room q wanted ≡ wanted))
          ⊎ (room q wanted ≡ min wanted (q.maxsize - length q.items)))
unfolding publish taken
publish_delivers e b j q found =
    let own = get_or e.company_id [] b.subscribers in
    let all_companies = get_or "*" [] b.subscribers in
    let delivered =
      ap (lookup j) (offer_each_append e own all_companies b.queues)
      ∙ offer_each_found e (own ++ all_companies) j b.queues q found
      ∙ ap (λ n. some (taken n e q)) (count-append j own all_companies) in
    (delivered, room_bounded q _)
