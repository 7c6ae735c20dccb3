-- ===== src/Events/Stream/Turns.antt =====
-- What one moment of a stream (backend/app/api/events.py) adds to what its client is sent and to what
-- waits for it.
use tacktcix.Prelude.{
  ℕ, suc, ◌+◌, ◌-◌, ◌≡◌, refl, sym, ap, subst, ◌∙◌, String, true, false, Option, some, List, [],
  ◌∷◌, ◌++◌, ◌==◌, eq_refl, ◌&&◌, nat_eq, string_eq, if◌then◌else◌, ltb, length, length-append,
  filter_by, filter_by-append, count, Bool-cases, inl, inr, arith,
}
use mathlib.Core.List.{append_assoc, append-nil}
use tacktcix.Prelude.Dict.{lookup, get_or, insert, lookup-insert}
use tacktcix.Events.{Event, Queue, EventBus, publish}
use tacktcix.Events.Delivery.{room, copies, room_zero, publish_delivers}
use tacktcix.Events.Stream.{
  Client, Chunk, message, connected, keepalive, Moment, published, turned, passes, chunks, turn,
  at_moment,
}

-- The events among the chunks.
unfoldable pub messages : List Chunk → List Event
messages [] = []
messages (message e ∷ rest) = e ∷ messages rest
messages (connected ∷ rest) = messages rest
messages (keepalive ∷ rest) = messages rest

-- The company's events that come while fewer than 256 wait, of which there are `waiting` at first.
unfoldable pub accepted : (company : String) (waiting : ℕ) → List Moment → List Event
accepted company waiting [] = []
accepted company waiting (turned ∷ ms) = accepted company (waiting - 1) ms
accepted company waiting (published e ∷ ms) =
    let taken = accepted company (suc waiting) ms in
    let passed = accepted company waiting ms in
    if (e.company_id == company) && ltb waiting 256 then e ∷ taken else passed

-- The queue is subscribed once, to the company, which is not the name of all companies.
pub record IsSubscribed (company : String) (queue : ℕ) (b : EventBus) : Type 0 where
  pub once : count queue (get_or company [] b.subscribers) ≡ 1
  pub others : (c : String) → (c == company) ≡ false → count queue (get_or c [] b.subscribers) ≡ 0
  pub named : ("*" == company) ≡ false

messages-append : (xs ys : List Chunk) → messages (xs ++ ys) ≡ messages xs ++ messages ys
unfolding messages
messages-append [] ys = refl
messages-append (message e ∷ xs) ys = ap (λ l. e ∷ l) (messages-append xs ys)
messages-append (connected ∷ xs) ys = messages-append xs ys
messages-append (keepalive ∷ xs) ys = messages-append xs ys

messages-chunks :
    (type_filter : Option (List String)) (e : Event)
    → messages (chunks type_filter e) ≡ filter_by (passes type_filter) (e ∷ [])
unfolding messages chunks
messages-chunks type_filter e = elim (Bool-cases (passes type_filter e)) [
  | inl p ↦ rw p refl
  | inr p ↦ rw p refl
]

module _ (company : String) (type_filter : Option (List String)) (j : ℕ) where
  -- What the client has been sent, and what waits of what it is to be sent.
  unfoldable pub sent_and_waiting : Client → Queue → List Event
  sent_and_waiting s q = messages s.sent ++ filter_by (passes type_filter) q.items

  room_one :
      (e : Event) (q : Queue)
      → q.maxsize ≡ 256
      → copies (room q 1) e ≡ (if ltb (length q.items) 256 then e ∷ [] else [])
  unfolding room copies
  room_one e q bound = elim (Bool-cases (ltb (length q.items) 256)) [
    | inl free ↦
        let one : room q 1 ≡ 1 = ground (arith, bound, free) in
        ap (λ n. copies n e) one ∙ rw free refl
    | inr full ↦
        let none_left : room q 1 ≡ 0 = ground (arith, bound, full) in
        ap (λ n. copies n e) none_left ∙ rw full refl
  ]

  length_one : (xs : List Event) (e : Event) → suc (length xs) ≡ length (xs ++ e ∷ [])
  length_one xs e = omega (arith, length-append xs (e ∷ []))

  published-IsSubscribed :
      (e : Event) (b : EventBus) → IsSubscribed company j b → IsSubscribed company j (publish e b)
  unfolding publish
  published-IsSubscribed e b sub = record {
    once = sub.once;
    others = sub.others;
    named = sub.named;
  }

  publish_own :
      (e : Event) (b : EventBus) (q : Queue)
      → IsSubscribed company j b
      → (e.company_id == company) ≡ true
      → q.maxsize ≡ 256
      → lookup j b.queues ≡ some q
      → lookup j (publish e b).queues
        ≡ some (record q { items = q.items ++ (if ltb (length q.items) 256 then e ∷ [] else []) })
  unfolding room copies
  publish_own e b q sub own bound found =
      let once : count j (get_or e.company_id [] b.subscribers) ≡ 1 =
        ap (λ c. count j (get_or c [] b.subscribers))
          ((string_eq.beq_iff e.company_id company).0 own)
        ∙ sub.once in
      let wanted : count j (get_or e.company_id [] b.subscribers)
            + count j (get_or "*" [] b.subscribers)
          ≡ 1 =
        omega (arith, once, sub.others "*" sub.named) in
      (publish_delivers e b j q found).0
      ∙ ap (λ n. some (record q { items = q.items ++ copies (room q n) e })) wanted
      ∙ ap (λ l. some (record q { items = q.items ++ l })) (room_one e q bound)

  publish_foreign :
      (e : Event) (b : EventBus) (q : Queue)
      → IsSubscribed company j b
      → (e.company_id == company) ≡ false
      → lookup j b.queues ≡ some q
      → lookup j (publish e b).queues ≡ some q
  unfolding copies
  publish_foreign e b q sub foreign found =
      let wanted : count j (get_or e.company_id [] b.subscribers)
            + count j (get_or "*" [] b.subscribers)
          ≡ 0 =
        omega (arith, sub.others e.company_id foreign, sub.others "*" sub.named) in
      (publish_delivers e b j q found).0
      ∙ ap (λ n. some (record q { items = q.items ++ copies (room q n) e })) wanted
      ∙ ap (λ n. some (record q { items = q.items ++ copies n e })) (room_zero q)
      ∙ ap (λ l. some (record q { items = l })) (append-nil q.items)

  -- What one moment adds to what was sent and what waits, and how the queue goes on.
  unfoldable pub Kept : Moment → Client → Queue → Type 0
  Kept m s q =
      (r : Queue) × (new : List Event) × (lookup j (at_moment type_filter j m s).bus.queues
        ≡ some r)
      × (r.maxsize ≡ 256)
      × IsSubscribed company j (at_moment type_filter j m s).bus
      × (sent_and_waiting (at_moment type_filter j m s) r
          ≡ sent_and_waiting s q ++ filter_by (passes type_filter) new)
      × ((ms : List Moment)
          → accepted company (length q.items) (m ∷ ms)
            ≡ new ++ accepted company (length r.items) ms)

  put_one :
      (s : Client) (q : Queue) (e : Event) (b : EventBus)
      → sent_and_waiting (record s { bus = b }) (record q { items = q.items ++ e ∷ [] })
        ≡ sent_and_waiting s q ++ filter_by (passes type_filter) (e ∷ [])
  unfolding sent_and_waiting
  put_one s q e b =
      ap (λ l. messages s.sent ++ l) (filter_by-append (passes type_filter) q.items (e ∷ []))
      ∙ sym (append_assoc (messages s.sent) _ _)

  published-Kept :
      (e : Event) (s : Client) (q : Queue)
      → IsSubscribed company j s.bus
      → q.maxsize ≡ 256
      → lookup j s.bus.queues ≡ some q
      → Kept (published e) s q
  unfolding Kept at_moment accepted sent_and_waiting
  published-Kept e s q sub bound found = elim (Bool-cases (e.company_id == company)) [
    | inr foreign ↦ (
      q,
      [],
      publish_foreign e s.bus q sub foreign found,
      bound,
      published-IsSubscribed e s.bus sub,
      sym (append-nil _),
      λ ms. rw foreign refl,
    )
    | inl own ↦
        let put = publish_own e s.bus q sub own bound found in
        elim (Bool-cases (ltb (length q.items) 256)) [
          | inl free ↦ (
            record q { items = q.items ++ e ∷ [] },
            e ∷ [],
            put ∙ rw free refl,
            bound,
            published-IsSubscribed e s.bus sub,
            put_one s q e (publish e s.bus),
            λ ms. rw (own, free) (ap (λ n. e ∷ accepted company n ms) (length_one q.items e)),
          )
          | inr full ↦ (
            q,
            [],
            put ∙ rw full (ap (λ l. some (record q { items = l })) (append-nil q.items)),
            bound,
            published-IsSubscribed e s.bus sub,
            sym (append-nil _),
            λ ms. rw (own, full) refl,
          )
        ]
  ]

  turned_empty-Kept :
      (s : Client) (n : ℕ)
      → IsSubscribed company j s.bus
      → n ≡ 256
      → lookup j s.bus.queues ≡ some (record { maxsize = n; items = [] })
      → Kept turned s (record { maxsize = n; items = [] })
  unfolding Kept at_moment accepted turn sent_and_waiting messages
  turned_empty-Kept s n sub bound found =
      let q : Queue = record { maxsize = n; items = [] } in
      let waits : turn type_filter j s ≡ record s { sent = s.sent ++ keepalive ∷ [] } =
        rw (found, turn) refl in
      (
        q,
        [],
        ap (λ t. lookup j t.bus.queues) waits ∙ found,
        bound,
        subst (λ (t : Client). IsSubscribed company j t.bus) (sym waits) sub,
        ap (λ t. sent_and_waiting t q) waits
            ∙ ap (λ l. l ++ []) (messages-append s.sent (keepalive ∷ []) ∙ append-nil _)
            ∙ sym (append-nil _),
        λ ms. refl,
      )

  turned_next-Kept :
      (s : Client) (n : ℕ) (e : Event) (rest : List Event)
      → IsSubscribed company j s.bus
      → n ≡ 256
      → lookup j s.bus.queues ≡ some (record { maxsize = n; items = e ∷ rest })
      → Kept turned s (record { maxsize = n; items = e ∷ rest })
  unfolding Kept at_moment accepted turn sent_and_waiting
  turned_next-Kept s n e rest sub bound found =
      let q : Queue = record { maxsize = n; items = rest } in
      let one_less : suc (length rest) - 1 ≡ length rest = omega arith in
      let after : Client = record {
        bus = record s.bus { queues = insert j q s.bus.queues };
        sent = s.sent ++ chunks type_filter e;
      } in
      let sends : turn type_filter j s ≡ after = rw (found, turn) refl in
      let still : IsSubscribed company j after.bus = record {
        once = sub.once;
        others = sub.others;
        named = sub.named;
      } in
      let there : lookup j after.bus.queues ≡ some q =
        lookup-insert j j q s.bus.queues ∙ rw (eq_refl j) refl in
      (
        q,
        [],
        ap (λ t. lookup j t.bus.queues) sends ∙ there,
        bound,
        subst (λ (t : Client). IsSubscribed company j t.bus) (sym sends) still,
        ap (λ t. sent_and_waiting t q) sends
            ∙ ap (λ l. l ++ filter_by (passes type_filter) rest)
                (messages-append s.sent (chunks type_filter e)
                  ∙ ap (λ l. messages s.sent ++ l) (messages-chunks type_filter e))
            ∙ append_assoc (messages s.sent) _ _
            ∙ ap (λ l. messages s.sent ++ l)
                (sym (filter_by-append (passes type_filter) (e ∷ []) rest))
            ∙ sym (append-nil _),
        λ ms. ap (λ k. accepted company k ms) one_less,
      )

  turned-Kept :
      (s : Client) (n : ℕ) (items : List Event)
      → IsSubscribed company j s.bus
      → n ≡ 256
      → lookup j s.bus.queues ≡ some (record { maxsize = n; items = items })
      → Kept turned s (record { maxsize = n; items = items })
  turned-Kept s n [] = turned_empty-Kept s n
  turned-Kept s n (e ∷ rest) = turned_next-Kept s n e rest

  pub at_moment-Kept :
      (m : Moment) (s : Client) (q : Queue)
      → IsSubscribed company j s.bus
      → q.maxsize ≡ 256
      → lookup j s.bus.queues ≡ some q
      → Kept m s q
  at_moment-Kept (published e) s q sub bound found = published-Kept e s q sub bound found
  at_moment-Kept turned s q sub bound found = turned-Kept s q.maxsize q.items sub bound found
