-- ===== src/Events/Isolation.antt =====
-- The events of a company reach only the queues that are subscribed to it or to all companies
-- (backend/app/services/event_service.py).
use tacktcix.Prelude.{
  ℕ, zero, suc, ◌+◌, ◌≡◌, ◌⊎◌, refl, sym, ap, ◌∙◌, subst, String, true, false, none, some,
  Option-cases, List, [], ◌∷◌, ◌++◌, ◌==◌, nat_eq, string_eq, if◌then◌else◌, contains, Bool-cases,
  inl, inr, arith, All, All-append, count, count-append,
}
use tacktcix.Prelude.Dict.{Dict, lookup, get_or, insert, lookup-insert}
use tacktcix.Events.{
  Event, Queue, EventBus, offer, offer_each, publish, subscribe, unsubscribe, remove_first,
}
use tacktcix.Events.Delivery.{room, copies, room_zero, publish_delivers}

-- The bus as it works, but for a subscription of the queue to the company or to all companies.
pub data Step (company : String) (queue : ℕ) (b : EventBus) : EventBus → Type 0 where
  subscribed :
      (c : String) (k : ℕ)
      → ((queue == k) ≡ false) ⊎ ((company == c) ≡ false × ("*" == c) ≡ false)
      → Step company queue b (subscribe c k b)
  unsubscribed : (c : String) (k : ℕ) → Step company queue b (unsubscribe c k b)
  published : (e : Event) → Step company queue b (publish e b)

pub data Reach (company : String) (queue : ℕ) (b : EventBus) : EventBus → Type 0 where
  here : Reach company queue b b
  next :
      {c d : EventBus} → Reach company queue b c → Step company queue c d → Reach company queue b d

-- The queue is subscribed neither to the company nor to all, and holds no event of the company.
pub record IsApart (company : String) (queue : ℕ) (b : EventBus) : Type 0 where
  pub own : count queue (get_or company [] b.subscribers) ≡ 0
  pub everyone : count queue (get_or "*" [] b.subscribers) ≡ 0
  pub items :
      (q : Queue)
      → lookup queue b.queues ≡ some q
      → All (λ e. (e.company_id == company) ≡ false) q.items

offer_missing :
    (e : Event) (k j : ℕ) (d : Dict ℕ Queue) → lookup j d ≡ none → lookup j (offer e k d) ≡ none
unfolding offer
offer_missing e k j [] h = refl
offer_missing e k j ((i, p) ∷ d) h =
    ground
      (arith, nat_eq.beq_iff j k, nat_eq.beq_iff k i, nat_eq.beq_iff j i, offer_missing e k j d)

offer_each_missing :
    (e : Event) (ks : List ℕ) (j : ℕ) (d : Dict ℕ Queue)
    → lookup j d ≡ none
    → lookup j (offer_each e ks d) ≡ none
unfolding offer_each
offer_each_missing e [] j d h = h
offer_each_missing e (k ∷ ks) j d h =
    offer_each_missing e ks j (offer e k d) (offer_missing e k j d h)

count-remove_first : (j k : ℕ) (ks : List ℕ) → count j ks ≡ 0 → count j (remove_first k ks) ≡ 0
unfolding remove_first
count-remove_first j k [] h = refl
count-remove_first j k (i ∷ ks) h = ground (arith, count-remove_first j k ks)

All-copies : (P : Event → Type 0) (n : ℕ) (e : Event) → P e → All P (copies n e)
unfolding copies
All-copies P zero e h = tt
All-copies P (suc n) e h = (h, All-copies P n e h)

pub get_or-insert :
    (c' c : String) (v : List ℕ) (d : Dict String (List ℕ))
    → get_or c' [] (insert c v d) ≡ (if c' == c then v else get_or c' [] d)
get_or-insert c' c v d = rw (lookup-insert c c' v d, get_or) (ground arith)

-- A write of the subscribers of `c` by a list with no subscription of the queue keeps it out.
count-insert :
    (c' c : String) (v : List ℕ) (j : ℕ) (d : Dict String (List ℕ))
    → ((c' == c) ≡ true → count j v ≡ 0)
    → count j (get_or c' [] d) ≡ 0
    → count j (get_or c' [] (insert c v d)) ≡ 0
count-insert c' c v j d new old = elim (Bool-cases (c' == c)) [
  | inl e ↦ ap (count j) (get_or-insert c' c v d ∙ rw e refl) ∙ new e
  | inr e ↦ ap (count j) (get_or-insert c' c v d ∙ rw e refl) ∙ old
]

-- The subscribers of one company after a subscription or its end.
count-subscribe :
    (c' : String) (c : String) (k j : ℕ) (b : EventBus)
    → ((j == k) ≡ false) ⊎ ((c' == c) ≡ false)
    → count j (get_or c' [] b.subscribers) ≡ 0
    → count j (get_or c' [] (subscribe c k b).subscribers) ≡ 0
unfolding subscribe
count-subscribe c' c k j b (inr apart) h = count-insert c' c _ j b.subscribers (λ e. cc) h
count-subscribe c' c k j b (inl apart) h =
    count-insert c' c _ j b.subscribers
      (λ e.
        let same = (string_eq.beq_iff c' c).0 e in
        let old : count j (get_or c [] b.subscribers) ≡ 0 =
          ap (λ x. count j (get_or x [] b.subscribers)) (sym same) ∙ h in
        let more : count j (k ∷ []) ≡ 0 = ground (arith, apart) in
        count-append j (get_or c [] b.subscribers) (k ∷ []) ∙ rw (old, more) refl)
      h

count-unsubscribe :
    (c' : String) (c : String) (k j : ℕ) (b : EventBus)
    → count j (get_or c' [] b.subscribers) ≡ 0
    → count j (get_or c' [] (unsubscribe c k b).subscribers) ≡ 0
unfolding unsubscribe
count-unsubscribe c' c k j b h = elim (Option-cases (lookup c b.subscribers)) [
  | inl q ↦ rw (q, unsubscribe) h
  | inr (ks, q) ↦ elim (Bool-cases (contains k ks)) [
    | inr e ↦ rw (q, unsubscribe, e) h
    | inl e ↦
        rw (q, unsubscribe, e)
          (count-insert c' c _ j b.subscribers
            (λ same.
              let found : get_or c' [] b.subscribers ≡ ks =
                ap (λ x. get_or x [] b.subscribers) ((string_eq.beq_iff c' c).0 same)
                ∙ rw (q, get_or) refl in
              count-remove_first j k ks (ap (count j) (sym found) ∙ h))
            h)
  ]
]

copies_none :
    (P : Event → Type 0) (n : ℕ) (e : Event) (q : Queue) → n ≡ 0 → All P (copies (room q n) e)
unfolding copies
copies_none P n e q none_wanted = rw (none_wanted, room_zero q) tt

copies_apart :
    (company : String) (j : ℕ) (e : Event) (b : EventBus) (q : Queue)
    → IsApart company j b
    → All
        (λ x. (x.company_id == company) ≡ false)
        (copies
          (room q (
            count j (get_or e.company_id [] b.subscribers) + count j (get_or "*" [] b.subscribers)))
          e)
copies_apart company j e b q apart = elim (Bool-cases (e.company_id == company)) [
  | inr foreign ↦ All-copies _ _ e foreign
  | inl own ↦
      let none_here : count j (get_or e.company_id [] b.subscribers) ≡ 0 =
        ap (λ x. count j (get_or x [] b.subscribers))
          ((string_eq.beq_iff e.company_id company).0 own)
        ∙ apart.own in
      copies_none _ _ e q (omega (arith, none_here, apart.everyone))
]

some_queue : (p q : Queue) → some p ≡ some q → p ≡ q
some_queue p q h = cc

publish_items :
    (company : String) (j : ℕ) (e : Event) (b : EventBus) (q : Queue)
    → IsApart company j b
    → lookup j (publish e b).queues ≡ some q
    → All (λ x. (x.company_id == company) ≡ false) q.items
unfolding publish
publish_items company j e b q apart found = elim (Option-cases (lookup j b.queues)) [
  | inl missing ↦
      let own = get_or e.company_id [] b.subscribers in
      let still =
        offer_each_missing e (get_or "*" [] b.subscribers) j (offer_each e own b.queues)
          (offer_each_missing e own j b.queues missing) in
      let clash : none ≡ some q = sym still ∙ found in cc
  | inr (p, old) ↦
      let n =
        count j (get_or e.company_id [] b.subscribers) + count j (get_or "*" [] b.subscribers) in
      let (new, _) = publish_delivers e b j p old in
      let both : some (record p { items = p.items ++ copies (room p n) e }) ≡ some q =
        sym new ∙ found in
      subst (λ (r : Queue). All (λ x. (x.company_id == company) ≡ false) r.items)
        (some_queue _ _ both)
        (All-append _ p.items (copies (room p n) e) (apart.items p old)
          (copies_apart company j e b p apart))
]

unsubscribe_queues : (c : String) (k : ℕ) (b : EventBus) → (unsubscribe c k b).queues ≡ b.queues
unfolding unsubscribe
unsubscribe_queues c k b = elim (Option-cases (lookup c b.subscribers)) [
  | inl q ↦ rw (q, unsubscribe) refl
  | inr (ks, q) ↦ elim (Bool-cases (contains k ks)) [
    | inl e ↦ rw (q, unsubscribe, e) refl
    | inr e ↦ rw (q, unsubscribe, e) refl
  ]
]

Step-IsApart :
    {company : String} {j : ℕ} {b c : EventBus}
    → Step company j b c
    → IsApart company j b
    → IsApart company j c
unfolding publish subscribe
Step-IsApart {company} {j} {b} (subscribed c k (inl other)) h = record {
  own = count-subscribe company c k j b (inl other) h.own;
  everyone = count-subscribe "*" c k j b (inl other) h.everyone;
  items = h.items;
}
Step-IsApart {company} {j} {b} (subscribed c k (inr (a, w))) h = record {
  own = count-subscribe company c k j b (inr a) h.own;
  everyone = count-subscribe "*" c k j b (inr w) h.everyone;
  items = h.items;
}
Step-IsApart {company} {j} {b} (unsubscribed c k) h = record {
  own = count-unsubscribe company c k j b h.own;
  everyone = count-unsubscribe "*" c k j b h.everyone;
  items = λ q found. h.items q (ap (lookup j) (sym (unsubscribe_queues c k b)) ∙ found);
}
Step-IsApart {company} {j} {b} (published e) h = record {
  own = h.own;
  everyone = h.everyone;
  items = λ q found. publish_items company j e b q h found;
}

-- Whatever is subscribed, unsubscribed and published, but for a subscription of the queue to the
-- company or to all companies, an event of the company never enters the queue: from a bus where it is
-- subscribed to neither and holds none of its events, it is so at every later time.
pub Reach-IsApart :
    {company : String} {queue : ℕ} {b c : EventBus}
    → IsApart company queue b
    → Reach company queue b c
    → IsApart company queue c
Reach-IsApart h here = h
Reach-IsApart h (next r step) = Step-IsApart step (Reach-IsApart h r)
