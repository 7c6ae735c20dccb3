-- ===== src/Events/Queries.antt =====
-- What the polling query of backend/app/services/event_service.py answers.
use mathlib.Core.List.{Perm}
use tacktcix.Prelude.{
  ℕ, min, ◌≡◌, ◌≢◌, ◌≤◌, ◌↔◌, refl, ◌∙◌, ap, sym, subst, true, ◌==◌, not, String, Option, none,
  some, List, [], ◌∷◌, ◌++◌, contains, filter_by, All, All-filter_by, All-map_weaken, nat_eq,
  string_eq, All-append_split, Bool-cases, inl, inr, take, drop, length, take-append-drop,
  length-take, arith,
}
use mathlib.Core.List.Perm
use tacktcix.Prelude.Perms.{filter_by-split}
use tacktcix.Prelude.Sorting.{
  Preorder, sort, sort-perm, sort-All, sort-IsSorted, IsSorted, IsSorted-append,
}
use tacktcix.Events.Service.{
  ActivityEvent, Feed, Filters, of_types, of_source, not_before, not_after, matches, newest_first,
  get_events,
}

newest_order : Preorder newest_first
unfolding newest_first
newest_order = record { total = λ a b h. grind arith; trans = λ a b c g h. grind arith }

-- What a query asks of an event: the company, one of the types where some are given, the source where
-- one is given that is not the empty text, and the bounds of the time, both inclusive.
pub record Passes (company_id : ℕ) (f : Filters) (e : ActivityEvent) : Type 0 where
  pub company : e.company_id ≡ company_id
  pub type :
      (types : List String) → f.types ≡ some types → types ≢ [] → contains e.event_type types ≡ true
  pub source : (source : String) → f.source ≡ some source → source ≢ "" → e.source ≡ source
  pub since : (since : ℕ) → f.since ≡ some since → since ≤ e.created_at
  pub before : (before : ℕ) → f.before ≡ some before → e.created_at ≤ before

of_types-true :
    (o : Option (List String)) (e : ActivityEvent)
    → (of_types o e ≡ true)
      ↔ ((types : List String) → o ≡ some types → types ≢ [] → contains e.event_type types ≡ true)
unfolding of_types
of_types-true none e = (λ _ types k n. absurd (cc k), λ _. refl)
of_types-true (some []) e = (λ _ types k n. absurd (n (cc k)), λ _. refl)
of_types-true (some (t ∷ ts)) e = (
  λ h types k n.
      let same : t ∷ ts ≡ types = cc k in subst (λ l. contains e.event_type l ≡ true) same h,
  λ h. h (t ∷ ts) refl (λ k. cc k),
)

of_source-true :
    (o : Option String) (e : ActivityEvent)
    → (of_source o e ≡ true)
      ↔ ((source : String) → o ≡ some source → source ≢ "" → e.source ≡ source)
unfolding of_source
of_source-true none e = (λ _ source k n. absurd (cc k), λ _. refl)
of_source-true (some x) e = elim (Bool-cases (x == "")) [
  | inl empty ↦
      let is_empty = (string_eq.beq_iff x "").0 empty in
      (λ _ source k n. absurd (n (cc (k, is_empty))), λ _. rw empty refl)
  | inr named ↦ (
    λ h source k n.
        let same : x ≡ source = cc k in (string_eq.beq_iff e.source x).0 (rw named at h) ∙ same,
    λ h. rw named (
        (string_eq.beq_iff e.source x).1
          (h x refl (λ k. let clash = (string_eq.beq_iff x "").1 k in cc))),
  )
]

not_before-true :
    (o : Option ℕ) (e : ActivityEvent)
    → (not_before o e ≡ true) ↔ ((since : ℕ) → o ≡ some since → since ≤ e.created_at)
unfolding not_before
not_before-true none e = (λ _ since k. absurd (cc k), λ _. refl)
not_before-true (some x) e = (
  λ h since k. let same : x ≡ since = cc k in ground (arith, h, same),
  λ h. let bound = h x refl in ground (arith, bound),
)

not_after-true :
    (o : Option ℕ) (e : ActivityEvent)
    → (not_after o e ≡ true) ↔ ((before : ℕ) → o ≡ some before → e.created_at ≤ before)
unfolding not_after
not_after-true none e = (λ _ before k. absurd (cc k), λ _. refl)
not_after-true (some x) e = (
  λ h before k. let same : x ≡ before = cc k in ground (arith, h, same),
  λ h. let bound = h x refl in ground (arith, bound),
)

module _ (company_id : ℕ) (f : Filters) (e : ActivityEvent) where
  matches_iff : (matches company_id f e ≡ true) ↔ (
      ((e.company_id == company_id) ≡ true)
      × (of_types f.types e ≡ true)
      × (of_source f.source e ≡ true)
      × (not_before f.since e ≡ true)
      × (not_after f.before e ≡ true))
  unfolding matches
  matches_iff = (λ h. ground (arith, h), λ h. ground (arith, h))

  -- The test of the query is true of the events that pass, and of no other.
  matches-Passes : (matches company_id f e ≡ true) ↔ Passes company_id f e
  matches-Passes = (
    λ h.
        let (a, b, c, d, g) = matches_iff.0 h in
        record {
          company = ground (arith, a);
          type = (of_types-true f.types e).0 b;
          source = (of_source-true f.source e).0 c;
          since = (not_before-true f.since e).0 d;
          before = (not_after-true f.before e).0 g;
        },
    λ p. matches_iff.1 (
      let same = p.company in ground (arith, same),
      (of_types-true f.types e).1 p.type,
      (of_source-true f.source e).1 p.source,
      (not_before-true f.since e).1 p.since,
      (not_after-true f.before e).1 p.before,
    ),
  )

-- The times of the events never increase.
abbrev pub NewestFirst : List ActivityEvent → Type 0
NewestFirst [] = Unit
NewestFirst (e ∷ es) = All (λ x. x.created_at ≤ e.created_at) es × NewestFirst es

sorted-NewestFirst : (es : List ActivityEvent) → IsSorted newest_first es → NewestFirst es
unfolding newest_first
sorted-NewestFirst [] h = tt
sorted-NewestFirst (e ∷ es) h =
    (All-map_weaken _ _ es (λ x k. ground (arith, k)) h.0, sorted-NewestFirst es h.1)

newer_than :
    (answer left_out : List ActivityEvent)
    → All (λ e. All (λ x. newest_first e x ≡ true) left_out) answer
    → All (λ e. All (λ x. x.created_at ≤ e.created_at) left_out) answer
unfolding newest_first
newer_than answer left_out h =
    All-map_weaken _ _ answer (λ e k. All-map_weaken _ _ left_out (λ x j. ground (arith, j)) k) h

-- The rows of the events are the answer of a query, the events that its limit leaves out and others: the
-- answer and those left out pass (they are of the company and as the filters ask), and no other row
-- does. The answer is ordered by the time, the newest first, none that is left out is newer than any of
-- it, and it has as many events as the limit allows and as pass.
pub get_events_newest :
    (company_id : ℕ) (f : Filters) (limit : ℕ) (s : Feed)
    → let answer = get_events company_id f limit s in
      (left_out others : List ActivityEvent) × Perm ((answer ++ left_out) ++ others) s.rows
      × All (Passes company_id f) answer
      × All (Passes company_id f) left_out
      × All (λ e. ¬ Passes company_id f e) others
      × NewestFirst answer
      × All (λ e. All (λ x. x.created_at ≤ e.created_at) left_out) answer
      × (length answer ≡ min limit (length (answer ++ left_out)))
unfolding get_events
get_events_newest company_id f limit s =
    let passing = filter_by (matches company_id f) s.rows in
    let others = filter_by (λ e. not (matches company_id f e)) s.rows in
    let sorted = sort newest_first passing in
    let answer = take limit sorted in
    let left_out = drop limit sorted in
    let whole : answer ++ left_out ≡ sorted = take-append-drop limit sorted in
    let pass = sort-All newest_first _ passing (All-filter_by (matches company_id f) s.rows) in
    let (passed, out) = All-append_split _ answer left_out (subst (All _) (sym whole) pass) in
    let (ordered, newer) = IsSorted-append newest_first answer left_out (
      subst (IsSorted newest_first) (sym whole)
        (sort-IsSorted newest_first newest_order passing)) in
    (
      left_out,
      others,
      subst (λ l. Perm (l ++ others) s.rows) (sym whole)
          (Perm.trans (Perm.append (sort-perm newest_first passing) Perm.rfl)
            (filter_by-split (matches company_id f) s.rows)),
      All-map_weaken _ _ answer (λ e. (matches-Passes company_id f e).0) passed,
      All-map_weaken _ _ left_out (λ e. (matches-Passes company_id f e).0) out,
      All-map_weaken _ _ others
          (λ e h p. let m = (matches-Passes company_id f e).1 p in ground (arith, h, m))
          (All-filter_by _ s.rows),
      sorted-NewestFirst answer ordered,
      newer_than answer left_out newer,
      length-take limit sorted ∙ ap (λ l. min limit (length l)) (sym whole),
    )
