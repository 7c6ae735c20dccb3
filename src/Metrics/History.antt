-- ===== src/Metrics/History.antt =====
-- What the history of the health checks (backend/app/core/metrics.py) keeps, and what it answers.
use tacktcix.Prelude.{
  ℕ, zero, suc, ◌+◌, ◌-◌, ◌≤◌, min, ◌≡◌, refl, ap, sym, ◌∙◌, String, Bool, true, false, List, [],
  ◌∷◌, ◌++◌, map, length, length-append, drop, ltb, if◌then◌else◌, Bool-cases, inl, inr, arith,
}
use mathlib.Core.List.{append_assoc, append-nil}
use tacktcix.Prelude.Dict.{Dict}
use tacktcix.Prelude.Float.{Float}
use tacktcix.Prelude.Int.{pos}
use tacktcix.Metrics.{HealthRecord, HealthState, push, record_health_check, get_health_history}

module _ {ℓ} {A : Type ℓ} where
  drop_empty : (m : ℕ) → drop {A = A} m [] ≡ []
  drop_empty zero = refl
  drop_empty (suc m) = refl

  drop-drop : (m n : ℕ) (xs : List A) → drop m (drop n xs) ≡ drop (n + m) xs
  drop-drop m zero xs = ap (λ k. drop k xs) (omega arith)
  drop-drop m (suc n) [] = drop_empty m ∙ sym (drop_empty (suc n + m))
  drop-drop m (suc n) (x ∷ xs) =
      let count : suc (n + m) ≡ suc n + m = omega arith in
      drop-drop m n xs ∙ ap (λ k. drop k (x ∷ xs)) count

  length-drop : (n : ℕ) (xs : List A) → length (drop n xs) ≡ length xs - n
  length-drop zero xs = omega arith
  length-drop (suc n) [] = omega arith
  length-drop (suc n) (x ∷ xs) = omega (arith, length-drop n xs)

  -- The values that are pushed, one after the other.
  push_all : (maxlen : ℕ) → List A → List A → List A
  push_all maxlen kept [] = kept
  push_all maxlen kept (x ∷ xs) = push_all maxlen (push maxlen kept x) xs

  push_room :
      (maxlen : ℕ) (kept : List A) (x : A)
      → ltb (length kept) maxlen ≡ true
      → push maxlen kept x ≡ kept ++ x ∷ []
  unfolding push
  push_room maxlen kept x room = rw room refl

  push_full :
      (maxlen : ℕ) (a : A) (kept : List A) (x : A)
      → ltb (length (a ∷ kept)) maxlen ≡ false
      → push maxlen (a ∷ kept) x ≡ kept ++ x ∷ []
  unfolding push
  push_full maxlen a kept x full = rw full refl

  -- A value that is pushed to a full deque takes the place of the first.
  push_full-drop :
      (maxlen : ℕ) (kept : List A) (x : A) (xs : List A)
      → 1 ≤ maxlen
      → length kept ≤ maxlen
      → ltb (length kept) maxlen ≡ false
      → ((l : List A)
          → length l ≤ maxlen
          → push_all maxlen l xs ≡ drop (length (l ++ xs) - maxlen) (l ++ xs))
      → push_all maxlen (push maxlen kept x) xs
        ≡ drop (length (kept ++ x ∷ xs) - maxlen) (kept ++ x ∷ xs)
  push_full-drop maxlen [] x xs some_room short full rest = absurd (ground (arith, some_room, full))
  push_full-drop maxlen (a ∷ kept) x xs some_room short full rest =
      let exact : suc (length kept) ≡ maxlen = ground (arith, short, full) in
      let same_length : length (kept ++ x ∷ []) ≤ maxlen =
        omega (arith, exact, length-append {ℓ} kept (x ∷ [])) in
      let whole = kept ++ x ∷ xs in
      let one_more : suc (length whole - maxlen) ≡ length (a ∷ whole) - maxlen =
        omega (arith, exact, length-append {ℓ} kept (x ∷ xs)) in
      ap (λ l. push_all maxlen l xs) (push_full maxlen a kept x full)
      ∙ rest (kept ++ x ∷ []) same_length
      ∙ ap (λ l. drop (length l - maxlen) l) (append_assoc kept (x ∷ []) xs)
      ∙ ap (λ k. drop k (a ∷ whole)) one_more

  -- A bounded deque keeps the last values.
  push_all-drop :
      (maxlen : ℕ) (kept xs : List A)
      → 1 ≤ maxlen
      → length kept ≤ maxlen
      → push_all maxlen kept xs ≡ drop (length (kept ++ xs) - maxlen) (kept ++ xs)
  unfolding push_all
  push_all-drop maxlen kept [] some_room short =
      let none_out : 0 ≡ length (kept ++ []) - maxlen =
        omega (arith, short, length-append {ℓ} kept []) in
      sym (append-nil kept) ∙ ap (λ k. drop k (kept ++ [])) none_out
  push_all-drop maxlen kept (x ∷ xs) some_room short =
      elim (Bool-cases (ltb (length kept) maxlen)) [
        | inl room ↦
            let longer : length (kept ++ x ∷ []) ≤ maxlen =
              ground (arith, room, length-append {ℓ} kept (x ∷ [])) in
            ap (λ l. push_all maxlen l xs) (push_room maxlen kept x room)
            ∙ push_all-drop maxlen (kept ++ x ∷ []) xs some_room longer
            ∙ ap (λ l. drop (length l - maxlen) l) (append_assoc kept (x ∷ []) xs)
        | inr full ↦
            push_full-drop maxlen kept x xs some_room short full
              (λ l. push_all-drop maxlen l xs some_room)
      ]

-- A check of the health: its time, what it found, and how long it took.
pub record Check (f : Float) : Type 0 where
  pub timestamp : String
  pub overall : Bool
  pub checks : Dict String Bool
  pub duration_ms : f.F

module _ {f : Float} (round1 : f.F → f.F) where
  unfoldable pub record_all : List (Check f) → HealthState f → HealthState f
  record_all [] s = s
  record_all (c ∷ cs) s =
      record_all cs (record_health_check round1 c.timestamp c.overall c.checks c.duration_ms s)

  unfoldable pub record_of : Check f → HealthRecord f
  record_of c = record {
    timestamp = c.timestamp;
    overall = c.overall;
    checks = c.checks;
    duration_ms = round1 c.duration_ms;
  }

  record_all-push_all :
      (cs : List (Check f)) (s : HealthState f)
      → (record_all cs s).history ≡ push_all 100 s.history (map record_of cs)
  unfolding record_all record_health_check push_all record_of
  record_all-push_all [] s = refl
  record_all-push_all (c ∷ cs) s =
      record_all-push_all cs
        (record_health_check round1 c.timestamp c.overall c.checks c.duration_ms s)

  gauge_last :
      (cs : List (Check f)) (c : Check f) (s : HealthState f)
      → (record_all (cs ++ c ∷ []) s).health_check_status ≡ (if c.overall then 1 else 0)
  unfolding record_all record_health_check
  gauge_last [] c s = refl
  gauge_last (x ∷ cs) c s =
      gauge_last cs c (record_health_check round1 x.timestamp x.overall x.checks x.duration_ms s)

  -- The records that the last slice of the history answers after any checks, from an empty history, are
  -- the last ones of those of all the checks: as many as the limit, which is positive, but 100 at most,
  -- and all if there are fewer, in the order of the checks. The gauge is that of the last check.
  pub get_health_history_last :
      (n gauge : ℕ) (cs : List (Check f)) (c : Check f)
      → let s = record_all (cs ++ c ∷ []) (record { history = []; health_check_status = gauge }) in
        let all = map record_of (cs ++ c ∷ []) in
        (get_health_history (pos (suc n)) s ≡ drop (length all - min (suc n) 100) all)
        × (s.health_check_status ≡ (if c.overall then 1 else 0))
  unfolding get_health_history
  get_health_history_last n gauge cs c =
      let fresh : HealthState f = record { history = []; health_check_status = gauge } in
      let all = map record_of (cs ++ c ∷ []) in
      let out = length all - 100 in
      let kept : (record_all (cs ++ c ∷ []) fresh).history ≡ drop out all =
        record_all-push_all (cs ++ c ∷ []) fresh
        ∙ push_all-drop 100 [] all (omega arith) (omega arith) in
      let count : out + (length (drop out all) - suc n) ≡ length all - min (suc n) 100 =
        omega (arith, length-drop out all) in
      (
        ap (λ l. drop (length l - suc n) l) kept
            ∙ drop-drop (length (drop out all) - suc n) out all
            ∙ ap (λ k. drop k all) count,
        gauge_last cs c fresh,
      )
