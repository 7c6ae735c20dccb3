-- ===== src/Heartbeat/Totals.antt =====
-- The totals of the heartbeat collector (src/heartbeat_metrics.py) and what was done to it.
use tacktcix.Prelude.{
  ◌+◌, ◌≡◌, refl, ap, subst, sym, ◌∙◌, String, Bool, true, false, Option-cases, none, some, List,
  [], ◌∷◌, map, length, ◌==◌, eq_refl, string_eq, if◌then◌else◌, Bool-cases, inl, inr, arith,
}
use tacktcix.Prelude.Dict.{
  Dict, IsDict, lookup, insert, erase, has_key, has_key-insert, has_key-erase, insert-IsDict,
  erase-IsDict,
}
use tacktcix.Prelude.Float.{Float}
use tacktcix.Prelude.Int.{ℤ, pos, ◌+ℤ◌}
use tacktcix.Prelude.Outcome.{Outcome-cases}
use tacktcix.Heartbeat.{
  Clock, Collector, Figures, HeartbeatCycle, HeartbeatRecord, MetricsDb, Update, close, count_cycle,
  end_cycle, end_each, finish, flush, new_collector, orphaned, start_cycle, update_cycle, updated,
  with_figures,
}

-- The calls that change the collector.
pub data Operation : Type 0 where
  started : (agent_id worker_id : String) → Operation
  changed : (agent_id : String) → Update → Operation
  ended : (agent_id : String) → Figures → Operation

-- The figures of the ends that find a cycle, where `active` tells the agents with one.
unfoldable pub counted : (active : String → Bool) → List Operation → List Figures
counted active [] = []
counted active (started a w ∷ ops) = counted (λ k. if k == a then true else active k) ops
counted active (changed a u ∷ ops) = counted active ops
counted active (ended a x ∷ ops) =
    let rest = counted (λ k. if k == a then false else active k) ops in
    let same = counted active ops in if active a then x ∷ rest else same

unfoldable pub sum_from : ℤ → (Figures → ℤ) → List Figures → ℤ
sum_from total g [] = total
sum_from total g (x ∷ xs) = sum_from (total +ℤ g x) g xs

module _ {f : Float} {db : MetricsDb f} (t : Clock f) where
  unfoldable pub apply : Operation → Collector db → Collector db
  apply (started a w) c = start_cycle t a w c
  apply (changed a u) c = update_cycle a u c
  apply (ended a x) c = (end_cycle t a x c).1

  unfoldable pub apply_all : List Operation → Collector db → Collector db
  unfolding apply
  apply_all [] c = c
  apply_all (op ∷ ops) c = apply_all ops (apply op c)

  -- What the totals and the counts of flushes of a collector are, after the counted ends.
  pub record Adds (c : Collector db) (xs : List Figures) (d : Collector db) : Type 0 where
    pub scanned : d.total_scanned ≡ sum_from c.total_scanned (λ x. x.scanned) xs
    pub failures : d.total_failures ≡ sum_from c.total_failures (λ x. x.failures) xs
    pub executed : d.total_executed ≡ sum_from c.total_executed (λ x. x.executed) xs
    pub cycles : d.total_cycles ≡ length xs + c.total_cycles
    pub flushes : d.flush_count + d.flush_errors ≡ length xs + (c.flush_count + c.flush_errors)

  -- An end of an active cycle adds its figures, whether the record is written or not.
  flush-Adds :
      (r : HeartbeatRecord) (a : String) (x : Figures) (c : Collector db)
      → Adds c (x ∷ []) (flush t r (count_cycle a x c)).1
  unfolding flush count_cycle sum_from
  flush-Adds r a x c = elim (Outcome-cases (db.insert_heartbeat r c.world).0) [
    | inl (_, q) ↦
        rw (q, flush)
          (record {
            scanned = refl;
            failures = refl;
            executed = refl;
            cycles = omega arith;
            flushes = omega arith;
          })
    | inr (_, q) ↦
        rw (q, flush)
          (record {
            scanned = refl;
            failures = refl;
            executed = refl;
            cycles = omega arith;
            flushes = omega arith;
          })
  ]

  flush_cycles : (r : HeartbeatRecord) (c : Collector db) → (flush t r c).1.cycles ≡ c.cycles
  unfolding flush
  flush_cycles r c = elim (Outcome-cases (db.insert_heartbeat r c.world).0) [
    | inl (_, q) ↦ rw (q, flush) refl
    | inr (_, q) ↦ rw (q, flush) refl
  ]

  chain-Adds :
      (c d e : Collector db) (x : Figures) (xs : List Figures)
      → Adds c (x ∷ []) d
      → Adds d xs e
      → Adds c (x ∷ xs) e
  unfolding sum_from
  chain-Adds c d e x xs one more = record {
    scanned = more.scanned ∙ ap (λ n. sum_from n (λ y. y.scanned) xs) one.scanned;
    failures = more.failures ∙ ap (λ n. sum_from n (λ y. y.failures) xs) one.failures;
    executed = more.executed ∙ ap (λ n. sum_from n (λ y. y.executed) xs) one.executed;
    cycles = omega (arith, more.cycles, one.cycles);
    flushes = omega (arith, more.flushes, one.flushes);
  }

  -- The open cycles are those of the agents that `active` tells.
  record Tells (active : String → Bool) (c : Collector db) : Type 0 where
    unique : IsDict c.cycles
    same : (a : String) → has_key a c.cycles ≡ active a

  insert-Tells :
      (active : String → Bool) (c d : Collector db) (a : String) (v : HeartbeatCycle f)
      → Tells active c
      → d.cycles ≡ insert a v c.cycles
      → Tells (λ k. if k == a then true else active k) d
  insert-Tells active c d a v h q = record {
    unique = subst IsDict (sym q) (insert-IsDict a v c.cycles h.unique);
    same = λ k.
        ap (has_key k) q
        ∙ has_key-insert a k v c.cycles
        ∙ ap (λ b. if k == a then true else b) (h.same k);
  }

  erase-Tells :
      (active : String → Bool) (c d : Collector db) (a : String)
      → Tells active c
      → d.cycles ≡ erase a c.cycles
      → Tells (λ k. if k == a then false else active k) d
  erase-Tells active c d a h q = record {
    unique = subst IsDict (sym q) (erase-IsDict a c.cycles h.unique);
    same = λ k.
        ap (has_key k) q
        ∙ has_key-erase a k c.cycles h.unique
        ∙ ap (λ b. if k == a then false else b) (h.same k);
  }

  updated_Tells :
      (active : String → Bool) (a : String) (v : HeartbeatCycle f) (c : Collector db)
      → active a ≡ true
      → Tells active c
      → Tells active (record c { cycles = insert a v c.cycles })
  updated_Tells active a v c present h = record {
    unique = insert-IsDict a v c.cycles h.unique;
    same = λ k. has_key-insert a k v c.cycles ∙ elim (Bool-cases (k == a)) [
      | inl e ↦ rw e (sym (ap active ((string_eq.beq_iff k a).0 e) ∙ present))
      | inr e ↦ rw e (h.same k)
    ];
  }

  update-Tells :
      (active : String → Bool) (a : String) (u : Update) (c : Collector db)
      → Tells active c
      → Tells active (update_cycle a u c)
        × ((xs : List Figures) (d : Collector db) → Adds (update_cycle a u c) xs d → Adds c xs d)
  unfolding update_cycle
  update-Tells active a u c h = elim (Option-cases (lookup a c.cycles)) [
    | inl q ↦ rw (q, update_cycle) (h, λ xs d more. more)
    | inr (cycle, q) ↦
        let present : active a ≡ true = sym (h.same a) ∙ rw (q, has_key) refl in
        rw (q, update_cycle)
          (
            updated_Tells active a (updated u cycle) c present h,
            λ xs d more. record {
              scanned = more.scanned;
              failures = more.failures;
              executed = more.executed;
              cycles = more.cycles;
              flushes = more.flushes;
            },
          )
  ]

  end_missing :
      (a : String) (x : Figures) (c : Collector db)
      → lookup a c.cycles ≡ none
      → (end_cycle t a x c).1 ≡ c
  unfolding end_cycle
  end_missing a x c q = rw (q, end_cycle) refl

  end_found :
      (a : String) (x : Figures) (c : Collector db) (cycle : HeartbeatCycle f)
      → lookup a c.cycles ≡ some cycle
      → (end_cycle t a x c).1
        ≡ (flush t (finish t c.readings (with_figures x cycle)) (count_cycle a x c)).1
  unfolding end_cycle
  end_found a x c cycle q = rw (q, end_cycle) refl

  apply_all-Adds :
      (ops : List Operation) (active : String → Bool) (c : Collector db)
      → Tells active c
      → Adds c (counted active ops) (apply_all ops c)
  unfolding apply_all apply counted sum_from start_cycle count_cycle
  apply_all-Adds [] active c h = record {
    scanned = refl;
    failures = refl;
    executed = refl;
    cycles = omega arith;
    flushes = omega arith;
  }
  apply_all-Adds (started a w ∷ ops) active c h =
      let after = start_cycle t a w c in
      let more =
        apply_all-Adds ops (λ k. if k == a then true else active k) after
          (insert-Tells active c after a _ h refl) in
      record {
        scanned = more.scanned;
        failures = more.failures;
        executed = more.executed;
        cycles = more.cycles;
        flushes = more.flushes;
      }
  apply_all-Adds (changed a u ∷ ops) active c h =
      let (still, adds) = update-Tells active a u c h in
      adds (counted active ops) _ (apply_all-Adds ops active (update_cycle a u c) still)
  apply_all-Adds (ended a x ∷ ops) active c h = elim (Option-cases (lookup a c.cycles)) [
    | inl q ↦
        let absent : active a ≡ false = sym (h.same a) ∙ rw (q, has_key) refl in
        rw absent (
          subst (λ d. Adds c (counted active ops) (apply_all ops d)) (sym (end_missing a x c q))
            (apply_all-Adds ops active c h))
    | inr (cycle, q) ↦
        let present : active a ≡ true = sym (h.same a) ∙ rw (q, has_key) refl in
        let r = finish t c.readings (with_figures x cycle) in
        let after = (flush t r (count_cycle a x c)).1 in
        let still = erase-Tells active c after a h (flush_cycles r (count_cycle a x c)) in
        let xs = counted (λ k. if k == a then false else active k) ops in
        rw present (
          subst (λ d. Adds c (x ∷ xs) (apply_all ops d)) (sym (end_found a x c cycle q))
            (chain-Adds c after _ x xs (flush-Adds r a x c) (apply_all-Adds ops _ after still)))
  ]

  end_each_clears :
      (d : Dict String (HeartbeatCycle f)) (c : Collector db)
      → c.cycles ≡ d
      → ((end_each t (map (λ e. e.0) d) c).cycles ≡ [])
        × ((end_each t (map (λ e. e.0) d) c).total_cycles ≡ length d + c.total_cycles)
  unfolding end_each
  end_each_clears [] c q = (q, omega arith)
  end_each_clears ((a, cycle) ∷ d) c q =
      let found : lookup a c.cycles ≡ some cycle = ap (lookup a) q ∙ rw (eq_refl a) refl in
      let r = finish t c.readings (with_figures orphaned cycle) in
      let after = (flush t r (count_cycle a orphaned c)).1 in
      let ends : (end_cycle t a orphaned c).1 ≡ after = end_found a orphaned c cycle found in
      let rest : after.cycles ≡ d =
        flush_cycles r (count_cycle a orphaned c) ∙ ap (erase a) q ∙ rw (eq_refl a) refl in
      let one = flush-Adds r a orphaned c in
      let (cleared, total) = end_each_clears d after rest in
      (
        ap (λ x. (end_each t (map (λ e. e.0) d) x).cycles) ends ∙ cleared,
        ap (λ x. (end_each t (map (λ e. e.0) d) x).total_cycles) ends
            ∙ omega (arith, total, one.cycles),
      )

  -- Closing leaves no cycle, and counts each that was left as an ended one.
  close_clears :
      (c : Collector db)
      → ((close t c).cycles ≡ []) × ((close t c).total_cycles ≡ length c.cycles + c.total_cycles)
  unfolding close
  close_clears c = end_each_clears c.cycles c refl

module _ {f : Float} (db : MetricsDb f) (t : Clock f) where
  -- After any calls of a new collector, in any order, the totals are the sums of the figures of the ends
  -- that found a cycle, their number is that of the cycles, and every one of them was either flushed or
  -- counted as an error of the database. An end finds a cycle if one was started for the agent after its
  -- last end.
  pub collector_totals :
      (w : db.World) (ops : List Operation)
      → let c = apply_all {db = db} t ops (new_collector w) in
        let xs = counted (λ a. false) ops in
        (c.total_scanned ≡ sum_from (pos 0) (λ x. x.scanned) xs)
        × (c.total_failures ≡ sum_from (pos 0) (λ x. x.failures) xs)
        × (c.total_executed ≡ sum_from (pos 0) (λ x. x.executed) xs)
        × (c.total_cycles ≡ length xs)
        × (c.flush_count + c.flush_errors ≡ length xs)
  unfolding new_collector
  collector_totals w ops =
      let all =
        apply_all-Adds t ops (λ a. false) (new_collector w)
          (record { unique = tt; same = λ a. refl }) in
      (
        all.scanned,
        all.failures,
        all.executed,
        omega (arith, all.cycles),
        omega (arith, all.flushes),
      )
