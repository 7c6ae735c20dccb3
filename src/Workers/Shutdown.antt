-- ===== src/Workers/Shutdown.antt =====
-- Waiting and shutting down (src/worker_manager.py): a wait ends when its job is over, and a
-- shutdown leaves out no execution.
use tacktcix.Prelude.{
  ℕ, zero, suc, ◌+◌, ◌<◌, ◌≤◌, ◌≡◌, refl, sym, subst, nat_beq, nat_beq_iff, true_not_false, String,
  Bool, true, false, Option, none, some, List, [], ◌∷◌, map, arith, All, Bool-cases, Option-cases,
  inl, inr, string_eq,
}
use tacktcix.Prelude.Dict.{Dict, lookup}
use tacktcix.Prelude.Float.{Float}
use tacktcix.Prelude.FloatLaws.{FloatLaws}
use tacktcix.Prelude.Int.{ℤ}
use tacktcix.Workers.{
  Config, ActiveExecution, Sandbox, Manager, is_over, wait_for_job, ShutdownAction, kill, wait,
  drain_each, shutdown,
}
use tacktcix.Workers.Sane.{IsSane, IsWellRun}

-- A look at the executions that ends the wait, and what it returns.
pub data IsOver {f : Float} (cid : String) (active : Dict String (ActiveExecution f))
    : Option ℤ → Type 0 where
  gone : lookup cid active ≡ none → IsOver cid active none
  over :
      (e : ActiveExecution f)
      → lookup cid active ≡ some e
      → is_over e.status ≡ true
      → IsOver cid active e.exit_code

module _ {f : Float} (snapshot : ℕ → Dict String (ActiveExecution f)) (cid : String) where
  not_over :
      (d : Dict String (ActiveExecution f)) (e : ActiveExecution f) (code : Option ℤ)
      → lookup cid d ≡ some e
      → is_over e.status ≡ false
      → IsOver cid d code
      → ⊥
  not_over d e none found q (gone missing) = cc
  not_over d e _ found q (over e' found' q') =
      let same : e' ≡ e = cc in true_not_false (subst (λ x. is_over x.status ≡ true) same q') q

  -- If a look from the n-th on finds the job over or gone, and the wait has enough looks to get to
  -- it, then the wait returns, with the exit code of the job, or None for a missing one, as that look
  -- or one before it finds it.
  pub wait_for_job_returns :
      (n m fuel : ℕ) (code : Option ℤ)
      → IsOver cid (snapshot m) code
      → n ≤ m
      → m < n + fuel
      → (j : ℕ) × (found : Option ℤ) × (n ≤ j)
        × (j ≤ m)
        × IsOver cid (snapshot j) found
        × (wait_for_job snapshot cid fuel n ≡ some found)
  unfolding wait_for_job
  wait_for_job_returns n m zero code h reached enough = absurd (omega arith)
  wait_for_job_returns n m (suc fuel) code h reached enough =
      elim (Option-cases (lookup cid (snapshot n))) [
        | inl missing ↦
            (n, none, omega arith, reached, gone missing, rw (missing, wait_for_job) refl)
        | inr (e, found) ↦ elim (Bool-cases (is_over e.status)) [
          | inl q ↦ (
            n,
            e.exit_code,
            omega arith,
            reached,
            over e found q,
            rw (found, wait_for_job, q) refl,
          )
          | inr q ↦ elim (Bool-cases (nat_beq n m)) [
            | inl same ↦ absurd (
                not_over (snapshot n) e code found q
                  (subst (λ i. IsOver cid (snapshot i) code) (sym ((nat_beq_iff n m).0 same)) h))
            | inr differs ↦
                let (j, code', low, high, ends, returns) =
                  wait_for_job_returns (suc n) m fuel code h (ground arith) (omega arith) in
                (j, code', omega arith, high, ends, rw (found, wait_for_job, q) returns)
          ]
        ]
      ]

abbrev pub target : ShutdownAction → String
target (kill cid) = cid
target (wait cid) = cid

abbrev pub is_kill : ShutdownAction → Bool
is_kill (kill cid) = true
is_kill (wait cid) = false

-- After the first kill there are only kills.
abbrev pub KillsLast : List ShutdownAction → Type 0
KillsLast [] = Unit
KillsLast (kill cid ∷ rest) = All (λ a. is_kill a ≡ true) rest
KillsLast (wait cid ∷ rest) = KillsLast rest

-- Each execution is killed or waited for.
pub data Answers {f : Float}
    : List (String × ActiveExecution f) → List ShutdownAction → Type 0 where
  none_left : Answers [] []
  answered :
      {entry : String × ActiveExecution f} {rest : List (String × ActiveExecution f)}
      {a : ShutdownAction} {actions : List ShutdownAction}
      → target a ≡ entry.0
      → Answers rest actions
      → Answers (entry ∷ rest) (a ∷ actions)

module _ {f : Float} (laws : FloatLaws f) (sandbox : Sandbox) (clock : ℕ → f.F) (c : Config)
    (monotone : (m n : ℕ) → m ≤ n → f.le (clock m) (clock n) ≡ true) where
  abbrev too_late : f.F → ℕ → Bool
  too_late deadline n = f.le (f.sub deadline (clock n)) (f.lit 0 0)

  too_late-next :
      (deadline : f.F) (n : ℕ) → too_late deadline n ≡ true → too_late deadline (suc n) ≡ true
  too_late-next deadline n h =
      laws.trans _ _ _
        (laws.sub_anti (clock n) (clock (suc n)) deadline (monotone n (suc n) (omega arith))) h

  drain_each-kills :
      (deadline : f.F) (n : ℕ) (pending : List (ActiveExecution f))
      → too_late deadline n ≡ true
      → All (λ a. is_kill a ≡ true) (drain_each sandbox clock c deadline n pending)
  unfolding drain_each
  drain_each-kills deadline n [] h = tt
  drain_each-kills deadline n (e ∷ rest) h =
      (rw (h, too_late) refl, drain_each-kills deadline (suc n) rest (too_late-next deadline n h))

  drain_each-KillsLast :
      (deadline : f.F) (n : ℕ) (pending : List (ActiveExecution f))
      → KillsLast (drain_each sandbox clock c deadline n pending)
  unfolding drain_each
  drain_each-KillsLast deadline n [] = tt
  drain_each-KillsLast deadline n (e ∷ rest) = elim (Bool-cases (too_late deadline n)) [
    | inl h ↦ rw h (drain_each-kills deadline (suc n) rest (too_late-next deadline n h))
    | inr h ↦ rw h (drain_each-KillsLast deadline (suc n) rest)
  ]

  drain_each-Answers :
      (deadline : f.F) (n : ℕ) (d : Dict String (ActiveExecution f))
      → All (IsSane c) d
      → Answers d (drain_each sandbox clock c deadline n (map (λ e. e.1) d))
  unfolding drain_each
  drain_each-Answers deadline n [] h = none_left
  drain_each-Answers deadline n ((cid, e) ∷ rest) h = elim (Bool-cases (too_late deadline n)) [
    | inl q ↦ rw q (answered h.0.filed (drain_each-Answers deadline (suc n) rest h.1))
    | inr q ↦ rw q (answered h.0.filed (drain_each-Answers deadline (suc n) rest h.1))
  ]

  kills-Answers : (d : Dict String (ActiveExecution f)) → Answers d (map (λ e. kill e.0) d)
  kills-Answers [] = none_left
  kills-Answers (entry ∷ rest) = answered refl (kills-Answers rest)

  only_kills :
      (d : Dict String (ActiveExecution f)) → All (λ a. is_kill a ≡ true) (map (λ e. kill e.0) d)
  only_kills [] = tt
  only_kills (entry ∷ rest) = (refl, only_kills rest)

  -- With a clock that never goes back, a shutdown of executions that are each filed under its
  -- container kills or waits for each of them, once and in order. Without draining it kills all; with
  -- draining it waits for no execution after the first that it kills.
  pub shutdown_answers :
      (m : Manager f sandbox)
      → IsWellRun c m.active
      → Answers m.active (shutdown sandbox clock c true m)
        × Answers m.active (shutdown sandbox clock c false m)
        × KillsLast (shutdown sandbox clock c true m)
        × All (λ a. is_kill a ≡ true) (shutdown sandbox clock c false m)
  unfolding shutdown
  shutdown_answers m h = (
    drain_each-Answers _ _ m.active h.sane,
    kills-Answers m.active,
    drain_each-KillsLast _ _ (map (λ e. e.1) m.active),
    only_kills m.active,
  )
