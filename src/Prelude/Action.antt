-- ===== src/Prelude/Action.antt =====
-- Calls that change an object and may raise: what was written before the exception stays written, so
-- the object is a part of either result.
use mathlib.Core.Path.{◌≡◌, refl, sym, ◌∙◌}
use mathlib.Core.Logic.{inl, inr}
use tacktcix.Prelude.Outcome.{Outcome, ok, raise, Error, Outcome-cases}

abbrev pub Action {ℓ κ} : Type ℓ → Type κ → Type (ℓ ⊔ κ)
Action S A = S → Outcome A × S

module _ {ℓ κ μ} {S : Type ℓ} {A : Type κ} {B : Type μ} where
  abbrev pub after : Outcome A → (A → Action S B) → Action S B
  after (ok a) g s = g a s
  after (raise x) g s = (raise x, s)

  infixl 5 ◌>>=◌
  abbrev pub ◌>>=◌ : Action S A → (A → Action S B) → Action S B
  ◌>>=◌ m g s = after (m s).0 g (m s).1

  pub >>=-returned :
      (m : Action S A) (g : A → Action S B) (s s' : S) (a : A)
      → m s ≡ (ok a, s')
      → (m >>= g) s ≡ g a s'
  >>=-returned m g s s' a e = rw (e, after) refl

  pub >>=-inverted :
      (m : Action S A) (g : A → Action S B) (s : S) (b : B)
      → ((m >>= g) s).0 ≡ ok b
      → (a : A) × ((m s).0 ≡ ok a) × ((m >>= g) s ≡ g a (m s).1)
  >>=-inverted m g s b e = elim (Outcome-cases (m s).0) [
    | inl (a, q) ↦ (a, q, rw (q, after) refl)
    | inr (x, q) ↦
        let raised : ((m >>= g) s).0 ≡ raise x = rw (q, after) refl in
        let clash : ok b ≡ raise x = sym e ∙ raised in cc
  ]

module _ {ℓ κ} {S : Type ℓ} {A : Type κ} where
  abbrev pub returns : A → Action S A
  returns a s = (ok a, s)

  abbrev pub raises : Error → Action S A
  raises x s = (raise x, s)

  -- A call that changes nothing.
  abbrev pub asks : (S → Outcome A) → Action S A
  asks g s = (g s, s)

  abbrev pub writes : (S → A × S) → Action S A
  writes g s = (ok (g s).0, (g s).1)

module _ {ℓ κ} {S : Type ℓ} {B : Type κ} where
  infixl 5 ◌>>◌
  abbrev pub ◌>>◌ : Action S (Unit {0}) → Action S B → Action S B
  m >> n = m >>= λ _. n
