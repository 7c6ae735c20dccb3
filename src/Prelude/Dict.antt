-- ===== src/Prelude/Dict.antt =====
-- A Python dict: an association list in insertion order. Writing a key that is there keeps its place.
use tacktcix.Prelude.Tests.{if◌then◌else◌, Bool-cases}
use tacktcix.Prelude.Lists.{All, length}
use tacktcix.Prelude.Classes.{Eq, ◌==◌}
use mathlib.Core.Path.{◌≡◌, refl, subst}
use mathlib.Core.Bool.{Bool, true, false}
use mathlib.Core.Option.{Option, none, some}
use mathlib.Core.List.{List, [], ◌∷◌}
use mathlib.Core.Logic.{inl, inr}
use Prim.Native.Nat.{suc, ◌≤◌}
use native.Mathlib.Omega.{arith}

abbrev pub Dict {ℓ κ} : Type ℓ → Type κ → Type (ℓ ⊔ κ)
Dict K V = List (K × V)

module _ {ℓ κ} {K : Type ℓ} {V : Type κ} ⦃e : Eq K⦄ where
  -- `d.get(k)`
  abbrev pub lookup : K → Dict K V → Option V
  lookup k [] = none
  lookup k ((j, v) ∷ d) = if k == j then some v else lookup k d

  -- `d.get(k, default)`
  abbrev pub get_or : K → V → Dict K V → V
  get_or k v d = elim (lookup k d) [ none ↦ v | some w ↦ w ]

  -- `k in d`
  abbrev pub has_key : K → Dict K V → Bool
  has_key k d = elim (lookup k d) [ none ↦ false | some _ ↦ true ]

  -- `d[k] = v`
  abbrev pub insert : K → V → Dict K V → Dict K V
  insert k v [] = (k, v) ∷ []
  insert k v ((j, w) ∷ d) = if k == j then (j, v) ∷ d else (j, w) ∷ insert k v d

  -- `d.pop(k, None)`
  abbrev pub erase : K → Dict K V → Dict K V
  erase k [] = []
  erase k ((j, w) ∷ d) = if k == j then d else (j, w) ∷ erase k d

  -- `{**d, **more}`
  abbrev pub merge : Dict K V → Dict K V → Dict K V
  merge d [] = d
  merge d ((k, v) ∷ more) = merge (insert k v d) more

  -- Keys are listed once.
  abbrev pub IsDict : Dict K V → Type 0
  IsDict [] = Unit
  IsDict ((k, v) ∷ d) = (has_key k d ≡ false) × IsDict d

  pub lookup-insert :
      (k j : K) (v : V) (d : Dict K V)
      → lookup j (insert k v d) ≡ (if j == k then some v else lookup j d)
  lookup-insert k j v [] = refl
  lookup-insert k j v ((i, w) ∷ d) =
      ground
        (arith, e.beq_iff k j, e.beq_iff j k, e.beq_iff k i, e.beq_iff j i, lookup-insert k j v d)

  pub lookup-erase :
      (k j : K) (d : Dict K V)
      → IsDict d
      → lookup j (erase k d) ≡ (if j == k then none else lookup j d)
  lookup-erase k j [] h = ground arith
  lookup-erase k j ((i, w) ∷ d) h =
      ground (arith, e.beq_iff j k, e.beq_iff k i, e.beq_iff j i, lookup-erase k j d h.1)

  pub insert-IsDict : (k : K) (v : V) (d : Dict K V) → IsDict d → IsDict (insert k v d)
  insert-IsDict k v [] h = (refl, tt)
  insert-IsDict k v ((i, w) ∷ d) h =
      ground (arith, e.beq_iff k i, e.beq_iff i k, insert-IsDict k v d h.1, lookup-insert k i v d)

  pub erase-IsDict : (k : K) (d : Dict K V) → IsDict d → IsDict (erase k d)
  erase-IsDict k [] h = tt
  erase-IsDict k ((i, w) ∷ d) h =
      ground (arith, e.beq_iff k i, e.beq_iff i k, erase-IsDict k d h.1, lookup-erase k i d h.1)

  pub has_key-insert :
      (k j : K) (v : V) (d : Dict K V)
      → has_key j (insert k v d) ≡ (if j == k then true else has_key j d)
  has_key-insert k j v d = rw (lookup-insert k j v d, has_key) (ground arith)

  pub has_key-erase :
      (k j : K) (d : Dict K V)
      → IsDict d
      → has_key j (erase k d) ≡ (if j == k then false else has_key j d)
  has_key-erase k j d h = rw (lookup-erase k j d h, has_key) (ground arith)

  pub has_key→lookup : (k : K) (d : Dict K V) → has_key k d ≡ true → (v : V) × (lookup k d ≡ some v)
  has_key→lookup k d h = ground arith

  pub insert-All {μ} :
      (P : K × V → Type μ) (k : K) (v : V) (d : Dict K V)
      → P (k, v)
      → All P d
      → All P (insert k v d)
  insert-All P k v [] new h = (new, tt)
  insert-All P k v ((j, w) ∷ d) new h = elim (Bool-cases (k == j)) [
    | inl q ↦ rw (q, insert) (subst (λ i. P (i, v)) ((e.beq_iff k j).0 q) new, h.1)
    | inr q ↦ rw (q, insert) (h.0, insert-All P k v d new h.1)
  ]

  pub erase-All {μ} : (P : K × V → Type μ) (k : K) (d : Dict K V) → All P d → All P (erase k d)
  erase-All P k [] h = tt
  erase-All P k ((j, w) ∷ d) h = elim (Bool-cases (k == j)) [
    | inl q ↦ rw (q, erase) h.1
    | inr q ↦ rw (q, erase) (h.0, erase-All P k d h.1)
  ]

  pub lookup-All {μ} :
      (P : K × V → Type μ) (k : K) (d : Dict K V) (v : V) → lookup k d ≡ some v → All P d → P (k, v)
  lookup-All P k [] v found h = cc
  lookup-All P k ((j, w) ∷ d) v found h = elim (Bool-cases (k == j)) [
    | inl q ↦
        let same_value : some w ≡ some v = rw (q, lookup) at found in
        let same : (j, w) ≡ (k, v) = cc (same_value, (e.beq_iff k j).0 q) in subst P same h.0
    | inr q ↦ lookup-All P k d v (rw (q, lookup) at found) h.1
  ]

  pub length-insert : (k : K) (v : V) (d : Dict K V) → length (insert k v d) ≤ suc (length d)
  length-insert k v [] = omega arith
  length-insert k v ((j, w) ∷ d) = ground (arith, length-insert k v d)

  pub length-erase : (k : K) (d : Dict K V) → length (erase k d) ≤ length d
  length-erase k [] = omega arith
  length-erase k ((j, w) ∷ d) = ground (arith, length-erase k d)
