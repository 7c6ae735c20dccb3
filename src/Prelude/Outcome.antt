-- ===== src/Prelude/Outcome.antt =====
-- What a Python call can end in: a value, or an exception of one of the kinds that the code raises.
use mathlib.Core.Path.{◌≡◌, refl}
use mathlib.Core.Logic.{◌⊎◌, inl, inr}

pub data Error : Type 0 where
  key_error index_error name_error type_error attribute_error value_error runtime_error
        permission_error file_not_found not_found :
      Error
  -- Of the Redis, the Docker and the HTTP clients.
  redis_error docker_error sandbox_error http_error : Error
  -- Of the database, at a flush.
  database_error : Error

pub data Outcome {ℓ} (A : Type ℓ) : Type ℓ where
  ok : A → Outcome A
  raise : Error → Outcome A

-- To split on a computed outcome and keep the equation.
pub Outcome-cases {ℓ} :
    {A : Type ℓ} (o : Outcome A) → ((a : A) × (o ≡ ok a)) ⊎ ((x : Error) × (o ≡ raise x))
Outcome-cases (ok a) = inl (a, refl)
Outcome-cases (raise x) = inr (x, refl)

infixl 5 ◌>>=◌
abbrev pub ◌>>=◌ {ℓ κ} : {B : Type κ} {A : Type ℓ} → Outcome A → (A → Outcome B) → Outcome B
raise e >>= f = raise e
ok a >>= f = f a

pub >>=-eq-ok {ℓ κ} :
    {A : Type ℓ} {B : Type κ} (o : Outcome A) (g : A → Outcome B) {y : B}
    → (o >>= g) ≡ ok y
    → (x : A) × (o ≡ ok x) × (g x ≡ ok y)
>>=-eq-ok (raise e) g h = cc
>>=-eq-ok (ok x) g h = (x, refl, h)

pub ok-injective {ℓ} : {A : Type ℓ} {a b : A} → ok a ≡ ok b → a ≡ b
ok-injective e = cc
