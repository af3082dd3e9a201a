-- ===== src/Base/Results.antt =====
-- The result of a C++ call that may throw or touch memory that is not its own.
use mathlib.Core.Path.{◌≡◌}
use mathlib.Core.Option.{Option, none, some}

-- The exceptions that the library throws, by the class that the source names.
pub data Exception : Type 0 where
  domain_error invalid_argument runtime_error logic_error length_error out_of_range future_error
        json_error system_error :
      Exception

-- `fault` is undefined behaviour: an access outside an object, or through a null pointer.
pub data Outcome {ℓ} (A : Type ℓ) : Type ℓ where
  ok : A → Outcome A
  thrown : Exception → Outcome A
  fault : Outcome A

infixl 5 ◌>>=◌ ◌>>◌
abbrev pub ◌>>=◌ {ℓ κ} : {A : Type ℓ} {B : Type κ} → Outcome A → (A → Outcome B) → Outcome B
ok a >>= f = f a
thrown e >>= f = thrown e
fault >>= f = fault

abbrev pub ◌>>◌ {ℓ κ} : {A : Type ℓ} {B : Type κ} → Outcome A → Outcome B → Outcome B
m >> k = m >>= λ _. k

-- An access by index or through a pointer, which is undefined where there is nothing.
abbrev pub deref {ℓ} : {A : Type ℓ} → Option A → Outcome A
deref none = fault
deref (some a) = ok a

pub Outcome-cases {ℓ} :
    {A : Type ℓ} (m : Outcome A) (P : Outcome A → Type 0)
    → ((a : A) → P (ok a))
    → ((e : Exception) → P (thrown e))
    → P fault
    → P m
Outcome-cases (ok a) P f g h = f a
Outcome-cases (thrown e) P f g h = g e
Outcome-cases fault P f g h = h

pub ok-injective {ℓ} : {A : Type ℓ} {a b : A} → ok a ≡ ok b → a ≡ b
ok-injective h = cc
