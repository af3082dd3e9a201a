-- ===== src/Base/Returning.antt =====
-- What holds of the result of a call that returns.
use mathlib.Core.Path.{◌≡◌, refl, subst, sym}
use mathlib.Core.Bool.{Bool, true, false}
use mathlib.Core.Option.{Option, none, some}
use native.Mathlib.Omega.{arith}
use libmodbuspp.Base.Tests.{if◌then◌else◌}
use libmodbuspp.Base.Results.{Outcome, ok, thrown, fault, ◌>>=◌, deref, ok-injective, Exception}

pub record Ensures {A : Type 0} (P : A → Type 0) (m : Outcome A) : Type 0 where
  pub holds : (a : A) → m ≡ ok a → P a

module _ {B : Type 0} {Q : B → Type 0} where
  pub Ensures-ok : {b : B} → Q b → Ensures Q (ok b)
  Ensures-ok h = record { holds = λ a e. subst Q (ok-injective e) h }

  pub Ensures-thrown : {e : Exception} → Ensures Q (thrown e)
  Ensures-thrown = record { holds = λ a e. absurd (ground arith) }

  pub Ensures-fault : Ensures Q fault
  Ensures-fault = record { holds = λ a e. absurd (ground arith) }

  pub Ensures-if :
      (b : Bool) {x y : Outcome B} → Ensures Q x → Ensures Q y → Ensures Q (if b then x else y)
  Ensures-if true h k = h
  Ensures-if false h k = k

  -- The same with the value of the test.
  pub Ensures-test :
      (b : Bool) {x y : Outcome B}
      → (b ≡ true → Ensures Q x)
      → (b ≡ false → Ensures Q y)
      → Ensures Q (if b then x else y)
  Ensures-test true h k = h refl
  Ensures-test false h k = k refl

  pub Ensures-elim :
      {A : Type 0} (o : Option A) {x : Outcome B} {f : A → Outcome B}
      → Ensures Q x
      → ((a : A) → o ≡ some a → Ensures Q (f a))
      → Ensures Q (elim o [ none ↦ x | some a ↦ f a ])
  Ensures-elim none h k = h
  Ensures-elim (some a) h k = k a refl

  -- A step of which nothing has to be known.
  pub Ensures-then :
      {A : Type 0} (m : Outcome A) {f : A → Outcome B}
      → ((a : A) → Ensures Q (f a))
      → Ensures Q (m >>= f)
  Ensures-then (ok a) k = k a
  Ensures-then (thrown e) k = Ensures-thrown
  Ensures-then fault k = Ensures-fault

  pub Ensures-deref :
      {A : Type 0} (o : Option A) {f : A → Outcome B}
      → ((a : A) → o ≡ some a → Ensures Q (f a))
      → Ensures Q (deref o >>= f)
  Ensures-deref none k = Ensures-fault
  Ensures-deref (some a) k = k a refl

  pub Ensures-bind :
      {A : Type 0} {P : A → Type 0} (m : Outcome A) {f : A → Outcome B}
      → Ensures P m
      → ((a : A) → P a → Ensures Q (f a))
      → Ensures Q (m >>= f)
  Ensures-bind (ok a) h k = k a (h.holds a refl)
  Ensures-bind (thrown e) h k = Ensures-thrown
  Ensures-bind fault h k = Ensures-fault

pub Ensures-map :
    {A : Type 0} {P Q : A → Type 0} {m : Outcome A}
    → Ensures P m
    → ((a : A) → P a → Q a)
    → Ensures Q m
Ensures-map h f = record { holds = λ a e. f a (h.holds a e) }

-- The call returns, with such a value.
pub record Returns {A : Type 0} (P : A → Type 0) (m : Outcome A) : Type 0 where
  pub value : A
  pub returned : m ≡ ok value
  pub shown : P value

module _ {B : Type 0} {Q : B → Type 0} where
  pub Returns-ok : {b : B} → Q b → Returns Q (ok b)
  Returns-ok {b} h = record { value = b; returned = refl; shown = h }

  pub Returns-at : {m : Outcome B} {b : B} → m ≡ ok b → Q b → Returns Q m
  Returns-at {b} e h = record { value = b; returned = e; shown = h }

  pub Returns-test :
      (b : Bool) {x y : Outcome B}
      → (b ≡ true → Returns Q x)
      → (b ≡ false → Returns Q y)
      → Returns Q (if b then x else y)
  Returns-test true h k = h refl
  Returns-test false h k = k refl

  pub Returns-bind :
      {A : Type 0} {P : A → Type 0} {m : Outcome A} {f : A → Outcome B}
      → Returns P m
      → ((a : A) → P a → Returns Q (f a))
      → Returns Q (m >>= f)
  Returns-bind {f} r k = subst (λ m. Returns Q (m >>= f)) (sym r.returned) (k r.value r.shown)

pub Returns-map :
    {A : Type 0} {P Q : A → Type 0} {m : Outcome A}
    → ((a : A) → P a → Q a)
    → Returns P m
    → Returns Q m
Returns-map f r = record { value = r.value; returned = r.returned; shown = f r.value r.shown }
