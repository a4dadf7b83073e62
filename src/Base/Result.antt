-- ===== src/Base/Result.antt =====
-- C++ exceptions as values, and effects that may throw over a state.
use mathlib.Core.Path.{◌≡◌, refl, ap}
use mathlib.Core.List.{List}
use mathlib.Core.Option.{Option, none, some, some-injective}
use mathlib.Core.Bool.{Bool, true, false}
use Prim.Native.Nat.{ℕ}

-- The exception classes that some handler of the program tells apart, each with its `what()`.
-- `other` is every other class below std::exception.
pub data Exception : Type 0 where
  invalid_argument : List ℕ → Exception
  username_exists : List ℕ → Exception
  other : List ℕ → Exception

abbrev pub what : Exception → List ℕ
what (invalid_argument m) = m
what (username_exists m) = m
what (other m) = m

pub data Result {ℓ} (A : Type ℓ) : Type ℓ where
  err : Exception → Result A
  ok : A → Result A

-- `if (!test) throw e;`
abbrev pub require : Bool → Exception → Result (Unit {0})
require false raised = err raised
require true raised = ok tt

infixl 5 ◌>>=◌ ◌>>◌
-- An exception skips what follows.
abbrev pub ◌>>=◌ {ℓ κ} : {A : Type ℓ} {B : Type κ} → Result A → (A → Result B) → Result B
err raised >>= next = err raised
ok value >>= next = next value

abbrev pub ◌>>◌ {ℓ} : {B : Type ℓ} → Result (Unit {0}) → Result B → Result B
err raised >> next = err raised
ok done >> next = next

pub require-eq-ok : (t : Bool) (e : Exception) → require t e ≡ ok tt → t ≡ true
require-eq-ok true e h = refl
require-eq-ok false e h = cc

pub ok-injective {ℓ} : {A : Type ℓ} {a b : A} → ok a ≡ ok b → a ≡ b
ok-injective {A} {a} {b} e = ap (λ (r : Result A). elim r [ ok x ↦ x | err _ ↦ a ]) e

-- Code that blocks without end (`none`), throws or returns, and what follows it.
abbrev pub then_run {ℓ κ} :
    {A : Type ℓ} {B : Type κ} → Option (Result A) → (A → Option (Result B)) → Option (Result B)
then_run none next = none
then_run (some (err raised)) next = some (err raised)
then_run (some (ok value)) next = next value

pub then_run-eq-ok {ℓ κ} :
    {A : Type ℓ} {B : Type κ} (x : Option (Result A)) (next : A → Option (Result B)) (b : B)
    → then_run x next ≡ some (ok b)
    → (a : A) × (x ≡ some (ok a)) × (next a ≡ some (ok b))
then_run-eq-ok none next b e = cc e
then_run-eq-ok (some (err raised)) next b e = cc (some-injective _ _ e)
then_run-eq-ok (some (ok a)) next b e = (a, refl, e)

pub returned-injective {ℓ} : {A : Type ℓ} {a b : A} → some (ok a) ≡ some (ok b) → a ≡ b
returned-injective e = ok-injective (some-injective _ _ e)
