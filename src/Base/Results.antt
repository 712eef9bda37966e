-- ===== src/Base/Results.antt =====
-- Outcomes of code that can fault: undefined behaviour and exceptions are values.
use mathlib.Core.Path.{◌≡◌, refl}
use mathlib.Core.Logic.{◌⊎◌, inl, inr}
use mathlib.Core.Option.{Option, none, some}

-- `empty_optional`: an empty `boost::optional` is read. `null_pointer`: a null `unique_ptr` or raw
-- pointer is followed. `dangling_pointer`: the object has been destroyed. `missing_field`: `at` of
-- a header that is not there throws. `int_overflow`: signed overflow.
pub data Fault : Type 0 where
  empty_optional null_pointer dangling_pointer missing_field int_overflow : Fault

pub data Result {ℓ} (A : Type ℓ) : Type ℓ where
  ok : A → Result A
  fault : Fault → Result A

-- The value of an optional or the target of a pointer, with the fault where there is none.
abbrev pub deref {ℓ} : {A : Type ℓ} → Fault → Option A → Result A
deref e none = fault e
deref e (some a) = ok a

infixl 5 ◌>>=◌
abbrev pub ◌>>=◌ {ι κ} :
    {In : Type ι} {Out : Type κ} (first : Result In) (next : In → Result Out) → Result Out
ok x >>= next = next x
fault why >>= next = fault why

pub Result-cases {ℓ} :
    {A : Type ℓ} (m : Result A) → ((a : A) × (m ≡ ok a)) ⊎ ((e : Fault) × (m ≡ fault e))
Result-cases (ok a) = inl (a, refl)
Result-cases (fault e) = inr (e, refl)

pub ok_injective {ℓ} : {A : Type ℓ} {a b : A} → ◌≡◌ {A = Result A} (ok a) (ok b) → a ≡ b
ok_injective p = cc

pub some_injective {ℓ} : {A : Type ℓ} {a b : A} → ◌≡◌ {A = Option A} (some a) (some b) → a ≡ b
some_injective p = cc

-- The predicate holds of what is returned, if anything is.
abbrev pub Afterwards {ℓ κ} : {A : Type ℓ} → (A → Type κ) → Result A → Type κ
Afterwards p (ok a) = p a
Afterwards p (fault e) = Unit
