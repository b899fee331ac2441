-- ===== src/Base/Outcome.antt =====
-- Rust's `Result`, with the error's type as a parameter, and its `?` operator as a bind.
use mathlib.Core.Path.{◌≡◌, refl}
use mathlib.Core.Logic.{◌⊎◌, inl, inr}
use mathlib.Core.Option.{Option, none, some}

pub data Result {κ} (Failure : Type 0) (Value : Type κ) : Type κ where
  err : Failure → Result Failure Value
  ok : Value → Result Failure Value

infixl 5 ◌>>=◌
abbrev pub ◌>>=◌ {κ ℓ} :
    {Failure : Type 0} {Value : Type κ} {Next : Type ℓ}
    → Result Failure Value
    → (Value → Result Failure Next)
    → Result Failure Next
err failure >>= next = err failure
ok value >>= next = next value

-- `Option::ok_or_else`.
abbrev pub ok_or {ℓ} : {E : Type 0} {A : Type ℓ} → Option A → E → Result E A
ok_or none e = err e
ok_or (some a) e = ok a

-- `Result::ok`.
abbrev pub to_option {ℓ} : {E : Type 0} {A : Type ℓ} → Result E A → Option A
to_option (ok a) = some a
to_option (err e) = none

-- The first step succeeds, and the next one answers `last`.
abbrev pub HasSteps {ℓ κ} :
    {E : Type 0} {A : Type ℓ} {B : Type κ} → Result E A → (A → Result E B) → B → Type (ℓ ⊔ κ)
HasSteps {A = A} r next last = (value : A) × (r ≡ ok value) × (next value ≡ ok last)

pub >>=-eq-ok {ℓ κ} :
    {E : Type 0} {A : Type ℓ} {B : Type κ} {last : B} (r : Result E A) (next : A → Result E B)
    → (r >>= next) ≡ ok last
    → HasSteps r next last
>>=-eq-ok (err failure) next whole = cc
>>=-eq-ok (ok value) next whole = (value, refl, whole)

-- The three answers of a function that may fail and may find nothing.
pub found_cases {ℓ} :
    {E : Type 0} {A : Type ℓ} (r : Result E (Option A))
    → ((e : E) × (r ≡ err e)) ⊎ ((r ≡ ok none) ⊎ ((a : A) × (r ≡ ok (some a))))
found_cases (err e) = inl (e, refl)
found_cases (ok none) = inr (inl refl)
found_cases (ok (some a)) = inr (inr (a, refl))

-- `Option::and_then`, the `?` of a function that returns an `Option`.
abbrev pub and_then {ℓ κ} : {A : Type ℓ} {B : Type κ} → Option A → (A → Option B) → Option B
and_then none f = none
and_then (some a) f = f a
