-- ===== src/Base/Failure.antt =====
-- Python exceptions as values.
use mathlib.Core.Path.{◌≡◌, refl}
use Prim.Native.Nat.{ℕ}
use mathlib.Core.Bool.{Bool, true, false}
use mathlib.Core.Logic.{◌⊎◌, inl, inr}

-- The exceptions that the modelled code raises or lets through. `exit` is `typer.Exit`.
pub data Error : Type 0 where
  value_error attribute_error key_error invalid_request overflow_error : Error
  integrity_error operational_error database_error : Error
  file_not_found os_error unexpected : Error
  exit : ℕ → Error

-- `err` where an exception is raised.
pub data Result {ℓ} (A : Type ℓ) : Type ℓ where
  err : Error → Result A
  ok : A → Result A

infixl 5 ◌>>=◌
abbrev pub ◌>>=◌ {ℓ κ} : {A : Type ℓ} {B : Type κ} → Result A → (A → Result B) → Result B
err e >>= next = err e
ok a >>= next = next a

pub >>=-is_ok {ℓ κ} :
    {A : Type ℓ} {B : Type κ} {b : B} (next : A → Result B) (m : Result A)
    → (m >>= next) ≡ ok b
    → (a : A) × (m ≡ ok a) × (next a ≡ ok b)
>>=-is_ok next (ok a) h = (a, refl, h)
>>=-is_ok next (err e) h = cc

abbrev pub is_ok {ℓ} : {A : Type ℓ} → Result A → Bool
is_ok (err e) = false
is_ok (ok a) = true

pub Result-cases {ℓ} :
    {A : Type ℓ} (r : Result A) → ((e : Error) × (r ≡ err e)) ⊎ ((a : A) × (r ≡ ok a))
Result-cases (err e) = inl (e, refl)
Result-cases (ok a) = inr (a, refl)
