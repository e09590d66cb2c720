-- ===== src/Base/Call.antt =====
-- What a Go call comes to: a value, an error value, or a run-time panic.
use mathlib.Core.Path.{◌≡◌, refl}
use mathlib.Core.Logic.{◌⊎◌, inl, inr}
use modbus_gateway.Base.Tests.{if◌then◌else◌}
use mathlib.Core.Bool.{Bool, true, false}

pub data Outcome {ℓ} (E : Type 0) (A : Type ℓ) : Type ℓ where
  ok : A → Outcome E A
  err : E → Outcome E A
  panic : Outcome E A

infixl 5 ◌>>=◌ ◌>>◌
abbrev pub ◌>>=◌ {ℓ κ} :
    {E : Type 0} {A : Type ℓ} {B : Type κ} → Outcome E A → (A → Outcome E B) → Outcome E B
ok a >>= f = f a
err e >>= f = err e
panic >>= f = panic

abbrev pub ◌>>◌ {ℓ} : {E : Type 0} {B : Type ℓ} → Outcome E (Unit {0}) → Outcome E B → Outcome E B
m >> k = m >>= λ _. k

-- `if test { return err }`
abbrev pub fail_if : {E : Type 0} → Bool → E → Outcome E (Unit {0})
fail_if true e = err e
fail_if false e = ok tt

-- The run-time check before an index or a slice expression.
abbrev pub in_range : {E : Type 0} → Bool → Outcome E (Unit {0})
in_range true = ok tt
in_range false = panic

-- A call that succeeds behind another: the first succeeded.
pub >>=-eq-ok {ℓ κ} :
    {E : Type 0} {A : Type ℓ} {B : Type κ} (call : Outcome E A) (next : A → Outcome E B)
    {result : B}
    → (call >>= next) ≡ ok result
    → (found : A) × (call ≡ ok found) × (next found ≡ ok result)
>>=-eq-ok panic next e = cc
>>=-eq-ok (err _) next e = cc
>>=-eq-ok (ok found) next e = (found, refl, e)

-- A call that fails behind another: the first failed, or it succeeded and the second failed.
pub >>=-eq-err {ℓ κ} :
    {E : Type 0} {A : Type ℓ} {B : Type κ} (call : Outcome E A) (next : A → Outcome E B) {error : E}
    → (call >>= next) ≡ err error
    → (call ≡ err error) ⊎ ((found : A) × (call ≡ ok found) × (next found ≡ err error))
>>=-eq-err panic next e = cc
>>=-eq-err (err x) next e = inl cc
>>=-eq-err (ok found) next e = inr (found, refl, e)

pub if-eq-ok {ℓ} :
    {E : Type 0} {A : Type ℓ} (b : Bool) (x a : A) (e : E)
    → (if b then ok x else err e) ≡ ok a
    → (b ≡ true) × (x ≡ a)
if-eq-ok true x a e h = (refl, cc)
if-eq-ok false x a e h = cc
