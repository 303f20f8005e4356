-- ===== src/Common/Results.antt =====
-- Code that throws returns a `Result`. `JsError` is the class of a thrown JavaScript error.
use mathlib.Core.Path.{◌≡◌, refl}
use mathlib.Core.Logic.{◌⊎◌, inl, inr}
use mathlib.Core.Bool.{Bool, true, false}
use mathlib.Core.Option.{Option, none, some}

pub data Result {ℓ κ} (E : Type ℓ) (A : Type κ) : Type (ℓ ⊔ κ) where
  ok : A → Result E A
  err : E → Result E A

infixl 5 ◌>>=◌ ◌>>◌
abbrev pub ◌>>=◌ {ℓ κ μ} :
    {E : Type ℓ} {A : Type κ} {B : Type μ} → Result E A → (A → Result E B) → Result E B
◌>>=◌ m next = elim m [ err thrown ↦ err thrown | ok value ↦ next value ]

abbrev pub ◌>>◌ {ℓ κ} : {E : Type ℓ} {B : Type κ} → Result E (Unit {0}) → Result E B → Result E B
m >> k = m >>= λ _. k

-- `if (!test) throw e;`
abbrev pub guard {ℓ} : {E : Type ℓ} → Bool → E → Result E (Unit {0})
guard true e = ok tt
guard false e = err e

-- A value that is `undefined` throws.
abbrev pub or_throw {ℓ κ} : {E : Type ℓ} {A : Type κ} → Option A → E → Result E A
or_throw none e = err e
or_throw (some a) e = ok a

-- Inversion of a bind that succeeded.
pub >>=-eq-ok {ℓ κ μ} :
    {E : Type ℓ} {A : Type κ} {B : Type μ} (m : Result E A) (next : A → Result E B) {result : B}
    → (m >>= next) ≡ ok result
    → (value : A) × (m ≡ ok value) × (next value ≡ ok result)
>>=-eq-ok (err thrown) next h = absurd (cc)
>>=-eq-ok (ok value) next h = (value, refl, h)

pub Result-cases {ℓ κ} :
    {E : Type ℓ} {A : Type κ} (m : Result E A) → ((a : A) × (m ≡ ok a)) ⊎ ((e : E) × (m ≡ err e))
Result-cases (ok a) = inl (a, refl)
Result-cases (err e) = inr (e, refl)

pub ok_inj {ℓ κ} : {E : Type ℓ} {A : Type κ} {a b : A} → ◌≡◌ {A = Result E A} (ok a) (ok b) → a ≡ b
ok_inj h = cc

pub guard_sound {ℓ} : {E : Type ℓ} (b : Bool) (e : E) {u : Unit {0}} → guard b e ≡ ok u → b ≡ true
guard_sound true e h = refl
guard_sound false e h = cc

pub data JsError : Type 0 where
  range_error type_error general_error : JsError
