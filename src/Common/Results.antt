-- ===== src/Common/Results.antt =====
-- Go's `(value, error)` results.
use mathlib.Core.Path.{◌≡◌, refl}
use mathlib.Core.Logic.{◌⊎◌, inl, inr}

pub data Result {ℓ κ} (E : Type ℓ) (A : Type κ) : Type (ℓ ⊔ κ) where
  ok : A → Result E A
  err : E → Result E A

infixl 5 ◌>>=◌ ◌>>◌
-- `if err != nil { return err }` in front of the rest of a function.
abbrev pub ◌>>=◌ {ℓ κ μ} :
    {E : Type ℓ} {A : Type κ} {B : Type μ} → Result E A → (A → Result E B) → Result E B
err why >>= rest = err why
ok value >>= rest = rest value

-- A chain that returned did so in every part of it.
pub >>=-eq-ok {ℓ κ μ} :
    {E : Type ℓ} {A : Type κ} {B : Type μ} (m : Result E A) (rest : A → Result E B) {returned : B}
    → (m >>= rest) ≡ ok returned
    → (value : A) × (m ≡ ok value) × (rest value ≡ ok returned)
>>=-eq-ok (err why) rest e = cc
>>=-eq-ok (ok value) rest e = (value, refl, e)

abbrev pub ◌>>◌ {ℓ κ} : {E : Type ℓ} {B : Type κ} → Result E (Unit {0}) → Result E B → Result E B
checked >> rest = checked >>= λ _. rest

pub Result-cases {ℓ κ} :
    {E : Type ℓ} {A : Type κ} (m : Result E A)
    → ((value : A) × (m ≡ ok value)) ⊎ ((why : E) × (m ≡ err why))
Result-cases (err why) = inr (why, refl)
Result-cases (ok value) = inl (value, refl)

-- What holds of a chain holds of it however its first part ends.
pub >>=-cases {ℓ κ μ ν} :
    {E : Type ℓ} {A : Type κ} {B : Type μ} (m : Result E A) (rest : A → Result E B)
    (Q : Result E B → Type ν)
    → ((why : E) → m ≡ err why → Q (err why))
    → ((value : A) → m ≡ ok value → Q (rest value))
    → Q (m >>= rest)
>>=-cases (err why) rest Q failed passed = failed why refl
>>=-cases (ok value) rest Q failed passed = passed value refl
