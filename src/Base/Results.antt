-- ===== src/Base/Results.antt =====
-- What a Go call gives: its values with a nil error, an error, or a run-time panic.
use mathlib.Core.Path.{◌≡◌, refl}
use mathlib.Core.Logic.{◌≢◌, ◌⊎◌, inl, inr}

-- `fault` is a panic: an index or a slice bound out of range.
pub data Result {ℓ κ} (E : Type κ) (A : Type ℓ) : Type (ℓ ⊔ κ) where
  ok : A → Result E A
  err : E → Result E A
  fault : Result E A

infixl 5 ◌>>=◌
abbrev pub ◌>>=◌ {ℓ κ μ} :
    {E : Type κ} {A : Type ℓ} {B : Type μ} → Result E A → (A → Result E B) → Result E B
ok a >>= f = f a
err e >>= f = err e
fault >>= f = fault

-- Inversion of a successful chain.
pub >>=-eq-ok {ℓ κ μ} :
    {E : Type κ} {A : Type ℓ} {B : Type μ} (call : Result E A) (next : A → Result E B) {r : B}
    → (call >>= next) ≡ ok r
    → (v : A) × (call ≡ ok v) × (next v ≡ ok r)
>>=-eq-ok fault next h = cc
>>=-eq-ok (err e) next h = cc
>>=-eq-ok (ok v) next h = (v, refl, h)

-- A chain panics only where one of its parts does.
pub >>=-ne-fault {ℓ κ μ} :
    {E : Type κ} {A : Type ℓ} {B : Type μ} (m : Result E A) (f : A → Result E B)
    → m ≢ fault
    → ((a : A) → m ≡ ok a → f a ≢ fault)
    → (m >>= f) ≢ fault
>>=-ne-fault (ok a) f h k = k a refl
>>=-ne-fault (err e) f h k = λ p. cc
>>=-ne-fault fault f h k = absurd (h refl)

-- To split on a computed result that is no panic.
pub Result-cases {ℓ κ} :
    {E : Type κ} {A : Type ℓ} (m : Result E A)
    → m ≢ fault
    → ((a : A) × (m ≡ ok a)) ⊎ ((e : E) × (m ≡ err e))
Result-cases (ok a) h = inl (a, refl)
Result-cases (err e) h = inr (e, refl)
Result-cases fault h = absurd (h refl)

-- The call does not panic, and where it succeeds its value has the property.
abbrev pub Safe {ℓ κ} : {E : Type κ} {A : Type ℓ} → (A → Type 0) → Result E A → Type 0
Safe P (ok a) = P a
Safe P (err e) = Unit
Safe P fault = ⊥

-- Where the call succeeds, its value has the property.
abbrev pub OnOk {ℓ κ} : {E : Type κ} {A : Type ℓ} → (A → Type 0) → Result E A → Type 0
OnOk P (ok a) = P a
OnOk P (err e) = Unit
OnOk P fault = Unit

module _ {ℓ κ} {E : Type κ} {A : Type ℓ} where
  pub OnOk-intro : (P : A → Type 0) (m : Result E A) → ((a : A) → m ≡ ok a → P a) → OnOk P m
  OnOk-intro P (ok a) h = h a refl
  OnOk-intro P (err e) h = tt
  OnOk-intro P fault h = tt

  pub Safe-intro :
      (P : A → Type 0) (m : Result E A) → m ≢ fault → ((a : A) → m ≡ ok a → P a) → Safe P m
  Safe-intro P (ok a) h k = k a refl
  Safe-intro P (err e) h k = tt
  Safe-intro P fault h k = h refl

  pub Safe-ne-fault : (P : A → Type 0) (m : Result E A) → Safe P m → m ≢ fault
  Safe-ne-fault P (ok a) h = λ p. cc
  Safe-ne-fault P (err e) h = λ p. cc
  Safe-ne-fault P fault h = absurd h

  pub Safe-ok : (P : A → Type 0) (m : Result E A) (a : A) → m ≡ ok a → Safe P m → P a
  Safe-ok P m a e h = rw e at h

  pub Safe->>= {μ} :
      {B : Type μ} (P : A → Type 0) (Q : B → Type 0) (m : Result E A) (f : A → Result E B)
      → Safe P m
      → ((a : A) → m ≡ ok a → P a → Safe Q (f a))
      → Safe Q (m >>= f)
  Safe->>= P Q (ok a) f h k = k a refl h
  Safe->>= P Q (err e) f h k = tt
  Safe->>= P Q fault f h k = h
