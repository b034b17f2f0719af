-- ===== src/Outcome.antt =====
-- What a call comes to: a result, or a fault, which stands for a failed assertion and for the use
-- of a null or missing pointer.
use ioa.Prelude.{◌≡◌, ◌≢◌, refl, ◌⊎◌, inl, inr, Option, none, some}

pub data Outcome {ℓ} (A : Type ℓ) : Type ℓ where
  fault : Outcome A
  done : A → Outcome A

infixl 5 ◌>>=◌
abbrev pub ◌>>=◌ {ℓ κ} : {A : Type ℓ} {B : Type κ} → Outcome A → (A → Outcome B) → Outcome B
fault >>= f = fault
done a >>= f = f a

abbrev pub or_fault {ℓ} : {A : Type ℓ} → Option A → Outcome A
or_fault none = fault
or_fault (some a) = done a

pub >>=-eq-done {ℓ κ} :
    {A : Type ℓ} {B : Type κ} (m : Outcome A) (f : A → Outcome B) {b : B}
    → (m >>= f) ≡ done b
    → (a : A) × (m ≡ done a) × (f a ≡ done b)
>>=-eq-done fault f h = cc
>>=-eq-done (done a) f h = (a, refl, h)

pub Outcome-cases {ℓ} : {A : Type ℓ} (o : Outcome A) → (o ≡ fault) ⊎ ((a : A) × (o ≡ done a))
Outcome-cases fault = inl refl
Outcome-cases (done a) = inr (a, refl)

abbrev pub IsDone {ℓ} : {A : Type ℓ} → Outcome A → Type ℓ
IsDone {A = A} o = (a : A) × (o ≡ done a)

pub ≢-IsDone {ℓ} : {A : Type ℓ} (o : Outcome A) → o ≢ fault → IsDone o
≢-IsDone fault h = absurd (h refl)
≢-IsDone (done a) h = (a, refl)

pub >>=-IsDone {ℓ κ} :
    {A : Type ℓ} {B : Type κ} (m : Outcome A) (f : A → Outcome B)
    → IsDone m
    → ((a : A) → IsDone (f a))
    → IsDone (m >>= f)
>>=-IsDone fault f (a, e) g = cc
>>=-IsDone (done b) f h g = g b
