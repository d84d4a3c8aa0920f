-- ===== src/Prelude/Result.antt =====
-- Calls that may throw, and database transactions: a transaction that throws is rolled back, so
-- no state comes back beside the error.
use mathlib.Core.Path.{◌≡◌, refl}
use mathlib.Core.Logic.{◌⊎◌, inl, inr}
use mathlib.Core.Bool.{Bool, true, false}

pub data Result {ℓ κ} (E : Type ℓ) (A : Type κ) : Type (ℓ ⊔ κ) where
  ok : A → Result E A
  err : E → Result E A

module _ {E : Type 0} where
  -- `if (b) throw e`
  abbrev pub throw_if : Bool → E → Result E (Unit {0})
  throw_if true e = err e
  throw_if false e = ok tt

  infixl 5 ◌>>=◌ ◌>>◌
  abbrev pub ◌>>=◌ {κ ℓ} : {X : Type κ} {Y : Type ℓ} → Result E X → (X → Result E Y) → Result E Y
  err thrown >>= next = err thrown
  ok x >>= next = next x

  abbrev pub ◌>>◌ {κ} : {Y : Type κ} → Result E (Unit {0}) → Result E Y → Result E Y
  first >> second = first >>= λ _. second

  -- a chain that goes through has got through both of its steps
  pub >>=-eq-ok {κ ℓ} :
      {X : Type κ} {Y : Type ℓ} (m : Result E X) (next : X → Result E Y) {y : Y}
      → m >>= next ≡ ok y
      → (x : X) × (m ≡ ok x) × (next x ≡ ok y)
  >>=-eq-ok (err thrown) next done = cc
  >>=-eq-ok (ok x) next done = (x, refl, done)

  -- a chain that throws has thrown in one of its steps
  pub >>=-eq-err {κ ℓ} :
      {X : Type κ} {Y : Type ℓ} (m : Result E X) (next : X → Result E Y) {e : E}
      → m >>= next ≡ err e
      → (m ≡ err e) ⊎ ((x : X) × (m ≡ ok x) × (next x ≡ err e))
  >>=-eq-err (err thrown) next threw = inl cc
  >>=-eq-err (ok x) next threw = inr (x, refl, threw)

  pub ok-injective {ℓ} : {A : Type ℓ} {a b : A} → ◌≡◌ {A = Result E A} (ok a) (ok b) → a ≡ b
  ok-injective h = cc

  pub throw_if_ok : (b : Bool) (e : E) {u : Unit {0}} → throw_if b e ≡ ok u → b ≡ false
  throw_if_ok true e h = cc
  throw_if_ok false e h = refl

  pub Result-cases {ℓ} :
      {A : Type ℓ} (r : Result E A) → ((a : A) × (r ≡ ok a)) ⊎ ((e : E) × (r ≡ err e))
  Result-cases (ok a) = inl (a, refl)
  Result-cases (err e) = inr (e, refl)
