-- ===== src/Prelude/Results.antt =====
-- A Go result `(value, error)`: a value, or an error of the component's own type.
use mathlib.Core.Path.{◌≡◌, refl}
use mathlib.Core.Bool.{Bool, true, false}
use mathlib.Core.Logic.{◌⊎◌, inl, inr}

pub data Result (E : Type 0) (A : Type 0) : Type 0 where
  ok : A → Result E A
  err : E → Result E A

-- `if err != nil { return err }`, and what the code does with the value otherwise.
module _ {E A B : Type 0} where
  infixl 10 ◌>>=◌
  abbrev pub ◌>>=◌ : Result E A → (A → Result E B) → Result E B
  err e >>= next = err e
  ok x >>= next = next x

module _ {E B : Type 0} where
  infixl 10 ◌>>◌
  abbrev pub ◌>>◌ : Result E (Unit {0}) → Result E B → Result E B
  checked >> next = checked >>= λ _. next

-- `if bad { return err }`
abbrev pub reject_if : {E : Type 0} → Bool → E → Result E (Unit {0})
reject_if true e = err e
reject_if false e = ok tt

module _ {E A : Type 0} where
  pub ok-injective : {a b : A} → ◌≡◌ {A = Result E A} (ok a) (ok b) → a ≡ b
  ok-injective h = cc

  pub err-injective : {a b : E} → ◌≡◌ {A = Result E A} (err a) (err b) → a ≡ b
  err-injective h = cc

  pub Result-cases : (r : Result E A) → ((a : A) × (r ≡ ok a)) ⊎ ((e : E) × (r ≡ err e))
  Result-cases (ok a) = inl (a, refl)
  Result-cases (err e) = inr (e, refl)

  -- A block that returns a value: so does its first step, and the rest of the block from there.
  pub >>=-ok :
      {B : Type 0} (first : Result E A) (next : A → Result E B) {out : B}
      → (first >>= next) ≡ ok out
      → (x : A) × (first ≡ ok x) × (next x ≡ ok out)
  >>=-ok (err _) next returns = cc
  >>=-ok (ok x) next returns = (x, refl, returns)

  -- A guard that let the code through.
  pub reject_if-eq-ok :
      (bad : Bool) (e : E) (rest : Result E A) {a : A}
      → (reject_if bad e >> rest) ≡ ok a
      → (bad ≡ false) × (rest ≡ ok a)
  reject_if-eq-ok true e rest h = cc
  reject_if-eq-ok false e rest h = (refl, h)
