-- ===== src/Verify/Exec.antt =====
-- The state and error monad of the verification. An error ends the run, so that it carries no state.
use release_me.Prelude.{
  Bool, true, false, Option, none, some, ◌≡◌, refl, ap, Result, ok, err, ok-injective,
}
use release_me.Verify.Types.{VerifyError, State}

abbrev pub Exec : Type 0 → Type 0
Exec A = State → Result VerifyError (A × State)

module _ {A : Type 0} where
  unfoldable pub pure : A → Exec A
  pure a s = ok (a, s)

  -- `if err != nil { return nil, … }`
  unfoldable pub lift : Result VerifyError A → Exec A
  lift (ok a) s = ok (a, s)
  lift (err e) s = err e

module _ {A B : Type 0} where
  abbrev pub continue :
      Result VerifyError (A × State) → (A → Exec B) → Result VerifyError (B × State)
  continue (ok (a, s)) f = f a s
  continue (err e) f = err e

  infixl 10 ◌>>=◌
  unfoldable pub ◌>>=◌ : Exec A → (A → Exec B) → Exec B
  ◌>>=◌ m f s = continue (m s) f

module _ {B : Type 0} where
  infixl 10 ◌>>◌
  abbrev pub ◌>>◌ : Exec (Unit {0}) → Exec B → Exec B
  m >> n = m >>= λ _. n

unfoldable pub fail_if : Bool → VerifyError → Exec (Unit {0})
fail_if true e s = err e
fail_if false e s = ok (tt, s)

-- A value that is there, or the error.
abbrev pub some_or : {A : Type 0} → VerifyError → Option A → Result VerifyError A
some_or e none = err e
some_or e (some a) = ok a

-- An error of another component, wrapped.
abbrev pub wrap : {E A : Type 0} → (E → VerifyError) → Result E A → Result VerifyError A
wrap f (ok a) = ok a
wrap f (err e) = err (f e)

-- The parts of a run that returned.
module _ {A B : Type 0} where
  continue-ok :
      (r : Result VerifyError (A × State)) (f : A → Exec B) {out : B × State}
      → continue r f ≡ ok out
      → (a : A) × (s : State) × (r ≡ ok (a, s)) × (f a s ≡ ok out)
  continue-ok (ok (a, s)) f h = (a, s, refl, h)
  continue-ok (err e) f h = cc

  pub >>=-ok :
      (m : Exec A) (f : A → Exec B) {s : State} {out : B × State}
      → (m >>= f) s ≡ ok out
      → (a : A) × (s' : State) × (m s ≡ ok (a, s')) × (f a s' ≡ ok out)
  unfolding ◌>>=◌
  >>=-ok m f {s} h = continue-ok (m s) f h

  pub lift->>=-ok :
      (r : Result VerifyError A) (f : A → Exec B) {s : State} {out : B × State}
      → (lift r >>= f) s ≡ ok out
      → (a : A) × (r ≡ ok a) × (f a s ≡ ok out)
  unfolding ◌>>=◌ lift
  lift->>=-ok (ok a) f h = (a, refl, h)
  lift->>=-ok (err e) f h = cc

pub fail_if->>-ok :
    {B : Type 0} (bad : Bool) (e : VerifyError) (f : Exec B) {s : State} {out : B × State}
    → (fail_if bad e >> f) s ≡ ok out
    → (bad ≡ false) × (f s ≡ ok out)
unfolding ◌>>=◌ fail_if
fail_if->>-ok true e f h = cc
fail_if->>-ok false e f h = (refl, h)

pub pure-ok :
    {A : Type 0} (a : A) (s : State) {b : A} {s' : State}
    → pure a s ≡ ok (b, s')
    → (a ≡ b) × (s ≡ s')
unfolding pure
pure-ok {A} a s {b} {s'} h =
    let same : ◌≡◌ {A = A × State} (a, s) (b, s') = ok-injective h in
    (ap (λ x. x.0) same, ap (λ x. x.1) same)

pub lift-ok :
    {A : Type 0} (r : Result VerifyError A) (s s' : State) {a : A}
    → lift r s ≡ ok (a, s')
    → (r ≡ ok a) × (s ≡ s')
unfolding lift
lift-ok {A} (ok x) s s' {a} h =
    let same : ◌≡◌ {A = A × State} (x, s) (a, s') = ok-injective h in
    (ap (λ y. ok y.0) same, ap (λ y. y.1) same)
lift-ok (err e) s s' h = cc
