-- ===== src/Publish/Exec.antt =====
-- The state and error monad of the publication: a step returns its value or an error, and the new
-- state beside either.
use release_me.Prelude.{Bool, true, false, ◌∷◌, Result, ok, err, ◌≡◌, refl, ok-injective}
use release_me.Host.{HostError, Event}
use release_me.Publish.Types.{PublishError, State}

abbrev pub Exec : Type 0 → Type 0 → Type 0
Exec W A = State W → Result PublishError A × State W

module _ {W A : Type 0} where
  unfoldable pub pure : A → Exec W A
  pure a s = (ok a, s)

  unfoldable pub raise : PublishError → Exec W A
  raise e s = (err e, s)

  -- One call of the platform. Its error is a value, which the code inspects.
  unfoldable pub call :
      (W → Result HostError A × W) → (Result HostError A → Event) → Exec W (Result HostError A)
  call op event s = let (r, w) = op s.world in (ok r, record s { world = w; log = event r ∷ s.log })

  -- `if err != nil { return …, wrap(err) }`
  unfoldable pub must : (HostError → PublishError) → Result HostError A → Exec W A
  must wrap (ok a) s = (ok a, s)
  must wrap (err e) s = (err (wrap e), s)

module _ {W A B : Type 0} where
  abbrev pub continue : Result PublishError A → (A → Exec W B) → Exec W B
  continue (ok a) f s = f a s
  continue (err e) f s = (err e, s)

  infixl 10 ◌>>=◌
  unfoldable pub ◌>>=◌ : Exec W A → (A → Exec W B) → Exec W B
  ◌>>=◌ m f s = let (r, s') = m s in continue r f s'

module _ {W B : Type 0} where
  infixl 10 ◌>>◌
  abbrev pub ◌>>◌ : Exec W (Unit {0}) → Exec W B → Exec W B
  m >> n = m >>= λ _. n

module _ {W : Type 0} where
  unfoldable pub gets : {A : Type 0} → (State W → A) → Exec W A
  gets f s = (ok (f s), s)

  unfoldable pub modify : (State W → State W) → Exec W (Unit {0})
  modify f s = (ok tt, f s)

  -- `if b { return err }`
  unfoldable pub fail_if : Bool → PublishError → Exec W (Unit {0})
  fail_if true e s = (err e, s)
  fail_if false e s = (ok tt, s)

module _ {W A B : Type 0} where
  continue-ok :
      (r : Result PublishError A) (f : A → Exec W B) (s : State W) {b : B}
      → (continue r f s).0 ≡ ok b
      → (a : A) × (r ≡ ok a) × (continue r f s ≡ f a s)
  continue-ok (ok a) f s h = (a, refl, refl)
  continue-ok (err e) f s h = cc

  -- A block that returns a value: its first step does, and the rest runs behind it.
  pub bind-ok :
      (m : Exec W A) (f : A → Exec W B) (s : State W) {b : B}
      → ((m >>= f) s).0 ≡ ok b
      → (a : A) × ((m s).0 ≡ ok a) × ((m >>= f) s ≡ f a (m s).1)
  unfolding ◌>>=◌
  bind-ok m f s h = continue-ok (m s).0 f (m s).1 h

module _ {W : Type 0} where
  pub fail_if-ok :
      (b : Bool) (e : PublishError) (s : State W) {x : Unit {0}}
      → (fail_if b e s).0 ≡ ok x
      → (b ≡ false) × ((fail_if b e s).1 ≡ s)
  unfolding fail_if
  fail_if-ok true e s h = cc
  fail_if-ok false e s h = (refl, refl)

  pub must-ok :
      {A : Type 0} (wrap : HostError → PublishError) (r : Result HostError A) (s : State W) {a : A}
      → (must wrap r s).0 ≡ ok a
      → (r ≡ ok a) × ((must wrap r s).1 ≡ s)
  unfolding must
  must-ok wrap (ok a) s h = (rw (ok-injective h), refl)
  must-ok wrap (err e) s h = cc
