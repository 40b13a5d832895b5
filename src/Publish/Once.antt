-- ===== src/Publish/Once.antt =====
-- Steps that call publish at most once, and only behind the final check: one rule for each way to
-- build such a step.
use release_me.Prelude.{
  ◌≡◌, ◌≢◌, ◌⊎◌, inl, inr, refl, sym, ap, subst, Bool, true, false, List, [], ◌∷◌, All, Result, ok,
  err, ok-injective, if◌then◌else◌,
}
use release_me.Host.{HostError, Release, is_write, is_publish, published}
use release_me.Publish.Types.{Env, State, Options, LocalAsset, PublishError, still_draft}
use release_me.Publish.Exec.{Exec, pure, call, fail_if, continue, ◌>>=◌, bind-ok, fail_if-ok}
use release_me.Publish.Run.{Outcome, publish_answer, after_publish}
use release_me.Publish.Log.{
  Memo, Grows, Grows-refl, Grows-trans, Quiet, Quiet-pure, Quiet-bind, Quiet-fail_if,
}
use release_me.Publish.Quiet.{after_publish-Quiet, publish_answer-Quiet}
use release_me.Publish.Final.{Cleared, Confirmed, after_publish-ok}

module _ {W : Type 0} (env : Env W) (o : Options) (assets : List LocalAsset) where
  -- From `s` to `t` the release is published by one call, which is cleared, and behind which the run
  -- only reads.
  pub record Publication (rel : Release) (latest : Bool) (s t : State W) : Type 0 where
    pub answer : Result HostError Release
    pub before : State W
    pub after : State W
    pub quiet_before : Grows env is_publish s before
    pub cleared : Cleared env o assets rel before.log
    pub publishes : after.log ≡ published rel latest answer ∷ before.log
    pub quiet_after : Grows env is_write after t

  pub prefixed :
      {rel : Release} {latest : Bool} {s t u : State W}
      → Grows env is_publish s t
      → Publication rel latest t u
      → Publication rel latest s u
  prefixed g p = record {
    answer = p.answer;
    before = p.before;
    after = p.after;
    quiet_before = Grows-trans env is_publish g p.quiet_before;
    cleared = p.cleared;
    publishes = p.publishes;
    quiet_after = p.quiet_after;
  }

  abbrev pub OnceAtMost : State W → State W → Type 0
  OnceAtMost s t =
      Grows env is_publish s t ⊎ ((rel : Release) × (latest : Bool) × Publication rel latest s t)

  -- Whatever the step returns, it does not publish, or does so by one cleared call.
  pub record Safe {A : Type 0} (m : Exec W A) : Type 0 where
    pub at : (s : State W) → Memo env s → OnceAtMost s (m s).1

  pub Safe-Quiet : {A : Type 0} {m : Exec W A} → Quiet env is_publish m → Safe m
  Safe-Quiet q = record { at = λ s m. inl (q.at s) }

  module _ {A B : Type 0} where
    pub Safe-continue :
        (r : Result PublishError A) (f : A → Exec W B) {s : State W} (t : State W)
        → Grows env is_publish s t
        → ((a : A) → r ≡ ok a → OnceAtMost t (f a t).1)
        → OnceAtMost s (continue r f t).1
    Safe-continue (err e) f t g h = inl g
    Safe-continue (ok a) f t g h = elim (h a refl) [
      | inl k ↦ inl (Grows-trans env is_publish g k)
      | inr (rel, latest, p) ↦ inr (rel, latest, prefixed g p)
    ]

    pub Safe-bind :
        (m : Exec W A) (f : A → Exec W B)
        → Quiet env is_publish m
        → ((a : A) → Safe (f a))
        → Safe (m >>= f)
    unfolding ◌>>=◌
    Safe-bind m f q k = record {
      at = λ s memo.
          Safe-continue (m s).0 f (m s).1 (q.at s) (λ a _. (k a).at _ ((q.at s).memo memo));
    }

  pub Safe-if :
      {A : Type 0} (b : Bool) (m n : Exec W A) → Safe m → Safe n → Safe (if b then m else n)
  Safe-if true m n km kn = km
  Safe-if false m n km kn = kn

  -- What follows the publish call.
  abbrev pub confirm : Release → Bool → Result HostError Release → Exec W Outcome
  confirm rel latest r = publish_answer env o rel r >>= λ p. fail_if p.draft still_draft >>= λ _.
      after_publish env o rel assets >>= λ final.
      pure (record { release = final; was_published = false; latest = latest })

  confirm-Quiet :
      (rel : Release) (latest : Bool) (r : Result HostError Release)
      → Quiet env is_write (confirm rel latest r)
  confirm-Quiet rel latest r = Quiet-bind env _ _ (publish_answer-Quiet env o rel assets r) λ p.
      Quiet-bind env _ _ (Quiet-fail_if env _ _)
        λ _. Quiet-bind env _ _ (after_publish-Quiet env o rel assets) (λ final. Quiet-pure env _)

  pub confirm-ok :
      (ne : All (λ a. a.sha256 ≢ []) assets) (rel : Release) (latest : Bool)
      (r : Result HostError Release) (s : State W) {out : Outcome}
      → Memo env s
      → (confirm rel latest r s).0 ≡ ok out
      → (out.was_published ≡ false)
        × (out.latest ≡ latest)
        × Confirmed env o assets rel out.release (confirm rel latest r s).1.log
  unfolding pure
  confirm-ok ne rel latest r s {out} m h =
      let (p, e1, q1) = bind-ok (publish_answer env o rel r) _ s h in
      let s1 : State W = (publish_answer env o rel r s).1 in
      let m1 = ((publish_answer-Quiet env o rel assets r).at s).memo m in
      let h1 = rw q1 at h in
      let (u, e2, q2) = bind-ok (fail_if p.draft still_draft) _ s1 h1 in
      let (e2', st2) = fail_if-ok p.draft still_draft s1 e2 in
      let h2 = rw (q2, st2) at h1 in
      let (final, e3, q3) = bind-ok (after_publish env o rel assets) _ s1 h2 in
      let c = after_publish-ok env o assets ne rel s1 m1 e3 in
      let e = ok-injective (rw q3 at h2) in
      rw (q1, q2, st2, q3)
        (
          sym (ap (λ x. x.was_published) e),
          sym (ap (λ x. x.latest) e),
          subst (λ f. Confirmed env o assets rel f (after_publish env o rel assets s1).1.log)
              (ap (λ x. x.release) e) c,
        )

  -- The publish call and what follows it.
  abbrev pub go_public : Release → Bool → Exec W Outcome
  go_public rel latest =
      call (env.host.publish rel latest) (published rel latest) >>= λ r. confirm rel latest r

  pub go_public-Publication :
      (rel : Release) (latest : Bool) (s : State W)
      → Cleared env o assets rel s.log
      → Publication rel latest s (go_public rel latest s).1
  unfolding ◌>>=◌ call
  go_public-Publication rel latest s c =
      let op = env.host.publish rel latest in
      let r = (op s.world).0 in
      let after : State W = (call op (published rel latest) s).1 in
      record {
        answer = r;
        before = s;
        after = after;
        quiet_before = Grows-refl env is_publish s;
        cleared = c;
        publishes = refl;
        quiet_after = (confirm-Quiet rel latest r).at after;
      }
