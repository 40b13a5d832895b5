-- ===== src/Publish/Settled.antt =====
-- A pass of `reconcile` that ends the rounds has changed nothing on the platform.
use release_me.Prelude.{
  ◌≡◌, inl, inr, refl, ap, ◌∙◌, Bool, true, false, ◌||◌, Option, none, some, List, [], ◌∷◌, ◌++◌,
  arith, Bytes, Result, ok, err, ok-injective, Bool-cases,
}
use release_me.Host.{Release, Asset, is_write, assets_listed}
use release_me.Publish.Types.{Env, State, LocalAsset, CheckError, mismatch, access, host_failed}
use release_me.Publish.Exec.{Exec, pure, raise, call, must, modify, gets, ◌>>=◌, bind-ok, must-ok}
use release_me.Publish.Check.{Groups, group_of, by_name, group_names, check}
use release_me.Publish.Reconcile.{
  local_of, contains, delete_all, settle, visit, visit_all, upload, upload_done, mark_reused,
  upload_all, reconcile,
}
use release_me.Publish.Log.{
  Grows, Grows-refl, Grows-trans, Quiet, Quiet-call, Quiet-gets, Quiet-modify,
}
use release_me.Publish.Log.{Quiet-read}
use release_me.Publish.Checked.{check-Quiet}

module _ {W : Type 0} (env : Env W) (rel : Release) where
  -- A step behind which the flag is set does not return without it.
  abbrev flagged : {A : Type 0} → Exec W A → Exec W (Bool × List Bytes)
  flagged m = m >>= λ _. pure (true, [])

  flagged-ok :
      {A : Type 0} (m : Exec W A) (s : State W) {good : List Bytes}
      → (flagged m s).0 ≡ ok (false, good)
      → ⊥
  unfolding pure
  flagged-ok m s h = let (u, e, q) = bind-ok m _ s h in cc (ok-injective (rw q at h))

  settle-unchanged :
      (name : Bytes) (a : Asset) (r : Result CheckError (Unit {0})) (s : State W)
      {good : List Bytes}
      → (settle env rel name a r s).0 ≡ ok (false, good)
      → (settle env rel name a r s).1 ≡ s
  unfolding settle pure raise
  settle-unchanged name a (ok _) s h = refl
  settle-unchanged name a (err (access e)) s h = cc
  settle-unchanged name a (err (mismatch _)) s h =
      absurd (flagged-ok (delete_all env rel name (a ∷ [])) s h)

  visit-unchanged :
      (download : Bool) (name : Bytes) (want : Option LocalAsset) (g : List Asset) (s : State W)
      {good : List Bytes}
      → (visit env rel download name want g s).0 ≡ ok (false, good)
      → Grows env is_write s (visit env rel download name want g s).1
  unfolding visit
  visit-unchanged download name want [] s h = unfold pure in Grows-refl env is_write s
  visit-unchanged download name none (a ∷ g) s h =
      absurd (flagged-ok (delete_all env rel name (a ∷ g)) s h)
  visit-unchanged download name (some want) (a ∷ []) s h =
      let (r, e, q) = bind-ok (check env rel a want download) _ s h in
      let t : State W = (check env rel a want download s).1 in
      rw (q, settle-unchanged name a r t (rw q at h))
        ((Quiet-read env (check-Quiet env rel a want download)).at s)
  visit-unchanged download name (some want) (a ∷ b ∷ g) s h =
      absurd (flagged-ok (delete_all env rel name (a ∷ b ∷ g)) s h)

  or-false : (a b : Bool) → (a || b) ≡ false → (a ≡ false) × (b ≡ false)
  or-false a b h = ground arith

  module _ (download : Bool) (assets : List LocalAsset) where
    visit_all-unchanged :
        (gs : Groups) (names : List Bytes) (changed : Bool) (good : List Bytes) (s : State W)
        {r : Bool × List Bytes}
        → (visit_all env rel download assets gs names changed good s).0 ≡ ok r
        → r.0 ≡ false
        → (changed ≡ false)
          × Grows env is_write s (visit_all env rel download assets gs names changed good s).1
    unfolding visit_all pure
    visit_all-unchanged gs [] changed good s h unset =
        (ap (λ x. x.0) (ok-injective h) ∙ unset, Grows-refl env is_write s)
    visit_all-unchanged gs (name ∷ names) changed good s h unset =
        let one = visit env rel download name (local_of name assets) (group_of name gs) in
        let (v, e, q) = bind-ok one _ s h in
        let t : State W = (one s).1 in
        let (flags, rest) =
          visit_all-unchanged gs names (changed || v.0) (good ++ v.1) t (rw q at h) unset in
        let (before, here) = or-false changed v.0 flags in
        let g =
          visit-unchanged download name (local_of name assets) (group_of name gs) s
            (e ∙ ap (λ b. ok (b, v.1)) here) in
        (before, rw q (Grows-trans env is_write g rest))

  upload_all-flagged :
      (good : List Bytes) (as_ : List LocalAsset) (s : State W)
      → (upload_all env rel good as_ true s).0 ≡ ok false
      → ⊥
  unfolding upload_all pure
  upload_all-flagged good [] s h = cc (ok-injective h)
  upload_all-flagged good (a ∷ as_) s h = elim (Bool-cases (contains good a.name)) [
    | inl known ↦
        let h0 = rw known at h in
        let (u, e, q) = bind-ok (modify (mark_reused env a.name)) _ s h0 in
        upload_all-flagged good as_ _ (rw q at h0)
    | inr unknown ↦
        let h0 = rw unknown at h in
        let (r, e1, q1) = bind-ok (upload env rel a a.content) _ s h0 in
        let h1 = rw q1 at h0 in
        let (u, e2, q2) = bind-ok (upload_done env a r) _ (upload env rel a a.content s).1 h1 in
        upload_all-flagged good as_ _ (rw q2 at h1)
  ]

  mark_reused-Quiet : (name : Bytes) → Quiet env is_write (modify (mark_reused env name))
  unfolding mark_reused
  mark_reused-Quiet name = Quiet-modify env _ (λ s. ground arith)

  upload_all-unchanged :
      (good : List Bytes) (as_ : List LocalAsset) (changed : Bool) (s : State W)
      → (upload_all env rel good as_ changed s).0 ≡ ok false
      → (changed ≡ false) × Grows env is_write s (upload_all env rel good as_ changed s).1
  unfolding upload_all pure
  upload_all-unchanged good [] changed s h = (ok-injective h, Grows-refl env is_write s)
  upload_all-unchanged good (a ∷ as_) changed s h = elim (Bool-cases (contains good a.name)) [
    | inl known ↦
        let h0 = rw known at h in
        let mark = modify (mark_reused env a.name) in
        let (u, e, q) = bind-ok mark _ s h0 in
        let t : State W = (mark s).1 in
        let (flag, g) = upload_all-unchanged good as_ changed t (rw q at h0) in
        rw (known, q) (flag, Grows-trans env is_write ((mark_reused-Quiet a.name).at s) g)
    | inr unknown ↦
        let h0 = rw unknown at h in
        let (r, e1, q1) = bind-ok (upload env rel a a.content) _ s h0 in
        let h1 = rw q1 at h0 in
        let (u, e2, q2) = bind-ok (upload_done env a r) _ (upload env rel a a.content s).1 h1 in
        absurd (upload_all-flagged good as_ _ (rw q2 at h1))
  ]

  -- A pass of `reconcile` that answers that nothing is left to do has made no call that writes.
  pub reconcile_done :
      (download : Bool) (assets : List LocalAsset) (s : State W)
      → (reconcile env rel download assets s).0 ≡ ok true
      → Grows env is_write s (reconcile env rel download assets s).1
  unfolding reconcile pure
  reconcile_done download assets s h =
      let op = env.host.assets rel in
      let (listed, e1, q1) = bind-ok (call op (assets_listed rel)) _ s h in
      let s1 : State W = (call op (assets_listed rel) s).1 in
      let g1 = (Quiet-call env {p = is_write} op (assets_listed rel) (λ r. refl)).at s in
      let h1 = rw q1 at h in
      let (stored, e2, q2) = bind-ok (must host_failed listed) _ s1 h1 in
      let (_, st2) = must-ok host_failed listed s1 e2 in
      let h2 = rw (q2, st2) at h1 in
      let order = gets (λ st. env.range_order st.world (group_names (by_name stored))) in
      let (names, e3, q3) = bind-ok order _ s1 h2 in
      let s3 : State W = (order s1).1 in
      let g3 =
        (Quiet-gets env {p = is_write}
            (λ st. env.range_order st.world (group_names (by_name stored)))).at
          s1 in
      let h3 = rw q3 at h2 in
      let visits = visit_all env rel download assets (by_name stored) names false [] in
      let (r, e4, q4) = bind-ok visits _ s3 h3 in
      let s4 : State W = (visits s3).1 in
      let h4 = rw q4 at h3 in
      let uploads = upload_all env rel r.1 assets r.0 in
      let (changed, e5, q5) = bind-ok uploads _ s4 h4 in
      let flag : changed ≡ false = ground (arith, ok-injective (rw q5 at h4)) in
      let (unset, g5) = upload_all-unchanged r.1 assets r.0 s4 (e5 ∙ ap ok flag) in
      let (_, g4) =
        visit_all-unchanged download assets (by_name stored) names false [] s3 e4 unset in
      rw (q1, q2, st2, q3, q4, q5)
        (Grows-trans env is_write g1 (Grows-trans env is_write g3 (Grows-trans env is_write g4 g5)))
