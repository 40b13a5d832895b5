-- ===== src/Publish/Published.antt =====
-- What `Run` guarantees, whatever the platform answers: it publishes only what it has verified, at
-- most once, and leaves a published release alone.
use release_me.Prelude.{
  ◌≡◌, ◌≢◌, ◌⊎◌, inl, inr, refl, sym, ap, ◌∙◌, subst, Bool, true, false, not, ◌||◌, List, [], All,
  arith, ◌==◌, is_empty, Result, ok, err, if◌then◌else◌,
}
use release_me.Host.{
  HostError, is_not_found, Release, is_write, is_publish, published, release_found,
}
use release_me.Publish.Types.{Env, State, Options, LocalAsset, options_missing}
use release_me.Publish.Exec.{Exec, raise, call, fail_if, ◌>>=◌, bind-ok, fail_if-ok}
use release_me.Publish.Run.{
  Outcome, reconcile_rounds, before_publish, publish_draft, check_published, create_draft,
  drop_other_drafts, with_existing, preflight, run,
}
use release_me.Publish.Log.{Memo, Grows, Grows-trans, Quiet-call}
use release_me.Publish.Quiet.{
  Grows-publish, Quiet-publish, create_draft-Quiet, drop_other_drafts-Quiet, reconcile_rounds-Quiet,
  before_publish-Quiet, check_published-Quiet, preflight-Quiet,
}
use release_me.Publish.Final.{before_publish-ok, Confirmed, Verified, check_published-ok}
use release_me.Publish.Once.{Publication, confirm-ok, go_public, go_public-Publication, prefixed}

module _ {W : Type 0} (env : Env W) (o : Options) (assets : List LocalAsset)
    (ne : All (λ a. a.sha256 ≢ []) assets) where
  abbrev Outcome-IsNew : Outcome → State W → State W → Type 0
  Outcome-IsNew out s t =
      (out.was_published ≡ false)
      × ((rel : Release) × Publication env o assets rel out.latest s t
          × Confirmed env o assets rel out.release t.log)

  abbrev Outcome-IsOld : Outcome → State W → State W → Type 0
  Outcome-IsOld out s t =
      (out.was_published ≡ true)
      × (out.release.draft ≡ false)
      × Grows env is_write s t
      × Verified env out.release true assets t.log

  publish_draft-ok :
      (rel : Release) (s : State W) {out : Outcome}
      → Memo env s
      → (publish_draft env o assets rel s).0 ≡ ok out
      → Outcome-IsNew out s (publish_draft env o assets rel s).1
  unfolding publish_draft
  publish_draft-ok rel s m h =
      let rounds = reconcile_rounds env o (if o.rounds == 0 then 4 else o.rounds) rel assets in
      let (u, e1, q1) = bind-ok rounds _ s h in
      let g1 =
        (reconcile_rounds-Quiet env o rel assets (if o.rounds == 0 then 4 else o.rounds)).at s in
      let s1 : State W = (rounds s).1 in
      let h1 = rw q1 at h in
      let (latest, e2, q2) = bind-ok (before_publish env o rel assets) _ s1 h1 in
      let g2 = (Quiet-publish env (before_publish-Quiet env o rel assets)).at s1 in
      let s2 : State W = (before_publish env o rel assets s1).1 in
      let h2 = rw q2 at h1 in
      let c = before_publish-ok env o assets ne rel s1 (g1.memo m) e2 in
      let p = go_public-Publication env o assets rel latest s2 c in
      let op = env.host.publish rel latest in
      let (r, e3, q3) = bind-ok (call op (published rel latest)) _ s2 h2 in
      let s3 : State W = (call op (published rel latest) s2).1 in
      let m3 =
        ((Quiet-call env {p = λ _. false} op (published rel latest) (λ r. refl)).at s2).memo
          (g2.memo (g1.memo m)) in
      let (old, is_latest, confirmed) =
        confirm-ok env o assets ne rel latest r s3 m3 (rw q3 at h2) in
      rw (q1, q2)
        (
          old,
          (
            rel,
            subst (λ l. Publication env o assets rel l s (go_public env o assets rel latest s2).1)
                (sym is_latest) (prefixed env o assets (Grows-trans env is_publish g1 g2) p),
            rw q3 confirmed,
          ),
        )

  abbrev Outcome-IsRight : Outcome → State W → State W → Type 0
  Outcome-IsRight out s t = Outcome-IsOld out s t ⊎ Outcome-IsNew out s t

  behind :
      {out : Outcome} {s t u : State W}
      → Grows env is_write s t
      → Outcome-IsRight out t u
      → Outcome-IsRight out s u
  behind g (inl (a, b, h, v)) = inl (a, b, Grows-trans env is_write g h, v)
  behind g (inr (a, (rel, p, c))) = inr (a, (rel, prefixed env o assets (Grows-publish env g) p, c))

  new_behind :
      {out : Outcome} {s t u : State W}
      → Grows env is_publish s t
      → Outcome-IsNew out t u
      → Outcome-IsRight out s u
  new_behind g (a, (rel, p, c)) = inr (a, (rel, prefixed env o assets g p, c))

  check_published-IsOld :
      (rel : Release) (s : State W) {out : Outcome}
      → rel.draft ≡ false
      → Memo env s
      → (check_published env o assets rel s).0 ≡ ok out
      → Outcome-IsOld out s (check_published env o assets rel s).1
  check_published-IsOld rel s {out} d m h =
      let (same, old, v) = check_published-ok env o assets ne rel s m h in
      let t : State W = (check_published env o assets rel s).1 in
      (
        old,
        ap (λ x. x.draft) same ∙ d,
        (check_published-Quiet env o rel assets).at s,
        subst (λ x. Verified env x true assets t.log) (sym same) v,
      )

  RightIf : Outcome → State W → Exec W Outcome → Type 0
  RightIf out s m = (m s).0 ≡ ok out → Outcome-IsRight out s (m s).1

  split :
      (out : Outcome) (s : State W) (b : Bool) (m n : Exec W Outcome)
      → (b ≡ true → RightIf out s m)
      → (b ≡ false → RightIf out s n)
      → RightIf out s (if b then m else n)
  split out s true m n km kn = km refl
  split out s false m n km kn = kn refl

  drop_then_publish-ok :
      (rel : Release) (s : State W) (out : Outcome)
      → Memo env s
      → RightIf out s (drop_other_drafts env o rel >>= λ _. publish_draft env o assets rel)
  unfolding RightIf
  drop_then_publish-ok rel s out m h =
      let drop = drop_other_drafts env o rel in
      let (u, e, q) = bind-ok drop _ s h in
      let g = (drop_other_drafts-Quiet env o rel).at s in
      rw q (new_behind g (publish_draft-ok rel (drop s).1 (g.memo m) (rw q at h)))

  create_then_publish-ok :
      (s : State W) (out : Outcome)
      → Memo env s
      → RightIf out s (create_draft env o >>= publish_draft env o assets)
  unfolding RightIf
  create_then_publish-ok s out m h =
      let (rel, e, q) = bind-ok (create_draft env o) _ s h in
      let g = (create_draft-Quiet env o).at s in
      rw q (new_behind g (publish_draft-ok rel (create_draft env o s).1 (g.memo m) (rw q at h)))

  with_existing-ok :
      (r : Result HostError Release) (s : State W) (out : Outcome)
      → Memo env s
      → RightIf out s (with_existing env o assets r)
  unfolding with_existing raise RightIf
  with_existing-ok (ok rel) s out m =
      split out s (not rel.draft) _ _
        (λ public h. inl (check_published-IsOld rel s (ground arith) m h))
        (λ _. drop_then_publish-ok rel s out m)
  with_existing-ok (err e) s out m =
      split out s (is_not_found e) _ _ (λ _. create_then_publish-ok s out m) (λ _ h. cc)

  run-ok :
      (s : State W) {out : Outcome}
      → Memo env s
      → (run env o assets s).0 ≡ ok out
      → Outcome-IsRight out s (run env o assets s).1
  unfolding run RightIf
  run-ok s {out} m h =
      let (u, e1, q1) =
        bind-ok (fail_if (is_empty o.tag || is_empty o.commit || is_empty o.dir) options_missing) _
          s h in
      let (e1', st1) =
        fail_if-ok (is_empty o.tag || is_empty o.commit || is_empty o.dir) options_missing s e1 in
      let h1 = rw (q1, st1) at h in
      let (v, e2, q2) = bind-ok (preflight env o assets) _ s h1 in
      let g2 = (preflight-Quiet env o assets).at s in
      let s2 : State W = (preflight env o assets s).1 in
      let h2 = rw q2 at h1 in
      let op = env.host.find_release o.tag in
      let (r, e3, q3) = bind-ok (call op (release_found o.tag)) _ s2 h2 in
      let g3 = (Quiet-call env {p = is_write} op (release_found o.tag) (λ r. refl)).at s2 in
      let s3 : State W = (call op (release_found o.tag) s2).1 in
      rw (q1, st1, q2, q3)
        (behind (Grows-trans env is_write g2 g3)
          (with_existing-ok r s3 out (g3.memo (g2.memo m)) (rw q3 at h2)))

  -- If every local asset has a digest, the memo is backed by downloads, and `Run` reports that
  -- the release was published already, then the run made no call that writes, the release is no
  -- draft, and its stored assets are exactly the local ones, each downloaded and hashed in this
  -- run.
  pub run_old :
      (s : State W) {out : Outcome}
      → Memo env s
      → (run env o assets s).0 ≡ ok out
      → out.was_published ≡ true
      → (out.release.draft ≡ false)
        × Grows env is_write s (run env o assets s).1
        × Verified env out.release true assets (run env o assets s).1.log
  run_old s m h old = elim (run-ok s m h) [ inl (_, d, g, v) ↦ (d, g, v) | inr (new, _) ↦ cc ]
