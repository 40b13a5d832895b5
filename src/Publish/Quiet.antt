-- ===== src/Publish/Quiet.antt =====
-- Which calls each part of a publication makes: what only reads, and what never publishes.
use release_me.Prelude.{
  ℕ, zero, suc, refl, Bool, true, false, not, ◌||◌, Option, none, some, List, [], ◌∷◌, arith, ◌==◌,
  Bytes, bytes_eq, Result, ok, err,
}
use release_me.Semver
use release_me.Semver.{Version, SemverError, is_prerelease}
use release_me.Host.{HostError, is_status, Release, Asset, is_write, is_publish, unsettles}
use release_me.Publish.Types.{
  Env, State, Options, LocalAsset, CheckError, mismatch, access, PublishError,
}
use release_me.Publish.Exec.{Exec, modify}
use release_me.Publish.Check.{Groups, by_name}
use release_me.Publish.Reconcile.{
  is_refusal, delete_all, settle, visit, visit_all, upload, upload_done, mark_reused, upload_all,
  reconcile, contains,
}
use release_me.Publish.Run.{
  limit_error, with_version, latest_or, decide_latest, draft_after, create_draft_answer,
  create_draft, drop_from, drop_other_drafts, reconcile_rounds, published_after, publish_answer,
  before_publish, after_publish, check_published, raise_some, preflight,
}
use release_me.Publish.Log.{
  Grows, Quiet, Quiet-pure, Quiet-raise, Quiet-must, Quiet-gets, Quiet-call, Quiet-if,
  Quiet-fail_if, Quiet-modify, Quiet-bind, publish-write, Grows-imp, Quiet-imp, Quiet-read,
}
use release_me.Publish.Checked.{check-Quiet}
use release_me.Publish.Compared.{compare_assets-Quiet}

module _ {W : Type 0} (env : Env W) where
  pub Grows-publish : {s t : State W} → Grows env is_write s t → Grows env is_publish s t
  Grows-publish = Grows-imp env publish-write

  pub Quiet-publish : {A : Type 0} {m : Exec W A} → Quiet env is_write m → Quiet env is_publish m
  Quiet-publish = Quiet-imp env publish-write

  module _ (rel : Release) where
    delete_all-Quiet :
        (name : Bytes) (g : List Asset) → Quiet env is_publish (delete_all env rel name g)
    unfolding delete_all
    delete_all-Quiet name [] = Quiet-pure env tt
    delete_all-Quiet name (s ∷ g) = Quiet-bind env _ _ (Quiet-call env _ _ (λ r. refl)) λ r.
        Quiet-bind env _ _ (Quiet-must env _ r) λ _.
          Quiet-bind env _ _ (Quiet-modify env _ (λ s. (refl, refl))) λ _. delete_all-Quiet name g

    settle-Quiet :
        (name : Bytes) (s : Asset) (r : Result CheckError (Unit {0}))
        → Quiet env is_publish (settle env rel name s r)
    unfolding settle
    settle-Quiet name s (ok _) = Quiet-pure env _
    settle-Quiet name s (err (access e)) = Quiet-raise env _
    settle-Quiet name s (err (mismatch _)) =
        Quiet-bind env _ _ (delete_all-Quiet name (s ∷ [])) (λ _. Quiet-pure env _)

    visit-Quiet :
        (download : Bool) (name : Bytes) (want : Option LocalAsset) (g : List Asset)
        → Quiet env is_publish (visit env rel download name want g)
    unfolding visit
    visit-Quiet download name want [] = Quiet-pure env _
    visit-Quiet download name none (s ∷ g) =
        Quiet-bind env _ _ (delete_all-Quiet name (s ∷ g)) (λ _. Quiet-pure env _)
    visit-Quiet download name (some want) (s ∷ []) =
        Quiet-bind env _ _ (Quiet-publish (Quiet-read env (check-Quiet env rel s want download)))
          (settle-Quiet name s)
    visit-Quiet download name (some want) (s ∷ t ∷ g) =
        Quiet-bind env _ _ (delete_all-Quiet name (s ∷ t ∷ g)) (λ _. Quiet-pure env _)

    visit_all-Quiet :
        (download : Bool) (assets : List LocalAsset) (gs : Groups) (names : List Bytes)
        (changed : Bool) (good : List Bytes)
        → Quiet env is_publish (visit_all env rel download assets gs names changed good)
    unfolding visit_all
    visit_all-Quiet download assets gs [] changed good = Quiet-pure env _
    visit_all-Quiet download assets gs (name ∷ names) changed good =
        Quiet-bind env _ _ (visit-Quiet download name _ _)
          λ r. visit_all-Quiet download assets gs names _ _

    upload-Quiet :
        (a : LocalAsset) (content : Option Bytes) → Quiet env is_publish (upload env rel a content)
    unfolding upload
    upload-Quiet a none = Quiet-pure env _
    upload-Quiet a (some content) =
        Quiet-bind env _ _ (Quiet-call env _ _ (λ r. refl)) (λ r. Quiet-pure env _)

    upload_done-Quiet :
        (a : LocalAsset) (r : Result HostError (Unit {0}))
        → Quiet env is_publish (upload_done env a r)
    unfolding upload_done
    upload_done-Quiet a (ok _) = Quiet-modify env _ (λ s. (refl, refl))
    upload_done-Quiet a (err e) =
        Quiet-if env (is_status e 422) _ _ (Quiet-pure env _)
          (Quiet-if env (is_refusal e) _ _ (Quiet-raise env _) (Quiet-pure env _))

    mark_reused-Quiet : (name : Bytes) → Quiet env is_publish (modify (mark_reused env name))
    unfolding mark_reused
    mark_reused-Quiet name = Quiet-modify env _ (λ s. ground arith)

    upload_all-Quiet :
        (good : List Bytes) (as_ : List LocalAsset) (changed : Bool)
        → Quiet env is_publish (upload_all env rel good as_ changed)
    unfolding upload_all
    upload_all-Quiet good [] changed = Quiet-pure env _
    upload_all-Quiet good (a ∷ as_) changed =
        Quiet-if env (contains good a.name) _ _
          (Quiet-bind env _ _ (mark_reused-Quiet a.name) (λ _. upload_all-Quiet good as_ changed))
          (Quiet-bind env _ _ (upload-Quiet a a.content)
            λ r. Quiet-bind env _ _ (upload_done-Quiet a r) (λ _. upload_all-Quiet good as_ true))

    pub reconcile-Quiet :
        (download : Bool) (assets : List LocalAsset)
        → Quiet env is_publish (reconcile env rel download assets)
    unfolding reconcile
    reconcile-Quiet download assets = Quiet-bind env _ _ (Quiet-call env _ _ (λ r. refl)) λ listed.
        Quiet-bind env _ _ (Quiet-must env _ listed) λ stored.
          Quiet-bind env _ _ (Quiet-gets env _) λ names.
            Quiet-bind env _ _ (visit_all-Quiet download assets (by_name stored) names false [])
              λ r. Quiet-bind env _ _ (upload_all-Quiet r.1 assets r.0) (λ _. Quiet-pure env _)

-- The parts of `Run`.
module _ {W : Type 0} (env : Env W) (o : Options) where
  with_version-Quiet : (v : Result SemverError Version) → Quiet env unsettles (with_version env o v)
  unfolding with_version
  with_version-Quiet (err e) = Quiet-pure env _
  with_version-Quiet (ok ours) = Quiet-if env (is_prerelease ours) _ _ (Quiet-pure env _) (
      Quiet-bind env _ _ (Quiet-call env _ _ (λ r. refl))
        λ r. Quiet-bind env _ _ (Quiet-must env _ r) (λ all. Quiet-pure env _))

  latest_or-Quiet : (l : Option Bool) → Quiet env unsettles (latest_or env o l)
  latest_or-Quiet (some b) = Quiet-pure env b
  latest_or-Quiet none =
      Quiet-if env o.prerelease _ _ (Quiet-pure env _) (with_version-Quiet (Semver.parse_tag o.tag))

  pub decide_latest-Quiet : Quiet env unsettles (decide_latest env o)
  unfolding decide_latest
  decide_latest-Quiet = latest_or-Quiet o.latest

  draft_after-Quiet :
      (e : HostError) (r : Result HostError Release) → Quiet env is_write (draft_after env o e r)
  unfolding draft_after
  draft_after-Quiet e (err _) = Quiet-raise env _
  draft_after-Quiet e (ok cur) = Quiet-if env cur.draft _ _ (Quiet-pure env _) (Quiet-raise env _)

  create_draft_answer-Quiet :
      (r : Result HostError Release) → Quiet env is_write (create_draft_answer env o r)
  unfolding create_draft_answer
  create_draft_answer-Quiet (ok rel) = Quiet-pure env _
  create_draft_answer-Quiet (err e) =
      Quiet-bind env _ _ (Quiet-call env _ _ (λ r. refl)) (draft_after-Quiet e)

  pub create_draft-Quiet : Quiet env is_publish (create_draft env o)
  unfolding create_draft
  create_draft-Quiet =
      Quiet-bind env _ _ (Quiet-call env _ _ (λ r. refl))
        λ r. Quiet-publish env (create_draft_answer-Quiet r)

  drop_from-Quiet :
      (keep : Release) (rs : List Release) → Quiet env is_publish (drop_from env o keep rs)
  unfolding drop_from
  drop_from-Quiet keep [] = Quiet-pure env _
  drop_from-Quiet keep (r ∷ rs) =
      Quiet-if env (not (bytes_eq r.tag o.tag) || r.id == keep.id) _ _ (drop_from-Quiet keep rs) (
        Quiet-if env (not r.draft) _ _ (Quiet-raise env _) (
          Quiet-bind env _ _ (Quiet-call env _ _ (λ r. refl))
            λ x. Quiet-bind env _ _ (Quiet-must env _ x) (λ _. drop_from-Quiet keep rs)))

  pub drop_other_drafts-Quiet :
      (keep : Release) → Quiet env is_publish (drop_other_drafts env o keep)
  unfolding drop_other_drafts
  drop_other_drafts-Quiet keep =
      Quiet-bind env _ _ (Quiet-call env _ _ (λ r. refl))
        λ r. Quiet-bind env _ _ (Quiet-must env _ r) (drop_from-Quiet keep)

  module _ (rel : Release) (assets : List LocalAsset) where
    pub reconcile_rounds-Quiet :
        (k : ℕ) → Quiet env is_publish (reconcile_rounds env o k rel assets)
    unfolding reconcile_rounds
    reconcile_rounds-Quiet zero = Quiet-raise env _
    reconcile_rounds-Quiet (suc k) =
        Quiet-bind env _ _ (reconcile-Quiet env rel (not o.trust_server_digest) assets)
          λ done. Quiet-if env done _ _ (Quiet-pure env _) (reconcile_rounds-Quiet k)

    pub before_publish-Quiet : Quiet env is_write (before_publish env o rel assets)
    unfolding before_publish
    before_publish-Quiet = Quiet-bind env _ _ (Quiet-call env _ _ (λ r. refl)) λ listed.
        Quiet-bind env _ _ (Quiet-must env _ listed) λ stored.
          Quiet-bind env _ _ (Quiet-read env (compare_assets-Quiet env rel _ stored assets)) λ errs.
            Quiet-bind env _ _ (Quiet-fail_if env _ _) λ _.
              Quiet-bind env _ _ (Quiet-read env decide_latest-Quiet) λ latest.
                Quiet-bind env _ _ (Quiet-call env _ _ (λ r. refl)) λ r.
                  Quiet-bind env _ _ (Quiet-must env _ r)
                    λ cur. Quiet-bind env _ _ (Quiet-fail_if env _ _) (λ _. Quiet-pure env _)

    pub after_publish-Quiet : Quiet env is_write (after_publish env o rel assets)
    unfolding after_publish
    after_publish-Quiet = Quiet-bind env _ _ (Quiet-call env _ _ (λ r. refl)) λ r.
        Quiet-bind env _ _ (Quiet-must env _ r) λ final.
          Quiet-bind env _ _ (Quiet-fail_if env _ _) λ _.
            Quiet-bind env _ _ (Quiet-call env _ _ (λ r. refl)) λ listed.
              Quiet-bind env _ _ (Quiet-must env _ listed) λ stored.
                Quiet-bind env _ _ (Quiet-read env (compare_assets-Quiet env final _ stored assets))
                  λ errs. Quiet-bind env _ _ (Quiet-fail_if env _ _) (λ _. Quiet-pure env _)

    published_after-Quiet :
        (e : HostError) (r : Result HostError Release)
        → Quiet env is_write (published_after env o rel e r)
    unfolding published_after
    published_after-Quiet e (err _) = Quiet-raise env _
    published_after-Quiet e (ok cur) =
        Quiet-if env (not (cur.id == rel.id) || cur.draft) _ _ (Quiet-raise env _)
          (Quiet-pure env _)

    pub publish_answer-Quiet :
        (r : Result HostError Release) → Quiet env is_write (publish_answer env o rel r)
    unfolding publish_answer
    publish_answer-Quiet (ok p) = Quiet-pure env _
    publish_answer-Quiet (err e) =
        Quiet-bind env _ _ (Quiet-call env _ _ (λ r. refl)) (published_after-Quiet e)

    -- A run that finds a published release only reads, whatever it finds.
    pub check_published-Quiet : Quiet env is_write (check_published env o assets rel)
    unfolding check_published
    check_published-Quiet = Quiet-bind env _ _ (Quiet-call env _ _ (λ r. refl)) λ listed.
        Quiet-bind env _ _ (Quiet-must env _ listed) λ stored.
          Quiet-bind env _ _ (Quiet-read env (compare_assets-Quiet env rel _ stored assets))
            λ errs. Quiet-bind env _ _ (Quiet-fail_if env _ _) (λ _. Quiet-pure env _)

  raise_some-Quiet : (e : Option PublishError) → Quiet env is_write (raise_some env o e)
  unfolding raise_some
  raise_some-Quiet none = Quiet-pure env tt
  raise_some-Quiet (some e) = Quiet-raise env e

  pub preflight-Quiet : (assets : List LocalAsset) → Quiet env is_write (preflight env o assets)
  unfolding preflight
  preflight-Quiet assets = Quiet-bind env _ _ (Quiet-call env _ _ (λ r. refl)) λ l.
      Quiet-bind env _ _ (Quiet-must env _ l) λ limits.
        Quiet-bind env _ _ (raise_some-Quiet (limit_error limits assets)) λ _.
          Quiet-bind env _ _ (Quiet-call env _ _ (λ r. refl))
            λ t. Quiet-bind env _ _ (Quiet-must env _ t) (λ remote. Quiet-fail_if env _ _)
