-- ===== src/Publish/Run.antt =====
-- `Run`, `createDraft`, `dropOtherDrafts` and `decideLatest` of internal/publish/publish.go.
use release_me.Prelude.{
  ℕ, zero, suc, Bool, true, false, not, ◌&&◌, ◌||◌, Option, none, some, List, [], ◌∷◌, ltb, ◌==◌,
  if◌then◌else◌, length, is_empty, Bytes, bytes_eq, is_le, Result, ok, err,
}
use release_me.Semver
use release_me.Semver.{Version, SemverError, is_prerelease, compare_version}
use release_me.Host.{
  HostError, is_not_found, Release, Limits, CreateParams, limits_read, tag_read, release_found,
  releases_listed, draft_created, assets_listed, published, release_deleted,
}
use release_me.Publish.Types.{
  LocalAsset, Options, Env, PublishError, options_missing, limits_unknown, too_many_assets,
  too_large, no_tag, tag_moved, already_published, lookup_failed, create_failed, host_failed,
  not_converged, final_check, listing_failed, reread_failed, other_release, publish_failed,
  still_draft, not_ours, published_differs,
}
use release_me.Publish.Exec.{Exec, pure, raise, call, must, fail_if, ◌>>=◌, ◌>>◌}
use release_me.Publish.Check.{compare_assets}
use release_me.Publish.Reconcile.{reconcile}

-- What `Run` returns, but the lists that the state holds.
pub record Outcome : Type 0 where
  pub release : Release
  pub was_published : Bool
  pub latest : Bool

-- The tests of the limits: the number of assets, then each size.
unfoldable pub size_error : Limits → List LocalAsset → Option PublishError
size_error limits [] = none
size_error limits (a ∷ as_) =
    if ltb 0 limits.max_asset_size && ltb limits.max_asset_size a.size
    then some (too_large a.name)
    else size_error limits as_

unfoldable pub limit_error : Limits → List LocalAsset → Option PublishError
limit_error limits assets =
    if ltb 0 limits.max_assets && ltb limits.max_assets (length assets)
    then some too_many_assets
    else size_error limits assets

-- The loop of `decideLatest`.
abbrev pub not_above : Version → Result SemverError Version → Bool
not_above ours (err _) = false
not_above ours (ok v) = is_le (compare_version ours v)

unfoldable pub latest_among : Bytes → Version → List Release → Bool
latest_among tag ours [] = true
latest_among tag ours (r ∷ rs) =
    if r.draft || r.prerelease || bytes_eq r.tag tag
    then latest_among tag ours rs
    else if not_above ours (Semver.parse_tag r.tag)
    then false
    else latest_among tag ours rs

module _ {W : Type 0} (env : Env W) (o : Options) where
  unfoldable pub with_version : Result SemverError Version → Exec W Bool
  with_version (err _) = pure false
  with_version (ok ours) = if is_prerelease ours then pure false else (do
    r ← call env.host.list_releases releases_listed
    all ← must listing_failed r
    pure (latest_among o.tag ours all))

  abbrev pub unless_prerelease : Bool → Exec W Bool
  unless_prerelease prerelease =
      if prerelease then pure false else with_version (Semver.parse_tag o.tag)

  abbrev pub latest_or : Option Bool → Exec W Bool
  latest_or (some b) = pure b
  latest_or none = unless_prerelease o.prerelease

  -- `decideLatest`
  unfoldable pub decide_latest : Exec W Bool
  decide_latest = latest_or o.latest

  abbrev pub draft_params : CreateParams
  draft_params = record {
    tag = o.tag;
    name = if is_empty o.name then o.tag else o.name;
    body = o.body;
    prerelease = o.prerelease;
    commit = o.commit;
  }

  -- `createDraft`, behind the failed request: a draft that exists all the same is used.
  unfoldable pub draft_after : HostError → Result HostError Release → Exec W Release
  draft_after e (err _) = raise (create_failed e)
  draft_after e (ok cur) = if cur.draft then pure cur else raise (create_failed e)

  unfoldable pub create_draft_answer : Result HostError Release → Exec W Release
  create_draft_answer (ok rel) = pure rel
  create_draft_answer (err e) = do
    r ← call (env.host.find_release o.tag) (release_found o.tag)
    draft_after e r

  unfoldable pub create_draft : Exec W Release
  create_draft = do
    r ← call (env.host.create_draft draft_params) (draft_created draft_params)
    create_draft_answer r

  -- The loop of `dropOtherDrafts`.
  unfoldable pub drop_from : Release → List Release → Exec W (Unit {0})
  drop_from keep [] = pure tt
  drop_from keep (r ∷ rs) =
      if not (bytes_eq r.tag o.tag) || r.id == keep.id
      then drop_from keep rs
      else if not r.draft
      then raise already_published
      else (do
        x ← call (env.host.delete_release r) (release_deleted r)
        must host_failed x
        drop_from keep rs)

  -- `dropOtherDrafts`
  unfoldable pub drop_other_drafts : Release → Exec W (Unit {0})
  drop_other_drafts keep = do
    r ← call env.host.list_releases releases_listed
    all ← must host_failed r
    drop_from keep all

  -- The loop over the rounds; the argument is the number of rounds that are left.
  unfoldable pub reconcile_rounds : ℕ → Release → List LocalAsset → Exec W (Unit {0})
  reconcile_rounds zero rel assets = raise not_converged
  reconcile_rounds (suc k) rel assets = do
    let again = reconcile_rounds k rel assets
    done ← reconcile env rel (not o.trust_server_digest) assets
    if done then pure tt else again

  -- The answer of the publish call, or the state read again behind its failure.
  unfoldable pub published_after : Release → HostError → Result HostError Release → Exec W Release
  published_after rel e (err _) = raise (publish_failed e)
  published_after rel e (ok cur) =
      if not (cur.id == rel.id) || cur.draft then raise (publish_failed e) else pure cur

  unfoldable pub publish_answer : Release → Result HostError Release → Exec W Release
  publish_answer rel (ok p) = pure p
  publish_answer rel (err e) = do
    r ← call (env.host.find_release o.tag) (release_found o.tag)
    published_after rel e r

  -- The final check of the draft and the guard against a release that appeared meanwhile.
  unfoldable pub before_publish : Release → List LocalAsset → Exec W Bool
  before_publish rel assets = do
    listed ← call (env.host.assets rel) (assets_listed rel)
    stored ← must host_failed listed
    errs ← compare_assets env rel stored assets (not o.trust_server_digest)
    fail_if (not (is_empty errs)) (final_check errs)
    latest ← decide_latest
    r ← call (env.host.find_release o.tag) (release_found o.tag)
    cur ← must reread_failed r
    fail_if (not (cur.id == rel.id)) (other_release cur.id)
    pure latest

  -- The confirmation from the platform's point of view.
  unfoldable pub after_publish : Release → List LocalAsset → Exec W Release
  after_publish rel assets = do
    r ← call (env.host.find_release o.tag) (release_found o.tag)
    final ← must reread_failed r
    fail_if (not (final.id == rel.id) || final.draft) (not_ours final.id)
    listed ← call (env.host.assets final) (assets_listed final)
    stored ← must host_failed listed
    errs ← compare_assets env final stored assets false
    fail_if (not (is_empty errs)) (published_differs errs)
    pure final

  -- Steps 3 and 4 of `Run`, from the draft on.
  unfoldable pub publish_draft : List LocalAsset → Release → Exec W Outcome
  publish_draft assets rel = do
    reconcile_rounds (if o.rounds == 0 then 4 else o.rounds) rel assets
    latest ← before_publish rel assets
    r ← call (env.host.publish rel latest) (published rel latest)
    p ← publish_answer rel r
    fail_if p.draft still_draft
    final ← after_publish rel assets
    pure (record { release = final; was_published = false; latest = latest })

  -- `checkPublished`, and the return for a release that is published already. An access failure of
  -- the listing and a difference give the same error.
  unfoldable pub check_published : List LocalAsset → Release → Exec W Outcome
  check_published assets rel = do
    listed ← call (env.host.assets rel) (assets_listed rel)
    stored ← must (λ _. already_published) listed
    errs ← compare_assets env rel stored assets true
    fail_if (not (is_empty errs)) already_published
    pure (record { release = rel; was_published = true; latest = false })

  -- The switch on the existing release.
  unfoldable pub with_existing : List LocalAsset → Result HostError Release → Exec W Outcome
  with_existing assets (ok rel) =
      if not rel.draft
      then check_published assets rel
      else (do drop_other_drafts rel; publish_draft assets rel)
  with_existing assets (err e) =
      if is_not_found e
      then (do rel ← create_draft; publish_draft assets rel)
      else raise (lookup_failed e)

  unfoldable pub raise_some : Option PublishError → Exec W (Unit {0})
  raise_some none = pure tt
  raise_some (some e) = raise e

  -- The limits and the remote tag.
  unfoldable pub preflight : List LocalAsset → Exec W (Unit {0})
  preflight assets = do
    l ← call env.host.limits limits_read
    limits ← must limits_unknown l
    raise_some (limit_error limits assets)
    t ← call (env.host.tag_commit o.tag) (tag_read o.tag)
    remote ← must no_tag t
    fail_if (not (bytes_eq remote o.commit)) (tag_moved remote)

  -- `Run`, behind the loading of the assets.
  unfoldable pub run : List LocalAsset → Exec W Outcome
  run assets = do
    fail_if (is_empty o.tag || is_empty o.commit || is_empty o.dir) options_missing
    preflight assets
    existing ← call (env.host.find_release o.tag) (release_found o.tag)
    with_existing assets existing
