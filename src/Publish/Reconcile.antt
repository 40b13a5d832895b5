-- ===== src/Publish/Reconcile.antt =====
-- `reconcile` and `upload` of internal/publish/publish.go: one pass that deletes what is wrong and
-- uploads what is missing.
use release_me.Prelude.{
  Bool, true, false, not, ◌&&◌, ◌||◌, Option, none, some, List, [], ◌∷◌, ◌++◌, ltb, leb, ◌==◌,
  if◌then◌else◌, is_empty, Bytes, codes, bytes_eq, Result, ok, err,
}
use release_me.Host.{
  HostError, status, local_failure, is_status, Release, Asset, asset_deleted, asset_uploaded,
  assets_listed,
}
use release_me.Publish.Types.{
  LocalAsset, Env, State, CheckError, mismatch, access, host_failed, cannot_check, upload_refused,
}
use release_me.Publish.Exec.{Exec, pure, raise, call, must, modify, gets, ◌>>=◌, ◌>>◌}
use release_me.Publish.Check.{Groups, by_name, group_of, group_names, check}

-- `local[name]`: of several files of one name the last is in the map.
unfoldable pub local_of : Bytes → List LocalAsset → Option LocalAsset
local_of name [] = none
local_of name (a ∷ as_) =
    let later = local_of name as_ in
    elim later [ some x ↦ some x | none ↦ if bytes_eq a.name name then some a else none ]

-- `contains`
unfoldable pub contains : List Bytes → Bytes → Bool
contains [] s = false
contains (x ∷ xs) s = if bytes_eq x s then true else contains xs s

-- An answer that is an `APIError` with a status of 400 to 499 but 408 and 429.
abbrev pub is_refusal : HostError → Bool
is_refusal (status s _) = leb 400 s && ltb s 500 && not (s == 408) && not (s == 429)
is_refusal _ = false

module _ {W : Type 0} (env : Env W) where
  -- The loops `for _, s := range group { … DeleteAsset … }`.
  unfoldable pub delete_all : Release → Bytes → List Asset → Exec W (Unit {0})
  delete_all rel name [] = pure tt
  delete_all rel name (s ∷ group) = do
    r ← call (env.host.delete_asset rel s) (asset_deleted rel s)
    must host_failed r
    modify (λ st. record st { deleted = st.deleted ++ (name ∷ []) })
    delete_all rel name group

  -- The case of a single stored asset with a local file of its name, behind its check.
  unfoldable pub settle :
      Release → Bytes → Asset → Result CheckError (Unit {0}) → Exec W (Bool × List Bytes)
  settle rel name s (ok _) = pure (false, name ∷ [])
  settle rel name s (err (access e)) = raise (cannot_check name e)
  settle rel name s (err (mismatch _)) = do delete_all rel name (s ∷ []); pure (true, [])

  -- One round of the loop over `byName`: whether it changed something, and the name if it is stored
  -- correctly. No group of the map is empty.
  unfoldable pub visit :
      Release → Bool → Bytes → Option LocalAsset → List Asset → Exec W (Bool × List Bytes)
  visit rel download name want [] = pure (false, [])
  visit rel download name none (s ∷ group) = do delete_all rel name (s ∷ group); pure (true, [])
  visit rel download name (some want) (s ∷ []) = do
    r ← check env rel s want download
    settle rel name s r
  visit rel download name (some want) (s ∷ t ∷ group) = do
    delete_all rel name (s ∷ t ∷ group)
    pure (true, [])

  unfoldable pub visit_all :
      Release
      → Bool
      → List LocalAsset
      → Groups
      → List Bytes
      → Bool
      → List Bytes
      → Exec W (Bool × List Bytes)
  visit_all rel download assets gs [] changed good = pure (changed, good)
  visit_all rel download assets gs (name ∷ names) changed good = do
    r ← visit rel download name (local_of name assets) (group_of name gs)
    visit_all rel download assets gs names (changed || r.0) (good ++ r.1)

  unfoldable pub upload_answer : LocalAsset → Result HostError Asset → Result HostError (Unit {0})
  upload_answer a (err e) = err e
  upload_answer a (ok stored) =
      if not (is_empty stored.digest) && not (bytes_eq stored.digest (codes "sha256:" ++ a.sha256))
      then err local_failure
      else ok tt

  -- `upload`
  unfoldable pub upload : Release → LocalAsset → Option Bytes → Exec W (Result HostError (Unit {0}))
  upload rel a none = pure (err local_failure)
  upload rel a (some content) = do
    r ← call (env.host.upload rel a.name a.size content) (asset_uploaded rel a.name)
    pure (upload_answer a r)

  -- What an upload's error means: a 422 and a failure that may pass are left to the next round.
  unfoldable pub upload_done : LocalAsset → Result HostError (Unit {0}) → Exec W (Unit {0})
  upload_done a (ok _) = modify (λ st. record st { uploaded = st.uploaded ++ (a.name ∷ []) })
  upload_done a (err e) =
      if is_status e 422
      then pure tt
      else if is_refusal e
      then raise (upload_refused a.name e)
      else pure tt

  unfoldable pub mark_reused : Bytes → State W → State W
  mark_reused name st =
      if not (contains st.reused name) && not (contains st.uploaded name)
      then record st { reused = st.reused ++ (name ∷ []) }
      else st

  -- The loop over the local assets.
  unfoldable pub upload_all : Release → List Bytes → List LocalAsset → Bool → Exec W Bool
  upload_all rel good [] changed = pure changed
  upload_all rel good (a ∷ as_) changed =
      if contains good a.name
      then (do modify (mark_reused a.name); upload_all rel good as_ changed)
      else (do r ← upload rel a a.content; upload_done a r; upload_all rel good as_ true)

  -- `reconcile`: true when nothing was changed.
  unfoldable pub reconcile : Release → Bool → List LocalAsset → Exec W Bool
  reconcile rel download assets = do
    listed ← call (env.host.assets rel) (assets_listed rel)
    stored ← must host_failed listed
    let gs = by_name stored
    names ← gets (λ st. env.range_order st.world (group_names gs))
    r ← visit_all rel download assets gs names false []
    changed ← upload_all rel r.1 assets r.0
    pure (not changed)
