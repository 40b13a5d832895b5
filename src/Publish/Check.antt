-- ===== src/Publish/Check.antt =====
-- `check` and `compare` of internal/publish/publish.go: one stored asset, and all of them, against
-- the local files.
use release_me.Prelude.{
  ℕ, ◌+◌, Bool, true, false, not, ◌&&◌, Option, none, some, List, [], ◌∷◌, ◌++◌, ltb, ◌==◌,
  if◌then◌else◌, length, take, is_empty, Bytes, codes, bytes_eq, Result, ok, err,
}
use release_me.Host.{HostError, local_failure, Release, Asset, Stream, asset_opened}
use release_me.Publish.Types.{
  LocalAsset, Env, CheckError, mismatch, access, wrong_state, wrong_size, wrong_digest, wrong_bytes,
  CompareError, missing, several, not_same, unexpected,
}
use release_me.Publish.Exec.{Exec, pure, call, modify, gets, ◌>>=◌, ◌>>◌}

-- `map[string][]host.Asset` as an association list
abbrev pub Groups : Type 0
Groups = List (Bytes × List Asset)

-- `byName[s.Name] = append(byName[s.Name], s)`
unfoldable pub add_to : Asset → Groups → Groups
add_to a [] = (a.name, a ∷ []) ∷ []
add_to a ((name, group) ∷ gs) =
    if bytes_eq name a.name then (name, group ++ (a ∷ [])) ∷ gs else (name, group) ∷ add_to a gs

-- The loop over the stored assets.
unfoldable pub group_from : List Asset → Groups → Groups
group_from [] gs = gs
group_from (a ∷ as_) gs = group_from as_ (add_to a gs)

unfoldable pub by_name : List Asset → Groups
by_name stored = group_from stored []

-- `byName[name]`
unfoldable pub group_of : Bytes → Groups → List Asset
group_of name [] = []
group_of name ((n, group) ∷ gs) = if bytes_eq n name then group else group_of name gs

-- `delete(byName, name)`
unfoldable pub delete_group : Bytes → Groups → Groups
delete_group name [] = []
delete_group name ((n, group) ∷ gs) =
    if bytes_eq n name then delete_group name gs else (n, group) ∷ delete_group name gs

unfoldable pub group_names : Groups → List Bytes
group_names [] = []
group_names ((n, group) ∷ gs) = n ∷ group_names gs

-- `o.verified[id]`, the empty string for an id that is not there
unfoldable pub verified_sum : ℕ → List (ℕ × Bytes) → Bytes
verified_sum id [] = []
verified_sum id ((i, s) ∷ vs) = if i == id then s else verified_sum id vs

-- `o.verified != nil && o.verified[s.ID] == want.SHA256`; the map is made at its first entry.
unfoldable pub is_verified : ℕ → Bytes → List (ℕ × Bytes) → Bool
is_verified id sum vs = not (is_empty vs) && bytes_eq (verified_sum id vs) sum

-- The tests of `check` before the download: `none` means that they settle nothing.
unfoldable pub check_metadata : Asset → LocalAsset → Bool → Option (Result CheckError (Unit {0}))
check_metadata s want download =
    if not (is_empty s.state) && not (bytes_eq s.state (codes "uploaded"))
    then some (err (mismatch wrong_state))
    else if not (s.size == want.size)
    then some (err (mismatch wrong_size))
    else if is_empty s.digest
    then none
    else if not (bytes_eq s.digest (codes "sha256:" ++ want.sha256))
    then some (err (mismatch wrong_digest))
    else if download
    then none
    else some (ok tt)

abbrev pub errors_of : Bytes → Result CheckError (Unit {0}) → List CompareError
errors_of name (ok _) = []
errors_of name (err e) = not_same name e ∷ []

unfoldable pub unexpected_names : List Bytes → List CompareError
unexpected_names [] = []
unexpected_names (n ∷ ns) = unexpected n ∷ unexpected_names ns

module _ {W : Type 0} (env : Env W) where
  -- `manifest.HashReader(io.LimitReader(rc, want.Size+1))`. The reader breaks only if the limit is
  -- not reached before.
  unfoldable pub hash_stream : ℕ → Stream → Result HostError Bytes
  hash_stream limit st =
      if st.broken && ltb (length st.content) limit
      then err local_failure
      else ok (env.sha256 (take limit st.content))

  unfoldable pub check_hash :
      Asset → LocalAsset → Result HostError Bytes → Exec W (Result CheckError (Unit {0}))
  check_hash s want (err e) = pure (err (access e))
  check_hash s want (ok sum) =
      if not (bytes_eq sum want.sha256)
      then pure (err (mismatch wrong_bytes))
      else do modify (λ st. record st { verified = (s.id, sum) ∷ st.verified }); pure (ok tt)

  unfoldable pub check_stream :
      Asset → LocalAsset → Result HostError Stream → Exec W (Result CheckError (Unit {0}))
  check_stream s want (err e) = pure (err (access e))
  check_stream s want (ok st) = check_hash s want (hash_stream (want.size + 1) st)

  unfoldable pub fetch_unless :
      Release → Asset → LocalAsset → Bool → Exec W (Result CheckError (Unit {0}))
  fetch_unless rel s want true = pure (ok tt)
  fetch_unless rel s want false = do
    r ← call (env.host.open_asset rel s) (asset_opened rel s)
    check_stream s want r

  -- The memo, and the download for what it does not hold.
  unfoldable pub check_bytes : Release → Asset → LocalAsset → Exec W (Result CheckError (Unit {0}))
  check_bytes rel s want = do
    known ← gets (λ st. is_verified s.id want.sha256 st.verified)
    fetch_unless rel s want known

  unfoldable pub check_or_fetch :
      Release
      → Asset
      → LocalAsset
      → Option (Result CheckError (Unit {0}))
      → Exec W (Result CheckError (Unit {0}))
  check_or_fetch rel s want (some r) = pure r
  check_or_fetch rel s want none = check_bytes rel s want

  -- `check`
  unfoldable pub check : Release → Asset → LocalAsset → Bool → Exec W (Result CheckError (Unit {0}))
  check rel s want download = check_or_fetch rel s want (check_metadata s want download)

  unfoldable pub compare_group :
      Release → LocalAsset → Bool → List Asset → Exec W (List CompareError)
  compare_group rel a download [] = pure (missing a.name ∷ [])
  compare_group rel a download (s ∷ []) = do r ← check rel s a download; pure (errors_of a.name r)
  compare_group rel a download (s ∷ t ∷ g) = pure (several a.name ∷ [])

  -- The loop over the local assets, and behind it the loop over what is left in the map.
  unfoldable pub compare_from :
      Release → Bool → List LocalAsset → Groups → List CompareError → Exec W (List CompareError)
  compare_from rel download [] gs errs = pure (errs ++ unexpected_names (group_names gs))
  compare_from rel download (a ∷ as_) gs errs = do
    es ← compare_group rel a download (group_of a.name gs)
    compare_from rel download as_ (delete_group a.name gs) (errs ++ es)

  -- `compare`; no error is nil.
  unfoldable pub compare_assets :
      Release → List Asset → List LocalAsset → Bool → Exec W (List CompareError)
  compare_assets rel stored assets download = compare_from rel download assets (by_name stored) []
