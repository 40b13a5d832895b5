-- ===== src/Verify/Fetch.antt =====
-- internal/verify/verify.go: the release, its assets and their downloads, up to the manifest and the
-- files that it lists.
use release_me.Prelude.{
  ℕ, suc, Bool, true, false, not, ◌&&◌, Option, none, some, List, [], ◌∷◌, ◌++◌, ◌==◌,
  if◌then◌else◌, is_empty, Bytes, codes, bytes_eq, cut_byte, trim_right, Result, ok, err,
}
use mathlib.Core.Option
use release_me.Host.{Asset}
use release_me.Manifest.{Entry, Manifest, valid_name}
use release_me.Manifest
use release_me.Policy.{Policy, manifest_name}
use release_me.Verify.Types.{
  AssetReport, HostClient, github, forgejo, VerifyError, unknown_host, unsafe_name, listed_twice,
  no_asset, not_downloaded, bad_manifest, not_matching, other_digest, Env, State,
}
use release_me.Verify.Exec.{Exec, pure, lift, ◌>>=◌, ◌>>◌, fail_if, wrap}

-- `strings.Cut(p.Repository, "/")`
abbrev pub owner_of : Bytes → Option (Bytes × Bytes) → Bytes
owner_of whole none = whole
owner_of whole (some (owner, repo)) = owner

abbrev pub repo_of : Option (Bytes × Bytes) → Bytes
repo_of none = []
repo_of (some (owner, repo)) = repo

abbrev pub api_of : Policy → Bytes → Bytes
api_of p api =
    if is_empty api
      && not (is_empty p.server)
      && not (bytes_eq p.server (codes "https://github.com"))
    then trim_right (λ c. c == b'/') p.server ++ codes "/api/v3"
    else api

-- `hostClient`
abbrev pub host_client : Policy → Bytes → Result VerifyError HostClient
host_client p api =
    let parts = cut_byte b'/' p.repository in
    if bytes_eq p.host (codes "github")
    then ok (github (api_of p api) p.server (owner_of p.repository parts) (repo_of parts))
    else if bytes_eq p.host (codes "forgejo")
    then ok (forgejo p.server (owner_of p.repository parts) (repo_of parts))
    else err unknown_host

-- The asset of a name among those of the release.
unfoldable pub asset_named : Bytes → List Asset → Option Asset
asset_named name [] = none
asset_named name (a ∷ as_list) = if bytes_eq a.name name then some a else asset_named name as_list

abbrev pub is_listed : Option Asset → Bool
is_listed none = false
is_listed (some a) = true

-- The loop that fills the map of the published assets, over those before.
unfoldable pub check_names : List Asset → List Asset → Result VerifyError (List Asset)
check_names published [] = ok published
check_names published (a ∷ as_list) =
    let rest = check_names (published ++ (a ∷ [])) as_list in
    if not (valid_name a.name)
    then err (unsafe_name a.name)
    else if is_listed (asset_named a.name published)
    then err (listed_twice a.name)
    else rest

-- A file is created, or replaced.
abbrev pub write_file : Bytes → Bytes → (Bytes → Option Bytes) → Bytes → Option Bytes
write_file name content files n = if bytes_eq n name then some content else files n

abbrev pub size_of : Option Asset → ℕ
size_of none = 0
size_of (some a) = a.size

abbrev pub digest_of : Option Asset → Bytes
digest_of none = []
digest_of (some a) = a.digest

abbrev pub asset_report : List Asset → Entry → AssetReport
asset_report published e = record {
  name = e.name;
  sha256 = e.sha256;
  size = size_of (asset_named e.name published);
}

-- The platform's digest, where it has one, agrees.
abbrev pub contradicts : Entry → Bytes → Bool
contradicts e d = not (is_empty d) && not (bytes_eq d (codes "sha256:" ++ e.sha256))

unfoldable pub check_platform : List Asset → List Entry → Result VerifyError (Unit {0})
check_platform published [] = ok tt
check_platform published (e ∷ es) =
    let rest = check_platform published es in
    if contradicts e (digest_of (asset_named e.name published))
    then err (other_digest e.name)
    else rest

module _ (env : Env) (client : HostClient) (tag : Bytes) (published : List Asset) where
  abbrev pub stored : Bytes → State → Option Bytes → Result VerifyError (Bytes × State)
  stored name s none = err (not_downloaded name)
  stored name s (some content) =
      ok
        (content, record s { downloads = suc s.downloads; files = write_file name content s.files })

  -- `download` into the directory, with the content that is read back from it.
  unfoldable pub save : Bytes → Exec Bytes
  save name s = stored name s (env.download client tag s.downloads name)

  -- `fetch`
  unfoldable pub fetch : Bytes → Exec Bytes
  fetch name = do fail_if (not (is_listed (asset_named name published))) (no_asset name); save name

  -- `fetchOptional`
  unfoldable pub fetch_optional : Bytes → Exec (Option Bytes)
  fetch_optional name =
      if not (is_listed (asset_named name published))
      then pure none
      else (fetch name >>= λ content. pure (some content))

  unfoldable pub fetch_all : List Entry → Exec (Unit {0})
  fetch_all [] = pure tt
  fetch_all (e ∷ es) = fetch e.name >>= λ _. fetch_all es

  -- `m.Check(dir)`
  unfoldable pub check_files : Manifest → Exec (Unit {0})
  check_files m s =
      let errs = Manifest.check (λ name. Option.map env.hash (s.files name)) m in
      if is_empty errs then pure tt s else err (not_matching errs)

  -- The manifest with its text, and the files that it lists.
  unfoldable pub fetch_manifest : Policy → Exec (Manifest × Bytes)
  fetch_manifest p = do
    text ← fetch (manifest_name p)
    m ← lift (wrap bad_manifest (Manifest.parse text))
    fetch_all m
    check_files m
    lift (check_platform published m)
    pure (m, text)
