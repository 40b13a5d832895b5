-- ===== src/Publish/Load.antt =====
-- `LoadAssets` of internal/publish/publish.go: the files of a directory against its manifest.
use release_me.Prelude.{
  ℕ, Bool, false, not, Option, none, some, List, [], ◌∷◌, if◌then◌else◌, is_empty, Bytes, bytes_eq,
  bytes_compare, is_lt, Result, ok, err, ◌>>=◌, ◌>>◌, reject_if,
}
use release_me.Manifest
use release_me.Manifest.{Manifest, ManifestError, file_name, valid_name, lookup}
use release_me.Publish.Types.{LocalAsset}

-- What the program reads of a directory entry; the size is that of its `Info`.
pub record FileEntry : Type 0 where
  pub name : Bytes
  pub is_regular : Bool
  pub size : Option ℕ

-- A directory: its listing, and the bytes of its files.
pub record Directory : Type 0 where
  pub entries : Option (List FileEntry)
  pub read_file : Bytes → Option Bytes

pub data LoadError : Type 0 where
  no_manifest : LoadError
  bad_manifest : ManifestError → LoadError
  files_differ : List Manifest.CheckError → LoadError
  no_listing : LoadError
  not_publishable : Bytes → LoadError
  no_info : Bytes → LoadError
  unreadable : Bytes → LoadError
  other_digest : Bytes → LoadError

abbrev pub bad_manifest_or : Result ManifestError Manifest → Result LoadError Manifest
bad_manifest_or (ok m) = ok m
bad_manifest_or (err e) = err (bad_manifest e)

abbrev pub some_or : {A : Type 0} → LoadError → Option A → Result LoadError A
some_or e none = err e
some_or e (some x) = ok x

-- `want, ok := m.Lookup(…); ok && want != sum`
abbrev pub contradicts : Bytes → Option Bytes → Bool
contradicts sum none = false
contradicts sum (some want) = not (bytes_eq want sum)

-- `sort.Slice` by name.
unfoldable pub insert_by_name : LocalAsset → List LocalAsset → List LocalAsset
insert_by_name a [] = a ∷ []
insert_by_name a (b ∷ bs) =
    let rest = insert_by_name a bs in
    if is_lt (bytes_compare b.name a.name) then b ∷ rest else a ∷ b ∷ bs

unfoldable pub sort_by_name : List LocalAsset → List LocalAsset
sort_by_name [] = []
sort_by_name (a ∷ as_) = insert_by_name a (sort_by_name as_)

abbrev pub manifest_or_default : Bytes → Bytes
manifest_or_default name = if is_empty name then file_name else name

module _ (sha256 : Bytes → Bytes) (dir : Directory) where
  abbrev digest : Option Bytes → Option Bytes
  digest none = none
  digest (some content) = some (sha256 content)

  -- `HashFile`
  abbrev pub hash_file : Bytes → Option Bytes
  hash_file name = digest (dir.read_file name)

  unfoldable pub load_file : Manifest → FileEntry → Result LoadError LocalAsset
  load_file m e = do
    reject_if (not (valid_name e.name)) (not_publishable e.name)
    size ← some_or (no_info e.name) e.size
    sum ← some_or (unreadable e.name) (hash_file e.name)
    reject_if (contradicts sum (lookup m e.name)) (other_digest e.name)
    ok (record { name = e.name; content = dir.read_file e.name; size = size; sha256 = sum })

  -- The loop over the entries of the directory.
  unfoldable pub load_files : Manifest → List FileEntry → Result LoadError (List LocalAsset)
  load_files m [] = ok []
  load_files m (e ∷ es) =
      let rest = load_files m es in
      if not e.is_regular then rest else (do a ← load_file m e; as_ ← rest; ok (a ∷ as_))

  unfoldable pub load_assets : Bytes → Result LoadError (List LocalAsset)
  unfolding load_file load_files
  load_assets manifest_name = do
    text ← some_or no_manifest (dir.read_file (manifest_or_default manifest_name))
    m ← bad_manifest_or (Manifest.parse text)
    reject_if (not (is_empty (Manifest.check hash_file m)))
        (files_differ (Manifest.check hash_file m))
    entries ← some_or no_listing dir.entries
    as_ ← load_files m entries
    ok (sort_by_name as_)
