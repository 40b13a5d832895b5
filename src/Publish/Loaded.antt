-- ===== src/Publish/Loaded.antt =====
-- What `LoadAssets` guarantees of the assets it returns.
use release_me.Prelude.{
  ◌≡◌, ◌≢◌, inl, inr, refl, ap, subst, true, false, not, Option, none, some, List, [], ◌∷◌, All,
  All-map_of, arith, is_empty, Bytes, bytes_compare, bytes_compare-flip, bytes_compare_trans,
  bytes_compare_eq, is_lt, Result, ok, err, >>=-ok, reject_if-eq-ok, ok-injective, Bool-cases,
}
use release_me.Manifest
use release_me.Manifest.{Manifest, ManifestError, Entry, valid_name, lookup}
use release_me.Manifest.Files.{Matches, check-nil}
use release_me.Publish.Types.{LocalAsset}
use release_me.Publish.Load.{
  FileEntry, Directory, LoadError, not_publishable, other_digest, files_differ, no_manifest,
  no_listing, no_info, unreadable, bad_manifest_or, some_or, contradicts, insert_by_name,
  sort_by_name, manifest_or_default, hash_file, load_file, load_files, load_assets,
}

-- No name is above the next one.
abbrev pub IsAscending : List LocalAsset → Type 0
IsAscending [] = Unit
IsAscending (a ∷ as_) = All (λ b. is_lt (bytes_compare b.name a.name) ≡ false) as_ × IsAscending as_

insert_by_name-All :
    (P : LocalAsset → Type 0) (a : LocalAsset) (as_ : List LocalAsset)
    → P a
    → All P as_
    → All P (insert_by_name a as_)
unfolding insert_by_name
insert_by_name-All P a [] p h = (p, tt)
insert_by_name-All P a (b ∷ bs) p (hb, h) =
    elim (Bool-cases (is_lt (bytes_compare b.name a.name))) [
      | inl before ↦ rw before (hb, insert_by_name-All P a bs p h)
      | inr after ↦ rw after (p, (hb, h))
    ]

sort_by_name-All :
    (P : LocalAsset → Type 0) (as_ : List LocalAsset) → All P as_ → All P (sort_by_name as_)
unfolding sort_by_name
sort_by_name-All P [] h = tt
sort_by_name-All P (a ∷ as_) (p, h) =
    insert_by_name-All P a (sort_by_name as_) p (sort_by_name-All P as_ h)

below_flip : (x y : Bytes) → is_lt (bytes_compare x y) ≡ true → is_lt (bytes_compare y x) ≡ false
below_flip x y h = ground (arith, bytes_compare-flip x y)

not_below_trans :
    (x y z : Bytes)
    → is_lt (bytes_compare y x) ≡ false
    → is_lt (bytes_compare z y) ≡ false
    → is_lt (bytes_compare z x) ≡ false
not_below_trans x y z h k =
    ground (arith, bytes_compare-flip y x, bytes_compare_trans z x y, bytes_compare_eq y x)

insert_by_name-IsAscending :
    (a : LocalAsset) (as_ : List LocalAsset) → IsAscending as_ → IsAscending (insert_by_name a as_)
unfolding insert_by_name
insert_by_name-IsAscending a [] s = (tt, tt)
insert_by_name-IsAscending a (b ∷ bs) (sb, s) =
    elim (Bool-cases (is_lt (bytes_compare b.name a.name))) [
      | inl before ↦ rw before (
        insert_by_name-All (λ c. is_lt (bytes_compare c.name b.name) ≡ false) a bs
            (below_flip b.name a.name before) sb,
        insert_by_name-IsAscending a bs s,
      )
      | inr after ↦
          rw after
            ((after, All-map_of (λ c. not_below_trans a.name b.name c.name after) bs sb), (sb, s))
    ]

sort_by_name-IsAscending : (as_ : List LocalAsset) → IsAscending (sort_by_name as_)
unfolding sort_by_name
sort_by_name-IsAscending [] = tt
sort_by_name-IsAscending (a ∷ as_) =
    insert_by_name-IsAscending a (sort_by_name as_) (sort_by_name-IsAscending as_)

-- An asset of the name is in the list.
abbrev pub Has : Bytes → List LocalAsset → Type 0
Has name as_ = ¬ All (λ a. a.name ≢ name) as_

insert_by_name-All_of :
    (P : LocalAsset → Type 0) (a : LocalAsset) (as_ : List LocalAsset)
    → All P (insert_by_name a as_)
    → P a × All P as_
unfolding insert_by_name
insert_by_name-All_of P a [] h = (h.0, tt)
insert_by_name-All_of P a (b ∷ bs) h = elim (Bool-cases (is_lt (bytes_compare b.name a.name))) [
  | inl before ↦
      let k : P b × All P (insert_by_name a bs) = rw before at h in
      let (p, r) = insert_by_name-All_of P a bs k.1 in (p, (k.0, r))
  | inr after ↦ rw after at h
]

sort_by_name-All_of :
    (P : LocalAsset → Type 0) (as_ : List LocalAsset) → All P (sort_by_name as_) → All P as_
unfolding sort_by_name
sort_by_name-All_of P [] h = tt
sort_by_name-All_of P (a ∷ as_) h =
    let (p, r) = insert_by_name-All_of P a (sort_by_name as_) h in (p, sort_by_name-All_of P as_ r)

some_or-ok : {A : Type 0} (e : LoadError) (o : Option A) {x : A} → some_or e o ≡ ok x → o ≡ some x
some_or-ok e none h = cc
some_or-ok e (some y) h = ap some (ok-injective h)

bad_manifest_or-ok :
    (r : Result ManifestError Manifest) {m : Manifest} → bad_manifest_or r ≡ ok m → r ≡ ok m
bad_manifest_or-ok (ok m) h = ap ok (ok-injective h)
bad_manifest_or-ok (err e) h = cc

empty_nil : {A : Type 0} (xs : List A) → is_empty xs ≡ true → xs ≡ []
empty_nil [] h = refl
empty_nil (x ∷ xs) h = cc

module _ (sha256 : Bytes → Bytes) (dir : Directory) where
  -- An asset that may be published: its name is valid, and its content and digest are those of the
  -- file of its name.
  pub record Loaded (a : LocalAsset) : Type 0 where
    pub name_ok : valid_name a.name ≡ true
    pub content_read : a.content ≡ dir.read_file a.name
    pub digest_ok : hash_file sha256 dir a.name ≡ some a.sha256

  load_file-Loaded :
      (m : Manifest) (e : FileEntry) {a : LocalAsset}
      → load_file sha256 dir m e ≡ ok a
      → Loaded a × (a.name ≡ e.name)
  unfolding load_file
  load_file-Loaded m e h =
      let (valid, h1) = reject_if-eq-ok (not (valid_name e.name)) (not_publishable e.name) _ h in
      let (size, e2, h2) = >>=-ok (some_or (no_info e.name) e.size) _ h1 in
      let (sum, e3, h3) = >>=-ok (some_or (unreadable e.name) (hash_file sha256 dir e.name)) _ h2 in
      let (agrees, h4) =
        reject_if-eq-ok (contradicts sum (lookup m e.name)) (other_digest e.name) _ h3 in
      subst (λ x. Loaded x × (x.name ≡ e.name)) (ok-injective h4)
        (
          record {
            name_ok = ground arith;
            content_read = refl;
            digest_ok = some_or-ok (unreadable e.name) (hash_file sha256 dir e.name) e3;
          },
          refl,
        )

  abbrev Taken : List LocalAsset → FileEntry → Type 0
  Taken as_ e = e.is_regular ≡ true → Has e.name as_

  load_files-Loaded :
      (m : Manifest) (es : List FileEntry) {as_ : List LocalAsset}
      → load_files sha256 dir m es ≡ ok as_
      → All Loaded as_ × All (Taken as_) es
  unfolding load_files
  load_files-Loaded m [] h = subst (λ x. All Loaded x × All (Taken x) []) (ok-injective h) (tt, tt)
  load_files-Loaded m (e ∷ es) h = elim (Bool-cases (not e.is_regular)) [
    | inl skip ↦
        let (l, t) = load_files-Loaded m es (rw skip at h) in (l, ((λ regular. ground arith), t))
    | inr regular ↦
        let (a, e1, h1) = >>=-ok (load_file sha256 dir m e) _ (rw regular at h) in
        let (rest, e2, h2) = >>=-ok (load_files sha256 dir m es) _ h1 in
        let (loaded, same) = load_file-Loaded m e e1 in
        let (l, t) = load_files-Loaded m es e2 in
        subst (λ x. All Loaded x × All (Taken x) (e ∷ es)) (ok-injective h2)
          (
            (loaded, l),
            (
              (λ _ none_named. none_named.0 same),
              All-map_of (λ x has r none_named. has r none_named.1) es t,
            ),
          )
  ]

  -- The assets are the regular files of the directory, in the order of their names, and the files that
  -- the manifest lists have its digests.
  abbrev pub LoadedFrom : Bytes → List LocalAsset → Type 0
  LoadedFrom manifest_name as_ =
      All Loaded as_
      × IsAscending as_
      × ((text : Bytes) × (m : Manifest) × (dir.read_file (manifest_or_default manifest_name)
            ≡ some text)
          × (Manifest.parse text ≡ ok m)
          × All (Matches (hash_file sha256 dir)) m)
      × ((es : List FileEntry) × (dir.entries ≡ some es)
          × All (λ e. e.is_regular ≡ true → Has e.name as_) es)

  -- If `LoadAssets` returns assets, each has a valid name and the content and digest of the file
  -- of its name, they are in the order of their names, every regular file of the directory is
  -- among them, and the manifest file parses and every file that it lists can be read and has its
  -- digest.
  pub load_assets-LoadedFrom :
      (manifest_name : Bytes) {as_ : List LocalAsset}
      → load_assets sha256 dir manifest_name ≡ ok as_
      → LoadedFrom manifest_name as_
  unfolding load_assets
  load_assets-LoadedFrom manifest_name h =
      let (text, e1, h1) =
        >>=-ok (some_or no_manifest (dir.read_file (manifest_or_default manifest_name))) _ h in
      let (m, e2, h2) = >>=-ok (bad_manifest_or (Manifest.parse text)) _ h1 in
      let (fits, h3) =
        reject_if-eq-ok (not (is_empty (Manifest.check (hash_file sha256 dir) m)))
          (files_differ (Manifest.check (hash_file sha256 dir) m)) _ h2 in
      let (es, e4, h4) = >>=-ok (some_or no_listing dir.entries) _ h3 in
      let (as_, e5, h5) = >>=-ok (load_files sha256 dir m es) _ h4 in
      let (l, t) = load_files-Loaded m es e5 in
      subst (LoadedFrom manifest_name) (ok-injective h5) (
        sort_by_name-All Loaded as_ l,
        sort_by_name-IsAscending as_,
        (
          text,
          m,
          some_or-ok no_manifest (dir.read_file (manifest_or_default manifest_name)) e1,
          bad_manifest_or-ok (Manifest.parse text) e2,
          (check-nil (hash_file sha256 dir) m).0
              (empty_nil (Manifest.check (hash_file sha256 dir) m) (ground arith)),
        ),
        (
          es,
          some_or-ok no_listing dir.entries e4,
          All-map_of (λ e has r k. has r (sort_by_name-All_of (λ a. a.name ≢ e.name) as_ k)) es t,
        ),
      )
