-- ===== src/Manifest/Files.antt =====
-- `Check` and `FromDir` against the files of a directory. `hash_file` is what the program reads of
-- them: the digest of a file, or no digest if it cannot be read.
use release_me.Prelude.{
  Any, ◌⊎◌, true, ||-eq-false, not-eq-false, append-eq-nil, ◌≡◌, ◌≢◌, ◌↔◌, refl, sym, ◌∙◌, subst,
  Bool, false, not, ◌||◌, Option, none, some, List, [], ◌∷◌, arith, All, Bytes, bytes_eq, to_lower,
  ok, >>=-ok, ok-injective, inl, inr, Bool-cases, bytes_eq_iff,
}
use release_me.Manifest.{
  Entry, Manifest, lookup, check_of, check, DirEntry, from_entries, from_dir, file_name, add_hashed,
  some_files,
}
use release_me.Manifest.Valid.{IsValid, add-IsValid, lookup-add, nil-IsValid}

-- The directory has a regular file of the name, which is not SHA256SUMS.
abbrev pub IsIn : List DirEntry → Bytes → Type 0
IsIn ds name = Any (λ d. (d.name ≡ name) × (d.is_regular ≡ true) × (d.name ≢ file_name)) ds

module _ (hash_file : Bytes → Option Bytes) where
  abbrev pub Matches : Entry → Type 0
  Matches e = hash_file e.name ≡ some e.sha256

  check_of-nil :
      (e : Entry) (o : Option Bytes) → (check_of hash_file e o ≡ []) ↔ (o ≡ some e.sha256)
  check_of-nil e none = (λ h. cc, λ h. cc)
  check_of-nil e (some x) = ground (arith, bytes_eq_iff x e.sha256)

  -- `Check` reports nothing exactly when each listed file can be read and has its recorded
  -- digest.
  pub check-nil : (es : List Entry) → (check hash_file es ≡ []) ↔ All Matches es
  unfolding check
  check-nil [] = (λ _. tt, λ _. refl)
  check-nil (e ∷ es) = (
    λ h.
        let (here, rest) = append-eq-nil _ _ h in
        ((check_of-nil e (hash_file e.name)).0 here, (check-nil es).0 rest),
    λ h. rw ((check_of-nil e (hash_file e.name)).1 h.0, (check-nil es).1 h.1),
  )

  -- the digest of a file as `Add` writes it
  abbrev pub lower_digest : Option Bytes → Option Bytes
  lower_digest none = none
  lower_digest (some sum) = some (to_lower sum)

  -- Whatever the manifest records is the digest of the file of that name.
  abbrev pub Truthful : Manifest → Type 0
  Truthful m = (name d : Bytes) → lookup m name ≡ some d → lower_digest (hash_file name) ≡ some d

  abbrev pub skipped : DirEntry → Bool
  skipped d = not d.is_regular || bytes_eq d.name file_name

  abbrev pub Covers : Manifest → DirEntry → Type 0
  Covers m d = skipped d ≡ false → lookup m d.name ≢ none

  taken : (d : DirEntry) → skipped d ≡ false → (d.is_regular ≡ true) × (d.name ≢ file_name)
  taken d h =
      let (regular, other) = ||-eq-false (not d.is_regular) (bytes_eq d.name file_name) h in
      (not-eq-false d.is_regular regular, λ e. cc (sym other ∙ (bytes_eq_iff d.name file_name).1 e))

  nil_lookup : (x d : Bytes) → lookup [] x ≢ some d
  unfolding lookup
  nil_lookup x d h = cc

  nil_none : (x : Bytes) → lookup [] x ≡ none
  unfolding lookup
  nil_none x = refl

  record Hashed (ds : List DirEntry) (m m' : Manifest) : Type 0 where
    valid : IsValid m'
    truthful : Truthful m'
    keeps : (name : Bytes) → lookup m name ≢ none → lookup m' name ≢ none
    covers : All (Covers m') ds
    only : (name : Bytes) → lookup m' name ≢ none → (lookup m name ≢ none) ⊎ IsIn ds name

  -- One file more.
  record Step (name : Bytes) (m m' : Manifest) : Type 0 where
    valid : IsValid m'
    truthful : Truthful m'
    keeps : (name' : Bytes) → lookup m name' ≢ none → lookup m' name' ≢ none
    present : lookup m' name ≢ none
    only : (name' : Bytes) → lookup m' name' ≢ none → (lookup m name' ≢ none) ⊎ (name ≡ name')

  add_hashed-Step :
      (m : Manifest) (name : Bytes) (o : Option Bytes) {m' : Manifest}
      → hash_file name ≡ o
      → IsValid m
      → Truthful m
      → add_hashed hash_file m name o ≡ ok m'
      → Step name m m'
  add_hashed-Step m name none e v t h = cc
  add_hashed-Step m name (some sum) {m'} e v t h =
      let after = λ (x : Bytes). lookup-add m name sum x v h in
      record {
        valid = add-IsValid m name sum v h;
        truthful = λ x d k. elim (Bool-cases (bytes_eq name x)) [
          | inl same ↦
              let names = (bytes_eq_iff name x).0 same in
              rw (← names, e) (sym (rw same at (after x)) ∙ k)
          | inr other ↦ t x d (sym (rw other at (after x)) ∙ k)
        ];
        keeps = λ x k. elim (Bool-cases (bytes_eq name x)) [
          | inl same ↦ rw (after x, same) (λ q. cc)
          | inr other ↦ rw (after x, other) k
        ];
        only = λ x k. elim (Bool-cases (bytes_eq name x)) [
          | inl same ↦ inr ((bytes_eq_iff name x).0 same)
          | inr other ↦ inl (λ q. k (rw (after x, other) q))
        ];
        present = rw (after name, (bytes_eq_iff name name).1 refl) (λ q. cc);
      }

  from_entries-Hashed :
      (ds : List DirEntry) (m : Manifest) {m' : Manifest}
      → IsValid m
      → Truthful m
      → from_entries hash_file ds m ≡ ok m'
      → Hashed ds m m'
  unfolding from_entries
  from_entries-Hashed [] m v t h =
      subst (Hashed [] m) (ok-injective h)
        (record { valid = v; truthful = t; keeps = λ _ k. k; covers = tt; only = λ _ k. inl k })
  from_entries-Hashed (d ∷ ds) m v t h = elim (Bool-cases (skipped d)) [
    | inl skip ↦
        let r = from_entries-Hashed ds m v t (rw skip at h) in
        record {
          valid = r.valid;
          truthful = r.truthful;
          keeps = r.keeps;
          covers = (λ k. cc, r.covers);
          only = λ x k. elim (r.only x k) [ inl old ↦ inl old | inr new ↦ inr (inr new) ];
        }
    | inr here ↦
        let (m1, e, h') =
          >>=-ok (add_hashed hash_file m d.name (hash_file d.name)) _ (rw here at h) in
        let s = add_hashed-Step m d.name (hash_file d.name) refl v t e in
        let r = from_entries-Hashed ds m1 s.valid s.truthful h' in
        record {
          valid = r.valid;
          truthful = r.truthful;
          keeps = λ x k. r.keeps x (s.keeps x k);
          covers = (λ _. r.keeps d.name s.present, r.covers);
          only = λ x k. elim (r.only x k) [
            | inr new ↦ inr (inr new)
            | inl old ↦ elim (s.only x old) [
              | inl older ↦ inl older
              | inr same ↦ let (regular, other) = taken d here in inr (inl (same, regular, other))
            ]
          ];
        }
  ]

  some_files-ok : (m : Manifest) {m' : Manifest} → some_files hash_file m ≡ ok m' → m ≡ m'
  some_files-ok [] h = cc
  some_files-ok (e ∷ es) h = ok-injective h

  -- If `FromDir` returns a manifest, it is valid, every digest that it records is in lower case
  -- the digest of the file of that name, every regular file of the directory but SHA256SUMS is
  -- recorded, and every name that `Lookup` finds in it is that of such a file; and the directory
  -- could be read.
  pub from_dir_sound :
      (listing : Option (List DirEntry)) {m : Manifest}
      → from_dir hash_file listing ≡ ok m
      → (ds : List DirEntry) × (listing ≡ some ds)
        × IsValid m
        × Truthful m
        × All (Covers m) ds
        × ((name : Bytes) → lookup m name ≢ none → IsIn ds name)
  unfolding from_dir
  from_dir_sound none h = cc
  from_dir_sound (some ds) {m} h =
      let (m1, e, h') = >>=-ok (from_entries hash_file ds []) _ h in
      let r = from_entries-Hashed ds [] nil-IsValid (λ x d k. absurd (nil_lookup x d k)) e in
      let recorded : (name : Bytes) → lookup m1 name ≢ none → IsIn ds name = λ name k.
        elim (r.only name k) [
          | inl none_yet ↦ absurd (none_yet (nil_none name))
          | inr there ↦ there
        ] in
      let (valid, truthful, covers, only) =
        subst
          (λ x.
            IsValid x
            × Truthful x
            × All (Covers x) ds
            × ((name : Bytes) → lookup x name ≢ none → IsIn ds name))
          (some_files-ok m1 h') (r.valid, r.truthful, r.covers, recorded) in
      (ds, refl, valid, truthful, covers, only)
