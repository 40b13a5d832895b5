-- ===== src/Publish/Compared.antt =====
-- `compare` finds no error only if the stored assets are exactly the local files.
use release_me.Prelude.{
  append-eq-nil, ◌≡◌, ◌≢◌, ◌⊎◌, inl, inr, refl, sym, ap, ◌∙◌, Bool, true, false, List, [], ◌∷◌,
  ◌++◌, append_assoc, append-nil, All, All-map_of, arith, if◌then◌else◌, Bytes, bytes_eq,
  bytes_eq_iff, is_empty, Result, ok, err, Bool-cases, ok-injective,
}
use release_me.Host.{Release, Asset, Event, unsettles}
use release_me.Publish.Types.{Env, State, LocalAsset, CheckError, CompareError}
use release_me.Publish.Exec.{pure, bind-ok}
use release_me.Publish.Check.{
  Groups, add_to, group_from, by_name, group_of, delete_group, group_names, errors_of,
  compare_group, unexpected_names, compare_from, compare_assets, check,
}
use release_me.Publish.Log.{Fetched, Memo, Grows, Grows-Fetched, Quiet, Quiet-pure, Quiet-bind}
use release_me.Publish.Checked.{Described, check-Quiet, check_sound}

-- The stored assets of a name, in order.
pub named : Bytes → List Asset → List Asset
named name [] = []
named name (a ∷ as_) = if bytes_eq a.name name then a ∷ named name as_ else named name as_

named_head : (s : Asset) (rest : List Asset) → named s.name (s ∷ rest) ≢ []
unfolding named
named_head s rest h = ground (arith, bytes_eq_iff s.name s.name)

named_tail :
    (name : Bytes) (s : Asset) (rest : List Asset)
    → named name rest ≢ []
    → named name (s ∷ rest) ≢ []
unfolding named
named_tail name s rest k h = ground arith

group_of-add_to :
    (name : Bytes) (a : Asset) (gs : Groups)
    → group_of name (add_to a gs)
      ≡ (if bytes_eq a.name name then group_of name gs ++ (a ∷ []) else group_of name gs)
unfolding group_of add_to
group_of-add_to name a [] = refl
group_of-add_to name a ((n, g) ∷ gs) = ground (
  arith,
  group_of-add_to name a gs,
  bytes_eq_iff n a.name,
  bytes_eq_iff n name,
  bytes_eq_iff a.name name,
)

group_of-group_from :
    (name : Bytes) (stored : List Asset) (gs : Groups)
    → group_of name (group_from stored gs) ≡ group_of name gs ++ named name stored
unfolding group_from named
group_of-group_from name [] gs = sym (append-nil (group_of name gs))
group_of-group_from name (a ∷ as_) gs = ground (
  arith,
  group_of-group_from name as_ (add_to a gs),
  group_of-add_to name a gs,
  append_assoc (group_of name gs) (a ∷ []) (named name as_),
)

-- The map of the code holds the stored assets by their names.
pub group_of-by_name :
    (name : Bytes) (stored : List Asset) → group_of name (by_name stored) ≡ named name stored
unfolding by_name
group_of-by_name name stored = group_of-group_from name stored [] ∙ unfold group_of in refl

group_of-delete_group :
    (name other : Bytes) (gs : Groups)
    → group_of name (delete_group other gs) ≡ (if bytes_eq other name then [] else group_of name gs)
unfolding group_of delete_group
group_of-delete_group name other [] = ground arith
group_of-delete_group name other ((n, g) ∷ gs) = ground (
  arith,
  group_of-delete_group name other gs,
  bytes_eq_iff n other,
  bytes_eq_iff n name,
  bytes_eq_iff other name,
)

module _ {W : Type 0} (env : Env W) (rel : Release) (download : Bool) where
  compare_group-Quiet :
      (a : LocalAsset) (g : List Asset) → Quiet env unsettles (compare_group env rel a download g)
  unfolding compare_group
  compare_group-Quiet a [] = Quiet-pure env _
  compare_group-Quiet a (s ∷ []) =
      Quiet-bind env _ _ (check-Quiet env rel s a download)
        (λ r. Quiet-pure env (errors_of a.name r))
  compare_group-Quiet a (s ∷ t ∷ g) = Quiet-pure env _

  compare_from-Quiet :
      (as_ : List LocalAsset) (gs : Groups) (errs : List CompareError)
      → Quiet env unsettles (compare_from env rel download as_ gs errs)
  unfolding compare_from
  compare_from-Quiet [] gs errs = Quiet-pure env _
  compare_from-Quiet (a ∷ as_) gs errs =
      Quiet-bind env _ _ (compare_group-Quiet a (group_of a.name gs))
        (λ es. compare_from-Quiet as_ (delete_group a.name gs) (errs ++ es))

  -- `compare` only reads.
  pub compare_assets-Quiet :
      (stored : List Asset) (as_ : List LocalAsset)
      → Quiet env unsettles (compare_assets env rel stored as_ download)
  unfolding compare_assets
  compare_assets-Quiet stored as_ = compare_from-Quiet as_ (by_name stored) []

  -- The stored asset is the local file: as the platform describes it, and by its bytes where it is
  -- downloaded.
  abbrev pub IsFile : List Event → LocalAsset → Asset → Type 0
  IsFile log a s =
      Described s a
      × (((download ≡ false) × (is_empty s.digest ≡ false)) ⊎ Fetched env s.id a.sha256 log)

  -- One stored asset has the name, and it is the local file.
  abbrev StoredIn : Groups → List Event → LocalAsset → Type 0
  StoredIn gs log a = (s : Asset) × (group_of a.name gs ≡ s ∷ []) × IsFile log a s

  compare_group_sound :
      (a : LocalAsset) (g : List Asset) (s : State W)
      → Memo env s
      → a.sha256 ≢ []
      → (compare_group env rel a download g s).0 ≡ ok []
      → (x : Asset) × (g ≡ x ∷ []) × IsFile (compare_group env rel a download g s).1.log a x
  unfolding compare_group pure
  compare_group_sound a [] s m ne h = cc
  compare_group_sound a (x ∷ []) s m ne h =
      let (r, er, eq) = bind-ok (check env rel x a download) (λ r. pure (errors_of a.name r)) s h in
      let passed : r ≡ ok tt = errors_of-nil r (ok-injective (rw eq at h)) in
      let (d, f) = check_sound env rel x a download s m ne (er ∙ ap ok passed) in
      rw eq (x, refl, (d, f))
    where
      errors_of-nil : (q : Result CheckError (Unit {0})) → errors_of a.name q ≡ [] → q ≡ ok tt
      errors_of-nil (ok _) k = refl
      errors_of-nil (err e) k = cc
  compare_group_sound a (x ∷ y ∷ g) s m ne h = cc

  StoredIn-later :
      (gs : Groups) {s t : State W} (a : LocalAsset)
      → Grows env unsettles s t
      → StoredIn gs s.log a
      → StoredIn gs t.log a
  StoredIn-later gs a g (x, e, (d, inl trusted)) = (x, e, (d, inl trusted))
  StoredIn-later gs a g (x, e, (d, inr f)) =
      (x, e, (d, inr (Grows-Fetched env unsettles x.id a.sha256 g f)))

  -- A group that is left behind a deletion was there before.
  StoredIn-before :
      (name : Bytes) (gs : Groups) (log : List Event) (a : LocalAsset)
      → StoredIn (delete_group name gs) log a
      → StoredIn gs log a
  StoredIn-before name gs log a (x, e, i) = (x, present (Bool-cases (bytes_eq name a.name)), i)
    where
      present :
          (bytes_eq name a.name ≡ true) ⊎ (bytes_eq name a.name ≡ false)
          → group_of a.name gs ≡ x ∷ []
      present (inl same) = cc (rw same at (group_of-delete_group a.name name gs), e)
      present (inr other) = sym (rw other at (group_of-delete_group a.name name gs)) ∙ e

  -- the map behind the loop over the local assets
  abbrev left_over : List LocalAsset → Groups → Groups
  left_over [] gs = gs
  left_over (a ∷ as_) gs = left_over as_ (delete_group a.name gs)

  record LoopSound (as_ : List LocalAsset) (gs : Groups) (errs : List CompareError)
      (log : List Event) : Type 0 where
    no_error : errs ≡ []
    stored_in : All (StoredIn gs log) as_
    nothing_left : left_over as_ gs ≡ []

  compare_from_sound :
      (as_ : List LocalAsset) (gs : Groups) (errs : List CompareError) (s : State W)
      → Memo env s
      → All (λ a. a.sha256 ≢ []) as_
      → (compare_from env rel download as_ gs errs s).0 ≡ ok []
      → LoopSound as_ gs errs (compare_from env rel download as_ gs errs s).1.log
  unfolding compare_from
  compare_from_sound [] gs errs s m ne h =
      let parts =
        append-eq-nil errs (unexpected_names (group_names gs)) (unfold pure in ok-injective h) in
      record { no_error = parts.0; stored_in = tt; nothing_left = no_names gs parts.1 }
    where
      no_names : (g : Groups) → unexpected_names (group_names g) ≡ [] → g ≡ []
      no_names [] k = refl
      no_names (x ∷ g) k = unfold unexpected_names group_names in cc
  compare_from_sound (a ∷ as_) gs errs s m (na, ne) h =
      let (es, e, eq) = bind-ok (compare_group env rel a download (group_of a.name gs)) _ s h in
      let s1 : State W = (compare_group env rel a download (group_of a.name gs) s).1 in
      let m1 = ((compare_group-Quiet a (group_of a.name gs)).at s).memo m in
      let r = compare_from_sound as_ (delete_group a.name gs) (errs ++ es) s1 m1 ne (rw eq at h) in
      let (none_before, none_here) = append-eq-nil errs es r.no_error in
      let here = compare_group_sound a (group_of a.name gs) s m na (e ∙ ap ok none_here) in
      let later = (compare_from-Quiet as_ (delete_group a.name gs) (errs ++ es)).at s1 in
      rw eq (record {
        no_error = none_before;
        stored_in = (
          StoredIn-later gs a later here,
          All-map_of (StoredIn-before a.name gs _) as_ r.stored_in,
        );
        nothing_left = r.nothing_left;
      })

  -- What is not the name of a local file is left over.
  group_of-left_over :
      (name : Bytes) (as_ : List LocalAsset) (gs : Groups)
      → All (λ a. a.name ≢ name) as_
      → group_of name (left_over as_ gs) ≡ group_of name gs
  group_of-left_over name [] gs h = refl
  group_of-left_over name (a ∷ as_) gs (ha, h) =
      group_of-left_over name as_ (delete_group a.name gs) h
      ∙ group_of-delete_group name a.name gs
      ∙ other (Bool-cases (bytes_eq a.name name))
    where
      other :
          (bytes_eq a.name name ≡ true) ⊎ (bytes_eq a.name name ≡ false)
          → (if bytes_eq a.name name then [] else group_of name gs) ≡ group_of name gs
      other (inl same) = absurd (ha ((bytes_eq_iff a.name name).0 same))
      other (inr differs) = rw differs

  -- The stored assets are the local files, and no others: each local file is stored once under its
  -- name, and each stored asset has the name of a local file.
  pub record Exact (stored : List Asset) (as_ : List LocalAsset) (log : List Event) : Type 0 where
    pub each_stored : All (λ a. (s : Asset) × (named a.name stored ≡ s ∷ []) × IsFile log a s) as_
    pub none_else : All (λ s. ¬ All (λ a. a.name ≢ s.name) as_) stored

  none_else_of :
      (stored rest : List Asset) (as_ : List LocalAsset)
      → left_over as_ (by_name stored) ≡ []
      → ((name : Bytes) → named name rest ≢ [] → named name stored ≢ [])
      → All (λ s. ¬ All (λ a. a.name ≢ s.name) as_) rest
  none_else_of stored [] as_ e up = tt
  none_else_of stored (s ∷ rest) as_ e up = (
    λ unnamed. up s.name (named_head s rest) (
        sym (group_of-by_name s.name stored)
        ∙ sym (group_of-left_over s.name as_ (by_name stored) unnamed)
        ∙ ap (group_of s.name) e
        ∙ unfold group_of in refl),
    none_else_of stored rest as_ e (λ name k. up name (named_tail name s rest k)),
  )

  -- If `compare` finds no error, every local asset has a digest and the memo is backed by
  -- downloads, then the stored assets are exactly the local ones: under the name of each local
  -- asset one asset is stored, which is described as the local file and was downloaded and hashed
  -- in this run (or, without the download option, has a matching platform digest), and every
  -- stored asset has the name of a local one.
  pub compare_assets_sound :
      (stored : List Asset) (as_ : List LocalAsset) (s : State W)
      → Memo env s
      → All (λ a. a.sha256 ≢ []) as_
      → (compare_assets env rel stored as_ download s).0 ≡ ok []
      → Exact stored as_ (compare_assets env rel stored as_ download s).1.log
  unfolding compare_assets
  compare_assets_sound stored as_ s m ne h =
      let r = compare_from_sound as_ (by_name stored) [] s m ne h in
      record {
        each_stored =
            All-map_of (λ a (x, e, i). (x, sym (group_of-by_name a.name stored) ∙ e, i)) as_
              r.stored_in;
        none_else = none_else_of stored stored as_ r.nothing_left (λ name k. k);
      }
