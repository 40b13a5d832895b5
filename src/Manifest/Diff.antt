-- ===== src/Manifest/Diff.antt =====
-- `Diff` decides whether two manifests are the same.
use release_me.Prelude.{
  append-eq-nil, ◌≡◌, ◌≢◌, ◌↔◌, refl, sym, ap, ap₂, ◌∙◌, subst, Option, none, some, List, [], ◌∷◌,
  arith, if◌then◌else◌, All, All-map_of, Bytes, inl, inr, Ordering-cases, bytes_eq_iff,
  bytes_compare, bytes_compare_refl, bytes_compare_eq,
}
use release_me.Manifest.{
  Entry, Manifest, lookup, DiffError, diff, diff_of, missing_or_changed, unexpected_in, is_some,
}
use release_me.Manifest.Search.{IsSorted, NameLt}
use release_me.Manifest.Sorted.{find, find-none, lookup-find, All-NameLt, NameLt-of_gt}
use release_me.Manifest.Valid.{IsValid}

-- No entry of `es` is missing from `b` or changed there.
missing_or_changed-nil :
    (b es : Manifest) → missing_or_changed b es ≡ [] → All (λ e. lookup b e.name ≡ some e.sha256) es
unfolding missing_or_changed
missing_or_changed-nil b [] h = tt
missing_or_changed-nil b (e ∷ es) h =
    let (here, rest) = append-eq-nil (diff_of e (lookup b e.name)) _ h in
    (diff_of-nil e (lookup b e.name) here, missing_or_changed-nil b es rest)
  where
    diff_of-nil : (d : Entry) (o : Option Bytes) → diff_of d o ≡ [] → o ≡ some d.sha256
    diff_of-nil d none h = cc
    diff_of-nil d (some x) h = ground (arith, bytes_eq_iff x d.sha256)

unexpected_in-nil :
    (a es : Manifest) → unexpected_in a es ≡ [] → All (λ e. lookup a e.name ≢ none) es
unfolding unexpected_in
unexpected_in-nil a [] h = tt
unexpected_in-nil a (e ∷ es) h =
    let (here, rest) = append-eq-nil _ (unexpected_in a es) h in
    (present (lookup a e.name) _ here, unexpected_in-nil a es rest)
  where
    present :
        (o : Option Bytes) (x : DiffError) → (if is_some o then [] else x ∷ []) ≡ [] → o ≢ none
    present none x h = cc
    present (some d) x h = λ k. cc

-- Names above the head's are not the head's.
find-tail :
    (e : Entry) (es : List Entry) (name : Bytes)
    → NameLt e.name name
    → find name (e ∷ es) ≡ find name es
unfolding find
find-tail e es name lt = ground (arith, bytes_eq_iff e.name name, bytes_compare_refl name)

find-head : (e : Entry) (es : List Entry) → find e.name (e ∷ es) ≡ some e.sha256
unfolding find
find-head e es = ground (arith, bytes_eq_iff e.name e.name)

All-zip :
    {P Q R : Entry → Type 0} (f : (e : Entry) → P e → Q e → R e) (es : List Entry)
    → All P es
    → All Q es
    → All R es
All-zip f [] hp hq = tt
All-zip f (e ∷ es) (p, hp) (q, hq) = (f e p q, All-zip f es hp hq)

find_below :
    (name : Bytes) (d : Entry) (b : List Entry)
    → NameLt name d.name
    → IsSorted (d ∷ b)
    → find name (d ∷ b) ≡ none
find_below name d b lt (lb, _) = find-none name (d ∷ b) (lt, All-NameLt name d.name b lt lb)

Entry-path : (e d : Entry) → e.name ≡ d.name → e.sha256 ≡ d.sha256 → e ≡ d
Entry-path e d p q = λ i. record { name = p i; sha256 = q i }

-- Two sorted lists, each of whose entries the other has, are equal.
sorted_ext :
    (a b : List Entry)
    → IsSorted a
    → IsSorted b
    → All (λ e. find e.name b ≡ some e.sha256) a
    → All (λ e. find e.name a ≢ none) b
    → a ≡ b
sorted_ext [] [] sa sb ha hb = refl
sorted_ext [] (d ∷ b) sa sb ha (hd, hb) = absurd (hd (unfold find in refl))
sorted_ext (e ∷ a) [] sa sb (he, ha) hb = unfold find in cc
sorted_ext (e ∷ a) (d ∷ b) (la, sa) (lb, sb) (he, ha) (hd, hb) =
    elim (Ordering-cases (bytes_compare e.name d.name)) [
      | inl lt ↦ cc (find_below e.name d b lt (lb, sb), he)
      | inr (inl same) ↦
          let names = bytes_compare_eq e.name d.name same in
          let digests : e.sha256 ≡ d.sha256 =
            cc (find-head d b, he, ap (λ x. find x (d ∷ b)) names) in
          let ha' =
            All-zip {R = λ x. find x.name b ≡ some x.sha256}
              (λ x (lt : NameLt e.name x.name) (h : find x.name (d ∷ b) ≡ some x.sha256).
                sym (find-tail d b x.name (subst (λ y. NameLt y x.name) names lt)) ∙ h)
              a la ha in
          let hb' =
            All-zip {R = λ x. find x.name a ≢ none}
              (λ x (lt : NameLt d.name x.name) (h : find x.name (e ∷ a) ≢ none) k.
                h (find-tail e a x.name (subst (λ y. NameLt y x.name) (sym names) lt) ∙ k))
              b lb hb in
          ap₂ ◌∷◌ (Entry-path e d names digests) (sorted_ext a b sa sb ha' hb')
      | inr (inr gt) ↦ absurd (hd (find_below d.name e a (NameLt-of_gt e.name d.name gt) (la, sa)))
    ]

-- `lookup` and `find` agree on the whole of a list.
module _ (m es : List Entry) (s : IsSorted m) where
  recorded_found :
      All (λ e. lookup m e.name ≡ some e.sha256) es → All (λ e. find e.name m ≡ some e.sha256) es
  recorded_found = All-map_of (λ e h. sym (lookup-find e.name m s) ∙ h) es

  present_found : All (λ e. lookup m e.name ≢ none) es → All (λ e. find e.name m ≢ none) es
  present_found = All-map_of (λ e h k. h (lookup-find e.name m s ∙ k)) es

-- Every entry of a sorted list is found in it.
find-All : (es : List Entry) → IsSorted es → All (λ e. find e.name es ≡ some e.sha256) es
find-All [] s = tt
find-All (e ∷ es) (le, s) = (
  find-head e es,
  All-zip
      (λ x (lt : NameLt e.name x.name) (h : find x.name es ≡ some x.sha256).
        find-tail e es x.name lt ∙ h)
      es le (find-All es s),
)

missing_or_changed_self :
    (b es : List Entry)
    → All (λ e. lookup b e.name ≡ some e.sha256) es
    → missing_or_changed b es ≡ []
unfolding missing_or_changed
missing_or_changed_self b [] h = refl
missing_or_changed_self b (e ∷ es) (he, h) =
    rw (he, missing_or_changed_self b es h, (bytes_eq_iff e.sha256 e.sha256).1 refl)

unexpected_in_self :
    (a es : List Entry) → All (λ e. lookup a e.name ≡ some e.sha256) es → unexpected_in a es ≡ []
unfolding unexpected_in
unexpected_in_self a [] h = refl
unexpected_in_self a (e ∷ es) (he, h) = rw (he, unexpected_in_self a es h)

-- For two valid manifests, `Diff` reports nothing exactly when they are equal.
pub diff-nil : (a b : Manifest) → IsValid a → IsValid b → (diff a b ≡ []) ↔ (a ≡ b)
diff-nil a b va vb = (no_difference, same)
  where
    no_difference : diff a b ≡ [] → a ≡ b
    no_difference h =
        let parts : (missing_or_changed b a ≡ []) × (unexpected_in a b ≡ []) =
          append-eq-nil _ _ (unfold diff in h) in
        sorted_ext a b va.sorted vb.sorted
          (recorded_found b a vb.sorted (missing_or_changed-nil b a parts.0))
          (present_found a b va.sorted (unexpected_in-nil a b parts.1))

    same : a ≡ b → diff a b ≡ []
    same e =
        let found =
          All-map_of (λ x h. lookup-find x.name a va.sorted ∙ h) a (find-All a va.sorted) in
        subst (λ x. diff a x ≡ []) e
          (unfold diff in rw (missing_or_changed_self a a found, unexpected_in_self a a found))
