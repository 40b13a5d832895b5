-- ===== src/Manifest/Sorted.antt =====
-- `Add` on a sorted manifest is the insertion into an ordered association list.
use release_me.Prelude.{
  suc, ◌≡◌, refl, Option, none, some, List, [], ◌∷◌, ◌++◌, arith, if◌then◌else◌, length, All,
  All-map_of, Ordering-cases, inl, inr, get_elem?, Bytes, bytes_eq, bytes_eq_iff, bytes_compare,
  Ordering, bytes_compare_refl, bytes_compare-flip, bytes_compare_trans, bytes_compare_eq,
}
use release_me.Manifest.{Entry, digest_if, place_at, place, lookup}
use release_me.Manifest.Search.{NameLt, IsSorted, rank, search-rank}

-- The reference: an association list in ascending order of its keys.
unfoldable pub put : Bytes → Bytes → List Entry → List Entry
put name sum [] = record { name = name; sha256 = sum } ∷ []
put name sum (e ∷ es) =
    let rest = put name sum es in
    elim (bytes_compare e.name name) [
      | Ordering.lt ↦ e ∷ rest
      | Ordering.eq ↦ record e { sha256 = sum } ∷ es
      | Ordering.gt ↦ record { name = name; sha256 = sum } ∷ e ∷ es
    ]

unfoldable pub find : Bytes → List Entry → Option Bytes
find name [] = none
find name (e ∷ es) = if bytes_eq e.name name then some e.sha256 else find name es

place_at-rank :
    (name sum : Bytes) (es : List Entry) → place_at (rank name es) name sum es ≡ put name sum es
unfolding place_at put
place_at-rank name sum [] = refl
place_at-rank name sum (e ∷ es) = ground (
  arith,
  place_at-rank name sum es,
  bytes_eq_iff e.name name,
  bytes_compare_eq e.name name,
  bytes_compare_refl name,
)

-- On a sorted manifest, `Add` behind its checks, with its binary search, is the insertion into an
-- ordered association list.
pub place-put :
    (name sum : Bytes) (es : List Entry) → IsSorted es → place name sum es ≡ put name sum es
unfolding place
place-put name sum es s = rw (search-rank name es s) (place_at-rank name sum es)

pub All-NameLt :
    (x y : Bytes) (es : List Entry)
    → NameLt x y
    → All (λ d. NameLt y d.name) es
    → All (λ d. NameLt x d.name) es
All-NameLt x y es lt = All-map_of (λ d. bytes_compare_trans x y d.name lt) es

pub NameLt-of_gt : (x y : Bytes) → bytes_compare x y ≡ Ordering.gt → NameLt y x
NameLt-of_gt x y h = ground (arith, bytes_compare-flip x y)

pub find-none :
    (name : Bytes) (es : List Entry) → All (λ d. NameLt name d.name) es → find name es ≡ none
unfolding find
find-none name [] h = refl
find-none name (e ∷ es) (he, h) =
    ground (arith, find-none name es h, bytes_eq_iff e.name name, bytes_compare_refl name)

find-rank :
    (name : Bytes) (es : List Entry)
    → IsSorted es
    → digest_if name (get_elem? es (rank name es)) ≡ find name es
unfolding find
find-rank name [] s = refl
find-rank name (e ∷ es) (se, s) = elim (Ordering-cases (bytes_compare e.name name)) [
  | inl lt ↦ ground (arith, find-rank name es s, bytes_eq_iff e.name name, bytes_compare_refl name)
  | inr (inl same) ↦ ground (arith, bytes_eq_iff e.name name, bytes_compare_eq e.name name)
  | inr (inr gt) ↦
      let none_left =
        find-none name es (All-NameLt name e.name es (NameLt-of_gt e.name name gt) se) in
      ground (arith, none_left)
]

-- On a sorted manifest, `Lookup` with its binary search answers what a linear search answers.
pub lookup-find : (name : Bytes) (es : List Entry) → IsSorted es → lookup es name ≡ find name es
unfolding lookup
lookup-find name es s = rw (search-rank name es s) (find-rank name es s)

-- The three branches of an insertion at a head.
module _ (name sum : Bytes) (e : Entry) (es : List Entry) where
  put_lt : bytes_compare e.name name ≡ Ordering.lt → put name sum (e ∷ es) ≡ e ∷ put name sum es
  unfolding put
  put_lt h = ground arith

  put_eq :
      bytes_compare e.name name ≡ Ordering.eq
      → put name sum (e ∷ es) ≡ record { name = name; sha256 = sum } ∷ es
  unfolding put
  put_eq h = ground (arith, bytes_compare_eq e.name name h)

  put_gt :
      bytes_compare e.name name ≡ Ordering.gt
      → put name sum (e ∷ es) ≡ record { name = name; sha256 = sum } ∷ e ∷ es
  unfolding put
  put_gt h = ground arith

pub put-All :
    (P : Entry → Type 0) (name sum : Bytes) (es : List Entry)
    → P (record { name = name; sha256 = sum })
    → All P es
    → All P (put name sum es)
put-All P name sum [] p h = unfold put in (p, tt)
put-All P name sum (e ∷ es) p (he, h) = elim (Ordering-cases (bytes_compare e.name name)) [
  | inl lt ↦ rw (put_lt name sum e es lt) (he, put-All P name sum es p h)
  | inr (inl same) ↦ rw (put_eq name sum e es same) (p, h)
  | inr (inr gt) ↦ rw (put_gt name sum e es gt) (p, (he, h))
]

pub put-IsSorted : (name sum : Bytes) (es : List Entry) → IsSorted es → IsSorted (put name sum es)
put-IsSorted name sum [] s = unfold put in (tt, tt)
put-IsSorted name sum (e ∷ es) (se, s) = elim (Ordering-cases (bytes_compare e.name name)) [
  | inl lt ↦
      rw (put_lt name sum e es lt)
        (put-All (λ d. NameLt e.name d.name) name sum es lt se, put-IsSorted name sum es s)
  | inr (inl same) ↦ rw (put_eq name sum e es same, ← bytes_compare_eq e.name name same) (se, s)
  | inr (inr gt) ↦
      let below = NameLt-of_gt e.name name gt in
      rw (put_gt name sum e es gt) ((below, All-NameLt name e.name es below se), (se, s))
]

-- An entry is found after an insertion, and the others are found as before.
pub find-put :
    (name' name sum : Bytes) (es : List Entry)
    → IsSorted es
    → find name' (put name sum es) ≡ (if bytes_eq name name' then some sum else find name' es)
unfolding find put
find-put name' name sum [] s = refl
find-put name' name sum (e ∷ es) (se, s) = ground (
  arith,
  find-put name' name sum es s,
  bytes_eq_iff name name',
  bytes_eq_iff e.name name',
  bytes_compare_eq e.name name,
  bytes_compare_refl name,
)

-- A new name makes the manifest longer by one.
pub length-put :
    (name sum : Bytes) (es : List Entry)
    → find name es ≡ none
    → length (put name sum es) ≡ suc (length es)
unfolding put find
length-put name sum [] h = refl
length-put name sum (e ∷ es) h =
    ground (arith, length-put name sum es, bytes_eq_iff e.name name, bytes_compare_eq e.name name)

-- Insertion of a name above all others is an append.
pub put_last :
    (name sum : Bytes) (es : List Entry)
    → All (λ d. NameLt d.name name) es
    → put name sum es ≡ es ++ (record { name = name; sha256 = sum } ∷ [])
unfolding put
put_last name sum [] h = refl
put_last name sum (e ∷ es) (he, h) = ground (arith, put_last name sum es h)

pub find_above :
    (name : Bytes) (es : List Entry) → All (λ d. NameLt d.name name) es → find name es ≡ none
unfolding find
find_above name [] h = refl
find_above name (e ∷ es) (he, h) =
    ground (arith, find_above name es h, bytes_eq_iff e.name name, bytes_compare_refl name)
