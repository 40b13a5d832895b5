-- ===== src/Semver/Order.antt =====
-- `Compare` of internal/semver/semver.go is the precedence of the specification's item 11, a total
-- order up to build metadata.
use release_me.Prelude.{
  ℕ, ◌+◌, suc, ◌≡◌, ◌↔◌, refl, sym, ◌∙◌, not, List, [], ◌∷◌, arith, length, Bytes, Ordering, flip,
  bytes_compare_refl, bytes_compare_eq, bytes_compare-flip, bytes_compare_trans, if◌then◌else◌,
  ◌==◌,
}
use native.Mathlib.Nat.{zero-add}
use release_me.Semver.{Version, cmp_u, cmp_identifier, cmp_pre, compare_pre, compare_version}

module _ (x y : Bytes) where
  cmp_identifier-flip : cmp_identifier y x ≡ flip (cmp_identifier x y)
  unfolding cmp_identifier
  cmp_identifier-flip = ground (arith, bytes_compare-flip x y)

  pub cmp_identifier_eq : cmp_identifier x y ≡ Ordering.eq → x ≡ y
  unfolding cmp_identifier
  cmp_identifier_eq h = ground (arith, bytes_compare_eq x y)

cmp_identifier_refl : (x : Bytes) → cmp_identifier x x ≡ Ordering.eq
unfolding cmp_identifier
cmp_identifier_refl x = ground (arith, bytes_compare_refl x)

cmp_identifier_trans :
    (x y z : Bytes)
    → cmp_identifier x y ≡ Ordering.lt
    → cmp_identifier y z ≡ Ordering.lt
    → cmp_identifier x z ≡ Ordering.lt
unfolding cmp_identifier
cmp_identifier_trans x y z h k = ground (arith, bytes_compare_trans x y z)

-- Item 11.4 of the specification on lists of identifiers: the first difference decides, and where
-- one list is a prefix of the other the longer one is greater.
pub precedence : List Bytes → List Bytes → Ordering
precedence [] [] = Ordering.eq
precedence [] (y ∷ ys) = Ordering.lt
precedence (x ∷ xs) [] = Ordering.gt
precedence (x ∷ xs) (y ∷ ys) =
    let rest = precedence xs ys in elim (cmp_identifier x y) [ Ordering.eq ↦ rest | c ↦ c ]

-- The loop of `Compare`, from any point of the two lists on.
cmp_pre-precedence :
    (i : ℕ) (xs ys : List Bytes) → cmp_pre (i + length xs) (i + length ys) xs ys ≡ precedence xs ys
unfolding cmp_pre precedence
cmp_pre-precedence i [] [] = ground arith
cmp_pre-precedence i [] (y ∷ ys) = ground arith
cmp_pre-precedence i (x ∷ xs) [] = ground arith
cmp_pre-precedence i (x ∷ xs) (y ∷ ys) =
    let left : i + length (x ∷ xs) ≡ suc i + length xs = omega arith in
    let right : i + length (y ∷ ys) ≡ suc i + length ys = omega arith in
    let step : cmp_pre (i + length (x ∷ xs)) (i + length (y ∷ ys)) xs ys ≡ precedence xs ys =
      rw (left, right) (cmp_pre-precedence (suc i) xs ys) in
    ground (arith, step)

precedence-flip : (xs ys : List Bytes) → precedence ys xs ≡ flip (precedence xs ys)
unfolding precedence
precedence-flip [] [] = refl
precedence-flip [] (y ∷ ys) = refl
precedence-flip (x ∷ xs) [] = refl
precedence-flip (x ∷ xs) (y ∷ ys) = ground (arith, cmp_identifier-flip x y, precedence-flip xs ys)

precedence_refl : (xs : List Bytes) → precedence xs xs ≡ Ordering.eq
unfolding precedence
precedence_refl [] = refl
precedence_refl (x ∷ xs) = ground (arith, cmp_identifier_refl x, precedence_refl xs)

precedence_eq : (xs ys : List Bytes) → precedence xs ys ≡ Ordering.eq → xs ≡ ys
unfolding precedence
precedence_eq [] [] h = refl
precedence_eq [] (y ∷ ys) h = cc
precedence_eq (x ∷ xs) [] h = cc
precedence_eq (x ∷ xs) (y ∷ ys) h = ground (arith, cmp_identifier_eq x y, precedence_eq xs ys)

precedence_trans :
    (xs ys zs : List Bytes)
    → precedence xs ys ≡ Ordering.lt
    → precedence ys zs ≡ Ordering.lt
    → precedence xs zs ≡ Ordering.lt
unfolding precedence
precedence_trans [] [] zs h k = cc
precedence_trans [] (y ∷ ys) [] h k = cc
precedence_trans [] (y ∷ ys) (z ∷ zs) h k = refl
precedence_trans (x ∷ xs) [] zs h k = cc
precedence_trans (x ∷ xs) (y ∷ ys) [] h k = cc
precedence_trans (x ∷ xs) (y ∷ ys) (z ∷ zs) h k = ground (
  arith,
  cmp_identifier_trans x y z,
  cmp_identifier_eq x y,
  cmp_identifier_eq y z,
  cmp_identifier_refl x,
  precedence_trans xs ys zs,
)

-- On two pre-release lists that are not empty, the loop of `Compare` with the comparison of the
-- lengths behind it is the lexicographic precedence, in which the first difference decides and a
-- proper prefix is lower.
pub compare_pre-precedence :
    (x y : Bytes) (xs ys : List Bytes)
    → compare_pre (x ∷ xs) (y ∷ ys) ≡ precedence (x ∷ xs) (y ∷ ys)
unfolding compare_pre
compare_pre-precedence x y xs ys =
    rw (zero-add (length (x ∷ xs)), zero-add (length (y ∷ ys))) at
      (cmp_pre-precedence 0 (x ∷ xs) (y ∷ ys))

compare_pre-flip : (xs ys : List Bytes) → compare_pre ys xs ≡ flip (compare_pre xs ys)
compare_pre-flip [] [] = unfold compare_pre in refl
compare_pre-flip [] (y ∷ ys) = unfold compare_pre in refl
compare_pre-flip (x ∷ xs) [] = unfold compare_pre in refl
compare_pre-flip (x ∷ xs) (y ∷ ys) =
    rw (compare_pre-precedence x y xs ys, compare_pre-precedence y x ys xs)
      (precedence-flip (x ∷ xs) (y ∷ ys))

compare_pre_refl : (xs : List Bytes) → compare_pre xs xs ≡ Ordering.eq
compare_pre_refl [] = unfold compare_pre in refl
compare_pre_refl (x ∷ xs) = compare_pre-precedence x x xs xs ∙ precedence_refl (x ∷ xs)

compare_pre_eq : (xs ys : List Bytes) → compare_pre xs ys ≡ Ordering.eq → xs ≡ ys
compare_pre_eq [] [] h = refl
compare_pre_eq [] (y ∷ ys) h = unfold compare_pre in cc
compare_pre_eq (x ∷ xs) [] h = unfold compare_pre in cc
compare_pre_eq (x ∷ xs) (y ∷ ys) h =
    precedence_eq (x ∷ xs) (y ∷ ys) (sym (compare_pre-precedence x y xs ys) ∙ h)

compare_pre_trans :
    (xs ys zs : List Bytes)
    → compare_pre xs ys ≡ Ordering.lt
    → compare_pre ys zs ≡ Ordering.lt
    → compare_pre xs zs ≡ Ordering.lt
compare_pre_trans [] [] zs h k = k
compare_pre_trans [] (y ∷ ys) zs h k = unfold compare_pre in cc
compare_pre_trans (x ∷ xs) ys [] h k = unfold compare_pre in refl
compare_pre_trans (x ∷ xs) [] (z ∷ zs) h k = unfold compare_pre in cc
compare_pre_trans (x ∷ xs) (y ∷ ys) (z ∷ zs) h k =
    compare_pre-precedence x z xs zs
    ∙ precedence_trans (x ∷ xs) (y ∷ ys) (z ∷ zs) (sym (compare_pre-precedence x y xs ys) ∙ h)
        (sym (compare_pre-precedence y z ys zs) ∙ k)

-- `Compare` with its arguments swapped answers the opposite sign.
pub compare_version-flip : (a b : Version) → compare_version b a ≡ flip (compare_version a b)
unfolding compare_version
compare_version-flip a b = ground (arith, compare_pre-flip a.pre b.pre)

-- `Compare` answers 0 exactly for versions that have the same numbers and the same pre-release
-- identifiers.
pub compare_version_eq :
    (a b : Version)
    → (compare_version a b ≡ Ordering.eq)
      ↔ ((a.major ≡ b.major) × (a.minor ≡ b.minor) × (a.patch ≡ b.patch) × (a.pre ≡ b.pre))
unfolding compare_version
compare_version_eq a b = ground (arith, compare_pre_eq a.pre b.pre, compare_pre_refl a.pre)

-- One numeric field decides unless it is equal.
abbrev field_first : ℕ → ℕ → Ordering → Ordering
field_first a b rest = if not (a == b) then cmp_u a b else rest

field_first_trans :
    (a b c : ℕ) (r s t : Ordering)
    → field_first a b r ≡ Ordering.lt
    → field_first b c s ≡ Ordering.lt
    → (r ≡ Ordering.lt → s ≡ Ordering.lt → t ≡ Ordering.lt)
    → field_first a c t ≡ Ordering.lt
field_first_trans a b c r s t h k f = ground arith

-- The order of `Compare` is transitive: if a is below b and b is below c, then a is below c.
pub compare_version_trans :
    (a b c : Version)
    → compare_version a b ≡ Ordering.lt
    → compare_version b c ≡ Ordering.lt
    → compare_version a c ≡ Ordering.lt
unfolding compare_version
compare_version_trans a b c h k = field_first_trans a.major b.major c.major _ _ _ h k λ h1 k1.
    field_first_trans a.minor b.minor c.minor _ _ _ h1 k1 λ h2 k2.
      field_first_trans a.patch b.patch c.patch _ _ _ h2 k2
        λ h3 k3. compare_pre_trans a.pre b.pre c.pre h3 k3
