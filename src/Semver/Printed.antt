-- ===== src/Semver/Printed.antt =====
-- internal/semver/semver.go: the bytes that `String` prints.
use release_me.Prelude.{
  ℕ, ◌≡◌, ◌≢◌, refl, subst, true, false, ◌||◌, List, [], ◌∷◌, ◌++◌, arith, all, All, All-append,
  is_empty, Bytes, Lacks, split, join, is_decimal, all-Lacks, join-All, join-split, format_uint,
  format_uint-is_decimal, is_digit,
}
use release_me.Semver.{
  Version, identifier_byte, valid_identifier, valid_pre, pre_suffix, build_suffix, core_string,
  to_string,
}

abbrev pub BuildOk : Bytes → Type 0
BuildOk build = (is_empty build || all valid_identifier (split b'.' build)) ≡ true

valid_identifier-Lacks :
    (x : ℕ) (s : Bytes) → identifier_byte x ≡ false → valid_identifier s ≡ true → Lacks x s
valid_identifier-Lacks x [] e h = tt
valid_identifier-Lacks x (c ∷ s) e h = all-Lacks identifier_byte x (c ∷ s) e h

is_decimal-Lacks : (x : ℕ) (s : Bytes) → is_digit x ≡ false → is_decimal s ≡ true → Lacks x s
is_decimal-Lacks x [] e h = tt
is_decimal-Lacks x (c ∷ s) e h = all-Lacks is_digit x (c ∷ s) e h

pub format_uint-Lacks : (x n : ℕ) → is_digit x ≡ false → Lacks x (format_uint n)
format_uint-Lacks x n e = is_decimal-Lacks x (format_uint n) e (format_uint-is_decimal n)

pub valid_pre-Lacks :
    (x : ℕ) (ids : List Bytes)
    → identifier_byte x ≡ false
    → all valid_pre ids ≡ true
    → All (Lacks x) ids
valid_pre-Lacks x [] e h = tt
valid_pre-Lacks x (id ∷ ids) e h =
    (valid_identifier-Lacks x id e (ground arith), valid_pre-Lacks x ids e (ground arith))

pub core_string-Lacks : (x a b c : ℕ) → is_digit x ≡ false → b'.' ≢ x → Lacks x (core_string a b c)
unfolding core_string
core_string-Lacks x a b c e ne =
    join-All (λ d. d ≢ x) b'.' _ ne
      (format_uint-Lacks x a e, (format_uint-Lacks x b e, (format_uint-Lacks x c e, tt)))

pub pre_suffix-Lacks :
    (x : ℕ) (ids : List Bytes)
    → identifier_byte x ≡ false
    → b'-' ≢ x
    → b'.' ≢ x
    → all valid_pre ids ≡ true
    → Lacks x (pre_suffix ids)
pre_suffix-Lacks x [] e dash dot h = tt
pre_suffix-Lacks x (id ∷ ids) e dash dot h =
    (dash, join-All (λ d. d ≢ x) b'.' (id ∷ ids) dot (valid_pre-Lacks x (id ∷ ids) e h))

identifiers-Lacks :
    (x : ℕ) (ids : List Bytes)
    → identifier_byte x ≡ false
    → all valid_identifier ids ≡ true
    → All (Lacks x) ids
identifiers-Lacks x [] e h = tt
identifiers-Lacks x (id ∷ ids) e h =
    (valid_identifier-Lacks x id e (ground arith), identifiers-Lacks x ids e (ground arith))

build_suffix-Lacks :
    (x : ℕ) (build : Bytes)
    → identifier_byte x ≡ false
    → b'+' ≢ x
    → b'.' ≢ x
    → BuildOk build
    → Lacks x (build_suffix build)
build_suffix-Lacks x [] e plus dot h = tt
build_suffix-Lacks x (c ∷ s) e plus dot h = (
  plus,
  subst (Lacks x) (join-split b'.' (c ∷ s)) (
      join-All (λ d. d ≢ x) b'.' (split b'.' (c ∷ s)) dot
        (identifiers-Lacks x (split b'.' (c ∷ s)) e h)),
)

-- A printed version has only identifier bytes and the signs between its parts.
pub to_string-Lacks :
    (x : ℕ) (v : Version)
    → (identifier_byte x ≡ false) × (is_digit x ≡ false)
    → (b'-' ≢ x) × (b'.' ≢ x) × (b'+' ≢ x)
    → all valid_pre v.pre ≡ true
    → BuildOk v.build
    → Lacks x (to_string v)
unfolding to_string
to_string-Lacks x v (e, digit) (dash, dot, plus) pre build =
    All-append (λ d. d ≢ x) (core_string v.major v.minor v.patch)
      (pre_suffix v.pre ++ build_suffix v.build)
      (core_string-Lacks x v.major v.minor v.patch digit dot)
      (All-append (λ d. d ≢ x) (pre_suffix v.pre) (build_suffix v.build)
        (pre_suffix-Lacks x v.pre e dash dot pre) (build_suffix-Lacks x v.build e plus dot build))

is_empty-append : (x y z : Bytes) → is_decimal x ≡ true → is_empty ((x ++ y) ++ z) ≡ false
is_empty-append [] y z h = cc
is_empty-append (c ∷ x) y z h = refl

pub is_empty-to_string : (v : Version) → is_empty (to_string v) ≡ false
unfolding to_string join
is_empty-to_string v = is_empty-append (format_uint v.major) _ _ (format_uint-is_decimal v.major)
