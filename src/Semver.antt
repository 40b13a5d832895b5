-- ===== src/Semver.antt =====
-- internal/semver/semver.go: Semantic Versioning 2.0.0. The child modules prove the round trips
-- (RoundTrip, Printed) and the order (Order).
pub mod RoundTrip
pub mod Printed
pub mod Order
pub mod Numeric
use release_me.Prelude.{
  ℕ, ◌<◌, ◌≡◌, refl, Bool, true, false, not, ◌&&◌, ◌||◌, Option, none, some, List, [], ◌∷◌, ◌++◌,
  Ordering, arith, ltb, leb, ◌==◌, if◌then◌else◌, all, is_empty, length, Bytes, codes, cut_byte,
  split, join, bytes_compare, Result, ok, err, ◌>>=◌, ◌>>◌, reject_if, is_digit, is_decimal,
  has_leading_zero, parse_uint, format_uint,
}

-- `Pre` is nil for a normal release; `Build` has no leading '+'.
pub record Version : Type 0 where
  pub major : ℕ
  pub minor : ℕ
  pub patch : ℕ
  pub pre : List Bytes
  pub build : Bytes

-- One constructor for each error that `Parse` and `ParseTag` return, with the quoted part.
pub data SemverError : Type 0 where
  empty_build : SemverError
  build_identifier : Bytes → SemverError
  empty_pre : SemverError
  pre_identifier : Bytes → SemverError
  expected_core : SemverError
  numeric_field : Bytes → SemverError
  out_of_range : Bytes → SemverError
  no_v_prefix : SemverError

-- `isNumeric`
abbrev pub is_numeric : Bytes → Bool
is_numeric s = is_decimal s

abbrev pub identifier_byte : ℕ → Bool
identifier_byte c =
    leb b'0' c && leb c b'9' || leb b'A' c && leb c b'Z' || leb b'a' c && leb c b'z' || c == b'-'

-- `validIdentifier`
abbrev pub valid_identifier : Bytes → Bool
valid_identifier [] = false
valid_identifier (c ∷ s) = all identifier_byte (c ∷ s)

-- the test of the pre-release loop
abbrev pub valid_pre : Bytes → Bool
valid_pre id = not (not (valid_identifier id) || is_numeric id && has_leading_zero id)

check_build : List Bytes → Result SemverError (Unit {0})
check_build [] = ok tt
check_build (id ∷ ids) = do
  reject_if (not (valid_identifier id)) (build_identifier id)
  check_build ids

-- The first block of `Parse`: the build metadata, and what stands before the '+'.
abbrev build_cut : Bytes → Option (Bytes × Bytes) → Result SemverError (Bytes × Bytes)
build_cut s none = ok (s, [])
build_cut s (some (rest, build)) = do
  reject_if (is_empty build) empty_build
  check_build (split b'.' build)
  ok (rest, build)

parse_build : Bytes → Result SemverError (Bytes × Bytes)
parse_build s = build_cut s (cut_byte b'+' s)

-- The loop that appends to `v.Pre`.
collect_pre : List Bytes → List Bytes → Result SemverError (List Bytes)
collect_pre [] pre = ok pre
collect_pre (id ∷ ids) pre = do
  reject_if (not (valid_pre id)) (pre_identifier id)
  collect_pre ids (pre ++ (id ∷ []))

-- The second block: the pre-release identifiers, and the core before the '-'.
abbrev pre_cut : Bytes → Option (Bytes × Bytes) → Result SemverError (Bytes × List Bytes)
pre_cut rest none = ok (rest, [])
pre_cut rest (some (core, pre)) = do
  reject_if (is_empty pre) empty_pre
  ids ← collect_pre (split b'.' pre) []
  ok (core, ids)

parse_pre : Bytes → Result SemverError (Bytes × List Bytes)
parse_pre rest = pre_cut rest (cut_byte b'-' rest)

abbrev uint_or : Bytes → Option ℕ → Result SemverError ℕ
uint_or p none = err (out_of_range p)
uint_or p (some n) = ok n

-- One round of the loop over the three parts.
parse_field : Bytes → Result SemverError ℕ
parse_field p = do
  reject_if (not (is_numeric p) || has_leading_zero p) (numeric_field p)
  uint_or p (parse_uint p)

parse_core : List Bytes → Result SemverError (ℕ × ℕ × ℕ)
parse_core (a ∷ b ∷ c ∷ []) = do
  major ← parse_field a
  minor ← parse_field b
  patch ← parse_field c
  ok (major, minor, patch)
parse_core _ = err expected_core

unfoldable pub parse : Bytes → Result SemverError Version
unfolding parse_build check_build parse_pre collect_pre parse_core parse_field
parse s = do
  (rest, build) ← parse_build s
  (core, pre) ← parse_pre rest
  (major, minor, patch) ← parse_core (split b'.' core)
  ok (record { major = major; minor = minor; patch = patch; pre = pre; build = build })

-- `ParseTag`
unfoldable pub parse_tag : Bytes → Result SemverError Version
unfolding parse
parse_tag [] = err no_v_prefix
parse_tag (c ∷ s) = if c == b'v' then parse s else err no_v_prefix

abbrev pub pre_suffix : List Bytes → Bytes
pre_suffix [] = []
pre_suffix (id ∷ ids) = b'-' ∷ join b'.' (id ∷ ids)

abbrev pub build_suffix : Bytes → Bytes
build_suffix [] = []
build_suffix (c ∷ s) = b'+' ∷ c ∷ s

-- `%d.%d.%d`
pub core_string : ℕ → ℕ → ℕ → Bytes
core_string major minor patch =
    join b'.' (format_uint major ∷ format_uint minor ∷ format_uint patch ∷ [])

-- `String`
unfoldable pub to_string : Version → Bytes
unfolding core_string
to_string v = core_string v.major v.minor v.patch ++ (pre_suffix v.pre ++ build_suffix v.build)

-- `IsPrerelease`
abbrev pub is_prerelease : Version → Bool
is_prerelease v = not (is_empty v.pre)

-- `cmpU`
abbrev pub cmp_u : ℕ → ℕ → Ordering
cmp_u a b = if ltb a b then Ordering.lt else if ltb b a then Ordering.gt else Ordering.eq

-- `cmpIdentifier`
abbrev pub cmp_numeric : Bytes → Bytes → Ordering
cmp_numeric x y = if length x == length y then bytes_compare x y else cmp_u (length x) (length y)

unfoldable pub cmp_identifier : Bytes → Bytes → Ordering
cmp_identifier x y =
    if is_numeric x
    then if is_numeric y then cmp_numeric x y else Ordering.lt
    else if is_numeric y
    then Ordering.gt
    else bytes_compare x y

-- The loop over both lists, and the comparison of their lengths behind it: `m` and `n` are the
-- numbers of identifiers of the whole lists.
pub cmp_pre : ℕ → ℕ → List Bytes → List Bytes → Ordering
cmp_pre m n (x ∷ xs) (y ∷ ys) =
    let rest = cmp_pre m n xs ys in elim (cmp_identifier x y) [ Ordering.eq ↦ rest | c ↦ c ]
cmp_pre m n _ _ = cmp_u m n

-- the second switch of `Compare`, and the loop
pub compare_pre : List Bytes → List Bytes → Ordering
compare_pre [] [] = Ordering.eq
compare_pre [] (y ∷ ys) = Ordering.gt
compare_pre (x ∷ xs) [] = Ordering.lt
compare_pre (x ∷ xs) (y ∷ ys) = cmp_pre (length (x ∷ xs)) (length (y ∷ ys)) (x ∷ xs) (y ∷ ys)

-- `Compare`
unfoldable pub compare_version : Version → Version → Ordering
unfolding cmp_pre compare_pre cmp_identifier
compare_version a b =
    if not (a.major == b.major)
    then cmp_u a.major b.major
    else if not (a.minor == b.minor)
    then cmp_u a.minor b.minor
    else if not (a.patch == b.patch)
    then cmp_u a.patch b.patch
    else compare_pre a.pre b.pre
