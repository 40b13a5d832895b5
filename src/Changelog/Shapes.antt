-- ===== src/Changelog/Shapes.antt =====
-- internal/changelog/changelog.go: the regular expressions, as tests of a line, and the date that
-- `Release` prints.
use release_me.Prelude.{
  ℕ, zero, suc, ◌-◌, Bool, true, false, not, ◌&&◌, ◌||◌, Option, none, some, List, [], ◌∷◌, ◌++◌,
  ◌==◌, if◌then◌else◌, all, is_empty, length, take, drop, Bytes, codes, cut_byte, split, join,
  has_prefix, trim_left, trim_right, is_digit, format_uint,
}
use release_me.Signers.Time.{Civil}

-- `\s`
abbrev pub re_space : ℕ → Bool
re_space c = c == b'\t' || c == b'\n' || c == 12 || c == b'\r' || c == b' '

abbrev pub not_space : ℕ → Bool
not_space c = not (re_space c)

-- The cutset " \t"
abbrev pub is_blank : ℕ → Bool
is_blank c = c == b' ' || c == b'\t'

-- `unreleasedHead`
abbrev pub unreleased_head : Bytes
unreleased_head = codes "## [Unreleased]"

abbrev pub is_heading : Bytes → Bool
is_heading l = has_prefix l (codes "## ")

-- `linkDef`, its name and its URL: behind the colon, the text without the spaces around it.
abbrev link_url : Bytes → Bytes → Option (Bytes × Bytes)
link_url name url =
    if is_empty name || is_empty url || not (all not_space url) then none else some (name, url)

abbrev link_rest : Bytes → Bytes → Option (Bytes × Bytes)
link_rest name [] = none
link_rest name (c ∷ s) =
    if c == b':' then link_url name (trim_right re_space (trim_left re_space s)) else none

abbrev link_cut : Option (Bytes × Bytes) → Option (Bytes × Bytes)
link_cut none = none
link_cut (some (name, rest)) = link_rest name rest

abbrev pub link_def : Bytes → Option (Bytes × Bytes)
link_def [] = none
link_def (c ∷ s) = if c == b'[' then link_cut (cut_byte b']' s) else none

-- `\d{4}-\d{2}-\d{2}`
abbrev digits_of : ℕ → Bytes → Bool
digits_of n s = length s == n && all is_digit s

abbrev date_parts : List Bytes → Bool
date_parts (y ∷ m ∷ d ∷ []) = digits_of 4 y && (digits_of 2 m && digits_of 2 d)
date_parts _ = false

abbrev pub date_shape : Bytes → Bool
date_shape s = date_parts (split b'-' s)

-- `releaseHeading`: the name of the version, the date, and whether it is yanked.
abbrev heading_end : Bytes → Bytes → Bytes → Option (Bytes × Bytes × Bool)
heading_end name date s =
    if all re_space s
    then some (name, date, false)
    else if has_prefix s (codes " [YANKED]") && all re_space (drop 9 s)
    then some (name, date, true)
    else none

abbrev heading_date : Bytes → Bytes → Option (Bytes × Bytes × Bool)
heading_date name s =
    if date_shape (take 10 s) then heading_end name (take 10 s) (drop 10 s) else none

abbrev heading_cut : Option (Bytes × Bytes) → Option (Bytes × Bytes × Bool)
heading_cut none = none
heading_cut (some (name, rest)) =
    if not (is_empty name) && has_prefix rest (codes " - ")
    then heading_date name (drop 3 rest)
    else none

abbrev pub release_heading : Bytes → Option (Bytes × Bytes × Bool)
release_heading l =
    if has_prefix l (codes "## [") then heading_cut (cut_byte b']' (drop 4 l)) else none

-- A number in at least `w` digits.
abbrev pub zeros : ℕ → Bytes
zeros zero = []
zeros (suc n) = b'0' ∷ zeros n

abbrev pub padded : ℕ → ℕ → Bytes
padded w n = zeros (w - length (format_uint n)) ++ format_uint n

-- `date.UTC().Format("2006-01-02")`, of the fields of the date in UTC
unfoldable pub format_date : Civil → Bytes
format_date t = join b'-' (padded 4 t.year ∷ padded 2 t.month ∷ padded 2 t.day ∷ [])
