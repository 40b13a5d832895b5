-- ===== src/Changelog.antt =====
-- internal/changelog/changelog.go: a changelog is parsed into its sections, and a release is looked up.
-- The child modules match its lines (Shapes), apply the rules (Lint), cut a release (Rewrite), and prove
-- that the cut text is read back (Cut, Moved, Sections, Rewritten, Released, Joined, Said, Reread)
-- and which texts are refused (Refused, Failing, Errors).
pub mod Shapes
pub mod Rewrite
pub mod Lint
pub mod Cut
pub mod Moved
pub mod Sections
pub mod Rewritten
pub mod Released
pub mod Joined
pub mod Said
pub mod Reread
pub mod Refused
pub mod Failing
pub mod Errors
use release_me.Prelude.{
  ℕ, suc, ◌+◌, ◌≡◌, refl, Bool, true, false, not, ◌&&◌, ◌||◌, Option, none, some, List, [], ◌∷◌,
  ◌++◌, Ordering, ◌==◌, if◌then◌else◌, is_empty, length, Bytes, codes, bytes_eq, split, join,
  has_prefix, trim_right, trim_space, Result, ok, err, ◌>>=◌, ◌>>◌, reject_if,
}
use release_me.Semver.{Version, SemverError, compare_version, to_string}
use release_me.Semver
use release_me.Signers.Time.{Civil}
use release_me.Changelog.Shapes.{
  link_def, release_heading, unreleased_head, is_blank, format_date, is_heading,
}

pub record Release : Type 0 where
  pub version : Version
  pub date : Bytes
  pub yanked : Bool
  pub body : Bytes
  pub line : ℕ

-- A heading "## ", with the index of its line, or its number.
pub data Heading : Type 0 where
  unreleased_at : ℕ → Heading
  released_at : Version → Bytes → Bool → ℕ → Heading

-- `section`, with the lines `c.lines[s.start:s.end]` of its body
pub record Section : Type 0 where
  pub heading : Heading
  pub lines : List Bytes

-- The errors of `Parse`, and then those of `Release`.
pub data ChangelogError : Type 0 where
  second_unreleased : ℕ → ChangelogError
  bad_version : ℕ → SemverError → ChangelogError
  unrecognized_heading : ℕ → Bytes → ChangelogError
  no_unreleased : ChangelogError
  nothing_to_release : ChangelogError
  does_not_follow : Version → Version → ChangelogError
  has_section : Version → ChangelogError

-- `unrel_line` is `none` for -1; `links` has each name once.
pub record Changelog : Type 0 where
  pub unreleased : Bytes
  pub releases : List Release
  pub links : List (Bytes × Bytes)
  pub lines : List Bytes
  pub unrel_line : Option ℕ

-- `c.Links[name] = url`
abbrev pub set_link : Bytes → Bytes → List (Bytes × Bytes) → List (Bytes × Bytes)
set_link name url [] = (name, url) ∷ []
set_link name url (l ∷ ls) =
    if bytes_eq l.0 name then (name, url) ∷ ls else l ∷ set_link name url ls

abbrev add_link : Option (Bytes × Bytes) → List (Bytes × Bytes) → List (Bytes × Bytes)
add_link none links = links
add_link (some (name, url)) links = set_link name url links

-- What the loop of `Parse` puts in `c.Links`.
pub links_of : List Bytes → List (Bytes × Bytes) → List (Bytes × Bytes)
links_of [] links = links
links_of (l ∷ ls) links = links_of ls (if is_heading l then links else add_link (link_def l) links)

-- The branch of a heading that `releaseHeading` matches.
abbrev pub version_heading :
    ℕ → Bytes → Bool → Result SemverError Version → Result ChangelogError Heading
version_heading i date yanked (err e) = err (bad_version (suc i) e)
version_heading i date yanked (ok v) = ok (released_at v date yanked (suc i))

abbrev pub released_heading :
    ℕ → Bytes → Option (Bytes × Bytes × Bool) → Result ChangelogError Heading
released_heading i line none = err (unrecognized_heading (suc i) line)
released_heading i line (some (name, date, yanked)) =
    version_heading i date yanked (Semver.parse name)

-- The heading at an index; `seen` is `c.unrelLine >= 0`.
pub heading : ℕ → Bool → Bytes → Result ChangelogError Heading
heading i seen line =
    if bytes_eq (trim_right is_blank line) unreleased_head
    then (if seen then err (second_unreleased (suc i)) else ok (unreleased_at i))
    else released_heading i line (release_heading line)

abbrev pub is_unreleased : Heading → Bool
is_unreleased (unreleased_at _) = true
is_unreleased (released_at _ _ _ _) = false

abbrev pub prepend :
    Bytes → List Bytes × List Section → Result ChangelogError (List Bytes × List Section)
prepend l (body, rest) = ok (l ∷ body, rest)

abbrev pub open_section :
    Heading → List Bytes × List Section → Result ChangelogError (List Bytes × List Section)
open_section h (body, rest) = ok ([], record { heading = h; lines = body } ∷ rest)

-- The loop of `Parse`: the lines before the next heading, and the sections behind them.
pub sections : ℕ → Bool → List Bytes → Result ChangelogError (List Bytes × List Section)
unfolding heading
sections i seen [] = ok ([], [])
sections i seen (l ∷ ls) = elim (is_heading l) [
  | false ↦ sections (suc i) seen ls >>= prepend l
  | true ↦
      heading i seen l >>= λ h. sections (suc i) (seen || is_unreleased h) ls >>= open_section h
]

-- `stripLinks`
abbrev pub keep_line : Bytes → Option (Bytes × Bytes) → List Bytes → List Bytes
keep_line l none rest = l ∷ rest
keep_line l (some _) rest = rest

pub strip_links : List Bytes → List Bytes
strip_links [] = []
strip_links (l ∷ ls) = keep_line l (link_def l) (strip_links ls)

pub section_body : List Bytes → Bytes
unfolding strip_links
section_body ls = trim_space (join b'\n' (strip_links ls))

-- The second loop of `Parse`.
abbrev pub add_release : Heading → Bytes → List Release → List Release
add_release (unreleased_at _) body rest = rest
add_release (released_at v date yanked line) body rest =
    record { version = v; date = date; yanked = yanked; body = body; line = line } ∷ rest

pub releases_of : List Section → List Release
unfolding section_body
releases_of [] = []
releases_of (s ∷ ss) = add_release s.heading (section_body s.lines) (releases_of ss)

abbrev pub or_body : Heading → Bytes → Bytes → Bytes
or_body (unreleased_at _) body rest = body
or_body (released_at _ _ _ _) body rest = rest

pub unreleased_of : List Section → Bytes
unfolding section_body
unreleased_of [] = []
unreleased_of (s ∷ ss) = or_body s.heading (section_body s.lines) (unreleased_of ss)

abbrev or_line : Heading → Option ℕ → Option ℕ
or_line (unreleased_at i) rest = some i
or_line (released_at _ _ _ _) rest = rest

abbrev pub unrel_line_of : List Section → Option ℕ
unrel_line_of [] = none
unrel_line_of (s ∷ ss) = or_line s.heading (unrel_line_of ss)

abbrev pub parsed : List Bytes → List Bytes × List Section → Result ChangelogError Changelog
unfolding releases_of unreleased_of links_of
parsed lines (_, ss) = ok (record {
  unreleased = unreleased_of ss;
  releases = releases_of ss;
  links = links_of lines [];
  lines = lines;
  unrel_line = unrel_line_of ss;
})

-- `Parse`
unfoldable pub parse : Bytes → Result ChangelogError Changelog
unfolding sections parsed
parse text = sections 0 false (split b'\n' text) >>= parsed (split b'\n' text)

-- `Latest`
abbrev pub latest : Changelog → Option Release
latest c = elim c.releases [ [] ↦ none | r ∷ _ ↦ some r ]

-- `UnreleasedEmpty`
abbrev pub unreleased_empty : Changelog → Bool
unreleased_empty c = is_empty c.unreleased

-- `Section`
abbrev pub same_version : Version → Version → Bool
same_version a b = elim (compare_version a b) [ Ordering.eq ↦ bytes_eq a.build b.build | _ ↦ false ]

pub find_section : List Release → Version → Option Bytes
find_section [] v = none
find_section (r ∷ rs) v = if same_version r.version v then some r.body else find_section rs v

abbrev pub section : Changelog → Version → Option Bytes
unfolding find_section
section c v = find_section c.releases v

-- `semver.Compare(a, b) > 0`
abbrev pub above : Version → Version → Bool
above a b = elim (compare_version a b) [ Ordering.gt ↦ true | _ ↦ false ]
