-- ===== src/Changelog/Rewrite.antt =====
-- internal/changelog/changelog.go: `Release`, which cuts a release from the first section.
use release_me.Prelude.{
  ℕ, suc, Bool, true, false, not, Option, none, some, List, [], ◌∷◌, ◌++◌, ◌==◌, if◌then◌else◌,
  Bytes, codes, bytes_eq, join, Result, ok, err, ◌>>◌, reject_if,
}
use release_me.Semver.{Version, to_string}
use release_me.Signers.Time.{Civil}
use release_me.Changelog.Shapes.{link_def, unreleased_head, format_date}
use release_me.Changelog.{
  Release, Changelog, ChangelogError, no_unreleased, nothing_to_release, does_not_follow,
  has_section, latest, unreleased_empty, section, above,
}

-- The check against the previous release.
abbrev pub check_follows : Version → Option Release → Result ChangelogError (Unit {0})
check_follows v none = ok tt
check_follows v (some prev) =
    reject_if (not (above v prev.version)) (does_not_follow v prev.version)

abbrev pub is_some : Option Bytes → Bool
is_some none = false
is_some (some _) = true

-- The tag of the previous release for `compareURL`, or none of it.
abbrev pub prev_tag : Option Release → Bytes
prev_tag none = []
prev_tag (some prev) = b'v' ∷ to_string prev.version

-- "[name]: url"
abbrev pub link_line : Bytes → Bytes → Bytes
link_line name url = b'[' ∷ (name ++ (b']' ∷ b':' ∷ b' ' ∷ url))

abbrev pub heading_line : Version → Bytes → Bytes
heading_line v date = codes "## [" ++ (to_string v ++ (codes "] - " ++ date))

-- What `Release` writes: the version, its date, the previous tag, and the URLs.
pub record Plan : Type 0 where
  pub version : Version
  pub date : Civil
  pub previous : Bytes
  pub compare_url : Bytes → Bytes → Bytes

abbrev pub new_links : Plan → List Bytes
new_links p =
    link_line (codes "Unreleased") (p.compare_url (b'v' ∷ to_string p.version) (codes "HEAD"))
    ∷ link_line (to_string p.version) (p.compare_url p.previous (b'v' ∷ to_string p.version))
    ∷ []

abbrev pub rewrite_link : Plan → Bytes → Option (Bytes × Bytes) → List Bytes
rewrite_link p l none = l ∷ []
rewrite_link p l (some (name, _)) =
    if bytes_eq name (codes "Unreleased") then new_links p else l ∷ []

-- One round of the loop of `Release`: what it appends for the line at an index.
abbrev pub rewrite_line : Plan → ℕ → ℕ → Bytes → List Bytes
rewrite_line p n i l =
    if i == n
    then unreleased_head ∷ [] ∷ heading_line p.version (format_date p.date) ∷ []
    else rewrite_link p l (link_def l)

unfoldable pub rewrite_lines : Plan → ℕ → ℕ → List Bytes → List Bytes
rewrite_lines p n i [] = []
rewrite_lines p n i (l ∷ ls) = rewrite_line p n i l ++ rewrite_lines p n (suc i) ls

abbrev pub plan_of : Changelog → Version → Civil → (Bytes → Bytes → Bytes) → Plan
plan_of c v date compare_url = record {
  version = v;
  date = date;
  previous = prev_tag (latest c);
  compare_url = compare_url;
}

abbrev pub release_at :
    Changelog → Version → Civil → (Bytes → Bytes → Bytes) → Option ℕ → Result ChangelogError Bytes
unfolding rewrite_lines
release_at c v date compare_url none = err no_unreleased
release_at c v date compare_url (some n) = do
  reject_if (unreleased_empty c) nothing_to_release
  check_follows v (latest c)
  reject_if (is_some (section c v)) (has_section v)
  ok (join b'\n' (rewrite_lines (plan_of c v date compare_url) n 0 c.lines))

-- `Release`
unfoldable pub release :
    Changelog → Version → Civil → (Bytes → Bytes → Bytes) → Result ChangelogError Bytes
unfolding release_at section format_date
release c v date compare_url = release_at c v date compare_url c.unrel_line
