-- ===== src/Changelog/Lint.antt =====
-- internal/changelog/changelog.go: `Lint`, the rules that a release depends on.
use release_me.Prelude.{
  ℕ, suc, Bool, true, false, not, ◌&&◌, ◌||◌, Option, none, some, List, [], ◌∷◌, ◌++◌, leb, ◌==◌,
  if◌then◌else◌, all, is_empty, take, drop, Bytes, codes, bytes_eq, cut_byte, has_prefix,
  trim_space, value,
}
use release_me.Semver.{Version, to_string}
use release_me.Signers.Time.{days_in}
use release_me.Changelog.Shapes.{is_heading, link_def, not_space}
use release_me.Changelog.{Release, Changelog, above}

-- One constructor for each error that `Lint` joins, with the number of the line where it names one.
pub data LintError : Type 0 where
  no_section : LintError
  section_precedes : ℕ → LintError
  invalid_date : ℕ → Bytes → LintError
  does_not_descend : ℕ → Version → Version → LintError
  missing_link : Bytes → LintError
  link_shape : Bytes → Bytes → LintError
  empty_subsection : ℕ → Bytes → LintError
  outside_section : ℕ → LintError
  no_change_type : ℕ → Bytes → LintError
  unexpected_heading : ℕ → LintError

-- `if bad { fail(e) }`
abbrev fail_if : Bool → LintError → List LintError
fail_if bad e = if bad then e ∷ [] else []

-- The first release section among the lines before [Unreleased].
abbrev pub precedes : ℕ → List Bytes → List LintError
precedes i [] = []
precedes i (l ∷ ls) = if is_heading l then section_precedes (suc i) ∷ [] else precedes (suc i) ls

abbrev pub check_unreleased : List Bytes → Option ℕ → List LintError
check_unreleased lines none = no_section ∷ []
check_unreleased lines (some n) = precedes 0 (take n lines)

-- `time.Parse("2006-01-02", date)` of a date in the digits of `releaseHeading`
abbrev pub date_ok : Bytes → Bool
date_ok s =
    let month = value 0 (take 2 (drop 5 s)) in
    let day = value 0 (drop 8 s) in
    leb 1 month && (leb month 12 && (leb 1 day && leb day (days_in month (value 0 (take 4 s)))))

abbrev pub has_link : Bytes → List (Bytes × Bytes) → Bool
has_link name [] = false
has_link name (l ∷ ls) = bytes_eq l.0 name || has_link name ls

-- The check against the release before, where there is one.
abbrev check_descends : Option Version → ℕ → Version → List LintError
check_descends none line v = []
check_descends (some previous) line v =
    fail_if (not (above previous v)) (does_not_descend line v previous)

pub check_releases : List (Bytes × Bytes) → Option Version → List Release → List LintError
check_releases links previous [] = []
check_releases links previous (r ∷ rs) =
    fail_if (not (date_ok r.date)) (invalid_date r.line r.date)
    ++ (check_descends previous r.line r.version
        ++ (fail_if (not (has_link (to_string r.version) links))
              (missing_link (to_string r.version))
            ++ check_releases links (some r.version) rs))

-- `urlShape`: a scheme, "://", a host, and a path.
abbrev scheme_byte : ℕ → Bool
scheme_byte c =
    leb b'a' c && leb c b'z' || leb b'0' c && leb c b'9' || c == b'+' || c == b'.' || c == b'-'

abbrev url_path : Option (Bytes × Bytes) → Bool
url_path none = false
url_path (some (host, path)) = not (is_empty host) && all not_space host && all not_space path

abbrev url_scheme : Bytes → Bool
url_scheme [] = false
url_scheme (c ∷ s) = leb b'a' c && leb c b'z' && all scheme_byte s

abbrev url_parts : Option (Bytes × Bytes) → Bool
url_parts none = false
url_parts (some (scheme, rest)) =
    url_scheme scheme && (has_prefix rest (codes "//") && url_path (cut_byte b'/' (drop 2 rest)))

abbrev pub url_shape : Bytes → Bool
url_shape u = url_parts (cut_byte b':' u)

pub check_links : List (Bytes × Bytes) → List LintError
check_links [] = []
check_links (l ∷ ls) = fail_if (not (url_shape l.1)) (link_shape l.0 l.1) ++ check_links ls

-- `changeTypes`
abbrev pub is_change_type : Bytes → Bool
is_change_type s =
    bytes_eq s (codes "Added")
    || bytes_eq s (codes "Changed")
    || bytes_eq s (codes "Deprecated")
    || bytes_eq s (codes "Removed")
    || bytes_eq s (codes "Fixed")
    || bytes_eq s (codes "Security")

-- The variables of the last loop.
pub record Scan : Type 0 where
  pub in_section : Bool
  pub sub_name : Bytes
  pub sub_line : ℕ
  pub sub_content : Bool

-- `flush`: what it reports, and the variables behind it.
abbrev flush_errors : Scan → List LintError
flush_errors s =
    fail_if (not (is_empty s.sub_name) && not s.sub_content)
      (empty_subsection s.sub_line s.sub_name)

abbrev flush : Scan → Scan
flush s = record s { sub_name = []; sub_content = false }

abbrev is_link : Bytes → Bool
is_link l = elim (link_def l) [ none ↦ false | some _ ↦ true ]

-- One round of the last loop: the switch on a line.
abbrev scan_line : ℕ → Bytes → Scan → List LintError × Scan
scan_line i l s =
    if is_heading l
    then (flush_errors s, record (flush s) { in_section = true })
    else if has_prefix l (codes "### ")
    then (
      flush_errors s
          ++ (fail_if (not s.in_section) (outside_section (suc i))
              ++ fail_if (not (is_change_type (trim_space (drop 4 l))))
                  (no_change_type (suc i) (trim_space (drop 4 l)))),
      record (flush s) { sub_name = trim_space (drop 4 l); sub_line = suc i },
    )
    else if has_prefix l (codes "#")
    then (flush_errors s ++ fail_if s.in_section (unexpected_heading (suc i)), flush s)
    else if not (is_empty s.sub_name) && (not (is_empty (trim_space l)) && not (is_link l))
    then ([], record s { sub_content = true })
    else ([], s)

pub scan_lines : ℕ → List Bytes → Scan → List LintError
scan_lines i [] s = flush_errors s
scan_lines i (l ∷ ls) s = (scan_line i l s).0 ++ scan_lines (suc i) ls (scan_line i l s).1

-- `c.unrelLine >= 0`
abbrev has_unreleased : Option ℕ → Bool
has_unreleased none = false
has_unreleased (some _) = true

-- `Lint`: all errors, in their order, where `range_order` is the order in which Go ranges over the links.
unfoldable pub lint : (List (Bytes × Bytes) → List (Bytes × Bytes)) → Changelog → List LintError
unfolding check_releases check_links scan_lines
lint range_order c =
    check_unreleased c.lines c.unrel_line
    ++ (check_releases c.links none c.releases
        ++ (fail_if (not (has_link (codes "Unreleased") c.links) && has_unreleased c.unrel_line)
              (missing_link (codes "Unreleased"))
            ++ (check_links (range_order c.links)
                ++ scan_lines 0 c.lines (record {
                  in_section = false;
                  sub_name = [];
                  sub_line = 0;
                  sub_content = false;
                }))))
