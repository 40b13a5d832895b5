-- ===== src/Samples/Changelogs.antt =====
-- A changelog with one release and an entry behind it: it is parsed and linted, and a release is cut.
use release_me.Prelude.{
  ◌≡◌, refl, true, false, none, some, List, [], ◌∷◌, ◌++◌, arith, map, Bytes, codes, join, split,
  trim_space, ok, err, cut_byte, parse_uint, format_uint,
}
use release_me.Semver.{expected_core, Version, parse, to_string, compare_version}
use release_me.Signers.Time.{Civil}
use release_me.Changelog.{
  Changelog, Release, latest, second_unreleased, bad_version, does_not_follow, section,
}
use release_me.Changelog.Rewrite.{release}
use release_me.Changelog
use release_me.Changelog.Lint.{lint, no_section}
use release_me.Changelog.Cut.{IsUrl}
use release_me.Changelog.Errors.{IsRefused, parse-IsRefused}
use release_me.Changelog.Reread.{parse-release, follows, new_release}
use release_me.Changelog.Said.{unnumbered}

abbrev text_of : List Bytes → Bytes
text_of lines = join b'\n' lines

abbrev before : List Bytes
before =
    codes "# Changelog"
    ∷ codes "## [Unreleased]"
    ∷ codes "### Fixed"
    ∷ codes "- A bug."
    ∷ codes "## [1.0.0] - 2026-09-24"
    ∷ codes "- All."
    ∷ codes "[Unreleased]: https://h/v1.0.0...HEAD"
    ∷ codes "[1.0.0]: https://h/v1.0.0"
    ∷ []

abbrev after : List Bytes
after =
    codes "# Changelog"
    ∷ codes "## [Unreleased]"
    ∷ []
    ∷ codes "## [1.1.0] - 2026-11-05"
    ∷ codes "### Fixed"
    ∷ codes "- A bug."
    ∷ codes "## [1.0.0] - 2026-09-24"
    ∷ codes "- All."
    ∷ codes "[Unreleased]: https://h/v1.1.0...HEAD"
    ∷ codes "[1.1.0]: https://h/v1.0.0...v1.1.0"
    ∷ codes "[1.0.0]: https://h/v1.0.0"
    ∷ []

abbrev version_1_0 : Version
version_1_0 = record { major = 1; minor = 0; patch = 0; pre = []; build = [] }

abbrev version_1_1 : Version
version_1_1 = record { major = 1; minor = 1; patch = 0; pre = []; build = [] }

abbrev day : Civil
day = record { year = 2026; month = 11; day = 5; hour = 0; minute = 0; second = 0; nanosecond = 0 }

abbrev compare_url : Bytes → Bytes → Bytes
compare_url from to = codes "https://h/" ++ (from ++ (codes "..." ++ to))

abbrev read : Changelog
read = record {
  unreleased = text_of (codes "### Fixed" ∷ codes "- A bug." ∷ []);
  releases =
      record {
        version = version_1_0;
        date = codes "2026-09-24";
        yanked = false;
        body = codes "- All.";
        line = 5;
      }
      ∷ [];
  links =
      (codes "Unreleased", codes "https://h/v1.0.0...HEAD")
      ∷ (codes "1.0.0", codes "https://h/v1.0.0")
      ∷ [];
  lines = before;
  unrel_line = some 1;
}

read_before : Changelog.parse (text_of before) ≡ ok read
unfolding Changelog.parse join split trim_space parse cut_byte parse_uint
read_before = refl

linted : lint (λ links. links) read ≡ []
unfolding lint to_string join format_uint cut_byte trim_space split
linted = refl

cut : release read version_1_1 day compare_url ≡ ok (text_of after)
unfolding release to_string join format_uint cut_byte compare_version
cut = refl

without_section :
    lint (λ links. links) (record read { unrel_line = none; lines = [] }) ≡ no_section ∷ []
unfolding lint to_string join format_uint cut_byte trim_space split
without_section = refl

second :
    Changelog.parse (text_of (codes "## [Unreleased]" ∷ codes "## [Unreleased]" ∷ []))
    ≡ err (second_unreleased 2)
unfolding Changelog.parse join split
second = refl

too_low : release read version_1_0 day compare_url ≡ err (does_not_follow version_1_0 version_1_0)
unfolding release compare_version join
too_low = refl

compare_url-head-IsUrl : IsUrl (compare_url (b'v' ∷ to_string version_1_1) (codes "HEAD"))
unfolding to_string join format_uint
compare_url-head-IsUrl = record { not_empty = refl; no_spaces = refl }

compare_url-version-IsUrl :
    IsUrl (compare_url (b'v' ∷ to_string version_1_0) (b'v' ∷ to_string version_1_1))
unfolding to_string join format_uint
compare_url-version-IsUrl = record { not_empty = refl; no_spaces = refl }

parse-release_example :
    (c' : Changelog) × (Changelog.parse (text_of after) ≡ ok c')
    × (c'.unreleased ≡ [])
    × (map unnumbered c'.releases
        ≡ new_release version_1_1 day read.unreleased ∷ map unnumbered read.releases)
    × (follows version_1_1 (latest read) ≡ true)
parse-release_example =
    parse-release (λ links. links) (text_of before) read version_1_1 day compare_url read_before
      linted
      (record {
        major_fits = omega arith;
        minor_fits = omega arith;
        patch_fits = omega arith;
        pre_valid = refl;
        build_valid = refl;
      })
      (record { year_fits = omega arith; month_fits = omega arith; day_fits = omega arith })
      compare_url-head-IsUrl compare_url-version-IsUrl cut

-- A heading whose version has two numbers.
abbrev misnamed : Bytes
misnamed = text_of (codes "## [Unreleased]" ∷ codes "- A bug." ∷ codes "## [1.0] - 2026-09-24" ∷ [])

read_misnamed : Changelog.parse misnamed ≡ err (bad_version 3 expected_core)
unfolding Changelog.parse join split trim_space parse cut_byte parse_uint
read_misnamed = refl

parse-IsRefused_example : IsRefused misnamed (bad_version 3 expected_core)
parse-IsRefused_example = (parse-IsRefused misnamed (bad_version 3 expected_core)).0 read_misnamed
