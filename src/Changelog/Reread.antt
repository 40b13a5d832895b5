-- ===== src/Changelog/Reread.antt =====
-- internal/changelog/changelog.go: a changelog that `Release` cuts is read back by `Parse`.
use release_me.Prelude.{
  is_digit, ℕ, ◌≡◌, ◌≢◌, refl, sym, ap, ap₂, ◌∙◌, subst, Bool, true, false, inl, inr, Option, none,
  some, List, [], ◌∷◌, append-eq-nil, map, arith, take, Option-cases, Bytes, codes, Lacks, split,
  join, trim_space, ok, ◌>>=◌, >>=-ok, ok-injective, reject_if-eq-ok,
}
use release_me.Semver.{Version, to_string, identifier_byte}
use release_me.Semver.RoundTrip.{IsValid}
use release_me.Semver.Printed.{to_string-Lacks}
use release_me.Signers.Time.{Civil}
use release_me.Changelog.Shapes.{format_date}
use release_me.Changelog.Cut.{IsUrl, Fits}
use release_me.Changelog.Moved.{outline}
use release_me.Changelog.Lint.{lint, check_unreleased, precedes}
use release_me.Changelog.Rewritten.{PlanOk}
use release_me.Changelog.Joined.{split-rewrite_lines}
use release_me.Changelog.Released.{rewrite_lines-CutAt}
use release_me.Changelog.{
  Section, Release, Changelog, nothing_to_release, has_section, sections, parsed, parse, latest,
  above, unreleased_empty, section,
}
use release_me.Changelog.Rewrite.{
  release_at, check_follows, prev_tag, plan_of, rewrite_lines, release, is_some,
}
use release_me.Changelog.Said.{
  unnumbered, said_releases, said_unreleased, releases_of-outline, unreleased_of-outline,
}

-- The version is above that of the previous release, where there is one.
abbrev pub follows : Version → Option Release → Bool
follows v none = true
follows v (some prev) = above v prev.version

check_follows-ok :
    (v : Version) (o : Option Release) → check_follows v o ≡ ok tt → follows v o ≡ true
check_follows-ok v none h = refl
check_follows-ok v (some prev) h = ground arith

-- What a release that was cut went through.
release-ok :
    (c : Changelog) (v : Version) (date : Civil) (compare_url : Bytes → Bytes → Bytes) {out : Bytes}
    → release c v date compare_url ≡ ok out
    → (n : ℕ) × (c.unrel_line ≡ some n)
      × (follows v (latest c) ≡ true)
      × (join b'\n' (rewrite_lines (plan_of c v date compare_url) n 0 c.lines) ≡ out)
unfolding release
release-ok c v date compare_url {out} h = elim (Option-cases c.unrel_line) [
  | inl none_at ↦
      let none_cut = subst (λ o. release_at c v date compare_url o ≡ ok out) none_at h in cc
  | inr (n, at) ↦
      let (_, h1) =
        reject_if-eq-ok (unreleased_empty c) nothing_to_release _
          (subst (λ o. release_at c v date compare_url o ≡ ok out) at h) in
      let (_, checked, h2) = >>=-ok (check_follows v (latest c)) _ h1 in
      let (_, h3) = reject_if-eq-ok (is_some (section c v)) (has_section v) _ h2 in
      (n, at, check_follows-ok v (latest c) checked, ok-injective h3)
]

lint-first :
    (range_order : List (Bytes × Bytes) → List (Bytes × Bytes)) (c : Changelog) {n : ℕ}
    → lint range_order c ≡ []
    → c.unrel_line ≡ some n
    → precedes 0 (take n c.lines) ≡ []
unfolding lint
lint-first range_order c h at =
    subst (λ o. check_unreleased c.lines o ≡ []) at
      (append-eq-nil (check_unreleased c.lines c.unrel_line) _ h).0

-- What a text says whose sections are read.
parse_of_sections :
    (text : Bytes) {before : List Bytes} {ss : List Section}
    → sections 0 false (split b'\n' text) ≡ ok (before, ss)
    → (c : Changelog) × (parse text ≡ ok c)
      × (c.unreleased ≡ said_unreleased (map outline ss))
      × (map unnumbered c.releases ≡ said_releases (map outline ss))
unfolding parse parsed
parse_of_sections text {ss = ss} read = (
  _,
  ap (λ r. r >>= parsed (split b'\n' text)) read,
  unreleased_of-outline ss,
  releases_of-outline ss,
)

plan_of-PlanOk :
    (c : Changelog) (v : Version) (date : Civil) (compare_url : Bytes → Bytes → Bytes)
    → IsValid v
    → Fits date
    → IsUrl (compare_url (b'v' ∷ to_string v) (codes "HEAD"))
    → IsUrl (compare_url (prev_tag (latest c)) (b'v' ∷ to_string v))
    → PlanOk (plan_of c v date compare_url)
plan_of-PlanOk c v date compare_url valid fits head_url version_url = record {
  version_valid = valid;
  prints = record {
    no_bracket = lacks b']' (refl, refl) (omega arith, omega arith, omega arith);
    no_newline = lacks b'\n' (refl, refl) (omega arith, omega arith, omega arith);
  };
  date_fits = fits;
  head_url = head_url;
  version_url = version_url;
}
  where
    lacks :
        (x : ℕ)
        → (identifier_byte x ≡ false) × (is_digit x ≡ false)
        → (b'-' ≢ x) × (b'.' ≢ x) × (b'+' ≢ x)
        → Lacks x (to_string v)
    lacks x e ne = to_string-Lacks x v e ne valid.pre_valid valid.build_valid

-- The section that `Release` adds.
abbrev pub new_release : Version → Civil → Bytes → Release
new_release v date body = record {
  version = v;
  date = format_date date;
  yanked = false;
  body = body;
  line = 0;
}

-- If `Release` cuts a valid version from a changelog that `Parse` read and `Lint` accepts, on a
-- date of at most four digits for the year and with two compare URLs that are not empty and hold
-- no spaces, then `Parse` reads the new text: its [Unreleased] is empty, its releases are those
-- of the changelog in their order, up to the numbers of their lines, behind the new one, which
-- has the version, the date and what stood in [Unreleased]; and the version is above that of the
-- latest release, if there was one.
pub parse-release :
    (range_order : List (Bytes × Bytes) → List (Bytes × Bytes)) (text : Bytes) (c : Changelog)
    (v : Version) (date : Civil) (compare_url : Bytes → Bytes → Bytes) {out : Bytes}
    → parse text ≡ ok c
    → lint range_order c ≡ []
    → IsValid v
    → Fits date
    → IsUrl (compare_url (b'v' ∷ to_string v) (codes "HEAD"))
    → IsUrl (compare_url (prev_tag (latest c)) (b'v' ∷ to_string v))
    → release c v date compare_url ≡ ok out
    → (c' : Changelog) × (parse out ≡ ok c')
      × (c'.unreleased ≡ [])
      × (map unnumbered c'.releases ≡ new_release v date c.unreleased ∷ map unnumbered c.releases)
      × (follows v (latest c) ≡ true)
unfolding parse parsed trim_space join
parse-release range_order text c v date compare_url {out} read linted valid fits head_url
      version_url cut =
    let lines = split b'\n' text in
    let plan = plan_of c v date compare_url in
    let plan_ok = plan_of-PlanOk c v date compare_url valid fits head_url version_url in
    let ((before, ss), er, ec) = >>=-ok (sections 0 false lines) (parsed lines) read in
    let (n, at, newer, made) = release-ok c v date compare_url cut in
    let same = ok-injective ec in
    let same_lines : lines ≡ c.lines = ap (λ d. d.lines) same in
    let first : precedes 0 (take n lines) ≡ [] =
      subst (λ l. precedes 0 (take n l) ≡ []) (sym same_lines)
        (lint-first range_order c linted at) in
    let (kept, said, es, reads) =
      rewrite_lines-CutAt plan plan_ok n 0 n lines (omega arith) er
        (ap (λ d. d.unrel_line) same ∙ at) first in
    let (_, _, er', _, es') = reads 0 in
    let again : split b'\n' out ≡ rewrite_lines plan n 0 lines =
      ap (split b'\n') (sym (ap (λ l. join b'\n' (rewrite_lines plan n 0 l)) same_lines ∙ made))
      ∙ split-rewrite_lines plan plan_ok n text in
    let (c', parsed', empty, new) = parse_of_sections out (ap (sections 0 false) again ∙ er') in
    let body : c.unreleased ≡ trim_space (join b'\n' kept) =
      sym (ap (λ d. d.unreleased) same) ∙ unreleased_of-outline ss ∙ ap said_unreleased es in
    let older : map unnumbered c.releases ≡ said_releases said =
      ap (λ d. map unnumbered d.releases) (sym same)
      ∙ releases_of-outline ss
      ∙ ap said_releases es in
    (
      c',
      parsed',
      empty ∙ ap said_unreleased es',
      new ∙ ap said_releases es' ∙ ap₂ (λ b rs. new_release v date b ∷ rs) (sym body) (sym older),
      newer,
    )
