-- ===== src/Changelog/Released.antt =====
-- internal/changelog/changelog.go: `Parse` reads the text that `Release` makes, with the new section.
use release_me.Prelude.{
  ℕ, zero, suc, ◌+◌, ◌≡◌, ◌≢◌, refl, sym, ◌∙◌, subst, subst₂, Bool, true, false, ◌||◌, inl, inr,
  some, List, [], ◌∷◌, ◌++◌, map, arith, take, ◌==◌, Bool-cases, Bytes, codes, bytes_eq,
  bytes_eq_iff, has_prefix, trim_right, trim_cons, is_decimal, format_uint, format_uint-is_decimal,
  join, ok,
}
use release_me.Semver.{Version, to_string}
use release_me.Semver.RoundTrip.{parse-to_string}
use release_me.Changelog.Shapes.{is_heading, is_blank, unreleased_head, format_date}
use release_me.Changelog.Cut.{release_heading-heading_line}
use release_me.Changelog.Moved.{outline, Reads, Reads-line, Reads-heading}
use release_me.Changelog.Lint.{precedes}
use release_me.Changelog.Rewritten.{PlanOk, Reads-rewrite_line, rewrite_lines_behind}
use release_me.Changelog.Sections.{sections-heading, sections-line, unrel_line_bound}
use release_me.Changelog.{
  Heading, unreleased_at, released_at, Section, heading, is_unreleased, sections, strip_links,
  unrel_line_of,
}
use release_me.Changelog.Rewrite.{heading_line, Plan, rewrite_lines}

has_prefix-trim_right : (p : ℕ → Bool) (s : Bytes) → has_prefix s (trim_right p s) ≡ true
has_prefix-trim_right p [] = refl
has_prefix-trim_right p (c ∷ s) = extend (trim_right p s) (has_prefix-trim_right p s)
  where
    extend : (t : Bytes) → has_prefix s t ≡ true → has_prefix (c ∷ s) (trim_cons p c t) ≡ true
    extend [] h = ground arith
    extend (d ∷ t) h = ground arith

no_letter :
    (x y z r t : Bytes) → is_decimal x ≡ true → has_prefix (((x ++ y) ++ z) ++ r) (b'U' ∷ t) ≡ false
no_letter [] y z r t h = cc
no_letter (c ∷ x) y z r t h = ground arith

heading_line-has_prefix :
    (v : Version) (date : Bytes) → has_prefix (heading_line v date) unreleased_head ≡ false
unfolding to_string join
heading_line-has_prefix v date =
    no_letter (format_uint v.major) _ _ (codes "] - " ++ date) (codes "nreleased]")
      (format_uint-is_decimal v.major)

heading_line-not_unreleased :
    (v : Version) (date : Bytes)
    → bytes_eq (trim_right is_blank (heading_line v date)) unreleased_head ≡ false
heading_line-not_unreleased v date =
    elim (Bool-cases (bytes_eq (trim_right is_blank (heading_line v date)) unreleased_head)) [
      | inr other ↦ other
      | inl same ↦
          let whole : has_prefix (heading_line v date) unreleased_head ≡ true =
            subst (λ t. has_prefix (heading_line v date) t ≡ true)
              ((bytes_eq_iff (trim_right is_blank (heading_line v date)) unreleased_head).0 same)
              (has_prefix-trim_right is_blank (heading_line v date)) in
          let both : true ≡ false = sym whole ∙ heading_line-has_prefix v date in cc
    ]

module _ (p : Plan) (plan : PlanOk p) where
  heading-heading_line :
      (i : ℕ)
      → heading i true (heading_line p.version (format_date p.date))
        ≡ ok (released_at p.version (format_date p.date) false (suc i))
  unfolding heading
  heading-heading_line i = rw (
    heading_line-not_unreleased p.version (format_date p.date),
    release_heading-heading_line p.version p.date plan.prints plan.date_fits,
    parse-to_string p.version plan.version_valid,
  )

  -- The three lines that `Release` writes for the heading of [Unreleased].
  Reads-unreleased :
      (ls kept : List Bytes) (said : List (Heading × List Bytes))
      → Reads true ls kept said
      → Reads false (unreleased_head ∷ [] ∷ heading_line p.version (format_date p.date) ∷ ls) [] (
          (unreleased_at 0, [] ∷ [])
          ∷ (released_at p.version (format_date p.date) false 0, kept)
          ∷ said)
  unfolding heading
  Reads-unreleased ls kept said h =
      Reads-heading false true unreleased_head _ ([] ∷ []) (unreleased_at 0) _ refl
        (λ i. (unreleased_at i, refl, refl, refl))
        (Reads-line true [] _ [] _ refl (
          Reads-heading true true (heading_line p.version (format_date p.date)) ls kept
            (released_at p.version (format_date p.date) false 0) said refl
            (λ i. (_, heading-heading_line i, refl, refl)) h))

  -- What is said of the cut: an empty [Unreleased], and the new section.
  abbrev pub with_cut : List Bytes → List (Heading × List Bytes) → List (Heading × List Bytes)
  with_cut kept said =
      (unreleased_at 0, [] ∷ []) ∷ (released_at p.version (format_date p.date) false 0, kept) ∷ said

  -- The lines of a changelog whose first section is [Unreleased], as `Release` rewrites them: the section
  -- is empty, and behind it stands the new one with its lines.
  abbrev pub CutAt : ℕ → ℕ → List Bytes → List Bytes → List Section → Type 0
  CutAt n i ls body ss =
      (kept : List Bytes) × (said : List (Heading × List Bytes)) × (map outline ss
        ≡ (unreleased_at 0, kept) ∷ said)
      × Reads false (rewrite_lines p n i ls) (strip_links body) (with_cut kept said)

  CutAt-heading :
      (i n : ℕ) (l : Bytes) (ls inner : List Bytes) (rest : List Section) (h : Heading)
      → i ≡ n
      → heading i false l ≡ ok h
      → sections (suc i) (false || is_unreleased h) ls ≡ ok (inner, rest)
      → unrel_line_of (record { heading = h; lines = inner } ∷ rest) ≡ some n
      → CutAt n i (l ∷ ls) [] (record { heading = h; lines = inner } ∷ rest)
  unfolding rewrite_lines strip_links
  CutAt-heading i n l ls inner rest (released_at v d y k) here eh er e =
      absurd (omega (arith, here, unrel_line_bound (suc i) false ls er e))
  CutAt-heading i n l ls inner rest (unreleased_at k) here eh er e =
      let found : (i == n) ≡ true = ground arith in
      (
        strip_links inner,
        map outline rest,
        refl,
        rw found (
            Reads-unreleased (rewrite_lines p n (suc i) ls) (strip_links inner) (map outline rest)
              (rewrite_lines_behind p plan n (suc i) ls (omega arith) er)),
      )

  pub rewrite_lines-CutAt :
      (k i n : ℕ) (ls : List Bytes) {body : List Bytes} {ss : List Section}
      → i + k ≡ n
      → sections i false ls ≡ ok (body, ss)
      → unrel_line_of ss ≡ some n
      → precedes i (take k ls) ≡ []
      → CutAt n i ls body ss
  unfolding rewrite_lines sections strip_links
  rewrite_lines-CutAt k i n [] {body} {ss} here h e first = cc
  rewrite_lines-CutAt zero i n (l ∷ ls) {body} {ss} here h e first =
      elim (Bool-cases (is_heading l)) [
        | inr plain ↦
            let (inner, er, _) = sections-line i false l ls plain h in
            absurd (omega (arith, unrel_line_bound (suc i) false ls er e))
        | inl head ↦
            let (hd, inner, rest, eh, er, eb, es) = sections-heading i false l ls head h in
            subst₂ (CutAt n i (l ∷ ls)) (sym eb) (sym es) (
              CutAt-heading i n l ls inner rest hd (omega arith) eh er
                (subst (λ t. unrel_line_of t ≡ some n) es e))
      ]
  rewrite_lines-CutAt (suc k) i n (l ∷ ls) {body} {ss} here h e first =
      elim (Bool-cases (is_heading l)) [
        | inl head ↦ absurd (preceded head first)
        | inr plain ↦
            let (inner, er, eb) = sections-line i false l ls plain h in
            let below : precedes (suc i) (take k ls) ≡ [] = cc in
            let (kept, said, es, read) =
              rewrite_lines-CutAt k (suc i) n ls (omega arith) er e below in
            (
              kept,
              said,
              es,
              subst
                  (λ b.
                    Reads false (rewrite_lines p n i (l ∷ ls)) (strip_links b) (with_cut kept said))
                  (sym eb)
                  (Reads-rewrite_line p plan false n i l _ (strip_links inner) (with_cut kept said)
                    plain (ground arith) read),
            )
      ]
    where
      preceded : is_heading l ≡ true → precedes i (take (suc k) (l ∷ ls)) ≢ []
      preceded head none_precedes = cc
