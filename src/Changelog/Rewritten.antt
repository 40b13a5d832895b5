-- ===== src/Changelog/Rewritten.antt =====
-- internal/changelog/changelog.go: the sections that `Parse` finds in the lines that the loop of `Release`
-- writes.
use release_me.Prelude.{
  ℕ, suc, ◌<◌, ◌≡◌, refl, sym, ap, subst, subst₂, Bool, true, false, not, inl, inr, Option, none,
  some, List, [], ◌∷◌, ◌++◌, map, arith, ◌==◌, if◌then◌else◌, Bool-cases, Bytes, codes, bytes_eq,
  all-Lacks, ok, ok-injective,
}
use release_me.Semver.{to_string}
use release_me.Semver.RoundTrip.{IsValid}
use release_me.Semver.Printed.{is_empty-to_string}
use release_me.Changelog.Shapes.{is_heading, link_def, unreleased_head, format_date}
use release_me.Changelog.Cut.{IsUrl, link_def-link_line, Fits, Prints}
use release_me.Changelog.Sections.{sections-heading, sections-line}
use release_me.Changelog.Moved.{
  outline, Reads, Reads-line, Reads-heading, heading-link_def, heading_moved,
}
use release_me.Changelog.{Heading, Section, sections, strip_links, keep_line}
use release_me.Changelog.Rewrite.{
  link_line, heading_line, Plan, new_links, rewrite_link, rewrite_line, rewrite_lines,
}

-- A plan whose version is valid, whose date fits its layout, and whose two links are URLs.
pub record PlanOk (p : Plan) : Type 0 where
  pub version_valid : IsValid p.version
  pub prints : Prints p.version
  pub date_fits : Fits p.date
  pub head_url : IsUrl (p.compare_url (b'v' ∷ to_string p.version) (codes "HEAD"))
  pub version_url : IsUrl (p.compare_url p.previous (b'v' ∷ to_string p.version))

module _ (p : Plan) (plan : PlanOk p) where
  -- The two definitions that replace the one of [Unreleased] are stripped too.
  Reads-new_links :
      (seen : Bool) (ls kept : List Bytes) (said : List (Heading × List Bytes))
      → Reads seen ls kept said
      → Reads seen (new_links p ++ ls) kept said
  Reads-new_links seen ls kept said h =
      let unreleased = codes "Unreleased" in
      let version = to_string p.version in
      let first = p.compare_url (b'v' ∷ version) (codes "HEAD") in
      let second = p.compare_url p.previous (b'v' ∷ version) in
      let second_def =
        link_def-link_line version second (is_empty-to_string p.version) plan.prints.no_bracket
          plan.version_url in
      let first_def =
        link_def-link_line unreleased first refl
          (all-Lacks (λ c. not (c == b']')) b']' unreleased refl refl) plan.head_url in
      let below : Reads seen (link_line version second ∷ ls) kept said =
        subst
          (λ o.
            Reads seen (link_line version second ∷ ls) (keep_line (link_line version second) o kept)
              said)
          second_def (Reads-line seen (link_line version second) ls kept said refl h) in
      subst
        (λ o. Reads seen (new_links p ++ ls) (keep_line (link_line unreleased first) o kept) said)
        first_def
        (Reads-line seen (link_line unreleased first) (link_line version second ∷ ls) kept said refl
          below)

  Reads-rewrite_link :
      (seen : Bool) (l : Bytes) (ls kept : List Bytes) (said : List (Heading × List Bytes))
      (o : Option (Bytes × Bytes))
      → Reads seen (l ∷ ls) (keep_line l o kept) said
      → Reads seen ls kept said
      → Reads seen (rewrite_link p l o ++ ls) (keep_line l o kept) said
  Reads-rewrite_link seen l ls kept said none same h = same
  Reads-rewrite_link seen l ls kept said (some (name, url)) same h =
      elim (Bool-cases (bytes_eq name (codes "Unreleased"))) [
        | inl e ↦
            subst (λ b. Reads seen ((if b then new_links p else l ∷ []) ++ ls) kept said) (sym e)
              (Reads-new_links seen ls kept said h)
        | inr e ↦
            subst (λ b. Reads seen ((if b then new_links p else l ∷ []) ++ ls) kept said) (sym e)
              same
      ]

  -- A line that `Release` copies or replaces, and that is no heading.
  pub Reads-rewrite_line :
      (seen : Bool) (n i : ℕ) (l : Bytes) (ls kept : List Bytes)
      (said : List (Heading × List Bytes))
      → is_heading l ≡ false
      → (i == n) ≡ false
      → Reads seen ls kept said
      → Reads seen (rewrite_line p n i l ++ ls) (keep_line l (link_def l) kept) said
  Reads-rewrite_line seen n i l ls kept said plain other h =
      subst
        (λ b.
          Reads seen
            ((if b
                then unreleased_head ∷ [] ∷ heading_line p.version (format_date p.date) ∷ []
                else rewrite_link p l (link_def l))
              ++ ls)
            (keep_line l (link_def l) kept) said)
        (sym other)
        (Reads-rewrite_link seen l ls kept said (link_def l)
          (Reads-line seen l ls kept said plain h) h)

  rewrite_line-heading :
      (n i : ℕ) (l : Bytes) → is_heading l ≡ true → (i == n) ≡ false → rewrite_line p n i l ≡ l ∷ []
  rewrite_line-heading n i l head other = rw (other, heading-link_def l head) refl

  -- Behind [Unreleased] the lines are read as before.
  pub rewrite_lines_behind :
      (n i : ℕ) (ls : List Bytes) {body : List Bytes} {ss : List Section}
      → n < i
      → sections i true ls ≡ ok (body, ss)
      → Reads true (rewrite_lines p n i ls) (strip_links body) (map outline ss)
  unfolding rewrite_lines sections strip_links
  rewrite_lines_behind n i [] {body} {ss} after h = λ j. (
    [],
    [],
    refl,
    ap (λ r. strip_links r.0) (ok-injective h),
    ap (λ r. map outline r.1) (ok-injective h),
  )
  rewrite_lines_behind n i (l ∷ ls) {body} {ss} after h = elim (Bool-cases (is_heading l)) [
    | inr plain ↦
        let (inner, er, eb) = sections-line i true l ls plain h in
        subst (λ b. Reads true (rewrite_lines p n i (l ∷ ls)) (strip_links b) (map outline ss))
          (sym eb)
          (Reads-rewrite_line true n i l _ (strip_links inner) (map outline ss) plain (ground arith)
            (rewrite_lines_behind n (suc i) ls (omega arith) er))
    | inl head ↦
        let (hd, inner, rest, eh, er, eb, es) = sections-heading i true l ls head h in
        subst₂ (λ b s. Reads true (rewrite_lines p n i (l ∷ ls)) (strip_links b) (map outline s))
          (sym eb) (sym es)
          (rw (rewrite_line-heading n i l head (ground arith)) (
            Reads-heading true true l (rewrite_lines p n (suc i) ls) (strip_links inner) hd
              (map outline rest) head
              (λ j. let (h', eh', same) = heading_moved i j l eh in (h', eh', same, refl))
              (rewrite_lines_behind n (suc i) ls (omega arith) er)))
  ]
