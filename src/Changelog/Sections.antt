-- ===== src/Changelog/Sections.antt =====
-- internal/changelog/changelog.go: one round of the loop of `Parse`, read backwards.
use release_me.Prelude.{
  ℕ, suc, ◌≤◌, ◌≡◌, sym, ap, ◌∙◌, subst, Bool, true, false, ◌||◌, inl, inr, Option, some, List, [],
  ◌∷◌, arith, Bool-cases, Bytes, ok, ◌>>=◌, >>=-ok, ok-injective,
}
use release_me.Changelog.Shapes.{is_heading}
use release_me.Changelog.Moved.{heading-unreleased_at}
use release_me.Changelog.{
  Heading, unreleased_at, released_at, Section, heading, is_unreleased, sections, unrel_line_of,
  prepend, open_section,
}
use release_me.Changelog.Rewrite.{}

pub sections-heading :
    (i : ℕ) (seen : Bool) (l : Bytes) (ls : List Bytes) {body : List Bytes} {ss : List Section}
    → is_heading l ≡ true
    → sections i seen (l ∷ ls) ≡ ok (body, ss)
    → (h : Heading) × (inner : List Bytes) × (rest : List Section) × (heading i seen l ≡ ok h)
      × (sections (suc i) (seen || is_unreleased h) ls ≡ ok (inner, rest))
      × (body ≡ [])
      × (ss ≡ record { heading = h; lines = inner } ∷ rest)
unfolding sections
sections-heading i seen l ls {body} {ss} e h =
    let (head, eh, h1) = >>=-ok (heading i seen l) _ (opened e h) in
    let ((inner, rest), er, h2) = >>=-ok (sections (suc i) (seen || is_unreleased head) ls) _ h1 in
    (
      head,
      inner,
      rest,
      eh,
      er,
      sym (ap (λ r. r.0) (ok-injective h2)),
      sym (ap (λ r. r.1) (ok-injective h2)),
    )
  where
    opened :
        is_heading l ≡ true
        → sections i seen (l ∷ ls) ≡ ok (body, ss)
        → (heading i seen l >>= λ h.
            sections (suc i) (seen || is_unreleased h) ls >>= open_section h)
          ≡ ok (body, ss)
    opened e h =
        subst
          (λ b.
            elim b [
              | false ↦ sections (suc i) seen ls >>= prepend l
              | true ↦ heading i seen l >>= λ h.
                  sections (suc i) (seen || is_unreleased h) ls >>= open_section h
            ]
            ≡ ok (body, ss))
          e h

pub sections-line :
    (i : ℕ) (seen : Bool) (l : Bytes) (ls : List Bytes) {body : List Bytes} {ss : List Section}
    → is_heading l ≡ false
    → sections i seen (l ∷ ls) ≡ ok (body, ss)
    → (inner : List Bytes) × (sections (suc i) seen ls ≡ ok (inner, ss)) × (body ≡ l ∷ inner)
unfolding sections
sections-line i seen l ls {body} {ss} e h =
    let ((inner, rest), er, h1) = >>=-ok (sections (suc i) seen ls) (prepend l) (
      subst
        (λ b.
          elim b [
            | false ↦ sections (suc i) seen ls >>= prepend l
            | true ↦ heading i seen l >>= λ h.
                sections (suc i) (seen || is_unreleased h) ls >>= open_section h
          ]
          ≡ ok (body, ss))
        e h) in
    (
      inner,
      er ∙ ap (λ r. ok (inner, r)) (ap (λ r. r.1) (ok-injective h1)),
      sym (ap (λ r. r.0) (ok-injective h1)),
    )

some-injective : {a b : ℕ} → ◌≡◌ {A = Option ℕ} (some a) (some b) → a ≡ b
some-injective q = cc

-- [Unreleased] does not stand before the line where the reading starts.
pub unrel_line_bound :
    (i : ℕ) (seen : Bool) (ls : List Bytes) {body : List Bytes} {ss : List Section} {n : ℕ}
    → sections i seen ls ≡ ok (body, ss)
    → unrel_line_of ss ≡ some n
    → i ≤ n
unfolding sections
unrel_line_bound i seen [] {ss = ss} h e = cc
unrel_line_bound i seen (l ∷ ls) {ss = ss} {n} h e = elim (Bool-cases (is_heading l)) [
  | inr plain ↦
      let (inner, er, _) = sections-line i seen l ls plain h in
      omega (arith, unrel_line_bound (suc i) seen ls er e)
  | inl head ↦
      let (hd, inner, rest, eh, er, _, es) = sections-heading i seen l ls head h in
      at hd inner rest eh (subst (λ t. unrel_line_of t ≡ some n) es e)
        (unrel_line_bound (suc i) (seen || is_unreleased hd) ls er)
]
  where
    at :
        (hd : Heading) (inner : List Bytes) (rest : List Section)
        → heading i seen l ≡ ok hd
        → unrel_line_of (record { heading = hd; lines = inner } ∷ rest) ≡ some n
        → (unrel_line_of rest ≡ some n → suc i ≤ n)
        → i ≤ n
    at (unreleased_at k) inner rest eh e later =
        omega (arith, heading-unreleased_at i seen l eh, some-injective e)
    at (released_at v d y k) inner rest eh e later = omega (arith, later e)
