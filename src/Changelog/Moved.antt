-- ===== src/Changelog/Moved.antt =====
-- internal/changelog/changelog.go: how `Parse` reads the lines that the loop of `Release` writes for those
-- of a changelog.
use release_me.Prelude.{
  ℕ, suc, ◌≡◌, ◌≢◌, refl, ap, ap₂, ◌∙◌, subst, Bool, true, false, ◌||◌, inl, inr, Option, none,
  some, List, [], ◌∷◌, map, arith, if◌then◌else◌, Bool-cases, Bytes, bytes_eq, trim_right, Result,
  ok, err, ok-injective,
}
use release_me.Semver.{Version, SemverError, to_string}
use release_me.Semver
use release_me.Changelog.Shapes.{is_heading, is_blank, link_def, release_heading, unreleased_head}
use release_me.Changelog.Cut.{}
use release_me.Changelog.{
  Heading, unreleased_at, released_at, Section, ChangelogError, heading, is_unreleased, sections,
  strip_links, keep_line, released_heading, version_heading, second_unreleased,
}

-- A heading without the number of its line.
abbrev pub unplaced : Heading → Heading
unplaced (unreleased_at _) = unreleased_at 0
unplaced (released_at v date yanked _) = released_at v date yanked 0

-- What a section says: its heading, and its lines but the reference definitions.
abbrev pub outline : Section → Heading × List Bytes
outline s = (unplaced s.heading, strip_links s.lines)

-- From any line number on, the lines are read as `kept` before the first heading, and as the sections
-- that say `said`.
abbrev pub Reads : Bool → List Bytes → List Bytes → List (Heading × List Bytes) → Type 0
Reads seen lines kept said =
    (i : ℕ)
    → (body : List Bytes) × (ss : List Section) × (sections i seen lines ≡ ok (body, ss))
      × (strip_links body ≡ kept)
      × (map outline ss ≡ said)

pub heading-link_def : (l : Bytes) → is_heading l ≡ true → link_def l ≡ none
heading-link_def [] h = refl
heading-link_def (c ∷ l) h = ground arith

version_heading-unreleased_at :
    (i : ℕ) (date : Bytes) (yanked : Bool) (r : Result SemverError Version) {k : ℕ}
    → version_heading i date yanked r ≢ ok (unreleased_at k)
version_heading-unreleased_at i date yanked (ok v) h = cc
version_heading-unreleased_at i date yanked (err e) h = cc

released_heading-unreleased_at :
    (i : ℕ) (l : Bytes) (o : Option (Bytes × Bytes × Bool)) {k : ℕ}
    → released_heading i l o ≢ ok (unreleased_at k)
released_heading-unreleased_at i l none h = cc
released_heading-unreleased_at i l (some (name, date, yanked)) h =
    version_heading-unreleased_at i date yanked (Semver.parse name) h

pub heading-unreleased_at :
    (i : ℕ) (seen : Bool) (l : Bytes) {k : ℕ} → heading i seen l ≡ ok (unreleased_at k) → k ≡ i
unfolding heading
heading-unreleased_at i seen l {k} h =
    elim (Bool-cases (bytes_eq (trim_right is_blank l) unreleased_head)) [
      | inl e ↦ unreleased seen (subst (λ b. choice b ≡ ok (unreleased_at k)) e h)
      | inr e ↦ absurd (
          released_heading-unreleased_at i l (release_heading l)
            (subst (λ b. choice b ≡ ok (unreleased_at k)) e h))
    ]
  where
    choice : Bool → Result ChangelogError Heading
    choice b =
        if b
        then (if seen then err (second_unreleased (suc i)) else ok (unreleased_at i))
        else released_heading i l (release_heading l)

    unreleased :
        (seen : Bool)
        → (if seen then err (second_unreleased (suc i)) else ok (unreleased_at i))
          ≡ ok (unreleased_at k)
        → k ≡ i
    unreleased true e = cc
    unreleased false e = cc

version_moved :
    (i j : ℕ) (date : Bytes) (yanked : Bool) (r : Result SemverError Version) {h : Heading}
    → version_heading i date yanked r ≡ ok h
    → (h' : Heading) × (version_heading j date yanked r ≡ ok h') × (unplaced h' ≡ unplaced h)
version_moved i j date yanked (err e) h = cc
version_moved i j date yanked (ok v) h =
    (released_at v date yanked (suc j), refl, ap unplaced (ok-injective h))

released_moved :
    (i j : ℕ) (l : Bytes) (o : Option (Bytes × Bytes × Bool)) {h : Heading}
    → released_heading i l o ≡ ok h
    → (h' : Heading) × (released_heading j l o ≡ ok h') × (unplaced h' ≡ unplaced h)
released_moved i j l none h = cc
released_moved i j l (some (name, date, yanked)) h =
    version_moved i j date yanked (Semver.parse name) h

-- A heading that is read behind [Unreleased] is read at any other line.
pub heading_moved :
    (i j : ℕ) (l : Bytes) {h : Heading}
    → heading i true l ≡ ok h
    → (h' : Heading) × (heading j true l ≡ ok h') × (unplaced h' ≡ unplaced h)
unfolding heading
heading_moved i j l {h} e = elim (Bool-cases (bytes_eq (trim_right is_blank l) unreleased_head)) [
  | inl second ↦ absurd (never second e)
  | inr other ↦
      let (h', moved, same) = released_moved i j l (release_heading l) (released other e) in
      (h', rw other moved, same)
]
  where
    never : bytes_eq (trim_right is_blank l) unreleased_head ≡ true → heading i true l ≢ ok h
    never second e = cc

    released :
        bytes_eq (trim_right is_blank l) unreleased_head ≡ false
        → heading i true l ≡ ok h
        → released_heading i l (release_heading l) ≡ ok h
    released other e = cc

-- A line that is no heading joins the lines before the next one.
pub Reads-line :
    (seen : Bool) (l : Bytes) (ls kept : List Bytes) (said : List (Heading × List Bytes))
    → is_heading l ≡ false
    → Reads seen ls kept said
    → Reads seen (l ∷ ls) (keep_line l (link_def l) kept) said
unfolding sections strip_links
Reads-line seen l ls kept said plain h i =
    let (body, ss, read, k, s) = h (suc i) in (l ∷ body, ss, rw (plain, read), rw k, s)

-- A heading opens a section with the lines before the next one.
pub Reads-heading :
    (seen seen' : Bool) (l : Bytes) (ls kept : List Bytes) (h : Heading)
    (said : List (Heading × List Bytes))
    → is_heading l ≡ true
    → ((i : ℕ)
        → (h' : Heading) × (heading i seen l ≡ ok h')
          × (unplaced h' ≡ unplaced h)
          × ((seen || is_unreleased h') ≡ seen'))
    → Reads seen' ls kept said
    → Reads seen (l ∷ ls) [] ((unplaced h, kept) ∷ said)
unfolding sections strip_links
Reads-heading seen seen' l ls kept h said head read below i =
    let (h', eh, same, next) = read i in
    let (body, ss, er, k, s) = below (suc i) in
    let inner : sections (suc i) (seen || is_unreleased h') ls ≡ ok (body, ss) =
      ap (λ b. sections (suc i) b ls) next ∙ er in
    (
      [],
      record { heading = h'; lines = body } ∷ ss,
      rw (head, eh, inner),
      refl,
      ap₂ (λ o r. o ∷ r) (ap₂ (λ a b. (a, b)) same k) s,
    )
