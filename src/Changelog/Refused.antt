-- ===== src/Changelog/Refused.antt =====
-- internal/changelog/changelog.go: the headings that `Parse` refuses.
use release_me.Prelude.{
  ℕ, suc, ◌≡◌, ◌≢◌, refl, subst, Bool, true, false, inl, inr, none, some, if◌then◌else◌, Bool-cases,
  Bytes, bytes_eq, bytes_eq_iff, trim_right, Option, Result, ok, err, err-injective,
}
use release_me.Semver.{Version, SemverError}
use release_me.Semver
use release_me.Changelog.Shapes.{is_blank, release_heading, unreleased_head}
use release_me.Changelog.{
  ChangelogError, second_unreleased, bad_version, unrecognized_heading, heading, Heading,
  unreleased_at, released_heading, version_heading,
}

-- A heading that no changelog has at this line: `seen` says that there is a section [Unreleased] above.
pub data Refused (line : Bytes) (number : ℕ) : Bool → ChangelogError → Type 0 where
  again :
      trim_right is_blank line ≡ unreleased_head
      → Refused line number true (second_unreleased number)
  unmatched :
      {seen : Bool}
      → trim_right is_blank line ≢ unreleased_head
      → release_heading line ≡ none
      → Refused line number seen (unrecognized_heading number line)
  misnamed :
      {seen : Bool} {name : Bytes} {date : Bytes} {yanked : Bool} {e : SemverError}
      → trim_right is_blank line ≢ unreleased_head
      → release_heading line ≡ some (name, date, yanked)
      → Semver.parse name ≡ err e
      → Refused line number seen (bad_version number e)

version_heading-err :
    (i : ℕ) (date : Bytes) (yanked : Bool) (r : Result SemverError Version) {e : ChangelogError}
    → version_heading i date yanked r ≡ err e
    → (why : SemverError) × (r ≡ err why) × (bad_version (suc i) why ≡ e)
version_heading-err i date yanked (ok v) h = cc
version_heading-err i date yanked (err why) h = (why, refl, err-injective h)

released_heading-err :
    (i : ℕ) (seen : Bool) (l : Bytes) (o : Option (Bytes × Bytes × Bool)) {e : ChangelogError}
    → trim_right is_blank l ≢ unreleased_head
    → release_heading l ≡ o
    → released_heading i l o ≡ err e
    → Refused l (suc i) seen e
released_heading-err i seen l none other eo h =
    subst (Refused l (suc i) seen) (err-injective h) (unmatched other eo)
released_heading-err i seen l (some (name, date, yanked)) other eo h =
    let (why, er, ee) = version_heading-err i date yanked (Semver.parse name) h in
    subst (Refused l (suc i) seen) ee (misnamed other eo er)

unreleased_heading-err :
    (i : ℕ) (seen : Bool) (l : Bytes) {e : ChangelogError}
    → trim_right is_blank l ≡ unreleased_head
    → (if seen then err (second_unreleased (suc i)) else ok (unreleased_at i)) ≡ err e
    → Refused l (suc i) seen e
unreleased_heading-err i true l same h =
    subst (Refused l (suc i) true) (err-injective h) (again same)
unreleased_heading-err i false l same h = cc

pub heading-Refused :
    (i : ℕ) (seen : Bool) (l : Bytes) {e : ChangelogError}
    → heading i seen l ≡ err e
    → Refused l (suc i) seen e
unfolding heading
heading-Refused i seen l {e} h =
    elim (Bool-cases (bytes_eq (trim_right is_blank l) unreleased_head)) [
      | inl same ↦
          unreleased_heading-err i seen l
            ((bytes_eq_iff (trim_right is_blank l) unreleased_head).0 same)
            (subst (λ b. choice b ≡ err e) same h)
      | inr other ↦
          released_heading-err i seen l (release_heading l)
            (λ q. differs other ((bytes_eq_iff (trim_right is_blank l) unreleased_head).1 q)) refl
            (subst (λ b. choice b ≡ err e) other h)
    ]
  where
    choice : Bool → Result ChangelogError Heading
    choice b =
        if b
        then (if seen then err (second_unreleased (suc i)) else ok (unreleased_at i))
        else released_heading i l (release_heading l)

    differs : {b : Bool} → b ≡ false → b ≢ true
    differs e1 e2 = cc

bytes_eq-false : (x y : Bytes) → x ≢ y → bytes_eq x y ≡ false
bytes_eq-false x y ne = elim (Bool-cases (bytes_eq x y)) [
  | inl same ↦ absurd (ne ((bytes_eq_iff x y).0 same))
  | inr other ↦ other
]

pub Refused-heading :
    (i : ℕ) (seen : Bool) (l : Bytes) {e : ChangelogError}
    → Refused l (suc i) seen e
    → heading i seen l ≡ err e
unfolding heading
Refused-heading i true l (again same) =
    rw ((bytes_eq_iff (trim_right is_blank l) unreleased_head).1 same) refl
Refused-heading i seen l (unmatched other eo) =
    rw (bytes_eq-false (trim_right is_blank l) unreleased_head other, eo) refl
Refused-heading i seen l (misnamed other eo er) =
    rw (bytes_eq-false (trim_right is_blank l) unreleased_head other, eo, er) refl
