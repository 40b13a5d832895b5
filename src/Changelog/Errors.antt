-- ===== src/Changelog/Errors.antt =====
-- internal/changelog/changelog.go: when `Parse` fails, and with which error.
use release_me.Prelude.{
  suc, ◌+◌, ◌≡◌, ◌↔◌, ap, ◌∙◌, subst, true, false, List, ◌∷◌, ◌++◌, arith, length, Bytes, split,
  Result, ok, err, ◌>>=◌, err-injective,
}
use release_me.Changelog.Shapes.{is_heading}
use release_me.Changelog.Refused.{Refused, heading-Refused, Refused-heading}
use release_me.Changelog.{Section, ChangelogError, heading, sections, parse, parsed}
use release_me.Changelog.Failing.{any_unreleased, sections-FailsAt, sections-behind}

-- Why a text is no changelog: the lines before one are read, and it is a heading that is refused.
pub record IsRefused (text : Bytes) (e : ChangelogError) : Type 0 where
  pub before : List Bytes
  pub line : Bytes
  pub after : List Bytes
  pub kept : List Bytes
  pub found : List Section
  pub parts : split b'\n' text ≡ before ++ (line ∷ after)
  pub read : sections 0 false before ≡ ok (kept, found)
  pub is_head : is_heading line ≡ true
  pub refused : Refused line (suc (length before)) (any_unreleased found) e

parsed_never :
    (lines : List Bytes) (r : Result ChangelogError (List Bytes × List Section))
    {e : ChangelogError}
    → (r >>= parsed lines) ≡ err e
    → r ≡ err e
unfolding parsed
parsed_never lines (err _) h = ap err (err-injective h)
parsed_never lines (ok (body, ss)) h = cc

-- `Parse` fails with an error exactly if the text splits into lines that are read, a heading that
-- is refused, and the rest: the heading is a second [Unreleased], or not of the form of a
-- release, or its version is none, and the error says which, with the number of that line.
pub parse-IsRefused : (text : Bytes) (e : ChangelogError) → (parse text ≡ err e) ↔ IsRefused text e
unfolding parse
parse-IsRefused text e = (
  λ h.
      let f = sections-FailsAt 0 false (split b'\n' text) (parsed_never (split b'\n' text) _ h) in
      record {
        before = f.before;
        line = f.line;
        after = f.after;
        kept = f.kept;
        found = f.found;
        parts = f.parts;
        read = f.read;
        is_head = f.is_head;
        refused =
            subst (λ k. Refused f.line (suc k) (any_unreleased f.found) e) (omega arith)
              (heading-Refused (0 + length f.before) (any_unreleased f.found) f.line f.refused);
      },
  λ r.
      ap (λ s. s >>= parsed (split b'\n' text))
        (ap (sections 0 false) r.parts
          ∙ sections-behind 0 false r.before r.line r.after r.read r.is_head (
              subst (λ k. heading k (any_unreleased r.found) r.line ≡ err e) (omega arith)
                (Refused-heading (length r.before) (any_unreleased r.found) r.line r.refused))),
)
