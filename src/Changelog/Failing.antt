-- ===== src/Changelog/Failing.antt =====
-- internal/changelog/changelog.go: the first line at which the loop of `Parse` fails.
use release_me.Prelude.{
  ℕ, suc, ◌+◌, ◌≡◌, ◌⊎◌, refl, sym, ap, ◌∙◌, subst, Bool, true, false, ◌||◌, inl, inr, List, [],
  ◌∷◌, ◌++◌, arith, length, Bool-cases, Bytes, Result, ok, err, ◌>>=◌, ok-injective, err-injective,
}
use release_me.Changelog.Shapes.{is_heading}
use release_me.Changelog.Sections.{sections-heading, sections-line}
use release_me.Changelog.{
  Section, ChangelogError, heading, is_unreleased, sections, Heading, prepend, open_section,
}

abbrev pub any_unreleased : List Section → Bool
any_unreleased [] = false
any_unreleased (s ∷ ss) = is_unreleased s.heading || any_unreleased ss

-- The first line that is refused, behind lines that are read.
pub record FailsAt (i : ℕ) (seen : Bool) (lines : List Bytes) (e : ChangelogError) : Type 0 where
  pub before : List Bytes
  pub line : Bytes
  pub after : List Bytes
  pub kept : List Bytes
  pub found : List Section
  pub parts : lines ≡ before ++ (line ∷ after)
  pub read : sections i seen before ≡ ok (kept, found)
  pub is_head : is_heading line ≡ true
  pub refused : heading (i + length before) (seen || any_unreleased found) line ≡ err e

>>=-err :
    {E A B : Type 0} (first : Result E A) (next : A → Result E B) {e : E}
    → (first >>= next) ≡ err e
    → (first ≡ err e) ⊎ ((x : A) × (first ≡ ok x) × (next x ≡ err e))
>>=-err (err _) next h = inl (ap err (err-injective h))
>>=-err (ok x) next h = inr (x, refl, h)

never_err :
    (h : Heading) (r : Result ChangelogError (List Bytes × List Section)) {e : ChangelogError}
    → (r >>= open_section h) ≡ err e
    → r ≡ err e
never_err hd (err _) h = ap err (err-injective h)
never_err hd (ok (body, rest)) h = cc

never_err_line :
    (l : Bytes) (r : Result ChangelogError (List Bytes × List Section)) {e : ChangelogError}
    → (r >>= prepend l) ≡ err e
    → r ≡ err e
never_err_line l (err _) h = ap err (err-injective h)
never_err_line l (ok (body, rest)) h = cc

||-false : (b : Bool) → (b || false) ≡ b
||-false true = refl
||-false false = refl

||-assoc : (a b c : Bool) → ((a || b) || c) ≡ (a || (b || c))
||-assoc true b c = refl
||-assoc false b c = refl

sections-nil : (i : ℕ) (seen : Bool) → sections i seen [] ≡ ok ([], [])
unfolding sections
sections-nil i seen = refl

sections-at_heading :
    (i : ℕ) (seen : Bool) (l : Bytes) (ls : List Bytes)
    → is_heading l ≡ true
    → sections i seen (l ∷ ls)
      ≡ (heading i seen l >>= λ h. sections (suc i) (seen || is_unreleased h) ls >>= open_section h)
unfolding sections
sections-at_heading i seen l ls head = rw head refl

sections-at_line :
    (i : ℕ) (seen : Bool) (l : Bytes) (ls : List Bytes)
    → is_heading l ≡ false
    → sections i seen (l ∷ ls) ≡ (sections (suc i) seen ls >>= prepend l)
unfolding sections
sections-at_line i seen l ls plain = rw plain refl

-- The lines fail where they fail behind one more line.
FailsAt-line :
    (i : ℕ) (seen : Bool) (l : Bytes) (ls : List Bytes) {e : ChangelogError}
    → is_heading l ≡ false
    → FailsAt (suc i) seen ls e
    → FailsAt i seen (l ∷ ls) e
FailsAt-line i seen l ls {e} plain f = record {
  before = l ∷ f.before;
  line = f.line;
  after = f.after;
  kept = l ∷ f.kept;
  found = f.found;
  parts = ap (λ t. l ∷ t) f.parts;
  read = sections-at_line i seen l f.before plain ∙ ap (λ r. r >>= prepend l) f.read;
  is_head = f.is_head;
  refused =
      subst (λ k. heading k (seen || any_unreleased f.found) f.line ≡ err e) (omega arith)
        f.refused;
}

FailsAt-heading :
    (i : ℕ) (seen : Bool) (l : Bytes) (ls : List Bytes) (h : Heading) {e : ChangelogError}
    → is_heading l ≡ true
    → heading i seen l ≡ ok h
    → FailsAt (suc i) (seen || is_unreleased h) ls e
    → FailsAt i seen (l ∷ ls) e
FailsAt-heading i seen l ls h {e} head eh f =
    let section : Section = record { heading = h; lines = f.kept } in
    record {
      before = l ∷ f.before;
      line = f.line;
      after = f.after;
      kept = [];
      found = section ∷ f.found;
      parts = ap (λ t. l ∷ t) f.parts;
      read =
          sections-at_heading i seen l f.before head
          ∙ ap
              (λ r.
                r >>= λ h. sections (suc i) (seen || is_unreleased h) f.before >>= open_section h)
              eh
          ∙ ap (λ r. r >>= open_section h) f.read;
      is_head = f.is_head;
      refused =
          subst (λ k. heading k (seen || any_unreleased (section ∷ f.found)) f.line ≡ err e)
            (omega arith)
            (subst (λ b. heading (suc i + length f.before) b f.line ≡ err e)
              (||-assoc seen (is_unreleased h) (any_unreleased f.found)) f.refused);
    }

pub sections-FailsAt :
    (i : ℕ) (seen : Bool) (ls : List Bytes) {e : ChangelogError}
    → sections i seen ls ≡ err e
    → FailsAt i seen ls e
sections-FailsAt i seen [] h = unfold sections in cc
sections-FailsAt i seen (l ∷ ls) {e} h = elim (Bool-cases (is_heading l)) [
  | inr plain ↦ FailsAt-line i seen l ls plain (
      sections-FailsAt (suc i) seen ls
        (never_err_line l _ (sym (sections-at_line i seen l ls plain) ∙ h)))
  | inl head ↦
      elim (>>=-err (heading i seen l) _ (sym (sections-at_heading i seen l ls head) ∙ h)) [
        | inr (hd, eh, later) ↦
            FailsAt-heading i seen l ls hd head eh
              (sections-FailsAt (suc i) (seen || is_unreleased hd) ls (never_err hd _ later))
        | inl refused ↦ record {
          before = [];
          line = l;
          after = ls;
          kept = [];
          found = [];
          parts = refl;
          read = sections-nil i seen;
          is_head = head;
          refused =
              subst (λ k. heading k (seen || false) l ≡ err e) (omega arith)
                (subst (λ b. heading i b l ≡ err e) (sym (||-false seen)) refused);
        }
      ]
]

pub sections-behind :
    (i : ℕ) (seen : Bool) (before : List Bytes) (line : Bytes) (after : List Bytes)
    {kept : List Bytes} {found : List Section} {e : ChangelogError}
    → sections i seen before ≡ ok (kept, found)
    → is_heading line ≡ true
    → heading (i + length before) (seen || any_unreleased found) line ≡ err e
    → sections i seen (before ++ (line ∷ after)) ≡ err e
sections-behind i seen [] line after {found = found} {e} read head refused =
    let none_found : found ≡ [] = ap (λ r. r.1) (ok-injective (sym read ∙ sections-nil i seen)) in
    let here : heading i seen line ≡ err e =
      subst (λ k. heading k seen line ≡ err e) (omega arith)
        (subst (λ b. heading (i + 0) b line ≡ err e) (||-false seen)
          (subst (λ f. heading (i + 0) (seen || any_unreleased f) line ≡ err e) none_found
            refused)) in
    sections-at_heading i seen line after head ∙ rw here refl
sections-behind i seen (l ∷ before) line after {found = found} {e} read head refused =
    elim (Bool-cases (is_heading l)) [
      | inr plain ↦
          let (inner, er, _) = sections-line i seen l before plain read in
          sections-at_line i seen l (before ++ (line ∷ after)) plain
          ∙ rw
              (sections-behind (suc i) seen before line after er head (
                subst (λ k. heading k (seen || any_unreleased found) line ≡ err e) (omega arith)
                  refused))
              refl
      | inl opens ↦
          let (hd, inner, rest, eh, er, _, es) = sections-heading i seen l before opens read in
          let there : heading (suc i + length before)
                ((seen || is_unreleased hd) || any_unreleased rest) line
              ≡ err e =
            subst (λ k. heading k ((seen || is_unreleased hd) || any_unreleased rest) line ≡ err e)
              (omega arith)
              (subst (λ b. heading (i + suc (length before)) b line ≡ err e)
                (sym (||-assoc seen (is_unreleased hd) (any_unreleased rest)))
                (subst
                  (λ f. heading (i + suc (length before)) (seen || any_unreleased f) line ≡ err e)
                  es refused)) in
          sections-at_heading i seen l (before ++ (line ∷ after)) opens
          ∙ rw
              (
                eh,
                sections-behind (suc i) (seen || is_unreleased hd) before line after er head there,
              )
              refl
    ]
