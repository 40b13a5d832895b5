-- ===== src/Changelog/Cut.antt =====
-- internal/changelog/changelog.go: the lines that `Release` writes are matched by the expressions of
-- `Parse`.
use release_me.Prelude.{
  ℕ, zero, suc, ◌-◌, ◌<◌, ◌≡◌, ◌≢◌, refl, ap, ◌∙◌, true, false, some, [], ◌∷◌, ◌++◌, arith, &&_iff,
  all, all-Lacks, is_empty, length, length-append, take, drop, Bytes, codes, Lacks, cut_byte-append,
  split-join, join, join-All, trim_left, trim_right, trim_cons, is_digit, format_uint,
  format_uint-is_decimal, is_decimal, ◌^◌, length-format_uint, all-append,
}
use release_me.Semver.Printed.{is_empty-to_string}
use release_me.Semver.{Version, to_string}
use release_me.Signers.Time.{Civil}
use release_me.Changelog.Shapes.{
  re_space, not_space, link_def, date_shape, release_heading, zeros, padded, format_date,
}
use release_me.Changelog.Rewrite.{link_line, heading_line}

trim_left-not_space : (s : Bytes) → all not_space s ≡ true → trim_left re_space s ≡ s
trim_left-not_space [] h = refl
trim_left-not_space (c ∷ s) h = ground arith

trim_right-not_space : (s : Bytes) → all not_space s ≡ true → trim_right re_space s ≡ s
trim_right-not_space [] h = refl
trim_right-not_space (c ∷ []) h = ground arith
trim_right-not_space (c ∷ d ∷ s) h =
    ap (trim_cons re_space c)
      (trim_right-not_space (d ∷ s) ((&&_iff (not_space c) (all not_space (d ∷ s))).0 h).1)

-- A URL that a reference definition can hold.
pub record IsUrl (url : Bytes) : Type 0 where
  pub not_empty : is_empty url ≡ false
  pub no_spaces : all not_space url ≡ true

pub link_def-link_line :
    (name url : Bytes)
    → is_empty name ≡ false
    → Lacks b']' name
    → IsUrl url
    → link_def (link_line name url) ≡ some (name, url)
link_def-link_line name url ne apart h = rw (
  cut_byte-append b']' name (b':' ∷ b' ' ∷ url) apart,
  trim_left-not_space url h.no_spaces,
  trim_right-not_space url h.no_spaces,
  ne,
  h.not_empty,
  h.no_spaces,
)

-- A date whose numbers fit in the fields of the layout.
pub record Fits (date : Civil) : Type 0 where
  pub year_fits : date.year < 10000
  pub month_fits : date.month < 100
  pub day_fits : date.day < 100

length-zeros : (n : ℕ) → length (zeros n) ≡ n
length-zeros zero = refl
length-zeros (suc n) = omega (arith, length-zeros n)

all_digits-zeros : (n : ℕ) → all is_digit (zeros n) ≡ true
all_digits-zeros zero = refl
all_digits-zeros (suc n) = all_digits-zeros n

all_digits_of_decimal : (s : Bytes) → is_decimal s ≡ true → all is_digit s ≡ true
all_digits_of_decimal [] h = cc
all_digits_of_decimal (c ∷ s) h = h

module _ (w n : ℕ) (h : n < 10 ^ suc w) where
  length-padded : length (padded (suc w) n) ≡ suc w
  length-padded = omega (
    arith,
    length-append (zeros (suc w - length (format_uint n))) (format_uint n),
    length-zeros (suc w - length (format_uint n)),
    length-format_uint w n h,
  )

  all_digits-padded : all is_digit (padded (suc w) n) ≡ true
  all_digits-padded =
      all-append is_digit (zeros (suc w - length (format_uint n))) (format_uint n)
      ∙ rw (
        all_digits-zeros (suc w - length (format_uint n)),
        all_digits_of_decimal (format_uint n) (format_uint-is_decimal n),
      )

  padded-Lacks : (x : ℕ) → is_digit x ≡ false → Lacks x (padded (suc w) n)
  padded-Lacks x e = all-Lacks is_digit x (padded (suc w) n) e all_digits-padded

module _ (t : Civil) (h : Fits t) where
  length-format_date : length (format_date t) ≡ 10
  unfolding format_date join
  length-format_date = omega (
    arith,
    length-append (padded 4 t.year) (b'-' ∷ (padded 2 t.month ++ (b'-' ∷ padded 2 t.day))),
    length-append (padded 2 t.month) (b'-' ∷ padded 2 t.day),
    length-padded 3 t.year h.year_fits,
    length-padded 1 t.month h.month_fits,
    length-padded 1 t.day h.day_fits,
  )

  pub format_date-Lacks : (x : ℕ) → is_digit x ≡ false → b'-' ≢ x → Lacks x (format_date t)
  unfolding format_date
  format_date-Lacks x e dash =
      join-All (λ d. d ≢ x) b'-' (padded 4 t.year ∷ padded 2 t.month ∷ padded 2 t.day ∷ []) dash
        (
          padded-Lacks 3 t.year h.year_fits x e,
          (padded-Lacks 1 t.month h.month_fits x e, (padded-Lacks 1 t.day h.day_fits x e, tt)),
        )

  date_shape-format_date : date_shape (format_date t) ≡ true
  unfolding format_date
  date_shape-format_date = rw (
    split-join b'-' (padded 4 t.year ∷ padded 2 t.month ∷ padded 2 t.day ∷ []) (cc) (
      padded-Lacks 3 t.year h.year_fits b'-' refl,
      (
        padded-Lacks 1 t.month h.month_fits b'-' refl,
        (padded-Lacks 1 t.day h.day_fits b'-' refl, tt),
      ),
    ),
    length-padded 3 t.year h.year_fits,
    length-padded 1 t.month h.month_fits,
    length-padded 1 t.day h.day_fits,
    all_digits-padded 3 t.year h.year_fits,
    all_digits-padded 1 t.month h.month_fits,
    all_digits-padded 1 t.day h.day_fits,
  )

take_whole : (n : ℕ) (s : Bytes) → length s ≡ n → take n s ≡ s
take_whole zero [] h = refl
take_whole zero (c ∷ s) h = absurd (omega arith)
take_whole (suc n) [] h = refl
take_whole (suc n) (c ∷ s) h = ap (λ r. c ∷ r) (take_whole n s (omega arith))

drop_whole : (n : ℕ) (s : Bytes) → length s ≡ n → drop n s ≡ []
drop_whole zero [] h = refl
drop_whole zero (c ∷ s) h = absurd (omega arith)
drop_whole (suc n) [] h = refl
drop_whole (suc n) (c ∷ s) h = drop_whole n s (omega arith)

-- A version that prints without ']'.
pub record Prints (v : Version) : Type 0 where
  pub no_bracket : Lacks b']' (to_string v)
  pub no_newline : Lacks b'\n' (to_string v)

-- The heading that `Release` writes is one that `releaseHeading` matches.
pub release_heading-heading_line :
    (v : Version) (t : Civil)
    → Prints v
    → Fits t
    → release_heading (heading_line v (format_date t)) ≡ some (to_string v, format_date t, false)
release_heading-heading_line v t apart h = rw (
  cut_byte-append b']' (to_string v) (codes " - " ++ format_date t) apart.no_bracket,
  is_empty-to_string v,
  take_whole 10 (format_date t) (length-format_date t h),
  date_shape-format_date t h,
  drop_whole 10 (format_date t) (length-format_date t h),
)
