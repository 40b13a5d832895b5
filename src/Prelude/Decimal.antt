-- ===== src/Prelude/Decimal.antt =====
-- Decimal numbers: `%d` of package fmt on a uint64, and `strconv.ParseUint(s, 10, 64)`.
use Prim.Native.Nat.{ℕ, zero, suc, ◌+◌, ◌-◌, ◌*◌, ◌/◌, ◌%◌, ◌^◌, ◌≤◌, ◌<◌}
use mathlib.Core.Path.{◌≡◌, refl, sym, ap, ◌∙◌}
use mathlib.Core.Logic.{inl, inr}
use mathlib.Core.Bool.{Bool, true, false, ◌&&◌}
use mathlib.Core.List.{[], ◌∷◌, ◌++◌, append-nil, append_assoc}
use mathlib.Core.Option.{Option, none, some}
use native.Mathlib.Omega.{arith}
use release_me.Prelude.Tests.{Bool-cases, ltb→lt, ltb, leb, ◌==◌, if◌then◌else◌}
use release_me.Prelude.Lists.{all, length, length-append}
use release_me.Prelude.Strings.{Bytes}

abbrev pub is_digit : ℕ → Bool
is_digit c = leb b'0' c && leb c b'9'

-- a digit string with at least one digit
abbrev pub is_decimal : Bytes → Bool
is_decimal [] = false
is_decimal (c ∷ s) = all is_digit (c ∷ s)

-- the number that the digits spell behind `n`, with no bound
abbrev pub value : ℕ → Bytes → ℕ
value n [] = n
value n (c ∷ s) = value (n * 10 + (c - b'0')) s

abbrev pub u64_mod : ℕ
u64_mod = 2 ^ 64

-- `none` is the error: not a number, or out of range.
unfoldable pub parse_uint : Bytes → Option ℕ
parse_uint s = if is_decimal s && ltb (value 0 s) u64_mod then some (value 0 s) else none

digits : ℕ → ℕ → Bytes
digits zero n = (b'0' + n % 10) ∷ []
digits (suc f) n =
    let longer = digits f (n / 10) ++ ((b'0' + n % 10) ∷ []) in
    if ltb n 10 then (b'0' + n) ∷ [] else longer

-- `%d`. Fuel `n` is enough, as each round divides by ten.
unfoldable pub format_uint : ℕ → Bytes
unfolding digits
format_uint n = digits n n

digits_fuel : (f g n : ℕ) → n ≤ f → n ≤ g → digits f n ≡ digits g n
unfolding digits
digits_fuel zero zero n hf hg = refl
digits_fuel zero (suc g) n hf hg = ground arith
digits_fuel (suc f) zero n hf hg = ground arith
digits_fuel (suc f) (suc g) n hf hg = ground (arith, digits_fuel f g (n / 10))

pub format_uint_small : (n : ℕ) → n < 10 → format_uint n ≡ (b'0' + n) ∷ []
unfolding format_uint
format_uint_small zero h = refl
format_uint_small (suc n) h = ground arith

pub format_uint_step :
    (n : ℕ) → 10 ≤ n → format_uint n ≡ format_uint (n / 10) ++ ((b'0' + n % 10) ∷ [])
unfolding format_uint
format_uint_step zero h = absurd (omega arith)
format_uint_step (suc n) h = ground (arith, digits_fuel n (suc n / 10) (suc n / 10))

-- A number below a power of ten has at most as many digits.
pub length-format_uint : (w n : ℕ) → n < 10 ^ suc w → length (format_uint n) ≤ suc w
length-format_uint zero n h = rw (format_uint_small n (omega arith)) (omega arith)
length-format_uint (suc w) n h = elim (Bool-cases (ltb n 10)) [
  | inl small ↦ rw (format_uint_small n (ltb→lt n 10 small)) (omega arith)
  | inr large ↦
      let least : 10 ≤ n = ground arith in
      let shorter : n / 10 < 10 ^ suc w = ground arith in
      omega (
        arith,
        ap length (format_uint_step n least),
        length-append (format_uint (n / 10)) ((b'0' + n % 10) ∷ []),
        length-format_uint w (n / 10) shorter,
      )
]

value-append : (n c : ℕ) (s : Bytes) → value n (s ++ (c ∷ [])) ≡ value n s * 10 + (c - b'0')
value-append n c [] = refl
value-append n c (a ∷ s) = value-append (n * 10 + (a - b'0')) c s

pub all-append : (p : ℕ → Bool) (x y : Bytes) → all p (x ++ y) ≡ (all p x && all p y)
all-append p [] y = refl
all-append p (a ∷ x) y = ground (arith, all-append p x y)

value-digits : (f n : ℕ) → n ≤ f → value 0 (digits f n) ≡ n
unfolding digits
value-digits zero n h = omega arith
value-digits (suc f) n h =
    ground (arith, value-digits f (n / 10), value-append 0 (b'0' + n % 10) (digits f (n / 10)))

all_digits : (f n : ℕ) → all is_digit (digits f n) ≡ true
unfolding digits
all_digits zero n = ground arith
all_digits (suc f) n =
    ground
      (arith, all_digits f (n / 10), all-append is_digit (digits f (n / 10)) ((b'0' + n % 10) ∷ []))

-- `p[0] == '0'` of a string with more than one byte
abbrev pub has_leading_zero : Bytes → Bool
has_leading_zero [] = false
has_leading_zero (c ∷ []) = false
has_leading_zero (c ∷ d ∷ s) = c == b'0'

abbrev starts_zero : Bytes → Bool
starts_zero [] = true
starts_zero (c ∷ s) = c == b'0'

starts_zero-append : (x y : Bytes) → starts_zero x ≡ false → starts_zero (x ++ y) ≡ false
starts_zero-append [] y h = cc
starts_zero-append (c ∷ x) y h = h

starts_zero-digits : (f n : ℕ) → 0 < n → n ≤ f → starts_zero (digits f n) ≡ false
unfolding digits
starts_zero-digits zero n p h = absurd (omega arith)
starts_zero-digits (suc f) n p h = ground (
  arith,
  starts_zero-digits f (n / 10),
  starts_zero-append (digits f (n / 10)) ((b'0' + n % 10) ∷ []),
)

not_leading : (s : Bytes) → starts_zero s ≡ false → has_leading_zero s ≡ false
not_leading [] h = refl
not_leading (c ∷ []) h = refl
not_leading (c ∷ d ∷ s) h = h

is_decimal_of_digits :
    (s : Bytes) → starts_zero s ≡ false → all is_digit s ≡ true → is_decimal s ≡ true
is_decimal_of_digits [] h k = cc
is_decimal_of_digits (c ∷ s) h k = k

pub format_uint-is_decimal : (n : ℕ) → is_decimal (format_uint n) ≡ true
unfolding format_uint
format_uint-is_decimal zero = refl
format_uint-is_decimal (suc n) =
    is_decimal_of_digits (digits (suc n) (suc n))
      (starts_zero-digits (suc n) (suc n) (omega arith) (omega arith)) (all_digits (suc n) (suc n))

pub format_uint-has_leading_zero : (n : ℕ) → has_leading_zero (format_uint n) ≡ false
unfolding format_uint
format_uint-has_leading_zero zero = refl
format_uint-has_leading_zero (suc n) =
    not_leading (digits (suc n) (suc n))
      (starts_zero-digits (suc n) (suc n) (omega arith) (omega arith))

value-format_uint : (n : ℕ) → value 0 (format_uint n) ≡ n
unfolding format_uint
value-format_uint n = value-digits n n (omega arith)

-- Every uint64 is read back from its decimal print.
pub parse_uint-format_uint : (n : ℕ) → n < u64_mod → parse_uint (format_uint n) ≡ some n
unfolding parse_uint
parse_uint-format_uint n h = rw (format_uint-is_decimal n, value-format_uint n) (ground arith)

format_uint-value :
    (n : ℕ) (s : Bytes)
    → 0 < n
    → all is_digit s ≡ true
    → format_uint (value n s) ≡ format_uint n ++ s
format_uint-value n [] p h = sym (append-nil (format_uint n))
format_uint-value n (c ∷ s) p h =
    let m = n * 10 + (c - b'0') in
    let digit : (m / 10 ≡ n) × (b'0' + m % 10 ≡ c) = (ground arith, ground arith) in
    let tail : all is_digit s ≡ true = ground arith in
    format_uint-value m s (omega arith) tail
    ∙ ground
        (arith, format_uint_step m (omega arith), digit, append_assoc (format_uint n) (c ∷ []) s)

-- A canonical digit string is the print of its value.
pub format_uint_self :
    (s : Bytes) → is_decimal s ≡ true → has_leading_zero s ≡ false → format_uint (value 0 s) ≡ s
format_uint_self [] h k = cc
format_uint_self (c ∷ []) h k = format_uint_small (0 + (c - b'0')) (ground arith) ∙ ground arith
format_uint_self (c ∷ d ∷ s) h k =
    format_uint-value (0 + (c - b'0')) (d ∷ s) (ground arith) (ground arith)
    ∙ ground (arith, format_uint_small (0 + (c - b'0')) (ground arith))
