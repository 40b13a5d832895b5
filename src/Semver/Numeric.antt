-- ===== src/Semver/Numeric.antt =====
-- Numeric identifiers: comparing lengths and then bytes is comparing the numbers.
use release_me.Prelude.{
  ℕ, zero, suc, ◌+◌, ◌-◌, ◌*◌, ◌≤◌, ◌<◌, ◌≡◌, ap, true, false, [], ◌∷◌, arith, length, Bytes, all,
  bytes_compare, is_digit, has_leading_zero, value,
}
use release_me.Semver.{cmp_u, cmp_identifier, is_numeric}

abbrev pow10 : ℕ → ℕ
pow10 zero = 1
pow10 (suc n) = 10 * pow10 n

pow10_mono : (m n : ℕ) → m ≤ n → pow10 m ≤ pow10 n
pow10_mono zero zero h = omega arith
pow10_mono zero (suc n) h = omega (arith, pow10_mono zero n (omega arith))
pow10_mono (suc m) zero h = absurd (omega arith)
pow10_mono (suc m) (suc n) h = omega (arith, pow10_mono m n (omega arith))

value_bounds :
    (n : ℕ) (s : Bytes)
    → all is_digit s ≡ true
    → (n * pow10 (length s) ≤ value n s) × (value n s < (n + 1) * pow10 (length s))
value_bounds n [] h = omega arith
value_bounds n (c ∷ s) h =
    let tail : all is_digit s ≡ true = ground arith in
    let digit : c - b'0' < 10 = ground arith in
    let (low, high) = value_bounds (n * 10 + (c - b'0')) s tail in
    let p = pow10 (length s) in
    let room : (n * 10 + (c - b'0') + 1) * p ≤ (n + 1) * 10 * p = grind arith in
    (grind arith, grind arith)

value_lt :
    (n m : ℕ) (x y : Bytes)
    → n < m
    → length x ≡ length y
    → all is_digit x ≡ true
    → all is_digit y ≡ true
    → value n x < value m y
value_lt n m x y lt same hx hy =
    let (_, high) = value_bounds n x hx in
    let (low, _) = value_bounds m y hy in
    let step : (n + 1) * pow10 (length x) ≤ m * pow10 (length x) = grind arith in
    let same_power : m * pow10 (length x) ≡ m * pow10 (length y) =
      ap (λ (k : ℕ). m * pow10 k) same in
    omega arith

bytes_compare-value :
    (n : ℕ) (x y : Bytes)
    → length x ≡ length y
    → all is_digit x ≡ true
    → all is_digit y ≡ true
    → bytes_compare x y ≡ cmp_u (value n x) (value n y)
bytes_compare-value n [] [] same hx hy = ground arith
bytes_compare-value n [] (d ∷ y) same hx hy = absurd (omega arith)
bytes_compare-value n (c ∷ x) [] same hx hy = absurd (omega arith)
bytes_compare-value n (c ∷ x) (d ∷ y) same hx hy =
    let n1 = n * 10 + (c - b'0') in
    let n2 = n * 10 + (d - b'0') in
    ground (arith, bytes_compare-value n1 x y, value_lt n1 n2 x y, value_lt n2 n1 y x)

le-scale : (k p : ℕ) → 1 ≤ k → p ≤ k * p
le-scale k p h = grind arith

-- A canonical number is at least 10^k, k + 1 its number of digits.
value_of_longer :
    (x y : Bytes)
    → is_numeric x ≡ true
    → is_numeric y ≡ true
    → has_leading_zero y ≡ false
    → length x < length y
    → value 0 x < value 0 y
value_of_longer x [] hx hy z lt = absurd (omega arith)
value_of_longer [] (d ∷ y) hx hy z lt = cc
value_of_longer (c ∷ x) (d ∷ []) hx hy z lt = absurd (omega arith)
value_of_longer (c ∷ x) (d ∷ e ∷ y) hx hy z lt =
    let lead = 0 * 10 + (d - b'0') in
    let (_, high) = value_bounds 0 (c ∷ x) hx in
    let (low, _) = value_bounds lead (e ∷ y) (ground arith) in
    let power = pow10_mono (length (c ∷ x)) (length (e ∷ y)) (omega arith) in
    let scaled = le-scale lead (pow10 (length (e ∷ y))) (ground arith) in
    let below : (0 + 1) * pow10 (length (c ∷ x)) ≤ pow10 (length (e ∷ y)) = omega arith in
    omega arith

is_numeric-all : (x : Bytes) → is_numeric x ≡ true → all is_digit x ≡ true
is_numeric-all [] h = cc
is_numeric-all (c ∷ x) h = h

-- Two numeric identifiers without leading zeroes, of any length, compare as the numbers that they
-- spell.
pub cmp_identifier-value :
    (x y : Bytes)
    → is_numeric x ≡ true
    → is_numeric y ≡ true
    → has_leading_zero x ≡ false
    → has_leading_zero y ≡ false
    → cmp_identifier x y ≡ cmp_u (value 0 x) (value 0 y)
unfolding cmp_identifier
cmp_identifier-value x y hx hy zx zy =
    rw (hx, hy)
      (ground (
        arith,
        is_numeric-all x hx,
        is_numeric-all y hy,
        bytes_compare-value 0 x y,
        value_of_longer x y,
        value_of_longer y x,
      ))
