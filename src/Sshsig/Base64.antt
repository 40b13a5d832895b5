-- ===== src/Sshsig/Base64.antt =====
-- `base64.StdEncoding` of Go's library, as internal/sshsig/sshsig.go uses it: three bytes are four
-- characters, with '=' behind the last ones.
use release_me.Prelude.{
  ℕ, ◌+◌, ◌-◌, ◌*◌, ◌/◌, ◌%◌, ◌<◌, ◌≡◌, refl, Bool, true, false, not, ◌&&◌, Option, none, some, [],
  ◌∷◌, arith, ltb, leb, ◌==◌, if◌then◌else◌, All, all, is_empty, Bytes,
}

-- The character of six bits.
pub char_of : ℕ → ℕ
char_of v =
    if ltb v 26
    then b'A' + v
    else if ltb v 52
    then b'a' + v - 26
    else if ltb v 62
    then b'0' + v - 52
    else if v == 62
    then b'+'
    else b'/'

pub six_bits : ℕ → Option ℕ
six_bits c =
    if leb b'A' c && leb c b'Z'
    then some (c - b'A')
    else if leb b'a' c && leb c b'z'
    then some (c - b'a' + 26)
    else if leb b'0' c && leb c b'9'
    then some (c - b'0' + 52)
    else if c == b'+'
    then some 62
    else if c == b'/'
    then some 63
    else none

-- `EncodeToString`
unfoldable pub encode : Bytes → Bytes
unfolding char_of
encode [] = []
encode (a ∷ []) = char_of (a / 4) ∷ char_of (a % 4 * 16) ∷ b'=' ∷ b'=' ∷ []
encode (a ∷ b ∷ []) =
    char_of (a / 4) ∷ char_of (a % 4 * 16 + b / 16) ∷ char_of (b % 16 * 4) ∷ b'=' ∷ []
encode (a ∷ b ∷ c ∷ s) =
    char_of (a / 4)
    ∷ char_of (a % 4 * 16 + b / 16)
    ∷ char_of (b % 16 * 4 + c / 64)
    ∷ char_of (c % 64)
    ∷ encode s

-- One, two or three bytes from the six-bit values; bits that are left over are not looked at.
abbrev one_byte : Option ℕ → Option ℕ → Option Bytes
one_byte (some x) (some y) = some ((x * 4 + y / 16) ∷ [])
one_byte _ _ = none

abbrev two_bytes : Option ℕ → Option ℕ → Option ℕ → Option Bytes
two_bytes (some x) (some y) (some z) = some ((x * 4 + y / 16) ∷ (y % 16 * 16 + z / 4) ∷ [])
two_bytes _ _ _ = none

abbrev three_bytes : Option ℕ → Option ℕ → Option ℕ → Option ℕ → Option Bytes → Option Bytes
three_bytes (some x) (some y) (some z) (some w) (some s) =
    some ((x * 4 + y / 16) ∷ (y % 16 * 16 + z / 4) ∷ (z % 4 * 64 + w) ∷ s)
three_bytes _ _ _ _ _ = none

-- `DecodeString` on a text without line ends. Padding ends the text; `none` is the error.
unfoldable pub decode : Bytes → Option Bytes
unfolding six_bits
decode [] = some []
decode (a ∷ b ∷ c ∷ d ∷ s) =
    let rest = decode s in
    if c == b'='
    then (if d == b'=' && is_empty s then one_byte (six_bits a) (six_bits b) else none)
    else if d == b'='
    then (if is_empty s then two_bytes (six_bits a) (six_bits b) (six_bits c) else none)
    else three_bytes (six_bits a) (six_bits b) (six_bits c) (six_bits d) rest
decode _ = none

-- No character of the code is '=', and each is read back.
six_bits-char_of : (v : ℕ) → v < 64 → six_bits (char_of v) ≡ some v
unfolding six_bits char_of
six_bits-char_of v h = ground arith

char_of-ne-padding : (v : ℕ) → v < 64 → (char_of v == b'=') ≡ false
unfolding char_of
char_of-ne-padding v h = ground arith

abbrev pub IsByte : ℕ → Type 0
IsByte c = c < 256

-- What is encoded is decoded unchanged.
pub decode-encode : (s : Bytes) → All IsByte s → decode (encode s) ≡ some s
unfolding encode decode
decode-encode [] h = refl
decode-encode (a ∷ []) (ha, h) =
    rw (six_bits-char_of (a / 4) (omega arith), six_bits-char_of (a % 4 * 16) (omega arith))
      (ground arith)
decode-encode (a ∷ b ∷ []) (ha, (hb, h)) =
    rw
      (
        char_of-ne-padding (b % 16 * 4) (omega arith),
        six_bits-char_of (a / 4) (omega arith),
        six_bits-char_of (a % 4 * 16 + b / 16) (omega arith),
        six_bits-char_of (b % 16 * 4) (omega arith),
      )
      (ground arith)
decode-encode (a ∷ b ∷ c ∷ s) (ha, (hb, (hc, h))) =
    rw
      (
        char_of-ne-padding (b % 16 * 4 + c / 64) (omega arith),
        char_of-ne-padding (c % 64) (omega arith),
        six_bits-char_of (a / 4) (omega arith),
        six_bits-char_of (a % 4 * 16 + b / 16) (omega arith),
        six_bits-char_of (b % 16 * 4 + c / 64) (omega arith),
        six_bits-char_of (c % 64) (omega arith),
        decode-encode s h,
      )
      (ground arith)

-- A character of the code is none of the four that `Dearmor` drops, and no dash.
abbrev pub is_code : ℕ → Bool
is_code c = ltb b' ' c && not (c == b'-')

char_of-is_code : (v : ℕ) → v < 64 → is_code (char_of v) ≡ true
unfolding char_of
char_of-is_code v h = ground arith

pub encode-is_code : (s : Bytes) → All IsByte s → all is_code (encode s) ≡ true
unfolding encode
encode-is_code [] h = refl
encode-is_code (a ∷ []) (ha, h) =
    rw (char_of-is_code (a / 4) (omega arith), char_of-is_code (a % 4 * 16) (omega arith)) refl
encode-is_code (a ∷ b ∷ []) (ha, (hb, h)) =
    rw
      (
        char_of-is_code (a / 4) (omega arith),
        char_of-is_code (a % 4 * 16 + b / 16) (omega arith),
        char_of-is_code (b % 16 * 4) (omega arith),
      )
      refl
encode-is_code (a ∷ b ∷ c ∷ s) (ha, (hb, (hc, h))) =
    rw
      (
        char_of-is_code (a / 4) (omega arith),
        char_of-is_code (a % 4 * 16 + b / 16) (omega arith),
        char_of-is_code (b % 16 * 4 + c / 64) (omega arith),
        char_of-is_code (c % 64) (omega arith),
      )
      (encode-is_code s h)
