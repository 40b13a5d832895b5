-- ===== src/Snappy.antt =====
-- internal/host/snappy.go: the decoder of raw snappy streams. The source is what is left of it; the
-- child has the theorems.
pub mod Decoded
use release_me.Prelude.{
  ℕ, zero, suc, ◌+◌, ◌-◌, ◌*◌, ◌/◌, ◌%◌, ◌^◌, Bool, true, false, not, ◌&&◌, ◌||◌, Option, none,
  some, List, [], ◌∷◌, ◌++◌, ltb, leb, ◌==◌, if◌then◌else◌, is_empty, length, take, drop, get_elem?,
  Bytes, Result, ok, err, ◌>>=◌, ◌>>◌, reject_if,
}

pub data SnappyError : Type 0 where
  invalid_length : SnappyError
  truncated_literal_length : SnappyError
  truncated_literal : SnappyError
  truncated_copy : SnappyError
  offset_range : SnappyError
  wrong_length : ℕ → ℕ → SnappyError

-- `uvarint` from the byte with index `i` on; `none` is a second result that is not positive. The bits of
-- the bytes do not overlap, so that `|=` adds; a shift keeps 64 bits.
unfoldable pub uvarint_from : ℕ → ℕ → Bytes → Option (ℕ × Bytes)
uvarint_from i x [] = none
uvarint_from i x (c ∷ s) =
    let more = uvarint_from (suc i) (x + (c % 128 * 2 ^ (7 * i)) % 2 ^ 64) s in
    if i == 10 then none else if ltb c 128 then some (x + (c * 2 ^ (7 * i)) % 2 ^ 64, s) else more

-- `d[i]`, where the code has checked the index
abbrev pub byte_or_zero : Option ℕ → ℕ
byte_or_zero none = 0
byte_or_zero (some b) = b

abbrev pub byte_at : Bytes → ℕ → ℕ
byte_at d i = byte_or_zero (get_elem? d i)

-- The loop of `appendCopy`.
unfoldable pub copy_bytes : ℕ → ℕ → Bytes → Bytes
copy_bytes offset zero d = d
copy_bytes offset (suc n) d = copy_bytes offset n (d ++ (byte_at d (length d - offset) ∷ []))

unfoldable pub append_copy : Bytes → ℕ → ℕ → Result SnappyError Bytes
append_copy d offset n =
    if offset == 0 || ltb (length d) offset then err offset_range else ok (copy_bytes offset n d)

-- little-endian number of the first `n` bytes
abbrev pub little_endian : ℕ → Bytes → ℕ
little_endian zero s = 0
little_endian (suc n) [] = 0
little_endian (suc n) (c ∷ s) = c + 256 * little_endian n s

-- The output so far, and what is left of the source.
abbrev Step : Type 0
Step = Result SnappyError (Bytes × Bytes)

pub take_literal : ℕ → Bytes → Bytes → Step
take_literal n src dst =
    if ltb (length src) n then err truncated_literal else ok (dst ++ take n src, drop n src)

pub literal : ℕ → Bytes → Bytes → Step
literal tag src dst =
    let n = tag / 4 + 1 in
    if ltb 60 n
    then (if ltb (length src) (n - 60)
        then err truncated_literal_length
        else take_literal (little_endian (n - 60) src + 1) (drop (n - 60) src) dst)
    else take_literal n src dst

abbrev pub with_rest : Bytes → Result SnappyError Bytes → Step
with_rest src (ok d) = ok (d, src)
with_rest src (err e) = err e

pub copy : ℕ → ℕ → ℕ → Bytes → Bytes → Step
copy width offset n src dst =
    if ltb (length src) width
    then err truncated_copy
    else with_rest (drop width src) (append_copy dst offset n)

-- The switch over the low bits of the tag.
unfoldable pub element : ℕ → Bytes → Bytes → Step
unfolding literal copy take_literal
element tag src dst =
    if tag % 4 == 0
    then literal tag src dst
    else if tag % 4 == 1
    then copy 1 (tag / 32 * 256 + little_endian 1 src) (4 + tag / 4 % 8) src dst
    else if tag % 4 == 2
    then copy 2 (little_endian 2 src) (1 + tag / 4) src dst
    else copy 4 (little_endian 4 src) (1 + tag / 4) src dst

-- The loop. Every round takes a byte, so that as many rounds as there are bytes are enough.
unfoldable pub elements : ℕ → Bytes → Bytes → Result SnappyError Bytes
elements fuel [] dst = ok dst
elements zero (tag ∷ src) dst = err truncated_literal
elements (suc fuel) (tag ∷ src) dst = do r ← element tag src dst; elements fuel r.1 r.0

abbrev pub max_length : ℕ
max_length = 64 * 2 ^ 20

abbrev pub decode_from : Option (ℕ × Bytes) → Result SnappyError Bytes
decode_from none = err invalid_length
decode_from (some (n, src)) = do
  reject_if (ltb max_length n) invalid_length
  dst ← elements (length src) src []
  reject_if (not (length dst == n)) (wrong_length (length dst) n)
  ok dst

-- `DecodeSnappy`
unfoldable pub decode_snappy : Bytes → Result SnappyError Bytes
decode_snappy src = decode_from (uvarint_from 0 0 src)
