-- ===== src/Samples/Streams.antt =====
-- A snappy stream with a literal and an overlapping copy, and instances of the theorems.
use release_me.Prelude.{◌≤◌, ◌≡◌, refl, some, [], ◌∷◌, arith, Bytes, codes, ok}
use release_me.Snappy.{
  uvarint_from, append_copy, copy_bytes, element, elements, max_length, decode_snappy,
}
use release_me.Snappy.Decoded.{Repeats, append_copy-Repeats, length-decode_snappy, elements_fuel}

-- 7, the literal "abc", and a copy of 4 bytes from 2 bytes before.
abbrev stream : Bytes
stream = 7 ∷ 8 ∷ b'a' ∷ b'b' ∷ b'c' ∷ 1 ∷ 2 ∷ []

decoded : decode_snappy stream ≡ ok (codes "abcbcbc")
unfolding decode_snappy uvarint_from elements element append_copy copy_bytes
decoded = refl

length-decode_snappy_example :
    (rest : Bytes) × (uvarint_from 0 0 stream ≡ some (7, rest)) × (7 ≤ max_length)
length-decode_snappy_example = length-decode_snappy stream {out = codes "abcbcbc"} decoded

copied : append_copy (codes "abc") 2 4 ≡ ok (codes "abcbcbc")
unfolding append_copy copy_bytes
copied = refl

append_copy-Repeats_example : Repeats (codes "abc") (codes "abcbcbc") 2 4
append_copy-Repeats_example = append_copy-Repeats (codes "abc") 2 4 {out = codes "abcbcbc"} copied

elements_fuel_example :
    elements 6 (8 ∷ b'a' ∷ b'b' ∷ b'c' ∷ []) [] ≡ elements 4 (8 ∷ b'a' ∷ b'b' ∷ b'c' ∷ []) []
elements_fuel_example =
    elements_fuel 6 4 (8 ∷ b'a' ∷ b'b' ∷ b'c' ∷ []) [] (omega arith) (omega arith)
