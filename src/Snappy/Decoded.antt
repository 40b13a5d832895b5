-- ===== src/Snappy/Decoded.antt =====
-- The decoder ends, its output has the length of the header, and a copy repeats what is there.
use release_me.Prelude.{
  ℕ, zero, suc, ◌+◌, ◌-◌, ◌*◌, ◌/◌, ◌%◌, ◌≤◌, ◌<◌, ◌≡◌, refl, sym, ap, ◌∙◌, subst, not, ◌||◌,
  Option, none, some, [], ◌∷◌, ◌++◌, arith, ltb, ◌==◌, length, length-append, length-drop, drop,
  get_elem?, Bytes, Result, ok, err, ◌>>=◌, >>=-ok, reject_if-eq-ok, ok-injective, Bool-cases, inl,
  inr,
}
use release_me.Snappy.{
  SnappyError, invalid_length, wrong_length, uvarint_from, byte_at, copy_bytes, append_copy,
  take_literal, literal, copy, element, elements, max_length, decode_from, decode_snappy,
  little_endian,
}

take_literal-shrinks :
    (n : ℕ) (src dst : Bytes) {r : Bytes × Bytes}
    → take_literal n src dst ≡ ok r
    → length r.1 ≤ length src
unfolding take_literal
take_literal-shrinks n src dst {r} h = elim (Bool-cases (ltb (length src) n)) [
  | inl short ↦ cc (rw short at h)
  | inr enough ↦
      let e = ap (λ x. length x.1) (ok-injective (rw enough at h)) in
      omega (arith, e, length-drop n src)
]

copy-shrinks :
    (width offset n : ℕ) (src dst : Bytes) {r : Bytes × Bytes}
    → copy width offset n src dst ≡ ok r
    → length r.1 ≤ length src
unfolding copy append_copy
copy-shrinks width offset n src dst {r} h = elim (Bool-cases (ltb (length src) width)) [
  | inl short ↦ cc (rw short at h)
  | inr enough ↦ elim (Bool-cases (offset == 0 || ltb (length dst) offset)) [
    | inl bad ↦ cc (rw (enough, bad) at h)
    | inr good ↦
        let e = ap (λ x. length x.1) (ok-injective (rw (enough, good) at h)) in
        omega (arith, e, length-drop width src)
  ]
]

literal-shrinks :
    (tag : ℕ) (src dst : Bytes) {r : Bytes × Bytes}
    → literal tag src dst ≡ ok r
    → length r.1 ≤ length src
unfolding literal
literal-shrinks tag src dst {r} h = elim (Bool-cases (ltb 60 (tag / 4 + 1))) [
  | inr small ↦ take_literal-shrinks (tag / 4 + 1) src dst (rw small at h)
  | inl large ↦
      let n = tag / 4 + 1 in
      elim (Bool-cases (ltb (length src) (n - 60))) [
        | inl short ↦ cc (rw (large, short) at h)
        | inr enough ↦
            let k =
              take_literal-shrinks (little_endian (n - 60) src + 1) (drop (n - 60) src) dst
                (rw (large, enough) at h) in
            omega (arith, k, length-drop (n - 60) src)
      ]
]

element-shrinks :
    (tag : ℕ) (src dst : Bytes) {r : Bytes × Bytes}
    → element tag src dst ≡ ok r
    → length r.1 ≤ length src
unfolding element
element-shrinks tag src dst h = elim (Bool-cases (tag % 4 == 0)) [
  | inl is_literal ↦ literal-shrinks tag src dst (rw is_literal at h)
  | inr no0 ↦ elim (Bool-cases (tag % 4 == 1)) [
    | inl short ↦
        copy-shrinks 1 (tag / 32 * 256 + little_endian 1 src) (4 + tag / 4 % 8) src dst
          (rw (no0, short) at h)
    | inr no1 ↦ elim (Bool-cases (tag % 4 == 2)) [
      | inl two ↦
          copy-shrinks 2 (little_endian 2 src) (1 + tag / 4) src dst (rw (no0, no1, two) at h)
      | inr no2 ↦
          copy-shrinks 4 (little_endian 4 src) (1 + tag / 4) src dst (rw (no0, no1, no2) at h)
    ]
  ]
]

bind_same :
    (r : Result SnappyError (Bytes × Bytes)) (f g : Bytes × Bytes → Result SnappyError Bytes)
    → ((x : Bytes × Bytes) → r ≡ ok x → f x ≡ g x)
    → (r >>= f) ≡ (r >>= g)
bind_same (err e) f g h = refl
bind_same (ok x) f g h = h x refl

-- The loop over the elements gives the same result with any two amounts of fuel that are at least
-- the number of bytes of the source.
pub elements_fuel :
    (fuel more : ℕ) (src dst : Bytes)
    → length src ≤ fuel
    → length src ≤ more
    → elements fuel src dst ≡ elements more src dst
unfolding elements
elements_fuel fuel more [] dst h k = refl
elements_fuel zero more (tag ∷ src) dst h k = absurd (omega arith)
elements_fuel (suc fuel) zero (tag ∷ src) dst h k = absurd (omega arith)
elements_fuel (suc fuel) (suc more) (tag ∷ src) dst h k =
    bind_same (element tag src dst) (λ x. elements fuel x.1 x.0) (λ x. elements more x.1 x.0)
      λ x e.
        let shrinks = element-shrinks tag src dst e in
        elements_fuel fuel more x.1 x.0 (omega arith) (omega arith)

get_elem?-append :
    (xs : Bytes) (ys : Bytes) (i : ℕ) → i < length xs → get_elem? (xs ++ ys) i ≡ get_elem? xs i
get_elem?-append [] ys i h = absurd (omega arith)
get_elem?-append (x ∷ xs) ys zero h = refl
get_elem?-append (x ∷ xs) ys (suc i) h = get_elem?-append xs ys i (omega arith)

get_elem?-last : (xs : Bytes) (y : ℕ) → get_elem? (xs ++ (y ∷ [])) (length xs) ≡ some y
get_elem?-last [] y = refl
get_elem?-last (x ∷ xs) y = get_elem?-last xs y

length-last : (xs : Bytes) (y : ℕ) → length (xs ++ (y ∷ [])) ≡ suc (length xs)
length-last xs y = omega (arith, length-append xs (y ∷ []))

some_of : (d : Bytes) (i : ℕ) → i < length d → get_elem? d i ≡ some (byte_at d i)
some_of [] i h = absurd (omega arith)
some_of (c ∷ d) zero h = refl
some_of (c ∷ d) (suc i) h = some_of d i (omega arith)

-- The copy keeps what is there and adds `n` bytes, each equal to the one `offset` before it.
pub record Repeats (d out : Bytes) (offset n : ℕ) : Type 0 where
  pub size : length out ≡ length d + n
  pub kept : (i : ℕ) → i < length d → get_elem? out i ≡ get_elem? d i
  pub repeated :
      (i : ℕ) → length d ≤ i → i < length out → get_elem? out i ≡ get_elem? out (i - offset)

copy_bytes-Repeats :
    (d : Bytes) (offset n : ℕ)
    → 0 < offset
    → offset ≤ length d
    → Repeats d (copy_bytes offset n d) offset n
unfolding copy_bytes
copy_bytes-Repeats d offset zero pos le = record {
  size = omega arith;
  kept = λ i h. refl;
  repeated = λ i h k. absurd (omega arith);
}
copy_bytes-Repeats d offset (suc n) pos le =
    let b = byte_at d (length d - offset) in
    let one = length-last d b in
    let out = copy_bytes offset n (d ++ (b ∷ [])) in
    let r = copy_bytes-Repeats (d ++ (b ∷ [])) offset n pos (omega arith) in
    record {
      size = omega (arith, r.size);
      kept = λ i h. r.kept i (omega arith) ∙ get_elem?-append d (b ∷ []) i h;
      repeated = λ i h k. elim (Bool-cases (ltb (length d) i)) [
        | inl later ↦ r.repeated i (ground arith) k
        | inr now ↦
            let at_end : length d ≡ i = ground arith in
            subst (λ j. get_elem? out j ≡ get_elem? out (j - offset)) at_end
              (r.kept (length d) (omega arith)
                ∙ get_elem?-last d b
                ∙ sym (some_of d (length d - offset) (omega arith))
                ∙ sym (get_elem?-append d (b ∷ []) (length d - offset) (omega arith))
                ∙ sym (r.kept (length d - offset) (omega arith)))
      ];
    }

-- If `appendCopy` succeeds, the output keeps what was there, is longer by the length of the copy,
-- and each added byte equals the one that stands the offset before it.
pub append_copy-Repeats :
    (d : Bytes) (offset n : ℕ) {out : Bytes}
    → append_copy d offset n ≡ ok out
    → Repeats d out offset n
unfolding append_copy
append_copy-Repeats d offset n h = elim (Bool-cases (offset == 0 || ltb (length d) offset)) [
  | inl bad ↦ cc (rw bad at h)
  | inr good ↦
      subst (λ x. Repeats d x offset n) (ok-injective (rw good at h))
        (copy_bytes-Repeats d offset n (ground arith) (ground arith))
]

-- If `DecodeSnappy` returns bytes, the varint at the start of the source is their number, and it
-- is at most 64 MiB.
pub length-decode_snappy :
    (src : Bytes) {out : Bytes}
    → decode_snappy src ≡ ok out
    → (rest : Bytes) × (uvarint_from 0 0 src ≡ some (length out, rest)) × (length out ≤ max_length)
unfolding decode_snappy
length-decode_snappy src {out} h = header (uvarint_from 0 0 src) refl h
  where
    header :
        (u : Option (ℕ × Bytes))
        → uvarint_from 0 0 src ≡ u
        → decode_from u ≡ ok out
        → (rest : Bytes) × (uvarint_from 0 0 src ≡ some (length out, rest))
          × (length out ≤ max_length)
    header none e k = cc
    header (some (n, rest)) e k =
        let (fits, k1) = reject_if-eq-ok (ltb max_length n) invalid_length _ k in
        let (dst, e2, k2) = >>=-ok (elements (length rest) rest []) _ k1 in
        let (same, k3) =
          reject_if-eq-ok (not (length dst == n)) (wrong_length (length dst) n) _ k2 in
        let size : length out ≡ n = ap length (sym (ok-injective k3)) ∙ ground arith in
        rw size (rest, e, ground arith)
