-- ===== src/Semver/RoundTrip.antt =====
-- `Parse` and `String` of internal/semver/semver.go are inverse to one another.
use release_me.Prelude.{
  ℕ, ◌<◌, ◌≡◌, ◌≢◌, refl, sym, ap, ◌∙◌, true, false, ◌||◌, Option, none, some, List, [], ◌∷◌, ◌++◌,
  append-nil, append_assoc, arith, all, All-append, is_empty, Bytes, Lacks, cut_byte, split, join,
  ok, >>=-ok, ok-injective, subst, split-ne-nil, u64_mod, cut_byte_sound, cut_byte-append,
  cut_byte-Lacks, join-split, split-join, format_uint, parse_uint, format_uint_self,
  format_uint-is_decimal, format_uint-has_leading_zero, parse_uint-format_uint,
}
use release_me.Semver.{
  Version, valid_identifier, valid_pre, check_build, build_cut, parse_build, collect_pre, pre_cut,
  parse_pre, parse_field, parse_core, parse, pre_suffix, build_suffix, core_string, to_string,
}
use release_me.Semver.Printed.{
  BuildOk, valid_pre-Lacks, format_uint-Lacks, core_string-Lacks, pre_suffix-Lacks,
}

-- What `Parse` guarantees of a version: the numbers are uint64s, and every identifier is one that
-- the grammar allows.
pub record IsValid (v : Version) : Type 0 where
  pub major_fits : v.major < u64_mod
  pub minor_fits : v.minor < u64_mod
  pub patch_fits : v.patch < u64_mod
  pub pre_valid : all valid_pre v.pre ≡ true
  pub build_valid : (is_empty v.build || all valid_identifier (split b'.' v.build)) ≡ true

check_build_sound : (ids : List Bytes) → check_build ids ≡ ok tt → all valid_identifier ids ≡ true
unfolding check_build
check_build_sound [] h = refl
check_build_sound (id ∷ ids) h = ground (arith, check_build_sound ids)

check_build_complete :
    (ids : List Bytes) → all valid_identifier ids ≡ true → check_build ids ≡ ok tt
unfolding check_build
check_build_complete [] h = refl
check_build_complete (id ∷ ids) h = ground (arith, check_build_complete ids)

collect_pre_sound :
    (ids pre : List Bytes) {r : List Bytes}
    → collect_pre ids pre ≡ ok r
    → (r ≡ pre ++ ids) × (all valid_pre ids ≡ true)
unfolding collect_pre
collect_pre_sound [] pre h = ground (arith, append-nil pre)
collect_pre_sound (id ∷ ids) pre {r} h =
    ground (arith, collect_pre_sound ids (pre ++ (id ∷ [])) {r = r}, append_assoc pre (id ∷ []) ids)

collect_pre_complete :
    (ids pre : List Bytes) → all valid_pre ids ≡ true → collect_pre ids pre ≡ ok (pre ++ ids)
unfolding collect_pre
collect_pre_complete [] pre h = rw append-nil
collect_pre_complete (id ∷ ids) pre h =
    ground (arith, collect_pre_complete ids (pre ++ (id ∷ [])), append_assoc pre (id ∷ []) ids)

parse_field_sound : (p : Bytes) {n : ℕ} → parse_field p ≡ ok n → (format_uint n ≡ p) × (n < u64_mod)
unfolding parse_field parse_uint
parse_field_sound p {n} h = ground (arith, format_uint_self p)

parse_field_complete : (n : ℕ) → n < u64_mod → parse_field (format_uint n) ≡ ok n
unfolding parse_field
parse_field_complete n h =
    ground
      (arith, format_uint-is_decimal n, format_uint-has_leading_zero n, parse_uint-format_uint n h)

parse_core_sound :
    (ps : List Bytes) {a b c : ℕ}
    → parse_core ps ≡ ok (a, b, c)
    → (ps ≡ format_uint a ∷ format_uint b ∷ format_uint c ∷ [])
      × (a < u64_mod)
      × (b < u64_mod)
      × (c < u64_mod)
unfolding parse_core
parse_core_sound [] h = cc
parse_core_sound (p ∷ []) h = cc
parse_core_sound (p ∷ q ∷ []) h = cc
parse_core_sound (p ∷ q ∷ r ∷ []) {a} {b} {c} h =
    let (a', ea, ha) = >>=-ok (parse_field p) _ h in
    let (b', eb, hb) = >>=-ok (parse_field q) _ ha in
    let (c', ec, hc) = >>=-ok (parse_field r) _ hb in
    ground (arith, parse_field_sound p ea, parse_field_sound q eb, parse_field_sound r ec)
parse_core_sound (p ∷ q ∷ r ∷ s ∷ ps) h = cc

parse_core_complete :
    (a b c : ℕ)
    → a < u64_mod
    → b < u64_mod
    → c < u64_mod
    → parse_core (format_uint a ∷ format_uint b ∷ format_uint c ∷ []) ≡ ok (a, b, c)
unfolding parse_core
parse_core_complete a b c ha hb hc =
    rw (parse_field_complete a ha, parse_field_complete b hb, parse_field_complete c hc)

build_cut_sound :
    (s : Bytes) (o : Option (Bytes × Bytes)) {rest build : Bytes}
    → cut_byte b'+' s ≡ o
    → build_cut s o ≡ ok (rest, build)
    → (s ≡ rest ++ build_suffix build) × BuildOk build
build_cut_sound s none {rest} {build} e h = ground (arith, append-nil s)
build_cut_sound s (some (r, [])) e h = cc
build_cut_sound s (some (r, c ∷ b)) {rest} {build} e h =
    let (_, eu, hu) = >>=-ok (check_build (split b'.' (c ∷ b))) _ h in
    ground (arith, cut_byte_sound b'+' s e, check_build_sound (split b'.' (c ∷ b)) eu)

parse_build_sound :
    (s : Bytes) {rest build : Bytes}
    → parse_build s ≡ ok (rest, build)
    → (s ≡ rest ++ build_suffix build) × BuildOk build
unfolding parse_build
parse_build_sound s h = build_cut_sound s (cut_byte b'+' s) refl h

pre_suffix-split : (s : Bytes) → pre_suffix (split b'.' s) ≡ b'-' ∷ s
pre_suffix-split s =
    from_join (split b'.' s) (split-ne-nil b'.' s) ∙ ap (λ t. b'-' ∷ t) (join-split b'.' s)
  where
    from_join : (ids : List Bytes) → ids ≢ [] → pre_suffix ids ≡ b'-' ∷ join b'.' ids
    from_join [] ne = absurd (ne refl)
    from_join (id ∷ ids) ne = refl

pre_cut_sound :
    (s : Bytes) (o : Option (Bytes × Bytes)) {core : Bytes} {pre : List Bytes}
    → cut_byte b'-' s ≡ o
    → pre_cut s o ≡ ok (core, pre)
    → (s ≡ core ++ pre_suffix pre) × (all valid_pre pre ≡ true)
pre_cut_sound s none {core} {pre} e h = ground (arith, append-nil s)
pre_cut_sound s (some (r, [])) e h = cc
pre_cut_sound s (some (r, c ∷ p)) {core} {pre} e h =
    let (ids, eu, hu) = >>=-ok (collect_pre (split b'.' (c ∷ p)) []) _ h in
    let (er, valid) = collect_pre_sound (split b'.' (c ∷ p)) [] eu in
    ground (arith, cut_byte_sound b'-' s e, pre_suffix-split (c ∷ p))

parse_pre_sound :
    (s : Bytes) {core : Bytes} {pre : List Bytes}
    → parse_pre s ≡ ok (core, pre)
    → (s ≡ core ++ pre_suffix pre) × (all valid_pre pre ≡ true)
unfolding parse_pre
parse_pre_sound s h = pre_cut_sound s (cut_byte b'-' s) refl h

to_string_of_parts :
    (s rest build core : Bytes) (pre : List Bytes) (a b c : ℕ)
    → s ≡ rest ++ build_suffix build
    → rest ≡ core ++ pre_suffix pre
    → split b'.' core ≡ format_uint a ∷ format_uint b ∷ format_uint c ∷ []
    → core_string a b c ++ (pre_suffix pre ++ build_suffix build) ≡ s
unfolding core_string
to_string_of_parts s rest build core pre a b c es er ec =
    rw (← ec, join-split, es, er, append_assoc)

-- If `Parse` accepts a text as a version, `String` prints that version as exactly that text, its
-- numbers fit in 64 bits and its identifiers are valid.
pub parse_sound : (s : Bytes) {v : Version} → parse s ≡ ok v → (to_string v ≡ s) × IsValid v
unfolding parse to_string
parse_sound s {v} h =
    let (rb, eb, hb) = >>=-ok (parse_build s) _ h in
    let (cp, ep, hp) = >>=-ok (parse_pre rb.0) _ hb in
    let (n, en, hn) = >>=-ok (parse_core (split b'.' cp.0)) _ hp in
    let (es, build_ok) = parse_build_sound s eb in
    let (er, pre_ok) = parse_pre_sound rb.0 ep in
    let (ec, fa, fb, fc) = parse_core_sound (split b'.' cp.0) en in
    subst (λ w. (to_string w ≡ s) × IsValid w) (ok-injective hn)
      (
        to_string_of_parts s rb.0 rb.1 cp.0 cp.1 n.0 n.1 n.2 es er ec,
        record {
          major_fits = fa;
          minor_fits = fb;
          patch_fits = fc;
          pre_valid = pre_ok;
          build_valid = build_ok;
        },
      )

split-core_string :
    (a b c : ℕ)
    → split b'.' (core_string a b c) ≡ format_uint a ∷ format_uint b ∷ format_uint c ∷ []
unfolding core_string
split-core_string a b c = split-join b'.' _ (cc) (
  format_uint-Lacks b'.' a refl,
  (format_uint-Lacks b'.' b refl, (format_uint-Lacks b'.' c refl, tt)),
)

parse_build_complete :
    (rest build : Bytes)
    → Lacks b'+' rest
    → BuildOk build
    → parse_build (rest ++ build_suffix build) ≡ ok (rest, build)
unfolding parse_build
parse_build_complete rest [] h e = rw (append-nil, cut_byte-Lacks b'+' rest h)
parse_build_complete rest (c ∷ s) h e =
    rw (cut_byte-append b'+' rest (c ∷ s) h, check_build_complete (split b'.' (c ∷ s)) e)

join-ne-empty :
    (id : Bytes) (ids : List Bytes) → valid_pre id ≡ true → is_empty (join b'.' (id ∷ ids)) ≡ false
unfolding join
join-ne-empty [] ids h = cc
join-ne-empty (c ∷ s) [] h = refl
join-ne-empty (c ∷ s) (q ∷ ids) h = refl

parse_pre_complete :
    (core : Bytes) (ids : List Bytes)
    → Lacks b'-' core
    → all valid_pre ids ≡ true
    → parse_pre (core ++ pre_suffix ids) ≡ ok (core, ids)
unfolding parse_pre
parse_pre_complete core [] h e = rw (append-nil, cut_byte-Lacks b'-' core h)
parse_pre_complete core (id ∷ ids) h e = rw (
  cut_byte-append b'-' core (join b'.' (id ∷ ids)) h,
  join-ne-empty id ids (ground arith),
  split-join b'.' (id ∷ ids) (cc) (valid_pre-Lacks b'.' (id ∷ ids) refl e),
  collect_pre_complete (id ∷ ids) [] e,
)

parse_of_parts :
    (s rest build core : Bytes) (pre : List Bytes) (a b c : ℕ)
    → parse_build s ≡ ok (rest, build)
    → parse_pre rest ≡ ok (core, pre)
    → parse_core (split b'.' core) ≡ ok (a, b, c)
    → parse s ≡ ok (record { major = a; minor = b; patch = c; pre = pre; build = build })
unfolding parse
parse_of_parts s rest build core pre a b c hb hp hc = rw hb (rw hp (rw hc refl))

-- A version whose numbers fit in 64 bits and whose identifiers are valid is read back unchanged
-- by `Parse` from what `String` prints.
pub parse-to_string : (v : Version) → IsValid v → parse (to_string v) ≡ ok v
parse-to_string v h =
    let core = core_string v.major v.minor v.patch in
    let no_plus : Lacks b'+' (core ++ pre_suffix v.pre) =
      All-append _ core (pre_suffix v.pre)
        (core_string-Lacks b'+' v.major v.minor v.patch refl (omega arith))
        (pre_suffix-Lacks b'+' v.pre refl (omega arith) (omega arith) h.pre_valid) in
    let printed : to_string v ≡ (core ++ pre_suffix v.pre) ++ build_suffix v.build =
      unfold to_string in sym (append_assoc core (pre_suffix v.pre) (build_suffix v.build)) in
    rw printed (
      parse_of_parts _ (core ++ pre_suffix v.pre) v.build core v.pre v.major v.minor v.patch
        (parse_build_complete (core ++ pre_suffix v.pre) v.build no_plus h.build_valid)
        (parse_pre_complete core v.pre
          (core_string-Lacks b'-' v.major v.minor v.patch refl (omega arith)) h.pre_valid)
        (rw (split-core_string v.major v.minor v.patch)
          (parse_core_complete v.major v.minor v.patch h.major_fits h.minor_fits h.patch_fits)))
