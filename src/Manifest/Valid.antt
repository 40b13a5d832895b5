-- ===== src/Manifest/Valid.antt =====
-- What `Add`, `Parse` and `FromDir` guarantee of a manifest.
use release_me.Prelude.{
  index, codes, ltb, reject_if-eq-ok, map, drop_cr, raw_lines, take, drop, is_empty, bytes_eq_iff,
  ℕ, suc, ◌+◌, ◌≡◌, refl, sym, ap, ◌∙◌, subst, Bool, true, false, not, ◌&&◌, ◌||◌, Option, none,
  some, List, [], ◌∷◌, arith, leb, if◌then◌else◌, all, length, All, Bytes, bytes_eq, to_lower,
  Result, ok, err, >>=-ok, ok-injective, inl, inr, Bool-cases,
}
use release_me.Manifest.{
  Entry, Manifest, empty_line, line_format, is_some, is_64, duplicate_entry, max_token,
  token_too_long, ManifestError, valid_name, is_hex, place, add, lookup, parse_line, parse_lines,
  parse, non_empty, wrap_line,
}
use release_me.Manifest.Search.{IsSorted}
use release_me.Manifest.Sorted.{place-put, lookup-find, put-IsSorted, put-All, find-put, length-put}

abbrev pub is_lower_hex : ℕ → Bool
is_lower_hex c = leb b'0' c && leb c b'9' || leb b'a' c && leb c b'f'

-- a line that this package writes
pub record EntryOk (e : Entry) : Type 0 where
  pub name_ok : valid_name e.name ≡ true
  pub digest_size : length e.sha256 ≡ 64
  pub digest_hex : all is_lower_hex e.sha256 ≡ true

pub record IsValid (m : Manifest) : Type 0 where
  pub sorted : IsSorted m
  pub entries_ok : All EntryOk m

pub nil-IsValid : IsValid []
nil-IsValid = record { sorted = tt; entries_ok = tt }

length-to_lower : (s : Bytes) → length (to_lower s) ≡ length s
length-to_lower [] = refl
length-to_lower (c ∷ s) = ap suc (length-to_lower s)

to_lower-hex : (s : Bytes) → all is_hex s ≡ true → all is_lower_hex (to_lower s) ≡ true
to_lower-hex [] h = refl
to_lower-hex (c ∷ s) h = ground (arith, to_lower-hex s)

-- What `Add` asks of its arguments.
pub record Accepts (name sum : Bytes) : Type 0 where
  pub name_ok : valid_name name ≡ true
  pub size : length sum ≡ 64
  pub hex : all is_hex sum ≡ true

pub add_sound :
    (m : Manifest) (name sum : Bytes) {m' : Manifest}
    → add m name sum ≡ ok m'
    → Accepts name sum × (m' ≡ place name (to_lower sum) m)
unfolding add
add_sound m name sum {m'} h =
    (record { name_ok = ground arith; size = ground arith; hex = ground arith }, ground arith)

pub add_complete :
    (m : Manifest) (name sum : Bytes)
    → Accepts name sum
    → add m name sum ≡ ok (place name (to_lower sum) m)
unfolding add
add_complete m name sum h = ground arith

-- If `Add` succeeds on a valid manifest, the manifest stays valid.
pub add-IsValid :
    (m : Manifest) (name sum : Bytes) {m' : Manifest}
    → IsValid m
    → add m name sum ≡ ok m'
    → IsValid m'
add-IsValid m name sum v h =
    let (a, e) = add_sound m name sum h in
    let entry : EntryOk (record { name = name; sha256 = to_lower sum }) = record {
      name_ok = a.name_ok;
      digest_size = length-to_lower sum ∙ a.size;
      digest_hex = to_lower-hex sum a.hex;
    } in
    rw (e, place-put name (to_lower sum) m v.sorted)
      (record {
        sorted = put-IsSorted name (to_lower sum) m v.sorted;
        entries_ok = put-All EntryOk name (to_lower sum) m entry v.entries_ok;
      })

-- If `Add` succeeds on a valid manifest, `Lookup` then finds the new digest in lower case under
-- the added name, and under every other name what it found before.
pub lookup-add :
    (m : Manifest) (name sum name' : Bytes) {m' : Manifest}
    → IsValid m
    → add m name sum ≡ ok m'
    → lookup m' name' ≡ (if bytes_eq name name' then some (to_lower sum) else lookup m name')
lookup-add m name sum name' {m'} v h =
    let (a, e) = add_sound m name sum h in
    let v' = add-IsValid m name sum v h in
    rw
      (
        lookup-find name' m' v'.sorted,
        lookup-find name' m v.sorted,
        e,
        place-put name (to_lower sum) m v.sorted,
      )
      (find-put name' name (to_lower sum) m v.sorted)

wrap_line-ok :
    (n : ℕ) (r : Result ManifestError Manifest) {m : Manifest} → wrap_line n r ≡ ok m → r ≡ ok m
wrap_line-ok n (ok m) h = h
wrap_line-ok n (err e) h = cc

-- What a line that `Parse` accepts does to the manifest.
pub record LineRead (line : Bytes) (m m' : Manifest) : Type 0 where
  pub is_new : lookup m (drop 66 line) ≡ none
  pub added : add m (drop 66 line) (take 64 line) ≡ ok m'

is_some-none : (o : Option Bytes) → is_some o ≡ false → o ≡ none
is_some-none none h = refl
is_some-none (some x) h = cc

parse_line_sound :
    (n : ℕ) (line : Bytes) (m : Manifest) {m' : Manifest}
    → parse_line n line m ≡ ok m'
    → LineRead line m m'
unfolding parse_line
parse_line_sound n line m {m'} h =
    let (_, h1) = reject_if-eq-ok (is_empty line) (empty_line n) _ h in
    let (_, h2) =
      reject_if-eq-ok (not (is_64 (index line (codes "  "))) || ltb (length line) 67)
        (line_format n) _ h1 in
    let (new, h3) =
      reject_if-eq-ok (is_some (lookup m (drop 66 line))) (duplicate_entry n (drop 66 line)) _ h2 in
    record {
      is_new = is_some-none (lookup m (drop 66 line)) new;
      added = wrap_line-ok n (add m (drop 66 line) (take 64 line)) h3;
    }

-- The digest that a line gives to its name is in the manifest.
abbrev pub Recorded : Manifest → Bytes → Type 0
Recorded m line = lookup m (drop 66 line) ≡ some (to_lower (take 64 line))

-- Later lines do not touch what is recorded.
LineRead-keeps :
    {line : Bytes} {m m' : Manifest} (name : Bytes) {d : Bytes}
    → IsValid m
    → LineRead line m m'
    → lookup m name ≡ some d
    → lookup m' name ≡ some d
LineRead-keeps {line} {m} name v r h =
    lookup-add m (drop 66 line) (take 64 line) name v r.added
    ∙ elim (Bool-cases (bytes_eq (drop 66 line) name)) [
      | inl same ↦
          let e = (bytes_eq_iff (drop 66 line) name).0 same in cc (ap (lookup m) e, r.is_new)
      | inr other ↦ rw other h
    ]

LineRead-Recorded :
    {line : Bytes} {m m' : Manifest} → IsValid m → LineRead line m m' → Recorded m' line
LineRead-Recorded {line} {m} v r = ground (
  arith,
  lookup-add m (drop 66 line) (take 64 line) (drop 66 line) v r.added,
  bytes_eq_iff (drop 66 line) (drop 66 line),
)

LineRead-length :
    {line : Bytes} {m m' : Manifest} → IsValid m → LineRead line m m' → length m' ≡ suc (length m)
LineRead-length {line} {m} v r =
    let (_, e) = add_sound m (drop 66 line) (take 64 line) r.added in
    rw (e, place-put (drop 66 line) (to_lower (take 64 line)) m v.sorted)
      (length-put (drop 66 line) _ m (sym (lookup-find (drop 66 line) m v.sorted) ∙ r.is_new))

-- The state of the loop of `Parse` behind the lines `ls`.
record Read (ls : List Bytes) (m m' : Manifest) : Type 0 where
  valid : IsValid m'
  keeps : (name : Bytes) {d : Bytes} → lookup m name ≡ some d → lookup m' name ≡ some d
  records : All (Recorded m') ls
  count : length m' ≡ length m + length ls

parse_lines_sound :
    (n : ℕ) (ls : List Bytes) (m : Manifest) {m' : Manifest}
    → IsValid m
    → parse_lines n ls m ≡ ok m'
    → Read (map drop_cr ls) m m'
unfolding parse_lines
parse_lines_sound n [] m v h =
    subst (λ x. Read [] m x) (ok-injective h)
      (record { valid = v; keeps = λ name h. h; records = tt; count = omega arith })
parse_lines_sound n (l ∷ ls) m v h =
    let (_, h1) = reject_if-eq-ok (leb max_token (length l)) token_too_long _ h in
    let (m1, e1, h2) = >>=-ok (parse_line (n + 1) (drop_cr l) m) _ h1 in
    let line = parse_line_sound (n + 1) (drop_cr l) m e1 in
    let rest = parse_lines_sound (n + 1) ls m1 (add-IsValid m _ _ v line.added) h2 in
    record {
      valid = rest.valid;
      keeps = λ name k. rest.keeps name (LineRead-keeps name v line k);
      records = (rest.keeps (drop 66 (drop_cr l)) (LineRead-Recorded v line), rest.records);
      count = omega (arith, rest.count, LineRead-length v line);
    }

-- If `Parse` accepts a text, the manifest is valid (strictly sorted, with valid names and digests
-- of 64 lower-case hex digits), records for the name of each line of the text the digest of that
-- line in lower case, and has as many entries as the text has lines.
pub parse-IsValid :
    (s : Bytes) {m : Manifest}
    → parse s ≡ ok m
    → IsValid m
      × All (Recorded m) (map drop_cr (raw_lines s))
      × (length m ≡ length (map drop_cr (raw_lines s)))
unfolding parse
parse-IsValid s {m} h =
    let (m', e, h') = >>=-ok (parse_lines 0 (raw_lines s) []) _ h in
    let r = parse_lines_sound 0 (raw_lines s) [] nil-IsValid e in
    let same : m' ≡ m = non_empty-ok m' h' in
    subst
      (λ x.
        IsValid x
        × All (Recorded x) (map drop_cr (raw_lines s))
        × (length x ≡ length (map drop_cr (raw_lines s))))
      same (r.valid, r.records, omega (arith, r.count))
  where
    non_empty-ok : (x : Manifest) {y : Manifest} → non_empty x ≡ ok y → x ≡ y
    non_empty-ok [] h = cc
    non_empty-ok (e ∷ es) h = ok-injective h
