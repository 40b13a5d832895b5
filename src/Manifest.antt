-- ===== src/Manifest.antt =====
-- internal/manifest/manifest.go: SHA256SUMS files. `Search` has sort.Search and its
-- correctness; the theorems are in Add, Parse, Diff and Files.
pub mod Search
pub mod Sorted
pub mod Valid
pub mod RoundTrip
pub mod Diff
pub mod Files
use release_me.Prelude.{
  ℕ, zero, suc, ◌+◌, ◌-◌, ◌/◌, ◌^◌, ◌≡◌, refl, Bool, true, false, not, ◌&&◌, ◌||◌, Option, none,
  some, List, [], ◌∷◌, ◌++◌, arith, ltb, leb, ◌==◌, if◌then◌else◌, all, is_empty, length, take,
  drop, get_elem?, Bytes, codes, bytes_eq, bytes_compare, is_lt, to_lower, index, raw_lines,
  drop_cr, Result, ok, err, ◌>>=◌, ◌>>◌, reject_if,
}

-- One line of the manifest.
pub record Entry : Type 0 where
  pub name : Bytes
  pub sha256 : Bytes

-- The struct `Manifest` has the one field `Entries`.
abbrev pub Manifest : Type 0
Manifest = List Entry

-- `FileName`
abbrev pub file_name : Bytes
file_name = codes "SHA256SUMS"

pub data ManifestError : Type 0 where
  invalid_name : Bytes → ManifestError
  digest_length : Bytes → ManifestError
  digest_hex : Bytes → ManifestError
  empty_line : ℕ → ManifestError
  line_format : ℕ → ManifestError
  duplicate_entry : ℕ → Bytes → ManifestError
  at_line : ℕ → ManifestError → ManifestError
  token_too_long : ManifestError
  no_entries : ManifestError
  no_files : ManifestError
  unreadable : Bytes → ManifestError
  unreadable_dir : ManifestError

abbrev pub name_byte : ℕ → Bool
name_byte c =
    leb b'a' c && leb c b'z'
    || leb b'A' c && leb c b'Z'
    || leb b'0' c && leb c b'9'
    || c == b'.'
    || c == b'_'
    || c == b'-'
    || c == b'+'
    || c == b'~'

-- `ValidName`. The names "." and ".." begin with a dot.
unfoldable pub valid_name : Bytes → Bool
valid_name [] = false
valid_name (c ∷ s) =
    if ltb 255 (length (c ∷ s)) || bytes_eq (c ∷ s) (codes ".") || bytes_eq (c ∷ s) (codes "..")
    then false
    else if c == b'.' || c == b'-'
    then false
    else all name_byte (c ∷ s)

-- `sort.Search(n, f)` of Go's library: `for i < j { h := (i + j) / 2; … }`. The interval shrinks in
-- every round, so that `n` rounds are enough.
pub search_loop : (ℕ → Bool) → ℕ → ℕ → ℕ → ℕ
search_loop f zero i j = i
search_loop f (suc fuel) i j =
    let h = (i + j) / 2 in
    let upper = search_loop f fuel (h + 1) j in
    let lower = search_loop f fuel i h in if ltb i j then if f h then lower else upper else i

pub search : ℕ → (ℕ → Bool) → ℕ
search n f = search_loop f n 0 n

-- `m.Entries[i].Name >= name`
abbrev name_ge : Bytes → Option Entry → Bool
name_ge name none = true
name_ge name (some e) = not (is_lt (bytes_compare e.name name))

abbrev pub at_least : List Entry → Bytes → ℕ → Bool
at_least es name i = name_ge name (get_elem? es i)

-- `i < len(m.Entries) && m.Entries[i].Name == name`, with the digest found there
abbrev digest_if : Bytes → Option Entry → Option Bytes
digest_if name none = none
digest_if name (some e) = if bytes_eq e.name name then some e.sha256 else none

-- `Lookup`
unfoldable pub lookup : Manifest → Bytes → Option Bytes
unfolding search search_loop
lookup m name = digest_if name (get_elem? m (search (length m) (at_least m name)))

abbrev pub is_some : Option Bytes → Bool
is_some none = false
is_some (some _) = true

-- `m.Entries[i].SHA256 = sum`
abbrev pub set_digest : ℕ → Bytes → List Entry → List Entry
set_digest i sum [] = []
set_digest zero sum (e ∷ es) = record e { sha256 = sum } ∷ es
set_digest (suc i) sum (e ∷ es) = e ∷ set_digest i sum es

-- The append, the copy that moves the tail up by one, and the write at `i`.
abbrev pub insert_at : ℕ → Entry → List Entry → List Entry
insert_at zero x es = x ∷ es
insert_at (suc i) x [] = x ∷ []
insert_at (suc i) x (e ∷ es) = e ∷ insert_at i x es

-- The second half of `Add`, behind the checks.
pub place_at : ℕ → Bytes → Bytes → List Entry → List Entry
place_at i name sum es =
    if is_some (digest_if name (get_elem? es i))
    then set_digest i sum es
    else insert_at i (record { name = name; sha256 = sum }) es

unfoldable pub place : Bytes → Bytes → List Entry → List Entry
unfolding search search_loop place_at
place name sum es = place_at (search (length es) (at_least es name)) name sum es

abbrev pub is_hex : ℕ → Bool
is_hex c = leb b'0' c && leb c b'9' || leb b'a' c && leb c b'f' || leb b'A' c && leb c b'F'

-- `Add`. Of 64 bytes `hex.DecodeString` rejects those with a byte that is no hex digit.
unfoldable pub add : Manifest → Bytes → Bytes → Result ManifestError Manifest
add m name sum = do
  reject_if (not (valid_name name)) (invalid_name name)
  reject_if (not (length sum == 64)) (digest_length name)
  reject_if (not (all is_hex sum)) (digest_hex name)
  ok (place name (to_lower sum) m)

-- `Bytes`
unfoldable pub render : Manifest → Bytes
render [] = []
render (e ∷ es) = e.sha256 ++ (b' ' ∷ b' ' ∷ (e.name ++ (b'\n' ∷ render es)))

-- `1<<20`, the scanner's largest token
abbrev pub max_token : ℕ
max_token = 2 ^ 20

abbrev pub is_64 : Option ℕ → Bool
is_64 none = false
is_64 (some i) = i == 64

abbrev wrap_line : ℕ → Result ManifestError Manifest → Result ManifestError Manifest
wrap_line n (ok m) = ok m
wrap_line n (err e) = err (at_line n e)

-- One round of the loop of `Parse`.
pub parse_line : ℕ → Bytes → Manifest → Result ManifestError Manifest
parse_line n line m = do
  reject_if (is_empty line) (empty_line n)
  reject_if (not (is_64 (index line (codes "  "))) || ltb (length line) 67) (line_format n)
  let sum = take 64 line
  let name = drop 66 line
  reject_if (is_some (lookup m name)) (duplicate_entry n name)
  wrap_line n (add m name sum)

pub parse_lines : ℕ → List Bytes → Manifest → Result ManifestError Manifest
parse_lines n [] m = ok m
parse_lines n (l ∷ ls) m = do
  reject_if (leb max_token (length l)) token_too_long
  m' ← parse_line (n + 1) (drop_cr l) m
  parse_lines (n + 1) ls m'

abbrev non_empty : Manifest → Result ManifestError Manifest
non_empty [] = err no_entries
non_empty (e ∷ es) = ok (e ∷ es)

-- `Parse`
unfoldable pub parse : Bytes → Result ManifestError Manifest
unfolding parse_lines parse_line
parse s = do m ← parse_lines 0 (raw_lines s) []; non_empty m

pub data DiffError : Type 0 where
  missing : Bytes → DiffError
  changed : Bytes → DiffError
  unexpected : Bytes → DiffError

abbrev diff_of : Entry → Option Bytes → List DiffError
diff_of e none = missing e.name ∷ []
diff_of e (some sum) = if bytes_eq sum e.sha256 then [] else changed e.name ∷ []

pub missing_or_changed : Manifest → List Entry → List DiffError
missing_or_changed b [] = []
missing_or_changed b (e ∷ es) = diff_of e (lookup b e.name) ++ missing_or_changed b es

pub unexpected_in : Manifest → List Entry → List DiffError
unexpected_in a [] = []
unexpected_in a (e ∷ es) =
    (if is_some (lookup a e.name) then [] else unexpected e.name ∷ []) ++ unexpected_in a es

-- `Diff`; `errors.Join` of no error is nil.
unfoldable pub diff : Manifest → Manifest → List DiffError
unfolding missing_or_changed unexpected_in
diff a b = missing_or_changed b a ++ unexpected_in a b

pub data CheckError : Type 0 where
  unread : Bytes → CheckError
  mismatch : Bytes → CheckError

-- What the program reads of a directory: its entries, and the SHA-256 of a file in lower-case hex.
pub record DirEntry : Type 0 where
  pub name : Bytes
  pub is_regular : Bool

module _ (hash_file : Bytes → Option Bytes) where
  abbrev check_of : Entry → Option Bytes → List CheckError
  check_of e none = unread e.name ∷ []
  check_of e (some sum) = if bytes_eq sum e.sha256 then [] else mismatch e.name ∷ []

  -- `Check`
  unfoldable pub check : List Entry → List CheckError
  check [] = []
  check (e ∷ es) = check_of e (hash_file e.name) ++ check es

  abbrev add_hashed : Manifest → Bytes → Option Bytes → Result ManifestError Manifest
  add_hashed m name none = err (unreadable name)
  add_hashed m name (some sum) = add m name sum

  pub from_entries : List DirEntry → Manifest → Result ManifestError Manifest
  from_entries [] m = ok m
  from_entries (d ∷ ds) m = do
    m' ←
        if not d.is_regular || bytes_eq d.name file_name
        then ok m
        else add_hashed m d.name (hash_file d.name)
    from_entries ds m'

  abbrev some_files : Manifest → Result ManifestError Manifest
  some_files [] = err no_files
  some_files (e ∷ es) = ok (e ∷ es)

  -- `FromDir`, of what `os.ReadDir` gives: the entries of the directory, or none if it fails.
  unfoldable pub from_dir : Option (List DirEntry) → Result ManifestError Manifest
  unfolding from_entries
  from_dir none = err unreadable_dir
  from_dir (some ds) = do m ← from_entries ds []; some_files m
