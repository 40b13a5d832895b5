-- ===== src/Signers/File.antt =====
-- internal/sshsig/allowed.go: the parsers of allowed_signers files and of lists of revoked keys.
-- The children have what a parsed file says of its lines (Lines) and their options (Settings).
pub mod Settings
pub mod Lines
use release_me.Prelude.{
  ℕ, zero, suc, ◌+◌, ◌-◌, ◌*◌, ◌/◌, ◌%◌, ◌^◌, Bool, true, false, not, ◌&&◌, ◌||◌, Option, none,
  some, List, [], ◌∷◌, ◌++◌, ltb, leb, ◌==◌, if◌then◌else◌, is_empty, all, length, take, drop,
  Bytes, codes, bytes_eq, cut_byte, split, has_prefix, has_suffix, raw_lines, drop_cr, is_digit,
  value, trim_space, trim_byte, fields, Result, ok, err, ◌>>=◌, ◌>>◌, reject_if,
}
use release_me.Signers.{Signer}
use mathlib.Core.Option
use release_me.Signers.Time.{Zones, parse_time}
use release_me.Sshsig.{Ssh, AuthorizedKey}

pub data FileError : Type 0 where
  few_fields : ℕ → FileError
  bad_key : ℕ → FileError
  empty_principal : ℕ → FileError
  cert_authority : ℕ → FileError
  empty_namespaces : ℕ → FileError
  bad_time : ℕ → Bytes → FileError
  unknown_option : ℕ → Bytes → FileError
  token_too_long : FileError
  no_keys : FileError
  binary_krl : FileError

abbrev pub or_error : {A : Type 0} → FileError → Option A → Result FileError A
or_error e none = err e
or_error e (some x) = ok x

-- `strings.Cut(opt, "=")` with the quotes of the value trimmed, and whether there is one.
abbrev pub option_parts : Bytes → Option (Bytes × Bytes) → Bytes × Bytes × Bool
option_parts opt none = (opt, [], false)
option_parts opt (some (name, v)) = (name, trim_byte b'"' v, true)

-- The switch over the name of an option.
abbrev pub set_option : Zones → ℕ → Bytes × Bytes × Bool → Signer → Result FileError Signer
set_option zones n (name, v, has_value) s =
    if bytes_eq name (codes "cert-authority")
    then err (cert_authority n)
    else if bytes_eq name (codes "namespaces")
    then (if not has_value || is_empty v
        then err (empty_namespaces n)
        else ok (record s { namespaces = split b',' v }))
    else if bytes_eq name (codes "valid-after")
    then or_error (bad_time n v)
        (Option.map (λ t. record s { valid_after = t }) (parse_time zones v))
    else if bytes_eq name (codes "valid-before")
    then or_error (bad_time n v)
        (Option.map (λ t. record s { valid_before = t }) (parse_time zones v))
    else err (unknown_option n name)

-- The loop over the options of a line.
pub set_options : Zones → ℕ → List Bytes → Signer → Result FileError Signer
set_options zones n [] s = ok s
set_options zones n (opt ∷ opts) s = do
  s' ← set_option zones n (option_parts opt (cut_byte b'=' opt)) s
  set_options zones n opts s'

abbrev pub is_skipped : Bytes → Bool
is_skipped line = is_empty line || has_prefix line (codes "#")

-- What a line gives comes before what the rest of the file gives.
abbrev pub add_unless :
    {A : Type 0} → Bool → Result FileError A → Result FileError (List A) → Result FileError (List A)
add_unless true x rest = rest
add_unless false x rest = do a ← x; as_list ← rest; ok (a ∷ as_list)

abbrev pub first_field : List Bytes → Bytes
first_field [] = []
first_field (f ∷ fs) = f

-- A line that is neither blank nor a comment.
pub parse_signer : Ssh → Zones → ℕ → Bytes → Result FileError Signer
parse_signer lib zones n line = do
  let parts = fields line
  reject_if (ltb (length parts) 3) (few_fields n)
  let principals = split b',' (first_field parts)
  let rest = trim_space (drop (length (first_field parts)) line)
  key ← or_error (bad_key n) (lib.parse_authorized_key rest)
  reject_if (not (all (λ p. not (is_empty p)) principals)) (empty_principal n)
  set_options zones n key.options (record {
    principals = principals;
    key = key.key.blob;
    namespaces = [];
    valid_after = 0;
    valid_before = 0;
    comment = key.comment;
    line = n;
  })

-- `1<<20`, the scanner's largest token
abbrev pub max_token : ℕ
max_token = 2 ^ 20

-- The loop over the lines, with the number of those before.
pub parse_lines : Ssh → Zones → ℕ → List Bytes → Result FileError (List Signer)
parse_lines lib zones n [] = ok []
parse_lines lib zones n (l ∷ ls) = do
  reject_if (leb max_token (length l)) token_too_long
  let line = trim_space (drop_cr l)
  let rest = parse_lines lib zones (n + 1) ls
  add_unless (is_skipped line) (parse_signer lib zones (n + 1) line) rest

abbrev pub some_keys : List Signer → Result FileError (List Signer)
some_keys [] = err no_keys
some_keys (s ∷ ss) = ok (s ∷ ss)

-- `ParseAllowedSigners`, of a file that can be read.
unfoldable pub parse_allowed_signers : Ssh → Zones → Bytes → Result FileError (List Signer)
unfolding parse_lines parse_signer set_options
parse_allowed_signers lib zones text = do
  ss ← parse_lines lib zones 0 (raw_lines text)
  some_keys ss

pub revoked_lines : Ssh → ℕ → List Bytes → Result FileError (List Bytes)
revoked_lines lib n [] = ok []
revoked_lines lib n (l ∷ ls) = do
  let line = trim_space l
  let rest = revoked_lines lib (n + 1) ls
  add_unless (is_skipped line)
      (or_error (bad_key (n + 1))
        (Option.map (λ (k : AuthorizedKey). k.key.blob) (lib.parse_authorized_key line)))
      rest

-- `ParseRevokedKeys`, with the marshalled keys.
unfoldable pub parse_revoked_keys : Ssh → Bytes → Result FileError (List Bytes)
unfolding revoked_lines
parse_revoked_keys lib text = do
  reject_if (has_prefix text (codes "SSHKRL\n" ++ (0 ∷ []))) binary_krl
  revoked_lines lib 0 (split b'\n' text)
