-- ===== src/Tag.antt =====
-- internal/gittag/gittag.go: tag objects of git, and the check of their signature against the allowed
-- signers. The child has what a parsed tag says of the object.
pub mod Object
use release_me.Prelude.{
  ℕ, suc, ◌+◌, Bool, true, false, not, ◌&&◌, ◌||◌, Option, none, some, List, [], ◌∷◌, ◌++◌,
  if◌then◌else◌, is_empty, take, drop, Bytes, codes, bytes_eq, cut_byte, split, index, has_prefix,
  Result, ok, err, ◌>>=◌, ◌>>◌, reject_if,
}
use release_me.Sshsig.{Ssh}
use release_me.Signers
use release_me.Signers.{Signer, SignerError, Accepted}

-- `Tag`. The tagger is the value of its header, which `parseIdent` splits.
pub record Tag : Type 0 where
  pub name : Bytes
  pub object : Bytes
  pub object_type : Bytes
  pub tagger : Bytes
  pub message : Bytes
  pub payload : Bytes
  pub signature : Option Bytes
  pub pgp : Bool

pub data TagError : Type 0 where
  no_header_end : TagError
  malformed_header : Bytes → TagError
  missing_header : TagError

pub data SignatureError : Type 0 where
  not_signed : SignatureError
  pgp_signed : SignatureError
  rejected : SignerError → SignatureError

abbrev pub ssh_marker : Bytes
ssh_marker = codes "-----BEGIN SSH SIGNATURE-----"

abbrev pub pgp_marker : Bytes
pgp_marker = codes "-----BEGIN PGP SIGNATURE-----"

-- The headers that the code reads; a later one of the same key replaces an earlier one.
pub record Headers : Type 0 where
  pub object : Bytes
  pub object_type : Bytes
  pub name : Bytes
  pub tagger : Bytes

-- The switch over the key.
abbrev pub set_header : Bytes → Bytes → Headers → Headers
set_header key value h =
    if bytes_eq key (codes "object")
    then record h { object = value }
    else if bytes_eq key (codes "type")
    then record h { object_type = value }
    else if bytes_eq key (codes "tag")
    then record h { name = value }
    else if bytes_eq key (codes "tagger")
    then record h { tagger = value }
    else h

abbrev cut_header : Bytes → Option (Bytes × Bytes) → Headers → Result TagError Headers
cut_header line none h = err (malformed_header line)
cut_header line (some (key, value)) h = ok (set_header key value h)

-- The loop over the header lines.
pub read_headers : List Bytes → Headers → Result TagError Headers
read_headers [] h = ok h
read_headers (l ∷ ls) h = do h' ← cut_header l (cut_byte b' ' l) h; read_headers ls h'

abbrev after_newline : Option ℕ → Option ℕ
after_newline none = none
after_newline (some i) = some (suc i)

-- `signatureStart`; `none` is -1.
pub signature_start : Bytes → Bytes → Option ℕ
signature_start body marker =
    if has_prefix body marker then some 0 else after_newline (index body (b'\n' ∷ marker))

-- The bytes before `at` in the body are the message, what follows is the signature.
abbrev pub signed_at : Bytes → ℕ → Headers → ℕ → Bool → Tag
signed_at raw start h i pgp = record {
  name = h.name;
  object = h.object;
  object_type = h.object_type;
  tagger = h.tagger;
  message = take i (drop start raw);
  payload = take (start + i) raw;
  signature = some (drop i (drop start raw));
  pgp = pgp;
}

abbrev pub unsigned : Bytes → ℕ → Headers → Tag
unsigned raw start h = record {
  name = h.name;
  object = h.object;
  object_type = h.object_type;
  tagger = h.tagger;
  message = drop start raw;
  payload = raw;
  signature = none;
  pgp = false;
}

abbrev pub or_unsigned : Bytes → ℕ → Headers → Option ℕ → Tag
or_unsigned raw start h none = unsigned raw start h
or_unsigned raw start h (some i) = signed_at raw start h i true

-- The loop over the two markers.
abbrev pub cut_signature : Bytes → ℕ → Headers → Option ℕ → Option ℕ → Tag
cut_signature raw start h none pgp = or_unsigned raw start h pgp
cut_signature raw start h (some i) pgp = signed_at raw start h i false

abbrev no_headers : Headers
no_headers = record { object = []; object_type = []; name = []; tagger = [] }

pub with_header_end : Bytes → Option ℕ → Result TagError Tag
with_header_end raw none = err no_header_end
with_header_end raw (some header_end) = do
  h ← read_headers (split b'\n' (take header_end raw)) no_headers
  reject_if (is_empty h.object || is_empty h.object_type || is_empty h.name) missing_header
  let start = header_end + 2
  let body = drop start raw
  ok (cut_signature raw start h (signature_start body ssh_marker) (signature_start body pgp_marker))

-- `ParseObject`
unfoldable pub parse_object : Bytes → Result TagError Tag
unfolding with_header_end read_headers signature_start
parse_object raw = with_header_end raw (index raw (codes "\n\n"))

-- `Signed`
abbrev pub is_signed : Tag → Bool
is_signed t = elim t.signature [ none ↦ false | some _ ↦ not t.pgp ]

-- `Namespace`
abbrev pub git_namespace : Bytes
git_namespace = codes "git"

abbrev as_tag_error : Result SignerError Accepted → Result SignatureError Accepted
as_tag_error (ok a) = ok a
as_tag_error (err e) = err (rejected e)

module _ (lib : Ssh) where
  abbrev verify_armored :
      Option Bytes → Tag → List Signer → Signers.Options → ℕ → Result SignatureError Accepted
  verify_armored none t policy o clock = err not_signed
  verify_armored (some armored) t policy o clock =
      if t.pgp
      then err pgp_signed
      else as_tag_error (
          Signers.verify lib policy t.payload armored (record o { namespace = git_namespace })
            clock)

  -- `VerifySignature`
  unfoldable pub verify_signature :
      Tag → List Signer → Signers.Options → ℕ → Result SignatureError Accepted
  verify_signature t policy o clock = verify_armored t.signature t policy o clock
