-- ===== src/Sshsig.antt =====
-- internal/sshsig/sshsig.go: OpenSSH's signature format. The package golang.org/x/crypto/ssh and the
-- two hash functions are a parameter.
pub mod Base64
pub mod Armored
pub mod Signed
use release_me.Prelude.{
  ℕ, zero, suc, ◌+◌, Bool, true, false, not, ◌&&◌, ◌||◌, Option, none, some, List, [], ◌∷◌, ◌++◌,
  ltb, ◌==◌, if◌then◌else◌, is_empty, length, take, drop, Bytes, codes, bytes_eq, has_prefix, index,
  Result, ok, err, ◌>>=◌, ◌>>◌, reject_if,
}
use release_me.Sshsig.Base64.{encode, decode}

abbrev pub magic : Bytes
magic = codes "SSHSIG"

abbrev pub sig_version : ℕ
sig_version = 1

abbrev pub begin_line : Bytes
begin_line = codes "-----BEGIN SSH SIGNATURE-----"

abbrev pub end_line : Bytes
end_line = codes "-----END SSH SIGNATURE-----"

-- What the code reads of an `ssh.PublicKey`: `Type()`, `Marshal()`, and whether it is an
-- `*ssh.Certificate`.
pub record PublicKey : Type 0 where
  pub key_type : Bytes
  pub blob : Bytes
  pub is_certificate : Bool

-- `ssh.Signature`
pub record SshSignature : Type 0 where
  pub format : Bytes
  pub blob : Bytes

-- `Signature`
pub record Signature : Type 0 where
  pub public_key : PublicKey
  pub namespace : Bytes
  pub hash_alg : Bytes
  pub sig : SshSignature
  pub reserved : Bytes

-- `wire`
pub record Wire : Type 0 where
  pub version : ℕ
  pub public_key : Bytes
  pub namespace : Bytes
  pub reserved : Bytes
  pub hash_alg : Bytes
  pub signature : Bytes

-- `signedData`
pub record SignedData : Type 0 where
  pub namespace : Bytes
  pub reserved : Bytes
  pub hash_alg : Bytes
  pub hash : Bytes

-- The keytype, comment and options of one line, from `ssh.ParseAuthorizedKey`.
pub record AuthorizedKey : Type 0 where
  pub key : PublicKey
  pub comment : Bytes
  pub options : List Bytes

-- What the program calls of golang.org/x/crypto/ssh, and SHA-256 and SHA-512 of Go's library.
pub record Ssh : Type 0 where
  pub sha256 : Bytes → Bytes
  pub sha512 : Bytes → Bytes
  pub marshal_signed_data : SignedData → Bytes
  pub marshal_wire : Wire → Bytes
  pub unmarshal_wire : Bytes → Option Wire
  pub marshal_signature : SshSignature → Bytes
  pub unmarshal_signature : Bytes → Option SshSignature
  pub parse_public_key : Bytes → Option PublicKey
  pub verify_key : PublicKey → Bytes → SshSignature → Bool
  pub parse_authorized_key : Bytes → Option AuthorizedKey
  pub fingerprint : Bytes → Bytes

-- `ssh.Signer`; `sign_sha512` is `SignWithAlgorithm` at rsa-sha2-512.
pub record SigningKey : Type 0 where
  pub public : PublicKey
  pub is_algorithm_signer : Bool
  pub sign_data : Bytes → Option SshSignature
  pub sign_sha512 : Bytes → Option SshSignature

pub data SshsigError : Type 0 where
  unsupported_hash : Bytes → SshsigError
  empty_namespace : SshsigError
  signing_failed : SshsigError
  missing_begin : SshsigError
  missing_end : SshsigError
  invalid_base64 : SshsigError
  bad_magic : SshsigError
  malformed : SshsigError
  unsupported_version : ℕ → SshsigError
  bad_public_key : SshsigError
  certificate : SshsigError
  malformed_inner : SshsigError
  weak_rsa : Bytes → SshsigError
  other_namespace : Bytes → SshsigError
  not_verified : SshsigError

abbrev pub some_or : {A : Type 0} → SshsigError → Option A → Result SshsigError A
some_or e none = err e
some_or e (some x) = ok x

-- `ssh.KeyAlgoRSA` and the two algorithms that are allowed with it
abbrev pub rsa : Bytes
rsa = codes "ssh-rsa"

abbrev pub rsa_sha256 : Bytes
rsa_sha256 = codes "rsa-sha2-256"

abbrev pub rsa_sha512 : Bytes
rsa_sha512 = codes "rsa-sha2-512"

-- The loop of `Armor`, whose rounds take 70 characters each.
pub wrap_lines : ℕ → Bytes → Bytes
wrap_lines zero s = s
wrap_lines (suc fuel) s =
    let more = take 70 s ++ (b'\n' ∷ wrap_lines fuel (drop 70 s)) in
    if ltb 70 (length s) then more else s

-- `Armor`
unfoldable pub armor : Bytes → Bytes
unfolding wrap_lines
armor blob =
    let b64 = encode blob in
    begin_line ++ (b'\n' ∷ (wrap_lines (length b64) b64 ++ (b'\n' ∷ (end_line ++ (b'\n' ∷ [])))))

abbrev pub is_blank : ℕ → Bool
is_blank c = c == b'\n' || c == b'\r' || c == b' ' || c == b'\t'

-- `strings.Map` with a function that drops these four
pub drop_blanks : Bytes → Bytes
drop_blanks [] = []
drop_blanks (c ∷ s) = if is_blank c then drop_blanks s else c ∷ drop_blanks s

abbrev pub body_of : Bytes → Option ℕ → Result SshsigError Bytes
body_of s none = err missing_end
body_of s (some j) = some_or invalid_base64 (decode (drop_blanks (take j s)))

abbrev pub behind_begin : Bytes → Option ℕ → Result SshsigError Bytes
behind_begin s none = err missing_begin
behind_begin s (some i) =
    let rest = drop (i + length begin_line) s in body_of rest (index rest end_line)

-- `Dearmor`
unfoldable pub dearmor : Bytes → Result SshsigError Bytes
unfolding drop_blanks
dearmor armored = behind_begin armored (index armored begin_line)

module _ (lib : Ssh) where
  -- `hasher`
  abbrev pub hasher : Bytes → Option (Bytes → Bytes)
  hasher alg =
      if bytes_eq alg (codes "sha256")
      then some lib.sha256
      else if bytes_eq alg (codes "sha512")
      then some lib.sha512
      else none

  -- `toBeSigned`
  abbrev pub to_be_signed : Bytes → Bytes → Bytes → Bytes
  to_be_signed namespace alg digest =
      magic
      ++ lib.marshal_signed_data
          (record { namespace = namespace; reserved = []; hash_alg = alg; hash = digest })

  -- The signature of the data with the algorithm that the key's type asks for.
  abbrev pub sign_with : SigningKey → Bytes → Option SshSignature
  sign_with signer bytes =
      if signer.is_algorithm_signer && bytes_eq signer.public.key_type rsa
      then signer.sign_sha512 bytes
      else signer.sign_data bytes

  abbrev pub signed_wire : SigningKey → Bytes → SshSignature → Wire
  signed_wire signer namespace sig = record {
    version = sig_version;
    public_key = signer.public.blob;
    namespace = namespace;
    reserved = [];
    hash_alg = codes "sha512";
    signature = lib.marshal_signature sig;
  }

  -- `Sign`, of a message that can be read.
  unfoldable pub sign : SigningKey → Bytes → Bytes → Result SshsigError Bytes
  sign signer message namespace = do
    reject_if (is_empty namespace) empty_namespace
    sig ←
        some_or signing_failed
          (sign_with signer (to_be_signed namespace (codes "sha512") (lib.sha512 message)))
    ok (armor (magic ++ lib.marshal_wire (signed_wire signer namespace sig)))

  -- `Parse`, behind `Dearmor`
  pub parse_blob : Bytes → Result SshsigError Signature
  parse_blob blob = do
    reject_if (not (has_prefix blob magic)) bad_magic
    w ← some_or malformed (lib.unmarshal_wire (drop (length magic) blob))
    reject_if (not (w.version == sig_version)) (unsupported_version w.version)
    reject_if (is_empty w.namespace) empty_namespace
    hash ← some_or (unsupported_hash w.hash_alg) (hasher w.hash_alg)
    key ← some_or bad_public_key (lib.parse_public_key w.public_key)
    reject_if key.is_certificate certificate
    sig ← some_or malformed_inner (lib.unmarshal_signature w.signature)
    reject_if
        (bytes_eq key.key_type rsa
          && not (bytes_eq sig.format rsa_sha256)
          && not (bytes_eq sig.format rsa_sha512))
        (weak_rsa sig.format)
    ok (record {
      public_key = key;
      namespace = w.namespace;
      hash_alg = w.hash_alg;
      sig = sig;
      reserved = w.reserved;
    })

  -- `Parse`
  unfoldable pub parse : Bytes → Result SshsigError Signature
  unfolding parse_blob
  parse armored = do blob ← dearmor armored; parse_blob blob

  -- `Signature.Verify`, of a message that can be read.
  unfoldable pub verify : Signature → Bytes → Bytes → Result SshsigError (Unit {0})
  verify s message namespace = do
    reject_if (not (bytes_eq s.namespace namespace)) (other_namespace s.namespace)
    hash ← some_or (unsupported_hash s.hash_alg) (hasher s.hash_alg)
    reject_if
        (not
          (lib.verify_key s.public_key (to_be_signed s.namespace s.hash_alg (hash message)) s.sig))
        not_verified
