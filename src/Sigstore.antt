-- ===== src/Sigstore.antt =====
-- internal/sigstore/sigstore.go: `Verify` and `PayloadOf`. The packages of sigstore-go are a parameter.
-- The child has what an accepted bundle says.
pub mod Accepted
use release_me.Prelude.{
  ℕ, ◌+◌, ◌-◌, ◌*◌, Bool, true, false, not, ◌&&◌, ◌||◌, Option, none, some, List, [], ◌∷◌, ◌++◌,
  leb, ◌==◌, if◌then◌else◌, is_empty, length, Bytes, codes, bytes_eq, Result, ok, err, ◌>>=◌, ◌>>◌,
  reject_if,
}
use release_me.Intoto.{
  Statement, Codec, IntotoError, payload_type, parse_statement, parse_statement_loose,
}

-- `Identity`
pub record Identity : Type 0 where
  pub issuer : Bytes
  pub issuer_regex : Bytes
  pub san : Bytes
  pub san_regex : Bytes

-- `VerifyOptions`; the trusted material is what it is read from.
pub record VerifyOptions : Type 0 where
  pub trusted : Option Bytes
  pub identity : Identity
  pub digests : List Bytes
  pub no_transparency_log : Bool
  pub signed_timestamp : Bool

-- The DSSE envelope of a bundle.
pub record Envelope : Type 0 where
  pub payload_type : Bytes
  pub payload : Bytes

-- What the code reads of a `bundle.Bundle`.
pub record Bundle : Type 0 where
  pub raw : Bytes
  pub envelope : Option Envelope

-- The options of `verify.NewVerifier` that the code passes, each with its threshold.
pub data VerifierOption : Type 0 where
  signed_certificate_timestamps : ℕ → VerifierOption
  transparency_log : ℕ → VerifierOption
  observer_timestamps : ℕ → VerifierOption
  signed_timestamps : ℕ → VerifierOption

-- What the code reads of a `verify.VerificationResult`: the name and issuer of the identity, and times.
pub record VerificationResult : Type 0 where
  pub identity : Option (Bytes × Bytes)
  pub timestamps : List ℕ

-- What the program calls of sigstore-go: the bundle of a text, whether a verifier and an identity can be
-- made, and the verification of the bundle for an identity and the raw digests of the artifacts.
pub record Sigstore : Type 0 where
  pub read_bundle : Bytes → Option Bundle
  pub has_verifier : Bytes → List VerifierOption → Bool
  pub has_identity : Identity → Bool
  pub verify_bundle :
      Bytes → List VerifierOption → Identity → List Bytes → Bundle → Option VerificationResult

-- `Result`
pub record Verification : Type 0 where
  pub statement : Statement
  pub payload : Bytes
  pub san : Bytes
  pub issuer : Bytes
  pub timestamps : List ℕ

pub data SigstoreError : Type 0 where
  no_trusted_material : SigstoreError
  no_identity : SigstoreError
  no_digests : SigstoreError
  bad_bundle : SigstoreError
  no_timestamp : SigstoreError
  bad_verifier : SigstoreError
  bad_identity : SigstoreError
  invalid_digest : Bytes → SigstoreError
  failed : SigstoreError
  no_envelope : SigstoreError
  other_payload : Bytes → SigstoreError
  bad_statement : IntotoError → SigstoreError

abbrev pub or_error : {A : Type 0} → SigstoreError → Option A → Result SigstoreError A
or_error e none = err e
or_error e (some x) = ok x

abbrev pub or_bad_statement : Result IntotoError Statement → Result SigstoreError Statement
or_bad_statement (ok s) = ok s
or_bad_statement (err e) = err (bad_statement e)

abbrev pub hex_digit : ℕ → Option ℕ
hex_digit c =
    if leb b'0' c && leb c b'9'
    then some (c - b'0')
    else if leb b'a' c && leb c b'f'
    then some (c - b'a' + 10)
    else if leb b'A' c && leb c b'F'
    then some (c - b'A' + 10)
    else none

abbrev pub hex_cons : Option ℕ → Option ℕ → Option Bytes → Option Bytes
hex_cons (some x) (some y) (some s) = some ((x * 16 + y) ∷ s)
hex_cons _ _ _ = none

-- `hex.DecodeString`
unfoldable pub hex_decode : Bytes → Option Bytes
hex_decode [] = some []
hex_decode (a ∷ []) = none
hex_decode (a ∷ b ∷ s) = hex_cons (hex_digit a) (hex_digit b) (hex_decode s)

-- A digest of 32 bytes.
abbrev pub sha256_bytes : Bytes → Option Bytes → Result SigstoreError Bytes
sha256_bytes d none = err (invalid_digest d)
sha256_bytes d (some raw) = if length raw == 32 then ok raw else err (invalid_digest d)

-- The loop over the digests.
pub decode_digests : List Bytes → Result SigstoreError (List Bytes)
decode_digests [] = ok []
decode_digests (d ∷ ds) = do
  raw ← sha256_bytes d (hex_decode d)
  rest ← decode_digests ds
  ok (raw ∷ rest)

abbrev pub log_options : Bool → List VerifierOption
log_options no_log = if no_log then [] else transparency_log 1 ∷ observer_timestamps 1 ∷ []

abbrev pub timestamp_options : Bool → List VerifierOption
timestamp_options signed = if signed then signed_timestamps 1 ∷ [] else []

abbrev pub verifier_options : VerifyOptions → List VerifierOption
verifier_options o =
    signed_certificate_timestamps 1
    ∷ (log_options o.no_transparency_log ++ timestamp_options o.signed_timestamp)

-- Without an issuer any is accepted.
abbrev pub any_issuer : Identity → Identity
any_issuer i =
    if is_empty i.issuer && is_empty i.issuer_regex
    then record i { issuer_regex = codes ".*" }
    else i

abbrev pub san_of : Option (Bytes × Bytes) → Bytes
san_of none = []
san_of (some (san, issuer)) = san

abbrev pub issuer_of : Option (Bytes × Bytes) → Bytes
issuer_of none = []
issuer_of (some (san, issuer)) = issuer

module _ (codec : Codec) (lib : Sigstore) where
  -- `Verify`
  unfoldable pub verify : Bytes → VerifyOptions → Result SigstoreError Verification
  unfolding decode_digests
  verify bundle_json o = do
    trusted ← or_error no_trusted_material o.trusted
    reject_if (is_empty o.identity.san && is_empty o.identity.san_regex) no_identity
    reject_if (is_empty o.digests) no_digests
    b ← or_error bad_bundle (lib.read_bundle bundle_json)
    reject_if (o.no_transparency_log && not o.signed_timestamp) no_timestamp
    reject_if (not (lib.has_verifier trusted (verifier_options o))) bad_verifier
    let identity = any_issuer o.identity
    reject_if (not (lib.has_identity identity)) bad_identity
    digests ← decode_digests o.digests
    res ← or_error failed (lib.verify_bundle trusted (verifier_options o) identity digests b)
    env ← or_error no_envelope b.envelope
    reject_if (not (bytes_eq env.payload_type payload_type)) (other_payload env.payload_type)
    st ← or_bad_statement (parse_statement codec env.payload)
    ok (record {
      statement = st;
      payload = env.payload;
      san = san_of res.identity;
      issuer = issuer_of res.identity;
      timestamps = res.timestamps;
    })

  -- `PayloadOf`
  unfoldable pub payload_of : Bytes → Result SigstoreError Statement
  payload_of bundle_json = do
    b ← or_error bad_bundle (lib.read_bundle bundle_json)
    env ← or_error no_envelope b.envelope
    or_bad_statement (parse_statement_loose codec env.payload)
