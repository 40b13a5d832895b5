-- ===== src/Sigstore/Accepted.antt =====
-- What a bundle that `Verify` accepts says.
use release_me.Prelude.{
  ◌≡◌, refl, ap, subst, false, not, ◌&&◌, Option, none, some, List, arith, is_empty, Bytes,
  bytes_eq, bytes_eq_iff, Result, ok, err, ok-injective, >>=-ok, reject_if-eq-ok,
}
use release_me.Intoto.{Statement, Codec, IntotoError, payload_type, parse_statement}
use release_me.Sigstore.{
  VerifyOptions, Envelope, Bundle, VerificationResult, Sigstore, Verification, SigstoreError,
  no_trusted_material, no_identity, no_digests, bad_bundle, no_timestamp, bad_verifier,
  bad_identity, failed, no_envelope, other_payload, or_error, or_bad_statement, decode_digests,
  verifier_options, any_issuer, verify,
}

or_error-ok :
    {A : Type 0} (e : SigstoreError) (o : Option A) {a : A} → or_error e o ≡ ok a → o ≡ some a
or_error-ok e none h = cc
or_error-ok e (some a) h = ap some (ok-injective h)

or_bad_statement-ok :
    (r : Result IntotoError Statement) {s : Statement} → or_bad_statement r ≡ ok s → r ≡ ok s
or_bad_statement-ok (ok s) h = ap ok (ok-injective h)
or_bad_statement-ok (err e) h = cc

module _ (codec : Codec) (lib : Sigstore) where
  -- The library verified the bundle for the identity and the digests, and the statement is the payload
  -- of its envelope.
  pub record BundleSays (bundle_json : Bytes) (o : VerifyOptions) (v : Verification) : Type 0 where
    pub trusted : Bytes
    pub material : o.trusted ≡ some trusted
    pub bundle : Bundle
    pub read : lib.read_bundle bundle_json ≡ some bundle
    pub digests : List Bytes
    pub raw_digests : decode_digests o.digests ≡ ok digests
    pub some_digest : is_empty o.digests ≡ false
    pub some_identity : (is_empty o.identity.san && is_empty o.identity.san_regex) ≡ false
    pub result : VerificationResult
    pub verified :
        lib.verify_bundle trusted (verifier_options o) (any_issuer o.identity) digests bundle
        ≡ some result
    pub envelope : Envelope
    pub has_envelope : bundle.envelope ≡ some envelope
    pub payload_kind : envelope.payload_type ≡ payload_type
    pub payload : envelope.payload ≡ v.payload
    pub parsed : parse_statement codec v.payload ≡ ok v.statement

  pub verify-BundleSays :
      (bundle_json : Bytes) (o : VerifyOptions) {v : Verification}
      → verify codec lib bundle_json o ≡ ok v
      → BundleSays bundle_json o v
  unfolding verify
  verify-BundleSays bundle_json o h =
      let (trusted, t, h1) = >>=-ok (or_error no_trusted_material o.trusted) _ h in
      let (named, h2) =
        reject_if-eq-ok (is_empty o.identity.san && is_empty o.identity.san_regex) no_identity _
          h1 in
      let (some_digest, h3) = reject_if-eq-ok (is_empty o.digests) no_digests _ h2 in
      let (b, r, h4) = >>=-ok (or_error bad_bundle (lib.read_bundle bundle_json)) _ h3 in
      let (_, h5) =
        reject_if-eq-ok (o.no_transparency_log && not o.signed_timestamp) no_timestamp _ h4 in
      let (_, h6) =
        reject_if-eq-ok (not (lib.has_verifier trusted (verifier_options o))) bad_verifier _ h5 in
      let (_, h7) =
        reject_if-eq-ok (not (lib.has_identity (any_issuer o.identity))) bad_identity _ h6 in
      let (digests, d, h8) = >>=-ok (decode_digests o.digests) _ h7 in
      let (res, k, h9) =
        >>=-ok
          (or_error failed
            (lib.verify_bundle trusted (verifier_options o) (any_issuer o.identity) digests b))
          _ h8 in
      let (env, e, h10) = >>=-ok (or_error no_envelope b.envelope) _ h9 in
      let (kind, h11) =
        reject_if-eq-ok (not (bytes_eq env.payload_type payload_type))
          (other_payload env.payload_type) _ h10 in
      let (st, p, h12) = >>=-ok (or_bad_statement (parse_statement codec env.payload)) _ h11 in
      subst (BundleSays bundle_json o) (ok-injective h12) (record {
        trusted = trusted;
        material = or_error-ok _ o.trusted t;
        bundle = b;
        read = or_error-ok _ (lib.read_bundle bundle_json) r;
        digests = digests;
        raw_digests = d;
        some_digest = some_digest;
        some_identity = named;
        result = res;
        verified =
            or_error-ok _
              (lib.verify_bundle trusted (verifier_options o) (any_issuer o.identity) digests b) k;
        envelope = env;
        has_envelope = or_error-ok _ b.envelope e;
        payload_kind = (bytes_eq_iff env.payload_type payload_type).0 (ground arith);
        payload = refl;
        parsed = or_bad_statement-ok (parse_statement codec env.payload) p;
      })
