-- ===== src/Sshsig/Signed.antt =====
-- `Sign`, `Parse` and `Verify` of internal/sshsig/sshsig.go together: what an accepted signature
-- covers, and that what is signed is accepted.
use release_me.Prelude.{
  ◌≡◌, ◌≢◌, ◌⊎◌, inl, inr, refl, sym, ap, ◌∙◌, subst, Bool, true, false, not, ◌&&◌, Option, none,
  some, [], ◌++◌, arith, ◌==◌, All, All-append, is_empty, length, drop, Bytes, codes, bytes_eq,
  bytes_eq_iff, has_prefix, Bool-cases, Option-cases, ok, ◌>>=◌, ok-injective, >>=-ok, reject_if,
  reject_if-eq-ok,
}
use release_me.Sshsig.Base64.{IsByte}
use release_me.Sshsig.Armored.{dearmor-armor}
use release_me.Sshsig.{
  magic, rsa, rsa_sha256, rsa_sha512, PublicKey, SshSignature, Signature, Ssh, SigningKey,
  SshsigError, empty_namespace, bad_magic, malformed, unsupported_version, unsupported_hash,
  bad_public_key, certificate, malformed_inner, weak_rsa, other_namespace, not_verified,
  sig_version, some_or, armor, dearmor, hasher, to_be_signed, sign_with, signed_wire, sign,
  parse_blob, parse, verify,
}

module _ (lib : Ssh) where
  abbrev digest_data : Bytes → Bytes → Bytes
  digest_data namespace message = to_be_signed lib namespace (codes "sha512") (lib.sha512 message)

  -- What the package golang.org/x/crypto/ssh does with a signature that the key made of a message: it
  -- reads back the two structures that it writes and the public key, which is no certificate; the
  -- signature verifies under the public key.
  pub record ReadsBack (k : SigningKey) (namespace message : Bytes) (s : SshSignature)
      : Type 0 where
    pub wire_back :
        lib.unmarshal_wire (lib.marshal_wire (signed_wire lib k namespace s))
        ≡ some (signed_wire lib k namespace s)
    pub wire_bytes : All IsByte (lib.marshal_wire (signed_wire lib k namespace s))
    pub signature_back : lib.unmarshal_signature (lib.marshal_signature s) ≡ some s
    pub key_back : lib.parse_public_key k.public.blob ≡ some k.public
    pub plain : k.public.is_certificate ≡ false
    pub verifies : lib.verify_key k.public (digest_data namespace message) s ≡ true

  -- What the package says of its RSA keys: each can be asked for an algorithm, and one that is asked
  -- for rsa-sha2-512 signs with it. What it signs with when it is not asked is left open.
  pub record AlgorithmChoice (k : SigningKey) : Type 0 where
    pub offered : bytes_eq k.public.key_type rsa ≡ true → k.is_algorithm_signer ≡ true
    pub obeyed :
        bytes_eq k.public.key_type rsa ≡ true
        → (bytes : Bytes) {s : SshSignature} → k.sign_sha512 bytes ≡ some s
        → s.format ≡ rsa_sha512

  -- An RSA key is asked for rsa-sha2-512.
  sign_with-rsa :
      (k : SigningKey) (bytes : Bytes) {s : SshSignature}
      → AlgorithmChoice k
      → bytes_eq k.public.key_type rsa ≡ true
      → sign_with lib k bytes ≡ some s
      → s.format ≡ rsa_sha512
  sign_with-rsa k bytes choice is_rsa made =
      choice.obeyed is_rsa bytes (rw (choice.offered is_rsa, is_rsa) at made)

  abbrev signature_of : SigningKey → Bytes → SshSignature → Signature
  signature_of k namespace s = record {
    public_key = k.public;
    namespace = namespace;
    hash_alg = codes "sha512";
    sig = s;
    reserved = [];
  }

  module _ (k : SigningKey) (namespace message : Bytes) (s : SshSignature)
      (named : is_empty namespace ≡ false) (choice : AlgorithmChoice k)
      (made : sign_with lib k (digest_data namespace message) ≡ some s)
      (r : ReadsBack k namespace message s) where
    weak-false :
        (bytes_eq k.public.key_type rsa
          && not (bytes_eq s.format rsa_sha256)
          && not (bytes_eq s.format rsa_sha512))
        ≡ false
    weak-false = elim (Bool-cases (bytes_eq k.public.key_type rsa)) [
      | inl is_rsa ↦
          rw (is_rsa, sign_with-rsa k (digest_data namespace message) choice is_rsa made) refl
      | inr other ↦ rw other refl
    ]

    parse_blob-signed :
        parse_blob lib (magic ++ lib.marshal_wire (signed_wire lib k namespace s))
        ≡ ok (signature_of k namespace s)
    unfolding parse_blob
    parse_blob-signed =
        rw (r.wire_back)
          (rw (named, r.key_back) (rw (r.plain, r.signature_back) (rw weak-false refl)))

    verify-signature_of : verify lib (signature_of k namespace s) message namespace ≡ ok tt
    unfolding verify
    verify-signature_of = rw ((bytes_eq_iff namespace namespace).1 refl, r.verifies) refl

  sign-ok :
      (k : SigningKey) (message namespace : Bytes) {armored : Bytes}
      → sign lib k message namespace ≡ ok armored
      → (is_empty namespace ≡ false)
        × ((s : SshSignature) × (sign_with lib k (digest_data namespace message) ≡ some s)
            × (armored ≡ armor (magic ++ lib.marshal_wire (signed_wire lib k namespace s))))
  unfolding sign
  sign-ok k message namespace h =
      let (named, h1) = reject_if-eq-ok (is_empty namespace) empty_namespace _ h in
      elim (Option-cases (sign_with lib k (digest_data namespace message))) [
        | inl e ↦ cc (rw e at h1)
        | inr (s, e) ↦ (named, (s, e, sym (ok-injective (rw e at h1))))
      ]

  magic_bytes : (s : Bytes) → All IsByte s → All IsByte (magic ++ s)
  magic_bytes s h = All-append IsByte magic s (omega arith) h

  -- If the ssh package reads back what it made, its RSA keys can be asked for an algorithm and
  -- sign with rsa-sha2-512 when `Sign` asks for it, and `Sign` signs a message, then `Parse`
  -- reads the armored text as a signature by the same key, and `Verify` accepts it for the same
  -- message and namespace.
  pub parse-sign :
      (k : SigningKey) (message namespace : Bytes) {armored : Bytes}
      → AlgorithmChoice k
      → sign lib k message namespace ≡ ok armored
      → ((s : SshSignature)
          → sign_with lib k (to_be_signed lib namespace (codes "sha512") (lib.sha512 message))
            ≡ some s
          → ReadsBack k namespace message s)
      → (sig : Signature) × (parse lib armored ≡ ok sig)
        × (sig.public_key ≡ k.public)
        × (verify lib sig message namespace ≡ ok tt)
  unfolding parse
  parse-sign k message namespace choice h reads =
      let (named, (s, made, e)) = sign-ok k message namespace h in
      let r = reads s made in
      (
        signature_of k namespace s,
        ap (λ t. dearmor t >>= parse_blob lib) e
            ∙ ap (λ t. t >>= parse_blob lib)
                (dearmor-armor (magic ++ lib.marshal_wire (signed_wire lib k namespace s))
                  (magic_bytes _ r.wire_bytes))
            ∙ parse_blob-signed k namespace message s named choice made r,
        refl,
        verify-signature_of k namespace message s named choice made r,
      )

  -- An armored text holds a signature of the message in the namespace by the key: its hash is one of
  -- the two, an RSA key has not signed with SHA-1, and the key is no certificate.
  pub record HoldsSignature (armored message namespace : Bytes) (key : PublicKey) : Type 0 where
    pub sig : Signature
    pub parsed : parse lib armored ≡ ok sig
    pub by_key : sig.public_key ≡ key
    pub named : sig.namespace ≡ namespace
    pub not_empty : namespace ≢ []
    pub hash : Bytes → Bytes
    pub strong_hash : hasher lib sig.hash_alg ≡ some hash
    pub signed :
        lib.verify_key key (to_be_signed lib namespace sig.hash_alg (hash message)) sig.sig ≡ true
    pub plain : key.is_certificate ≡ false
    pub strong_rsa :
        bytes_eq key.key_type rsa ≡ true
        → (bytes_eq sig.sig.format rsa_sha256 ≡ true) ⊎ (bytes_eq sig.sig.format rsa_sha512 ≡ true)

  some_or-ok :
      {A : Type 0} (e : SshsigError) (o : Option A) {x : A} → some_or e o ≡ ok x → o ≡ some x
  some_or-ok e none h = cc
  some_or-ok e (some x) h = ap some (ok-injective h)

  verify-ok :
      (sig : Signature) (message namespace : Bytes)
      → verify lib sig message namespace ≡ ok tt
      → (sig.namespace ≡ namespace)
        × ((hash : Bytes → Bytes) × (hasher lib sig.hash_alg ≡ some hash)
            × (lib.verify_key sig.public_key
                  (to_be_signed lib sig.namespace sig.hash_alg (hash message))
                  sig.sig
                ≡ true))
  unfolding verify
  verify-ok sig message namespace h =
      let (same, h1) =
        reject_if-eq-ok (not (bytes_eq sig.namespace namespace)) (other_namespace sig.namespace) _
          h in
      let (hash, e, h2) =
        >>=-ok (some_or (unsupported_hash sig.hash_alg) (hasher lib sig.hash_alg)) _ h1 in
      (
        (bytes_eq_iff sig.namespace namespace).0 (ground arith),
        (hash, some_or-ok _ (hasher lib sig.hash_alg) e, accepted _ h2),
      )
    where
      accepted : (b : Bool) → reject_if (not b) not_verified ≡ ok tt → b ≡ true
      accepted true h = refl
      accepted false h = cc

  abbrev Strong : Signature → Type 0
  Strong sig =
      (sig.namespace ≢ [])
      × (sig.public_key.is_certificate ≡ false)
      × (bytes_eq sig.public_key.key_type rsa ≡ true
          → (bytes_eq sig.sig.format rsa_sha256 ≡ true)
            ⊎ (bytes_eq sig.sig.format rsa_sha512 ≡ true))

  parse_blob-ok : (blob : Bytes) {sig : Signature} → parse_blob lib blob ≡ ok sig → Strong sig
  unfolding parse_blob
  parse_blob-ok blob {sig} h =
      let (_, h1) = reject_if-eq-ok (not (has_prefix blob magic)) bad_magic _ h in
      let (w, _, h2) =
        >>=-ok (some_or malformed (lib.unmarshal_wire (drop (length magic) blob))) _ h1 in
      let (_, h3) =
        reject_if-eq-ok (not (w.version == sig_version)) (unsupported_version w.version) _ h2 in
      let (named, h4) = reject_if-eq-ok (is_empty w.namespace) empty_namespace _ h3 in
      let (_, _, h5) =
        >>=-ok (some_or (unsupported_hash w.hash_alg) (hasher lib w.hash_alg)) _ h4 in
      let (key, _, h6) = >>=-ok (some_or bad_public_key (lib.parse_public_key w.public_key)) _ h5 in
      let (plain, h7) = reject_if-eq-ok key.is_certificate certificate _ h6 in
      let (s, _, h8) =
        >>=-ok (some_or malformed_inner (lib.unmarshal_signature w.signature)) _ h7 in
      let (strong, h9) =
        reject_if-eq-ok
          (bytes_eq key.key_type rsa
            && not (bytes_eq s.format rsa_sha256)
            && not (bytes_eq s.format rsa_sha512))
          (weak_rsa s.format) _ h8 in
      subst Strong (ok-injective h9)
        (λ e. cc (sym named ∙ ap is_empty e), plain, λ r. allowed _ _ _ strong r)
    where
      allowed : (a b c : Bool) → (a && not b && not c) ≡ false → a ≡ true → (b ≡ true) ⊎ (c ≡ true)
      allowed a true c h e = inl refl
      allowed a false true h e = inr refl
      allowed a false false h e = ground arith

  -- What `Parse` and `Verify` accept holds a signature of the message by the key.
  pub verify-HoldsSignature :
      (armored message namespace : Bytes) (sig : Signature)
      → parse lib armored ≡ ok sig
      → verify lib sig message namespace ≡ ok tt
      → HoldsSignature armored message namespace sig.public_key
  unfolding parse
  verify-HoldsSignature armored message namespace sig h k =
      let (blob, _, h1) = >>=-ok (dearmor armored) (parse_blob lib) h in
      let (present, plain, rsa_ok) = parse_blob-ok blob h1 in
      let (same, (hash, known, signed)) = verify-ok sig message namespace k in
      record {
        sig = sig;
        parsed = h;
        by_key = refl;
        named = same;
        not_empty = λ e. present (same ∙ e);
        hash = hash;
        strong_hash = known;
        signed =
            subst
              (λ n.
                lib.verify_key sig.public_key (to_be_signed lib n sig.hash_alg (hash message))
                  sig.sig
                ≡ true)
              same signed;
        plain = plain;
        strong_rsa = rsa_ok;
      }
