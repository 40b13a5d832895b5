-- ===== src/Tag/Object.antt =====
-- What a parsed tag says of the tag object, and what an accepted signature covers.
use native.Mathlib.Nat.{zero-add, suc-add}
use release_me.Prelude.{
  ℕ, zero, suc, ◌+◌, ◌≡◌, ◌≢◌, inl, inr, refl, sym, ap, ◌∙◌, subst, Bool, true, false, ◌||◌, Option,
  none, some, List, [], ◌∷◌, ◌++◌, append-nil, append_assoc, arith, if◌then◌else◌, is_empty, take,
  drop, Bytes, codes, split, index, has_prefix, Bool-cases, Result, ok, err, ok-injective, >>=-ok,
  reject_if-eq-ok,
}
use release_me.Signers
use release_me.Signers.{Signer, SignerError, Accepted}
use release_me.Signers.Accepts.{Verified, verify_sound}
use release_me.Sshsig.{Ssh}
use release_me.Tag.{
  Tag, Headers, ssh_marker, pgp_marker, missing_header, read_headers, signature_start, signed_at,
  cut_signature, with_header_end, parse_object, git_namespace, as_tag_error, verify_armored,
  verify_signature,
}

take_sum : (n i : ℕ) (s : Bytes) → take (n + i) s ≡ take n s ++ take i (drop n s)
take_sum zero i s = rw (zero-add i) refl
take_sum (suc n) zero [] = rw (suc-add n 0) refl
take_sum (suc n) (suc i) [] = rw (suc-add n (suc i)) refl
take_sum (suc n) i (c ∷ s) = rw (suc-add n i) (ap (λ t. c ∷ t) (take_sum n i s))

take-drop_whole : (n : ℕ) (s : Bytes) → take n s ++ drop n s ≡ s
take-drop_whole zero s = refl
take-drop_whole (suc n) [] = refl
take-drop_whole (suc n) (c ∷ s) = ap (λ t. c ∷ t) (take-drop_whole n s)

-- The two parts of a cut in the tail make up the whole.
cut_whole : (n i : ℕ) (s : Bytes) → take (n + i) s ++ drop i (drop n s) ≡ s
cut_whole n i s =
    ap (λ t. t ++ drop i (drop n s)) (take_sum n i s)
    ∙ append_assoc (take n s) (take i (drop n s)) (drop i (drop n s))
    ∙ ap (λ t. take n s ++ t) (take-drop_whole i (drop n s))
    ∙ take-drop_whole n s

index-has_prefix : (s sub : Bytes) (i : ℕ) → index s sub ≡ some i → has_prefix (drop i s) sub ≡ true
unfolding index
index-has_prefix [] sub zero h = ground arith
index-has_prefix [] sub (suc i) h = ground arith
index-has_prefix (a ∷ s) sub zero h = ground arith
index-has_prefix (a ∷ s) sub (suc i) h = ground (arith, index-has_prefix s sub i)

has_prefix-tail :
    (c : ℕ) (i : ℕ) (s p : Bytes)
    → has_prefix (drop i s) (c ∷ p) ≡ true
    → has_prefix (drop (suc i) s) p ≡ true
has_prefix-tail c zero [] p h = cc
has_prefix-tail c zero (a ∷ s) p h = ground arith
has_prefix-tail c (suc i) [] p h = cc
has_prefix-tail c (suc i) (a ∷ s) p h = has_prefix-tail c i s p h

signature_start-has_prefix :
    (body marker : Bytes) (i : ℕ)
    → signature_start body marker ≡ some i
    → has_prefix (drop i body) marker ≡ true
unfolding signature_start
signature_start-has_prefix body marker zero h = ground arith
signature_start-has_prefix body marker (suc i) h =
    has_prefix-tail b'\n' i body marker (ground (arith, index-has_prefix body (b'\n' ∷ marker) i))

-- The bytes of the signature, none where there is none.
abbrev pub signature_bytes : Option Bytes → Bytes
signature_bytes none = []
signature_bytes (some s) = s

-- The signature begins with the line of its kind.
abbrev pub Marked : Option Bytes → Bool → Type 0
Marked none pgp = pgp ≡ false
Marked (some s) pgp = has_prefix s (if pgp then pgp_marker else ssh_marker) ≡ true

-- The payload and the signature make up the object, the message ends the payload, and the headers
-- are there.
pub record Covers (raw : Bytes) (t : Tag) : Type 0 where
  pub whole : t.payload ++ signature_bytes t.signature ≡ raw
  pub message_last : (head : Bytes) × (t.payload ≡ head ++ t.message)
  pub marked : Marked t.signature t.pgp
  pub object_named : t.object ≢ []
  pub type_named : t.object_type ≢ []
  pub tag_named : t.name ≢ []

module _ (raw : Bytes) (start : ℕ) (h : Headers) (o : h.object ≢ []) (y : h.object_type ≢ [])
    (n : h.name ≢ []) where
  signed_at-Covers :
      (i : ℕ) (pgp : Bool)
      → has_prefix (drop i (drop start raw)) (if pgp then pgp_marker else ssh_marker) ≡ true
      → Covers raw (signed_at raw start h i pgp)
  signed_at-Covers i pgp m = record {
    whole = cut_whole start i raw;
    message_last = (take start raw, take_sum start i raw);
    marked = m;
    object_named = o;
    type_named = y;
    tag_named = n;
  }

  cut_signature-Covers :
      (ssh pgp : Option ℕ)
      → signature_start (drop start raw) ssh_marker ≡ ssh
      → signature_start (drop start raw) pgp_marker ≡ pgp
      → Covers raw (cut_signature raw start h ssh pgp)
  cut_signature-Covers (some i) pgp e k =
      signed_at-Covers i false (signature_start-has_prefix (drop start raw) ssh_marker i e)
  cut_signature-Covers none (some i) e k =
      signed_at-Covers i true (signature_start-has_prefix (drop start raw) pgp_marker i k)
  cut_signature-Covers none none e k = record {
    whole = append-nil raw;
    message_last = (take start raw, sym (take-drop_whole start raw));
    marked = refl;
    object_named = o;
    type_named = y;
    tag_named = n;
  }

named : (s : Bytes) → is_empty s ≡ false → s ≢ []
named s h e = cc (sym h ∙ ap is_empty e)

with_header_end-Covers :
    (raw : Bytes) (i : Option ℕ) {t : Tag} → with_header_end raw i ≡ ok t → Covers raw t
unfolding with_header_end
with_header_end-Covers raw none h = cc
with_header_end-Covers raw (some i) {t} h =
    let (hs, e, h1) = >>=-ok (read_headers (split b'\n' (take i raw)) _) _ h in
    let (present, h2) =
      reject_if-eq-ok (is_empty hs.object || is_empty hs.object_type || is_empty hs.name)
        missing_header _ h1 in
    let o : is_empty hs.object ≡ false = ground arith in
    let y : is_empty hs.object_type ≡ false = ground arith in
    let n : is_empty hs.name ≡ false = ground arith in
    subst (Covers raw) (ok-injective h2) (
      cut_signature-Covers raw (i + 2) hs (named hs.object o) (named hs.object_type y)
        (named hs.name n) _ _ refl refl)

-- If `ParseObject` accepts a tag object, the payload followed by the signature is the whole
-- object, the message ends the payload, a signature begins with the marker of its kind, and the
-- object, type and tag headers are not empty.
pub parse_object-Covers : (raw : Bytes) {t : Tag} → parse_object raw ≡ ok t → Covers raw t
unfolding parse_object
parse_object-Covers raw h = with_header_end-Covers raw (index raw (codes "\n\n")) h

module _ (lib : Ssh) where
  -- What `VerifySignature` establishes.
  pub record SignedBy (t : Tag) (policy : List Signer) (o : Signers.Options) (clock : ℕ)
      (a : Accepted) : Type 0 where
    pub armored : Bytes
    pub has_signature : t.signature ≡ some armored
    pub is_ssh : t.pgp ≡ false
    pub verified :
        Verified lib policy t.payload armored (record o { namespace = git_namespace }) clock a

  as_tag_error-ok :
      (r : Result SignerError Accepted) {a : Accepted} → as_tag_error r ≡ ok a → r ≡ ok a
  as_tag_error-ok (ok a) h = ap ok (ok-injective h)
  as_tag_error-ok (err e) h = cc

  verify_armored-SignedBy :
      (armored : Option Bytes) (t : Tag) (policy : List Signer) (o : Signers.Options) (clock : ℕ)
      {a : Accepted}
      → t.signature ≡ armored
      → verify_armored lib armored t policy o clock ≡ ok a
      → SignedBy t policy o clock a
  verify_armored-SignedBy none t policy o clock e h = cc
  verify_armored-SignedBy (some armored) t policy o clock e h = elim (Bool-cases t.pgp) [
    | inl pgp ↦ cc (rw pgp at h)
    | inr ssh ↦
        let git_options = record o { namespace = git_namespace } in
        record {
          armored = armored;
          has_signature = e;
          is_ssh = ssh;
          verified = verify_sound lib policy t.payload armored git_options clock (
              as_tag_error-ok (Signers.verify lib policy t.payload armored git_options clock)
                (rw ssh at h));
        }
  ]

  -- If `VerifySignature` accepts a tag, the tag has a signature that is not a PGP one, and the
  -- allowed signers accept it as a signature of the tag's payload in the namespace git: it is by
  -- a key that is not revoked, and a line of the policy holds that key and accepts it.
  pub verify_signature-SignedBy :
      (t : Tag) (policy : List Signer) (o : Signers.Options) (clock : ℕ) {a : Accepted}
      → verify_signature lib t policy o clock ≡ ok a
      → SignedBy t policy o clock a
  unfolding verify_signature
  verify_signature-SignedBy t policy o clock h =
      verify_armored-SignedBy t.signature t policy o clock refl h
