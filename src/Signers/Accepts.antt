-- ===== src/Signers/Accepts.antt =====
-- What it takes for an allowed_signers file to accept a signature.
use release_me.Prelude.{
  ℕ, ◌≤◌, ◌<◌, ◌≡◌, ◌≢◌, ◌⊎◌, inl, inr, refl, sym, ap, ◌∙◌, subst, Bool, true, false, not, ◌&&◌,
  Option, none, some, List, [], ◌∷◌, All, arith, ltb, ◌==◌, if◌then◌else◌, is_empty, Bytes,
  bytes_eq, bytes_eq_iff, Bool-cases, Option-cases, Result, ok, err, ok-injective, >>=-ok,
  reject_if-eq-ok,
}
use release_me.Sshsig
use release_me.Sshsig.{Ssh, SshsigError, PublicKey}
use release_me.Sshsig.Signed.{HoldsSignature, verify-HoldsSignature}
use release_me.Signers.{
  Signer, Options, Refusal, Accepted, principal_of, match_list, refusal, accept_from, is_revoked,
  wrong_principal, wrong_namespace, not_yet_valid, expired, verify, or_bad, no_namespace,
  key_revoked,
}
use release_me.Signers.Patterns.{ListFits, match_list_iff}

-- The line accepts the options at the time: principal, namespace and validity.
pub record Accepts (s : Signer) (o : Options) (now : ℕ) : Type 0 where
  pub principal_ok : (o.principal ≡ []) ⊎ ListFits s.principals o.principal
  pub namespace_ok : (s.namespaces ≡ []) ⊎ ListFits s.namespaces o.namespace
  pub begun : s.valid_after ≤ now
  pub not_over : (s.valid_before ≡ 0) ⊎ (now < s.valid_before)

list_cases :
    (empty : Bool) (ps : List Bytes) (s : Bytes)
    → (not empty && not (match_list ps s)) ≡ false
    → (empty ≡ true) ⊎ ListFits ps s
list_cases true ps s h = inl refl
list_cases false ps s h = inr ((match_list_iff ps s).0 (ground arith))

empty_nil : {A : Type 0} (xs : List A) → is_empty xs ≡ true → xs ≡ []
empty_nil [] h = refl
empty_nil (x ∷ xs) h = cc

abbrev ladder : Bool → Bool → Bool → Bool → (r1 r2 r3 r4 : Refusal) → Option Refusal
ladder b1 b2 b3 b4 r1 r2 r3 r4 =
    if b1
    then some r1
    else if b2
    then some r2
    else if b3
    then some r3
    else if b4
    then some r4
    else none

ladder-none :
    (b1 b2 b3 b4 : Bool) (r1 r2 r3 r4 : Refusal)
    → ladder b1 b2 b3 b4 r1 r2 r3 r4 ≡ none
    → (b1 ≡ false) × (b2 ≡ false) × (b3 ≡ false) × (b4 ≡ false)
ladder-none b1 b2 b3 b4 r1 r2 r3 r4 h = ground arith

pub refusal-Accepts :
    (s : Signer) (o : Options) (now : ℕ) → refusal s o now ≡ none → Accepts s o now
unfolding refusal
refusal-Accepts s o now h =
    let (h1, h2, h3, h4) =
      ladder-none (not (is_empty o.principal) && not (match_list s.principals o.principal))
        (not (is_empty s.namespaces) && not (match_list s.namespaces o.namespace))
        (not (s.valid_after == 0) && ltb now s.valid_after)
        (not (s.valid_before == 0) && not (ltb now s.valid_before)) (wrong_principal s.line)
        (wrong_namespace s.line) (not_yet_valid s.line) (expired s.line) h in
    record {
      principal_ok = principal (list_cases (is_empty o.principal) s.principals o.principal h1);
      namespace_ok = namespace (list_cases (is_empty s.namespaces) s.namespaces o.namespace h2);
      begun = ground arith;
      not_over = ground arith;
    }
  where
    principal :
        ((is_empty o.principal ≡ true) ⊎ ListFits s.principals o.principal)
        → (o.principal ≡ []) ⊎ ListFits s.principals o.principal
    principal (inl e) = inl (empty_nil o.principal e)
    principal (inr f) = inr f

    namespace :
        ((is_empty s.namespaces ≡ true) ⊎ ListFits s.namespaces o.namespace)
        → (s.namespaces ≡ []) ⊎ ListFits s.namespaces o.namespace
    namespace (inl e) = inl (empty_nil s.namespaces e)
    namespace (inr f) = inr f

-- The signer is one of the lines.
abbrev pub Listed : Signer → List Signer → Type 0
Listed s [] = ⊥
Listed s (t ∷ ts) = (s ≡ t) ⊎ Listed s ts

-- The line of the answer holds the key and accepts it.
pub record Line (signers : List Signer) (key : Bytes) (o : Options) (now : ℕ) (a : Accepted)
    : Type 0 where
  pub listed : Listed a.signer signers
  pub holds : a.signer.key ≡ key
  pub accepts : Accepts a.signer o now
  pub names : a.principal ≡ principal_of a.signer o

accept_from_sound :
    (key : Bytes) (o : Options) (now : ℕ) (ss : List Signer) (reasons : List Refusal) {a : Accepted}
    → accept_from key o now ss reasons ≡ ok a
    → Line ss key o now a
unfolding accept_from
accept_from_sound key o now [] reasons h = cc
accept_from_sound key o now (s ∷ ss) reasons {a} h = elim (Bool-cases (not (bytes_eq s.key key))) [
  | inl other ↦ further (accept_from_sound key o now ss reasons (rw other at h))
  | inr same ↦ elim (Option-cases (refusal s o now)) [
    | inl none_left ↦
        let e = ok-injective (rw (same, none_left) at h) in
        subst (Line (s ∷ ss) key o now) e (record {
          listed = inl refl;
          holds = (bytes_eq_iff s.key key).0 (ground arith);
          accepts = refusal-Accepts s o now none_left;
          names = refl;
        })
    | inr (r, refuses) ↦
        further (accept_from_sound key o now ss (r ∷ reasons) (rw (same, refuses) at h))
  ]
]
  where
    further : Line ss key o now a → Line (s ∷ ss) key o now a
    further l = record {
      listed = inr l.listed;
      holds = l.holds;
      accepts = l.accepts;
      names = l.names;
    }

is_revoked-false :
    (key : Bytes) (ks : List Bytes) → is_revoked key ks ≡ false → All (λ k. k ≢ key) ks
unfolding is_revoked
is_revoked-false key [] h = tt
is_revoked-false key (k ∷ ks) h = elim (Bool-cases (bytes_eq k key)) [
  | inl same ↦ cc (rw same at h)
  | inr other ↦
      (λ e. cc (sym other ∙ (bytes_eq_iff k key).1 e), is_revoked-false key ks (rw other at h))
]

module _ (lib : Ssh) where
  or_bad-ok : {A : Type 0} (r : Result SshsigError A) {a : A} → or_bad r ≡ ok a → r ≡ ok a
  or_bad-ok (ok x) h = ap ok (ok-injective h)
  or_bad-ok (err e) h = cc

  -- What an accepted signature says.
  pub record Verified (signers : List Signer) (message armored : Bytes) (o : Options) (clock : ℕ)
      (a : Accepted) : Type 0 where
    pub key : PublicKey
    pub signature : HoldsSignature lib armored message o.namespace key
    pub not_revoked : All (λ k. k ≢ key.blob) o.revoked
    pub line : Line signers key.blob o (if o.now == 0 then clock else o.now) a

  -- If the allowed signers accept the armored signature of a message, it holds a signature of
  -- that message in the namespace of the options, which is not empty, by a key that is no
  -- certificate, with a strong hash and no SHA-1 for an RSA key; the key is not revoked, and a
  -- line of the file holds it, accepts the principal if one is asked for and the namespace if the
  -- line restricts it, and is valid at the time; the answer names that line.
  pub verify_sound :
      (signers : List Signer) (message armored : Bytes) (o : Options) (clock : ℕ) {a : Accepted}
      → verify lib signers message armored o clock ≡ ok a
      → Verified signers message armored o clock a
  unfolding verify
  verify_sound signers message armored o clock h =
      let (_, h1) = reject_if-eq-ok (is_empty o.namespace) no_namespace _ h in
      let (sig, e, h2) = >>=-ok (or_bad (Sshsig.parse lib armored)) _ h1 in
      let (_, e', h3) = >>=-ok (or_bad (Sshsig.verify lib sig message o.namespace)) _ h2 in
      let (clean, h4) =
        reject_if-eq-ok (is_revoked sig.public_key.blob o.revoked) key_revoked _ h3 in
      record {
        key = sig.public_key;
        signature =
            verify-HoldsSignature lib armored message o.namespace sig
              (or_bad-ok (Sshsig.parse lib armored) e)
              (or_bad-ok (Sshsig.verify lib sig message o.namespace) e');
        not_revoked = is_revoked-false sig.public_key.blob o.revoked clean;
        line =
            accept_from_sound sig.public_key.blob o (if o.now == 0 then clock else o.now) signers []
              h4;
      }
