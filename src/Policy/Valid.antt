-- ===== src/Policy/Valid.antt =====
-- What `Validate` guarantees, and how names are built from the prefix.
use release_me.Prelude.{
  ◌≡◌, ◌≢◌, ◌⊎◌, inl, inr, refl, sym, ap, ◌∙◌, subst, Bool, true, false, not, ◌&&◌, ◌||◌, Option,
  none, some, List, [], ◌∷◌, ◌++◌, append-eq-nil, All, arith, ◌==◌, is_empty, Bytes, codes,
  bytes_eq, bytes_eq_iff, has_prefix, has_suffix, Lacks, Bool-cases,
}
use release_me.Policy.{
  Policy, PolicyError, SshsigPolicy, SigstorePolicy, ReproducePolicy, error_if, has_suffix,
  contains, sshsig_errors, sigstore_errors, unanchored, mechanism_errors, require_errors,
  reproduce_errors, validate, requires_in, requires, replace_from, evidence_prefix,
  unsupported_version, unknown_host, forgejo_server, repository_form, nothing_required,
  reproduce_fields,
}

error_if-nil : (b : Bool) (e : PolicyError) → error_if b e ≡ [] → b ≡ false
error_if-nil true e h = cc
error_if-nil false e h = refl

-- The regular expression is matched as a whole.
abbrev pub Anchored : Bytes → Type 0
Anchored re = (has_prefix re (codes "^") ≡ true) × (has_suffix re (codes "$") ≡ true)

pub record SigstoreOk (s : SigstorePolicy) : Type 0 where
  pub has_identity : (s.identity ≢ []) ⊎ (s.identity_regex ≢ [])
  pub anchored : (s.identity_regex ≡ []) ⊎ Anchored s.identity_regex

-- Nothing to rebuild, or a command and a directory.
abbrev pub ReproduceOk : Option ReproducePolicy → Type 0
ReproduceOk none = Unit
ReproduceOk (some r) = (r.command ≢ []) × (r.dir ≢ [])

-- A policy that can be enforced.
pub record Enforceable (p : Policy) : Type 0 where
  pub version_ok : p.version ≡ 1
  pub host_ok : (p.host ≡ codes "github") ⊎ ((p.host ≡ codes "forgejo") × (p.server ≢ []))
  pub repository_ok : contains p.repository (codes "/") ≡ true
  pub some_required : p.require ≢ []
  pub known : All (λ r. (r ≡ codes "sshsig") ⊎ (r ≡ codes "sigstore")) p.require
  pub sshsig_ok :
      requires p (codes "sshsig") ≡ true
      → (s : SshsigPolicy) × (p.sshsig ≡ some s) × (s.allowed_signers ≢ [])
  pub sigstore_ok :
      requires p (codes "sigstore") ≡ true
      → (s : SigstorePolicy) × (p.sigstore ≡ some s) × SigstoreOk s
  pub reproduce_ok : ReproduceOk p.reproduce

not_empty : {A : Type 0} (xs : List A) → is_empty xs ≡ false → xs ≢ []
not_empty xs h e = cc (sym h ∙ ap is_empty e)

empty_nil : {A : Type 0} (xs : List A) → is_empty xs ≡ true → xs ≡ []
empty_nil [] h = refl
empty_nil (x ∷ xs) h = cc

sshsig_errors-nil :
    (o : Option SshsigPolicy)
    → sshsig_errors o ≡ []
    → (s : SshsigPolicy) × (o ≡ some s) × (s.allowed_signers ≢ [])
sshsig_errors-nil none h = cc
sshsig_errors-nil (some s) h =
    (s, refl, not_empty s.allowed_signers (error_if-nil (is_empty s.allowed_signers) _ h))

Anchored-cases : (re : Bytes) → unanchored re ≡ false → (re ≡ []) ⊎ Anchored re
Anchored-cases [] h = inl refl
Anchored-cases (c ∷ re) h = inr (ground arith, ground arith)

identity_cases : (x y : Bytes) → (is_empty x && is_empty y) ≡ false → (x ≢ []) ⊎ (y ≢ [])
identity_cases [] [] h = cc
identity_cases [] (c ∷ y) h = inr (λ e. cc)
identity_cases (c ∷ x) y h = inl (λ e. cc)

sigstore_errors-nil :
    (o : Option SigstorePolicy)
    → sigstore_errors o ≡ []
    → (s : SigstorePolicy) × (o ≡ some s) × SigstoreOk s
sigstore_errors-nil none h = cc
sigstore_errors-nil (some s) h =
    elim (Bool-cases (is_empty s.identity && is_empty s.identity_regex)) [
      | inl absent ↦ cc (rw absent at h)
      | inr present ↦ (
        s,
        refl,
        record {
          has_identity = identity_cases s.identity s.identity_regex present;
          anchored =
              Anchored-cases s.identity_regex
                (error_if-nil (unanchored s.identity_regex) _ (rw present at h));
        },
      )
    ]

require_errors-nil :
    (p : Policy) (rs : List Bytes)
    → require_errors p rs ≡ []
    → All (λ r. mechanism_errors p r ≡ []) rs
unfolding require_errors
require_errors-nil p [] h = tt
require_errors-nil p (r ∷ rs) h =
    let (here, rest) = append-eq-nil (mechanism_errors p r) (require_errors p rs) h in
    (here, require_errors-nil p rs rest)

mechanism_known :
    (p : Policy) (r : Bytes)
    → mechanism_errors p r ≡ []
    → (r ≡ codes "sshsig") ⊎ (r ≡ codes "sigstore")
mechanism_known p r h = elim (Bool-cases (bytes_eq r (codes "sshsig"))) [
  | inl ssh ↦ inl ((bytes_eq_iff r (codes "sshsig")).0 ssh)
  | inr not_ssh ↦ elim (Bool-cases (bytes_eq r (codes "sigstore"))) [
    | inl sig ↦ inr ((bytes_eq_iff r (codes "sigstore")).0 sig)
    | inr unknown ↦ cc (rw (not_ssh, unknown) at h)
  ]
]

-- What holds of each required mechanism holds of one that is required.
requires_in-All :
    (P : Bytes → Type 0) (rs : List Bytes) (m : Bytes) → requires_in rs m ≡ true → All P rs → P m
unfolding requires_in
requires_in-All P [] m h k = cc
requires_in-All P (r ∷ rs) m h (k, ks) = elim (Bool-cases (bytes_eq r m)) [
  | inl same ↦ subst P ((bytes_eq_iff r m).0 same) k
  | inr other ↦ requires_in-All P rs m (rw other at h) ks
]

All-known :
    (p : Policy) (rs : List Bytes)
    → All (λ r. mechanism_errors p r ≡ []) rs
    → All (λ r. (r ≡ codes "sshsig") ⊎ (r ≡ codes "sigstore")) rs
All-known p [] h = tt
All-known p (r ∷ rs) (k, ks) = (mechanism_known p r k, All-known p rs ks)

host_cases :
    (h s : Bytes)
    → (not (bytes_eq h (codes "github")) && not (bytes_eq h (codes "forgejo"))) ≡ false
    → (bytes_eq h (codes "forgejo") && is_empty s) ≡ false
    → (h ≡ codes "github") ⊎ ((h ≡ codes "forgejo") × (s ≢ []))
host_cases h s e k = elim (Bool-cases (bytes_eq h (codes "forgejo"))) [
  | inl forgejo ↦ inr ((bytes_eq_iff h (codes "forgejo")).0 forgejo, not_empty s (ground arith))
  | inr other ↦ inl ((bytes_eq_iff h (codes "github")).0 (ground arith))
]

reproduce_errors-nil : (o : Option ReproducePolicy) → reproduce_errors o ≡ [] → ReproduceOk o
reproduce_errors-nil none h = tt
reproduce_errors-nil (some r) h =
    let fields = error_if-nil (is_empty r.command || is_empty r.dir) reproduce_fields h in
    (not_empty r.command (ground arith), not_empty r.dir (ground arith))

-- If `Validate` finds no error, the version is 1, the host is GitHub or a Forgejo with a server,
-- the repository has a slash, at least one mechanism is required and all of them are known, a
-- policy that requires sshsig has allowed signers, one that requires sigstore has an identity or
-- a regular expression, which is anchored at both ends, and a rebuild has a command and a
-- directory.
pub validate-Enforceable : (p : Policy) → validate p ≡ [] → Enforceable p
unfolding validate requires
validate-Enforceable p h =
    let (h1, k1) =
      append-eq-nil (error_if (not (p.version == 1)) (unsupported_version p.version)) _ h in
    let (h2, k2) =
      append-eq-nil
        (error_if
          (not (bytes_eq p.host (codes "github")) && not (bytes_eq p.host (codes "forgejo")))
          unknown_host)
        _ k1 in
    let (h3, k3) =
      append-eq-nil
        (error_if (bytes_eq p.host (codes "forgejo") && is_empty p.server) forgejo_server) _ k2 in
    let (h4, k4) =
      append-eq-nil (error_if (not (contains p.repository (codes "/"))) repository_form) _ k3 in
    let (h5, k5) = append-eq-nil (error_if (is_empty p.require) nothing_required) _ k4 in
    let (h6, h7) = append-eq-nil (require_errors p p.require) (reproduce_errors p.reproduce) k5 in
    let each = require_errors-nil p p.require h6 in
    let version = error_if-nil (not (p.version == 1)) (unsupported_version p.version) h1 in
    let repository = error_if-nil (not (contains p.repository (codes "/"))) repository_form h4 in
    record {
      version_ok = ground arith;
      host_ok =
          host_cases p.host p.server (error_if-nil _ unknown_host h2)
            (error_if-nil _ forgejo_server h3);
      repository_ok = ground arith;
      some_required = not_empty p.require (error_if-nil (is_empty p.require) nothing_required h5);
      known = All-known p p.require each;
      sshsig_ok = λ r.
          sshsig_errors-nil p.sshsig
            (requires_in-All (λ m. mechanism_errors p m ≡ []) p.require (codes "sshsig") r each);
      sigstore_ok = λ r.
          sigstore_errors-nil p.sigstore
            (requires_in-All (λ m. mechanism_errors p m ≡ []) p.require (codes "sigstore") r each);
      reproduce_ok = reproduce_errors-nil p.reproduce h7;
    }

-- Without an opening brace nothing is replaced.
replace_from-Lacks : (tag version s : Bytes) → Lacks b'{' s → replace_from tag version 0 s ≡ s
unfolding replace_from
replace_from-Lacks tag version [] h = refl
replace_from-Lacks tag version (c ∷ s) (hc, h) = ground (arith, replace_from-Lacks tag version s h)

replace_from-append :
    (tag version s rest : Bytes)
    → Lacks b'{' s
    → replace_from tag version 0 (s ++ rest) ≡ s ++ replace_from tag version 0 rest
unfolding replace_from
replace_from-append tag version [] rest h = refl
replace_from-append tag version (c ∷ s) rest (hc, h) =
    ground (arith, replace_from-append tag version s rest h)

replace_from-version :
    (tag version rest : Bytes)
    → replace_from tag version 0 (codes "{version}" ++ rest)
      ≡ version ++ replace_from tag version 0 rest
unfolding replace_from
replace_from-version tag version rest = refl

-- If a prefix is a text, the key {version} and another text, both texts without an opening brace,
-- the names for a tag that begins with v start with the first text, the tag without its v, and
-- the second text.
evidence_prefix_version :
    (p : Policy) (before after number : Bytes)
    → p.prefix ≡ before ++ (codes "{version}" ++ after)
    → Lacks b'{' before
    → Lacks b'{' after
    → evidence_prefix p (b'v' ∷ number) ≡ before ++ (number ++ after)
unfolding evidence_prefix
evidence_prefix_version p before after number e hb ha =
    rw
      (
        e,
        replace_from-append (b'v' ∷ number) number before (codes "{version}" ++ after) hb,
        replace_from-version (b'v' ∷ number) number after,
        replace_from-Lacks (b'v' ∷ number) number after ha,
      )
      refl
