-- ===== src/Policy.antt =====
-- internal/verify/policy.go: the recipient's trust policy. The child proves what a valid policy has.
pub mod Valid
use release_me.Prelude.{
  ℕ, zero, suc, ◌-◌, Bool, true, false, not, ◌&&◌, ◌||◌, Option, none, some, List, [], ◌∷◌, ◌++◌,
  leb, ◌==◌, if◌then◌else◌, is_empty, length, drop, Bytes, codes, bytes_eq, index, has_prefix,
  has_suffix,
}

-- `SSHSigPolicy`
pub record SshsigPolicy : Type 0 where
  pub allowed_signers : Bytes
  pub principal : Bytes
  pub namespace : Bytes
  pub revoked_keys : Bytes

pub record SigstorePolicy : Type 0 where
  pub issuer : Bytes
  pub identity : Bytes
  pub identity_regex : Bytes
  pub trusted_root : Bytes

pub record ReproducePolicy : Type 0 where
  pub command : Bytes
  pub dir : Bytes

-- `Policy`, but the directory of its file.
pub record Policy : Type 0 where
  pub version : ℕ
  pub host : Bytes
  pub server : Bytes
  pub repository : Bytes
  pub manifest : Bytes
  pub prefix : Bytes
  pub require : List Bytes
  pub sshsig : Option SshsigPolicy
  pub sigstore : Option SigstorePolicy
  pub source : Bytes
  pub reproduce : Option ReproducePolicy

pub data PolicyError : Type 0 where
  unsupported_version : ℕ → PolicyError
  unknown_host : PolicyError
  forgejo_server : PolicyError
  repository_form : PolicyError
  nothing_required : PolicyError
  sshsig_signers : PolicyError
  sigstore_identity : PolicyError
  regex_anchors : PolicyError
  unknown_mechanism : Bytes → PolicyError
  reproduce_fields : PolicyError

-- `if bad { errs = append(errs, e) }`
abbrev pub error_if : Bool → PolicyError → List PolicyError
error_if true e = e ∷ []
error_if false e = []

-- `strings.Contains`
abbrev is_found : Option ℕ → Bool
is_found none = false
is_found (some _) = true

abbrev pub contains : Bytes → Bytes → Bool
contains s sub = is_found (index s sub)

abbrev pub sshsig_errors : Option SshsigPolicy → List PolicyError
sshsig_errors none = sshsig_signers ∷ []
sshsig_errors (some p) = error_if (is_empty p.allowed_signers) sshsig_signers

abbrev pub unanchored : Bytes → Bool
unanchored re =
    not (is_empty re) && (not (has_prefix re (codes "^")) || not (has_suffix re (codes "$")))

abbrev pub sigstore_errors : Option SigstorePolicy → List PolicyError
sigstore_errors none = sigstore_identity ∷ []
sigstore_errors (some p) =
    if is_empty p.identity && is_empty p.identity_regex
    then sigstore_identity ∷ []
    else error_if (unanchored p.identity_regex) regex_anchors

-- One case of the switch over the mechanism.
abbrev pub mechanism_errors : Policy → Bytes → List PolicyError
mechanism_errors p r =
    if bytes_eq r (codes "sshsig")
    then sshsig_errors p.sshsig
    else if bytes_eq r (codes "sigstore")
    then sigstore_errors p.sigstore
    else unknown_mechanism r ∷ []

pub require_errors : Policy → List Bytes → List PolicyError
require_errors p [] = []
require_errors p (r ∷ rs) = mechanism_errors p r ++ require_errors p rs

abbrev pub reproduce_errors : Option ReproducePolicy → List PolicyError
reproduce_errors none = []
reproduce_errors (some r) = error_if (is_empty r.command || is_empty r.dir) reproduce_fields

-- `Validate`; no error is nil.
unfoldable pub validate : Policy → List PolicyError
unfolding require_errors
validate p =
    error_if (not (p.version == 1)) (unsupported_version p.version)
    ++ (error_if (not (bytes_eq p.host (codes "github")) && not (bytes_eq p.host (codes "forgejo")))
          unknown_host
        ++ (error_if (bytes_eq p.host (codes "forgejo") && is_empty p.server) forgejo_server
            ++ (error_if (not (contains p.repository (codes "/"))) repository_form
                ++ (error_if (is_empty p.require) nothing_required
                    ++ (require_errors p p.require ++ reproduce_errors p.reproduce)))))

-- `Requires`
pub requires_in : List Bytes → Bytes → Bool
requires_in [] mechanism = false
requires_in (r ∷ rs) mechanism =
    let rest = requires_in rs mechanism in if bytes_eq r mechanism then true else rest

unfoldable pub requires : Policy → Bytes → Bool
unfolding requires_in
requires p mechanism = requires_in p.require mechanism

-- `manifestName`
abbrev pub manifest_name : Policy → Bytes
manifest_name p = if is_empty p.manifest then codes "SHA256SUMS" else p.manifest

-- `strings.TrimPrefix(tag, "v")`
abbrev pub version_of : Bytes → Bytes
version_of [] = []
version_of (c ∷ s) = if c == b'v' then s else c ∷ s

-- `strings.NewReplacer` with the two keys: at each byte that is not part of a key replaced before, the
-- keys are tried in order. `skip` is what is left of a key.
unfoldable pub replace_from : Bytes → Bytes → ℕ → Bytes → Bytes
replace_from tag version skip [] = []
replace_from tag version (suc k) (c ∷ s) = replace_from tag version k s
replace_from tag version zero (c ∷ s) =
    let plain = replace_from tag version zero s in
    let behind_tag = replace_from tag version 4 s in
    let behind_version = replace_from tag version 8 s in
    if has_prefix (c ∷ s) (codes "{tag}")
    then tag ++ behind_tag
    else if has_prefix (c ∷ s) (codes "{version}")
    then version ++ behind_version
    else c ∷ plain

-- `prefix`
unfoldable pub evidence_prefix : Policy → Bytes → Bytes
unfolding replace_from
evidence_prefix p tag = replace_from tag (version_of tag) 0 p.prefix
