-- ===== src/Verify/Evidence.antt =====
-- internal/verify/verify.go: the evidence of a release, which is SSH signatures and a Sigstore bundle.
use release_me.Prelude.{
  ℕ, Bool, true, false, not, ◌||◌, Option, none, some, List, [], ◌∷◌, ◌++◌, if◌then◌else◌, is_empty,
  Bytes, codes, bytes_eq, has_prefix, Result, err,
}
use release_me.Host.{Asset}
use release_me.Manifest.{Manifest}
use release_me.Policy.{
  Policy, SshsigPolicy, SigstorePolicy, manifest_name, evidence_prefix, contains, replace_from,
  version_of, requires,
}
use release_me.Signers
use release_me.Signers.{Signer, Accepted}
use release_me.Signers.File.{parse_allowed_signers, parse_revoked_keys}
use release_me.Intoto.{Statement, parse_statement}
use release_me.Sigstore
use release_me.Sigstore.{Verification}
use release_me.Verify.Types.{
  Options, SshsigReport, SigstoreReport, HostClient, VerifyError, no_section, no_signers,
  bad_signers, not_signed, bad_statement, no_trusted_root, bad_bundle, other_statement, Env,
  provenance_name, bundle_name, signature_suffix, sshsig_namespace,
}
use release_me.Verify.Exec.{Exec, pure, lift, ◌>>=◌, ◌>>◌, fail_if, some_or, wrap}
use release_me.Verify.Fetch.{fetch, fetch_optional}

-- `resolve`: a value that is a text itself, or the name of a file.
abbrev pub resolve : Env → Bytes → Option Bytes
resolve env v =
    if contains v (codes "\n") || has_prefix v (codes "ssh-") || has_prefix v (codes "ecdsa-")
    then some v
    else env.policy_file v

-- `substitute`
abbrev pub substitute : Bytes → Bytes → Bytes
substitute s tag = replace_from tag (version_of tag) 0 s

-- The namespace of the policy, or the usual one.
abbrev pub namespace_of : SshsigPolicy → Bytes
namespace_of sp = if is_empty sp.namespace then sshsig_namespace else sp.namespace

-- What the allowed signers are asked.
abbrev pub asked : SshsigPolicy → List Bytes → ℕ → Signers.Options
asked sp revoked now = record {
  namespace = namespace_of sp;
  principal = sp.principal;
  revoked = revoked;
  now = now;
}

abbrev pub digests_of : Manifest → List Bytes
digests_of [] = []
digests_of (e ∷ es) = e.sha256 ∷ digests_of es

-- `statement != nil && !bytes.Equal(payload, statementBytes)`
abbrev pub differs : Option (Statement × Bytes) → Bytes → Bool
differs none payload = false
differs (some (s, text)) payload = not (bytes_eq payload text)

abbrev pub is_there : Option (Statement × Bytes) → Bool
is_there none = false
is_there (some s) = true

abbrev pub provenance_file : Options → Policy → Bytes
provenance_file o p = evidence_prefix p o.tag ++ provenance_name

module _ (env : Env) (client : HostClient) (o : Options) (published : List Asset) (p : Policy) where
  -- `sshPolicy`: the allowed signers, and the revoked keys.
  abbrev pub ssh_signers : SshsigPolicy → Exec (List Signer)
  ssh_signers sp = do
    text ← lift (some_or no_signers (resolve env sp.allowed_signers))
    lift (wrap bad_signers (parse_allowed_signers env.ssh env.zones text))

  abbrev pub read_revoked : Bytes → Exec (List Bytes)
  read_revoked v = do
    text ← lift (some_or no_signers (resolve env v))
    lift (wrap bad_signers (parse_revoked_keys env.ssh text))

  abbrev pub ssh_revoked : SshsigPolicy → Exec (List Bytes)
  ssh_revoked sp = if is_empty sp.revoked_keys then pure [] else read_revoked sp.revoked_keys

  -- `policy.Verify` of a text and its signature.
  abbrev pub accepted :
      SshsigPolicy → List Signer → List Bytes → Bytes → Bytes → Bytes → Result VerifyError Accepted
  accepted sp signers revoked name text sig =
      wrap (not_signed name)
        (Signers.verify env.ssh signers text sig (asked sp revoked o.now) env.clock)

  -- The provenance statement, when published, is signed by the same policy.
  unfoldable pub signed_statement :
      SshsigPolicy → List Signer → List Bytes → Option Bytes → Exec (Option (Statement × Bytes))
  signed_statement sp signers revoked none = pure none
  signed_statement sp signers revoked (some text) = do
    sig ← fetch env client o.tag published (provenance_file o p ++ signature_suffix)
    a ← lift (accepted sp signers revoked (provenance_file o p ++ signature_suffix) text sig)
    s ← lift (wrap bad_statement (parse_statement env.codec text))
    pure (some (s, text))

  abbrev pub ssh_report : Accepted → Option (Statement × Bytes) → SshsigReport
  ssh_report a st = record {
    principal = a.principal;
    fingerprint = env.ssh.fingerprint a.signer.key;
    provenance_signed = is_there st;
  }

  -- The second part of `Run`.
  unfoldable pub ssh_evidence :
      SshsigPolicy → Bytes → Exec (SshsigReport × Option (Statement × Bytes))
  ssh_evidence sp text = do
    sig ← fetch env client o.tag published (manifest_name p ++ signature_suffix)
    signers ← ssh_signers sp
    revoked ← ssh_revoked sp
    a ← lift (accepted sp signers revoked (manifest_name p ++ signature_suffix) text sig)
    statement_text ← fetch_optional env client o.tag published (provenance_file o p)
    st ← signed_statement sp signers revoked statement_text
    pure (ssh_report a st, st)

  abbrev pub bundle_options : SigstorePolicy → Manifest → Bytes → Sigstore.VerifyOptions
  bundle_options sp m trusted = record {
    trusted = some trusted;
    identity = record {
      issuer = sp.issuer;
      issuer_regex = [];
      san = substitute sp.identity o.tag;
      san_regex = substitute sp.identity_regex o.tag;
    };
    digests = digests_of m;
    no_transparency_log = false;
    signed_timestamp = false;
  }

  abbrev pub sigstore_report : Verification → SigstoreReport
  sigstore_report v = record { identity = v.san; issuer = v.issuer; timestamps = v.timestamps }

  -- The third part of `Run`, over the statement of the second.
  unfoldable pub sigstore_evidence :
      SigstorePolicy
      → Manifest
      → Option (Statement × Bytes)
      → Exec (SigstoreReport × Option (Statement × Bytes))
  sigstore_evidence sp m before = do
    bundle ← fetch env client o.tag published (evidence_prefix p o.tag ++ bundle_name)
    trusted ← lift (some_or no_trusted_root (env.trusted_root sp.trusted_root o.cache_dir))
    v ← lift (
        wrap bad_bundle
          (Sigstore.verify env.codec env.sigstore bundle (bundle_options sp m trusted)))
    fail_if (differs before v.payload) other_statement
    pure (sigstore_report v, some (v.statement, v.payload))

  abbrev pub with_ssh_section :
      Option SshsigPolicy → Bytes → Exec (Option SshsigReport × Option (Statement × Bytes))
  with_ssh_section none text = lift (err no_section)
  with_ssh_section (some sp) text = ssh_evidence sp text >>= λ r. pure (some r.0, r.1)

  abbrev pub with_sigstore_section :
      Option SigstorePolicy
      → Manifest
      → Option (Statement × Bytes)
      → Exec (Option SigstoreReport × Option (Statement × Bytes))
  with_sigstore_section none m before = lift (err no_section)
  with_sigstore_section (some sp) m before =
      sigstore_evidence sp m before >>= λ r. pure (some r.0, r.1)

  -- `if p.Requires("sshsig")`; `Validate` has seen the section.
  unfoldable pub ssh_part : Bytes → Exec (Option SshsigReport × Option (Statement × Bytes))
  ssh_part text =
      if requires p (codes "sshsig") then with_ssh_section p.sshsig text else pure (none, none)

  -- `if p.Requires("sigstore")`
  unfoldable pub sigstore_part :
      Manifest
      → Option (Statement × Bytes)
      → Exec (Option SigstoreReport × Option (Statement × Bytes))
  sigstore_part m before =
      if requires p (codes "sigstore")
      then with_sigstore_section p.sigstore m before
      else pure (none, before)
