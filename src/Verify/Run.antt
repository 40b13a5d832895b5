-- ===== src/Verify/Run.antt =====
-- internal/verify/verify.go: `Run`.
use release_me.Prelude.{not, Option, none, some, List, [], map, if◌then◌else◌, is_empty, Bytes, err}
use release_me.Host.{Asset}
use release_me.Manifest.{Manifest}
use release_me.Policy.{Policy, validate}
use release_me.Verify.Types.{
  Options, Report, PublishedRelease, SshsigReport, SigstoreReport, ProvenanceReport, HostClient,
  no_policy, bad_policy, no_release, is_draft, no_directory, Env,
}
use release_me.Verify.Exec.{Exec, pure, lift, ◌>>=◌, ◌>>◌, fail_if, wrap}
use release_me.Verify.Fetch.{host_client, check_names, asset_report, fetch_manifest}
use release_me.Verify.Evidence.{ssh_part, sigstore_part}
use release_me.Verify.Contents.{provenance_part, reproduce_part}

module _ (env : Env) (o : Options) (p : Policy) where
  abbrev pub report_of :
      PublishedRelease
      → List Asset
      → Manifest
      → Bytes
      → Option SshsigReport
      → Option SigstoreReport
      → Option ProvenanceReport
      → Report
  report_of rel published m text ssh sig prov = record {
    repository = p.repository;
    tag = o.tag;
    release = rel.html_url;
    assets = map (asset_report published) m;
    manifest = env.hash text;
    sshsig = ssh;
    sigstore = sig;
    provenance = prov;
    reproduced = o.reproduce;
  }

  -- The parts behind the release and the directory.
  unfoldable pub verify_assets : HostClient → PublishedRelease → List Asset → Exec Report
  verify_assets client rel published = do
    listed ← fetch_manifest env client o.tag published p
    ssh ← ssh_part env client o published p listed.1
    sig ← sigstore_part env client o published p listed.0 ssh.1
    prov ← provenance_part env o p listed.0 sig.1
    reproduce_part env o p listed.0 prov
    pure (report_of rel published listed.0 listed.1 ssh.0 sig.0 prov)

  -- `Run` with a policy and a tag.
  unfoldable pub verify_release : Exec Report
  verify_release = do
    fail_if (not (is_empty (validate p))) (bad_policy (validate p))
    client ← lift (host_client p o.api_url)
    rel ← lift (wrap no_release (env.find_release client o.tag))
    fail_if rel.draft is_draft
    fail_if (not env.directory_made) no_directory
    published ← lift (check_names [] rel.assets)
    verify_assets client rel published

abbrev pub with_policy : Env → Options → Option Policy → Exec Report
with_policy env o none = lift (err no_policy)
with_policy env o (some p) = if is_empty o.tag then lift (err no_policy) else verify_release env o p

-- `Run`
unfoldable pub run : Env → Options → Exec Report
run env o = with_policy env o o.policy
