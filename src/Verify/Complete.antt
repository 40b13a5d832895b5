-- ===== src/Verify/Complete.antt =====
-- What `Run` establishes when it returns a report.
use release_me.Prelude.{
  ◌≡◌, inl, inr, refl, sym, ◌∙◌, subst, subst₂, not-eq-false, true, false, not, Option, none, some,
  List, [], is_empty, All, All-map_of, Bytes, Bool-cases, ok,
}
use release_me.Host.{Asset}
use release_me.Manifest
use release_me.Manifest.{Entry, Manifest}
use release_me.Manifest.Valid.{IsValid, parse-IsValid}
use release_me.Policy.{Policy, validate}
use release_me.Intoto.{Statement}
use release_me.Verify.Types.{
  Options, Report, PublishedRelease, HostClient, bad_policy, no_release, is_draft, no_directory,
  Env, State,
}
use release_me.Verify.Exec.{lift, wrap, >>=-ok, lift->>=-ok, fail_if->>-ok, pure-ok}
use release_me.Verify.Fetch.{host_client, check_names, fetch_manifest}
use release_me.Verify.Evidence.{ssh_part, sigstore_part}
use release_me.Verify.Contents.{provenance_part, reproduce_part}
use release_me.Verify.Run.{report_of, verify_assets, verify_release, with_policy, run}
use release_me.Verify.Kept.{Keeps, Keeps-trans}
use release_me.Verify.Fetched.{
  wrap-ok, empty_nil, SafeNames, check_names-SafeNames, HasFile, Listing, fetch_manifest-Listing,
}
use release_me.Verify.Signed.{IsEvidence}
use release_me.Verify.Ssh.{SshPart, ssh_part-holds}
use release_me.Verify.Bundled.{SigstorePart, sigstore_part-holds}
use release_me.Verify.Provenance.{
  ProvenancePart, provenance_part-holds, ReproducePart, reproduce_part-holds,
}

module _ (env : Env) (o : Options) (p : Policy) (client : HostClient) (published : List Asset) where
  -- What a report says of the assets of a release.
  pub record Assured (rel : PublishedRelease) (report : Report) (s s' : State) : Type 0 where
    pub text : Bytes
    pub m : Manifest
    pub then_state : State
    pub listing : Listing env client o.tag published p text m s then_state
    pub manifest_valid : IsValid m
    pub files_kept : All (λ e. ¬ IsEvidence o p e.name → HasFile env s' e) m
    pub signed_statement : Option (Statement × Bytes)
    pub ssh : SshPart env client o published p text report.sshsig signed_statement
    pub statement : Option (Statement × Bytes)
    pub sigstore :
        SigstorePart env client o published p m signed_statement report.sigstore statement
    pub provenance : ProvenancePart env o p m statement report.provenance
    pub rebuilt : o.reproduce ≡ true → ReproducePart env o p m p.reproduce report.provenance
    pub reported :
        report
        ≡ report_of env o p rel published m text report.sshsig report.sigstore report.provenance

  kept_file :
      (s s' : State) (e : Entry)
      → Keeps (IsEvidence o p) s s'
      → HasFile env s e
      → ¬ IsEvidence o p e.name
      → HasFile env s' e
  kept_file s s' e k (c, there, hash) out = (c, k e.name out ∙ there, hash)

  verify_assets-Assured :
      (rel : PublishedRelease) (s s' : State) {report : Report}
      → verify_assets env o p client rel published s ≡ ok (report, s')
      → Assured rel report s s'
  unfolding verify_assets
  verify_assets-Assured rel s s' {report} h =
      let ((m, text), s1, e1, h1) = >>=-ok (fetch_manifest env client o.tag published p) _ h in
      let listing = fetch_manifest-Listing env client o.tag published p s s1 e1 in
      let valid = manifest-IsValid text m listing.parsed in
      let ((ssh, st1), s2, e2, h2) = >>=-ok (ssh_part env client o published p text) _ h1 in
      let (ssh_holds, kept1) = ssh_part-holds env client o published p text s1 s2 e2 in
      let ((sig, st2), s3, e3, h3) = >>=-ok (sigstore_part env client o published p m st1) _ h2 in
      let (sig_holds, kept2) = sigstore_part-holds env client o published p m st1 s2 s3 e3 in
      let (prov, s4, e4, h4) = >>=-ok (provenance_part env o p m st2) _ h3 in
      let (prov_holds, same1) = provenance_part-holds env o p m st2 s3 s4 valid e4 in
      let (_, s5, e5, h5) = >>=-ok (reproduce_part env o p m prov) _ h4 in
      let (rebuilt, same2) = reproduce_part-holds env o p m prov s4 s5 valid e5 in
      let made = report_of env o p rel published m text ssh sig prov in
      let (value, same3) = pure-ok made s5 h5 in
      subst₂ (λ r z. Assured rel r s z) value (same1 ∙ same2 ∙ same3)
        (record {
          text = text;
          m = m;
          then_state = s1;
          listing = listing;
          manifest_valid = valid;
          files_kept =
              All-map_of
                (λ e k. kept_file s1 s3 e (Keeps-trans (IsEvidence o p) s1 s2 s3 kept1 kept2) k) m
                listing.matches;
          signed_statement = st1;
          ssh = ssh_holds;
          statement = st2;
          sigstore = sig_holds;
          provenance = prov_holds;
          rebuilt = rebuilt;
          reported = refl;
        })
    where
      manifest-IsValid : (text : Bytes) (m : Manifest) → Manifest.parse text ≡ ok m → IsValid m
      manifest-IsValid text m h = (parse-IsValid text h).0

module _ (env : Env) (o : Options) where
  -- What a report says of the release.
  pub record Complete (report : Report) (s s' : State) : Type 0 where
    pub policy : Policy
    pub has_policy : o.policy ≡ some policy
    pub valid : validate policy ≡ []
    pub tag_given : is_empty o.tag ≡ false
    pub client : HostClient
    pub on_host : host_client policy o.api_url ≡ ok client
    pub release : PublishedRelease
    pub found : env.find_release client o.tag ≡ ok release
    pub public : release.draft ≡ false
    pub names : SafeNames release.assets
    pub assured : Assured env o policy client release.assets release report s s'

  verify_release-Complete :
      (p : Policy) (s s' : State) {report : Report}
      → o.policy ≡ some p
      → is_empty o.tag ≡ false
      → verify_release env o p s ≡ ok (report, s')
      → Complete report s s'
  unfolding verify_release
  verify_release-Complete p s s' {report} has tag h =
      let (good, h1) = fail_if->>-ok (not (is_empty (validate p))) (bad_policy (validate p)) _ h in
      let (client, e1, h2) = lift->>=-ok (host_client p o.api_url) _ h1 in
      let (rel, e2, h3) = lift->>=-ok (wrap no_release (env.find_release client o.tag)) _ h2 in
      let (public, h4) = fail_if->>-ok rel.draft is_draft _ h3 in
      let (_, h5) = fail_if->>-ok (not env.directory_made) no_directory _ h4 in
      let (published, e3, h6) = lift->>=-ok (check_names [] rel.assets) _ h5 in
      let (same, names) = check_names-SafeNames rel.assets e3 in
      record {
        policy = p;
        has_policy = has;
        valid = empty_nil (validate p) (not-eq-false _ good);
        tag_given = tag;
        client = client;
        on_host = e1;
        release = rel;
        found = wrap-ok no_release (env.find_release client o.tag) e2;
        public = public;
        names = names;
        assured =
            subst (λ a. Assured env o p client a rel report s s') (sym same)
              (verify_assets-Assured env o p client published rel s s' h6);
      }

  with_policy-Complete :
      (policy : Option Policy) (s s' : State) {report : Report}
      → o.policy ≡ policy
      → with_policy env o policy s ≡ ok (report, s')
      → Complete report s s'
  unfolding lift
  with_policy-Complete none s s' has h = cc
  with_policy-Complete (some p) s s' has h = elim (Bool-cases (is_empty o.tag)) [
    | inl no_tag ↦ cc (rw no_tag at h)
    | inr tag ↦ verify_release-Complete p s s' has tag (rw tag at h)
  ]

  -- If `Run` returns a report, the policy is valid and the release of the tag is public with safe
  -- names, no two equal; the manifest is valid, it was parsed from what the platform sent at the
  -- run's first download; each file that it lists was downloaded in this run, whatever the
  -- directory held before, and what was sent had its digest and is still in the directory unless
  -- the file has the name of an evidence file; no platform digest contradicts it; where the
  -- policy requires sshsig, a key of its allowed signers signed the manifest, and the provenance
  -- statement if the release has one; where it requires sigstore, the bundle was verified for its
  -- identity and the digests of the manifest, and holds the published statement if that was
  -- signed too; signatures, published statement and bundle are what the platform sends for their
  -- names; a statement lists exactly the manifest, for the tag and the source of the policy; and
  -- where a rebuild is asked for, the clean checkout of the tag rebuilt exactly the manifest.
  pub run-Complete :
      (s s' : State) {report : Report} → run env o s ≡ ok (report, s') → Complete report s s'
  unfolding run
  run-Complete s s' h = with_policy-Complete o.policy s s' refl h
