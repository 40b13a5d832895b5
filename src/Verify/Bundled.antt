-- ===== src/Verify/Bundled.antt =====
-- What the third part of the verification, the Sigstore bundle, establishes, and which files it may
-- write.
use release_me.Prelude.{
  ◌≡◌, inl, inr, refl, subst₂, false, Option, none, some, List, ◌++◌, Bytes, codes, Bool-cases, ok,
}
use release_me.Host.{Asset}
use release_me.Manifest.{Manifest}
use release_me.Policy.{Policy, SigstorePolicy, evidence_prefix, requires}
use release_me.Intoto.{Statement}
use release_me.Sigstore
use release_me.Sigstore.{Verification}
use release_me.Sigstore.Accepted.{BundleSays, verify-BundleSays}
use release_me.Verify.Types.{
  Options, SigstoreReport, HostClient, no_trusted_root, bad_bundle, other_statement, Env, State,
  bundle_name,
}
use release_me.Verify.Exec.{pure, lift, some_or, wrap, >>=-ok, lift->>=-ok, fail_if->>-ok, pure-ok}
use release_me.Verify.Fetch.{fetch}
use release_me.Verify.Evidence.{
  differs, bundle_options, sigstore_report, sigstore_evidence, with_sigstore_section, sigstore_part,
}
use release_me.Verify.Kept.{Keeps, Keeps-refl, IsSent}
use release_me.Verify.Fetched.{wrap-ok}
use release_me.Verify.Signed.{some_or-ok, IsEvidence, IsEvidence-fetched, IsSent-fetched}

module _ (env : Env) (client : HostClient) (o : Options) (published : List Asset) (p : Policy) where
  -- The bundle of the release was verified for the identity of the policy and the digests of the
  -- manifest; the statement that it holds is the one published, if that was signed too.
  pub record SigstoreHolds (m : Manifest) (before : Option (Statement × Bytes))
      (rep : SigstoreReport) (st : Option (Statement × Bytes)) : Type 0 where
    pub section : SigstorePolicy
    pub has_section : p.sigstore ≡ some section
    pub root : Bytes
    pub trusted : env.trusted_root section.trusted_root o.cache_dir ≡ some root
    pub bundle : Bytes
    pub sent : IsSent env client o.tag published (evidence_prefix p o.tag ++ bundle_name) bundle
    pub result : Verification
    pub says :
        BundleSays env.codec env.sigstore bundle
          (bundle_options env client o published p section m root)
          result
    pub agrees : differs before result.payload ≡ false
    pub reported : rep ≡ sigstore_report env client o published p result
    pub statement : st ≡ some (result.statement, result.payload)

  sigstore_evidence-SigstoreHolds :
      (sp : SigstorePolicy) (m : Manifest) (before : Option (Statement × Bytes)) (s s' : State)
      {rep : SigstoreReport} {st : Option (Statement × Bytes)}
      → p.sigstore ≡ some sp
      → sigstore_evidence env client o published p sp m before s ≡ ok ((rep, st), s')
      → SigstoreHolds m before rep st × Keeps (IsEvidence o p) s s'
  unfolding sigstore_evidence
  sigstore_evidence-SigstoreHolds sp m before s s' has h =
      let name = evidence_prefix p o.tag ++ bundle_name in
      let (bundle, s1, e1, h1) = >>=-ok (fetch env client o.tag published name) _ h in
      let (root, e2, h2) =
        lift->>=-ok (some_or no_trusted_root (env.trusted_root sp.trusted_root o.cache_dir)) _ h1 in
      let options = bundle_options env client o published p sp m root in
      let (v, e3, h3) =
        lift->>=-ok (wrap bad_bundle (Sigstore.verify env.codec env.sigstore bundle options)) _
          h2 in
      let (agrees, h4) = fail_if->>-ok (differs before v.payload) other_statement _ h3 in
      let (value, same) =
        pure-ok (sigstore_report env client o published p v, some (v.statement, v.payload)) s1 h4 in
      subst₂
        (λ (x : SigstoreReport × Option (Statement × Bytes)) z.
          SigstoreHolds m before x.0 x.1 × Keeps (IsEvidence o p) s z)
        value same
        (
          record {
            section = sp;
            has_section = has;
            root = root;
            trusted = some_or-ok no_trusted_root (env.trusted_root sp.trusted_root o.cache_dir) e2;
            bundle = bundle;
            sent = IsSent-fetched env client o published p name s s1 e1;
            result = v;
            says =
                verify-BundleSays env.codec env.sigstore bundle options
                  (wrap-ok bad_bundle (Sigstore.verify env.codec env.sigstore bundle options) e3);
            agrees = agrees;
            reported = refl;
            statement = refl;
          },
          IsEvidence-fetched env client o published p name s s1 (inr (inr (inr refl))) e1,
        )

  -- What the third part leaves: the statement as it was where the policy does not require sigstore.
  abbrev pub SigstorePart :
      Manifest
      → Option (Statement × Bytes)
      → Option SigstoreReport
      → Option (Statement × Bytes)
      → Type 0
  SigstorePart m before none st = (requires p (codes "sigstore") ≡ false) × (st ≡ before)
  SigstorePart m before (some rep) st = SigstoreHolds m before rep st

  -- The part, with the files that it leaves.
  abbrev Outcome :
      Manifest
      → Option (Statement × Bytes)
      → State
      → Option SigstoreReport × Option (Statement × Bytes)
      → State
      → Type 0
  Outcome m before s x z = SigstorePart m before x.0 x.1 × Keeps (IsEvidence o p) s z

  with_sigstore_section-holds :
      (section : Option SigstorePolicy) (m : Manifest) (before : Option (Statement × Bytes))
      (s s' : State) {rep : Option SigstoreReport} {st : Option (Statement × Bytes)}
      → p.sigstore ≡ section
      → with_sigstore_section env client o published p section m before s ≡ ok ((rep, st), s')
      → SigstorePart m before rep st × Keeps (IsEvidence o p) s s'
  unfolding lift
  with_sigstore_section-holds none m before s s' has h = cc
  with_sigstore_section-holds (some sp) m before s s' has h =
      let ((rep, st), s1, e1, h1) =
        >>=-ok (sigstore_evidence env client o published p sp m before) (λ r. pure (some r.0, r.1))
          h in
      let (value, same) = pure-ok (some rep, st) s1 h1 in
      subst₂ (Outcome m before s) value same
        (sigstore_evidence-SigstoreHolds sp m before s s1 has e1)

  pub sigstore_part-holds :
      (m : Manifest) (before : Option (Statement × Bytes)) (s s' : State)
      {rep : Option SigstoreReport} {st : Option (Statement × Bytes)}
      → sigstore_part env client o published p m before s ≡ ok ((rep, st), s')
      → SigstorePart m before rep st × Keeps (IsEvidence o p) s s'
  unfolding sigstore_part
  sigstore_part-holds m before s s' h = elim (Bool-cases (requires p (codes "sigstore"))) [
    | inl required ↦ with_sigstore_section-holds p.sigstore m before s s' refl (rw required at h)
    | inr free ↦
        let (value, same) = pure-ok (none, before) s (rw free at h) in
        subst₂ (Outcome m before s) value same ((free, refl), Keeps-refl (IsEvidence o p) s)
  ]
