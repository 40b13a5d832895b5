-- ===== src/Verify/Ssh.antt =====
-- What the second part of the verification, the SSH signatures, establishes, and which files it may
-- write.
use release_me.Prelude.{
  ◌≡◌, ◌⊎◌, inl, inr, refl, sym, ◌∙◌, subst, subst₂, false, Option, none, some, List, [], ◌++◌,
  is_empty, Bytes, codes, Bool-cases, ok,
}
use release_me.Host.{Asset}
use release_me.Policy.{Policy, SshsigPolicy, manifest_name, requires}
use release_me.Signers.{Signer}
use release_me.Signers.File.{parse_allowed_signers, parse_revoked_keys}
use release_me.Intoto.{Statement}
use release_me.Verify.Types.{
  Options, SshsigReport, HostClient, no_signers, bad_signers, Env, State, signature_suffix,
}
use release_me.Verify.Exec.{pure, lift, some_or, wrap, >>=-ok, lift->>=-ok, pure-ok, lift-ok}
use release_me.Verify.Fetch.{fetch, fetch_optional}
use release_me.Verify.Evidence.{
  resolve, ssh_signers, ssh_revoked, provenance_file, accepted, signed_statement, ssh_report,
  ssh_evidence, with_ssh_section, ssh_part,
}
use release_me.Verify.Kept.{Keeps, Keeps-refl, Keeps-trans, fetch_optional-Fetched}
use release_me.Verify.Fetched.{wrap-ok, empty_nil}
use release_me.Verify.Signed.{
  some_or-ok, IsEvidence, Keeps-mono, SshHolds, IsEvidence-fetched, IsSent-fetched,
  accepted-Verified, signed_statement-holds,
}

module _ (env : Env) (client : HostClient) (o : Options) (published : List Asset) (p : Policy) where
  ssh_signers-ok :
      (sp : SshsigPolicy) (s s' : State) {signers : List Signer}
      → ssh_signers env client o published p sp s ≡ ok (signers, s')
      → (text : Bytes) × (resolve env sp.allowed_signers ≡ some text)
        × (parse_allowed_signers env.ssh env.zones text ≡ ok signers)
        × (s ≡ s')
  ssh_signers-ok sp s s' h =
      let (text, e1, h1) = lift->>=-ok (some_or no_signers (resolve env sp.allowed_signers)) _ h in
      let (e2, same) =
        lift-ok (wrap bad_signers (parse_allowed_signers env.ssh env.zones text)) s s' h1 in
      (
        text,
        some_or-ok no_signers (resolve env sp.allowed_signers) e1,
        wrap-ok bad_signers (parse_allowed_signers env.ssh env.zones text) e2,
        same,
      )

  abbrev Revoked : SshsigPolicy → List Bytes → Type 0
  Revoked sp revoked =
      ((sp.revoked_keys ≡ []) × (revoked ≡ []))
      ⊎ ((text : Bytes) × (resolve env sp.revoked_keys ≡ some text)
          × (parse_revoked_keys env.ssh text ≡ ok revoked))

  ssh_revoked-ok :
      (sp : SshsigPolicy) (s s' : State) {revoked : List Bytes}
      → ssh_revoked env client o published p sp s ≡ ok (revoked, s')
      → Revoked sp revoked × (s ≡ s')
  ssh_revoked-ok sp s s' h = elim (Bool-cases (is_empty sp.revoked_keys)) [
    | inl none_named ↦
        let (value, same) = pure-ok [] s (rw none_named at h) in
        (inl (empty_nil sp.revoked_keys none_named, sym value), same)
    | inr named ↦
        let (text, e1, h1) =
          lift->>=-ok (some_or no_signers (resolve env sp.revoked_keys)) _ (rw named at h) in
        let (e2, same) = lift-ok (wrap bad_signers (parse_revoked_keys env.ssh text)) s s' h1 in
        (
          inr (
            text,
            some_or-ok no_signers (resolve env sp.revoked_keys) e1,
            wrap-ok bad_signers (parse_revoked_keys env.ssh text) e2,
          ),
          same,
        )
  ]

  -- What the second part establishes, and which files it may write.
  ssh_evidence-SshHolds :
      (sp : SshsigPolicy) (text : Bytes) (s s' : State) {rep : SshsigReport}
      {st : Option (Statement × Bytes)}
      → p.sshsig ≡ some sp
      → ssh_evidence env client o published p sp text s ≡ ok ((rep, st), s')
      → SshHolds env client o published p text rep st × Keeps (IsEvidence o p) s s'
  unfolding ssh_evidence
  ssh_evidence-SshHolds sp text s s' has h =
      let name = manifest_name p ++ signature_suffix in
      let (sig, s1, e1, h1) = >>=-ok (fetch env client o.tag published name) _ h in
      let (signers, s2, e2, h2) = >>=-ok (ssh_signers env client o published p sp) _ h1 in
      let (revoked, s3, e3, h3) = >>=-ok (ssh_revoked env client o published p sp) _ h2 in
      let (a, e4, h4) =
        lift->>=-ok (accepted env client o published p sp signers revoked name text sig) _ h3 in
      let (found, s5, e5, h5) =
        >>=-ok (fetch_optional env client o.tag published (provenance_file o p)) _ h4 in
      let (st, s6, e6, h6) =
        >>=-ok (signed_statement env client o published p sp signers revoked found) _ h5 in
      let (value, same) = pure-ok (ssh_report env client o published p a st, st) s6 h6 in
      let (signers_text, there, parsed, same2) = ssh_signers-ok sp s1 s2 e2 in
      let (revoked_ok, same3) = ssh_revoked-ok sp s2 s3 e3 in
      let optional =
        fetch_optional-Fetched env client o.tag published (provenance_file o p) s3 s5 e5 in
      let (statement, kept) =
        signed_statement-holds env client o published p sp signers revoked found s5 s6
          optional.absent optional.sent e6 in
      let first = IsEvidence-fetched env client o published p name s s1 (inl refl) e1 in
      let second =
        Keeps-mono (λ n. n ≡ provenance_file o p) (IsEvidence o p) s3 s5 (λ n e. inr (inl e))
          optional.keeps in
      subst₂
        (λ (x : SshsigReport × Option (Statement × Bytes)) z.
          SshHolds env client o published p text x.0 x.1 × Keeps (IsEvidence o p) s z)
        value same
        (
          record {
            section = sp;
            has_section = has;
            signers = signers;
            revoked = revoked;
            keyring = record {
              signers_text = signers_text;
              signers_there = there;
              signers_parsed = parsed;
              revoked_parsed = revoked_ok;
            };
            sig = sig;
            sig_sent = IsSent-fetched env client o published p name s s1 e1;
            answer = a;
            signed = accepted-Verified env client o published p sp signers revoked name text sig e4;
            reported = refl;
            statement = statement;
          },
          Keeps-trans (IsEvidence o p) s s1 s6 first (
              Keeps-trans (IsEvidence o p) s1 s5 s6
                (subst (λ z. Keeps (IsEvidence o p) z s5) (sym (same2 ∙ same3)) second) kept),
        )

  -- What the second part leaves: nothing where the policy does not require sshsig.
  abbrev pub SshPart : Bytes → Option SshsigReport → Option (Statement × Bytes) → Type 0
  SshPart text none st = (requires p (codes "sshsig") ≡ false) × (st ≡ none)
  SshPart text (some rep) st = SshHolds env client o published p text rep st

  -- The part, with the files that it leaves.
  abbrev Outcome : Bytes → State → Option SshsigReport × Option (Statement × Bytes) → State → Type 0
  Outcome text s x z = SshPart text x.0 x.1 × Keeps (IsEvidence o p) s z

  with_ssh_section-holds :
      (section : Option SshsigPolicy) (text : Bytes) (s s' : State) {rep : Option SshsigReport}
      {st : Option (Statement × Bytes)}
      → p.sshsig ≡ section
      → with_ssh_section env client o published p section text s ≡ ok ((rep, st), s')
      → SshPart text rep st × Keeps (IsEvidence o p) s s'
  unfolding lift
  with_ssh_section-holds none text s s' has h = cc
  with_ssh_section-holds (some sp) text s s' has h =
      let ((rep, st), s1, e1, h1) =
        >>=-ok (ssh_evidence env client o published p sp text) (λ r. pure (some r.0, r.1)) h in
      let (value, same) = pure-ok (some rep, st) s1 h1 in
      subst₂ (Outcome text s) value same (ssh_evidence-SshHolds sp text s s1 has e1)

  pub ssh_part-holds :
      (text : Bytes) (s s' : State) {rep : Option SshsigReport} {st : Option (Statement × Bytes)}
      → ssh_part env client o published p text s ≡ ok ((rep, st), s')
      → SshPart text rep st × Keeps (IsEvidence o p) s s'
  unfolding ssh_part
  ssh_part-holds text s s' h = elim (Bool-cases (requires p (codes "sshsig"))) [
    | inl required ↦ with_ssh_section-holds p.sshsig text s s' refl (rw required at h)
    | inr free ↦
        let (value, same) = pure-ok (none, none) s (rw free at h) in
        subst₂ (Outcome text s) value same ((free, refl), Keeps-refl (IsEvidence o p) s)
  ]
