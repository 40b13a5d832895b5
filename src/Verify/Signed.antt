-- ===== src/Verify/Signed.antt =====
-- What the evidence of a release establishes, and which files it may write.
use release_me.Prelude.{
  ◌≡◌, ◌⊎◌, inl, inr, refl, sym, ap, subst, subst₂, false, Option, none, some, List, [], ◌++◌,
  Bytes, ok, ok-injective,
}
use release_me.Host.{Asset}
use release_me.Policy.{Policy, SshsigPolicy, manifest_name, evidence_prefix}
use release_me.Signers
use release_me.Signers.{Signer, Accepted, SignerError}
use release_me.Signers.Accepts.{Verified, verify_sound}
use release_me.Signers.File.{parse_allowed_signers, parse_revoked_keys}
use release_me.Intoto.{Statement, parse_statement}
use release_me.Verify.Types.{
  Options, SshsigReport, HostClient, VerifyError, not_signed, bad_statement, Env, State,
  bundle_name, signature_suffix,
}
use release_me.Verify.Exec.{some_or, wrap, >>=-ok, lift->>=-ok, pure-ok}
use release_me.Verify.Fetch.{asset_named, is_listed, fetch}
use release_me.Verify.Evidence.{
  resolve, asked, provenance_file, accepted, signed_statement, ssh_report,
}
use release_me.Verify.Kept.{Keeps, Keeps-refl, IsSent, fetch-Downloads}
use release_me.Verify.Fetched.{wrap-ok}

pub some_or-ok :
    {A : Type 0} (e : VerifyError) (o : Option A) {a : A} → some_or e o ≡ ok a → o ≡ some a
some_or-ok e none h = cc
some_or-ok e (some a) h = ap some (ok-injective h)

-- The four assets that the evidence is downloaded from.
abbrev pub IsEvidence : Options → Policy → Bytes → Type 0
IsEvidence o p n =
    (n ≡ manifest_name p ++ signature_suffix)
    ⊎ ((n ≡ provenance_file o p)
        ⊎ ((n ≡ provenance_file o p ++ signature_suffix)
            ⊎ (n ≡ evidence_prefix p o.tag ++ bundle_name)))

pub Keeps-mono :
    (P Q : Bytes → Type 0) (s t : State) → ((n : Bytes) → P n → Q n) → Keeps P s t → Keeps Q s t
Keeps-mono P Q s t within k n out = k n (λ h. out (within n h))

module _ (env : Env) (client : HostClient) (o : Options) (published : List Asset) (p : Policy) where
  -- The allowed signers and the revoked keys are those of the policy.
  pub record Keyring (sp : SshsigPolicy) (signers : List Signer) (revoked : List Bytes)
      : Type 0 where
    pub signers_text : Bytes
    pub signers_there : resolve env sp.allowed_signers ≡ some signers_text
    pub signers_parsed : parse_allowed_signers env.ssh env.zones signers_text ≡ ok signers
    pub revoked_parsed :
        ((sp.revoked_keys ≡ []) × (revoked ≡ []))
        ⊎ ((text : Bytes) × (resolve env sp.revoked_keys ≡ some text)
            × (parse_revoked_keys env.ssh text ≡ ok revoked))

  -- A text is signed by a key of the policy.
  abbrev pub IsSigned : SshsigPolicy → List Signer → List Bytes → Bytes → Bytes → Accepted → Type 0
  IsSigned sp signers revoked text sig a =
      Verified env.ssh signers text sig (asked sp revoked o.now) env.clock a

  -- The provenance statement that the platform sends is signed, or the release has none.
  abbrev pub StatementHolds :
      SshsigPolicy → List Signer → List Bytes → Option (Statement × Bytes) → Type 0
  StatementHolds sp signers revoked none =
      is_listed (asset_named (provenance_file o p) published) ≡ false
  StatementHolds sp signers revoked (some (s, text)) =
      (sig : Bytes) × (a : Accepted) × IsSent env client o.tag published (provenance_file o p) text
      × IsSent env client o.tag published (provenance_file o p ++ signature_suffix) sig
      × IsSigned sp signers revoked text sig a
      × (parse_statement env.codec text ≡ ok s)

  pub record SshHolds (text : Bytes) (rep : SshsigReport) (st : Option (Statement × Bytes))
      : Type 0 where
    pub section : SshsigPolicy
    pub has_section : p.sshsig ≡ some section
    pub signers : List Signer
    pub revoked : List Bytes
    pub keyring : Keyring section signers revoked
    pub sig : Bytes
    pub sig_sent : IsSent env client o.tag published (manifest_name p ++ signature_suffix) sig
    pub answer : Accepted
    pub signed : IsSigned section signers revoked text sig answer
    pub reported : rep ≡ ssh_report env client o published p answer st
    pub statement : StatementHolds section signers revoked st

  pub IsEvidence-fetched :
      (name : Bytes) (s s' : State) {content : Bytes}
      → IsEvidence o p name
      → fetch env client o.tag published name s ≡ ok (content, s')
      → Keeps (IsEvidence o p) s s'
  IsEvidence-fetched name s s' within h =
      Keeps-mono (λ n. n ≡ name) (IsEvidence o p) s s'
        (λ n e. subst (IsEvidence o p) (sym e) within)
        (fetch-Downloads env client o.tag published name h).keeps

  pub IsSent-fetched :
      (name : Bytes) (s s' : State) {content : Bytes}
      → fetch env client o.tag published name s ≡ ok (content, s')
      → IsSent env client o.tag published name content
  IsSent-fetched name s s' h =
      (s.downloads, (fetch-Downloads env client o.tag published name h).sent)

  pub accepted-Verified :
      (sp : SshsigPolicy) (signers : List Signer) (revoked : List Bytes) (name text sig : Bytes)
      {a : Accepted}
      → accepted env client o published p sp signers revoked name text sig ≡ ok a
      → IsSigned sp signers revoked text sig a
  accepted-Verified sp signers revoked name text sig h =
      verify_sound env.ssh signers text sig (asked sp revoked o.now) env.clock (
        wrap-ok (not_signed name)
          (Signers.verify env.ssh signers text sig (asked sp revoked o.now) env.clock) h)

  pub signed_statement-holds :
      (sp : SshsigPolicy) (signers : List Signer) (revoked : List Bytes) (text : Option Bytes)
      (s s' : State) {st : Option (Statement × Bytes)}
      → (text ≡ none → is_listed (asset_named (provenance_file o p) published) ≡ false)
      → ((c : Bytes) → text ≡ some c → IsSent env client o.tag published (provenance_file o p) c)
      → signed_statement env client o published p sp signers revoked text s ≡ ok (st, s')
      → StatementHolds sp signers revoked st × Keeps (IsEvidence o p) s s'
  unfolding signed_statement
  signed_statement-holds sp signers revoked none s s' absent sent h =
      let (value, same) = pure-ok none s h in
      subst₂ (λ x z. StatementHolds sp signers revoked x × Keeps (IsEvidence o p) s z) value same
        (absent refl, Keeps-refl (IsEvidence o p) s)
  signed_statement-holds sp signers revoked (some text) s s' absent sent h =
      let (sig, s1, e1, h1) =
        >>=-ok (fetch env client o.tag published (provenance_file o p ++ signature_suffix)) _ h in
      let (a, e2, h2) =
        lift->>=-ok
          (accepted env client o published p sp signers revoked
            (provenance_file o p ++ signature_suffix) text sig)
          _ h1 in
      let (st, e3, h3) = lift->>=-ok (wrap bad_statement (parse_statement env.codec text)) _ h2 in
      let (value, same) = pure-ok (some (st, text)) s1 h3 in
      subst₂ (λ x z. StatementHolds sp signers revoked x × Keeps (IsEvidence o p) s z) value same
        (
          (
            sig,
            a,
            sent text refl,
            IsSent-fetched (provenance_file o p ++ signature_suffix) s s1 e1,
            accepted-Verified sp signers revoked _ text sig e2,
            wrap-ok bad_statement (parse_statement env.codec text) e3,
          ),
          IsEvidence-fetched (provenance_file o p ++ signature_suffix) s s1 (inr (inr (inl refl)))
              e1,
        )
