-- ===== src/Verify/Provenance.antt =====
-- What the provenance of a release and the independent rebuild establish.
use release_me.Prelude.{
  ◌≡◌, ◌⊎◌, inl, inr, refl, sym, ap, ◌∙◌, subst, Bool, true, false, not, ◌&&◌, Option, none, some,
  is_empty, Bytes, bytes_eq, bytes_eq_iff, trim_space, not-eq-false, ok,
}
use release_me.Manifest.{Manifest, diff, from_dir}
use release_me.Manifest.Valid.{IsValid}
use release_me.Manifest.Diff.{diff-nil}
use release_me.Manifest.Files.{from_dir_sound}
use release_me.Policy.{Policy, ReproducePolicy}
use release_me.Intoto.{
  Statement, Provenance, Source, subjects, provenance_predicate, known_build_type,
}
use release_me.Intoto.Declared.{subjects-IsValid}
use release_me.Intoto.Github.{source_of}
use release_me.Verify.Types.{
  Options, ProvenanceReport, bad_statement, other_subjects, other_tag, other_source,
  unknown_build_type, no_tag, other_commit, no_head, other_head, not_clean, build_failed,
  no_rebuilt, rebuilt_differs, Checkout, Env, State,
}
use release_me.Verify.Exec.{pure, lift, some_or, wrap, >>=-ok, lift->>=-ok, fail_if->>-ok, pure-ok}
use release_me.Verify.Contents.{
  expected_source, provenance_report, provenance_contents, provenance_part, directory_of,
  says_other, is_dirty, rebuild, with_reproduce_section, rebuild_if, reproduce_part,
}
use release_me.Verify.Fetched.{wrap-ok, empty_nil}
use release_me.Verify.Signed.{some_or-ok}

same_manifest : (m n : Manifest) → IsValid m → IsValid n → not (is_empty (diff m n)) ≡ false → m ≡ n
same_manifest m n v w h = (diff-nil m n v w).0 (empty_nil (diff m n) (not-eq-false _ h))

module _ (env : Env) (o : Options) (p : Policy) (m : Manifest) where
  -- The subjects of the statement are the manifest; its provenance is for the tag and, where the policy
  -- names a source, for that source at the tag, in a known build type.
  pub record ProvenanceHolds (st : Statement) (r : ProvenanceReport) : Type 0 where
    pub subjects_listed : subjects st ≡ ok m
    pub predicate : Provenance
    pub decoded : provenance_predicate env.codec st ≡ ok predicate
    pub source : Source
    pub declared : source_of predicate ≡ ok source
    pub for_tag : source.tag ≡ o.tag
    pub from_source : (is_empty p.source ≡ true) ⊎ (source.uri ≡ expected_source p o.tag)
    pub known : known_build_type predicate.build_type ≡ true
    pub reported : r ≡ provenance_report source predicate

  provenance_contents-holds :
      (st : Statement) (s s' : State) {r : ProvenanceReport}
      → IsValid m
      → provenance_contents env o p m st s ≡ ok (r, s')
      → ProvenanceHolds st r × (s ≡ s')
  unfolding provenance_contents
  provenance_contents-holds st s s' v h =
      let (found, e1, h1) = lift->>=-ok (wrap bad_statement (subjects st)) _ h in
      let (no_diff, h2) =
        fail_if->>-ok (not (is_empty (diff m found))) (other_subjects (diff m found)) _ h1 in
      let (pred, e2, h3) =
        lift->>=-ok (wrap bad_statement (provenance_predicate env.codec st)) _ h2 in
      let (src, e3, h4) = lift->>=-ok (wrap bad_statement (source_of pred)) _ h3 in
      let (tag, h5) = fail_if->>-ok (not (bytes_eq src.tag o.tag)) (other_tag src.tag) _ h4 in
      let (uri, h6) =
        fail_if->>-ok (not (is_empty p.source) && not (bytes_eq src.uri (expected_source p o.tag)))
          (other_source src.uri) _ h5 in
      let (known, h7) =
        fail_if->>-ok (not (known_build_type pred.build_type)) (unknown_build_type pred.build_type)
          _ h6 in
      let (value, same) = pure-ok (provenance_report src pred) s h7 in
      let listed = wrap-ok bad_statement (subjects st) e1 in
      let valid = subjects-IsValid st listed in
      (
        record {
          subjects_listed = listed ∙ ap ok (sym (same_manifest m found v valid no_diff));
          predicate = pred;
          decoded = wrap-ok bad_statement (provenance_predicate env.codec st) e2;
          source = src;
          declared = wrap-ok bad_statement (source_of pred) e3;
          for_tag = (bytes_eq_iff src.tag o.tag).0 (not-eq-false _ tag);
          from_source = named_source (is_empty p.source) src.uri (expected_source p o.tag) uri;
          known = not-eq-false _ known;
          reported = sym value;
        },
        same,
      )
    where
      named_source :
          (b : Bool) (x y : Bytes) → (not b && not (bytes_eq x y)) ≡ false → (b ≡ true) ⊎ (x ≡ y)
      named_source true x y h = inl refl
      named_source false x y h = inr ((bytes_eq_iff x y).0 (not-eq-false _ h))

  -- What the fourth part leaves.
  abbrev pub ProvenancePart : Option (Statement × Bytes) → Option ProvenanceReport → Type 0
  ProvenancePart none r = r ≡ none
  ProvenancePart (some (st, text)) none = ⊥
  ProvenancePart (some (st, text)) (some r) = ProvenanceHolds st r

  pub provenance_part-holds :
      (st : Option (Statement × Bytes)) (s s' : State) {r : Option ProvenanceReport}
      → IsValid m
      → provenance_part env o p m st s ≡ ok (r, s')
      → ProvenancePart st r × (s ≡ s')
  provenance_part-holds none s s' v h = let (value, same) = pure-ok none s h in (sym value, same)
  provenance_part-holds (some (st, text)) s s' v h =
      let (r, s1, e, h1) = >>=-ok (provenance_contents env o p m st) (λ r. pure (some r)) h in
      let (holds, first) = provenance_contents-holds st s s1 v e in
      let (value, last) = pure-ok (some r) s1 h1 in
      (subst (ProvenancePart (some (st, text))) value holds, first ∙ last)

  -- The checkout is clean at the commit of the tag, which is that of the provenance, and the rebuild
  -- succeeded and gave the manifest.
  pub record Rebuilt (repo : Checkout) (r : ReproducePolicy) (prov : Option ProvenanceReport)
      : Type 0 where
    pub commit : Bytes
    pub tagged : repo.commit o.tag ≡ some commit
    pub provenance_agrees : says_other env o p m prov commit ≡ false
    pub out : Bytes
    pub head : repo.head ≡ some out
    pub checked_out : trim_space out ≡ commit
    pub clean : is_dirty env o p m repo.status ≡ false
    pub built : repo.build r.command ≡ true
    pub same_files : from_dir (repo.hash_file r.dir) (repo.entries r.dir) ≡ ok m

  rebuild-Rebuilt :
      (repo : Checkout) (r : ReproducePolicy) (prov : Option ProvenanceReport) (s s' : State)
      {u : Unit {0}}
      → IsValid m
      → rebuild env o p m repo r prov s ≡ ok (u, s')
      → Rebuilt repo r prov × (s ≡ s')
  unfolding rebuild
  rebuild-Rebuilt repo r prov s s' v h =
      let (head, e1, h1) = lift->>=-ok (some_or no_tag (repo.commit o.tag)) _ h in
      let (agrees, h2) = fail_if->>-ok (says_other env o p m prov head) (other_commit head) _ h1 in
      let (out, e2, h3) = lift->>=-ok (some_or no_head repo.head) _ h2 in
      let (at_tag, h4) =
        fail_if->>-ok (not (bytes_eq (trim_space out) head)) (other_head (trim_space out)) _ h3 in
      let (clean, h5) = fail_if->>-ok (is_dirty env o p m repo.status) not_clean _ h4 in
      let (built, h6) = fail_if->>-ok (not (repo.build r.command)) build_failed _ h5 in
      let made = from_dir (repo.hash_file r.dir) (repo.entries r.dir) in
      let (n, e3, h7) = lift->>=-ok (wrap no_rebuilt made) _ h6 in
      let (no_diff, h8) =
        fail_if->>-ok (not (is_empty (diff m n))) (rebuilt_differs (diff m n)) _ h7 in
      let (_, same) = pure-ok tt s h8 in
      let from = wrap-ok no_rebuilt made e3 in
      let (_, _, valid, _, _, _) =
        from_dir_sound (repo.hash_file r.dir) (repo.entries r.dir) from in
      (
        record {
          commit = head;
          tagged = some_or-ok no_tag (repo.commit o.tag) e1;
          provenance_agrees = agrees;
          out = out;
          head = some_or-ok no_head repo.head e2;
          checked_out = (bytes_eq_iff (trim_space out) head).0 (not-eq-false _ at_tag);
          clean = clean;
          built = not-eq-false _ built;
          same_files = from ∙ ap ok (sym (same_manifest m n v valid no_diff));
        },
        same,
      )

  -- What the fifth part leaves, where a rebuild is asked for.
  abbrev pub ReproducePart : Option ReproducePolicy → Option ProvenanceReport → Type 0
  ReproducePart none prov = ⊥
  ReproducePart (some r) prov = Rebuilt (env.checkout (directory_of env o p m o.repo_dir)) r prov

  with_reproduce_section-holds :
      (section : Option ReproducePolicy) (prov : Option ProvenanceReport) (s s' : State)
      {u : Unit {0}}
      → IsValid m
      → with_reproduce_section env o p m section prov s ≡ ok (u, s')
      → ReproducePart section prov × (s ≡ s')
  unfolding lift
  with_reproduce_section-holds none prov s s' v h = cc
  with_reproduce_section-holds (some r) prov s s' v h =
      rebuild-Rebuilt (env.checkout (directory_of env o p m o.repo_dir)) r prov s s' v h

  rebuild_if-holds :
      (b : Bool) (prov : Option ProvenanceReport) (s s' : State) {u : Unit {0}}
      → IsValid m
      → rebuild_if env o p m b prov s ≡ ok (u, s')
      → (b ≡ true → ReproducePart p.reproduce prov) × (s ≡ s')
  rebuild_if-holds true prov s s' v h =
      let (holds, same) = with_reproduce_section-holds p.reproduce prov s s' v h in
      (λ _. holds, same)
  rebuild_if-holds false prov s s' v h = let (_, same) = pure-ok tt s h in (λ e. cc, same)

  pub reproduce_part-holds :
      (prov : Option ProvenanceReport) (s s' : State) {u : Unit {0}}
      → IsValid m
      → reproduce_part env o p m prov s ≡ ok (u, s')
      → (o.reproduce ≡ true → ReproducePart p.reproduce prov) × (s ≡ s')
  unfolding reproduce_part
  reproduce_part-holds prov s s' v h = rebuild_if-holds o.reproduce prov s s' v h
