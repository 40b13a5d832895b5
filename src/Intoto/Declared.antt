-- ===== src/Intoto/Declared.antt =====
-- What `ProvenanceStatement` declares is what a verifier reads of it: `Subjects`, `SourceOf` and
-- `BuildCommand`.
use release_me.Prelude.{
  ◌+◌, inl, inr, Bool-cases, ◌≡◌, ◌≢◌, refl, sym, ap, ◌∙◌, subst, false, not, ◌&&◌, ◌||◌, Option,
  none, some, List, [], ◌∷◌, ◌++◌, map, append-nil, append_assoc, arith, All, All-append, length,
  is_empty, drop, length-append, drop-append_length, Bytes, codes, bytes_eq, bytes_eq_iff, Lacks,
  Result, ok, err, ok-injective, >>=-ok, reject_if-eq-ok,
}
use release_me.Manifest.{Entry, Manifest, ManifestError, add}
use release_me.Manifest.Search.{IsSorted}
use release_me.Manifest.Valid.{EntryOk, IsValid, nil-IsValid, add-IsValid}
use release_me.Manifest.RoundTrip.{add_last, below_middle, IsSorted-append_left}
use release_me.Intoto.{
  ResourceDescriptor, Statement, Provenance, Source, Codec, sha256_of, or_subject_error,
  add_subjects, subjects, provenance_predicate, build_command, incomplete, missing_source,
  missing_builder, empty_manifest, incomplete_workflow, other_ref, declared_source,
}
use release_me.Intoto.Github.{
  last_index, tags_marker, refs_tags, disagrees, check_release, check_workflow, check_parameters,
  source_at, source_of,
}
use release_me.Intoto.Value.{Fields, field, as_text, as_object}
use release_me.Intoto.Build.{
  GithubWorkflow, BuildInputs, repo_url, github_predicate, generic_predicate, github_provenance,
  subject_of, is_none, predicate_of, provenance_statement,
}

-- The subjects of a sorted manifest, read behind the entries before them.
add_subjects-map :
    (es m : List Entry)
    → IsSorted (m ++ es)
    → All EntryOk es
    → add_subjects (map subject_of es) m ≡ ok (m ++ es)
unfolding add_subjects
add_subjects-map [] m s h = rw append-nil
add_subjects-map (e ∷ es) m s (he, h) =
    rw (add_last m e (IsSorted-append_left m (e ∷ es) s) he (below_middle m e es s))
      (add_subjects-map es (m ++ (e ∷ [])) (rw (append_assoc m (e ∷ []) es) s) h ∙ rw append_assoc)

or_subject_error-ok :
    (r : Result ManifestError Manifest) {m : Manifest} → or_subject_error r ≡ ok m → r ≡ ok m
or_subject_error-ok (ok m) h = ap ok (ok-injective h)
or_subject_error-ok (err e) h = cc

add_subjects-IsValid :
    (ds : List ResourceDescriptor) (m : Manifest) {out : Manifest}
    → IsValid m
    → add_subjects ds m ≡ ok out
    → IsValid out
unfolding add_subjects
add_subjects-IsValid [] m v h = subst IsValid (ok-injective h) v
add_subjects-IsValid (d ∷ ds) m v h =
    let (m', e, h1) = >>=-ok (or_subject_error (add m d.name (sha256_of d))) _ h in
    add_subjects-IsValid ds m'
      (add-IsValid m d.name (sha256_of d) v (or_subject_error-ok (add m d.name (sha256_of d)) e)) h1

-- The manifest that `Subjects` makes is valid.
pub subjects-IsValid : (st : Statement) {m : Manifest} → subjects st ≡ ok m → IsValid m
unfolding subjects
subjects-IsValid st h = add_subjects-IsValid st.subject [] nil-IsValid h

last_index-Lacks : (s : Bytes) → Lacks b'@' s → last_index s tags_marker ≡ none
unfolding last_index
last_index-Lacks [] h = refl
last_index-Lacks (c ∷ s) (hc, h) = ground (arith, last_index-Lacks s h)

last_index-append :
    (x s : Bytes)
    → last_index s tags_marker ≡ some 0
    → last_index (x ++ s) tags_marker ≡ some (length x)
unfolding last_index
last_index-append [] s h = h
last_index-append (c ∷ x) s h = rw (last_index-append x s h) refl

last_index-marker :
    (tag : Bytes) → Lacks b'@' tag → last_index (tags_marker ++ tag) tags_marker ≡ some 0
unfolding last_index
last_index-marker tag h =
    rw
      (last_index-Lacks (refs_tags ++ tag)
        (All-append (λ a. a ≢ b'@') refs_tags tag (omega arith) h))
      refl

-- The URI of the release is that of the workflow's repository and tag, and the tag has no '@'.
abbrev pub UriAgrees : BuildInputs → Option GithubWorkflow → Type 0
UriAgrees inp none = Unit
UriAgrees inp (some w) =
    (inp.source.uri ≡ codes "git+" ++ (repo_url w ++ (tags_marker ++ inp.source.tag)))
    × Lacks b'@' inp.source.tag

-- What encoding/json does with the provenance that is made: it reads it back from the JSON value that it
-- writes.
abbrev pub ReadsBack : Codec → BuildInputs → Type 0
ReadsBack codec inp =
    (p : Provenance)
    → predicate_of inp inp.github ≡ ok p
    → codec.read_provenance (codec.write_provenance p) ≡ some p

-- What a verifier reads of a statement.
pub record Declares (codec : Codec) (m : Manifest) (inp : BuildInputs) (st : Statement)
    : Type 0 where
  pub subjects_back : subjects st ≡ ok m
  pub predicate : Provenance
  pub reads : provenance_predicate codec st ≡ ok predicate
  pub source_back : source_of predicate ≡ ok inp.source
  pub command_back : build_command predicate ≡ inp.command

disagrees_self : (s : Bytes) → disagrees s s ≡ false
disagrees_self s = elim (Bool-cases (is_empty s)) [
  | inl none_given ↦ rw none_given refl
  | inr given ↦ rw (given, (bytes_eq_iff s s).1 refl) refl
]

check_release_same :
    (src : Fields) (s : Source)
    → as_text (field (codes "uri") src) ≡ s.uri
    → as_text (field (codes "tag") src) ≡ s.tag
    → check_release src s ≡ ok tt
unfolding check_release
check_release_same src s u t = rw (u, t) (rw (disagrees_self s.uri, disagrees_self s.tag) refl)

check_workflow_same :
    (wf : Fields) (s : Source)
    → as_text (field (codes "ref") wf) ≡ refs_tags ++ s.tag
    → check_workflow (some wf) s ≡ ok tt
check_workflow_same wf s e =
    rw ((bytes_eq_iff (as_text (field (codes "ref") wf)) (refs_tags ++ s.tag)).1 e) refl

abbrev release_source : Provenance → Fields
release_source p =
    as_object (field (codes "source") (as_object (field (codes "release") p.external_parameters)))

abbrev workflow_of : Provenance → Fields
workflow_of p = as_object (field (codes "workflow") p.external_parameters)

module _ (inp : BuildInputs) (whole : incomplete inp.source ≡ false) where
  generic-source_of : source_of (generic_predicate inp) ≡ ok inp.source
  unfolding source_of declared_source
  generic-source_of = rw whole refl

  same_source :
      (uri tag : Bytes)
      → uri ≡ inp.source.uri
      → tag ≡ inp.source.tag
      → ◌≡◌ {A = Source} (record { uri = uri; commit = inp.source.commit; tag = tag }) inp.source
  same_source uri tag e k = ground arith

  commit_given : is_empty inp.source.commit ≡ false
  commit_given = ground arith

  module _ (w : GithubWorkflow) (ref : w.ref ≡ refs_tags ++ inp.source.tag)
      (agrees : UriAgrees inp (some w)) where
    abbrev base : Bytes
    base = codes "git+" ++ repo_url w

    uri-base :
        codes "git+" ++ (repo_url w ++ (b'@' ∷ w.ref)) ≡ base ++ (tags_marker ++ inp.source.tag)
    uri-base = ap (λ t. codes "git+" ++ (repo_url w ++ (b'@' ∷ t))) ref

    tag_found :
        last_index (base ++ (tags_marker ++ inp.source.tag)) tags_marker ≡ some (length base)
    tag_found =
        last_index-append base (tags_marker ++ inp.source.tag)
          (last_index-marker inp.source.tag agrees.1)

    tag_cut :
        (x : Bytes)
        → drop (length x + length tags_marker) (x ++ (tags_marker ++ inp.source.tag))
          ≡ inp.source.tag
    tag_cut x =
        subst (λ k. drop k (x ++ (tags_marker ++ inp.source.tag)) ≡ inp.source.tag)
          (length-append x tags_marker)
          (subst (λ t. drop (length (x ++ tags_marker)) t ≡ inp.source.tag)
            (append_assoc x tags_marker inp.source.tag)
            (drop-append_length (x ++ tags_marker) inp.source.tag))

    checked :
        check_parameters (github_predicate inp w).external_parameters inp.source ≡ ok inp.source
    checked =
        rw (check_release_same (release_source (github_predicate inp w)) inp.source refl refl)
          (rw (check_workflow_same (workflow_of (github_predicate inp w)) inp.source ref) refl)

    github-source_of : source_of (github_predicate inp w) ≡ ok inp.source
    unfolding source_of
    github-source_of =
        let ext = (github_predicate inp w).external_parameters in
        ap (λ u. source_at ext u inp.source.commit (last_index u tags_marker)) uri-base
        ∙ ap (source_at ext (base ++ (tags_marker ++ inp.source.tag)) inp.source.commit) tag_found
        ∙ rw commit_given (
            ap (check_parameters ext) (
              same_source (base ++ (tags_marker ++ inp.source.tag)) _ (sym agrees.0)
                (tag_cut base)))
        ∙ checked

github_provenance-ok :
    (inp : BuildInputs) (w : GithubWorkflow) {p : Provenance}
    → github_provenance inp w ≡ ok p
    → (w.ref ≡ refs_tags ++ inp.source.tag) × (github_predicate inp w ≡ p)
unfolding github_provenance
github_provenance-ok inp w h =
    let (_, h1) =
      reject_if-eq-ok
        (is_empty w.server_url
          || is_empty w.repository
          || is_empty w.ref
          || is_empty w.workflow_path)
        incomplete_workflow _ h in
    let (same, h2) =
      reject_if-eq-ok (not (bytes_eq w.ref (refs_tags ++ inp.source.tag))) (other_ref w.ref) _ h1 in
    ((bytes_eq_iff w.ref (refs_tags ++ inp.source.tag)).0 (ground arith), ok-injective h2)

abbrev DeclaresBuild : BuildInputs → Provenance → Type 0
DeclaresBuild inp p = (source_of p ≡ ok inp.source) × (build_command p ≡ inp.command)

predicate_of-declares :
    (inp : BuildInputs) (w : Option GithubWorkflow) {p : Provenance}
    → UriAgrees inp w
    → incomplete inp.source ≡ false
    → predicate_of inp w ≡ ok p
    → DeclaresBuild inp p
predicate_of-declares inp none u whole h =
    subst (DeclaresBuild inp) (ok-injective h) (generic-source_of inp whole, refl)
predicate_of-declares inp (some w) u whole h =
    let (p, e, h1) = >>=-ok (github_provenance inp w) _ h in
    let (_, h2) = reject_if-eq-ok (is_empty p.builder_id) missing_builder _ h1 in
    let (ref, same) = github_provenance-ok inp w e in
    subst (DeclaresBuild inp) (same ∙ ok-injective h2) (github-source_of inp whole w ref u, refl)

-- If `ProvenanceStatement` makes a statement for a valid manifest, encoding/json reads back the
-- provenance, and for a GitHub workflow the URI of the source is that of the repository at the
-- tag, which has no @, then `Subjects` of the statement is the manifest, and its provenance
-- declares the source and the command of the build.
pub provenance_statement-Declares :
    (codec : Codec) (m : Manifest) (inp : BuildInputs) {st : Statement}
    → ReadsBack codec inp
    → IsValid m
    → UriAgrees inp inp.github
    → provenance_statement codec m inp ≡ ok st
    → Declares codec m inp st
unfolding provenance_statement
provenance_statement-Declares codec m inp {st} back v agrees h =
    let (whole, h1) = reject_if-eq-ok (incomplete inp.source) missing_source _ h in
    let (_, h2) =
      reject_if-eq-ok (is_empty inp.builder && is_none inp.github) missing_builder _ h1 in
    let (_, h3) = reject_if-eq-ok (is_empty m) empty_manifest _ h2 in
    let (p, e, h4) = >>=-ok (predicate_of inp inp.github) _ h3 in
    let (source, command) = predicate_of-declares inp inp.github agrees whole e in
    subst (Declares codec m inp) (ok-injective h4) (record {
      subjects_back = unfold subjects in add_subjects-map m [] v.sorted v.entries_ok;
      predicate = p;
      reads = unfold provenance_predicate in rw (back p e) refl;
      source_back = source;
      command_back = command;
    })
