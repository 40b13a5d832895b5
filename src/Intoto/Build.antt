-- ===== src/Intoto/Build.antt =====
-- internal/intoto/intoto.go and github.go: the making of a provenance statement, `ProvenanceStatement`
-- and `gitHubProvenance`.
use release_me.Prelude.{
  ℕ, Bool, true, false, not, ◌&&◌, ◌||◌, Option, none, some, List, [], ◌∷◌, ◌++◌, map, ◌==◌,
  if◌then◌else◌, is_empty, Bytes, codes, bytes_eq, bytes_compare, is_lt, trim_right, Result, ok,
  ◌>>=◌, ◌>>◌, reject_if,
}
use release_me.Manifest.{Entry, Manifest}
use release_me.Intoto.{
  ResourceDescriptor, Statement, Provenance, Source, Codec, IntotoError, missing_source,
  missing_builder, empty_manifest, incomplete_workflow, other_ref, statement_type, provenance_type,
  build_type, github_build_type, incomplete,
}
use release_me.Intoto.Value.{Json, Fields, entry, end, in_map}
use release_me.Intoto.Github.{refs_tags}

-- `GitHubWorkflow`
pub record GithubWorkflow : Type 0 where
  pub server_url : Bytes
  pub repository : Bytes
  pub ref : Bytes
  pub workflow_path : Bytes
  pub workflow_ref : Bytes
  pub event_name : Bytes
  pub repository_id : Bytes
  pub repository_owner_id : Bytes
  pub runner_environment : Bytes
  pub run_id : Bytes
  pub run_attempt : Bytes

-- `BuildInputs`; a time of 0 is the zero time.
pub record BuildInputs : Type 0 where
  pub source : Source
  pub command : Bytes
  pub toolchain : List (Bytes × Bytes)
  pub builder : Bytes
  pub platform : Bytes
  pub invocation_id : Bytes
  pub started : ℕ
  pub finished : ℕ
  pub tool_version : Bytes
  pub github : Option GithubWorkflow

-- `sort.Strings`
abbrev pub insert_key : Bytes → List Bytes → List Bytes
insert_key k [] = k ∷ []
insert_key k (j ∷ ks) = if is_lt (bytes_compare j k) then j ∷ insert_key k ks else k ∷ j ∷ ks

pub sort_keys : List Bytes → List Bytes
sort_keys [] = []
sort_keys (k ∷ ks) = insert_key k (sort_keys ks)

abbrev pub keys : List (Bytes × Bytes) → List Bytes
keys [] = []
keys ((k, v) ∷ m) = k ∷ keys m

abbrev pub pin : List (Bytes × Bytes) → Bytes → ResourceDescriptor
pin m k = record { name = k; uri = in_map k m; digest = [] }

-- `toolchainDeps`
unfoldable pub toolchain_deps : BuildInputs → List ResourceDescriptor
unfolding sort_keys
toolchain_deps inp = map (pin inp.toolchain) (sort_keys (keys inp.toolchain))

abbrev pub git_commit : Bytes → List (Bytes × Bytes)
git_commit c = (codes "gitCommit", c) ∷ []

-- The map "source" of both build types.
abbrev pub source_parameters : Source → Json
source_parameters s = Json.object (
    entry (codes "uri") (Json.text s.uri) (
      entry (codes "digest") (Json.object (entry (codes "gitCommit") (Json.text s.commit) end))
        (entry (codes "tag") (Json.text s.tag) end)))

-- `releaseParameters`
abbrev pub release_parameters : BuildInputs → Fields
release_parameters inp =
    entry (codes "source") (source_parameters inp.source)
      (entry (codes "buildCommand") (Json.text inp.command) end)

abbrev is_slash : ℕ → Bool
is_slash c = c == b'/'

abbrev pub without_slash : Bytes → Bytes
without_slash s = trim_right is_slash s

abbrev pub repo_url : GithubWorkflow → Bytes
repo_url w = without_slash w.server_url ++ (b'/' ∷ w.repository)

abbrev pub builder_of : BuildInputs → GithubWorkflow → Bytes
builder_of inp w =
    if is_empty inp.builder && not (is_empty w.workflow_ref)
    then without_slash w.server_url ++ (b'/' ∷ w.workflow_ref)
    else inp.builder

abbrev pub invocation_of : BuildInputs → GithubWorkflow → Bytes
invocation_of inp w =
    if is_empty inp.invocation_id && not (is_empty w.run_id)
    then repo_url w
      ++ (codes "/actions/runs/" ++ (w.run_id ++ (codes "/attempts/" ++ w.run_attempt)))
    else inp.invocation_id

abbrev pub text_fields : List (Bytes × Bytes) → Fields
text_fields [] = end
text_fields ((k, v) ∷ m) = entry k (Json.text v) (text_fields m)

abbrev pub tool : BuildInputs → List (Bytes × Bytes)
tool inp = (codes "release-me", inp.tool_version) ∷ []

abbrev pub github_predicate : BuildInputs → GithubWorkflow → Provenance
github_predicate inp w = record {
  build_type = github_build_type;
  external_parameters =
      entry (codes "workflow")
        (Json.object (
          text_fields (
            (codes "ref", w.ref)
            ∷ (codes "repository", repo_url w)
            ∷ (codes "path", w.workflow_path)
            ∷ [])))
        (entry (codes "release") (Json.object (release_parameters inp)) end);
  internal_parameters =
      entry (codes "github")
        (Json.object (
          text_fields (
            (codes "event_name", w.event_name)
            ∷ (codes "repository_id", w.repository_id)
            ∷ (codes "repository_owner_id", w.repository_owner_id)
            ∷ (codes "runner_environment", w.runner_environment)
            ∷ [])))
        end;
  resolved_dependencies =
      record {
        name = [];
        uri = codes "git+" ++ (repo_url w ++ (b'@' ∷ w.ref));
        digest = git_commit inp.source.commit;
      }
      ∷ toolchain_deps inp;
  builder_id = builder_of inp w;
  builder_version = tool inp;
  invocation_id = invocation_of inp w;
  started_on = none;
  finished_on = none;
}

-- `gitHubProvenance`
unfoldable pub github_provenance : BuildInputs → GithubWorkflow → Result IntotoError Provenance
github_provenance inp w = do
  reject_if
      (is_empty w.server_url || is_empty w.repository || is_empty w.ref || is_empty w.workflow_path)
      incomplete_workflow
  reject_if (not (bytes_eq w.ref (refs_tags ++ inp.source.tag))) (other_ref w.ref)
  ok (github_predicate inp w)

-- A time that is not zero.
abbrev pub given : ℕ → Option ℕ
given t = if t == 0 then none else some t

abbrev pub generic_predicate : BuildInputs → Provenance
generic_predicate inp = record {
  build_type = build_type;
  external_parameters =
      entry (codes "source") (source_parameters inp.source)
        (entry (codes "buildCommand") (Json.text inp.command) end);
  internal_parameters = text_fields ((codes "platform", inp.platform) ∷ []);
  resolved_dependencies =
      record { name = []; uri = inp.source.uri; digest = git_commit inp.source.commit }
      ∷ toolchain_deps inp;
  builder_id = inp.builder;
  builder_version = tool inp;
  invocation_id = inp.invocation_id;
  started_on = given inp.started;
  finished_on = given inp.finished;
}

abbrev pub subject_of : Entry → ResourceDescriptor
subject_of e = record { name = e.name; uri = []; digest = (codes "sha256", e.sha256) ∷ [] }

abbrev pub is_none : Option GithubWorkflow → Bool
is_none none = true
is_none (some w) = false

abbrev pub predicate_of : BuildInputs → Option GithubWorkflow → Result IntotoError Provenance
predicate_of inp none = ok (generic_predicate inp)
predicate_of inp (some w) = do
  p ← github_provenance inp w
  reject_if (is_empty p.builder_id) missing_builder
  ok p

abbrev pub statement_of : Codec → Manifest → Provenance → Statement
statement_of codec m p = record {
  kind = statement_type;
  subject = map subject_of m;
  predicate_type = provenance_type;
  predicate = codec.write_provenance p;
}

-- `ProvenanceStatement`
unfoldable pub provenance_statement : Codec → Manifest → BuildInputs → Result IntotoError Statement
provenance_statement codec m inp = do
  reject_if (incomplete inp.source) missing_source
  reject_if (is_empty inp.builder && is_none inp.github) missing_builder
  reject_if (is_empty m) empty_manifest
  p ← predicate_of inp inp.github
  ok (statement_of codec m p)
