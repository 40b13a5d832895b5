-- ===== src/Intoto.antt =====
-- internal/intoto/intoto.go and github.go: in-toto statements with SLSA provenance. A JSON value is
-- `Json`; the text that encodes it, and Go's mapping of it to the two structs, are a parameter. `Github`
-- has the build type of GitHub Actions, `Build` the making of a statement.
pub mod Value
pub mod Github
pub mod Build
pub mod Declared
use release_me.Prelude.{
  ℕ, Bool, true, false, not, ◌||◌, Option, none, some, List, [], ◌∷◌, if◌then◌else◌, is_empty,
  Bytes, codes, bytes_eq, Result, ok, err, ◌>>=◌, ◌>>◌, reject_if,
}
use release_me.Manifest.{Entry, Manifest, ManifestError, add}
use release_me.Intoto.Value.{Json, Fields, as_text, as_object, as_object_or_none, field, in_map}

-- `StatementType`, `ProvenanceType`, `PayloadType`, `BuildType`
abbrev pub statement_type : Bytes
statement_type = codes "https://in-toto.io/Statement/v1"

abbrev pub provenance_type : Bytes
provenance_type = codes "https://slsa.dev/provenance/v1"

abbrev pub payload_type : Bytes
payload_type = codes "application/vnd.in-toto+json"

abbrev pub build_type : Bytes
build_type = codes "https://github.com/Quince-Pie/release-me/blob/main/docs/BUILD-TYPE.md#v1"

-- `GitHubBuildType`
abbrev pub github_build_type : Bytes
github_build_type = codes "https://actions.github.io/buildtypes/workflow/v1"

-- `ResourceDescriptor`, but the content, media type and annotations, which no code reads or sets.
pub record ResourceDescriptor : Type 0 where
  pub name : Bytes
  pub uri : Bytes
  pub digest : List (Bytes × Bytes)

-- `Statement`. The predicate is the JSON value that it is encoded as.
pub record Statement : Type 0 where
  pub kind : Bytes
  pub subject : List ResourceDescriptor
  pub predicate_type : Bytes
  pub predicate : Json

-- `Provenance` with its `BuildDefinition`, `RunDetails`, `Builder` and `BuildMetadata` in one.
pub record Provenance : Type 0 where
  pub build_type : Bytes
  pub external_parameters : Fields
  pub internal_parameters : Fields
  pub resolved_dependencies : List ResourceDescriptor
  pub builder_id : Bytes
  pub builder_version : List (Bytes × Bytes)
  pub invocation_id : Bytes
  pub started_on : Option ℕ
  pub finished_on : Option ℕ

-- `Source`
pub record Source : Type 0 where
  pub uri : Bytes
  pub commit : Bytes
  pub tag : Bytes

pub data IntotoError : Type 0 where
  not_json : IntotoError
  unexpected_type : Bytes → IntotoError
  no_subjects : IntotoError
  no_digest : Bytes → IntotoError
  subject_error : ManifestError → IntotoError
  not_provenance : Bytes → IntotoError
  bad_predicate : IntotoError
  no_source : IntotoError
  incomplete_source : IntotoError
  no_dependencies : IntotoError
  bad_dependency : Bytes → IntotoError
  uri_disagrees : Bytes → IntotoError
  tag_disagrees : Bytes → IntotoError
  ref_disagrees : Bytes → IntotoError
  missing_source : IntotoError
  missing_builder : IntotoError
  empty_manifest : IntotoError
  incomplete_workflow : IntotoError
  other_ref : Bytes → IntotoError

-- `encoding/json` on the two structs: a statement from a text, and a provenance predicate from and to
-- a JSON value.
pub record Codec : Type 0 where
  pub read_statement : Bytes → Option Statement
  pub read_provenance : Json → Option Provenance
  pub write_provenance : Provenance → Json

abbrev pub or_error : {A : Type 0} → IntotoError → Option A → Result IntotoError A
or_error e none = err e
or_error e (some x) = ok x

-- The entry "sha256" of a digest map, or the empty text.
abbrev pub sha256_of : ResourceDescriptor → Bytes
sha256_of d = in_map (codes "sha256") d.digest

pub check_digests : List ResourceDescriptor → Result IntotoError (Unit {0})
check_digests [] = ok tt
check_digests (d ∷ ds) = do reject_if (is_empty (sha256_of d)) (no_digest d.name); check_digests ds

-- `ParseStatement`
unfoldable pub parse_statement : Codec → Bytes → Result IntotoError Statement
unfolding check_digests
parse_statement codec text = do
  s ← or_error not_json (codec.read_statement text)
  reject_if (not (bytes_eq s.kind statement_type)) (unexpected_type s.kind)
  reject_if (is_empty s.subject) no_subjects
  check_digests s.subject
  ok s

-- `ParseStatementLoose`
unfoldable pub parse_statement_loose : Codec → Bytes → Result IntotoError Statement
parse_statement_loose codec text = do
  s ← or_error not_json (codec.read_statement text)
  reject_if (is_empty s.subject) no_subjects
  ok s

abbrev pub or_subject_error : Result ManifestError Manifest → Result IntotoError Manifest
or_subject_error (ok m) = ok m
or_subject_error (err e) = err (subject_error e)

-- The loop of `Subjects`.
pub add_subjects : List ResourceDescriptor → Manifest → Result IntotoError Manifest
add_subjects [] m = ok m
add_subjects (d ∷ ds) m = do m' ← or_subject_error (add m d.name (sha256_of d)); add_subjects ds m'

-- `Subjects`
unfoldable pub subjects : Statement → Result IntotoError Manifest
unfolding add_subjects
subjects s = add_subjects s.subject []

-- `ProvenancePredicate`
unfoldable pub provenance_predicate : Codec → Statement → Result IntotoError Provenance
provenance_predicate codec s = do
  reject_if (not (bytes_eq s.predicate_type provenance_type)) (not_provenance s.predicate_type)
  or_error bad_predicate (codec.read_provenance s.predicate)

-- The source that `externalParameters.source` spells.
abbrev pub source_from : Fields → Source
source_from src = record {
  uri = as_text (field (codes "uri") src);
  commit = as_text (field (codes "gitCommit") (as_object (field (codes "digest") src)));
  tag = as_text (field (codes "tag") src);
}

abbrev pub incomplete : Source → Bool
incomplete s = is_empty s.uri || is_empty s.commit || is_empty s.tag

-- `SourceOf` behind the test for GitHub's build type.
unfoldable pub declared_source : Provenance → Result IntotoError Source
declared_source p = do
  src ← or_error no_source (as_object_or_none (field (codes "source") p.external_parameters))
  let s = source_from src
  reject_if (incomplete s) incomplete_source
  ok s

-- `KnownBuildType`
abbrev pub known_build_type : Bytes → Bool
known_build_type t = bytes_eq t build_type || bytes_eq t github_build_type

-- `BuildCommand`
abbrev pub command_or : Fields → Option Json → Bytes
command_or parameters (some (Json.text c)) = c
command_or parameters _ =
    as_text (field (codes "buildCommand") (as_object (field (codes "release") parameters)))

abbrev pub build_command : Provenance → Bytes
build_command p =
    command_or p.external_parameters (field (codes "buildCommand") p.external_parameters)
