-- ===== src/Intoto/Github.antt =====
-- internal/intoto/github.go: the source of a provenance in the build type of GitHub Actions, and
-- `SourceOf` of intoto.go.
use release_me.Prelude.{
  ℕ, suc, ◌+◌, Bool, not, ◌&&◌, ◌||◌, Option, none, some, List, [], ◌∷◌, ◌++◌, if◌then◌else◌,
  is_empty, length, drop, Bytes, codes, bytes_eq, has_prefix, Result, ok, err, ◌>>◌, reject_if,
}
use release_me.Intoto.{
  ResourceDescriptor, Provenance, Source, IntotoError, no_dependencies, bad_dependency,
  uri_disagrees, tag_disagrees, ref_disagrees, github_build_type, declared_source,
}
use release_me.Intoto.Value.{Fields, field, as_text, as_object, as_object_or_none, in_map}

-- `strings.LastIndex`; `none` is -1.
abbrev later : Bool → Option ℕ → Option ℕ
later at_start (some i) = some (suc i)
later at_start none = if at_start then some 0 else none

unfoldable pub last_index : Bytes → Bytes → Option ℕ
last_index [] sub = if has_prefix [] sub then some 0 else none
last_index (c ∷ s) sub = later (has_prefix (c ∷ s) sub) (last_index s sub)

abbrev pub tags_marker : Bytes
tags_marker = codes "@refs/tags/"

abbrev pub refs_tags : Bytes
refs_tags = codes "refs/tags/"

-- A text that is given and is another one.
abbrev pub disagrees : Bytes → Bytes → Bool
disagrees given have = not (is_empty given) && not (bytes_eq given have)

-- The parameters of the release, where they are there, must agree.
unfoldable pub check_release : Fields → Source → Result IntotoError (Unit {0})
check_release src s = do
  reject_if (disagrees (as_text (field (codes "uri") src)) s.uri) (uri_disagrees s.uri)
  reject_if (disagrees (as_text (field (codes "tag") src)) s.tag) (tag_disagrees s.tag)

abbrev pub check_workflow : Option Fields → Source → Result IntotoError (Unit {0})
check_workflow none s = ok tt
check_workflow (some wf) s =
    reject_if (not (bytes_eq (as_text (field (codes "ref") wf)) (refs_tags ++ s.tag)))
      (ref_disagrees s.tag)

abbrev pub check_parameters : Fields → Source → Result IntotoError Source
check_parameters ext s = do
  check_release (as_object (field (codes "source") (as_object (field (codes "release") ext)))) s
  check_workflow (as_object_or_none (field (codes "workflow") ext)) s
  ok s

abbrev pub source_at : Fields → Bytes → Bytes → Option ℕ → Result IntotoError Source
source_at ext uri commit none = err (bad_dependency uri)
source_at ext uri commit (some i) =
    if not (has_prefix uri (codes "git+")) || is_empty commit
    then err (bad_dependency uri)
    else check_parameters ext
        (record { uri = uri; commit = commit; tag = drop (i + length tags_marker) uri })

-- `sourceFromGitHub`
abbrev pub github_source : Fields → List ResourceDescriptor → Result IntotoError Source
github_source ext [] = err no_dependencies
github_source ext (d ∷ ds) =
    source_at ext d.uri (in_map (codes "gitCommit") d.digest) (last_index d.uri tags_marker)

-- `SourceOf`
unfoldable pub source_of : Provenance → Result IntotoError Source
source_of p =
    if bytes_eq p.build_type github_build_type
    then github_source p.external_parameters p.resolved_dependencies
    else declared_source p
