-- ===== src/Verify/Contents.antt =====
-- internal/verify/verify.go: the contents of the provenance, and the independent rebuild.
use release_me.Prelude.{
  Bool, true, false, not, ◌&&◌, Option, none, some, ◌++◌, if◌then◌else◌, is_empty, Bytes, codes,
  bytes_eq, trim_space, err,
}
use release_me.Manifest.{Manifest, diff, from_dir}
use release_me.Policy.{Policy, ReproducePolicy}
use release_me.Intoto.{
  Statement, Provenance, Source, subjects, provenance_predicate, known_build_type, build_command,
}
use release_me.Intoto.Github.{source_of}
use release_me.Verify.Types.{
  Options, ProvenanceReport, bad_statement, other_subjects, other_tag, other_source,
  unknown_build_type, no_reproduce_section, no_tag, other_commit, no_head, other_head, not_clean,
  build_failed, no_rebuilt, rebuilt_differs, Checkout, Env,
}
use release_me.Verify.Exec.{Exec, pure, lift, ◌>>=◌, ◌>>◌, fail_if, some_or, wrap}

-- `p.Source + "@refs/tags/" + o.Tag`
abbrev pub expected_source : Policy → Bytes → Bytes
expected_source p tag = p.source ++ (codes "@refs/tags/" ++ tag)

abbrev pub provenance_report : Source → Provenance → ProvenanceReport
provenance_report src pred = record {
  source_uri = src.uri;
  commit = src.commit;
  builder = pred.builder_id;
  build_type = pred.build_type;
  command = build_command pred;
}

module _ (env : Env) (o : Options) (p : Policy) (m : Manifest) where
  unfoldable pub provenance_contents : Statement → Exec ProvenanceReport
  provenance_contents st = do
    found ← lift (wrap bad_statement (subjects st))
    fail_if (not (is_empty (diff m found))) (other_subjects (diff m found))
    pred ← lift (wrap bad_statement (provenance_predicate env.codec st))
    src ← lift (wrap bad_statement (source_of pred))
    fail_if (not (bytes_eq src.tag o.tag)) (other_tag src.tag)
    fail_if (not (is_empty p.source) && not (bytes_eq src.uri (expected_source p o.tag)))
        (other_source src.uri)
    fail_if (not (known_build_type pred.build_type)) (unknown_build_type pred.build_type)
    pure (provenance_report src pred)

  -- The fourth part of `Run`.
  abbrev pub provenance_part : Option (Statement × Bytes) → Exec (Option ProvenanceReport)
  provenance_part none = pure none
  provenance_part (some (st, text)) = provenance_contents st >>= λ r. pure (some r)

  -- `repoDir`
  abbrev pub directory_of : Bytes → Bytes
  directory_of dir = if is_empty dir then codes "." else dir

  abbrev pub says_other : Option ProvenanceReport → Bytes → Bool
  says_other none head = false
  says_other (some r) head = not (bytes_eq r.commit head)

  -- `err != nil || len(bytes.TrimSpace(out)) != 0`
  abbrev pub is_dirty : Option Bytes → Bool
  is_dirty none = true
  is_dirty (some out) = not (is_empty (trim_space out))

  -- `reproduce`
  unfoldable pub rebuild : Checkout → ReproducePolicy → Option ProvenanceReport → Exec (Unit {0})
  rebuild repo r prov = do
    head ← lift (some_or no_tag (repo.commit o.tag))
    fail_if (says_other prov head) (other_commit head)
    out ← lift (some_or no_head repo.head)
    fail_if (not (bytes_eq (trim_space out) head)) (other_head (trim_space out))
    fail_if (is_dirty repo.status) not_clean
    fail_if (not (repo.build r.command)) build_failed
    rebuilt ← lift (wrap no_rebuilt (from_dir (repo.hash_file r.dir) (repo.entries r.dir)))
    fail_if (not (is_empty (diff m rebuilt))) (rebuilt_differs (diff m rebuilt))
    pure tt

  abbrev pub with_reproduce_section :
      Option ReproducePolicy → Option ProvenanceReport → Exec (Unit {0})
  with_reproduce_section none prov = lift (err no_reproduce_section)
  with_reproduce_section (some r) prov = rebuild (env.checkout (directory_of o.repo_dir)) r prov

  abbrev pub rebuild_if : Bool → Option ProvenanceReport → Exec (Unit {0})
  rebuild_if true prov = with_reproduce_section p.reproduce prov
  rebuild_if false prov = pure tt

  -- The fifth part of `Run`.
  unfoldable pub reproduce_part : Option ProvenanceReport → Exec (Unit {0})
  reproduce_part prov = rebuild_if o.reproduce prov
