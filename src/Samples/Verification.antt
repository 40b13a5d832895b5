-- ===== src/Samples/Verification.antt =====
-- A run of the verification of a release, and instances of its theorems and of those about in-toto
-- statements.
use release_me.Prelude.{
  ℕ, zero, suc, ◌+◌, ◌%◌, ◌≡◌, refl, ap, true, false, Option, none, some, List, [], ◌∷◌, ◌++◌, map,
  arith, if◌then◌else◌, length, Bytes, codes, bytes_eq, cut_byte, split, index, fields, trim_space,
  trim_byte, raw_lines, drop_cr, ok, ok-injective,
}
use release_me.Host.{Asset}
use release_me.Manifest
use release_me.Manifest.{Entry, Manifest, add, lookup, place, diff, check, valid_name}
use release_me.Manifest.Valid.{IsValid}
use release_me.Policy.{Policy, validate, requires, evidence_prefix}
use release_me.Signers
use release_me.Signers.{accept_from, refusal, is_revoked, match_list, wildcard_match}
use release_me.Signers.File.{parse_allowed_signers, parse_revoked_keys}
use release_me.Sshsig
use release_me.Sshsig.{armor, dearmor}
use release_me.Sshsig.Base64.{encode, decode}
use release_me.Intoto.{
  Statement, Codec, parse_statement, subjects, provenance_predicate, declared_source,
  statement_type, provenance_type,
}
use release_me.Intoto.Value.{Json}
use release_me.Intoto.Github.{source_of}
use release_me.Intoto.Build.{
  BuildInputs, GithubWorkflow, generic_predicate, github_predicate, subject_of,
  provenance_statement, github_provenance, toolchain_deps, statement_of,
}
use release_me.Intoto.Declared.{ReadsBack, Declares, provenance_statement-Declares}
use release_me.Verify.Types.{Options, Report, PublishedRelease, Env, State}
use release_me.Verify.Exec.{pure, lift, ◌>>=◌, fail_if}
use release_me.Verify.Fetch.{
  asset_named, check_names, write_file, save, fetch, fetch_optional, fetch_all, check_files,
  check_platform, fetch_manifest,
}
use release_me.Verify.Evidence.{signed_statement, ssh_evidence, ssh_part, sigstore_part}
use release_me.Verify.Contents.{provenance_contents, reproduce_part}
use release_me.Verify.Run.{verify_assets, verify_release, run}
use release_me.Verify.Complete.{Complete, run-Complete}
use release_me.Samples.Keys.{lib, zones, armored}

abbrev repeated : ℕ → ℕ → Bytes
repeated zero c = []
repeated (suc n) c = c ∷ repeated n c

-- A digest that tells lengths apart.
abbrev hash : Bytes → Bytes
hash s = repeated 64 (b'0' + length s % 10)

abbrev manifest : Manifest
manifest = record { name = codes "tool.zip"; sha256 = hash (codes "tool") } ∷ []

abbrev manifest_text : Bytes
manifest_text = hash (codes "tool") ++ codes "  tool.zip\n"

abbrev inputs : BuildInputs
inputs = record {
  source = record {
    uri = codes "git+https://example.org/o/r@refs/tags/v1";
    commit = codes "c0";
    tag = codes "v1";
  };
  command = codes "make";
  toolchain = (codes "nix", codes "2") ∷ (codes "go", codes "1") ∷ [];
  builder = codes "me";
  platform = codes "local";
  invocation_id = [];
  started = 0;
  finished = 7;
  tool_version = codes "1.0";
  github = none;
}

abbrev codec : Codec
codec = record {
  read_statement = λ t.
      if bytes_eq t (codes "{}")
      then some (record {
        kind = statement_type;
        subject = map subject_of manifest;
        predicate_type = provenance_type;
        predicate = Json.null;
      })
      else none;
  read_provenance = λ v. some (generic_predicate inputs);
  write_provenance = λ p. Json.null;
}

abbrev policy : Policy
policy = record {
  version = 1;
  host = codes "forgejo";
  server = codes "https://example.org";
  repository = codes "o/r";
  manifest = [];
  prefix = codes "tool-{version}-";
  require = codes "sshsig" ∷ [];
  sshsig = some (record {
    allowed_signers = codes "me ssh-ed25519 key1\n";
    principal = codes "me";
    namespace = [];
    revoked_keys = [];
  });
  sigstore = none;
  source = codes "git+https://example.org/o/r";
  reproduce = none;
}

abbrev options : Options
options = record {
  policy = some policy;
  tag = codes "v1";
  reproduce = false;
  repo_dir = [];
  cache_dir = [];
  api_url = [];
  now = 5;
}

abbrev asset : Bytes → Bytes → Asset
asset name digest = record { id = 1; name = name; size = 4; digest = digest; state = [] }

-- The platform's files, each with its name.
abbrev stored : List (Bytes × Bytes)
stored =
    (codes "tool.zip", codes "tool")
    ∷ (codes "SHA256SUMS", manifest_text)
    ∷ (codes "SHA256SUMS.sig", armored manifest_text (codes "release"))
    ∷ (codes "tool-1-provenance.intoto.json", codes "{}")
    ∷ (codes "tool-1-provenance.intoto.json.sig", armored (codes "{}") (codes "release"))
    ∷ []

abbrev assets_of : List (Bytes × Bytes) → List Asset
assets_of [] = []
assets_of ((name, content) ∷ files) = asset name [] ∷ assets_of files

abbrev content_at : Bytes → List (Bytes × Bytes) → Option Bytes
content_at name [] = none
content_at name ((n, content) ∷ files) =
    if bytes_eq n name then some content else content_at name files

abbrev release : PublishedRelease
release = record { draft = false; html_url = codes "https://r"; assets = assets_of stored }

abbrev env : Env
env = record {
  find_release = λ client tag. ok release;
  download = λ client tag n name. content_at name stored;
  directory_made = true;
  hash = hash;
  policy_file = λ v. none;
  ssh = lib;
  zones = zones;
  clock = 9;
  codec = codec;
  sigstore = record {
    read_bundle = λ s. none;
    has_verifier = λ t o. true;
    has_identity = λ i. true;
    verify_bundle = λ t o i d b. none;
  };
  trusted_root = λ path cache. none;
  checkout = λ dir. record {
    commit = λ t. none;
    head = none;
    status = none;
    build = λ c. false;
    entries = λ d. some [];
    hash_file = λ d n. none;
  };
}

abbrev start : State
start = record { downloads = 0; files = λ n. none }

abbrev finish : State
finish = record {
  downloads = 5;
  files =
      write_file (codes "tool-1-provenance.intoto.json.sig")
        (armored (codes "{}") (codes "release"))
        (write_file (codes "tool-1-provenance.intoto.json") (codes "{}") (
          write_file (codes "SHA256SUMS.sig") (armored manifest_text (codes "release")) (
            write_file (codes "tool.zip") (codes "tool")
              (write_file (codes "SHA256SUMS") manifest_text (λ n. none)))));
}

abbrev report : Report
report = record {
  repository = codes "o/r";
  tag = codes "v1";
  release = codes "https://r";
  assets = record { name = codes "tool.zip"; sha256 = hash (codes "tool"); size = 4 } ∷ [];
  manifest = hash manifest_text;
  sshsig =
      some
        (record { principal = codes "me"; fingerprint = codes "key1"; provenance_signed = true });
  sigstore = none;
  provenance = some (record {
    source_uri = inputs.source.uri;
    commit = codes "c0";
    builder = codes "me";
    build_type = (generic_predicate inputs).build_type;
    command = codes "make";
  });
  reproduced = false;
}

runs : run env options start ≡ ok (report, finish)
unfolding run verify_release verify_assets fetch_manifest fetch save fetch_optional fetch_all
    check_files asset_named check_names check_platform ssh_part ssh_evidence signed_statement
    sigstore_part provenance_contents reproduce_part pure lift ◌>>=◌ fail_if Manifest.parse add
    lookup place diff check valid_name validate requires evidence_prefix accept_from refusal
    is_revoked match_list wildcard_match parse_allowed_signers parse_revoked_keys Signers.verify
    Sshsig.verify Sshsig.parse armor dearmor encode decode parse_statement subjects
    provenance_predicate declared_source source_of cut_byte split index fields trim_space trim_byte
    raw_lines drop_cr
runs = refl

run-Complete_example : Complete env options report start finish
run-Complete_example = run-Complete env options start finish {report = report} runs

abbrev workflow : GithubWorkflow
workflow = record {
  server_url = codes "https://github.com/";
  repository = codes "o/r";
  ref = codes "refs/tags/v1";
  workflow_path = codes ".github/workflows/release.yml";
  workflow_ref = codes "o/r/.github/workflows/release.yml@refs/tags/v1";
  event_name = codes "push";
  repository_id = codes "1";
  repository_owner_id = codes "2";
  runner_environment = codes "github-hosted";
  run_id = codes "3";
  run_attempt = codes "1";
}

abbrev github_inputs : BuildInputs
github_inputs = record inputs {
  source = record {
    uri = codes "git+https://github.com/o/r@refs/tags/v1";
    commit = codes "c0";
    tag = codes "v1";
  };
  builder = [];
  github = some workflow;
}

abbrev github_codec : Codec
github_codec = record codec {
  read_provenance = λ v. some (github_predicate github_inputs workflow);
}

abbrev statement : Statement
statement = statement_of github_codec manifest (github_predicate github_inputs workflow)

stated : provenance_statement github_codec manifest github_inputs ≡ ok statement
unfolding provenance_statement github_provenance toolchain_deps
stated = refl

manifest-IsValid : IsValid manifest
manifest-IsValid = record {
  sorted = (tt, tt);
  entries_ok =
      (record { name_ok = unfold valid_name in refl; digest_size = refl; digest_hex = refl }, tt);
}

read_back : ReadsBack github_codec github_inputs
unfolding github_provenance
read_back p e = ap some (ok-injective e)

provenance_statement-Declares_example : Declares github_codec manifest github_inputs statement
provenance_statement-Declares_example =
    provenance_statement-Declares github_codec manifest github_inputs {st = statement} read_back
      manifest-IsValid (refl, omega arith) stated
