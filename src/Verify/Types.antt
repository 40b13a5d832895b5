-- ===== src/Verify/Types.antt =====
-- internal/verify/verify.go: options, reports and errors, and what surrounds the program.
use release_me.Prelude.{ℕ, Bool, Option, List, Bytes, codes, Result}
use release_me.Host.{HostError, Asset}
use release_me.Manifest.{ManifestError, CheckError, DiffError, DirEntry}
use release_me.Policy.{Policy, PolicyError}
use release_me.Sshsig.{Ssh}
use release_me.Signers.{SignerError}
use release_me.Signers.Time.{Zones}
use release_me.Signers.File.{FileError}
use release_me.Intoto.{Codec, IntotoError}
use release_me.Sigstore.{Sigstore, SigstoreError}

-- The names of the evidence assets behind the prefix.
abbrev pub provenance_name : Bytes
provenance_name = codes "provenance.intoto.json"

abbrev pub bundle_name : Bytes
bundle_name = codes "provenance.sigstore.json"

abbrev pub signature_suffix : Bytes
signature_suffix = codes ".sig"

abbrev pub sshsig_namespace : Bytes
sshsig_namespace = codes "release"

-- `Options`, but the token and the log, and with the directory's name in the environment.
pub record Options : Type 0 where
  pub policy : Option Policy
  pub tag : Bytes
  pub reproduce : Bool
  pub repo_dir : Bytes
  pub cache_dir : Bytes
  pub api_url : Bytes
  pub now : ℕ

pub record AssetReport : Type 0 where
  pub name : Bytes
  pub sha256 : Bytes
  pub size : ℕ

pub record SshsigReport : Type 0 where
  pub principal : Bytes
  pub fingerprint : Bytes
  pub provenance_signed : Bool

pub record SigstoreReport : Type 0 where
  pub identity : Bytes
  pub issuer : Bytes
  pub timestamps : List ℕ

pub record ProvenanceReport : Type 0 where
  pub source_uri : Bytes
  pub commit : Bytes
  pub builder : Bytes
  pub build_type : Bytes
  pub command : Bytes

-- `Report`, but the texts of `Checks`.
pub record Report : Type 0 where
  pub repository : Bytes
  pub tag : Bytes
  pub release : Bytes
  pub assets : List AssetReport
  pub manifest : Bytes
  pub sshsig : Option SshsigReport
  pub sigstore : Option SigstoreReport
  pub provenance : Option ProvenanceReport
  pub reproduced : Bool

-- What `Run` reads of a release.
pub record PublishedRelease : Type 0 where
  pub draft : Bool
  pub html_url : Bytes
  pub assets : List Asset

-- The host that `hostClient` makes: the API's address, the server, owner and repository.
pub data HostClient : Type 0 where
  github : Bytes → Bytes → Bytes → Bytes → HostClient
  forgejo : Bytes → Bytes → Bytes → HostClient

pub data VerifyError : Type 0 where
  no_policy : VerifyError
  bad_policy : List PolicyError → VerifyError
  unknown_host : VerifyError
  no_release : HostError → VerifyError
  is_draft : VerifyError
  no_directory : VerifyError
  unsafe_name : Bytes → VerifyError
  listed_twice : Bytes → VerifyError
  no_asset : Bytes → VerifyError
  not_downloaded : Bytes → VerifyError
  bad_manifest : ManifestError → VerifyError
  not_matching : List CheckError → VerifyError
  other_digest : Bytes → VerifyError
  no_section : VerifyError
  no_signers : VerifyError
  bad_signers : FileError → VerifyError
  not_signed : Bytes → SignerError → VerifyError
  bad_statement : IntotoError → VerifyError
  no_trusted_root : VerifyError
  bad_bundle : SigstoreError → VerifyError
  other_statement : VerifyError
  other_subjects : List DiffError → VerifyError
  other_tag : Bytes → VerifyError
  other_source : Bytes → VerifyError
  unknown_build_type : Bytes → VerifyError
  no_reproduce_section : VerifyError
  no_tag : VerifyError
  other_commit : Bytes → VerifyError
  no_head : VerifyError
  other_head : Bytes → VerifyError
  not_clean : VerifyError
  build_failed : VerifyError
  no_rebuilt : ManifestError → VerifyError
  rebuilt_differs : List DiffError → VerifyError

-- What git and the shell answer in the checkout: the commit of a tag, `git rev-parse HEAD`,
-- `git status --porcelain`, whether a command succeeds, and then a directory with the digests in it.
pub record Checkout : Type 0 where
  pub commit : Bytes → Option Bytes
  pub head : Option Bytes
  pub status : Option Bytes
  pub build : Bytes → Bool
  pub entries : Bytes → Option (List DirEntry)
  pub hash_file : Bytes → Bytes → Option Bytes

-- What surrounds the program. A platform answers with a release, and with anything at each download,
-- which is numbered. `hash` is SHA-256 in lower-case hex.
pub record Env : Type 0 where
  pub find_release : HostClient → Bytes → Result HostError PublishedRelease
  pub download : HostClient → Bytes → ℕ → Bytes → Option Bytes
  pub directory_made : Bool
  pub hash : Bytes → Bytes
  pub policy_file : Bytes → Option Bytes
  pub ssh : Ssh
  pub zones : Zones
  pub clock : ℕ
  pub codec : Codec
  pub sigstore : Sigstore
  pub trusted_root : Bytes → Bytes → Option Bytes
  pub checkout : Bytes → Checkout

-- The number of downloads so far, and the files of the directory.
pub record State : Type 0 where
  pub downloads : ℕ
  pub files : Bytes → Option Bytes
