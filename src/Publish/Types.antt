-- ===== src/Publish/Types.antt =====
-- The types of internal/publish/publish.go, with one constructor for each error it returns.
use release_me.Prelude.{ℕ, Bool, Option, List, Bytes}
use release_me.Host.{HostError, Host, Event}

-- `LocalAsset`, with the bytes of the file at `Path` instead of the path: `none` where the file
-- cannot be opened.
pub record LocalAsset : Type 0 where
  pub name : Bytes
  pub content : Option Bytes
  pub size : ℕ
  pub sha256 : Bytes

-- `Options`; what the program reads of the directory `dir` is an argument of `run`.
pub record Options : Type 0 where
  pub tag : Bytes
  pub commit : Bytes
  pub dir : Bytes
  pub name : Bytes
  pub body : Bytes
  pub prerelease : Bool
  pub latest : Option Bool
  pub trust_server_digest : Bool
  pub rounds : ℕ

-- What the program takes from outside: the platform, SHA-256 in lower-case hex, and the order in
-- which Go ranges over the keys of a map, which is any.
pub record Env (W : Type 0) : Type 0 where
  pub host : Host W
  pub sha256 : Bytes → Bytes
  pub range_order : W → List Bytes → List Bytes

pub data Reason : Type 0 where
  wrong_state wrong_size wrong_digest wrong_bytes : Reason

-- The error of `check`: `errMismatch`, or a failure of the access.
pub data CheckError : Type 0 where
  mismatch : Reason → CheckError
  access : HostError → CheckError

pub data CompareError : Type 0 where
  missing : Bytes → CompareError
  several : Bytes → CompareError
  not_same : Bytes → CheckError → CompareError
  unexpected : Bytes → CompareError

pub data PublishError : Type 0 where
  options_missing : PublishError
  limits_unknown : HostError → PublishError
  too_many_assets : PublishError
  too_large : Bytes → PublishError
  no_tag : HostError → PublishError
  tag_moved : Bytes → PublishError
  already_published : PublishError
  lookup_failed : HostError → PublishError
  create_failed : HostError → PublishError
  host_failed : HostError → PublishError
  cannot_check : Bytes → HostError → PublishError
  upload_refused : Bytes → HostError → PublishError
  not_converged : PublishError
  final_check : List CompareError → PublishError
  listing_failed : HostError → PublishError
  reread_failed : HostError → PublishError
  other_release : ℕ → PublishError
  publish_failed : HostError → PublishError
  still_draft : PublishError
  not_ours : ℕ → PublishError
  published_differs : List CompareError → PublishError

-- The platform, `Options.verified`, the lists of `Result`, and the record of the calls.
pub record State (W : Type 0) : Type 0 where
  pub world : W
  pub verified : List (ℕ × Bytes)
  pub uploaded : List Bytes
  pub reused : List Bytes
  pub deleted : List Bytes
  pub log : List Event
