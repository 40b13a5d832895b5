-- ===== src/Host.antt =====
-- internal/host/host.go: the release API of a platform as the publish algorithm uses it, and
-- internal/host/client.go: what an error says of the answer. A platform is a parameter: its
-- operations move a state of any type, and may answer anything.
use release_me.Prelude.{ℕ, Bool, true, false, ◌||◌, List, Bytes, codes, has_suffix, Result, ◌==◌}

-- An error: `ErrNotFound`, an `APIError` with its status and text, another failure of a request with its
-- text, or a failure on this side (a file, a broken download, a digest).
pub data HostError : Type 0 where
  not_found : HostError
  status : ℕ → Bytes → HostError
  other : Bytes → HostError
  local_failure : HostError

-- `IsNotFound`: any error whose text ends as that of `ErrNotFound` does.
abbrev pub is_not_found : HostError → Bool
is_not_found not_found = true
is_not_found (status _ text) = has_suffix text (codes "not found")
is_not_found (other text) = has_suffix text (codes "not found")
is_not_found local_failure = false

-- `IsStatus`
abbrev pub is_status : HostError → ℕ → Bool
is_status (status s _) n = s == n
is_status _ n = false

-- The fields that the publish algorithm reads.
pub record Release : Type 0 where
  pub id : ℕ
  pub tag : Bytes
  pub draft : Bool
  pub prerelease : Bool

-- `digest` and `state` are empty where the platform has none.
pub record Asset : Type 0 where
  pub id : ℕ
  pub name : Bytes
  pub size : ℕ
  pub digest : Bytes
  pub state : Bytes

-- 0 is unlimited.
pub record Limits : Type 0 where
  pub max_asset_size : ℕ
  pub max_assets : ℕ

pub record CreateParams : Type 0 where
  pub tag : Bytes
  pub name : Bytes
  pub body : Bytes
  pub prerelease : Bool
  pub commit : Bytes

-- A download: the bytes that come, and whether the connection breaks behind them.
pub record Stream : Type 0 where
  pub content : Bytes
  pub broken : Bool

-- The interface `Host`.
pub record Host (W : Type 0) : Type 0 where
  pub limits : W → Result HostError Limits × W
  pub tag_commit : Bytes → W → Result HostError Bytes × W
  pub find_release : Bytes → W → Result HostError Release × W
  pub list_releases : W → Result HostError (List Release) × W
  pub create_draft : CreateParams → W → Result HostError Release × W
  pub assets : Release → W → Result HostError (List Asset) × W
  pub upload : Release → Bytes → ℕ → Bytes → W → Result HostError Asset × W
  pub delete_asset : Release → Asset → W → Result HostError (Unit {0}) × W
  pub open_asset : Release → Asset → W → Result HostError Stream × W
  pub publish : Release → Bool → W → Result HostError Release × W
  pub delete_release : Release → W → Result HostError (Unit {0}) × W

-- A call of the platform with its answer, for the record that a run keeps.
pub data Event : Type 0 where
  limits_read : Result HostError Limits → Event
  tag_read : Bytes → Result HostError Bytes → Event
  release_found : Bytes → Result HostError Release → Event
  releases_listed : Result HostError (List Release) → Event
  draft_created : CreateParams → Result HostError Release → Event
  assets_listed : Release → Result HostError (List Asset) → Event
  asset_uploaded : Release → Bytes → Result HostError Asset → Event
  asset_deleted : Release → Asset → Result HostError (Unit {0}) → Event
  asset_opened : Release → Asset → Result HostError Stream → Event
  published : Release → Bool → Result HostError Release → Event
  release_deleted : Release → Result HostError (Unit {0}) → Event

-- The calls that may change the platform's state.
abbrev pub is_write : Event → Bool
is_write (draft_created _ _) = true
is_write (asset_uploaded _ _ _) = true
is_write (asset_deleted _ _ _) = true
is_write (published _ _ _) = true
is_write (release_deleted _ _) = true
is_write _ = false

abbrev pub is_listing : Event → Bool
is_listing (assets_listed _ _) = true
is_listing _ = false

-- The calls behind which a listing of assets is no longer the last word.
abbrev pub unsettles : Event → Bool
unsettles e = is_write e || is_listing e

abbrev pub is_publish : Event → Bool
is_publish (published _ _ _) = true
is_publish _ = false
