-- ===== src/Samples/Platform.antt =====
-- A small platform with at most one release, whose digest of bytes is the bytes themselves.
use release_me.Prelude.{
  ℕ, suc, true, false, Option, none, some, List, [], ◌∷◌, ◌++◌, ◌==◌, if◌then◌else◌, Bytes, codes,
  Result, ok, err,
}
use release_me.Host.{HostError, not_found, Release, Asset, CreateParams, Stream, Host}
use release_me.Publish.Types.{LocalAsset, Options, Env, State}

-- A stored asset and its bytes.
pub record Stored : Type 0 where
  pub asset : Asset
  pub bytes : Bytes

pub record Shop : Type 0 where
  pub release : Option Release
  pub stored : List Stored
  pub next : ℕ

abbrev release_or : Option Release → Result HostError Release
release_or none = err not_found
release_or (some r) = ok r

abbrev release_list : Option Release → List Release
release_list none = []
release_list (some r) = r ∷ []

abbrev pub assets_of : List Stored → List Asset
assets_of [] = []
assets_of (s ∷ ss) = s.asset ∷ assets_of ss

abbrev without : ℕ → List Stored → List Stored
without id [] = []
without id (s ∷ ss) = let rest = without id ss in if s.asset.id == id then rest else s ∷ rest

abbrev bytes_of : ℕ → List Stored → Result HostError Stream
bytes_of id [] = err not_found
bytes_of id (s ∷ ss) =
    let rest = bytes_of id ss in
    if s.asset.id == id then ok (record { content = s.bytes; broken = false }) else rest

abbrev new_release : CreateParams → Release
new_release p = record { id = 1; tag = p.tag; draft = true; prerelease = p.prerelease }

abbrev pub new_asset : ℕ → Bytes → ℕ → Asset
new_asset id name size = record { id = id; name = name; size = size; digest = []; state = [] }

abbrev pub shop : Host Shop
shop = record {
  limits = λ w. (ok (record { max_asset_size = 100; max_assets = 10 }), w);
  tag_commit = λ tag w. (ok (codes "c0"), w);
  find_release = λ tag w. (release_or w.release, w);
  list_releases = λ w. (ok (release_list w.release), w);
  create_draft = λ p w. (ok (new_release p), record w { release = some (new_release p) });
  assets = λ rel w. (ok (assets_of w.stored), w);
  upload = λ rel name size content w. (
    ok (new_asset w.next name size),
    record w {
      stored = w.stored ++ (record { asset = new_asset w.next name size; bytes = content } ∷ []);
      next = suc w.next;
    },
  );
  delete_asset = λ rel a w. (ok tt, record w { stored = without a.id w.stored });
  open_asset = λ rel a w. (bytes_of a.id w.stored, w);
  publish = λ rel latest w. (
    ok (record rel { draft = false }),
    record w { release = some (record rel { draft = false }) },
  );
  delete_release = λ rel w. (ok tt, record w { release = none });
}

abbrev pub shop_env : Env Shop
shop_env = record { host = shop; sha256 = λ s. s; range_order = λ w names. names }

abbrev pub options : Options
options = record {
  tag = codes "v1.2.0";
  commit = codes "c0";
  dir = codes "dist";
  name = [];
  body = codes "notes";
  prerelease = false;
  latest = none;
  trust_server_digest = false;
  rounds = 0;
}

abbrev pub local_file : Bytes → Bytes → ℕ → LocalAsset
local_file name content size = record {
  name = name;
  content = some content;
  size = size;
  sha256 = content;
}

abbrev pub files : List LocalAsset
files =
    local_file (codes "a.txt") (codes "one") 3 ∷ local_file (codes "b.txt") (codes "two2") 4 ∷ []

abbrev pub start_in : Shop → State Shop
start_in w = record { world = w; verified = []; uploaded = []; reused = []; deleted = []; log = [] }

abbrev pub draft : Release
draft = record { id = 1; tag = codes "v1.2.0"; draft = true; prerelease = false }

abbrev pub public_release : Release
public_release = record draft { draft = false }

abbrev stored_one : ℕ → Bytes → Bytes → ℕ → Stored
stored_one id name content size = record { asset = new_asset id name size; bytes = content }

abbrev pub filled : List Stored
filled =
    stored_one 1 (codes "a.txt") (codes "one") 3
    ∷ stored_one 2 (codes "b.txt") (codes "two2") 4
    ∷ []

-- No release, a draft with a foreign asset and a file that has other bytes, and a published release.
abbrev pub fresh : State Shop
fresh = start_in (record { release = none; stored = []; next = 1 })

abbrev pub leftover : State Shop
leftover = start_in (record {
  release = some draft;
  stored =
      stored_one 1 (codes "old.txt") (codes "x") 1
      ∷ stored_one 2 (codes "a.txt") (codes "bad") 3
      ∷ [];
  next = 3;
})

abbrev pub released : State Shop
released = start_in (record { release = some public_release; stored = filled; next = 3 })

-- The platform has published an older version only.
abbrev pub older : State Shop
older = start_in (record {
  release = some (record { id = 9; tag = codes "v1.1.7"; draft = false; prerelease = false });
  stored = [];
  next = 1;
})
