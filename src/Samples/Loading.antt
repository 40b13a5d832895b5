-- ===== src/Samples/Loading.antt =====
-- A directory with a manifest, loaded for publication.
use release_me.Prelude.{
  ◌≡◌, refl, true, false, Option, none, some, List, [], ◌∷◌, ◌++◌, if◌then◌else◌, Bytes, codes,
  bytes_eq, raw_lines, drop_cr, index, ok,
}
use release_me.Manifest
use release_me.Manifest.{valid_name, lookup, add, place}
use release_me.Publish.Types.{LocalAsset}
use release_me.Publish.Load.{
  Directory, load_file, load_files, load_assets, insert_by_name, sort_by_name,
}
use release_me.Publish.Loaded.{LoadedFrom, load_assets-LoadedFrom}

-- The digest of some bytes and another one, of 64 hex digits each.
abbrev sum_one : Bytes
sum_one = codes "00112233445566778899aabbccddeeff00112233445566778899aabbccddeeff"

abbrev sum_other : Bytes
sum_other = codes "ff112233445566778899aabbccddeeff00112233445566778899aabbccddee00"

abbrev sha256 : Bytes → Bytes
sha256 s = if bytes_eq s (codes "one") then sum_one else sum_other

abbrev manifest_text : Bytes
manifest_text = sum_one ++ codes "  a.txt\n"

abbrev read_file : Bytes → Option Bytes
read_file name =
    if bytes_eq name (codes "a.txt")
    then some (codes "one")
    else if bytes_eq name (codes "SHA256SUMS")
    then some manifest_text
    else none

abbrev dist : Directory
dist = record {
  entries = some (
      record { name = codes "a.txt"; is_regular = true; size = some 3 }
      ∷ record { name = codes "SHA256SUMS"; is_regular = true; size = some 72 }
      ∷ record { name = codes "sub"; is_regular = false; size = none }
      ∷ []);
  read_file = read_file;
}

abbrev loaded : List LocalAsset
loaded =
    record {
      name = codes "SHA256SUMS";
      content = some manifest_text;
      size = 72;
      sha256 = sum_other;
    }
    ∷ record { name = codes "a.txt"; content = some (codes "one"); size = 3; sha256 = sum_one }
    ∷ []

dist_read : load_assets sha256 dist [] ≡ ok loaded
unfolding load_assets load_files load_file insert_by_name sort_by_name Manifest.parse Manifest.check
    raw_lines drop_cr index lookup add place valid_name
dist_read = refl

load_assets-LoadedFrom_example : LoadedFrom sha256 dist [] loaded
load_assets-LoadedFrom_example = load_assets-LoadedFrom sha256 dist [] {as_ = loaded} dist_read
