-- ===== src/Samples/Manifests.antt =====
-- Runs of the SHA256SUMS reader and writer, and instances of their theorems.
use release_me.Prelude.{
  ◌≢◌, ◌≡◌, ◌↔◌, refl, true, false, Option, none, some, List, [], ◌∷◌, ◌++◌, All, map,
  if◌then◌else◌, length, Bytes, codes, bytes_eq, to_lower, index, raw_lines, drop_cr, ok,
}
use release_me.Manifest.{
  Entry, Manifest, valid_name, lookup, place, add, render, parse, diff, check, DirEntry, from_dir,
}
use release_me.Manifest.Sorted.{put, place-put}
use release_me.Manifest.Valid.{IsValid, Recorded, add-IsValid, lookup-add, parse-IsValid}
use release_me.Manifest.RoundTrip.{parse-render}
use release_me.Manifest.Diff.{diff-nil}
use release_me.Manifest.Files.{Matches, Truthful, Covers, IsIn, check-nil, from_dir_sound}

abbrev sum_a : Bytes
sum_a = codes "00112233445566778899aabbccddeeff00112233445566778899aabbccddeeff"

abbrev sum_b : Bytes
sum_b = codes "ff112233445566778899aabbccddeeff00112233445566778899aabbccddee00"

abbrev sum_upper : Bytes
sum_upper = codes "FF112233445566778899AABBCCDDEEFF00112233445566778899AABBCCDDEE00"

abbrev entry_a : Entry
entry_a = record { name = codes "a.txt"; sha256 = sum_a }

abbrev entry_b : Entry
entry_b = record { name = codes "b.txt"; sha256 = sum_b }

abbrev pair : Manifest
pair = entry_a ∷ entry_b ∷ []

pair-IsValid : IsValid pair
unfolding valid_name
pair-IsValid = record {
  sorted = ((refl, tt), (tt, tt));
  entries_ok = (
    record { name_ok = refl; digest_size = refl; digest_hex = refl },
    (record { name_ok = refl; digest_size = refl; digest_hex = refl }, tt),
  );
}

alone-IsValid : IsValid (entry_a ∷ [])
unfolding valid_name
alone-IsValid = record {
  sorted = (tt, tt);
  entries_ok = (record { name_ok = refl; digest_size = refl; digest_hex = refl }, tt);
}

parse-render_example : parse (render pair) ≡ ok pair
parse-render_example = parse-render pair pair-IsValid (λ h. cc)

-- The lines may come in any order, and the digits in upper case.
abbrev text : Bytes
text = sum_upper ++ (codes "  b.txt\n" ++ (sum_a ++ codes "  a.txt\n"))

text_read : parse text ≡ ok pair
unfolding parse raw_lines index lookup add place valid_name drop_cr
text_read = refl

parse-IsValid_example :
    IsValid pair
    × All (Recorded pair) (map drop_cr (raw_lines text))
    × (2 ≡ length (map drop_cr (raw_lines text)))
parse-IsValid_example = parse-IsValid text {m = pair} text_read

added : add (entry_a ∷ []) (codes "b.txt") sum_upper ≡ ok pair
unfolding add place valid_name
added = refl

add-IsValid_example : IsValid pair
add-IsValid_example =
    add-IsValid (entry_a ∷ []) (codes "b.txt") sum_upper {m' = pair} alone-IsValid added

lookup-add_example : lookup pair (codes "a.txt") ≡ (
    if bytes_eq (codes "b.txt") (codes "a.txt")
    then some (to_lower sum_upper)
    else lookup (entry_a ∷ []) (codes "a.txt"))
lookup-add_example =
    lookup-add (entry_a ∷ []) (codes "b.txt") sum_upper (codes "a.txt") {m' = pair} alone-IsValid
      added

diff-nil_example : (diff pair (entry_a ∷ []) ≡ []) ↔ (pair ≡ entry_a ∷ [])
diff-nil_example = diff-nil pair (entry_a ∷ []) pair-IsValid alone-IsValid

place-put_example :
    place (codes "b.txt") sum_b (entry_a ∷ []) ≡ put (codes "b.txt") sum_b (entry_a ∷ [])
place-put_example = place-put (codes "b.txt") sum_b (entry_a ∷ []) (tt, tt)

abbrev hash_sample : Bytes → Option Bytes
hash_sample name =
    if bytes_eq name (codes "a.txt")
    then some sum_a
    else if bytes_eq name (codes "b.txt")
    then some sum_upper
    else none

abbrev listing : List DirEntry
listing =
    record { name = codes "SHA256SUMS"; is_regular = true }
    ∷ record { name = codes "a.txt"; is_regular = true }
    ∷ record { name = codes "b.txt"; is_regular = true }
    ∷ record { name = codes "sub"; is_regular = false }
    ∷ []

dir_read : from_dir hash_sample (some listing) ≡ ok pair
unfolding from_dir add place valid_name
dir_read = refl

from_dir_sound_example :
    (ds : List DirEntry) × (some listing ≡ some ds)
    × IsValid pair
    × Truthful hash_sample pair
    × All (Covers hash_sample pair) ds
    × ((name : Bytes) → lookup pair name ≢ none → IsIn ds name)
from_dir_sound_example = from_dir_sound hash_sample (some listing) {m = pair} dir_read

check-nil_example : (check hash_sample pair ≡ []) ↔ All (Matches hash_sample) pair
check-nil_example = check-nil hash_sample pair
