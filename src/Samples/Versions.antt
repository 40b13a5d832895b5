-- ===== src/Samples/Versions.antt =====
-- Runs of the version parser and the order, and instances of their theorems.
use release_me.Prelude.{
  ◌≡◌, ◌↔◌, refl, [], ◌∷◌, Ordering, arith, codes, cut_byte, split, join, ok, err, parse_uint,
  format_uint,
}
use release_me.Semver.{
  Version, numeric_field, parse, parse_tag, to_string, cmp_u, cmp_identifier, compare_pre,
  compare_version,
}
use release_me.Semver.RoundTrip.{IsValid, parse_sound, parse-to_string}
use release_me.Semver.Order.{
  precedence, compare_pre-precedence, compare_version_eq, compare_version_trans,
}
use release_me.Semver.Numeric.{cmp_identifier-value}

abbrev sample : Version
sample = record {
  major = 1;
  minor = 20;
  patch = 3;
  pre = codes "rc" ∷ codes "1" ∷ [];
  build = codes "b.7";
}

sample_parsed : parse (codes "1.20.3-rc.1+b.7") ≡ ok sample
unfolding parse cut_byte split parse_uint
sample_parsed = refl

parse_tag_bad : parse_tag (codes "v1.02.3") ≡ err (numeric_field (codes "02"))
unfolding parse_tag cut_byte split parse_uint
parse_tag_bad = refl

sample_printed : to_string sample ≡ codes "1.20.3-rc.1+b.7"
unfolding to_string join format_uint
sample_printed = refl

compare_pre_sample : compare_version sample (record sample { pre = [] }) ≡ Ordering.lt
unfolding compare_version
compare_pre_sample = refl

parse_sound_example : (to_string sample ≡ codes "1.20.3-rc.1+b.7") × IsValid sample
parse_sound_example = parse_sound (codes "1.20.3-rc.1+b.7") {v = sample} sample_parsed

sample-IsValid : IsValid sample
unfolding split
sample-IsValid = record {
  major_fits = omega arith;
  minor_fits = omega arith;
  patch_fits = omega arith;
  pre_valid = refl;
  build_valid = refl;
}

parse-to_string_example : parse (to_string sample) ≡ ok sample
parse-to_string_example = parse-to_string sample sample-IsValid

abbrev normal : Version
normal = record sample { pre = [] }

abbrev next_minor : Version
next_minor = record sample { minor = 21 }

below_normal : compare_version sample normal ≡ Ordering.lt
unfolding compare_version
below_normal = refl

below_next : compare_version normal next_minor ≡ Ordering.lt
unfolding compare_version
below_next = refl

compare_version_trans_example : compare_version sample next_minor ≡ Ordering.lt
compare_version_trans_example =
    compare_version_trans sample normal next_minor below_normal below_next

compare_version_eq_example :
    (compare_version sample (record sample { build = [] }) ≡ Ordering.eq) ↔ (
      (sample.major ≡ sample.major)
      × (sample.minor ≡ sample.minor)
      × (sample.patch ≡ sample.patch)
      × (sample.pre ≡ sample.pre))
compare_version_eq_example = compare_version_eq sample (record sample { build = [] })

compare_pre-precedence_example :
    compare_pre (codes "rc" ∷ codes "2" ∷ []) (codes "rc" ∷ codes "11" ∷ codes "x" ∷ [])
    ≡ precedence (codes "rc" ∷ codes "2" ∷ []) (codes "rc" ∷ codes "11" ∷ codes "x" ∷ [])
compare_pre-precedence_example =
    compare_pre-precedence (codes "rc") (codes "rc") (codes "2" ∷ []) (codes "11" ∷ codes "x" ∷ [])

cmp_identifier-value_example : cmp_identifier (codes "9") (codes "10") ≡ cmp_u 9 10
cmp_identifier-value_example = cmp_identifier-value (codes "9") (codes "10") refl refl refl refl
