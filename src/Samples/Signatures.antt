-- ===== src/Samples/Signatures.antt =====
-- Runs of the allowed signers and of the tag parser, and instances of their theorems.
use release_me.Prelude.{
  ◌≡◌, ◌↔◌, refl, true, false, some, List, [], ◌∷◌, Bytes, codes, cut_byte, split, index, ok,
}
use release_me.Signers
use release_me.Signers.{
  Signer, Accepted, wildcard_match, match_list, refusal, accept_from, is_revoked, verify,
}
use release_me.Signers.Patterns.{Fits, ListFits, wildcard_match_iff, match_list_iff}
use release_me.Signers.Accepts.{Verified, verify_sound}
use release_me.Sshsig
use release_me.Sshsig.{parse, dearmor, armor}
use release_me.Sshsig.Base64.{encode, decode}
use release_me.Samples.Keys.{lib, armored}
use release_me.Tag.{Tag, parse_object, verify_signature}
use release_me.Tag.Object.{Covers, SignedBy, parse_object-Covers, verify_signature-SignedBy}

wildcard_match_iff_example :
    (wildcard_match (codes "*@example.?rg") (codes "me@example.org") ≡ true)
    ↔ Fits (codes "*@example.?rg") (codes "me@example.org")
wildcard_match_iff_example = wildcard_match_iff (codes "*@example.?rg") (codes "me@example.org")

abbrev patterns : List Bytes
patterns = codes "!bot@*" ∷ codes "*@example.org" ∷ []

negated_wins : match_list patterns (codes "bot@example.org") ≡ false
unfolding match_list wildcard_match
negated_wins = refl

match_list_iff_example :
    (match_list patterns (codes "me@example.org") ≡ true)
    ↔ ListFits patterns (codes "me@example.org")
match_list_iff_example = match_list_iff patterns (codes "me@example.org")

abbrev signer : Signer
signer = record {
  principals = patterns;
  key = codes "key1";
  namespaces = codes "git" ∷ codes "file" ∷ [];
  valid_after = 10;
  valid_before = 20;
  comment = [];
  line = 2;
}

abbrev policy : List Signer
policy = record signer { valid_before = 5; valid_after = 0; line = 1 } ∷ signer ∷ []

abbrev asked : Signers.Options
asked = record {
  namespace = codes "git";
  principal = codes "me@example.org";
  revoked = codes "key9" ∷ [];
  now = 0;
}

abbrev answer : Accepted
answer = record { principal = codes "me@example.org"; signer = signer }

verified :
    verify lib policy (codes "notes\n") (armored (codes "notes\n") (codes "git")) asked 15
    ≡ ok answer
unfolding verify accept_from refusal is_revoked match_list wildcard_match parse Sshsig.verify
    dearmor armor encode decode index
verified = refl

verify_sound_example :
    Verified lib policy (codes "notes\n") (armored (codes "notes\n") (codes "git")) asked 15 answer
verify_sound_example =
    verify_sound lib policy (codes "notes\n") (armored (codes "notes\n") (codes "git")) asked 15
      {a = answer} verified

abbrev tag_object : Bytes
tag_object =
    codes
      "object c0\ntype commit\ntag v1.2.0\ntagger Me <me@example.org> 1700000000 +0100\n\nnotes\n-----BEGIN SSH SIGNATURE-----\nAAAA\n"

abbrev tag : Tag
tag = record {
  name = codes "v1.2.0";
  object = codes "c0";
  object_type = codes "commit";
  tagger = codes "Me <me@example.org> 1700000000 +0100";
  message = codes "notes\n";
  payload =
      codes
        "object c0\ntype commit\ntag v1.2.0\ntagger Me <me@example.org> 1700000000 +0100\n\nnotes\n";
  signature = some (codes "-----BEGIN SSH SIGNATURE-----\nAAAA\n");
  pgp = false;
}

tag_parsed : parse_object tag_object ≡ ok tag
unfolding parse_object index split cut_byte
tag_parsed = refl

parse_object-Covers_example : Covers tag_object tag
parse_object-Covers_example = parse_object-Covers tag_object {t = tag} tag_parsed

abbrev signed_tag : Tag
signed_tag = record tag { signature = some (armored tag.payload (codes "git")) }

tag_accepted : verify_signature lib signed_tag policy asked 15 ≡ ok answer
unfolding verify_signature verify accept_from refusal is_revoked match_list wildcard_match parse
    Sshsig.verify dearmor armor encode decode index
tag_accepted = refl

verify_signature-SignedBy_example : SignedBy lib signed_tag policy asked 15 answer
verify_signature-SignedBy_example =
    verify_signature-SignedBy lib signed_tag policy asked 15 {a = answer} tag_accepted
