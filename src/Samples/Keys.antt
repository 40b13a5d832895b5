-- ===== src/Samples/Keys.antt =====
-- An ssh package whose signatures are the signed bytes, with a key, and runs of the signature format
-- and of the parser of allowed_signers files on it.
use release_me.Prelude.{
  ◌+◌, ◌*◌, ◌≡◌, refl, subst, true, false, Option, none, some, List, [], ◌∷◌, ◌++◌, arith, length,
  take, drop, Bytes, codes, bytes_eq, cut_byte, split, fields, trim_byte, trim_space, raw_lines,
  drop_cr, ok,
}
use release_me.Signers.{Signer}
use release_me.Signers.Time.{Zones, parse_time}
use release_me.Signers.File.{parse_allowed_signers, parse_revoked_keys}
use release_me.Signers.File.Lines.{IsFile, parse_allowed_signers-IsFile}
use release_me.Sshsig.{
  PublicKey, SshSignature, Signature, Wire, AuthorizedKey, Ssh, SigningKey, magic, rsa, rsa_sha512,
  signed_wire, armor, sign, parse, verify,
}
use release_me.Sshsig.Signed.{ReadsBack, AlgorithmChoice, parse-sign}

abbrev pub ed25519 : Bytes
ed25519 = codes "ssh-ed25519"

abbrev pub public_key : Bytes → PublicKey
public_key blob = record { key_type = ed25519; blob = blob; is_certificate = false }

-- Three strings behind their lengths.
abbrev strings : Bytes → Bytes → Bytes → Bytes
strings a b c = length a ∷ (a ++ (length b ∷ (b ++ c)))

abbrev third : Bytes → Bytes → Option Wire
third a [] = none
third a (n ∷ s) = some (record {
  version = 1;
  public_key = a;
  namespace = take n s;
  reserved = [];
  hash_alg = codes "sha512";
  signature = drop n s;
})

abbrev read_wire : Bytes → Option Wire
read_wire [] = none
read_wire (n ∷ s) = third (take n s) (drop n s)

abbrev authorized : List Bytes → Option AuthorizedKey
authorized (t ∷ k ∷ []) = some (record { key = public_key k; comment = []; options = [] })
authorized (o ∷ t ∷ k ∷ _) =
    some (record { key = public_key k; comment = []; options = split b';' o })
authorized _ = none

abbrev pub lib : Ssh
lib = record {
  sha256 = λ s. s;
  sha512 = λ s. s;
  marshal_signed_data = λ d. d.namespace ++ (b':' ∷ d.hash);
  marshal_wire = λ w. strings w.public_key w.namespace w.signature;
  unmarshal_wire = read_wire;
  marshal_signature = λ s. s.blob;
  unmarshal_signature = λ s. some (record { format = ed25519; blob = s });
  parse_public_key = λ s. some (public_key s);
  verify_key = λ k data_ s. bytes_eq s.blob data_;
  parse_authorized_key = λ s. authorized (fields s);
  fingerprint = λ k. k;
}

abbrev pub signing_key : SigningKey
signing_key = record {
  public = public_key (codes "key1");
  is_algorithm_signer = true;
  sign_data = λ s. some (record { format = ed25519; blob = s });
  sign_sha512 = λ s. none;
}

abbrev pub signed_blob : Bytes → Bytes → Bytes
signed_blob message namespace =
    magic
    ++ lib.marshal_wire (
        signed_wire lib signing_key namespace
          (record { format = ed25519; blob = magic ++ (namespace ++ (b':' ∷ message)) }))

abbrev pub armored : Bytes → Bytes → Bytes
armored message namespace = armor (signed_blob message namespace)

signs :
    sign lib signing_key (codes "notes\n") (codes "git")
    ≡ ok (armored (codes "notes\n") (codes "git"))
unfolding sign
signs = refl

-- An RSA key, which signs with SHA-1 unless it is asked for another algorithm, and a package that
-- writes the format of a signature before it.
abbrev rsa_public : Bytes → PublicKey
rsa_public blob = record { key_type = rsa; blob = blob; is_certificate = false }

abbrev rsa_key : SigningKey
rsa_key = record {
  public = rsa_public (codes "key2");
  is_algorithm_signer = true;
  sign_data = λ s. some (record { format = rsa; blob = s });
  sign_sha512 = λ s. some (record { format = rsa_sha512; blob = s });
}

abbrev read_signature : Bytes → Option SshSignature
read_signature [] = none
read_signature (n ∷ s) = some (record { format = take n s; blob = drop n s })

abbrev rsa_lib : Ssh
rsa_lib = record lib {
  parse_public_key = λ s. some (rsa_public s);
  marshal_signature = λ s. length s.format ∷ (s.format ++ s.blob);
  unmarshal_signature = read_signature;
}

abbrev rsa_signature : SshSignature
rsa_signature = record { format = rsa_sha512; blob = codes "SSHSIGgit:notes\n" }

abbrev rsa_armored : Bytes
rsa_armored =
    armor (magic ++ rsa_lib.marshal_wire (signed_wire rsa_lib rsa_key (codes "git") rsa_signature))

rsa_signs : sign rsa_lib rsa_key (codes "notes\n") (codes "git") ≡ ok rsa_armored
unfolding sign
rsa_signs = refl

asked : AlgorithmChoice rsa_lib rsa_key
asked = record { offered = λ h. refl; obeyed = λ is_rsa bytes h. cc }

reads_back :
    (s : SshSignature)
    → some rsa_signature ≡ some s
    → ReadsBack rsa_lib rsa_key (codes "git") (codes "notes\n") s
reads_back s e =
    subst (λ (o : Option SshSignature). Reads o) e
      (record {
        wire_back = refl;
        wire_bytes = omega arith;
        signature_back = refl;
        key_back = refl;
        plain = refl;
        verifies = refl;
      })
  where
    Reads : Option SshSignature → Type 0
    Reads none = Unit
    Reads (some s) = ReadsBack rsa_lib rsa_key (codes "git") (codes "notes\n") s

parse-sign_example :
    (sig : Signature) × (parse rsa_lib rsa_armored ≡ ok sig)
    × (sig.public_key ≡ rsa_public (codes "key2"))
    × (verify rsa_lib sig (codes "notes\n") (codes "git") ≡ ok tt)
parse-sign_example =
    parse-sign rsa_lib rsa_key (codes "notes\n") (codes "git") {armored = rsa_armored} asked
      rsa_signs reads_back

abbrev pub zones : Zones
zones = record {
  utc = λ c. c.year * 372 + c.month * 31 + c.day;
  local_zone = λ c. c.year * 372 + c.month * 31 + c.day + 1;
}

leap_day : parse_time zones (codes "20240229Z") ≡ some (2024 * 372 + 2 * 31 + 29)
unfolding parse_time
leap_day = refl

no_leap_day : parse_time zones (codes "20230229Z") ≡ none
unfolding parse_time
no_leap_day = refl

with_seconds : parse_time zones (codes "20240229235959,5") ≡ some (2024 * 372 + 2 * 31 + 30)
unfolding parse_time
with_seconds = refl

no_hour : parse_time zones (codes "202402292460") ≡ none
unfolding parse_time
no_hour = refl

abbrev pub signers_text : Bytes
signers_text =
    codes
      "# releases\n\nme@example.org,*@ci.org namespaces=\"git,release\";valid-before=20240101Z ssh-ed25519 key1\nyou ssh-ed25519 key2"

abbrev pub signers : List Signer
signers =
    record {
      principals = codes "me@example.org" ∷ codes "*@ci.org" ∷ [];
      key = codes "key1";
      namespaces = codes "git" ∷ codes "release" ∷ [];
      valid_after = 0;
      valid_before = 2024 * 372 + 31 + 1;
      comment = [];
      line = 3;
    }
    ∷ record {
      principals = codes "you" ∷ [];
      key = codes "key2";
      namespaces = [];
      valid_after = 0;
      valid_before = 0;
      comment = [];
      line = 4;
    }
    ∷ []

signers_parsed : parse_allowed_signers lib zones signers_text ≡ ok signers
unfolding parse_allowed_signers parse_time fields trim_space trim_byte split cut_byte raw_lines
    drop_cr
signers_parsed = refl

parse_allowed_signers-IsFile_example : IsFile lib zones signers_text signers
parse_allowed_signers-IsFile_example =
    parse_allowed_signers-IsFile lib zones signers_text {ss = signers} signers_parsed

revoked_parsed : parse_revoked_keys lib (codes "# old\nssh-ed25519 key9\n") ≡ ok (codes "key9" ∷ [])
unfolding parse_revoked_keys fields trim_space split
revoked_parsed = refl
