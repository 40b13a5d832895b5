-- ===== src/Samples/Policies.antt =====
-- A policy, and instances of the theorems on it.
use release_me.Prelude.{◌≡◌, refl, none, some, [], ◌∷◌, codes, index}
use release_me.Policy.{Policy, validate}
use release_me.Policy.Valid.{Enforceable, validate-Enforceable}

abbrev policy : Policy
policy = record {
  version = 1;
  host = codes "forgejo";
  server = codes "https://codeberg.org";
  repository = codes "me/tool";
  manifest = [];
  prefix = codes "tool_{version}_";
  require = codes "sshsig" ∷ codes "sigstore" ∷ [];
  sshsig = some (record {
    allowed_signers = codes "allowed_signers";
    principal = [];
    namespace = [];
    revoked_keys = [];
  });
  sigstore = some (record {
    issuer = codes "https://issuer";
    identity = [];
    identity_regex = codes "^https://x$";
    trusted_root = [];
  });
  source = [];
  reproduce = none;
}

policy_valid : validate policy ≡ []
unfolding validate index
policy_valid = refl

validate-Enforceable_example : Enforceable policy
validate-Enforceable_example = validate-Enforceable policy policy_valid
