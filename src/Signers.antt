-- ===== src/Signers.antt =====
-- internal/sshsig/allowed.go: the patterns of an allowed_signers line, and `Verify`. The parsers are in
-- `File`; the other children have the proofs.
pub mod Patterns
pub mod Accepts
pub mod Time
pub mod File
use release_me.Prelude.{
  ℕ, zero, suc, Bool, true, false, not, ◌&&◌, ◌||◌, Option, none, some, List, [], ◌∷◌, ltb, ◌==◌,
  if◌then◌else◌, is_empty, Bytes, codes, bytes_eq, join, Result, ok, err, ◌>>=◌, ◌>>◌, reject_if,
}
use release_me.Sshsig
use release_me.Sshsig.{Ssh, SshsigError}

-- The loop `for i := 0; i <= len(s); i++` over the suffixes of the text.
pub any_suffix : (Bytes → Bool) → Bytes → Bool
any_suffix f [] = f []
any_suffix f (c ∷ s) = let rest = any_suffix f s in if f (c ∷ s) then true else rest

abbrev tail_fits : (Bytes → Bool) → Bytes → Bool
tail_fits f [] = false
tail_fits f (c ∷ s) = f s

abbrev head_fits : ℕ → (Bytes → Bool) → Bytes → Bool
head_fits p f [] = false
head_fits p f (c ∷ s) = c == p && f s

-- `wildcardMatch`
unfoldable pub wildcard_match : Bytes → Bytes → Bool
unfolding any_suffix
wildcard_match [] s = is_empty s
wildcard_match (p ∷ ps) s =
    let star = any_suffix (wildcard_match ps) s in
    let one = tail_fits (wildcard_match ps) s in
    let same = head_fits p (wildcard_match ps) s in
    if p == b'*' then star else if p == b'?' then one else same

-- `strings.HasPrefix(p, "!")` and `strings.TrimPrefix(p, "!")`
abbrev pub is_negated : Bytes → Bool
is_negated [] = false
is_negated (c ∷ p) = c == b'!'

abbrev pub bare_pattern : Bytes → Bytes
bare_pattern [] = []
bare_pattern (c ∷ p) = if c == b'!' then p else c ∷ p

-- The loop of `Match`.
pub match_from : List Bytes → Bytes → Bool → Bool
match_from [] s matched = matched
match_from (p ∷ ps) s matched =
    let hit = match_from ps s true in
    let miss = match_from ps s matched in
    if wildcard_match (bare_pattern p) s then (if is_negated p then false else hit) else miss

-- `Match`
unfoldable pub match_list : List Bytes → Bytes → Bool
unfolding match_from
match_list patterns s = match_from patterns s false

-- `Signer`, with the marshalled key. A time is the nanoseconds since the zero time.
pub record Signer : Type 0 where
  pub principals : List Bytes
  pub key : Bytes
  pub namespaces : List Bytes
  pub valid_after : ℕ
  pub valid_before : ℕ
  pub comment : Bytes
  pub line : ℕ

-- `Options`, with the marshalled revoked keys.
pub record Options : Type 0 where
  pub namespace : Bytes
  pub principal : Bytes
  pub revoked : List Bytes
  pub now : ℕ

-- Why a line that holds the key does not accept it.
pub data Refusal : Type 0 where
  wrong_principal : ℕ → Refusal
  wrong_namespace : ℕ → Refusal
  not_yet_valid : ℕ → Refusal
  expired : ℕ → Refusal

pub data SignerError : Type 0 where
  no_namespace : SignerError
  bad_signature : SshsigError → SignerError
  key_revoked : SignerError
  key_unknown : SignerError
  not_accepted : List Refusal → SignerError

-- The cases of the switch; `none` is its default.
unfoldable pub refusal : Signer → Options → ℕ → Option Refusal
refusal s o now =
    if not (is_empty o.principal) && not (match_list s.principals o.principal)
    then some (wrong_principal s.line)
    else if not (is_empty s.namespaces) && not (match_list s.namespaces o.namespace)
    then some (wrong_namespace s.line)
    else if not (s.valid_after == 0) && ltb now s.valid_after
    then some (not_yet_valid s.line)
    else if not (s.valid_before == 0) && not (ltb now s.valid_before)
    then some (expired s.line)
    else none

-- `Result`, but the fingerprint, which is a function of the key.
pub record Accepted : Type 0 where
  pub principal : Bytes
  pub signer : Signer

abbrev pub principal_of : Signer → Options → Bytes
principal_of s o = if is_empty o.principal then join b',' s.principals else o.principal

abbrev pub refused : List Refusal → SignerError
refused [] = key_unknown
refused (r ∷ rs) = not_accepted (r ∷ rs)

-- The loop over the lines, with the reasons so far, newest first.
unfoldable pub accept_from :
    Bytes → Options → ℕ → List Signer → List Refusal → Result SignerError Accepted
accept_from key o now [] reasons = err (refused reasons)
accept_from key o now (s ∷ ss) reasons =
    let skip = accept_from key o now ss reasons in
    if not (bytes_eq s.key key) then skip else elim (refusal s o now) [
      | none ↦ ok (record { principal = principal_of s o; signer = s })
      | some r ↦ accept_from key o now ss (r ∷ reasons)
    ]

unfoldable pub is_revoked : Bytes → List Bytes → Bool
is_revoked key [] = false
is_revoked key (k ∷ ks) = let rest = is_revoked key ks in if bytes_eq k key then true else rest

abbrev pub or_bad : {A : Type 0} → Result SshsigError A → Result SignerError A
or_bad (ok x) = ok x
or_bad (err e) = err (bad_signature e)

-- `Verify`, of a message that can be read; `clock` is the time of `time.Now()`.
module _ (lib : Ssh) where
  unfoldable pub verify : List Signer → Bytes → Bytes → Options → ℕ → Result SignerError Accepted
  verify signers message armored o clock = do
    reject_if (is_empty o.namespace) no_namespace
    sig ← or_bad (Sshsig.parse lib armored)
    or_bad (Sshsig.verify lib sig message o.namespace)
    let key = sig.public_key.blob
    reject_if (is_revoked key o.revoked) key_revoked
    accept_from key o (if o.now == 0 then clock else o.now) signers []
