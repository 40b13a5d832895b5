-- ===== src/Signers/File/Settings.antt =====
-- What the options of a line leave of a signer, and what they add.
use release_me.Prelude.{
  ℕ, ◌≡◌, ◌≢◌, inl, inr, refl, sym, ◌∙◌, subst, Bool, false, not, ◌||◌, Option, none, some, List,
  [], ◌∷◌, All, is_empty, Bytes, codes, bytes_eq, bytes_eq_iff, cut_byte, split-ne-nil, Bool-cases,
  ok, ok-injective, >>=-ok,
}
use mathlib.Core.Option
use release_me.Signers.{Signer}
use release_me.Signers.Time.{Zones, parse_time}
use release_me.Signers.File.{FileError, bad_time, or_error, option_parts, set_option, set_options}

-- The name of an option.
abbrev pub option_name : Bytes → Bytes
option_name opt = (option_parts opt (cut_byte b'=' opt)).0

-- What an option leaves of a signer, and what it adds.
record Sets (name : Bytes) (s t : Signer) : Type 0 where
  pub same_key : t.key ≡ s.key
  pub same_principals : t.principals ≡ s.principals
  pub same_line : t.line ≡ s.line
  pub no_authority : name ≢ codes "cert-authority"
  pub keeps : s.namespaces ≢ [] → t.namespaces ≢ []
  pub restricts : name ≡ codes "namespaces" → t.namespaces ≢ []

bytes_ne : (x y : Bytes) → bytes_eq x y ≡ false → x ≢ y
bytes_ne x y h e = cc (sym h ∙ (bytes_eq_iff x y).1 e)

or_error-map :
    {A B : Type 0} (e : FileError) (f : A → B) (o : Option A) {b : B}
    → or_error e (Option.map f o) ≡ ok b
    → (a : A) × (o ≡ some a) × (f a ≡ b)
or_error-map e f none h = cc
or_error-map e f (some a) h = (a, refl, ok-injective h)

module _ (zones : Zones) (n : ℕ) where
  time_option-Sets :
      (name v : Bytes) (has_value : Bool) (s : Signer) {t : Signer}
      → name ≢ codes "cert-authority"
      → bytes_eq name (codes "cert-authority") ≡ false
      → bytes_eq name (codes "namespaces") ≡ false
      → set_option zones n (name, v, has_value) s ≡ ok t
      → Sets name s t
  time_option-Sets name v has_value s {t} ne plain other h =
      elim (Bool-cases (bytes_eq name (codes "valid-after"))) [
        | inl after ↦
            let (x, _, e) =
              or_error-map (bad_time n v) (λ x. record s { valid_after = x }) (parse_time zones v)
                (rw (plain, other, after) at h) in
            subst (Sets name s) e (unchanged (record s { valid_after = x }) refl refl refl refl)
        | inr no_after ↦ elim (Bool-cases (bytes_eq name (codes "valid-before"))) [
          | inl before ↦
              let (x, _, e) =
                or_error-map (bad_time n v) (λ x. record s { valid_before = x })
                  (parse_time zones v) (rw (plain, other, no_after, before) at h) in
              subst (Sets name s) e (unchanged (record s { valid_before = x }) refl refl refl refl)
          | inr unknown ↦ cc (rw (plain, other, no_after, unknown) at h)
        ]
      ]
    where
      unchanged :
          (u : Signer)
          → u.key ≡ s.key
          → u.principals ≡ s.principals
          → u.line ≡ s.line
          → u.namespaces ≡ s.namespaces
          → Sets name s u
      unchanged u k p l m = record {
        same_key = k;
        same_principals = p;
        same_line = l;
        no_authority = ne;
        keeps = λ some_there e. some_there (sym m ∙ e);
        restricts = λ e. absurd (bytes_ne name (codes "namespaces") other e);
      }

  set_option-Sets :
      (name v : Bytes) (has_value : Bool) (s : Signer) {t : Signer}
      → set_option zones n (name, v, has_value) s ≡ ok t
      → Sets name s t
  set_option-Sets name v has_value s {t} h =
      elim (Bool-cases (bytes_eq name (codes "cert-authority"))) [
        | inl authority ↦ cc (rw authority at h)
        | inr plain ↦
            let ne = bytes_ne name (codes "cert-authority") plain in
            elim (Bool-cases (bytes_eq name (codes "namespaces"))) [
              | inl spaces ↦ elim (Bool-cases (not has_value || is_empty v)) [
                | inl absent ↦ cc (rw (plain, spaces, absent) at h)
                | inr present ↦
                    subst (Sets name s) (ok-injective (rw (plain, spaces, present) at h)) (record {
                      same_key = refl;
                      same_principals = refl;
                      same_line = refl;
                      no_authority = ne;
                      keeps = λ _. split-ne-nil b',' v;
                      restricts = λ _. split-ne-nil b',' v;
                    })
              ]
              | inr other ↦ time_option-Sets name v has_value s ne plain other h
            ]
      ]

  -- The options of a line together.
  pub record SetsAll (opts : List Bytes) (s t : Signer) : Type 0 where
    pub same_key : t.key ≡ s.key
    pub same_principals : t.principals ≡ s.principals
    pub same_line : t.line ≡ s.line
    pub no_authority : All (λ o. option_name o ≢ codes "cert-authority") opts
    pub keeps : s.namespaces ≢ [] → t.namespaces ≢ []
    pub restricts : All (λ o. option_name o ≡ codes "namespaces" → t.namespaces ≢ []) opts

  pub set_options-SetsAll :
      (opts : List Bytes) (s : Signer) {t : Signer}
      → set_options zones n opts s ≡ ok t
      → SetsAll opts s t
  unfolding set_options
  set_options-SetsAll [] s {t} h = subst (SetsAll [] s) (ok-injective h) (record {
    same_key = refl;
    same_principals = refl;
    same_line = refl;
    no_authority = tt;
    keeps = λ e. e;
    restricts = tt;
  })
  set_options-SetsAll (opt ∷ opts) s {t} h =
      let parts = option_parts opt (cut_byte b'=' opt) in
      let (u, e, h1) = >>=-ok (set_option zones n parts s) (set_options zones n opts) h in
      let one = set_option-Sets parts.0 parts.1 parts.2 s e in
      let more = set_options-SetsAll opts u h1 in
      record {
        same_key = more.same_key ∙ one.same_key;
        same_principals = more.same_principals ∙ one.same_principals;
        same_line = more.same_line ∙ one.same_line;
        no_authority = (one.no_authority, more.no_authority);
        keeps = λ k. more.keeps (one.keeps k);
        restricts = (λ k. more.keeps (one.restricts k), more.restricts);
      }
