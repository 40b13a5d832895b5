-- ===== src/Signers/File/Lines.antt =====
-- What a parsed allowed_signers file says of its lines.
use release_me.Prelude.{
  ℕ, suc, ◌+◌, ◌≡◌, ◌≢◌, inl, inr, refl, sym, ap, ◌∙◌, subst, true, false, not, Option, none, some,
  List, [], ◌∷◌, All, arith, ltb, leb, if◌then◌else◌, is_empty, all, length, drop, get_elem?, Bytes,
  codes, split, ◌++◌, append_assoc, length-append, raw_lines, drop_cr, trim_space, fields,
  Bool-cases, ok, ok-injective, >>=-ok, reject_if-eq-ok,
}
use release_me.Sshsig.{Ssh, AuthorizedKey}
use release_me.Signers.{Signer}
use release_me.Signers.Time.{Zones}
use release_me.Signers.File.{
  FileError, few_fields, bad_key, empty_principal, token_too_long, or_error, is_skipped,
  first_field, parse_signer, max_token, parse_lines, some_keys, parse_allowed_signers,
}
use release_me.Signers.File.Settings.{option_name, set_options-SetsAll}

-- The line of the file that a signer stands for.
pub record IsLine (lib : Ssh) (lines : List Bytes) (s : Signer) : Type 0 where
  pub raw : Bytes
  pub index : ℕ
  pub numbered : s.line ≡ index + 1
  pub there : get_elem? lines index ≡ some raw
  pub counts : is_skipped (trim_space (drop_cr raw)) ≡ false
  pub named : s.principals ≡ split b',' (first_field (fields (trim_space (drop_cr raw))))
  pub not_empty : All (λ p. p ≢ []) s.principals
  pub authorized : AuthorizedKey
  pub parsed :
      lib.parse_authorized_key (
        trim_space (
          drop
            (length (first_field (fields (trim_space (drop_cr raw)))))
            (trim_space (drop_cr raw))))
      ≡ some authorized
  pub holds : s.key ≡ authorized.key.blob
  pub no_authority : All (λ o. option_name o ≢ codes "cert-authority") authorized.options
  pub restricts :
      All (λ o. option_name o ≡ codes "namespaces" → s.namespaces ≢ []) authorized.options

module _ (lib : Ssh) (zones : Zones) where
  all-not_empty : (ps : List Bytes) → all (λ p. not (is_empty p)) ps ≡ true → All (λ p. p ≢ []) ps
  all-not_empty [] h = tt
  all-not_empty ([] ∷ ps) h = cc
  all-not_empty ((c ∷ p) ∷ ps) h = (λ e. cc, all-not_empty ps h)

  or_error-ok :
      {A : Type 0} (e : FileError) (o : Option A) {a : A} → or_error e o ≡ ok a → o ≡ some a
  or_error-ok e none h = cc
  or_error-ok e (some a) h = ap some (ok-injective h)

  parse_signer-IsLine :
      (lines : List Bytes) (i : ℕ) (raw : Bytes) {s : Signer}
      → get_elem? lines i ≡ some raw
      → is_skipped (trim_space (drop_cr raw)) ≡ false
      → parse_signer lib zones (i + 1) (trim_space (drop_cr raw)) ≡ ok s
      → IsLine lib lines s
  unfolding parse_signer
  parse_signer-IsLine lines i raw {s} there counts h =
      let line = trim_space (drop_cr raw) in
      let parts = fields line in
      let (_, h1) = reject_if-eq-ok (ltb (length parts) 3) (few_fields (i + 1)) _ h in
      let (key, e, h2) =
        >>=-ok
          (or_error (bad_key (i + 1))
            (lib.parse_authorized_key (trim_space (drop (length (first_field parts)) line))))
          _ h1 in
      let (named, h3) =
        reject_if-eq-ok (not (all (λ p. not (is_empty p)) (split b',' (first_field parts))))
          (empty_principal (i + 1)) _ h2 in
      let set = set_options-SetsAll zones (i + 1) key.options _ h3 in
      record {
        raw = raw;
        index = i;
        numbered = set.same_line;
        there = there;
        counts = counts;
        named = set.same_principals;
        not_empty =
            subst (All (λ p. p ≢ [])) (sym set.same_principals)
              (all-not_empty (split b',' (first_field parts)) (ground arith));
        authorized = key;
        parsed = or_error-ok _ _ e;
        holds = set.same_key;
        no_authority = set.no_authority;
        restricts = set.restricts;
      }

  -- The lines that are neither blank nor comments.
  abbrev pub counted : List Bytes → ℕ
  counted [] = 0
  counted (l ∷ ls) = if is_skipped (trim_space (drop_cr l)) then counted ls else suc (counted ls)

  get_elem?-append :
      (before : List Bytes) (l : Bytes) (ls : List Bytes)
      → get_elem? (before ++ (l ∷ ls)) (length before) ≡ some l
  get_elem?-append [] l ls = refl
  get_elem?-append (b ∷ before) l ls = get_elem?-append before l ls

  parse_lines-IsLine :
      (before ls : List Bytes) {ss : List Signer}
      → parse_lines lib zones (length before) ls ≡ ok ss
      → All (IsLine lib (before ++ ls)) ss × (length ss ≡ counted ls)
  unfolding parse_lines
  parse_lines-IsLine before [] h =
      subst (λ x. All (IsLine lib (before ++ [])) x × (length x ≡ 0)) (ok-injective h) (tt, refl)
  parse_lines-IsLine before (l ∷ ls) {ss} h =
      let line = trim_space (drop_cr l) in
      let (_, h1) = reject_if-eq-ok (leb max_token (length l)) token_too_long _ h in
      let next : (x : List Signer)
          → parse_lines lib zones (length before + 1) ls ≡ ok x
          → All (IsLine lib (before ++ (l ∷ ls))) x × (length x ≡ counted ls) =
        λ x e.
          subst (λ z. All (IsLine lib z) x × (length x ≡ counted ls))
            (append_assoc before (l ∷ []) ls)
            (parse_lines-IsLine (before ++ (l ∷ [])) ls
              (ap (λ k. parse_lines lib zones k ls) (length-append before (l ∷ [])) ∙ e)) in
      elim (Bool-cases (is_skipped line)) [
        | inl skipped ↦ rw skipped (next ss (rw skipped at h1))
        | inr counts ↦
            let h2 = rw counts at h1 in
            let (s, e, h3) = >>=-ok (parse_signer lib zones (length before + 1) line) _ h2 in
            let (more, e', h4) = >>=-ok (parse_lines lib zones (length before + 1) ls) _ h3 in
            let (lines, same) = next more e' in
            rw counts (
              subst (λ x. All (IsLine lib (before ++ (l ∷ ls))) x × (length x ≡ suc (counted ls)))
                (ok-injective h4)
                (
                  (
                    parse_signer-IsLine (before ++ (l ∷ ls)) (length before) l
                        (get_elem?-append before l ls) counts e,
                    lines,
                  ),
                  ap suc same,
                ))
      ]

  -- What a file that `ParseAllowedSigners` accepts says.
  pub record IsFile (text : Bytes) (ss : List Signer) : Type 0 where
    pub some_signer : ss ≢ []
    pub lines : All (IsLine lib (raw_lines text)) ss
    pub all_lines : length ss ≡ counted (raw_lines text)

  -- If `ParseAllowedSigners` accepts a text, it has at least one signer, and as many as the text
  -- has lines that are neither blank nor comments; each stands for such a line at its number: its
  -- principals are those of the first field and none is empty, its key is the one that the rest
  -- of the line spells, no option of that line is cert-authority, and an option namespaces
  -- restricts it.
  pub parse_allowed_signers-IsFile :
      (text : Bytes) {ss : List Signer}
      → parse_allowed_signers lib zones text ≡ ok ss
      → IsFile text ss
  unfolding parse_allowed_signers
  parse_allowed_signers-IsFile text {ss} h =
      let (x, e, h1) = >>=-ok (parse_lines lib zones 0 (raw_lines text)) some_keys h in
      let (lines, same) = parse_lines-IsLine [] (raw_lines text) e in
      subst (IsFile text) (some_keys-eq x h1)
        (record { some_signer = some_keys-ne x h1; lines = lines; all_lines = same })
    where
      some_keys-eq : (x : List Signer) → some_keys x ≡ ok ss → x ≡ ss
      some_keys-eq [] h = cc
      some_keys-eq (s ∷ x) h = ok-injective h

      some_keys-ne : (x : List Signer) → some_keys x ≡ ok ss → x ≢ []
      some_keys-ne [] h = cc
      some_keys-ne (s ∷ x) h = λ e. cc
