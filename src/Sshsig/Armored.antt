-- ===== src/Sshsig/Armored.antt =====
-- The envelope of a signature: what `Armor` writes is what `Dearmor` reads, and what `Sign` makes is
-- accepted.
use release_me.Prelude.{
  ℕ, zero, suc, ◌≤◌, ◌≡◌, ◌≢◌, inl, inr, refl, sym, ap, ap₂, ◌∙◌, true, some, [], ◌∷◌, ◌++◌,
  append-nil, append_assoc, arith, ltb, All, All-append, all, length, take, drop, length-drop,
  take-append-drop, take-append_length, Bytes, has_prefix, index, Lacks, all-Lacks, Bool-cases, ok,
}
use release_me.Sshsig.Base64.{encode, decode, IsByte, is_code, decode-encode, encode-is_code}
use release_me.Sshsig.{
  invalid_base64, some_or, begin_line, end_line, wrap_lines, armor, drop_blanks, body_of,
  behind_begin, dearmor,
}

-- Any two amounts of rounds that cover the text wrap it alike.
pub wrap_lines_fuel :
    (f g : ℕ) (s : Bytes) → length s ≤ f → length s ≤ g → wrap_lines f s ≡ wrap_lines g s
unfolding wrap_lines
wrap_lines_fuel zero zero s hf hg = refl
wrap_lines_fuel zero (suc g) s hf hg = ground arith
wrap_lines_fuel (suc f) zero s hf hg = ground arith
wrap_lines_fuel (suc f) (suc g) s hf hg = elim (Bool-cases (ltb 70 (length s))) [
  | inl long ↦ rw long (
      ap (λ t. take 70 s ++ (b'\n' ∷ t))
        (wrap_lines_fuel f g (drop 70 s) (ground (arith, length-drop 70 s))
          (ground (arith, length-drop 70 s))))
  | inr short ↦ rw short refl
]

drop_blanks-append : (s t : Bytes) → drop_blanks (s ++ t) ≡ drop_blanks s ++ drop_blanks t
unfolding drop_blanks
drop_blanks-append [] t = refl
drop_blanks-append (c ∷ s) t = ground (arith, drop_blanks-append s t)

drop_blanks-newline : (s : Bytes) → drop_blanks (b'\n' ∷ s) ≡ drop_blanks s
unfolding drop_blanks
drop_blanks-newline s = refl

drop_blanks_code : (s : Bytes) → all is_code s ≡ true → drop_blanks s ≡ s
unfolding drop_blanks
drop_blanks_code [] h = refl
drop_blanks_code (c ∷ s) h = ground (arith, drop_blanks_code s)

all-take-drop :
    (n : ℕ) (s : Bytes)
    → all is_code s ≡ true
    → (all is_code (take n s) ≡ true) × (all is_code (drop n s) ≡ true)
all-take-drop zero s h = (refl, h)
all-take-drop (suc n) [] h = (refl, refl)
all-take-drop (suc n) (c ∷ s) h = ground (arith, all-take-drop n s)

-- The line ends that wrapping adds are dropped again.
drop_blanks-wrap_lines :
    (fuel : ℕ) (s : Bytes) → all is_code s ≡ true → drop_blanks (wrap_lines fuel s) ≡ s
unfolding wrap_lines
drop_blanks-wrap_lines zero s h = drop_blanks_code s h
drop_blanks-wrap_lines (suc fuel) s h = elim (Bool-cases (ltb 70 (length s))) [
  | inr short ↦ rw short (drop_blanks_code s h)
  | inl long ↦
      let (head, tail) = all-take-drop 70 s h in
      rw long (
        drop_blanks-append (take 70 s) (b'\n' ∷ wrap_lines fuel (drop 70 s))
        ∙ ap₂ (λ x y. x ++ y) (drop_blanks_code (take 70 s) head)
            (drop_blanks-newline (wrap_lines fuel (drop 70 s))
              ∙ drop_blanks-wrap_lines fuel (drop 70 s) tail)
        ∙ take-append-drop 70 s)
]

wrap_lines-Lacks : (fuel : ℕ) (s : Bytes) → all is_code s ≡ true → Lacks b'-' (wrap_lines fuel s)
unfolding wrap_lines
wrap_lines-Lacks zero s h = all-Lacks is_code b'-' s refl h
wrap_lines-Lacks (suc fuel) s h = elim (Bool-cases (ltb 70 (length s))) [
  | inr short ↦ rw short (all-Lacks is_code b'-' s refl h)
  | inl long ↦
      let (head, tail) = all-take-drop 70 s h in
      rw long (
        All-append (λ a. a ≢ b'-') (take 70 s) (b'\n' ∷ wrap_lines fuel (drop 70 s))
          (all-Lacks is_code b'-' (take 70 s) refl head)
          (λ e. absurd (omega arith), wrap_lines-Lacks fuel (drop 70 s) tail))
]

has_prefix_self : (p s : Bytes) → has_prefix (p ++ s) p ≡ true
has_prefix_self [] [] = refl
has_prefix_self [] (a ∷ s) = refl
has_prefix_self (b ∷ p) s = ground (arith, has_prefix_self p s)

-- A marker is found behind bytes that differ from its first one.
index-append :
    (c : ℕ) (p s rest : Bytes)
    → Lacks c s
    → index (s ++ ((c ∷ p) ++ rest)) (c ∷ p) ≡ some (length s)
unfolding index
index-append c p [] rest h = rw (has_prefix_self (c ∷ p) rest) refl
index-append c p (a ∷ s) rest (ha, h) = ground (arith, index-append c p s rest h)

-- What `Dearmor` does with a body between the two lines.
abbrev enveloped : Bytes → Bytes
enveloped body = begin_line ++ (body ++ (end_line ++ (b'\n' ∷ [])))

dearmor-enveloped :
    (body : Bytes)
    → Lacks b'-' body
    → dearmor (enveloped body) ≡ some_or invalid_base64 (decode (drop_blanks body))
unfolding dearmor
dearmor-enveloped body h =
    begun
    ∙ ap (body_of (body ++ (end_line ++ (b'\n' ∷ []))))
        (index-append b'-' (drop 1 end_line) body (b'\n' ∷ []) h)
    ∙ ap (λ t. some_or invalid_base64 (decode (drop_blanks t)))
        (take-append_length body (end_line ++ (b'\n' ∷ [])))
  where
    begun :
        behind_begin (enveloped body) (index (enveloped body) begin_line)
        ≡ body_of
            (body ++ (end_line ++ (b'\n' ∷ [])))
            (index (body ++ (end_line ++ (b'\n' ∷ []))) end_line)
    begun = unfold index in refl

module _ (blob : Bytes) (bytes : All IsByte blob) where
  abbrev wrapped : Bytes
  wrapped = wrap_lines (length (encode blob)) (encode blob)

  abbrev body : Bytes
  body = (b'\n' ∷ wrapped) ++ (b'\n' ∷ [])

  armor-enveloped : armor blob ≡ enveloped body
  unfolding armor
  armor-enveloped =
      ap (λ t. begin_line ++ (b'\n' ∷ t))
        (sym (append_assoc wrapped (b'\n' ∷ []) (end_line ++ (b'\n' ∷ []))))

  body-Lacks : Lacks b'-' body
  body-Lacks =
      All-append (λ a. a ≢ b'-') (b'\n' ∷ wrapped) (b'\n' ∷ [])
        (
          λ e. absurd (omega arith),
          wrap_lines-Lacks (length (encode blob)) (encode blob) (encode-is_code blob bytes),
        )
        (λ e. absurd (omega arith), tt)

  drop_blanks-body : drop_blanks body ≡ encode blob
  drop_blanks-body =
      drop_blanks-append (b'\n' ∷ wrapped) (b'\n' ∷ [])
      ∙ unfold drop_blanks in
        append-nil (drop_blanks wrapped)
        ∙ drop_blanks-wrap_lines (length (encode blob)) (encode blob) (encode-is_code blob bytes)

  -- The blob that `Armor` wraps is what `Dearmor` extracts, if it is made of bytes.
  pub dearmor-armor : dearmor (armor blob) ≡ ok blob
  dearmor-armor =
      ap dearmor armor-enveloped
      ∙ dearmor-enveloped body body-Lacks
      ∙ ap (λ t. some_or invalid_base64 (decode t)) drop_blanks-body
      ∙ ap (some_or invalid_base64) (decode-encode blob bytes)
