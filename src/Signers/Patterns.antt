-- ===== src/Signers/Patterns.antt =====
-- What `wildcardMatch` and `Match` match, said without the loops.
use release_me.Prelude.{
  ℕ, ◌≡◌, ◌≢◌, ◌↔◌, ◌⊎◌, inl, inr, refl, sym, ap, ◌∙◌, Bool, true, false, List, [], ◌∷◌, ◌++◌, All,
  arith, ◌==◌, ==_iff, Bytes, Bool-cases,
}
use release_me.Signers.{
  any_suffix, wildcard_match, is_negated, bare_pattern, match_from, match_list,
}

-- A '*' stands for any bytes, a '?' for any byte, and another byte for itself.
pub Fits : Bytes → Bytes → Type 0
Fits [] s = s ≡ []
Fits (p ∷ ps) s =
    ((p ≡ b'*') × ((skip : Bytes) × (rest : Bytes) × (s ≡ skip ++ rest) × Fits ps rest))
    ⊎ ((p ≢ b'*')
        × ((c : ℕ) × (rest : Bytes) × (s ≡ c ∷ rest) × ((p ≡ b'?') ⊎ (c ≡ p)) × Fits ps rest))

any_suffix_sound :
    (f : Bytes → Bool) (s : Bytes)
    → any_suffix f s ≡ true
    → (skip : Bytes) × (rest : Bytes) × (s ≡ skip ++ rest) × (f rest ≡ true)
unfolding any_suffix
any_suffix_sound f [] h = ([], [], refl, h)
any_suffix_sound f (c ∷ s) h = elim (Bool-cases (f (c ∷ s))) [
  | inl here ↦ ([], c ∷ s, refl, here)
  | inr later ↦
      let (skip, rest, e, k) = any_suffix_sound f s (rw later at h) in
      (c ∷ skip, rest, ap (λ t. c ∷ t) e, k)
]

any_suffix_complete :
    (f : Bytes → Bool) (skip rest : Bytes) → f rest ≡ true → any_suffix f (skip ++ rest) ≡ true
unfolding any_suffix
any_suffix_complete f [] [] h = h
any_suffix_complete f [] (c ∷ rest) h = rw h refl
any_suffix_complete f (c ∷ skip) rest h = ground (arith, any_suffix_complete f skip rest h)

-- The cases of '?' and of a plain byte, given the rest of the pattern.
abbrev HeadFits : ℕ → Bytes → Bytes → Type 0
HeadFits p ps s = (c : ℕ) × (rest : Bytes) × (s ≡ c ∷ rest) × ((p ≡ b'?') ⊎ (c ≡ p)) × Fits ps rest

head_sound :
    (p : ℕ) (ps s : Bytes)
    → (p == b'*') ≡ false
    → ((rest : Bytes) → wildcard_match ps rest ≡ true → Fits ps rest)
    → wildcard_match (p ∷ ps) s ≡ true
    → HeadFits p ps s
unfolding wildcard_match
head_sound p ps [] plain fits h = ground arith
head_sound p ps (c ∷ s) plain fits h = elim (Bool-cases (p == b'?')) [
  | inl one ↦ (c, s, refl, inl ((==_iff p b'?').0 one), fits s (rw (plain, one) at h))
  | inr same ↦ (c, s, refl, inr (ground arith), fits s (ground arith))
]

head_complete :
    (p : ℕ) (ps s : Bytes)
    → p ≢ b'*'
    → ((rest : Bytes) → Fits ps rest → wildcard_match ps rest ≡ true)
    → HeadFits p ps s
    → wildcard_match (p ∷ ps) s ≡ true
unfolding wildcard_match
head_complete p ps s plain fits (c, rest, e, k, f) = let tail = fits rest f in rw e (ground arith)

wildcard_match_sound : (p s : Bytes) → wildcard_match p s ≡ true → Fits p s
unfolding wildcard_match Fits
wildcard_match_sound [] [] h = refl
wildcard_match_sound [] (c ∷ s) h = cc
wildcard_match_sound (p ∷ ps) s h = elim (Bool-cases (p == b'*')) [
  | inl star ↦
      let (skip, rest, e, k) = any_suffix_sound (wildcard_match ps) s (rw star at h) in
      inl ((==_iff p b'*').0 star, (skip, rest, e, wildcard_match_sound ps rest k))
  | inr plain ↦ inr (
    λ e. cc (sym plain ∙ (==_iff p b'*').1 e),
    head_sound p ps s plain (wildcard_match_sound ps) h,
  )
]

wildcard_match_complete : (p s : Bytes) → Fits p s → wildcard_match p s ≡ true
unfolding wildcard_match Fits
wildcard_match_complete [] s h = rw h refl
wildcard_match_complete (p ∷ ps) s (inl (star, (skip, rest, e, f))) =
    let tail =
      any_suffix_complete (wildcard_match ps) skip rest (wildcard_match_complete ps rest f) in
    rw (e, (==_iff p b'*').1 star) tail
wildcard_match_complete (p ∷ ps) s (inr (plain, k)) =
    head_complete p ps s plain (wildcard_match_complete ps) k

-- `wildcardMatch` accepts a text exactly when it fits the pattern, in which a star stands for any
-- bytes, a question mark for any one byte, and every other byte for itself.
pub wildcard_match_iff : (p s : Bytes) → (wildcard_match p s ≡ true) ↔ Fits p s
wildcard_match_iff p s = (wildcard_match_sound p s, wildcard_match_complete p s)

-- A pattern list accepts a text: no negated pattern fits it, and some plain pattern does.
pub record ListFits (patterns : List Bytes) (s : Bytes) : Type 0 where
  pub none_negated : All (λ p. is_negated p ≡ true → ¬ Fits (bare_pattern p) s) patterns
  pub some_plain : ¬ All (λ p. is_negated p ≡ false → ¬ Fits (bare_pattern p) s) patterns

Fits-not : (p s : Bytes) → wildcard_match p s ≡ false → ¬ Fits p s
Fits-not p s h f = cc (sym h ∙ wildcard_match_complete p s f)

abbrev Clean : Bytes → List Bytes → Type 0
Clean s ps = All (λ p. is_negated p ≡ true → ¬ Fits (bare_pattern p) s) ps

abbrev Missed : Bytes → List Bytes → Type 0
Missed s ps = All (λ p. is_negated p ≡ false → ¬ Fits (bare_pattern p) s) ps

match_from_sound :
    (ps : List Bytes) (s : Bytes) (matched : Bool)
    → match_from ps s matched ≡ true
    → Clean s ps × ((matched ≡ true) ⊎ ¬ Missed s ps)
unfolding match_from
match_from_sound [] s matched h = (tt, inl h)
match_from_sound (p ∷ ps) s matched h = elim (Bool-cases (wildcard_match (bare_pattern p) s)) [
  | inr miss ↦
      let (clean, k) = match_from_sound ps s matched (rw miss at h) in
      ((λ _. Fits-not (bare_pattern p) s miss, clean), later k)
  | inl fits ↦ elim (Bool-cases (is_negated p)) [
    | inl negated ↦ cc (rw (fits, negated) at h)
    | inr plain ↦
        let (clean, _) = match_from_sound ps s true (rw (fits, plain) at h) in
        (
          (λ n. cc, clean),
          inr (λ missed. missed.0 plain (wildcard_match_sound (bare_pattern p) s fits)),
        )
  ]
]
  where
    later : ((matched ≡ true) ⊎ ¬ Missed s ps) → (matched ≡ true) ⊎ ¬ Missed s (p ∷ ps)
    later (inl m) = inl m
    later (inr k) = inr (λ missed. k missed.1)

match_from_complete :
    (ps : List Bytes) (s : Bytes) (matched : Bool)
    → Clean s ps
    → match_from ps s matched ≡ false
    → (matched ≡ false) × Missed s ps
unfolding match_from
match_from_complete [] s matched clean h = (h, tt)
match_from_complete (p ∷ ps) s matched (c, clean) h =
    elim (Bool-cases (wildcard_match (bare_pattern p) s)) [
      | inr miss ↦
          let (m, k) = match_from_complete ps s matched clean (rw miss at h) in
          (m, (λ _. Fits-not (bare_pattern p) s miss, k))
      | inl fits ↦ elim (Bool-cases (is_negated p)) [
        | inl negated ↦ absurd (c negated (wildcard_match_sound (bare_pattern p) s fits))
        | inr plain ↦ let (m, _) = match_from_complete ps s true clean (rw (fits, plain) at h) in cc
      ]
    ]

-- `Match` accepts a text exactly when no negated pattern of the list fits it and some pattern
-- that is not negated does.
pub match_list_iff : (ps : List Bytes) (s : Bytes) → (match_list ps s ≡ true) ↔ ListFits ps s
unfolding match_list
match_list_iff ps s = (sound, complete)
  where
    sound : match_from ps s false ≡ true → ListFits ps s
    sound h =
        let (clean, k) = match_from_sound ps s false h in
        record { none_negated = clean; some_plain = plain k }
      where
        plain : ((false ≡ true) ⊎ ¬ Missed s ps) → ¬ Missed s ps
        plain (inl e) = cc
        plain (inr k) = k

    complete : ListFits ps s → match_from ps s false ≡ true
    complete f = elim (Bool-cases (match_from ps s false)) [
      | inl hit ↦ hit
      | inr miss ↦ absurd (f.some_plain (match_from_complete ps s false f.none_negated miss).1)
    ]
