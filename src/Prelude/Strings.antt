-- ===== src/Prelude/Strings.antt =====
-- Go strings and byte slices as lists of byte values, with what the program uses of package
-- strings: Compare, Split, Join, IndexByte, HasPrefix, Index.
use Prim.Native.Nat.{ℕ, suc, ◌+◌, ◌-◌, Ordering}
use Prim.Native.Char.{code}
use Prim.Native.String.{String}
use mathlib.Core.Path.{◌≡◌, refl, ap, ◌∙◌}
use mathlib.Core.Bool.{Bool, true, false, ◌&&◌}
use mathlib.Core.Logic.{◌↔◌, ◌≢◌, inl, inr}
use mathlib.Core.List.{List, [], ◌∷◌, ◌++◌}
use mathlib.Core.Option.{Option, none, some}
use native.Mathlib.Omega.{arith}
use release_me.Prelude.Tests.{&&_iff, ltb, leb, ◌==◌, if◌then◌else◌, Option-cases}
use release_me.Prelude.Lists.{All, All-append, all, length, drop}

abbrev pub Bytes : Type 0
Bytes = List ℕ

-- The code points of a text; its bytes, as every text written here is ASCII.
abbrev pub codes : String → Bytes
codes String.[] = []
codes (String.◌∷◌ c s) = code c ∷ codes s

-- `x == y` on strings
abbrev pub bytes_eq : Bytes → Bytes → Bool
bytes_eq [] [] = true
bytes_eq (a ∷ x) (b ∷ y) = (a == b) && bytes_eq x y
bytes_eq _ _ = false

pub bytes_eq_iff : (x y : Bytes) → (bytes_eq x y ≡ true) ↔ (x ≡ y)
bytes_eq_iff [] [] = (λ _. refl, λ _. refl)
bytes_eq_iff [] (b ∷ y) = (λ h. cc, λ h. cc)
bytes_eq_iff (a ∷ x) [] = (λ h. cc, λ h. cc)
bytes_eq_iff (a ∷ x) (b ∷ y) = ground (arith, bytes_eq_iff x y)

-- `strings.Compare`: -1, 0 and 1 are `lt`, `eq` and `gt`.
abbrev pub bytes_compare : Bytes → Bytes → Ordering
bytes_compare [] [] = Ordering.eq
bytes_compare [] (b ∷ y) = Ordering.lt
bytes_compare (a ∷ x) [] = Ordering.gt
bytes_compare (a ∷ x) (b ∷ y) =
    if ltb a b then Ordering.lt else if ltb b a then Ordering.gt else bytes_compare x y

-- `strings.IndexByte(s, c)` with the two slices around it, `s[:i]` and `s[i+1:]`.
abbrev cut_cons : ℕ → Option (Bytes × Bytes) → Option (Bytes × Bytes)
cut_cons a none = none
cut_cons a (some (before, after)) = some (a ∷ before, after)

unfoldable pub cut_byte : ℕ → Bytes → Option (Bytes × Bytes)
cut_byte c [] = none
cut_byte c (a ∷ s) = if a == c then some ([], s) else cut_cons a (cut_byte c s)

-- `strings.Split(s, string(sep))`
abbrev split_cons : ℕ → List Bytes → List Bytes
split_cons a [] = (a ∷ []) ∷ []
split_cons a (p ∷ ps) = (a ∷ p) ∷ ps

unfoldable pub split : ℕ → Bytes → List Bytes
split sep [] = [] ∷ []
split sep (a ∷ s) = if a == sep then [] ∷ split sep s else split_cons a (split sep s)

-- `strings.Join(parts, string(sep))`
unfoldable pub join : ℕ → List Bytes → Bytes
join sep [] = []
join sep (p ∷ []) = p
join sep (p ∷ q ∷ ps) = p ++ (sep ∷ join sep (q ∷ ps))

-- `strings.HasPrefix(s, prefix)`
abbrev pub has_prefix : Bytes → Bytes → Bool
has_prefix s [] = true
has_prefix [] (b ∷ p) = false
has_prefix (a ∷ s) (b ∷ p) = (a == b) && has_prefix s p

-- `strings.HasSuffix(s, suffix)`
abbrev pub has_suffix : Bytes → Bytes → Bool
has_suffix s p = leb (length p) (length s) && bytes_eq (drop (length s - length p) s) p

-- `strings.Index(s, sub)`; `none` is -1.
abbrev index_suc : Option ℕ → Option ℕ
index_suc none = none
index_suc (some i) = some (suc i)

unfoldable pub index : Bytes → Bytes → Option ℕ
index [] sub = if has_prefix [] sub then some 0 else none
index (a ∷ s) sub = if has_prefix (a ∷ s) sub then some 0 else index_suc (index s sub)

-- The lines that `bufio.ScanLines` cuts, with their '\r': a last line that is empty is none.
abbrev line_cons : ℕ → List Bytes → List Bytes
line_cons a [] = (a ∷ []) ∷ []
line_cons a (l ∷ ls) = (a ∷ l) ∷ ls

unfoldable pub raw_lines : Bytes → List Bytes
raw_lines [] = []
raw_lines (a ∷ s) = if a == b'\n' then [] ∷ raw_lines s else line_cons a (raw_lines s)

-- One '\r' at the end of a line is dropped.
unfoldable pub drop_cr : Bytes → Bytes
drop_cr [] = []
drop_cr (a ∷ []) = if a == b'\r' then [] else a ∷ []
drop_cr (a ∷ b ∷ s) = a ∷ drop_cr (b ∷ s)

-- `strings.ToLower` on ASCII text
abbrev pub lower_byte : ℕ → ℕ
lower_byte c = if leb b'A' c && leb c b'Z' then c + 32 else c

abbrev pub to_lower : Bytes → Bytes
to_lower [] = []
to_lower (c ∷ s) = lower_byte c ∷ to_lower s

abbrev pub Lacks : ℕ → Bytes → Type 0
Lacks c = All (λ a. a ≢ c)

-- A text whose bytes all pass a test lacks every byte that fails it.
pub all-Lacks : (p : ℕ → Bool) (x : ℕ) (s : Bytes) → p x ≡ false → all p s ≡ true → Lacks x s
all-Lacks p x [] e h = tt
all-Lacks p x (c ∷ s) e h =
    let (hc, hs) = (&&_iff (p c) (all p s)).0 h in (λ q. cc (ap p q), all-Lacks p x s e hs)

pub join-All {κ} :
    (P : ℕ → Type κ) (sep : ℕ) (ps : List Bytes) → P sep → All (All P) ps → All P (join sep ps)
unfolding join
join-All P sep [] hs h = tt
join-All P sep (p ∷ []) hs (hp, _) = hp
join-All P sep (p ∷ q ∷ ps) hs (hp, h) =
    All-append P p (sep ∷ join sep (q ∷ ps)) hp (hs, join-All P sep (q ∷ ps) hs h)

module _ (c : ℕ) where
  pub cut_byte-Lacks : (s : Bytes) → Lacks c s → cut_byte c s ≡ none
  unfolding cut_byte
  cut_byte-Lacks [] h = refl
  cut_byte-Lacks (a ∷ s) (ha, h) = ground (arith, cut_byte-Lacks s h)

  pub cut_byte-append : (s rest : Bytes) → Lacks c s → cut_byte c (s ++ (c ∷ rest)) ≡ some (s, rest)
  unfolding cut_byte
  cut_byte-append [] rest h = ground arith
  cut_byte-append (a ∷ s) rest (ha, h) = ground (arith, cut_byte-append s rest h)

  pub cut_byte_sound :
      (s : Bytes) {x y : Bytes} → cut_byte c s ≡ some (x, y) → (s ≡ x ++ (c ∷ y)) × Lacks c x
  unfolding cut_byte
  cut_byte_sound [] h = cc
  cut_byte_sound (a ∷ s) {x} {y} h = elim (Option-cases (cut_byte c s)) [
    | inl e ↦ ground arith
    | inr ((x', y'), e) ↦ ground (arith, cut_byte_sound s e)
  ]

  pub cut_byte-none : (s : Bytes) → cut_byte c s ≡ none → Lacks c s
  unfolding cut_byte
  cut_byte-none [] h = tt
  cut_byte-none (a ∷ s) h = ground (arith, cut_byte-none s)

module _ (sep : ℕ) where
  pub split-ne-nil : (s : Bytes) → split sep s ≢ []
  unfolding split
  split-ne-nil [] h = cc
  split-ne-nil (a ∷ s) h = ground (arith, split-ne-nil s)

  join-cons : (ps : List Bytes) → ps ≢ [] → join sep ([] ∷ ps) ≡ sep ∷ join sep ps
  unfolding join
  join-cons [] h = absurd (h refl)
  join-cons (p ∷ ps) h = refl

  join-split_cons :
      (a : ℕ) (ps : List Bytes) → ps ≢ [] → join sep (split_cons a ps) ≡ a ∷ join sep ps
  unfolding join
  join-split_cons a [] h = absurd (h refl)
  join-split_cons a (p ∷ []) h = refl
  join-split_cons a (p ∷ q ∷ ps) h = refl

  -- Joining the parts of a split gives the text back.
  pub join-split : (s : Bytes) → join sep (split sep s) ≡ s
  unfolding split
  join-split [] = unfold join in refl
  join-split (a ∷ s) = ground (
    arith,
    join-split s,
    split-ne-nil s,
    join-cons (split sep s),
    join-split_cons a (split sep s),
  )

  split-Lacks : (s : Bytes) → Lacks sep s → split sep s ≡ s ∷ []
  unfolding split
  split-Lacks [] h = refl
  split-Lacks (a ∷ s) (ha, h) = ground (arith, split-Lacks s h)

  split-append : (s rest : Bytes) → Lacks sep s → split sep (s ++ (sep ∷ rest)) ≡ s ∷ split sep rest
  unfolding split
  split-append [] rest h = ground arith
  split-append (a ∷ s) rest (ha, h) = ground (arith, split-append s rest h)

  -- Splitting a join gives the parts back, if there is one and none holds the separator.
  pub split-join : (ps : List Bytes) → ps ≢ [] → All (Lacks sep) ps → split sep (join sep ps) ≡ ps
  unfolding join
  split-join [] h _ = absurd (h refl)
  split-join (p ∷ []) h (hp, _) = split-Lacks p hp
  split-join (p ∷ q ∷ ps) h (hp, hps) =
      split-append p (join sep (q ∷ ps)) hp ∙ ap (λ t. p ∷ t) (split-join (q ∷ ps) (cc) hps)

  split_cons-All :
      (a : ℕ) (ps : List Bytes) → a ≢ sep → All (Lacks sep) ps → All (Lacks sep) (split_cons a ps)
  split_cons-All a [] ne h = ((ne, tt), tt)
  split_cons-All a (p ∷ ps) ne (hp, h) = ((ne, hp), h)

  pub split-All-Lacks : (s : Bytes) → All (Lacks sep) (split sep s)
  unfolding split
  split-All-Lacks [] = (tt, tt)
  split-All-Lacks (a ∷ s) = ground (arith, split-All-Lacks s, split_cons-All a (split sep s))
