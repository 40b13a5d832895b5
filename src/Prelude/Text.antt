-- ===== src/Prelude/Text.antt =====
-- More of package strings, on ASCII text: TrimSpace, TrimRight, Trim, Fields, TrimPrefix.
use Prim.Native.Nat.{ℕ}
use mathlib.Core.Bool.{Bool, ◌&&◌, ◌||◌}
use mathlib.Core.List.{List, [], ◌∷◌}
use release_me.Prelude.Tests.{leb, ◌==◌, if◌then◌else◌}
use release_me.Prelude.Strings.{Bytes}

abbrev pub is_space : ℕ → Bool
is_space c = leb b'\t' c && leb c b'\r' || c == b' '

-- `strings.TrimLeftFunc`
abbrev pub trim_left : (ℕ → Bool) → Bytes → Bytes
trim_left p [] = []
trim_left p (c ∷ s) = if p c then trim_left p s else c ∷ s

abbrev pub trim_cons : (ℕ → Bool) → ℕ → Bytes → Bytes
trim_cons p c [] = if p c then [] else c ∷ []
trim_cons p c (d ∷ s) = c ∷ d ∷ s

-- `strings.TrimRightFunc`
abbrev pub trim_right : (ℕ → Bool) → Bytes → Bytes
trim_right p [] = []
trim_right p (c ∷ s) = trim_cons p c (trim_right p s)

-- `strings.TrimSpace`
unfoldable pub trim_space : Bytes → Bytes
trim_space s = trim_right is_space (trim_left is_space s)

-- `strings.Trim(s, string(c))`
unfoldable pub trim_byte : ℕ → Bytes → Bytes
trim_byte c s = trim_right (λ a. a == c) (trim_left (λ a. a == c) s)

-- `strings.Fields`: the parts between the spaces that are not empty.
abbrev field_cons : ℕ → Bytes → List Bytes → List Bytes
field_cons a [] ps = (a ∷ []) ∷ ps
field_cons a (c ∷ s) [] = (a ∷ []) ∷ []
field_cons a (c ∷ s) (p ∷ ps) = if is_space c then (a ∷ []) ∷ p ∷ ps else (a ∷ p) ∷ ps

unfoldable pub fields : Bytes → List Bytes
fields [] = []
fields (a ∷ s) = if is_space a then fields s else field_cons a s (fields s)
