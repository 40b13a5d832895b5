-- ===== src/Manifest/Search.antt =====
-- `sort.Search` finds the boundary of a monotone test, and so the rank of a name in a sorted manifest.
use release_me.Prelude.{
  ℕ, zero, suc, ◌+◌, ◌-◌, ◌/◌, ◌≤◌, ◌<◌, ◌≡◌, refl, Bool, false, List, [], ◌∷◌, arith, ltb, leb,
  if◌then◌else◌, length, All, Bytes, bytes_compare, is_lt, Ordering, Bool-cases, inl, inr,
  bytes_compare_trans,
}
use release_me.Manifest.{Entry, search_loop, search, at_least}

-- Where the test says `leb r` on the interval, the loop ends at `r` if the fuel covers the interval.
search_loop_finds :
    (f : ℕ → Bool) (r fuel i j : ℕ)
    → ((k : ℕ) → k < j → f k ≡ leb r k)
    → i ≤ r
    → r ≤ j
    → j - i ≤ fuel
    → search_loop f fuel i j ≡ r
unfolding search_loop
search_loop_finds f r zero i j spec lo hi room = omega arith
search_loop_finds f r (suc fuel) i j spec lo hi room =
    let h = (i + j) / 2 in
    elim (Bool-cases (ltb i j)) [
      | inr done ↦ rw done (ground arith)
      | inl more ↦
          let here = spec h (ground arith) in
          elim (Bool-cases (f h)) [
            | inl up ↦
                rw (more, up)
                  (search_loop_finds f r fuel i h (λ k lt. spec k (ground arith)) lo (ground arith)
                    (ground arith))
            | inr down ↦
                rw (more, down)
                  (search_loop_finds f r fuel (h + 1) j spec (ground arith) hi (ground arith))
          ]
    ]

-- The binary search over n indices ends within n rounds at r, if r is at most n and the test
-- holds below n exactly from r on.
pub search_finds :
    (f : ℕ → Bool) (r n : ℕ) → ((k : ℕ) → k < n → f k ≡ leb r k) → r ≤ n → search n f ≡ r
unfolding search
search_finds f r n spec hi = search_loop_finds f r n 0 n spec (omega arith) hi (omega arith)

-- `x < y` in byte order
abbrev pub NameLt : Bytes → Bytes → Type 0
NameLt x y = bytes_compare x y ≡ Ordering.lt

-- Strictly ascending names: sorted, with no duplicate.
abbrev pub IsSorted : List Entry → Type 0
IsSorted [] = Unit
IsSorted (e ∷ es) = All (λ d. NameLt e.name d.name) es × IsSorted es

-- the number of entries before the first one with a name that is not below `name`
abbrev pub rank : Bytes → List Entry → ℕ
rank name [] = 0
rank name (e ∷ es) =
    let rest = rank name es in if is_lt (bytes_compare e.name name) then suc rest else 0

pub rank-le : (name : Bytes) (es : List Entry) → rank name es ≤ length es
rank-le name [] = omega arith
rank-le name (e ∷ es) = ground (arith, rank-le name es)

rank-zero :
    (name x : Bytes) (es : List Entry)
    → is_lt (bytes_compare x name) ≡ false
    → All (λ d. NameLt x d.name) es
    → rank name es ≡ 0
rank-zero name x [] h a = refl
rank-zero name x (e ∷ es) h (he, hes) = ground (arith, bytes_compare_trans x e.name name he)

at_least-rank :
    (name : Bytes) (es : List Entry) (k : ℕ)
    → IsSorted es
    → k < length es
    → at_least es name k ≡ leb (rank name es) k
at_least-rank name [] k s h = absurd (omega arith)
at_least-rank name (e ∷ es) zero s h = ground arith
at_least-rank name (e ∷ es) (suc k) (se, s) h =
    ground (arith, at_least-rank name es k s, rank-zero name e.name es)

pub search-rank :
    (name : Bytes) (es : List Entry)
    → IsSorted es
    → search (length es) (at_least es name) ≡ rank name es
search-rank name es s =
    search_finds (at_least es name) (rank name es) (length es) (λ k h. at_least-rank name es k s h)
      (rank-le name es)
