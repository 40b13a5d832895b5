-- ===== src/Prelude/Order.antt =====
-- `strings.Compare` is a total order on strings. An order value stands for Go's -1, 0 and 1.
use Prim.Native.Nat.{Ordering}
use mathlib.Core.Path.{◌≡◌, refl}
use mathlib.Core.Logic.{◌⊎◌, inl, inr}
use mathlib.Core.Bool.{Bool, true, false}
use mathlib.Core.List.{[], ◌∷◌}
use native.Mathlib.Omega.{arith}
use release_me.Prelude.Strings.{Bytes, bytes_compare}

-- the sign of an order value turned round
abbrev pub flip : Ordering → Ordering
flip Ordering.lt = Ordering.gt
flip Ordering.eq = Ordering.eq
flip Ordering.gt = Ordering.lt

pub Ordering-cases : (c : Ordering) → (c ≡ Ordering.lt) ⊎ ((c ≡ Ordering.eq) ⊎ (c ≡ Ordering.gt))
Ordering-cases Ordering.lt = inl refl
Ordering-cases Ordering.eq = inr (inl refl)
Ordering-cases Ordering.gt = inr (inr refl)

-- `c <= 0`
abbrev pub is_le : Ordering → Bool
is_le Ordering.gt = false
is_le _ = true

-- `c < 0`
abbrev pub is_lt : Ordering → Bool
is_lt Ordering.lt = true
is_lt _ = false

-- `c == 0`
abbrev pub is_eq : Ordering → Bool
is_eq Ordering.eq = true
is_eq _ = false

pub bytes_compare_refl : (x : Bytes) → bytes_compare x x ≡ Ordering.eq
bytes_compare_refl [] = refl
bytes_compare_refl (a ∷ x) = ground (arith, bytes_compare_refl x)

pub bytes_compare_eq : (x y : Bytes) → bytes_compare x y ≡ Ordering.eq → x ≡ y
bytes_compare_eq [] [] h = refl
bytes_compare_eq [] (b ∷ y) h = cc
bytes_compare_eq (a ∷ x) [] h = cc
bytes_compare_eq (a ∷ x) (b ∷ y) h = ground (arith, bytes_compare_eq x y)

pub bytes_compare-flip : (x y : Bytes) → bytes_compare y x ≡ flip (bytes_compare x y)
bytes_compare-flip [] [] = refl
bytes_compare-flip [] (b ∷ y) = refl
bytes_compare-flip (a ∷ x) [] = refl
bytes_compare-flip (a ∷ x) (b ∷ y) = ground (arith, bytes_compare-flip x y)

pub bytes_compare_trans :
    (x y z : Bytes)
    → bytes_compare x y ≡ Ordering.lt
    → bytes_compare y z ≡ Ordering.lt
    → bytes_compare x z ≡ Ordering.lt
bytes_compare_trans [] [] z h k = cc
bytes_compare_trans [] (b ∷ y) [] h k = cc
bytes_compare_trans [] (b ∷ y) (c ∷ z) h k = refl
bytes_compare_trans (a ∷ x) [] z h k = cc
bytes_compare_trans (a ∷ x) (b ∷ y) [] h k = cc
bytes_compare_trans (a ∷ x) (b ∷ y) (c ∷ z) h k = ground (arith, bytes_compare_trans x y z)
