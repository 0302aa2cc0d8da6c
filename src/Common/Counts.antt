-- ===== src/Common/Counts.antt =====
-- How often a value stands in a list.
use Prim.Native.Nat.{ℕ, zero, suc, ◌+◌}
use mathlib.Core.Path.{◌≡◌}
use mathlib.Core.Option.{some}
use mathlib.Core.List.{List, [], ◌∷◌, ◌++◌}
use native.Mathlib.Omega.{arith}
use vivace.Common.Tests.{◌==◌, if◌then◌else◌}
use vivace.Common.Lists.{get_elem?, remove_at}
use vivace.Common.Int.{ℤ, eqb_ℤ}

abbrev pub count : ℕ → List ℕ → ℕ
count k [] = 0
count k (x ∷ xs) = (if k == x then 1 else 0) + count k xs

-- How often a literal stands in a list.
abbrev pub occurrences : ℤ → List ℤ → ℕ
occurrences k [] = 0
occurrences k (x ∷ xs) = (if eqb_ℤ k x then 1 else 0) + occurrences k xs

pub count-snoc :
    (k : ℕ) (xs : List ℕ) (x : ℕ) → count k (xs ++ x ∷ []) ≡ count k xs + (if k == x then 1 else 0)
count-snoc k [] x = omega arith
count-snoc k (y ∷ xs) x = omega (arith, count-snoc k xs x)

-- An entry that is taken out is one less.
pub count-remove_at :
    (k : ℕ) (xs : List ℕ) (i : ℕ) {x : ℕ}
    → get_elem? xs i ≡ some x
    → count k (remove_at xs i) + (if k == x then 1 else 0) ≡ count k xs
count-remove_at k [] i h = cc
count-remove_at k (y ∷ xs) zero h = ground (arith, h)
count-remove_at k (y ∷ xs) (suc i) h = omega (arith, count-remove_at k xs i h)
