-- ===== src/Common/Sort.antt =====
-- `sort_unstable` on integers, as an insertion sort: equal integers are the same, so every sort
-- gives this list.
use mathlib.Core.Path.{◌≡◌, refl}
use mathlib.Core.Bool.{Bool, true, false, ◌||◌}
use mathlib.Core.List.{List, [], ◌∷◌}
use native.Mathlib.Omega.{arith}
use vivace.Common.Tests.{if◌then◌else◌}
use vivace.Common.Int.{ℤ, eqb_ℤ, leb_ℤ}

abbrev pub insert_sorted : ℤ → List ℤ → List ℤ
insert_sorted a [] = a ∷ []
insert_sorted a (x ∷ xs) = if leb_ℤ a x then a ∷ x ∷ xs else x ∷ insert_sorted a xs

unfoldable pub sort_unstable : List ℤ → List ℤ
sort_unstable [] = []
sort_unstable (x ∷ xs) = insert_sorted x (sort_unstable xs)

-- `contains` and the membership test of a set of integers.
abbrev pub elem : ℤ → List ℤ → Bool
elem k [] = false
elem k (x ∷ xs) = eqb_ℤ k x || elem k xs

abbrev pub Ascending : List ℤ → Type 0
Ascending [] = Unit
Ascending (x ∷ []) = Unit
Ascending (x ∷ y ∷ ys) = (leb_ℤ x y ≡ true) × Ascending (y ∷ ys)

elem-insert_sorted :
    (k a : ℤ) (xs : List ℤ) → elem k (insert_sorted a xs) ≡ (eqb_ℤ k a || elem k xs)
elem-insert_sorted k a [] = refl
elem-insert_sorted k a (x ∷ xs) = ground (arith, elem-insert_sorted k a xs)

pub elem-sort_unstable : (k : ℤ) (xs : List ℤ) → elem k (sort_unstable xs) ≡ elem k xs
unfolding sort_unstable
elem-sort_unstable k [] = refl
elem-sort_unstable k (x ∷ xs) =
    ground (arith, elem-insert_sorted k x (sort_unstable xs), elem-sort_unstable k xs)

insert_sorted-Ascending : (a : ℤ) (xs : List ℤ) → Ascending xs → Ascending (insert_sorted a xs)
insert_sorted-Ascending a [] s = tt
insert_sorted-Ascending a (x ∷ []) s = ground arith
insert_sorted-Ascending a (x ∷ y ∷ ys) s = ground (arith, insert_sorted-Ascending a (y ∷ ys))

pub sort_unstable-Ascending : (xs : List ℤ) → Ascending (sort_unstable xs)
unfolding sort_unstable
sort_unstable-Ascending [] = tt
sort_unstable-Ascending (x ∷ xs) =
    insert_sorted-Ascending x (sort_unstable xs) (sort_unstable-Ascending xs)
