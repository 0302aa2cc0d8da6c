-- ===== src/Examples/Sorted.antt =====
-- Two packages that require each other, and one that requires the first.
use vivace.Common.{ℕ, ℤ, ◌≡◌, refl, some, List, [], ◌∷◌, map}
use vivace.NatSort.{strnatcasecmp}
use vivace.Sorter.{SortablePackage, Weighted, weighted, importance, sort_packages}
use vivace.Sorter.Weights.{count_from, index, weighted-Returns}
use vivace.Sorter.Ordered.{AllBefore, count_entry, sort_packages_lem}

-- "b", which requires "a", "a", which requires "b", and "c", which requires "a".
abbrev three_packages : List SortablePackage
three_packages =
    record { name = 98 ∷ []; requires = (97 ∷ []) ∷ [] }
    ∷ record { name = 97 ∷ []; requires = (98 ∷ []) ∷ [] }
    ∷ record { name = 99 ∷ []; requires = (97 ∷ []) ∷ [] }
    ∷ []

sorted_packages : sort_packages three_packages ≡ some (0 ∷ 1 ∷ 2 ∷ [])
unfolding sort_packages strnatcasecmp importance
sorted_packages = refl

weighted-Returns_example :
    (ws : Weighted) × (weighted three_packages ≡ some ws) × (map index ws ≡ 0 ∷ 1 ∷ 2 ∷ [])
weighted-Returns_example = weighted-Returns three_packages

sort_packages_lem_example :
    (ws sorted : Weighted) × (weighted three_packages ≡ some ws)
    × (map index ws ≡ count_from 0 3)
    × (sort_packages three_packages ≡ some (map index sorted))
    × ((w : ℤ × ℕ) → count_entry w sorted ≡ count_entry w ws)
    × AllBefore three_packages sorted
sort_packages_lem_example = sort_packages_lem three_packages
