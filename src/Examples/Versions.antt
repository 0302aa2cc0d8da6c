-- ===== src/Examples/Versions.antt =====
-- The comparison of versions and the matching of constraints at concrete versions.
use vivace.Common.{true, false, ◌≡◌, refl, some, [], ◌∷◌, not, ◌&&◌}
use vivace.PhpVer.{
  Bytes, less, equal, greater, is_plain_dotted, canonicalize, version_compare, compare_canonical,
  compare_canonical_in,
}
use vivace.PhpVer.Canonical.{version_compare-canonicalize}
use vivace.PhpVer.Order.{reverse, version_compare-reverse, compare_canonical-depth}
use vivace.Constraint.{
  Op, Constraint, single, multi, nil, cons, matches_version, Bound, compare_to, upper_bound,
}
use vivace.Constraint.Bounds.{admits, compare_to_lem}
use vivace.Constraint.Matching.{holds_for, matches_version_lem}

-- "1.9", "1.10", "2.0", "1.10RC1" and "dev-a"
abbrev v1_9 : Bytes
v1_9 = 49 ∷ 46 ∷ 57 ∷ []

abbrev v1_10 : Bytes
v1_10 = 49 ∷ 46 ∷ 49 ∷ 48 ∷ []

abbrev v2_0 : Bytes
v2_0 = 50 ∷ 46 ∷ 48 ∷ []

abbrev v1_10_rc1 : Bytes
v1_10_rc1 = 49 ∷ 46 ∷ 49 ∷ 48 ∷ 82 ∷ 67 ∷ 49 ∷ []

abbrev dev_a : Bytes
dev_a = 100 ∷ 101 ∷ 118 ∷ 45 ∷ 97 ∷ []

canonical_rc1 : canonicalize v1_10_rc1 ≡ 49 ∷ 46 ∷ 49 ∷ 48 ∷ 46 ∷ 82 ∷ 67 ∷ 46 ∷ 49 ∷ []
unfolding canonicalize
canonical_rc1 = refl

version_compare-canonicalize_example :
    (version_compare v1_10 v1_9 ≡ compare_canonical (canonicalize v1_10) (canonicalize v1_9))
    × (canonicalize v1_10 ≡ v1_10)
unfolding is_plain_dotted
version_compare-canonicalize_example = version_compare-canonicalize v1_10 v1_9

fast_path : version_compare v1_10 v1_9 ≡ greater
unfolding version_compare
fast_path = refl

release_candidate : version_compare v1_10_rc1 v1_10 ≡ less
unfolding version_compare
release_candidate = refl

version_compare-reverse_example :
    (version_compare v1_10 v1_10_rc1 ≡ reverse (version_compare v1_10_rc1 v1_10))
    × (version_compare v1_10_rc1 v1_10_rc1 ≡ equal)
version_compare-reverse_example = version_compare-reverse v1_10_rc1 v1_10

compare_canonical-depth_example :
    compare_canonical_in 5 v1_10 (canonicalize v1_10_rc1)
    ≡ some (compare_canonical v1_10 (canonicalize v1_10_rc1))
compare_canonical-depth_example = compare_canonical-depth 3 v1_10 (canonicalize v1_10_rc1)

-- ">= 1.10, < 2.0 || dev-a"
abbrev ranges : Constraint
ranges =
    multi
      (cons (multi (cons (single Op.ge v1_10) (cons (single Op.lt v2_0) nil)) true)
        (cons (single Op.eq dev_a) nil))
      false

matches_version_lem_example : matches_version ranges v1_9 ≡ some (holds_for v1_9 ranges)
matches_version_lem_example = matches_version_lem ranges v1_9

matches_dev : matches_version ranges dev_a ≡ some true
unfolding matches_version
matches_dev = refl

abbrev above : Bound
above = record { version = v1_10; inclusive = true }

abbrev below : Bound
below = record { version = v1_10; inclusive = false }

compare_to_lem_example :
    (compare_to below above true ≡ (admits above v1_10 && not (admits below v1_10)))
    × (compare_to below above false ≡ (admits below v1_10 && not (admits above v1_10)))
compare_to_lem_example = compare_to_lem below above (λ e. refl)

upper_of_range :
    (upper_bound (multi (cons (single Op.ge v1_10) (cons (single Op.lt v2_0) nil)) true)).version
    ≡ v2_0
unfolding upper_bound version_compare
upper_of_range = refl
