-- ===== src/Constraint/Matching.antt =====
-- What `matches_version` computes: the constraint tree over the comparison of its leaves.
use vivace.Common.{
  ℕ, zero, suc, ◌+◌, ◌*◌, ◌≤◌, ◌<◌, Option, some, Bool, true, false, ◌&&◌, ◌||◌, ◌≡◌, refl, ap,
  arith, Bool-cases, inl, inr,
}
use vivace.PhpVer.{
  Bytes, version_compare_op, version_compare, op_holds, Ordering, less, equal, greater,
}
use vivace.PhpVer.Order.{reverse, version_compare-reverse}
use vivace.Constraint.Bounds.{eqb_bytes_sym}
use vivace.Constraint.{
  Op, as_str, Constraint, Constraints, single, multi, match_all, match_none, nil, cons,
  version_compare_branches, match_ordered, match_specific, matches_any, matches_all, matches_in,
  size, sizes, matches, matches_version,
}

-- The version `v` stands in the relation `op` to `w`.
abbrev pub leaf_holds : Op → Bytes → Bytes → Bool
leaf_holds op w v = version_compare_branches v w op false

abbrev mutual
  -- The tree's value for a version: all members of a conjunction, or one of a disjunction.
  pub holds_for : Bytes → Constraint → Bool
  holds_for v (single op w) = leaf_holds op w v
  holds_for v (multi cs true) = all_hold v cs
  holds_for v (multi cs false) = any_holds v cs
  holds_for v match_all = true
  holds_for v match_none = false

  pub all_hold : Bytes → Constraints → Bool
  all_hold v nil = true
  all_hold v (cons c cs) = holds_for v c && all_hold v cs

  pub any_holds : Bytes → Constraints → Bool
  any_holds v nil = false
  any_holds v (cons c cs) = holds_for v c || any_holds v cs

-- "==" and "!=" do not depend on the order of the versions.
equal_sym :
    (x y : Bytes)
    → (version_compare_op x y (as_str Op.eq) ≡ version_compare_op y x (as_str Op.eq))
      × (version_compare_op x y (as_str Op.ne) ≡ version_compare_op y x (as_str Op.ne))
unfolding version_compare_op
equal_sym x y = swap (version_compare x y) (version_compare y x) (version_compare-reverse x y).0
  where
    swap :
        (c r : Ordering)
        → r ≡ reverse c
        → (op_holds c (as_str Op.eq) ≡ op_holds r (as_str Op.eq))
          × (op_holds c (as_str Op.ne) ≡ op_holds r (as_str Op.ne))
    swap less less e = cc
    swap less equal e = cc
    swap less greater e = (refl, refl)
    swap equal less e = cc
    swap equal equal e = (refl, refl)
    swap equal greater e = cc
    swap greater less e = (refl, refl)
    swap greater equal e = cc
    swap greater greater e = cc

branches_sym :
    (x y : Bytes)
    → (version_compare_branches x y Op.eq false ≡ version_compare_branches y x Op.eq false)
      × (version_compare_branches x y Op.ne false ≡ version_compare_branches y x Op.ne false)
unfolding version_compare_branches
branches_sym x y = ground (arith, equal_sym x y, eqb_bytes_sym x y)

-- A version that is less or greater than another one is not equal to it.
strict_lem :
    (x y : Bytes)
    → (version_compare_op x y (as_str Op.lt) ≡ true → version_compare_op y x (as_str Op.eq) ≡ false)
      × (version_compare_op x y (as_str Op.gt) ≡ true
          → version_compare_op y x (as_str Op.eq) ≡ false)
unfolding version_compare_op
strict_lem x y = strict (version_compare x y) (version_compare y x) (version_compare-reverse x y).0
  where
    strict :
        (c r : Ordering)
        → r ≡ reverse c
        → (op_holds c (as_str Op.lt) ≡ true → op_holds r (as_str Op.eq) ≡ false)
          × (op_holds c (as_str Op.gt) ≡ true → op_holds r (as_str Op.eq) ≡ false)
    strict less less e = cc
    strict less equal e = cc
    strict less greater e = ((λ h. refl), (λ h. refl))
    strict equal r e = ((λ h. cc), (λ h. cc))
    strict greater less e = ((λ h. refl), (λ h. refl))
    strict greater equal e = cc
    strict greater greater e = cc

-- A leaf against a version, in both orders.
leaf_lem :
    (op : Op) (w v : Bytes)
    → (match_specific op w Op.eq v false ≡ leaf_holds op w v)
      × (match_specific Op.eq v op w false ≡ leaf_holds op w v)
unfolding match_specific match_ordered version_compare_branches
leaf_lem Op.eq w v = ground (arith, equal_sym w v, eqb_bytes_sym w v)
leaf_lem Op.lt w v = ground (arith, strict_lem v w)
leaf_lem Op.le w v = ground arith
leaf_lem Op.gt w v = ground (arith, strict_lem v w)
leaf_lem Op.ge w v = ground arith
leaf_lem Op.ne w v = ground (arith, equal_sym w v, eqb_bytes_sym w v)

-- The members of a tree, where each has its value.
matches_any-holds :
    (v : Bytes) (n : ℕ) (again : Constraint → Option Bool)
    → ((c : Constraint) → size c ≤ n → again c ≡ some (holds_for v c))
    → (cs : Constraints) → sizes cs ≤ n
    → matches_any again cs ≡ some (any_holds v cs)
matches_any-holds v n again h nil le = refl
matches_any-holds v n again h (cons c cs) le =
    let rest = matches_any-holds v n again h cs (omega arith) in
    rw (h c (omega arith), matches_any)
      (elim (Bool-cases (holds_for v c)) [ inl t ↦ rw t refl | inr f ↦ rw f rest ])

matches_all-holds :
    (v : Bytes) (n : ℕ) (again : Constraint → Option Bool)
    → ((c : Constraint) → size c ≤ n → again c ≡ some (holds_for v c))
    → (cs : Constraints) → sizes cs ≤ n
    → matches_all again cs ≡ some (all_hold v cs)
matches_all-holds v n again h nil le = refl
matches_all-holds v n again h (cons c cs) le =
    let rest = matches_all-holds v n again h cs (omega arith) in
    rw (h c (omega arith), matches_all)
      (elim (Bool-cases (holds_for v c)) [ inl t ↦ rw t rest | inr f ↦ rw f refl ])

-- With fuel for the tree's size, in both orders.
matches_in-holds :
    (v : Bytes) (fuel : ℕ) (c : Constraint)
    → (2 * size c ≤ fuel → matches_in fuel c (single Op.eq v) ≡ some (holds_for v c))
      × (2 * size c < fuel → matches_in fuel (single Op.eq v) c ≡ some (holds_for v c))
unfolding matches_in
matches_in-holds v zero (single op w) = ((λ le. absurd (omega arith)), (λ le. absurd (omega arith)))
matches_in-holds v zero (multi cs conj) =
    ((λ le. absurd (omega arith)), (λ le. absurd (omega arith)))
matches_in-holds v zero match_all = ((λ le. absurd (omega arith)), (λ le. absurd (omega arith)))
matches_in-holds v zero match_none = ((λ le. absurd (omega arith)), (λ le. absurd (omega arith)))
matches_in-holds v (suc fuel) (single op w) =
    ((λ le. ap some (leaf_lem op w v).0), (λ le. ap some (leaf_lem op w v).1))
matches_in-holds v (suc fuel) (multi cs true) = (
  λ le.
      matches_all-holds v (sizes cs) (λ c. matches_in fuel (single Op.eq v) c)
        (λ c small. (matches_in-holds v fuel c).1 (omega arith)) cs (omega arith),
  λ le. (matches_in-holds v fuel (multi cs true)).0 (omega arith),
)
matches_in-holds v (suc fuel) (multi cs false) = (
  λ le.
      matches_any-holds v (sizes cs) (λ c. matches_in fuel (single Op.eq v) c)
        (λ c small. (matches_in-holds v fuel c).1 (omega arith)) cs (omega arith),
  λ le. (matches_in-holds v fuel (multi cs false)).0 (omega arith),
)
matches_in-holds v (suc fuel) match_all =
    ((λ le. refl), (λ le. (matches_in-holds v fuel match_all).0 (omega arith)))
matches_in-holds v (suc fuel) match_none =
    ((λ le. refl), (λ le. (matches_in-holds v fuel match_none).0 (omega arith)))

-- `matches_version` evaluates the constraint's tree: a conjunction asks for all members, a
-- disjunction for one, and a leaf for the comparison of the version with its own by its operator,
-- however deep it stands and in whichever order the code compares the two. The fuel is enough.
pub matches_version_lem : (c : Constraint) (v : Bytes) → matches_version c v ≡ some (holds_for v c)
unfolding matches_version matches
matches_version_lem c v = (matches_in-holds v (2 * (size c + 1) + 2) c).0 (omega arith)
