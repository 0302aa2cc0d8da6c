-- ===== src/Sorter.antt =====
-- crates/vivacity-autoload/src/sorter.rs: packages in the order of their weights, which their users
-- lower, and of their names. A sorted map is an association list, a set a list. A weight, an `i64`,
-- is unbounded here: it is minus a number of chains of users.
pub mod Weights
pub mod Ordered
use vivace.Common.{
  ℕ, zero, suc, ◌+◌, ◌-◌, leb, ℤ, pos, negsuc, pos_part, neg_part, Bool, true, false, not, ◌||◌,
  Option, none, some, List, [], ◌∷◌, ◌++◌, map, length, get_elem?, if◌then◌else◌,
}
use vivace.PhpVer.{Bytes, eqb_bytes, Ordering, less, equal, greater, cmp_ℤ, is_greater}
use vivace.NatSort.{strnatcasecmp}

pub record SortablePackage : Type 0 where
  pub name : Bytes
  pub requires : List Bytes

-- From the target of a requirement to the names of those that require it.
abbrev pub Usage : Type 0
Usage = List (Bytes × List Bytes)

-- `usage.entry(target).or_default().push(name)`.
abbrev pub push_user : Usage → Bytes → Bytes → Usage
push_user [] target name = (target, name ∷ []) ∷ []
push_user ((key, users) ∷ usage) target name =
    let rest = push_user usage target name in
    if eqb_bytes key target then (key, users ++ name ∷ []) ∷ usage else (key, users) ∷ rest

abbrev pub push_users : Usage → Bytes → List Bytes → Usage
push_users usage name [] = usage
push_users usage name (target ∷ targets) = push_users (push_user usage target name) name targets

abbrev pub usage_of : Usage → List SortablePackage → Usage
usage_of usage [] = usage
usage_of usage (p ∷ ps) = usage_of (push_users usage p.name p.requires) ps

abbrev pub lookup : {A : Type 0} → List (Bytes × A) → Bytes → Option A
lookup [] name = none
lookup ((key, value) ∷ entries) name =
    let rest = lookup entries name in if eqb_bytes key name then some value else rest

-- `usage.get(name)`, of which a missing name has no users.
abbrev pub users_of : Usage → Bytes → List Bytes
users_of usage name = elim (lookup usage name) [ some users ↦ users | none ↦ [] ]

abbrev pub contains_name : List Bytes → Bytes → Bool
contains_name [] name = false
contains_name (n ∷ ns) name = eqb_bytes n name || contains_name ns name

abbrev pub remove_name : List Bytes → Bytes → List Bytes
remove_name [] name = []
remove_name (n ∷ ns) name =
    let rest = remove_name ns name in if eqb_bytes n name then rest else n ∷ rest

pub record Ctx : Type 0 where
  pub computing : List Bytes
  pub computed : List (Bytes × ℤ)

-- `a - b`.
abbrev pub sub_ℤ : ℤ → ℤ → ℤ
sub_ℤ a b =
    let plus = pos_part a + neg_part b in
    let minus = neg_part a + pos_part b in
    if leb minus plus then pos (plus - minus) else negsuc (minus - plus - 1)

abbrev pub Weighed : Type 0
Weighed = Option (Ctx × ℤ)

-- The loop over the users: `weight -= 1 - importance(ctx, user)`.
abbrev pub visit_users : (Ctx → Bytes → Weighed) → Ctx → ℤ → List Bytes → Weighed
visit_users visit ctx weight [] = some (ctx, weight)
visit_users visit ctx weight (user ∷ users) = elim (visit ctx user) [
  | none ↦ none
  | some p ↦ visit_users visit p.0 (sub_ℤ weight (sub_ℤ (pos 1) p.1)) users
]

-- The weight is stored.
abbrev pub store : Bytes → Weighed → Weighed
store name none = none
store name (some (ctx, weight)) = some (
  record { computing = remove_name ctx.computing name; computed = (name, weight) ∷ ctx.computed },
  weight,
)

-- The fuel is the depth of the calls; without fuel there is no result.
unfoldable pub importance : ℕ → Usage → Ctx → Bytes → Weighed
importance zero usage ctx name = none
importance (suc fuel) usage ctx name = elim (lookup ctx.computed name) [
  | some weight ↦ some (ctx, weight)
  | none ↦ elim (contains_name ctx.computing name) [
    | true ↦ some (ctx, pos 0)
    | false ↦ store name (
        visit_users (importance fuel usage) (record ctx { computing = name ∷ ctx.computing })
          (pos 0) (users_of usage name))
  ]
]

abbrev pub Weighted : Type 0
Weighted = List (ℤ × ℕ)

-- The packages from the index on, with their weights.
abbrev pub weigh : ℕ → Usage → Ctx → ℕ → List SortablePackage → Option Weighted
unfolding importance
weigh fuel usage ctx i [] = some []
weigh fuel usage ctx i (p ∷ ps) = elim (importance fuel usage ctx p.name) [
  | none ↦ none
  | some q ↦ elim (weigh fuel usage q.0 (i + 1) ps) [ none ↦ none | some ws ↦ some ((q.1, i) ∷ ws) ]
]

unfoldable pub weighted : List SortablePackage → Option Weighted
weighted packages =
    weigh (suc (length packages)) (usage_of [] packages) (record { computing = []; computed = [] })
      0 packages

-- `packages[i].name`, for an index of the list.
abbrev pub name_at : List SortablePackage → ℕ → Bytes
name_at packages i = elim (get_elem? packages i) [ some p ↦ p.name | none ↦ [] ]

abbrev pub then_with : Ordering → Ordering → Ordering
then_with less o = less
then_with equal o = o
then_with greater o = greater

unfoldable pub order : List SortablePackage → ℤ × ℕ → ℤ × ℕ → Ordering
unfolding strnatcasecmp
order packages (wa, ia) (wb, ib) =
    then_with (cmp_ℤ wa wb) (strnatcasecmp (name_at packages ia) (name_at packages ib))

-- `sort_by`, which is stable, as an insertion sort.
abbrev pub insert_by : (ℤ × ℕ → ℤ × ℕ → Ordering) → ℤ × ℕ → Weighted → Weighted
insert_by compare x [] = x ∷ []
insert_by compare x (y ∷ ys) =
    let rest = insert_by compare x ys in if is_greater (compare x y) then y ∷ rest else x ∷ y ∷ ys

abbrev pub sort_by : (ℤ × ℕ → ℤ × ℕ → Ordering) → Weighted → Weighted
sort_by compare [] = []
sort_by compare (x ∷ xs) = insert_by compare x (sort_by compare xs)

unfoldable pub sort_packages : List SortablePackage → Option (List ℕ)
unfolding weighted order
sort_packages packages = elim (weighted packages) [
  | none ↦ none
  | some ws ↦ some (map (λ w. w.1) (sort_by (order packages) ws))
]
