-- ===== src/Constraint.antt =====
-- crates/vivacity-resolver/src/constraint.rs: constraints on versions and how they match, and the
-- link of crates/vivacity-resolver/src/package.rs.
pub mod Matching
pub mod Bounds
use vivace.Common.{
  ℕ, zero, suc, ◌+◌, ◌*◌, Option, none, some, Bool, true, false, not, ◌&&◌, ◌||◌, List, [], ◌∷◌,
  if◌then◌else◌,
}
use vivace.PhpVer.{
  Bytes, eqb_bytes, starts_with, version_compare, version_compare_op, is_less, is_equal, is_greater,
}

pub data Op : Type 0 where
  eq lt le gt ge ne : Op

-- "==", "<", "<=", ">", ">=" and "!="
abbrev pub as_str : Op → Bytes
as_str Op.eq = 61 ∷ 61 ∷ []
as_str Op.lt = 60 ∷ []
as_str Op.le = 60 ∷ 61 ∷ []
as_str Op.gt = 62 ∷ []
as_str Op.ge = 62 ∷ 61 ∷ []
as_str Op.ne = 33 ∷ 61 ∷ []

abbrev pub no_equal : Op → Bytes
no_equal Op.eq = []
no_equal Op.lt = 60 ∷ []
no_equal Op.le = 60 ∷ []
no_equal Op.gt = 62 ∷ []
no_equal Op.ge = 62 ∷ []
no_equal Op.ne = 33 ∷ []

abbrev pub is_eq : Op → Bool
is_eq Op.eq = true
is_eq _ = false

abbrev pub is_ne : Op → Bool
is_ne Op.ne = true
is_ne _ = false

mutual
  pub data Constraint : Type 0 where
    -- operator and normalized version
    single : Op → Bytes → Constraint
    -- members, and whether all of them must hold
    multi : Constraints → Bool → Constraint
    match_all match_none : Constraint

  pub data Constraints : Type 0 where
    nil : Constraints
    cons : Constraint → Constraints → Constraints

-- `starts_with("dev-")`.
abbrev pub is_branch : Bytes → Bool
is_branch v = starts_with v (100 ∷ 101 ∷ 118 ∷ 45 ∷ [])

unfoldable pub version_compare_branches : Bytes → Bytes → Op → Bool → Bool
version_compare_branches a b op compare_branches =
    if is_ne op && (is_branch a || is_branch b)
    then not (eqb_bytes a b)
    else if is_branch a && is_branch b
    then is_eq op && eqb_bytes a b
    else if not compare_branches && (is_branch a || is_branch b)
    then false
    else version_compare_op a b (as_str op)

-- The last part of `match_specific`, for operators other than `!=`.
unfoldable pub match_ordered : Op → Bytes → Op → Bytes → Bool → Bool
unfolding version_compare_branches
match_ordered op version pop pversion compare_branches =
    (if is_eq op
      then version_compare_branches version pversion pop compare_branches
      else version_compare_branches pversion version op compare_branches)
    && not (
        eqb_bytes (as_str pop) (no_equal pop)
        && (not (eqb_bytes (as_str op) (no_equal op))
            && version_compare_op pversion version (61 ∷ 61 ∷ [])))

-- `match_specific` on two leaves.
unfoldable pub match_specific : Op → Bytes → Op → Bytes → Bool → Bool
unfolding match_ordered version_compare_branches
match_specific op version pop pversion compare_branches =
    if is_ne op || is_ne pop
    then (if is_ne op && (not (is_ne pop) && (not (is_eq pop) && is_branch pversion))
        then false
        else if is_ne pop && (not (is_ne op) && (not (is_eq op) && is_branch version))
        then false
        else if not (is_eq op) && not (is_eq pop)
        then true
        else version_compare_branches pversion version Op.ne compare_branches)
    else if not (is_eq op) && eqb_bytes (no_equal op) (no_equal pop)
    then not (is_branch version || is_branch pversion)
    else match_ordered op version pop pversion compare_branches

-- `any` and `all` over the members, each of which may run out of fuel.
abbrev pub matches_any : (Constraint → Option Bool) → Constraints → Option Bool
matches_any again nil = some false
matches_any again (cons c cs) = elim (again c) [
  | none ↦ none
  | some b ↦ elim b [ true ↦ some true | false ↦ matches_any again cs ]
]

abbrev pub matches_all : (Constraint → Option Bool) → Constraints → Option Bool
matches_all again nil = some true
matches_all again (cons c cs) = elim (again c) [
  | none ↦ none
  | some b ↦ elim b [ true ↦ matches_all again cs | false ↦ some false ]
]

unfoldable pub matches_in : ℕ → Constraint → Constraint → Option Bool
unfolding match_specific
matches_in zero c provider = none
matches_in (suc fuel) match_all provider = some true
matches_in (suc fuel) match_none provider = some false
matches_in (suc fuel) (single op v) (single pop pv) = some (match_specific op v pop pv false)
matches_in (suc fuel) (single op v) (multi ds conj) = matches_in fuel (multi ds conj) (single op v)
matches_in (suc fuel) (single op v) match_all = matches_in fuel match_all (single op v)
matches_in (suc fuel) (single op v) match_none = matches_in fuel match_none (single op v)
matches_in (suc fuel) (multi cs false) provider = matches_any (λ c. matches_in fuel provider c) cs
matches_in (suc fuel) (multi cs true) (multi ds false) =
    matches_in fuel (multi ds false) (multi cs true)
matches_in (suc fuel) (multi cs true) (multi ds true) =
    matches_all (λ c. matches_in fuel (multi ds true) c) cs
matches_in (suc fuel) (multi cs true) (single pop pv) =
    matches_all (λ c. matches_in fuel (single pop pv) c) cs
matches_in (suc fuel) (multi cs true) match_all = matches_all (λ c. matches_in fuel match_all c) cs
matches_in (suc fuel) (multi cs true) match_none =
    matches_all (λ c. matches_in fuel match_none c) cs

abbrev mutual
  pub size : Constraint → ℕ
  size (single op v) = 1
  size (multi cs conj) = suc (sizes cs)
  size match_all = 1
  size match_none = 1

  pub sizes : Constraints → ℕ
  sizes nil = 0
  sizes (cons c cs) = size c + sizes cs

-- Each call goes into a member, or exchanges the two constraints, which it does not do twice in a row.
unfoldable pub matches : Constraint → Constraint → Option Bool
unfolding matches_in
matches c provider = matches_in (2 * (size c + size provider) + 2) c provider

unfoldable pub matches_version : Constraint → Bytes → Option Bool
unfolding matches
matches_version c version = matches c (single Op.eq version)

pub record Bound : Type 0 where
  pub version : Bytes
  pub inclusive : Bool

-- "0.0.0.0-dev"
abbrev pub zero_version : Bytes
zero_version = 48 ∷ 46 ∷ 48 ∷ 46 ∷ 48 ∷ 46 ∷ 48 ∷ 45 ∷ 100 ∷ 101 ∷ 118 ∷ []

-- "9223372036854775807.0.0.0"
abbrev infinite_version : Bytes
infinite_version =
    57 ∷ 50 ∷ 50 ∷ 51 ∷ 51 ∷ 55 ∷ 50 ∷ 48 ∷ 51 ∷ 54 ∷ 56 ∷ 53 ∷ 52 ∷ 55 ∷ 55 ∷ 53 ∷ 56 ∷ 48 ∷ 55
    ∷ 46 ∷ 48 ∷ 46 ∷ 48 ∷ 46 ∷ 48 ∷ []

abbrev pub bound_zero : Bound
bound_zero = record { version = zero_version; inclusive = true }

abbrev pub positive_infinity : Bound
positive_infinity = record { version = infinite_version; inclusive = false }

unfoldable pub is_zero : Bound → Bool
is_zero b = eqb_bytes b.version zero_version && b.inclusive

unfoldable pub is_positive_infinity : Bound → Bool
is_positive_infinity b = eqb_bytes b.version infinite_version && not b.inclusive

abbrev pub eqb_bool : Bool → Bool → Bool
eqb_bool a b = if a then b else not b

-- `==` of the derived `PartialEq`.
abbrev pub eqb_bound : Bound → Bound → Bool
eqb_bound a b = eqb_bytes a.version b.version && eqb_bool a.inclusive b.inclusive

-- `compare_to` with ">" if `up`, and with "<" otherwise.
unfoldable pub compare_to : Bound → Bound → Bool → Bool
compare_to a b up =
    if eqb_bound a b
    then false
    else if not (is_equal (version_compare a.version b.version))
    then (if up
        then is_greater (version_compare a.version b.version)
        else is_less (version_compare a.version b.version))
    else if up
    then b.inclusive
    else not b.inclusive

abbrev at : Bytes → Bool → Bound
at version inclusive = record { version = version; inclusive = inclusive }

-- The bounds of a leaf that is not a branch.
abbrev op_bounds : Op → Bytes → Bound × Bound
op_bounds Op.eq v = (at v true, at v true)
op_bounds Op.lt v = (bound_zero, at v false)
op_bounds Op.le v = (bound_zero, at v true)
op_bounds Op.gt v = (at v false, positive_infinity)
op_bounds Op.ge v = (at v true, positive_infinity)
op_bounds Op.ne v = (bound_zero, positive_infinity)

-- One round of the loop over the members.
abbrev tighten : Bool → Bound × Bound → Option (Bound × Bound) → Option (Bound × Bound)
tighten conjunctive (l, u) none = some (l, u)
tighten conjunctive (l, u) (some (cl, cu)) = some (
  if compare_to l cl conjunctive then l else cl,
  if compare_to u cu (not conjunctive) then u else cu,
)

abbrev or_unbounded : Option (Bound × Bound) → Bound × Bound
or_unbounded none = (bound_zero, positive_infinity)
or_unbounded (some b) = b

-- `bounds`: the lower and the upper one.
unfoldable mutual
  unfolding compare_to

  pub bounds : Constraint → Bound × Bound
  bounds match_all = (bound_zero, positive_infinity)
  bounds match_none = (at zero_version false, at zero_version false)
  bounds (single op v) = if is_branch v then (bound_zero, positive_infinity) else op_bounds op v
  bounds (multi cs conjunctive) = or_unbounded (bounds_of_members conjunctive cs none)

  bounds_of_members : Bool → Constraints → Option (Bound × Bound) → Option (Bound × Bound)
  bounds_of_members conjunctive nil sofar = sofar
  bounds_of_members conjunctive (cons c cs) sofar =
      bounds_of_members conjunctive cs (tighten conjunctive (bounds c) sofar)

unfoldable pub lower_bound : Constraint → Bound
unfolding bounds
lower_bound c = (bounds c).0

unfoldable pub upper_bound : Constraint → Bound
unfolding bounds
upper_bound c = (bounds c).1

pub data LinkType : Type 0 where
  require dev_require conflict provide replace : LinkType

pub record Link : Type 0 where
  pub key : Option Bytes
  pub source : Bytes
  pub target : Bytes
  pub constraint : Constraint
  pub pretty_constraint : Bytes
  pub kind : LinkType
