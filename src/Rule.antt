-- ===== src/Rule.antt =====
-- crates/vivacity-resolver/src/rule.rs: the reasons of rules, the rules, and the rule set with its
-- deduplication.
pub mod Literals
pub mod Keys
pub mod Index
use vivace.Common.{
  ℕ, zero, suc, ◌==◌, ℤ, eqb_ℤ, ltb_ℤ, Bool, true, false, not, ◌&&◌, ◌||◌, Option, none, some, List,
  [], ◌∷◌, ◌++◌, length, get_elem?, sort_unstable, if◌then◌else◌,
}
use vivace.Constraint.{Constraint, Link}
use vivace.PhpVer.{Bytes}

pub data Reason : Type 0 where
  root_require : (package_name : Bytes) (constraint : Constraint) (pretty : Bytes) → Reason
  fixed : (package_index : ℕ) → Reason
  package_conflict : Link → Reason
  package_requires : Link → Reason
  package_same_name : Bytes → Reason
  learned : ℕ → Reason
  package_alias : (alias : ℕ) → Reason
  package_inverse_alias : (package_index : ℕ) → Reason
  locked_filter_list_removed : (package_index : ℕ) → Reason

unfoldable pub code : Reason → ℕ
code (root_require _ _ _) = 2
code (fixed _) = 3
code (package_conflict _) = 6
code (package_requires _) = 7
code (package_same_name _) = 10
code (learned _) = 12
code (package_alias _) = 13
code (package_inverse_alias _) = 14
code (locked_filter_list_removed _) = 15

pub data RuleKind : Type 0 where
  generic two_literals multi_conflict : RuleKind

pub data RuleType : Type 0 where
  type_package type_request type_learned : RuleType

pub record Rule : Type 0 where
  pub kind : RuleKind
  pub literals : List ℤ
  pub reason : Reason
  -- `none` for a rule that the rule set did not register
  pub rule_type : Option RuleType
  pub disabled : Bool

-- `Rule::generic`, `Rule::two_literals` and `Rule::multi_conflict`.
unfoldable pub new_generic : List ℤ → Reason → Rule
new_generic literals reason = record {
  kind = RuleKind.generic;
  literals = sort_unstable literals;
  reason = reason;
  rule_type = none;
  disabled = false;
}

unfoldable pub new_two_literals : ℤ → ℤ → Reason → Rule
new_two_literals l1 l2 reason = record {
  kind = RuleKind.two_literals;
  literals = if ltb_ℤ l1 l2 then l1 ∷ l2 ∷ [] else l2 ∷ l1 ∷ [];
  reason = reason;
  rule_type = none;
  disabled = false;
}

unfoldable pub new_multi_conflict : List ℤ → Reason → Rule
new_multi_conflict literals reason = record {
  kind = RuleKind.multi_conflict;
  literals = sort_unstable literals;
  reason = reason;
  rule_type = none;
  disabled = false;
}

-- `==` of the derived `PartialEq`.
abbrev pub eqb_kind : RuleKind → RuleKind → Bool
eqb_kind RuleKind.generic RuleKind.generic = true
eqb_kind RuleKind.two_literals RuleKind.two_literals = true
eqb_kind RuleKind.multi_conflict RuleKind.multi_conflict = true
eqb_kind _ _ = false

abbrev pub is_multi : Rule → Bool
is_multi r = eqb_kind r.kind RuleKind.multi_conflict

unfoldable pub is_assertion : Rule → Bool
is_assertion r = eqb_kind r.kind RuleKind.generic && length r.literals == 1

unfoldable pub is_enabled : Rule → Bool
is_enabled r = not r.disabled

-- `required_package`, where `name_of` reads the name of a package in the arena: it is total, where
-- the source indexes the arena and panics on an index out of range.
abbrev required_of : (ℕ → Bytes) → Reason → Option Bytes
required_of name_of (root_require package_name _ _) = some package_name
required_of name_of (fixed p) = some (name_of p)
required_of name_of (locked_filter_list_removed p) = some (name_of p)
required_of name_of (package_requires link) = some link.target
required_of name_of _ = none

unfoldable pub required_package : (ℕ → Bytes) → Rule → Option Bytes
required_package name_of r = required_of name_of r.reason

pub record RuleKey : Type 0 where
  pub kind : RuleKind
  pub literals : List ℤ

abbrev pub eqb_literals : List ℤ → List ℤ → Bool
eqb_literals [] [] = true
eqb_literals (x ∷ xs) (y ∷ ys) = eqb_ℤ x y && eqb_literals xs ys
eqb_literals _ _ = false

abbrev pub eqb_key : RuleKey → RuleKey → Bool
eqb_key a b = eqb_kind a.kind b.kind && eqb_literals a.literals b.literals

-- `keys` is a hash map: an association list with the newest entry first.
pub record RuleSet : Type 0 where
  pub rules : List Rule
  pub rule_by_id : List ℕ
  pub packages : List ℕ
  pub requests : List ℕ
  pub learneds : List ℕ
  pub keys : List (RuleKey × ℕ)

unfoldable pub empty : RuleSet
empty = record {
  rules = [];
  rule_by_id = [];
  packages = [];
  requests = [];
  learneds = [];
  keys = [];
}

abbrev pub contains_key : RuleKey → List (RuleKey × ℕ) → Bool
contains_key k [] = false
contains_key k ((j, _) ∷ m) = eqb_key k j || contains_key k m

abbrev pub key_of : Rule → RuleKey
key_of r = record { kind = r.kind; literals = r.literals }

-- `by_type[slot(rule_type)].push(id)`.
abbrev pub push_of_type : RuleType → ℕ → RuleSet → RuleSet
push_of_type type_package id s = record s { packages = s.packages ++ id ∷ [] }
push_of_type type_request id s = record s { requests = s.requests ++ id ∷ [] }
push_of_type type_learned id s = record s { learneds = s.learneds ++ id ∷ [] }

-- `add`: the rule is stored, and registered only if no identical rule is.
unfoldable pub add : RuleSet → Rule → RuleType → RuleSet × (ℕ × Bool)
add s rule rule_type =
    let id = length s.rules in
    if contains_key (key_of rule) s.keys
    then (record s { rules = s.rules ++ rule ∷ [] }, (id, false))
    else (
      push_of_type rule_type id (record s {
        rules = s.rules ++ record rule { rule_type = some rule_type } ∷ [];
        rule_by_id = s.rule_by_id ++ id ∷ [];
        keys = (key_of rule, id) ∷ s.keys;
      }),
      (id, true),
    )

unfoldable pub len : RuleSet → ℕ
len s = length s.rule_by_id

unfoldable pub is_empty : RuleSet → Bool
is_empty s = length s.rule_by_id == 0

unfoldable pub ids_of_type : RuleSet → RuleType → List ℕ
ids_of_type s type_package = s.packages
ids_of_type s type_request = s.requests
ids_of_type s type_learned = s.learneds

unfoldable pub ids_in_iterator_order : RuleSet → List ℕ
ids_in_iterator_order s = s.packages ++ (s.requests ++ s.learneds)
