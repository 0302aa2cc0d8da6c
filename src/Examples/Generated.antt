-- ===== src/Examples/Generated.antt =====
-- The rules for a request of package "a", which requires "b", of which there are two versions.
use vivace.Common.{
  ℕ, zero, suc, ℤ, pos, neg, false, ◌≡◌, refl, Option, none, some, List, [], ◌∷◌, if◌then◌else◌,
  sort_unstable, true, ◌↔◌, Bool-cases, inl, inr, arith,
}
use vivace.Outcome.{ok, ◌>>=◌}
use vivace.PhpVer.{Bytes, eqb_bytes}
use vivace.Constraint.{Constraint, match_all, Link, LinkType}
use vivace.Rule.{Rule, add, empty, new_generic, new_two_literals}
use vivace.RulesGen
use vivace.RulesGen.{Package, Pool, Filter, Request, rules_for, add_requires}
use vivace.RulesGen.Requires.{AllIds, all_met, AllHold-add_requires}
use vivace.Watch.Semantics.{Assignment, AllHold}

abbrev a_name : Bytes
a_name = 97 ∷ []

abbrev b_name : Bytes
b_name = 98 ∷ []

abbrev plain : Bytes → List Link → Package
plain name requires = record {
  name = name;
  version = 49 ∷ [];
  names = name ∷ [];
  requires = requires;
  conflicts = [];
  alias_of = none;
  has_self_version_requires = false;
  root_package_alias = false;
}

abbrev a_to_b : Link
a_to_b = record {
  key = some b_name;
  source = a_name;
  target = b_name;
  constraint = match_all;
  pretty_constraint = 42 ∷ [];
  kind = LinkType.require;
}

abbrev three : ℕ → Option Package
three zero = some (plain a_name (a_to_b ∷ []))
three (suc zero) = some (plain b_name [])
three (suc (suc zero)) = some (plain b_name [])
three (suc (suc (suc n))) = none

abbrev before : ℕ → ℕ
before zero = zero
before (suc n) = n

abbrev pool : Pool
pool = record {
  arena = three;
  size = 3;
  package_by_id = before;
  id_of = λ i. some (suc i);
  what_provides = λ name c. if eqb_bytes name b_name then 2 ∷ 3 ∷ [] else 1 ∷ [];
  is_filter_list_removed = λ name version. false;
  is_unacceptable_fixed_or_locked = λ i. false;
}

abbrev no_filter : Filter
no_filter = record { is_ignored = λ name. false; filter_constraint = λ name c upper. c }

abbrev request : Request
request = record {
  fixed_packages = [];
  is_locked_package = λ i. false;
  requires = (a_name, match_all) ∷ [];
  pretty_require = λ name c. name;
}

abbrev literals_of : List Rule → List (List ℤ)
literals_of [] = []
literals_of (r ∷ rs) = r.literals ∷ literals_of rs

provided_ids : (name : Bytes) (c : Constraint) → AllIds (pool.what_provides name c)
provided_ids name c = elim (Bool-cases (eqb_bytes name b_name)) [
  | inl b ↦ rw b (omega arith, (omega arith, tt))
  | inr other ↦ rw other (omega arith, tt)
]

-- "a" and the second version of "b" are installed.
abbrev installed : Assignment
installed zero = false
installed (suc zero) = true
installed (suc (suc zero)) = false
installed (suc (suc (suc n))) = true

AllHold-add_requires_example :
    AllHold installed (add_requires pool no_filter RulesGen.new 1 (a_to_b ∷ [])).0.rules ↔ (
      AllHold installed RulesGen.new.rules
      × (all_met pool no_filter installed 1 (a_to_b ∷ []) ≡ true))
AllHold-add_requires_example =
    AllHold-add_requires pool no_filter installed 1 RulesGen.new (a_to_b ∷ []) (omega arith)
      provided_ids

requirement_met : all_met pool no_filter installed 1 (a_to_b ∷ []) ≡ true
requirement_met = refl

-- "not 1, or 2 or 3", "1" and "not 2 or not 3".
generated :
    (rules_for pool no_filter 10 request >>= λ s. ok (literals_of s.rules))
    ≡ ok ((neg (pos 1) ∷ pos 2 ∷ pos 3 ∷ []) ∷ (pos 1 ∷ []) ∷ (neg (pos 3) ∷ neg (pos 2) ∷ []) ∷ [])
unfolding rules_for RulesGen.new add empty new_generic sort_unstable new_two_literals
generated = refl
