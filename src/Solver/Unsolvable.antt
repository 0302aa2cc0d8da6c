-- ===== src/Solver/Unsolvable.antt =====
-- `analyze_unsolvable` of crates/vivacity-resolver/src/solver.rs: the problem of a conflict at
-- level 1, its learned rules replaced by the rules that they were learned from.
use vivace.Common.{
  ℕ, zero, suc, ◌==◌, ℤ, abs, true, false, Option, none, some, List, [], ◌∷◌, ◌++◌, length,
  get_elem?, mem, if◌then◌else◌,
}
use vivace.Outcome.{Outcome, ok, err, ◌>>=◌, panic, out_of_fuel}
use vivace.Decisions.{Decisions, satisfy, at_offset}
use vivace.Rule.{RuleType, type_package, type_learned}
use vivace.Watch.{rule_at}
use vivace.Problem
use vivace.Problem.{Problem, add_rule, next_section}
use vivace.Solver.{Solver}

-- `learned_why[&rule]`, which panics on a missing key.
unfoldable pub why_of : ℕ → List (ℕ × ℕ) → Outcome ℕ
why_of rule [] = err panic
why_of rule ((r, why) ∷ m) = if rule == r then ok why else why_of rule m

unfoldable pub pool_at : List (List ℕ) → ℕ → Outcome (List ℕ)
pool_at pool why = elim (get_elem? pool why) [ none ↦ err panic | some rules ↦ ok rules ]

abbrev pub Visit : Type 0
Visit = Problem × List ℕ

-- The loop over the rules behind a learned rule, with the visit of one rule.
unfoldable pub visit_all : (ℕ → Visit → Outcome Visit) → List ℕ → Visit → Outcome Visit
visit_all visit [] v = ok v
visit_all visit (r ∷ rs) v = (if mem r v.1 then ok v else visit r v) >>= λ w. visit_all visit rs w

-- What is done with a rule of this type.
abbrev pub visit_type :
    Option RuleType → Outcome Visit → Outcome Visit → Outcome Visit → Outcome Visit
visit_type (some type_learned) on_learned on_package other = on_learned
visit_type (some type_package) on_learned on_package other = on_package
visit_type _ on_learned on_package other = other

-- `analyze_unsolvable_rule`. A learned rule is younger than those it was learned from, so that fuel
-- above the rule's id is enough.
unfoldable pub analyze_unsolvable_rule : ℕ → Solver → ℕ → Visit → Outcome Visit
unfolding rule_at why_of pool_at visit_all
analyze_unsolvable_rule zero s rule v = err out_of_fuel
analyze_unsolvable_rule (suc fuel) s rule (problem, rule_seen) =
    let seen = rule ∷ rule_seen in
    let behind : Outcome Visit = why_of rule s.learned_why >>= λ why.
    pool_at s.learned_pool why >>= λ rules.
    visit_all (analyze_unsolvable_rule fuel s) rules (problem, seen) in
    rule_at s.rules rule >>= λ r.
    visit_type r.rule_type behind (ok (problem, seen))
      (ok (add_rule (next_section problem) rule, seen))

-- The packages of the rule's literals that are not satisfied join the set.
unfoldable pub see_unsatisfied : Decisions → List ℤ → List ℕ → List ℕ
see_unsatisfied d [] seen = seen
see_unsatisfied d (l ∷ ls) seen = see_unsatisfied d ls (if satisfy d l then seen else abs l ∷ seen)

-- The loop over the decisions, from the last to the first; `i` decisions are left.
unfoldable pub walk_back : Solver → ℕ → List ℕ → Visit → Outcome Visit
unfolding at_offset rule_at see_unsatisfied
walk_back s zero seen v = ok v
walk_back s (suc i) seen v = at_offset s.decisions i >>= λ decision.
    elim (mem (abs decision.literal) seen) [
      | false ↦ walk_back s i seen v
      | true ↦
          analyze_unsolvable_rule (suc (length s.rules.rules)) s decision.reason
            (add_rule v.0 decision.reason, v.1)
          >>= λ w. rule_at s.rules decision.reason >>= λ r.
              walk_back s i (see_unsatisfied s.decisions r.literals seen) w
    ]

unfoldable pub analyze_unsolvable : Solver → ℕ → Outcome Solver
unfolding analyze_unsolvable_rule walk_back
analyze_unsolvable s conflict_rule = do
  v ←
      analyze_unsolvable_rule (suc (length s.rules.rules)) s conflict_rule
        (add_rule Problem.new conflict_rule, [])
  r ← rule_at s.rules conflict_rule
  w ← walk_back s (length s.decisions.queue) (see_unsatisfied s.decisions r.literals []) v
  ok (record s { problems = s.problems ++ w.0 ∷ [] })
