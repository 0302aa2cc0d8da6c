-- ===== src/Examples/Claims.antt =====
-- The theorems at runs over the rules and decisions of the parent module.
use vivace.Common.{
  ◌<◌, ◌≤◌, ◌⊎◌, ℕ, pos, neg, true, false, ◌≡◌, refl, none, some, [], ◌∷◌, length, ◌++◌, ◌+◌, not,
  ℤ, eqb_ℤ, ◌&&◌, ◌==◌, get_elem?, count, if◌then◌else◌, sort_unstable, Ascending, elem, mem, arith,
}
use vivace.Outcome.{err, out_of_pool, previously_decided, ok, ◌>>=◌}
use vivace.Decisions.Faults.{decide_lem}
use vivace.Decisions.{
  Decisions, entry, decide, satisfy, conflict, decision_level, reset_to_offset, revert_last,
}
use vivace.Decisions.Laws.{reset_to_offset-Extends, revert_last-decide, satisfy-decide}
use vivace.Decisions.Trail.{mentions, IsTrail, Extends-IsTrail}
use vivace.Rule.{
  RuleSet, Reason, type_package, type_request, add, empty, len, is_assertion, key_of, new_generic,
  new_two_literals, new_multi_conflict,
}
use vivace.Rule.Index.{IsIndexed, add_lem, add-IsIndexed, empty-IsIndexed, stored}
use vivace.Rule.Keys.{registered}
use vivace.Rule.Literals.{two_literals-sort, generic_literals}
use vivace.Watch.{
  RuleWatchNode, RuleWatchGraph, chain, move_watch, new_graph, insert, new_node, propagate_literal,
}
use vivace.Watch.Semantics.{some_true}
use vivace.Watch.Invariant.{IsEntry, IsWatched, new_graph-IsWatched}
use vivace.Watch.Exact.{
  IsExact, new_graph-IsExact, insert-IsExact, node_of, insert-new_node-IsExact, move_watch-IsExact,
}
use vivace.Watch.Propagate.{Returns, IsPropagated, propagate_literal-Returns}
use vivace.Problem.{Problem, add_rule}
use vivace.Problem
use vivace.Problem.Sections.{IsListed, add_rule-IsListed, new-IsListed}
use vivace.Solver.{Solver, propagate, revert}
use vivace.Solver.Revert.{IsReverted, IsCut, revert_lem}
use vivace.Solver.Propagation.{IsQuiet, propagate-Returns}
use vivace.Solver.Analyze.{Learned, analyze}
use vivace.Solver.Analyze.Sound.{analyze_sound}
use vivace.Examples.{
  value, r0, r1, r2, four_rules, one_decided, two_decided, three_decided, one_reached, from_one,
  three_reached, all_justified, falsified, only_4, model,
}

-- The analysis of the conflict learns "not 1".
abbrev pub not_1 : Learned
not_1 = record {
  literal = neg (pos 1);
  level = pos 1;
  rule = record r0 { literals = neg (pos 1) ∷ []; rule_type = none };
  pool = 2 ∷ 1 ∷ 0 ∷ [];
}

analyze_sound_example : some_true only_4 not_1.rule.literals ≡ true
unfolding analyze satisfy decision_level new_generic sort_unstable
analyze_sound_example =
    analyze_sound three_decided four_rules 2 only_4 0 2 r2 not_1 (omega arith)
      (Extends-IsTrail 4 three_reached) all_justified model refl falsified refl

-- The watch graph of the four rules.
abbrev pub graph_after : ℕ → RuleWatchGraph → RuleWatchGraph
graph_after id g = value g (new_node four_rules id >>= insert g four_rules)

abbrev pub one_rule : RuleWatchGraph
one_rule = graph_after 0 new_graph

abbrev pub two_rules : RuleWatchGraph
two_rules = graph_after 1 one_rule

abbrev pub three_rules : RuleWatchGraph
three_rules = graph_after 2 two_rules

one_rule-IsExact : IsWatched 5 four_rules one_rule × IsExact four_rules one_rule
unfolding insert new_node
one_rule-IsExact =
    insert-IsExact new_graph 0 r0 (new_graph-IsWatched 5 four_rules, new_graph-IsExact four_rules)
      refl ((refl, omega arith), ((refl, omega arith), tt)) (omega arith) refl

insert-new_node-IsExact_example :
    (g : RuleWatchGraph) × ((new_node four_rules 1 >>= insert one_rule four_rules) ≡ ok g)
    × IsWatched 5 four_rules g
    × IsExact four_rules g
    × (g.nodes ≡ one_rule.nodes ++ node_of 1 r1 ∷ [])
insert-new_node-IsExact_example =
    insert-new_node-IsExact one_rule 1 r1 one_rule-IsExact.0 one_rule-IsExact.1 refl
      ((refl, omega arith), ((refl, omega arith), tt)) (omega arith)

pub three_rules-IsWatched : IsWatched 5 four_rules three_rules
unfolding insert new_node
three_rules-IsWatched =
    (insert-IsExact two_rules 2 r2
      (insert-IsExact one_rule 1 r1 one_rule-IsExact refl
        ((refl, omega arith), ((refl, omega arith), tt)) (omega arith) refl)
      refl ((refl, omega arith), ((refl, omega arith), tt)) (omega arith) refl).0

-- Package 1 is decided; its rules force 2 and 3, which the third rule forbids.
abbrev pub solver : Solver
solver = record {
  rules = four_rules;
  watch_graph = three_rules;
  decisions = one_decided;
  fixed_map = [];
  propagate_index = 0;
  branches = [];
  problems = [];
  learned_pool = [];
  learned_why = [];
}

propagate-Returns_example : Returns (IsQuiet 5 solver (pos 2)) (propagate solver (pos 2))
propagate-Returns_example = propagate-Returns 5 solver (pos 2) refl (record {
  places = refl;
  trail = Extends-IsTrail 4 one_reached;
  watched = three_rules-IsWatched;
})

propagate_literal-Returns_example :
    Returns
      (IsPropagated 5 four_rules one_decided (neg (pos 1)) (pos 2))
      (propagate_literal four_rules (pos 1) (pos 2) three_rules one_decided)
propagate_literal-Returns_example =
    propagate_literal-Returns 5 four_rules (pos 1) (pos 2) three_rules one_decided refl refl
      three_rules-IsWatched

conflict_found : value none (propagate solver (pos 2) >>= λ p. ok p.1) ≡ some 2
unfolding propagate insert new_node propagate_literal is_assertion new_graph satisfy conflict decide
conflict_found = refl

-- The state with the three decisions and a branch of level 2.
abbrev searching : Solver
searching = record solver { decisions = three_decided; branches = (pos 4 ∷ [], pos 2) ∷ [] }

-- The three decisions after the first are taken back.
reset_to_offset-Extends_example : reset_to_offset three_decided (pos 0) ≡ ok one_decided
reset_to_offset-Extends_example = reset_to_offset-Extends (pos 0) from_one refl

revert_last-decide_example : revert_last two_decided ≡ ok one_decided
unfolding decide
revert_last-decide_example = revert_last-decide one_decided (pos 2) (pos 2) 0 refl

satisfy-decide_example :
    (satisfy two_decided (pos 1) ≡ true)
    × (satisfy one_decided (pos 2) ≡ false)
    × (conflict one_decided (pos 2) ≡ false)
unfolding decide satisfy
satisfy-decide_example = satisfy-decide one_decided (pos 2) (pos 2) 0 (pos 1) refl refl refl

Extends-IsTrail_example : IsTrail three_decided
Extends-IsTrail_example = Extends-IsTrail 4 three_reached

-- A rule set with "not 1 or 2", given the same rule again.
abbrev one_stored : RuleSet
one_stored = (add empty (record r0 { rule_type = none }) type_package).0

add-IsIndexed_example : IsIndexed (add one_stored r0 type_request).0
add-IsIndexed_example =
    add-IsIndexed one_stored r0 type_request
      (add-IsIndexed empty (record r0 { rule_type = none }) type_package empty-IsIndexed)

add_lem_example :
    ((add one_stored r0 type_request).1.0 ≡ length one_stored.rules)
    × ((add one_stored r0 type_request).0.rules
        ≡ one_stored.rules ++ stored one_stored r0 type_request ∷ [])
    × ((add one_stored r0 type_request).1.1
        ≡ not (registered one_stored.rules one_stored.rule_by_id (key_of r0)))
    × (len (add one_stored r0 type_request).0
        ≡ len one_stored + (if (add one_stored r0 type_request).1.1 then 1 else 0))
add_lem_example =
    add_lem one_stored r0 type_request
      (add-IsIndexed empty (record r0 { rule_type = none }) type_package empty-IsIndexed)

add_twice : (add one_stored r0 type_request).1 ≡ (1, false)
unfolding add empty
add_twice = refl

two_literals-sort_example :
    (new_two_literals (neg (pos 2)) (neg (pos 3)) (Reason.learned 0)).literals
    ≡ sort_unstable (neg (pos 2) ∷ neg (pos 3) ∷ [])
two_literals-sort_example = two_literals-sort (neg (pos 2)) (neg (pos 3)) (Reason.learned 0)

generic_literals_example :
    Ascending (new_generic r2.literals (Reason.learned 0)).literals
    × (elem (pos 2) (new_generic r2.literals (Reason.learned 0)).literals
        ≡ elem (pos 2) r2.literals)
    × Ascending (new_multi_conflict r2.literals (Reason.learned 0)).literals
    × (elem (pos 2) (new_multi_conflict r2.literals (Reason.learned 0)).literals
        ≡ elem (pos 2) r2.literals)
generic_literals_example = generic_literals r2.literals (Reason.learned 0) (pos 2)

-- The first node, in the chain of "not 1".
abbrev first_node : RuleWatchNode
first_node = record { rule = 0; watch1 = neg (pos 1); watch2 = pos 2 }

unfoldable first_entry : IsEntry 5 four_rules one_rule.nodes (neg (pos 1)) 0
unfolding insert new_node is_assertion new_graph
first_entry = record {
  node = first_node;
  rule = r0;
  at_node = refl;
  at_rule = refl;
  watch1_in = (refl, omega arith);
  watch2_in = (refl, omega arith);
  literals_in = ((refl, omega arith), ((refl, omega arith), tt));
  own = refl;
}

-- It moves to the chain of 2, where its other watch stands already.
move_watch-IsExact_example :
    (g : RuleWatchGraph) × (move_watch one_rule (neg (pos 1)) (pos 2) 0 0 ≡ ok g)
    × IsWatched 5 four_rules g
    × IsExact four_rules g
    × (get_elem? (chain g (pos 2)) 0 ≡ some 0)
    × ((l : ℤ) (id : ℕ)
        → count id (chain g l) + (if eqb_ℤ l (neg (pos 1)) && (id == 0) then 1 else 0)
          ≡ count id (chain one_rule l) + (if eqb_ℤ l (pos 2) && (id == 0) then 1 else 0))
unfolding first_entry insert new_node
move_watch-IsExact_example =
    move_watch-IsExact one_rule (neg (pos 1)) (pos 2) 0 0 one_rule-IsExact.0 one_rule-IsExact.1
      first_entry refl refl refl

add_rule-IsListed_example :
    IsListed (add_rule (add_rule Problem.new 2) 2)
    × (mem 2 (add_rule (add_rule Problem.new 2) 2).seen ≡ true)
add_rule-IsListed_example =
    add_rule-IsListed (add_rule Problem.new 2) 2 (add_rule-IsListed Problem.new 2 new-IsListed).0

revert_lem_example :
    (t : Solver) × (revert searching (pos 1) ≡ ok t)
    × IsReverted 4 three_decided searching (pos 1) t
    × IsCut (pos 1) searching.branches t.branches
revert_lem_example = revert_lem 4 searching (pos 1) three_reached

reverted : (revert searching (pos 1) >>= λ t. ok t.decisions.queue) ≡ ok []
unfolding revert
reverted = refl

-- Package 2 is decided already.
decide_lem_example :
    ((length three_decided.levels ≤ 2)
      × (decide three_decided (pos 2) (pos 3) 0 ≡ err (out_of_pool (pos 2))))
    ⊎ (((2 < length three_decided.levels)
          × (mentions 2 three_decided.queue ≡ true)
          × (decide three_decided (pos 2) (pos 3) 0
              ≡ err (previously_decided (pos 2) (pos 3) 2 (entry three_decided (pos 2)))))
        ⊎ ((2 < length three_decided.levels)
            × (mentions 2 three_decided.queue ≡ false)
            × ((e : Decisions) × (decide three_decided (pos 2) (pos 3) 0 ≡ ok e)
                × (e.queue ≡ three_decided.queue ++ record { literal = pos 2; reason = 0 } ∷ []))))
decide_lem_example =
    decide_lem three_decided (pos 2) (pos 3) 0 (Extends-IsTrail 4 three_reached) refl
