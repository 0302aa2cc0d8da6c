-- ===== src/Solver.antt =====
-- crates/vivacity-resolver/src/solver.rs: the solver's state, `propagate` and `revert`. The children
-- have the other methods, but for `solve` and the two checks that it calls,
-- `check_for_filter_list_removed_locked_packages` and `check_for_root_require_problems`.
pub mod Assertions
pub mod Analyze
pub mod Unsolvable
pub mod Search
pub mod Propagation
pub mod Firm
pub mod Revert
use vivace.Common.{
  ℕ, zero, suc, ◌+◌, ◌==◌, ltb, ℤ, pos, abs, ltb_ℤ, leb_ℤ, Bool, true, false, not, ◌&&◌, ◌||◌,
  Option, none, some, List, [], ◌∷◌, ◌++◌, length, last?, drop_last, get_elem?, if◌then◌else◌,
}
use vivace.Outcome.{Outcome, ok, err, ◌>>=◌, panic, out_of_fuel}
use vivace.Decisions.{
  Decision, Decisions, valid_offset, at_offset, last_literal, undecided, decision_level,
  revert_last,
}
use vivace.Decisions
use vivace.Rule.{RuleSet}
use vivace.Rule
use vivace.Watch.{RuleWatchGraph, Propagated, propagate_literal, new_graph}
use vivace.Problem.{Problem}

-- `pool` and `arena` are read by the callers only; `fixed_map` is a set of pool ids and
-- `learned_why` a map from rules, as an association list with the newest entry first.
pub record Solver : Type 0 where
  pub rules : RuleSet
  pub watch_graph : RuleWatchGraph
  pub decisions : Decisions
  pub fixed_map : List ℕ
  pub propagate_index : ℕ
  pub branches : List (List ℤ × ℤ)
  pub problems : List Problem
  pub learned_pool : List (List ℕ)
  pub learned_why : List (ℕ × ℕ)

unfoldable pub new : ℕ → Solver
new pool_size = record {
  rules = Rule.empty;
  watch_graph = new_graph;
  decisions = Decisions.new pool_size;
  fixed_map = [];
  propagate_index = 0;
  branches = [];
  problems = [];
  learned_pool = [];
  learned_why = [];
}

unfoldable pub rule_set_size : Solver → ℕ
rule_set_size s = Rule.len s.rules

-- The loop of `propagate`. Each round goes over one decision of the queue, which holds a package at
-- most once, so that fuel above the number of packages is enough.
unfoldable pub propagate_rounds : ℕ → Solver → ℤ → Outcome (Solver × Option ℕ)
unfolding valid_offset at_offset
propagate_rounds zero s level = err out_of_fuel
propagate_rounds (suc fuel) s level = elim (valid_offset s.decisions s.propagate_index) [
  | false ↦ ok (s, none)
  | true ↦ at_offset s.decisions s.propagate_index >>= λ decision.
      propagate_literal s.rules decision.literal level s.watch_graph s.decisions >>= λ p.
      let s' : Solver = record s {
        watch_graph = p.graph;
        decisions = p.decisions;
        propagate_index = s.propagate_index + 1;
      } in
      elim p.conflicting [ some rule ↦ ok (s', some rule) | none ↦ propagate_rounds fuel s' level ]
]

unfoldable pub propagate : Solver → ℤ → Outcome (Solver × Option ℕ)
unfolding propagate_rounds
propagate s level = propagate_rounds (suc (length s.decisions.levels)) s level

-- The first loop of `revert`: the decisions above the level are taken back.
unfoldable pub revert_decisions : ℕ → Solver → ℤ → Outcome Solver
unfolding last_literal undecided decision_level revert_last
revert_decisions zero s level = ok s
revert_decisions (suc fuel) s level = elim (length s.decisions.queue == 0) [
  | true ↦ ok s
  | false ↦ last_literal s.decisions >>= λ literal.
      elim (undecided s.decisions literal || leb_ℤ (decision_level s.decisions literal) level) [
        | true ↦ ok s
        | false ↦ revert_last s.decisions >>= λ d.
            revert_decisions fuel (record s { decisions = d; propagate_index = length d.queue })
              level
      ]
]

abbrev pub at_or_above : Option (List ℤ × ℤ) → ℤ → Bool
at_or_above none level = false
at_or_above (some (literals, l)) level = leb_ℤ level l

-- The second loop of `revert`: the branches at or above the level are dropped from the end.
unfoldable pub revert_branches : ℕ → List (List ℤ × ℤ) → ℤ → List (List ℤ × ℤ)
revert_branches zero branches level = branches
revert_branches (suc fuel) branches level = elim (at_or_above (last? branches) level) [
  | true ↦ revert_branches fuel (drop_last branches) level
  | false ↦ branches
]

unfoldable pub revert : Solver → ℤ → Outcome Solver
unfolding revert_decisions revert_branches
revert s level = do
  s' ← revert_decisions (length s.decisions.queue) s level
  ok (record s' { branches = revert_branches (length s'.branches) s'.branches level })
