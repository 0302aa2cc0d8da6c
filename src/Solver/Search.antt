-- ===== src/Solver/Search.antt =====
-- `set_propagate_learn`, `select_and_install` and `run_sat` of
-- crates/vivacity-resolver/src/solver.rs. The policy's choice among candidates is a parameter.
use vivace.Common.{
  ℕ, zero, suc, ◌+◌, ◌==◌, ltb, ℤ, pos, abs, positive, eqb_ℤ, ltb_ℤ, leb_ℤ, Bool, true, false, not,
  ◌&&◌, ◌||◌, Option, none, some, List, [], ◌∷◌, ◌++◌, length, get_elem?, remove_at, mem,
  if◌then◌else◌,
}
use vivace.PhpVer.{Bytes}
use vivace.Outcome.{Outcome, ok, err, ◌>>=◌, invalid_level, panic, out_of_fuel}
use vivace.Decisions.{
  Decisions, decide, satisfy, undecided, decided_install, decision_level, last_reason, succ,
}
use vivace.Rule.{
  Rule, RuleSet, type_request, type_learned, is_enabled, required_package, ids_of_type, add,
}
use vivace.Rule
use vivace.Watch.{rule_at, new_node, watch2_on_highest, insert}
use vivace.Solver.{Solver, propagate, revert}
use vivace.Solver.Analyze.{Learned, analyze}
use vivace.Solver.Unsolvable.{analyze_unsolvable}

-- After an analysis: back to the learned rule's level, the rule is stored and watched, and its
-- literal decided.
unfoldable pub learn : Solver → Learned → Outcome Solver
learn s l = revert (record s { learned_pool = s.learned_pool ++ l.pool ∷ [] }) l.level >>= λ s1.
    let added = add s1.rules l.rule type_learned in
    let rules = added.0 in
    let new_id = added.1.0 in
    new_node rules new_id >>= λ node. watch2_on_highest rules s1.decisions node >>= λ node'.
    insert s1.watch_graph rules node' >>= λ graph.
    decide s1.decisions l.literal l.level new_id >>= λ d. ok (record s1 {
      rules = rules;
      learned_why = (new_id, length s.learned_pool) ∷ s1.learned_why;
      watch_graph = graph;
      decisions = d;
    })

-- The loop of `set_propagate_learn`: the state and the level that it returns.
unfoldable pub learn_rounds : ℕ → Solver → ℤ → Outcome (Solver × ℤ)
unfolding learn
learn_rounds zero s level = err out_of_fuel
learn_rounds (suc fuel) s level = propagate s level >>= λ p. elim p.1 [
  | none ↦ ok (p.0, level)
  | some conflict ↦ elim (eqb_ℤ level (pos 1)) [
    | true ↦ analyze_unsolvable p.0 conflict >>= λ s'. ok (s', pos 0)
    | false ↦ analyze p.0.rules p.0.decisions (length p.0.learned_pool) level conflict >>= λ l.
        elim (leb_ℤ l.level (pos 0) || leb_ℤ level l.level) [
          | true ↦ err (invalid_level l.level level)
          | false ↦ learn p.0 l >>= λ s'. learn_rounds fuel s' l.level
        ]
  ]
]

unfoldable pub set_propagate_learn : ℕ → Solver → ℤ → ℤ → ℕ → Outcome (Solver × ℤ)
unfolding learn_rounds
set_propagate_learn fuel s level literal rule = do
  d ← decide s.decisions literal (succ level) rule
  learn_rounds fuel (record s { decisions = d }) (succ level)

-- The candidate that the search goes back to.
pub record Branch : Type 0 where
  pub literal : ℤ
  pub level : ℤ
  pub index : ℕ
  pub offset : ℕ

-- The loop over the literals of one branch; the last fit stays.
unfoldable pub branch_literals : Decisions → ℤ → ℕ → ℕ → List ℤ → Option Branch → Option Branch
branch_literals d l index offset [] best = best
branch_literals d l index offset (literal ∷ literals) best =
    branch_literals d l index (offset + 1) literals (
      if positive literal && ltb_ℤ (succ l) (decision_level d literal)
      then some (record { literal = literal; level = l; index = index; offset = offset })
      else best)

-- The loop over the branches, from the last to the first; `i` branches are left.
unfoldable pub best_branch : Decisions → List (List ℤ × ℤ) → ℕ → Option Branch → Option Branch
unfolding branch_literals
best_branch d branches zero best = best
best_branch d branches (suc i) best =
    best_branch d branches i
      (elim (get_elem? branches i) [ none ↦ best | some b ↦ branch_literals d b.1 i 0 b.0 best ])

-- `branches[index].0.remove(offset)`.
abbrev pub remove_candidate : List (List ℤ × ℤ) → ℕ → ℕ → List (List ℤ × ℤ)
remove_candidate [] index offset = []
remove_candidate ((literals, l) ∷ bs) zero offset = (remove_at literals offset, l) ∷ bs
remove_candidate (b ∷ bs) (suc index) offset = b ∷ remove_candidate bs index offset

-- Back to a branch, with its candidate in the place of the choice made there.
unfoldable pub backtrack : ℕ → Solver → Branch → Outcome (Solver × ℤ)
unfolding set_propagate_learn
backtrack fuel s b =
    revert (record s { branches = remove_candidate s.branches b.index b.offset }) b.level >>= λ s'.
    last_reason s'.decisions >>= λ why. set_propagate_learn fuel s' b.level b.literal why

-- The loop over the request rules starts again after a break, but not at the last rule.
abbrev pub restarts : ℕ → Option ℕ → Bool
restarts count none = false
restarts count (some position) = ltb (position + 1) count

-- At level 1 a round begins with a propagation.
unfoldable pub at_level_one : Solver → ℤ → Outcome (Solver × Option ℕ)
at_level_one s level = if eqb_ℤ level (pos 1) then propagate s level else ok (s, none)

-- What the solver asks of `DefaultPolicy::select_preferred_packages`: the candidates, best first,
-- for a package that a rule requires. `name_of` reads the name of a package in the arena.
module _ (name_of : ℕ → Bytes) (select_preferred_packages : List ℤ → Option Bytes → List ℤ) where
  unfoldable pub select_and_install : ℕ → Solver → ℤ → List ℤ → ℕ → Outcome (Solver × ℤ)
  unfolding set_propagate_learn
  select_and_install fuel s level decision_queue rule = rule_at s.rules rule >>= λ r.
      elim (select_preferred_packages decision_queue (required_package name_of r)) [
        | [] ↦ err panic
        | selected ∷ [] ↦ set_propagate_learn fuel s level selected rule
        | selected ∷ l ∷ ls ↦
            set_propagate_learn fuel (record s { branches = s.branches ++ (l ∷ ls, level) ∷ [] })
              level selected rule
      ]

  -- The literals of a request rule: whether none is satisfied, and the undecided positive ones up
  -- to the first that is.
  unfoldable pub request_queue : Decisions → List ℤ → List ℤ → Bool × List ℤ
  request_queue d [] queue = (true, queue)
  request_queue d (l ∷ ls) queue =
      if satisfy d l
      then (false, queue)
      else request_queue d ls (if positive l && undecided d l then queue ++ l ∷ [] else queue)

  abbrev pub fixed_only : List ℕ → List ℤ → List ℤ
  fixed_only fixed_map [] = []
  fixed_only fixed_map (l ∷ ls) =
      let rest = fixed_only fixed_map ls in if mem (abs l) fixed_map then l ∷ rest else rest

  -- The packages that the request fixes are tried before others.
  unfoldable pub prune : List ℕ → List ℤ → List ℤ
  prune fixed_map queue = elim (fixed_only fixed_map queue) [ [] ↦ queue | l ∷ ls ↦ l ∷ ls ]

  -- The loop over the request rules, from `position`: the state, the level, and where the loop
  -- stopped if it broke off. Level 0 ends the search.
  unfoldable pub request_rounds : ℕ → List ℕ → ℕ → Solver → ℤ → Outcome (Solver × (ℤ × Option ℕ))
  unfolding select_and_install request_queue prune
  request_rounds fuel [] position s level = ok (s, (level, none))
  request_rounds fuel (rule_id ∷ ids) position s level = rule_at s.rules rule_id >>= λ r.
      let found = request_queue s.decisions r.literals [] in
      let queue = prune s.fixed_map found.1 in
      elim (is_enabled r && (found.0 && ltb 0 (length queue))) [
        | false ↦ request_rounds fuel ids (position + 1) s level
        | true ↦ select_and_install fuel s level queue rule_id >>= λ p. elim (eqb_ℤ p.1 (pos 0)) [
          | true ↦ ok (p.0, (pos 0, none))
          | false ↦ elim (leb_ℤ p.1 level) [
            | true ↦ ok (p.0, (p.1, some position))
            | false ↦ request_rounds fuel ids (position + 1) p.0 p.1
          ]
        ]
      ]

  -- The literals of a rule in the second loop: `none` where the rule asks for no decision.
  unfoldable pub decision_queue_of : Decisions → List ℤ → List ℤ → Option (List ℤ)
  decision_queue_of d [] queue = some queue
  decision_queue_of d (l ∷ ls) queue =
      if not (positive l)
      then (if decided_install d l then decision_queue_of d ls queue else none)
      else if decided_install d l
      then none
      else decision_queue_of d ls (if undecided d l then queue ++ l ∷ [] else queue)

  abbrev pub at_least_two : Option (List ℤ) → Option (List ℤ)
  at_least_two none = none
  at_least_two (some queue) = if ltb (length queue) 2 then none else some queue

  -- The loop over all registered rules: it ends when it has gone round once without a decision.
  unfoldable pub rule_rounds : ℕ → ℕ → ℕ → ℕ → Solver → ℤ → Outcome (Solver × ℤ)
  unfolding select_and_install decision_queue_of
  rule_rounds zero rules_count i n s level = err out_of_fuel
  rule_rounds (suc fuel) rules_count i n s level = elim (ltb n rules_count) [
    | false ↦ ok (s, level)
    | true ↦
        let at = if i == rules_count then 0 else i in
        elim (get_elem? s.rules.rule_by_id at) [
          | none ↦ err panic
          | some rule_id ↦ rule_at s.rules rule_id >>= λ r.
              elim (if r.disabled
                then none
                else at_least_two (decision_queue_of s.decisions r.literals [])) [
                  | none ↦ rule_rounds fuel rules_count (at + 1) (n + 1) s level
                  | some queue ↦ select_and_install fuel s level queue rule_id >>= λ p.
                      elim (eqb_ℤ p.1 (pos 0)) [
                        | true ↦ ok (p.0, pos 0)
                        | false ↦ rule_rounds fuel (Rule.len p.0.rules) (at + 1) 0 p.0 p.1
                      ]
                ]
        ]
  ]

  -- The loop of `run_sat` from the second loop on.
  unfoldable pub rest_of_round : ℕ → Solver → ℤ → ℤ → Outcome (Solver × Option (ℤ × ℤ))
  unfolding rule_rounds best_branch backtrack
  rest_of_round fuel s level system_level = rule_rounds fuel (Rule.len s.rules) 0 0 s level >>= λ p.
      if eqb_ℤ p.1 (pos 0)
      then ok (p.0, none)
      else if ltb_ℤ p.1 system_level
      then ok (p.0, some (p.1, system_level))
      else (elim (best_branch p.0.decisions p.0.branches (length p.0.branches) none) [
        | none ↦ ok (p.0, none)
        | some b ↦ backtrack fuel p.0 b >>= λ q.
            ok (q.0, if eqb_ℤ q.1 (pos 0) then none else some (q.1, system_level))
      ])

  -- One round of the loop of `run_sat`: the state, and the level and the system level of the next
  -- round unless the loop ends.
  unfoldable pub sat_round : ℕ → Solver → ℤ → ℤ → Outcome (Solver × Option (ℤ × ℤ))
  unfolding request_rounds rest_of_round
  sat_round fuel s level system_level =
      if ltb_ℤ level system_level
      then (request_rounds fuel (ids_of_type s.rules type_request) 0 s level >>= λ p.
          if eqb_ℤ p.1.0 (pos 0)
          then ok (p.0, none)
          else if restarts (length (ids_of_type s.rules type_request)) p.1.1
          then ok (p.0, some (p.1.0, succ p.1.0))
          else rest_of_round fuel p.0 p.1.0 p.1.0)
      else rest_of_round fuel s level system_level

  unfoldable pub sat_rounds : ℕ → Solver → ℤ → ℤ → Outcome Solver
  unfolding at_level_one sat_round
  sat_rounds zero s level system_level = err out_of_fuel
  sat_rounds (suc fuel) s level system_level = at_level_one s level >>= λ p. elim p.1 [
    | some conflict ↦ analyze_unsolvable p.0 conflict
    | none ↦ sat_round fuel p.0 level system_level >>= λ q. elim q.1 [
      | none ↦ ok q.0
      | some next ↦ sat_rounds fuel q.0 next.0 next.1
    ]
  ]

  -- `run_sat`. The fuel bounds the rounds of its loops.
  unfoldable pub run_sat : ℕ → Solver → Outcome Solver
  unfolding sat_rounds
  run_sat fuel s = sat_rounds fuel (record s { propagate_index = 0 }) (pos 1) (pos 2)
