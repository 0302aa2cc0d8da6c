-- ===== src/Solver/Analyze.antt =====
-- `analyze` of crates/vivacity-resolver/src/solver.rs: from a conflict to the learned rule.
pub mod Counting
pub mod Scanning
pub mod Justified
pub mod States
pub mod Entering
pub mod Stepping
pub mod Learning
pub mod Settling
pub mod Following
pub mod Rounds
pub mod Loop
pub mod Sound
use vivace.Common.{
  ℕ, zero, suc, ◌+◌, ◌-◌, ◌==◌, ℤ, pos, negsuc, neg, abs, eqb_ℤ, ltb_ℤ, Bool, true, false, not,
  ◌&&◌, ◌||◌, Option, none, some, List, [], ◌∷◌, ◌++◌, length, mem, if◌then◌else◌,
}
use vivace.Outcome.{Outcome, ok, err, ◌>>=◌, invalid_decision_id, no_learnable_literal, out_of_fuel}
use vivace.Decisions.{Decision, Decisions, satisfy, decided, decision_level, at_offset}
use vivace.Rule.{Rule, RuleSet, is_multi, Reason, new_generic}
use vivace.Watch.{rule_at}

-- The local variables of `analyze`; `pool` is `learned_pool[why]`, and `seen` a set of packages.
pub record Analysis : Type 0 where
  pub rule : ℕ
  pub rule_level : ℤ
  pub num : ℕ
  pub l1num : ℤ
  pub seen : List ℕ
  pub learned_literal : Option ℤ
  pub others : List ℤ
  pub decision_id : ℕ
  pub pool : List ℕ

abbrev pub pred_ℤ : ℤ → ℤ
pred_ℤ (pos zero) = negsuc 0
pred_ℤ (pos (suc n)) = pos n
pred_ℤ (negsuc n) = negsuc (suc n)

abbrev pub succ_ℤ : ℤ → ℤ
succ_ℤ (pos n) = pos (suc n)
succ_ℤ (negsuc zero) = pos 0
succ_ℤ (negsuc (suc n)) = negsuc n

-- `seen.remove`.
abbrev pub without : ℕ → List ℕ → List ℕ
without k [] = []
without k (x ∷ xs) = let rest = without k xs in if k == x then rest else x ∷ rest

-- A false literal goes to the level-1 count, to the count of the current level, or to the clause.
unfoldable pub count : ℤ → ℤ → ℤ → Analysis → Analysis
count level l literal a =
    if eqb_ℤ l (pos 1)
    then record a { l1num = succ_ℤ a.l1num }
    else if eqb_ℤ level l
    then record a { num = a.num + 1 }
    else record a {
      others = a.others ++ literal ∷ [];
      rule_level = if ltb_ℤ a.rule_level l then l else a.rule_level;
    }

-- The loop over the literals of the rule at hand.
unfoldable pub scan : Decisions → ℤ → Bool → List ℤ → Analysis → Analysis
unfolding count
scan d level multi [] a = a
scan d level multi (l ∷ ls) a = scan d level multi ls (
    if (multi && not (decided d l)) || (satisfy d l || mem (abs l) a.seen)
    then a
    else count level (decision_level d l) l (record a { seen = abs l ∷ a.seen }))

-- The inner loop: back to the last decision before `decision_id` on a package that was seen.
unfoldable pub find_seen : Decisions → List ℕ → ℕ → ℕ → ℕ → Outcome (ℕ × ℤ)
unfolding at_offset
find_seen d seen rule analyzed zero = err (invalid_decision_id 0 rule analyzed)
find_seen d seen rule analyzed (suc k) = at_offset d k >>= λ decision.
    elim (mem (abs decision.literal) seen) [
      | true ↦ ok (k, decision.literal)
      | false ↦ find_seen d seen rule analyzed k
    ]

-- The loop over the literals of a conflict of many that is a reason: the first false literal that
-- was not seen.
unfoldable pub scan_multi : Decisions → ℤ → ℕ → List ℤ → Analysis → Analysis
unfolding count
scan_multi d level rule [] a = a
scan_multi d level rule (l ∷ ls) a =
    if not (mem (abs l) a.seen) && satisfy d (neg l)
    then record (count level (decision_level d l) l (record a { pool = a.pool ++ rule ∷ [] })) {
      seen = abs l ∷ a.seen;
    }
    else scan_multi d level rule ls a

-- How a round of the `while l1retry` loop ends.
pub data Retry : Type 0 where
  -- `break 'outer`
  finish : Analysis → Retry
  -- another round
  again : Analysis → Retry
  -- on to the literals of the rule, in the outer loop
  resume : Analysis → Retry

abbrev forget_all : List ℤ → List ℕ → List ℕ
forget_all [] seen = seen
forget_all (l ∷ ls) seen = forget_all ls (without (abs l) seen)

-- The end of a round, on the decision's reason.
unfoldable pub follow_reason : RuleSet → Decisions → ℤ → Analysis → Outcome Retry
unfolding rule_at scan_multi at_offset
follow_reason s d level a = do
  decision ← at_offset d a.decision_id
  r ← rule_at s decision.reason
  let a' : Analysis = record a { rule = decision.reason }
  ok (if is_multi r then again (scan_multi d level decision.reason r.literals a') else resume a')

-- A round after the first test: a seen decision is found, and taken out of the set.
unfoldable pub step_back : RuleSet → Decisions → ℤ → ℕ → Analysis → Outcome Retry
unfolding find_seen follow_reason
step_back s d level analyzed a = find_seen d a.seen a.rule analyzed a.decision_id >>= λ found.
    let literal = found.1 in
    let b : Analysis = record a { decision_id = found.0; seen = without (abs literal) a.seen } in
    if a.num == 1
    then (let c : Analysis = record b { num = 0; learned_literal = some (neg literal) } in
        if eqb_ℤ a.l1num (pos 0)
        then ok (finish c)
        else ok (again (record c { seen = forget_all c.others c.seen; l1num = succ_ℤ c.l1num })))
    else follow_reason s d level (record b { num = a.num - 1 })

-- One round of `while l1retry`.
unfoldable pub retry : RuleSet → Decisions → ℤ → ℕ → Analysis → Outcome Retry
unfolding step_back
retry s d level analyzed a =
    if a.num == 0
    then (if eqb_ℤ (pred_ℤ a.l1num) (pos 0)
        then ok (finish (record a { l1num = pos 0 }))
        else step_back s d level analyzed (record a { l1num = pred_ℤ a.l1num }))
    else step_back s d level analyzed a

-- The literals of the rule at hand are scanned, where the outer loop comes round.
unfoldable pub enter : RuleSet → Decisions → ℤ → Analysis → Outcome Analysis
unfolding scan rule_at
enter s d level a = do
  r ← rule_at s a.rule
  ok (scan d level (is_multi r) r.literals (record a { pool = a.pool ++ a.rule ∷ [] }))

-- Both loops. Each round goes back in the queue or ends them, so that fuel above the length of the
-- queue is enough.
unfoldable pub analyze_loop : ℕ → RuleSet → Decisions → ℤ → ℕ → Bool → Analysis → Outcome Analysis
unfolding enter retry
analyze_loop zero s d level analyzed entering a = err out_of_fuel
analyze_loop (suc fuel) s d level analyzed entering a =
    (if entering then enter s d level a else ok a) >>= λ b. retry s d level analyzed b >>= λ next.
    elim next [
      | finish c ↦ ok c
      | again c ↦ analyze_loop fuel s d level analyzed false c
      | resume c ↦ analyze_loop fuel s d level analyzed true c
    ]

-- The analysis before the loops.
abbrev pub start : Decisions → ℕ → Analysis
start d rule = record {
  rule = rule;
  rule_level = pos 1;
  num = 0;
  l1num = pos 0;
  seen = [];
  learned_literal = none;
  others = [];
  decision_id = length d.queue;
  pool = [];
}

pub record Learned : Type 0 where
  pub literal : ℤ
  pub level : ℤ
  pub rule : Rule
  -- the new entry of the learned pool
  pub pool : List ℕ

-- `analyze`; `why` is the place of the new entry in the learned pool.
unfoldable pub analyze : RuleSet → Decisions → ℕ → ℤ → ℕ → Outcome Learned
unfolding analyze_loop
analyze s d why level rule =
    analyze_loop (suc (length d.queue)) s d level rule true (start d rule) >>= λ a.
    elim a.learned_literal [
      | none ↦ err (no_learnable_literal rule)
      | some literal ↦ ok (record {
        literal = literal;
        level = a.rule_level;
        rule = new_generic (literal ∷ a.others) (Reason.learned why);
        pool = a.pool;
      })
    ]
