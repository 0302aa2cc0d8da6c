-- ===== src/Problem.antt =====
-- `Problem` and `SolvedProblem` of crates/vivacity-resolver/src/solver.rs: the offending rules, by
-- section.
pub mod Sections
use vivace.Common.{
  ℕ, ◌==◌, Bool, true, false, ◌&&◌, ◌||◌, Option, none, some, List, [], ◌∷◌, ◌++◌, length, last?,
  drop_last, get_elem?, mem, if◌then◌else◌, arith,
}
use vivace.Outcome.{Outcome, ok, err, ◌>>=◌, panic}
use vivace.Rule.{Rule, RuleSet}
use vivace.Watch.{rule_at}

pub data ProblemRule : Type 0 where
  in_set : ℕ → ProblemRule
  detached : Rule → ProblemRule

pub record Problem : Type 0 where
  pub sections : List (List ProblemRule)
  -- a hash set of rule ids
  pub seen : List ℕ
  pub pending_section : Bool

unfoldable pub new : Problem
new = record { sections = []; seen = []; pending_section = true }

-- The sections with one more rule in the last of them.
abbrev pub push_last : List (List ProblemRule) → ProblemRule → List (List ProblemRule)
push_last [] rule = []
push_last (s ∷ []) rule = (s ++ rule ∷ []) ∷ []
push_last (s ∷ t ∷ ss) rule = s ∷ push_last (t ∷ ss) rule

abbrev pub no_section : List (List ProblemRule) → Bool
no_section [] = true
no_section (_ ∷ _) = false

unfoldable pub push : Problem → ProblemRule → Problem
push p rule =
    if p.pending_section || no_section p.sections
    then record p { sections = push_last (p.sections ++ [] ∷ []) rule; pending_section = false }
    else record p { sections = push_last p.sections rule }

unfoldable pub add_rule : Problem → ℕ → Problem
unfolding push
add_rule p rule =
    if mem rule p.seen then p else push (record p { seen = rule ∷ p.seen }) (in_set rule)

unfoldable pub add_detached : Problem → Rule → Problem
unfolding push
add_detached p rule = push p (detached rule)

unfoldable pub next_section : Problem → Problem
next_section p = record p { pending_section = true }

unfoldable pub materialize_rule : RuleSet → ProblemRule → Outcome Rule
unfolding rule_at
materialize_rule s (in_set id) = rule_at s id
materialize_rule s (detached rule) = ok rule

unfoldable pub materialize_section : RuleSet → List ProblemRule → Outcome (List Rule)
unfolding materialize_rule
materialize_section s [] = ok []
materialize_section s (r ∷ rs) = do
  rule ← materialize_rule s r
  rules ← materialize_section s rs
  ok (rule ∷ rules)

unfoldable pub materialize : RuleSet → List (List ProblemRule) → Outcome (List (List Rule))
unfolding materialize_section
materialize s [] = ok []
materialize s (section ∷ sections) = do
  rules ← materialize_section s section
  rest ← materialize s sections
  ok (rules ∷ rest)

-- `reasons`: the rules of the last section first.
unfoldable pub reasons : List (List Rule) → List Rule
reasons [] = []
reasons (section ∷ sections) = reasons sections ++ section
