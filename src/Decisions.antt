-- ===== src/Decisions.antt =====
-- crates/vivacity-resolver/src/decisions.rs: the decision map (package to signed level) and the
-- queue of decisions with their rules.
pub mod Laws
pub mod Trail
pub mod Faults
use vivace.Common.{
  ℕ, zero, suc, ◌+◌, ◌==◌, ltb, ℤ, pos, neg, abs, positive, negative, negsuc, eqb_ℤ, ltb_ℤ, Bool,
  true, false, not, ◌&&◌, ◌||◌, Option, none, some, List, [], ◌∷◌, ◌++◌, length, get_elem?, get_or,
  set, replicate, last?, drop_last, if◌then◌else◌,
}
use vivace.Outcome.{
  Outcome, ok, err, ◌>>=◌, out_of_pool, previously_decided, no_decision_rule, panic, out_of_fuel,
}

pub record Decision : Type 0 where
  pub literal : ℤ
  pub reason : ℕ

pub record Decisions : Type 0 where
  -- indexed by pool id: 0 undecided, positive installed at that level, negative rejected
  pub levels : List ℤ
  pub queue : List Decision

unfoldable pub new : ℕ → Decisions
new pool_size = record { levels = replicate (pool_size + 1) (pos 0); queue = [] }

unfoldable pub entry : Decisions → ℤ → ℤ
entry d literal_or_id = get_or d.levels (abs literal_or_id) (pos 0)

-- `add_decision`, on the map alone.
unfoldable pub add_decision : List ℤ → ℤ → ℤ → Outcome (List ℤ)
add_decision levels literal level =
    if ltb (abs literal) (length levels)
    then (if eqb_ℤ (get_or levels (abs literal) (pos 0)) (pos 0)
        then ok (set levels (abs literal) (if positive literal then level else neg level))
        else err
            (previously_decided literal level (abs literal) (get_or levels (abs literal) (pos 0))))
    else err (out_of_pool literal)

unfoldable pub decide : Decisions → ℤ → ℤ → ℕ → Outcome Decisions
unfolding add_decision
decide d literal level reason = do
  levels ← add_decision d.levels literal level
  ok (record {
    levels = levels;
    queue = d.queue ++ record { literal = literal; reason = reason } ∷ [];
  })

unfoldable pub satisfy : Decisions → ℤ → Bool
unfolding entry
satisfy d literal =
    (positive literal && positive (entry d literal))
    || (negative literal && negative (entry d literal))

unfoldable pub conflict : Decisions → ℤ → Bool
unfolding entry
conflict d literal =
    (positive (entry d literal) && negative literal)
    || (negative (entry d literal) && positive literal)

unfoldable pub decided : Decisions → ℤ → Bool
unfolding entry
decided d literal_or_id = not (eqb_ℤ (entry d literal_or_id) (pos 0))

unfoldable pub undecided : Decisions → ℤ → Bool
unfolding entry
undecided d literal_or_id = eqb_ℤ (entry d literal_or_id) (pos 0)

unfoldable pub decided_install : Decisions → ℤ → Bool
unfolding entry
decided_install d literal_or_id = positive (entry d literal_or_id)

unfoldable pub decision_level : Decisions → ℤ → ℤ
unfolding entry
decision_level d literal_or_id = pos (abs (entry d literal_or_id))

find_reason : ℕ → List Decision → Option ℕ
find_reason id [] = none
find_reason id (d ∷ ds) = if abs d.literal == id then some d.reason else find_reason id ds

abbrev or_no_rule : ℤ → Option ℕ → Outcome ℕ
or_no_rule l none = err (no_decision_rule l)
or_no_rule l (some r) = ok r

-- `decisionRule`: the rule of the first decision on this package.
unfoldable pub decision_rule : Decisions → ℤ → Outcome ℕ
unfolding find_reason
decision_rule d literal_or_id = or_no_rule literal_or_id (find_reason (abs literal_or_id) d.queue)

-- `queue[offset]`, which panics past the end.
unfoldable pub at_offset : Decisions → ℕ → Outcome Decision
at_offset d offset = elim (get_elem? d.queue offset) [ none ↦ err panic | some x ↦ ok x ]

unfoldable pub valid_offset : Decisions → ℕ → Bool
valid_offset d offset = ltb offset (length d.queue)

unfoldable pub last_decision : Decisions → Outcome Decision
last_decision d = elim (last? d.queue) [ none ↦ err panic | some x ↦ ok x ]

unfoldable pub last_reason : Decisions → Outcome ℕ
unfolding last_decision
last_reason d = do x ← last_decision d; ok x.reason

unfoldable pub last_literal : Decisions → Outcome ℤ
unfolding last_decision
last_literal d = do x ← last_decision d; ok x.literal

-- `map[id] = 0`, which panics past the end.
unfoldable pub clear : List ℤ → ℕ → Outcome (List ℤ)
clear levels id = if ltb id (length levels) then ok (set levels id (pos 0)) else err panic

unfoldable pub revert_last : Decisions → Outcome Decisions
unfolding last_literal clear
revert_last d = do
  last ← last_literal d
  levels ← clear d.levels (abs last)
  ok (record { levels = levels; queue = drop_last d.queue })

-- `offset + 1`, the number of decisions that stay.
abbrev pub succ : ℤ → ℤ
succ (pos n) = pos (suc n)
succ (negsuc zero) = pos 0
succ (negsuc (suc n)) = negsuc n

-- The loop of `reset_to_offset`, each round of which takes one decision off the queue.
unfoldable pub reset_loop : ℕ → ℤ → Decisions → Outcome Decisions
unfolding revert_last
reset_loop zero keep d = err out_of_fuel
reset_loop (suc fuel) keep d = elim (ltb_ℤ keep (pos (length d.queue))) [
  | true ↦ revert_last d >>= λ d'. reset_loop fuel keep d'
  | false ↦ ok d
]

unfoldable pub reset_to_offset : Decisions → ℤ → Outcome Decisions
unfolding reset_loop
reset_to_offset d offset = reset_loop (suc (length d.queue)) (succ offset) d

unfoldable pub len : Decisions → ℕ
len d = length d.queue

unfoldable pub is_empty : Decisions → Bool
is_empty d = length d.queue == 0
