-- ===== src/Outcome.antt =====
-- The results of fallible solver code: `SolverBug` of crates/vivacity-resolver/src/decisions.rs, the `Bug` case
-- of `SolveError` (crates/vivacity-resolver/src/solver.rs), the panics of indexing, and fuel that runs out.
use vivace.Common.{ℕ, ℤ, ◌≡◌, refl}

-- One constructor for each message that the code formats.
pub data Fault : Type 0 where
  -- "literal {literal} out of pool"
  out_of_pool : ℤ → Fault
  -- "Trying to decide {literal} on level {level}, even though package {id} was previously ..."
  previously_decided : (literal level : ℤ) → (id : ℕ) → (previous : ℤ) → Fault
  -- "Did not find a decision rule using {literal_or_id}"
  no_decision_rule : ℤ → Fault
  -- "Trying to revert to invalid level {new_level} from level {level}."
  invalid_level : (new_level level : ℤ) → Fault
  -- "Reached invalid decision id {decision_id} while looking through rule {rule} ..."
  invalid_decision_id : (decision_id rule analyzed : ℕ) → Fault
  -- "Did not find a learnable literal in analyzed rule {analyzed_rule}."
  no_learnable_literal : ℕ → Fault
  -- "Fixed package {} was not added to solver pool." of the rule generator
  fixed_not_in_pool : ℕ → Fault
  -- an index out of range, or `remove(0)` and `last` of an empty vector
  panic : Fault
  -- the fuel of a model ran out; the code would go on
  out_of_fuel : Fault

pub data Outcome {ℓ} (R : Type ℓ) : Type ℓ where
  err : Fault → Outcome R
  ok : R → Outcome R

-- A fault ends the run.
infixl 5 ◌>>=◌
abbrev pub ◌>>=◌ {i j} : {R : Type i} {S : Type j} → Outcome R → (R → Outcome S) → Outcome S
err fault >>= next = err fault
ok r >>= next = next r

-- A run that succeeds has a first part that does.
pub >>=-eq-ok {i j} :
    {R : Type i} {S : Type j} (first : Outcome R) (next : R → Outcome S) {s : S}
    → (first >>= next) ≡ ok s
    → (r : R) × (first ≡ ok r) × (next r ≡ ok s)
>>=-eq-ok (err fault) next h = cc
>>=-eq-ok (ok r) next h = (r, refl, h)
