-- ===== src/Watch/Derives.antt =====
-- Decisions that rules force: what a unit rule is when it decides, and a refuted rule when it
-- conflicts.
use vivace.Common.{
  ℕ, ℤ, positive, negative, eqb_ℤ, true, false, ◌≡◌, ◌∙◌, sym, ◌⊎◌, arith, some, get_elem?, elem,
}
use vivace.Outcome.{ok}
use vivace.Decisions.{Decisions, satisfy, conflict, decided, decide}
use vivace.Decisions.Laws.{
  NonZero, Extends, here, next, Extends-trans, entry-decide, decide-inv, satisfy-Extends,
  conflict-neg,
}
use vivace.Rule.{Rule, RuleSet, is_multi}

-- The clause leaves only `l` to decide: its other literals are refuted.
pub record IsUnit (d : Decisions) (l : ℤ) (r : Rule) : Type 0 where
  pub single : is_multi r ≡ false
  pub enabled : r.disabled ≡ false
  pub nonzero : (k : ℤ) → elem k r.literals ≡ true → NonZero k
  pub clause : (k : ℤ) → elem k r.literals ≡ true → eqb_ℤ k l ≡ false → conflict d k ≡ true

-- The conflict of many has a refuted literal, so that its others must be true.
pub record IsOpen (d : Decisions) (r : Rule) : Type 0 where
  pub many : is_multi r ≡ true
  pub enabled : r.disabled ≡ false
  pub nonzero : (k : ℤ) → elem k r.literals ≡ true → NonZero k
  pub false_one : (f : ℤ) × (elem f r.literals ≡ true) × (conflict d f ≡ true)

-- The rule is false: a clause with all its literals refuted, a conflict of many with two.
pub record IsRefuted (d : Decisions) (r : Rule) : Type 0 where
  pub enabled : r.disabled ≡ false
  pub nonzero : (k : ℤ) → elem k r.literals ≡ true → NonZero k
  pub clause : is_multi r ≡ false → (k : ℤ) → elem k r.literals ≡ true → conflict d k ≡ true
  pub multi :
      is_multi r ≡ true
      → (k j : ℤ) × (elem k r.literals ≡ true)
        × (elem j r.literals ≡ true)
        × (eqb_ℤ k j ≡ false)
        × (conflict d k ≡ true)
        × (conflict d j ≡ true)

-- More decisions at one level, all on literals of one rule and by it.
pub data Fills (level : ℤ) (id : ℕ) (r : Rule) (d : Decisions) : Decisions → Type 0 where
  filled : Fills level id r d d
  fill :
      {e f : Decisions}
      → Fills level id r d e
      → (l : ℤ) → positive level ≡ true
      → NonZero l
      → elem l r.literals ≡ true
      → decide e l level id ≡ ok f
      → Fills level id r d f

pub Fills-trans :
    {level : ℤ} {id : ℕ} {r : Rule} {d e f : Decisions}
    → Fills level id r d e
    → Fills level id r e f
    → Fills level id r d f
Fills-trans p filled = p
Fills-trans p (fill q l h n m e) = fill (Fills-trans p q) l h n m e

pub Fills-Extends :
    {level : ℤ} {id : ℕ} {r : Rule} {d e : Decisions} → Fills level id r d e → Extends d e
Fills-Extends filled = here
Fills-Extends {level = level} {id = id} (fill q l h n m e) = next (Fills-Extends q) l level id h n e

-- More decisions at one level, each by a rule that forced it: a clause that was unit, or a conflict
-- of many that decides all its literals.
pub data Derives (s : RuleSet) (level : ℤ) (d : Decisions) : Decisions → Type 0 where
  none_more : Derives s level d d
  by_clause :
      {e f : Decisions}
      → Derives s level d e
      → (l : ℤ) (id : ℕ) (r : Rule) → positive level ≡ true
      → NonZero l
      → get_elem? s.rules id ≡ some r
      → IsUnit e l r
      → decide e l level id ≡ ok f
      → Derives s level d f
  by_multi :
      {e f : Decisions}
      → Derives s level d e
      → (id : ℕ) (r : Rule) → get_elem? s.rules id ≡ some r
      → IsOpen e r
      → Fills level id r e f
      → ((k : ℤ) → elem k r.literals ≡ true → decided f k ≡ true)
      → Derives s level d f

pub Derives-trans :
    {s : RuleSet} {level : ℤ} {d e f : Decisions}
    → Derives s level d e
    → Derives s level e f
    → Derives s level d f
Derives-trans p none_more = p
Derives-trans p (by_clause q l id r h n g u e) = by_clause (Derives-trans p q) l id r h n g u e
Derives-trans p (by_multi q id r g u e c) = by_multi (Derives-trans p q) id r g u e c

pub Derives-Extends :
    {s : RuleSet} {level : ℤ} {d e : Decisions} → Derives s level d e → Extends d e
Derives-Extends none_more = here
Derives-Extends {level = level} (by_clause q l id r h n g u e) =
    next (Derives-Extends q) l level id h n e
Derives-Extends (by_multi q id r g u e c) = Extends-trans (Derives-Extends q) (Fills-Extends e)

-- The decisions end at a rule that they refute, and which may have decided some of its literals.
pub record Clashes (s : RuleSet) (level : ℤ) (d : Decisions) (i : ℕ) (f : Decisions) : Type 0 where
  pub rule : Rule
  pub at_rule : get_elem? s.rules i ≡ some rule
  pub before : Decisions
  pub derives : Derives s level d before
  pub fills : Fills level i rule before f
  pub open_rule : is_multi rule ≡ true → IsOpen before rule
  pub clause_last : is_multi rule ≡ false → f ≡ before
  pub refuted : IsRefuted f rule

pub Derives-Clashes :
    {s : RuleSet} {level : ℤ} {d e f : Decisions} {i : ℕ}
    → Derives s level d e
    → Clashes s level e i f
    → Clashes s level d i f
Derives-Clashes p c = record {
  rule = c.rule;
  at_rule = c.at_rule;
  before = c.before;
  derives = Derives-trans p c.derives;
  fills = c.fills;
  open_rule = c.open_rule;
  clause_last = c.clause_last;
  refuted = c.refuted;
}

-- No conflict of many is disabled, and its literals are negative.
pub record IsPlain (r : Rule) : Type 0 where
  pub enabled : is_multi r ≡ true → r.disabled ≡ false
  pub negatives : is_multi r ≡ true → (k : ℤ) → elem k r.literals ≡ true → negative k ≡ true

abbrev pub AllPlain : RuleSet → Type 0
AllPlain s = (i : ℕ) (r : Rule) → get_elem? s.rules i ≡ some r → IsPlain r

-- A refuted literal stays refuted.
pub conflict-Extends :
    {d e : Decisions} (k : ℤ) → Extends d e → conflict d k ≡ true → conflict e k ≡ true
conflict-Extends {d = d} {e = e} k q c =
    conflict-neg e k ∙ satisfy-Extends _ q (sym (conflict-neg d k) ∙ c)

pub decided_of_conflict : (d : Decisions) (k : ℤ) → conflict d k ≡ true → decided d k ≡ true
unfolding conflict decided
decided_of_conflict d k c = ground arith

pub decided_of_satisfy : (d : Decisions) (k : ℤ) → satisfy d k ≡ true → decided d k ≡ true
unfolding satisfy decided
decided_of_satisfy d k c = ground arith

pub decided_split :
    (d : Decisions) (k : ℤ)
    → decided d k ≡ true
    → NonZero k
    → (satisfy d k ≡ true) ⊎ (conflict d k ≡ true)
unfolding satisfy conflict decided
decided_split d k h n = ground arith

-- A decision stays.
pub decided-Extends :
    {d e : Decisions} (k : ℤ) → Extends d e → decided d k ≡ true → decided e k ≡ true
unfolding decided
decided-Extends k here h = h
decided-Extends k (next {e = e} q l level r p n eq) h =
    ground (arith, entry-decide e l level r k eq, decided-Extends k q h, decide-inv e l level r eq)
