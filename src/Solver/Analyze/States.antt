-- ===== src/Solver/Analyze/States.antt =====
-- What is known of the variables of `analyze` at the points of its loops.
use vivace.Common.{
  ℕ, suc, ◌<◌, ℤ, neg, abs, Bool, true, false, ◌||◌, ◌≡◌, ◌⊎◌, none, some, get_elem?, take, mem,
  elem,
}
use vivace.Outcome.{Outcome, ok, err}
use vivace.Decisions.{Decision, Decisions, satisfy, conflict}
use vivace.Decisions.Laws.{NonZero}
use vivace.Decisions.Trail.{IsTrail, mentions}
use vivace.Rule.{Rule, RuleSet}
use vivace.Watch.Semantics.{Assignment, lit_true, some_true}
use vivace.Solver.Analyze.{Analysis, Retry, finish, again, resume, without}
use vivace.Solver.Analyze.Counting.{level_at, tally}
use vivace.Solver.Analyze.Scanning.{IsCounted}
use vivace.Solver.Analyze.Justified.{AllJustified, Before, IsModel}

-- Where `analyze` is called: above level 1, on a justified trail, with an assignment that the rules
-- allow.
pub record Setting (d : Decisions) (s : RuleSet) (lev : ℕ) (a : Assignment) : Type 0 where
  pub high : 1 < lev
  pub trail : IsTrail d
  pub just : AllJustified d s lev
  pub model : IsModel a d s

module _ (a : Assignment) where
  -- The clause at the end of the analysis is true.
  abbrev pub Good : Analysis → Type 0
  Good st = (u : ℤ) → st.learned_literal ≡ some u → (lit_true a u || some_true a st.others) ≡ true

module _ (d : Decisions) (lev : ℕ) (a : Assignment) where
  -- In search of the literal to learn.
  pub record Searching (st : Analysis) : Type 0 where
    pub none_yet : st.learned_literal ≡ none
    pub counted : IsCounted d lev st
    pub open_level : 0 < st.num
    pub witness :
        (k : ℤ) × (lit_true a k ≡ true) × (conflict d k ≡ true) × (mem (abs k) st.seen ≡ true)

module _ (d : Decisions) (s : RuleSet) (lev : ℕ) (a : Assignment) where
  -- The same before the scan of the rule at hand.
  pub record Entering (st : Analysis) : Type 0 where
    pub none_yet : st.learned_literal ≡ none
    pub counted : IsCounted d lev st
    pub rule : Rule
    pub at_rule : get_elem? s.rules st.rule ≡ some rule
    pub nonzero : (k : ℤ) → elem k rule.literals ≡ true → NonZero k
    pub before :
        (k : ℤ)
        → elem k rule.literals ≡ true
        → conflict d k ≡ true
        → Before d st.decision_id (abs k)
    pub open_level :
        (0 < st.num)
        ⊎ ((k : ℤ) × (elem k rule.literals ≡ true)
            × (conflict d k ≡ true)
            × (level_at d (abs k) ≡ lev))
    pub witness :
        (k : ℤ) × (lit_true a k ≡ true)
        × (conflict d k ≡ true)
        × ((mem (abs k) st.seen ≡ true) ⊎ (elem k rule.literals ≡ true))

module _ (d : Decisions) (a : Assignment) where
  -- After it is learned: only packages of level 1 are seen.
  pub record Settled (st : Analysis) : Type 0 where
    pub literal : ℤ
    pub is_learned : st.learned_literal ≡ some literal
    pub idle : st.num ≡ 0
    pub ones : (k : ℤ) → conflict d k ≡ true → mem (abs k) st.seen ≡ true → level_at d (abs k) ≡ 1
    pub good : (lit_true a literal || some_true a st.others) ≡ true

module _ (d : Decisions) (s : RuleSet) (a : Assignment) where
  pub record SettledEntering (st : Analysis) : Type 0 where
    pub settled : Settled d a st
    pub rule : Rule
    pub at_rule : get_elem? s.rules st.rule ≡ some rule
    pub nonzero : (k : ℤ) → elem k rule.literals ≡ true → NonZero k
    pub low : (k : ℤ) → elem k rule.literals ≡ true → conflict d k ≡ true → level_at d (abs k) ≡ 1

module _ (d : Decisions) (lev : ℕ) (a : Assignment) where
  -- The step back to the decision `x` at `j`, in search of the literal to learn.
  pub record Stepped (st : Analysis) (j : ℕ) (x : Decision) : Type 0 where
    pub at : get_elem? d.queue j ≡ some x
    pub satisfied : satisfy d x.literal ≡ true
    pub current : level_at d (abs x.literal) ≡ lev
    pub total : suc (tally d lev (without (abs x.literal) st.seen) (take j d.queue)) ≡ st.num
    pub placed :
        (k : ℤ)
        → conflict d k ≡ true
        → mem (abs k) (without (abs x.literal) st.seen) ≡ true
        → (level_at d (abs k) ≡ 1)
          ⊎ ((level_at d (abs k) ≡ lev) × (mentions (abs k) (take j d.queue) ≡ true))
          ⊎ (elem k st.others ≡ true)
    -- the assignment refutes the decision, or has a witness that is still seen
    pub witness :
        (lit_true a (neg x.literal) ≡ true)
        ⊎ ((k : ℤ) × (lit_true a k ≡ true)
            × (conflict d k ≡ true)
            × (mem (abs k) (without (abs x.literal) st.seen) ≡ true))

module _ (d : Decisions) (s : RuleSet) (lev : ℕ) (a : Assignment) where
  -- What a round may return.
  abbrev pub RetryOk : Outcome Retry → Type 0
  RetryOk (err f) = Unit
  RetryOk (ok (finish c)) = Good a c
  RetryOk (ok (again c)) = Searching d lev a c ⊎ Settled d a c
  RetryOk (ok (resume c)) = Entering d s lev a c ⊎ SettledEntering d s a c

module _ (d : Decisions) (s : RuleSet) (lev : ℕ) (a : Assignment) where
  -- The state at the head of the loop.
  abbrev pub AtHead : Bool → Analysis → Type 0
  AtHead true st = Entering d s lev a st ⊎ SettledEntering d s a st
  AtHead false st = Searching d lev a st ⊎ Settled d a st
