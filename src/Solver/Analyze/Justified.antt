-- ===== src/Solver/Analyze/Justified.antt =====
-- What the queue, the rules and the assignment are where `analyze` is called.
use vivace.Common.{
  ℕ, ◌<◌, ◌≤◌, ℤ, abs, eqb_ℤ, eqb_ℤ_iff, eqb_ℤ_refl, true, false, ◌≡◌, refl, ◌⊎◌, inl, inr, some,
  List, [], ◌∷◌, get_elem?, take, elem, arith, Bool-cases,
}
use vivace.Decisions.{Decision, Decisions, conflict}
use vivace.Decisions.Laws.{NonZero}
use vivace.Decisions.Trail.{mentions}
use vivace.Rule.{Rule, RuleSet, is_multi}
use vivace.Watch.Semantics.{Assignment, lit_true, some_true, AllHold}
use vivace.Solver.Analyze.Counting.{level_at}

-- The package is decided before place `i` of the queue.
abbrev pub Before : Decisions → ℕ → ℕ → Type 0
Before d i v = mentions v (take i d.queue) ≡ true

-- The reason of the decision at `i` implies it: what is false among the rule's other literals was
-- decided before.
pub record IsImplied (d : Decisions) (s : RuleSet) (i : ℕ) (x : Decision) : Type 0 where
  pub rule : Rule
  pub at_rule : get_elem? s.rules x.reason ≡ some rule
  pub enabled : rule.disabled ≡ false
  pub nonzero : (k : ℤ) → elem k rule.literals ≡ true → NonZero k
  pub before : (k : ℤ) → elem k rule.literals ≡ true → conflict d k ≡ true → Before d i (abs k)
  pub clause :
      is_multi rule ≡ false
      → (k : ℤ) → elem k rule.literals ≡ true
      → eqb_ℤ k x.literal ≡ false
      → conflict d k ≡ true
  pub own : is_multi rule ≡ true → elem x.literal rule.literals ≡ true
  pub other : is_multi rule ≡ true → (f : ℤ) × (elem f rule.literals ≡ true) × (conflict d f ≡ true)

-- A free choice: the first decision of its level, above level 1.
abbrev pub IsFree : Decisions → ℕ → Decision → Type 0
IsFree d i x =
    (1 < level_at d (abs x.literal))
    × ((v : ℕ) → Before d i v → level_at d v < level_at d (abs x.literal))

pub record IsJustified (d : Decisions) (s : RuleSet) (i : ℕ) (x : Decision) : Type 0 where
  pub sorted : (v : ℕ) → Before d i v → level_at d v ≤ level_at d (abs x.literal)
  pub reason : IsFree d i x ⊎ IsImplied d s i x

-- The levels rise along the queue up to `lev`, and each decision is a free choice or implied.
abbrev pub AllJustified : Decisions → RuleSet → ℕ → Type 0
AllJustified d s lev =
    (i : ℕ) (x : Decision)
    → get_elem? d.queue i ≡ some x
    → (level_at d (abs x.literal) ≤ lev) × IsJustified d s i x

-- The rule is false under the decisions, with a literal of the current level.
pub record IsFalsified (d : Decisions) (lev : ℕ) (r : Rule) : Type 0 where
  pub enabled : r.disabled ≡ false
  pub nonzero : (k : ℤ) → elem k r.literals ≡ true → NonZero k
  pub clause : is_multi r ≡ false → (k : ℤ) → elem k r.literals ≡ true → conflict d k ≡ true
  pub multi :
      is_multi r ≡ true
      → (k j : ℤ) × (elem k r.literals ≡ true)
        × (elem j r.literals ≡ true)
        × (eqb_ℤ k j ≡ false)
        × (conflict d k ≡ true)
        × (conflict d j ≡ true)
  pub current :
      (k : ℤ) × (elem k r.literals ≡ true) × (conflict d k ≡ true) × (level_at d (abs k) ≡ lev)

-- A literal that makes a clause true.
pub witness_of :
    (a : Assignment) (ls : List ℤ)
    → some_true a ls ≡ true
    → (k : ℤ) × (elem k ls ≡ true) × (lit_true a k ≡ true)
witness_of a [] h = cc
witness_of a (l ∷ ls) h = elim (Bool-cases (lit_true a l)) [
  | inl t ↦ (l, rw eqb_ℤ_refl refl, t)
  | inr f ↦ let (k, e, t) = witness_of a ls (ground (arith, h, f)) in (k, rw e (ground arith), t)
]

pub some_true_of :
    (a : Assignment) (ls : List ℤ) (k : ℤ)
    → elem k ls ≡ true
    → lit_true a k ≡ true
    → some_true a ls ≡ true
some_true_of a [] k e t = cc
some_true_of a (l ∷ ls) k e t = ground (arith, some_true_of a ls k, eqb_ℤ_iff k l)

-- What is known of one assignment under which the rules and the level-1 decisions hold.
pub record IsModel (a : Assignment) (d : Decisions) (s : RuleSet) : Type 0 where
  pub all : AllHold a s
  pub level_one : (k : ℤ) → conflict d k ≡ true → level_at d (abs k) ≡ 1 → lit_true a k ≡ false
