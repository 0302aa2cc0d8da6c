-- ===== src/Examples.antt =====
-- A small request, run through the solver's model: packages 1 to 4 with the rules "not 1 or 2",
-- "not 1 or 3", "not 3 or not 2" and "1 or 4". Choosing package 1 fails, and package 4 solves it.
pub mod Claims
pub mod Steady
pub mod Versions
pub mod Paths
pub mod Sorted
pub mod Generated
use vivace.Common.{
  ℕ, zero, suc, ◌+◌, ◌<◌, ◌≤◌, ◌==◌, ℤ, pos, neg, negsuc, abs, eqb_ℤ, eqb_ℤ_iff, Bool, true, false,
  ◌||◌, ◌≡◌, refl, sym, subst, inl, inr, none, some, List, [], ◌∷◌, get_elem?, elem, Bool-cases,
  arith,
}
use vivace.Outcome.{Outcome, ok, err, ◌>>=◌}
use vivace.Decisions.{Decision, Decisions, new, decide, conflict}
use vivace.Decisions.Laws.{NonZero, Extends, here, next}
use vivace.Decisions.Trail.{IsTrail, Extends-IsTrail}
use vivace.Rule.{
  Rule, RuleSet, Reason, RuleKind, type_package, type_request, is_multi, add, empty, new_generic,
  new_two_literals,
}
use vivace.Watch.Semantics.{Assignment, Holds, AllHold, lit_true}
use vivace.Watch.{RuleWatchGraph, new_graph, insert, new_node}
use vivace.Solver.Analyze.Counting.{level_at}
use vivace.Solver.Analyze.Justified.{
  AllJustified, IsJustified, IsImplied, IsFree, IsFalsified, IsModel, Before,
}

-- The value of a run that succeeds.
abbrev pub value {ℓ} : {A : Type ℓ} → A → Outcome A → A
value default (ok a) = a
value default (err f) = default

-- A property of every literal of a list.
abbrev Each : (ℤ → Type 0) → List ℤ → Type 0
Each P [] = Unit
Each P (x ∷ xs) = P x × Each P xs

each : (P : ℤ → Type 0) (ls : List ℤ) → Each P ls → (k : ℤ) → elem k ls ≡ true → P k
each P [] h k e = cc
each P (x ∷ xs) h k e = elim (Bool-cases (eqb_ℤ k x)) [
  | inl t ↦ subst P (sym ((eqb_ℤ_iff k x).0 t)) h.0
  | inr f ↦ each P xs h.1 k (ground (arith, e, f))
]

abbrev pub r0 : Rule
r0 = record {
  kind = RuleKind.generic;
  literals = neg (pos 1) ∷ pos 2 ∷ [];
  reason = Reason.learned 0;
  rule_type = some type_package;
  disabled = false;
}

abbrev pub r1 : Rule
r1 = record r0 { literals = neg (pos 1) ∷ pos 3 ∷ [] }

abbrev pub r2 : Rule
r2 = record r0 { kind = RuleKind.two_literals; literals = neg (pos 3) ∷ neg (pos 2) ∷ [] }

abbrev pub r3 : Rule
r3 = record r0 { literals = pos 1 ∷ pos 4 ∷ []; rule_type = some type_request }

abbrev pub four_rules : RuleSet
four_rules = record {
  rules = r0 ∷ r1 ∷ r2 ∷ r3 ∷ [];
  rule_by_id = 0 ∷ 1 ∷ 2 ∷ 3 ∷ [];
  packages = 0 ∷ 1 ∷ 2 ∷ [];
  requests = 3 ∷ [];
  learneds = [];
  keys = [];
}

abbrev pub decision : ℤ → ℕ → Decision
decision l r = record { literal = l; reason = r }

abbrev pub one_decided : Decisions
one_decided = record {
  levels = pos 0 ∷ pos 2 ∷ pos 0 ∷ pos 0 ∷ pos 0 ∷ [];
  queue = decision (pos 1) 3 ∷ [];
}

abbrev pub two_decided : Decisions
two_decided = record {
  levels = pos 0 ∷ pos 2 ∷ pos 2 ∷ pos 0 ∷ pos 0 ∷ [];
  queue = decision (pos 1) 3 ∷ decision (pos 2) 0 ∷ [];
}

abbrev pub three_decided : Decisions
three_decided = record {
  levels = pos 0 ∷ pos 2 ∷ pos 2 ∷ pos 2 ∷ pos 0 ∷ [];
  queue = decision (pos 1) 3 ∷ decision (pos 2) 0 ∷ decision (pos 3) 1 ∷ [];
}

pub one_reached : Extends (new 4) one_decided
unfolding decide new
one_reached = next here (pos 1) (pos 2) 3 refl refl refl

pub from_one : Extends one_decided three_decided
unfolding decide
from_one =
    next (next {f = two_decided} here (pos 2) (pos 2) 0 refl refl refl) (pos 3) (pos 2) 1 refl refl
      refl

pub three_reached : Extends (new 4) three_decided
unfolding decide new
three_reached =
    next
      (next {f = two_decided} (next {f = one_decided} here (pos 1) (pos 2) 3 refl refl refl) (pos 2)
        (pos 2) 0 refl refl refl)
      (pos 3) (pos 2) 1 refl refl refl

levels_bound : (v : ℕ) → level_at three_decided v ≤ 2
levels_bound zero = omega arith
levels_bound (suc zero) = omega arith
levels_bound (suc (suc zero)) = omega arith
levels_bound (suc (suc (suc zero))) = omega arith
levels_bound (suc (suc (suc (suc zero)))) = omega arith
levels_bound (suc (suc (suc (suc (suc v))))) = omega arith

no_level_one : (v : ℕ) → level_at three_decided v ≡ 1 → ⊥
no_level_one zero h = cc
no_level_one (suc zero) h = absurd (omega arith)
no_level_one (suc (suc zero)) h = absurd (omega arith)
no_level_one (suc (suc (suc zero))) h = absurd (omega arith)
no_level_one (suc (suc (suc (suc zero)))) h = absurd (omega arith)
no_level_one (suc (suc (suc (suc (suc v))))) h = absurd (omega arith)

-- The decisions of 2 and 3 follow from their rules.
reason-IsImplied : IsImplied three_decided four_rules 1 (decision (pos 2) 0)
unfolding conflict
reason-IsImplied = record {
  rule = r0;
  at_rule = refl;
  enabled = refl;
  nonzero = each NonZero r0.literals (refl, (refl, tt));
  before =
      each (λ k. conflict three_decided k ≡ true → Before three_decided 1 (abs k)) r0.literals
        ((λ c. refl), ((λ c. cc), tt));
  clause = λ m.
      each (λ k. eqb_ℤ k (pos 2) ≡ false → conflict three_decided k ≡ true) r0.literals
        ((λ c. refl), ((λ c. cc), tt));
  own = λ m. cc;
  other = λ m. cc;
}

last_reason-IsImplied : IsImplied three_decided four_rules 2 (decision (pos 3) 1)
unfolding conflict
last_reason-IsImplied = record {
  rule = r1;
  at_rule = refl;
  enabled = refl;
  nonzero = each NonZero r1.literals (refl, (refl, tt));
  before =
      each (λ k. conflict three_decided k ≡ true → Before three_decided 2 (abs k)) r1.literals
        ((λ c. refl), ((λ c. cc), tt));
  clause = λ m.
      each (λ k. eqb_ℤ k (pos 3) ≡ false → conflict three_decided k ≡ true) r1.literals
        ((λ c. refl), ((λ c. cc), tt));
  own = λ m. cc;
  other = λ m. cc;
}

abbrev JustifiedAt : ℕ → Decision → Type 0
JustifiedAt i x =
    (level_at three_decided (abs x.literal) ≤ 2) × IsJustified three_decided four_rules i x

justified_1 : JustifiedAt 0 (decision (pos 1) 3)
justified_1 = (omega arith, record { sorted = λ v b. cc; reason = inl (omega arith, λ v b. cc) })

pub all_justified : AllJustified three_decided four_rules 2
all_justified zero x h =
    subst (JustifiedAt 0) (let e : decision (pos 1) 3 ≡ x = ground (arith, h) in e) justified_1
all_justified (suc zero) x h =
    subst (JustifiedAt 1) (let e : decision (pos 2) 0 ≡ x = ground (arith, h) in e)
      (omega arith, record { sorted = λ v b. levels_bound v; reason = inr reason-IsImplied })
all_justified (suc (suc zero)) x h =
    subst (JustifiedAt 2) (let e : decision (pos 3) 1 ≡ x = ground (arith, h) in e)
      (omega arith, record { sorted = λ v b. levels_bound v; reason = inr last_reason-IsImplied })
all_justified (suc (suc (suc i))) x h = cc

-- The third rule is false under the decisions.
pub falsified : IsFalsified three_decided 2 r2
unfolding conflict
falsified = record {
  enabled = refl;
  nonzero = each NonZero r2.literals (refl, (refl, tt));
  clause = λ m. each (λ k. conflict three_decided k ≡ true) r2.literals (refl, (refl, tt));
  multi = λ m. cc;
  current = (neg (pos 3), refl, refl, refl);
}

-- Package 4 alone is installed.
abbrev pub only_4 : Assignment
only_4 v = v == 4

pub four_rules_hold : AllHold only_4 four_rules
four_rules_hold zero r h =
    subst (Holds only_4) (let e : r0 ≡ r = ground (arith, h) in e)
      (record { clause = λ m e. refl; multi = λ m. cc })
four_rules_hold (suc zero) r h =
    subst (Holds only_4) (let e : r1 ≡ r = ground (arith, h) in e)
      (record { clause = λ m e. refl; multi = λ m. cc })
four_rules_hold (suc (suc zero)) r h =
    subst (Holds only_4) (let e : r2 ≡ r = ground (arith, h) in e)
      (record { clause = λ m e. refl; multi = λ m. cc })
four_rules_hold (suc (suc (suc zero))) r h =
    subst (Holds only_4) (let e : r3 ≡ r = ground (arith, h) in e)
      (record { clause = λ m e. refl; multi = λ m. cc })
four_rules_hold (suc (suc (suc (suc i)))) r h = cc

pub model : IsModel only_4 three_decided four_rules
model = record { all = four_rules_hold; level_one = λ k c e. absurd (no_level_one (abs k) e) }
