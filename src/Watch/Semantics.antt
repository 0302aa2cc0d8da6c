-- ===== src/Watch/Semantics.antt =====
-- What rules and decisions mean: an assignment says of each package of the pool whether it is
-- installed.
use vivace.Common.{
  ℕ, ℤ, neg, abs, positive, negative, eqb_ℤ, eqb_ℤ_iff, Bool, true, false, not, ◌&&◌, ◌||◌, ◌≡◌,
  none, some, List, [], ◌∷◌, get_elem?, elem, arith,
}
use vivace.Outcome.{ok}
use vivace.Decisions.{Decisions, satisfy, conflict, decide}
use vivace.Decisions.Laws.{NonZero, satisfy-decide, conflict-neg}
use vivace.Rule.{Rule, RuleSet, is_multi}
use vivace.Watch.{alternative}

abbrev pub Assignment : Type 0
Assignment = ℕ → Bool

abbrev pub lit_true : Assignment → ℤ → Bool
lit_true a l = (positive l && a (abs l)) || (negative l && not (a (abs l)))

abbrev pub some_true : Assignment → List ℤ → Bool
some_true a [] = false
some_true a (l ∷ ls) = lit_true a l || some_true a ls

-- A conflict of many: of two different literals one is true.
abbrev pub AtMostOneFalse : Assignment → List ℤ → Type 0
AtMostOneFalse a ls =
    (k j : ℤ)
    → elem k ls ≡ true
    → elem j ls ≡ true
    → eqb_ℤ k j ≡ false
    → (lit_true a k || lit_true a j) ≡ true

-- The rule holds. A disabled rule asks nothing, but for a conflict of many, whose propagation does
-- not look at the mark.
pub record Holds (a : Assignment) (r : Rule) : Type 0 where
  pub clause : is_multi r ≡ false → r.disabled ≡ false → some_true a r.literals ≡ true
  pub multi : is_multi r ≡ true → AtMostOneFalse a r.literals

-- Every rule of the storage holds.
abbrev pub AllHold : Assignment → RuleSet → Type 0
AllHold a s = (i : ℕ) (r : Rule) → get_elem? s.rules i ≡ some r → Holds a r

-- The assignment makes every satisfied literal true.
abbrev pub Agrees : Assignment → Decisions → Type 0
Agrees a d = (k : ℤ) → satisfy d k ≡ true → lit_true a k ≡ true

pub lit_true-neg : (a : Assignment) (l : ℤ) → lit_true a (neg l) ≡ true → lit_true a l ≡ false
lit_true-neg a l h = ground arith

pub lit_true-NonZero : (a : Assignment) (l : ℤ) → lit_true a l ≡ true → NonZero l
lit_true-NonZero a l h = ground arith

-- A conflicting literal is false.
pub false_of_conflict :
    (a : Assignment) (d : Decisions) (l : ℤ)
    → Agrees a d
    → conflict d l ≡ true
    → lit_true a l ≡ false
false_of_conflict a d l g h = ground (arith, conflict-neg d l, g (neg l), lit_true-neg a l)

-- Deciding a true literal keeps the agreement.
pub decide-Agrees :
    (a : Assignment) (d : Decisions) (l level : ℤ) (r : ℕ) {d' : Decisions}
    → positive level ≡ true
    → Agrees a d
    → lit_true a l ≡ true
    → decide d l level r ≡ ok d'
    → Agrees a d'
decide-Agrees a d l level r p g t h k s =
    ground (arith, satisfy-decide d l level r k h p (lit_true-NonZero a l t), g k, eqb_ℤ_iff k l)

-- Where no alternative is left, a clause that holds makes the other watched literal true.
pub unit_forced :
    (a : Assignment) (d : Decisions) (literal other : ℤ) (ls : List ℤ)
    → Agrees a d
    → lit_true a literal ≡ false
    → alternative d literal other ls ≡ none
    → some_true a ls ≡ true
    → lit_true a other ≡ true
unfolding alternative
unit_forced a d literal other [] g f n t = cc
unit_forced a d literal other (l ∷ ls) g f n t = ground (
  arith,
  eqb_ℤ_iff l literal,
  eqb_ℤ_iff l other,
  false_of_conflict a d l g,
  unit_forced a d literal other ls g f,
)
