-- ===== src/Problem/Sections.antt =====
-- A problem lists each rule of the storage once: what its `seen` set is for.
use vivace.Common.{
  ℕ, ◌+◌, ◌==◌, ==_iff, Bool, true, false, ◌≡◌, refl, List, [], ◌∷◌, ◌++◌, mem, if◌then◌else◌,
  arith,
}
use vivace.Rule.{Rule}
use vivace.Problem.{
  ProblemRule, in_set, detached, Problem, new, push, push_last, no_section, add_rule, add_detached,
  next_section,
}

-- How often a section, and a list of sections, names a rule of the storage.
abbrev is_id : ℕ → ProblemRule → Bool
is_id id (in_set i) = id == i
is_id id (detached r) = false

abbrev in_section : ℕ → List ProblemRule → ℕ
in_section id [] = 0
in_section id (r ∷ rs) = (if is_id id r then 1 else 0) + in_section id rs

abbrev pub occurrences : ℕ → List (List ProblemRule) → ℕ
occurrences id [] = 0
occurrences id (s ∷ ss) = in_section id s + occurrences id ss

-- A seen rule stands once in the sections, and any other one does not.
abbrev pub IsListed : Problem → Type 0
IsListed p = (id : ℕ) → occurrences id p.sections ≡ (if mem id p.seen then 1 else 0)

in_section-snoc :
    (id : ℕ) (rs : List ProblemRule) (r : ProblemRule)
    → in_section id (rs ++ r ∷ []) ≡ in_section id rs + (if is_id id r then 1 else 0)
in_section-snoc id [] r = omega arith
in_section-snoc id (x ∷ rs) r = ground (arith, in_section-snoc id rs r)

occurrences-push_last :
    (id : ℕ) (ss : List (List ProblemRule)) (r : ProblemRule)
    → no_section ss ≡ false
    → occurrences id (push_last ss r) ≡ occurrences id ss + (if is_id id r then 1 else 0)
occurrences-push_last id [] r h = cc
occurrences-push_last id (s ∷ []) r h = ground (arith, in_section-snoc id s r)
occurrences-push_last id (s ∷ t ∷ ss) r h = ground (arith, occurrences-push_last id (t ∷ ss) r refl)

occurrences-fresh :
    (id : ℕ) (ss : List (List ProblemRule)) → occurrences id (ss ++ [] ∷ []) ≡ occurrences id ss
occurrences-fresh id [] = refl
occurrences-fresh id (s ∷ ss) = ground (arith, occurrences-fresh id ss)

no_section-fresh : (ss : List (List ProblemRule)) → no_section (ss ++ [] ∷ []) ≡ false
no_section-fresh [] = refl
no_section-fresh (s ∷ ss) = refl

occurrences-push :
    (id : ℕ) (p : Problem) (r : ProblemRule)
    → occurrences id (push p r).sections ≡ occurrences id p.sections + (if is_id id r then 1 else 0)
unfolding push
occurrences-push id p r = ground (
  arith,
  occurrences-push_last id p.sections r,
  occurrences-push_last id (p.sections ++ [] ∷ []) r (no_section-fresh p.sections),
  occurrences-fresh id p.sections,
)

seen-push : (p : Problem) (r : ProblemRule) → (push p r).seen ≡ p.seen
unfolding push
seen-push p r = ground arith

-- Adding a rule of the storage keeps every seen rule listed exactly once, and makes the rule seen,
-- whether or not a section is pending.
pub add_rule-IsListed :
    (p : Problem) (rule : ℕ)
    → IsListed p
    → IsListed (add_rule p rule) × (mem rule (add_rule p rule).seen ≡ true)
unfolding add_rule
add_rule-IsListed p rule h = (
  λ id. ground (
    arith,
    h id,
    ==_iff id rule,
    occurrences-push id (record p { seen = rule ∷ p.seen }) (in_set rule),
    seen-push (record p { seen = rule ∷ p.seen }) (in_set rule),
  ),
  ground (arith, ==_iff rule rule, seen-push (record p { seen = rule ∷ p.seen }) (in_set rule)),
)

-- A detached rule and a new section keep the listing.
pub add_detached-IsListed : (p : Problem) (r : Rule) → IsListed p → IsListed (add_detached p r)
unfolding add_detached
add_detached-IsListed p r h id =
    ground (arith, h id, occurrences-push id p (detached r), seen-push p (detached r))

pub next_section-IsListed : (p : Problem) → IsListed p → IsListed (next_section p)
unfolding next_section
next_section-IsListed p h id = h id

pub new-IsListed : IsListed new
unfolding new
new-IsListed id = refl
