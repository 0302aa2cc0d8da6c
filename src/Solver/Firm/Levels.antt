-- ===== src/Solver/Firm/Levels.antt =====
-- The levels and the queue as decisions are added: what was decided stays as it was.
use vivace.Common.{
  ℕ, zero, suc, ◌<◌, ◌≤◌, ◌==◌, ==_iff, ℤ, pos, neg, abs, abs-neg, true, ◌≡◌, refl, sym, ap, subst,
  ◌∙◌, ◌⊎◌, inl, inr, some, List, [], ◌∷◌, ◌++◌, length, get_elem?, take, append_nil, append_assoc',
  arith, Bool-cases,
}
use vivace.Outcome.{ok}
use vivace.Decisions.{Decision, Decisions, satisfy, conflict, decide, entry}
use vivace.Decisions.Laws.{Extends, here, next, decide-inv, entry-decide, conflict-neg}
use vivace.Decisions.Trail.{has-mentions, IsTrail, mentions, satisfy-get_elem?}
use vivace.Solver.Analyze.Counting.{level_at}

level_at-entry : (d : Decisions) (v : ℕ) → level_at d v ≡ abs (entry d (pos v))
unfolding entry
level_at-entry d v = refl

pub level-Extends :
    {d e : Decisions} (v : ℕ) → Extends d e → 0 < level_at d v → level_at e v ≡ level_at d v
unfolding entry
level-Extends v here p = refl
level-Extends v (next {e = e} q l level r h n eq) p =
    let kept = level-Extends v q p in
    let (inside, fresh, f) = decide-inv e l level r eq in
    ground (arith, kept, fresh, entry-decide e l level r (pos v) eq)

-- The level of a decision just made.
pub level-decide :
    (d : Decisions) {e : Decisions} (l : ℤ) (lev : ℕ) (r : ℕ)
    → decide d l (pos lev) r ≡ ok e
    → level_at e (abs l) ≡ lev
unfolding entry
level-decide d {e} l lev r eq = ground (arith, entry-decide d l (pos lev) r l eq)

pub queue-Extends :
    {d e : Decisions} → Extends d e → (more : List Decision) × (e.queue ≡ d.queue ++ more)
queue-Extends {d} here = ([], sym (append_nil d.queue))
queue-Extends {d} (next {e = e} q l level r h n eq) =
    let (more, same) = queue-Extends q in
    let (inside, fresh, f) = decide-inv e l level r eq in
    let x : Decision = record { literal = l; reason = r } in
    (
      more ++ x ∷ [],
      ap (λ (g : Decisions). g.queue) f
          ∙ ap (λ xs. xs ++ x ∷ []) same
          ∙ append_assoc' d.queue more (x ∷ []),
    )

pub take-append : (i : ℕ) (xs ys : List Decision) → i ≤ length xs → take i (xs ++ ys) ≡ take i xs
take-append zero xs ys le = refl
take-append (suc i) [] ys le = absurd (omega arith)
take-append (suc i) (x ∷ xs) ys le = ap (λ t. x ∷ t) (take-append i xs ys (omega arith))

pub mentions-get_elem? :
    (v : ℕ) (xs : List Decision)
    → mentions v xs ≡ true
    → (i : ℕ) × (x : Decision) × (get_elem? xs i ≡ some x) × (abs x.literal ≡ v)
mentions-get_elem? v [] m = cc
mentions-get_elem? v (x ∷ xs) m = elim (Bool-cases (abs x.literal == v)) [
  | inl same ↦ (zero, x, refl, (==_iff (abs x.literal) v).0 same)
  | inr differ ↦
      let (i, y, at, e) = mentions-get_elem? v xs (ground (arith, m, differ)) in (suc i, y, at, e)
]

pub mentions-take :
    (v i : ℕ) (xs : List Decision) → mentions v (take i xs) ≡ true → mentions v xs ≡ true
mentions-take v zero xs m = cc
mentions-take v (suc i) [] m = cc
mentions-take v (suc i) (x ∷ xs) m = ground (arith, m, mentions-take v i xs)

pub mentions-take-append :
    (v i : ℕ) (xs ys : List Decision)
    → length xs ≤ i
    → mentions v xs ≡ true
    → mentions v (take i (xs ++ ys)) ≡ true
mentions-take-append v i [] ys le m = cc
mentions-take-append v zero (x ∷ xs) ys le m = absurd (omega arith)
mentions-take-append v (suc i) (x ∷ xs) ys le m = ground (arith, m, mentions-take-append v i xs ys)

pub get_elem?-split :
    (xs ys : List Decision) (i : ℕ) {x : Decision}
    → get_elem? (xs ++ ys) i ≡ some x
    → (get_elem? xs i ≡ some x) ⊎ (length xs ≤ i)
get_elem?-split [] ys i q = inr (omega arith)
get_elem?-split (y ∷ xs) ys zero q = inl q
get_elem?-split (y ∷ xs) ys (suc i) q = elim (get_elem?-split xs ys i q) [
  | inl old ↦ inl old
  | inr new ↦ inr (omega (arith, new))
]

pub conflict-mentions :
    (d : Decisions) (k : ℤ) → IsTrail d → conflict d k ≡ true → mentions (abs k) d.queue ≡ true
conflict-mentions d k t c =
    subst (λ v. mentions v d.queue ≡ true) (abs-neg k)
      (has-mentions (neg k) d.queue (sym (t.agree (neg k)) ∙ sym (conflict-neg d k) ∙ c))

pub satisfy-mentions :
    (d : Decisions) (k : ℤ) → IsTrail d → satisfy d k ≡ true → mentions (abs k) d.queue ≡ true
satisfy-mentions d k t c = has-mentions k d.queue (sym (t.agree k) ∙ c)

level_of_satisfied : (d : Decisions) (k : ℤ) → satisfy d k ≡ true → 0 < level_at d (abs k)
unfolding satisfy
level_of_satisfied d k h = ground (arith, h)

-- A package of the queue has a level.
pub mentioned_level :
    (d : Decisions) (v : ℕ) → IsTrail d → mentions v d.queue ≡ true → 0 < level_at d v
mentioned_level d v t m =
    let (i, x, at, e) = mentions-get_elem? v d.queue m in
    subst (λ v. 0 < level_at d v) e (level_of_satisfied d x.literal (satisfy-get_elem? d i t at))

pub get_elem?-last :
    (xs : List Decision) (y : Decision) (i : ℕ) {x : Decision}
    → get_elem? (xs ++ y ∷ []) i ≡ some x
    → length xs ≤ i
    → x ≡ y
get_elem?-last [] y zero q le = cc
get_elem?-last [] y (suc i) q le = cc
get_elem?-last (z ∷ xs) y zero q le = absurd (omega arith)
get_elem?-last (z ∷ xs) y (suc i) q le = get_elem?-last xs y i q (omega arith)
