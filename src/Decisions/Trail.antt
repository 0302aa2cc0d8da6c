-- ===== src/Decisions/Trail.antt =====
-- The states that a run of decisions reaches from the empty map: the map says exactly what the
-- queue holds, and no package is decided twice.
use vivace.Common.{
  ℕ, zero, suc, ◌+◌, ◌<◌, ◌≤◌, ◌==◌, ℤ, pos, neg, abs, positive, eqb_ℤ, eqb_ℤ_refl, eqb_ℤ_iff,
  get_elem?, Bool, true, false, ◌||◌, ◌≡◌, refl, ◌∙◌, List, [], ◌∷◌, ◌++◌, length, get_or, set,
  length-append, get_or-replicate, if◌then◌else◌, arith, ◌⊎◌, replicate, some,
}
use vivace.Outcome.{ok}
use vivace.Decisions.{Decision, Decisions, new, decide, satisfy}
use vivace.Decisions.Laws.{NonZero, Extends, here, next, satisfy-decide, decide-inv}

-- The literal stands in the queue.
abbrev pub has : ℤ → List Decision → Bool
has k [] = false
has k (d ∷ ds) = eqb_ℤ k d.literal || has k ds

-- The package stands in the queue, with either sign.
abbrev pub mentions : ℕ → List Decision → Bool
mentions i [] = false
mentions i (d ∷ ds) = (abs d.literal == i) || mentions i ds

abbrev pub Distinct : List Decision → Type 0
Distinct [] = Unit
Distinct (d ∷ ds) = (mentions (abs d.literal) ds ≡ false) × Distinct ds

-- How many packages the map holds as decided.
abbrev pub count_decided : List ℤ → ℕ
count_decided [] = 0
count_decided (x ∷ xs) = (if eqb_ℤ x (pos 0) then 0 else 1) + count_decided xs

has-snoc :
    (k : ℤ) (ds : List Decision) (d : Decision)
    → has k (ds ++ d ∷ []) ≡ (eqb_ℤ k d.literal || has k ds)
has-snoc k [] d = refl
has-snoc k (x ∷ ds) d = ground (arith, has-snoc k ds d)

mentions-snoc :
    (i : ℕ) (ds : List Decision) (d : Decision)
    → mentions i (ds ++ d ∷ []) ≡ ((abs d.literal == i) || mentions i ds)
mentions-snoc i [] d = refl
mentions-snoc i (x ∷ ds) d = ground (arith, mentions-snoc i ds d)

Distinct-snoc :
    (ds : List Decision) (d : Decision)
    → mentions (abs d.literal) ds ≡ false
    → Distinct ds
    → Distinct (ds ++ d ∷ [])
Distinct-snoc [] d m s = (refl, tt)
Distinct-snoc (x ∷ ds) d m s =
    (rw mentions-snoc (ground arith), Distinct-snoc ds d (ground arith) s.1)

-- A package in the queue stands there with one of its literals.
pub mentions-has :
    (i : ℕ) (ds : List Decision)
    → mentions i ds ≡ true
    → (has (pos i) ds ≡ true) ⊎ (has (neg (pos i)) ds ≡ true)
mentions-has i [] m = cc
mentions-has i (x ∷ ds) m = ground (arith, mentions-has i ds)

pub has-mentions : (k : ℤ) (xs : List Decision) → has k xs ≡ true → mentions (abs k) xs ≡ true
has-mentions k [] h = cc
has-mentions k (x ∷ xs) h = ground (arith, has-mentions k xs, eqb_ℤ_iff k x.literal)

-- What holds of every state that a run of decisions reaches.
pub record IsTrail (d : Decisions) : Type 0 where
  pub agree : (k : ℤ) → satisfy d k ≡ has k d.queue
  pub distinct : Distinct d.queue
  pub counted : count_decided d.levels ≡ length d.queue

satisfy-new : (n : ℕ) (k : ℤ) → satisfy (new n) k ≡ false
unfolding satisfy new
satisfy-new n k = ground (arith, get_or-replicate (n + 1) (abs k) (pos 0))

count_decided-replicate : (n : ℕ) → count_decided (replicate n (pos 0)) ≡ 0
count_decided-replicate zero = refl
count_decided-replicate (suc n) = omega (arith, count_decided-replicate n)

count_decided-set :
    (xs : List ℤ) (i : ℕ) (v : ℤ)
    → i < length xs
    → get_or xs i (pos 0) ≡ pos 0
    → eqb_ℤ v (pos 0) ≡ false
    → count_decided (set xs i v) ≡ suc (count_decided xs)
count_decided-set [] i v lt z nz = elim lt [ ]
count_decided-set (x ∷ xs) zero v lt z nz = ground arith
count_decided-set (x ∷ xs) (suc i) v lt z nz =
    ground (arith, count_decided-set xs i v (omega arith) z nz)

count_decided-le : (xs : List ℤ) → count_decided xs ≤ length xs
count_decided-le [] = omega arith
count_decided-le (x ∷ xs) = ground (arith, count_decided-le xs)

-- An undecided literal's package is not in the queue.
fresh-mentions :
    (d : Decisions) (l : ℤ)
    → ((k : ℤ) → satisfy d k ≡ has k d.queue)
    → get_or d.levels (abs l) (pos 0) ≡ pos 0
    → mentions (abs l) d.queue ≡ false
unfolding satisfy
fresh-mentions d l agree z =
    ground (arith, mentions-has (abs l) d.queue, agree (pos (abs l)), agree (neg (pos (abs l))))

new-IsTrail : (n : ℕ) → IsTrail (new n)
unfolding new
new-IsTrail n = record {
  agree = satisfy-new n;
  distinct = tt;
  counted = count_decided-replicate (n + 1);
}

pub decide-IsTrail :
    (d : Decisions) (l level : ℤ) (r : ℕ) {d' : Decisions}
    → positive level ≡ true
    → NonZero l
    → IsTrail d
    → decide d l level r ≡ ok d'
    → IsTrail d'
decide-IsTrail d l level r p n t h =
    let (inside, fresh, e) = decide-inv d l level r h in
    let x : Decision = record { literal = l; reason = r } in
    let v : ℤ = if positive l then level else neg level in
    record {
      agree = λ k. (satisfy-decide d l level r k h p n).0 ∙ rw e (rw (has-snoc, t.agree k) refl);
      distinct = rw e (Distinct-snoc d.queue x (fresh-mentions d l t.agree fresh) t.distinct);
      counted = rw e (
          rw (count_decided-set d.levels (abs l) v inside fresh (ground arith), length-append)
            (omega (arith, t.counted)));
    }

-- Every state that decisions on literals of packages, at positive levels, reach from the empty
-- map is a trail: a literal is satisfied exactly when it stands in the queue, no package stands
-- there twice, and the map counts as many decided packages as the queue is long.
pub Extends-IsTrail : (n : ℕ) {d : Decisions} → Extends (new n) d → IsTrail d
Extends-IsTrail n here = new-IsTrail n
Extends-IsTrail n (next {e = e} q l level r p z h) =
    decide-IsTrail e l level r p z (Extends-IsTrail n q) h

-- The queue never holds more decisions than the map has places.
pub length-IsTrail : (d : Decisions) → IsTrail d → length d.queue ≤ length d.levels
length-IsTrail d t = omega (arith, t.counted, count_decided-le d.levels)

-- More decisions keep a trail a trail.
pub Extends-keeps-IsTrail : {d e : Decisions} → IsTrail d → Extends d e → IsTrail e
Extends-keeps-IsTrail t here = t
Extends-keeps-IsTrail t (next {e = e} q l level r p z h) =
    decide-IsTrail e l level r p z (Extends-keeps-IsTrail t q) h

has_of_get_elem? :
    (ds : List Decision) (i : ℕ) {x : Decision} → get_elem? ds i ≡ some x → has x.literal ds ≡ true
has_of_get_elem? [] i h = cc
has_of_get_elem? (y ∷ ds) zero {x} h = ground (arith, eqb_ℤ_refl x.literal)
has_of_get_elem? (y ∷ ds) (suc i) h = ground (arith, has_of_get_elem? ds i h)

-- A decision of the queue satisfies its literal.
pub satisfy-get_elem? :
    (d : Decisions) (i : ℕ) {x : Decision}
    → IsTrail d
    → get_elem? d.queue i ≡ some x
    → satisfy d x.literal ≡ true
satisfy-get_elem? d i {x} t h = t.agree x.literal ∙ has_of_get_elem? d.queue i h
