-- ===== src/Decisions/Laws.antt =====
-- What `decide` and the ways to take a decision back do to the map and the queue.
use vivace.Common.{
  ℕ, zero, suc, ◌+◌, ◌<◌, ◌≤◌, ◌==◌, ℤ, pos, neg, abs, positive, negative, eqb_ℤ, eqb_ℤ_iff, true,
  false, ◌||◌, ◌≡◌, List, [], ◌∷◌, ◌++◌, length, get_or, set, length-set, length-append,
  get_or-set_self, get_or-set_ne, set-set, set-get_or, last?-snoc, drop_last-snoc, if◌then◌else◌,
  arith, lt→ltb,
}
use vivace.Outcome.{ok}
use vivace.Decisions.{
  Decision, Decisions, entry, decide, satisfy, conflict, undecided, revert_last, reset_to_offset,
  reset_loop, succ,
}

-- The map after `decide`.
abbrev pub decide_levels : Decisions → ℤ → ℤ → List ℤ
decide_levels d l level = set d.levels (abs l) (if positive l then level else neg level)

abbrev pub decide_result : Decisions → ℤ → ℤ → ℕ → Decisions
decide_result d l level r = record {
  levels = decide_levels d l level;
  queue = d.queue ++ record { literal = l; reason = r } ∷ [];
}

-- `decide` succeeds only on an undecided literal of the pool, and then has this result.
pub decide-inv :
    (d : Decisions) (l level : ℤ) (r : ℕ) {d' : Decisions}
    → decide d l level r ≡ ok d'
    → (abs l < length d.levels)
      × (get_or d.levels (abs l) (pos 0) ≡ pos 0)
      × (d' ≡ decide_result d l level r)
unfolding decide
decide-inv d l level r h = ground (arith, eqb_ℤ_iff (get_or d.levels (abs l) (pos 0)) (pos 0))

pub decide-undecided :
    (d : Decisions) (l level : ℤ) (r : ℕ)
    → abs l < length d.levels
    → undecided d l ≡ true
    → decide d l level r ≡ ok (decide_result d l level r)
unfolding decide undecided
decide-undecided d l level r h u = rw (lt→ltb _ _ h, u)

pub entry-decide :
    (d : Decisions) (l level : ℤ) (r : ℕ) {d' : Decisions} (k : ℤ)
    → decide d l level r ≡ ok d'
    → entry d' k ≡ (if abs l == abs k then (if positive l then level else neg level) else entry d k)
unfolding entry
entry-decide d l level r k h =
    let (inside, fresh, e) = decide-inv d l level r h in
    ground (
      arith,
      inside,
      e,
      get_or-set_self d.levels (abs l) (if positive l then level else neg level) (pos 0) inside,
      get_or-set_ne d.levels (abs l) (abs k) (if positive l then level else neg level) (pos 0),
    )

-- A literal is not 0: the code never decides package 0.
abbrev pub NonZero : ℤ → Type 0
NonZero l = (positive l || negative l) ≡ true

-- When `decide` succeeds for a literal that is not 0, at a positive level, the literal was neither
-- satisfied nor in conflict before, and exactly the literals that were satisfied and this one are
-- satisfied after it.
pub satisfy-decide :
    (d : Decisions) (l level : ℤ) (r : ℕ) {d' : Decisions} (k : ℤ)
    → decide d l level r ≡ ok d'
    → positive level ≡ true
    → NonZero l
    → (satisfy d' k ≡ (eqb_ℤ k l || satisfy d k)) × (satisfy d l ≡ false) × (conflict d l ≡ false)
unfolding satisfy conflict
satisfy-decide d l level r k h p n =
    let (inside, fresh, e) = decide-inv d l level r h in
    (
      ground (arith, entry-decide d l level r k h, fresh),
      ground (arith, fresh),
      ground (arith, fresh),
    )

-- A literal conflicts exactly when its negation is satisfied.
pub conflict-neg : (d : Decisions) (k : ℤ) → conflict d k ≡ satisfy d (neg k)
unfolding satisfy conflict
conflict-neg d k = ground arith

-- The last decision is taken back: the map and the queue are again what they were.
pub revert_last-decide :
    (d : Decisions) (l level : ℤ) (r : ℕ) {d' : Decisions}
    → decide d l level r ≡ ok d'
    → revert_last d' ≡ ok d
unfolding revert_last
revert_last-decide d l level r h =
    let (inside, fresh, e) = decide-inv d l level r h in
    let v : ℤ = if positive l then level else neg level in
    let x : Decision = record { literal = l; reason = r } in
    ground (
      arith,
      inside,
      fresh,
      e,
      last?-snoc d.queue x,
      drop_last-snoc d.queue x,
      length-set d.levels (abs l) v,
      set-set d.levels (abs l) v (pos 0),
      set-get_or d.levels (abs l) (pos 0),
    )

-- `d'` is `d` after more decisions.
pub data Extends (d : Decisions) : Decisions → Type 0 where
  here : Extends d d
  next :
      {e f : Decisions}
      → Extends d e
      → (l level : ℤ) (r : ℕ) → positive level ≡ true
      → NonZero l
      → decide e l level r ≡ ok f
      → Extends d f

pub Extends-trans : {d e f : Decisions} → Extends d e → Extends e f → Extends d f
Extends-trans p here = p
Extends-trans p (next q l level r h n e) = next (Extends-trans p q) l level r h n e

pub length-decide :
    (d : Decisions) (l level : ℤ) (r : ℕ) {d' : Decisions}
    → decide d l level r ≡ ok d'
    → (length d'.queue ≡ suc (length d.queue)) × (length d'.levels ≡ length d.levels)
length-decide d l level r h =
    let (inside, fresh, e) = decide-inv d l level r h in
    (
      rw e (omega (arith, length-append d.queue (record { literal = l; reason = r } ∷ []))),
      rw (e, length-set),
    )

pub length-Extends :
    {d e : Decisions}
    → Extends d e
    → (length d.queue ≤ length e.queue) × (length e.levels ≡ length d.levels)
length-Extends here = omega arith
length-Extends (next {e = e} q l level r h n eq) =
    omega (arith, length-Extends q, length-decide e l level r eq)

-- More decisions never unsatisfy a literal.
pub satisfy-Extends :
    {d e : Decisions} (k : ℤ) → Extends d e → satisfy d k ≡ true → satisfy e k ≡ true
satisfy-Extends k here s = s
satisfy-Extends k (next {e = e} q l level r h n eq) s =
    ground (arith, satisfy-Extends k q s, satisfy-decide e l level r k eq h n)

reset_loop-Extends :
    (fuel : ℕ) (keep : ℤ) {d e : Decisions}
    → keep ≡ pos (length d.queue)
    → Extends d e
    → length e.queue < fuel + length d.queue
    → reset_loop fuel keep e ≡ ok d
unfolding reset_loop
reset_loop-Extends zero keep k here lt = absurd (omega arith)
reset_loop-Extends (suc fuel) keep k here lt = ground arith
reset_loop-Extends zero keep k (next {e = e} q l level r h n eq) lt =
    absurd (omega (arith, length-Extends q, length-decide e l level r eq))
reset_loop-Extends (suc fuel) keep k (next {e = e} q l level r h n eq) lt = ground (
  arith,
  length-Extends q,
  length-decide e l level r eq,
  revert_last-decide e l level r eq,
  reset_loop-Extends fuel keep k q,
)

-- `reset_to_offset` to the queue's length less one, taken before further decisions, restores the
-- whole state, whatever was decided since.
pub reset_to_offset-Extends :
    (offset : ℤ) {d e : Decisions}
    → Extends d e
    → succ offset ≡ pos (length d.queue)
    → reset_to_offset e offset ≡ ok d
unfolding reset_to_offset
reset_to_offset-Extends offset {d} {e} q k =
    reset_loop-Extends (suc (length e.queue)) (succ offset) k q (omega arith)
