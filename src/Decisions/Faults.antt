-- ===== src/Decisions/Faults.antt =====
-- When `decide` fails.
use vivace.Common.{
  ℕ, zero, suc, ◌<◌, ◌≤◌, ◌==◌, ==_iff, ltb, ltb→lt, ℤ, pos, neg, abs, positive, eqb_ℤ, set, negsuc,
  true, false, not, ◌||◌, ◌≡◌, refl, ◌∙◌, sym, ap, List, [], ◌∷◌, ◌++◌, length, if◌then◌else◌,
  arith, ◌⊎◌, inl, inr, Bool-cases,
}
use vivace.Outcome.{ok, err, out_of_pool, previously_decided}
use vivace.Decisions.{Decision, Decisions, entry, decide, satisfy}
use vivace.Decisions.Laws.{NonZero}
use vivace.Decisions.Trail.{IsTrail, has, mentions}

decided-satisfy :
    (d : Decisions) (l : ℤ)
    → NonZero l
    → not (eqb_ℤ (entry d l) (pos 0)) ≡ (satisfy d l || satisfy d (neg l))
unfolding entry satisfy
decided-satisfy d (pos zero) n = cc
decided-satisfy d (pos (suc l)) n = ground arith
decided-satisfy d (negsuc l) n = ground arith

one_of : (l k : ℤ) → NonZero l → (abs k == abs l) ≡ (eqb_ℤ l k || eqb_ℤ (neg l) k)
one_of (pos zero) k n = cc
one_of (pos (suc l)) (pos k) n = ground (arith, ==_iff k (suc l), ==_iff (suc l) k)
one_of (pos (suc l)) (negsuc k) n = ground arith
one_of (negsuc l) (pos k) n = ground arith
one_of (negsuc l) (negsuc k) n = ground arith

mentions_either :
    (l : ℤ) (ds : List Decision) → NonZero l → mentions (abs l) ds ≡ (has l ds || has (neg l) ds)
mentions_either l [] n = refl
mentions_either l (x ∷ ds) n = rw (mentions_either l ds n) (ground (arith, one_of l x.literal n))

-- A package stands in the queue exactly if the map has a level for it.
mentions-entry :
    (d : Decisions) (l : ℤ)
    → IsTrail d
    → NonZero l
    → mentions (abs l) d.queue ≡ not (eqb_ℤ (entry d l) (pos 0))
mentions-entry d l t n =
    mentions_either l d.queue n
    ∙ ap (λ b. b || has (neg l) d.queue) (sym (t.agree l))
    ∙ ap (λ b. satisfy d l || b) (sym (t.agree (neg l)))
    ∙ sym (decided-satisfy d l n)

-- `decide` on a literal of a package, with the queue as it was built: out of the pool it fails, and
-- on a package that stands in the queue, with the level that it has; else it adds the decision.
pub decide_lem :
    (d : Decisions) (l level : ℤ) (reason : ℕ)
    → IsTrail d
    → NonZero l
    → ((length d.levels ≤ abs l) × (decide d l level reason ≡ err (out_of_pool l)))
      ⊎ (((abs l < length d.levels)
            × (mentions (abs l) d.queue ≡ true)
            × (decide d l level reason ≡ err (previously_decided l level (abs l) (entry d l))))
          ⊎ ((abs l < length d.levels)
              × (mentions (abs l) d.queue ≡ false)
              × ((e : Decisions) × (decide d l level reason ≡ ok e)
                  × (e.queue ≡ d.queue ++ record { literal = l; reason = reason } ∷ []))))
unfolding decide entry
decide_lem d l level reason t n = elim (Bool-cases (ltb (abs l) (length d.levels))) [
  | inl inside ↦ elim (Bool-cases (eqb_ℤ (entry d l) (pos 0))) [
    | inl z ↦ inr (
        inr (
          ltb→lt (abs l) (length d.levels) inside,
          mentions-entry d l t n ∙ ap not z,
          (
            record {
              levels = set d.levels (abs l) (if positive l then level else neg level);
              queue = d.queue ++ record { literal = l; reason = reason } ∷ [];
            },
            rw inside rw z refl,
            refl,
          ),
        ))
    | inr z ↦ inr (
        inl (
          ltb→lt (abs l) (length d.levels) inside,
          mentions-entry d l t n ∙ ap not z,
          rw inside rw z refl,
        ))
  ]
  | inr outside ↦ inl (ground (arith, outside), rw outside refl)
]
