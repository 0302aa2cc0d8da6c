-- ===== src/Solver/Analyze/Settling.antt =====
-- The scans after the literal is learned.
use vivace.Common.{
  ℕ, ◌==◌, ==_iff, ℤ, pos, neg, abs, eqb_ℤ_refl, Bool, true, false, not, ◌&&◌, ◌||◌, ◌≡◌, refl, sym,
  ◌∙◌, ap, subst, inl, inr, List, [], ◌∷◌, ◌++◌, mem, elem, arith, Bool-cases,
}
use vivace.Decisions.{Decisions, satisfy, conflict, decided, decision_level}
use vivace.Decisions.Laws.{NonZero, conflict-neg}
use vivace.Rule.{RuleSet}
use vivace.Watch.Semantics.{Assignment, lit_true, some_true}
use vivace.Solver.Analyze.{Analysis, count, scan, scan_multi}
use vivace.Solver.Analyze.Counting.{level_at}
use vivace.Solver.Analyze.Scanning.{pick-counted, conflict_facts, level_of_open}
use vivace.Solver.Analyze.States.{Setting, Settled}

module _ {d : Decisions} {s : RuleSet} {lev : ℕ} {a : Assignment} (set : Setting d s lev a) where
  -- In the rounds after, a literal of level 1 or of no level changes nothing that matters.
  pub count-Settled :
      (l : ℤ) (st : Analysis)
      → NonZero l
      → satisfy d l ≡ false
      → (conflict d l ≡ true → level_at d (abs l) ≡ 1)
      → Settled d a st
      → Settled d a (count (pos lev) (decision_level d l) l (record st { seen = abs l ∷ st.seen }))
  unfolding count decision_level
  count-Settled l st z unsat low c = record {
    literal = c.literal;
    is_learned = ground (arith, c.is_learned);
    idle = ground (arith, c.idle, low, level_of_open d l z, unsat);
    ones = λ k ck m. elim (Bool-cases (abs k == abs l)) [
      | inl e ↦
          let q : abs k ≡ abs l = (==_iff (abs k) (abs l)).0 e in
          elim (Bool-cases (conflict d l)) [
            | inl cl ↦ ap (level_at d) q ∙ low cl
            | inr cl ↦ absurd (
                omega (
                  arith,
                  level_of_open d l z cl unsat,
                  (conflict_facts d k ck).2,
                  ap (level_at d) q,
                ))
          ]
      | inr ne ↦ c.ones k ck (ground (arith, m, ne))
    ];
    good = ground (arith, c.good, some_true-snoc st.others l);
  }
    where
      some_true-snoc :
          (ls : List ℤ) (l : ℤ) → some_true a (ls ++ l ∷ []) ≡ (lit_true a l || some_true a ls)
      some_true-snoc [] l = refl
      some_true-snoc (k ∷ ls) l = ground (arith, some_true-snoc ls l)

  pub scan-Settled :
      (multi : Bool) (ls : List ℤ) (st : Analysis)
      → ((k : ℤ) → elem k ls ≡ true → NonZero k)
      → ((k : ℤ) → elem k ls ≡ true → conflict d k ≡ true → level_at d (abs k) ≡ 1)
      → Settled d a st
      → Settled d a (scan d (pos lev) multi ls st)
  unfolding scan
  scan-Settled multi [] st z low c = c
  scan-Settled multi (l ∷ ls) st z low c =
      elim (Bool-cases ((multi && not (decided d l)) || (satisfy d l || mem (abs l) st.seen))) [
        | inl idle ↦
            rw (idle, scan)
              (scan-Settled multi ls st (λ k e. z k (rw e (ground arith)))
                (λ k e. low k (rw e (ground arith))) c)
        | inr busy ↦
            rw (busy, scan)
              (scan-Settled multi ls _ (λ k e. z k (rw e (ground arith)))
                (λ k e. low k (rw e (ground arith)))
                (count-Settled l st (z l (rw eqb_ℤ_refl refl)) (ground (arith, busy))
                  (low l (rw eqb_ℤ_refl refl)) c))
      ]

  pub scan_multi-Settled :
      (rule : ℕ) (ls : List ℤ) (st : Analysis)
      → ((k : ℤ) → elem k ls ≡ true → NonZero k)
      → ((k : ℤ) → elem k ls ≡ true → conflict d k ≡ true → level_at d (abs k) ≡ 1)
      → Settled d a st
      → Settled d a (scan_multi d (pos lev) rule ls st)
  unfolding scan_multi
  scan_multi-Settled rule [] st z low c = c
  scan_multi-Settled rule (l ∷ ls) st z low c =
      elim (Bool-cases (not (mem (abs l) st.seen) && satisfy d (neg l))) [
        | inr idle ↦
            rw (idle, scan_multi)
              (scan_multi-Settled rule ls st (λ k e. z k (rw e (ground arith)))
                (λ k e. low k (rw e (ground arith))) c)
        | inl busy ↦
            rw (busy, scan_multi)
              (let cl : conflict d l ≡ true = ground (arith, busy, conflict-neg d l) in
                let p : Analysis = record st { pool = st.pool ++ rule ∷ [] } in
                let cp : Settled d a p = record {
                  literal = c.literal;
                  is_learned = c.is_learned;
                  idle = c.idle;
                  ones = c.ones;
                  good = c.good;
                } in
                subst (Settled d a) (sym (pick-counted d lev set.high set.trail l rule st)) (
                  count-Settled l p (z l (rw eqb_ℤ_refl refl)) (conflict_facts d l cl).0
                    (low l (rw eqb_ℤ_refl refl)) cp))
      ]
