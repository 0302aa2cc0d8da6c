-- ===== src/Solver/Analyze/Stepping.antt =====
-- The step back in the queue, in search of the literal to learn.
use vivace.Common.{
  ℕ, suc, ◌==◌, ==_iff, ℤ, neg, neg-neg, abs, abs-neg, true, ◌≡◌, sym, ◌∙◌, ap, inl, inr, take,
  take-suc, arith, Bool-cases,
}
use vivace.Decisions.{Decisions, satisfy, conflict}
use vivace.Decisions.Laws.{conflict-neg}
use vivace.Decisions.Trail.{satisfy-get_elem?}
use vivace.Rule.{RuleSet}
use vivace.Watch.Semantics.{Assignment, lit_true}
use vivace.Solver.Analyze.{Analysis, without}
use vivace.Solver.Analyze.Counting.{
  level_at, tally, tally_pos, tally-without, tally-snoc, mentions-snoc, mem_of_without,
  without_keeps, not_before, Found,
}
use vivace.Solver.Analyze.Scanning.{conflict_unique}
use vivace.Solver.Analyze.States.{Setting, Searching, Stepped}

module _ {d : Decisions} {s : RuleSet} {lev : ℕ} {a : Assignment} (set : Setting d s lev a) where
  -- The negation of a satisfied literal is false.
  pub conflict_of : (l : ℤ) → satisfy d l ≡ true → conflict d (neg l) ≡ true
  conflict_of l h = conflict-neg d (neg l) ∙ ap (satisfy d) (neg-neg l) ∙ h

  pub same_package :
      (k l : ℤ)
      → satisfy d l ≡ true
      → lit_true a k ≡ true
      → conflict d k ≡ true
      → (abs k == abs l) ≡ true
      → lit_true a (neg l) ≡ true
  same_package k l sat tk ck e =
      let q : k ≡ neg l =
        conflict_unique d k (neg l) ck (conflict_of l sat)
          ((==_iff (abs k) (abs l)).0 e ∙ sym (abs-neg l)) in
      rw q at tk

  pub stepped-total :
      (st : Analysis) (p : ℕ × ℤ) (f : Found d st.seen st.decision_id p)
      → Searching d lev a st
      → (level_at d (abs f.decision.literal) ≡ lev)
        × (suc (tally d lev (without (abs f.decision.literal) st.seen) (take p.0 d.queue)) ≡ st.num)
  stepped-total st p f c =
      let x = f.decision in
      let v = abs x.literal in
      let front = take p.0 d.queue in
      let same = ap (tally d lev st.seen) (take-suc d.queue p.0 f.at) in
      let split = tally-snoc d lev st.seen front x in
      let kept =
        tally-without d lev v st.seen front (not_before p.0 d.queue set.trail.distinct f.at) in
      let all = c.counted.total ∙ f.total lev ∙ same ∙ split in
      elim (Bool-cases (level_at d v == lev)) [
        | inl e ↦ (ground (arith, e), ground (arith, e, all, kept, f.was_seen))
        | inr ne ↦
            let (w, m, lw) =
              tally_pos d lev st.seen front (ground (arith, ne, all, f.was_seen, c.open_level)) in
            let (below, j) = set.just p.0 x f.at in
            absurd (ground (arith, ne, below, j.sorted w m, lw))
      ]

  pub stepped :
      (st : Analysis) (p : ℕ × ℤ) (f : Found d st.seen st.decision_id p)
      → Searching d lev a st
      → Stepped d lev a st p.0 f.decision
  stepped st p f c =
      let x = f.decision in
      let tot = stepped-total st p f c in
      record {
        at = f.at;
        satisfied = satisfy-get_elem? d p.0 set.trail f.at;
        current = tot.0;
        total = tot.1;
        placed = λ k ck m.
            let (seen, ne) = mem_of_without (abs k) (abs x.literal) st.seen m in
            elim (c.counted.placed k ck seen) [
              | inl one ↦ inl one
              | inr (inr e) ↦ inr (inr e)
              | inr (inl (lk, bk)) ↦ inr (
                  inl (
                    lk,
                    ground (
                      arith,
                      f.none_between (abs k) seen bk,
                      take-suc d.queue p.0 f.at,
                      mentions-snoc (abs k) (take p.0 d.queue) x,
                      ne,
                      ==_iff (abs k) (abs x.literal),
                      ==_iff (abs x.literal) (abs k),
                    ),
                  ))
            ];
        witness =
            let w = c.witness in
            elim (Bool-cases (abs w.0 == abs x.literal)) [
              | inl e ↦
                  inl
                    (same_package w.0 x.literal (satisfy-get_elem? d p.0 set.trail f.at) w.1 w.2 e)
              | inr ne ↦ inr (w.0, w.1, w.2, without_keeps (abs w.0) (abs x.literal) st.seen ne w.3)
            ];
      }
