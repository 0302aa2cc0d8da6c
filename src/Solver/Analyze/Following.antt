-- ===== src/Solver/Analyze/Following.antt =====
-- From a decision to its reason.
use vivace.Common.{
  ℕ, ◌-◌, ◌<◌, ℤ, pos, neg, abs, abs-neg, true, ◌≡◌, sym, ◌∙◌, ap, inl, inr, some, get_elem?, mem,
  elem, if◌then◌else◌, arith, Bool-cases,
}
use vivace.Outcome.{ok}
use vivace.Decisions.{Decision, Decisions, conflict, at_offset}
use vivace.Decisions.Trail.{satisfy-get_elem?}
use vivace.Rule.{Rule, RuleSet, is_multi}
use vivace.Watch.Semantics.{Assignment}
use vivace.Solver.Analyze.{Analysis, again, resume, scan_multi, follow_reason, without}
use vivace.Solver.Analyze.Counting.{level_at, mem_of_without}
use vivace.Solver.Analyze.Scanning.{conflict_facts}
use vivace.Solver.Analyze.Justified.{IsImplied}
use vivace.Solver.Analyze.States.{Setting, Searching, Settled, Stepped, RetryOk}
use vivace.Solver.Analyze.Stepping.{conflict_of}
use vivace.Solver.Analyze.Learning.{again-Searching, implied, resume-Entering, behind}
use vivace.Solver.Analyze.Settling.{scan_multi-Settled}

module _ {d : Decisions} {s : RuleSet} {lev : ℕ} {a : Assignment} (set : Setting d s lev a) where
  -- `follow_reason` at a decision of the queue with a stored reason.
  pub follow_reason_lem :
      (st : Analysis) (x : Decision) (r : Rule)
      → get_elem? d.queue st.decision_id ≡ some x
      → get_elem? s.rules x.reason ≡ some r
      → follow_reason s d (pos lev) st
        ≡ ok (
            if is_multi r
            then again (scan_multi d (pos lev) x.reason r.literals (record st { rule = x.reason }))
            else resume (record st { rule = x.reason }))
  unfolding follow_reason at_offset
  follow_reason_lem st x r hx hr = ground (arith, hx, hr)

  -- A decision of level 1 is implied set by decisions of level 1.
  pub IsImplied-low :
      (j : ℕ) (x : Decision)
      → get_elem? d.queue j ≡ some x
      → level_at d (abs x.literal) ≡ 1
      → (im : IsImplied d s j x) × ((k : ℤ)
          → elem k im.rule.literals ≡ true
          → conflict d k ≡ true
          → level_at d (abs k) ≡ 1)
  IsImplied-low j x at one = elim ((set.just j x at).1.reason) [
    | inl (up, free) ↦ absurd (omega arith)
    | inr im ↦ (
      im,
      λ k e ck.
          let below = (set.just j x at).1.sorted (abs k) (im.before k e ck) in
          omega (arith, (conflict_facts d k ck).2),
    )
  ]

  pub Settled-follow :
      (st : Analysis) (j : ℕ) (x : Decision)
      → get_elem? d.queue j ≡ some x
      → mem (abs x.literal) st.seen ≡ true
      → Settled d a st
      → RetryOk d s lev a (
          follow_reason s d (pos lev) (record st {
            decision_id = j;
            seen = without (abs x.literal) st.seen;
            num = st.num - 1;
          }))
  Settled-follow st j x at seen c =
      let sat = satisfy-get_elem? d j set.trail at in
      let one : level_at d (abs x.literal) ≡ 1 =
        sym (ap (level_at d) (abs-neg x.literal))
        ∙ c.ones (neg x.literal) (conflict_of set x.literal sat) (rw abs-neg seen) in
      let (im, low) = IsImplied-low j x at one in
      let b : Analysis = behind set st j x (st.num - 1) in
      let cb : Settled d a b = record {
        literal = c.literal;
        is_learned = c.is_learned;
        idle = omega (arith, c.idle);
        ones = λ k ck m. c.ones k ck (mem_of_without (abs k) (abs x.literal) st.seen m).0;
        good = c.good;
      } in
      rw
        (
          follow_reason_lem
              (record st {
                decision_id = j;
                seen = without (abs x.literal) st.seen;
                num = st.num - 1;
              })
              x im.rule at im.at_rule,
          RetryOk,
        )
        (elim (Bool-cases (is_multi im.rule)) [
          | inl many ↦
              rw many (inr (scan_multi-Settled set x.reason im.rule.literals b im.nonzero low cb))
          | inr single ↦ rw single (
              inr (record {
                settled = cb;
                rule = im.rule;
                at_rule = im.at_rule;
                nonzero = im.nonzero;
                low = low;
              }))
        ])

  pub Searching-follow :
      (st : Analysis) (j : ℕ) (x : Decision)
      → Searching d lev a st
      → Stepped d lev a st j x
      → 1 < st.num
      → RetryOk d s lev a (
          follow_reason s d (pos lev) (record st {
            decision_id = j;
            seen = without (abs x.literal) st.seen;
            num = st.num - 1;
          }))
  Searching-follow st j x c h more =
      let im = implied set st j x h more in
      rw
        (
          follow_reason_lem
              (record st {
                decision_id = j;
                seen = without (abs x.literal) st.seen;
                num = st.num - 1;
              })
              x im.rule h.at im.at_rule,
          RetryOk,
        )
        (elim (Bool-cases (is_multi im.rule)) [
          | inl many ↦ rw many (inl (again-Searching set st j x im c h more many))
          | inr single ↦ rw single (inl (resume-Entering set st j x im c h more single))
        ])
