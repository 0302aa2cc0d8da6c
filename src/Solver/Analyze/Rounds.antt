-- ===== src/Solver/Analyze/Rounds.antt =====
-- A round of the inner loop.
use vivace.Common.{
  ℕ, ◌-◌, ◌==◌, ==_iff, ℤ, pos, neg, abs, eqb_ℤ, true, false, ◌≡◌, refl, sym, subst, inl, inr, some,
  if◌then◌else◌, arith, Bool-cases,
}
use vivace.Outcome.{Outcome, ok, err, ◌>>=◌}
use vivace.Decisions.{Decisions}
use vivace.Rule.{RuleSet}
use vivace.Watch.Semantics.{Assignment}
use vivace.Solver.Analyze.{
  Analysis, Retry, finish, again, find_seen, follow_reason, step_back, retry, forget_all, without,
  succ_ℤ, pred_ℤ,
}
use vivace.Solver.Analyze.Counting.{Found, find_seen-Found}
use vivace.Solver.Analyze.States.{Setting, Searching, Settled, RetryOk}
use vivace.Solver.Analyze.Stepping.{stepped}
use vivace.Solver.Analyze.Learning.{learned_good, learned_ones}
use vivace.Solver.Analyze.Following.{Settled-follow, Searching-follow}

module _ {d : Decisions} {s : RuleSet} {lev : ℕ} {a : Assignment} (set : Setting d s lev a) where
  -- What `step_back` does with the decision that it finds.
  abbrev pub after_found : Analysis → ℕ × ℤ → Outcome Retry
  after_found st found =
      let literal = found.1 in
      let b : Analysis = record st {
        decision_id = found.0;
        seen = without (abs literal) st.seen;
      } in
      if st.num == 1
      then (let c : Analysis = record b { num = 0; learned_literal = some (neg literal) } in
          if eqb_ℤ st.l1num (pos 0)
          then ok (finish c)
          else ok (again (record c { seen = forget_all c.others c.seen; l1num = succ_ℤ c.l1num })))
      else follow_reason s d (pos lev) (record b { num = st.num - 1 })

  pub step_back_lem :
      (analyzed : ℕ) (st : Analysis)
      → step_back s d (pos lev) analyzed st
        ≡ (find_seen d st.seen st.rule analyzed st.decision_id >>= after_found st)
  unfolding step_back
  step_back_lem analyzed st = refl

  pub step_back_found :
      (st : Analysis) (o : Outcome (ℕ × ℤ))
      → ((p : ℕ × ℤ) → o ≡ ok p → RetryOk d s lev a (after_found st p))
      → RetryOk d s lev a (o >>= after_found st)
  step_back_found st (err f) h = tt
  step_back_found st (ok p) h = h p refl

  pub after_found-Searching :
      (st : Analysis) (p : ℕ × ℤ)
      → Found d st.seen st.decision_id p
      → Searching d lev a st
      → RetryOk d s lev a (after_found st p)
  after_found-Searching st (j, l) f c =
      let x = f.decision in
      let h = stepped set st (j, l) f c in
      subst (λ k. RetryOk d s lev a (after_found st (j, k))) (sym f.literal)
        (elim (Bool-cases (st.num == 1)) [
          | inr more ↦
              rw (more, RetryOk)
                (Searching-follow set st j x c h (ground (arith, more, c.open_level)))
          | inl one ↦
              let one' : st.num ≡ 1 = (==_iff st.num 1).0 one in
              let good = learned_good set st j x h one' in
              rw (one, RetryOk)
                (elim (Bool-cases (eqb_ℤ st.l1num (pos 0))) [
                  | inl stop ↦ rw (stop, RetryOk) (λ u e. ground (arith, good, e))
                  | inr on ↦
                      rw (on, RetryOk)
                        (inr (record {
                          literal = neg x.literal;
                          is_learned = refl;
                          idle = refl;
                          ones = learned_ones set st j x h one';
                          good = good;
                        }))
                ])
        ])

  pub after_found-Settled :
      (st : Analysis) (p : ℕ × ℤ)
      → Found d st.seen st.decision_id p
      → Settled d a st
      → RetryOk d s lev a (after_found st p)
  after_found-Settled st (j, l) f c =
      let zero_num : (st.num == 1) ≡ false = ground (arith, c.idle) in
      subst (λ k. RetryOk d s lev a (after_found st (j, k))) (sym f.literal)
        (rw (zero_num, RetryOk) (Settled-follow set st j f.decision f.at f.was_seen c))

  pub retry_lem :
      (analyzed : ℕ) (st : Analysis)
      → retry s d (pos lev) analyzed st ≡ (
          if st.num == 0
          then (if eqb_ℤ (pred_ℤ st.l1num) (pos 0)
              then ok (finish (record st { l1num = pos 0 }))
              else step_back s d (pos lev) analyzed (record st { l1num = pred_ℤ st.l1num }))
          else step_back s d (pos lev) analyzed st)
  unfolding retry
  retry_lem analyzed st = refl

  -- A round of `while l1retry`.
  pub retry-Searching :
      (analyzed : ℕ) (st : Analysis)
      → Searching d lev a st
      → RetryOk d s lev a (retry s d (pos lev) analyzed st)
  retry-Searching analyzed st c =
      let nz : (st.num == 0) ≡ false = ground (arith, c.open_level) in
      rw retry_lem (
        rw (nz, RetryOk)
          (rw (step_back_lem, RetryOk)
            (step_back_found st (find_seen d st.seen st.rule analyzed st.decision_id) (λ p e.
              after_found-Searching st p
                (find_seen-Found d st.seen st.rule analyzed st.decision_id e) c))))

  pub retry-Settled :
      (analyzed : ℕ) (st : Analysis)
      → Settled d a st
      → RetryOk d s lev a (retry s d (pos lev) analyzed st)
  retry-Settled analyzed st c =
      let z : (st.num == 0) ≡ true = ground (arith, c.idle) in
      let b : Analysis = record st { l1num = pred_ℤ st.l1num } in
      let cb : Settled d a b = record {
        literal = c.literal;
        is_learned = c.is_learned;
        idle = c.idle;
        ones = c.ones;
        good = c.good;
      } in
      rw retry_lem (
        rw (z, RetryOk)
          (elim (Bool-cases (eqb_ℤ (pred_ℤ st.l1num) (pos 0))) [
            | inl stop ↦ rw (stop, RetryOk) (λ u e. ground (arith, c.good, c.is_learned, e))
            | inr on ↦
                rw (on, RetryOk)
                  (rw (step_back_lem, RetryOk)
                    (step_back_found b (find_seen d b.seen b.rule analyzed b.decision_id) (λ p e.
                      after_found-Settled b p
                        (find_seen-Found d b.seen b.rule analyzed b.decision_id e) cb)))
          ]))
