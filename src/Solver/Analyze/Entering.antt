-- ===== src/Solver/Analyze/Entering.antt =====
-- The scan at the head of the outer loop.
use vivace.Common.{ℕ, ◌<◌, pos, abs, ◌≡◌, ◌∙◌, ap, inl, inr, [], ◌∷◌, ◌++◌, take, arith}
use vivace.Outcome.{ok}
use vivace.Decisions.{Decisions}
use vivace.Rule.{RuleSet, is_multi}
use vivace.Watch.Semantics.{Assignment}
use vivace.Solver.Analyze.{Analysis, scan, enter}
use vivace.Solver.Analyze.Counting.{tally, tally_witness, tally_mono}
use vivace.Solver.Analyze.Scanning.{IsCounted, Grown, scan-Scanned}
use vivace.Solver.Analyze.States.{Setting, Searching, Entering}

module _ {d : Decisions} {s : RuleSet} {lev : ℕ} {a : Assignment} (set : Setting d s lev a) where
  -- A count that grew from a positive one, or has a witness, is positive.
  pub Grown-open :
      (st st' : Analysis)
      → IsCounted d lev st
      → IsCounted d lev st'
      → Grown st st'
      → 0 < st.num
      → 0 < st'.num
  Grown-open st st' c c' g h = omega (
    arith,
    c.total,
    c'.total,
    tally_mono d lev st.seen st'.seen (take st.decision_id d.queue) g.more_seen,
    ap (λ i. tally d lev st'.seen (take i d.queue)) g.same_id,
  )

  pub Entering-Searching :
      (st : Analysis)
      → Entering d s lev a st
      → (st' : Analysis) → enter s d (pos lev) st ≡ ok st'
      → Searching d lev a st'
  unfolding enter
  Entering-Searching st e st' h =
      let p : Analysis = record st { pool = st.pool ++ st.rule ∷ [] } in
      let cp : IsCounted d lev p = record { total = e.counted.total; placed = e.counted.placed } in
      let sc =
        scan-Scanned d lev set.high set.trail (is_multi e.rule) e.rule.literals p e.nonzero e.before
          cp in
      let q : st' ≡ scan d (pos lev) (is_multi e.rule) e.rule.literals p =
        ground (arith, e.at_rule) in
      rw q (record {
        none_yet = sc.grown.same_learned ∙ e.none_yet;
        counted = sc.is_counted;
        open_level = elim e.open_level [
          | inl po ↦
              Grown-open p (scan d (pos lev) (is_multi e.rule) e.rule.literals p) cp sc.is_counted
                sc.grown po
          | inr (k, among, ck, lk) ↦ rw sc.is_counted.total (
              tally_witness d lev (abs k) _ _ (rw sc.grown.same_id (e.before k among ck))
                (sc.covers k among ck) lk)
        ];
        witness =
            let w = e.witness in
            (
              w.0,
              w.1,
              w.2,
              elim w.3 [
                | inl seen ↦ sc.grown.more_seen (abs w.0) seen
                | inr among ↦ sc.covers w.0 among w.2
              ],
            );
      })
