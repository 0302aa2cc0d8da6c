-- ===== src/Solver/Analyze/Learning.antt =====
-- The literal is learned, or the reason of a decision is taken up.
use vivace.Common.{
  ℕ, ◌-◌, ◌<◌, ==_iff, ℤ, pos, neg, abs, eqb_ℤ, eqb_ℤ_iff, true, false, ◌||◌, ◌≡◌, refl, ◌∙◌, inl,
  inr, List, [], ◌∷◌, take, mem, elem, arith,
}
use vivace.Decisions.{Decision, Decisions, conflict}
use vivace.Rule.{RuleSet, is_multi}
use vivace.Watch.Semantics.{Assignment, lit_true, some_true, lit_true-neg}
use vivace.Solver.Analyze.{Analysis, scan_multi, forget_all, without}
use vivace.Solver.Analyze.Counting.{level_at, tally_pos, tally_zero, mem_of_without}
use vivace.Solver.Analyze.Scanning.{IsCounted, scan_multi-Picked, conflict_facts}
use vivace.Solver.Analyze.Justified.{IsImplied, witness_of, some_true_of}
use vivace.Solver.Analyze.States.{Setting, Searching, Entering, Stepped}
use vivace.Solver.Analyze.Entering.{Grown-open}

module _ {d : Decisions} {s : RuleSet} {lev : ℕ} {a : Assignment} (set : Setting d s lev a) where
  -- A false literal of level 1 is false under the assignment.
  pub not_one : (k : ℤ) → lit_true a k ≡ true → conflict d k ≡ true → level_at d (abs k) ≡ 1 → ⊥
  not_one k tk ck e = cc (tk, set.model.level_one k ck e)

  -- The literal is learned: it, or one of the others, is true.
  pub learned_good :
      (st : Analysis) (j : ℕ) (x : Decision)
      → Stepped d lev a st j x
      → st.num ≡ 1
      → (lit_true a (neg x.literal) || some_true a st.others) ≡ true
  learned_good st j x h one = elim h.witness [
    | inl tx ↦ rw tx
    | inr (k, tk, ck, mk) ↦ elim (h.placed k ck mk) [
      | inl e ↦ absurd (not_one k tk ck e)
      | inr (inl (lk, bk)) ↦ absurd (tally_zero d lev (abs k) _ _ (omega (arith, h.total)) bk mk lk)
      | inr (inr e) ↦ rw (some_true_of a st.others k e tk) (ground arith)
    ]
  ]

  pub forget_all_lem :
      (ls : List ℤ) (seen : List ℕ) (k : ℤ)
      → mem (abs k) (forget_all ls seen) ≡ true
      → (mem (abs k) seen ≡ true) × (elem k ls ≡ false)
  forget_all_lem [] seen k h = (h, refl)
  forget_all_lem (l ∷ ls) seen k h =
      let r = forget_all_lem ls (without (abs l) seen) k h in
      let w = mem_of_without (abs k) (abs l) seen r.0 in
      (w.0, ground (arith, r.1, w.1, eqb_ℤ_iff k l, ==_iff (abs k) (abs l)))

  -- The rounds that go on after the literal is learned see packages of level 1 only.
  pub learned_ones :
      (st : Analysis) (j : ℕ) (x : Decision)
      → Stepped d lev a st j x
      → st.num ≡ 1
      → (k : ℤ) → conflict d k ≡ true
      → mem (abs k) (forget_all st.others (without (abs x.literal) st.seen)) ≡ true
      → level_at d (abs k) ≡ 1
  learned_ones st j x h one k ck m =
      let (mk, out) = forget_all_lem st.others (without (abs x.literal) st.seen) k m in
      elim (h.placed k ck mk) [
        | inl e ↦ e
        | inr (inl (lk, bk)) ↦
            absurd (tally_zero d lev (abs k) _ _ (omega (arith, h.total)) bk mk lk)
        | inr (inr e) ↦ cc (e, out)
      ]

  -- Before the current level's literal is found the decision at hand is not a free choice.
  pub implied :
      (st : Analysis) (j : ℕ) (x : Decision)
      → Stepped d lev a st j x
      → 1 < st.num
      → IsImplied d s j x
  implied st j x h more = elim ((set.just j x h.at).1.reason) [
    | inr im ↦ im
    | inl (up, free) ↦
        let (v, m, e) =
          tally_pos d lev (without (abs x.literal) st.seen) (take j d.queue)
            (omega (arith, h.total)) in
        absurd (omega (arith, free v m, h.current))
  ]

  -- The state that goes on to the reason.
  abbrev pub behind : Analysis → ℕ → Decision → ℕ → Analysis
  behind st j x num = record st {
    decision_id = j;
    seen = without (abs x.literal) st.seen;
    num = num;
    rule = x.reason;
  }

  pub behind-IsCounted :
      (st : Analysis) (j : ℕ) (x : Decision)
      → Stepped d lev a st j x
      → IsCounted d lev (behind st j x (st.num - 1))
  behind-IsCounted st j x h = record { total = omega (arith, h.total); placed = h.placed }

  -- A refuted decision makes a literal of its reason true.
  pub reason_true :
      (x : Decision) (j : ℕ) (im : IsImplied d s j x)
      → is_multi im.rule ≡ false
      → lit_true a (neg x.literal) ≡ true
      → (k : ℤ) × (lit_true a k ≡ true) × (conflict d k ≡ true) × (elem k im.rule.literals ≡ true)
  reason_true x j im single r =
      let (k, e, tk) =
        witness_of a im.rule.literals
          ((set.model.all x.reason im.rule im.at_rule).clause single im.enabled) in
      (
        k,
        tk,
        im.clause single k e
            (ground (arith, r, tk, eqb_ℤ_iff k x.literal, lit_true-neg a x.literal)),
        e,
      )

  pub resume-Entering :
      (st : Analysis) (j : ℕ) (x : Decision) (im : IsImplied d s j x)
      → Searching d lev a st
      → Stepped d lev a st j x
      → 1 < st.num
      → is_multi im.rule ≡ false
      → Entering d s lev a (behind st j x (st.num - 1))
  resume-Entering st j x im c h more single = record {
    none_yet = c.none_yet;
    counted = behind-IsCounted st j x h;
    rule = im.rule;
    at_rule = im.at_rule;
    nonzero = im.nonzero;
    before = im.before;
    open_level = inl (omega arith);
    witness = elim h.witness [
      | inl r ↦ let (k, tk, ck, e) = reason_true x j im single r in (k, tk, ck, inr e)
      | inr (k, tk, ck, m) ↦ (k, tk, ck, inl m)
    ];
  }

  pub again-Searching :
      (st : Analysis) (j : ℕ) (x : Decision) (im : IsImplied d s j x)
      → Searching d lev a st
      → Stepped d lev a st j x
      → 1 < st.num
      → is_multi im.rule ≡ true
      → Searching d lev a
          (scan_multi d (pos lev) x.reason im.rule.literals (behind st j x (st.num - 1)))
  again-Searching st j x im c h more many =
      let b = behind st j x (st.num - 1) in
      let cb = behind-IsCounted st j x h in
      let pk =
        scan_multi-Picked d lev set.high set.trail x.reason im.rule.literals b im.nonzero im.before
          cb in
      record {
        none_yet = pk.grown.same_learned ∙ c.none_yet;
        counted = pk.is_counted;
        open_level = Grown-open set b _ cb pk.is_counted pk.grown (omega arith);
        witness = elim h.witness [
          | inr (k, tk, ck, m) ↦ (k, tk, ck, pk.grown.more_seen (abs k) m)
          | inl r ↦
              let (f0, e0, c0) = im.other many in
              let (f, ef, cf, mf) = pk.picks f0 e0 c0 in
              let no_x = lit_true-neg a x.literal r in
              let ne : eqb_ℤ x.literal f ≡ false =
                ground (arith, eqb_ℤ_iff x.literal f, h.satisfied, (conflict_facts d f cf).0) in
              (
                f,
                ground (
                  arith,
                  no_x,
                  (set.model.all x.reason im.rule im.at_rule).multi many x.literal f (im.own many)
                      ef ne,
                ),
                cf,
                mf,
              )
        ];
      }
