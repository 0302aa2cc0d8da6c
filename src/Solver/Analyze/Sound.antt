-- ===== src/Solver/Analyze/Sound.antt =====
-- The learned rule follows from the rules: `analyze` resolves only decisions that their reasons
-- imply.
use vivace.Common.{
  ℕ, suc, ◌<◌, ℤ, pos, true, ◌≡◌, refl, sym, ◌∙◌, inl, inr, none, some, List, ◌∷◌, length,
  get_elem?, elem-sort_unstable, sort_unstable, arith, Option-cases,
}
use vivace.Outcome.{Outcome, ok, err, ◌>>=◌, >>=-eq-ok, no_learnable_literal}
use vivace.Decisions.{Decisions}
use vivace.Decisions.Trail.{IsTrail}
use vivace.Rule.{Rule, RuleSet, new_generic, Reason}
use vivace.Watch.Semantics.{Assignment, some_true}
use vivace.Solver.Analyze.{Analysis, Learned, analyze_loop, start, analyze}
use vivace.Solver.Analyze.Justified.{AllJustified, IsFalsified, IsModel, witness_of, some_true_of}
use vivace.Solver.Analyze.States.{Setting}
use vivace.Solver.Analyze.Loop.{analyze_loop-Good, start-Entering}

some_true-sort :
    (a : Assignment) (ls : List ℤ) → some_true a ls ≡ true → some_true a (sort_unstable ls) ≡ true
some_true-sort a ls h =
    let (k, e, tk) = witness_of a ls h in
    some_true_of a (sort_unstable ls) k (elem-sort_unstable k ls ∙ e) tk

-- The rule that is made of the loops' end.
learned_of : Analysis → ℕ → ℕ → Outcome Learned
learned_of st why rule = elim st.learned_literal [
  | none ↦ err (no_learnable_literal rule)
  | some literal ↦ ok (record {
    literal = literal;
    level = st.rule_level;
    rule = new_generic (literal ∷ st.others) (Reason.learned why);
    pool = st.pool;
  })
]

analyze_lem :
    (s : RuleSet) (d : Decisions) (why : ℕ) (level : ℤ) (rule : ℕ)
    → analyze s d why level rule ≡ (
        analyze_loop (suc (length d.queue)) s d level rule true (start d rule) >>= λ st.
        learned_of st why rule)
unfolding analyze learned_of
analyze_lem s d why level rule = refl

learned_of-literals :
    (st : Analysis) (why rule : ℕ) {l : Learned}
    → learned_of st why rule ≡ ok l
    → (u : ℤ) × (st.learned_literal ≡ some u) × (l.rule.literals ≡ sort_unstable (u ∷ st.others))
unfolding learned_of new_generic
learned_of-literals st why rule h = elim (Option-cases st.learned_literal) [
  | inl q ↦ ground (arith, q, h)
  | inr (u, q) ↦ (u, q, ground (arith, q, h))
]

-- What `analyze` learns above level 1 follows from the rules: from a rule that the decisions falsify, on a queue
-- whose decisions are free choices or implied by their reasons, every assignment that makes the
-- rules and the decisions of level 1 hold makes the learned rule true.
pub analyze_sound :
    (d : Decisions) (s : RuleSet) (lev : ℕ) (a : Assignment) (why rule : ℕ) (r : Rule) (l : Learned)
    → 1 < lev
    → IsTrail d
    → AllJustified d s lev
    → IsModel a d s
    → get_elem? s.rules rule ≡ some r
    → IsFalsified d lev r
    → analyze s d why (pos lev) rule ≡ ok l
    → some_true a l.rule.literals ≡ true
analyze_sound d s lev a why rule r l high t just model at f h =
    let set : Setting d s lev a = record { high = high; trail = t; just = just; model = model } in
    let (st, e, q) =
      >>=-eq-ok (analyze_loop (suc (length d.queue)) s d (pos lev) rule true (start d rule)) _
        (sym (analyze_lem s d why (pos lev) rule) ∙ h) in
    let (u, eu, el) = learned_of-literals st why rule q in
    let good =
      analyze_loop-Good set (suc (length d.queue)) rule true (start d rule)
        (inl (start-Entering set rule r at f)) st e u eu in
    rw el (some_true-sort a (u ∷ st.others) good)
