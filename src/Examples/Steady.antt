-- ===== src/Examples/Steady.antt =====
-- Propagation and conflict analysis in sequence, from the state in which package 1 is decided.
use vivace.Common.{
  zero, suc, abs, ◌≤◌, pos, true, ◌≡◌, refl, subst, inl, [], ◌∷◌, sort_unstable, arith,
}
use vivace.Outcome.{ok, ◌>>=◌}
use vivace.Decisions.{decide, satisfy, conflict, decision_level}
use vivace.Decisions.Trail.{Extends-IsTrail}
use vivace.Rule.{is_assertion, new_generic}
use vivace.Watch.{new_graph, insert, new_node, propagate_literal}
use vivace.Watch.Semantics.{some_true}
use vivace.Watch.Propagate.{Returns}
use vivace.Watch.Derives.{IsPlain, AllPlain}
use vivace.Solver.{Solver, propagate}
use vivace.Solver.Firm.{AllFirm, IsFirm}
use vivace.Solver.Firm.Conflict.{
  IsSteady, IsSettledState, IsPending, propagate-IsSteady, propagate-analyze_sound,
}
use vivace.Solver.Analyze.{Learned, analyze}
use vivace.Solver.Analyze.Counting.{level_at}
use vivace.Examples.{
  value, r0, r1, r2, r3, four_rules, one_decided, one_reached, decision, only_4, model,
}
use vivace.Examples.Claims.{solver, not_1, three_rules-IsWatched}

four_rules-IsPlain : AllPlain four_rules
four_rules-IsPlain zero r h =
    subst IsPlain (let e : r0 ≡ r = ground (arith, h) in e)
      (record { enabled = λ m. cc; negatives = λ m. cc })
four_rules-IsPlain (suc zero) r h =
    subst IsPlain (let e : r1 ≡ r = ground (arith, h) in e)
      (record { enabled = λ m. cc; negatives = λ m. cc })
four_rules-IsPlain (suc (suc zero)) r h =
    subst IsPlain (let e : r2 ≡ r = ground (arith, h) in e)
      (record { enabled = λ m. cc; negatives = λ m. cc })
four_rules-IsPlain (suc (suc (suc zero))) r h =
    subst IsPlain (let e : r3 ≡ r = ground (arith, h) in e)
      (record { enabled = λ m. cc; negatives = λ m. cc })
four_rules-IsPlain (suc (suc (suc (suc i)))) r h = cc

one_decided-IsFirm : AllFirm one_decided four_rules 2
one_decided-IsFirm zero x h =
    subst (λ x. (level_at one_decided (abs x.literal) ≤ 2) × IsFirm one_decided four_rules 0 x)
      (let e : decision (pos 1) 3 ≡ x = ground (arith, h) in e)
      (omega arith, record { sorted = λ v b. cc; reason = inl (omega arith, λ v b. cc) })
one_decided-IsFirm (suc i) x h = cc

one-IsPending : IsPending one_decided 0 2
one-IsPending zero x le h =
    subst (λ x. level_at one_decided (abs x.literal) ≡ 2)
      (let e : decision (pos 1) 3 ≡ x = ground (arith, h) in e) refl
one-IsPending (suc i) x le h = cc

solver-IsSteady : IsSteady 5 solver 2
solver-IsSteady = record {
  ready = record {
    places = refl;
    trail = Extends-IsTrail 4 one_reached;
    watched = three_rules-IsWatched;
  };
  plain = four_rules-IsPlain;
  firm = one_decided-IsFirm;
  pending = one-IsPending;
}

propagate-IsSteady_example : Returns (IsSettledState 5 2) (propagate solver (pos 2))
propagate-IsSteady_example = propagate-IsSteady 5 solver 2 (omega arith) solver-IsSteady

-- The state with the conflict.
abbrev clashed : Solver
clashed = value solver (propagate solver (pos 2) >>= λ p. ok p.0)

abbrev learned : Learned
learned = record not_1 { pool = 2 ∷ 0 ∷ 1 ∷ [] }

propagate-analyze_sound_example : some_true only_4 learned.rule.literals ≡ true
unfolding propagate insert new_node propagate_literal is_assertion new_graph satisfy conflict decide
    analyze decision_level new_generic sort_unstable
propagate-analyze_sound_example =
    propagate-analyze_sound 5 solver 2 clashed 2 0 learned only_4 (omega arith) solver-IsSteady refl
      refl (record { all = model.all; level_one = λ k c e. model.level_one k c e })
