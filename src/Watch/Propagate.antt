-- ===== src/Watch/Propagate.antt =====
-- `propagate_literal` as a whole: it returns, and what it decides or reports follows from the rules.
use vivace.Common.{
  subst, ℕ, zero, suc, ◌+◌, ◌<◌, ◌≤◌, ℤ, neg, positive, eqb_ℤ, eqb_ℤ_iff, eqb_ℤ_refl, true, false,
  ◌≡◌, inl, inr, refl, ◌∙◌, none, some, length, get_elem?, elem, length-remove_at, lt_of_get_elem?,
  mem_of_get_elem?, arith, Option-cases,
}
use vivace.Outcome.{Outcome, ok, err, ◌>>=◌}
use vivace.Decisions.{Decisions, conflict}
use vivace.Decisions.Laws.{Extends, here, Extends-trans, length-Extends}
use vivace.Rule.{Rule, RuleSet, is_multi}
use vivace.Watch.{
  RuleWatchNode, RuleWatchGraph, chain, Round, moves, passes, conflicts, round, Propagated,
  propagate_loop, propagate_literal, move_watch,
}
use vivace.Watch.Semantics.{Assignment, lit_true, Holds, AllHold, Agrees}
use vivace.Watch.Invariant.{IsEntry, IsWatched, moved, move_watch_lem, moved-IsWatched}
use vivace.Watch.Rounds.{Respects, IsActive, IsRound, round-IsRound}
use vivace.Watch.Derives.{
  Derives, none_more, Derives-trans, AllPlain, Clashes, Derives-Clashes, conflict-Extends,
}

-- What propagation of `literal`'s refutation may return.
pub record IsPropagated (n : ℕ) (s : RuleSet) (d : Decisions) (literal level : ℤ) (p : Propagated)
    : Type 0 where
  pub extends : Extends d p.decisions
  pub watched : IsWatched n s p.graph
  pub conflicting_in :
      (i : ℕ)
      → p.conflicting ≡ some i
      → (r : Rule) × (get_elem? s.rules i ≡ some r) × (elem literal r.literals ≡ true)
  pub follows :
      (a : Assignment)
      → AllHold a s
      → Agrees a d
      → lit_true a literal ≡ false
      → (p.conflicting ≡ none) × Agrees a p.decisions
  -- from a refuted literal, the rules that decide were unit, and one that conflicts is refuted
  pub derives :
      conflict d literal ≡ true → AllPlain s → p.conflicting ≡ none → Derives s level d p.decisions
  pub refuted :
      conflict d literal ≡ true
      → AllPlain s
      → (i : ℕ) → p.conflicting ≡ some i
      → Clashes s level d i p.decisions

-- The call succeeds, with a result of which `P` holds.
abbrev pub Returns : {A : Type 0} → (A → Type 0) → Outcome A → Type 0
Returns P (ok a) = P a
Returns P (err f) = ⊥

-- A move shortens the chain that the loop walks.
length-moved :
    (g : RuleWatchGraph) (from to : ℤ) (node_id cursor : ℕ) (node : RuleWatchNode)
    → eqb_ℤ to from ≡ false
    → cursor < length (chain g from)
    → suc (length (chain (moved g from to node_id cursor node) from)) ≡ length (chain g from)
length-moved g from to node_id cursor node ne lt = ground (
  arith,
  eqb_ℤ_refl from,
  eqb_ℤ_iff from to,
  eqb_ℤ_iff to from,
  length-remove_at (chain g from) cursor,
)

-- Where nothing is propagated, nothing changes.
unchanged :
    (n : ℕ) (s : RuleSet) (literal level : ℤ) (g : RuleWatchGraph) (d : Decisions)
    → IsWatched n s g
    → IsPropagated n s d literal level (record { graph = g; decisions = d; conflicting = none })
unchanged n s literal level g d w = record {
  extends = here;
  watched = w;
  conflicting_in = λ i eq. cc;
  follows = λ a all agrees no_. (refl, agrees);
  derives = λ c m _. none_more;
  refuted = λ c m i eq. cc;
}

module _ (n : ℕ) (s : RuleSet) (literal level : ℤ) (leveled : positive level ≡ true) where
  -- The rest of the loop after a round that passed.
  later :
      (d d' : Decisions) (e : Rule) (o : Outcome Propagated)
      → Extends d d'
      → ((a : Assignment) → Respects a d literal e → Agrees a d')
      → (IsActive d literal e → Derives s level d d')
      → ((a : Assignment) → AllHold a s → Holds a e)
      → (AllPlain s → is_multi e ≡ true → e.disabled ≡ false)
      → Returns (IsPropagated n s d' literal level) o
      → Returns (IsPropagated n s d literal level) o
  later d d' e (err f) q g v held on h = h
  later d d' e (ok p) q g v held on h = record {
    extends = Extends-trans q h.extends;
    watched = h.watched;
    conflicting_in = h.conflicting_in;
    follows = λ a all agrees no_.
        h.follows a all (g a (record { agrees = agrees; refuted = no_; holds = held a all })) no_;
    derives = λ c m e. Derives-trans (v (c, on m)) (h.derives (conflict-Extends literal q c) m e);
    refuted =
        λ c m i eq. Derives-Clashes (v (c, on m)) (h.refuted (conflict-Extends literal q c) m i eq);
  }

  -- What the loop does with the round's result.
  after : ℕ → ℕ → RuleWatchGraph → Decisions → ℕ → RuleWatchNode → Round → Outcome Propagated
  after fuel cursor g d id node (moves to) =
      move_watch g literal to id cursor >>= λ g'. propagate_loop fuel s literal level cursor g' d
  after fuel cursor g d id node (passes d') = propagate_loop fuel s literal level (suc cursor) g d'
  after fuel cursor g d id node (conflicts d') =
      ok (record { graph = g; decisions = d'; conflicting = some node.rule })

  after-Returns :
      (fuel cursor : ℕ) (g : RuleWatchGraph) (d : Decisions) (id : ℕ)
      (e : IsEntry n s g.nodes literal id) (o : Outcome Round)
      → IsWatched n s g
      → IsRound s d literal level e.node.rule e.rule o
      → ((to : ℤ)
          → eqb_ℤ to literal ≡ false
          → IsWatched n s (moved g literal to id cursor e.node)
          → Returns
              (IsPropagated n s d literal level)
              (propagate_loop fuel s literal level cursor (moved g literal to id cursor e.node) d))
      → ((d' : Decisions)
          → Extends d d'
          → Returns
              (IsPropagated n s d' literal level)
              (propagate_loop fuel s literal level (suc cursor) g d'))
      → Returns (IsPropagated n s d literal level) (o >>= after fuel cursor g d id e.node)
  unfolding after
  after-Returns fuel cursor g d id e (err f) w h on_move on_pass = h
  after-Returns fuel cursor g d id e (ok (moves to)) w h on_move on_pass =
      rw (move_watch_lem g literal to id cursor e.node e.at_node, Returns, after)
        (on_move to h.1 (moved-IsWatched g literal to id cursor w e h.0))
  after-Returns fuel cursor g d id e (ok (passes d')) w h on_move on_pass =
      later d d' e.rule (propagate_loop fuel s literal level (suc cursor) g d') h.0 h.1 h.2
        (λ a all. all e.node.rule e.rule e.at_rule) (λ m. (m e.node.rule e.rule e.at_rule).enabled)
        (on_pass d' h.0)
  after-Returns fuel cursor g d id e (ok (conflicts d')) w h on_move on_pass = record {
    extends = h.0;
    watched = w;
    conflicting_in = λ i eq. (e.rule, ground (arith, e.at_rule), e.own);
    follows = λ a all agrees no_. absurd (
        h.1 a
          (record { agrees = agrees; refuted = no_; holds = all e.node.rule e.rule e.at_rule }));
    derives = λ c m e. cc;
    refuted = λ c m i eq.
        let x = h.2 (c, (m e.node.rule e.rule e.at_rule).enabled) in
        let same : node_rule ≡ i = cc eq in subst (λ i. Clashes s level d i d') same x;
  }
    where
      node_rule : ℕ
      node_rule = e.node.rule

  propagate_loop-step :
      (fuel cursor : ℕ) (g : RuleWatchGraph) (d : Decisions) (id : ℕ)
      (e : IsEntry n s g.nodes literal id)
      → get_elem? (chain g literal) cursor ≡ some id
      → propagate_loop (suc fuel) s literal level cursor g d
        ≡ (round d literal level e.node.rule e.rule e.node >>= after fuel cursor g d id e.node)
  unfolding propagate_loop after
  propagate_loop-step fuel cursor g d id e q = ground (arith, q, e.at_node, e.at_rule)

  pub propagate_loop-Returns :
      (fuel cursor : ℕ) (g : RuleWatchGraph) (d : Decisions)
      → cursor ≤ length (chain g literal)
      → length (chain g literal) < fuel + cursor
      → length d.levels ≡ n
      → IsWatched n s g
      → Returns (IsPropagated n s d literal level) (propagate_loop fuel s literal level cursor g d)
  unfolding propagate_loop
  propagate_loop-Returns zero cursor g d le lt size w = absurd (omega arith)
  propagate_loop-Returns (suc fuel) cursor g d le lt size w =
      elim (Option-cases (get_elem? (chain g literal) cursor)) [
        | inl q ↦ rw (q, Returns, propagate_loop) (unchanged n s literal level g d w)
        | inr (id, q) ↦
            let e = w literal id (mem_of_get_elem? (chain g literal) cursor q) in
            let inside = lt_of_get_elem? (chain g literal) cursor q in
            rw (propagate_loop-step fuel cursor g d id e q, Returns)
              (after-Returns fuel cursor g d id e (round d literal level e.node.rule e.rule e.node)
                w (round-IsRound literal level leveled e d size)
                (λ to ne w'.
                  let shorter = length-moved g literal to id cursor e.node ne inside in
                  propagate_loop-Returns fuel cursor (moved g literal to id cursor e.node) d
                    (omega arith) (omega arith) size w')
                (λ d' q'.
                  propagate_loop-Returns fuel (suc cursor) g d' (omega arith) (omega arith)
                    ((length-Extends q').1 ∙ size) w))
      ]

-- `propagate_literal`, at a positive level, succeeds on a graph and a map whose indices are in order:
-- its fuel is enough and it meets no fault. It only adds decisions and keeps the graph in order. Under every
-- assignment that makes all rules hold, the satisfied literals and the decided literal true, it
-- reports no conflict and decides true literals only.
pub propagate_literal-Returns :
    (n : ℕ) (s : RuleSet) (decided_literal level : ℤ) (g : RuleWatchGraph) (d : Decisions)
    → positive level ≡ true
    → length d.levels ≡ n
    → IsWatched n s g
    → Returns
        (IsPropagated n s d (neg decided_literal) level)
        (propagate_literal s decided_literal level g d)
unfolding propagate_literal
propagate_literal-Returns n s decided_literal level g d leveled size w =
    elim (Option-cases (g.chains (neg decided_literal))) [
      | inl q ↦ rw (q, Returns) (unchanged n s (neg decided_literal) level g d w)
      | inr (c, q) ↦
          let e : chain g (neg decided_literal) ≡ c = rw q in
          rw (q, Returns)
            (propagate_loop-Returns n s (neg decided_literal) level leveled (suc (length c)) 0 g d
              (omega arith) (rw e (omega arith)) size w)
    ]
