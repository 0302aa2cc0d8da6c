-- ===== src/Solver/Propagation.antt =====
-- `propagate` over the whole queue: it returns, and what it decides or reports follows from the rules.
use vivace.Common.{
  ℕ, zero, suc, ◌+◌, ◌<◌, ◌≤◌, ltb, ltb→lt, lt→ltb, ℤ, neg, neg-neg, positive, true, false, ◌≡◌,
  refl, ◌∙◌, inl, inr, Option, none, some, length, get_elem?, get_elem?-append, elem,
  get_elem?_of_lt, arith, Bool-cases, Option-cases,
}
use vivace.Outcome.{Outcome, ok, err, ◌>>=◌}
use vivace.Decisions.{Decision, Decisions, conflict, at_offset}
use vivace.Decisions.Laws.{
  next, decide-inv, conflict-neg, Extends, here, Extends-trans, length-Extends,
}
use vivace.Decisions.Trail.{IsTrail, Extends-keeps-IsTrail, length-IsTrail, satisfy-get_elem?}
use vivace.Rule.{Rule}
use vivace.Watch.{Propagated, propagate_literal}
use vivace.Watch.Derives.{Derives, none_more, Derives-trans, AllPlain, Clashes, Derives-Clashes}
use vivace.Watch.Semantics.{Assignment, lit_true, AllHold, Agrees, lit_true-neg}
use vivace.Watch.Invariant.{IsWatched}
use vivace.Watch.Propagate.{IsPropagated, Returns, propagate_literal-Returns}
use vivace.Solver.{Solver, propagate_rounds, propagate}

-- The parts of the state that `propagate` leaves alone.
pub record SameRest (s t : Solver) : Type 0 where
  pub rules : t.rules ≡ s.rules
  pub fixed_map : t.fixed_map ≡ s.fixed_map
  pub branches : t.branches ≡ s.branches
  pub problems : t.problems ≡ s.problems
  pub learned_pool : t.learned_pool ≡ s.learned_pool
  pub learned_why : t.learned_why ≡ s.learned_why

-- The state's indices are in order, for a pool with `n` places.
pub record IsReady (n : ℕ) (s : Solver) : Type 0 where
  pub places : length s.decisions.levels ≡ n
  pub trail : IsTrail s.decisions
  pub watched : IsWatched n s.rules s.watch_graph

-- A decision of the queue from this place on contradicts a literal of the rule.
pub record IsMet (d : Decisions) (from : ℕ) (r : Rule) : Type 0 where
  pub at : ℕ
  pub decision : Decision
  pub behind : from ≤ at
  pub at_decision : get_elem? d.queue at ≡ some decision
  pub member : elem (neg decision.literal) r.literals ≡ true

-- What `propagate` returns.
pub record IsQuiet (n : ℕ) (s : Solver) (level : ℤ) (p : Solver × Option ℕ) : Type 0 where
  pub rest : SameRest s p.0
  pub ready : IsReady n p.0
  pub extends : Extends s.decisions p.0.decisions
  -- without a conflict every decision of the queue has been gone over
  pub finished : p.1 ≡ none → length p.0.decisions.queue ≤ p.0.propagate_index
  pub conflicting_in :
      (i : ℕ)
      → p.1 ≡ some i
      → (r : Rule) × (get_elem? s.rules.rules i ≡ some r) × IsMet p.0.decisions s.propagate_index r
  pub follows :
      (a : Assignment)
      → AllHold a s.rules
      → Agrees a s.decisions
      → (p.1 ≡ none) × Agrees a p.0.decisions
  -- the rules that decide force it, and one that conflicts is refuted
  pub derives : AllPlain s.rules → p.1 ≡ none → Derives s.rules level s.decisions p.0.decisions
  pub refuted :
      AllPlain s.rules → (i : ℕ) → p.1 ≡ some i → Clashes s.rules level s.decisions i p.0.decisions

pub get_elem?-Extends :
    {d e : Decisions} (i : ℕ) {x : Decision}
    → Extends d e
    → get_elem? d.queue i ≡ some x
    → get_elem? e.queue i ≡ some x
get_elem?-Extends i here q = q
get_elem?-Extends i (next {e = e} p l level r h n eq) q =
    let (inside, fresh, f) = decide-inv e l level r eq in
    rw f (get_elem?-append e.queue _ i (get_elem?-Extends i p q))

abbrev stepped : Solver → Propagated → Solver
stepped s p = record s {
  watch_graph = p.graph;
  decisions = p.decisions;
  propagate_index = s.propagate_index + 1;
}

abbrev continue : ℕ → ℤ → Solver → Propagated → Outcome (Solver × Option ℕ)
continue fuel level s p = elim p.conflicting [
  | some rule ↦ ok (stepped s p, some rule)
  | none ↦ propagate_rounds fuel (stepped s p) level
]

module _ (n : ℕ) (level : ℤ) (leveled : positive level ≡ true) where
  stepped-IsReady :
      (s : Solver) (p : Propagated) (literal : ℤ)
      → IsReady n s
      → IsPropagated n s.rules s.decisions literal level p
      → IsReady n (stepped s p)
  stepped-IsReady s p literal r h = record {
    places = (length-Extends h.extends).1 ∙ r.places;
    trail = Extends-keeps-IsTrail r.trail h.extends;
    watched = h.watched;
  }

  -- The decided literal is true under an assignment that agrees.
  refuted :
      (s : Solver) (x : Decision) (a : Assignment)
      → IsReady n s
      → get_elem? s.decisions.queue s.propagate_index ≡ some x
      → Agrees a s.decisions
      → lit_true a (neg x.literal) ≡ false
  refuted s x a r q agrees = ground (
    arith,
    lit_true-neg a (neg x.literal),
    neg-neg x.literal,
    agrees x.literal (satisfy-get_elem? s.decisions s.propagate_index r.trail q),
  )

  -- Its negation conflicts.
  conflicted :
      (s : Solver) (x : Decision)
      → IsReady n s
      → get_elem? s.decisions.queue s.propagate_index ≡ some x
      → conflict s.decisions (neg x.literal) ≡ true
  conflicted s x r q =
      let found = satisfy-get_elem? s.decisions s.propagate_index r.trail q in
      ground (arith, conflict-neg s.decisions (neg x.literal), neg-neg x.literal, found)

  continue-Returns :
      (fuel : ℕ) (s : Solver) (x : Decision) (o : Outcome Propagated)
      → IsReady n s
      → get_elem? s.decisions.queue s.propagate_index ≡ some x
      → Returns (IsPropagated n s.rules s.decisions (neg x.literal) level) o
      → ((p : Propagated)
          → IsReady n (stepped s p)
          → Returns (IsQuiet n (stepped s p) level) (propagate_rounds fuel (stepped s p) level))
      → Returns (IsQuiet n s level) (o >>= continue fuel level s)
  continue-Returns fuel s x (err f) r q h rec = h
  continue-Returns fuel s x (ok p) r q h rec = elim (Option-cases p.conflicting) [
    | inr (rule, c) ↦
        rw (c, Returns)
          (record {
            rest = record {
              rules = refl;
              fixed_map = refl;
              branches = refl;
              problems = refl;
              learned_pool = refl;
              learned_why = refl;
            };
            ready = stepped-IsReady s p (neg x.literal) r h;
            extends = h.extends;
            finished = λ e. cc;
            conflicting_in = λ i e.
                let (r', at, member) = h.conflicting_in i (c ∙ e) in
                (
                  r',
                  at,
                  record {
                    at = s.propagate_index;
                    decision = x;
                    behind = omega arith;
                    at_decision = get_elem?-Extends s.propagate_index h.extends q;
                    member = member;
                  },
                );
            follows = λ a all agrees. cc ((h.follows a all agrees (refuted s x a r q agrees)).0, c);
            derives = λ m e. cc;
            refuted = λ m i e. h.refuted (conflicted s x r q) m i (c ∙ e);
          })
    | inl c ↦
        rw (c, Returns)
          (compose c (propagate_rounds fuel (stepped s p) level)
            (rec p (stepped-IsReady s p (neg x.literal) r h)))
  ]
    where
      compose :
          p.conflicting ≡ none
          → (o : Outcome (Solver × Option ℕ)) → Returns (IsQuiet n (stepped s p) level) o
          → Returns (IsQuiet n s level) o
      compose c (err f) k = k
      compose c (ok t) k = record {
        rest = record {
          rules = k.rest.rules;
          fixed_map = k.rest.fixed_map;
          branches = k.rest.branches;
          problems = k.rest.problems;
          learned_pool = k.rest.learned_pool;
          learned_why = k.rest.learned_why;
        };
        ready = k.ready;
        extends = Extends-trans h.extends k.extends;
        finished = k.finished;
        conflicting_in = λ i e.
            let (r', at, met) = k.conflicting_in i e in
            (
              r',
              at,
              record {
                at = met.at;
                decision = met.decision;
                behind = omega (arith, met.behind);
                at_decision = met.at_decision;
                member = met.member;
              },
            );
        follows =
            λ a all agrees. k.follows a all (h.follows a all agrees (refuted s x a r q agrees)).1;
        derives = λ m e. Derives-trans (h.derives (conflicted s x r q) m c) (k.derives m e);
        refuted = λ m i e. Derives-Clashes (h.derives (conflicted s x r q) m c) (k.refuted m i e);
      }

  -- One round, on a decision of the queue.
  propagate_rounds-step :
      (fuel : ℕ) (s : Solver) (x : Decision)
      → get_elem? s.decisions.queue s.propagate_index ≡ some x
      → s.propagate_index < length s.decisions.queue
      → propagate_rounds (suc fuel) s level ≡ (
          propagate_literal s.rules x.literal level s.watch_graph s.decisions
          >>= continue fuel level s)
  unfolding propagate_rounds
  propagate_rounds-step fuel s x q lt = rw (lt→ltb _ _ lt, propagate_rounds) (rw (q, at_offset))

  propagate_rounds-Returns :
      (fuel : ℕ) (s : Solver)
      → IsReady n s
      → n < fuel + s.propagate_index
      → 0 < fuel
      → Returns (IsQuiet n s level) (propagate_rounds fuel s level)
  unfolding propagate_rounds
  propagate_rounds-Returns zero s r lt po = absurd (omega arith)
  propagate_rounds-Returns (suc fuel) s r lt po =
      let bound = length-IsTrail s.decisions r.trail in
      let places = r.places in
      elim (Bool-cases (ltb s.propagate_index (length s.decisions.queue))) [
        | inr past ↦
            rw (past, Returns, propagate_rounds)
              (record {
                rest = record {
                  rules = refl;
                  fixed_map = refl;
                  branches = refl;
                  problems = refl;
                  learned_pool = refl;
                  learned_why = refl;
                };
                ready = r;
                extends = here;
                finished = λ e. ground (arith, past);
                conflicting_in = λ i e. cc;
                follows = λ a all agrees. (refl, agrees);
                derives = λ m _. none_more;
                refuted = λ m i e. cc;
              })
        | inl more ↦
            let inside = ltb→lt _ _ more in
            let (x, q) = get_elem?_of_lt s.decisions.queue s.propagate_index inside in
            rw (propagate_rounds-step fuel s x q inside, Returns)
              (continue-Returns fuel s x
                (propagate_literal s.rules x.literal level s.watch_graph s.decisions) r q
                (propagate_literal-Returns n s.rules x.literal level s.watch_graph s.decisions
                  leveled r.places r.watched)
                (λ p ready.
                  propagate_rounds-Returns fuel (stepped s p) ready (omega arith) (omega arith)))
      ]

-- `propagate`, at a positive level, returns from every state whose indices are in order: the fuel is
-- enough and nothing faults. It only adds decisions, keeps the indices in order and the rest of the state as it was,
-- and without a conflict has gone over the whole queue. Under every assignment that makes the
-- rules hold and the satisfied literals true, it reports no conflict and decides true literals only.
pub propagate-Returns :
    (n : ℕ) (s : Solver) (level : ℤ)
    → positive level ≡ true
    → IsReady n s
    → Returns (IsQuiet n s level) (propagate s level)
unfolding propagate
propagate-Returns n s level leveled r =
    propagate_rounds-Returns n level leveled (suc (length s.decisions.levels)) s r
      (rw r.places (omega arith)) (omega arith)
