-- ===== src/Solver/Firm/Conflict.antt =====
-- `propagate` on firm decisions, and `analyze` after it.
use vivace.Common.{
  ℕ, ◌<◌, ◌≤◌, pos, neg, abs, abs-neg, neg-neg, true, ◌≡◌, refl, sym, subst, ◌∙◌, inl, inr, Option,
  none, some, [], ◌∷◌, get_elem?, lt_of_get_elem?, elem, arith,
}
use vivace.Outcome.{Outcome, ok, err}
use vivace.Decisions.{Decision, Decisions, conflict}
use vivace.Decisions.Laws.{Extends, next, here, conflict-neg, decide-inv}
use vivace.Decisions.Trail.{IsTrail, Extends-keeps-IsTrail, satisfy-get_elem?}
use vivace.Rule.{Rule, RuleSet}
use vivace.Watch.Derives.{
  Derives, Derives-Extends, none_more, by_clause, by_multi, Fills, Fills-Extends, Clashes, AllPlain,
}
use vivace.Watch.Propagate.{Returns}
use vivace.Watch.Semantics.{Assignment, some_true}
use vivace.Solver.{Solver, propagate}
use vivace.Solver.Propagation.{IsReady, IsQuiet, propagate-Returns}
use vivace.Solver.Analyze.{Learned, analyze}
use vivace.Solver.Analyze.Sound.{analyze_sound}
use vivace.Solver.Analyze.Counting.{level_at}
use vivace.Solver.Analyze.Justified.{AllJustified, IsFalsified, IsModel}
use vivace.Solver.Firm.{AllFirm}
use vivace.Solver.Firm.Growing.{Fills-New, Derives-AllFirm, Clashes-AllJustified}
use vivace.Solver.Firm.Levels.{
  level-decide, level-Extends, queue-Extends, get_elem?-split, get_elem?-last, satisfy-mentions,
  mentioned_level,
}

-- The decisions from this place on are of the level.
abbrev pub IsPending : Decisions → ℕ → ℕ → Type 0
IsPending d from lev =
    (i : ℕ) (x : Decision)
    → from ≤ i
    → get_elem? d.queue i ≡ some x
    → level_at d (abs x.literal) ≡ lev

-- The state between decisions: the indices are in order, the decisions firm, and those that
-- propagation has not gone over of the current level.
pub record IsSteady (n : ℕ) (s : Solver) (lev : ℕ) : Type 0 where
  pub ready : IsReady n s
  pub plain : AllPlain s.rules
  pub firm : AllFirm s.decisions s.rules lev
  pub pending : IsPending s.decisions s.propagate_index lev

-- The package of a decision that stays keeps its level.
pub level_kept :
    {d e : Decisions} (i : ℕ) (x : Decision)
    → IsTrail d
    → Extends d e
    → get_elem? d.queue i ≡ some x
    → level_at e (abs x.literal) ≡ level_at d (abs x.literal)
level_kept {d} i x t q at = level-Extends (abs x.literal) q (
    mentioned_level d (abs x.literal) t
      (satisfy-mentions d x.literal t (satisfy-get_elem? d i t at)))

Fills-IsPending :
    (lev from id : ℕ) (r : Rule) {d e : Decisions}
    → IsTrail d
    → IsPending d from lev
    → Fills (pos lev) id r d e
    → IsPending e from lev
Fills-IsPending lev from id r {d} t h fills i x le at =
    let (more, same) = queue-Extends (Fills-Extends fills) in
    elim (get_elem?-split d.queue more i (subst (λ xs. get_elem? xs i ≡ some x) same at)) [
      | inl old ↦ level_kept i x t (Fills-Extends fills) old ∙ h i x le old
      | inr new ↦ (Fills-New lev id r t fills i x (at, new)).2
    ]

-- The decisions that are added are of the level.
Derives-IsPending :
    (s : RuleSet) (lev from : ℕ) {d e : Decisions}
    → IsTrail d
    → IsPending d from lev
    → Derives s (pos lev) d e
    → IsPending e from lev
Derives-IsPending s lev from t h none_more i x le at = h i x le at
Derives-IsPending s lev from {d} {e} t h (by_clause {e = b} q l id r p n at_rule u eq) i x le at =
    let y : Decision = record { literal = l; reason = id } in
    let tb = Extends-keeps-IsTrail t (Derives-Extends q) in
    let same = (decide-inv b l (pos lev) id eq).2 in
    let at' = subst (λ (g : Decisions). get_elem? g.queue i ≡ some x) same at in
    elim (get_elem?-split b.queue (y ∷ []) i at') [
      | inl old ↦
          level_kept i x tb (next here l (pos lev) id p n eq) old
          ∙ Derives-IsPending s lev from t h q i x le old
      | inr late ↦
          let only : x ≡ y = get_elem?-last b.queue y i at' late in
          rw only (level-decide b l lev id eq)
    ]
Derives-IsPending s lev from {d} {e} t h (by_multi {e = b} q id r at_rule u fills all) i x le at =
    Fills-IsPending lev from id r (Extends-keeps-IsTrail t (Derives-Extends q))
      (Derives-IsPending s lev from t h q) fills i x le at

Clashes-IsPending :
    (s : RuleSet) (lev from : ℕ) {d e : Decisions} {i : ℕ}
    → IsTrail d
    → IsPending d from lev
    → Clashes s (pos lev) d i e
    → IsPending e from lev
Clashes-IsPending s lev from {i = i} t h c =
    Fills-IsPending lev from i c.rule (Extends-keeps-IsTrail t (Derives-Extends c.derives))
      (Derives-IsPending s lev from t h c.derives) c.fills

-- What `propagate` returns on a steady state: a steady state again, or a rule that is false and
-- decisions that are justified.
abbrev pub IsSettledState : ℕ → ℕ → Solver × Option ℕ → Type 0
IsSettledState n lev (t, none) = IsSteady n t lev
IsSettledState n lev (t, some i) =
    IsReady n t
    × AllJustified t.decisions t.rules lev
    × ((r : Rule) × (get_elem? t.rules.rules i ≡ some r) × IsFalsified t.decisions lev r)

settled_of :
    (n : ℕ) (s : Solver) (lev : ℕ) (p : Solver × Option ℕ)
    → IsSteady n s lev
    → IsQuiet n s (pos lev) p
    → IsSettledState n lev p
settled_of n s lev (t, none) h k = record {
  ready = k.ready;
  plain = rw k.rest.rules h.plain;
  firm =
      rw k.rest.rules
        (Derives-AllFirm s.rules lev h.plain h.ready.trail h.firm (k.derives h.plain refl));
  pending =
      λ i x le at. absurd (omega (arith, k.finished refl, lt_of_get_elem? t.decisions.queue i at));
}
settled_of n s lev (t, some i) h k =
    let c = k.refuted h.plain i refl in
    let (r, at, met) = k.conflicting_in i refl in
    let same : r ≡ c.rule = ground (arith, at, c.at_rule) in
    let x = met.decision in
    (
      k.ready,
      rw k.rest.rules (Clashes-AllJustified s.rules lev h.plain h.ready.trail h.firm c),
      (
        c.rule,
        rw k.rest.rules c.at_rule,
        record {
          enabled = c.refuted.enabled;
          nonzero = c.refuted.nonzero;
          clause = c.refuted.clause;
          multi = c.refuted.multi;
          current = (
            neg x.literal,
            subst (λ (r : Rule). elem (neg x.literal) r.literals ≡ true) same met.member,
            refuted_decision t.decisions met.at x k.ready.trail met.at_decision,
            subst (λ v. level_at t.decisions v ≡ lev) (sym (abs-neg x.literal))
                (Clashes-IsPending s.rules lev s.propagate_index h.ready.trail h.pending c met.at x
                  met.behind met.at_decision),
          );
        },
      ),
    )
  where
    refuted_decision :
        (d : Decisions) (j : ℕ) (x : Decision)
        → IsTrail d
        → get_elem? d.queue j ≡ some x
        → conflict d (neg x.literal) ≡ true
    refuted_decision d j x t at =
        let found = satisfy-get_elem? d j t at in
        ground (arith, conflict-neg d (neg x.literal), neg-neg x.literal, found)

Returns-map :
    {A : Type 0} {P Q : A → Type 0} (o : Outcome A)
    → ((a : A) → P a → Q a)
    → Returns P o
    → Returns Q o
Returns-map (ok a) f h = f a h
Returns-map (err e) f h = h

-- On a steady state `propagate` returns a steady state, or a conflict: then the rule that it returns
-- is false under the decisions, with a literal of the current level, and each decision is a free
-- choice or implied by its reason.
pub propagate-IsSteady :
    (n : ℕ) (s : Solver) (lev : ℕ)
    → 0 < lev
    → IsSteady n s lev
    → Returns (IsSettledState n lev) (propagate s (pos lev))
propagate-IsSteady n s lev high h =
    Returns-map (propagate s (pos lev)) (λ p k. settled_of n s lev p h k)
      (propagate-Returns n s (pos lev) (ground (arith, high)) h.ready)

-- `propagate` and then `analyze`, above level 1: the rule learned from a conflict follows from the
-- rules, whatever was decided on the way.
pub propagate-analyze_sound :
    (n : ℕ) (s : Solver) (lev : ℕ) (t : Solver) (i why : ℕ) (l : Learned) (a : Assignment)
    → 1 < lev
    → IsSteady n s lev
    → propagate s (pos lev) ≡ ok (t, some i)
    → analyze t.rules t.decisions why (pos lev) i ≡ ok l
    → IsModel a t.decisions t.rules
    → some_true a l.rule.literals ≡ true
propagate-analyze_sound n s lev t i why l a high h run learned model =
    let (ready, just, (r, at, false_)) =
      subst (Returns (IsSettledState n lev)) run (propagate-IsSteady n s lev (omega arith) h) in
    analyze_sound t.decisions t.rules lev a why i r l high ready.trail just model at false_ learned
