-- ===== src/Solver/Revert.antt =====
-- `revert` goes back to an earlier state of the decisions.
use vivace.Common.{
  ℕ, zero, suc, ◌≤◌, ◌==◌, ℤ, leb_ℤ, true, false, ◌||◌, ◌≡◌, refl, List, [], ◌∷◌, length, ap,
  drop_last, last?, last?-snoc, arith, ltb_ℤ, ==_iff, append_nil, append_assoc', ◌++◌, sym, ◌∙◌,
  if◌then◌else◌, subst, Bool-cases, inl, inr,
}
use vivace.Outcome.{ok, ◌>>=◌}
use vivace.Decisions.{
  Decision, Decisions, last_literal, last_decision, undecided, decision_level, revert_last,
}
use vivace.Decisions
use vivace.Decisions.Laws.{
  Extends, here, next, decide-inv, length-decide, length-Extends, revert_last-decide,
}
use vivace.Solver.{Solver, revert_decisions, revert_branches, revert, at_or_above}

last_literal-decide :
    (d : Decisions) (l level : ℤ) (r : ℕ) {d' : Decisions}
    → Decisions.decide d l level r ≡ ok d'
    → last_literal d' ≡ ok l
unfolding last_literal last_decision
last_literal-decide d l level r h =
    let (inside, fresh, e) = decide-inv d l level r h in
    let x : Decision = record { literal = l; reason = r } in
    rw (e, last_decision, last?-snoc d.queue x) refl

-- The end of the queue, if it has one, is not above the level.
abbrev pub IsSettled : Decisions → ℤ → Type 0
IsSettled d level =
    (l : ℤ) → last_literal d ≡ ok l → (undecided d l || leb_ℤ (decision_level d l) level) ≡ true

-- `d` is `t` after decisions each of which was above the level when it was the last one.
pub data TakesBack (level : ℤ) (t : Decisions) : Decisions → Type 0 where
  nothing : TakesBack level t t
  one_more :
      {e f : Decisions}
      → TakesBack level t e
      → (l own : ℤ) (r : ℕ) → Decisions.decide e l own r ≡ ok f
      → ltb_ℤ level (decision_level f l) ≡ true
      → TakesBack level t f

pub record IsReverted (n : ℕ) (d : Decisions) (s : Solver) (level : ℤ) (t : Solver) : Type 0 where
  pub reached : Extends (Decisions.new n) t.decisions
  pub earlier : Extends t.decisions d
  pub above : TakesBack level t.decisions d
  pub settled : IsSettled t.decisions level
  -- unchanged if nothing was taken back, and otherwise the end of what is left
  pub index : t.propagate_index ≡ (
      if length t.decisions.queue == length d.queue
      then s.propagate_index
      else length t.decisions.queue)
  pub rules : t.rules ≡ s.rules
  pub watch_graph : t.watch_graph ≡ s.watch_graph
  pub problems : t.problems ≡ s.problems
  pub learned_pool : t.learned_pool ≡ s.learned_pool
  pub learned_why : t.learned_why ≡ s.learned_why

-- Where the propagation goes on after one more decision was taken back.
further :
    (left before all index : ℕ) {found : ℕ}
    → left ≤ before
    → suc before ≤ all
    → found ≡ (if left == before then before else left)
    → found ≡ (if left == all then index else left)
further left before all index le lt h = ground (arith, h)

revert_decisions_lem :
    (n fuel : ℕ) (s : Solver) (level : ℤ) {d : Decisions}
    → Extends (Decisions.new n) d
    → length d.queue ≤ fuel
    → (t : Solver) × (revert_decisions fuel (record s { decisions = d }) level ≡ ok t)
      × IsReverted n d s level t
      × (t.branches ≡ s.branches)
unfolding revert_decisions Decisions.new
revert_decisions_lem n zero s level here le = (
  record s { decisions = Decisions.new n },
  refl,
  record {
    reached = here;
    earlier = here;
    above = nothing;
    settled = unfold last_literal last_decision in λ l h. cc;
    index = refl;
    rules = refl;
    watch_graph = refl;
    problems = refl;
    learned_pool = refl;
    learned_why = refl;
  },
  refl,
)
revert_decisions_lem n (suc fuel) s level here le = (
  record s { decisions = Decisions.new n },
  refl,
  record {
    reached = here;
    earlier = here;
    above = nothing;
    settled = unfold last_literal last_decision in λ l h. cc;
    index = refl;
    rules = refl;
    watch_graph = refl;
    problems = refl;
    learned_pool = refl;
    learned_why = refl;
  },
  refl,
)
revert_decisions_lem n zero s level (next {e = e} q l level' r p z h) le =
    absurd (omega (arith, length-decide e l level' r h))
revert_decisions_lem n (suc fuel) s level {d} (next {e = e} q l level' r p z h) le =
    let more : (length d.queue == 0) ≡ false = ground (arith, length-decide e l level' r h) in
    let last_ = last_literal-decide e l level' r h in
    elim (Bool-cases (undecided d l || leb_ℤ (decision_level d l) level)) [
      | inl stop ↦ (
        record s { decisions = d },
        rw (more, revert_decisions) (rw last_ (rw (stop, ◌>>=◌) refl)),
        record {
          reached = next q l level' r p z h;
          earlier = here;
          above = nothing;
          settled = λ k hk.
              let same : l ≡ k = ground (arith, last_, hk) in
              subst (λ k. (undecided d k || leb_ℤ (decision_level d k) level) ≡ true) same stop;
          index = rw ((==_iff (length d.queue) (length d.queue)).1 refl) refl;
          rules = refl;
          watch_graph = refl;
          problems = refl;
          learned_pool = refl;
          learned_why = refl;
        },
        refl,
      )
      | inr go ↦
          let (t, run, x, same) =
            revert_decisions_lem n fuel (record s { propagate_index = length e.queue }) level q
              (omega (arith, length-decide e l level' r h)) in
          (
            t,
            rw (more, revert_decisions)
                (rw last_ (rw (go, ◌>>=◌) (rw (revert_last-decide e l level' r h) run))),
            record {
              reached = x.reached;
              earlier = next x.earlier l level' r p z h;
              above = one_more x.above l level' r h (ground (arith, go));
              settled = x.settled;
              index =
                  further (length t.decisions.queue) (length e.queue) (length d.queue)
                    s.propagate_index (omega (arith, length-Extends x.earlier))
                    (omega (arith, length-decide e l level' r h)) x.index;
              rules = x.rules;
              watch_graph = x.watch_graph;
              problems = x.problems;
              learned_pool = x.learned_pool;
              learned_why = x.learned_why;
            },
            same,
          )
    ]

length-drop_last :
    {A : Type 0} (x : A) (xs : List A) → suc (length (drop_last (x ∷ xs))) ≡ length (x ∷ xs)
length-drop_last x [] = refl
length-drop_last x (y ∷ ys) = ap suc (length-drop_last y ys)

abbrev pub AllAtOrAbove : ℤ → List (List ℤ × ℤ) → Type 0
AllAtOrAbove level [] = Unit
AllAtOrAbove level ((ls, l) ∷ bs) = (leb_ℤ level l ≡ true) × AllAtOrAbove level bs

AllAtOrAbove-snoc :
    (level : ℤ) (bs : List (List ℤ × ℤ)) (b : List ℤ × ℤ)
    → AllAtOrAbove level bs
    → leb_ℤ level b.1 ≡ true
    → AllAtOrAbove level (bs ++ b ∷ [])
AllAtOrAbove-snoc level [] b h k = (k, tt)
AllAtOrAbove-snoc level (x ∷ bs) b h k = (h.0, AllAtOrAbove-snoc level bs b h.1 k)

-- The branches that are left, and those dropped behind them.
pub record IsCut (level : ℤ) (before after : List (List ℤ × ℤ)) : Type 0 where
  pub dropped : List (List ℤ × ℤ)
  pub parts : before ≡ after ++ dropped
  pub all_above : AllAtOrAbove level dropped
  pub end : at_or_above (last? after) level ≡ false

snoc_of_last :
    (b : List ℤ × ℤ) (bs : List (List ℤ × ℤ)) (level : ℤ)
    → at_or_above (last? (b ∷ bs)) level ≡ true
    → (c : List ℤ × ℤ) × (b ∷ bs ≡ drop_last (b ∷ bs) ++ c ∷ []) × (leb_ℤ level c.1 ≡ true)
snoc_of_last b [] level h = (b, refl, h)
snoc_of_last b (x ∷ bs) level h =
    let (c, e, k) = snoc_of_last x bs level h in (c, ap (λ t. b ∷ t) e, k)

-- The branches at or above the level are dropped from the end, up to the first that is not.
revert_branches_lem :
    (fuel : ℕ) (bs : List (List ℤ × ℤ)) (level : ℤ)
    → length bs ≤ fuel
    → IsCut level bs (revert_branches fuel bs level)
unfolding revert_branches
revert_branches_lem zero [] level le = record {
  dropped = [];
  parts = refl;
  all_above = tt;
  end = refl;
}
revert_branches_lem zero (b ∷ bs) level le = absurd (omega arith)
revert_branches_lem (suc fuel) [] level le = record {
  dropped = [];
  parts = refl;
  all_above = tt;
  end = refl;
}
revert_branches_lem (suc fuel) (b ∷ bs) level le =
    elim (Bool-cases (at_or_above (last? (b ∷ bs)) level)) [
      | inr stop ↦
          rw (stop, revert_branches)
            (record { dropped = []; parts = sym (append_nil (b ∷ bs)); all_above = tt; end = stop })
      | inl go ↦
          let (c, split, high) = snoc_of_last b bs level go in
          let x =
            revert_branches_lem fuel (drop_last (b ∷ bs)) level
              (omega (arith, length-drop_last b bs)) in
          let left = revert_branches fuel (drop_last (b ∷ bs)) level in
          rw (go, revert_branches)
            (record {
              dropped = x.dropped ++ c ∷ [];
              parts = split ∙ ap (λ t. t ++ c ∷ []) x.parts ∙ append_assoc' left x.dropped (c ∷ []);
              all_above = AllAtOrAbove-snoc level x.dropped c x.all_above high;
              end = x.end;
            })
    ]

-- `revert` returns from every state of decisions that a run reaches: to an earlier state of the
-- decisions, by taking back decisions that are above the level one by one, until the last one is
-- not above it. If any was taken back, the propagation goes on at the end of those left, and
-- otherwise where it was. Of the branches those at or above the level are dropped from the end, up
-- to the last one that is not. The rules, the watch graph, the problems and what was learned stay.
pub revert_lem :
    (n : ℕ) (s : Solver) (level : ℤ)
    → Extends (Decisions.new n) s.decisions
    → (t : Solver) × (revert s level ≡ ok t)
      × IsReverted n s.decisions s level t
      × IsCut level s.branches t.branches
unfolding revert
revert_lem n s level q =
    let (t, run, x, same) =
      revert_decisions_lem n (length s.decisions.queue) s level q (omega arith) in
    (
      record t { branches = revert_branches (length t.branches) t.branches level },
      rw run refl,
      record {
        reached = x.reached;
        earlier = x.earlier;
        above = x.above;
        settled = x.settled;
        index = x.index;
        rules = x.rules;
        watch_graph = x.watch_graph;
        problems = x.problems;
        learned_pool = x.learned_pool;
        learned_why = x.learned_why;
      },
      subst (λ bs. IsCut level bs (revert_branches (length t.branches) t.branches level)) same
          (revert_branches_lem (length t.branches) t.branches level (omega arith)),
    )
