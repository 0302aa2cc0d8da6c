-- ===== src/Watch/Insert.antt =====
-- `RuleWatchGraph::insert`: a new node enters the chains of the literals that it watches.
use vivace.Common.{
  ℕ, ℤ, eqb_ℤ_iff, true, ◌≡◌, ◌⊎◌, inl, inr, refl, sym, subst, Option, some, List, [], ◌∷◌, ◌++◌,
  length, get_elem?, get_elem?-append, get_elem?-snoc, elem, mem, if◌then◌else◌, arith, Bool-cases,
}
use vivace.Outcome.{ok}
use vivace.Rule.{is_multi, Rule, RuleSet, is_assertion}
use vivace.Watch.{
  RuleWatchNode, RuleWatchGraph, or_default, push_front, push_all, watched, insert, rule_at,
}
use vivace.Watch.Invariant.{elem-AllInPool, AllInPool, IsEntry, IsWatched}

-- An entry of a chain after the insertion is the new node, in a chain of a literal that it watches,
-- or an entry before.
mem-push_all :
    (chains : ℤ → Option (List ℕ)) (ls : List ℤ) (new : ℕ) (l : ℤ) (id : ℕ)
    → mem id (or_default (push_all chains ls new l)) ≡ true
    → ((id ≡ new) × (elem l ls ≡ true)) ⊎ (mem id (or_default (chains l)) ≡ true)
unfolding push_all
mem-push_all chains [] new l id m = inr m
mem-push_all chains (k ∷ ls) new l id m =
    elim (mem-push_all (push_front chains k new) ls new l id m) [
      | inl (e, f) ↦ inl (e, rw f (ground arith))
      | inr old ↦ ground (arith, old, eqb_ℤ_iff l k)
    ]

abbrev pub inserted : RuleWatchGraph → Rule → RuleWatchNode → RuleWatchGraph
inserted g r node = record {
  nodes = g.nodes ++ node ∷ [];
  chains = push_all g.chains (watched r node) (length g.nodes);
}

abbrev pub after : RuleWatchGraph → Rule → RuleWatchNode → RuleWatchGraph
after g r node = if is_assertion r then g else inserted g r node

pub insert_lem :
    (s : RuleSet) (g : RuleWatchGraph) (node : RuleWatchNode) (r : Rule)
    → get_elem? s.rules node.rule ≡ some r
    → insert g s node ≡ ok (after g r node)
unfolding insert rule_at
insert_lem s g node r at = rw (at, rule_at) refl

pub inserted-IsWatched :
    {n : ℕ} {s : RuleSet} (g : RuleWatchGraph) (node : RuleWatchNode) (r : Rule)
    → IsWatched n s g
    → get_elem? s.rules node.rule ≡ some r
    → AllInPool n r.literals
    → elem node.watch1 r.literals ≡ true
    → elem node.watch2 r.literals ≡ true
    → IsWatched n s (inserted g r node)
inserted-IsWatched {n} {s} g node r w at lits w1 w2 l id m =
    elim (mem-push_all g.chains (watched r node) (length g.nodes) l id m) [
      | inl (e, own) ↦ subst (IsEntry n s (inserted g r node).nodes l) (sym e) (record {
        node = node;
        rule = r;
        at_node = get_elem?-snoc g.nodes node;
        at_rule = at;
        watch1_in = elem-AllInPool node.watch1 r.literals lits w1;
        watch2_in = elem-AllInPool node.watch2 r.literals lits w2;
        literals_in = lits;
        own = elim (Bool-cases (is_multi r)) [
          | inl many ↦ ground (arith, own, many)
          | inr single ↦
              ground (arith, own, single, w1, w2, eqb_ℤ_iff l node.watch1, eqb_ℤ_iff l node.watch2)
        ];
      })
      | inr old ↦
          let e = w l id old in
          record {
            node = e.node;
            rule = e.rule;
            at_node = get_elem?-append g.nodes (node ∷ []) id e.at_node;
            at_rule = e.at_rule;
            watch1_in = e.watch1_in;
            watch2_in = e.watch2_in;
            literals_in = e.literals_in;
            own = e.own;
          }
    ]
