-- ===== src/Watch/Invariant.antt =====
-- The watch graph's indices: a node in a chain exists, its rule exists, the literals that it may
-- decide are in the pool, and a rule stands only in chains of its own literals.
use vivace.Common.{
  ℕ, ◌<◌, ◌==◌, ℤ, abs, eqb_ℤ, eqb_ℤ_iff, eqb_ℤ_refl, true, false, ◌≡◌, ◌⊎◌, inl, inr, sym, subst,
  some, List, [], ◌∷◌, get_elem?, set, elem, mem, mem-remove_at, get_elem?-set_self,
  get_elem?-set_ne, arith, Bool-cases,
}
use vivace.Outcome.{ok}
use vivace.Decisions.{Decisions, conflict}
use vivace.Decisions.Laws.{NonZero}
use vivace.Rule.{Rule, RuleSet}
use vivace.Watch.{
  RuleWatchNode, RuleWatchGraph, chain, or_default, update, push_front, remove_from, new_graph,
  node_move_watch, move_watch, alternative,
}

-- A literal of a package of a pool of `n` places (place 0 is not used).
abbrev pub InPool : ℕ → ℤ → Type 0
InPool n l = NonZero l × (abs l < n)

abbrev pub AllInPool : ℕ → List ℤ → Type 0
AllInPool n [] = Unit
AllInPool n (l ∷ ls) = InPool n l × AllInPool n ls

pub elem-AllInPool : {n : ℕ} (l : ℤ) (ls : List ℤ) → AllInPool n ls → elem l ls ≡ true → InPool n l
elem-AllInPool l [] h e = cc
elem-AllInPool l (x ∷ ls) h e = ground (arith, eqb_ℤ_iff l x, elem-AllInPool l ls h.1)

-- What stands behind an entry `id` of the chain of `l`.
pub record IsEntry (n : ℕ) (s : RuleSet) (nodes : List RuleWatchNode) (l : ℤ) (id : ℕ)
    : Type 0 where
  pub node : RuleWatchNode
  pub rule : Rule
  pub at_node : get_elem? nodes id ≡ some node
  pub at_rule : get_elem? s.rules node.rule ≡ some rule
  pub watch1_in : InPool n node.watch1
  pub watch2_in : InPool n node.watch2
  pub literals_in : AllInPool n rule.literals
  pub own : elem l rule.literals ≡ true

abbrev pub IsWatched : ℕ → RuleSet → RuleWatchGraph → Type 0
IsWatched n s g = (l : ℤ) (id : ℕ) → mem id (chain g l) ≡ true → IsEntry n s g.nodes l id

pub new_graph-IsWatched : (n : ℕ) (s : RuleSet) → IsWatched n s new_graph
unfolding new_graph
new_graph-IsWatched n s l id m = cc

-- The literal that takes a watch's place is one of the rule's, and not the one it leaves.
pub alternative-elem :
    (d : Decisions) (literal other l : ℤ) (ls : List ℤ)
    → alternative d literal other ls ≡ some l
    → (elem l ls ≡ true)
      × (eqb_ℤ l literal ≡ false)
      × (eqb_ℤ l other ≡ false)
      × (conflict d l ≡ false)
unfolding alternative
alternative-elem d literal other l [] h = cc
alternative-elem d literal other l (x ∷ ls) h =
    ground (arith, eqb_ℤ_refl x, alternative-elem d literal other l ls)

-- Moving a watch changes one node, which keeps its rule and whose watches stay in the pool.
IsEntry-set :
    {n : ℕ} {s : RuleSet} (nodes : List RuleWatchNode) (i : ℕ) (old new : RuleWatchNode) (l : ℤ)
    (id : ℕ)
    → get_elem? nodes i ≡ some old
    → new.rule ≡ old.rule
    → InPool n new.watch1
    → InPool n new.watch2
    → IsEntry n s nodes l id
    → IsEntry n s (set nodes i new) l id
IsEntry-set nodes i old new l id at same w1 w2 e = elim (Bool-cases (i == id)) [
  | inl eq ↦ record {
    node = new;
    rule = e.rule;
    at_node = ground (arith, get_elem?-set_self nodes i new at);
    at_rule = let q : e.node ≡ old = ground (arith, e.at_node) in ground (arith, q, e.at_rule);
    watch1_in = w1;
    watch2_in = w2;
    literals_in = e.literals_in;
    own = e.own;
  }
  | inr ne ↦ record {
    node = e.node;
    rule = e.rule;
    at_node = ground (arith, get_elem?-set_ne nodes i id new, e.at_node);
    at_rule = e.at_rule;
    watch1_in = e.watch1_in;
    watch2_in = e.watch2_in;
    literals_in = e.literals_in;
    own = e.own;
  }
]

-- An entry of a chain after the move is the moved node, in its new chain, or an entry before.
mem-moved :
    (g : RuleWatchGraph) (from to : ℤ) (node_id cursor : ℕ) (l : ℤ) (id : ℕ)
    → mem id (
        or_default
          (push_front (update g.chains from (remove_from (g.chains from) cursor)) to node_id l))
      ≡ true
    → ((id ≡ node_id) × (l ≡ to)) ⊎ (mem id (chain g l) ≡ true)
mem-moved g from to node_id cursor l id m = ground (
  arith,
  eqb_ℤ_iff l to,
  eqb_ℤ_iff l from,
  eqb_ℤ_iff to from,
  mem-remove_at id (chain g from) cursor,
)

-- The graph after the move.
abbrev pub moved : RuleWatchGraph → ℤ → ℤ → ℕ → ℕ → RuleWatchNode → RuleWatchGraph
moved g from to node_id cursor node = record {
  nodes = set g.nodes node_id (node_move_watch node from to);
  chains = push_front (update g.chains from (remove_from (g.chains from) cursor)) to node_id;
}

pub move_watch_lem :
    (g : RuleWatchGraph) (from to : ℤ) (node_id cursor : ℕ) (node : RuleWatchNode)
    → get_elem? g.nodes node_id ≡ some node
    → move_watch g from to node_id cursor ≡ ok (moved g from to node_id cursor node)
unfolding move_watch
move_watch_lem g from to node_id cursor node h = ground (arith, h)

-- The graph after a move to a literal of the rule is in order.
pub moved-IsWatched :
    {n : ℕ} {s : RuleSet} (g : RuleWatchGraph) (from to : ℤ) (node_id cursor : ℕ)
    → IsWatched n s g
    → (e : IsEntry n s g.nodes from node_id) → elem to e.rule.literals ≡ true
    → IsWatched n s (moved g from to node_id cursor e.node)
unfolding node_move_watch
moved-IsWatched {n} {s} g from to node_id cursor w e member l id m =
    elim (mem-moved g from to node_id cursor l id m) [
      | inr old ↦ kept l id (w l id old)
      | inl eq ↦
          subst (λ i. IsEntry n s (moved g from to node_id cursor e.node).nodes l i) (sym eq.0)
            (record {
              node = new;
              rule = e.rule;
              at_node = get_elem?-set_self g.nodes node_id new e.at_node;
              at_rule = ground (arith, e.at_rule);
              watch1_in = w1;
              watch2_in = w2;
              literals_in = e.literals_in;
              own = rw eq.1 member;
            })
    ]
  where
    new : RuleWatchNode
    new = node_move_watch e.node from to

    inside : InPool n to
    inside = elem-AllInPool to e.rule.literals e.literals_in member

    w1 : InPool n new.watch1
    w1 = ground (arith, e.watch1_in, inside)

    w2 : InPool n new.watch2
    w2 = ground (arith, e.watch2_in, inside)

    kept : (k : ℤ) (i : ℕ) → IsEntry n s g.nodes k i → IsEntry n s (set g.nodes node_id new) k i
    kept k i x = IsEntry-set g.nodes node_id e.node new k i e.at_node (ground arith) w1 w2 x
