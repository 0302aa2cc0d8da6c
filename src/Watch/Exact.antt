-- ===== src/Watch/Exact.antt =====
-- The chains of the watch graph hold a node as often as its rule and its watches say, and nothing
-- else: what `move_watch` and `insert` do to all of them.
use vivace.Common.{
  get_elem?-snoc_inv, ℕ, ◌+◌, ◌≤◌, ◌==◌, ==_iff, ℤ, pos, eqb_ℤ, eqb_ℤ_iff, eqb_ℤ_refl, true, false,
  ◌&&◌, ◌||◌, ◌≡◌, inl, inr, refl, subst, Option, some, List, [], ◌∷◌, ◌++◌, length, get_or,
  get_elem?, get_elem?-set_self, get_elem?-set_ne, lt_of_get_elem?, elem, mem, mem_of_get_elem?,
  count, occurrences, count-remove_at, if◌then◌else◌, arith, Bool-cases,
}
use vivace.Outcome.{ok, ◌>>=◌}
use vivace.Rule.{Rule, RuleSet, is_multi, is_assertion}
use vivace.Watch.{
  RuleWatchNode, RuleWatchGraph, chain, or_default, push_front, push_all, watched, node_move_watch,
  move_watch, insert, new_node, new_graph, rule_at,
}
use vivace.Watch.Invariant.{AllInPool, IsEntry, IsWatched, moved, move_watch_lem, moved-IsWatched}
use vivace.Watch.Insert.{inserted, insert_lem, inserted-IsWatched}

-- A node stands in the chain of a literal as often as it watches the literal: a conflict of many
-- watches all of its literals, any other rule the two watched ones.
abbrev pub IsExact : RuleSet → RuleWatchGraph → Type 0
IsExact s g =
    (id : ℕ) (node : RuleWatchNode) (r : Rule)
    → get_elem? g.nodes id ≡ some node
    → get_elem? s.rules node.rule ≡ some r
    → (l : ℤ) → count id (chain g l) ≡ occurrences l (watched r node)

pub new_graph-IsExact : (s : RuleSet) → IsExact s new_graph
unfolding new_graph
new_graph-IsExact s id node r h k l = cc

-- What the chain of a literal holds after a move: the node left one chain and entered the other.
count-moved :
    (g : RuleWatchGraph) (from to : ℤ) (node_id cursor : ℕ) (node : RuleWatchNode) (l : ℤ) (id : ℕ)
    → get_elem? (chain g from) cursor ≡ some node_id
    → count id (chain (moved g from to node_id cursor node) l)
        + (if eqb_ℤ l from && (id == node_id) then 1 else 0)
      ≡ count id (chain g l) + (if eqb_ℤ l to && (id == node_id) then 1 else 0)
count-moved g from to node_id cursor node l id at = ground (
  arith,
  eqb_ℤ_iff l to,
  eqb_ℤ_iff l from,
  eqb_ℤ_iff to from,
  count-remove_at id (chain g from) cursor at,
)

-- What a node watches after one of its watches moved.
occurrences-moved :
    (node : RuleWatchNode) (from to l : ℤ)
    → (eqb_ℤ from node.watch1 || eqb_ℤ from node.watch2) ≡ true
    → occurrences l
          ((node_move_watch node from to).watch1 ∷ (node_move_watch node from to).watch2 ∷ [])
        + (if eqb_ℤ l from then 1 else 0)
      ≡ occurrences l (node.watch1 ∷ node.watch2 ∷ []) + (if eqb_ℤ l to then 1 else 0)
unfolding node_move_watch
occurrences-moved node from to l h =
    ground
      (arith, eqb_ℤ_iff from node.watch1, eqb_ℤ_iff from node.watch2, eqb_ℤ_iff node.watch1 from)

count_of_mem : (k : ℕ) (xs : List ℕ) → mem k xs ≡ true → 1 ≤ count k xs
count_of_mem k [] h = cc
count_of_mem k (x ∷ xs) h = ground (arith, count_of_mem k xs)

count_of_not_mem : (k : ℕ) (xs : List ℕ) → mem k xs ≡ false → count k xs ≡ 0
count_of_not_mem k [] h = refl
count_of_not_mem k (x ∷ xs) h = ground (arith, count_of_not_mem k xs)

watches_of_count :
    (node : RuleWatchNode) (l : ℤ)
    → 1 ≤ occurrences l (node.watch1 ∷ node.watch2 ∷ [])
    → (eqb_ℤ l node.watch1 || eqb_ℤ l node.watch2) ≡ true
watches_of_count node l h = ground (arith, h)

moved-IsExact :
    {n : ℕ} {s : RuleSet} (g : RuleWatchGraph) (from to : ℤ) (node_id cursor : ℕ)
    → IsExact s g
    → (e : IsEntry n s g.nodes from node_id) → is_multi e.rule ≡ false
    → get_elem? (chain g from) cursor ≡ some node_id
    → IsExact s (moved g from to node_id cursor e.node)
moved-IsExact {s = s} g from to node_id cursor x e single at id node r h k l =
    elim (Bool-cases (id == node_id)) [
      | inl eq ↦
          let same : id ≡ node_id = (==_iff id node_id).0 eq in
          let is_new : new ≡ node =
            ground (arith, h, same, get_elem?-set_self g.nodes node_id new e.at_node) in
          let is_rule : e.rule ≡ r = ground (arith, e.at_rule, k, is_new, same_rule) in
          let before : count node_id (chain g l) ≡ occurrences l (watched e.rule e.node) =
            x node_id e.node e.rule e.at_node e.at_rule l in
          ground (
            arith,
            count-moved g from to node_id cursor e.node l id at,
            occurrences-moved e.node from to l watches,
            before,
            same,
            is_new,
            is_rule,
            single,
          )
      | inr other ↦ ground (
        arith,
        count-moved g from to node_id cursor e.node l id at,
        x id node r (ground (arith, h, other, get_elem?-set_ne g.nodes node_id id new)) k l,
        other,
      )
    ]
  where
    new : RuleWatchNode
    new = node_move_watch e.node from to

    same_rule : new.rule ≡ e.node.rule
    same_rule = unfold node_move_watch in ground arith

    watches : (eqb_ℤ from e.node.watch1 || eqb_ℤ from e.node.watch2) ≡ true
    watches = watches_of_count e.node from (
        ground (
          arith,
          single,
          x node_id e.node e.rule e.at_node e.at_rule from,
          count_of_mem node_id (chain g from) (mem_of_get_elem? (chain g from) cursor at),
        ))

-- A rule that is no conflict of many stands behind the node at the cursor in the chain of `from`,
-- and `to` is one of its literals. Then moving the watch succeeds and keeps the graph's indices in
-- order and its chains exact: the node heads the chain of `to`, once less in that of `from` and once
-- more in that of `to`, and no other entry of a chain comes or goes.
pub move_watch-IsExact :
    {n : ℕ} {s : RuleSet} (g : RuleWatchGraph) (from to : ℤ) (node_id cursor : ℕ)
    → IsWatched n s g
    → IsExact s g
    → (e : IsEntry n s g.nodes from node_id) → is_multi e.rule ≡ false
    → elem to e.rule.literals ≡ true
    → get_elem? (chain g from) cursor ≡ some node_id
    → (g' : RuleWatchGraph) × (move_watch g from to node_id cursor ≡ ok g')
      × IsWatched n s g'
      × IsExact s g'
      × (get_elem? (chain g' to) 0 ≡ some node_id)
      × ((l : ℤ) (id : ℕ)
          → count id (chain g' l) + (if eqb_ℤ l from && (id == node_id) then 1 else 0)
            ≡ count id (chain g l) + (if eqb_ℤ l to && (id == node_id) then 1 else 0))
move_watch-IsExact g from to node_id cursor w x e single member at = (
  moved g from to node_id cursor e.node,
  move_watch_lem g from to node_id cursor e.node e.at_node,
  moved-IsWatched g from to node_id cursor w e member,
  moved-IsExact g from to node_id cursor x e single at,
  rw eqb_ℤ_refl refl,
  λ l id. count-moved g from to node_id cursor e.node l id at,
)

-- What the chain of a literal holds after a node entered those of its literals.
count-push_all :
    (chains : ℤ → Option (List ℕ)) (ls : List ℤ) (new : ℕ) (l : ℤ) (id : ℕ)
    → count id (or_default (push_all chains ls new l))
      ≡ count id (or_default (chains l)) + (if id == new then occurrences l ls else 0)
unfolding push_all
count-push_all chains [] new l id = ground arith
count-push_all chains (k ∷ ls) new l id =
    ground (arith, count-push_all (push_front chains k new) ls new l id, eqb_ℤ_iff l k)

inserted-IsExact :
    {n : ℕ} {s : RuleSet} (g : RuleWatchGraph) (node : RuleWatchNode) (r : Rule)
    → IsWatched n s g
    → IsExact s g
    → get_elem? s.rules node.rule ≡ some r
    → IsExact s (inserted g r node)
inserted-IsExact {s = s} g node r w x at id node' r' h k l =
    elim (get_elem?-snoc_inv g.nodes node id h) [
      | inl (below, old) ↦ ground (
        arith,
        count-push_all g.chains (watched r node) (length g.nodes) l id,
        x id node' r' old k l,
        ==_iff id (length g.nodes),
        below,
      )
      | inr (last_one, own) ↦
          let same_rule : r ≡ r' = ground (arith, at, k, own) in
          ground (
            arith,
            count-push_all g.chains (watched r node) (length g.nodes) l id,
            ==_iff id (length g.nodes),
            last_one,
            own,
            same_rule,
            absent id l last_one,
          )
    ]
  where
    absent : (id : ℕ) (l : ℤ) → id ≡ length g.nodes → count id (chain g l) ≡ 0
    absent id l e = elim (Bool-cases (mem id (chain g l))) [
      | inr f ↦ count_of_not_mem id (chain g l) f
      | inl t ↦ let y = w l id t in absurd (omega (arith, lt_of_get_elem? g.nodes id y.at_node, e))
    ]

-- The node that the solver makes of a rule.
abbrev pub node_of : ℕ → Rule → RuleWatchNode
node_of id r = record {
  rule = id;
  watch1 = get_or r.literals 0 (pos 0);
  watch2 = get_or r.literals 1 (pos 0);
}

first-elem : (ls : List ℤ) → 2 ≤ length ls → elem (get_or ls 0 (pos 0)) ls ≡ true
first-elem [] h = absurd (omega arith)
first-elem (x ∷ ls) h = rw eqb_ℤ_refl refl

second-elem : (ls : List ℤ) → 2 ≤ length ls → elem (get_or ls 1 (pos 0)) ls ≡ true
second-elem [] h = absurd (omega arith)
second-elem (x ∷ []) h = absurd (omega arith)
second-elem (x ∷ y ∷ ls) h = ground (arith, eqb_ℤ_refl y)

-- A rule with two literals of the pool or more is given to the watch graph of the rules before it,
-- whose indices are in order and whose chains are exact. Then a node that watches its first two
-- literals comes behind the nodes, the graph's indices stay in order, and its chains stay exact: the
-- new node stands in the chains of the literals that it watches, and the others where they stood.
pub insert-new_node-IsExact :
    {n : ℕ} {s : RuleSet} (g : RuleWatchGraph) (id : ℕ) (r : Rule)
    → IsWatched n s g
    → IsExact s g
    → get_elem? s.rules id ≡ some r
    → AllInPool n r.literals
    → 2 ≤ length r.literals
    → (g' : RuleWatchGraph) × ((new_node s id >>= insert g s) ≡ ok g')
      × IsWatched n s g'
      × IsExact s g'
      × (g'.nodes ≡ g.nodes ++ node_of id r ∷ [])
insert-new_node-IsExact {n = n} {s = s} g id r w x at lits long = (
  inserted g r (node_of id r),
  ground (arith, made, insert_lem s g (node_of id r) r at, no_assertion),
  inserted-IsWatched {s = s} g (node_of id r) r w at lits (first-elem r.literals long)
      (second-elem r.literals long),
  inserted-IsExact {n = n} {s = s} g (node_of id r) r w x at,
  refl,
)
  where
    made : new_node s id ≡ ok (node_of id r)
    made = unfold new_node rule_at in ground (arith, at)

    no_assertion : is_assertion r ≡ false
    no_assertion = unfold is_assertion in ground (arith, long)

-- The same of the graph that a run gives.
pub insert-IsExact :
    {n : ℕ} {s : RuleSet} (g : RuleWatchGraph) (id : ℕ) (r : Rule) {g' : RuleWatchGraph}
    → IsWatched n s g × IsExact s g
    → get_elem? s.rules id ≡ some r
    → AllInPool n r.literals
    → 2 ≤ length r.literals
    → (new_node s id >>= insert g s) ≡ ok g'
    → IsWatched n s g' × IsExact s g'
insert-IsExact {n = n} {s = s} g id r {g' = g'} before at lits long run =
    let (h, made, w, x, nodes) =
      insert-new_node-IsExact {n = n} {s = s} g id r before.0 before.1 at lits long in
    let same : h ≡ g' = ground (arith, made, run) in
    (subst (IsWatched n s) same w, subst (IsExact s) same x)
