-- ===== src/Watch.antt =====
-- crates/vivacity-resolver/src/watch.rs: two watched literals for a rule (all of them for a
-- conflict of many), and one chain of nodes for each literal.
pub mod Semantics
pub mod Invariant
pub mod Insert
pub mod Exact
pub mod Derives
pub mod Rounds
pub mod Propagate
use vivace.Common.{
  ℕ, zero, suc, ◌+◌, ◌==◌, ltb, ℤ, pos, neg, abs, positive, eqb_ℤ, ltb_ℤ, Bool, true, false, not,
  ◌&&◌, ◌||◌, Option, none, some, List, [], ◌∷◌, ◌++◌, length, get_elem?, get_or, set, remove_at,
  if◌then◌else◌,
}
use vivace.Outcome.{Outcome, ok, err, ◌>>=◌, panic, out_of_fuel}
use vivace.Decisions.{Decisions, satisfy, conflict, decide, decision_level}
use vivace.Rule.{Rule, RuleSet, is_multi, is_assertion}

pub record RuleWatchNode : Type 0 where
  pub rule : ℕ
  pub watch1 : ℤ
  pub watch2 : ℤ

-- `rules.rules[id]`, which panics past the end.
unfoldable pub rule_at : RuleSet → ℕ → Outcome Rule
rule_at s id = elim (get_elem? s.rules id) [ none ↦ err panic | some r ↦ ok r ]

unfoldable pub new_node : RuleSet → ℕ → Outcome RuleWatchNode
unfolding rule_at
new_node s id = do
  r ← rule_at s id
  ok (record {
    rule = id;
    watch1 = get_or r.literals 0 (pos 0);
    watch2 = get_or r.literals 1 (pos 0);
  })

-- The loop of `watch2_on_highest` over the literals, from the watch and the level so far.
unfoldable pub highest : Decisions → List ℤ → ℤ → ℤ → ℤ
highest d [] watch2 watch_level = watch2
highest d (l ∷ ls) watch2 watch_level =
    let higher = ltb_ℤ watch_level (decision_level d l) in
    highest d ls (if higher then l else watch2) (if higher then decision_level d l else watch_level)

unfoldable pub watch2_on_highest : RuleSet → Decisions → RuleWatchNode → Outcome RuleWatchNode
unfolding highest
watch2_on_highest s d node = do
  r ← rule_at s node.rule
  ok (
      if ltb (length r.literals) 3 || is_multi r
      then node
      else record node { watch2 = highest d r.literals node.watch2 (pos 0) })

unfoldable pub other_watch : RuleWatchNode → ℤ → ℤ
other_watch node literal = if eqb_ℤ node.watch1 literal then node.watch2 else node.watch1

unfoldable pub node_move_watch : RuleWatchNode → ℤ → ℤ → RuleWatchNode
node_move_watch node from to =
    if eqb_ℤ node.watch1 from then record node { watch1 = to } else record node { watch2 = to }

-- `chains` is a hash map from literals, as a function; a chain has its head first.
pub record RuleWatchGraph : Type 0 where
  pub nodes : List RuleWatchNode
  pub chains : ℤ → Option (List ℕ)

unfoldable pub new_graph : RuleWatchGraph
new_graph = record { nodes = []; chains = λ _. none }

abbrev pub or_default : Option (List ℕ) → List ℕ
or_default none = []
or_default (some c) = c

-- The chain of a literal, empty where the map has none.
abbrev pub chain : RuleWatchGraph → ℤ → List ℕ
chain g l = or_default (g.chains l)

abbrev pub update : (ℤ → Option (List ℕ)) → ℤ → Option (List ℕ) → ℤ → Option (List ℕ)
update chains l c k = if eqb_ℤ k l then c else chains k

-- `chains.entry(literal).or_default().push_front(node_id)`.
abbrev pub push_front : (ℤ → Option (List ℕ)) → ℤ → ℕ → ℤ → Option (List ℕ)
push_front chains l node_id = update chains l (some (node_id ∷ or_default (chains l)))

unfoldable pub push_all : (ℤ → Option (List ℕ)) → List ℤ → ℕ → ℤ → Option (List ℕ)
push_all chains [] node_id = chains
push_all chains (l ∷ ls) node_id = push_all (push_front chains l node_id) ls node_id

abbrev pub watched : Rule → RuleWatchNode → List ℤ
watched r node = if is_multi r then r.literals else node.watch1 ∷ node.watch2 ∷ []

-- `insert`: nothing for an assertion.
unfoldable pub insert : RuleWatchGraph → RuleSet → RuleWatchNode → Outcome RuleWatchGraph
unfolding push_all
insert g s node = do
  r ← rule_at s node.rule
  ok (
      if is_assertion r then g else record {
        nodes = g.nodes ++ node ∷ [];
        chains = push_all g.chains (watched r node) (length g.nodes);
      })

abbrev pub remove_from : Option (List ℕ) → ℕ → Option (List ℕ)
remove_from none cursor = none
remove_from (some c) cursor = some (remove_at c cursor)

-- `move_watch`: the node leaves the chain of `from` at the cursor, and heads the chain of `to`.
unfoldable pub move_watch : RuleWatchGraph → ℤ → ℤ → ℕ → ℕ → Outcome RuleWatchGraph
unfolding node_move_watch
move_watch g from to node_id cursor = elim (get_elem? g.nodes node_id) [
  | none ↦ err panic
  | some node ↦ ok (record {
    nodes = set g.nodes node_id (node_move_watch node from to);
    chains = push_front (update g.chains from (remove_from (g.chains from) cursor)) to node_id;
  })
]

-- The first literal besides the two watched ones that does not conflict.
unfoldable pub alternative : Decisions → ℤ → ℤ → List ℤ → Option ℤ
alternative d literal other [] = none
alternative d literal other (l ∷ ls) =
    if not (eqb_ℤ l literal) && (not (eqb_ℤ l other) && not (conflict d l))
    then some l
    else alternative d literal other ls

-- The loop over the literals of a conflict of many: the decisions, and whether one conflicts.
unfoldable pub propagate_multi : Decisions → ℤ → ℤ → ℕ → List ℤ → Outcome (Decisions × Bool)
propagate_multi d literal level rule_id [] = ok (d, false)
propagate_multi d literal level rule_id (other ∷ others) =
    elim (not (eqb_ℤ literal other) && not (satisfy d other)) [
      | false ↦ propagate_multi d literal level rule_id others
      | true ↦ elim (conflict d other) [
        | true ↦ ok (d, true)
        | false ↦
            decide d other level rule_id >>= λ d'. propagate_multi d' literal level rule_id others
      ]
    ]

-- What one round of the loop of `propagate_literal` decides to do.
pub data Round : Type 0 where
  -- the node at the cursor moves to another chain; the cursor stays
  moves : (to : ℤ) → Round
  -- the cursor goes on, with these decisions
  passes : Decisions → Round
  -- the rule at the cursor conflicts, with these decisions
  conflicts : Decisions → Round

-- The round for a rule of two watches.
unfoldable pub round_watched : Decisions → ℤ → ℤ → ℕ → Rule → RuleWatchNode → Outcome Round
unfolding alternative other_watch
round_watched d literal level rule_id r node =
    let other = other_watch node literal in
    if not r.disabled && not (satisfy d other)
    then (elim (alternative d literal other r.literals) [
      | some l ↦ ok (moves l)
      | none ↦
          if conflict d other
          then ok (conflicts d)
          else (decide d other level rule_id >>= λ d'. ok (passes d'))
    ])
    else ok (passes d)

unfoldable pub round : Decisions → ℤ → ℤ → ℕ → Rule → RuleWatchNode → Outcome Round
unfolding round_watched propagate_multi
round d literal level rule_id r node =
    if is_multi r
    then (propagate_multi d literal level rule_id r.literals >>= λ p.
        ok (if p.1 then conflicts p.0 else passes p.0))
    else round_watched d literal level rule_id r node

pub record Propagated : Type 0 where
  pub graph : RuleWatchGraph
  pub decisions : Decisions
  -- the conflicting rule, if any
  pub conflicting : Option ℕ

-- The loop of `propagate_literal`. Each round moves the cursor on or takes a node off the chain, so
-- that fuel above the chain's length behind the cursor is enough.
unfoldable pub propagate_loop :
    ℕ → RuleSet → ℤ → ℤ → ℕ → RuleWatchGraph → Decisions → Outcome Propagated
unfolding round move_watch rule_at
propagate_loop zero s literal level cursor g d = err out_of_fuel
propagate_loop (suc fuel) s literal level cursor g d = elim (get_elem? (chain g literal) cursor) [
  | none ↦ ok (record { graph = g; decisions = d; conflicting = none })
  | some node_id ↦ elim (get_elem? g.nodes node_id) [
    | none ↦ err panic
    | some node ↦ rule_at s node.rule >>= λ r. round d literal level node.rule r node >>= λ step.
        elim step [
          | moves to ↦ move_watch g literal to node_id cursor >>= λ g'.
              propagate_loop fuel s literal level cursor g' d
          | passes d' ↦ propagate_loop fuel s literal level (suc cursor) g d'
          | conflicts d' ↦ ok (record { graph = g; decisions = d'; conflicting = some node.rule })
        ]
  ]
]

-- `propagate_literal`: the loop over the chain of the decided literal's negation.
unfoldable pub propagate_literal : RuleSet → ℤ → ℤ → RuleWatchGraph → Decisions → Outcome Propagated
unfolding propagate_loop
propagate_literal s decided_literal level g d = elim (g.chains (neg decided_literal)) [
  | none ↦ ok (record { graph = g; decisions = d; conflicting = none })
  | some c ↦ propagate_loop (suc (length c)) s (neg decided_literal) level 0 g d
]
