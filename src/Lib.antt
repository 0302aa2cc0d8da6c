-- ===== src/Lib.antt =====
-- A model of the dependency solver of vivace, a Rust port of Composer's resolver
-- (crates/vivacity-resolver), and the theorems that make it correct.
--
-- The solver is a CDCL SAT solver: packages of a pool are numbered from 1, a literal is a package
-- number or its negation, a rule is a list of literals. The files follow the source's:
--
-- - Common: numbers, integers, lists, sorting, options. Integers (`i64` in the source) are
--   unbounded here: literals and levels are package numbers and tree depths, and a package's
--   weight counts chains of users.
-- - Outcome: results of fallible code. `SolverBug` messages and panics are the constructors of
--   `Fault`; `err panic` is an index out of range.
-- - PhpVer (crates/vivacity-resolver/src/phpver.rs): PHP's version comparison, on strings as lists
--   of bytes. PhpVer/Canonical is about the fast path, PhpVer/Order about exchanged arguments and
--   the depth of the recursion.
-- - Constraint (crates/vivacity-resolver/src/constraint.rs): constraint trees and how they match;
--   the link of crates/vivacity-resolver/src/package.rs. Constraint/Matching has the value of a
--   tree for a version, Constraint/Bounds the order of bounds.
-- - Rule (crates/vivacity-resolver/src/rule.rs): reasons, rules, the rule set. Rule/Index is the
--   rule set's invariant, with Rule/Keys for the keys of the stored rules, Rule/Literals the
--   constructors.
-- - Decisions (crates/vivacity-resolver/src/decisions.rs): the decision map and queue.
--   Decisions/Laws has what the operations do to each other, Decisions/Trail the invariant of
--   reachable states, Decisions/Faults what `decide` refuses.
-- - Watch (crates/vivacity-resolver/src/watch.rs): watched literals. Watch/Semantics gives rules
--   their meaning under an assignment, Watch/Invariant and Watch/Insert the graph's indices,
--   Watch/Exact what each chain holds,
--   Watch/Rounds and Watch/Propagate the propagation of one decision, and Watch/Derives the
--   decisions that rules force.
-- - RulesGen (crates/vivacity-resolver/src/rules_gen.rs): the rules for a request, over an
--   interface to the pool, the filter of platform requirements and the request. RulesGen/Requires
--   says what the rules for a package's requirements mean.
-- - Problem (crates/vivacity-resolver/src/solver.rs, 17-97): the report of an unsolvable request,
--   in sections.
-- - Solver (crates/vivacity-resolver/src/solver.rs): the state with `propagate` and `revert`;
--   Solver/Assertions has `make_assertion_rule_decisions`, Solver/Analyze `analyze`,
--   Solver/Unsolvable `analyze_unsolvable`, Solver/Search `set_propagate_learn`,
--   `select_and_install` and `run_sat`. Solver/Propagation, Solver/Revert, Solver/Firm with the
--   files under it and those under Solver/Analyze are proofs; Solver/Firm has the invariant of the
--   decisions that takes propagation to conflict analysis.
-- - PathUtil (crates/vivacity-core/src/pathutil.rs): `normalize_path`, `common_path` and
--   `find_shortest_path`, on paths of Unix as lists of bytes; PathUtil/Code has
--   `find_shortest_path_code`, `php_str` and the quoting of
--   crates/vivacity-autoload/src/pathutil.rs. PathUtil/Resolving and PathUtil/Prefixes say which
--   place a path names, PathUtil/Normal what a normalized path is, PathUtil/Climbing is about
--   `common_path`, PathUtil/Texts, PathUtil/Steps and PathUtil/Shortest about the shortest path,
--   PathUtil/Code/Quoted about `php_str`, PathUtil/Code/Patterns about `preg_quote`.
-- - NatSort (crates/vivacity-autoload/src/natsort.rs): `strnatcasecmp`. NatSort/Order is about
--   exchanged arguments, NatSort/Numbers about the numbers in names, NatSort/Fuel about the loop.
-- - Sorter (crates/vivacity-autoload/src/sorter.rs): `sort_packages`. Sorter/Weights is about the
--   weights, Sorter/Ordered about the order.
--
-- A vector is a list; a hash map from literals is a function, one from rules an association list
-- with the newest entry first. A mutable object is a state that the operations take and return.
-- Rules are ids in the rule set, as in the source.
--
-- Loops: `propagate_literal` has fuel for the chain that it walks, which a move shortens;
-- `propagate` for the places of the pool, since the queue holds a package once; `reset_to_offset`
-- and `revert` for the queue's length. In these it is enough. `analyze` has the queue's length.
-- `common_path` has fuel for the length of the path, `strnatcasecmp` for the two strings', and
-- `importance` for the number of packages.
-- `matches` has fuel for the sizes of its two constraints, `compare_canonical` the depth 2, since a
-- call goes into a member or exchanges the two, and a nested call has one component on each side.
-- The fuel of `run_sat` and of `learn_rounds` is a parameter: their rounds end because learning
-- makes progress, which is not shown. So is that of the rule generator's queue, which ends because
-- the pool is finite.
--
-- Examples has a small request on which the theorems are used, Examples/Claims, Examples/Steady,
-- Examples/Versions, Examples/Paths, Examples/Sorted and Examples/Generated the uses.
--
-- Parameters: what the rule generator asks of the pool, the filter and the request,
-- `select_preferred_packages`, the policy's choice among candidates, and `name_of`, the name of a
-- package in the arena.
--
-- Not modelled: the building of the pool, the parsing of versions and constraints, the merging and
-- printing of constraints, lock files, repositories, downloads, the autoloader's generator, what
-- `canonicalize` asks of the file system, the solver's two checks that report packages removed by a
-- filter list and unmet root requirements (solver.rs, 207-251) and the `solve` around them, and the
-- command line. `name_of` is total, where the source panics on a package outside the arena.
pub mod Common
pub mod Outcome
pub mod PhpVer
pub mod NatSort
pub mod PathUtil
pub mod Sorter
pub mod Constraint
pub mod Rule
pub mod Decisions
pub mod Watch
pub mod RulesGen
pub mod Problem
pub mod Solver
pub mod Examples
