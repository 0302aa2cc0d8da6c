-- ===== src/RulesGen.antt =====
-- crates/vivacity-resolver/src/rules_gen.rs: the rules for a request. The pool, the filter of
-- platform requirements and the request are interfaces: what the generator asks of them.
pub mod Requires
use vivace.Common.{
  ℕ, zero, suc, ◌+◌, ◌==◌, ltb, ℤ, pos, neg, Bool, true, false, not, ◌&&◌, ◌||◌, Option, none, some,
  List, [], ◌∷◌, ◌++◌, length, mem, if◌then◌else◌,
}
use vivace.Outcome.{Outcome, ok, err, ◌>>=◌, panic, out_of_fuel, fixed_not_in_pool}
use vivace.PhpVer.{Bytes, eqb_bytes}
use vivace.Constraint.{Constraint, Link}
use vivace.Rule.{
  Rule, RuleSet, RuleType, type_package, type_request, Reason, add, empty, new_generic,
  new_two_literals, new_multi_conflict,
}

-- What the generator reads of a package; `names` is `names(false)`.
pub record Package : Type 0 where
  pub name : Bytes
  pub version : Bytes
  pub names : List Bytes
  pub requires : List Link
  pub conflicts : List Link
  pub alias_of : Option ℕ
  pub has_self_version_requires : Bool
  pub root_package_alias : Bool

abbrev pub is_alias_of : Option ℕ → Bool
is_alias_of none = false
is_alias_of (some base) = true

-- `arena` is `none` past the end.
pub record Pool : Type 0 where
  pub arena : ℕ → Option Package
  pub size : ℕ
  pub package_by_id : ℕ → ℕ
  pub id_of : ℕ → Option ℕ
  pub what_provides : Bytes → Constraint → List ℕ
  pub is_filter_list_removed : Bytes → Bytes → Bool
  pub is_unacceptable_fixed_or_locked : ℕ → Bool

pub record Filter : Type 0 where
  pub is_ignored : Bytes → Bool
  pub filter_constraint : Bytes → Constraint → Bool → Constraint

pub record Request : Type 0 where
  pub fixed_packages : List ℕ
  pub is_locked_package : ℕ → Bool
  pub requires : List (Bytes × Constraint)
  pub pretty_require : Bytes → Constraint → Bytes

-- `added` is a hash set; `added_by_name` goes with its index by name.
pub record RuleSetGenerator : Type 0 where
  pub rules : RuleSet
  pub added : List ℕ
  pub added_order : List ℕ
  pub added_by_name : List (Bytes × List ℕ)

unfoldable pub new : RuleSetGenerator
new = record { rules = empty; added = []; added_order = []; added_by_name = [] }

abbrev pub positives : List ℕ → List ℤ
positives [] = []
positives (p ∷ ps) = pos p ∷ positives ps

abbrev pub negatives : List ℕ → List ℤ
negatives [] = []
negatives (p ∷ ps) = neg (pos p) ∷ negatives ps

unfoldable pub create_require_rule : ℕ → List ℕ → Reason → Option Rule
create_require_rule id providers reason =
    if mem id providers
    then none
    else some (new_generic (neg (pos id) ∷ positives providers) reason)

abbrev pub add_to : RuleSetGenerator → RuleType → Rule → RuleSetGenerator
add_to g rule_type rule = record g { rules = (add g.rules rule rule_type).0 }

abbrev pub add_rule : RuleSetGenerator → RuleType → Option Rule → RuleSetGenerator
add_rule g rule_type none = g
add_rule g rule_type (some rule) = add_to g rule_type rule

abbrev pub add_by_name : List (Bytes × List ℕ) → Bytes → ℕ → List (Bytes × List ℕ)
add_by_name [] name id = (name, id ∷ []) ∷ []
add_by_name ((n, ids) ∷ m) name id =
    let rest = add_by_name m name id in
    if eqb_bytes n name then (n, ids ++ id ∷ []) ∷ m else (n, ids) ∷ rest

abbrev pub add_names : List (Bytes × List ℕ) → List Bytes → ℕ → List (Bytes × List ℕ)
add_names m [] id = m
add_names m (name ∷ names) id = add_names (add_by_name m name id) names id

abbrev pub has_name : List (Bytes × List ℕ) → Bytes → Bool
has_name [] name = false
has_name ((n, _) ∷ m) name = eqb_bytes n name || has_name m name

-- The rule for two packages of one name, or for more.
unfoldable pub same_name_rule : Bytes → List ℕ → Rule
same_name_rule name (i ∷ j ∷ []) =
    new_two_literals (neg (pos i)) (neg (pos j)) (Reason.package_same_name name)
same_name_rule name ids = new_multi_conflict (negatives ids) (Reason.package_same_name name)

unfoldable pub add_same_names : RuleSetGenerator → List (Bytes × List ℕ) → RuleSetGenerator
unfolding same_name_rule
add_same_names g [] = g
add_same_names g ((name, ids) ∷ m) =
    add_same_names
      (if ltb 1 (length ids) then add_to g type_package (same_name_rule name ids) else g) m

module _ (pool : Pool) (filter : Filter) where
  -- `self.arena[self.pool.package_by_id(id)]`.
  unfoldable pub package_of : ℕ → Outcome Package
  package_of id = elim (pool.arena (pool.package_by_id id)) [ none ↦ err panic | some p ↦ ok p ]

  -- The loop over the requirements of a package: with the packages to visit next.
  unfoldable pub add_requires : RuleSetGenerator → ℕ → List Link → RuleSetGenerator × List ℕ
  unfolding create_require_rule
  add_requires g id [] = (g, [])
  add_requires g id (link ∷ links) =
      let possible =
        pool.what_provides link.target
          (filter.filter_constraint link.target link.constraint true) in
      let ignored = filter.is_ignored link.target in
      let rule = create_require_rule id possible (Reason.package_requires link) in
      let rest = add_requires (if ignored then g else add_rule g type_package rule) id links in
      (rest.0, (if ignored then [] else possible) ++ rest.1)

  -- The visit of a package that was not added yet.
  unfoldable pub visit : RuleSetGenerator → ℕ → Package → Outcome (RuleSetGenerator × List ℕ)
  unfolding add_requires
  visit g id p = elim p.alias_of [
    | none ↦ ok (
        add_requires (record g { added_by_name = add_names g.added_by_name p.names id }) id
          p.requires)
    | some base_idx ↦ elim (pool.id_of base_idx) [
      | none ↦ err panic
      | some base ↦
          let to_base =
            create_require_rule id (base ∷ []) (Reason.package_alias (pool.package_by_id id)) in
          let from_base =
            create_require_rule base (id ∷ []) (Reason.package_inverse_alias base_idx) in
          let g' = add_rule (add_rule g type_package to_base) type_package from_base in
          let required =
            add_requires g' id (if p.has_self_version_requires then p.requires else []) in
          ok (required.0, base ∷ required.1)
    ]
  ]

  -- The loop of `add_rules_for_package` over its queue; the fuel bounds the queue's turns.
  unfoldable pub add_rules_for_packages : ℕ → RuleSetGenerator → List ℕ → Outcome RuleSetGenerator
  unfolding visit package_of
  add_rules_for_packages zero g queue = err out_of_fuel
  add_rules_for_packages (suc fuel) g [] = ok g
  add_rules_for_packages (suc fuel) g (id ∷ queue) = elim (mem id g.added) [
    | true ↦ add_rules_for_packages fuel g queue
    | false ↦ package_of id >>= λ p.
        visit (record g { added = id ∷ g.added; added_order = g.added_order ++ id ∷ [] }) id p
        >>= λ r. add_rules_for_packages fuel r.0 (queue ++ r.1)
  ]

  -- The packages that conflict with `id` by one link.
  unfoldable pub add_conflicts : RuleSetGenerator → ℕ → Link → List ℕ → Outcome RuleSetGenerator
  unfolding package_of
  add_conflicts g id link [] = ok g
  add_conflicts g id link (c ∷ cs) = package_of c >>= λ cp.
      add_conflicts
        (if (not (is_alias_of cp.alias_of) || eqb_bytes cp.name link.target) && not (c == id)
          then add_to g type_package
              (new_two_literals (neg (pos id)) (neg (pos c)) (Reason.package_conflict link))
          else g)
        id link cs

  unfoldable pub add_conflict_links : RuleSetGenerator → ℕ → List Link → Outcome RuleSetGenerator
  unfolding add_conflicts
  add_conflict_links g id [] = ok g
  add_conflict_links g id (link ∷ links) =
      add_conflicts g id link (
        if not (has_name g.added_by_name link.target) || filter.is_ignored link.target
        then []
        else pool.what_provides link.target
            (filter.filter_constraint link.target link.constraint false))
      >>= λ g'. add_conflict_links g' id links

  unfoldable pub add_conflicts_of : RuleSetGenerator → List ℕ → Outcome RuleSetGenerator
  unfolding add_conflict_links
  add_conflicts_of g [] = ok g
  add_conflicts_of g (id ∷ ids) =
      package_of id >>= λ p. add_conflict_links g id p.conflicts >>= λ g'. add_conflicts_of g' ids

  unfoldable pub add_conflict_rules : RuleSetGenerator → Outcome RuleSetGenerator
  unfolding add_conflicts_of add_same_names
  add_conflict_rules g =
      add_conflicts_of g g.added_order >>= λ g'. ok (add_same_names g' g'.added_by_name)

  abbrev pub removed : Option Package → Outcome Bool
  removed none = err panic
  removed (some p) = ok (pool.is_filter_list_removed p.name p.version)

  unfoldable pub add_fixed : ℕ → Request → RuleSetGenerator → List ℕ → Outcome RuleSetGenerator
  unfolding add_rules_for_packages
  add_fixed fuel request g [] = ok g
  add_fixed fuel request g (fixed ∷ more) =
      (if request.is_locked_package fixed then removed (pool.arena fixed) else ok false) >>= λ gone.
      elim gone [
        | true ↦ add_fixed fuel request g more
        | false ↦ elim (pool.id_of fixed) [
          | none ↦ elim (pool.is_unacceptable_fixed_or_locked fixed) [
            | true ↦ add_fixed fuel request g more
            | false ↦ err (fixed_not_in_pool fixed)
          ]
          | some id ↦ add_rules_for_packages fuel g (id ∷ []) >>= λ g'.
              add_fixed fuel request
                (add_to g' type_request (new_generic (pos id ∷ []) (Reason.fixed fixed))) more
        ]
      ]

  -- `add_rules_for_package` for each of the packages in turn.
  unfoldable pub add_each : ℕ → RuleSetGenerator → List ℕ → Outcome RuleSetGenerator
  unfolding add_rules_for_packages
  add_each fuel g [] = ok g
  add_each fuel g (p ∷ ps) = add_rules_for_packages fuel g (p ∷ []) >>= λ g'. add_each fuel g' ps

  unfoldable pub add_required :
      ℕ → Request → RuleSetGenerator → List (Bytes × Constraint) → Outcome RuleSetGenerator
  unfolding add_each
  add_required fuel request g [] = ok g
  add_required fuel request g ((name, c) ∷ more) =
      let constraint = filter.filter_constraint name c true in
      let packages = pool.what_provides name constraint in
      elim (filter.is_ignored name || (length packages == 0)) [
        | true ↦ add_required fuel request g more
        | false ↦ add_each fuel g packages >>= λ g'.
            add_required fuel request
              (add_to g' type_request (
                new_generic (positives packages)
                  (Reason.root_require name constraint (request.pretty_require name constraint))))
              more
      ]

  unfoldable pub add_rules_for_request : ℕ → Request → RuleSetGenerator → Outcome RuleSetGenerator
  unfolding add_fixed add_required
  add_rules_for_request fuel request g = add_fixed fuel request g request.fixed_packages >>= λ g'.
      add_required fuel request g' request.requires

  abbrev pub id_added : RuleSetGenerator → Option ℕ → Bool
  id_added g none = false
  id_added g (some b) = mem b g.added

  abbrev pub base_added : RuleSetGenerator → Option ℕ → Bool
  base_added g none = false
  base_added g (some base_idx) = id_added g (pool.id_of base_idx)

  -- The loop over the pool, from `id`, with `left` places to go.
  unfoldable pub add_root_aliases : ℕ → RuleSetGenerator → ℕ → ℕ → Outcome RuleSetGenerator
  unfolding add_each
  add_root_aliases fuel g id zero = ok g
  add_root_aliases fuel g id (suc left) = elim (mem id g.added) [
    | true ↦ add_root_aliases fuel g (id + 1) left
    | false ↦ package_of id >>= λ p.
        add_each fuel g (
          if is_alias_of p.alias_of && (p.root_package_alias || base_added g p.alias_of)
          then id ∷ []
          else [])
        >>= λ g'. add_root_aliases fuel g' (id + 1) left
  ]

  unfoldable pub rules_for : ℕ → Request → Outcome RuleSet
  unfolding add_rules_for_request add_root_aliases add_conflict_rules
  rules_for fuel request = add_rules_for_request fuel request new >>= λ g1.
      add_root_aliases fuel g1 1 pool.size >>= λ g2. add_conflict_rules g2 >>= λ g3. ok g3.rules
