-- ===== src/RulesGen/Requires.antt =====
-- What the rules for the requirements of a package mean.
use vivace.Common.{
  ℕ, ◌≤◌, ==_iff, ℤ, pos, neg, Bool, true, false, not, ◌&&◌, ◌||◌, ◌≡◌, ◌↔◌, ◌∙◌, sym, ap, subst,
  List, [], ◌∷◌, ◌++◌, get_elem?, get_elem?-append, get_elem?-snoc, get_elem?-snoc_inv, mem, length,
  insert_sorted, sort_unstable, Bool-cases, and-true, arith, inl, inr, refl,
}
use vivace.PhpVer.{Bytes}
use vivace.Constraint.{Constraint, Link}
use vivace.Rule.{
  Rule, RuleSet, RuleType, type_package, Reason, add, contains_key, key_of, new_generic,
}
use vivace.Rule.Index.{stored}
use vivace.Watch.Semantics.{Assignment, lit_true, some_true, Holds, AllHold}
use vivace.RulesGen.{
  RuleSetGenerator, Pool, Filter, positives, create_require_rule, add_rule, add_requires,
}

-- One of these packages is installed.
abbrev pub any_of : Assignment → List ℕ → Bool
any_of a [] = false
any_of a (p ∷ ps) = a p || any_of a ps

-- Ids of packages start at 1.
abbrev pub AllIds : List ℕ → Type 0
AllIds [] = Unit
AllIds (p ∷ ps) = (1 ≤ p) × AllIds ps

-- The requirement is ignored, or whoever installs the package installs a provider.
abbrev pub is_met : Pool → Filter → Assignment → ℕ → Link → Bool
is_met pool filter a id link =
    filter.is_ignored link.target
    || (not (a id)
        || any_of a (
            pool.what_provides link.target
              (filter.filter_constraint link.target link.constraint true)))

abbrev pub all_met : Pool → Filter → Assignment → ℕ → List Link → Bool
all_met pool filter a id [] = true
all_met pool filter a id (link ∷ links) =
    is_met pool filter a id link && all_met pool filter a id links

some_true-positives :
    (a : Assignment) (ps : List ℕ) → AllIds ps → some_true a (positives ps) ≡ any_of a ps
some_true-positives a [] h = refl
some_true-positives a (p ∷ ps) h = ground (arith, h.0, some_true-positives a ps h.1)

any_of-mem :
    (a : Assignment) (id : ℕ) (ps : List ℕ) → mem id ps ≡ true → a id ≡ true → any_of a ps ≡ true
any_of-mem a id [] h k = cc
any_of-mem a id (p ∷ ps) h k = ground (arith, ==_iff id p, any_of-mem a id ps, k)

some_true-insert_sorted :
    (a : Assignment) (l : ℤ) (ls : List ℤ)
    → some_true a (insert_sorted l ls) ≡ (lit_true a l || some_true a ls)
some_true-insert_sorted a l [] = refl
some_true-insert_sorted a l (x ∷ ls) = ground (arith, some_true-insert_sorted a l ls)

some_true-sort_unstable :
    (a : Assignment) (ls : List ℤ) → some_true a (sort_unstable ls) ≡ some_true a ls
unfolding sort_unstable
some_true-sort_unstable a [] = refl
some_true-sort_unstable a (l ∷ ls) =
    some_true-insert_sorted a l (sort_unstable ls)
    ∙ ap (λ b. lit_true a l || b) (some_true-sort_unstable a ls)

-- The rule for a requirement says that the package is missing or a provider is installed.
some_true-new_generic :
    (a : Assignment) (id : ℕ) (ps : List ℕ) (reason : Reason)
    → 1 ≤ id
    → AllIds ps
    → some_true a (new_generic (neg (pos id) ∷ positives ps) reason).literals
      ≡ (not (a id) || any_of a ps)
unfolding new_generic
some_true-new_generic a id ps reason h k =
    some_true-sort_unstable a (neg (pos id) ∷ positives ps)
    ∙ ap (λ b. lit_true a (neg (pos id)) || b) (some_true-positives a ps k)
    ∙ ap (λ b. b || any_of a ps) (missing h)
  where
    missing : 1 ≤ id → lit_true a (neg (pos id)) ≡ not (a id)
    missing h = ground (arith, h)

rules-add :
    (s : RuleSet) (rule : Rule) (t : RuleType)
    → (add s rule t).0.rules ≡ s.rules ++ stored s rule t ∷ []
unfolding add
rules-add s rule t = elim (Bool-cases (contains_key (key_of rule) s.keys)) [
  | inl old ↦ ground (arith, old)
  | inr new ↦ ground (arith, new)
]

AllHold-snoc :
    (a : Assignment) (s : RuleSet) (r : Rule) (t : RuleSet)
    → t.rules ≡ s.rules ++ r ∷ []
    → AllHold a t ↔ (AllHold a s × Holds a r)
AllHold-snoc a s r t e = (
  λ all. (
    λ i x at. all i x (ap (λ rs. get_elem? rs i) e ∙ get_elem?-append s.rules (r ∷ []) i at),
    all (length s.rules) r (ap (λ rs. get_elem? rs (length s.rules)) e ∙ get_elem?-snoc s.rules r),
  ),
  λ both i x at. elim (get_elem?-snoc_inv s.rules r i (sym (ap (λ rs. get_elem? rs i) e) ∙ at)) [
    | inl (below, old) ↦ both.0 i x old
    | inr (last_one, own) ↦ subst (Holds a) own both.1
  ],
)

-- A generic rule that is enabled holds when one of its literals is true.
Holds-stored :
    (a : Assignment) (s : RuleSet) (literals : List ℤ) (reason : Reason)
    → Holds a (stored s (new_generic literals reason) type_package)
      ↔ (some_true a (new_generic literals reason).literals ≡ true)
unfolding new_generic
Holds-stored a s literals reason =
    elim (Bool-cases (contains_key (key_of (new_generic literals reason)) s.keys)) [
      | inl old ↦
          rw old (λ h. h.clause refl refl, λ t. record { clause = λ m d. t; multi = λ m. cc })
      | inr new ↦
          rw new (λ h. h.clause refl refl, λ t. record { clause = λ m d. t; multi = λ m. cc })
    ]

-- After the rule for a requirement was made and added.
AllHold-add_rule :
    (a : Assignment) (g : RuleSetGenerator) (id : ℕ) (ps : List ℕ) (reason : Reason)
    → 1 ≤ id
    → AllIds ps
    → AllHold a (add_rule g type_package (create_require_rule id ps reason)).rules
      ↔ (AllHold a g.rules × ((not (a id) || any_of a ps) ≡ true))
unfolding create_require_rule
AllHold-add_rule a g id ps reason h k = elim (Bool-cases (mem id ps)) [
  | inl own ↦ rw own (λ all. (all, itself own), λ both. both.0)
  | inr other ↦
      let literals = neg (pos id) ∷ positives ps in
      let rule = new_generic literals reason in
      let says = some_true-new_generic a id ps reason h k in
      let grown =
        AllHold-snoc a g.rules (stored g.rules rule type_package) (add g.rules rule type_package).0
          (rules-add g.rules rule type_package) in
      let meaning = Holds-stored a g.rules literals reason in
      rw other (
        λ all. let both = grown.0 all in (both.0, sym says ∙ meaning.0 both.1),
        λ both. grown.1 (both.0, meaning.1 (says ∙ both.1)),
      )
]
  where
    itself : mem id ps ≡ true → (not (a id) || any_of a ps) ≡ true
    itself own = ground (arith, any_of-mem a id ps own)

-- The rules that `add_requires` makes for a package with an id from 1, where the pool answers with
-- such ids, mean what the requirements ask: they and the rules before them hold under exactly those
-- assignments under which the rules before hold and every requirement is ignored by the filter, or
-- the package is not installed, or one of the requirement's providers is.
pub AllHold-add_requires :
    (pool : Pool) (filter : Filter) (a : Assignment) (id : ℕ) (g : RuleSetGenerator)
    (links : List Link)
    → 1 ≤ id
    → ((name : Bytes) (c : Constraint) → AllIds (pool.what_provides name c))
    → AllHold a (add_requires pool filter g id links).0.rules
      ↔ (AllHold a g.rules × (all_met pool filter a id links ≡ true))
unfolding add_requires
AllHold-add_requires pool filter a id g [] h k = (λ all. (all, refl), λ both. both.0)
AllHold-add_requires pool filter a id g (link ∷ links) h k =
    elim (Bool-cases (filter.is_ignored link.target)) [
      | inl skipped ↦ rw skipped (AllHold-add_requires pool filter a id g links h k)
      | inr asked ↦
          let ps =
            pool.what_provides link.target
              (filter.filter_constraint link.target link.constraint true) in
          let g' =
            add_rule g type_package (create_require_rule id ps (Reason.package_requires link)) in
          let rest = AllHold-add_requires pool filter a id g' links h k in
          let first =
            AllHold-add_rule a g id ps (Reason.package_requires link) h
              (k link.target (filter.filter_constraint link.target link.constraint true)) in
          rw asked (
            λ all.
                let (before, later) = rest.0 all in
                let (kept, met) = first.0 before in (kept, rw (met, later) refl),
            λ both.
                let (met, later) =
                  and-true (not (a id) || any_of a ps) (all_met pool filter a id links) both.1 in
                rest.1 (first.1 (both.0, met), later),
          )
    ]
