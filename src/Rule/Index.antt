-- ===== src/Rule/Index.antt =====
-- The indices of the rule set, as an invariant that `add` keeps: the hash map holds the keys of the
-- registered rules, no two of which are identical, and the lists by type part them: a registered rule
-- stands once in the list of its type and in no other.
use vivace.Common.{
  ℕ, ◌+◌, ◌≤◌, true, false, not, ◌||◌, ◌≡◌, refl, sym, ap, ◌∙◌, some, List, [], ◌∷◌, ◌++◌, length,
  length-append, get_elem?, get_elem?-append, get_elem?-snoc, if◌then◌else◌, arith, Bool-cases, inl,
  inr, count, count-snoc, mem, mem-append, ◌==◌, ==_iff, ◌⊎◌,
}
use vivace.Rule.{
  Rule, RuleType, type_package, type_request, type_learned, RuleKey, RuleSet, empty, eqb_key,
  key_of, contains_key, push_of_type, add, len,
}
use vivace.Rule.Keys.{
  key_at, registered, AllBelow, NoTwins, eqb_key_iff, AllBelow-weaken, AllBelow-snoc,
  registered-append, registered-snoc, NoTwins-append, NoTwins-snoc, count-AllBelow,
}

-- The list of a type.
abbrev pub of_type : RuleType → RuleSet → List ℕ
of_type type_package s = s.packages
of_type type_request s = s.requests
of_type type_learned s = s.learneds

-- The stored rule `id` has this type.
abbrev pub HasType : List Rule → ℕ → RuleType → Type 0
HasType rules id t = (r : Rule) × (get_elem? rules id ≡ some r) × (r.rule_type ≡ some t)

pub record IsIndexed (s : RuleSet) : Type 0 where
  pub below : AllBelow (length s.rules) s.rule_by_id
  pub keyed : (k : RuleKey) → contains_key k s.keys ≡ registered s.rules s.rule_by_id k
  pub no_twins : NoTwins s.rules s.rule_by_id
  -- every id is as often in the lists by type together as it is registered, which is once at most
  pub parted :
      (id : ℕ)
      → count id s.packages + count id s.requests + count id s.learneds ≡ count id s.rule_by_id
  pub once : (id : ℕ) → count id s.rule_by_id ≤ 1
  pub typed : (t : RuleType) (id : ℕ) → mem id (of_type t s) ≡ true → HasType s.rules id t

-- The rule that is stored for `rule`: with its type, if it is registered.
abbrev pub stored : RuleSet → Rule → RuleType → Rule
stored s rule t =
    if contains_key (key_of rule) s.keys then rule else record rule { rule_type = some t }

-- `add` stores the rule behind the others, with its literals, and changes none of them. On a rule
-- set whose indices are in order it registers the rule exactly if no registered rule has the same
-- kind and literals, and the number of registered rules grows by one exactly then.
pub add_lem :
    (s : RuleSet) (rule : Rule) (t : RuleType)
    → IsIndexed s
    → ((add s rule t).1.0 ≡ length s.rules)
      × ((add s rule t).0.rules ≡ s.rules ++ stored s rule t ∷ [])
      × ((add s rule t).1.1 ≡ not (registered s.rules s.rule_by_id (key_of rule)))
      × (len (add s rule t).0 ≡ len s + (if (add s rule t).1.1 then 1 else 0))
unfolding add len
add_lem s rule t x = elim (Bool-cases (contains_key (key_of rule) s.keys)) [
  | inl old ↦ ground (arith, old, x.keyed (key_of rule))
  | inr new ↦
      ground (arith, new, x.keyed (key_of rule), length-append s.rule_by_id (length s.rules ∷ []))
]

pub empty-IsIndexed : IsIndexed empty
unfolding empty
empty-IsIndexed = record {
  below = tt;
  keyed = λ k. refl;
  no_twins = tt;
  parted = λ id. refl;
  once = λ id. omega arith;
  typed = λ t id m. absurd (nothing t id m);
}
  where
    nothing : (t : RuleType) (id : ℕ) → mem id (of_type t empty) ≡ true → ⊥
    nothing type_package id m = cc
    nothing type_request id m = cc
    nothing type_learned id m = cc

HasType-append :
    (rules more : List Rule) (id : ℕ) (t : RuleType)
    → HasType rules id t
    → HasType (rules ++ more) id t
HasType-append rules more id t (r, at, own) = (r, get_elem?-append rules more id at, own)

-- The invariant after a rule was registered, the lists by type apart.
module _ (s : RuleSet) (rule stored_rule : Rule) (x : IsIndexed s)
    (same : key_of stored_rule ≡ key_of rule)
    (fresh : contains_key (key_of rule) s.keys ≡ false) where
  rules : List Rule
  rules = s.rules ++ stored_rule ∷ []

  key_at_new : (k : RuleKey) → key_at rules (length s.rules) k ≡ eqb_key k (key_of rule)
  unfolding rules
  key_at_new k = ground (arith, get_elem?-snoc s.rules stored_rule, same)

  new_below : AllBelow (length rules) (s.rule_by_id ++ length s.rules ∷ [])
  unfolding rules
  new_below =
      let grown = length-append s.rules (stored_rule ∷ []) in
      AllBelow-snoc (length rules) s.rule_by_id (length s.rules)
        (AllBelow-weaken (length s.rules) (length rules) s.rule_by_id (omega arith) x.below)
        (omega arith)

  new_keyed :
      (k : RuleKey)
      → (eqb_key k (key_of rule) || contains_key k s.keys)
        ≡ registered rules (s.rule_by_id ++ length s.rules ∷ []) k
  new_keyed k = sym (
      registered-snoc rules s.rule_by_id (length s.rules) k
      ∙ ap (λ b. b || registered rules s.rule_by_id k) (key_at_new k)
      ∙ ap (λ b. eqb_key k (key_of rule) || b) (kept ∙ sym (x.keyed k)))
    where
      kept : registered rules s.rule_by_id k ≡ registered s.rules s.rule_by_id k
      kept = unfold rules in registered-append s.rules (stored_rule ∷ []) s.rule_by_id k x.below

  new-NoTwins : NoTwins rules (s.rule_by_id ++ length s.rules ∷ [])
  unfolding rules
  new-NoTwins =
      NoTwins-snoc rules s.rule_by_id (length s.rules)
        (λ k e.
          let q : k ≡ key_of rule = (eqb_key_iff k (key_of rule)).0 (sym (key_at_new k) ∙ e) in
          registered-append s.rules (stored_rule ∷ []) s.rule_by_id k x.below
          ∙ sym (x.keyed k)
          ∙ ap (λ j. contains_key j s.keys) q
          ∙ fresh)
        (NoTwins-append s.rules (stored_rule ∷ []) s.rule_by_id x.below x.no_twins)

-- One of the lists by type takes the new rule: the other ids stay where they were.
count-push_of_type :
    (t : RuleType) (id : ℕ) (u : RuleSet) (k : ℕ)
    → count k (push_of_type t id u).packages
        + count k (push_of_type t id u).requests
        + count k (push_of_type t id u).learneds
      ≡ count k u.packages + count k u.requests + count k u.learneds + (if k == id then 1 else 0)
count-push_of_type type_package id u k = omega (arith, count-snoc k u.packages id)
count-push_of_type type_request id u k = omega (arith, count-snoc k u.requests id)
count-push_of_type type_learned id u k = omega (arith, count-snoc k u.learneds id)

mem-push_of_type :
    (t : RuleType) (id : ℕ) (u : RuleSet) (v : RuleType) (k : ℕ)
    → mem k (of_type v (push_of_type t id u)) ≡ true
    → ((v ≡ t) × (k ≡ id)) ⊎ (mem k (of_type v u) ≡ true)
mem-push_of_type type_package id u type_package k m =
    ground (arith, m, mem-append k u.packages (id ∷ []), ==_iff k id)
mem-push_of_type type_request id u type_request k m =
    ground (arith, m, mem-append k u.requests (id ∷ []), ==_iff k id)
mem-push_of_type type_learned id u type_learned k m =
    ground (arith, m, mem-append k u.learneds (id ∷ []), ==_iff k id)
mem-push_of_type type_package id u type_request k m = inr m
mem-push_of_type type_package id u type_learned k m = inr m
mem-push_of_type type_request id u type_package k m = inr m
mem-push_of_type type_request id u type_learned k m = inr m
mem-push_of_type type_learned id u type_package k m = inr m
mem-push_of_type type_learned id u type_request k m = inr m

-- The parts of a rule set that a list by type does not change.
kept_parts :
    (t : RuleType) (id : ℕ) (u : RuleSet)
    → ((push_of_type t id u).rules ≡ u.rules)
      × ((push_of_type t id u).rule_by_id ≡ u.rule_by_id)
      × ((push_of_type t id u).keys ≡ u.keys)
kept_parts type_package id u = (refl, refl, refl)
kept_parts type_request id u = (refl, refl, refl)
kept_parts type_learned id u = (refl, refl, refl)

push_of_type-IsIndexed :
    (t : RuleType) (id : ℕ) (u : RuleSet)
    → AllBelow (length u.rules) u.rule_by_id
    → ((k : RuleKey) → contains_key k u.keys ≡ registered u.rules u.rule_by_id k)
    → NoTwins u.rules u.rule_by_id
    → ((k : ℕ)
        → count k u.packages + count k u.requests + count k u.learneds + (if k == id then 1 else 0)
          ≡ count k u.rule_by_id)
    → ((k : ℕ) → count k u.rule_by_id ≤ 1)
    → ((v : RuleType) (k : ℕ) → mem k (of_type v u) ≡ true → HasType u.rules k v)
    → HasType u.rules id t
    → IsIndexed (push_of_type t id u)
push_of_type-IsIndexed t id u b k n c o h own =
    let (same_rules, same_ids, same_keys) = kept_parts t id u in
    record {
      below = rw (same_rules, same_ids) b;
      keyed = λ x. rw (same_rules, same_ids, same_keys) (k x);
      no_twins = rw (same_rules, same_ids) n;
      parted = λ x. count-push_of_type t id u x ∙ c x ∙ ap (count x) (sym same_ids);
      once = λ x. rw same_ids (o x);
      typed = λ v x m. rw same_rules (elim (mem-push_of_type t id u v x m) [
        | inl (e, f) ↦ rw (e, f) own
        | inr old ↦ h v x old
      ]);
    }

-- The lists by type do not depend on the other parts.
of_type_kept :
    (v : RuleType) (s : RuleSet) (rs : List Rule) (ids : List ℕ) (ks : List (RuleKey × ℕ)) (k : ℕ)
    → mem k (of_type v (record s { rules = rs; rule_by_id = ids; keys = ks })) ≡ true
    → mem k (of_type v s) ≡ true
of_type_kept type_package s rs ids ks k m = m
of_type_kept type_request s rs ids ks k m = m
of_type_kept type_learned s rs ids ks k m = m

-- `add` keeps the indices in order, for a duplicate too: the hash map holds exactly the keys of the
-- registered rules, no two of those are identical, and every registered rule stands exactly once in
-- the lists by type, in the list of the type that it is stored with.
pub add-IsIndexed :
    (s : RuleSet) (rule : Rule) (t : RuleType) → IsIndexed s → IsIndexed (add s rule t).0
unfolding add rules
add-IsIndexed s rule t x = elim (Bool-cases (contains_key (key_of rule) s.keys)) [
  | inl old ↦ rw old (record {
    below =
        AllBelow-weaken (length s.rules) (length (s.rules ++ rule ∷ [])) s.rule_by_id
          (omega (arith, length-append s.rules (rule ∷ []))) x.below;
    keyed = λ k. x.keyed k ∙ sym (registered-append s.rules (rule ∷ []) s.rule_by_id k x.below);
    no_twins = NoTwins-append s.rules (rule ∷ []) s.rule_by_id x.below x.no_twins;
    parted = x.parted;
    once = x.once;
    typed = λ v k m.
        HasType-append s.rules (rule ∷ []) k v
          (x.typed v k (of_type_kept v s (s.rules ++ rule ∷ []) s.rule_by_id s.keys k m));
  })
  | inr new ↦ rw new (
      let r : Rule = record rule { rule_type = some t } in
      push_of_type-IsIndexed t (length s.rules) _ (new_below s rule r x refl new)
        (new_keyed s rule r x refl new) (new-NoTwins s rule r x refl new)
        (λ k. omega (arith, x.parted k, count-snoc k s.rule_by_id (length s.rules))) (new_once)
        (λ v k m. HasType-append s.rules (r ∷ []) k v (
          x.typed v k (
            of_type_kept v s (s.rules ++ r ∷ []) (s.rule_by_id ++ length s.rules ∷ [])
              ((key_of rule, length s.rules) ∷ s.keys) k m)))
        (r, get_elem?-snoc s.rules r, refl))
]
  where
    new_once : (k : ℕ) → count k (s.rule_by_id ++ length s.rules ∷ []) ≤ 1
    new_once k = elim (Bool-cases (k == length s.rules)) [
      | inl e ↦
          let same : k ≡ length s.rules = (==_iff k (length s.rules)).0 e in
          let zero_before : count k s.rule_by_id ≡ 0 =
            ap (λ i. count i s.rule_by_id) same
            ∙ count-AllBelow (length s.rules) s.rule_by_id x.below in
          ground (arith, count-snoc k s.rule_by_id (length s.rules), zero_before)
      | inr f ↦ ground (arith, count-snoc k s.rule_by_id (length s.rules), x.once k, f)
    ]
