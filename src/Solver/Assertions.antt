-- ===== src/Solver/Assertions.antt =====
-- `make_assertion_rule_decisions` of crates/vivacity-resolver/src/solver.rs.
use vivace.Common.{
  ℕ, zero, suc, ◌+◌, ◌==◌, ltb, ℤ, pos, negsuc, abs, Bool, true, false, not, ◌||◌, Option, none,
  some, List, [], ◌∷◌, ◌++◌, length, get_elem?, set, if◌then◌else◌,
}
use vivace.Outcome.{Outcome, ok, err, ◌>>=◌, panic, out_of_fuel}
use vivace.Decisions.{decided, decide, satisfy, decision_rule, reset_to_offset}
use vivace.Rule.{
  Rule, RuleSet, RuleType, type_package, type_request, type_learned, is_assertion, ids_of_type,
}
use vivace.Rule
use vivace.Watch.{rule_at}
use vivace.Problem
use vivace.Problem.{Problem, add_rule}
use vivace.Solver.{Solver}

-- `literals[0]`, which panics on an empty rule.
unfoldable pub first_literal : Rule → Outcome ℤ
first_literal r = elim r.literals [ [] ↦ err panic | l ∷ _ ↦ ok l ]

-- `self.rules.rules[id].disabled = true`.
unfoldable pub disable : RuleSet → ℕ → Outcome RuleSet
unfolding rule_at
disable s id = do
  r ← rule_at s id
  ok (record s { rules = set s.rules id (record r { disabled = true }) })

-- One round of the loop over the request rules.
unfoldable pub disable_request : RuleSet → Problem → ℤ → ℕ → Outcome (RuleSet × Problem)
unfolding rule_at first_literal disable
disable_request s problem literal id = rule_at s id >>= λ r.
    if r.disabled || not (is_assertion r)
    then ok (s, problem)
    else (first_literal r >>= λ l.
        if abs literal == abs l
        then (disable s id >>= λ s'. ok (s', add_rule problem id))
        else ok (s, problem))

-- The loop over the request rules: the enabled assertions on the literal's package join the problem
-- and are disabled.
unfoldable pub disable_requests : RuleSet → Problem → ℤ → List ℕ → Outcome (RuleSet × Problem)
unfolding disable_request
disable_requests s problem literal [] = ok (s, problem)
disable_requests s problem literal (id ∷ ids) =
    disable_request s problem literal id >>= λ p. disable_requests p.0 p.1 literal ids

-- How one round of the loop ends.
pub data Pass : Type 0 where
  -- the loop goes on with the next rule
  onward : Solver → Pass
  -- the loop starts again, from the first rule
  restart : Solver → Pass

abbrev pub is_type : RuleType → Option RuleType → Bool
is_type type_package (some type_package) = true
is_type type_request (some type_request) = true
is_type type_learned (some type_learned) = true
is_type _ _ = false

-- The rule asserts a literal whose package is decided the other way.
unfoldable pub clash : Solver → ℤ → ℕ → ℤ → Rule → Outcome Pass
unfolding rule_at decision_rule reset_to_offset disable disable_requests
clash s decision_start id literal r =
    if is_type type_learned r.rule_type
    then (disable s.rules id >>= λ rules. ok (onward (record s { rules = rules })))
    else (decision_rule s.decisions literal >>= λ conflict. rule_at s.rules conflict >>= λ c.
        let problem = add_rule (add_rule Problem.new id) conflict in
        if is_type type_package c.rule_type
        then (disable s.rules id >>= λ rules.
            ok (onward (record s { rules = rules; problems = s.problems ++ problem ∷ [] })))
        else (disable_requests s.rules problem literal (ids_of_type s.rules type_request) >>= λ p.
            reset_to_offset s.decisions decision_start >>= λ d.
            ok (
              restart
                (record s { rules = p.0; problems = s.problems ++ p.1 ∷ []; decisions = d }))))

-- One round of the loop, for the registered rule `id`.
unfoldable pub assert_rule : Solver → ℤ → ℕ → Outcome Pass
unfolding rule_at first_literal clash
assert_rule s decision_start id = rule_at s.rules id >>= λ r.
    if not (is_assertion r) || r.disabled
    then ok (onward s)
    else (first_literal r >>= λ literal.
        if not (decided s.decisions literal)
        then (decide s.decisions literal (pos 1) id >>= λ d.
            ok (onward (record s { decisions = d })))
        else if satisfy s.decisions literal
        then ok (onward s)
        else clash s decision_start id literal r)

unfoldable pub assert_rounds : ℕ → ℕ → ℤ → ℕ → Solver → Outcome Solver
unfolding assert_rule
assert_rounds zero count start rule_index s = err out_of_fuel
assert_rounds (suc fuel) count start rule_index s = elim (ltb rule_index count) [
  | false ↦ ok s
  | true ↦ elim (get_elem? s.rules.rule_by_id rule_index) [
    | none ↦ err panic
    | some id ↦ assert_rule s start id >>= λ pass. elim pass [
      | onward s' ↦ assert_rounds fuel count start (rule_index + 1) s'
      | restart s' ↦ assert_rounds fuel count start 0 s'
    ]
  ]
]

-- `len() as i64 - 1`.
abbrev pub pred_len : ℕ → ℤ
pred_len zero = negsuc 0
pred_len (suc n) = pos n

-- The fuel bounds the rounds of the loop.
unfoldable pub make_assertion_rule_decisions : ℕ → Solver → Outcome Solver
unfolding assert_rounds
make_assertion_rule_decisions fuel s =
    assert_rounds fuel (Rule.len s.rules) (pred_len (length s.decisions.queue)) 0 s
