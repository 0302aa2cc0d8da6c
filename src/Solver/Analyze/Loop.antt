-- ===== src/Solver/Analyze/Loop.antt =====
-- The loops from their start to their end.
use vivace.Common.{
  ℕ, zero, suc, ℤ, pos, neg, abs, abs-neg, eqb_ℤ_iff, Bool, true, false, ◌||◌, ◌≡◌, refl, sym, ◌∙◌,
  subst, ◌⊎◌, inl, inr, some, List, [], ◌∷◌, ◌++◌, length, get_elem?, take, take-length, mem, elem,
  if◌then◌else◌, arith, Bool-cases,
}
use vivace.Outcome.{Outcome, ok, err, ◌>>=◌, >>=-eq-ok, out_of_fuel}
use vivace.Decisions.{Decision, Decisions, conflict}
use vivace.Decisions.Laws.{conflict-neg}
use vivace.Decisions.Trail.{has, mentions}
use vivace.Rule.{Rule, RuleSet, is_multi}
use vivace.Watch.Semantics.{Assignment, lit_true}
use vivace.Solver.Analyze.{
  Analysis, Retry, finish, again, resume, scan, retry, enter, analyze_loop, start,
}
use vivace.Solver.Analyze.Counting.{tally}
use vivace.Solver.Analyze.Justified.{IsFalsified, Before, witness_of}
use vivace.Solver.Analyze.States.{
  Setting, Good, Entering, Settled, SettledEntering, RetryOk, AtHead,
}
use vivace.Solver.Analyze.Entering.{Entering-Searching}
use vivace.Solver.Analyze.Settling.{scan-Settled}
use vivace.Solver.Analyze.Rounds.{retry-Settled, retry-Searching}

module _ {d : Decisions} {s : RuleSet} {lev : ℕ} {a : Assignment} (set : Setting d s lev a) where
  pub settle-entered :
      (st : Analysis)
      → SettledEntering d s a st
      → (st' : Analysis) → enter s d (pos lev) st ≡ ok st'
      → Settled d a st'
  unfolding enter
  settle-entered st e st' h =
      let p : Analysis = record st { pool = st.pool ++ st.rule ∷ [] } in
      let c = e.settled in
      let cp : Settled d a p = record {
        literal = c.literal;
        is_learned = c.is_learned;
        idle = c.idle;
        ones = c.ones;
        good = c.good;
      } in
      let q : st' ≡ scan d (pos lev) (is_multi e.rule) e.rule.literals p =
        ground (arith, e.at_rule) in
      rw q (scan-Settled set (is_multi e.rule) e.rule.literals p e.nonzero e.low cp)

  abbrev pub next_round : ℕ → ℕ → Retry → Outcome Analysis
  next_round fuel analyzed r = elim r [
    | finish c ↦ ok c
    | again c ↦ analyze_loop fuel s d (pos lev) analyzed false c
    | resume c ↦ analyze_loop fuel s d (pos lev) analyzed true c
  ]

  pub loop_step :
      (fuel analyzed : ℕ) (entering : Bool) (st : Analysis)
      → analyze_loop (suc fuel) s d (pos lev) analyzed entering st ≡ (
          (if entering then enter s d (pos lev) st else ok st) >>= λ b.
          retry s d (pos lev) analyzed b >>= next_round fuel analyzed)
  unfolding analyze_loop
  loop_step fuel analyzed entering st = refl

  pub loop_empty :
      (analyzed : ℕ) (entering : Bool) (st : Analysis)
      → analyze_loop zero s d (pos lev) analyzed entering st ≡ err out_of_fuel
  unfolding analyze_loop
  loop_empty analyzed entering st = refl

  pub entered :
      (entering : Bool) (st : Analysis)
      → AtHead d s lev a entering st
      → (b : Analysis) → (if entering then enter s d (pos lev) st else ok st) ≡ ok b
      → AtHead d s lev a false b
  entered true st (inl e) b h = inl (Entering-Searching set st e b h)
  entered true st (inr e) b h = inr (settle-entered st e b h)
  entered false st c b h = subst (AtHead d s lev a false) (cc h) c

  pub round_ok :
      (analyzed : ℕ) (st : Analysis)
      → AtHead d s lev a false st
      → RetryOk d s lev a (retry s d (pos lev) analyzed st)
  round_ok analyzed st (inl c) = retry-Searching set analyzed st c
  round_ok analyzed st (inr c) = retry-Settled set analyzed st c

  pub analyze_loop-Good :
      (fuel analyzed : ℕ) (entering : Bool) (st : Analysis)
      → AtHead d s lev a entering st
      → (end : Analysis) → analyze_loop fuel s d (pos lev) analyzed entering st ≡ ok end
      → Good a end
  analyze_loop-Good zero analyzed entering st c end h = cc (h, loop_empty analyzed entering st)
  analyze_loop-Good (suc fuel) analyzed entering st c end h =
      let (b, e1, h1) =
        >>=-eq-ok (if entering then enter s d (pos lev) st else ok st) _
          (sym (loop_step fuel analyzed entering st) ∙ h) in
      let (r, e2, h2) = >>=-eq-ok (retry s d (pos lev) analyzed b) (next_round fuel analyzed) h1 in
      after_round (analyze_loop-Good fuel analyzed) r
        (subst (RetryOk d s lev a) e2 (round_ok analyzed b (entered entering st c b e1))) h2
    where
      after_round :
          ((entering : Bool) (st : Analysis)
            → AtHead d s lev a entering st
            → (end : Analysis) → analyze_loop fuel s d (pos lev) analyzed entering st ≡ ok end
            → Good a end)
          → (r : Retry) → RetryOk d s lev a (ok r)
          → next_round fuel analyzed r ≡ ok end
          → Good a end
      after_round rec (finish x) k q = subst (Good a) (let e : x ≡ end = cc q in e) k
      after_round rec (again x) k q = rec false x k end q
      after_round rec (resume x) k q = rec true x k end q

  pub tally-nil : (xs : List Decision) → tally d lev [] xs ≡ 0
  tally-nil [] = refl
  tally-nil (x ∷ xs) = omega (arith, tally-nil xs)

  pub mentions_of_has : (k : ℤ) (xs : List Decision) → has k xs ≡ true → mentions (abs k) xs ≡ true
  mentions_of_has k [] h = cc
  mentions_of_has k (x ∷ xs) h = ground (arith, mentions_of_has k xs, eqb_ℤ_iff k x.literal)

  -- A false literal's package stands in the queue.
  pub in_queue : (k : ℤ) → conflict d k ≡ true → Before d (length d.queue) (abs k)
  in_queue k ck = rw take-length (
      subst (λ v. mentions v d.queue ≡ true) (abs-neg k)
        (mentions_of_has (neg k) d.queue
          (sym (set.trail.agree (neg k)) ∙ sym (conflict-neg d k) ∙ ck)))

  -- The loop starts at a rule that is false under the decisions.
  pub start-Entering :
      (rule : ℕ) (r : Rule)
      → get_elem? s.rules rule ≡ some r
      → IsFalsified d lev r
      → Entering d s lev a (start d rule)
  start-Entering rule r at f = record {
    none_yet = refl;
    counted = record {
      total = sym (tally-nil (take (length d.queue) d.queue));
      placed = λ k ck m. cc;
    };
    rule = r;
    at_rule = at;
    nonzero = f.nonzero;
    before = λ k e ck. in_queue k ck;
    open_level = inr f.current;
    witness = elim (Bool-cases (is_multi r)) [
      | inr single ↦
          let (k, e, tk) =
            witness_of a r.literals ((set.model.all rule r at).clause single f.enabled) in
          (k, tk, f.clause single k e, inr e)
      | inl many ↦
          let (k, j, ek, ej, ne, ck, cj) = f.multi many in
          one_of k j ((set.model.all rule r at).multi many k j ek ej ne) ek ej ck cj
    ];
  }
    where
      one_of :
          (k j : ℤ)
          → (lit_true a k || lit_true a j) ≡ true
          → elem k r.literals ≡ true
          → elem j r.literals ≡ true
          → conflict d k ≡ true
          → conflict d j ≡ true
          → (i : ℤ) × (lit_true a i ≡ true)
            × (conflict d i ≡ true)
            × ((mem (abs i) [] ≡ true) ⊎ (elem i r.literals ≡ true))
      one_of k j h ek ej ck cj = elim (Bool-cases (lit_true a k)) [
        | inl tk ↦ (k, tk, ck, inr ek)
        | inr nk ↦ (j, ground (arith, h, nk), cj, inr ej)
      ]
