-- ===== src/Watch/Rounds.antt =====
-- One round of the loop of `propagate_literal`: it always succeeds, only adds decisions, and each
-- decision and each conflict follows from the rule.
use vivace.Common.{
  ℕ, ℤ, positive, eqb_ℤ, eqb_ℤ_iff, eqb_ℤ_refl, Bool, true, false, not, ◌&&◌, ◌≡◌, some, get_elem?,
  inl, inr, refl, ◌∙◌, none, List, [], ◌∷◌, length, elem, if◌then◌else◌, arith, Bool-cases,
  Option-cases,
}
use vivace.Outcome.{Outcome, ok, err, ◌>>=◌}
use vivace.Decisions.{Decisions, satisfy, conflict, decide, decided, undecided}
use vivace.Decisions.Laws.{
  NonZero, Extends, here, next, Extends-trans, satisfy-decide, decide_result, decide-undecided,
  length-decide,
}
use vivace.Rule.{Rule, RuleSet, is_multi}
use vivace.Watch.{
  RuleWatchNode, alternative, other_watch, propagate_multi, Round, moves, passes, conflicts,
  round_watched, round,
}
use vivace.Watch.Semantics.{
  Assignment, lit_true, Holds, Agrees, decide-Agrees, unit_forced, false_of_conflict,
}
use vivace.Watch.Derives.{
  IsUnit, IsOpen, IsRefuted, Fills, filled, fill, Fills-trans, Derives, none_more, by_clause,
  by_multi, Clashes, conflict-Extends, decided-Extends, decided_of_conflict, decided_of_satisfy,
}
use vivace.Watch.Invariant.{InPool, AllInPool, IsEntry, alternative-elem, elem-AllInPool}

-- A literal of the pool that is neither satisfied nor in conflict is undecided.
undecided_of :
    (d : Decisions) (l : ℤ)
    → NonZero l
    → satisfy d l ≡ false
    → conflict d l ≡ false
    → undecided d l ≡ true
unfolding satisfy conflict undecided
undecided_of d l n s c = ground arith

-- The assignment respects what a round starts from.
pub record Respects (a : Assignment) (d : Decisions) (literal : ℤ) (r : Rule) : Type 0 where
  pub agrees : Agrees a d
  pub refuted : lit_true a literal ≡ false
  pub holds : Holds a r

-- The literal is refuted, and a conflict of many that is the rule was not disabled.
abbrev pub IsActive : Decisions → ℤ → Rule → Type 0
IsActive d literal r = (conflict d literal ≡ true) × (is_multi r ≡ true → r.disabled ≡ false)

-- What a round of the loop at `literal` for the rule `r` may return.
abbrev pub IsRound : RuleSet → Decisions → ℤ → ℤ → ℕ → Rule → Outcome Round → Type 0
IsRound s d literal level id r (err f) = ⊥
IsRound s d literal level id r (ok (moves to)) =
    (elem to r.literals ≡ true) × (eqb_ℤ to literal ≡ false)
IsRound s d literal level id r (ok (passes d')) =
    Extends d d'
    × ((a : Assignment) → Respects a d literal r → Agrees a d')
    × (IsActive d literal r → Derives s level d d')
IsRound s d literal level id r (ok (conflicts d')) =
    Extends d d'
    × ((a : Assignment) → Respects a d literal r → ⊥)
    × (IsActive d literal r → Clashes s level d id d')

-- Where no alternative is left, the literals besides the two watched ones conflict.
alternative-none :
    (d : Decisions) (literal other : ℤ) (ls : List ℤ)
    → alternative d literal other ls ≡ none
    → conflict d literal ≡ true
    → (k : ℤ) → elem k ls ≡ true
    → eqb_ℤ k other ≡ false
    → conflict d k ≡ true
unfolding alternative
alternative-none d literal other [] h c k e ne = cc
alternative-none d literal other (x ∷ ls) h c k e ne = elim (Bool-cases (eqb_ℤ k x)) [
  | inl same ↦
      let q : k ≡ x = (eqb_ℤ_iff k x).0 same in ground (arith, h, q, eqb_ℤ_iff x literal, ne, c)
  | inr differ ↦
      alternative-none d literal other ls (ground (arith, h)) c k (ground (arith, e, differ)) ne
]

nonzero_of : (n : ℕ) (ls : List ℤ) → AllInPool n ls → (k : ℤ) → elem k ls ≡ true → NonZero k
nonzero_of n ls inside k e = (elem-AllInPool k ls inside e).0

module _ (s : RuleSet) (literal level : ℤ) (id : ℕ) (r : Rule) where
  -- The rule is a conflict of many that has the refuted literal and these ones.
  record Usable (d : Decisions) (ls : List ℤ) : Type 0 where
    active : IsActive d literal r
    many : is_multi r ≡ true
    nonzero : (k : ℤ) → elem k r.literals ≡ true → NonZero k
    own : elem literal r.literals ≡ true
    sub : (k : ℤ) → elem k ls ≡ true → elem k r.literals ≡ true

  Usable-later :
      (d d' : Decisions) (k : ℤ) (ls : List ℤ) → Extends d d' → Usable d (k ∷ ls) → Usable d' ls
  Usable-later d d' k ls q u = record {
    active = (conflict-Extends literal q u.active.0, u.active.1);
    many = u.many;
    nonzero = u.nonzero;
    own = u.own;
    sub = λ j e. u.sub j (ground (arith, e));
  }

  Usable-IsOpen : (d : Decisions) (ls : List ℤ) → Usable d ls → IsOpen d r
  Usable-IsOpen d ls u = record {
    many = u.many;
    enabled = u.active.1 u.many;
    nonzero = u.nonzero;
    false_one = (literal, u.own, u.active.0);
  }

  Usable-IsRefuted :
      (d : Decisions) (k : ℤ) (ls : List ℤ)
      → Usable d (k ∷ ls)
      → eqb_ℤ literal k ≡ false
      → conflict d k ≡ true
      → IsRefuted d r
  Usable-IsRefuted d k ls u ne c = record {
    enabled = u.active.1 u.many;
    nonzero = u.nonzero;
    clause = λ single. cc (single, u.many);
    multi = λ m. (literal, k, u.own, u.sub k (rw eqb_ℤ_refl refl), ne, u.active.0, c);
  }

  -- The assignment respects what the loop over a conflict of many starts from.
  abbrev RespectsAll : Assignment → Decisions → List ℤ → Type 0
  RespectsAll a d ls =
      Agrees a d × ((k : ℤ) → elem k ls ≡ true → eqb_ℤ literal k ≡ false → lit_true a k ≡ true)

  abbrev AllDecided : Decisions → List ℤ → Type 0
  AllDecided d ls = (k : ℤ) → elem k ls ≡ true → eqb_ℤ literal k ≡ false → decided d k ≡ true

  abbrev IsMulti : Decisions → List ℤ → Outcome (Decisions × Bool) → Type 0
  IsMulti d ls (err f) = ⊥
  IsMulti d ls (ok (d', true)) =
      Extends d d'
      × ((a : Assignment) → RespectsAll a d ls → ⊥)
      × (Usable d ls → Fills level id r d d' × IsRefuted d' r)
  IsMulti d ls (ok (d', false)) =
      Extends d d'
      × ((a : Assignment) → RespectsAll a d ls → Agrees a d')
      × (Usable d ls → Fills level id r d d' × AllDecided d' ls)

  respects_rest :
      (a : Assignment) (d d' : Decisions) (k : ℤ) (ls : List ℤ)
      → Agrees a d'
      → RespectsAll a d (k ∷ ls)
      → RespectsAll a d' ls
  respects_rest a d d' k ls g p = (g, λ j m ne. p.1 j (ground arith) ne)

  -- From the rest of the loop, after the first decision was made or not.
  IsMulti-later :
      (d d' : Decisions) (k : ℤ) (ls : List ℤ) (o : Outcome (Decisions × Bool))
      → Extends d d'
      → ((a : Assignment) → RespectsAll a d (k ∷ ls) → Agrees a d')
      → (Usable d (k ∷ ls)
          → Fills level id r d d' × (eqb_ℤ literal k ≡ false → decided d' k ≡ true))
      → IsMulti d' ls o
      → IsMulti d (k ∷ ls) o
  IsMulti-later d d' k ls (err f) q g v h = h
  IsMulti-later d d' k ls (ok (e, true)) q g v h = (
    Extends-trans q h.0,
    λ a p. h.1 a (respects_rest a d d' k ls (g a p) p),
    λ u. let (x, y) = h.2 (Usable-later d d' k ls q u) in (Fills-trans (v u).0 x, y),
  )
  IsMulti-later d d' k ls (ok (e, false)) q g v h = (
    Extends-trans q h.0,
    λ a p. h.1 a (respects_rest a d d' k ls (g a p) p),
    λ u.
        let (x, y) = h.2 (Usable-later d d' k ls q u) in
        (
          Fills-trans (v u).0 x,
          λ j m ne. elim (Bool-cases (eqb_ℤ j k)) [
            | inl same ↦
                let e' : j ≡ k = (eqb_ℤ_iff j k).0 same in
                rw e' (decided-Extends k h.0 ((v u).1 (rw (← e') ne)))
            | inr differ ↦ y j (ground (arith, m, differ)) ne
          ],
        ),
  )

  -- A conflict of many whose literal is refuted makes its other literals true.
  others_true :
      (a : Assignment) (d : Decisions)
      → is_multi r ≡ true
      → elem literal r.literals ≡ true
      → Respects a d literal r
      → RespectsAll a d r.literals
  others_true a d m own p =
      (p.agrees, λ k e ne. ground (arith, p.holds.multi m literal k own e ne, p.refuted))

  multi-IsRound :
      (d : Decisions) (o : Outcome (Decisions × Bool))
      → ((a : Assignment) → Respects a d literal r → RespectsAll a d r.literals)
      → (IsActive d literal r → Usable d r.literals)
      → get_elem? s.rules id ≡ some r
      → IsMulti d r.literals o
      → IsRound s d literal level id r (o >>= λ p. ok (if p.1 then conflicts p.0 else passes p.0))
  multi-IsRound d (err f) t v g h = h
  multi-IsRound d (ok (d', true)) t v g h = (
    h.0,
    λ a p. h.1 a (t a p),
    λ act.
        let (x, y) = h.2 (v act) in
        record {
          rule = r;
          at_rule = g;
          before = d;
          derives = none_more;
          fills = x;
          open_rule = λ many. Usable-IsOpen d r.literals (v act);
          clause_last = λ single. cc (single, (v act).many);
          refuted = y;
        },
  )
  multi-IsRound d (ok (d', false)) t v g h = (
    h.0,
    λ a p. h.1 a (t a p),
    λ act.
        let (x, y) = h.2 (v act) in
        by_multi none_more id r g (Usable-IsOpen d r.literals (v act)) x (λ k m.
          elim (Bool-cases (eqb_ℤ literal k)) [
            | inl same ↦
                rw (← (eqb_ℤ_iff literal k).0 same)
                  (decided_of_conflict d' literal (conflict-Extends literal h.0 act.0))
            | inr differ ↦ y k m differ
          ]),
  )

module _ {n : ℕ} {s : RuleSet} {nodes : List RuleWatchNode} {id : ℕ} (literal level : ℤ)
    (leveled : positive level ≡ true) (e : IsEntry n s nodes literal id) where
  nonzero : (k : ℤ) → elem k e.rule.literals ≡ true → NonZero k
  nonzero = nonzero_of n e.rule.literals e.literals_in

  round_watched-IsRound :
      (d : Decisions)
      → length d.levels ≡ n
      → is_multi e.rule ≡ false
      → IsRound s d literal level e.node.rule e.rule
          (round_watched d literal level e.node.rule e.rule e.node)
  unfolding round_watched
  round_watched-IsRound d size single =
      elim (Bool-cases (not e.rule.disabled && not (satisfy d other))) [
        | inr idle ↦ rw idle (here, λ a p. p.agrees, λ act. none_more)
        | inl busy ↦ rw busy (elim (Option-cases (alternative d literal other e.rule.literals)) [
          | inr (to, q) ↦
              rw q (let m = alternative-elem d literal other to e.rule.literals q in (m.0, m.1))
          | inl q ↦ rw q (elim (Bool-cases (conflict d other)) [
            | inl c ↦ rw c (here, λ a p. clash a p q busy c, λ act. clash_of (refuted act q busy c))
            | inr c ↦
                let u = decided c busy in
                rw (c, u)
                  (
                    next here other level e.node.rule leveled inside.0 u,
                    λ a p.
                        decide-Agrees a d other level e.node.rule leveled p.agrees
                          (forced a p q busy) u,
                    λ act.
                        by_clause none_more other e.node.rule e.rule leveled inside.0 e.at_rule
                          (unit act q busy) u,
                  )
          ])
        ])
      ]
    where
      other : ℤ
      other = other_watch e.node literal

      inside : InPool n other
      inside = ground (arith, e.watch1_in, e.watch2_in)

      forced :
          (a : Assignment)
          → Respects a d literal e.rule
          → alternative d literal other e.rule.literals ≡ none
          → (not e.rule.disabled && not (satisfy d other)) ≡ true
          → lit_true a other ≡ true
      forced a p q busy =
          unit_forced a d literal other e.rule.literals p.agrees p.refuted q
            (p.holds.clause single (ground arith))

      clash :
          (a : Assignment)
          → Respects a d literal e.rule
          → alternative d literal other e.rule.literals ≡ none
          → (not e.rule.disabled && not (satisfy d other)) ≡ true
          → conflict d other ≡ true
          → ⊥
      clash a p q busy c = cc (forced a p q busy, false_of_conflict a d other p.agrees c)

      unit :
          IsActive d literal e.rule
          → alternative d literal other e.rule.literals ≡ none
          → (not e.rule.disabled && not (satisfy d other)) ≡ true
          → IsUnit d other e.rule
      unit act q busy = record {
        single = single;
        enabled = ground (arith, busy);
        nonzero = nonzero;
        clause = λ k m ne. alternative-none d literal other e.rule.literals q act.0 k m ne;
      }

      clash_of : IsRefuted d e.rule → Clashes s level d e.node.rule d
      clash_of refuted = record {
        rule = e.rule;
        at_rule = e.at_rule;
        before = d;
        derives = none_more;
        fills = filled;
        open_rule = λ many. cc (many, single);
        clause_last = λ _. refl;
        refuted = refuted;
      }

      refuted :
          IsActive d literal e.rule
          → alternative d literal other e.rule.literals ≡ none
          → (not e.rule.disabled && not (satisfy d other)) ≡ true
          → conflict d other ≡ true
          → IsRefuted d e.rule
      refuted act q busy c = record {
        enabled = ground (arith, busy);
        nonzero = nonzero;
        clause = λ _ k m. elim (Bool-cases (eqb_ℤ k other)) [
          | inl same ↦ rw ((eqb_ℤ_iff k other).0 same) c
          | inr ne ↦ alternative-none d literal other e.rule.literals q act.0 k m ne
        ];
        multi = λ many. cc (many, single);
      }

      decided :
          conflict d other ≡ false
          → (not e.rule.disabled && not (satisfy d other)) ≡ true
          → decide d other level e.node.rule ≡ ok (decide_result d other level e.node.rule)
      decided c busy =
          decide-undecided d other level e.node.rule (rw size inside.1)
            (undecided_of d other inside.0 (ground arith) c)

  propagate_multi-IsMulti :
      (d : Decisions) (ls : List ℤ)
      → length d.levels ≡ n
      → AllInPool n ls
      → IsMulti s literal level e.node.rule e.rule d ls
          (propagate_multi d literal level e.node.rule ls)
  unfolding propagate_multi
  propagate_multi-IsMulti d [] size inside = (here, λ a p. p.0, λ u. (filled, λ k m. cc))
  propagate_multi-IsMulti d (k ∷ ls) size inside =
      elim (Bool-cases (not (eqb_ℤ literal k) && not (satisfy d k))) [
        | inr idle ↦
            rw (idle, IsMulti, propagate_multi)
              (IsMulti-later s literal level e.node.rule e.rule d d k ls
                (propagate_multi d literal level e.node.rule ls) here (λ a p. p.0)
                (λ u. (filled, λ ne. decided_of_satisfy d k (ground (arith, idle, ne))))
                (propagate_multi-IsMulti d ls size inside.1))
        | inl busy ↦
            rw (busy, IsMulti, propagate_multi)
              (elim (Bool-cases (conflict d k)) [
                | inl c ↦
                    rw (c, IsMulti, propagate_multi)
                      (
                        here,
                        λ a p. cc (
                          p.1 k (rw eqb_ℤ_refl refl) (ground arith),
                          false_of_conflict a d k p.0 c,
                        ),
                        λ u. (
                          filled,
                          Usable-IsRefuted s literal level e.node.rule e.rule d k ls u
                              (ground (arith, busy)) c,
                        ),
                      )
                | inr c ↦
                    let d' = decide_result d k level e.node.rule in
                    let u : decide d k level e.node.rule ≡ ok d' =
                      decide-undecided d k level e.node.rule (rw size inside.0.1)
                        (undecided_of d k inside.0.0 (ground arith) c) in
                    rw (c, u, IsMulti, propagate_multi)
                      (IsMulti-later s literal level e.node.rule e.rule d d' k ls
                        (propagate_multi d' literal level e.node.rule ls)
                        (next here k level e.node.rule leveled inside.0.0 u)
                        (λ a p.
                          decide-Agrees a d k level e.node.rule leveled p.0
                            (p.1 k (rw eqb_ℤ_refl refl) (ground arith)) u)
                        (λ v. (
                          fill filled k leveled inside.0.0 (v.sub k (rw eqb_ℤ_refl refl)) u,
                          λ ne. decided_of_satisfy d' k (
                              rw
                                (
                                  (satisfy-decide d k level e.node.rule k u leveled inside.0.0).0,
                                  eqb_ℤ_refl,
                                )
                                refl),
                        ))
                        (propagate_multi-IsMulti d' ls
                          ((length-decide d k level e.node.rule u).1 ∙ size) inside.1))
              ])
      ]

  pub round-IsRound :
      (d : Decisions)
      → length d.levels ≡ n
      → IsRound s d literal level e.node.rule e.rule
          (round d literal level e.node.rule e.rule e.node)
  unfolding round
  round-IsRound d size = elim (Bool-cases (is_multi e.rule)) [
    | inr single ↦ rw single (round_watched-IsRound d size single)
    | inl many ↦ rw many (
        multi-IsRound s literal level e.node.rule e.rule d
          (propagate_multi d literal level e.node.rule e.rule.literals)
          (λ a p. others_true s literal level e.node.rule e.rule a d many e.own p)
          (λ act. record {
            active = act;
            many = many;
            nonzero = nonzero;
            own = e.own;
            sub = λ k m. m;
          })
          e.at_rule (propagate_multi-IsMulti d e.rule.literals size e.literals_in))
  ]
