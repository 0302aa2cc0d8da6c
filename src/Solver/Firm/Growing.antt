-- ===== src/Solver/Firm/Growing.antt =====
-- Propagation keeps the decisions firm, and ends at a conflict from which analysis can start.
use vivace.Common.{
  ℕ, ◌≤◌, ℤ, pos, neg, abs, positive, negative, eqb_ℤ, eqb_ℤ_iff, eqb_ℤ_refl, true, ◌≡◌, refl, sym,
  subst, ◌∙◌, ◌⊎◌, inl, inr, some, [], ◌∷◌, length, get_elem?, lt_of_get_elem?, elem, arith,
  Bool-cases,
}
use vivace.Outcome.{ok}
use vivace.Decisions.{Decision, Decisions, satisfy, conflict, decided, decide}
use vivace.Decisions.Laws.{NonZero, Extends, here, next, decide-inv, satisfy-decide, conflict-neg}
use vivace.Decisions.Trail.{IsTrail, mentions, Extends-keeps-IsTrail, satisfy-get_elem?}
use vivace.Rule.{Rule, RuleSet, is_multi}
use vivace.Watch.Derives.{
  IsUnit, IsOpen, Fills, filled, fill, Fills-Extends, Derives, Derives-Extends, none_more,
  by_clause, by_multi, Clashes, IsPlain, AllPlain, conflict-Extends, decided_of_conflict,
  decided_of_satisfy,
}
use vivace.Solver.Analyze.Counting.{level_at}
use vivace.Solver.Analyze.Justified.{AllJustified, IsImplied, Before}
use vivace.Solver.Firm.{
  IsSettled, AllFirm, AllFirm-AllJustified, AllLow, low_of, before_late, IsFirm-old, not_both,
  decided-mentions, IsFirm-IsJustified,
}
use vivace.Solver.Firm.Levels.{
  level-decide, level-Extends, queue-Extends, get_elem?-split, get_elem?-last, conflict-mentions,
  satisfy-mentions, mentioned_level, mentions-take,
}

-- A decision behind the old queue, by a rule of this level.
abbrev pub New : Decisions → Decisions → ℕ → Decision → Type 0
New d e i x = (get_elem? e.queue i ≡ some x) × (length d.queue ≤ i)

module _ {d e : Decisions} (s : RuleSet) (lev : ℕ) (q : Extends d e) (t : IsTrail d)
    (firm : AllFirm d s lev)
    (leveled : (i : ℕ) (x : Decision) → New d e i x → level_at e (abs x.literal) ≡ lev) where
  -- Every decision is an old one or a new one.
  place :
      (i : ℕ) (x : Decision)
      → get_elem? e.queue i ≡ some x
      → (get_elem? d.queue i ≡ some x) ⊎ New d e i x
  place i x at =
      let (more, same) = queue-Extends q in
      elim (get_elem?-split d.queue more i (subst (λ xs. get_elem? xs i ≡ some x) same at)) [
        | inl old ↦ inl old
        | inr new ↦ inr (at, new)
      ]

  old_level :
      (i : ℕ) (x : Decision) → get_elem? d.queue i ≡ some x → level_at e (abs x.literal) ≤ lev
  old_level i x at = omega (
    arith,
    (firm i x at).0,
    level-Extends (abs x.literal) q (mentioned_level d (abs x.literal) t (own_mentioned_ at)),
  )
    where
      own_mentioned_ : get_elem? d.queue i ≡ some x → mentions (abs x.literal) d.queue ≡ true
      own_mentioned_ at = satisfy-mentions d x.literal t (satisfy-get_elem? d i t at)

  each_level :
      (i : ℕ) (x : Decision) → get_elem? e.queue i ≡ some x → level_at e (abs x.literal) ≤ lev
  each_level i x at = elim (place i x at) [
    | inl old ↦ old_level i x old
    | inr new ↦ omega (arith, leveled i x new)
  ]

  pub low : AllLow e lev
  low = low_of e lev each_level

  New-sorted :
      (i : ℕ) (x : Decision)
      → New d e i x
      → (v : ℕ) → Before e i v
      → level_at e v ≤ level_at e (abs x.literal)
  New-sorted i x new v b = omega (arith, low v (mentions-take v i e.queue b), leveled i x new)

  pub grow_firm :
      ((i : ℕ) (x : Decision) → New d e i x → (p : IsImplied e s i x) × IsSettled e p.rule x)
      → AllFirm e s lev
  grow_firm forced i x at = (
    each_level i x at,
    elim (place i x at) [
      | inl old ↦ IsFirm-old s q t i x old (firm i x old).1
      | inr new ↦ record { sorted = New-sorted i x new; reason = inr (forced i x new) }
    ],
  )

  pub grow_justified :
      ((i : ℕ) (x : Decision) → New d e i x → IsImplied e s i x) → AllJustified e s lev
  grow_justified forced i x at = (
    each_level i x at,
    elim (place i x at) [
      | inl old ↦ IsFirm-IsJustified (IsFirm-old s q t i x old (firm i x old).1)
      | inr new ↦ record { sorted = New-sorted i x new; reason = inr (forced i x new) }
    ],
  )

-- One decision by a unit clause.
clause_firm :
    {d e : Decisions} (s : RuleSet) (lev : ℕ) (l : ℤ) (id : ℕ) (r : Rule)
    → IsTrail d
    → AllFirm d s lev
    → positive (pos lev) ≡ true
    → NonZero l
    → get_elem? s.rules id ≡ some r
    → IsUnit d l r
    → decide d l (pos lev) id ≡ ok e
    → AllFirm e s lev
clause_firm {d} {e} s lev l id r t firm p n at u eq = grow_firm s lev q t firm leveled forced
  where
    q : Extends d e
    q = next here l (pos lev) id p n eq

    y : Decision
    y = record { literal = l; reason = id }

    only : (i : ℕ) (x : Decision) → New d e i x → x ≡ y
    only i x new =
        get_elem?-last d.queue y i
          (subst (λ (g : Decisions). get_elem? g.queue i ≡ some x)
            (decide-inv d l (pos lev) id eq).2 new.0)
          new.1

    leveled : (i : ℕ) (x : Decision) → New d e i x → level_at e (abs x.literal) ≡ lev
    leveled i x new =
        subst (λ z. level_at e (abs z.literal) ≡ lev) (sym (only i x new))
          (level-decide d l lev id eq)

    t' : IsTrail e
    t' = Extends-keeps-IsTrail t q

    own : satisfy e l ≡ true
    own = (satisfy-decide d l (pos lev) id l eq p n).0 ∙ rw eqb_ℤ_refl refl

    settled : IsSettled e r y
    settled k m = elim (Bool-cases (eqb_ℤ k l)) [
      | inl same ↦ rw ((eqb_ℤ_iff k l).0 same) (decided_of_satisfy e l own, omega arith)
      | inr ne ↦
          let c = conflict-Extends k q (u.clause k m ne) in
          (
            decided_of_conflict e k c,
            omega (
              arith,
              low s lev q t firm leveled (abs k) (conflict-mentions e k t' c),
              level-decide d l lev id eq,
            ),
          )
    ]

    implied : (i : ℕ) → length d.queue ≤ i → IsImplied e s i y
    implied i le = record {
      rule = r;
      at_rule = at;
      enabled = u.enabled;
      nonzero = u.nonzero;
      before = λ k m c. elim (Bool-cases (eqb_ℤ k l)) [
        | inl same ↦
            absurd (not_both e l own (subst (λ z. conflict e z ≡ true) ((eqb_ℤ_iff k l).0 same) c))
        | inr ne ↦ before_late s q t i (abs k) le (conflict-mentions d k t (u.clause k m ne))
      ];
      clause = λ single k m ne. conflict-Extends k q (u.clause k m ne);
      own = λ many. cc (many, u.single);
      other = λ many. cc (many, u.single);
    }

    forced : (i : ℕ) (x : Decision) → New d e i x → (p : IsImplied e s i x) × IsSettled e p.rule x
    forced i x new =
        subst (λ z. (p : IsImplied e s i z) × IsSettled e p.rule z) (sym (only i x new))
          (implied i new.1, settled)

-- The decisions that a conflict of many fills in.
pub Fills-New :
    (lev id : ℕ) (r : Rule) {d e : Decisions}
    → IsTrail d
    → Fills (pos lev) id r d e
    → (i : ℕ) (x : Decision) → New d e i x
    → (elem x.literal r.literals ≡ true) × (x.reason ≡ id) × (level_at e (abs x.literal) ≡ lev)
Fills-New lev id r {d} t filled i x new =
    absurd (omega (arith, lt_of_get_elem? d.queue i new.0, new.1))
Fills-New lev id r {d} {e} t (fill {e = b} q l p n m eq) i x new =
    let y : Decision = record { literal = l; reason = id } in
    let (inside, fresh, same) = decide-inv b l (pos lev) id eq in
    let at = subst (λ (g : Decisions). get_elem? g.queue i ≡ some x) same new.0 in
    let tb = Extends-keeps-IsTrail t (Fills-Extends q) in
    elim (get_elem?-split b.queue (y ∷ []) i at) [
      | inl old ↦
          let (member, reason, leveled) = Fills-New lev id r t q i x (old, new.1) in
          (
            member,
            reason,
            level-Extends (abs x.literal) (next here l (pos lev) id p n eq) (
                  mentioned_level b (abs x.literal) tb
                    (satisfy-mentions b x.literal tb (satisfy-get_elem? b i tb old)))
                ∙ leveled,
          )
      | inr late ↦
          let only : x ≡ y = get_elem?-last b.queue y i at late in
          rw only (m, refl, level-decide b l lev id eq)
    ]

-- They refute no literal of its own, since its literals are negative.
Fills-conflict :
    (lev id : ℕ) (r : Rule) {d e : Decisions}
    → ((k : ℤ) → elem k r.literals ≡ true → negative k ≡ true)
    → Fills (pos lev) id r d e
    → (k : ℤ) → elem k r.literals ≡ true
    → conflict e k ≡ true
    → conflict d k ≡ true
Fills-conflict lev id r g filled k m c = c
Fills-conflict lev id r {d} {e} g (fill {e = b} q l p n ml eq) k m c =
    Fills-conflict lev id r g q k m (
      ground (
        arith,
        conflict-neg e k,
        conflict-neg b k,
        satisfy-decide b l (pos lev) id (neg k) eq p n,
        eqb_ℤ_iff (neg k) l,
        g k m,
        g l ml,
        c,
      ))

module _ {d e : Decisions} (s : RuleSet) (lev id : ℕ) (r : Rule) (t : IsTrail d)
    (firm : AllFirm d s lev) (at : get_elem? s.rules id ≡ some r) (plain : IsPlain r)
    (u : IsOpen d r) (fills : Fills (pos lev) id r d e) where
  q_ : Extends d e
  q_ = Fills-Extends fills

  pub fills_leveled : (i : ℕ) (x : Decision) → New d e i x → level_at e (abs x.literal) ≡ lev
  fills_leveled i x new = (Fills-New lev id r t fills i x new).2

  fills_implied : (i : ℕ) (x : Decision) → New d e i x → IsImplied e s i x
  fills_implied i x new = record {
    rule = r;
    at_rule = rw (Fills-New lev id r t fills i x new).1 at;
    enabled = u.enabled;
    nonzero = u.nonzero;
    before = λ k m c.
        before_late s q_ t i (abs k) new.1
          (conflict-mentions d k t (Fills-conflict lev id r (plain.negatives u.many) fills k m c));
    clause = λ single. cc (single, u.many);
    own = λ many. (Fills-New lev id r t fills i x new).0;
    other = λ many. let (f, m, c) = u.false_one in (f, m, conflict-Extends f q_ c);
  }

  pub fills_justified : AllJustified e s lev
  fills_justified = grow_justified s lev q_ t firm fills_leveled fills_implied

  pub fills_firm : ((k : ℤ) → elem k r.literals ≡ true → decided e k ≡ true) → AllFirm e s lev
  unfolding fills_implied
  fills_firm all = grow_firm s lev q_ t firm fills_leveled (λ i x new. (
    fills_implied i x new,
    λ k m. (
      all k m,
      omega (
        arith,
        low s lev q_ t firm fills_leveled (abs k)
            (decided-mentions e k (Extends-keeps-IsTrail t q_) (u.nonzero k m) (all k m)),
        fills_leveled i x new,
      ),
    ),
  ))

-- What propagation adds keeps the decisions firm.
pub Derives-AllFirm :
    (s : RuleSet) (lev : ℕ) {d e : Decisions}
    → AllPlain s
    → IsTrail d
    → AllFirm d s lev
    → Derives s (pos lev) d e
    → AllFirm e s lev
Derives-AllFirm s lev plain t firm none_more = firm
Derives-AllFirm s lev plain t firm (by_clause q l id r p n at u eq) =
    clause_firm s lev l id r (Extends-keeps-IsTrail t (Derives-Extends q))
      (Derives-AllFirm s lev plain t firm q) p n at u eq
Derives-AllFirm s lev plain t firm (by_multi q id r at u fills all) =
    fills_firm s lev id r (Extends-keeps-IsTrail t (Derives-Extends q))
      (Derives-AllFirm s lev plain t firm q) at (plain id r at) u fills all

-- A conflict leaves every decision justified.
pub Clashes-AllJustified :
    (s : RuleSet) (lev : ℕ) {d e : Decisions} {i : ℕ}
    → AllPlain s
    → IsTrail d
    → AllFirm d s lev
    → Clashes s (pos lev) d i e
    → AllJustified e s lev
Clashes-AllJustified s lev {e = e} {i = i} plain t firm c =
    let before = Derives-AllFirm s lev plain t firm c.derives in
    elim (Bool-cases (is_multi c.rule)) [
      | inl many ↦
          fills_justified s lev i c.rule (Extends-keeps-IsTrail t (Derives-Extends c.derives))
            before c.at_rule (plain i c.rule c.at_rule) (c.open_rule many) c.fills
      | inr single ↦
          AllFirm-AllJustified e s lev
            (subst (λ g. AllFirm g s lev) (sym (c.clause_last single)) before)
    ]
