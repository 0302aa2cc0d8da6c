-- ===== src/Solver/Analyze/Scanning.antt =====
-- The scans of `analyze`: what they do to the counts and to the set of seen packages.
use vivace.Common.{
  ℕ, ◌<◌, ◌==◌, ==_iff, ℤ, pos, neg, abs, eqb_ℤ, eqb_ℤ_iff, eqb_ℤ_refl, Bool, true, false, not,
  ◌&&◌, ◌||◌, ◌≡◌, refl, sym, ◌∙◌, ap, subst, ◌⊎◌, inl, inr, List, [], ◌∷◌, ◌++◌, take, mem, elem,
  arith, Bool-cases,
}
use vivace.Decisions.{Decisions, satisfy, conflict, decided, decision_level}
use vivace.Decisions.Laws.{NonZero, conflict-neg}
use vivace.Decisions.Trail.{IsTrail, mentions}
use vivace.Solver.Analyze.{Analysis, count, scan, scan_multi}
use vivace.Solver.Analyze.Counting.{level_at, tally, tally-other, tally-cons, Distinct-take}

pub elem-snoc : (k j : ℤ) (ls : List ℤ) → elem k (ls ++ j ∷ []) ≡ (eqb_ℤ k j || elem k ls)
elem-snoc k j [] = refl
elem-snoc k j (l ∷ ls) = ground (arith, elem-snoc k j ls)

-- A false literal is decided, at its package's level, and not satisfied.
pub conflict_facts :
    (d : Decisions) (k : ℤ)
    → conflict d k ≡ true
    → (satisfy d k ≡ false)
      × (decided d k ≡ true)
      × (0 < level_at d (abs k))
      × (satisfy d (neg k) ≡ true)
unfolding satisfy conflict decided
conflict_facts d k c = ground arith

-- A literal that is neither satisfied nor false is undecided: its package has level 0.
pub level_of_open :
    (d : Decisions) (k : ℤ)
    → NonZero k
    → conflict d k ≡ false
    → satisfy d k ≡ false
    → level_at d (abs k) ≡ 0
unfolding satisfy conflict
level_of_open d k z c s = ground arith

-- The two literals of a package are not both false.
pub conflict_unique :
    (d : Decisions) (k j : ℤ) → conflict d k ≡ true → conflict d j ≡ true → abs k ≡ abs j → k ≡ j
unfolding conflict
conflict_unique d k j c e h = ground arith

-- Where the analysis stands: what is seen below `i` in the queue, at the current level `lev`.
pub record IsCounted (d : Decisions) (lev : ℕ) (a : Analysis) : Type 0 where
  pub total : a.num ≡ tally d lev a.seen (take a.decision_id d.queue)
  pub placed :
      (k : ℤ)
      → conflict d k ≡ true
      → mem (abs k) a.seen ≡ true
      → (level_at d (abs k) ≡ 1)
        ⊎ (((level_at d (abs k) ≡ lev) × (mentions (abs k) (take a.decision_id d.queue) ≡ true))
            ⊎ (elem k a.others ≡ true))

-- What a scan leaves alone, and what it only adds to.
pub record Grown (a b : Analysis) : Type 0 where
  pub same_learned : b.learned_literal ≡ a.learned_literal
  pub same_id : b.decision_id ≡ a.decision_id
  pub more_seen : (v : ℕ) → mem v a.seen ≡ true → mem v b.seen ≡ true
  pub more_others : (k : ℤ) → elem k a.others ≡ true → elem k b.others ≡ true

pub Grown-refl : (a : Analysis) → Grown a a
Grown-refl a = record {
  same_learned = refl;
  same_id = refl;
  more_seen = λ v h. h;
  more_others = λ k h. h;
}

pub Grown-trans : {a b c : Analysis} → Grown a b → Grown b c → Grown a c
Grown-trans g h = record {
  same_learned = h.same_learned ∙ g.same_learned;
  same_id = h.same_id ∙ g.same_id;
  more_seen = λ v m. h.more_seen v (g.more_seen v m);
  more_others = λ k m. h.more_others k (g.more_others k m);
}

module _ (d : Decisions) (lev : ℕ) (high : 1 < lev) (t : IsTrail d) where
  -- One false or undecided literal that was not seen.
  abbrev counted : ℤ → Analysis → Analysis
  counted l a = count (pos lev) (decision_level d l) l (record a { seen = abs l ∷ a.seen })

  counted-Grown : (l : ℤ) (a : Analysis) → Grown a (counted l a)
  unfolding count
  counted-Grown l a = record {
    same_learned = ground arith;
    same_id = ground arith;
    more_seen = λ v h. ground arith;
    more_others = λ k h. ground (arith, elem-snoc k l a.others);
  }

  counted-seen : (l : ℤ) (a : Analysis) → (counted l a).seen ≡ abs l ∷ a.seen
  unfolding count
  counted-seen l a = ground arith

  -- A literal of the current level that is not satisfied is false.
  false_of_level :
      (l : ℤ) → NonZero l → satisfy d l ≡ false → level_at d (abs l) ≡ lev → conflict d l ≡ true
  false_of_level l z unsat e = elim (Bool-cases (conflict d l)) [
    | inl c ↦ c
    | inr c ↦ absurd (omega (arith, level_of_open d l z c unsat))
  ]

  counted-total :
      (l : ℤ) (a : Analysis)
      → mem (abs l) a.seen ≡ false
      → (level_at d (abs l) ≡ lev → mentions (abs l) (take a.decision_id d.queue) ≡ true)
      → a.num ≡ tally d lev a.seen (take a.decision_id d.queue)
      → (counted l a).num ≡ tally d lev (abs l ∷ a.seen) (take (counted l a).decision_id d.queue)
  unfolding count decision_level
  counted-total l a new before c =
      let xs = take a.decision_id d.queue in
      ground (
        arith,
        c,
        before,
        tally-other d lev (abs l) a.seen xs,
        tally-cons d lev (abs l) a.seen xs (Distinct-take a.decision_id d.queue t.distinct),
      )

  counted-placed :
      (l : ℤ) (a : Analysis) (k : ℤ)
      → (level_at d (abs l) ≡ lev → mentions (abs l) (take a.decision_id d.queue) ≡ true)
      → conflict d l ≡ true
      → k ≡ l
      → (level_at d (abs k) ≡ 1)
        ⊎ ((level_at d (abs k) ≡ lev)
            × (mentions (abs k) (take (counted l a).decision_id d.queue) ≡ true))
        ⊎ (elem k (counted l a).others ≡ true)
  unfolding count decision_level
  counted-placed l a k before c e =
      rw e (ground (arith, before, elem-snoc l l a.others, eqb_ℤ_iff l l))

  counted-IsCounted :
      (l : ℤ) (a : Analysis)
      → NonZero l
      → mem (abs l) a.seen ≡ false
      → (conflict d l ≡ true → mentions (abs l) (take a.decision_id d.queue) ≡ true)
      → satisfy d l ≡ false
      → IsCounted d lev a
      → IsCounted d lev (counted l a)
  counted-IsCounted l a z new before unsat c = record {
    total =
        rw counted-seen (counted-total l a new (λ e. before (false_of_level l z unsat e)) c.total);
    placed = λ k ck m. place k ck (Bool-cases (abs k == abs l)) (rw counted-seen at m);
  }
    where
      later :
          (k : ℤ)
          → (level_at d (abs k) ≡ 1)
            ⊎ ((level_at d (abs k) ≡ lev) × (mentions (abs k) (take a.decision_id d.queue) ≡ true))
            ⊎ (elem k a.others ≡ true)
          → (level_at d (abs k) ≡ 1)
            ⊎ ((level_at d (abs k) ≡ lev)
                × (mentions (abs k) (take (counted l a).decision_id d.queue) ≡ true))
            ⊎ (elem k (counted l a).others ≡ true)
      later k (inl e) = inl e
      later k (inr (inl e)) = inr (inl (e.0, rw ((counted-Grown l a).same_id) e.1))
      later k (inr (inr e)) = inr (inr ((counted-Grown l a).more_others k e))

      place :
          (k : ℤ)
          → conflict d k ≡ true
          → ((abs k == abs l) ≡ true) ⊎ ((abs k == abs l) ≡ false)
          → mem (abs k) (abs l ∷ a.seen) ≡ true
          → (level_at d (abs k) ≡ 1)
            ⊎ ((level_at d (abs k) ≡ lev)
                × (mentions (abs k) (take (counted l a).decision_id d.queue) ≡ true))
            ⊎ (elem k (counted l a).others ≡ true)
      place k ck (inr ne) m = later k (c.placed k ck (ground arith))
      place k ck (inl e) m =
          let e' : abs k ≡ abs l = (==_iff (abs k) (abs l)).0 e in
          elim (Bool-cases (conflict d l)) [
            | inl cl ↦ counted-placed l a k (λ x. before cl) cl (conflict_unique d k l ck cl e')
            | inr cl ↦ absurd (
                omega (
                  arith,
                  level_of_open d l z cl unsat,
                  (conflict_facts d k ck).2,
                  ap (level_at d) e',
                ))
          ]

  -- After the scan of a rule's literals every false one of them is seen.
  pub record Scanned (ls : List ℤ) (a b : Analysis) : Type 0 where
    pub grown : Grown a b
    pub is_counted : IsCounted d lev b
    pub covers : (k : ℤ) → elem k ls ≡ true → conflict d k ≡ true → mem (abs k) b.seen ≡ true

  pub scan-Scanned :
      (multi : Bool) (ls : List ℤ) (a : Analysis)
      → ((k : ℤ) → elem k ls ≡ true → NonZero k)
      → ((k : ℤ)
          → elem k ls ≡ true
          → conflict d k ≡ true
          → mentions (abs k) (take a.decision_id d.queue) ≡ true)
      → IsCounted d lev a
      → Scanned ls a (scan d (pos lev) multi ls a)
  unfolding scan
  scan-Scanned multi [] a z before c = record {
    grown = Grown-refl a;
    is_counted = c;
    covers = λ k e. cc;
  }
  scan-Scanned multi (l ∷ ls) a z before c =
      elim (Bool-cases ((multi && not (decided d l)) || (satisfy d l || mem (abs l) a.seen))) [
        | inl idle ↦
            rw (idle, scan)
              (let r =
                  scan-Scanned multi ls a (λ k e. z k (rw e (ground arith)))
                    (λ k e. before k (rw e (ground arith))) c in
                extend a r
                  (λ cl. r.grown.more_seen (abs l) (ground (arith, conflict_facts d l cl, idle)))
                  (Grown-refl a))
        | inr busy ↦
            rw (busy, scan)
              (let b = counted l a in
                let unsat : satisfy d l ≡ false = ground (arith, busy) in
                let new : mem (abs l) a.seen ≡ false = ground (arith, busy) in
                let r =
                  scan-Scanned multi ls b (λ k e. z k (rw e (ground arith)))
                    (λ k e ck. rw ((counted-Grown l a).same_id) (before k (rw e (ground arith)) ck))
                    (counted-IsCounted l a (z l (rw eqb_ℤ_refl refl)) new
                      (before l (rw eqb_ℤ_refl refl)) unsat c) in
                extend b r (λ cl. r.grown.more_seen (abs l) (rw counted-seen (ground arith)))
                  (counted-Grown l a))
      ]
    where
      extend :
          (m : Analysis) {b : Analysis}
          → Scanned ls m b
          → (conflict d l ≡ true → mem (abs l) b.seen ≡ true)
          → Grown a m
          → Scanned (l ∷ ls) a b
      extend m r first g = record {
        grown = Grown-trans g r.grown;
        is_counted = r.is_counted;
        covers = λ k e ck. elim (Bool-cases (eqb_ℤ k l)) [
          | inl same ↦ let q = (eqb_ℤ_iff k l).0 same in rw q (first (rw q at ck))
          | inr other ↦ r.covers k (ground (arith, e, other)) ck
        ];
      }

  -- What the scan of a conflict of many does: where one of its literals is false, a false one of
  -- them is seen afterwards.
  pub record Picked (ls : List ℤ) (a b : Analysis) : Type 0 where
    pub grown : Grown a b
    pub is_counted : IsCounted d lev b
    pub picks :
        (k : ℤ)
        → elem k ls ≡ true
        → conflict d k ≡ true
        → (f : ℤ) × (elem f ls ≡ true) × (conflict d f ≡ true) × (mem (abs f) b.seen ≡ true)

  -- The order in which the code writes its variables does not matter.
  pub pick-counted :
      (l : ℤ) (rule : ℕ) (a : Analysis)
      → ◌≡◌ {A = Analysis}
          (record (count
            (pos lev)
            (decision_level d l)
            l
            (record a { pool = a.pool ++ rule ∷ [] })) { seen = abs l ∷ a.seen })
          (counted l (record a { pool = a.pool ++ rule ∷ [] }))
  unfolding count
  pick-counted l rule a = ground arith

  pub scan_multi-Picked :
      (rule : ℕ) (ls : List ℤ) (a : Analysis)
      → ((k : ℤ) → elem k ls ≡ true → NonZero k)
      → ((k : ℤ)
          → elem k ls ≡ true
          → conflict d k ≡ true
          → mentions (abs k) (take a.decision_id d.queue) ≡ true)
      → IsCounted d lev a
      → Picked ls a (scan_multi d (pos lev) rule ls a)
  unfolding scan_multi
  scan_multi-Picked rule [] a z before c = record {
    grown = Grown-refl a;
    is_counted = c;
    picks = λ k e. cc;
  }
  scan_multi-Picked rule (l ∷ ls) a z before c =
      elim (Bool-cases (not (mem (abs l) a.seen) && satisfy d (neg l))) [
        | inr idle ↦
            rw (idle, scan_multi)
              (let r =
                  scan_multi-Picked rule ls a (λ k e. z k (rw e (ground arith)))
                    (λ k e. before k (rw e (ground arith))) c in
                record {
                  grown = r.grown;
                  is_counted = r.is_counted;
                  picks = λ k e ck. elim (Bool-cases (eqb_ℤ k l)) [
                    | inl same ↦
                        let q = (eqb_ℤ_iff k l).0 same in
                        let cl : conflict d l ≡ true = rw q at ck in
                        (
                          l,
                          rw eqb_ℤ_refl refl,
                          cl,
                          r.grown.more_seen (abs l) (ground (arith, idle, conflict-neg d l)),
                        )
                    | inr other ↦
                        let (f, ef, cf, mf) = r.picks k (ground (arith, e, other)) ck in
                        (f, rw ef (ground arith), cf, mf)
                  ];
                })
        | inl busy ↦
            rw (busy, scan_multi)
              (let p : Analysis = record a { pool = a.pool ++ rule ∷ [] } in
                let cl : conflict d l ≡ true = ground (arith, busy, conflict-neg d l) in
                let new : mem (abs l) a.seen ≡ false = ground (arith, busy) in
                let g = counted-Grown l p in
                let cp : IsCounted d lev p = record { total = c.total; placed = c.placed } in
                subst (Picked (l ∷ ls) a) (sym (pick-counted l rule a)) (record {
                  grown = record {
                    same_learned = g.same_learned;
                    same_id = g.same_id;
                    more_seen = g.more_seen;
                    more_others = g.more_others;
                  };
                  is_counted =
                      counted-IsCounted l p (z l (rw eqb_ℤ_refl refl)) new
                        (before l (rw eqb_ℤ_refl refl)) (conflict_facts d l cl).0 cp;
                  picks = λ k e ck. (l, rw eqb_ℤ_refl refl, cl, rw counted-seen (ground arith));
                }))
      ]
