-- ===== src/Solver/Firm.antt =====
-- The invariant of the decisions between propagations, from which conflict analysis can start: each
-- decision is a free choice or forced by its reason, all of whose literals are decided.
pub mod Levels
pub mod Growing
pub mod Conflict
use vivace.Common.{
  ℕ, zero, suc, ◌+◌, ◌<◌, ◌≤◌, ℤ, pos, neg, abs, positive, negative, eqb_ℤ, eqb_ℤ_iff, eqb_ℤ_refl,
  Bool, true, false, ◌≡◌, refl, sym, subst, ap, lt_of_get_elem?, ◌∙◌, ◌⊎◌, inl, inr, some, List, [],
  ◌∷◌, ◌++◌, length, get_elem?, take, elem, arith, Bool-cases,
}
use vivace.Outcome.{ok}
use vivace.Decisions.{Decision, Decisions, satisfy, conflict, decided, decide}
use vivace.Decisions.Laws.{NonZero, Extends, satisfy-Extends}
use vivace.Decisions.Trail.{IsTrail, mentions, Extends-keeps-IsTrail, satisfy-get_elem?}
use vivace.Rule.{Rule, RuleSet, is_multi}
use vivace.Watch.Derives.{conflict-Extends, decided-Extends, decided_split}
use vivace.Solver.Analyze.Counting.{level_at}
use vivace.Solver.Analyze.Justified.{AllJustified, IsJustified, IsImplied, IsFree, Before}
use vivace.Solver.Firm.Levels.{
  level-Extends, queue-Extends, take-append, mentions-get_elem?, mentions-take,
  mentions-take-append, get_elem?-split, conflict-mentions, satisfy-mentions, mentioned_level,
}

-- The literals of the rule are decided, not above the decision at hand.
abbrev pub IsSettled : Decisions → Rule → Decision → Type 0
IsSettled d r x =
    (k : ℤ)
    → elem k r.literals ≡ true
    → (decided d k ≡ true) × (level_at d (abs k) ≤ level_at d (abs x.literal))

pub record IsFirm (d : Decisions) (s : RuleSet) (i : ℕ) (x : Decision) : Type 0 where
  pub sorted : (v : ℕ) → Before d i v → level_at d v ≤ level_at d (abs x.literal)
  pub reason : IsFree d i x ⊎ ((p : IsImplied d s i x) × IsSettled d p.rule x)

-- Every decision is firm, and none is above the level.
abbrev pub AllFirm : Decisions → RuleSet → ℕ → Type 0
AllFirm d s lev =
    (i : ℕ) (x : Decision)
    → get_elem? d.queue i ≡ some x
    → (level_at d (abs x.literal) ≤ lev) × IsFirm d s i x

pub IsFirm-IsJustified :
    {d : Decisions} {s : RuleSet} {i : ℕ} {x : Decision} → IsFirm d s i x → IsJustified d s i x
IsFirm-IsJustified f = record {
  sorted = f.sorted;
  reason = elim f.reason [ inl free ↦ inl free | inr p ↦ inr p.0 ];
}

pub AllFirm-AllJustified :
    (d : Decisions) (s : RuleSet) (lev : ℕ) → AllFirm d s lev → AllJustified d s lev
AllFirm-AllJustified d s lev f i x at = ((f i x at).0, IsFirm-IsJustified (f i x at).1)

-- No package of the queue is above the level.
abbrev pub AllLow : Decisions → ℕ → Type 0
AllLow d lev = (v : ℕ) → mentions v d.queue ≡ true → level_at d v ≤ lev

pub low_of :
    (d : Decisions) (lev : ℕ)
    → ((i : ℕ) (x : Decision) → get_elem? d.queue i ≡ some x → level_at d (abs x.literal) ≤ lev)
    → AllLow d lev
low_of d lev h v m =
    let (i, x, at, e) = mentions-get_elem? v d.queue m in
    subst (λ v. level_at d v ≤ lev) e (h i x at)

pub decided-mentions :
    (d : Decisions) (k : ℤ)
    → IsTrail d
    → NonZero k
    → decided d k ≡ true
    → mentions (abs k) d.queue ≡ true
decided-mentions d k t n h = elim (decided_split d k h n) [
  | inl s ↦ satisfy-mentions d k t s
  | inr c ↦ conflict-mentions d k t c
]

pub not_both : (d : Decisions) (k : ℤ) → satisfy d k ≡ true → conflict d k ≡ true → ⊥
unfolding satisfy conflict
not_both d k s c = ground (arith, s, c)

module _ {d e : Decisions} (s : RuleSet) (q : Extends d e) (t : IsTrail d) where
  -- A place of the old queue has the same places before it.
  before_old : (i v : ℕ) {x : Decision} → get_elem? d.queue i ≡ some x → Before e i v → Before d i v
  before_old i v at b =
      let (more, same) = queue-Extends q in
      sym (
        ap (mentions v) (
          ap (take i) same
          ∙ take-append i d.queue more (omega (arith, lt_of_get_elem? d.queue i at))))
      ∙ b

  before_new : (i v : ℕ) {x : Decision} → get_elem? d.queue i ≡ some x → Before d i v → Before e i v
  before_new i v at b =
      let (more, same) = queue-Extends q in
      ap (mentions v) (
        ap (take i) same ∙ take-append i d.queue more (omega (arith, lt_of_get_elem? d.queue i at)))
      ∙ b

  -- What stood in the old queue is before every new place.
  pub before_late : (i v : ℕ) → length d.queue ≤ i → mentions v d.queue ≡ true → Before e i v
  before_late i v le m =
      let (more, same) = queue-Extends q in
      ap (λ xs. mentions v (take i xs)) same ∙ mentions-take-append v i d.queue more le m

  level_same : (v : ℕ) → mentions v d.queue ≡ true → level_at e v ≡ level_at d v
  level_same v m = level-Extends v q (mentioned_level d v t m)

  own_mentioned :
      (i : ℕ) {x : Decision}
      → get_elem? d.queue i ≡ some x
      → mentions (abs x.literal) d.queue ≡ true
  own_mentioned i {x} at = satisfy-mentions d x.literal t (satisfy-get_elem? d i t at)

  -- A literal that was decided conflicts only if it did.
  conflict_old :
      (k : ℤ) → NonZero k → decided d k ≡ true → conflict e k ≡ true → conflict d k ≡ true
  conflict_old k n h c = elim (decided_split d k h n) [
    | inr old ↦ old
    | inl s ↦ absurd (not_both e k (satisfy-Extends k q s) c)
  ]

  -- A firm decision stays firm.
  pub IsFirm-old :
      (i : ℕ) (x : Decision) → get_elem? d.queue i ≡ some x → IsFirm d s i x → IsFirm e s i x
  IsFirm-old i x at f = record {
    sorted = λ v b.
        let b' = before_old i v at b in
        rw (level_same v (mentions-take v i d.queue b'), own) (f.sorted v b');
    reason = elim f.reason [
      | inl free ↦ inl (
        rw own free.0,
        λ v b.
            let b' = before_old i v at b in
            rw (level_same v (mentions-take v i d.queue b'), own) (free.1 v b'),
      )
      | inr (p, settled) ↦ inr (
        record {
          rule = p.rule;
          at_rule = p.at_rule;
          enabled = p.enabled;
          nonzero = p.nonzero;
          before = λ k m c.
              before_new i (abs k) at
                (p.before k m (conflict_old k (p.nonzero k m) (settled k m).0 c));
          clause = λ single k m ne. conflict-Extends k q (p.clause single k m ne);
          own = p.own;
          other = λ many. let (f, m, c) = p.other many in (f, m, conflict-Extends f q c);
        },
        λ k m. (
          decided-Extends k q (settled k m).0,
          rw (level_same (abs k) (decided-mentions d k t (p.nonzero k m) (settled k m).0), own)
              (settled k m).1,
        ),
      )
    ];
  }
    where
      own : level_at e (abs x.literal) ≡ level_at d (abs x.literal)
      own = level_same (abs x.literal) (own_mentioned i at)
