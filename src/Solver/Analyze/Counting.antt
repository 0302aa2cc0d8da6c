-- ===== src/Solver/Analyze/Counting.antt =====
-- The counts of `analyze` over the front of the queue, as sets of seen packages change.
use vivace.Common.{
  ℕ, zero, suc, ◌+◌, ◌<◌, ◌≤◌, ◌==◌, ==_iff, ℤ, pos, abs, true, false, not, ◌&&◌, ◌||◌, ◌≡◌, ◌≢◌,
  refl, inl, inr, some, List, [], ◌∷◌, ◌++◌, get_or, get_elem?, take, take-suc, mem, if◌then◌else◌,
  arith, Bool-cases, Option-cases,
}
use vivace.Outcome.{ok}
use vivace.Decisions.{Decision, Decisions}
use vivace.Decisions.Trail.{mentions, Distinct}
use vivace.Solver.Analyze.{without, find_seen}

-- The level of a package, 0 if it is undecided.
abbrev pub level_at : Decisions → ℕ → ℕ
level_at d v = abs (get_or d.levels v (pos 0))

-- How many of these decisions are of level `lev` and on a seen package.
abbrev pub tally : Decisions → ℕ → List ℕ → List Decision → ℕ
tally d lev seen [] = 0
tally d lev seen (x ∷ xs) =
    (if mem (abs x.literal) seen && (level_at d (abs x.literal) == lev) then 1 else 0)
    + tally d lev seen xs

-- A package of another level, or not among the decisions, changes no count.
pub tally-other :
    (d : Decisions) (lev v : ℕ) (seen : List ℕ) (xs : List Decision)
    → (level_at d v == lev) ≡ false
    → tally d lev (v ∷ seen) xs ≡ tally d lev seen xs
tally-other d lev v seen [] ne = refl
tally-other d lev v seen (x ∷ xs) ne =
    ground (arith, tally-other d lev v seen xs ne, ==_iff (abs x.literal) v)

tally-absent :
    (d : Decisions) (lev v : ℕ) (seen : List ℕ) (xs : List Decision)
    → mentions v xs ≡ false
    → tally d lev (v ∷ seen) xs ≡ tally d lev seen xs
tally-absent d lev v seen [] ne = refl
tally-absent d lev v seen (x ∷ xs) ne =
    ground (arith, tally-absent d lev v seen xs, ==_iff (abs x.literal) v)

-- A newly seen package of the level counts once.
pub tally-cons :
    (d : Decisions) (lev v : ℕ) (seen : List ℕ) (xs : List Decision)
    → Distinct xs
    → mentions v xs ≡ true
    → mem v seen ≡ false
    → level_at d v ≡ lev
    → tally d lev (v ∷ seen) xs ≡ suc (tally d lev seen xs)
tally-cons d lev v seen [] t m new e = cc
tally-cons d lev v seen (x ∷ xs) t m new e =
    ground (
      arith,
      tally-cons d lev v seen xs t.1,
      tally-absent d lev v seen xs,
      ==_iff (abs x.literal) v,
    )

mem-without : (u v : ℕ) (seen : List ℕ) → mem u (without v seen) ≡ (not (u == v) && mem u seen)
mem-without u v [] = ground arith
mem-without u v (x ∷ seen) = ground (arith, mem-without u v seen)

pub mem_of_without :
    (u v : ℕ) (seen : List ℕ)
    → mem u (without v seen) ≡ true
    → (mem u seen ≡ true) × ((u == v) ≡ false)
mem_of_without u v seen h = ground (arith, mem-without u v seen)

pub without_keeps :
    (u v : ℕ) (seen : List ℕ) → (u == v) ≡ false → mem u seen ≡ true → mem u (without v seen) ≡ true
without_keeps u v seen ne h = ground (arith, mem-without u v seen)

-- A package that is not among the decisions may be forgotten.
pub tally-without :
    (d : Decisions) (lev v : ℕ) (seen : List ℕ) (xs : List Decision)
    → mentions v xs ≡ false
    → tally d lev (without v seen) xs ≡ tally d lev seen xs
tally-without d lev v seen [] m = refl
tally-without d lev v seen (x ∷ xs) m =
    ground (arith, tally-without d lev v seen xs, mem-without (abs x.literal) v seen)

pub tally-snoc :
    (d : Decisions) (lev : ℕ) (seen : List ℕ) (xs : List Decision) (x : Decision)
    → tally d lev seen (xs ++ x ∷ [])
      ≡ (if mem (abs x.literal) seen && (level_at d (abs x.literal) == lev) then 1 else 0)
        + tally d lev seen xs
tally-snoc d lev seen [] x = refl
tally-snoc d lev seen (y ∷ xs) x = ground (arith, tally-snoc d lev seen xs x)

-- Where the count is positive there is a decision of the level.
pub tally_pos :
    (d : Decisions) (lev : ℕ) (seen : List ℕ) (xs : List Decision)
    → 0 < tally d lev seen xs
    → (v : ℕ) × (mentions v xs ≡ true) × (level_at d v ≡ lev)
tally_pos d lev seen [] h = absurd (omega arith)
tally_pos d lev seen (x ∷ xs) h =
    elim (Bool-cases (mem (abs x.literal) seen && (level_at d (abs x.literal) == lev))) [
      | inl c ↦ (abs x.literal, ground arith, ground arith)
      | inr c ↦ let (v, m, e) = tally_pos d lev seen xs (ground arith) in (v, ground arith, e)
    ]

-- Where it is 0 there is no seen one.
pub tally_zero :
    (d : Decisions) (lev v : ℕ) (seen : List ℕ) (xs : List Decision)
    → tally d lev seen xs ≡ 0
    → mentions v xs ≡ true
    → mem v seen ≡ true
    → level_at d v ≢ lev
tally_zero d lev v seen [] z m n e = cc
tally_zero d lev v seen (x ∷ xs) z m n e =
    ground (arith, tally_zero d lev v seen xs, ==_iff (abs x.literal) v)

-- A seen decision of the level counts.
pub tally_witness :
    (d : Decisions) (lev v : ℕ) (seen : List ℕ) (xs : List Decision)
    → mentions v xs ≡ true
    → mem v seen ≡ true
    → level_at d v ≡ lev
    → 0 < tally d lev seen xs
tally_witness d lev v seen [] m n e = cc
tally_witness d lev v seen (x ∷ xs) m n e =
    ground (arith, tally_witness d lev v seen xs, ==_iff (abs x.literal) v)

-- More seen packages never lower a count.
pub tally_mono :
    (d : Decisions) (lev : ℕ) (seen more : List ℕ) (xs : List Decision)
    → ((v : ℕ) → mem v seen ≡ true → mem v more ≡ true)
    → tally d lev seen xs ≤ tally d lev more xs
tally_mono d lev seen more [] f = omega arith
tally_mono d lev seen more (x ∷ xs) f =
    ground (arith, tally_mono d lev seen more xs f, f (abs x.literal))

pub mentions-snoc :
    (v : ℕ) (xs : List Decision) (x : Decision)
    → mentions v (xs ++ x ∷ []) ≡ ((abs x.literal == v) || mentions v xs)
mentions-snoc v [] x = refl
mentions-snoc v (y ∷ xs) x = ground (arith, mentions-snoc v xs x)

mentions-take :
    (v i : ℕ) (xs : List Decision) → mentions v (take i xs) ≡ true → mentions v xs ≡ true
mentions-take v zero xs h = cc
mentions-take v (suc i) [] h = cc
mentions-take v (suc i) (x ∷ xs) h = ground (arith, mentions-take v i xs)

pub Distinct-take : (i : ℕ) (xs : List Decision) → Distinct xs → Distinct (take i xs)
Distinct-take zero xs t = tt
Distinct-take (suc i) [] t = tt
Distinct-take (suc i) (x ∷ xs) t =
    (ground (arith, mentions-take (abs x.literal) i xs, t.0), Distinct-take i xs t.1)

-- The package of the decision at `i` is not among those before.
pub not_before :
    (i : ℕ) (xs : List Decision) {x : Decision}
    → Distinct xs
    → get_elem? xs i ≡ some x
    → mentions (abs x.literal) (take i xs) ≡ false
not_before i [] t h = cc
not_before zero (y ∷ xs) t h = refl
not_before (suc i) (y ∷ xs) {x} t h =
    ground (arith, not_before i xs t.1 h, t.0, mentions_of_get i xs h)
  where
    mentions_of_get :
        (i : ℕ) (xs : List Decision) {x : Decision}
        → get_elem? xs i ≡ some x
        → mentions (abs x.literal) xs ≡ true
    mentions_of_get i [] h = cc
    mentions_of_get zero (y ∷ xs) h = ground arith
    mentions_of_get (suc i) (y ∷ xs) h = ground (arith, mentions_of_get i xs h)

-- What `find_seen` finds: the last decision before `i` on a seen package.
pub record Found (d : Decisions) (seen : List ℕ) (i : ℕ) (p : ℕ × ℤ) : Type 0 where
  pub decision : Decision
  pub at : get_elem? d.queue p.0 ≡ some decision
  pub literal : p.1 ≡ decision.literal
  pub earlier : p.0 < i
  pub was_seen : mem (abs decision.literal) seen ≡ true
  pub total :
      (lev : ℕ) → tally d lev seen (take i d.queue) ≡ tally d lev seen (take (suc p.0) d.queue)
  pub none_between :
      (v : ℕ)
      → mem v seen ≡ true
      → mentions v (take i d.queue) ≡ true
      → mentions v (take (suc p.0) d.queue) ≡ true

pub find_seen-Found :
    (d : Decisions) (seen : List ℕ) (rule analyzed i : ℕ) {p : ℕ × ℤ}
    → find_seen d seen rule analyzed i ≡ ok p
    → Found d seen i p
unfolding find_seen
find_seen-Found d seen rule analyzed zero h = cc
find_seen-Found d seen rule analyzed (suc k) {p} h = elim (Option-cases (get_elem? d.queue k)) [
  | inl q ↦ ground (arith, q)
  | inr (x, q) ↦ elim (Bool-cases (mem (abs x.literal) seen)) [
    | inl m ↦
        let e : ◌≡◌ {A = ℕ × ℤ} p (k, x.literal) = ground (arith, q, m) in
        rw e (record {
          decision = x;
          at = q;
          literal = refl;
          earlier = omega arith;
          was_seen = m;
          total = λ lev. refl;
          none_between = λ v _ n. n;
        })
    | inr m ↦
        let f = find_seen-Found d seen rule analyzed k {p = p} (ground (arith, q, m)) in
        record {
          decision = f.decision;
          at = f.at;
          literal = f.literal;
          earlier = omega (arith, f.earlier);
          was_seen = f.was_seen;
          total = λ lev. rw (take-suc d.queue k q) (rw tally-snoc (ground (arith, m, f.total lev)));
          none_between = λ v seen_v n. f.none_between v seen_v (
              ground (
                arith,
                m,
                n,
                take-suc d.queue k q,
                mentions-snoc v (take k d.queue) x,
                ==_iff (abs x.literal) v,
              ));
        }
  ]
]
