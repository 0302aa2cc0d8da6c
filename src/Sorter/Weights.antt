-- ===== src/Sorter/Weights.antt =====
-- Every package gets a weight, and the packages come out in the order of the weights.
use vivace.Common.{
  ℕ, zero, suc, ◌+◌, ◌<◌, ◌≤◌, ℤ, pos, true, false, ◌≡◌, refl, sym, ◌∙◌, ap, subst, Option, none,
  some, List, [], ◌∷◌, ◌++◌, map, length, if◌then◌else◌, Bool-cases, Option-cases, arith, inl, inr,
  or-false,
}
use vivace.PhpVer.Equality.{eqb_bytes-eq, eqb_bytes_refl}
use vivace.PhpVer.{Bytes, eqb_bytes}
use vivace.Sorter.{
  SortablePackage, Usage, push_user, push_users, usage_of, lookup, users_of, contains_name,
  remove_name, Ctx, sub_ℤ, Weighed, visit_users, importance, Weighted, weigh, weighted,
}

-- How many of the names are not being computed.
abbrev remaining : List Bytes → List Bytes → ℕ
remaining [] computing = 0
remaining (n ∷ ns) computing = (if contains_name computing n then 0 else 1) + remaining ns computing

-- All users are among the names.
abbrev AllNamed : List Bytes → List Bytes → Type 0
AllNamed names [] = Unit
AllNamed names (u ∷ us) = (contains_name names u ≡ true) × AllNamed names us

abbrev IsNamed : List Bytes → Usage → Type 0
IsNamed names usage = (n : Bytes) → AllNamed names (users_of usage n)

-- A call that returns leaves the set of computations as it was.
abbrev Kept : Ctx → Weighed → Type 0
Kept ctx r = (ctx' : Ctx) × (w : ℤ) × (r ≡ some (ctx', w)) × (ctx'.computing ≡ ctx.computing)

-- The loop behind its first user.
abbrev continue : (Ctx → Bytes → Weighed) → ℤ → List Bytes → Weighed → Weighed
continue visit w us r = elim r [
  | none ↦ none
  | some p ↦ visit_users visit p.0 (sub_ℤ w (sub_ℤ (pos 1) p.1)) us
]

visit_users-Kept :
    (visit : Ctx → Bytes → Weighed) (names : List Bytes) (ctx : Ctx) (w : ℤ) (us : List Bytes)
    → ((c : Ctx) (u : Bytes)
        → c.computing ≡ ctx.computing
        → contains_name names u ≡ true
        → Kept c (visit c u))
    → AllNamed names us
    → Kept ctx (visit_users visit ctx w us)
visit_users-Kept visit names ctx w [] h k = (ctx, w, refl, refl)
visit_users-Kept visit names ctx w (u ∷ us) h k =
    let (c, i, e, same) = h ctx u refl k.0 in
    let (c', w', e', same') =
      visit_users-Kept visit names c (sub_ℤ w (sub_ℤ (pos 1) i)) us
        (λ d v eq m. h d v (eq ∙ same) m) k.1 in
    (c', w', ap (continue visit w us) e ∙ e', same' ∙ same)

remove_name-absent :
    (ns : List Bytes) (n : Bytes) → contains_name ns n ≡ false → remove_name ns n ≡ ns
remove_name-absent [] n h = refl
remove_name-absent (m ∷ ns) n h =
    let (f, g) = or-false (eqb_bytes m n) (contains_name ns n) h in
    rw f (ap (λ r. m ∷ r) (remove_name-absent ns n g))

remaining-le :
    (names computing : List Bytes) (n : Bytes)
    → remaining names (n ∷ computing) ≤ remaining names computing
remaining-le [] computing n = omega arith
remaining-le (m ∷ ms) computing n = elim (Bool-cases (eqb_bytes n m)) [
  | inl t ↦ rw t (omega (arith, remaining-le ms computing n))
  | inr f ↦ rw f (omega (arith, remaining-le ms computing n))
]

remaining-less :
    (names computing : List Bytes) (n : Bytes)
    → contains_name names n ≡ true
    → contains_name computing n ≡ false
    → remaining names (n ∷ computing) < remaining names computing
remaining-less [] computing n h k = cc
remaining-less (m ∷ ms) computing n h k = elim (Bool-cases (eqb_bytes m n)) [
  | inl t ↦
      let same = eqb_bytes-eq m n t in
      let own : eqb_bytes n m ≡ true = ap (eqb_bytes n) same ∙ eqb_bytes_refl n in
      let out : contains_name computing m ≡ false = ap (contains_name computing) same ∙ k in
      rw own rw out (omega (arith, remaining-le ms computing n))
  | inr f ↦
      let rest = remaining-less ms computing n (ground (arith, h, f)) k in
      elim (Bool-cases (eqb_bytes n m)) [
        | inl t ↦ rw t (omega (arith, rest))
        | inr g ↦ rw g (omega (arith, rest))
      ]
]

importance-Kept :
    (fuel : ℕ) (names : List Bytes) (usage : Usage) (ctx : Ctx) (name : Bytes)
    → IsNamed names usage
    → contains_name names name ≡ true
    → remaining names ctx.computing < fuel
    → Kept ctx (importance fuel usage ctx name)
unfolding importance
importance-Kept zero names usage ctx name h m f = absurd (omega arith)
importance-Kept (suc fuel) names usage ctx name h m f =
    elim (Option-cases (lookup ctx.computed name)) [
      | inr s ↦ (ctx, s.0, rw (s.1, importance) refl, refl)
      | inl n ↦ elim (Bool-cases (contains_name ctx.computing name)) [
        | inl t ↦ (ctx, pos 0, rw (n, t, importance) refl, refl)
        | inr g ↦
            let less = remaining-less names ctx.computing name m g in
            let (c, w, e, same) =
              visit_users-Kept (importance fuel usage) names
                (record ctx { computing = name ∷ ctx.computing }) (pos 0) (users_of usage name)
                (λ d u eq mu.
                  importance-Kept fuel names usage d u h mu
                    (subst (λ cs. remaining names cs < fuel) (sym eq) (omega (arith, less, f))))
                (h name) in
            (
              record {
                computing = remove_name c.computing name;
                computed = (name, w) ∷ c.computed;
              },
              w,
              rw (n, g, e, importance) refl,
              ap (λ cs. remove_name cs name) same
                  ∙ ap
                      (λ b.
                        if b
                        then remove_name ctx.computing name
                        else name ∷ remove_name ctx.computing name)
                      (eqb_bytes_refl name)
                  ∙ remove_name-absent ctx.computing name g,
            )
      ]
    ]

abbrev AllEntries : List Bytes → Usage → Type 0
AllEntries names [] = Unit
AllEntries names ((key, users) ∷ usage) = AllNamed names users × AllEntries names usage

AllEntries-IsNamed :
    (names : List Bytes) (usage : Usage) → AllEntries names usage → IsNamed names usage
AllEntries-IsNamed names [] h n = tt
AllEntries-IsNamed names ((key, users) ∷ usage) h n = elim (Bool-cases (eqb_bytes key n)) [
  | inl t ↦ rw (t, users_of) h.0
  | inr f ↦ rw (f, users_of) (AllEntries-IsNamed names usage h.1 n)
]

AllNamed-snoc :
    (names us : List Bytes) (n : Bytes)
    → AllNamed names us
    → contains_name names n ≡ true
    → AllNamed names (us ++ n ∷ [])
AllNamed-snoc names [] n h m = (m, tt)
AllNamed-snoc names (u ∷ us) n h m = (h.0, AllNamed-snoc names us n h.1 m)

push_user-AllEntries :
    (names : List Bytes) (usage : Usage) (target n : Bytes)
    → contains_name names n ≡ true
    → AllEntries names usage
    → AllEntries names (push_user usage target n)
push_user-AllEntries names [] target n m h = ((m, tt), tt)
push_user-AllEntries names ((key, users) ∷ usage) target n m h =
    elim (Bool-cases (eqb_bytes key target)) [
      | inl t ↦ rw t (AllNamed-snoc names users n h.0 m, h.1)
      | inr f ↦ rw f (h.0, push_user-AllEntries names usage target n m h.1)
    ]

push_users-AllEntries :
    (names : List Bytes) (usage : Usage) (n : Bytes) (targets : List Bytes)
    → contains_name names n ≡ true
    → AllEntries names usage
    → AllEntries names (push_users usage n targets)
push_users-AllEntries names usage n [] m h = h
push_users-AllEntries names usage n (t ∷ ts) m h =
    push_users-AllEntries names (push_user usage t n) n ts m
      (push_user-AllEntries names usage t n m h)

abbrev names_of : List SortablePackage → List Bytes
names_of [] = []
names_of (p ∷ ps) = p.name ∷ names_of ps

usage_of-AllEntries :
    (names : List Bytes) (usage : Usage) (ps : List SortablePackage)
    → AllNamed names (names_of ps)
    → AllEntries names usage
    → AllEntries names (usage_of usage ps)
usage_of-AllEntries names usage [] m h = h
usage_of-AllEntries names usage (p ∷ ps) m h =
    usage_of-AllEntries names (push_users usage p.name p.requires) ps m.1
      (push_users-AllEntries names usage p.name p.requires m.0 h)

AllNamed-more : (names ns : List Bytes) (m : Bytes) → AllNamed names ns → AllNamed (m ∷ names) ns
AllNamed-more names [] m h = tt
AllNamed-more names (n ∷ ns) m h = (ground (arith, h.0), AllNamed-more names ns m h.1)

AllNamed-refl : (ns : List Bytes) → AllNamed ns ns
AllNamed-refl [] = tt
AllNamed-refl (n ∷ ns) = (rw (eqb_bytes_refl n) refl, AllNamed-more ns ns n (AllNamed-refl ns))

remaining-length : (ps : List SortablePackage) → remaining (names_of ps) [] ≤ length ps
remaining-length [] = omega arith
remaining-length (p ∷ ps) = omega (arith, remaining-length ps)

-- The numbers from one on.
abbrev pub count_from : ℕ → ℕ → List ℕ
count_from i zero = []
count_from i (suc n) = i ∷ count_from (i + 1) n

abbrev pub index : ℤ × ℕ → ℕ
index w = w.1

abbrev Counted : ℕ → List SortablePackage → Option Weighted → Type 0
Counted i ps r = (ws : Weighted) × (r ≡ some ws) × (map index ws ≡ count_from i (length ps))

-- The packages behind one that has its weight.
abbrev behind : ℕ → Usage → ℕ → List SortablePackage → Weighed → Option Weighted
behind fuel usage i ps r = elim r [
  | none ↦ none
  | some q ↦ elim (weigh fuel usage q.0 (i + 1) ps) [ none ↦ none | some ws ↦ some ((q.1, i) ∷ ws) ]
]

weigh-Counted :
    (fuel : ℕ) (names : List Bytes) (usage : Usage) (ctx : Ctx) (i : ℕ) (ps : List SortablePackage)
    → IsNamed names usage
    → AllNamed names (names_of ps)
    → ctx.computing ≡ []
    → remaining names [] < fuel
    → Counted i ps (weigh fuel usage ctx i ps)
unfolding weigh
weigh-Counted fuel names usage ctx i [] h m e f = ([], refl, refl)
weigh-Counted fuel names usage ctx i (p ∷ ps) h m e f =
    let (c, w, ran, kept) =
      importance-Kept fuel names usage ctx p.name h m.0
        (subst (λ cs. remaining names cs < fuel) (sym e) f) in
    let (ws, rest, numbered) = weigh-Counted fuel names usage c (i + 1) ps h m.1 (kept ∙ e) f in
    (
      (w, i) ∷ ws,
      ap (behind fuel usage i ps) ran
          ∙ ap (λ r. elim r [ none ↦ none | some ws ↦ some ((w, i) ∷ ws) ]) rest,
      ap (λ is. i ∷ is) numbered,
    )

-- Every package gets one weight, whatever cycles the requirements have: the depth of the calls of
-- `importance` is enough, and the weights stand in the order of the packages.
pub weighted-Returns :
    (ps : List SortablePackage)
    → (ws : Weighted) × (weighted ps ≡ some ws) × (map index ws ≡ count_from 0 (length ps))
unfolding weighted
weighted-Returns ps =
    let names = names_of ps in
    let named =
      AllEntries-IsNamed names (usage_of [] ps)
        (usage_of-AllEntries names [] ps (AllNamed-refl names) tt) in
    weigh-Counted (suc (length ps)) names (usage_of [] ps)
      (record { computing = []; computed = [] }) 0 ps named (AllNamed-refl names) refl
      (omega (arith, remaining-length ps))
