-- ===== src/Sorter/Ordered.antt =====
-- The order of the packages.
use vivace.Common.{
  ℕ, ◌+◌, ◌==◌, ℤ, eqb_ℤ, eqb_ℤ_iff, ltb_ℤ, ◌⊎◌, true, false, ◌&&◌, ◌≡◌, refl, sym, ◌∙◌, ap, subst,
  none, some, List, [], ◌∷◌, map, length, if◌then◌else◌, Bool-cases, arith, inl, inr,
}
use vivace.PhpVer.{Ordering, less, equal, greater, cmp_ℤ, is_greater}
use vivace.PhpVer.Order.{reverse, cmp_ℤ-reverse}
use vivace.NatSort.{strnatcasecmp}
use vivace.NatSort.Order.{strnatcasecmp-reverse}
use vivace.Sorter.{
  SortablePackage, Weighted, weighted, name_at, then_with, order, insert_by, sort_by, sort_packages,
}
use vivace.Sorter.Weights.{count_from, index, weighted-Returns}

-- How often an entry stands in a list.
abbrev pub count_entry : ℤ × ℕ → Weighted → ℕ
count_entry w [] = 0
count_entry w (x ∷ xs) = (if eqb_ℤ w.0 x.0 && (w.1 == x.1) then 1 else 0) + count_entry w xs

-- No entry comes behind one that is greater.
abbrev pub InOrder : (ℤ × ℕ → ℤ × ℕ → Ordering) → Weighted → Type 0
InOrder compare [] = Unit
InOrder compare (x ∷ []) = Unit
InOrder compare (x ∷ y ∷ ys) = (is_greater (compare x y) ≡ false) × InOrder compare (y ∷ ys)

then_with-reverse : (a b : Ordering) → then_with (reverse a) (reverse b) ≡ reverse (then_with a b)
then_with-reverse less b = refl
then_with-reverse equal b = refl
then_with-reverse greater b = refl

pub order-reverse :
    (ps : List SortablePackage) (x y : ℤ × ℕ) → order ps y x ≡ reverse (order ps x y)
unfolding order
order-reverse ps (wa, ia) (wb, ib) =
    ap (λ o. then_with o (strnatcasecmp (name_at ps ib) (name_at ps ia))) (cmp_ℤ-reverse wa wb)
    ∙ ap (then_with (reverse (cmp_ℤ wa wb)))
        (strnatcasecmp-reverse (name_at ps ia) (name_at ps ib)).0
    ∙ then_with-reverse (cmp_ℤ wa wb) (strnatcasecmp (name_at ps ia) (name_at ps ib))

greater_reversed : (o : Ordering) → is_greater o ≡ true → is_greater (reverse o) ≡ false
greater_reversed less h = cc
greater_reversed equal h = cc
greater_reversed greater h = refl

count_entry-insert_by :
    (compare : ℤ × ℕ → ℤ × ℕ → Ordering) (w x : ℤ × ℕ) (ys : Weighted)
    → count_entry w (insert_by compare x ys) ≡ count_entry w (x ∷ ys)
count_entry-insert_by compare w x [] = refl
count_entry-insert_by compare w x (y ∷ ys) = elim (Bool-cases (is_greater (compare x y))) [
  | inl t ↦ rw t (omega (arith, count_entry-insert_by compare w x ys))
  | inr f ↦ rw f refl
]

count_entry-sort_by :
    (compare : ℤ × ℕ → ℤ × ℕ → Ordering) (w : ℤ × ℕ) (xs : Weighted)
    → count_entry w (sort_by compare xs) ≡ count_entry w xs
count_entry-sort_by compare w [] = refl
count_entry-sort_by compare w (x ∷ xs) =
    count_entry-insert_by compare w x (sort_by compare xs)
    ∙ ap (λ n. (if eqb_ℤ w.0 x.0 && (w.1 == x.1) then 1 else 0) + n)
        (count_entry-sort_by compare w xs)

module _ (compare : ℤ × ℕ → ℤ × ℕ → Ordering)
    (swap : (x y : ℤ × ℕ) → compare y x ≡ reverse (compare x y)) where
  not_behind : (x y : ℤ × ℕ) → is_greater (compare x y) ≡ true → is_greater (compare y x) ≡ false
  not_behind x y t = ap is_greater (swap x y) ∙ greater_reversed (compare x y) t

  -- An entry stays in front of two that it is not greater than.
  in_front :
      (y x z : ℤ × ℕ) (zs : Weighted)
      → is_greater (compare y x) ≡ false
      → is_greater (compare y z) ≡ false
      → InOrder compare (insert_by compare x (z ∷ zs))
      → InOrder compare (y ∷ insert_by compare x (z ∷ zs))
  in_front y x z zs f g h = elim (Bool-cases (is_greater (compare x z))) [
    | inl t ↦ at_front (insert_first t) g h
    | inr e ↦ at_front (insert_here e) f h
  ]
    where
      at_front :
          {ws vs : Weighted} {v : ℤ × ℕ}
          → ws ≡ v ∷ vs
          → is_greater (compare y v) ≡ false
          → InOrder compare ws
          → InOrder compare (y ∷ ws)
      at_front {vs = vs} {v = v} e g h =
          subst (λ ws. InOrder compare (y ∷ ws)) (sym e) (g, subst (InOrder compare) e h)

      insert_first :
          is_greater (compare x z) ≡ true
          → insert_by compare x (z ∷ zs) ≡ z ∷ insert_by compare x zs
      insert_first t = rw (t, insert_by) refl

      insert_here : is_greater (compare x z) ≡ false → insert_by compare x (z ∷ zs) ≡ x ∷ z ∷ zs
      insert_here e = rw (e, insert_by) refl

  insert_by-InOrder :
      (x : ℤ × ℕ) (ys : Weighted) → InOrder compare ys → InOrder compare (insert_by compare x ys)
  insert_by-InOrder x [] h = tt
  insert_by-InOrder x (y ∷ []) h = elim (Bool-cases (is_greater (compare x y))) [
    | inl t ↦ rw (t, insert_by) (not_behind x y t, tt)
    | inr f ↦ rw (f, insert_by) (f, tt)
  ]
  insert_by-InOrder x (y ∷ z ∷ zs) h = elim (Bool-cases (is_greater (compare x y))) [
    | inl t ↦
        let step : insert_by compare x (y ∷ z ∷ zs) ≡ y ∷ insert_by compare x (z ∷ zs) =
          ap (λ c. if c then y ∷ insert_by compare x (z ∷ zs) else x ∷ y ∷ z ∷ zs) t in
        subst (InOrder compare) (sym step)
          (in_front y x z zs (not_behind x y t) h.0 (insert_by-InOrder x (z ∷ zs) h.1))
    | inr f ↦
        let step : insert_by compare x (y ∷ z ∷ zs) ≡ x ∷ y ∷ z ∷ zs =
          ap (λ c. if c then y ∷ insert_by compare x (z ∷ zs) else x ∷ y ∷ z ∷ zs) f in
        subst (InOrder compare) (sym step) (f, h)
  ]

  pub sort_by-InOrder : (xs : Weighted) → InOrder compare (sort_by compare xs)
  sort_by-InOrder [] = tt
  sort_by-InOrder (x ∷ xs) = insert_by-InOrder x (sort_by compare xs) (sort_by-InOrder xs)

-- A lower weight comes first, and at the same weight the name that is not behind in natural order.
abbrev pub Before : List SortablePackage → ℤ × ℕ → ℤ × ℕ → Type 0
Before ps (v, i) (w, j) =
    (ltb_ℤ v w ≡ true)
    ⊎ ((v ≡ w) × (is_greater (strnatcasecmp (name_at ps i) (name_at ps j)) ≡ false))

abbrev pub AllBefore : List SortablePackage → Weighted → Type 0
AllBefore ps [] = Unit
AllBefore ps (x ∷ []) = Unit
AllBefore ps (x ∷ y ∷ ys) = Before ps x y × AllBefore ps (y ∷ ys)

Before_of_order :
    (ps : List SortablePackage) (x y : ℤ × ℕ) → is_greater (order ps x y) ≡ false → Before ps x y
unfolding order
Before_of_order ps (v, i) (w, j) h = elim (Bool-cases (ltb_ℤ v w)) [
  | inl t ↦ inl t
  | inr f ↦ elim (Bool-cases (eqb_ℤ v w)) [
    | inl e ↦ inr ((eqb_ℤ_iff v w).0 e, ground (arith, h, f, e))
    | inr g ↦ absurd (ground (arith, h, f, g))
  ]
]

AllBefore-InOrder :
    (ps : List SortablePackage) (xs : Weighted) → InOrder (order ps) xs → AllBefore ps xs
AllBefore-InOrder ps [] h = tt
AllBefore-InOrder ps (x ∷ []) h = tt
AllBefore-InOrder ps (x ∷ y ∷ ys) h =
    (Before_of_order ps x y h.0, AllBefore-InOrder ps (y ∷ ys) h.1)

-- `sort_packages` returns, whatever cycles the requirements have: it weighs every package once,
-- and gives the packages' indices in an order of the same weights in which each package has a lower
-- weight than the next one, or the same weight and a name that is not behind the next one's in
-- natural order.
pub sort_packages_lem :
    (ps : List SortablePackage)
    → (ws sorted : Weighted) × (weighted ps ≡ some ws)
      × (map index ws ≡ count_from 0 (length ps))
      × (sort_packages ps ≡ some (map index sorted))
      × ((w : ℤ × ℕ) → count_entry w sorted ≡ count_entry w ws)
      × AllBefore ps sorted
unfolding sort_packages
sort_packages_lem ps =
    let (ws, ran, numbered) = weighted-Returns ps in
    (
      ws,
      sort_by (order ps) ws,
      ran,
      numbered,
      ap (λ r. elim r [ none ↦ none | some ws ↦ some (map index (sort_by (order ps) ws)) ]) ran,
      (λ w. count_entry-sort_by (order ps) w ws),
      AllBefore-InOrder ps (sort_by (order ps) ws)
          (sort_by-InOrder (order ps) (order-reverse ps) ws),
    )
