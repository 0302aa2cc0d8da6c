-- ===== src/PhpVer/Order.antt =====
-- `version_compare` with its arguments exchanged, and the depth of the calls of `compare_canonical`.
use vivace.Common.{
  ℕ, zero, suc, ◌==◌, ==_iff, ℤ, pos, negsuc, Bool, true, false, not, ◌≡◌, refl, sym, ◌&&◌, List,
  [], ◌∷◌, arith, Bool-cases, inl, inr, Option, none, some, ap, ◌∙◌,
}
use vivace.PhpVer.{
  Bytes, dot, hash_n, split, prepend, Ordering, less, equal, greater, cmp, cmp_ℤ, compare_special,
  special_rank, parse_num, compare_part, compare_parts, compare_canonical, compare_canonical_in,
  version_compare, canonicalize, or_go_on, value,
}
use vivace.PhpVer.Canonical.{version_compare-canonicalize}

abbrev pub reverse : Ordering → Ordering
reverse less = greater
reverse equal = equal
reverse greater = less

pub cmp-reverse : (a b : ℕ) → cmp b a ≡ reverse (cmp a b)
cmp-reverse a b = ground (arith, ==_iff a b, ==_iff b a)

pub cmp_ℤ-reverse : (a b : ℤ) → cmp_ℤ b a ≡ reverse (cmp_ℤ a b)
cmp_ℤ-reverse (pos a) (pos b) = ground (arith, ==_iff a b, ==_iff b a)
cmp_ℤ-reverse (pos a) (negsuc b) = ground arith
cmp_ℤ-reverse (negsuc a) (pos b) = ground arith
cmp_ℤ-reverse (negsuc a) (negsuc b) = ground (arith, ==_iff a b, ==_iff b a)

compare_special-reverse : (x y : Bytes) → compare_special y x ≡ reverse (compare_special x y)
unfolding compare_special
compare_special-reverse x y = cmp_ℤ-reverse (special_rank x) (special_rank y)

compare_part-reverse : (x y : Bytes) → compare_part y x ≡ reverse (compare_part x y)
unfolding compare_part
compare_part-reverse x y = ground (
  arith,
  cmp-reverse (parse_num x) (parse_num y),
  compare_special-reverse x y,
  compare_special-reverse hash_n y,
  compare_special-reverse x hash_n,
)

-- The reverse of a result that may be missing.
abbrev pub reverse_some : Option Ordering → Option Ordering
reverse_some none = none
reverse_some (some o) = some (reverse o)

reverse_some-or_go_on :
    (a : Ordering) (b : Option Ordering)
    → reverse_some (or_go_on a b) ≡ or_go_on (reverse a) (reverse_some b)
reverse_some-or_go_on less b = refl
reverse_some-or_go_on equal b = refl
reverse_some-or_go_on greater b = refl

pub value-reverse_some :
    (r : Option Ordering) → value equal (reverse_some r) ≡ reverse (value equal r)
value-reverse_some none = refl
value-reverse_some (some o) = refl

compare_parts-reverse :
    (again : Bytes → Bytes → Option Ordering)
    → ((x y : Bytes) → again y x ≡ reverse_some (again x y))
    → (xs ys : List Bytes) → compare_parts again ys xs ≡ reverse_some (compare_parts again xs ys)
unfolding compare_parts
compare_parts-reverse again h [] [] = refl
compare_parts-reverse again h [] (y ∷ ys) = ground (arith, h hash_n y)
compare_parts-reverse again h (x ∷ xs) [] = ground (arith, h x hash_n)
compare_parts-reverse again h (x ∷ xs) (y ∷ ys) =
    rw (compare_part-reverse x y, compare_parts-reverse again h xs ys)
      (sym (reverse_some-or_go_on (compare_part x y) (compare_parts again xs ys)))

compare_canonical_in-reverse :
    (depth : ℕ) (a b : Bytes)
    → compare_canonical_in depth b a ≡ reverse_some (compare_canonical_in depth a b)
unfolding compare_canonical_in
compare_canonical_in-reverse zero a b = refl
compare_canonical_in-reverse (suc depth) [] [] = refl
compare_canonical_in-reverse (suc depth) [] (y ∷ ys) = refl
compare_canonical_in-reverse (suc depth) (x ∷ xs) [] = refl
compare_canonical_in-reverse (suc depth) (x ∷ xs) (y ∷ ys) =
    compare_parts-reverse (compare_canonical_in depth) (compare_canonical_in-reverse depth)
      (split (x ∷ xs)) (split (y ∷ ys))

-- With its arguments exchanged `version_compare` gives the reverse result, on plain dotted numbers
-- and on any other strings; so a string is equal to itself.
pub version_compare-reverse :
    (a b : Bytes)
    → (version_compare b a ≡ reverse (version_compare a b)) × (version_compare a a ≡ equal)
version_compare-reverse a b = (exchanged a b, own (version_compare a a) (exchanged a a))
  where
    exchanged : (a b : Bytes) → version_compare b a ≡ reverse (version_compare a b)
    exchanged a b =
        rw ((version_compare-canonicalize a b).0, (version_compare-canonicalize b a).0)
          (unfold compare_canonical in
            (ap (value equal) (compare_canonical_in-reverse 2 (canonicalize a) (canonicalize b))
              ∙ value-reverse_some (compare_canonical_in 2 (canonicalize a) (canonicalize b))))

    own : (r : Ordering) → r ≡ reverse r → r ≡ equal
    own r h = ground (arith, h)

-- No component of a split string holds a dot.
abbrev dot_free : Bytes → Bool
dot_free [] = true
dot_free (c ∷ cs) = not (c == dot) && dot_free cs

abbrev AllFree : List Bytes → Type 0
AllFree [] = Unit
AllFree (p ∷ ps) = (dot_free p ≡ true) × AllFree ps

AllFree-prepend :
    (c : ℕ) (ps : List Bytes) → (c == dot) ≡ false → AllFree ps → AllFree (prepend c ps)
AllFree-prepend c [] e h = (rw e refl, tt)
AllFree-prepend c (p ∷ ps) e h = (rw e h.0, h.1)

split-AllFree : (s : Bytes) → AllFree (split s)
split-AllFree [] = (refl, tt)
split-AllFree (c ∷ cs) = elim (Bool-cases (c == dot)) [
  | inl e ↦ rw e (refl, split-AllFree cs)
  | inr e ↦ rw e (AllFree-prepend c (split cs) e (split-AllFree cs))
]

split-dot_free : (s : Bytes) → dot_free s ≡ true → split s ≡ s ∷ []
split-dot_free [] h = refl
split-dot_free (c ∷ cs) h =
    let e : (c == dot) ≡ false = ground (arith, h) in
    rw (e, split-dot_free cs (ground (arith, h))) refl

-- A call with one component on each side makes no further call.
compare_canonical_in-single :
    (j k : ℕ) (x y : Bytes)
    → dot_free x ≡ true
    → dot_free y ≡ true
    → compare_canonical_in (suc j) x y ≡ compare_canonical_in (suc k) x y
unfolding compare_canonical_in
compare_canonical_in-single j k [] [] h g = refl
compare_canonical_in-single j k [] (y ∷ ys) h g = refl
compare_canonical_in-single j k (x ∷ xs) [] h g = refl
compare_canonical_in-single j k (x ∷ xs) (y ∷ ys) h g =
    rw (split-dot_free (x ∷ xs) h, split-dot_free (y ∷ ys) g) refl

compare_parts-same :
    (f g : Bytes → Bytes → Option Ordering)
    → ((x y : Bytes) → dot_free x ≡ true → dot_free y ≡ true → f x y ≡ g x y)
    → (xs ys : List Bytes) → AllFree xs
    → AllFree ys
    → compare_parts f xs ys ≡ compare_parts g xs ys
unfolding compare_parts
compare_parts-same f g e [] [] h k = refl
compare_parts-same f g e [] (y ∷ ys) h k = rw (e hash_n y refl k.0) refl
compare_parts-same f g e (x ∷ xs) [] h k = rw (e x hash_n h.0 refl) refl
compare_parts-same f g e (x ∷ xs) (y ∷ ys) h k = rw (compare_parts-same f g e xs ys h.1 k.1) refl

abbrev is_some : Option Ordering → Bool
is_some none = false
is_some (some o) = true

some-value : (r : Option Ordering) → is_some r ≡ true → r ≡ some (value equal r)
some-value none h = cc
some-value (some o) h = refl

compare_parts-is_some :
    (again : Bytes → Bytes → Option Ordering)
    → ((x y : Bytes) → dot_free x ≡ true → dot_free y ≡ true → is_some (again x y) ≡ true)
    → (xs ys : List Bytes) → AllFree xs
    → AllFree ys
    → is_some (compare_parts again xs ys) ≡ true
unfolding compare_parts
compare_parts-is_some again e [] [] h k = refl
compare_parts-is_some again e [] (y ∷ ys) h k = ground (arith, e hash_n y refl k.0)
compare_parts-is_some again e (x ∷ xs) [] h k = ground (arith, e x hash_n h.0 refl)
compare_parts-is_some again e (x ∷ xs) (y ∷ ys) h k =
    goes_on (compare_part x y) (compare_parts again xs ys)
      (compare_parts-is_some again e xs ys h.1 k.1)
  where
    goes_on :
        (o : Ordering) (r : Option Ordering) → is_some r ≡ true → is_some (or_go_on o r) ≡ true
    goes_on less r h = refl
    goes_on equal r h = h
    goes_on greater r h = refl

-- One component on each side: the first result is there.
single-is_some :
    (x y : Bytes)
    → dot_free x ≡ true
    → dot_free y ≡ true
    → is_some (compare_canonical_in 1 x y) ≡ true
unfolding compare_canonical_in compare_parts
single-is_some [] [] h g = refl
single-is_some [] (y ∷ ys) h g = refl
single-is_some (x ∷ xs) [] h g = refl
single-is_some (x ∷ xs) (y ∷ ys) h g =
    rw (split-dot_free (x ∷ xs) h, split-dot_free (y ∷ ys) g)
      (alone (compare_part (x ∷ xs) (y ∷ ys)))
  where
    alone : (o : Ordering) → is_some (or_go_on o (some equal)) ≡ true
    alone less = refl
    alone equal = refl
    alone greater = refl

-- The calls nest once more at most.
nested-is_some : (a b : Bytes) → is_some (compare_canonical_in 2 a b) ≡ true
unfolding compare_canonical_in
nested-is_some [] [] = refl
nested-is_some [] (y ∷ ys) = refl
nested-is_some (x ∷ xs) [] = refl
nested-is_some (x ∷ xs) (y ∷ ys) =
    compare_parts-is_some (compare_canonical_in 1) single-is_some (split (x ∷ xs)) (split (y ∷ ys))
      (split-AllFree (x ∷ xs)) (split-AllFree (y ∷ ys))

-- Any greater depth gives the result of two calls.
compare_canonical_in-deeper :
    (depth : ℕ) (a b : Bytes)
    → compare_canonical_in (suc (suc depth)) a b ≡ compare_canonical_in 2 a b
unfolding compare_canonical_in
compare_canonical_in-deeper depth [] [] = refl
compare_canonical_in-deeper depth [] (y ∷ ys) = refl
compare_canonical_in-deeper depth (x ∷ xs) [] = refl
compare_canonical_in-deeper depth (x ∷ xs) (y ∷ ys) =
    compare_parts-same (compare_canonical_in (suc depth)) (compare_canonical_in 1)
      (compare_canonical_in-single depth 0) (split (x ∷ xs)) (split (y ∷ ys))
      (split-AllFree (x ∷ xs)) (split-AllFree (y ∷ ys))

-- The calls of `compare_canonical` nest at most twice: with room for two nested calls or more there
-- is always a result, and it is that of `compare_canonical`.
pub compare_canonical-depth :
    (depth : ℕ) (a b : Bytes)
    → compare_canonical_in (suc (suc depth)) a b ≡ some (compare_canonical a b)
unfolding compare_canonical
compare_canonical-depth depth a b =
    compare_canonical_in-deeper depth a b
    ∙ some-value (compare_canonical_in 2 a b) (nested-is_some a b)
