-- ===== src/PhpVer/Canonical.antt =====
-- The fast path of `version_compare` for plain dotted numbers.
use vivace.Common.{
  ℕ, ap, Option, some, ◌==◌, ==_iff, true, false, ◌≡◌, refl, ◌∙◌, sym, ◌&&◌, ◌||◌, List, [], ◌∷◌,
  ◌++◌, last?, last?-snoc, arith, append_assoc', append_nil, Bool-cases, inl, inr, ◌⊎◌,
  if◌then◌else◌,
}
use vivace.PhpVer.{
  Bytes, dot, is_digit, is_dot, canonical_step, canonicalize_loop, canonicalize, all_plain, value,
  less, equal, greater, cmp, parse_num, or_else, or_go_on, double_dot, ends_digit, starts_digit,
  is_plain_dotted, split, prepend, Ordering, compare_parts, compare_numbers, compare_canonical,
  compare_canonical_in, version_compare,
}

-- One round copies a digit, or a dot that is not the second in a row.
canonical_step_plain :
    (out : Bytes) (lp c : ℕ)
    → is_dot (last? out) ≡ (lp == dot)
    → (is_digit lp || (lp == dot)) ≡ true
    → (is_digit c || (c == dot)) ≡ true
    → ((lp == dot) && (c == dot)) ≡ false
    → canonical_step out lp c ≡ out ++ c ∷ []
canonical_step_plain out lp c e p q n = ground (arith, ==_iff c dot, ==_iff lp dot)

canonicalize_loop_plain :
    (out : Bytes) (lp : ℕ) (cs : Bytes)
    → is_dot (last? out) ≡ (lp == dot)
    → all_plain (lp ∷ cs) ≡ true
    → double_dot (lp ∷ cs) ≡ false
    → canonicalize_loop out lp cs ≡ out ++ cs
unfolding canonicalize_loop
canonicalize_loop_plain out lp [] e p n = sym (append_nil out)
canonicalize_loop_plain out lp (c ∷ cs) e p n =
    rw (canonical_step_plain out lp c e (ground arith) (ground arith) (ground arith)) (
      canonicalize_loop_plain (out ++ c ∷ []) c cs (rw (last?-snoc out c) refl) (ground arith)
        (ground arith)
      ∙ append_assoc' out (c ∷ []) cs)

-- Canonicalization is the identity on plain dotted numbers.
pub canonicalize_plain : (s : Bytes) → is_plain_dotted s ≡ true → canonicalize s ≡ s
unfolding canonicalize is_plain_dotted
canonicalize_plain [] h = refl
canonicalize_plain (c ∷ cs) h =
    canonicalize_loop_plain (c ∷ []) c cs refl (ground (arith, h)) (ground (arith, h))

abbrev AllNumbers : List Bytes → Type 0
AllNumbers [] = Unit
AllNumbers (p ∷ ps) = (starts_digit p ≡ true) × AllNumbers ps

AllNumbers-prepend :
    (c : ℕ) (ps : List Bytes) → is_digit c ≡ true → AllNumbers ps → AllNumbers (prepend c ps)
unfolding starts_digit
AllNumbers-prepend c [] d h = (d, tt)
AllNumbers-prepend c (p ∷ ps) d h = (d, h.1)

split-digit : (c : ℕ) (cs : Bytes) → is_digit c ≡ true → split (c ∷ cs) ≡ prepend c (split cs)
split-digit c cs d = let e : (c == dot) ≡ false = ground (arith, ==_iff c dot) in rw e refl

split-dot : (c : ℕ) (cs : Bytes) → (c == dot) ≡ true → split (c ∷ cs) ≡ [] ∷ split cs
split-dot c cs e = rw e refl

-- The components of a plain dotted number are numbers.
AllNumbers-split :
    (s : Bytes)
    → starts_digit s ≡ true
    → ends_digit (last? s) ≡ true
    → all_plain s ≡ true
    → double_dot s ≡ false
    → AllNumbers (split s)
unfolding starts_digit
AllNumbers-split [] d e p n = cc
AllNumbers-split (c ∷ []) d e p n = rw (split-digit c [] d) (d, tt)
AllNumbers-split (c ∷ x ∷ []) d e p n =
    rw (split-digit c (x ∷ []) d)
      (AllNumbers-prepend c (split (x ∷ [])) d (AllNumbers-split (x ∷ []) e e (ground arith) refl))
AllNumbers-split (c ∷ x ∷ y ∷ ys) d e p n = elim (Bool-cases (x == dot)) [
  | inl is ↦
      rw (split-digit c (x ∷ y ∷ ys) d, split-dot x (y ∷ ys) is)
        (d, AllNumbers-split (y ∷ ys) (ground arith) e (ground arith) (ground arith))
  | inr not_ ↦ rw (split-digit c (x ∷ y ∷ ys) d) (
      AllNumbers-prepend c (split (x ∷ y ∷ ys)) d
        (AllNumbers-split (x ∷ y ∷ ys) (ground arith) e (ground arith) (ground arith)))
]

or_go_on-some : (o r : Ordering) → or_go_on o (some r) ≡ some (or_else o r)
or_go_on-some less r = refl
or_go_on-some equal r = refl
or_go_on-some greater r = refl

-- On numbers the loops agree.
compare_parts-numbers :
    (again : Bytes → Bytes → Option Ordering) (xs ys : List Bytes)
    → AllNumbers xs
    → AllNumbers ys
    → compare_parts again xs ys ≡ some (compare_numbers xs ys)
unfolding compare_parts compare_numbers
compare_parts-numbers again [] [] h k = refl
compare_parts-numbers again [] (y ∷ ys) h k = rw (k.0) refl
compare_parts-numbers again (x ∷ xs) [] h k = rw (h.0) refl
compare_parts-numbers again (x ∷ xs) (y ∷ ys) h k =
    rw (h.0, k.0, compare_parts-numbers again xs ys h.1 k.1)
      (or_go_on-some (cmp (parse_num x) (parse_num y)) (compare_numbers xs ys))

numbers_of : (s : Bytes) → is_plain_dotted s ≡ true → AllNumbers (split s)
unfolding is_plain_dotted
numbers_of s h = AllNumbers-split s (ground arith) (ground arith) (ground arith) (ground arith)

compare_canonical-plain :
    (a b : Bytes)
    → is_plain_dotted a ≡ true
    → is_plain_dotted b ≡ true
    → compare_canonical a b ≡ compare_numbers (split a) (split b)
unfolding compare_canonical
compare_canonical-plain [] b h k = unfold is_plain_dotted in cc
compare_canonical-plain (x ∷ xs) [] h k = unfold is_plain_dotted in cc
compare_canonical-plain (x ∷ xs) (y ∷ ys) h k = ap (value equal) (
    compare_parts-numbers (compare_canonical_in 1) (split (x ∷ xs)) (split (y ∷ ys))
      (numbers_of (x ∷ xs) h) (numbers_of (y ∷ ys) k))

same_result :
    (a b : Bytes) → version_compare a b ≡ compare_canonical (canonicalize a) (canonicalize b)
unfolding version_compare
same_result a b = elim (Bool-cases (is_plain_dotted a)) [
  | inr h ↦ rw h refl
  | inl h ↦ elim (Bool-cases (is_plain_dotted b)) [
    | inr k ↦ rw (h, k) refl
    | inl k ↦
        rw (h, k, canonicalize_plain a h, canonicalize_plain b k)
          (sym (compare_canonical-plain a b h k))
  ]
]

-- The fast path changes no result: on any two strings `version_compare` is the comparison of their
-- canonical forms, and the canonical form of plain dotted numbers is the string itself.
pub version_compare-canonicalize :
    (a b : Bytes)
    → (version_compare a b ≡ compare_canonical (canonicalize a) (canonicalize b))
      × (canonicalize a ≡ (if is_plain_dotted a then a else canonicalize a))
version_compare-canonicalize a b = (same_result a b, itself (Bool-cases (is_plain_dotted a)))
  where
    itself :
        (is_plain_dotted a ≡ true) ⊎ (is_plain_dotted a ≡ false)
        → canonicalize a ≡ (if is_plain_dotted a then a else canonicalize a)
    itself (inl h) = rw h (canonicalize_plain a h)
    itself (inr h) = rw h refl
