-- ===== src/NatSort/Order.antt =====
-- `strnatcasecmp` with its arguments exchanged, and the fuel of its loop.
use vivace.Common.{
  ℕ, zero, suc, ◌+◌, ◌==◌, ==_iff, Bool, true, false, ◌&&◌, ◌||◌, ◌≡◌, refl, ◌∙◌, ap, [], ◌∷◌,
  length, Option, if◌then◌else◌, Bool-cases, arith, inl, inr,
}
use vivace.PhpVer.{Bytes, Ordering, less, equal, greater, cmp, is_digit, value}
use vivace.PhpVer.Order.{reverse, reverse_some, value-reverse_some, cmp-reverse}
use vivace.NatSort.{
  biased, Compared, right_loop, compare_right, compare_left, skip_zeros, skip_whitespace,
  to_uppercase, Round, stop, go, at_end, after_digits, compare_digits, round, natural_loop, resume,
  strnatcasecmp,
}

-- A comparison from the other side.
abbrev exchanged : Compared → Compared
exchanged (o, (a, b)) = (reverse o, (b, a))

abbrev flip : Round → Round
flip (stop o) = stop (reverse o)
flip (go a b) = go b a

==-sym : (x y : ℕ) → (x == y) ≡ (y == x)
==-sym x y = ground (arith, ==_iff x y, ==_iff y x)

if-swaps :
    {A : Type 0} (swap : A → A) (c : Bool) {p q r s : A}
    → p ≡ swap r
    → q ≡ swap s
    → (if c then p else q) ≡ swap (if c then r else s)
if-swaps swap true h k = h
if-swaps swap false h k = k

biased-reverse : (o : Ordering) (x y : ℕ) → biased (reverse o) y x ≡ reverse (biased o x y)
biased-reverse less x y = refl
biased-reverse equal x y = cmp-reverse x y
biased-reverse greater x y = refl

right_loop-exchanged :
    (o : Ordering) (a b : Bytes) → right_loop (reverse o) b a ≡ exchanged (right_loop o a b)
right_loop-exchanged o [] [] = refl
right_loop-exchanged o [] (y ∷ b) = elim (Bool-cases (is_digit y)) [
  | inl t ↦ rw t refl
  | inr f ↦ rw f refl
]
right_loop-exchanged o (x ∷ a) [] = elim (Bool-cases (is_digit x)) [
  | inl t ↦ rw t refl
  | inr f ↦ rw f refl
]
right_loop-exchanged o (x ∷ a) (y ∷ b) = elim (Bool-cases (is_digit x)) [
  | inl t ↦ elim (Bool-cases (is_digit y)) [
    | inl u ↦ rw t rw u (
        ap (λ p. right_loop p b a) (biased-reverse o x y) ∙ right_loop-exchanged (biased o x y) a b)
    | inr g ↦ rw t rw g refl
  ]
  | inr f ↦ elim (Bool-cases (is_digit y)) [ inl u ↦ rw f rw u refl | inr g ↦ rw f rw g refl ]
]

compare_left-exchanged : (a b : Bytes) → compare_left b a ≡ exchanged (compare_left a b)
unfolding compare_left
compare_left-exchanged [] [] = refl
compare_left-exchanged [] (y ∷ b) = elim (Bool-cases (is_digit y)) [
  | inl t ↦ rw t refl
  | inr f ↦ rw f refl
]
compare_left-exchanged (x ∷ a) [] = elim (Bool-cases (is_digit x)) [
  | inl t ↦ rw t refl
  | inr f ↦ rw f refl
]
compare_left-exchanged (x ∷ a) (y ∷ b) = elim (Bool-cases (is_digit x)) [
  | inl t ↦ elim (Bool-cases (is_digit y)) [
    | inl u ↦ rw t rw u (
        ap (λ e. if e then compare_left b a else (cmp y x, (y ∷ b, x ∷ a))) (==-sym y x)
        ∙ if-swaps exchanged (x == y) (compare_left-exchanged a b)
            (ap (λ o. (o, (y ∷ b, x ∷ a))) (cmp-reverse x y)))
    | inr g ↦ rw t rw g refl
  ]
  | inr f ↦ elim (Bool-cases (is_digit y)) [ inl u ↦ rw f rw u refl | inr g ↦ rw f rw g refl ]
]

at_end-flip : (a b : Bytes) → at_end b a ≡ flip (at_end a b)
at_end-flip [] [] = refl
at_end-flip [] (y ∷ b) = refl
at_end-flip (x ∷ a) [] = refl
at_end-flip (x ∷ a) (y ∷ b) = refl

after_digits-flip : (c : Compared) → after_digits (exchanged c) ≡ flip (after_digits c)
after_digits-flip (less, (a, b)) = refl
after_digits-flip (equal, (a, b)) = at_end-flip a b
after_digits-flip (greater, (a, b)) = refl

and_comm : (a b : Bool) → (a && b) ≡ (b && a)
and_comm a b = ground arith

or_comm : (a b : Bool) → (a || b) ≡ (b || a)
or_comm a b = ground arith

compare_digits-exchanged :
    (x y : ℕ) (a b : Bytes) → compare_digits y x b a ≡ exchanged (compare_digits x y a b)
unfolding compare_right compare_digits
compare_digits-exchanged x y a b =
    rw (or_comm (y == 48) (x == 48)) (elim (Bool-cases ((x == 48) || (y == 48))) [
      | inl t ↦ rw t (compare_left-exchanged (x ∷ a) (y ∷ b))
      | inr f ↦ rw f (right_loop-exchanged equal (x ∷ a) (y ∷ b))
    ])

round-flip : (a b : Bytes) → round b a ≡ flip (round a b)
unfolding round
round-flip [] [] = refl
round-flip [] (y ∷ b) = refl
round-flip (x ∷ a) [] = refl
round-flip (x ∷ a) (y ∷ b) =
    ap (λ e. if e then after_digits (compare_digits y x b a) else letters y x b a)
      (and_comm (is_digit y) (is_digit x))
    ∙ if-swaps flip (is_digit x && is_digit y)
        (ap after_digits (compare_digits-exchanged x y a b)
          ∙ after_digits-flip (compare_digits x y a b))
        (ap (λ e. if e then at_end b a else stop (cmp (to_uppercase y) (to_uppercase x)))
            (==-sym (to_uppercase y) (to_uppercase x))
          ∙ if-swaps flip (to_uppercase x == to_uppercase y) (at_end-flip a b)
              (ap stop (cmp-reverse (to_uppercase x) (to_uppercase y))))
  where
    letters : ℕ → ℕ → Bytes → Bytes → Round
    letters x y a b =
        if to_uppercase x == to_uppercase y
        then at_end a b
        else stop (cmp (to_uppercase x) (to_uppercase y))

resume-flip :
    (loop : Bytes → Bytes → Option Ordering)
    → ((a b : Bytes) → loop b a ≡ reverse_some (loop a b))
    → (r : Round) → resume loop (flip r) ≡ reverse_some (resume loop r)
resume-flip loop h (stop o) = refl
resume-flip loop h (go a b) = h a b

natural_loop-reverse :
    (fuel : ℕ) (a b : Bytes) → natural_loop fuel b a ≡ reverse_some (natural_loop fuel a b)
natural_loop-reverse zero a b = refl
natural_loop-reverse (suc fuel) a b =
    ap (resume (natural_loop fuel)) (round-flip (skip_whitespace a) (skip_whitespace b))
    ∙ resume-flip (natural_loop fuel) (natural_loop-reverse fuel)
        (round (skip_whitespace a) (skip_whitespace b))

own_equal : (o : Ordering) → o ≡ reverse o → o ≡ equal
own_equal less h = cc
own_equal equal h = refl
own_equal greater h = cc

-- With its arguments exchanged `strnatcasecmp` gives the reverse result; so a string is equal to
-- itself.
pub strnatcasecmp-reverse :
    (a b : Bytes) → (strnatcasecmp b a ≡ reverse (strnatcasecmp a b)) × (strnatcasecmp a a ≡ equal)
unfolding strnatcasecmp
strnatcasecmp-reverse a b = (both a b, own_equal (strnatcasecmp a a) (both a a))
  where
    both : (a b : Bytes) → strnatcasecmp b a ≡ reverse (strnatcasecmp a b)
    both a b =
        ap (λ n. value equal (natural_loop (suc n) (skip_zeros b) (skip_zeros a)))
          (let e : length b + length a ≡ length a + length b = omega arith in e)
        ∙ ap (value equal)
            (natural_loop-reverse (suc (length a + length b)) (skip_zeros a) (skip_zeros b))
        ∙ value-reverse_some
            (natural_loop (suc (length a + length b)) (skip_zeros a) (skip_zeros b))
