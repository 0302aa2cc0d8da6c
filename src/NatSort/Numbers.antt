-- ===== src/NatSort/Numbers.antt =====
-- Numbers in names: `strnatcasecmp` orders two names that differ in the number at their end by its
-- value.
use vivace.Common.{
  ℕ, zero, suc, ◌+◌, ◌-◌, ◌*◌, ◌<◌, ◌≤◌, ◌==◌, ==_iff, ltb, leb→le, ltb→lt, Bool, true, false, not,
  ◌&&◌, ◌||◌, ◌≡◌, refl, sym, ◌∙◌, ap, [], ◌∷◌, ◌++◌, length, length-append, if◌then◌else◌,
  Bool-cases, arith, inl, inr, and-true, ◌⊎◌, Option, some,
}
use vivace.PhpVer.{Bytes, Ordering, less, equal, greater, cmp, is_digit, value}
use vivace.NatSort.{
  biased, Compared, right_loop, compare_right, compare_left, skip_zeros, is_whitespace,
  skip_whitespace, to_uppercase, Round, stop, go, at_end, after_digits, compare_digits, round,
  natural_loop, resume, strnatcasecmp,
}

-- The value of digits behind those of a value.
abbrev value_from : ℕ → Bytes → ℕ
value_from v [] = v
value_from v (c ∷ cs) = value_from (10 * v + (c - 48)) cs

abbrev pub value_of : Bytes → ℕ
value_of s = value_from 0 s

abbrev all_digits : Bytes → Bool
all_digits [] = true
all_digits (c ∷ cs) = is_digit c && all_digits cs

-- A decimal number without a leading zero.
abbrev pub is_decimal : Bytes → Bool
is_decimal [] = false
is_decimal (c ∷ cs) = (is_digit c && not (c == 48)) && all_digits cs

-- Neither digits nor whitespace.
abbrev pub is_word : Bytes → Bool
is_word [] = true
is_word (c ∷ cs) = (not (is_digit c) && not (is_whitespace c)) && is_word cs

digit_range : (c : ℕ) → is_digit c ≡ true → (48 ≤ c) × (c ≤ 57)
digit_range c h =
    (omega (arith, leb→le 48 c (ground (arith, h))), omega (arith, leb→le c 57 (ground (arith, h))))

value_from-grows : (v : ℕ) (s : Bytes) → v ≤ value_from v s
value_from-grows v [] = omega arith
value_from-grows v (c ∷ cs) = omega (arith, value_from-grows (10 * v + (c - 48)) cs)

cmp_less : (a b : ℕ) → a < b → cmp a b ≡ less
cmp_less a b h = ground (arith, h)

cmp_greater : (a b : ℕ) → b < a → cmp a b ≡ greater
cmp_greater a b h = ground (arith, h)

cmp_equal : (a b : ℕ) → a ≡ b → cmp a b ≡ equal
cmp_equal a b h = ground (arith, h)

cmp-cases :
    (a b : ℕ)
    → ((a < b) × (cmp a b ≡ less))
      ⊎ (((a ≡ b) × (cmp a b ≡ equal)) ⊎ ((b < a) × (cmp a b ≡ greater)))
cmp-cases a b = elim (Bool-cases (ltb a b)) [
  | inl t ↦ let l = ltb→lt a b t in inl (l, cmp_less a b l)
  | inr f ↦ elim (Bool-cases (a == b)) [
    | inl e ↦ inr (inl ((==_iff a b).0 e, ground (arith, f, e)))
    | inr g ↦ let l : b < a = ground (arith, f, g) in inr (inr (l, cmp_greater a b l))
  ]
]

-- One more digit decides where there was no difference before.
biased-cmp :
    (v w x y : ℕ)
    → is_digit x ≡ true
    → is_digit y ≡ true
    → biased (cmp v w) x y ≡ cmp (10 * v + (x - 48)) (10 * w + (y - 48))
biased-cmp v w x y dx dy =
    let (lx, ux) = digit_range x dx in
    let (ly, uy) = digit_range y dy in
    elim (cmp-cases v w) [
      | inl (l, c) ↦ rw c (sym (cmp_less (10 * v + (x - 48)) (10 * w + (y - 48)) (omega arith)))
      | inr (inl (e, c)) ↦ rw c (same_values e lx ly)
      | inr (inr (g, c)) ↦
          rw c (sym (cmp_greater (10 * v + (x - 48)) (10 * w + (y - 48)) (omega arith)))
    ]
  where
    same_values : v ≡ w → 48 ≤ x → 48 ≤ y → cmp x y ≡ cmp (10 * v + (x - 48)) (10 * w + (y - 48))
    same_values e lx ly = elim (cmp-cases x y) [
      | inl (l, c) ↦ c ∙ sym (cmp_less (10 * v + (x - 48)) (10 * w + (y - 48)) (omega arith))
      | inr (inl (q, c)) ↦ c ∙ sym (cmp_equal (10 * v + (x - 48)) (10 * w + (y - 48)) (omega arith))
      | inr (inr (g, c)) ↦
          c ∙ sym (cmp_greater (10 * v + (x - 48)) (10 * w + (y - 48)) (omega arith))
    ]

-- The run of digits that is longer is the greater number, since both values so far have the same
-- number of digits.
right_loop-value :
    (v w : ℕ) (a b : Bytes)
    → v < 10 * w
    → w < 10 * v
    → all_digits a ≡ true
    → all_digits b ≡ true
    → (right_loop (cmp v w) a b).0 ≡ cmp (value_from v a) (value_from w b)
right_loop-value v w [] [] h k da db = refl
right_loop-value v w [] (y ∷ b) h k da db =
    let (d, _) = and-true (is_digit y) (all_digits b) db in
    rw d (
      sym (
        cmp_less v (value_from (10 * w + (y - 48)) b)
          (omega (arith, value_from-grows (10 * w + (y - 48)) b, h))))
right_loop-value v w (x ∷ a) [] h k da db =
    let (d, _) = and-true (is_digit x) (all_digits a) da in
    rw d (
      sym (
        cmp_greater (value_from (10 * v + (x - 48)) a) w
          (omega (arith, value_from-grows (10 * v + (x - 48)) a, k))))
right_loop-value v w (x ∷ a) (y ∷ b) h k da db =
    let (dx, ea) = and-true (is_digit x) (all_digits a) da in
    let (dy, eb) = and-true (is_digit y) (all_digits b) db in
    let (lx, ux) = digit_range x dx in
    let (ly, uy) = digit_range y dy in
    rw dx rw dy (
      ap (λ o. (right_loop o a b).0) (biased-cmp v w x y dx dy)
      ∙ right_loop-value (10 * v + (x - 48)) (10 * w + (y - 48)) a b (omega arith) (omega arith) ea
          eb)

right_loop-digits :
    (o : Ordering) (x y : ℕ) (a b : Bytes)
    → is_digit x ≡ true
    → is_digit y ≡ true
    → right_loop o (x ∷ a) (y ∷ b) ≡ right_loop (biased o x y) a b
right_loop-digits o x y a b dx dy = rw dx rw dy refl

-- Equal runs end together.
right_loop-rest :
    (o : Ordering) (a b : Bytes)
    → all_digits a ≡ true
    → all_digits b ≡ true
    → (right_loop o a b).0 ≡ equal
    → (right_loop o a b).1 ≡ ([], [])
right_loop-rest o [] [] da db h = refl
right_loop-rest o [] (y ∷ b) da db h =
    let (d, _) = and-true (is_digit y) (all_digits b) db in absurd (ground (arith, d, h))
right_loop-rest o (x ∷ a) [] da db h =
    let (d, _) = and-true (is_digit x) (all_digits a) da in absurd (ground (arith, d, h))
right_loop-rest o (x ∷ a) (y ∷ b) da db h =
    let (dx, ea) = and-true (is_digit x) (all_digits a) da in
    let (dy, eb) = and-true (is_digit y) (all_digits b) db in
    let step = right_loop-digits o x y a b dx dy in
    ap (λ r. r.1) step ∙ right_loop-rest (biased o x y) a b ea eb (sym (ap (λ r. r.0) step) ∙ h)

resume-after_digits :
    (loop : Bytes → Bytes → Option Ordering) (r : Compared)
    → (r.0 ≡ equal → r.1 ≡ ([], []))
    → resume loop (after_digits r) ≡ some r.0
resume-after_digits loop (less, r) h = refl
resume-after_digits loop (equal, r) h =
    ap (λ (r : Bytes × Bytes). resume loop (at_end r.0 r.1)) (h refl)
resume-after_digits loop (greater, r) h = refl

digit-not_whitespace : (c : ℕ) → is_digit c ≡ true → is_whitespace c ≡ false
digit-not_whitespace c h = let (l, u) = digit_range c h in ground (arith, l)

skip_whitespace-digit : (c : ℕ) (cs : Bytes) → is_digit c ≡ true → skip_whitespace (c ∷ cs) ≡ c ∷ cs
skip_whitespace-digit c cs h = rw (digit-not_whitespace c h) refl

round-digits :
    (x y : ℕ) (a b : Bytes)
    → is_digit x ≡ true
    → is_digit y ≡ true
    → ((x == 48) || (y == 48)) ≡ false
    → round (x ∷ a) (y ∷ b) ≡ after_digits (right_loop equal (x ∷ a) (y ∷ b))
unfolding round compare_right
round-digits x y a b dx dy z =
    ap (λ c. if c then after_digits (compare_digits x y a b) else letters) both
    ∙ ap
        (λ c.
          after_digits (if c then compare_left (x ∷ a) (y ∷ b) else compare_right (x ∷ a) (y ∷ b)))
        z
  where
    both : (is_digit x && is_digit y) ≡ true
    both = ground (arith, dx, dy)

    letters : Round
    letters =
        if to_uppercase x == to_uppercase y
        then at_end a b
        else stop (cmp (to_uppercase x) (to_uppercase y))

-- A digit that is not zero.
above_zero : (c : ℕ) → is_digit c ≡ true → not (c == 48) ≡ true → 48 < c
above_zero c d n = let (l, u) = digit_range c d in ground (arith, l, n)

-- A round on two numbers without leading zeros compares their values.
number_round :
    (fuel : ℕ) (a b : Bytes)
    → is_decimal a ≡ true
    → is_decimal b ≡ true
    → natural_loop (suc fuel) a b ≡ some (cmp (value_of a) (value_of b))
number_round fuel [] b h k = cc
number_round fuel (x ∷ a) [] h k = cc
number_round fuel (x ∷ a) (y ∷ b) h k =
    let (px, da) = and-true (is_digit x && not (x == 48)) (all_digits a) h in
    let (py, db) = and-true (is_digit y && not (y == 48)) (all_digits b) k in
    let (dx, nx) = and-true (is_digit x) (not (x == 48)) px in
    let (dy, ny) = and-true (is_digit y) (not (y == 48)) py in
    let (lx, ux) = digit_range x dx in
    let (ly, uy) = digit_range y dy in
    let gx = above_zero x dx nx in
    let gy = above_zero y dy ny in
    let run = right_loop equal (x ∷ a) (y ∷ b) in
    let step = right_loop-digits equal x y a b dx dy in
    ap (λ s. resume (natural_loop fuel) (round s (skip_whitespace (y ∷ b))))
      (skip_whitespace-digit x a dx)
    ∙ ap (λ s. resume (natural_loop fuel) (round (x ∷ a) s)) (skip_whitespace-digit y b dy)
    ∙ ap (resume (natural_loop fuel)) (round-digits x y a b dx dy (ground (arith, nx, ny)))
    ∙ resume-after_digits (natural_loop fuel) run
        (right_loop-rest equal (x ∷ a) (y ∷ b) (rw dx da) (rw dy db))
    ∙ ap (λ r. some r.0) step
    ∙ ap (λ o. some (right_loop o a b).0) (biased-cmp 0 0 x y dx dy)
    ∙ ap some (
        right_loop-value (10 * 0 + (x - 48)) (10 * 0 + (y - 48)) a b (omega arith) (omega arith) da
          db)

==-refl : (a : ℕ) → (a == a) ≡ true
==-refl a = (==_iff a a).1 refl

-- A character of the word, before both strings go on.
word_round :
    (fuel c : ℕ) (a b : Bytes)
    → is_digit c ≡ false
    → is_whitespace c ≡ false
    → natural_loop (suc fuel) (c ∷ a) (c ∷ b) ≡ resume (natural_loop fuel) (at_end a b)
unfolding round
word_round fuel c a b d w = rw w rw d rw (==-refl (to_uppercase c)) refl

not-true : (b : Bool) → not b ≡ true → b ≡ false
not-true true h = cc
not-true false h = refl

word_first :
    (c : ℕ) (p : Bytes)
    → is_word (c ∷ p) ≡ true
    → (is_digit c ≡ false) × ((is_whitespace c ≡ false) × (is_word p ≡ true))
word_first c p h =
    let (both, rest) = and-true (not (is_digit c) && not (is_whitespace c)) (is_word p) h in
    let (d, w) = and-true (not (is_digit c)) (not (is_whitespace c)) both in
    (not-true (is_digit c) d, (not-true (is_whitespace c) w, rest))

-- Neither string is over behind the word.
at_end-word :
    (p a b : Bytes)
    → is_decimal a ≡ true
    → is_decimal b ≡ true
    → at_end (p ++ a) (p ++ b) ≡ go (p ++ a) (p ++ b)
at_end-word [] [] b h k = cc
at_end-word [] (x ∷ a) [] h k = cc
at_end-word [] (x ∷ a) (y ∷ b) h k = refl
at_end-word (c ∷ p) a b h k = refl

word_rounds :
    (fuel : ℕ) (p a b : Bytes)
    → length p < fuel
    → is_word p ≡ true
    → is_decimal a ≡ true
    → is_decimal b ≡ true
    → natural_loop fuel (p ++ a) (p ++ b) ≡ some (cmp (value_of a) (value_of b))
word_rounds zero p a b le w h k = absurd (omega arith)
word_rounds (suc fuel) [] a b le w h k = number_round fuel a b h k
word_rounds (suc fuel) (c ∷ p) a b le w h k =
    let (d, (s, rest)) = word_first c p w in
    word_round fuel c (p ++ a) (p ++ b) d s
    ∙ ap (resume (natural_loop fuel)) (at_end-word p a b h k)
    ∙ word_rounds fuel p a b (omega arith) rest h k

skip_zeros-first : (c : ℕ) (cs : Bytes) → (c == 48) ≡ false → skip_zeros (c ∷ cs) ≡ c ∷ cs
skip_zeros-first c [] h = refl
skip_zeros-first c (d ∷ cs) h = rw h refl

skip_zeros-word :
    (p a : Bytes) → is_word p ≡ true → is_decimal a ≡ true → skip_zeros (p ++ a) ≡ p ++ a
skip_zeros-word [] [] w h = cc
skip_zeros-word [] (x ∷ a) w h = skip_zeros-first x a (ground (arith, h))
skip_zeros-word (c ∷ p) a w h =
    skip_zeros-first c (p ++ a) (let (d, _) = word_first c p w in ground (arith, d))

-- Two names that are the same word, without digits and whitespace, and then a number without a
-- leading zero, are in the order of the numbers' values, however long these are.
pub strnatcasecmp-value_of :
    (p a b : Bytes)
    → is_word p ≡ true
    → is_decimal a ≡ true
    → is_decimal b ≡ true
    → strnatcasecmp (p ++ a) (p ++ b) ≡ cmp (value_of a) (value_of b)
unfolding strnatcasecmp
strnatcasecmp-value_of p a b w h k =
    let fuel = suc (length (p ++ a) + length (p ++ b)) in
    ap (λ s. value equal (natural_loop fuel s (skip_zeros (p ++ b)))) (skip_zeros-word p a w h)
    ∙ ap (λ s. value equal (natural_loop fuel (p ++ a) s)) (skip_zeros-word p b w k)
    ∙ ap (value equal) (word_rounds fuel p a b (omega (arith, length-append p a)) w h k)
