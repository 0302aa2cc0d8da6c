-- ===== src/NatSort/Fuel.antt =====
-- The loop of `strnatcasecmp` ends.
use vivace.Common.{
  ℕ, zero, suc, ◌+◌, ◌<◌, ◌≤◌, ◌==◌, Bool, true, false, ◌&&◌, ◌||◌, ◌≡◌, refl, sym, subst, [], ◌∷◌,
  length, if◌then◌else◌, Bool-cases, arith, inl, inr, and-true, Option, some, ap, ◌∙◌,
}
use vivace.PhpVer.{Bytes, Ordering, less, equal, greater, cmp, is_digit, value}
use vivace.NatSort.{
  biased, Compared, right_loop, compare_right, compare_left, skip_zeros, is_whitespace,
  skip_whitespace, to_uppercase, Round, stop, go, at_end, after_digits, compare_digits, round,
  natural_loop, resume, strnatcasecmp,
}

-- The comparison does not go back.
abbrev Within : ℕ → ℕ → Compared → Type 0
Within n m r = (length r.1.0 ≤ n) × (length r.1.1 ≤ m)

-- Nor does a round, and if it goes on, then further on.
abbrev Shrinks : ℕ → Round → Type 0
Shrinks n (stop o) = Unit
Shrinks n (go a b) = length a + length b < n

if-Within :
    (n m : ℕ) (c : Bool) (p q : Compared)
    → Within n m p
    → Within n m q
    → Within n m (if c then p else q)
if-Within n m true p q h k = h
if-Within n m false p q h k = k

Within-more : (n m : ℕ) (r : Compared) → Within n m r → Within (suc n) (suc m) r
Within-more n m r h = (omega (arith, h.0), omega (arith, h.1))

right_loop-Within : (o : Ordering) (a b : Bytes) → Within (length a) (length b) (right_loop o a b)
right_loop-Within o [] [] = (omega arith, omega arith)
right_loop-Within o [] (y ∷ b) =
    if-Within 0 (suc (length b)) (is_digit y) _ _ (omega arith, omega arith)
      (omega arith, omega arith)
right_loop-Within o (x ∷ a) [] =
    if-Within (suc (length a)) 0 (is_digit x) _ _ (omega arith, omega arith)
      (omega arith, omega arith)
right_loop-Within o (x ∷ a) (y ∷ b) =
    let n = length a in
    let m = length b in
    if-Within (suc n) (suc m) (is_digit x) _ _
      (if-Within (suc n) (suc m) (is_digit y) _ _
        (Within-more n m (right_loop (biased o x y) a b) (right_loop-Within (biased o x y) a b))
        (omega arith, omega arith))
      (if-Within (suc n) (suc m) (is_digit y) _ _ (omega arith, omega arith)
        (omega arith, omega arith))

compare_left-Within : (a b : Bytes) → Within (length a) (length b) (compare_left a b)
unfolding compare_left
compare_left-Within [] [] = (omega arith, omega arith)
compare_left-Within [] (y ∷ b) =
    if-Within 0 (suc (length b)) (is_digit y) _ _ (omega arith, omega arith)
      (omega arith, omega arith)
compare_left-Within (x ∷ a) [] =
    if-Within (suc (length a)) 0 (is_digit x) _ _ (omega arith, omega arith)
      (omega arith, omega arith)
compare_left-Within (x ∷ a) (y ∷ b) =
    let n = length a in
    let m = length b in
    if-Within (suc n) (suc m) (is_digit x) _ _
      (if-Within (suc n) (suc m) (is_digit y) _ _
        (if-Within (suc n) (suc m) (x == y) _ _
          (Within-more n m (compare_left a b) (compare_left-Within a b)) (omega arith, omega arith))
        (omega arith, omega arith))
      (if-Within (suc n) (suc m) (is_digit y) _ _ (omega arith, omega arith)
        (omega arith, omega arith))

at_end-Shrinks : (n : ℕ) (a b : Bytes) → length a + length b < n → Shrinks n (at_end a b)
at_end-Shrinks n [] [] h = tt
at_end-Shrinks n [] (y ∷ b) h = tt
at_end-Shrinks n (x ∷ a) [] h = tt
at_end-Shrinks n (x ∷ a) (y ∷ b) h = h

after_digits-Shrinks :
    (n m k : ℕ) (r : Compared) → Within n m r → n + m < k → Shrinks k (after_digits r)
after_digits-Shrinks n m k (less, (a, b)) h l = tt
after_digits-Shrinks n m k (equal, (a, b)) h l = at_end-Shrinks k a b (omega (arith, h.0, h.1, l))
after_digits-Shrinks n m k (greater, (a, b)) h l = tt

if-Shrinks :
    (n : ℕ) (c : Bool) (p q : Round)
    → (c ≡ true → Shrinks n p)
    → Shrinks n q
    → Shrinks n (if c then p else q)
if-Shrinks n true p q h k = h refl
if-Shrinks n false p q h k = k

after_digits_if :
    (n : ℕ) (c : Bool) (p q : Compared)
    → Shrinks n (after_digits p)
    → (c ≡ false → Shrinks n (after_digits q))
    → Shrinks n (after_digits (if c then p else q))
after_digits_if n true p q h k = h
after_digits_if n false p q h k = k refl

unequal_stops :
    (n : ℕ) (o : Ordering) (r : Bytes × Bytes) → (o ≡ equal → ⊥) → Shrinks n (after_digits (o, r))
unequal_stops n less r h = tt
unequal_stops n equal r h = absurd (h refl)
unequal_stops n greater r h = tt

cmp-unequal : (x y : ℕ) → (x == y) ≡ false → cmp x y ≡ equal → ⊥
cmp-unequal x y f e = ground (arith, f, e)

-- Two runs of digits: the first digits at least are behind.
digits_shrink :
    (x y : ℕ) (a b : Bytes)
    → is_digit x ≡ true
    → is_digit y ≡ true
    → Shrinks (suc (length a) + suc (length b)) (after_digits (compare_digits x y a b))
unfolding compare_right compare_left
digits_shrink x y a b dx dy = elim (Bool-cases ((x == 48) || (y == 48))) [
  | inl t ↦
      let n = suc (length a) + suc (length b) in
      let step : compare_left (x ∷ a) (y ∷ b)
          ≡ (if x == y then compare_left a b else (cmp x y, (x ∷ a, y ∷ b))) =
        rw dx rw dy refl in
      rw t (
        subst (λ r. Shrinks n (after_digits r)) (sym step)
          (after_digits_if n (x == y) (compare_left a b) (cmp x y, (x ∷ a, y ∷ b))
            (after_digits-Shrinks (length a) (length b) n (compare_left a b)
              (compare_left-Within a b) (omega arith))
            (λ f. unequal_stops n (cmp x y) (x ∷ a, y ∷ b) (λ e. cmp-unequal x y f e))))
  | inr f ↦ rw f rw dx rw dy (
      after_digits-Shrinks (length a) (length b) (suc (length a) + suc (length b))
        (right_loop (cmp x y) a b) (right_loop-Within (cmp x y) a b) (omega arith))
]

round-Shrinks : (a b : Bytes) → Shrinks (length a + length b) (round a b)
unfolding round
round-Shrinks [] [] = tt
round-Shrinks [] (y ∷ b) = tt
round-Shrinks (x ∷ a) [] = tt
round-Shrinks (x ∷ a) (y ∷ b) =
    let n = suc (length a) + suc (length b) in
    if-Shrinks n (is_digit x && is_digit y) _ _
      (λ t. let (dx, dy) = and-true (is_digit x) (is_digit y) t in digits_shrink x y a b dx dy)
      (if-Shrinks n (to_uppercase x == to_uppercase y) _ _ (λ t. at_end-Shrinks n a b (omega arith))
        tt)

skip_whitespace-length : (a : Bytes) → length (skip_whitespace a) ≤ length a
skip_whitespace-length [] = omega arith
skip_whitespace-length (c ∷ cs) = elim (Bool-cases (is_whitespace c)) [
  | inl t ↦ rw t (omega (arith, skip_whitespace-length cs))
  | inr f ↦ rw f (omega arith)
]

skip_zeros-length : (a : Bytes) → length (skip_zeros a) ≤ length a
skip_zeros-length [] = omega arith
skip_zeros-length (c ∷ []) = omega arith
skip_zeros-length (c ∷ d ∷ cs) = elim (Bool-cases ((c == 48) && is_digit d)) [
  | inl t ↦ rw t (omega (arith, skip_zeros-length (d ∷ cs)))
  | inr f ↦ rw f (omega arith)
]

-- Where the rounds that follow give a result, the loop does.
resume-Returns :
    (n : ℕ) (f : Bytes → Bytes → Option Ordering) (r : Round)
    → Shrinks n r
    → ((a b : Bytes) → length a + length b < n → (o : Ordering) × (f a b ≡ some o))
    → (o : Ordering) × (resume f r ≡ some o)
resume-Returns n f (stop o) h k = (o, refl)
resume-Returns n f (go a b) h k = k a b h

-- With fuel above the length of the strings the loop gives a result.
natural_loop-Returns :
    (fuel : ℕ) (a b : Bytes)
    → length a + length b < fuel
    → (o : Ordering) × (natural_loop fuel a b ≡ some o)
natural_loop-Returns zero a b h = absurd (omega arith)
natural_loop-Returns (suc fuel) a b h =
    let s = skip_whitespace a in
    let t = skip_whitespace b in
    let shorter : length s + length t ≤ length a + length b =
      omega (arith, skip_whitespace-length a, skip_whitespace-length b) in
    resume-Returns (length s + length t) (natural_loop fuel) (round s t) (round-Shrinks s t)
      (λ x y l. natural_loop-Returns fuel x y (omega (arith, l, shorter, h)))

resume_alike :
    (n : ℕ) (f g : Bytes → Bytes → Option Ordering) (r : Round)
    → Shrinks n r
    → ((a b : Bytes) → length a + length b < n → f a b ≡ g a b)
    → resume f r ≡ resume g r
resume_alike n f g (stop o) h k = refl
resume_alike n f g (go a b) h k = k a b h

-- More fuel than the strings are long changes nothing.
loops_alike :
    (fuel more : ℕ) (a b : Bytes)
    → length a + length b < fuel
    → length a + length b < more
    → natural_loop fuel a b ≡ natural_loop more a b
loops_alike zero more a b h k = absurd (omega arith)
loops_alike (suc fuel) zero a b h k = absurd (omega arith)
loops_alike (suc fuel) (suc more) a b h k =
    let s = skip_whitespace a in
    let t = skip_whitespace b in
    let shorter : length s + length t ≤ length a + length b =
      omega (arith, skip_whitespace-length a, skip_whitespace-length b) in
    resume_alike (length s + length t) (natural_loop fuel) (natural_loop more) (round s t)
      (round-Shrinks s t)
      (λ x y l.
        loops_alike fuel more x y (omega (arith, l, shorter, h)) (omega (arith, l, shorter, k)))

-- The loop of `strnatcasecmp` ends: with any fuel above the length of the two strings it gives a
-- result, and that is the result of `strnatcasecmp`.
pub strnatcasecmp-fuel :
    (a b : Bytes) (fuel : ℕ)
    → length a + length b < fuel
    → natural_loop fuel (skip_zeros a) (skip_zeros b) ≡ some (strnatcasecmp a b)
unfolding strnatcasecmp
strnatcasecmp-fuel a b fuel h =
    let shorter : length (skip_zeros a) + length (skip_zeros b) ≤ length a + length b =
      omega (arith, skip_zeros-length a, skip_zeros-length b) in
    let (o, run) =
      natural_loop-Returns fuel (skip_zeros a) (skip_zeros b) (omega (arith, shorter, h)) in
    let same =
      loops_alike fuel (suc (length a + length b)) (skip_zeros a) (skip_zeros b)
        (omega (arith, shorter, h)) (omega (arith, shorter)) in
    run ∙ ap (λ r. some (value equal r)) (sym run ∙ same)
