-- ===== src/NatSort.antt =====
-- crates/vivacity-autoload/src/natsort.rs: the case-insensitive natural order. A position in a
-- string is the rest of the string from there.
pub mod Order
pub mod Numbers
pub mod Fuel
use vivace.Common.{
  ℕ, zero, suc, ◌+◌, ◌-◌, ◌==◌, leb, Bool, true, false, not, ◌&&◌, ◌||◌, List, [], ◌∷◌, length,
  if◌then◌else◌, Option, none, some,
}
use vivace.PhpVer.{Bytes, Ordering, less, equal, greater, cmp, is_digit, is_equal, value}

-- The first differing digit, once there was one.
abbrev pub biased : Ordering → ℕ → ℕ → Ordering
biased equal x y = cmp x y
biased less x y = less
biased greater x y = greater

-- The result, and where the two strings go on.
abbrev pub Compared : Type 0
Compared = Ordering × (Bytes × Bytes)

-- The longest run of digits wins; at equal length the first differing digit decides.
abbrev pub right_loop : Ordering → Bytes → Bytes → Compared
right_loop bias [] [] = (bias, ([], []))
right_loop bias [] (y ∷ b) = if is_digit y then (less, ([], y ∷ b)) else (bias, ([], y ∷ b))
right_loop bias (x ∷ a) [] = if is_digit x then (greater, (x ∷ a, [])) else (bias, (x ∷ a, []))
right_loop bias (x ∷ a) (y ∷ b) =
    let rest = right_loop (biased bias x y) a b in
    if is_digit x
    then if is_digit y then rest else (greater, (x ∷ a, y ∷ b))
    else if is_digit y
    then (less, (x ∷ a, y ∷ b))
    else (bias, (x ∷ a, y ∷ b))

unfoldable pub compare_right : Bytes → Bytes → Compared
compare_right a b = right_loop equal a b

-- With a leading zero the first differing digit decides.
unfoldable pub compare_left : Bytes → Bytes → Compared
compare_left [] [] = (equal, ([], []))
compare_left [] (y ∷ b) = if is_digit y then (less, ([], y ∷ b)) else (equal, ([], y ∷ b))
compare_left (x ∷ a) [] = if is_digit x then (greater, (x ∷ a, [])) else (equal, (x ∷ a, []))
compare_left (x ∷ a) (y ∷ b) =
    let rest = compare_left a b in
    if is_digit x
    then if is_digit y
      then if x == y then rest else (cmp x y, (x ∷ a, y ∷ b))
      else (greater, (x ∷ a, y ∷ b))
    else if is_digit y
    then (less, (x ∷ a, y ∷ b))
    else (equal, (x ∷ a, y ∷ b))

-- Zeros in front of a digit.
abbrev pub skip_zeros : Bytes → Bytes
skip_zeros [] = []
skip_zeros (c ∷ []) = c ∷ []
skip_zeros (c ∷ d ∷ cs) =
    let rest = skip_zeros (d ∷ cs) in if (c == 48) && is_digit d then rest else c ∷ d ∷ cs

abbrev pub is_whitespace : ℕ → Bool
is_whitespace c = (c == 32) || ((c == 9) || ((c == 10) || ((c == 12) || (c == 13))))

abbrev pub skip_whitespace : Bytes → Bytes
skip_whitespace [] = []
skip_whitespace (c ∷ cs) = let rest = skip_whitespace cs in if is_whitespace c then rest else c ∷ cs

abbrev pub to_uppercase : ℕ → ℕ
to_uppercase c = if leb 97 c && leb c 122 then c - 32 else c

-- What a round leads to: a result, or the strings at which to go on.
pub data Round : Type 0 where
  stop : Ordering → Round
  go : Bytes → Bytes → Round

-- The end of a round: both strings are over, or one, or neither.
abbrev pub at_end : Bytes → Bytes → Round
at_end [] [] = stop equal
at_end [] (y ∷ b) = stop less
at_end (x ∷ a) [] = stop greater
at_end (x ∷ a) (y ∷ b) = go (x ∷ a) (y ∷ b)

abbrev pub after_digits : Compared → Round
after_digits (o, (a, b)) = if is_equal o then at_end a b else stop o

-- The comparison of two runs of digits.
abbrev pub compare_digits : ℕ → ℕ → Bytes → Bytes → Compared
unfolding compare_right compare_left
compare_digits x y a b =
    if (x == 48) || (y == 48) then compare_left (x ∷ a) (y ∷ b) else compare_right (x ∷ a) (y ∷ b)

-- A round of the loop behind the whitespace.
unfoldable pub round : Bytes → Bytes → Round
unfolding compare_right compare_left
round [] [] = stop equal
round [] (y ∷ b) = stop less
round (x ∷ a) [] = stop greater
round (x ∷ a) (y ∷ b) =
    if is_digit x && is_digit y
    then after_digits (compare_digits x y a b)
    else if to_uppercase x == to_uppercase y
    then at_end a b
    else stop (cmp (to_uppercase x) (to_uppercase y))

-- The loop goes on, or ends with a result.
abbrev pub resume : (Bytes → Bytes → Option Ordering) → Round → Option Ordering
resume loop (stop o) = some o
resume loop (go a b) = loop a b

-- Out of fuel there is no result.
abbrev pub natural_loop : ℕ → Bytes → Bytes → Option Ordering
natural_loop zero a b = none
natural_loop (suc fuel) a b =
    resume (natural_loop fuel) (round (skip_whitespace a) (skip_whitespace b))

-- The fuel is enough, so that the default of `value` is never taken.
unfoldable pub strnatcasecmp : Bytes → Bytes → Ordering
unfolding round
strnatcasecmp a b =
    value equal (natural_loop (suc (length a + length b)) (skip_zeros a) (skip_zeros b))
