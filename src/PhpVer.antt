-- ===== src/PhpVer.antt =====
-- crates/vivacity-resolver/src/phpver.rs: `version_compare` of PHP. A string is its bytes, which
-- are ASCII.
pub mod Canonical
pub mod Order
pub mod Equality
use vivace.Common.{
  ℕ, zero, suc, ◌+◌, ◌-◌, ◌*◌, ◌==◌, ltb, leb, ℤ, pos, negsuc, eqb_ℤ, ltb_ℤ, Bool, true, false, not,
  ◌&&◌, ◌||◌, Option, none, some, List, [], ◌∷◌, ◌++◌, last?, if◌then◌else◌,
}

abbrev pub Bytes : Type 0
Bytes = List ℕ

abbrev pub dot : ℕ
dot = 46

abbrev pub is_digit : ℕ → Bool
is_digit c = leb 48 c && leb c 57

abbrev pub is_alphanumeric : ℕ → Bool
is_alphanumeric c = is_digit c || ((leb 65 c && leb c 90) || (leb 97 c && leb c 122))

-- '-', '_' and '+'.
abbrev pub is_special : ℕ → Bool
is_special c = (c == 45) || ((c == 95) || (c == 43))

abbrev pub is_ndig : ℕ → Bool
is_ndig c = not (is_digit c) && not (c == dot)

abbrev pub is_dot : Option ℕ → Bool
is_dot none = false
is_dot (some c) = c == dot

-- `if out.last() != Some(&b'.') { out.push(b'.') }`.
abbrev pub push_dot : Bytes → Bytes
push_dot out = if is_dot (last? out) then out else out ++ dot ∷ []

-- One round of the loop, for a character and the one before it.
abbrev pub canonical_step : Bytes → ℕ → ℕ → Bytes
canonical_step out lp c =
    if is_special c
    then push_dot out
    else if (is_ndig lp && is_digit c) || (is_digit lp && is_ndig c)
    then push_dot out ++ c ∷ []
    else if not (is_alphanumeric c)
    then push_dot out
    else out ++ c ∷ []

unfoldable pub canonicalize_loop : Bytes → ℕ → Bytes → Bytes
canonicalize_loop out lp [] = out
canonicalize_loop out lp (c ∷ cs) = canonicalize_loop (canonical_step out lp c) c cs

unfoldable pub canonicalize : Bytes → Bytes
unfolding canonicalize_loop
canonicalize [] = []
canonicalize (first ∷ rest) = canonicalize_loop (first ∷ []) first rest

pub data Ordering : Type 0 where
  less equal greater : Ordering

abbrev pub cmp : ℕ → ℕ → Ordering
cmp a b = if ltb a b then less else if a == b then equal else greater

abbrev pub cmp_ℤ : ℤ → ℤ → Ordering
cmp_ℤ a b = if ltb_ℤ a b then less else if eqb_ℤ a b then equal else greater

abbrev pub starts_with : Bytes → Bytes → Bool
starts_with s [] = true
starts_with [] (p ∷ ps) = false
starts_with (c ∷ cs) (p ∷ ps) = (c == p) && starts_with cs ps

-- dev, alpha, a, beta, b, RC, rc, #, pl, p
abbrev forms : List (Bytes × ℕ)
forms =
    (100 ∷ 101 ∷ 118 ∷ [], 0)
    ∷ (97 ∷ 108 ∷ 112 ∷ 104 ∷ 97 ∷ [], 1)
    ∷ (97 ∷ [], 1)
    ∷ (98 ∷ 101 ∷ 116 ∷ 97 ∷ [], 2)
    ∷ (98 ∷ [], 2)
    ∷ (82 ∷ 67 ∷ [], 3)
    ∷ (114 ∷ 99 ∷ [], 3)
    ∷ (35 ∷ [], 4)
    ∷ (112 ∷ 108 ∷ [], 5)
    ∷ (112 ∷ [], 5)
    ∷ []

abbrev rank_in : List (Bytes × ℕ) → Bytes → ℤ
rank_in [] form = negsuc 0
rank_in ((name, order) ∷ fs) form = if starts_with form name then pos order else rank_in fs form

unfoldable pub special_rank : Bytes → ℤ
special_rank form = rank_in forms form

unfoldable pub compare_special : Bytes → Bytes → Ordering
unfolding special_rank
compare_special a b = cmp_ℤ (special_rank a) (special_rank b)

-- `i64::MAX`.
abbrev pub i64_max : ℕ
i64_max = 9223372036854775807

abbrev saturate : ℕ → ℕ
saturate n = if ltb i64_max n then i64_max else n

abbrev digits_value : ℕ → Bytes → ℕ
digits_value n [] = n
digits_value n (c ∷ cs) =
    if is_digit c then digits_value (saturate (saturate (n * 10) + (c - 48))) cs else n

unfoldable pub parse_num : Bytes → ℕ
parse_num s = digits_value 0 s

unfoldable pub starts_digit : Bytes → Bool
starts_digit [] = false
starts_digit (c ∷ cs) = is_digit c

abbrev pub ends_digit : Option ℕ → Bool
ends_digit none = false
ends_digit (some c) = is_digit c

abbrev pub all_plain : Bytes → Bool
all_plain [] = true
all_plain (c ∷ cs) = (is_digit c || (c == dot)) && all_plain cs

abbrev pub double_dot : Bytes → Bool
double_dot [] = false
double_dot (c ∷ []) = false
double_dot (c ∷ d ∷ cs) = ((c == dot) && (d == dot)) || double_dot (d ∷ cs)

unfoldable pub is_plain_dotted : Bytes → Bool
unfolding starts_digit
is_plain_dotted s = starts_digit s && (ends_digit (last? s) && (all_plain s && not (double_dot s)))

-- `s.split('.')`.
abbrev pub prepend : ℕ → List Bytes → List Bytes
prepend c [] = (c ∷ []) ∷ []
prepend c (p ∷ ps) = (c ∷ p) ∷ ps

abbrev pub split : Bytes → List Bytes
split [] = [] ∷ []
split (c ∷ cs) = let rest = split cs in if c == dot then [] ∷ rest else prepend c rest

-- "#N#"
abbrev pub hash_n : Bytes
hash_n = 35 ∷ 78 ∷ 35 ∷ []

unfoldable pub compare_part : Bytes → Bytes → Ordering
unfolding parse_num compare_special starts_digit
compare_part x y =
    if starts_digit x
    then (if starts_digit y then cmp (parse_num x) (parse_num y) else compare_special hash_n y)
    else (if starts_digit y then compare_special x hash_n else compare_special x y)

-- The first result that is not equal.
abbrev pub or_else : Ordering → Ordering → Ordering
or_else less r = less
or_else equal r = r
or_else greater r = greater

-- The loop goes on after components that are equal; what it gives may be missing.
abbrev pub or_go_on : Ordering → Option Ordering → Option Ordering
or_go_on less r = some less
or_go_on equal r = r
or_go_on greater r = some greater

-- The loop of `compare_canonical`, with its call of itself as an argument, which may have no result.
unfoldable pub compare_parts :
    (Bytes → Bytes → Option Ordering) → List Bytes → List Bytes → Option Ordering
unfolding compare_part
compare_parts again [] [] = some equal
compare_parts again (x ∷ xs) (y ∷ ys) = or_go_on (compare_part x y) (compare_parts again xs ys)
compare_parts again (x ∷ xs) [] = if starts_digit x then some greater else again x hash_n
compare_parts again [] (y ∷ ys) = if starts_digit y then some less else again hash_n y

-- `compare_canonical` with a number of calls that may nest, past which there is no result.
unfoldable pub compare_canonical_in : ℕ → Bytes → Bytes → Option Ordering
unfolding compare_parts
compare_canonical_in zero a b = none
compare_canonical_in (suc depth) [] [] = some equal
compare_canonical_in (suc depth) [] (y ∷ ys) = some less
compare_canonical_in (suc depth) (x ∷ xs) [] = some greater
compare_canonical_in (suc depth) (x ∷ xs) (y ∷ ys) =
    compare_parts (compare_canonical_in depth) (split (x ∷ xs)) (split (y ∷ ys))

-- A result, or `default` where there is none.
abbrev pub value : Ordering → Option Ordering → Ordering
value default none = default
value default (some o) = o

-- The calls nest twice at most, since a call within a call has one component on each side; so the
-- default is never taken.
unfoldable pub compare_canonical : Bytes → Bytes → Ordering
unfolding compare_canonical_in
compare_canonical a b = value equal (compare_canonical_in 2 a b)

-- The loop of the fast path.
unfoldable pub compare_numbers : List Bytes → List Bytes → Ordering
unfolding parse_num
compare_numbers [] [] = equal
compare_numbers (x ∷ xs) (y ∷ ys) =
    or_else (cmp (parse_num x) (parse_num y)) (compare_numbers xs ys)
compare_numbers (x ∷ xs) [] = greater
compare_numbers [] (y ∷ ys) = less

unfoldable pub version_compare : Bytes → Bytes → Ordering
unfolding is_plain_dotted compare_numbers canonicalize compare_canonical
version_compare a b =
    if is_plain_dotted a && is_plain_dotted b
    then compare_numbers (split a) (split b)
    else compare_canonical (canonicalize a) (canonicalize b)

abbrev pub eqb_bytes : Bytes → Bytes → Bool
eqb_bytes [] [] = true
eqb_bytes (x ∷ xs) (y ∷ ys) = (x == y) && eqb_bytes xs ys
eqb_bytes _ _ = false

abbrev pub is_less : Ordering → Bool
is_less less = true
is_less equal = false
is_less greater = false

abbrev pub is_equal : Ordering → Bool
is_equal less = false
is_equal equal = true
is_equal greater = false

abbrev pub is_greater : Ordering → Bool
is_greater less = false
is_greater equal = false
is_greater greater = true

-- "<", "lt", "<=", "le", ">", "gt", ">=", "ge", "==", "=", "eq", "!=", "<>", "ne"
abbrev pub op_holds : Ordering → Bytes → Bool
op_holds c op =
    if eqb_bytes op (60 ∷ []) || eqb_bytes op (108 ∷ 116 ∷ [])
    then is_less c
    else if eqb_bytes op (60 ∷ 61 ∷ []) || eqb_bytes op (108 ∷ 101 ∷ [])
    then not (is_greater c)
    else if eqb_bytes op (62 ∷ []) || eqb_bytes op (103 ∷ 116 ∷ [])
    then is_greater c
    else if eqb_bytes op (62 ∷ 61 ∷ []) || eqb_bytes op (103 ∷ 101 ∷ [])
    then not (is_less c)
    else if eqb_bytes op (61 ∷ 61 ∷ []) || (eqb_bytes op (61 ∷ []) || eqb_bytes op (101 ∷ 113 ∷ []))
    then is_equal c
    else if eqb_bytes op (33 ∷ 61 ∷ [])
        || (eqb_bytes op (60 ∷ 62 ∷ []) || eqb_bytes op (110 ∷ 101 ∷ []))
    then not (is_equal c)
    else false

unfoldable pub version_compare_op : Bytes → Bytes → Bytes → Bool
version_compare_op a b op = op_holds (version_compare a b) op
