-- ===== src/PathUtil.antt =====
-- crates/vivacity-core/src/pathutil.rs: path normalization and relative paths, on paths of Unix. A
-- path is its bytes; the characters that the code tests are ASCII, so they are bytes of their own.
pub mod Code
pub mod Climbing
pub mod Resolving
pub mod Prefixes
pub mod Normal
pub mod Texts
pub mod Steps
pub mod Shortest
use vivace.Common.{
  ℕ, zero, suc, ◌+◌, ◌-◌, ◌==◌, leb, ltb, Bool, true, false, not, ◌&&◌, ◌||◌, Option, none, some,
  List, [], ◌∷◌, ◌++◌, length, take, last?, drop_last, if◌then◌else◌,
}
use vivace.PhpVer.{Bytes, eqb_bytes, starts_with, prepend}

abbrev pub slash : ℕ
slash = 47

abbrev pub backslash : ℕ
backslash = 92

abbrev pub quote : ℕ
quote = 39

-- "/", "//", ".", ".." and "../".
abbrev pub root : Bytes
root = slash ∷ []

abbrev pub double_root : Bytes
double_root = slash ∷ slash ∷ []

abbrev pub this : Bytes
this = 46 ∷ []

abbrev pub parent : Bytes
parent = 46 ∷ 46 ∷ []

abbrev pub drop : ℕ → Bytes → Bytes
drop zero xs = xs
drop (suc n) [] = []
drop (suc n) (x ∷ xs) = drop n xs

-- `path.contains(pattern)`.
abbrev contains : Bytes → Bytes → Bool
contains [] p = starts_with [] p
contains (c ∷ cs) p = starts_with (c ∷ cs) p || contains cs p

abbrev is_ascii_alphabetic : ℕ → Bool
is_ascii_alphabetic c = (leb 65 c && leb c 90) || (leb 97 c && leb c 122)

-- A drive letter with a slash.
abbrev has_drive : Bytes → Bool
has_drive (a ∷ b ∷ c ∷ cs) =
    is_ascii_alphabetic a && ((b == 58) && ((c == slash) || (c == backslash)))
has_drive cs = false

unfoldable pub is_absolute_path : Bytes → Bool
is_absolute_path path =
    if starts_with path root
      || (starts_with path (backslash ∷ []) || contains path (58 ∷ double_root))
    then true
    else has_drive path

-- `path.replace('\\', "/")`.
abbrev pub slashes : Bytes → Bytes
slashes [] = []
slashes (c ∷ cs) = (if c == backslash then slash else c) ∷ slashes cs

-- `rest.split('/')`.
abbrev pub split_slash : Bytes → List Bytes
split_slash [] = [] ∷ []
split_slash (c ∷ cs) = let rest = split_slash cs in if c == slash then [] ∷ rest else prepend c rest

-- `parts.join("/")`.
abbrev pub join_slash : List Bytes → Bytes
join_slash [] = []
join_slash (p ∷ []) = p
join_slash (p ∷ q ∷ ps) = p ++ slash ∷ join_slash (q ∷ ps)

abbrev pub is_parent : Option Bytes → Bool
is_parent none = false
is_parent (some p) = eqb_bytes p parent

abbrev pub is_empty : {A : Type 0} → List A → Bool
is_empty [] = true
is_empty (x ∷ xs) = false

-- `parts` and `up`.
abbrev pub Parts : Type 0
Parts = List Bytes × Bool

-- One chunk; `absolute` tells whether the prefix is not empty.
unfoldable pub add_chunk : Bool → Parts → Bytes → Parts
add_chunk absolute (parts, up) chunk =
    let popped = drop_last parts in
    if eqb_bytes chunk parent && (absolute || up)
    then (popped, not (is_empty popped || is_parent (last? popped)))
    else if not (eqb_bytes chunk this) && not (is_empty chunk)
    then (parts ++ chunk ∷ [], not (eqb_bytes chunk parent))
    else (parts, up)

abbrev pub add_chunks : Bool → Parts → List Bytes → Parts
add_chunks absolute p [] = p
add_chunks absolute p (c ∷ cs) = add_chunks absolute (add_chunk absolute p c) cs

-- The prefix `absolute` and the rest of a path without backslashes.
abbrev pub split_prefix : Bytes → Bytes × Bytes
split_prefix path =
    if starts_with path double_root && ltb 2 (length path)
    then (double_root, drop 2 path)
    else if starts_with path root
    then (root, drop 1 path)
    else ([], path)

-- The parts of the normalized path.
abbrev pub parts_of : Bytes × Bytes → List Bytes
parts_of (absolute, rest) = (add_chunks (not (is_empty absolute)) ([], false) (split_slash rest)).0

unfoldable pub normalize_path : Bytes → Bytes
unfolding add_chunk
normalize_path path =
    let prefix = split_prefix (slashes path) in prefix.0 ++ join_slash (parts_of prefix)

-- `p.rfind('/')`: with the place in the rest, and whether a slash is at hand.
abbrev pub later_slash : Bool → Option ℕ → Option ℕ
later_slash here (some i) = some (suc i)
later_slash true none = some 0
later_slash false none = none

abbrev pub rfind_slash : Bytes → Option ℕ
rfind_slash [] = none
rfind_slash (c ∷ cs) = later_slash (c == slash) (rfind_slash cs)

abbrev pub dirname_at : Bytes → Option ℕ → Bytes
dirname_at p none = this
dirname_at p (some zero) = root
dirname_at p (some (suc i)) = take (suc i) p

unfoldable pub php_dirname : Bytes → Bytes
php_dirname p = dirname_at p (rfind_slash p)

abbrev pub basename_at : Bytes → Option ℕ → Bytes
basename_at p none = p
basename_at p (some i) = drop (suc i) p

-- `p.rsplit('/').next()`.
unfoldable pub php_basename : Bytes → Bytes
php_basename p = basename_at p (rfind_slash p)

-- Whether the loop of `common_path` stops.
abbrev pub stops : Bytes → Bytes → Bool
stops from common =
    starts_with (from ++ root) (common ++ root) || (eqb_bytes common root || eqb_bytes common this)

abbrev pub common_loop : ℕ → Bytes → Bytes → Bytes
common_loop zero from common = common
common_loop (suc fuel) from common =
    let rest = common_loop fuel from (php_dirname common) in
    if stops from common then common else rest

unfoldable pub common_path : Bytes → Bytes → Bytes
unfolding php_dirname
common_path from to = common_loop (suc (length to)) from to

-- `path.trim_end_matches('/')`.
abbrev pub trim_end : Bytes → Bytes
trim_end [] = []
trim_end (c ∷ cs) = let rest = trim_end cs in if (c == slash) && is_empty rest then [] else c ∷ rest

-- `path.matches('/').count()`.
abbrev pub count_slashes : Bytes → ℕ
count_slashes [] = 0
count_slashes (c ∷ cs) = (if c == slash then 1 else 0) + count_slashes cs

abbrev pub repeat : ℕ → Bytes → Bytes
repeat zero xs = []
repeat (suc n) xs = xs ++ repeat n xs

abbrev pub min : ℕ → ℕ → ℕ
min a b = if leb a b then a else b

-- `path[common.len().min(path.len())..]`.
abbrev pub after_common : Bytes → Bytes → Bytes
after_common common path = drop (min (length common) (length path)) path

-- "/dummy_file".
abbrev pub dummy_file : Bytes
dummy_file = 47 ∷ 100 ∷ 117 ∷ 109 ∷ 109 ∷ 121 ∷ 95 ∷ 102 ∷ 105 ∷ 108 ∷ 101 ∷ []

-- From the common directory on, with its closing slash.
abbrev pub up_and_down : Bytes → Bytes → Bytes → Bool → Bytes
up_and_down from to common prefer_relative =
    let depth = count_slashes (after_common common from) in
    let result = repeat depth (parent ++ root) ++ after_common common to in
    if not prefer_relative && (eqb_bytes common root && ltb 1 depth)
    then to
    else if is_empty result
    then this ++ root
    else result

-- Between normalized paths.
abbrev pub shortest_between : Bytes → Bytes → Bool → Bytes
shortest_between from to prefer_relative =
    let common = common_path from to in
    if eqb_bytes (php_dirname from) (php_dirname to)
    then this ++ root ++ php_basename to
    else if not (starts_with from common) || eqb_bytes common this
    then to
    else up_and_down from to (trim_end common ++ root) prefer_relative

unfoldable pub find_shortest_path_with : Bytes → Bytes → Bool → Bool → Bytes
unfolding normalize_path php_dirname php_basename common_path
find_shortest_path_with from to directories prefer_relative =
    let start = normalize_path from in
    shortest_between (if directories then trim_end start ++ dummy_file else start)
      (normalize_path to) prefer_relative

unfoldable pub find_shortest_path : Bytes → Bytes → Bool → Bytes
unfolding find_shortest_path_with
find_shortest_path from to directories = find_shortest_path_with from to directories false
