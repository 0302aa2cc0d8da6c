-- ===== src/PathUtil/Code.antt =====
-- crates/vivacity-core/src/pathutil.rs: paths as PHP expressions and strings, and the quoting of
-- crates/vivacity-autoload/src/pathutil.rs.
pub mod Quoted
pub mod Patterns
use vivace.Common.{
  ℕ, zero, suc, ◌+◌, ◌==◌, ltb, Bool, true, false, not, ◌&&◌, ◌||◌, List, [], ◌∷◌, ◌++◌, length,
  mem, if◌then◌else◌,
}
use vivace.PhpVer.{Bytes, eqb_bytes, starts_with}
use vivace.PathUtil.{
  slash, backslash, quote, root, this, drop, is_empty, normalize_path, common_path, trim_end,
  count_slashes, repeat, after_common,
}

abbrev pub escape : Bytes → Bytes
escape [] = []
escape (c ∷ cs) =
    let rest = escape cs in
    if c == quote
    then backslash ∷ quote ∷ rest
    else if c == backslash
    then backslash ∷ backslash ∷ rest
    else c ∷ rest

unfoldable pub php_str : Bytes → Bytes
php_str s = quote ∷ escape s ++ quote ∷ []

-- The same on raw bytes.
unfoldable pub php_str_bytes : Bytes → Bytes
php_str_bytes s = quote ∷ escape s ++ quote ∷ []

-- ".\+*?[^]$(){}=!<>|:-#".
abbrev pub quoted_characters : Bytes
quoted_characters =
    46 ∷ 92 ∷ 43 ∷ 42 ∷ 63 ∷ 91 ∷ 94 ∷ 93 ∷ 36 ∷ 40 ∷ 41 ∷ 123 ∷ 125 ∷ 61 ∷ 33 ∷ 60 ∷ 62 ∷ 124 ∷ 58
    ∷ 45 ∷ 35 ∷ slash ∷ []

unfoldable pub preg_quote : Bytes → Bytes
preg_quote [] = []
preg_quote (c ∷ cs) =
    let rest = preg_quote cs in
    if mem c quoted_characters && not (c == slash) then backslash ∷ c ∷ rest else c ∷ rest

-- "__DIR__", "__FILE__", " . ", "dirname(" and "/..".
abbrev dir_code : Bytes
dir_code = 95 ∷ 95 ∷ 68 ∷ 73 ∷ 82 ∷ 95 ∷ 95 ∷ []

abbrev file_code : Bytes
file_code = 95 ∷ 95 ∷ 70 ∷ 73 ∷ 76 ∷ 69 ∷ 95 ∷ 95 ∷ []

abbrev joined : Bytes
joined = 32 ∷ 46 ∷ 32 ∷ []

abbrev dirname_code : Bytes
dirname_code = 100 ∷ 105 ∷ 114 ∷ 110 ∷ 97 ∷ 109 ∷ 101 ∷ 40 ∷ []

abbrev up_code : Bytes
up_code = 47 ∷ 46 ∷ 46 ∷ []

abbrev climb_code : Bool → ℕ → Bytes
climb_code static_code depth =
    if static_code
    then dir_code ++ joined ++ quote ∷ repeat depth up_code ++ quote ∷ []
    else repeat depth dirname_code ++ dir_code ++ repeat depth (41 ∷ [])

-- From the common directory on, with its closing slash.
abbrev code_from : Bytes → Bytes → Bytes → Bool → Bool → Bytes
unfolding php_str
code_from from to common directories static_code =
    let depth = count_slashes (after_common common from) + (if directories then 1 else 0) in
    let rel = after_common common to in
    let code = climb_code static_code depth in
    if eqb_bytes common root && ltb 1 depth
    then php_str to
    else if is_empty rel
    then code
    else code ++ 46 ∷ php_str (slash ∷ rel)

-- Between normalized paths.
abbrev code_between : Bytes → Bytes → Bool → Bool → Bytes
unfolding php_str common_path
code_between from to directories static_code =
    let common = common_path from to in
    if eqb_bytes from to
    then if directories then dir_code else file_code
    else if not (starts_with from common) || eqb_bytes common this
    then php_str to
    else if starts_with to (from ++ root)
    then dir_code ++ joined ++ php_str (drop (length from) to)
    else code_from from to (trim_end common ++ root) directories static_code

unfoldable pub find_shortest_path_code : Bytes → Bytes → Bool → Bool → Bytes
unfolding normalize_path common_path php_str
find_shortest_path_code from to directories static_code =
    code_between (normalize_path from) (normalize_path to) directories static_code
