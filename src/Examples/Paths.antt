-- ===== src/Examples/Paths.antt =====
-- The theorems on paths and names at short strings.
use vivace.Common.{false, true, ◌≡◌, refl, some, [], ◌∷◌, ◌++◌, if◌then◌else◌, arith}
use vivace.PhpVer.{Bytes, eqb_bytes, equal, cmp}
use vivace.PhpVer.Order.{reverse}
use vivace.PathUtil.{
  find_shortest_path_with, dummy_file, normalize_path, common_path, php_dirname, php_basename,
  double_root, root, find_shortest_path,
}
use vivace.PathUtil.Climbing.{Climbs, common_path-Climbs}
use vivace.PathUtil.Resolving.{place_of}
use vivace.PathUtil.Prefixes.{place_of-normalize_path}
use vivace.PathUtil.Shortest.{place_of-find_shortest_path_with}
use vivace.PathUtil.Normal.{normalize_path-idempotent}
use vivace.PathUtil.Code.{preg_quote, php_str}
use vivace.PathUtil.Code.Patterns.{read_pattern, read_pattern-preg_quote}
use vivace.PathUtil.Code.Quoted.{read_quoted, read_quoted-php_str}
use vivace.NatSort.{natural_loop, skip_zeros, strnatcasecmp}
use vivace.NatSort.Order.{strnatcasecmp-reverse}
use vivace.NatSort.Numbers.{strnatcasecmp-value_of}
use vivace.NatSort.Fuel.{strnatcasecmp-fuel}

-- "/a/../b//." and "/b/c".
abbrev untidy : Bytes
untidy = 47 ∷ 97 ∷ 47 ∷ 46 ∷ 46 ∷ 47 ∷ 98 ∷ 47 ∷ 47 ∷ 46 ∷ []

abbrev below : Bytes
below = 47 ∷ 98 ∷ 47 ∷ 99 ∷ []

place_of-normalize_path_example :
    place_of (normalize_path untidy) ((120 ∷ []) ∷ []) ≡ (98 ∷ []) ∷ []
place_of-normalize_path_example = place_of-normalize_path untidy ((120 ∷ []) ∷ [])

normalize_path-idempotent_example :
    normalize_path (normalize_path untidy)
    ≡ (if eqb_bytes (normalize_path untidy) double_root then root else normalize_path untidy)
normalize_path-idempotent_example = normalize_path-idempotent untidy

-- "//." is the exception.
two_slashes : normalize_path (47 ∷ 47 ∷ 46 ∷ []) ≡ double_root
unfolding normalize_path
two_slashes = refl

common_path-Climbs_example : Climbs untidy below (common_path untidy below)
common_path-Climbs_example = common_path-Climbs untidy below

-- From "/b/d" to "/b/c", both directories.
abbrev start : Bytes
start = 47 ∷ 98 ∷ 47 ∷ 100 ∷ []

shortest : find_shortest_path start below true ≡ 46 ∷ 46 ∷ 47 ∷ 99 ∷ []
unfolding find_shortest_path normalize_path php_dirname php_basename common_path
shortest = refl

place_of-find_shortest_path_with_example :
    place_of (find_shortest_path_with start below true false) ((100 ∷ []) ∷ (98 ∷ []) ∷ [])
    ≡ (99 ∷ []) ∷ (98 ∷ []) ∷ []
unfolding normalize_path
place_of-find_shortest_path_with_example =
    place_of-find_shortest_path_with start below false (refl, refl) (refl, refl) refl

-- Below "/b/d/dummy_file" the result is read one directory too high: "x" for
-- "/b/d/dummy_file/x".
below_dummy : find_shortest_path start (start ++ dummy_file ++ 47 ∷ 120 ∷ []) true ≡ 120 ∷ []
unfolding find_shortest_path normalize_path php_dirname php_basename common_path
below_dummy = refl

-- "it's" in front of ";".
read_quoted-php_str_example :
    read_quoted (php_str (105 ∷ 116 ∷ 39 ∷ 115 ∷ []) ++ 59 ∷ [])
    ≡ some (105 ∷ 116 ∷ 39 ∷ 115 ∷ [], 59 ∷ [])
read_quoted-php_str_example = read_quoted-php_str (105 ∷ 116 ∷ 39 ∷ 115 ∷ []) (59 ∷ [])

-- "php", "80" and "100".
abbrev php : Bytes
php = 112 ∷ 104 ∷ 112 ∷ []

abbrev eighty : Bytes
eighty = 56 ∷ 48 ∷ []

abbrev hundred : Bytes
hundred = 49 ∷ 48 ∷ 48 ∷ []

strnatcasecmp-value_of_example : strnatcasecmp (php ++ eighty) (php ++ hundred) ≡ cmp 80 100
strnatcasecmp-value_of_example = strnatcasecmp-value_of php eighty hundred refl refl refl

strnatcasecmp-reverse_example :
    (strnatcasecmp hundred eighty ≡ reverse (strnatcasecmp eighty hundred))
    × (strnatcasecmp eighty eighty ≡ equal)
strnatcasecmp-reverse_example = strnatcasecmp-reverse eighty hundred

strnatcasecmp-fuel_example :
    natural_loop 7 (skip_zeros eighty) (skip_zeros hundred) ≡ some (strnatcasecmp eighty hundred)
strnatcasecmp-fuel_example = strnatcasecmp-fuel eighty hundred 7 (omega arith)

-- "a.b" is quoted as "a\.b".
read_pattern-preg_quote_example :
    read_pattern (preg_quote (97 ∷ 46 ∷ 98 ∷ [])) ≡ some (97 ∷ 46 ∷ 98 ∷ [])
read_pattern-preg_quote_example = read_pattern-preg_quote (97 ∷ 46 ∷ 98 ∷ [])
