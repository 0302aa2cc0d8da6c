-- ===== src/PathUtil/Code/Quoted.antt =====
-- The quoting of strings, against a reader of PHP's single-quoted strings.
use vivace.Common.{
  ◌==◌, ==_iff, false, ◌&&◌, ◌||◌, ◌≡◌, refl, ap, ◌∙◌, Option, none, some, [], ◌∷◌, ◌++◌,
  if◌then◌else◌, Bool-cases, arith, ℕ, inl, inr, append_assoc',
}
use vivace.PhpVer.{Bytes}
use vivace.PathUtil.{quote, backslash}
use vivace.PathUtil.Code.{escape, php_str}

abbrev push : ℕ → Option (Bytes × Bytes) → Option (Bytes × Bytes)
push c none = none
push c (some (s, rest)) = some (c ∷ s, rest)

-- Up to the closing quote: a backslash stands for itself unless a quote or another one follows.
abbrev read_body : Bytes → Option (Bytes × Bytes)
read_body [] = none
read_body (c ∷ []) = if c == quote then some ([], []) else none
read_body (c ∷ d ∷ cs) =
    let escaped = push d (read_body cs) in
    let plain = push c (read_body (d ∷ cs)) in
    if c == quote
    then some ([], d ∷ cs)
    else if (c == backslash) && ((d == quote) || (d == backslash))
    then escaped
    else plain

-- The string of a literal, and the code behind it.
abbrev pub read_quoted : Bytes → Option (Bytes × Bytes)
read_quoted [] = none
read_quoted (c ∷ cs) = if c == quote then read_body cs else none

plain_read :
    (c : ℕ) (cs : Bytes) {s rest : Bytes}
    → (c == quote) ≡ false
    → (c == backslash) ≡ false
    → read_body cs ≡ some (s, rest)
    → read_body (c ∷ cs) ≡ some (c ∷ s, rest)
plain_read c [] p q r = ground (arith, r)
plain_read c (d ∷ cs) p q r = rw p rw q rw r refl

read_body-escape : (code s : Bytes) → read_body (escape s ++ quote ∷ code) ≡ some (s, code)
read_body-escape [] [] = refl
read_body-escape (c ∷ code) [] = refl
read_body-escape code (c ∷ s) = elim (Bool-cases (c == quote)) [
  | inl p ↦ rw p rw (read_body-escape code s) rw ((==_iff c quote).0 p) refl
  | inr p ↦ elim (Bool-cases (c == backslash)) [
    | inl q ↦ rw p rw q rw (read_body-escape code s) rw ((==_iff c backslash).0 q) refl
    | inr q ↦ rw p rw q (plain_read c (escape s ++ quote ∷ code) p q (read_body-escape code s))
  ]
]

-- A string quoted by `php_str` in front of any code reads back as the string, and the code is left.
pub read_quoted-php_str : (s code : Bytes) → read_quoted (php_str s ++ code) ≡ some (s, code)
unfolding php_str
read_quoted-php_str s code =
    ap read_body (append_assoc' (escape s) (quote ∷ []) code) ∙ read_body-escape code s
