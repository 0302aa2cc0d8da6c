-- ===== src/PathUtil/Code/Patterns.antt =====
-- `preg_quote`, against a reader of regular expressions without operators.
use vivace.Common.{
  ◌==◌, ==_iff, ◌||◌, ◌&&◌, not, Bool, true, false, ◌≡◌, refl, ap, ◌∙◌, sym, Option, none, some, [],
  ◌∷◌, mem, mem-append, if◌then◌else◌, Bool-cases, arith, ℕ, inl, inr,
}
use vivace.PhpVer.{Bytes}
use vivace.PathUtil.{slash, backslash}
use vivace.PathUtil.Code.{quoted_characters, preg_quote}

-- The characters that are operators: \ . + * ? [ ^ ] $ ( ) { } = ! < > | : - #
abbrev operators : Bytes
operators =
    46 ∷ 92 ∷ 43 ∷ 42 ∷ 63 ∷ 91 ∷ 94 ∷ 93 ∷ 36 ∷ 40 ∷ 41 ∷ 123 ∷ 125 ∷ 61 ∷ 33 ∷ 60 ∷ 62 ∷ 124 ∷ 58
    ∷ 45 ∷ 35 ∷ []

abbrev push : ℕ → Option Bytes → Option Bytes
push c none = none
push c (some s) = some (c ∷ s)

-- The one string that the expression matches: an operator behind a backslash stands for itself, and
-- any other use of a backslash or an operator gives no result.
abbrev pub read_pattern : Bytes → Option Bytes
read_pattern [] = some []
read_pattern (c ∷ []) = if mem c operators then none else some (c ∷ [])
read_pattern (c ∷ d ∷ cs) =
    let escaped = if mem d operators then push d (read_pattern cs) else none in
    let plain = push c (read_pattern (d ∷ cs)) in
    if c == backslash then escaped else if mem c operators then none else plain

left_out : (q o z s : Bool) → q ≡ (o || z) → s ≡ false → (q && not s) ≡ false → o ≡ false
left_out q o z s e f h = ground (arith, e, f, h)

left_in : (q o s : Bool) → q ≡ (o || (s || false)) → (q && not s) ≡ true → o ≡ true
left_in q o s e h = ground (arith, e, h)

is_operator :
    (c : ℕ) → (mem c quoted_characters && not (c == slash)) ≡ true → mem c operators ≡ true
is_operator c h =
    left_in (mem c quoted_characters) (mem c operators) (c == slash)
      (mem-append c operators (slash ∷ [])) h

not_operator :
    (c : ℕ) → (mem c quoted_characters && not (c == slash)) ≡ false → mem c operators ≡ false
not_operator c h = elim (Bool-cases (c == slash)) [
  | inl t ↦ ap (λ c. mem c operators) ((==_iff c slash).0 t)
  | inr f ↦
      left_out (mem c quoted_characters) (mem c operators) (mem c (slash ∷ [])) (c == slash)
        (mem-append c operators (slash ∷ [])) f h
]

not_backslash : (c : ℕ) → mem c operators ≡ false → (c == backslash) ≡ false
not_backslash c o = elim (Bool-cases (c == backslash)) [
  | inl t ↦
      absurd
        (backslash_is_operator (sym (ap (λ c. mem c operators) ((==_iff c backslash).0 t)) ∙ o))
  | inr f ↦ f
]
  where
    backslash_is_operator : mem backslash operators ≡ false → ⊥
    backslash_is_operator h = cc

plain_read :
    (c : ℕ) (cs : Bytes) {s : Bytes}
    → mem c operators ≡ false
    → read_pattern cs ≡ some s
    → read_pattern (c ∷ cs) ≡ some (c ∷ s)
plain_read c [] o r = ap (λ b. if b then none else some (c ∷ [])) o ∙ ap (push c) r
plain_read c (d ∷ cs) o r =
    let other : (c == backslash) ≡ false = not_backslash c o in
    ap
      (λ e.
        if e
        then (if mem d operators then push d (read_pattern cs) else none)
        else if mem c operators
        then none
        else push c (read_pattern (d ∷ cs)))
      other
    ∙ ap (λ b. if b then none else push c (read_pattern (d ∷ cs))) o
    ∙ ap (push c) r

-- The regular expression of `preg_quote` has no operator, and matches the string alone.
pub read_pattern-preg_quote : (s : Bytes) → read_pattern (preg_quote s) ≡ some s
unfolding preg_quote
read_pattern-preg_quote [] = refl
read_pattern-preg_quote (c ∷ cs) = elim (Bool-cases (mem c quoted_characters && not (c == slash))) [
  | inl t ↦ rw t (
      ap (λ o. if o then push c (read_pattern (preg_quote cs)) else none) (is_operator c t)
      ∙ ap (push c) (read_pattern-preg_quote cs))
  | inr f ↦ rw f (plain_read c (preg_quote cs) (not_operator c f) (read_pattern-preg_quote cs))
]
