-- ===== src/PathUtil/Prefixes.antt =====
-- A path is its prefix and its segments: what `split_prefix`, `split_slash` and `join_slash` say of
-- each other, and which place a normalized path names.
use vivace.Common.{
  or-false, ℕ, suc, ◌==◌, ==_iff, lt→ltb, Bool, true, false, not, ◌≡◌, refl, sym, ◌∙◌, ap, List, [],
  ◌∷◌, ◌++◌, length, if◌then◌else◌, Bool-cases, arith, inl, inr,
}
use vivace.PhpVer.{Bytes, starts_with}
use vivace.PathUtil.{
  slash, root, double_root, slashes, split_slash, join_slash, is_empty, add_chunks, split_prefix,
  parts_of, normalize_path,
}
use vivace.PathUtil.Resolving.{
  Place, walk, place_of, has_slash, AllParts, IsParts, add_chunks-IsAdded, split_slash-NoSlash,
}

-- The three prefixes.
pub data PrefixView (q : Bytes) : Bytes × Bytes → Type 0 where
  relative : starts_with q root ≡ false → PrefixView q ([], q)
  single : (rest : Bytes) → q ≡ slash ∷ rest → PrefixView q (root, rest)
  double : (rest : Bytes) → q ≡ slash ∷ slash ∷ rest → PrefixView q (double_root, rest)

at_slash : (c : ℕ) (cs : Bytes) → (c == slash) ≡ true → c ∷ cs ≡ slash ∷ cs
at_slash c cs t = ap (λ x. x ∷ cs) ((==_iff c slash).0 t)

pub prefix_view : (q : Bytes) → PrefixView q (split_prefix q)
prefix_view [] = relative refl
prefix_view (c ∷ []) = elim (Bool-cases (c == slash)) [
  | inl t ↦ rw t (single [] (at_slash c [] t))
  | inr f ↦ rw f (relative (ground (arith, f)))
]
prefix_view (c ∷ d ∷ []) = elim (Bool-cases (c == slash)) [
  | inl t ↦ elim (Bool-cases (d == slash)) [
    | inl u ↦ rw t rw u (single (d ∷ []) (at_slash c (d ∷ []) t))
    | inr g ↦ rw t rw g (single (d ∷ []) (at_slash c (d ∷ []) t))
  ]
  | inr f ↦ rw f (relative (ground (arith, f)))
]
prefix_view (c ∷ d ∷ e ∷ es) = elim (Bool-cases (c == slash)) [
  | inl t ↦ elim (Bool-cases (d == slash)) [
    | inl u ↦
        rw t rw u rw (lt→ltb 2 (suc (suc (suc (length es)))) (omega arith)) (
          double (e ∷ es) (at_slash c (d ∷ e ∷ es) t ∙ ap (λ r. slash ∷ r) (at_slash d (e ∷ es) u)))
    | inr g ↦ rw t rw g (single (d ∷ e ∷ es) (at_slash c (d ∷ e ∷ es) t))
  ]
  | inr f ↦ rw f (relative (ground (arith, f)))
]

pub split_slash-name : (p : Bytes) → has_slash p ≡ false → split_slash p ≡ p ∷ []
split_slash-name [] h = refl
split_slash-name (c ∷ cs) h =
    let (f, g) = or-false (c == slash) (has_slash cs) h in rw f rw (split_slash-name cs g) refl

split_slash-segment :
    (p rest : Bytes) → has_slash p ≡ false → split_slash (p ++ slash ∷ rest) ≡ p ∷ split_slash rest
split_slash-segment [] rest h = refl
split_slash-segment (c ∷ cs) rest h =
    let (f, g) = or-false (c == slash) (has_slash cs) h in
    rw f rw (split_slash-segment cs rest g) refl

pub split_slash-join_slash :
    (a : Bool) (p : Bytes) (ps : List Bytes)
    → AllParts a (p ∷ ps)
    → split_slash (join_slash (p ∷ ps)) ≡ p ∷ ps
split_slash-join_slash a p [] h = split_slash-name p h.0.no_slash
split_slash-join_slash a p (q ∷ qs) h =
    split_slash-segment p (join_slash (q ∷ qs)) h.0.no_slash
    ∙ ap (λ r. p ∷ r) (split_slash-join_slash a q qs h.1)

-- A joined path does not begin with a slash.
pub join_slash-relative :
    (a : Bool) (ps : List Bytes) → AllParts a ps → starts_with (join_slash ps) root ≡ false
join_slash-relative a [] h = refl
join_slash-relative a ([] ∷ []) h = refl
join_slash-relative a ([] ∷ q ∷ qs) h = absurd (ground (arith, h.0.not_empty))
join_slash-relative a ((c ∷ cs) ∷ []) h =
    ground (arith, or-false (c == slash) (has_slash cs) h.0.no_slash)
join_slash-relative a ((c ∷ cs) ∷ q ∷ qs) h =
    ground (arith, or-false (c == slash) (has_slash cs) h.0.no_slash)

-- Where a path is read from.
abbrev pub from_prefix : Bytes → Place → Place
from_prefix absolute here = if is_empty absolute then here else []

pub walk-join_slash :
    (a : Bool) (ps : List Bytes) (here : Place)
    → AllParts a ps
    → walk (split_slash (join_slash ps)) here ≡ walk ps here
walk-join_slash a [] here h = refl
walk-join_slash a (p ∷ ps) here h = ap (λ ss. walk ss here) (split_slash-join_slash a p ps h)

place_of-view :
    (q : Bytes) (x : Bytes × Bytes) (here : Place)
    → PrefixView q x
    → place_of q here ≡ walk (split_slash x.1) (from_prefix x.0 here)
place_of-view q x here (relative f) = rw f refl
place_of-view q x here (single rest e) = rw e refl
place_of-view q x here (double rest e) = rw e refl

place_of-joined :
    (a : Bool) (q : Bytes) (x : Bytes × Bytes) (ps : List Bytes) (here : Place)
    → AllParts a ps
    → PrefixView q x
    → place_of (x.0 ++ join_slash ps) here ≡ walk ps (from_prefix x.0 here)
place_of-joined a q x ps here h (relative f) =
    rw (join_slash-relative a ps h) (walk-join_slash a ps here h)
place_of-joined a q x ps here h (single rest e) = walk-join_slash a ps [] h
place_of-joined a q x ps here h (double rest e) = walk-join_slash a ps [] h

pub parts_of-IsParts :
    (x : Bytes × Bytes)
    → IsParts (not (is_empty x.0)) (add_chunks (not (is_empty x.0)) ([], false) (split_slash x.1))
      × ((here : Place)
          → walk (parts_of x) (from_prefix x.0 here)
            ≡ walk (split_slash x.1) (from_prefix x.0 here))
parts_of-IsParts x =
    let all =
      add_chunks-IsAdded (not (is_empty x.0)) ([], false) (split_slash x.1)
        (split_slash-NoSlash x.1) (record { up = refl; names = tt }) in
    (
      all.0,
      λ here.
          all.1 (from_prefix x.0 here)
            (λ k. let e : is_empty x.0 ≡ false = ground (arith, k) in rw e refl),
    )

-- A normalized path names the place that the path names, from whichever directory it is read: going
-- through its segments one by one, the empty ones and "." stay, ".." goes up, and from the root
-- stays there. Backslashes count as slashes.
pub place_of-normalize_path :
    (path : Bytes) (here : Place)
    → place_of (normalize_path path) here ≡ place_of (slashes path) here
unfolding normalize_path
place_of-normalize_path path here =
    let q = slashes path in
    let x = split_prefix q in
    let (parts, led) = parts_of-IsParts x in
    place_of-joined (not (is_empty x.0)) q x (parts_of x) here parts.names (prefix_view q)
    ∙ led here
    ∙ sym (place_of-view q x here (prefix_view q))
