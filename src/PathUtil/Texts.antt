-- ===== src/PathUtil/Texts.antt =====
-- The text of an absolute path, segment by segment: its directory, its last segment, and when one
-- text stands at the beginning of another.
use vivace.Common.{
  or-false, leb, ℕ, suc, ◌<◌, ◌≤◌, ◌==◌, ==_iff, Bool, true, false, ◌≡◌, refl, sym, ◌∙◌, ap, none,
  some, List, [], ◌∷◌, ◌++◌, length, length-append, take, if◌then◌else◌, arith, append_assoc',
  append_nil, and-true,
}
use vivace.PhpVer.{Bytes, starts_with}
use vivace.PathUtil.{
  slash, root, drop, join_slash, is_empty, rfind_slash, dirname_at, php_dirname, basename_at,
  php_basename, trim_end, count_slashes, after_common, min,
}
use vivace.PathUtil.Resolving.{has_slash, AllParts}

-- Each segment behind a slash.
abbrev pub text_of : List Bytes → Bytes
text_of [] = []
text_of (t ∷ ts) = slash ∷ t ++ text_of ts

-- The root is one slash.
abbrev pub path_of : List Bytes → Bytes
path_of [] = root
path_of (t ∷ ts) = text_of (t ∷ ts)

pub text_of-append : (xs ys : List Bytes) → text_of (xs ++ ys) ≡ text_of xs ++ text_of ys
text_of-append [] ys = refl
text_of-append (x ∷ xs) ys =
    ap (λ r. slash ∷ x ++ r) (text_of-append xs ys)
    ∙ ap (λ r. slash ∷ r) (sym (append_assoc' x (text_of xs) (text_of ys)))

pub path_of-join_slash : (ts : List Bytes) → root ++ join_slash ts ≡ path_of ts
path_of-join_slash [] = refl
path_of-join_slash (t ∷ []) = ap (λ r. slash ∷ r) (sym (append_nil t))
path_of-join_slash (t ∷ u ∷ us) = ap (λ r. slash ∷ t ++ r) (path_of-join_slash (u ∷ us))

-- The last slash stands in front of a text without one.
rfind_slash-none : (t : Bytes) → has_slash t ≡ false → rfind_slash t ≡ none
rfind_slash-none [] h = refl
rfind_slash-none (c ∷ cs) h =
    let (f, g) = or-false (c == slash) (has_slash cs) h in rw f rw (rfind_slash-none cs g) refl

rfind_slash-segment :
    (xs t : Bytes) → has_slash t ≡ false → rfind_slash (xs ++ slash ∷ t) ≡ some (length xs)
rfind_slash-segment [] t h = rw (rfind_slash-none t h) refl
rfind_slash-segment (x ∷ xs) t h = rw (rfind_slash-segment xs t h) refl

take-append : (xs ys : Bytes) → take (length xs) (xs ++ ys) ≡ xs
take-append [] ys = refl
take-append (x ∷ xs) ys = ap (λ r. x ∷ r) (take-append xs ys)

drop-append : (xs : Bytes) (y : ℕ) (ys : Bytes) → drop (suc (length xs)) (xs ++ y ∷ ys) ≡ ys
drop-append [] y ys = refl
drop-append (x ∷ xs) y ys = drop-append xs y ys

-- A text with a last segment.
text_of-snoc : (us : List Bytes) (t : Bytes) → text_of (us ++ t ∷ []) ≡ text_of us ++ slash ∷ t
text_of-snoc us t = text_of-append us (t ∷ []) ∙ ap (λ r. text_of us ++ slash ∷ r) (append_nil t)

pub path_of-snoc : (us : List Bytes) (t : Bytes) → path_of (us ++ t ∷ []) ≡ text_of us ++ slash ∷ t
path_of-snoc [] t = ap (λ r. slash ∷ r) (append_nil t)
path_of-snoc (u ∷ us) t = text_of-snoc (u ∷ us) t

pub php_dirname-path_of :
    (us : List Bytes) (t : Bytes)
    → has_slash t ≡ false
    → php_dirname (path_of (us ++ t ∷ [])) ≡ path_of us
unfolding php_dirname
php_dirname-path_of us t h =
    ap php_dirname (path_of-snoc us t)
    ∙ ap (dirname_at (text_of us ++ slash ∷ t)) (rfind_slash-segment (text_of us) t h)
    ∙ directory us
  where
    directory :
        (us : List Bytes)
        → dirname_at (text_of us ++ slash ∷ t) (some (length (text_of us))) ≡ path_of us
    directory [] = refl
    directory (u ∷ us) = take-append (text_of (u ∷ us)) (slash ∷ t)

pub php_basename-path_of :
    (us : List Bytes) (t : Bytes) → has_slash t ≡ false → php_basename (path_of (us ++ t ∷ [])) ≡ t
unfolding php_basename
php_basename-path_of us t h =
    ap php_basename (path_of-snoc us t)
    ∙ ap (basename_at (text_of us ++ slash ∷ t)) (rfind_slash-segment (text_of us) t h)
    ∙ drop-append (text_of us) slash t

-- Two texts up to their first slash.
same_segment :
    (f u a b : Bytes)
    → has_slash f ≡ false
    → has_slash u ≡ false
    → starts_with (f ++ slash ∷ a) (u ++ slash ∷ b) ≡ true
    → (f ≡ u) × (starts_with a b ≡ true)
same_segment [] [] a b h k s = (refl, s)
same_segment [] (c ∷ u) a b h k s = absurd (ground (arith, s, k))
same_segment (c ∷ f) [] a b h k s = absurd (ground (arith, s, h))
same_segment (c ∷ f) (d ∷ u) a b h k s =
    let (same, more) = and-true (c == d) (starts_with (f ++ slash ∷ a) (u ++ slash ∷ b)) s in
    let (_, h') = or-false (c == slash) (has_slash f) h in
    let (_, k') = or-false (d == slash) (has_slash u) k in
    let (equal, rest) = same_segment f u a b h' k' more in
    let heads = (==_iff c d).0 same in (ap (λ x. x ∷ f) heads ∙ ap (λ xs. d ∷ xs) equal, rest)

root_first : (ts : List Bytes) → (x : Bytes) × (text_of ts ++ root ≡ slash ∷ x)
root_first [] = ([], refl)
root_first (t ∷ ts) = ((t ++ text_of ts) ++ root, refl)

le→leb : (a b : ℕ) → a ≤ b → leb a b ≡ true
le→leb a b h = ground (arith, h)

lt→leb : (a b : ℕ) → a < b → leb b a ≡ false
lt→leb a b h = ground (arith, h)

-- A path text with a slash behind it at the beginning of another: its segments are the first ones.
pub starts_with-text_of :
    (a : Bool) (fs us : List Bytes)
    → AllParts a fs
    → AllParts a us
    → starts_with (text_of fs ++ root) (text_of us ++ root) ≡ true
    → (ws : List Bytes) × (fs ≡ us ++ ws)
starts_with-text_of a fs [] h k s = (fs, refl)
starts_with-text_of a [] ([] ∷ us) h k s = absurd (ground (arith, k.0.not_empty))
starts_with-text_of a [] ((c ∷ u) ∷ us) h k s = cc
starts_with-text_of a (f ∷ fs) (u ∷ us) h k s =
    let (x, ex) = root_first fs in
    let (y, ey) = root_first us in
    let left : (f ++ text_of fs) ++ root ≡ f ++ slash ∷ x =
      append_assoc' f (text_of fs) root ∙ ap (λ r. f ++ r) ex in
    let right : (u ++ text_of us) ++ root ≡ u ++ slash ∷ y =
      append_assoc' u (text_of us) root ∙ ap (λ r. u ++ r) ey in
    let s' : starts_with (f ++ slash ∷ x) (u ++ slash ∷ y) ≡ true =
      sym (ap (λ l. starts_with l (u ++ slash ∷ y)) left)
      ∙ sym (ap (starts_with ((f ++ text_of fs) ++ root)) right)
      ∙ s in
    let (same, more) = same_segment f u x y h.0.no_slash k.0.no_slash s' in
    let rest : starts_with (text_of fs ++ root) (text_of us ++ root) ≡ true = rw ex rw ey more in
    let (ws, e) = starts_with-text_of a fs us h.1 k.1 rest in
    (ws, ap (λ r. f ∷ r) e ∙ ap (λ r. r ∷ (us ++ ws)) same)

trim_end-segment : (u y : Bytes) → has_slash u ≡ false → trim_end y ≡ y → trim_end (u ++ y) ≡ u ++ y
trim_end-segment [] y h e = e
trim_end-segment (c ∷ cs) y h e =
    let (f, g) = or-false (c == slash) (has_slash cs) h in
    rw f (ap (λ r. c ∷ r) (trim_end-segment cs y g e))

trim_end-text_of : (a : Bool) (us : List Bytes) → AllParts a us → trim_end (text_of us) ≡ text_of us
trim_end-text_of a [] h = refl
trim_end-text_of a ([] ∷ us) h = absurd (ground (arith, h.0.not_empty))
trim_end-text_of a ((c ∷ u) ∷ us) h =
    ap (λ r. if is_empty r then [] else slash ∷ r)
      (trim_end-segment (c ∷ u) (text_of us) h.0.no_slash (trim_end-text_of a us h.1))

pub trim_end-path_of :
    (a : Bool) (us : List Bytes) → AllParts a us → trim_end (path_of us) ≡ text_of us
trim_end-path_of a [] h = refl
trim_end-path_of a (u ∷ us) h = trim_end-text_of a (u ∷ us) h

count_slashes-segment :
    (u y : Bytes) → has_slash u ≡ false → count_slashes (u ++ y) ≡ count_slashes y
count_slashes-segment [] y h = refl
count_slashes-segment (c ∷ cs) y h =
    let (f, g) = or-false (c == slash) (has_slash cs) h in
    rw f (omega (arith, count_slashes-segment cs y g))

count_slashes-text_of :
    (a : Bool) (us : List Bytes) → AllParts a us → count_slashes (text_of us) ≡ length us
count_slashes-text_of a [] h = refl
count_slashes-text_of a (u ∷ us) h =
    let step = count_slashes-segment u (text_of us) h.0.no_slash in
    omega (arith, step, count_slashes-text_of a us h.1)

join_slash-text_of : (w : Bytes) (ws : List Bytes) → join_slash (w ∷ ws) ≡ w ++ text_of ws
join_slash-text_of w [] = sym (append_nil w)
join_slash-text_of w (v ∷ vs) = ap (λ r. w ++ slash ∷ r) (join_slash-text_of v vs)

-- A path has one slash less behind its first segment than it has segments there.
pub count_slashes-join_slash :
    (a : Bool) (w : Bytes) (ws : List Bytes)
    → AllParts a (w ∷ ws)
    → count_slashes (join_slash (w ∷ ws)) ≡ length ws
count_slashes-join_slash a w ws h =
    ap count_slashes (join_slash-text_of w ws)
    ∙ count_slashes-segment w (text_of ws) h.0.no_slash
    ∙ count_slashes-text_of a ws h.1

drop_all : (xs : Bytes) → drop (length xs) xs ≡ []
drop_all [] = refl
drop_all (x ∷ xs) = drop_all xs

after_shorter : (xs y : Bytes) → after_common (xs ++ root) (xs ++ slash ∷ y) ≡ y
after_shorter xs y =
    let n : length (xs ++ root) ≡ suc (length xs) = omega (arith, length-append xs root) in
    let m : leb (suc (length xs)) (length (xs ++ slash ∷ y)) ≡ true =
      le→leb (suc (length xs)) (length (xs ++ slash ∷ y))
        (omega (arith, length-append xs (slash ∷ y))) in
    ap (λ n. drop (min n (length (xs ++ slash ∷ y))) (xs ++ slash ∷ y)) n
    ∙ ap (λ c. drop (if c then suc (length xs) else length (xs ++ slash ∷ y)) (xs ++ slash ∷ y)) m
    ∙ drop-append xs slash y

after_longer : (xs : Bytes) → after_common (xs ++ root) xs ≡ []
after_longer xs =
    let m : leb (length (xs ++ root)) (length xs) ≡ false =
      lt→leb (length xs) (length (xs ++ root)) (omega (arith, length-append xs root)) in
    ap (λ c. drop (if c then length (xs ++ root) else length xs) xs) m ∙ drop_all xs

pub path_of-segments :
    (us : List Bytes) (w : Bytes) (ws : List Bytes)
    → path_of (us ++ w ∷ ws) ≡ text_of us ++ slash ∷ join_slash (w ∷ ws)
path_of-segments us w ws =
    longer us
    ∙ text_of-append us (w ∷ ws)
    ∙ ap (λ r. text_of us ++ slash ∷ r) (sym (join_slash-text_of w ws))
  where
    longer : (us : List Bytes) → path_of (us ++ w ∷ ws) ≡ text_of (us ++ w ∷ ws)
    longer [] = refl
    longer (u ∷ us) = refl

-- What follows the common directory.
pub after_common-path_of :
    (us ws : List Bytes) → after_common (text_of us ++ root) (path_of (us ++ ws)) ≡ join_slash ws
after_common-path_of [] [] = refl
after_common-path_of (u ∷ us) [] =
    ap (λ r. after_common (text_of (u ∷ us) ++ root) (path_of r)) (append_nil (u ∷ us))
    ∙ after_longer (text_of (u ∷ us))
after_common-path_of us (w ∷ ws) =
    ap (after_common (text_of us ++ root)) (path_of-segments us w ws)
    ∙ after_shorter (text_of us) (join_slash (w ∷ ws))
