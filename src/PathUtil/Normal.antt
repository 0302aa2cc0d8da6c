-- ===== src/PathUtil/Normal.antt =====
-- Normalization is idempotent.
use vivace.Common.{
  ℕ, suc, ◌==◌, lt→ltb, Bool, true, false, not, ◌&&◌, ◌||◌, ◌≡◌, refl, sym, ◌∙◌, ap, subst, List,
  [], ◌∷◌, ◌++◌, length, last?, drop_last, if◌then◌else◌, Bool-cases, arith, inl, inr, ◌⊎◌,
  append_assoc', append_nil,
}
use vivace.PhpVer.{Bytes, eqb_bytes, starts_with, prepend}
use vivace.PathUtil.{
  slash, backslash, root, double_root, parent, this, drop, slashes, split_slash, join_slash,
  is_empty, is_parent, Parts, add_chunk, add_chunks, split_prefix, parts_of, normalize_path,
}
use vivace.PathUtil.Resolving.{IsPart, AllParts}
use vivace.PathUtil.Prefixes.{
  PrefixView, relative, single, double, prefix_view, split_slash-join_slash, join_slash-relative,
  parts_of-IsParts,
}

-- ".." stands in front only: none follows a name. `up` tells whether a name came before.
abbrev pub IsInOrder : Bool → List Bytes → Type 0
IsInOrder up [] = Unit
IsInOrder up (c ∷ cs) =
    (up ≡ true → eqb_bytes c parent ≡ false) × IsInOrder (not (eqb_bytes c parent)) cs

-- What `up` is behind the parts.
abbrev after_parts : Bool → List Bytes → Bool
after_parts up [] = up
after_parts up (c ∷ cs) = after_parts (not (eqb_bytes c parent)) cs

after_parts-cons :
    (up : Bool) (c : Bytes) (cs : List Bytes)
    → after_parts up (c ∷ cs) ≡ not (is_parent (last? (c ∷ cs)))
after_parts-cons up c [] = refl
after_parts-cons up c (d ∷ ds) = after_parts-cons (not (eqb_bytes c parent)) d ds

after_parts-last? :
    (ps : List Bytes) → after_parts false ps ≡ not (is_empty ps || is_parent (last? ps))
after_parts-last? [] = refl
after_parts-last? (c ∷ cs) = after_parts-cons false c cs

after_parts-snoc :
    (up : Bool) (ps : List Bytes) (c : Bytes)
    → after_parts up (ps ++ c ∷ []) ≡ not (eqb_bytes c parent)
after_parts-snoc up [] c = refl
after_parts-snoc up (p ∷ ps) c = after_parts-snoc (not (eqb_bytes p parent)) ps c

-- No byte of the text is a backslash.
abbrev AllClean : List Bytes → Type 0
AllClean [] = Unit
AllClean (c ∷ cs) = (slashes c ≡ c) × AllClean cs

IsInOrder-snoc :
    (up : Bool) (ps : List Bytes) (c : Bytes)
    → IsInOrder up ps
    → (after_parts up ps ≡ true → eqb_bytes c parent ≡ false)
    → IsInOrder up (ps ++ c ∷ [])
IsInOrder-snoc up [] c h k = (k, tt)
IsInOrder-snoc up (p ∷ ps) c h k = (h.0, IsInOrder-snoc (not (eqb_bytes p parent)) ps c h.1 k)

IsInOrder-drop_last : (up : Bool) (ps : List Bytes) → IsInOrder up ps → IsInOrder up (drop_last ps)
IsInOrder-drop_last up [] h = tt
IsInOrder-drop_last up (p ∷ []) h = tt
IsInOrder-drop_last up (p ∷ q ∷ qs) h =
    (h.0, IsInOrder-drop_last (not (eqb_bytes p parent)) (q ∷ qs) h.1)

AllClean-snoc :
    (ps : List Bytes) (c : Bytes) → AllClean ps → slashes c ≡ c → AllClean (ps ++ c ∷ [])
AllClean-snoc [] c h k = (k, tt)
AllClean-snoc (p ∷ ps) c h k = (h.0, AllClean-snoc ps c h.1 k)

AllClean-drop_last : (ps : List Bytes) → AllClean ps → AllClean (drop_last ps)
AllClean-drop_last [] h = tt
AllClean-drop_last (p ∷ []) h = tt
AllClean-drop_last (p ∷ q ∷ qs) h = (h.0, AllClean-drop_last (q ∷ qs) h.1)

-- The parts of a normalized path, of chunks without backslashes.
pub record IsNormal (p : Parts) : Type 0 where
  pub order : IsInOrder false p.0
  pub plain : AllClean p.0
  pub up : p.1 ≡ after_parts false p.0

add_chunk-IsNormal :
    (absolute : Bool) (p : Parts) (c : Bytes)
    → slashes c ≡ c
    → IsNormal p
    → IsNormal (add_chunk absolute p c)
unfolding add_chunk
add_chunk-IsNormal absolute p c k h = elim (Bool-cases (eqb_bytes c parent && (absolute || p.1))) [
  | inl t ↦ rw t (record {
    order = IsInOrder-drop_last false p.0 h.order;
    plain = AllClean-drop_last p.0 h.plain;
    up = sym (after_parts-last? (drop_last p.0));
  })
  | inr f ↦ rw f (elim (Bool-cases (not (eqb_bytes c this) && not (is_empty c))) [
    | inl t ↦ rw t (record {
      order = IsInOrder-snoc false p.0 c h.order (λ a. ground (arith, f, h.up, a));
      plain = AllClean-snoc p.0 c h.plain k;
      up = sym (after_parts-snoc false p.0 c);
    })
    | inr g ↦ rw g h
  ])
]

add_chunks-IsNormal :
    (absolute : Bool) (p : Parts) (cs : List Bytes)
    → AllClean cs
    → IsNormal p
    → IsNormal (add_chunks absolute p cs)
add_chunks-IsNormal absolute p [] k h = h
add_chunks-IsNormal absolute p (c ∷ cs) k h =
    add_chunks-IsNormal absolute (add_chunk absolute p c) cs k.1
      (add_chunk-IsNormal absolute p c k.0 h)

both_false :
    (e a u : Bool) → (a ≡ true → e ≡ false) → (u ≡ true → e ≡ false) → (e && (a || u)) ≡ false
both_false false a u h k = refl
both_false true true u h k = h refl
both_false true false true h k = k refl
both_false true false false h k = refl

-- Normal parts are added as they are.
kept_chunk :
    (absolute : Bool) (p : Parts) (c : Bytes)
    → IsPart absolute c
    → (p.1 ≡ true → eqb_bytes c parent ≡ false)
    → add_chunk absolute p c ≡ (p.0 ++ c ∷ [], not (eqb_bytes c parent))
unfolding add_chunk
kept_chunk absolute p c h k =
    let kept : (eqb_bytes c parent && (absolute || p.1)) ≡ false =
      both_false (eqb_bytes c parent) absolute p.1 h.below_root k in
    rw kept rw h.not_this rw h.not_empty refl

kept_chunks :
    (absolute : Bool) (p : Parts) (cs : List Bytes)
    → AllParts absolute cs
    → IsInOrder p.1 cs
    → (add_chunks absolute p cs).0 ≡ p.0 ++ cs
kept_chunks absolute p [] h k = sym (append_nil p.0)
kept_chunks absolute p (c ∷ cs) h k =
    let one = kept_chunk absolute p c h.0 k.0 in
    ap (λ q. (add_chunks absolute q cs).0) one
    ∙ kept_chunks absolute (p.0 ++ c ∷ [], not (eqb_bytes c parent)) cs h.1 k.1
    ∙ append_assoc' p.0 (c ∷ []) cs

parts_of-join_slash :
    (absolute : Bytes) (ps : List Bytes)
    → AllParts (not (is_empty absolute)) ps
    → IsInOrder false ps
    → parts_of (absolute, join_slash ps) ≡ ps
unfolding add_chunk
parts_of-join_slash absolute [] h k = refl
parts_of-join_slash absolute (p ∷ ps) h k =
    ap (λ ss. (add_chunks (not (is_empty absolute)) ([], false) ss).0)
      (split_slash-join_slash (not (is_empty absolute)) p ps h)
    ∙ (kept_chunks (not (is_empty absolute)) ([], false) (p ∷ ps) h k)

-- Without backslashes `slashes` changes nothing.
slashes-append : (xs ys : Bytes) → slashes (xs ++ ys) ≡ slashes xs ++ slashes ys
slashes-append [] ys = refl
slashes-append (x ∷ xs) ys =
    ap (λ r. (if x == backslash then slash else x) ∷ r) (slashes-append xs ys)

slashes-slashes : (path : Bytes) → slashes (slashes path) ≡ slashes path
slashes-slashes [] = refl
slashes-slashes (c ∷ cs) = elim (Bool-cases (c == backslash)) [
  | inl t ↦ rw t (ap (λ r. slash ∷ r) (slashes-slashes cs))
  | inr f ↦ rw f rw f (ap (λ r. c ∷ r) (slashes-slashes cs))
]

prepend-AllClean :
    (c : ℕ) (ps : List Bytes) → (c == backslash) ≡ false → AllClean ps → AllClean (prepend c ps)
prepend-AllClean c [] f h = (rw f refl, tt)
prepend-AllClean c (p ∷ ps) f h = (rw f (ap (λ r. c ∷ r) h.0), h.1)

split_slash-AllClean : (path : Bytes) → AllClean (split_slash (slashes path))
split_slash-AllClean [] = (refl, tt)
split_slash-AllClean (c ∷ cs) = elim (Bool-cases (c == backslash)) [
  | inl t ↦ rw t (refl, split_slash-AllClean cs)
  | inr f ↦ rw f (elim (Bool-cases (c == slash)) [
    | inl u ↦ rw u (refl, split_slash-AllClean cs)
    | inr g ↦ rw g (prepend-AllClean c (split_slash (slashes cs)) f (split_slash-AllClean cs))
  ])
]

-- The rest behind the prefix has no backslash either.
rest_clean : (q : Bytes) (x : Bytes × Bytes) → slashes q ≡ q → PrefixView q x → slashes x.1 ≡ x.1
rest_clean q x h (relative f) = h
rest_clean q x h (single rest e) = ap (drop 1) (sym (ap slashes e) ∙ h ∙ e)
rest_clean q x h (double rest e) = ap (drop 2) (sym (ap slashes e) ∙ h ∙ e)

prefix_clean :
    (q : Bytes) (x : Bytes × Bytes) (r : Bytes)
    → PrefixView q x
    → slashes r ≡ r
    → slashes (x.0 ++ r) ≡ x.0 ++ r
prefix_clean q x r (relative f) h = h
prefix_clean q x r (single rest e) h = ap (λ r. slash ∷ r) h
prefix_clean q x r (double rest e) h = ap (λ r. slash ∷ slash ∷ r) h

slashes-join_slash : (ps : List Bytes) → AllClean ps → slashes (join_slash ps) ≡ join_slash ps
slashes-join_slash [] h = refl
slashes-join_slash (p ∷ []) h = h.0
slashes-join_slash (p ∷ q ∷ qs) h =
    slashes-append p (slash ∷ join_slash (q ∷ qs))
    ∙ ap (λ r. r ++ slash ∷ slashes (join_slash (q ∷ qs))) h.0
    ∙ ap (λ r. p ++ slash ∷ r) (slashes-join_slash (q ∷ qs) h.1)

-- What `normalize_path` leaves is read as the prefix and the parts again, "//" alone as "/".
abbrev Again : Bytes → Bytes → Type 0
Again absolute r =
    (split_prefix (absolute ++ r) ≡ (absolute, r)) × (eqb_bytes (absolute ++ r) double_root ≡ false)

not_slash : (c : ℕ) (cs : Bytes) → starts_with (c ∷ cs) root ≡ false → (c == slash) ≡ false
not_slash c [] f = ground (arith, f)
not_slash c (d ∷ ds) f = ground (arith, f)

relative-Again : (r : Bytes) → starts_with r root ≡ false → Again [] r
relative-Again [] f = (refl, refl)
relative-Again (c ∷ cs) f = let g = not_slash c cs f in (rw g refl, rw g refl)

rooted-Again : (r : Bytes) → starts_with r root ≡ false → Again root r
rooted-Again [] f = (refl, refl)
rooted-Again (c ∷ cs) f = let g = not_slash c cs f in (rw g refl, rw g refl)

double-Again : (r : Bytes) → (Again double_root r) ⊎ (double_root ++ r ≡ double_root)
double-Again [] = inr refl
double-Again (c ∷ cs) = inl (rw (lt→ltb 2 (suc (suc (suc (length cs)))) (omega arith)) refl, refl)

starts-Again :
    (a : Bool) (q : Bytes) (x : Bytes × Bytes) (ps : List Bytes)
    → AllParts a ps
    → PrefixView q x
    → (Again x.0 (join_slash ps)) ⊎ (x.0 ++ join_slash ps ≡ double_root)
starts-Again a q x ps h (relative f) =
    inl (relative-Again (join_slash ps) (join_slash-relative a ps h))
starts-Again a q x ps h (single rest e) =
    inl (rooted-Again (join_slash ps) (join_slash-relative a ps h))
starts-Again a q x ps h (double rest e) = double-Again (join_slash ps)

-- Normalizing a normalized path changes nothing, except that the two slashes which a path like "//."
-- leaves are then read as one.
pub normalize_path-idempotent :
    (path : Bytes)
    → normalize_path (normalize_path path)
      ≡ (if eqb_bytes (normalize_path path) double_root then root else normalize_path path)
unfolding normalize_path
normalize_path-idempotent path =
    let x = split_prefix (slashes path) in
    let a = not (is_empty x.0) in
    let v = prefix_view (slashes path) in
    let parts = (parts_of-IsParts x).0 in
    let normal : IsNormal (add_chunks a ([], false) (split_slash x.1)) =
      add_chunks-IsNormal a ([], false) (split_slash x.1)
        (subst (λ r. AllClean (split_slash r))
          (rest_clean (slashes path) x (slashes-slashes path) v) (split_slash-AllClean x.1))
        (record { order = tt; plain = tt; up = refl }) in
    let ps = parts_of x in
    let same =
      prefix_clean (slashes path) x (join_slash ps) v (slashes-join_slash ps normal.plain) in
    elim (starts-Again a (slashes path) x ps parts.names v) [
      | inl again ↦ rw again.1 (
          ap split_again same
          ∙ ap print again.0
          ∙ ap (λ ps. x.0 ++ join_slash ps) (parts_of-join_slash x.0 ps parts.names normal.order))
      | inr e ↦ ap normalize_path e ∙ sym (ap (λ q. if eqb_bytes q double_root then root else q) e)
    ]
  where
    print : Bytes × Bytes → Bytes
    print x = x.0 ++ join_slash (parts_of x)

    split_again : Bytes → Bytes
    split_again q = print (split_prefix q)
