-- ===== src/PathUtil/Resolving.antt =====
-- Normalization does not change which directory or file a path names.
use vivace.Common.{
  ◌==◌, Bool, true, false, not, ◌&&◌, ◌||◌, ◌≡◌, refl, sym, ◌∙◌, ap, subst, some, List, [], ◌∷◌,
  ◌++◌, last?, drop_last, snoc_of_last, last?-snoc, and-true, if◌then◌else◌, Bool-cases, arith, inl,
  inr,
}
use vivace.PhpVer.{Bytes, eqb_bytes, starts_with, prepend}
use vivace.PathUtil.{
  slash, root, this, parent, split_slash, is_empty, is_parent, Parts, add_chunk, add_chunks,
}

-- A place in the file system: the names on the way up to the root.
abbrev pub Place : Type 0
Place = List Bytes

abbrev pub above : Place → Place
above [] = []
above (name ∷ place) = place

-- One segment of a path, read at a place.
abbrev pub enter : Bytes → Place → Place
enter segment place =
    if eqb_bytes segment parent
    then above place
    else if eqb_bytes segment this || is_empty segment
    then place
    else segment ∷ place

abbrev pub walk : List Bytes → Place → Place
walk [] place = place
walk (s ∷ ss) place = walk ss (enter s place)

-- The place that a path names, read in a directory.
abbrev pub place_of : Bytes → Place → Place
place_of path here = walk (split_slash path) (if starts_with path root then [] else here)

pub walk-append : (xs ys : List Bytes) (p : Place) → walk (xs ++ ys) p ≡ walk ys (walk xs p)
walk-append [] ys p = refl
walk-append (x ∷ xs) ys p = walk-append xs ys (enter x p)

-- The segments of a path have no slash.
abbrev pub has_slash : Bytes → Bool
has_slash [] = false
has_slash (c ∷ cs) = (c == slash) || has_slash cs

-- A segment that stays in a normalized path.
pub record IsPart (absolute : Bool) (c : Bytes) : Type 0 where
  pub not_this : eqb_bytes c this ≡ false
  pub not_empty : is_empty c ≡ false
  pub no_slash : has_slash c ≡ false
  pub below_root : absolute ≡ true → eqb_bytes c parent ≡ false

abbrev pub AllParts : Bool → List Bytes → Type 0
AllParts absolute [] = Unit
AllParts absolute (c ∷ cs) = IsPart absolute c × AllParts absolute cs

abbrev pub AllNoSlash : List Bytes → Type 0
AllNoSlash [] = Unit
AllNoSlash (c ∷ cs) = (has_slash c ≡ false) × AllNoSlash cs

-- The parts of a normalized path: a relative path may begin with "..", and `up` tells whether the
-- last part can be taken back.
pub record IsParts (absolute : Bool) (p : Parts) : Type 0 where
  pub up : p.1 ≡ not (is_empty p.0 || is_parent (last? p.0))
  pub names : AllParts absolute p.0

pub AllParts-append :
    (a : Bool) (xs ys : List Bytes) → AllParts a xs → AllParts a ys → AllParts a (xs ++ ys)
AllParts-append a [] ys h k = k
AllParts-append a (x ∷ xs) ys h k = (h.0, AllParts-append a xs ys h.1 k)

pub AllParts-split :
    (a : Bool) (xs ys : List Bytes) → AllParts a (xs ++ ys) → AllParts a xs × AllParts a ys
AllParts-split a [] ys h = (tt, h)
AllParts-split a (x ∷ xs) ys h = let rest = AllParts-split a xs ys h.1 in ((h.0, rest.0), rest.1)

-- What one chunk does: it keeps the form of the parts, and leads where it is read to lead.
pub record IsAdded (absolute : Bool) (p : Parts) (chunk : Bytes) (q : Parts) : Type 0 where
  pub parts : IsParts absolute q
  pub leads :
      (here : Place) → (absolute ≡ true → here ≡ []) → walk q.0 here ≡ enter chunk (walk p.0 here)

enter-parent : (c : Bytes) (p : Place) → eqb_bytes c parent ≡ true → enter c p ≡ above p
enter-parent c p e = rw e refl

pub enter-name :
    (c : Bytes) (p : Place)
    → eqb_bytes c parent ≡ false
    → eqb_bytes c this ≡ false
    → is_empty c ≡ false
    → enter c p ≡ c ∷ p
enter-name c p e f g = rw e rw f rw g refl

enter_skipped :
    (c : Bytes) (p : Place) → (not (eqb_bytes c this) && not (is_empty c)) ≡ false → enter c p ≡ p
enter_skipped [] p h = refl
enter_skipped (c ∷ []) p h = elim (Bool-cases (c == 46)) [
  | inl t ↦ rw t refl
  | inr f ↦ absurd (ground (arith, h, f))
]
enter_skipped (c ∷ d ∷ cs) p h = absurd (ground (arith, h, Bool-cases (c == 46)))

is_empty-snoc : (xs : List Bytes) (c : Bytes) → is_empty (xs ++ c ∷ []) ≡ false
is_empty-snoc [] c = refl
is_empty-snoc (x ∷ xs) c = refl

last?_of_cons : (x : Bytes) (xs : List Bytes) → (a : Bytes) × (last? (x ∷ xs) ≡ some a)
last?_of_cons x [] = (x, refl)
last?_of_cons x (y ∷ ys) = last?_of_cons y ys

-- The last part is a name, which ".." takes back.
last_is_name :
    (absolute up : Bool) (a : Bytes)
    → IsPart absolute a
    → up ≡ not (eqb_bytes a parent)
    → (absolute || up) ≡ true
    → eqb_bytes a parent ≡ false
last_is_name true up a h u t = h.below_root refl
last_is_name false up a h u t = ground (arith, u, t)

popped :
    (absolute : Bool) (ps : List Bytes) (up : Bool) (chunk : Bytes)
    → IsParts absolute (ps, up)
    → eqb_bytes chunk parent ≡ true
    → (absolute || up) ≡ true
    → IsAdded absolute
        (ps, up)
        chunk
        (drop_last ps, not (is_empty (drop_last ps) || is_parent (last? (drop_last ps))))
popped absolute [] up chunk h e t = record {
  parts = record { up = refl; names = tt };
  leads =
      λ here k. let rooted : absolute ≡ true = ground (arith, t, h.up) in rw (k rooted) rw e refl;
}
popped absolute (x ∷ xs) up chunk h e t =
    let (a, last) = last?_of_cons x xs in
    let init = drop_last (x ∷ xs) in
    let whole = snoc_of_last (x ∷ xs) a last in
    let named =
      AllParts-split absolute init (a ∷ []) (subst (AllParts absolute) (sym whole) h.names) in
    let name = last_is_name absolute up a named.1.0 (h.up ∙ ap (λ o. not (is_parent o)) last) t in
    record {
      parts = record { up = refl; names = named.0 };
      leads = λ here k.
          let led : walk (x ∷ xs) here ≡ a ∷ walk init here =
            ap (λ ps. walk ps here) (sym whole)
            ∙ walk-append init (a ∷ []) here
            ∙ enter-name a (walk init here) name named.1.0.not_this named.1.0.not_empty in
          sym (enter-parent chunk (walk (x ∷ xs) here) e ∙ ap above led);
    }

pushed :
    (absolute : Bool) (p : Parts) (chunk : Bytes)
    → has_slash chunk ≡ false
    → IsParts absolute p
    → (eqb_bytes chunk parent && (absolute || p.1)) ≡ false
    → (not (eqb_bytes chunk this) && not (is_empty chunk)) ≡ true
    → IsAdded absolute p chunk (p.0 ++ chunk ∷ [], not (eqb_bytes chunk parent))
pushed absolute p chunk ns h f t = record {
  parts = record {
    up = rw (is_empty-snoc p.0 chunk) rw (last?-snoc p.0 chunk) refl;
    names = AllParts-append absolute p.0 (chunk ∷ []) h.names (
      record {
        not_this = ground (arith, t);
        not_empty = ground (arith, t);
        no_slash = ns;
        below_root = λ k. ground (arith, f, k);
      },
      tt,
    );
  };
  leads = λ here k. walk-append p.0 (chunk ∷ []) here;
}

pub add_chunk-IsAdded :
    (absolute : Bool) (p : Parts) (chunk : Bytes)
    → has_slash chunk ≡ false
    → IsParts absolute p
    → IsAdded absolute p chunk (add_chunk absolute p chunk)
unfolding add_chunk
add_chunk-IsAdded absolute p chunk ns h =
    elim (Bool-cases (eqb_bytes chunk parent && (absolute || p.1))) [
      | inl t ↦
          let (e, u) = and-true (eqb_bytes chunk parent) (absolute || p.1) t in
          rw t (popped absolute p.0 p.1 chunk h e u)
      | inr f ↦ rw f (elim (Bool-cases (not (eqb_bytes chunk this) && not (is_empty chunk))) [
        | inl t ↦ rw t (pushed absolute p chunk ns h f t)
        | inr g ↦
            rw g
              (record { parts = h; leads = λ here k. sym (enter_skipped chunk (walk p.0 here) g) })
      ])
    ]

-- All chunks together.
pub add_chunks-IsAdded :
    (absolute : Bool) (p : Parts) (chunks : List Bytes)
    → AllNoSlash chunks
    → IsParts absolute p
    → IsParts absolute (add_chunks absolute p chunks)
      × ((here : Place)
          → (absolute ≡ true → here ≡ [])
          → walk (add_chunks absolute p chunks).0 here ≡ walk chunks (walk p.0 here))
add_chunks-IsAdded absolute p [] ns h = (h, λ here k. refl)
add_chunks-IsAdded absolute p (c ∷ cs) ns h =
    let one = add_chunk-IsAdded absolute p c ns.0 h in
    let rest = add_chunks-IsAdded absolute (add_chunk absolute p c) cs ns.1 one.parts in
    (rest.0, λ here k. rest.1 here k ∙ ap (walk cs) (one.leads here k))

pub split_slash-NoSlash : (path : Bytes) → AllNoSlash (split_slash path)
split_slash-NoSlash [] = (refl, tt)
split_slash-NoSlash (c ∷ cs) = elim (Bool-cases (c == slash)) [
  | inl t ↦ rw t (refl, split_slash-NoSlash cs)
  | inr f ↦ rw f (prepend-NoSlash (split_slash cs) f (split_slash-NoSlash cs))
]
  where
    prepend-NoSlash :
        (ps : List Bytes) → (c == slash) ≡ false → AllNoSlash ps → AllNoSlash (prepend c ps)
    prepend-NoSlash [] f h = (ground (arith, f), tt)
    prepend-NoSlash (p ∷ ps) f h = (ground (arith, f, h.0), h.1)
