-- ===== src/PathUtil/Shortest.antt =====
-- The relative path that `find_shortest_path` gives leads where it should.
use vivace.Common.{
  ==_iff, Bool, true, false, not, ◌||◌, ◌≡◌, refl, sym, ◌∙◌, ap, subst, List, [], ◌∷◌, ◌++◌,
  if◌then◌else◌, arith, inl, inr, append_nil,
}
use vivace.PhpVer.Equality.{eqb_bytes-eq, eqb_bytes_refl}
use vivace.PhpVer.{Bytes, eqb_bytes, starts_with}
use vivace.PathUtil.{
  slash, root, double_root, this, dummy_file, slashes, join_slash, split_prefix, parts_of,
  normalize_path, php_dirname, php_basename, common_path, trim_end, up_and_down, shortest_between,
  find_shortest_path_with,
}
use vivace.PathUtil.Climbing.{common_path-Climbs}
use vivace.PathUtil.Resolving.{
  Place, enter, walk, walk-append, place_of, has_slash, IsPart, AllParts, AllParts-split,
  AllParts-append,
}
use vivace.PathUtil.Prefixes.{
  PrefixView, relative, single, double, prefix_view, join_slash-relative, split_slash-name,
  parts_of-IsParts, place_of-normalize_path,
}
use vivace.PathUtil.Texts.{
  text_of, path_of, path_of-join_slash, path_of-snoc, path_of-segments, php_dirname-path_of,
  php_basename-path_of, trim_end-path_of,
}
use vivace.PathUtil.Steps.{
  place_of-path_of, snoc_cases, path_of-text_of, from_common, if_leads, up_and_down-leads,
  Climbs-IsFound,
}

-- The last segment of `to`, read in its directory.
beside :
    (t : Bytes) (here : Place)
    → has_slash t ≡ false
    → place_of (this ++ root ++ t) here ≡ enter t here
beside t here h = ap (λ ss. walk ss here) (split_slash-name t h)

walk-path_of :
    (xs ys : List Bytes)
    → AllParts true xs
    → AllParts true ys
    → path_of xs ≡ path_of ys
    → walk xs [] ≡ walk ys []
walk-path_of xs ys h k e =
    sym (place_of-path_of xs [] h) ∙ ap (λ p. place_of p []) e ∙ place_of-path_of ys [] k

-- `to` stands in the directory of `from`.
beside-leads :
    (fs ts : List Bytes) (f : Bytes)
    → AllParts true (fs ++ f ∷ [])
    → AllParts true ts
    → php_dirname (path_of (fs ++ f ∷ [])) ≡ php_dirname (path_of ts)
    → place_of (this ++ root ++ php_basename (path_of ts)) (walk fs []) ≡ walk ts []
unfolding php_basename php_dirname
beside-leads fs ts f h k e =
    let (hf, hl) = AllParts-split true fs (f ∷ []) h in
    let from_dir = sym (php_dirname-path_of fs f hl.0.no_slash) in
    elim (snoc_cases ts) [
      | inl n ↦
          ap (λ ts. place_of (this ++ root ++ php_basename (path_of ts)) (walk fs [])) n
          ∙ walk-path_of fs [] hf tt (from_dir ∙ e ∙ ap (λ ts. php_dirname (path_of ts)) n)
          ∙ ap (λ ts. walk ts []) (sym n)
      | inr s ↦
          let (ku, kl) = AllParts-split true s.0 (s.1 ∷ []) (subst (AllParts true) s.2 k) in
          let same : walk fs [] ≡ walk s.0 [] = walk-path_of fs s.0 hf ku (
            from_dir
            ∙ e
            ∙ ap (λ ts. php_dirname (path_of ts)) s.2
            ∙ php_dirname-path_of s.0 s.1 kl.0.no_slash) in
          ap (λ b. place_of (this ++ root ++ b) (walk fs []))
            (ap (λ ts. php_basename (path_of ts)) s.2 ∙ php_basename-path_of s.0 s.1 kl.0.no_slash)
          ∙ beside s.1 (walk fs []) kl.0.no_slash
          ∙ ap (enter s.1) same
          ∙ sym (walk-append s.0 (s.1 ∷ []) [])
          ∙ ap (λ ts. walk ts []) (sym s.2)
    ]

starts_with-append : (xs y : Bytes) → starts_with (xs ++ slash ∷ y) (xs ++ root) ≡ true
starts_with-append [] [] = refl
starts_with-append [] (c ∷ y) = refl
starts_with-append (x ∷ xs) y = rw ((==_iff x x).1 refl) (starts_with-append xs y)

-- If `from` is the common directory, then `to` is `from` or lies below it.
not_above :
    (fs us vs : List Bytes) (f : Bytes)
    → fs ++ f ∷ [] ≡ us ++ []
    → eqb_bytes (php_dirname (path_of (fs ++ f ∷ []))) (php_dirname (path_of (us ++ vs))) ≡ false
    → starts_with (path_of (us ++ vs)) (path_of (fs ++ f ∷ []) ++ root) ≡ false
    → ⊥
not_above fs us [] f e d o =
    let own = eqb_bytes_refl (php_dirname (path_of (us ++ []))) in
    let other =
      subst (λ p. eqb_bytes (php_dirname (path_of p)) (php_dirname (path_of (us ++ []))) ≡ false) e
        d in
    ground (arith, own, other)
not_above fs us (v ∷ vs) f e d o =
    let under = starts_with-append (text_of us) (join_slash (v ∷ vs)) in
    let from : path_of (fs ++ f ∷ []) ≡ text_of us =
      path_of-text_of fs f ∙ ap text_of e ∙ ap text_of (append_nil us) in
    let other : starts_with (text_of us ++ slash ∷ join_slash (v ∷ vs)) (text_of us ++ root)
        ≡ false =
      ap (λ p. starts_with p (text_of us ++ root)) (sym (path_of-segments us v vs))
      ∙ ap (λ p. starts_with (path_of (us ++ v ∷ vs)) (p ++ root)) (sym from)
      ∙ o in
    ground (arith, under, other)

from_common_directory :
    (fs ts us vs ws : List Bytes) (f c : Bytes) (prefer : Bool)
    → AllParts true (fs ++ f ∷ [])
    → AllParts true ts
    → ts ≡ us ++ vs
    → fs ++ f ∷ [] ≡ us ++ ws
    → c ≡ path_of us
    → eqb_bytes (php_dirname (path_of (fs ++ f ∷ []))) (php_dirname (path_of ts)) ≡ false
    → starts_with (path_of ts) (path_of (fs ++ f ∷ []) ++ root) ≡ false
    → place_of
        (up_and_down (path_of (fs ++ f ∷ [])) (path_of ts) (trim_end c ++ root) prefer)
        (walk fs [])
      ≡ walk ts []
from_common_directory fs ts us vs [] f c prefer h k et ef ec d o = absurd (
    not_above fs us vs f ef
      (subst
        (λ ts. eqb_bytes (php_dirname (path_of (fs ++ f ∷ []))) (php_dirname (path_of ts)) ≡ false)
        et d)
      (subst (λ ts. starts_with (path_of ts) (path_of (fs ++ f ∷ []) ++ root) ≡ false) et o))
from_common_directory fs ts us vs (w ∷ ws) f c prefer h k et ef ec d o =
    let k' = subst (AllParts true) et k in
    let here = walk fs [] in
    let trimmed = ap trim_end ec ∙ trim_end-path_of true us (AllParts-split true us vs k').0 in
    ap (λ t. place_of (up_and_down (path_of (fs ++ f ∷ [])) (path_of ts) (t ++ root) prefer) here)
      trimmed
    ∙ ap (λ fs. place_of (up_and_down (path_of fs) (path_of ts) (text_of us ++ root) prefer) here)
        ef
    ∙ ap
        (λ ts.
          place_of (up_and_down (path_of (us ++ w ∷ ws)) (path_of ts) (text_of us ++ root) prefer)
            here)
        et
    ∙ up_and_down-leads us vs ws fs f w prefer k' h ef
    ∙ ap (λ ts. walk ts []) (sym et)

-- What `shortest_between` gives, read in the directory of the file `from`, leads to `to`, unless that
-- lies below the file.
shortest_between-leads :
    (fs ts : List Bytes) (f : Bytes) (prefer : Bool)
    → AllParts true (fs ++ f ∷ [])
    → AllParts true ts
    → starts_with (path_of ts) (path_of (fs ++ f ∷ []) ++ root) ≡ false
    → place_of (shortest_between (path_of (fs ++ f ∷ [])) (path_of ts) prefer) (walk fs [])
      ≡ walk ts []
shortest_between-leads fs ts f prefer h k outside =
    let from = path_of (fs ++ f ∷ []) in
    let to = path_of ts in
    let here = walk fs [] in
    let common = common_path from to in
    let found = Climbs-IsFound from ts k refl (common_path-Climbs from to) in
    let parts = AllParts-split true found.us found.vs (subst (AllParts true) found.segments k) in
    let (ws, e) = from_common fs found.us f h parts.0 found.stopped in
    if_leads (eqb_bytes (php_dirname from) (php_dirname to)) (this ++ root ++ php_basename to)
      (if not (starts_with from common) || eqb_bytes common this
        then to
        else up_and_down from to (trim_end common ++ root) prefer)
      here (walk ts [])
      (λ t. beside-leads fs ts f h k (eqb_bytes-eq (php_dirname from) (php_dirname to) t))
      (λ d.
        if_leads (not (starts_with from common) || eqb_bytes common this) to
          (up_and_down from to (trim_end common ++ root) prefer) here (walk ts [])
          (λ t. place_of-path_of ts here k)
          (λ t.
            from_common_directory fs ts found.us found.vs ws f common prefer h k found.segments e
              found.path d outside))

-- A path from the root, which is one slash.
abbrev pub IsRooted : Bytes → Type 0
IsRooted path =
    (starts_with (normalize_path path) root ≡ true)
    × (starts_with (normalize_path path) double_root ≡ false)

-- The segments of a normalized path from the root.
record IsAbsolute (path : Bytes) : Type 0 where
  pub segments : List Bytes
  pub parts : AllParts true segments
  pub normal : normalize_path path ≡ path_of segments

IsRooted-IsAbsolute : (path : Bytes) → IsRooted path → IsAbsolute path
unfolding normalize_path
IsRooted-IsAbsolute path h =
    by_prefix (split_prefix (slashes path)) refl (prefix_view (slashes path))
  where
    by_prefix :
        (x : Bytes × Bytes)
        → split_prefix (slashes path) ≡ x
        → PrefixView (slashes path) x
        → IsAbsolute path
    by_prefix x e (relative f) =
        let ps = parts_of x in
        let first = join_slash-relative false ps (parts_of-IsParts x).0.names in
        let same : starts_with (normalize_path path) root ≡ starts_with (join_slash ps) root =
          ap (λ x. starts_with (x.0 ++ join_slash (parts_of x)) root) e in
        absurd (ground (arith, first, same, h.0))
    by_prefix x e (single rest q) = record {
      segments = parts_of x;
      parts = (parts_of-IsParts x).0.names;
      normal = ap (λ x. x.0 ++ join_slash (parts_of x)) e ∙ path_of-join_slash (parts_of x);
    }
    by_prefix x e (double rest q) =
        let same : starts_with (normalize_path path) double_root ≡ true =
          ap (λ x. starts_with (x.0 ++ join_slash (parts_of x)) double_root) e in
        absurd (ground (arith, same, h.1))

-- "dummy_file".
abbrev dummy_name : Bytes
dummy_name = 100 ∷ 117 ∷ 109 ∷ 109 ∷ 121 ∷ 95 ∷ 102 ∷ 105 ∷ 108 ∷ 101 ∷ []

dummy_name-IsPart : IsPart true dummy_name
dummy_name-IsPart = record {
  not_this = refl;
  not_empty = refl;
  no_slash = refl;
  below_root = λ t. refl;
}

-- The path that `find_shortest_path_with` gives for a directory `from` names, read in it, the place
-- of `to`, whether or not a relative path is preferred. Both paths begin with one slash, and `to`
-- does not lie below a "dummy_file" in `from`.
pub place_of-find_shortest_path_with :
    (from to : Bytes) (prefer : Bool)
    → IsRooted from
    → IsRooted to
    → starts_with (normalize_path to) (trim_end (normalize_path from) ++ dummy_file ++ root) ≡ false
    → place_of (find_shortest_path_with from to true prefer) (place_of (slashes from) [])
      ≡ place_of (slashes to) []
unfolding find_shortest_path_with
place_of-find_shortest_path_with from to prefer h k outside =
    let a = IsRooted-IsAbsolute from h in
    let b = IsRooted-IsAbsolute to k in
    let fs = a.segments in
    let parts = AllParts-append true fs (dummy_name ∷ []) a.parts (dummy_name-IsPart, tt) in
    let start : trim_end (normalize_path from) ++ dummy_file ≡ path_of (fs ++ dummy_name ∷ []) =
      ap (λ p. trim_end p ++ dummy_file) a.normal
      ∙ ap (λ p. p ++ dummy_file) (trim_end-path_of true fs a.parts)
      ∙ sym (path_of-snoc fs dummy_name) in
    let here : place_of (slashes from) [] ≡ walk fs [] = place_of-normal from a in
    let there : place_of (slashes to) [] ≡ walk b.segments [] = place_of-normal to b in
    ap (place_of (find_shortest_path_with from to true prefer)) here
    ∙ ap (λ p. place_of (shortest_between p (normalize_path to) prefer) (walk fs [])) start
    ∙ ap (λ p. place_of (shortest_between (path_of (fs ++ dummy_name ∷ [])) p prefer) (walk fs []))
        b.normal
    ∙ shortest_between-leads fs b.segments dummy_name prefer parts b.parts (
        ap (λ p. starts_with p (path_of (fs ++ dummy_name ∷ []) ++ root)) (sym b.normal)
        ∙ ap (λ p. starts_with (normalize_path to) (p ++ root)) (sym start)
        ∙ outside)
    ∙ sym there
  where
    place_of-normal :
        (path : Bytes) → (a : IsAbsolute path) → place_of (slashes path) [] ≡ walk a.segments []
    place_of-normal path a =
        sym (place_of-normalize_path path [])
        ∙ ap (λ p. place_of p []) a.normal
        ∙ place_of-path_of a.segments [] a.parts
