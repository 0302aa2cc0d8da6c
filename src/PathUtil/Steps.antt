-- ===== src/PathUtil/Steps.antt =====
-- The common directory of two paths, and the way from one to the other through it.
use vivace.Common.{
  ℕ, zero, suc, ltb, Bool, true, false, not, ◌&&◌, ◌≡◌, refl, sym, ◌∙◌, ap, subst, List, [], ◌∷◌,
  ◌++◌, length, drop_last, drop_last-snoc, if◌then◌else◌, arith, inl, inr, ◌⊎◌, append_assoc',
  append_nil,
}
use vivace.PhpVer.{Bytes, eqb_bytes, starts_with}
use vivace.PathUtil.{
  root, this, parent, split_slash, join_slash, is_empty, php_dirname, stops, count_slashes,
  after_common, repeat, up_and_down,
}
use vivace.PathUtil.Climbing.{Climbs, stay, climb}
use vivace.PathUtil.Resolving.{
  Place, above, enter, enter-name, walk, walk-append, place_of, AllParts, AllParts-split,
}
use vivace.PathUtil.Prefixes.{join_slash-relative, walk-join_slash}
use vivace.PathUtil.Texts.{
  text_of, path_of, path_of-join_slash, php_dirname-path_of, starts_with-text_of,
  count_slashes-join_slash, after_common-path_of,
}

pub place_of-path_of :
    (ts : List Bytes) (here : Place) → AllParts true ts → place_of (path_of ts) here ≡ walk ts []
place_of-path_of ts here h =
    ap (λ p. place_of p here) (sym (path_of-join_slash ts)) ∙ walk-join_slash true ts [] h

-- A list is empty or has a last member.
pub snoc_cases :
    (ts : List Bytes) → (ts ≡ []) ⊎ ((us : List Bytes) × (t : Bytes) × (ts ≡ us ++ t ∷ []))
snoc_cases [] = inl refl
snoc_cases (t ∷ ts) = elim (snoc_cases ts) [
  | inl e ↦ inr ([], t, ap (λ r. t ∷ r) e)
  | inr s ↦ inr (t ∷ s.0, s.1, ap (λ r. t ∷ r) s.2)
]

-- The path that the loop of `common_path` stops at.
pub record IsFound (from : Bytes) (ts : List Bytes) (d : Bytes) : Type 0 where
  pub us : List Bytes
  pub vs : List Bytes
  pub segments : ts ≡ us ++ vs
  pub path : d ≡ path_of us
  pub stopped : stops from (path_of us) ≡ true

stops-root : (from : Bytes) → stops from root ≡ false → ⊥
stops-root from h = ground (arith, h)

pub Climbs-IsFound :
    (from : Bytes) (ts : List Bytes) {c d : Bytes}
    → AllParts true ts
    → c ≡ path_of ts
    → Climbs from c d
    → IsFound from ts d
Climbs-IsFound from ts h e (stay c s) = record {
  us = ts;
  vs = [];
  segments = sym (append_nil ts);
  path = e;
  stopped = subst (λ c. stops from c ≡ true) e s;
}
Climbs-IsFound from ts {d = d} h e (climb c f q) = elim (snoc_cases ts) [
  | inl n ↦ absurd (stops-root from (subst (λ c. stops from c ≡ false) (e ∙ ap path_of n) f))
  | inr s ↦
      let parts = AllParts-split true s.0 (s.1 ∷ []) (subst (AllParts true) s.2 h) in
      let up =
        ap php_dirname (e ∙ ap path_of s.2) ∙ php_dirname-path_of s.0 s.1 parts.1.0.no_slash in
      let found = Climbs-IsFound from s.0 parts.0 up q in
      record {
        us = found.us;
        vs = found.vs ++ s.1 ∷ [];
        segments =
            s.2
            ∙ ap (λ r. r ++ s.1 ∷ []) found.segments
            ∙ append_assoc' found.us found.vs (s.1 ∷ []);
        path = found.path;
        stopped = found.stopped;
      }
]

pub path_of-text_of :
    (fs : List Bytes) (f : Bytes) → path_of (fs ++ f ∷ []) ≡ text_of (fs ++ f ∷ [])
path_of-text_of [] f = refl
path_of-text_of (g ∷ fs) f = refl

-- The segments of `from` begin with those of the path at which the loop stops.
pub from_common :
    (fs us : List Bytes) (f : Bytes)
    → AllParts true (fs ++ f ∷ [])
    → AllParts true us
    → stops (path_of (fs ++ f ∷ [])) (path_of us) ≡ true
    → (ws : List Bytes) × (fs ++ f ∷ [] ≡ us ++ ws)
from_common fs [] f h k s = (fs ++ f ∷ [], refl)
from_common fs ([] ∷ us) f h k s = absurd (ground (arith, k.0.not_empty))
from_common fs ((c ∷ u) ∷ us) f h k s = starts_with-text_of true (fs ++ f ∷ []) ((c ∷ u) ∷ us) h k (
    subst (λ p. starts_with (p ++ root) (text_of ((c ∷ u) ∷ us) ++ root) ≡ true)
      (path_of-text_of fs f) (ground (arith, s)))

-- As many steps up.
abbrev climbed : ℕ → Place → Place
climbed zero p = p
climbed (suc n) p = climbed n (above p)

climbed-above : (n : ℕ) (p : Place) → climbed n (above p) ≡ above (climbed n p)
climbed-above zero p = refl
climbed-above (suc n) p = climbed-above n (above p)

-- Names are left by as many steps up.
climbed-walk : (a : List Bytes) (p : Place) → AllParts true a → climbed (length a) (walk a p) ≡ p
climbed-walk [] p h = refl
climbed-walk (c ∷ cs) p h =
    climbed-above (length cs) (walk cs (enter c p))
    ∙ ap above (climbed-walk cs (enter c p) h.1)
    ∙ ap above (enter-name c p (h.0.below_root refl) h.0.not_this h.0.not_empty)

walk-repeat :
    (n : ℕ) (s : Bytes) (p : Place)
    → walk (split_slash (repeat n (parent ++ root) ++ s)) p ≡ walk (split_slash s) (climbed n p)
walk-repeat zero s p = refl
walk-repeat (suc n) s p = walk-repeat n s (above p)

repeat-relative :
    (n : ℕ) (s : Bytes)
    → starts_with s root ≡ false
    → starts_with (repeat n (parent ++ root) ++ s) root ≡ false
repeat-relative zero s h = h
repeat-relative (suc n) s h = refl

-- An empty result is written as "./".
or_here :
    (r : Bytes) (p : Place)
    → starts_with r root ≡ false
    → place_of (if is_empty r then this ++ root else r) p ≡ walk (split_slash r) p
or_here [] p h = refl
or_here (c ∷ cs) p h = rw h refl

pub if_leads :
    (c : Bool) (x y : Bytes) (here goal : Place)
    → (c ≡ true → place_of x here ≡ goal)
    → (c ≡ false → place_of y here ≡ goal)
    → place_of (if c then x else y) here ≡ goal
if_leads true x y here goal h k = h refl
if_leads false x y here goal h k = k refl

drop_last-append :
    (us : List Bytes) (w : Bytes) (ws : List Bytes)
    → drop_last (us ++ w ∷ ws) ≡ us ++ drop_last (w ∷ ws)
drop_last-append [] w ws = refl
drop_last-append (u ∷ []) w ws = refl
drop_last-append (u ∷ v ∷ us) w ws = ap (λ r. u ∷ r) (drop_last-append (v ∷ us) w ws)

length-drop_last : (w : Bytes) (ws : List Bytes) → length (drop_last (w ∷ ws)) ≡ length ws
length-drop_last w [] = refl
length-drop_last w (v ∷ vs) = ap suc (length-drop_last v vs)

-- Up by the names behind the common directory, and down to `to`.
steps_lead :
    (n : ℕ) (rest : Bytes) (us vs ns : List Bytes)
    → AllParts true (us ++ vs)
    → AllParts true ns
    → n ≡ length ns
    → rest ≡ join_slash vs
    → place_of
        (if is_empty (repeat n (parent ++ root) ++ rest)
          then this ++ root
          else repeat n (parent ++ root) ++ rest)
        (walk (us ++ ns) [])
      ≡ walk (us ++ vs) []
steps_lead n rest us vs ns h k en er =
    let here = walk (us ++ ns) [] in
    let (_, down) = AllParts-split true us vs h in
    let relative_rest : starts_with rest root ≡ false =
      subst (λ r. starts_with r root ≡ false) (sym er) (join_slash-relative true vs down) in
    let up : climbed n here ≡ walk us [] =
      ap (λ m. climbed m here) en
      ∙ ap (climbed (length ns)) (walk-append us ns [])
      ∙ climbed-walk ns (walk us []) k in
    or_here (repeat n (parent ++ root) ++ rest) here (repeat-relative n rest relative_rest)
    ∙ walk-repeat n rest here
    ∙ ap (walk (split_slash rest)) up
    ∙ ap (λ r. walk (split_slash r) (walk us [])) er
    ∙ walk-join_slash true vs (walk us []) down
    ∙ sym (walk-append us vs [])

pub up_and_down-leads :
    (us vs ws fs : List Bytes) (f w : Bytes) (prefer : Bool)
    → AllParts true (us ++ vs)
    → AllParts true (fs ++ f ∷ [])
    → fs ++ f ∷ [] ≡ us ++ w ∷ ws
    → place_of
        (up_and_down (path_of (us ++ w ∷ ws)) (path_of (us ++ vs)) (text_of us ++ root) prefer)
        (walk fs [])
      ≡ walk (us ++ vs) []
up_and_down-leads us vs ws fs f w prefer h k e =
    let parts = AllParts-split true us (w ∷ ws) (subst (AllParts true) e k) in
    let init = drop_last (w ∷ ws) in
    let front : fs ≡ us ++ init =
      sym (drop_last-snoc fs f) ∙ ap drop_last e ∙ drop_last-append us w ws in
    let whole = (AllParts-split true fs (f ∷ []) k).0 in
    let ns = (AllParts-split true us init (subst (AllParts true) front whole)).1 in
    let common = text_of us ++ root in
    let to = path_of (us ++ vs) in
    let depth = count_slashes (after_common common (path_of (us ++ w ∷ ws))) in
    let rest = after_common common to in
    let result = repeat depth (parent ++ root) ++ rest in
    let deep : depth ≡ length init =
      ap count_slashes (after_common-path_of us (w ∷ ws))
      ∙ count_slashes-join_slash true w ws parts.1
      ∙ sym (length-drop_last w ws) in
    if_leads (not prefer && (eqb_bytes common root && ltb 1 depth)) to
      (if is_empty result then this ++ root else result) (walk fs []) (walk (us ++ vs) [])
      (λ t. place_of-path_of (us ++ vs) (walk fs []) h)
      (λ t.
        ap (λ gs. place_of (if is_empty result then this ++ root else result) (walk gs [])) front
        ∙ steps_lead depth rest us vs init h ns deep (after_common-path_of us vs))
