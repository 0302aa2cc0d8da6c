-- ===== src/Constraint/Bounds.antt =====
-- What `Bound::compare_to` tests in its two directions, of crates/vivacity-resolver/src/constraint.rs.
use vivace.Common.{Bool, true, false, not, ◌&&◌, ◌||◌, [], ◌∷◌, ◌≡◌, refl, ==_iff, arith, subst, ap}
use vivace.PhpVer.{
  Bytes, eqb_bytes, version_compare, Ordering, less, equal, greater, is_less, is_equal, is_greater,
}
use vivace.PhpVer.Equality.{eqb_bytes-eq}
use vivace.PhpVer.Order.{reverse, version_compare-reverse}
use vivace.Constraint.{Bound, compare_to}

pub eqb_bytes_sym : (x y : Bytes) → eqb_bytes x y ≡ eqb_bytes y x
eqb_bytes_sym [] [] = refl
eqb_bytes_sym [] (y ∷ ys) = refl
eqb_bytes_sym (x ∷ xs) [] = refl
eqb_bytes_sym (x ∷ xs) (y ∷ ys) = ground (arith, eqb_bytes_sym xs ys, ==_iff x y, ==_iff y x)

reverse_tests :
    (c : Ordering)
    → (is_less (reverse c) ≡ is_greater c)
      × (is_equal (reverse c) ≡ is_equal c)
      × (is_greater (reverse c) ≡ is_less c)
reverse_tests less = (refl, refl, refl)
reverse_tests equal = (refl, refl, refl)
reverse_tests greater = (refl, refl, refl)

-- The same string is equal in the order.
equal_bounds : (v w : Bytes) → eqb_bytes v w ≡ true → is_equal (version_compare v w) ≡ true
equal_bounds v w h =
    subst (λ x. is_equal (version_compare v x) ≡ true) (eqb_bytes-eq v w h)
      (ap is_equal (version_compare-reverse v v).1)

-- Whether a version lies above a bound's version, or on it where the bound includes it.
abbrev pub admits : Bound → Bytes → Bool
admits bound v =
    is_greater (version_compare v bound.version)
    || (is_equal (version_compare v bound.version) && bound.inclusive)

-- Unless the versions of two bounds differ as strings and are equal in the order, `compare_to` with
-- ">" holds exactly when the second bound, read as a lower bound, admits the version of the first
-- one and not the reverse, and `compare_to` with "<" exactly when it is the other way round.
pub compare_to_lem :
    (a b : Bound)
    → (is_equal (version_compare a.version b.version) ≡ true → eqb_bytes a.version b.version ≡ true)
    → (compare_to a b true ≡ (admits b a.version && not (admits a b.version)))
      × (compare_to a b false ≡ (admits a b.version && not (admits b a.version)))
unfolding compare_to
compare_to_lem a b same =
    let r = reverse_tests (version_compare a.version b.version) in
    let e = equal_bounds a.version b.version in
    rw ((version_compare-reverse a.version b.version).0)
      (ground (arith, same, e, r), ground (arith, same, e, r))
