-- ===== src/PhpVer/Equality.antt =====
-- The equality test on strings.
use vivace.Common.{◌==◌, ==_iff, true, ◌≡◌, refl, ◌∙◌, ap, [], ◌∷◌, and-true}
use vivace.PhpVer.{Bytes, eqb_bytes}

pub eqb_bytes-eq : (a b : Bytes) → eqb_bytes a b ≡ true → a ≡ b
eqb_bytes-eq [] [] h = refl
eqb_bytes-eq [] (y ∷ b) h = cc
eqb_bytes-eq (x ∷ a) [] h = cc
eqb_bytes-eq (x ∷ a) (y ∷ b) h =
    let (e, r) = and-true (x == y) (eqb_bytes a b) h in
    ap (λ c. c ∷ a) ((==_iff x y).0 e) ∙ ap (λ s. y ∷ s) (eqb_bytes-eq a b r)

pub eqb_bytes_refl : (a : Bytes) → eqb_bytes a a ≡ true
eqb_bytes_refl [] = refl
eqb_bytes_refl (x ∷ a) = rw ((==_iff x x).1 refl) (eqb_bytes_refl a)
