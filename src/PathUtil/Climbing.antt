-- ===== src/PathUtil/Climbing.antt =====
-- The loop of `common_path` ends.
use vivace.Common.{
  ℕ, zero, suc, ◌<◌, ◌≤◌, ◌==◌, true, false, ◌≡◌, some, [], ◌∷◌, length, take, Bool-cases,
  Option-cases, arith, inl, inr, ◌⊎◌,
}
use vivace.PhpVer.{Bytes}
use vivace.PathUtil.{slash, rfind_slash, dirname_at, php_dirname, stops, common_loop, common_path}

-- From a path up to the first directory at which the loop stops.
pub data Climbs (from : Bytes) : Bytes → Bytes → Type 0 where
  stay : (c : Bytes) → stops from c ≡ true → Climbs from c c
  climb :
      (c : Bytes) {d : Bytes}
      → stops from c ≡ false
      → Climbs from (php_dirname c) d
      → Climbs from c d

rfind_slash-length : (p : Bytes) (i : ℕ) → rfind_slash p ≡ some i → i < length p
rfind_slash-length [] i h = cc
rfind_slash-length (c ∷ cs) i h = elim (Option-cases (rfind_slash cs)) [
  | inl n ↦ elim (Bool-cases (c == slash)) [
    | inl t ↦ ground (arith, h, n, t)
    | inr f ↦ ground (arith, h, n, f)
  ]
  | inr s ↦ let less = rfind_slash-length cs s.0 s.1 in ground (arith, h, s.1, less)
]

length-take : (n : ℕ) (p : Bytes) → length (take n p) ≤ n
length-take zero p = omega arith
length-take (suc n) [] = omega arith
length-take (suc n) (x ∷ xs) = omega (arith, length-take n xs)

-- The directory is shorter, or the loop stops there.
dirname_cases :
    (from p : Bytes) → (length (php_dirname p) < length p) ⊎ (stops from (php_dirname p) ≡ true)
unfolding php_dirname
dirname_cases from p = elim (Option-cases (rfind_slash p)) [
  | inl n ↦ rw n (inr (ground arith))
  | inr s ↦ rw s.1 (at_place s.0 (rfind_slash-length p s.0 s.1))
]
  where
    at_place :
        (i : ℕ)
        → i < length p
        → (length (dirname_at p (some i)) < length p) ⊎ (stops from (dirname_at p (some i)) ≡ true)
    at_place zero h = inr (ground arith)
    at_place (suc i) h = inl (omega (arith, h, length-take (suc i) p))

common_loop-Climbs :
    (fuel : ℕ) (from c : Bytes)
    → (length c < fuel) ⊎ (stops from c ≡ true)
    → Climbs from c (common_loop fuel from c)
common_loop-Climbs zero from c h = elim h [ inl l ↦ absurd (omega (arith, l)) | inr s ↦ stay c s ]
common_loop-Climbs (suc fuel) from c h = elim (Bool-cases (stops from c)) [
  | inl t ↦ rw t (stay c t)
  | inr f ↦ rw f (
      climb c f (
        common_loop-Climbs fuel from (php_dirname c) (elim h [
          | inl l ↦ elim (dirname_cases from c) [
            | inl s ↦ inl (omega (arith, l, s))
            | inr s ↦ inr s
          ]
          | inr s ↦ absurd (ground (arith, s, f))
        ])))
]

-- The loop of `common_path` ends: the result is the first of `to`, its directory, the directory of
-- that one and so on at which the loop stops. The fuel is enough.
pub common_path-Climbs : (from to : Bytes) → Climbs from to (common_path from to)
unfolding common_path
common_path-Climbs from to = common_loop-Climbs (suc (length to)) from to (inl (omega arith))
