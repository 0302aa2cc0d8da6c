-- ===== src/Rule/Keys.antt =====
-- The keys of the stored rules that some ids name, of crates/vivacity-resolver/src/rule.rs: how they
-- change when a rule is stored or an id comes behind the others.
use vivace.Common.{
  ℕ, ◌<◌, ◌≤◌, ℤ, eqb_ℤ_iff, Bool, true, false, ◌||◌, ◌≡◌, ◌↔◌, refl, sym, ◌∙◌, none, some, List,
  [], ◌∷◌, ◌++◌, length, get_elem?, get_elem?-append, get_elem?_of_lt, arith, count, ==_iff,
}
use vivace.Rule.{Rule, RuleKind, RuleKey, eqb_kind, eqb_literals, eqb_key, key_of}

eqb_literals_iff : (xs ys : List ℤ) → (eqb_literals xs ys ≡ true) ↔ (xs ≡ ys)
eqb_literals_iff [] [] = ground arith
eqb_literals_iff [] (y ∷ ys) = ground arith
eqb_literals_iff (x ∷ xs) [] = ground arith
eqb_literals_iff (x ∷ xs) (y ∷ ys) = ground (arith, eqb_ℤ_iff x y, eqb_literals_iff xs ys)

eqb_kind_iff : (a b : RuleKind) → (eqb_kind a b ≡ true) ↔ (a ≡ b)
eqb_kind_iff a b = ground arith

pub eqb_key_iff : (a b : RuleKey) → (eqb_key a b ≡ true) ↔ (a ≡ b)
eqb_key_iff a b = ground (arith, eqb_kind_iff a.kind b.kind, eqb_literals_iff a.literals b.literals)

-- The stored rule `id` has this key.
abbrev pub key_at : List Rule → ℕ → RuleKey → Bool
key_at rules id k = elim (get_elem? rules id) [ none ↦ false | some r ↦ eqb_key k (key_of r) ]

-- One of the rules `ids` has this key.
abbrev pub registered : List Rule → List ℕ → RuleKey → Bool
registered rules [] k = false
registered rules (id ∷ ids) k = key_at rules id k || registered rules ids k

abbrev pub AllBelow : ℕ → List ℕ → Type 0
AllBelow n [] = Unit
AllBelow n (id ∷ ids) = (id < n) × AllBelow n ids

-- No two of the rules `ids` have the same key.
abbrev pub NoTwins : List Rule → List ℕ → Type 0
NoTwins rules [] = Unit
NoTwins rules (id ∷ ids) =
    ((k : RuleKey) → key_at rules id k ≡ true → registered rules ids k ≡ false) × NoTwins rules ids

pub AllBelow-weaken : (m n : ℕ) (ids : List ℕ) → m ≤ n → AllBelow m ids → AllBelow n ids
AllBelow-weaken m n [] le h = tt
AllBelow-weaken m n (id ∷ ids) le h = (omega arith, AllBelow-weaken m n ids le h.1)

pub AllBelow-snoc :
    (n : ℕ) (ids : List ℕ) (id : ℕ) → AllBelow n ids → id < n → AllBelow n (ids ++ id ∷ [])
AllBelow-snoc n [] id h lt = (lt, tt)
AllBelow-snoc n (i ∷ ids) id h lt = (h.0, AllBelow-snoc n ids id h.1 lt)

key_at-append :
    (rules more : List Rule) (id : ℕ) (k : RuleKey)
    → id < length rules
    → key_at (rules ++ more) id k ≡ key_at rules id k
key_at-append rules more id k lt =
    let (r, q) = get_elem?_of_lt rules id lt in ground (arith, q, get_elem?-append rules more id q)

pub registered-append :
    (rules more : List Rule) (ids : List ℕ) (k : RuleKey)
    → AllBelow (length rules) ids
    → registered (rules ++ more) ids k ≡ registered rules ids k
registered-append rules more [] k h = refl
registered-append rules more (id ∷ ids) k h =
    rw (key_at-append rules more id k h.0, registered-append rules more ids k h.1)

pub registered-snoc :
    (rules : List Rule) (ids : List ℕ) (id : ℕ) (k : RuleKey)
    → registered rules (ids ++ id ∷ []) k ≡ (key_at rules id k || registered rules ids k)
registered-snoc rules [] id k = refl
registered-snoc rules (i ∷ ids) id k = ground (arith, registered-snoc rules ids id k)

pub NoTwins-append :
    (rules more : List Rule) (ids : List ℕ)
    → AllBelow (length rules) ids
    → NoTwins rules ids
    → NoTwins (rules ++ more) ids
NoTwins-append rules more [] h t = tt
NoTwins-append rules more (id ∷ ids) h t = (
  λ k e.
      registered-append rules more ids k h.1 ∙ t.0 k (sym (key_at-append rules more id k h.0) ∙ e),
  NoTwins-append rules more ids h.1 t.1,
)

pub NoTwins-snoc :
    (rules : List Rule) (ids : List ℕ) (id : ℕ)
    → ((k : RuleKey) → key_at rules id k ≡ true → registered rules ids k ≡ false)
    → NoTwins rules ids
    → NoTwins rules (ids ++ id ∷ [])
NoTwins-snoc rules [] id f t = (λ k e. refl, tt)
NoTwins-snoc rules (i ∷ ids) id f t = (
  λ k e. registered-snoc rules ids id k ∙ clash k e (t.0 k e) (key_at rules id k) refl,
  NoTwins-snoc rules ids id (λ k e. ground (arith, f k e)) t.1,
)
  where
    clash :
        (k : RuleKey)
        → key_at rules i k ≡ true
        → registered rules ids k ≡ false
        → (b : Bool) → key_at rules id k ≡ b
        → (key_at rules id k || registered rules ids k) ≡ false
    clash k e u true q = ground (arith, f k q, e)
    clash k e u false q = rw q u

pub count-AllBelow : (n : ℕ) (ids : List ℕ) → AllBelow n ids → count n ids ≡ 0
count-AllBelow n [] h = refl
count-AllBelow n (id ∷ ids) h = ground (arith, ==_iff n id, h.0, count-AllBelow n ids h.1)
