-- ===== src/Rule/Literals.antt =====
-- The constructors of rules keep the literals and order them.
use vivace.Common.{
  ℤ, eqb_ℤ_iff, List, [], ◌∷◌, ◌≡◌, elem, Ascending, sort_unstable, elem-sort_unstable,
  sort_unstable-Ascending, arith,
}
use vivace.Rule.{Reason, new_generic, new_two_literals, new_multi_conflict}

-- The two orders in which `two_literals` may be given its literals make the rule that sorting
-- makes: `Rule2Literals` holds [min, max], as a sorted vector would.
pub two_literals-sort :
    (l1 l2 : ℤ) (reason : Reason)
    → (new_two_literals l1 l2 reason).literals ≡ sort_unstable (l1 ∷ l2 ∷ [])
unfolding new_two_literals sort_unstable
two_literals-sort l1 l2 reason = ground (arith, eqb_ℤ_iff l1 l2)

-- A generic rule and a conflict of many hold the given literals, and no others, in ascending order.
pub generic_literals :
    (literals : List ℤ) (reason : Reason) (k : ℤ)
    → Ascending (new_generic literals reason).literals
      × (elem k (new_generic literals reason).literals ≡ elem k literals)
      × Ascending (new_multi_conflict literals reason).literals
      × (elem k (new_multi_conflict literals reason).literals ≡ elem k literals)
unfolding new_generic new_multi_conflict
generic_literals literals reason k = (
  sort_unstable-Ascending literals,
  elem-sort_unstable k literals,
  sort_unstable-Ascending literals,
  elem-sort_unstable k literals,
)
