-- ===== src/Topic/SelfAccess/Grant.antt =====
-- internal/server/topic_sub_transition.go: what a subscriber is given in a transition.
use server_chat.Common.{ℕ, bit_or, ◌≡◌, ◌⊎◌, ap, inl, inr, arith, true, false, ◌||◌}
use server_chat.Common.Bits.{◌&^◌}
use server_chat.Common.Result.{ok}
use server_chat.Access.{has, is_owner, is_deleter, is_admin}
use server_chat.Access.Flags.{has-bit_or, has-and_not}
use server_chat.Access.Mode
use server_chat.Topic.SelfAccess.{
  SelfInput, Transition, check_requested, plan_existing_self, plan_existing_self-eq-ok,
}

-- Adding what an admin may take adds no permission to delete, and the owner's only if requested.
grantable-adds :
    (given requested : ℕ)
    → (is_deleter (bit_or given (requested &^ Mode.delete)) ≡ is_deleter given)
      × (is_owner (bit_or given (requested &^ Mode.delete))
          ≡ (is_owner given || is_owner requested))
unfolding is_owner is_deleter has
grantable-adds given requested = (
  ground
      (arith, has-bit_or 6 given (requested &^ Mode.delete), has-and_not 6 requested Mode.delete),
  ground
      (arith, has-bit_or 7 given (requested &^ Mode.delete), has-and_not 7 requested Mode.delete),
)

-- If a subscriber is not given the owner's permission, then a change of the own mode that passes
-- gives neither that nor the permission to delete, and it leaves what is given as it was unless
-- that is an admin's.
pub plan_existing_self-given :
    (i : SelfInput) (t : Transition)
    → is_owner i.old_given ≡ false
    → plan_existing_self i ≡ ok t
    → (is_owner t.given ≡ false)
      × (is_deleter t.given ≡ is_deleter i.old_given)
      × ((t.given ≡ i.old_given) ⊎ (is_admin i.old_given ≡ true))
unfolding check_requested
plan_existing_self-given i t n h = elim (plan_existing_self-eq-ok i h) [
  | inr ((given, change), c, r) ↦
      ground (arith, ap (λ (u : Transition). u.given) r, grantable-adds i.old_given i.requested)
  | inl (e, k) ↦ let g = ap (λ (u : Transition). u.given) k in ground (arith, g)
]
