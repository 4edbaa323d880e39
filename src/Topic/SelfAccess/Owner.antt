-- ===== src/Topic/SelfAccess/Owner.antt =====
-- internal/server/topic_sub_transition.go: the owner's permission in a transition.
use server_chat.Common.{
  ℕ, bit_and, bit_or, ◌≡◌, ◌⊎◌, refl, ap, inl, inr, arith, Bool, true, false, not, ◌&&◌, ◌||◌,
  Bool-cases,
}
use server_chat.Common.Result.{ok}
use server_chat.Access.{has, is_owner, is_joiner}
use server_chat.Access.Flags.{has-bit_and, has-bit_or}
use server_chat.Access.Mode
use server_chat.Topic.{TopicCat, me, fnd, p2p, grp, sys, slf}
use server_chat.Topic.SelfAccess.{
  SelfInput, Transition, check_requested, limit_requested, plan_existing_self,
  plan_existing_self-eq-ok, granted, kept,
}

pub is_owner-bit_and : (a b : ℕ) → is_owner (bit_and a b) ≡ (is_owner a && is_owner b)
unfolding is_owner
is_owner-bit_and a b = has-bit_and 7 a b

pub is_owner-bit_or : (a b : ℕ) → is_owner (bit_or a b) ≡ (is_owner a || is_owner b)
unfolding is_owner
is_owner-bit_or a b = has-bit_or 7 a b

approve_not_owner : is_owner Mode.approve ≡ false
unfolding is_owner has
approve_not_owner = refl

is_owner-limit_requested :
    (cat : TopicCat) (p2p_access requested : ℕ)
    → is_owner (limit_requested cat p2p_access requested) ≡ true
    → is_owner requested ≡ true
unfolding limit_requested
is_owner-limit_requested me a r h = h
is_owner-limit_requested fnd a r h = h
is_owner-limit_requested p2p a r h =
    ground (
      arith,
      h,
      is_owner-bit_or (bit_and r a) Mode.approve,
      is_owner-bit_and r a,
      approve_not_owner,
    )
is_owner-limit_requested grp a r h = h
is_owner-limit_requested sys a r h =
    ground (arith, h, is_owner-bit_and r (bit_or (bit_and r Mode.c_sys) Mode.write))
is_owner-limit_requested slf a r h = h

check_requested-IsOwner :
    (i : SelfInput) (given : ℕ) (change : Bool)
    → check_requested i ≡ ok (given, change)
    → is_owner i.requested ≡ true
    → (is_owner i.old_given ≡ true) × (change ≡ not (is_owner i.old_want))
unfolding check_requested
check_requested-IsOwner i given change h o = ground arith

requested-IsOwner :
    (i : SelfInput) {t : Transition} (checked : ℕ × Bool)
    → check_requested i ≡ ok checked
    → granted i checked ≡ t
    → is_owner (bit_and t.given t.want) ≡ true
    → (t.owner_change ≡ true) ⊎ (is_owner (bit_and i.old_given i.old_want) ≡ true)
requested-IsOwner i {t} (given, change) c r o =
    let wants : is_owner (limit_requested i.category i.p2p_access i.requested) ≡ true =
      ground (arith, is_owner-bit_and t.given t.want, ap (λ (u : Transition). u.want) r) in
    let (g, q) = check_requested-IsOwner i given change c (is_owner-limit_requested _ _ _ wants) in
    ground (
      arith,
      g,
      q,
      is_owner-bit_and i.old_given i.old_want,
      ap (λ (u : Transition). u.owner_change) r,
    )

kept-IsOwner :
    (i : SelfInput)
    → is_joiner i.old_want ≡ true
    → is_owner (bit_and (kept i).given (kept i).want) ≡ true
    → is_owner (bit_and i.old_given i.old_want) ≡ true
kept-IsOwner i j o = rw j at o

-- x
pub plan_existing_self-IsOwner :
    (i : SelfInput) (t : Transition)
    → plan_existing_self i ≡ ok t
    → is_owner (bit_and t.given t.want) ≡ true
    → (t.owner_change ≡ true)
      ⊎ ((is_owner (bit_and i.old_given i.old_want) ≡ true)
          ⊎ ((i.requested ≡ Mode.unset) × (is_joiner i.old_want ≡ false)))
plan_existing_self-IsOwner i t h o = elim (plan_existing_self-eq-ok i h) [
  | inr (checked, c, r) ↦ ground (arith, requested-IsOwner i checked c r o)
  | inl (e, k) ↦ (elim (Bool-cases (is_joiner i.old_want)) [
    | inl j ↦ inr (inl (kept-IsOwner i j (rw (← k) at o)))
    | inr j ↦ inr (inr (e, j))
  ])
]
