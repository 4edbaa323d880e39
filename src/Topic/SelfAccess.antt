-- ===== src/Topic/SelfAccess.antt =====
-- internal/server/topic_sub_transition.go: how the mode of a subscriber changes at the
-- subscriber's own request.
pub mod Owner
pub mod Grant
use server_chat.Common.{
  ◌≡◌, ◌≢◌, ◌⊎◌, inl, inr, Bool-cases, ==_iff, ℕ, bit_and, bit_or, Bool, true, false, not, ◌&&◌,
  ◌||◌, ◌==◌, if◌then◌else◌,
}
use server_chat.Common.Bits.{◌&^◌}
use server_chat.Common.Result.{Result, ok, err, ◌>>=◌, >>=-eq-ok}
use server_chat.Access.{is_owner, is_joiner, is_admin, better_equal}
use server_chat.Access.Mode
use server_chat.Topic.{TopicCat, p2p, sys, is_grp}

-- selfSubscriptionTransitionInput
pub record SelfInput : Type 0 where
  pub category : TopicCat
  pub is_topic_owner : Bool
  pub old_want : ℕ
  pub old_given : ℕ
  pub requested : ℕ
  pub default_access : ℕ
  pub p2p_access : ℕ

-- selfSubscriptionTransition
pub record Transition : Type 0 where
  pub want : ℕ
  pub given : ℕ
  pub owner_change : Bool

-- The two errors, by their texts: the owner must stay, and only the owner gives the topic away.
pub data SelfErr : Type 0 where
  owner_must_stay not_owner : SelfErr

-- The checks of a requested mode: the given mode, and whether the owner changes.
unfoldable pub check_requested : SelfInput → Result SelfErr (ℕ × Bool)
check_requested i =
    let given = i.old_given in
    let grantable = i.requested &^ Mode.delete in
    if i.is_topic_owner && (not (is_owner i.requested) || not (is_joiner i.requested))
    then err owner_must_stay
    else if is_owner given
    then ok (
      if is_owner i.requested && not (better_equal given i.requested)
          then bit_or given i.requested
          else given,
      is_owner i.requested && not (is_owner i.old_want),
    )
    else if is_owner i.requested
    then err not_owner
    else if is_grp i.category && (is_admin given && is_admin i.requested)
    then ok (if not (better_equal given grantable) then bit_or given grantable else given, false)
    else ok (given, false)

-- The `switch` on the category.
unfoldable pub limit_requested : TopicCat → ℕ → ℕ → ℕ
limit_requested p2p p2p_access requested = bit_or (bit_and requested p2p_access) Mode.approve
limit_requested sys p2p_access requested =
    bit_and requested (bit_or (bit_and requested Mode.c_sys) Mode.write)
limit_requested other p2p_access requested = requested

-- The transition at a request for a mode that is set.
abbrev pub granted : SelfInput → ℕ × Bool → Transition
granted i (given, change) = record {
  want = limit_requested i.category i.p2p_access i.requested;
  given = given;
  owner_change = change;
}

-- The transition at a request without a mode.
abbrev pub kept : SelfInput → Transition
kept i = record {
  want = if not (is_joiner i.old_want) then bit_or i.old_given i.default_access else i.old_want;
  given = i.old_given;
  owner_change = false;
}

-- planExistingSelfSubscription
unfoldable pub plan_existing_self : SelfInput → Result SelfErr Transition
plan_existing_self i =
    if i.requested == Mode.unset
    then ok (kept i)
    else (check_requested i >>= λ checked. ok (granted i checked))

-- The two ways to a transition: no mode is requested, or the checks of the mode succeed.
pub plan_existing_self-eq-ok :
    (i : SelfInput) {t : Transition}
    → plan_existing_self i ≡ ok t
    → ((i.requested ≡ Mode.unset) × (kept i ≡ t))
      ⊎ ((checked : ℕ × Bool) × (check_requested i ≡ ok checked) × (granted i checked ≡ t))
unfolding plan_existing_self
plan_existing_self-eq-ok i h = elim (Bool-cases (i.requested == Mode.unset)) [
  | inl e ↦ inl ((==_iff i.requested Mode.unset).0 e, let k = rw e at h in cc)
  | inr e ↦
      let (checked, c, r) = >>=-eq-ok (check_requested i) _ (rw e at h) in inr (checked, c, cc)
]
