-- ===== src/Topic/OtherSub/Owners.antt =====
-- internal/server/topic_sub_other.go: the owner while subscribers change one another's modes.
use server_chat.Common.{◌≡◌, ◌≢◌, ◌⊎◌, refl, arith, false, not, ◌&&◌}
use server_chat.Common.Result.{ok}
use server_chat.Access.{is_owner, is_joiner}
use server_chat.Access.Mode
use server_chat.Topic.{evict_user, Topic, PerUserData, user_data, set_user, mode}
use server_chat.Topic.Ownership.{evict_user-IsOwned, IsOwned, set_user-IsOwned}
use server_chat.Topic.SelfAccess.Owner.{is_owner-bit_and, is_owner-bit_or}
use server_chat.Topic.OtherSub.{OtherRequest, is_cold, with_data, another_user_sub}
use server_chat.Topic.OtherSub.Grants.{IsPermitted, another_user_sub-IsPermitted}

join_not_owner : is_owner Mode.join ≡ false
unfolding is_owner
join_not_owner = refl

module _ (t : Topic) (q : OtherRequest) where
  with_data-IsOwned :
      (pud : PerUserData)
      → IsOwned t
      → is_owner (mode pud) ≡ false ⊎ (t.owner ≡ q.target)
      → IsOwned (with_data t q pud)
  unfolding with_data
  with_data-IsOwned pud owned new =
      let users = set_user t.per_user q.target pud in
      let gone = not (is_joiner pud.mode_given) && pud.is_chan in
      evict_user-IsOwned (is_cold t q pud) (record t { per_user = evict_user gone users q.target })
        q.target
        (evict_user-IsOwned gone (record t { per_user = users }) q.target
          (set_user-IsOwned t q.target pud owned new))

  -- The data of the target own the topic only if they did before.
  IsPermitted-owner :
      {t1 : Topic} (p : IsPermitted t q t1)
      → t.owner ≢ q.actor
      → is_owner q.auth_access ≡ false
      → (is_owner (mode p.data_new) ≡ false)
        ⊎ (is_owner (mode p.data_new) ≡ is_owner (mode (user_data t q.target)))
  IsPermitted-owner p foreign plain =
      let old = user_data t q.target in
      ground (
        arith,
        p.given,
        p.want_kept,
        is_owner-bit_and p.data_new.mode_given p.data_new.mode_want,
        is_owner-bit_and old.mode_given old.mode_want,
        is_owner-bit_or q.auth_access Mode.join,
        join_not_owner,
      )

  -- If no user of a topic but its owner has the owner's permission, and the default access does not
  -- have it, then this still holds after a successful request of somebody else for the subscription
  -- of another user.
  pub another_user_sub-IsOwned :
      {t1 : Topic}
      → IsOwned t
      → t.owner ≢ q.actor
      → is_owner q.auth_access ≡ false
      → another_user_sub t q ≡ ok t1
      → IsOwned t1
  another_user_sub-IsOwned {t1} owned foreign plain h =
      let p = another_user_sub-IsPermitted t q h in
      rw p.topic_new (
        with_data-IsOwned p.data_new owned
          (ground (arith, IsPermitted-owner p foreign plain, owned q.target)))
