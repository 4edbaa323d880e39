-- ===== src/Topic/RoleChange/Apply.antt =====
-- internal/server/topic_roles.go: how a change of a role reads and writes the subscriptions.
use server_chat.Common.{ℕ, Bool, true, false, not, ◌&&◌, Option, none, some, if◌then◌else◌}
use server_chat.Common.Result.{Result, ok, err, ◌>>=◌}
use server_chat.Topic.{Topic, PerUserData}
use server_chat.Topic.Roles.{TopicRoleAccess}
use server_chat.Topic.RoleChange.{
  RoleRequest, Account, ChangeErr, member_limit, no_user, user_suspended, store_failed, active,
  inactive, missing, unreadable, Current, Plan, check_actor, check_current, role_sub, is_same,
  with_role,
}
use server_chat.Topic.Subs.{SubStore, Subscription, same_kind}
use server_chat.Topic.Store.{StoreErr}

-- Any error of the store ends the request.
abbrev pub reading {ℓ} : {A : Type ℓ} → Result StoreErr A → Result ChangeErr A
reading (ok found) = ok found
reading (err e) = err store_failed

abbrev pub as_current : Bool → Option Subscription → Option Current
as_current in_channel none = none
as_current in_channel (some sub) = some (record { sub = sub; in_channel = in_channel })

module _ (d : SubStore) where
  -- What the group has, or else, in a channel, what the readers of the channel have.
  abbrev pub find_reader :
      d.State → Bool → ℕ → Option Subscription → Result ChangeErr (Option Current)
  find_reader s is_chan uid (some sub) = ok (as_current false (some sub))
  find_reader s false uid none = ok none
  find_reader s true uid none = reading (d.get s true uid) >>= λ found. ok (as_current true found)

  -- The target as the cache of the topic has it, or else the store.
  unfoldable pub find_current :
      d.State → Bool → ℕ → Option PerUserData → Result ChangeErr (Option Current)
  find_current s is_chan uid (some pud) = ok (
      some (record {
        sub = record { mode_want = pud.mode_want; mode_given = pud.mode_given };
        in_channel = pud.is_chan;
      }))
  find_current s is_chan uid none = reading (d.get s false uid) >>= find_reader s is_chan uid

  abbrev pub wrote : d.State × Bool → d.State × Option ChangeErr
  wrote x = (x.0, if x.1 then none else some store_failed)

  -- The lookup of the user, and the new subscription.
  unfoldable pub create_for : d.State → ℕ → TopicRoleAccess → Account → d.State × Option ChangeErr
  create_for s uid requested unreadable = (s, some store_failed)
  create_for s uid requested missing = (s, some no_user)
  create_for s uid requested inactive = (s, some user_suspended)
  create_for s uid requested active =
      wrote (d.create s requested.channel_sub uid (role_sub requested))

  -- A target without a subscription.
  unfoldable pub place_new : d.State → RoleRequest → TopicRoleAccess → d.State × Option ChangeErr
  place_new s q requested =
      if not requested.channel_sub && q.is_full
      then (s, some member_limit)
      else create_for s q.target requested q.account

  -- If the old subscription stays, the new one is taken back.
  unfoldable pub leave : ℕ → Bool → d.State × Bool → d.State × Option ChangeErr
  leave uid chan x = if x.1 then (x.0, none) else ((d.delete x.0 chan uid).0, some store_failed)

  -- Between the group and the channel the new subscription is there before the old one goes.
  unfoldable pub move : d.State → ℕ → TopicRoleAccess → Current → d.State × Option ChangeErr
  move s uid requested current =
      let created = d.create s requested.channel_sub uid (role_sub requested) in
      if created.1
      then leave uid requested.channel_sub (d.delete created.0 current.in_channel uid)
      else (created.0, some store_failed)

  unfoldable pub place :
      d.State → RoleRequest → TopicRoleAccess → Option Current → d.State × Option ChangeErr
  place s q requested none = place_new s q requested
  place s q requested (some current) =
      if same_kind current.in_channel requested.channel_sub
      then wrote (d.update s requested.channel_sub q.target (role_sub requested))
      else move s q.target requested current

  -- All that is decided before the store is written.
  unfoldable pub plan_role : d.State → Topic → RoleRequest → Result ChangeErr Plan
  plan_role s t q = check_actor t q >>= λ requested.
      find_current s t.is_chan q.target (t.per_user q.target) >>= λ current.
      check_current t q requested current >>= λ placed.
      ok (record { requested = placed; current = current })

  pub record RoleChange : Type 0 where
    pub state : d.State
    pub topic : Topic
    -- The mode that is sent to the user, nothing if the role was the same, or the error.
    pub answer : Result ChangeErr (Option ℕ)

  unfoldable pub finish_role : Topic → RoleRequest → Plan → d.State × Option ChangeErr → RoleChange
  finish_role t q plan (s, some e) = record { state = s; topic = t; answer = err e }
  finish_role t q plan (s, none) = record {
    state = s;
    topic = with_role t q plan;
    answer = ok (some plan.requested.mode);
  }

  unfoldable pub carry_out : d.State → Topic → RoleRequest → Result ChangeErr Plan → RoleChange
  carry_out s t q (err e) = record { state = s; topic = t; answer = err e }
  carry_out s t q (ok plan) =
      if is_same plan.requested plan.current
      then record { state = s; topic = t; answer = ok none }
      else finish_role t q plan (place s q plan.requested plan.current)

  -- setAnotherUserRole
  abbrev pub set_another_user_role : d.State → Topic → RoleRequest → RoleChange
  set_another_user_role s t q = carry_out s t q (plan_role s t q)
