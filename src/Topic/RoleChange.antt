-- ===== src/Topic/RoleChange.antt =====
-- internal/server/topic_roles.go: an admin gives a member, or a reader of the channel, a role. The
-- notices, pushes and plugins that follow a change are not part of it.
pub mod Apply
pub mod Allowed
pub mod Written
pub mod Effect
pub mod Outcome
pub mod Others
use server_chat.Common.{
  ℕ, bit_and, Bool, true, false, not, ◌&&◌, ◌||◌, ◌+◌, Option, none, some, ◌==◌, if◌then◌else◌,
}
use server_chat.Common.Bytes.{Bytes, codes, eq_bytes}
use server_chat.Common.Result.{Result, ok, err, ◌>>=◌}
use server_chat.Access.{is_owner, is_admin, better_equal}
use server_chat.Topic.{
  evict_user, Topic, PerUserData, is_grp, user_data, or_no_data, set_user, remove_user, mode,
  is_read_only,
}
use server_chat.Topic.Roles.{TopicRoleAccess, RoleErr, resolve_topic_role}
use server_chat.Topic.Subs.{Subscription, SubStore, same_kind}
use server_chat.Topic.Store.{StoreErr}

-- The errors, one for each text, in the order of the code. `store_failed` is an error of the store.
pub data ChangeErr : Type 0 where
  official_topic not_group not_admin suspended : ChangeErr
  bad_role : RoleErr → ChangeErr
  owner_promotes beyond_own owner_fixed owner_changes_admin : ChangeErr
  member_limit no_user user_suspended store_failed : ChangeErr

-- The state of the target's account, as the store of the users answers.
pub data Account : Type 0 where
  active inactive missing unreadable : Account

-- The request, and what the code asks other parts: whether the topic is official, and whether the
-- group has as many members as are allowed.
pub record RoleRequest : Type 0 where
  pub actor : ℕ
  pub target : ℕ
  pub as_chan : Bool
  pub role : Bytes
  pub is_official : Bool
  pub is_full : Bool
  pub account : Account

-- `current`, and `currentIsChannel`.
pub record Current : Type 0 where
  pub sub : Subscription
  pub in_channel : Bool

abbrev pub current_mode : Current → ℕ
current_mode c = bit_and c.sub.mode_want c.sub.mode_given

-- The guards before the lookup of the target.
unfoldable pub check_actor : Topic → RoleRequest → Result ChangeErr TopicRoleAccess
check_actor t q =
    let host_mode = mode (user_data t q.actor) in
    if q.is_official
    then err official_topic
    else if not (is_grp t.cat) || q.as_chan
    then err not_group
    else if not (is_admin host_mode)
    then err not_admin
    else if is_read_only t
    then err suspended
    else elim (resolve_topic_role q.role t.is_chan) [
      | err e ↦ err (bad_role e)
      | ok requested ↦
          if eq_bytes requested.name (codes "admin") && not (t.owner == q.actor)
          then err owner_promotes
          else if not (t.owner == q.actor) && not (better_equal host_mode requested.mode)
          then err beyond_own
          else ok requested
    ]

-- The guards on the target's present role. Someone who is banned stays where he is.
unfoldable pub check_current :
    Topic → RoleRequest → TopicRoleAccess → Option Current → Result ChangeErr TopicRoleAccess
check_current t q requested none = ok requested
check_current t q requested (some current) =
    if is_owner (current_mode current)
    then err owner_fixed
    else if is_admin (current_mode current) && not (t.owner == q.actor)
    then err owner_changes_admin
    else if eq_bytes requested.name (codes "banned")
    then ok (record requested { channel_sub = current.in_channel })
    else ok requested

-- What the request will write.
pub record Plan : Type 0 where
  pub requested : TopicRoleAccess
  pub current : Option Current

abbrev pub role_sub : TopicRoleAccess → Subscription
role_sub requested = record { mode_want = requested.mode; mode_given = requested.mode }

-- The target has the role in its place already.
abbrev pub is_same : TopicRoleAccess → Option Current → Bool
is_same requested none = false
is_same requested (some current) =
    same_kind current.in_channel requested.channel_sub
    && (current.sub.mode_want == requested.mode && current.sub.mode_given == requested.mode)

abbrev pub is_cached : Option PerUserData → Bool
is_cached none = false
is_cached (some pud) = true

-- evictUser of a user of the cache
abbrev pub evict_cached : (ℕ → Option PerUserData) → ℕ → ℕ → Option PerUserData
evict_cached users uid = evict_user (or_no_data (users uid)).is_chan users uid

abbrev pub new_member : Option Current → ℕ
new_member none = 1
new_member (some current) = 0

-- newPud
abbrev pub new_data : Topic → RoleRequest → TopicRoleAccess → PerUserData
new_data t q requested = record (user_data t q.target) {
  mode_want = requested.mode;
  mode_given = requested.mode;
  is_chan = requested.channel_sub;
  deleted = false;
}

-- The cache with the new role. A reader of the channel is not added to it.
unfoldable pub cached : Topic → RoleRequest → TopicRoleAccess → ℕ → Option PerUserData
cached t q requested =
    if not requested.channel_sub || is_cached (t.per_user q.target)
    then set_user t.per_user q.target (new_data t q requested)
    else t.per_user

-- The state of the topic after the store was written.
unfoldable pub with_role : Topic → RoleRequest → Plan → Topic
with_role t q plan =
    let users = cached t q plan.requested in
    record t {
      sub_cnt = t.sub_cnt + new_member plan.current;
      per_user =
          if eq_bytes plan.requested.name (codes "banned")
          then evict_cached users q.target
          else users;
    }
