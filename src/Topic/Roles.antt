-- ===== src/Topic/Roles.antt =====
-- internal/server/topic_roles.go: business roles as presets over the permission bits.
pub mod RoundTrip
use server_chat.Common.{
  ℕ, ◌-◌, ◌+◌, bit_or, Bool, true, false, not, ◌&&◌, ◌||◌, List, [], ◌∷◌, ◌==◌, if◌then◌else◌, leb,
}
use server_chat.Common.Bits.{◌&^◌}
use server_chat.Common.Bytes.{Bytes, codes, eq_bytes, to_lower, trim_space}
use server_chat.Common.Result.{Result, ok, err, ◌>>=◌}
use server_chat.Access.{is_joiner, is_owner, is_admin, is_writer}
use server_chat.Access.Mode

-- topicRoleAccess
pub record TopicRoleAccess : Type 0 where
  pub name : Bytes
  pub mode : ℕ
  pub channel_sub : Bool

pub data RoleErr : Type 0 where
  invalid_channel_role invalid_group_role : RoleErr

abbrev pub member_mode : ℕ
member_mode = bit_or (bit_or (bit_or Mode.join Mode.read) Mode.write) Mode.pres

-- The second `switch` of `resolveTopicRole`, for a channel.
unfoldable pub channel_role : Bytes → Result RoleErr TopicRoleAccess
channel_role role =
    if eq_bytes role (codes "publisher")
    then ok (record { name = role; mode = member_mode; channel_sub = false })
    else if eq_bytes role (codes "subscriber") || eq_bytes role (codes "readonly")
    then ok (record { name = codes "subscriber"; mode = Mode.c_chn_reader; channel_sub = true })
    else err invalid_channel_role

-- The third `switch`, for a group.
unfoldable pub group_role : Bytes → Result RoleErr TopicRoleAccess
group_role role =
    if eq_bytes role (codes "member")
    then ok (record { name = role; mode = member_mode; channel_sub = false })
    else if eq_bytes role (codes "readonly")
    then ok (record { name = role; mode = Mode.c_chn_reader; channel_sub = false })
    else err invalid_group_role

unfoldable pub preset_role : Bytes → Bool → Result RoleErr TopicRoleAccess
unfolding channel_role group_role
preset_role role channel =
    if eq_bytes role (codes "admin")
    then ok (record { name = role; mode = Mode.c_full &^ Mode.owner; channel_sub = false })
    else if eq_bytes role (codes "banned")
    then ok (record { name = role; mode = Mode.no_access; channel_sub = channel })
    else if channel
    then channel_role role
    else group_role role

-- resolveTopicRole
unfoldable pub resolve_topic_role : Bytes → Bool → Result RoleErr TopicRoleAccess
unfolding preset_role to_lower trim_space
resolve_topic_role role channel = preset_role (to_lower (trim_space role)) channel

-- topicRoleFromAccess
unfoldable pub topic_role_from_access : ℕ → Bool → Bool → Bytes
unfolding is_joiner is_owner is_admin is_writer
topic_role_from_access mode channel channel_sub =
    if not (is_joiner mode)
    then codes "banned"
    else if is_owner mode
    then codes "owner"
    else if channel && channel_sub
    then codes "subscriber"
    else if is_admin mode
    then codes "admin"
    else if channel && is_writer mode
    then codes "publisher"
    else if channel
    then codes "readonly"
    else if is_writer mode
    then codes "member"
    else codes "readonly"
