-- ===== src/Topic/Roles/RoundTrip.antt =====
-- internal/server/topic_roles.go: role presets, and the role that is read back from a mode.
use server_chat.Common.{
  ℕ, ◌<◌, ◌≡◌, ◌⊎◌, refl, Bool, true, false, Bool-cases, ◌||◌, if◌then◌else◌, arith, inl, inr,
}
use server_chat.Common.Bytes.{Bytes, eq_bytes, eq_bytes_iff, codes, to_lower, trim_space}
use server_chat.Common.Result.{Result, ok, ok-injective}
use server_chat.Access.{is_owner, is_admin}
use server_chat.Access.Mode
use server_chat.Common.Bits.{◌&^◌}
use server_chat.Topic.Roles.{
  TopicRoleAccess, RoleErr, resolve_topic_role, preset_role, channel_role, group_role, member_mode,
  topic_role_from_access,
}

-- What holds of a role resolved in a topic that is a channel or not: it carries permission bits
-- only and never ownership, its own mode is read back as its name, and only a channel has
-- subscribers in the channel namespace. Only the role `admin` may manage the members.
pub record IsSafe (channel : Bool) (r : TopicRoleAccess) : Type 0 where
  pub no_owner : is_owner r.mode ≡ false
  pub in_range : r.mode < 256
  pub reads_back : topic_role_from_access r.mode channel r.channel_sub ≡ r.name
  pub only_channels : (r.channel_sub ≡ false) ⊎ (channel ≡ true)
  pub only_admins : (is_admin r.mode ≡ false) ⊎ (eq_bytes r.name (codes "admin") ≡ true)

-- The presets for each name, as one lemma per outcome.
IsSafe-of_name :
    (channel : Bool) (name role : Bytes) (mode : ℕ) (sub : Bool)
    → eq_bytes role name ≡ true
    → IsSafe channel (record { name = name; mode = mode; channel_sub = sub })
    → IsSafe channel (record { name = role; mode = mode; channel_sub = sub })
IsSafe-of_name channel name role mode sub e h = rw ((eq_bytes_iff role name).0 e) h

resolved :
    (channel : Bool) {r s : TopicRoleAccess}
    → IsSafe channel r
    → ◌≡◌ {A = Result RoleErr TopicRoleAccess} (ok r) (ok s)
    → IsSafe channel s
resolved channel h e = rw (← ok-injective e) h

publisher-IsSafe :
    IsSafe true (record { name = codes "publisher"; mode = member_mode; channel_sub = false })
unfolding topic_role_from_access is_admin
publisher-IsSafe = record {
  no_owner = refl;
  in_range = omega arith;
  reads_back = refl;
  only_channels = inl refl;
  only_admins = inl refl;
}

subscriber-IsSafe :
    IsSafe true (record { name = codes "subscriber"; mode = Mode.c_chn_reader; channel_sub = true })
unfolding topic_role_from_access is_admin
subscriber-IsSafe = record {
  no_owner = refl;
  in_range = omega arith;
  reads_back = refl;
  only_channels = inr refl;
  only_admins = inl refl;
}

member-IsSafe :
    IsSafe false (record { name = codes "member"; mode = member_mode; channel_sub = false })
unfolding topic_role_from_access is_admin
member-IsSafe = record {
  no_owner = refl;
  in_range = omega arith;
  reads_back = refl;
  only_channels = inl refl;
  only_admins = inl refl;
}

readonly-IsSafe :
    IsSafe false (record { name = codes "readonly"; mode = Mode.c_chn_reader; channel_sub = false })
unfolding topic_role_from_access is_admin
readonly-IsSafe = record {
  no_owner = refl;
  in_range = omega arith;
  reads_back = refl;
  only_channels = inl refl;
  only_admins = inl refl;
}

admin-IsSafe :
    (channel : Bool)
    → IsSafe channel
        (record { name = codes "admin"; mode = Mode.c_full &^ Mode.owner; channel_sub = false })
unfolding topic_role_from_access is_admin ◌&^◌ eq_bytes
admin-IsSafe true = record {
  no_owner = refl;
  in_range = omega arith;
  reads_back = refl;
  only_channels = inl refl;
  only_admins = inr refl;
}
admin-IsSafe false = record {
  no_owner = refl;
  in_range = omega arith;
  reads_back = refl;
  only_channels = inl refl;
  only_admins = inr refl;
}

banned-IsSafe :
    (channel : Bool)
    → IsSafe channel
        (record { name = codes "banned"; mode = Mode.no_access; channel_sub = channel })
unfolding topic_role_from_access is_admin
banned-IsSafe channel = record {
  no_owner = refl;
  in_range = omega arith;
  reads_back = refl;
  only_channels = elim (Bool-cases channel) [ inl e ↦ inr e | inr e ↦ inl e ];
  only_admins = inl refl;
}

channel_role-IsSafe :
    (role : Bytes) {r : TopicRoleAccess} → channel_role role ≡ ok r → IsSafe true r
unfolding channel_role
channel_role-IsSafe role h = elim (Bool-cases (eq_bytes role (codes "publisher"))) [
  | inl p ↦ resolved true (IsSafe-of_name true _ role _ _ p publisher-IsSafe) (rw p at h)
  | inr p ↦
      (elim (Bool-cases (eq_bytes role (codes "subscriber") || eq_bytes role (codes "readonly"))) [
        | inl q ↦ resolved true subscriber-IsSafe (rw (p, q) at h)
        | inr q ↦ absurd (let e = rw (p, q) at h in cc)
      ])
]

group_role-IsSafe : (role : Bytes) {r : TopicRoleAccess} → group_role role ≡ ok r → IsSafe false r
unfolding group_role
group_role-IsSafe role h = elim (Bool-cases (eq_bytes role (codes "member"))) [
  | inl p ↦ resolved false (IsSafe-of_name false _ role _ _ p member-IsSafe) (rw p at h)
  | inr p ↦ (elim (Bool-cases (eq_bytes role (codes "readonly"))) [
    | inl q ↦ resolved false (IsSafe-of_name false _ role _ _ q readonly-IsSafe) (rw (p, q) at h)
    | inr q ↦ absurd (let e = rw (p, q) at h in cc)
  ])
]

ordinary_role-IsSafe :
    (role : Bytes) (channel : Bool) {r : TopicRoleAccess}
    → (if channel then channel_role role else group_role role) ≡ ok r
    → IsSafe channel r
ordinary_role-IsSafe role true h = channel_role-IsSafe role h
ordinary_role-IsSafe role false h = group_role-IsSafe role h

preset_role-IsSafe :
    (role : Bytes) (channel : Bool) {r : TopicRoleAccess}
    → preset_role role channel ≡ ok r
    → IsSafe channel r
unfolding preset_role
preset_role-IsSafe role channel h = elim (Bool-cases (eq_bytes role (codes "admin"))) [
  | inl p ↦
      resolved channel (IsSafe-of_name channel _ role _ _ p (admin-IsSafe channel)) (rw p at h)
  | inr p ↦ (elim (Bool-cases (eq_bytes role (codes "banned"))) [
    | inl q ↦
        resolved channel (IsSafe-of_name channel _ role _ _ q (banned-IsSafe channel))
          (rw (p, q) at h)
    | inr q ↦ ordinary_role-IsSafe role channel (rw (p, q) at h)
  ])
]

-- A role that is resolved without an error, for a group or a channel, has permission bits only and
-- not the owner's, its mode is read back as the resolved name, it is in the channel namespace only
-- if the topic is a channel, and it has an admin's permissions only if its name is `admin`.
pub resolve_topic_role-IsSafe :
    (role : Bytes) (channel : Bool) {r : TopicRoleAccess}
    → resolve_topic_role role channel ≡ ok r
    → IsSafe channel r
unfolding resolve_topic_role
resolve_topic_role-IsSafe role channel h = preset_role-IsSafe (to_lower (trim_space role)) channel h
