-- ===== src/Topic.antt =====
-- internal/server/topic.go: the state of a topic, as far as its messages need it. A user id is a
-- number. Presence, sessions and profile data are not part of it.
pub mod Roles
pub mod SelfAccess
pub mod Invites
pub mod Ownership
pub mod SelfSub
pub mod FirstSub
pub mod OtherSub
pub mod Subs
pub mod RoleChange
pub mod Store
pub mod Posting
pub mod Publish
pub mod Notes
pub mod Delete
pub mod Calls
use server_chat.Common.{
  ℕ, bit_and, bit_or, Bool, true, false, not, Option, none, some, ◌==◌, if◌then◌else◌,
}
use server_chat.Access.{has, is_writer, is_reader}
use server_chat.Access.Mode

-- TopicCat of server/store/types/message.go.
pub data TopicCat : Type 0 where
  me fnd p2p grp sys slf : TopicCat

-- perUserData
pub record PerUserData : Type 0 where
  pub recv_id : ℕ
  pub read_id : ℕ
  pub del_id : ℕ
  pub mode_want : ℕ
  pub mode_given : ℕ
  pub deleted : Bool
  pub is_chan : Bool

pub record Topic : Type 0 where
  pub cat : TopicCat
  pub status : ℕ
  pub is_chan : Bool
  pub owner : ℕ
  pub sub_cnt : ℕ
  pub last_id : ℕ
  pub del_id : ℕ
  pub touched : ℕ
  pub per_user : ℕ → Option PerUserData

-- The value that Go reads for a user who is not in the map.
abbrev pub no_data : PerUserData
no_data = record {
  recv_id = 0;
  read_id = 0;
  del_id = 0;
  mode_want = Mode.no_access;
  mode_given = Mode.no_access;
  deleted = false;
  is_chan = false;
}

abbrev pub or_no_data : Option PerUserData → PerUserData
or_no_data none = no_data
or_no_data (some pud) = pud

-- t.perUser[uid]
abbrev pub user_data : Topic → ℕ → PerUserData
user_data t uid = or_no_data (t.per_user uid)

-- t.perUser[uid] = pud
abbrev pub set_user : (ℕ → Option PerUserData) → ℕ → PerUserData → ℕ → Option PerUserData
set_user users uid pud other = if uid == other then some pud else users other

-- delete(t.perUser, uid)
abbrev pub remove_user : (ℕ → Option PerUserData) → ℕ → ℕ → Option PerUserData
remove_user users uid other = if uid == other then none else users other

-- evictUser, without `unsub`: a user who reads the channel, or another one who is not kept, leaves
-- the cache.
abbrev pub evict_user : Bool → (ℕ → Option PerUserData) → ℕ → ℕ → Option PerUserData
evict_user true users uid = remove_user users uid
evict_user false users uid = users

-- pud.modeGiven & pud.modeWant
abbrev pub mode : PerUserData → ℕ
mode pud = bit_and pud.mode_given pud.mode_want

module _ (t : Topic) where
  -- topicStatusPaused | topicStatusMarkedDeleted
  unfoldable pub is_inactive : Bool
  unfolding has
  is_inactive = has t.status (bit_or 0x2 0x10)

  unfoldable pub is_read_only : Bool
  unfolding has
  is_read_only = has t.status 0x20

  unfoldable pub is_deleted : Bool
  unfolding has
  is_deleted = has t.status 0x10

abbrev pub is_sys : TopicCat → Bool
is_sys sys = true
is_sys _ = false

abbrev pub is_p2p : TopicCat → Bool
is_p2p p2p = true
is_p2p _ = false

abbrev pub is_grp : TopicCat → Bool
is_grp grp = true
is_grp _ = false
