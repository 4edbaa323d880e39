-- ===== src/Examples/Newcomers.antt =====
-- Joining a group: the theorems on a group that has only its owner.
use server_chat.Common.{ℕ, ◌≡◌, ◌≢◌, inl, inr, refl, arith, true, false, none, some}
use server_chat.Common.Result.{ok}
use server_chat.Access.{is_owner, is_joiner}
use server_chat.Access.Mode
use server_chat.Topic.{Topic, PerUserData, grp, set_user}
use server_chat.Topic.Ownership.{IsOwned, set_user-IsOwned}
use server_chat.Topic.FirstSub.{
  StoredSub, FirstRequest, check_group, draft_for, save_draft, with_newcomer, first_sub,
}
use server_chat.Topic.FirstSub.Newcomers.{first_sub-IsOwned}
use server_chat.Topic.FirstSub.Banned.{first_sub-banned}

abbrev data_of : ℕ → PerUserData
data_of modes = record {
  recv_id = 0;
  read_id = 0;
  del_id = 0;
  mode_want = modes;
  mode_given = modes;
  deleted = false;
  is_chan = false;
}

abbrev empty : Topic
empty = record {
  cat = grp;
  status = 1;
  is_chan = false;
  owner = 1;
  sub_cnt = 1;
  last_id = 0;
  del_id = 0;
  touched = 0;
  per_user = λ uid. none;
}

abbrev group : Topic
group = record empty { per_user = set_user empty.per_user 1 (data_of 0xFF) }

empty-IsOwned : IsOwned empty
unfolding is_owner
empty-IsOwned uid = inl refl

group-IsOwned : IsOwned group
group-IsOwned = set_user-IsOwned empty 1 (data_of 0xFF) empty-IsOwned (inr refl)

-- User 2, who was banned, comes back with an invitation.
abbrev banned : StoredSub
banned = record { mode_want = 0xF; mode_given = 0; is_deleted = false }

abbrev request : FirstRequest
request = record {
  uid = 2;
  as_chan = false;
  mode_want = Mode.unset;
  has_invite = true;
  is_root = false;
  default_access = 0xF;
  p2p_access = 0x1F;
  join_allowed = true;
  validate_invite = true;
  consume_invite = true;
  is_large = false;
  is_full = false;
  stored = ok (some banned);
  written = true;
}

abbrev group_after : Topic
group_after = record group { per_user = set_user group.per_user 2 (data_of 0xF) }

joined : first_sub request group ≡ ok group_after
unfolding first_sub check_group draft_for save_draft with_newcomer is_joiner
joined = refl

plain_default : is_owner 0xF ≡ false
unfolding is_owner
plain_default = refl

plain_nothing : is_owner 0 ≡ false
unfolding is_owner
plain_nothing = refl

first_sub-IsOwned_example : IsOwned group_after
first_sub-IsOwned_example =
    first_sub-IsOwned request group group-IsOwned (plain_default, plain_nothing, plain_nothing)
      joined

nothing_set : banned.mode_given ≢ Mode.unset
nothing_set h = omega arith

not_joining : is_joiner 0 ≡ false
unfolding is_joiner
not_joining = refl

first_sub-banned_example :
    (request.has_invite ≡ true) × (request.validate_invite ≡ true) × (request.consume_invite ≡ true)
first_sub-banned_example =
    first_sub-banned request banned group refl refl refl refl nothing_set not_joining joined
