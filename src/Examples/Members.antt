-- ===== src/Examples/Members.antt =====
-- The members of a group: the theorems on a group with an owner, an admin and a member.
use server_chat.Common.{ℕ, ◌≡◌, ◌≢◌, ◌⊎◌, inl, inr, refl, sym, arith, true, false, none, some}
use server_chat.Common.Bytes.{codes}
use server_chat.Common.Result.{ok, ok-injective}
use server_chat.Access.{is_owner, is_joiner, is_admin, is_deleter, is_sharer, better_equal}
use server_chat.Access.Text.{unmarshal_text}
use server_chat.Common.Bits.{◌&^◌}
use server_chat.Topic.{Topic, PerUserData, grp, is_read_only, set_user, mode}
use server_chat.Topic.Subs.{SubStore, Roster, with_row, updated}
use server_chat.Topic.RoleChange.{RoleRequest, active}
use server_chat.Topic.RoleChange.Apply.{set_another_user_role}
use server_chat.Topic.RoleChange.Allowed.{IsProper, set_another_user_role-IsProper}
use server_chat.Topic.RoleChange.Others.{IsUntouched, set_another_user_role-IsUntouched}
use server_chat.Topic.Ownership.{IsOwned, set_user-IsOwned}
use server_chat.Topic.SelfAccess.{SelfInput, check_requested, limit_requested, plan_existing_self}
use server_chat.Topic.SelfAccess.Grant.{plan_existing_self-given}
use server_chat.Topic.SelfSub.{SelfServices, SelfRequest, this_user_sub}
use server_chat.Topic.SelfSub.Owners.{this_user_sub-IsOwned}
use server_chat.Topic.OtherSub.{
  OtherRequest, missing, check_host, check_given, change_data, regrant, with_data, another_user_sub,
}
use server_chat.Topic.OtherSub.Grants.{IsPermitted, another_user_sub-IsPermitted}
use server_chat.Topic.OtherSub.Owners.{another_user_sub-IsOwned}

-- A store in memory, where every call succeeds.
abbrev sub_store : SubStore
sub_store = record {
  State = Roster;
  rows = λ s. s;
  get = λ s chan uid. ok (s chan uid);
  create = λ s chan uid new. (with_row s chan uid (some new), true);
  update = λ s chan uid new. (with_row s chan uid (updated (s chan uid) new), true);
  delete = λ s chan uid. (with_row s chan uid none, true);
  get_ok = λ s chan uid {found} h. sym (ok-injective h);
  create_ok = λ s chan uid new h. refl;
  create_err = λ s chan uid new h. cc;
  update_ok = λ s chan uid new h. refl;
  update_err = λ s chan uid new h. cc;
  delete_ok = λ s chan uid h. refl;
  delete_err = λ s chan uid h. cc;
}

abbrev data_of : ℕ → ℕ → PerUserData
data_of want given = record {
  recv_id = 0;
  read_id = 0;
  del_id = 0;
  mode_want = want;
  mode_given = given;
  deleted = false;
  is_chan = false;
}

-- User 1 owns the group, user 2 is an admin to whom the group is offered, user 3 is a member.
abbrev group : Topic
group = record {
  cat = grp;
  status = 1;
  is_chan = false;
  owner = 1;
  sub_cnt = 3;
  last_id = 0;
  del_id = 0;
  touched = 0;
  per_user =
      set_user (set_user (set_user (λ uid. none) 1 (data_of 0xFF 0xFF)) 2 (data_of 0x7F 0xFF)) 3
        (data_of 0xF 0xF);
}

abbrev rows : Roster
rows = with_row (λ chan uid. none) false 3 (some (record { mode_want = 0xF; mode_given = 0xF }))

-- The owner makes the member an admin.
abbrev promotion : RoleRequest
promotion = record {
  actor = 1;
  target = 3;
  as_chan = false;
  role = codes "admin";
  is_official = false;
  is_full = false;
  account = active;
}

set_another_user_role-IsProper_example :
    IsProper sub_store rows group promotion (set_another_user_role sub_store rows group promotion)
set_another_user_role-IsProper_example =
    set_another_user_role-IsProper sub_store rows group promotion

apart : promotion.target ≢ 2
apart h = omega arith

others-IsUntouched :
    IsUntouched sub_store rows group promotion 2 apart
      (set_another_user_role sub_store rows group promotion)
others-IsUntouched = set_another_user_role-IsUntouched sub_store rows group promotion 2 apart

abbrev empty : Topic
empty = record group { per_user = λ uid. none }

abbrev with_user : Topic → ℕ → PerUserData → Topic
with_user t uid pud = record t { per_user = set_user t.per_user uid pud }

nobody-IsOwned : IsOwned empty
unfolding is_owner
nobody-IsOwned uid = inl refl

offered_not_owner : is_owner (mode (data_of 0x7F 0xFF)) ≡ false
unfolding is_owner
offered_not_owner = refl

member_not_owner : is_owner (mode (data_of 0xF 0xF)) ≡ false
unfolding is_owner
member_not_owner = refl

group-IsOwned : IsOwned group
group-IsOwned =
    let one = set_user-IsOwned empty 1 (data_of 0xFF 0xFF) nobody-IsOwned (inr refl) in
    let two =
      set_user-IsOwned (with_user empty 1 (data_of 0xFF 0xFF)) 2 (data_of 0x7F 0xFF) one
        (inl offered_not_owner) in
    set_user-IsOwned (with_user (with_user empty 1 (data_of 0xFF 0xFF)) 2 (data_of 0x7F 0xFF)) 3
      (data_of 0xF 0xF) two (inl member_not_owner)

-- User 2 accepts the group.
abbrev acceptance : SelfRequest
acceptance = record {
  uid = 2;
  as_chan = false;
  want = codes "JRWPASDO";
  has_invite = false;
  sets_private = false;
  default_access = 0xF;
  p2p_access = 0x1F;
}

abbrev services : SelfServices
services = record { validate_invite = true; consume_invite = true; write = λ w. true }

joins : is_joiner 0x7F ≡ true
unfolding is_joiner
joins = refl

this_user_sub-IsOwned_example :
    IsOwned (this_user_sub services group acceptance (data_of 0x7F 0xFF)).topic
this_user_sub-IsOwned_example =
    this_user_sub-IsOwned services group acceptance (data_of 0x7F 0xFF) group-IsOwned refl
      (inl joins)

-- An admin asks for all that an admin may have.
abbrev ambition : SelfInput
ambition = record {
  category = grp;
  is_topic_owner = false;
  old_want = 0xF;
  old_given = 0x1F;
  requested = 0x7F;
  default_access = 0xF;
  p2p_access = 0x1F;
}

abbrev granted_mode : ℕ
granted_mode = 0x3F

not_owning : is_owner 0x1F ≡ false
unfolding is_owner
not_owning = refl

granted :
    plan_existing_self ambition ≡ ok (record { want = 0x7F; given = 0x3F; owner_change = false })
unfolding plan_existing_self check_requested limit_requested is_owner is_joiner is_admin
    better_equal ◌&^◌
granted = refl

self_change_kept :
    (is_owner 0x3F ≡ false)
    × (is_deleter 0x3F ≡ is_deleter 0x1F)
    × ((granted_mode ≡ ambition.old_given) ⊎ (is_admin 0x1F ≡ true))
self_change_kept =
    plan_existing_self-given ambition (record { want = 0x7F; given = 0x3F; owner_change = false })
      not_owning granted

-- The admin gives the member the permission to approve.
abbrev grant : OtherRequest
grant = record {
  actor = 2;
  target = 3;
  as_chan = false;
  mode = codes "JRWPA";
  auth_access = 0xF;
  p2p_access = 0x1F;
  is_large = false;
  is_full = false;
  stored_want = ok none;
  account = missing;
  is_online = true;
  written = true;
}

abbrev group_after : Topic
group_after = record group { per_user = set_user group.per_user 3 (data_of 0xF 0x1F) }

grant_ok : another_user_sub group grant ≡ ok group_after
unfolding another_user_sub check_host is_sharer is_read_only unmarshal_text check_given better_equal
    ◌&^◌ change_data regrant with_data is_joiner
grant_ok = refl

another_user_sub-IsPermitted_example : IsPermitted group grant group_after
another_user_sub-IsPermitted_example = another_user_sub-IsPermitted group grant grant_ok

foreign : group.owner ≢ grant.actor
foreign h = omega arith

plain : is_owner 0xF ≡ false
unfolding is_owner
plain = refl

another_user_sub-IsOwned_example : IsOwned group_after
another_user_sub-IsOwned_example =
    another_user_sub-IsOwned group grant group-IsOwned foreign plain grant_ok
