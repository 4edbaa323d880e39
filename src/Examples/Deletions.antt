-- ===== src/Examples/Deletions.antt =====
-- Deleting messages: the theorems on a concrete topic.
use server_chat.Common.{
  if◌then◌else◌, ℕ, ◌+◌, ◌≡◌, refl, arith, max, true, false, ◌&&◌, Bool-cases, Option, none, some,
  inl, inr, [], ◌∷◌, ◌==◌, ltb, leb,
}
use server_chat.Common.Result.{Result, ok}
use server_chat.Access.{is_deleter, is_reader}
use server_chat.Ranges.{covers}
use server_chat.Topic.{Topic, PerUserData, grp, user_data, set_user, mode}
use server_chat.Topic.Store.{StoreErr}
use server_chat.Topic.Delete.{MsgRange, is_valid, to_range, check_delete, reply_del_msg}
use server_chat.Topic.Delete.Entries.{to_range-covers}
use server_chat.Topic.Delete.Ownership.{IsOwn, check_delete-IsOwn}
use server_chat.Topic.Delete.Counters.{IsCounted, Follows, reply_del_msg-Follows}

abbrev entry : ℕ → ℕ → MsgRange
entry low hi = record { low_id = low; hi_id = hi }

entry_valid : is_valid 9 (entry 8 20) ≡ true
unfolding is_valid
entry_valid = refl

eight_to_nine : covers (to_range 9 (entry 8 20)) 9 ≡ (leb 8 9 && ltb 9 (max 20 (8 + 1)) && leb 9 9)
eight_to_nine = to_range-covers 9 (entry 8 20) 9 entry_valid

-- User 7 may read and write, and has sent the messages 2 and 3.
abbrev member : PerUserData
member = record {
  recv_id = 9;
  read_id = 9;
  del_id = 0;
  mode_want = 0x7;
  mode_given = 0x7;
  deleted = false;
  is_chan = false;
}

abbrev topic : Topic
topic = record {
  cat = grp;
  status = 1;
  is_chan = false;
  owner = 9;
  sub_cnt = 1;
  last_id = 9;
  del_id = 4;
  touched = 0;
  per_user = set_user (λ uid. none) 7 member;
}

abbrev sender : ℕ → Result StoreErr (Option ℕ)
sender id = if id == 2 then ok (some 7) else if id == 3 then ok (some 7) else ok (some 8)

no_deleter : is_deleter (mode (user_data topic 7)) ≡ false
unfolding is_deleter
no_deleter = refl

own_deleted :
    check_delete sender 7 false true (entry 2 4 ∷ []) topic ≡ ok (record { low = 2; hi = 4 } ∷ [])
unfolding check_delete is_deleter is_reader
own_deleted = refl

check_delete-IsOwn_example : IsOwn sender 7 3
check_delete-IsOwn_example =
    check_delete-IsOwn sender 7 false (entry 2 4 ∷ []) topic 3 no_deleter own_deleted refl

topic-IsCounted : IsCounted topic
topic-IsCounted uid = elim (Bool-cases (7 == uid)) [
  | inl e ↦ rw e (omega arith)
  | inr e ↦ rw e (omega arith)
]

deletions_counted :
    Follows topic (reply_del_msg sender 7 true false true (entry 2 4 ∷ []) topic).topic
deletions_counted =
    reply_del_msg-Follows sender 7 topic topic-IsCounted true false true (entry 2 4 ∷ [])
