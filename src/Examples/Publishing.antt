-- ===== src/Examples/Publishing.antt =====
-- Publishing on a topic whose messages are kept in a list.
mod Inviting
use server_chat.Common.{
  ℕ, ◌≡◌, ◌≢◌, refl, true, false, none, some, List, [], ◌∷◌, All, Bool-cases, ◌==◌, inl, inr, arith,
}
use server_chat.Common.Result.{ok}
use server_chat.Access.{is_writer}
use server_chat.Topic.{Topic, PerUserData, grp, set_user, user_data}
use server_chat.Topic.Notes
use server_chat.Topic.Notes.{handle_note}
use server_chat.Topic.Notes.Marks.{IsMarked, Progress, handle_note-Progress}
use server_chat.Topic.Notes.Channels.{handle_note-channel}
use server_chat.Topic.Publish.Marks.{KeepsMarks, save_and_broadcast-KeepsMarks}
use server_chat.Topic.Store.{Message, MessageStore, find_row}
use server_chat.Topic.Posting.{Services, passes, standalone, Request}
use server_chat.Topic.Publish.{Outcome, save_and_broadcast}
use server_chat.Topic.Publish.Log.{
  IsContiguous, IsOnce, save_and_broadcast-IsContiguous, save_and_broadcast-IsOnce,
}
use server_chat.Topic.Publish.Retry.{IsRepeat, save_and_broadcast-IsRepeat}
use server_chat.Topic.Publish.Guards.{IsAllowed, save_and_broadcast-IsAllowed}
use server_chat.Topic.Publish.Stored.{IsStored, save_and_broadcast-AllStored}

-- A database that never fails.
abbrev list_store : MessageStore
list_store = record {
  State = List Message;
  rows = λ s. s;
  save = λ s m read. (m ∷ s, ok read);
  get_by_client_id = λ s uid cid. ok (find_row uid cid s);
  save_ok = λ s m read e. refl;
  save_err = λ s m read e. cc;
  get_ok = λ s uid cid e. cc;
}

abbrev services : Services
services = record {
  has_policy = false;
  authorize = none;
  official_allows = true;
  slow_mode = passes;
  fence = standalone;
  archives = λ m. true;
}

abbrev member : PerUserData
member = record {
  recv_id = 0;
  read_id = 0;
  del_id = 0;
  mode_want = 0x7;
  mode_given = 0x7;
  deleted = false;
  is_chan = false;
}

abbrev topic : ℕ → Topic
topic last_id = record {
  cat = grp;
  status = 1;
  is_chan = false;
  owner = 9;
  sub_cnt = 1;
  last_id = last_id;
  del_id = 0;
  touched = 0;
  per_user = set_user (λ uid. none) 7 member;
}

abbrev request : Request
request = record {
  has_id = true;
  session = some 7;
  timestamp = 100;
  client_id = some 42;
  no_echo = true;
  content = 5;
}

abbrev stored : Message
stored = record {
  seq_id = 1;
  from = 7;
  client_id = some 42;
  cluster_epoch = none;
  sender = none;
  content = 5;
}

abbrev first : Outcome list_store
first = save_and_broadcast list_store services request 7 (topic 0) []

-- The message is saved under the id 1.
first_saved : first.state ≡ stored ∷ []
unfolding save_and_broadcast is_writer find_row
first_saved = refl

save_and_broadcast-IsContiguous_example : IsContiguous list_store first.topic first.state
save_and_broadcast-IsContiguous_example =
    save_and_broadcast-IsContiguous list_store services request 7 (topic 0) [] refl

save_and_broadcast-IsOnce_example : IsOnce first.state
save_and_broadcast-IsOnce_example =
    save_and_broadcast-IsOnce list_store services request 7 (topic 0) [] tt

save_and_broadcast-AllStored_example : All (IsStored first.state) first.outs
save_and_broadcast-AllStored_example =
    save_and_broadcast-AllStored list_store services request 7 (topic 0) []

first_changes : first.state ≢ []
first_changes e = cc first_saved

save_and_broadcast-IsAllowed_example : IsAllowed services request 7 (topic 0)
save_and_broadcast-IsAllowed_example =
    save_and_broadcast-IsAllowed list_store services request 7 (topic 0) [] first_changes

stored_found : find_row 7 42 (stored ∷ []) ≡ some stored
unfolding find_row
stored_found = refl

save_and_broadcast-IsRepeat_example :
    IsRepeat list_store services request 7
      (topic 1)
      (stored ∷ [])
      stored
      (save_and_broadcast list_store services request 7 (topic 1) (stored ∷ []))
save_and_broadcast-IsRepeat_example =
    save_and_broadcast-IsRepeat list_store services request 7 (topic 1) (stored ∷ []) 42 stored refl
      stored_found

topic-IsMarked : (uid : ℕ) → IsMarked 4 (user_data (topic 4) uid)
topic-IsMarked uid = elim (Bool-cases (7 == uid)) [
  | inl e ↦ rw e (omega arith, omega arith)
  | inr e ↦ rw e (omega arith, omega arith)
]

marks_after_post :
    KeepsMarks (topic 4) (save_and_broadcast list_store services request 7 (topic 4) []).topic
marks_after_post =
    save_and_broadcast-KeepsMarks list_store services request 7 (topic 4) [] topic-IsMarked

abbrev has_read : Notes.Request
has_read = record { has_id = true; what = Notes.What.read; seq_id = 3 }

handle_note-Progress_example :
    Progress true false has_read 7 (topic 4) (handle_note true false has_read 7 (topic 4))
handle_note-Progress_example = handle_note-Progress true false has_read 7 (topic 4) topic-IsMarked

abbrev channel : Topic
channel = record (topic 4) { is_chan = true }

-- The notice is stored, and would be stored again.
channel_notice_kept : (handle_note true true has_read 7 channel).topic ≡ channel
channel_notice_kept = handle_note-channel true has_read 7 channel
