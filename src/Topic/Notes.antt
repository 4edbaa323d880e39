-- ===== src/Topic/Notes.antt =====
-- internal/server/topic_msg.go: `handleNoteBroadcast`, which takes a subscriber's notices of what
-- has been received and read. The topic is not an official one, for which `checkOfficialPublish`
-- and `refreshOfficialChannelMember` return at once; the history of reads is left out.
pub mod Updates
pub mod Effect
pub mod Marks
pub mod Channels
use server_chat.Common.{
  ℕ, ◌-◌, Bool, true, false, not, ◌||◌, ◌&&◌, Option, none, some, List, [], ◌∷◌, ◌++◌,
  if◌then◌else◌, ltb, leb,
}
use server_chat.Access.{is_reader, is_writer}
use server_chat.Access.Mode
use server_chat.Topic.{Topic, PerUserData, user_data, set_user, mode, is_inactive, is_read_only}

-- msg.Note.What: the three `kp` notices, and any other text.
pub data What : Type 0 where
  kp read recv react pin call other : What

-- Whether the message has an id, and `Note`.
pub record Request : Type 0 where
  pub has_id : Bool
  pub what : What
  pub seq_id : ℕ

pub data Reply : Type 0 where
  locked malformed not_found permission_denied unknown : Reply
  -- NoErrDeliveredParams and NoErrParamsReply, with the mark.
  duplicate accepted : ℕ → Reply

-- What is sent or called, in order.
pub data Out : Type 0 where
  reply : Reply → Out
  -- reactToMessage, pinMessage and handleCallEvent
  to_reactions to_pins to_calls : Out
  -- store.Subs.Update with "RecvSeqId" and "ReadSeqId"
  update_subs : ℕ → ℕ → Out
  -- presPubMessageCount
  pres_count : ℕ → ℕ → Out
  push_read : ℕ → Out
  -- usersUpdateUnread, with the number of messages that are no longer unread
  fewer_unread : ℕ → Out
  info_offline : ℕ → Out
  broadcast_info : What → ℕ → Out

-- The topic, and what was sent.
pub record Outcome : Type 0 where
  pub topic : Topic
  pub outs : List Out

abbrev pub with_id : Request → Reply → List Out
with_id req r = if req.has_id then reply r ∷ [] else []

-- The cases "read" and "recv" of the second `switch`: the data with the new marks, and the values
-- of `recv` and `read`. `none` is a notice that is not newer than the mark.
unfoldable pub mark_read : ℕ → PerUserData → Option PerUserData
mark_read seq_id pud =
    if leb seq_id pud.read_id
    then none
    else some (record pud {
      read_id = seq_id;
      recv_id = if ltb pud.recv_id seq_id then seq_id else pud.recv_id;
    })

unfoldable pub mark_recv : ℕ → PerUserData → Option PerUserData
mark_recv seq_id pud =
    if leb seq_id pud.recv_id
    then none
    else some (record pud { recv_id = if ltb seq_id pud.read_id then pud.read_id else seq_id })

-- `asChan` is whether the request names the channel, and `saved` whether the update of the
-- subscription returns no error.
module _ (saved as_chan : Bool) (req : Request) (as_uid : ℕ) (t : Topic) where
  -- The last lines: the notice for offline users and the broadcast.
  unfoldable pub forward : ℕ → List Out
  forward seq = if as_chan then [] else info_offline seq ∷ broadcast_info req.what req.seq_id ∷ []

  -- The block `if seq > 0`, and the lines that follow it.
  unfoldable pub store_marks : PerUserData → ℕ → ℕ → ℕ → ℕ → Outcome
  unfolding forward
  store_marks pud recv_mark read_mark unread seq =
      if saved
      then record {
        topic = if as_chan then t else record t { per_user = set_user t.per_user as_uid pud };
        outs =
            update_subs recv_mark read_mark
              ∷ pres_count read_mark recv_mark
              ∷ (if ltb 0 read_mark then push_read read_mark ∷ [] else [])
            ++ (if as_chan then [] else fewer_unread unread ∷ [])
            ++ with_id req (accepted seq)
            ++ forward seq;
      }
      else record { topic = t; outs = update_subs recv_mark read_mark ∷ with_id req unknown }

  unfoldable pub note_read : PerUserData → Outcome
  unfolding mark_read store_marks
  note_read pud = elim (mark_read req.seq_id pud) [
    | none ↦ record { topic = t; outs = with_id req (duplicate pud.read_id) }
    | some pud' ↦ store_marks pud' 0 pud'.read_id (req.seq_id - pud.read_id) pud'.read_id
  ]

  unfoldable pub note_recv : PerUserData → Outcome
  unfolding mark_recv store_marks
  note_recv pud = elim (mark_recv req.seq_id pud) [
    | none ↦ record { topic = t; outs = with_id req (duplicate pud.recv_id) }
    | some pud' ↦ store_marks pud' pud'.recv_id 0 0 pud'.recv_id
  ]

  abbrev pub denied : Outcome
  denied = record { topic = t; outs = with_id req permission_denied }

  -- The two `switch` statements, for the data and the mode of the user.
  unfoldable pub on_what : What → PerUserData → ℕ → Outcome
  unfolding note_read note_recv forward is_reader is_writer is_read_only
  on_what kp pud m =
      if as_chan || (pud.is_chan || (not (is_writer (mode pud)) || is_read_only t))
      then record { topic = t; outs = [] }
      else record { topic = t; outs = forward 0 }
  on_what read pud m = if is_reader m then note_read pud else denied
  on_what recv pud m = if is_reader m then note_recv pud else denied
  on_what react pud m =
      if is_reader m then record { topic = t; outs = to_reactions ∷ [] } else denied
  on_what pin pud m = if is_reader m then record { topic = t; outs = to_pins ∷ [] } else denied
  on_what call pud m = record { topic = t; outs = to_calls ∷ [] }
  on_what other pud m = record { topic = t; outs = forward 0 }

-- `mode` of the handler: a deleted user has none.
unfoldable pub note_mode : PerUserData → ℕ
note_mode pud = if pud.deleted then Mode.invalid else mode pud

-- handleNoteBroadcast; `names_channel` is types.IsChannel(msg.Original).
unfoldable pub handle_note : Bool → Bool → Request → ℕ → Topic → Outcome
unfolding is_inactive on_what note_mode
handle_note saved names_channel req as_uid t =
    if is_inactive t
    then record { topic = t; outs = with_id req locked }
    else if ltb t.last_id req.seq_id
    then record { topic = t; outs = with_id req malformed }
    else if names_channel && not t.is_chan
    then record { topic = t; outs = with_id req not_found }
    else on_what saved names_channel req as_uid t req.what (user_data t as_uid)
        (note_mode (user_data t as_uid))
