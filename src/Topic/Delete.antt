-- ===== src/Topic/Delete.antt =====
-- internal/server/topic_meta_delete.go: `replyDelMsg`, which deletes messages of a topic for one
-- user, or for all (a hard deletion). Ids are natural numbers: a negative id, which the code
-- refuses, is not part of the model.
pub mod Entries
pub mod Ownership
pub mod Counters
use server_chat.Common.{
  ℕ, zero, suc, ◌+◌, ◌-◌, Bool, true, false, not, ◌&&◌, ◌||◌, Option, none, some, List, [], ◌∷◌,
  ◌++◌, ◌==◌, ltb, leb, if◌then◌else◌, length,
}
use server_chat.Common.Result.{Result, ok, err}
use server_chat.Access.{is_deleter, is_reader}
use server_chat.Ranges.{Range, upper, sort, normalize}
use server_chat.Topic.{Topic, PerUserData, user_data, set_user, mode}
use server_chat.Topic.Store.{StoreErr}

-- One entry of `del.DelSeq`.
pub record MsgRange : Type 0 where
  pub low_id : ℕ
  pub hi_id : ℕ

abbrev pub max_delete_count : ℕ
max_delete_count = 1024

-- The conditions on an entry, in a topic with the last id.
unfoldable pub is_valid : ℕ → MsgRange → Bool
is_valid last_id dq = not (
    ltb last_id dq.low_id
    || ((ltb 0 dq.hi_id && ltb dq.hi_id dq.low_id) || (dq.low_id == 0 && dq.hi_id == 0)))

unfoldable pub to_range : ℕ → MsgRange → Range
to_range last_id dq =
    if ltb last_id dq.hi_id
    then record { low = dq.low_id; hi = last_id + 1 }
    else if dq.low_id == dq.hi_id || dq.low_id + 1 == dq.hi_id
    then record { low = dq.low_id; hi = 0 }
    else record { low = dq.low_id; hi = dq.hi_id }

abbrev pub range_count : Range → ℕ
range_count r = if r.hi == 0 then 1 else r.hi - r.low

-- The loop over the entries: the ranges and `count`, or an invalid entry.
unfoldable pub collect : ℕ → List MsgRange → Option (List Range × ℕ)
unfolding is_valid to_range
collect last_id [] = some ([], 0)
collect last_id (dq ∷ seq) = elim (collect last_id seq) [
  | none ↦ none
  | some (ranges, count) ↦
      if is_valid last_id dq
      then some (to_range last_id dq ∷ ranges, range_count (to_range last_id dq) + count)
      else none
]

-- The ranges to delete, or `none` for a malformed request.
unfoldable pub requested : ℕ → List MsgRange → Option (List Range)
unfolding collect sort normalize
requested last_id [] = none
requested last_id (dq ∷ seq) = elim (collect last_id (dq ∷ seq)) [
  | none ↦ none
  | some (ranges, count) ↦
      let merged = normalize (sort ranges) in
      if ltb max_delete_count count && ltb 1 (length merged) then none else some merged
]

pub data Reply : Type 0 where
  not_allowed permission_denied malformed unknown : Reply
  deleted : ℕ → Reply

-- What is done and sent after a deletion, in order.
pub data Out : Type 0 where
  -- store.Messages.DeleteList
  delete_list : (del_id : ℕ) → (for_user : Option ℕ) → List Range → Out
  remove_pins : List Range → Out
  fewer_unread : List Range → Out
  -- presSubsOnline and presSubsOffline, or presPubMessageDelete
  pres_all : ℕ → List Range → Out
  pres_own : ℕ → List Range → Out
  reply : Reply → Out

pub record Outcome : Type 0 where
  pub topic : Topic
  pub outs : List Out

-- The sender of a stored message, as `store.Messages.Get` finds it.
module _ (sender : ℕ → Result StoreErr (Option ℕ)) (as_uid : ℕ) where
  -- The inner loop, from an id on for a number of ids: the reply if one is refused.
  unfoldable pub refuse_from : ℕ → ℕ → Option Reply
  refuse_from zero seq = none
  refuse_from (suc left) seq =
      let rest = refuse_from left (seq + 1) in
      elim (sender seq) [
        | err e ↦ some unknown
        | ok none ↦ rest
        | ok (some from) ↦ if from == as_uid then rest else some permission_denied
      ]

  unfoldable pub refuse_ranges : List Range → Option Reply
  unfolding refuse_from
  refuse_ranges [] = none
  refuse_ranges (r ∷ ranges) =
      let rest = refuse_ranges ranges in
      elim (refuse_from (upper r - r.low) r.low) [ none ↦ rest | some x ↦ some x ]

  -- The replies before anything is deleted: a refusal, or the ranges.
  unfoldable pub check_delete : Bool → Bool → List MsgRange → Topic → Result Reply (List Range)
  unfolding is_deleter is_reader requested refuse_ranges
  check_delete as_chan hard seq t =
      let pud = user_data t as_uid in
      if as_chan || pud.is_chan
      then err not_allowed
      else if not (is_deleter (mode pud)) && not (is_reader (mode pud))
      then err permission_denied
      else elim (requested t.last_id seq) [
        | none ↦ err malformed
        | some ranges ↦
            if hard && not (is_deleter (mode pud))
            then (elim (refuse_ranges ranges) [ none ↦ ok ranges | some x ↦ err x ])
            else ok ranges
      ]

  -- pud.delID = t.delID
  abbrev pub mark_deleted : ℕ → Option PerUserData → Option PerUserData
  mark_deleted del_id none = none
  mark_deleted del_id (some pud) = some (record pud { del_id = del_id })

  -- What follows when the store has deleted the ranges.
  unfoldable pub finish_delete : Bool → List Range → Topic → Outcome
  finish_delete hard ranges t =
      let del_id = t.del_id + 1 in
      if hard
      then record {
        topic = record t {
          del_id = del_id;
          per_user = λ uid. mark_deleted del_id (t.per_user uid);
        };
        outs =
            delete_list del_id none ranges
            ∷ remove_pins ranges
            ∷ fewer_unread ranges
            ∷ pres_all del_id ranges
            ∷ reply (deleted del_id)
            ∷ [];
      }
      else record {
        topic = record t {
          del_id = del_id;
          per_user = set_user t.per_user as_uid (record (user_data t as_uid) { del_id = del_id });
        };
        outs =
            delete_list del_id (some as_uid) ranges
            ∷ pres_own del_id ranges
            ∷ reply (deleted del_id)
            ∷ [];
      }

  -- replyDelMsg; `saved` is whether `DeleteList` returns no error.
  unfoldable pub reply_del_msg : Bool → Bool → Bool → List MsgRange → Topic → Outcome
  unfolding check_delete finish_delete
  reply_del_msg saved as_chan hard seq t = elim (check_delete as_chan hard seq t) [
    | err x ↦ record { topic = t; outs = reply x ∷ [] }
    | ok ranges ↦
        if saved
        then finish_delete hard ranges t
        else record { topic = t; outs = reply unknown ∷ [] }
  ]
