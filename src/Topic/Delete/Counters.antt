-- ===== src/Topic/Delete/Counters.antt =====
-- The ids of deletions: that of the topic, and those that its users have seen.
use server_chat.Common.{
  ℕ, ◌+◌, ◌≤◌, ◌≡◌, refl, arith, Bool, true, false, Bool-cases, Option, Option-cases, inl, inr,
  List, ◌==◌,
}
use server_chat.Common.Result.{Result, Result-cases}
use server_chat.Ranges.{Range}
use server_chat.Topic.{Topic, user_data, set_user, or_no_data}
use server_chat.Topic.Store.{StoreErr}
use server_chat.Topic.Delete.{MsgRange, check_delete, finish_delete, mark_deleted, reply_del_msg}

-- No user has seen a deletion that the topic has not counted.
abbrev pub IsCounted : Topic → Type 0
IsCounted t = (uid : ℕ) → (user_data t uid).del_id ≤ t.del_id

-- The messages and the users of the topic stay, and its deletions go on.
abbrev pub Follows : Topic → Topic → Type 0
Follows t t' = (t'.last_id ≡ t.last_id) × (t.del_id ≤ t'.del_id) × IsCounted t'

module _ (sender : ℕ → Result StoreErr (Option ℕ)) (as_uid : ℕ) (t : Topic)
    (ok_t : IsCounted t) where
  stays : Follows t t
  stays = (refl, omega arith, ok_t)

  finish_delete-Follows :
      (hard : Bool) (ranges : List Range)
      → Follows t (finish_delete sender as_uid hard ranges t).topic
  unfolding finish_delete
  finish_delete-Follows true ranges = (refl, omega arith, one)
    where
      one :
          (uid : ℕ)
          → (or_no_data (mark_deleted sender as_uid (t.del_id + 1) (t.per_user uid))).del_id
            ≤ t.del_id + 1
      one uid = elim (Option-cases (t.per_user uid)) [
        | inl e ↦ rw e (omega arith)
        | inr (pud, e) ↦ rw e (omega arith)
      ]
  finish_delete-Follows false ranges = (refl, omega arith, one)
    where
      one :
          (uid : ℕ)
          → (or_no_data (
              set_user t.per_user as_uid
                (record (user_data t as_uid) { del_id = t.del_id + 1 })
                uid)).del_id
            ≤ t.del_id + 1
      one uid = elim (Bool-cases (as_uid == uid)) [
        | inl e ↦ rw e (omega arith)
        | inr e ↦ rw e (let k = ok_t uid in omega arith)
      ]

  -- If no user of a topic has seen a deletion that the topic has not counted, then after a request
  -- to delete, whatever its checks and the database answer, this holds again, the count of
  -- deletions has not gone back and the last id is the same.
  pub reply_del_msg-Follows :
      (saved as_chan hard : Bool) (seq : List MsgRange)
      → Follows t (reply_del_msg sender as_uid saved as_chan hard seq t).topic
  unfolding reply_del_msg
  reply_del_msg-Follows saved as_chan hard seq =
      elim (Result-cases (check_delete sender as_uid as_chan hard seq t)) [
        | inr (x, e) ↦ rw (e, reply_del_msg) stays
        | inl (ranges, e) ↦ (elim (Bool-cases saved) [
          | inl q ↦ rw (e, reply_del_msg, q) (finish_delete-Follows hard ranges)
          | inr q ↦ rw (e, reply_del_msg, q) stays
        ])
      ]
