-- ===== src/Topic/Delete/Entries.antt =====
-- What an entry of a deletion request stands for.
use server_chat.Common.{ℕ, ◌+◌, ◌≡◌, arith, max, true, ◌&&◌, ltb, leb}
use server_chat.Ranges.{covers}
use server_chat.Topic.Delete.{MsgRange, is_valid, to_range}

-- The range of a valid entry covers exactly the ids from its start on that are below its end, or
-- are its start, and are not above the last id of the topic.
pub to_range-covers :
    (last_id : ℕ) (dq : MsgRange) (id : ℕ)
    → is_valid last_id dq ≡ true
    → covers (to_range last_id dq) id
      ≡ (leb dq.low_id id && ltb id (max dq.hi_id (dq.low_id + 1)) && leb id last_id)
unfolding is_valid to_range
to_range-covers last_id dq id h = ground arith
