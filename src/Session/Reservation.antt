-- ===== src/Session/Reservation.antt =====
-- internal/server/session_queue.go and session_serialize.go: the bytes that are reserved, and the items of
-- the queue.
use server_chat.Common.{ℕ, ◌+◌, ◌≤◌, ◌≡◌, true, false, List, [], ◌∷◌, ◌++◌}
use server_chat.Session.{reserved_size, send_queue_limit, reserve_outbound, release_outbound}

-- What the items of a queue have reserved.
abbrev pub reserved : List ℕ → ℕ
reserved [] = 0
reserved (size ∷ queue) = reserved_size size + reserved queue

-- The sizes of the items of the queue and of those that are being written, and sendPendingBytes.
-- Each operation on the counter is one atomic step.
pub record Queue : Type 0 where
  pub items : List ℕ
  pub pending : ℕ

pub data Step (q : Queue) : Queue → Type 0 where
  -- An item finds room: it is queued.
  queue_out :
      (size : ℕ)
      → (reserve_outbound size q.pending).1 ≡ true
      → Step q (record { items = size ∷ q.items; pending = (reserve_outbound size q.pending).0 })
  -- It finds none: it is dropped.
  overflow :
      (size : ℕ)
      → (reserve_outbound size q.pending).1 ≡ false
      → Step q (record q { pending = (reserve_outbound size q.pending).0 })
  -- An item has been written, or was dropped since the channel is full, or purged.
  release :
      (before after : List ℕ) (size : ℕ)
      → q.items ≡ before ++ size ∷ after
      → Step q (record { items = before ++ after; pending = release_outbound size q.pending })

pub data Reach (q : Queue) : Queue → Type 0 where
  here : Reach q q
  next : {r s : Queue} → Reach q r → Step r s → Reach q s

-- The counter is exact, and within the limit.
abbrev pub IsExact : Queue → Type 0
IsExact q = (q.pending ≡ reserved q.items) × (q.pending ≤ send_queue_limit)
