-- ===== src/Session/Envelope.antt =====
-- internal/server/session_queue.go and session_serialize.go: the size of a batch, and of its messages one by one.
use server_chat.Common.{
  ℕ, ◌+◌, ◌≤◌, ◌<◌, ◌≡◌, refl, arith, true, inl, inr, ◌⊎◌, List, [], ◌∷◌, length,
}
use server_chat.Common.Bytes.{Bytes}
use server_chat.Session.{Tally, open_next, add_size, add_all, finish_tally, json_batch_queue_size}

-- What is reserved for messages that are queued one by one.
unfoldable pub one_by_one : List Bytes → ℕ
one_by_one [] = 0
one_by_one (raw ∷ msgs) = json_batch_queue_size (raw ∷ []) true + one_by_one msgs

single-size : (raw : Bytes) → json_batch_queue_size (raw ∷ []) true ≡ length raw + 12
unfolding json_batch_queue_size open_next
single-size raw = omega arith

-- A frame without messages has no bytes.
abbrev IsTidy : Tally → Type 0
IsTidy y = (y.current ≡ 0) ⊎ (0 < y.count)

add_size-le :
    (size : ℕ) (y : Tally)
    → IsTidy y
    → finish_tally (add_size size y) ≤ finish_tally y + (size + 12)
unfolding add_size finish_tally
add_size-le size y t = ground arith

open_next-le : (size : ℕ) (y : Tally) → finish_tally (open_next size y) ≤ finish_tally y
unfolding open_next finish_tally
open_next-le size y = ground arith

open_next-IsTidy : (size : ℕ) (y : Tally) → IsTidy y → IsTidy (open_next size y)
unfolding open_next
open_next-IsTidy size y t = ground arith

add_size-IsTidy : (size : ℕ) (y : Tally) → IsTidy (add_size size y)
unfolding add_size
add_size-IsTidy size y = inr (omega arith)

add_all-le :
    (msgs : List Bytes) (y : Tally)
    → IsTidy y
    → finish_tally (add_all msgs y) ≤ finish_tally y + one_by_one msgs
unfolding add_all one_by_one
add_all-le [] y t = omega arith
add_all-le (raw ∷ msgs) y t =
    let y1 = open_next (length raw) y in
    omega (
      arith,
      single-size raw,
      open_next-le (length raw) y,
      add_size-le (length raw) y1 (open_next-IsTidy (length raw) y t),
      add_all-le msgs (add_size (length raw) y1) (add_size-IsTidy (length raw) y1),
    )

empty-size : finish_tally (record { total = 0; current = 0; count = 0 }) ≡ 0
unfolding finish_tally
empty-size = refl

-- The size that is reserved for a batch is at most the sum of the sizes that are reserved for its
-- messages when each is queued as a batch of its own.
pub json_batch_queue_size-le :
    (msgs : List Bytes) → json_batch_queue_size msgs true ≤ one_by_one msgs
unfolding json_batch_queue_size
json_batch_queue_size-le msgs =
    omega
      (arith, empty-size, add_all-le msgs (record { total = 0; current = 0; count = 0 }) (inl refl))
