-- ===== src/Session.antt =====
-- internal/server/session_queue.go and session_serialize.go: what a session writes for a batch of
-- messages, what it reserves for them in its send queue, and the reservation itself. A message is
-- the text that `serializedJSON` gives.
pub mod Frames
pub mod Envelope
pub mod Reservation
pub mod Bounds
use server_chat.Common.{
  ℕ, ◌+◌, ◌-◌, Bool, true, false, ◌&&◌, List, [], ◌∷◌, ◌++◌, ◌==◌, ltb, if◌then◌else◌, length,
}
use server_chat.Common.Bytes.{Bytes, codes}

-- maxJSONBatchFrameSize, 256 << 10
abbrev pub max_frame_size : ℕ
max_frame_size = 262144

-- sendQueueByteLimit, 8 << 20
abbrev pub send_queue_limit : ℕ
send_queue_limit = 8388608

abbrev pub prefix : Bytes
prefix = codes "{\"batch\":["

abbrev pub suffix : Bytes
suffix = codes "]}"

-- The variables of `serializeBatchAndUpdateStats`.
pub record Writer : Type 0 where
  pub frames : List Bytes
  pub buffer : Bytes
  pub count : ℕ

unfoldable pub flush : Writer → Writer
flush w =
    if w.count == 0
    then w
    else record { frames = w.frames ++ (w.buffer ++ suffix) ∷ []; buffer = prefix; count = 0 }

-- `separatorSize`
abbrev pub separator : ℕ → ℕ
separator count = if ltb 0 count then 1 else 0

-- The flush before a message that does not fit.
unfoldable pub make_room : Bytes → Writer → Writer
unfolding flush
make_room raw w =
    if ltb 0 w.count
      && ltb max_frame_size (length w.buffer + separator w.count + length raw + length suffix)
    then flush w
    else w

unfoldable pub write : Bytes → Writer → Writer
write raw w = record w {
  buffer = (if ltb 0 w.count then w.buffer ++ codes "," else w.buffer) ++ raw;
  count = w.count + 1;
}

-- One round of the loop.
unfoldable pub put : Bytes → Writer → Writer
unfolding make_room write
put raw w = if length raw == 0 then w else write raw (make_room raw w)

unfoldable pub put_all : List Bytes → Writer → Writer
unfolding put
put_all [] w = w
put_all (raw ∷ msgs) w = put_all msgs (put raw w)

-- serializeBatchAndUpdateStats for a session that takes JSON: the frames. (Without messages the
-- loop has nothing to flush, and there is no frame either.)
unfoldable pub serialize_batch : List Bytes → List Bytes
unfolding put_all flush
serialize_batch msgs =
    (flush (put_all msgs (record { frames = []; buffer = prefix; count = 0 }))).frames

-- The variables of `jsonBatchQueueSize`.
pub record Tally : Type 0 where
  pub total : ℕ
  pub current : ℕ
  pub count : ℕ

abbrev pub closed : Tally → ℕ
closed y = y.total + (length prefix + y.current + length suffix)

unfoldable pub open_next : ℕ → Tally → Tally
open_next size y =
    if ltb 0 y.count
      && ltb max_frame_size (length prefix + y.current + separator y.count + size + length suffix)
    then record { total = closed y; current = 0; count = 0 }
    else y

unfoldable pub add_size : ℕ → Tally → Tally
add_size size y = record y { current = y.current + (separator y.count + size); count = y.count + 1 }

unfoldable pub add_all : List Bytes → Tally → Tally
unfolding open_next add_size
add_all [] y = y
add_all (raw ∷ msgs) y = add_all msgs (add_size (length raw) (open_next (length raw) y))

abbrev pub total_size : List Bytes → ℕ
total_size [] = 0
total_size (raw ∷ msgs) = length raw + total_size msgs

unfoldable pub finish_tally : Tally → ℕ
finish_tally y = if ltb 0 y.count then closed y else y.total

-- jsonBatchQueueSize
unfoldable pub json_batch_queue_size : List Bytes → Bool → ℕ
unfolding add_all finish_tally
json_batch_queue_size msgs batched =
    if batched
    then finish_tally (add_all msgs (record { total = 0; current = 0; count = 0 }))
    else total_size msgs

-- The size that is reserved for an item: `if size <= 0 { size = 1 }`.
abbrev pub reserved_size : ℕ → ℕ
reserved_size size = if size == 0 then 1 else size

-- reserveOutbound: sendPendingBytes, and whether the item may be queued.
unfoldable pub reserve_outbound : ℕ → ℕ → ℕ × Bool
reserve_outbound size pending =
    if ltb (send_queue_limit - pending) (reserved_size size)
    then (pending, false)
    else (pending + reserved_size size, true)

-- releaseOutbound, which stops at 0.
unfoldable pub release_outbound : ℕ → ℕ → ℕ
release_outbound size pending =
    if pending == 0
    then pending
    else if ltb pending (reserved_size size)
    then 0
    else pending - reserved_size size
