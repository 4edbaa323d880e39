-- ===== src/Examples/Sessions.antt =====
-- The send queue of a session: the theorems on concrete messages.
use server_chat.Common.{◌≤◌, ◌≡◌, refl, arith, true, List, [], ◌∷◌, All}
use server_chat.Common.Bytes.{Bytes, codes}
use server_chat.Session.{serialize_batch, total_size, json_batch_queue_size}
use server_chat.Session.Frames.{serialize_batch-total_size}
use server_chat.Session.Bounds.{IsBounded, serialize_batch-IsBounded}
use server_chat.Session.Envelope.{one_by_one, json_batch_queue_size-le}
use server_chat.Session.Reservation.{Queue}

abbrev two_messages : List Bytes
two_messages = codes "{}" ∷ codes "{\"a\":1}" ∷ []

one_frame : serialize_batch two_messages ≡ codes "{\"batch\":[{},{\"a\":1}]}" ∷ []
unfolding serialize_batch
one_frame = refl

serialize_batch-total_size_example :
    total_size (serialize_batch two_messages) ≡ json_batch_queue_size two_messages true
serialize_batch-total_size_example =
    serialize_batch-total_size two_messages (omega arith, (omega arith, tt))

batch_no_larger : json_batch_queue_size two_messages true ≤ one_by_one two_messages
batch_no_larger = json_batch_queue_size-le two_messages

abbrev empty_queue : Queue
empty_queue = record { items = []; pending = 0 }

batch-IsBounded : All (IsBounded two_messages) (serialize_batch two_messages)
batch-IsBounded = serialize_batch-IsBounded two_messages
