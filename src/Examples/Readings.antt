-- ===== src/Examples/Readings.antt =====
-- The history of readings: the theorem on a history with one checkpoint.
use server_chat.Common.{◌≤◌, ◌≡◌, refl, arith, some, List, [], ◌∷◌, length}
use server_chat.ReadHistory.{ReadCheckpoint, max_read_history_checkpoints, append, time_for}
use server_chat.ReadHistory.Lookup.{append-time_for}

-- The messages 1 to 4 were read at time 10, and 5 to 7 at time 20.
abbrev earlier : List ReadCheckpoint
earlier = record { low_seq_id = 1; high_seq_id = 4; read_at = 10 } ∷ []

abbrev reading : ReadCheckpoint
reading = record { low_seq_id = 5; high_seq_id = 7; read_at = 20 }

append-time_for_example :
    (time_for 6 (append reading 0 earlier) ≡ some 20)
    × (length (append reading 0 earlier) ≤ max_read_history_checkpoints)
append-time_for_example = append-time_for 6 0 earlier reading (omega arith) refl refl
