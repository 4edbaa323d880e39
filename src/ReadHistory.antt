-- ===== src/ReadHistory.antt =====
-- server/store/types/read_history.go: when a subscriber first read a message. A time is a number.
pub mod Lookup
use server_chat.Common.{
  ℕ, ◌-◌, Bool, true, false, not, ◌&&◌, ◌||◌, Option, none, some, List, [], ◌∷◌, ◌++◌, ◌==◌, ltb,
  leb, length, zero, suc, if◌then◌else◌,
}

-- ReadCheckpoint
pub record ReadCheckpoint : Type 0 where
  pub low_seq_id : ℕ
  pub high_seq_id : ℕ
  pub read_at : ℕ

abbrev pub max_read_history_checkpoints : ℕ
max_read_history_checkpoints = 4096

-- The loop over the checkpoints that are not before the cutoff.
abbrev pub not_before : ℕ → List ReadCheckpoint → List ReadCheckpoint
not_before cutoff [] = []
not_before cutoff (c ∷ history) =
    let rest = not_before cutoff history in if ltb c.read_at cutoff then rest else c ∷ rest

-- history[n:]
abbrev pub drop : ℕ → List ReadCheckpoint → List ReadCheckpoint
drop zero history = history
drop (suc n) [] = []
drop (suc n) (c ∷ history) = drop n history

-- The last checkpoints, no more than the maximum.
unfoldable pub latest : List ReadCheckpoint → List ReadCheckpoint
latest history =
    if ltb max_read_history_checkpoints (length history)
    then drop (length history - max_read_history_checkpoints) history
    else history

-- ReadHistory.Append
unfoldable pub append : ReadCheckpoint → ℕ → List ReadCheckpoint → List ReadCheckpoint
append new cutoff history =
    if new.low_seq_id == 0 || ltb new.high_seq_id new.low_seq_id
    then history
    else latest (not_before cutoff history ++ new ∷ [])

abbrev pub has_id : ℕ → ReadCheckpoint → Bool
has_id seq_id c = leb c.low_seq_id seq_id && leb seq_id c.high_seq_id

-- ReadHistory.TimeFor
abbrev pub time_for : ℕ → List ReadCheckpoint → Option ℕ
time_for seq_id [] = none
time_for seq_id (c ∷ history) = if has_id seq_id c then some c.read_at else time_for seq_id history
