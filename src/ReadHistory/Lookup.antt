-- ===== src/ReadHistory/Lookup.antt =====
-- server/store/types/read_history.go: what is found after a reading was recorded.
use server_chat.Common.{
  ℕ, ◌-◌, ◌≤◌, ◌<◌, ◌≡◌, refl, inl, inr, arith, true, false, ◌||◌, Bool-cases, none, some, List, [],
  ◌∷◌, ◌++◌, ◌==◌, ltb, length, length-append, zero, suc,
}
use server_chat.ReadHistory.{
  ReadCheckpoint, max_read_history_checkpoints, not_before, drop, latest, append, has_id, time_for,
}

length-drop : (n : ℕ) (h : List ReadCheckpoint) → length (drop n h) ≡ length h - n
length-drop zero h = omega arith
length-drop (suc n) [] = omega arith
length-drop (suc n) (c ∷ h) = omega (arith, length-drop n h)

latest-length : (h : List ReadCheckpoint) → length (latest h) ≤ max_read_history_checkpoints
unfolding latest
latest-length h = elim (Bool-cases (ltb max_read_history_checkpoints (length h))) [
  | inl e ↦ rw (e, length-drop) (ground arith)
  | inr e ↦ rw e (ground arith)
]

-- A message that was not found is not found among fewer checkpoints.
time_for-not_before :
    (seq_id cutoff : ℕ) (h : List ReadCheckpoint)
    → time_for seq_id h ≡ none
    → time_for seq_id (not_before cutoff h) ≡ none
time_for-not_before seq_id cutoff [] e = refl
time_for-not_before seq_id cutoff (c ∷ h) e = elim (Bool-cases (has_id seq_id c)) [
  | inl a ↦ absurd (let k = rw a at e in cc)
  | inr a ↦
      let rest = time_for-not_before seq_id cutoff h (rw a at e) in
      (elim (Bool-cases (ltb c.read_at cutoff)) [ inl b ↦ rw b rest | inr b ↦ rw (b, a) rest ])
]

not_found :
    (seq_id : ℕ) (c : ReadCheckpoint) (h : List ReadCheckpoint)
    → time_for seq_id (c ∷ h) ≡ none
    → (has_id seq_id c ≡ false) × (time_for seq_id h ≡ none)
not_found seq_id c h e = elim (Bool-cases (has_id seq_id c)) [
  | inl a ↦ absurd (let k = rw a at e in cc)
  | inr a ↦ (a, rw a at e)
]

-- Behind checkpoints without it, a message is found in the new one.
time_for-last :
    (seq_id n : ℕ) (h : List ReadCheckpoint) (new : ReadCheckpoint)
    → n ≤ length h
    → time_for seq_id h ≡ none
    → has_id seq_id new ≡ true
    → time_for seq_id (drop n (h ++ new ∷ [])) ≡ some new.read_at
time_for-last seq_id zero [] new l e a = rw a refl
time_for-last seq_id (suc n) [] new l e a = absurd (omega arith)
time_for-last seq_id zero (c ∷ h) new l e a =
    let (miss, rest) = not_found seq_id c h e in
    rw miss (time_for-last seq_id 0 h new (omega arith) rest a)
time_for-last seq_id (suc n) (c ∷ h) new l e a =
    time_for-last seq_id n h new (omega arith) (not_found seq_id c h e).1 a

latest-last :
    (seq_id : ℕ) (h : List ReadCheckpoint) (new : ReadCheckpoint)
    → time_for seq_id h ≡ none
    → has_id seq_id new ≡ true
    → time_for seq_id (latest (h ++ new ∷ [])) ≡ some new.read_at
unfolding latest
latest-last seq_id h new e a =
    let n = length-append h (new ∷ []) in
    elim (Bool-cases (ltb max_read_history_checkpoints (length (h ++ new ∷ [])))) [
      | inl m ↦ rw m (
          time_for-last seq_id (length (h ++ new ∷ []) - max_read_history_checkpoints) h new
            (omega (arith, n)) e a)
      | inr m ↦ rw m (time_for-last seq_id 0 h new (omega arith) e a)
    ]

-- After a reading is recorded whose ids are positive, the history has no more checkpoints than the
-- maximum, and a message of the reading that was not found before is found with the time of this
-- reading, whatever the cutoff drops.
pub append-time_for :
    (seq_id cutoff : ℕ) (h : List ReadCheckpoint) (new : ReadCheckpoint)
    → 0 < new.low_seq_id
    → has_id seq_id new ≡ true
    → time_for seq_id h ≡ none
    → (time_for seq_id (append new cutoff h) ≡ some new.read_at)
      × (length (append new cutoff h) ≤ max_read_history_checkpoints)
unfolding append
append-time_for seq_id cutoff h new low a e =
    let wrong : (new.low_seq_id == 0 || ltb new.high_seq_id new.low_seq_id) ≡ false =
      ground arith in
    rw wrong (
      latest-last seq_id (not_before cutoff h) new (time_for-not_before seq_id cutoff h e) a,
      latest-length (not_before cutoff h ++ new ∷ []),
    )
