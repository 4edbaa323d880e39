-- ===== src/Topic/Notes/Updates.antt =====
-- internal/server/topic_msg.go: the marks that a notice asks the store to write.
use server_chat.Common.{
  ℕ, ◌≤◌, ◌<◌, ◌≡◌, ◌⊎◌, refl, Bool, true, false, not, ◌&&◌, ◌||◌, Bool-cases, inl, inr, List, [],
  ◌∷◌, ◌++◌, All, All-append, arith, ltb, leb, if◌then◌else◌,
}
use server_chat.Access.{is_reader, is_writer}
use server_chat.Topic.{Topic, PerUserData, user_data, mode, is_inactive, is_read_only}
use server_chat.Topic.Notes.{
  What, kp, read, recv, react, pin, call, other, Request, Reply, accepted, Out, update_subs,
  pres_count, push_read, fewer_unread, with_id, mark_read, mark_recv, forward, store_marks,
  note_read, note_recv, on_what, handle_note,
}

-- No mark, or one that is beyond the old one and not beyond the last message.
abbrev pub IsNext : ℕ → ℕ → ℕ → Type 0
IsNext last_id old new = (new ≡ 0) ⊎ ((old < new) × (new ≤ last_id))

-- An update of the store with such marks, or anything else.
abbrev pub IsAsked : ℕ → PerUserData → Out → Type 0
IsAsked last_id old (update_subs recv_mark read_mark) =
    IsNext last_id old.recv_id recv_mark × IsNext last_id old.read_id read_mark
IsAsked last_id old _ = Unit

module _ (saved as_chan : Bool) (req : Request) (as_uid : ℕ) (t : Topic)
    (ok : (user_data t as_uid).read_id ≤ (user_data t as_uid).recv_id) where
  abbrev Asked : List Out → Type 0
  Asked = All (IsAsked t.last_id (user_data t as_uid))

  if-Asked : (b : Bool) (xs ys : List Out) → Asked xs → Asked ys → Asked (if b then xs else ys)
  if-Asked true xs ys h k = h
  if-Asked false xs ys h k = k

  with_id-Asked : (r : Reply) → Asked (with_id req r)
  with_id-Asked r = if-Asked req.has_id _ _ (tt, tt) tt

  forward-Asked : (seq : ℕ) → Asked (forward saved as_chan req as_uid t seq)
  unfolding forward
  forward-Asked seq = if-Asked as_chan _ _ tt (tt, (tt, tt))

  store_marks-Asked :
      (pud : PerUserData) (a b c d : ℕ)
      → IsNext t.last_id (user_data t as_uid).recv_id a
      → IsNext t.last_id (user_data t as_uid).read_id b
      → Asked (store_marks saved as_chan req as_uid t pud a b c d).outs
  unfolding store_marks
  store_marks-Asked pud a b c d h k = elim (Bool-cases saved) [
    | inl e ↦
        let push = if ltb 0 b then push_read b ∷ [] else [] in
        let fewer = if as_chan then [] else fewer_unread c ∷ [] in
        let written = update_subs a b ∷ pres_count b a ∷ push in
        let P = IsAsked t.last_id (user_data t as_uid) in
        rw e (
          All-append P (written ++ fewer ++ with_id req (accepted d)) _
            (All-append P (written ++ fewer) _
              (All-append P written fewer ((h, k), (tt, if-Asked (ltb 0 b) _ _ (tt, tt) tt))
                (if-Asked as_chan _ _ tt (tt, tt)))
              (with_id-Asked (accepted d)))
            (forward-Asked d))
    | inr e ↦ rw e ((h, k), with_id-Asked _)
  ]

  note_read-Asked :
      req.seq_id ≤ t.last_id
      → Asked (note_read saved as_chan req as_uid t (user_data t as_uid)).outs
  unfolding note_read mark_read
  note_read-Asked h = elim (Bool-cases (leb req.seq_id (user_data t as_uid).read_id)) [
    | inl e ↦ rw (e, note_read) (with_id-Asked _)
    | inr e ↦ rw (e, note_read) (store_marks-Asked _ _ _ _ _ (inl refl) (ground arith))
  ]

  note_recv-Asked :
      req.seq_id ≤ t.last_id
      → Asked (note_recv saved as_chan req as_uid t (user_data t as_uid)).outs
  unfolding note_recv mark_recv
  note_recv-Asked h = elim (Bool-cases (leb req.seq_id (user_data t as_uid).recv_id)) [
    | inl e ↦ rw (e, note_recv) (with_id-Asked _)
    | inr e ↦ rw (e, note_recv) (store_marks-Asked _ _ _ _ _ (ground arith) (inl refl))
  ]

  on_what-Asked :
      (what : What) (m : ℕ)
      → req.seq_id ≤ t.last_id
      → Asked (on_what saved as_chan req as_uid t what (user_data t as_uid) m).outs
  unfolding on_what
  on_what-Asked kp m h =
      let pud = user_data t as_uid in
      elim (Bool-cases
        (as_chan || (pud.is_chan || (not (is_writer (mode pud)) || is_read_only t)))) [
          | inl e ↦ rw e tt
          | inr e ↦ rw e (forward-Asked 0)
        ]
  on_what-Asked read m h = elim (Bool-cases (is_reader m)) [
    | inl e ↦ rw e (note_read-Asked h)
    | inr e ↦ rw e (with_id-Asked _)
  ]
  on_what-Asked recv m h = elim (Bool-cases (is_reader m)) [
    | inl e ↦ rw e (note_recv-Asked h)
    | inr e ↦ rw e (with_id-Asked _)
  ]
  on_what-Asked react m h = elim (Bool-cases (is_reader m)) [
    | inl e ↦ rw e (tt, tt)
    | inr e ↦ rw e (with_id-Asked _)
  ]
  on_what-Asked pin m h = elim (Bool-cases (is_reader m)) [
    | inl e ↦ rw e (tt, tt)
    | inr e ↦ rw e (with_id-Asked _)
  ]
  on_what-Asked call m h = (tt, tt)
  on_what-Asked other m h = forward-Asked 0

  pub handle_note-Asked : Asked (handle_note saved as_chan req as_uid t).outs
  unfolding handle_note
  handle_note-Asked = elim (Bool-cases (is_inactive t)) [
    | inl e ↦ rw e (with_id-Asked _)
    | inr e ↦ (elim (Bool-cases (ltb t.last_id req.seq_id)) [
      | inl p ↦ rw (e, p) (with_id-Asked _)
      | inr p ↦ (elim (Bool-cases (as_chan && not t.is_chan)) [
        | inl q ↦ rw (e, p, q) (with_id-Asked _)
        | inr q ↦ rw (e, p, q) (on_what-Asked req.what _ (ground arith))
      ])
    ])
  ]
