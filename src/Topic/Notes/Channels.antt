-- ===== src/Topic/Notes/Channels.antt =====
-- Notices that name the channel of a topic.
use server_chat.Common.{ℕ, ◌≡◌, refl, Bool, true, not, Bool-cases, inl, inr, ltb, leb}
use server_chat.Access.{is_reader}
use server_chat.Topic.{Topic, PerUserData, is_inactive}
use server_chat.Topic.Notes.{
  What, kp, read, recv, react, pin, call, other, Request, mark_read, mark_recv, note_read,
  note_recv, on_what, handle_note,
}

module _ (saved : Bool) (req : Request) (as_uid : ℕ) (t : Topic) where
  note_read-channel : (pud : PerUserData) → (note_read saved true req as_uid t pud).topic ≡ t
  unfolding note_read mark_read
  note_read-channel pud = elim (Bool-cases (leb req.seq_id pud.read_id)) [
    | inl e ↦ rw (e, note_read)
    | inr e ↦ (elim (Bool-cases saved) [
      | inl q ↦ rw (e, q, note_read)
      | inr q ↦ rw (e, q, note_read)
    ])
  ]

  note_recv-channel : (pud : PerUserData) → (note_recv saved true req as_uid t pud).topic ≡ t
  unfolding note_recv mark_recv
  note_recv-channel pud = elim (Bool-cases (leb req.seq_id pud.recv_id)) [
    | inl e ↦ rw (e, note_recv)
    | inr e ↦ (elim (Bool-cases saved) [
      | inl q ↦ rw (e, q, note_recv)
      | inr q ↦ rw (e, q, note_recv)
    ])
  ]

  on_what-channel :
      (what : What) (pud : PerUserData) (m : ℕ)
      → (on_what saved true req as_uid t what pud m).topic ≡ t
  unfolding on_what
  on_what-channel kp pud m = refl
  on_what-channel read pud m = elim (Bool-cases (is_reader m)) [
    | inl e ↦ rw e (note_read-channel pud)
    | inr e ↦ rw e
  ]
  on_what-channel recv pud m = elim (Bool-cases (is_reader m)) [
    | inl e ↦ rw e (note_recv-channel pud)
    | inr e ↦ rw e
  ]
  on_what-channel react pud m = elim (Bool-cases (is_reader m)) [ inl e ↦ rw e | inr e ↦ rw e ]
  on_what-channel pin pud m = elim (Bool-cases (is_reader m)) [ inl e ↦ rw e | inr e ↦ rw e ]
  on_what-channel call pud m = refl
  on_what-channel other pud m = refl

  -- Whatever the notice and the answer of the database, a notice that names the channel leaves the
  -- topic, with the marks that it keeps of the user, as it was.
  pub handle_note-channel : (handle_note saved true req as_uid t).topic ≡ t
  unfolding handle_note
  handle_note-channel = elim (Bool-cases (is_inactive t)) [
    | inl e ↦ rw e
    | inr e ↦ (elim (Bool-cases (ltb t.last_id req.seq_id)) [
      | inl p ↦ rw (e, p)
      | inr p ↦ (elim (Bool-cases (not t.is_chan)) [
        | inl q ↦ rw (e, p, q)
        | inr q ↦ rw (e, p, q) (on_what-channel req.what _ _)
      ])
    ])
  ]
