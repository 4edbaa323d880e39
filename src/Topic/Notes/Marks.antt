-- ===== src/Topic/Notes/Marks.antt =====
-- The marks of what a user has received and read.
use server_chat.Common.{
  ℕ, ◌≤◌, ◌≡◌, refl, Bool, not, ◌&&◌, Bool-cases, inl, inr, arith, All, ◌==◌, ==_iff, ltb, leb,
}
use server_chat.Access.{is_reader}
use server_chat.Topic.{is_inactive, Topic, PerUserData, user_data, set_user, or_no_data}
use server_chat.Topic.Notes.{
  What, kp, read, recv, react, pin, call, other, Request, mark_read, mark_recv, store_marks,
  note_read, note_recv, on_what, Outcome, handle_note,
}
use server_chat.Topic.Notes.Effect.{HasMarks, is_taken, handle_note-HasMarks}
use server_chat.Topic.Notes.Updates.{IsAsked, handle_note-Asked}

-- Nothing is read that has not been received, and nothing is received that has not been sent.
abbrev pub IsMarked : ℕ → PerUserData → Type 0
IsMarked last_id pud = (pud.read_id ≤ pud.recv_id) × (pud.recv_id ≤ last_id)

-- The marks of one user go forward, or stay.
abbrev pub IsForward : PerUserData → PerUserData → Type 0
IsForward old new = (old.read_id ≤ new.read_id) × (old.recv_id ≤ new.recv_id)

-- A step from the topic `t`: the last id stays, and the marks of each user are right and go forward.
abbrev pub Advances : Topic → Topic → Type 0
Advances t t' =
    (t'.last_id ≡ t.last_id)
    × ((uid : ℕ)
        → IsMarked t.last_id (user_data t' uid) × IsForward (user_data t uid) (user_data t' uid))

module _ (saved as_chan : Bool) (req : Request) (as_uid : ℕ) (t : Topic)
    (ok : (uid : ℕ) → IsMarked t.last_id (user_data t uid)) where
  stays : Advances t t
  stays = (refl, λ uid. (ok uid, (omega arith, omega arith)))

  set_user-Advances :
      (pud : PerUserData)
      → IsMarked t.last_id pud
      → IsForward (user_data t as_uid) pud
      → Advances t (record t { per_user = set_user t.per_user as_uid pud })
  set_user-Advances pud m f = (refl, one)
    where
      one :
          (uid : ℕ)
          → IsMarked t.last_id (or_no_data (set_user t.per_user as_uid pud uid))
            × IsForward (user_data t uid) (or_no_data (set_user t.per_user as_uid pud uid))
      one uid = elim (Bool-cases (as_uid == uid)) [
        | inl e ↦ rw (e, ← (==_iff as_uid uid).0 e) (m, f)
        | inr e ↦ rw e (ok uid, (omega arith, omega arith))
      ]

  store_marks-Advances :
      (pud : PerUserData) (a b c d : ℕ)
      → IsMarked t.last_id pud
      → IsForward (user_data t as_uid) pud
      → Advances t (store_marks saved as_chan req as_uid t pud a b c d).topic
  unfolding store_marks
  store_marks-Advances pud a b c d m f = elim (Bool-cases saved) [
    | inl e ↦ (elim (Bool-cases as_chan) [
      | inl h ↦ rw (e, h) stays
      | inr h ↦ rw (e, h) (set_user-Advances pud m f)
    ])
    | inr e ↦ rw e stays
  ]

  note_read-Advances :
      req.seq_id ≤ t.last_id
      → Advances t (note_read saved as_chan req as_uid t (user_data t as_uid)).topic
  unfolding note_read mark_read
  note_read-Advances h = elim (Bool-cases (leb req.seq_id (user_data t as_uid).read_id)) [
    | inl e ↦ rw (e, note_read) stays
    | inr e ↦
        rw (e, note_read)
          (let k = ok as_uid in store_marks-Advances _ _ _ _ _ (ground arith) (ground arith))
  ]

  note_recv-Advances :
      req.seq_id ≤ t.last_id
      → Advances t (note_recv saved as_chan req as_uid t (user_data t as_uid)).topic
  unfolding note_recv mark_recv
  note_recv-Advances h = elim (Bool-cases (leb req.seq_id (user_data t as_uid).recv_id)) [
    | inl e ↦ rw (e, note_recv) stays
    | inr e ↦
        rw (e, note_recv)
          (let k = ok as_uid in store_marks-Advances _ _ _ _ _ (ground arith) (ground arith))
  ]

  on_what-Advances :
      (what : What) (m : ℕ)
      → req.seq_id ≤ t.last_id
      → Advances t (on_what saved as_chan req as_uid t what (user_data t as_uid) m).topic
  unfolding on_what
  on_what-Advances kp m h = ground arith
  on_what-Advances read m h = elim (Bool-cases (is_reader m)) [
    | inl e ↦ rw e (note_read-Advances h)
    | inr e ↦ rw e stays
  ]
  on_what-Advances recv m h = elim (Bool-cases (is_reader m)) [
    | inl e ↦ rw e (note_recv-Advances h)
    | inr e ↦ rw e stays
  ]
  on_what-Advances react m h = elim (Bool-cases (is_reader m)) [
    | inl e ↦ rw e stays
    | inr e ↦ rw e stays
  ]
  on_what-Advances pin m h = elim (Bool-cases (is_reader m)) [
    | inl e ↦ rw e stays
    | inr e ↦ rw e stays
  ]
  on_what-Advances call m h = stays
  on_what-Advances other m h = stays

-- What a notice does to the marks of all users, to those of its own user, and to the stored ones.
pub record Progress (saved names_channel : Bool) (req : Request) (uid : ℕ) (t : Topic) (o : Outcome)
    : Type 0 where
  advances : Advances t o.topic
  own :
      HasMarks saved names_channel req uid t req.what
        (is_taken saved names_channel req uid t)
        (user_data o.topic uid)
  asked : All (IsAsked t.last_id (user_data t uid)) o.outs

handle_note-Advances :
    (saved names_channel : Bool) (req : Request) (as_uid : ℕ) (t : Topic)
    → ((uid : ℕ) → IsMarked t.last_id (user_data t uid))
    → Advances t (handle_note saved names_channel req as_uid t).topic
unfolding handle_note
handle_note-Advances saved names_channel req as_uid t ok = elim (Bool-cases (is_inactive t)) [
  | inl e ↦ rw e (stays saved names_channel req as_uid t ok)
  | inr e ↦ (elim (Bool-cases (ltb t.last_id req.seq_id)) [
    | inl p ↦ rw (e, p) (stays saved names_channel req as_uid t ok)
    | inr p ↦ (elim (Bool-cases (names_channel && not t.is_chan)) [
      | inl q ↦ rw (e, p, q) (stays saved names_channel req as_uid t ok)
      | inr q ↦
          rw (e, p, q)
            (on_what-Advances saved names_channel req as_uid t ok req.what _ (ground arith))
    ])
  ])
]

-- If each user of a topic has read no more than it has received, and received no more than was
-- sent, by the marks that the topic keeps, then after any notice the last id is the same, this
-- holds again, and no mark that the topic keeps of any user has gone back; where the topic is
-- active, the id is not beyond the last, the notice does not name the channel, its user may read
-- and the store takes the update, the user's marks of what is received, and for a notice of reading
-- also of what is read, become the id if they were smaller, and else, and for other notices, the
-- user's marks stay; and each mark that the store is asked to write is beyond the one that the
-- topic has kept of the user, and not beyond the last id.
pub handle_note-Progress :
    (saved names_channel : Bool) (req : Request) (as_uid : ℕ) (t : Topic)
    → ((uid : ℕ) → IsMarked t.last_id (user_data t uid))
    → Progress saved names_channel req as_uid t (handle_note saved names_channel req as_uid t)
handle_note-Progress saved names_channel req as_uid t ok = record {
  advances = handle_note-Advances saved names_channel req as_uid t ok;
  own = handle_note-HasMarks saved names_channel req as_uid t (ok as_uid).0;
  asked = handle_note-Asked saved names_channel req as_uid t (ok as_uid).0;
}
