-- ===== src/Topic/Notes/Effect.antt =====
-- internal/server/topic_msg.go: the marks that the topic keeps of a user after a notice of the user.
use server_chat.Common.{
  ℕ, max, ◌≤◌, ◌≡◌, refl, Bool, true, false, not, ◌&&◌, ◌||◌, Bool-cases, inl, inr, arith, ==_iff,
  ltb, leb, if◌then◌else◌,
}
use server_chat.Access.{is_reader, is_writer}
use server_chat.Topic.{Topic, PerUserData, user_data, mode, is_inactive, is_read_only}
use server_chat.Topic.Notes.{
  What, kp, read, recv, react, pin, call, other, Request, mark_read, mark_recv, store_marks,
  note_read, note_recv, note_mode, on_what, handle_note,
}

-- What has been read has been received too.
abbrev pub new_read : What → ℕ → PerUserData → ℕ
new_read read seq pud = max pud.read_id seq
new_read _ seq pud = pud.read_id

abbrev pub new_recv : What → ℕ → PerUserData → ℕ
new_recv read seq pud = max pud.recv_id seq
new_recv recv seq pud = max pud.recv_id seq
new_recv _ seq pud = pud.recv_id

-- Whether the handler takes the marks: not for the channel, and if the database has taken them.
abbrev pub takes : Bool → Bool → Bool → Bool
takes saved as_chan may_read = saved && (not as_chan && may_read)

module _ (saved as_chan : Bool) (req : Request) (as_uid : ℕ) (t : Topic) where
  abbrev old : PerUserData
  old = user_data t as_uid

  -- The marks of the user are the new ones, or the old ones.
  abbrev pub HasMarks : What → Bool → PerUserData → Type 0
  HasMarks what b pud =
      (pud.read_id ≡ (if b then new_read what req.seq_id old else old.read_id))
      × (pud.recv_id ≡ (if b then new_recv what req.seq_id old else old.recv_id))

  same : (what : What) (b : Bool) → HasMarks what true old → HasMarks what b old
  same what true h = h
  same what false h = (refl, refl)

  refused : (what : What) → HasMarks what (takes saved as_chan false) old
  refused what = let e : takes saved as_chan false ≡ false = ground arith in rw e (refl, refl)

  not_found :
      (what : What) (b : Bool)
      → (as_chan && not t.is_chan) ≡ true
      → HasMarks what (takes saved as_chan b) old
  not_found what b h = let e : takes saved as_chan b ≡ false = ground arith in rw e (refl, refl)

  store_marks-HasMarks :
      (what : What) (pud : PerUserData) (a b c d : ℕ)
      → HasMarks what true pud
      → HasMarks what
          (takes saved as_chan true)
          (user_data (store_marks saved as_chan req as_uid t pud a b c d).topic as_uid)
  unfolding store_marks
  store_marks-HasMarks what pud a b c d h = elim (Bool-cases saved) [
    | inl e ↦ (elim (Bool-cases as_chan) [
      | inl f ↦ rw (e, f) (refl, refl)
      | inr f ↦ rw (e, f, (==_iff as_uid as_uid).1 refl) h
    ])
    | inr e ↦ rw e (refl, refl)
  ]

  -- Whether a notice changes the marks of its user.
  abbrev pub is_taken : Bool
  is_taken =
      not (is_inactive t)
      && (not (ltb t.last_id req.seq_id) && takes saved as_chan (is_reader (note_mode old)))

  module _ (ok : old.read_id ≤ old.recv_id) where
    note_read-HasMarks :
        HasMarks read
          (takes saved as_chan true)
          (user_data (note_read saved as_chan req as_uid t old).topic as_uid)
    unfolding note_read mark_read
    note_read-HasMarks = elim (Bool-cases (leb req.seq_id old.read_id)) [
      | inl e ↦ rw (e, note_read) (same read _ (ground arith, ground arith))
      | inr e ↦ rw (e, note_read) (store_marks-HasMarks read _ _ _ _ _ (ground arith, ground arith))
    ]

    note_recv-HasMarks :
        HasMarks recv
          (takes saved as_chan true)
          (user_data (note_recv saved as_chan req as_uid t old).topic as_uid)
    unfolding note_recv mark_recv
    note_recv-HasMarks = elim (Bool-cases (leb req.seq_id old.recv_id)) [
      | inl e ↦ rw (e, note_recv) (same recv _ (refl, ground arith))
      | inr e ↦ rw (e, note_recv) (store_marks-HasMarks recv _ _ _ _ _ (refl, ground arith))
    ]

    on_what-HasMarks :
        (what : What) (m : ℕ)
        → HasMarks what
            (takes saved as_chan (is_reader m))
            (user_data (on_what saved as_chan req as_uid t what old m).topic as_uid)
    unfolding on_what
    on_what-HasMarks kp m =
        elim (Bool-cases
          (as_chan || (old.is_chan || (not (is_writer (mode old)) || is_read_only t)))) [
            | inl e ↦ rw e (same kp _ (refl, refl))
            | inr e ↦ rw e (same kp _ (refl, refl))
          ]
    on_what-HasMarks read m = elim (Bool-cases (is_reader m)) [
      | inl e ↦ rw e note_read-HasMarks
      | inr e ↦ rw e (refused read)
    ]
    on_what-HasMarks recv m = elim (Bool-cases (is_reader m)) [
      | inl e ↦ rw e note_recv-HasMarks
      | inr e ↦ rw e (refused recv)
    ]
    on_what-HasMarks react m = elim (Bool-cases (is_reader m)) [
      | inl e ↦ rw e (same react _ (refl, refl))
      | inr e ↦ rw e (same react _ (refl, refl))
    ]
    on_what-HasMarks pin m = elim (Bool-cases (is_reader m)) [
      | inl e ↦ rw e (same pin _ (refl, refl))
      | inr e ↦ rw e (same pin _ (refl, refl))
    ]
    on_what-HasMarks call m = same call _ (refl, refl)
    on_what-HasMarks other m = same other _ (refl, refl)

    pub handle_note-HasMarks :
        HasMarks req.what is_taken (user_data (handle_note saved as_chan req as_uid t).topic as_uid)
    unfolding handle_note
    handle_note-HasMarks = elim (Bool-cases (is_inactive t)) [
      | inl e ↦ rw e (refl, refl)
      | inr e ↦ (elim (Bool-cases (ltb t.last_id req.seq_id)) [
        | inl p ↦ rw (e, p) (refl, refl)
        | inr p ↦ (elim (Bool-cases (as_chan && not t.is_chan)) [
          | inl q ↦ rw (e, p, q) (not_found req.what _ q)
          | inr q ↦ rw (e, p, q) (on_what-HasMarks req.what _)
        ])
      ])
    ]
