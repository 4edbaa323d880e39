-- ===== src/Topic/Publish/Marks.antt =====
-- internal/server/topic_msg.go: the marks of the users when a message is published.
use server_chat.Common.{ℕ, ◌==◌, ==_iff, Bool-cases, Option-cases, inl, inr, arith}
use server_chat.Topic.{Topic, user_data}
use server_chat.Topic.Store.{MessageStore}
use server_chat.Topic.Notes.Marks.{IsMarked, IsForward}
use server_chat.Topic.Posting.{Services, Request}
use server_chat.Topic.Publish.{advanced, marked_read, save_and_broadcast}
use server_chat.Topic.Publish.Effect.{unchanged, saved, save_and_broadcast-Effect}

-- The marks of each user are right after a step from `t` to `t'`, and have not gone back.
abbrev pub KeepsMarks : Topic → Topic → Type 0
KeepsMarks t t' =
    (uid : ℕ)
    → IsMarked t'.last_id (user_data t' uid) × IsForward (user_data t uid) (user_data t' uid)

module _ (req : Request) (as_uid : ℕ) (t : Topic)
    (ok : (uid : ℕ) → IsMarked t.last_id (user_data t uid)) where
  stays : KeepsMarks t t
  stays uid = (ok uid, (omega arith, omega arith))

  advanced-KeepsMarks : KeepsMarks t (advanced req as_uid t)
  unfolding advanced
  advanced-KeepsMarks uid =
      let m = ok uid in ((m.0, omega (arith, m.1)), (omega arith, omega arith))

  marked_read-KeepsMarks : KeepsMarks t (marked_read req as_uid t)
  unfolding marked_read advanced
  marked_read-KeepsMarks uid = elim (Option-cases (t.per_user as_uid)) [
    | inl e ↦ rw (e, marked_read) (advanced-KeepsMarks uid)
    | inr (pud, e) ↦ (elim (Bool-cases (as_uid == uid)) [
      | inl same ↦
          let m = rw (← (==_iff as_uid uid).0 same, e) at (ok uid) in
          rw (e, marked_read, same, ← (==_iff as_uid uid).0 same, e)
            ((omega arith, omega arith), (omega (arith, m.0, m.1), omega (arith, m.1)))
      | inr differs ↦ rw (e, marked_read, differs) (advanced-KeepsMarks uid)
    ])
  ]

-- If each user of a topic has read no more than it has received, and received no more than was
-- sent, then after a request to publish this holds for the new last id, and no mark of any user has
-- gone back.
pub save_and_broadcast-KeepsMarks :
    (db : MessageStore) (sv : Services) (req : Request) (as_uid : ℕ) (t : Topic)
    (s : MessageStore.State db)
    → ((uid : ℕ) → IsMarked t.last_id (user_data t uid))
    → KeepsMarks t (save_and_broadcast db sv req as_uid t s).topic
save_and_broadcast-KeepsMarks db sv req as_uid t s ok =
    elim (save_and_broadcast-Effect db sv req as_uid t s) [
      | unchanged et es ↦ rw et (stays req as_uid t ok)
      | saved epoch (inl et) es new ↦ rw et (marked_read-KeepsMarks req as_uid t ok)
      | saved epoch (inr et) es new ↦ rw et (advanced-KeepsMarks req as_uid t ok)
    ]
