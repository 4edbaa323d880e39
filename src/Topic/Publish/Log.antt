-- ===== src/Topic/Publish/Log.antt =====
-- What publishing does to the log of messages.
use server_chat.Topic.Publish.Effect.{unchanged, saved, IsUnseen, save_and_broadcast-Effect}
use mathlib.Core.List.{map}
use server_chat.Common.{
  ℕ, zero, suc, ◌+◌, ◌≡◌, refl, ap, Option-cases, inl, inr, ◌⊎◌, ◌∙◌, List, [], ◌∷◌, arith,
}
use server_chat.Topic.{Topic}
use server_chat.Topic.Store.{Message, MessageStore}
use server_chat.Topic.Posting.{Services, Request}
use server_chat.Topic.Publish.{save_and_broadcast, new_message, marked_read, advanced}

-- n, n - 1, …, 1
abbrev pub countdown : ℕ → List ℕ
countdown zero = []
countdown (suc n) = suc n ∷ countdown n

-- The saved messages have the ids from 1 to the last id of the topic, each once, in order.
abbrev pub IsContiguous : (db : MessageStore) → Topic → MessageStore.State db → Type 0
IsContiguous db t s = map (λ (m : Message). m.seq_id) (MessageStore.rows db s) ≡ countdown t.last_id

add_one : (n : ℕ) → n + 1 ≡ suc n
add_one n = omega arith

marked_read-last_id :
    (req : Request) (as_uid : ℕ) (t : Topic) → (marked_read req as_uid t).last_id ≡ t.last_id + 1
unfolding marked_read
marked_read-last_id req as_uid t = elim (Option-cases (t.per_user as_uid)) [
  | inl e ↦ rw (e, marked_read)
  | inr (pud, e) ↦ rw (e, marked_read)
]

saved-last_id :
    (req : Request) (as_uid : ℕ) (t t' : Topic)
    → (t' ≡ marked_read req as_uid t) ⊎ (t' ≡ advanced req as_uid t)
    → t'.last_id ≡ t.last_id + 1
unfolding advanced
saved-last_id req as_uid t t' (inl e) =
    ap (λ (x : Topic). x.last_id) e ∙ marked_read-last_id req as_uid t
saved-last_id req as_uid t t' (inr e) = ap (λ (x : Topic). x.last_id) e

countdown-add_one : (n : ℕ) → (n + 1) ∷ countdown n ≡ countdown (n + 1)
countdown-add_one n = rw (add_one n) refl

-- If the saved messages of a topic have exactly the ids from the last id of the topic down to 1, in
-- order and each once, then they still have after a request to publish, whatever its checks, the
-- database and the archive answer.
pub save_and_broadcast-IsContiguous :
    (db : MessageStore) (sv : Services) (req : Request) (as_uid : ℕ) (t : Topic)
    (s : MessageStore.State db)
    → IsContiguous db t s
    → let o = save_and_broadcast db sv req as_uid t s in IsContiguous db o.topic o.state
unfolding new_message
save_and_broadcast-IsContiguous db sv req as_uid t s same =
    elim (save_and_broadcast-Effect db sv req as_uid t s) [
      | unchanged et es ↦ rw (et, es) same
      | saved epoch et es new ↦
          rw (saved-last_id req as_uid t _ et, es, same) (countdown-add_one t.last_id)
    ]

-- Each message is the only one of its user under its client id.
abbrev pub IsOnce : List Message → Type 0
IsOnce [] = Unit
IsOnce (m ∷ rows) = IsUnseen m.from m.client_id rows × IsOnce rows

-- If no two saved messages of one user have the same client id, then no two have after a request to
-- publish, whatever the checks, the database and the archive answer.
pub save_and_broadcast-IsOnce :
    (db : MessageStore) (sv : Services) (req : Request) (as_uid : ℕ) (t : Topic)
    (s : MessageStore.State db)
    → IsOnce (MessageStore.rows db s)
    → IsOnce (MessageStore.rows db (save_and_broadcast db sv req as_uid t s).state)
unfolding new_message
save_and_broadcast-IsOnce db sv req as_uid t s once =
    elim (save_and_broadcast-Effect db sv req as_uid t s) [
      | unchanged et es ↦ rw es once
      | saved epoch et es new ↦ rw es (new, once)
    ]
