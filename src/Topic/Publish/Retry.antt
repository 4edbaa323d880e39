-- ===== src/Topic/Publish/Retry.antt =====
-- A client that has not seen the answer repeats a request under the same client id.
use server_chat.Common.{ℕ, ◌≡◌, refl, Bool-cases, Option, Option-cases, none, some, inl, inr, ◌⊎◌}
use server_chat.Common.Result.{Result-cases}
use server_chat.Topic.{Topic}
use server_chat.Topic.Store.{Message, MessageStore, find_row}
use server_chat.Topic.Posting.{Services, PubErr, Request}
use server_chat.Topic.Publish.{
  Outcome, archived, acknowledge, deduplicate, check_request, save_and_broadcast,
}

module _ (db : MessageStore) (sv : Services) (req : Request) (as_uid : ℕ) (t : Topic)
    (s : MessageStore.State db) where
  open db use {rows, get_by_client_id, get_ok}

  -- Nothing is saved, and the request fails or is acknowledged with the message `m`.
  pub IsRepeat : Message → Outcome db → Type 0
  IsRepeat m o =
      (o.topic ≡ t)
      × (o.state ≡ s)
      × ((o ≡ acknowledge db sv req as_uid t s m) ⊎ ((e : PubErr) × (o.error ≡ some e)))

  acknowledge-IsRepeat : (m : Message) → IsRepeat m (acknowledge db sv req as_uid t s m)
  unfolding acknowledge IsRepeat
  acknowledge-IsRepeat m = elim (Bool-cases (archived sv t m)) [
    | inl kept ↦ rw kept (refl, refl, inl refl)
    | inr lost ↦ rw lost (refl, refl, inl refl)
  ]

  deduplicate-IsRepeat :
      (c : Option ℕ) (cid : ℕ) (m : Message)
      → c ≡ some cid
      → find_row as_uid cid (rows s) ≡ some m
      → IsRepeat m (deduplicate db sv req as_uid t s c)
  unfolding deduplicate IsRepeat
  deduplicate-IsRepeat none cid m e h = cc
  deduplicate-IsRepeat (some c) cid m e h = elim (Result-cases (get_by_client_id s as_uid c)) [
    | inl (none, q) ↦ let found = get_ok s as_uid c q in cc
    | inl (some m', q) ↦
        let found = get_ok s as_uid c q in
        let same : m' ≡ m = cc in rw (q, deduplicate, same) (acknowledge-IsRepeat m)
    | inr (y, q) ↦ rw (q, deduplicate) (refl, refl, inr (_, refl))
  ]

  -- If the store holds a message of the user under the client id of the request, then the request
  -- changes neither the topic nor the store, and it ends as the acknowledgement of that message
  -- does, or in an error.
  pub save_and_broadcast-IsRepeat :
      (cid : ℕ) (m : Message)
      → req.client_id ≡ some cid
      → find_row as_uid cid (rows s) ≡ some m
      → IsRepeat m (save_and_broadcast db sv req as_uid t s)
  unfolding save_and_broadcast IsRepeat
  save_and_broadcast-IsRepeat cid m e h = elim (Option-cases (check_request sv req as_uid t)) [
    | inl q ↦ rw (q, save_and_broadcast) (deduplicate-IsRepeat req.client_id cid m e h)
    | inr ((x, r), q) ↦ rw (q, save_and_broadcast) (refl, refl, inr (_, refl))
  ]
