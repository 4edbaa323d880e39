-- ===== src/Topic/Publish/Effect.antt =====
-- internal/server/topic_msg.go: the ways through `saveAndBroadcastMessage`.
use server_chat.Common.{
  ℕ, ◌≡◌, refl, sym, Bool, Bool-cases, Option, Option-cases, none, some, List, ◌∷◌, inl, inr, ◌⊎◌,
}
use server_chat.Common.Result.{Result-cases}
use server_chat.Access.{is_reader}
use server_chat.Topic.{Topic, user_data, mode}
use server_chat.Topic.Store.{Message, StoreErr, MessageStore, find_row}
use server_chat.Topic.Posting.{Services, standalone, token, no_token, Fence, Request}
use server_chat.Topic.Publish.{
  Outcome, archived, marked_read, advanced, new_message, acknowledge, announce, after_failure,
  save_failed, commit, with_fence, deduplicate, check_request, save_and_broadcast,
}

-- No message of the user has the client id, if there is one.
abbrev pub IsUnseen : ℕ → Option ℕ → List Message → Type 0
IsUnseen uid none rows = Unit
IsUnseen uid (some cid) rows = find_row uid cid rows ≡ none

module _ (db : MessageStore) (req : Request) (as_uid : ℕ) (t : Topic)
    (s : MessageStore.State db) where
  open db use {rows}

  abbrev pub IsNew : Type 0
  IsNew = IsUnseen as_uid req.client_id (rows s)

  pub data Effect (o : Outcome db) : Type 0 where
    unchanged : o.topic ≡ t → rows o.state ≡ rows s → Effect o
    saved :
        (epoch : Option ℕ)
        → (o.topic ≡ marked_read req as_uid t) ⊎ (o.topic ≡ advanced req as_uid t)
        → rows o.state ≡ new_message req as_uid t epoch ∷ rows s
        → IsNew
        → Effect o

module _ (db : MessageStore) (sv : Services) (req : Request) (as_uid : ℕ) (t : Topic)
    (s : MessageStore.State db) where
  open db use {State, rows, save, get_by_client_id, save_ok, save_err, get_ok}

  acknowledge-Effect :
      (s' : State) (m : Message)
      → rows s' ≡ rows s
      → Effect db req as_uid t s (acknowledge db sv req as_uid t s' m)
  unfolding acknowledge
  acknowledge-Effect s' m e = elim (Bool-cases (archived sv t m)) [
    | inl kept ↦ rw kept (unchanged refl e)
    | inr lost ↦ rw lost (unchanged refl e)
  ]

  announce-Effect :
      IsNew db req as_uid t s
      → (s' : State) (epoch : Option ℕ) (marked : Bool)
      → rows s' ≡ new_message req as_uid t epoch ∷ rows s
      → Effect db req as_uid t s
          (announce db sv req as_uid t s' (new_message req as_uid t epoch) marked)
  unfolding announce
  announce-Effect new s' epoch marked e =
      elim (Bool-cases (archived sv t (new_message req as_uid t epoch))) [
        | inl kept ↦ rw kept (saved epoch (inl refl) e new)
        | inr lost ↦ rw lost (saved epoch (inr refl) e new)
      ]

  save_failed-Effect :
      (s' : State) (x : StoreErr)
      → rows s' ≡ rows s
      → Effect db req as_uid t s (save_failed db sv req as_uid t s' x)
  unfolding save_failed
  save_failed-Effect s' x e = unchanged refl e

  after_failure-Effect :
      (s' : State) (x : StoreErr) (cid : Option ℕ)
      → rows s' ≡ rows s
      → Effect db req as_uid t s (after_failure db sv req as_uid t s' x cid)
  unfolding after_failure
  after_failure-Effect s' x none e = save_failed-Effect s' x e
  after_failure-Effect s' x (some cid) e = elim (Result-cases (get_by_client_id s' as_uid cid)) [
    | inl (none, q) ↦ rw (q, after_failure) (save_failed-Effect s' x e)
    | inl (some m, q) ↦ rw (q, after_failure) (acknowledge-Effect s' m e)
    | inr (y, q) ↦ rw (q, after_failure) (save_failed-Effect s' x e)
  ]

  commit-Effect :
      IsNew db req as_uid t s
      → (epoch : Option ℕ) → Effect db req as_uid t s (commit db sv req as_uid t s epoch)
  unfolding commit
  commit-Effect new epoch =
      let m = new_message req as_uid t epoch in
      let read = is_reader (mode (user_data t as_uid)) in
      elim (Result-cases (save s m read).1) [
        | inl (marked, q) ↦
            rw (q, commit) (announce-Effect new (save s m read).0 epoch marked (save_ok s m read q))
        | inr (x, q) ↦
            rw (q, commit)
              (after_failure-Effect (save s m read).0 x req.client_id (save_err s m read q))
      ]

  fence-Effect :
      IsNew db req as_uid t s
      → (f : Fence) → Effect db req as_uid t s (with_fence db sv req as_uid t s f)
  unfolding with_fence
  fence-Effect new standalone = commit-Effect new none
  fence-Effect new (token epoch) = commit-Effect new (some epoch)
  fence-Effect new no_token = unchanged refl refl

  deduplicate-Effect :
      (cid : Option ℕ)
      → req.client_id ≡ cid
      → Effect db req as_uid t s (deduplicate db sv req as_uid t s cid)
  unfolding deduplicate
  deduplicate-Effect none e = fence-Effect (rw e tt) sv.fence
  deduplicate-Effect (some cid) e = elim (Result-cases (get_by_client_id s as_uid cid)) [
    | inl (none, q) ↦
        rw (q, deduplicate) (fence-Effect (rw e (sym (get_ok s as_uid cid q))) sv.fence)
    | inl (some m, q) ↦ rw (q, deduplicate) (acknowledge-Effect s m refl)
    | inr (y, q) ↦ rw (q, deduplicate) (unchanged refl refl)
  ]

  pub save_and_broadcast-Effect : Effect db req as_uid t s (save_and_broadcast db sv req as_uid t s)
  unfolding save_and_broadcast
  save_and_broadcast-Effect = elim (Option-cases (check_request sv req as_uid t)) [
    | inl e ↦ rw (e, save_and_broadcast) (deduplicate-Effect req.client_id refl)
    | inr ((x, r), e) ↦ rw (e, save_and_broadcast) (unchanged refl refl)
  ]
