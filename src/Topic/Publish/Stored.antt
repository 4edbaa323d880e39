-- ===== src/Topic/Publish/Stored.antt =====
-- internal/server/topic_msg.go: which messages are sent on.
use mathlib.Core.List.{Memᴰ}
use mathlib.Core.List.Memᴰ.{head, tail}
use server_chat.Common.{
  ℕ, ◌≡◌, refl, sym, Bool, true, false, ◌&&◌, Bool-cases, Option, Option-cases, none, some, List,
  [], ◌∷◌, inl, inr, ◌==◌, if◌then◌else◌, All, All-append,
}
use server_chat.Common.Result.{Result-cases, ok}
use server_chat.Access.{is_reader}
use server_chat.Topic.{Topic, user_data, mode}
use server_chat.Topic.Store.{Message, StoreErr, MessageStore, find_row, same_client}
use server_chat.Topic.Posting.{
  Services, Fence, standalone, token, no_token, Request, Reply, Out, broadcast, plugin_message,
  to_session, to_session_with_id,
}
use server_chat.Topic.Publish.{
  Outcome, archived, new_message, acknowledge, announce, after_failure, save_failed, commit,
  with_fence, deduplicate, check_request, save_and_broadcast,
}

-- A message that is sent on, or given to the plugins, is one of the rows.
abbrev pub IsStored : List Message → Out → Type 0
IsStored rows (broadcast m skip) = Memᴰ m rows
IsStored rows (plugin_message m) = Memᴰ m rows
IsStored rows _ = Unit

to_session-IsStored :
    (rows : List Message) (req : Request) (r : Reply) → All (IsStored rows) (to_session req r)
to_session-IsStored rows req r = elim (Option-cases req.session) [
  | inl e ↦ rw e tt
  | inr (u, e) ↦ rw e (tt, tt)
]

to_session_with_id-IsStored :
    (rows : List Message) (req : Request) (r : Reply)
    → All (IsStored rows) (to_session_with_id req r)
to_session_with_id-IsStored rows req r = elim (Bool-cases req.has_id) [
  | inl e ↦ rw e (to_session-IsStored rows req r)
  | inr e ↦ rw e tt
]

replay-IsStored :
    (rows : List Message) (m : Message) (again skip : Bool)
    → Memᴰ m rows
    → All (IsStored rows) (if again then broadcast m skip ∷ [] else [])
replay-IsStored rows m true skip h = (h, tt)
replay-IsStored rows m false skip h = tt

find_row-Memᴰ :
    (uid cid : ℕ) (rows : List Message) {m : Message} → find_row uid cid rows ≡ some m → Memᴰ m rows
unfolding find_row
find_row-Memᴰ uid cid [] {m} h = cc
find_row-Memᴰ uid cid (x ∷ rows) {m} h =
    elim (Bool-cases (x.from == uid && same_client x.client_id cid)) [
      | inl e ↦ head (let k : some x ≡ some m = rw (e, find_row) at h in cc)
      | inr e ↦ tail (find_row-Memᴰ uid cid rows (rw (e, find_row) at h))
    ]

module _ (db : MessageStore) (sv : Services) (req : Request) (as_uid : ℕ) (t : Topic) where
  open db use {State, rows, save, get_by_client_id, save_ok, get_ok}

  abbrev AllStored : Outcome db → Type 0
  AllStored o = All (IsStored (rows o.state)) o.outs

  acknowledge-AllStored :
      (s : State) (m : Message) → Memᴰ m (rows s) → AllStored (acknowledge db sv req as_uid t s m)
  unfolding acknowledge
  acknowledge-AllStored s m h = elim (Bool-cases (archived sv t m)) [
    | inl kept ↦ rw kept (
        All-append (IsStored (rows s)) _ _ (to_session_with_id-IsStored (rows s) req _)
          (replay-IsStored (rows s) m _ _ h))
    | inr lost ↦ rw lost (to_session-IsStored (rows s) req _)
  ]

  announce-AllStored :
      (s : State) (m : Message) (marked : Bool)
      → Memᴰ m (rows s)
      → AllStored (announce db sv req as_uid t s m marked)
  unfolding announce
  announce-AllStored s m marked h = elim (Bool-cases (archived sv t m)) [
    | inl kept ↦ rw kept (
        All-append (IsStored (rows s)) _ _ (to_session_with_id-IsStored (rows s) req _)
          (tt, (h, (h, (tt, tt)))))
    | inr lost ↦ rw lost (to_session-IsStored (rows s) req _)
  ]

  found-Memᴰ :
      (s : State) (cid : ℕ) {m : Message}
      → get_by_client_id s as_uid cid ≡ ok (some m)
      → Memᴰ m (rows s)
  found-Memᴰ s cid q = find_row-Memᴰ as_uid cid (rows s) (sym (get_ok s as_uid cid q))

  save_failed-AllStored :
      (s : State) (x : StoreErr) → AllStored (save_failed db sv req as_uid t s x)
  unfolding save_failed
  save_failed-AllStored s x = to_session-IsStored (rows s) req _

  after_failure-AllStored :
      (s : State) (x : StoreErr) (cid : Option ℕ)
      → AllStored (after_failure db sv req as_uid t s x cid)
  unfolding after_failure
  after_failure-AllStored s x none = save_failed-AllStored s x
  after_failure-AllStored s x (some cid) = elim (Result-cases (get_by_client_id s as_uid cid)) [
    | inl (none, q) ↦ rw (q, after_failure) (save_failed-AllStored s x)
    | inl (some m, q) ↦ rw (q, after_failure) (acknowledge-AllStored s m (found-Memᴰ s cid q))
    | inr (y, q) ↦ rw (q, after_failure) (save_failed-AllStored s x)
  ]

  commit-AllStored : (s : State) (epoch : Option ℕ) → AllStored (commit db sv req as_uid t s epoch)
  unfolding commit
  commit-AllStored s epoch =
      let m = new_message req as_uid t epoch in
      let read = is_reader (mode (user_data t as_uid)) in
      elim (Result-cases (save s m read).1) [
        | inl (marked, q) ↦
            rw (q, commit)
              (announce-AllStored (save s m read).0 m marked (rw (save_ok s m read q) (head refl)))
        | inr (x, q) ↦ rw (q, commit) (after_failure-AllStored (save s m read).0 x req.client_id)
      ]

  with_fence-AllStored : (s : State) (f : Fence) → AllStored (with_fence db sv req as_uid t s f)
  unfolding with_fence
  with_fence-AllStored s standalone = commit-AllStored s none
  with_fence-AllStored s (token epoch) = commit-AllStored s (some epoch)
  with_fence-AllStored s no_token = to_session-IsStored (rows s) req _

  deduplicate-AllStored :
      (s : State) (cid : Option ℕ) → AllStored (deduplicate db sv req as_uid t s cid)
  unfolding deduplicate
  deduplicate-AllStored s none = with_fence-AllStored s sv.fence
  deduplicate-AllStored s (some cid) = elim (Result-cases (get_by_client_id s as_uid cid)) [
    | inl (none, q) ↦ rw (q, deduplicate) (with_fence-AllStored s sv.fence)
    | inl (some m, q) ↦ rw (q, deduplicate) (acknowledge-AllStored s m (found-Memᴰ s cid q))
    | inr (y, q) ↦ rw (q, deduplicate) (to_session-IsStored (rows s) req _)
  ]

  -- Every message that a request to publish broadcasts, or hands to the plugins, is in the store
  -- when the request ends, on the paths of a new message and of a repeated one alike.
  pub save_and_broadcast-AllStored :
      (s : State)
      → let o = save_and_broadcast db sv req as_uid t s in All (IsStored (rows o.state)) o.outs
  unfolding save_and_broadcast
  save_and_broadcast-AllStored s = elim (Option-cases (check_request sv req as_uid t)) [
    | inl e ↦ rw (e, save_and_broadcast) (deduplicate-AllStored s req.client_id)
    | inr ((x, r), e) ↦ rw (e, save_and_broadcast) (to_session-IsStored (rows s) req r)
  ]
