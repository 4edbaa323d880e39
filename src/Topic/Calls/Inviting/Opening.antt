-- ===== src/Topic/Calls/Inviting/Opening.antt =====
-- internal/server/topic_msg.go and calls.go: the call that an invitation opens, and its message.
use server_chat.Common.{
  ℕ, ◌+◌, ◌≡◌, refl, sym, ap, ◌∙◌, true, false, ◌||◌, inl, inr, Option, none, some, ◌∷◌,
  Option-cases, arith,
}
use server_chat.Topic.{Topic, is_inactive, is_read_only, is_p2p, is_grp}
use server_chat.Topic.Store.{MessageStore}
use server_chat.Topic.Posting.{Services, Request, PubErr}
use server_chat.Topic.Publish.{Outcome, save_and_broadcast, new_message, marked_read, advanced}
use server_chat.Topic.Publish.Effect.{Effect, saved, unchanged, IsNew, save_and_broadcast-Effect}
use server_chat.Topic.Calls.{VideoCall, Refusal, Calls, handle_call_invite}
use server_chat.Topic.Calls.Inviting.{
  Invitation, may_invite, check_invitation, open_call, checked_invitation, handle_invitation,
}

-- What must hold of the topic for an invitation.
pub record MayInvite (t : Topic) (as_uid : ℕ) : Type 0 where
  pub active : is_inactive t ≡ false
  pub writable : is_read_only t ≡ false
  pub member : may_invite (t.per_user as_uid) ≡ true
  pub two_or_group : (is_p2p t.cat || is_grp t.cat) ≡ true

check_invitation-MayInvite :
    (t : Topic) (c : Calls) (as_uid : ℕ) (i : Invitation)
    → check_invitation t c as_uid i ≡ none
    → MayInvite t as_uid
unfolding check_invitation
check_invitation-MayInvite t c as_uid i h = record {
  active = ground arith;
  writable = ground arith;
  member = ground arith;
  two_or_group = ground arith;
}

last_id-marked_read :
    (req : Request) (as_uid : ℕ) (t : Topic) → (marked_read req as_uid t).last_id ≡ t.last_id + 1
unfolding marked_read advanced
last_id-marked_read req as_uid t = elim (Option-cases (t.per_user as_uid)) [
  | inl e ↦ rw (e, marked_read) refl
  | inr (pud, e) ↦ rw (e, marked_read) refl
]

module _ (db : MessageStore) (req : Request) (as_uid : ℕ) (t : Topic)
    (s : MessageStore.State db) where
  open db use {rows}

  -- The message of a call: a new one with the call's id; or none, and the call has the last id.
  pub data IsBacked (v : VideoCall) (after : MessageStore.State db) : Type 0 where
    by_new_message :
        (epoch : Option ℕ)
        → rows after ≡ new_message req as_uid t epoch ∷ rows s
        → (new_message req as_uid t epoch).seq_id ≡ v.seq
        → IsNew db req as_uid t s
        → IsBacked v after
    by_nothing : rows after ≡ rows s → v.seq ≡ t.last_id → IsBacked v after

  Effect-IsBacked :
      (o : Outcome db) (v : VideoCall)
      → Effect db req as_uid t s o
      → v.seq ≡ o.topic.last_id
      → IsBacked v o.state
  unfolding new_message advanced
  Effect-IsBacked o v (unchanged same rs) e = by_nothing rs (e ∙ ap (λ (x : Topic). x.last_id) same)
  Effect-IsBacked o v (saved epoch (inl read) rs new) e =
      by_new_message epoch rs
        (sym (e ∙ ap (λ (x : Topic). x.last_id) read ∙ last_id-marked_read req as_uid t)) new
  Effect-IsBacked o v (saved epoch (inr kept) rs new) e =
      by_new_message epoch rs (sym (e ∙ ap (λ (x : Topic). x.last_id) kept)) new

module _ (db : MessageStore) (sv : Services) (req : Request) (as_uid : ℕ) (i : Invitation)
    (t : Topic) (c : Calls) (s : MessageStore.State db) where
  open_call-IsBacked :
      (o : Outcome db) (x : Option PubErr) (v : VideoCall)
      → Effect db req as_uid t s o
      → c.call ≡ none
      → (open_call db as_uid i c o x).calls.call ≡ some v
      → IsBacked db req as_uid t s v (open_call db as_uid i c o x).state
        × (v.originator_uid ≡ as_uid)
  unfolding handle_call_invite
  open_call-IsBacked o (some x) v effect idle h =
      absurd (let k : none ≡ some v = sym idle ∙ h in cc)
  open_call-IsBacked o none v effect idle h =
      let id : v.seq ≡ o.topic.last_id = cc in
      let by : v.originator_uid ≡ as_uid = cc in
      (Effect-IsBacked db req as_uid t s o v effect id, by)

  checked_invitation-IsBacked :
      (r : Option Refusal) (v : VideoCall)
      → check_invitation t c as_uid i ≡ r
      → c.call ≡ none
      → (checked_invitation db sv req as_uid i t c s r).calls.call ≡ some v
      → MayInvite t as_uid
        × IsBacked db req as_uid t s v (checked_invitation db sv req as_uid i t c s r).state
        × (v.originator_uid ≡ as_uid)
  checked_invitation-IsBacked (some r) v e idle h =
      absurd (let k : none ≡ some v = sym idle ∙ h in cc)
  checked_invitation-IsBacked none v e idle h =
      let o = save_and_broadcast db sv req as_uid t s in
      let (backed, by) =
        open_call-IsBacked o o.error v (save_and_broadcast-Effect db sv req as_uid t s) idle h in
      (check_invitation-MayInvite t c as_uid i e, backed, by)

  -- If an invitation opens a call in a topic without one, then the topic is active, not read-only,
  -- P2P or a group, the user is a member who may write and no reader of a channel, and has started
  -- the call; and the call has the id of a message that is new in the store, whose user had none
  -- under its client id; or the store has no new message, and the call has the last id of the
  -- topic.
  pub handle_invitation-IsBacked :
      (v : VideoCall)
      → c.call ≡ none
      → (handle_invitation db sv req as_uid i t c s).calls.call ≡ some v
      → MayInvite t as_uid
        × IsBacked db req as_uid t s v (handle_invitation db sv req as_uid i t c s).state
        × (v.originator_uid ≡ as_uid)
  unfolding handle_invitation
  handle_invitation-IsBacked v idle h =
      checked_invitation-IsBacked (check_invitation t c as_uid i) v refl idle h
