-- ===== src/Topic/Calls/Note.antt =====
-- internal/server/calls.go, calls_agora.go and topic_sub.go: what an event does to the call of a topic.
use server_chat.Common.{
  ℕ, Bool, true, false, not, ◌||◌, Option, none, some, List, [], ◌∷◌, ◌==◌, if◌then◌else◌,
}
use server_chat.Access.{is_joiner, is_reader, is_admin}
use server_chat.Topic.{Topic, TopicCat, p2p, grp, PerUserData, mode, user_data, is_inactive, is_p2p}
use server_chat.Topic.Calls.{
  proxy, multiplex, CallSession, CallPartyData, VideoCall, CallEvent, ringing, accept, hang_up,
  join, leave, refresh, other_event, Refusal, permission_denied, service_unavailable, malformed,
  operation_not_allowed, refused, Calls, Outcome, party_of, originator, end_call, terminate,
  on_timeout, handle_call_invite,
}
use server_chat.Topic.Calls.Answer.{
  CallInput, CallNote, reply_if, go_on, from_user, handle_p2p_call_answer, can_hang_up_p2p_call,
  issue_credentials, is_there, leave_call, disconnect_sessions,
}

abbrev pub is_member : Option PerUserData → Bool
is_member none = false
is_member (some pud) = true

-- The answer of the business policy to two users.
pub data PolicyAnswer : Type 0 where
  granted refused_by_policy unavailable : PolicyAnswer

-- The policies: whether the official one lets the user call, the business policy if it is in force,
-- and the other user of a P2P topic.
pub record CallPolicy : Type 0 where
  pub official_passes : Bool
  pub authorize : Option (ℕ → ℕ → PolicyAnswer)
  pub p2p_other_user : ℕ

-- A refusal of a policy is answered wherever the note has a session.
abbrev pub policy_refusal : PolicyAnswer → Option Refusal
policy_refusal granted = none
policy_refusal refused_by_policy = some permission_denied
policy_refusal unavailable = some service_unavailable

abbrev with_originator : (ℕ → ℕ → PolicyAnswer) → ℕ → ℕ × Option CallSession → PolicyAnswer
with_originator ask as_uid (uid, sess) = if uid == 0 then refused_by_policy else ask as_uid uid

abbrev ask_policy : (ℕ → ℕ → PolicyAnswer) → TopicCat → CallPolicy → ℕ → VideoCall → PolicyAnswer
ask_policy ask p2p p as_uid v = ask as_uid p.p2p_other_user
ask_policy ask grp p as_uid v = with_originator ask as_uid (originator v)
ask_policy ask _ p as_uid v = granted

abbrev pub ends_call : CallEvent → Bool
ends_call hang_up = true
ends_call leave = true
ends_call _ = false

-- The check of the business policy, which does not hinder leaving and hanging up.
unfoldable pub check_policy : Topic → CallPolicy → CallNote → VideoCall → Option Refusal
unfolding originator
check_policy t p n v = if ends_call n.event then none else elim p.authorize [
  | none ↦ none
  | some ask ↦ policy_refusal (ask_policy ask t.cat p n.as_uid v)
]

-- handleAgoraCallEvent for a user who may take part.
unfoldable pub dispatch_event :
    Topic → VideoCall → Bool → CallNote → CallInput → ℕ → CallEvent → Outcome
unfolding issue_credentials leave_call can_hang_up_p2p_call end_call handle_p2p_call_answer is_admin
    originator
dispatch_event t v timer n i m join = issue_credentials t v timer n i m false
dispatch_event t v timer n i m refresh = issue_credentials t v timer n i m true
dispatch_event t v timer n i m leave = leave_call v timer n i
dispatch_event t v timer n i m hang_up =
    if is_p2p t.cat
    then (if can_hang_up_p2p_call v n
        then end_call v (from_user n.as_uid) i.now false i.saved
        else go_on v timer [])
    else if n.as_uid == (originator v).0 || is_admin m
    then end_call v (from_user n.as_uid) i.now false i.saved
    else go_on v timer (reply_if n.has_id permission_denied)
dispatch_event t v timer n i m ringing =
    if is_p2p t.cat
    then handle_p2p_call_answer v timer n i
    else go_on v timer (reply_if n.has_id operation_not_allowed)
dispatch_event t v timer n i m accept =
    if is_p2p t.cat
    then handle_p2p_call_answer v timer n i
    else go_on v timer (reply_if n.has_id operation_not_allowed)
dispatch_event t v timer n i m (other_event e) = go_on v timer (reply_if n.has_id malformed)

-- handleAgoraCallEvent
unfoldable pub handle_agora_call_event : Topic → VideoCall → Bool → CallNote → CallInput → Outcome
unfolding dispatch_event is_joiner is_reader
handle_agora_call_event t v timer n i =
    let pud = user_data t n.as_uid in
    if pud.deleted || not (is_joiner (mode pud)) || not (is_reader (mode pud))
    then go_on v timer (reply_if n.has_id permission_denied)
    else dispatch_event t v timer n i (mode pud) n.event

abbrev pub checked_event :
    Topic → VideoCall → Bool → CallNote → CallInput → Option Refusal → Outcome
checked_event t v timer n i (some r) = go_on v timer (refused r ∷ [])
checked_event t v timer n i none =
    if v.is_agora then handle_agora_call_event t v timer n i else go_on v timer []

-- handleCallEvent with a call in progress.
unfoldable pub call_event : Topic → CallPolicy → VideoCall → Bool → CallNote → CallInput → Outcome
unfolding handle_agora_call_event check_policy is_inactive
call_event t p v timer n i =
    if is_inactive t
    then go_on v timer []
    else if not (v.seq == n.seq_id)
    then go_on v timer []
    else if not (is_member (t.per_user n.as_uid))
    then go_on v timer []
    else if not p.official_passes
    then go_on v timer (refused permission_denied ∷ [])
    else checked_event t v timer n i (check_policy t p n v)

abbrev pub event_at : Topic → CallPolicy → CallNote → CallInput → Calls → Option VideoCall → Outcome
event_at t p n i c none = (c, [])
event_at t p n i c (some v) = call_event t p v c.timer n i

-- handleCallEvent
unfoldable pub handle_call_event : Topic → CallPolicy → CallNote → CallInput → Calls → Outcome
unfolding call_event
handle_call_event t p n i c = event_at t p n i c c.call

abbrev pub is_proxy_of : CallSession → CallSession → Bool
is_proxy_of own party = elim own.kind [
  | multiplex address ↦ elim party.kind [ proxy multi ↦ multi == address | _ ↦ false ]
  | _ ↦ false
]

abbrev pub any_proxy_of : CallSession → List (ℕ × CallPartyData) → Bool
any_proxy_of own [] = false
any_proxy_of own ((sid, party) ∷ parties) = is_proxy_of own party.sess || any_proxy_of own parties

abbrev pub takes_part : CallSession → VideoCall → Bool
takes_part sess v = elim sess.kind [
  | multiplex address ↦ any_proxy_of sess v.parties
  | _ ↦ is_there (party_of sess.sid v.parties)
]

abbrev pub unregister_at : CallSession → CallInput → Calls → Option VideoCall → Outcome
unregister_at sess i c none = (c, [])
unregister_at sess i c (some v) =
    if v.is_agora
    then disconnect_sessions v c.timer sess i
    else if takes_part sess v
    then terminate c (some v) i.now false i.saved
    else (c, [])

-- What unregisterSession does to the call when a session leaves the topic.
unfoldable pub unregister_session : CallSession → CallInput → Calls → Outcome
unfolding disconnect_sessions terminate party_of
unregister_session sess i c = unregister_at sess i c c.call

-- What happens to the call of a topic: an invitation that has been checked and saved, which finds no
-- call, a note, a session that leaves, or the timer.
pub data CallStep : Type 0 where
  invite : Topic → (as_uid : ℕ) → CallSession → (mime : Option ℕ) → CallStep
  note : Topic → CallPolicy → CallNote → CallInput → CallStep
  unregister : CallSession → CallInput → CallStep
  timeout : (now : ℕ) (saved : Bool) → CallStep

abbrev pub invite_at : Topic → ℕ → CallSession → Option ℕ → Calls → Option VideoCall → Calls
invite_at t as_uid sess mime c none = handle_call_invite t as_uid sess mime c
invite_at t as_uid sess mime c (some v) = c

unfoldable pub take_step : CallStep → Calls → Outcome
unfolding handle_call_invite handle_call_event unregister_session on_timeout
take_step (invite t as_uid sess mime) c = (invite_at t as_uid sess mime c c.call, [])
take_step (note t p n i) c = handle_call_event t p n i c
take_step (unregister sess i) c = unregister_session sess i c
take_step (timeout now saved) c = on_timeout now saved c

-- Any sequence of such steps.
unfoldable pub take_steps : List CallStep → Calls → Calls
unfolding take_step
take_steps [] c = c
take_steps (s ∷ steps) c = take_steps steps (take_step s c).0

abbrev pub no_call : Calls
no_call = record { call = none; timer = false }
