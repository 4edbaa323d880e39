-- ===== src/Topic/Calls/Limits.antt =====
-- internal/server/calls.go and calls_agora.go: the timer and the participants of a call, over any
-- sequence of events.
pub mod Counting
mod Joining
use server_chat.Common.{
  ℕ, ◌+◌, ◌≤◌, ◌<◌, ◌≡◌, refl, Bool, true, false, not, ◌&&◌, ◌||◌, ◌⊎◌, inl, inr, Option, none,
  some, List, [], ◌∷◌, ◌==◌, leb, length, All, if◌then◌else◌, Bool-cases, Option-cases, arith,
}
use server_chat.Access.{is_admin, is_joiner, is_reader}
use server_chat.Topic.{Topic, user_data, mode, is_p2p, is_inactive}
use server_chat.Topic.Calls.{
  CallSession, CallPartyData, AgoraPartyData, VideoCall, CallEvent, ringing, accept, hang_up, join,
  leave, refresh, other_event, Refusal, permission_denied, CallOut, Calls, Outcome, party_of,
  set_party, delete_party, has_agora, agora_count, originator, end_call, terminate, terminate_from,
  on_timeout, handle_call_invite,
}
use server_chat.Topic.Calls.Answer.{
  AgoraProvider, CallInput, CallNote, go_on, reply_if, from_user, answer_to, handle_p2p_call_answer,
  can_hang_up_p2p_call, is_agora_party, is_accept, with_agora, grant_credentials, join_call,
  issue_found, issue_credentials, leave_party, leave_call, disconnect_all, disconnect_sessions,
  matches_kind,
}
use server_chat.Topic.Calls.Note.{
  CallPolicy, dispatch_event, handle_agora_call_event, checked_event, check_policy, call_event,
  handle_call_event, event_at, unregister_at, invite_at, takes_part, is_member, unregister_session,
  CallStep, invite, note, unregister, timeout, take_step, take_steps, no_call,
}
use server_chat.Topic.Calls.Limits.Counting.{
  IsSoundCall, IsSound, UsesLimit, HasLimit, agora_count-disconnect_all,
}
use server_chat.Topic.Calls.Limits.Joining.{
  either-IsSound, terminate_from-IsSound, issue_credentials-IsSound, leave_party-IsSound,
  disconnect_sessions-IsSound, answer-IsSound,
}

module _ (limit : ℕ) where
  module _ (v : VideoCall) (timer : Bool) (h : IsSoundCall limit (some v) timer) where
    dispatch_event-IsSound :
        (t : Topic) (n : CallNote) (i : CallInput) (m : ℕ) (e : CallEvent)
        → UsesLimit limit i.agora
        → IsSound limit (dispatch_event t v timer n i m e).0
    unfolding dispatch_event end_call leave_call
    dispatch_event-IsSound t n i m join lim =
        issue_credentials-IsSound limit v timer h t n i m false lim
    dispatch_event-IsSound t n i m refresh lim =
        issue_credentials-IsSound limit v timer h t n i m true lim
    dispatch_event-IsSound t n i m leave lim =
        leave_party-IsSound limit v timer h n i (party_of n.sess.sid v.parties)
    dispatch_event-IsSound t n i m hang_up lim =
        either-IsSound limit (is_p2p t.cat) _ _
          (either-IsSound limit (can_hang_up_p2p_call v n) _ _ tt h)
          (either-IsSound limit (n.as_uid == (originator v).0 || is_admin m)
            (end_call v (from_user n.as_uid) i.now false i.saved)
            (go_on v timer (reply_if n.has_id permission_denied)) tt h)
    dispatch_event-IsSound t n i m ringing lim =
        either-IsSound limit (is_p2p t.cat) _ _ (answer-IsSound limit v timer h n i) h
    dispatch_event-IsSound t n i m accept lim =
        either-IsSound limit (is_p2p t.cat) _ _ (answer-IsSound limit v timer h n i) h
    dispatch_event-IsSound t n i m (other_event e) lim = h

    agora_event-IsSound :
        (t : Topic) (n : CallNote) (i : CallInput)
        → UsesLimit limit i.agora
        → IsSound limit (handle_agora_call_event t v timer n i).0
    unfolding handle_agora_call_event
    agora_event-IsSound t n i lim =
        let pud = user_data t n.as_uid in
        elim (Bool-cases
          (pud.deleted || not (is_joiner (mode pud)) || not (is_reader (mode pud)))) [
            | inl out ↦ rw out h
            | inr fine ↦ rw fine (dispatch_event-IsSound t n i (mode pud) n.event lim)
          ]

    checked_event-IsSound :
        (t : Topic) (n : CallNote) (i : CallInput) (r : Option Refusal)
        → UsesLimit limit i.agora
        → IsSound limit (checked_event t v timer n i r).0
    checked_event-IsSound t n i (some r) lim = h
    checked_event-IsSound t n i none lim =
        either-IsSound limit v.is_agora (handle_agora_call_event t v timer n i) (go_on v timer [])
          (agora_event-IsSound t n i lim) h

    call_event-IsSound :
        (t : Topic) (p : CallPolicy) (n : CallNote) (i : CallInput)
        → UsesLimit limit i.agora
        → IsSound limit (call_event t p v timer n i).0
    unfolding call_event
    call_event-IsSound t p n i lim = elim (Bool-cases (is_inactive t)) [
      | inl a ↦ rw a h
      | inr a ↦ rw a (elim (Bool-cases (v.seq == n.seq_id)) [
        | inr b ↦ rw b h
        | inl b ↦ rw b (elim (Bool-cases (is_member (t.per_user n.as_uid))) [
          | inr d ↦ rw d h
          | inl d ↦ rw d (elim (Bool-cases p.official_passes) [
            | inr e ↦ rw e h
            | inl e ↦ rw e (checked_event-IsSound t n i (check_policy t p n v) lim)
          ])
        ])
      ])
    ]

  event_at-IsSound :
      (t : Topic) (p : CallPolicy) (n : CallNote) (i : CallInput) (c : Calls) (v : Option VideoCall)
      → UsesLimit limit i.agora
      → IsSoundCall limit v c.timer
      → IsSound limit c
      → IsSound limit (event_at t p n i c v).0
  event_at-IsSound t p n i c none lim h k = k
  event_at-IsSound t p n i c (some v) lim h k = call_event-IsSound v c.timer h t p n i lim

  unregister_at-IsSound :
      (sess : CallSession) (i : CallInput) (c : Calls) (v : Option VideoCall)
      → IsSoundCall limit v c.timer
      → IsSound limit c
      → IsSound limit (unregister_at sess i c v).0
  unfolding terminate
  unregister_at-IsSound sess i c none h k = k
  unregister_at-IsSound sess i c (some v) h k =
      either-IsSound limit v.is_agora (disconnect_sessions v c.timer sess i)
        (if takes_part sess v then terminate c (some v) i.now false i.saved else (c, []))
        (disconnect_sessions-IsSound limit v c.timer h sess i)
        (either-IsSound limit (takes_part sess v) (terminate c (some v) i.now false i.saved) (c, [])
          (terminate_from-IsSound limit v c.timer i.now false i.saved (originator v)) k)

  terminate-IsSound :
      (c : Calls) (v : Option VideoCall) (now : ℕ) (saved : Bool)
      → c.call ≡ v
      → IsSound limit (terminate (record c { timer = false }) v now true saved).0
  unfolding terminate
  terminate-IsSound c none now saved e = rw e tt
  terminate-IsSound c (some v) now saved e =
      terminate_from-IsSound limit v false now true saved (originator v)

  invite_at-IsSound :
      (t : Topic) (as_uid : ℕ) (sess : CallSession) (mime : Option ℕ) (c : Calls)
      (v : Option VideoCall)
      → IsSound limit c
      → IsSound limit (invite_at t as_uid sess mime c v)
  unfolding handle_call_invite agora_count
  invite_at-IsSound t as_uid sess mime c none h = (inr refl, omega arith)
  invite_at-IsSound t as_uid sess mime c (some v) h = h

  take_step-IsSound :
      (s : CallStep) (c : Calls)
      → HasLimit limit s
      → IsSound limit c
      → IsSound limit (take_step s c).0
  unfolding take_step handle_call_event unregister_session on_timeout
  take_step-IsSound (invite t as_uid sess mime) c lim h =
      invite_at-IsSound t as_uid sess mime c c.call h
  take_step-IsSound (note t p n i) c lim h = event_at-IsSound t p n i c c.call lim h h
  take_step-IsSound (unregister sess i) c lim h = unregister_at-IsSound sess i c c.call h h
  take_step-IsSound (timeout now saved) c lim h =
      either-IsSound limit c.timer (terminate (record c { timer = false }) c.call now true saved)
        (c, []) (terminate-IsSound c c.call now saved refl) h

  take_steps-IsSound_from :
      (steps : List CallStep) (c : Calls)
      → All (HasLimit limit) steps
      → IsSound limit c
      → IsSound limit (take_steps steps c)
  unfolding take_steps
  take_steps-IsSound_from [] c lim h = h
  take_steps-IsSound_from (s ∷ steps) c (lim, lims) h =
      take_steps-IsSound_from steps (take_step s c).0 lims (take_step-IsSound s c lim h)

-- After any sequence of invitations, notes, leaving sessions and timeouts from a topic without a
-- call, where each note that comes with a provider has the one limit, the timer runs for a call
-- that nobody has accepted, and no more sessions than the limit have credentials.
pub take_steps-IsSound :
    (limit : ℕ) (steps : List CallStep)
    → All (HasLimit limit) steps
    → IsSound limit (take_steps steps no_call)
take_steps-IsSound limit steps lim = take_steps-IsSound_from limit steps no_call lim tt
