-- ===== src/Topic/Calls.antt =====
-- internal/server/calls.go and calls_agora.go: the audio or video call of a topic. An event comes
-- with what the code takes from elsewhere: whether the official policy lets it pass, the answer of the
-- business policy, whether a state message is saved, the credentials of the media provider, the time.
pub mod Answer
pub mod Config
pub mod Note
pub mod Limits
pub mod Reasons
pub mod Ends
pub mod Inviting
pub mod Stranded
use server_chat.Common.{
  ℕ, zero, suc, ◌+◌, ◌-◌, Bool, true, false, not, ◌&&◌, ◌||◌, Option, none, some, List, [], ◌∷◌,
  ◌++◌, ◌==◌, ltb, leb, length, if◌then◌else◌,
}
use server_chat.Topic.{Topic}

-- A session: an ordinary one, the proxy of one on another node (with the multiplexing session that
-- it belongs to), or a multiplexing session.
pub data SessionKind : Type 0 where
  plain : SessionKind
  proxy multiplex : ℕ → SessionKind

pub record CallSession : Type 0 where
  pub sid : ℕ
  pub kind : SessionKind

-- agoraParticipantRole
pub data AgoraRole : Type 0 where
  subscriber publisher : AgoraRole

-- agoraPartyData
pub record AgoraPartyData : Type 0 where
  pub uid : ℕ
  pub role : AgoraRole

-- callPartyData
pub record CallPartyData : Type 0 where
  pub uid : ℕ
  pub is_originator : Bool
  pub sess : CallSession
  pub agora : Option AgoraPartyData

-- videoCall, without the content. The parties are a list with one entry for a session, in the order
-- in which a loop visits the map; the zero time is `none`.
pub record VideoCall : Type 0 where
  pub parties : List (ℕ × CallPartyData)
  pub seq : ℕ
  pub content_mime : Option ℕ
  pub accepted_at : Option ℕ
  pub is_agora : Bool
  pub originator_uid : ℕ
  pub originator_sess : Option CallSession

-- The events of a note, and the states that a message records.
pub data CallEvent : Type 0 where
  ringing accept hang_up join leave refresh : CallEvent
  other_event : ℕ → CallEvent

pub data CallState : Type 0 where
  accepted finished disconnected missed declined : CallState

pub data Refusal : Type 0 where
  locked permission_denied service_unavailable not_implemented malformed call_busy
        operation_not_allowed :
      Refusal

-- The part of a message head that messageHead writes.
pub record CallHead : Type 0 where
  pub replace : Option ℕ
  pub webrtc : Option CallState
  pub provider_agora : Bool
  pub webrtc_duration : Option ℕ
  pub mime : Option ℕ

-- What is sent, in order.
pub data CallOut : Type 0 where
  refused : Refusal → CallOut
  -- the message that replaces the invitation
  state_message : (originator : ℕ) (head : CallHead) → CallOut
  -- to the sessions of the topic
  hang_up_info : (seq : ℕ) → CallOut
  leave_info : (uid skip_sid : ℕ) → CallOut
  -- to the users of the topic, on sessions that are not attached to it
  hang_up_offline : (seq : ℕ) → CallOut
  accept_offline : (uid seq skip_sid : ℕ) → CallOut
  -- to the session of the originator, and to the session of the event
  to_originator : (event : CallEvent) (from sid : ℕ) → CallOut
  credentials : (event : CallEvent) (agora_uid : ℕ) (role : AgoraRole) → CallOut

-- currentCall, and whether callEstablishmentTimer runs.
pub record Calls : Type 0 where
  pub call : Option VideoCall
  pub timer : Bool

abbrev pub Outcome : Type 0
Outcome = Calls × List CallOut

-- A map by session ids.
unfoldable pub party_of : ℕ → List (ℕ × CallPartyData) → Option CallPartyData
party_of sid [] = none
party_of sid ((k, party) ∷ parties) =
    let rest = party_of sid parties in if k == sid then some party else rest

unfoldable pub set_party : ℕ → CallPartyData → List (ℕ × CallPartyData) → List (ℕ × CallPartyData)
set_party sid party [] = (sid, party) ∷ []
set_party sid party ((k, other) ∷ parties) =
    let rest = set_party sid party parties in
    if k == sid then (k, party) ∷ parties else (k, other) ∷ rest

unfoldable pub delete_party : ℕ → List (ℕ × CallPartyData) → List (ℕ × CallPartyData)
delete_party sid [] = []
delete_party sid ((k, party) ∷ parties) =
    let rest = delete_party sid parties in if k == sid then parties else (k, party) ∷ rest

abbrev pub has_agora : CallPartyData → Bool
has_agora party = elim party.agora [ none ↦ false | some _ ↦ true ]

-- agoraParticipantCount
unfoldable pub agora_count : List (ℕ × CallPartyData) → ℕ
agora_count [] = 0
agora_count ((k, party) ∷ parties) = agora_count parties + (if has_agora party then 1 else 0)

abbrev first_originator : List (ℕ × CallPartyData) → ℕ × Option CallSession
first_originator [] = (0, none)
first_originator ((k, party) ∷ parties) =
    let rest = first_originator parties in
    if party.is_originator then (party.uid, some party.sess) else rest

-- getCallOriginator, for a topic with a call.
unfoldable pub originator : VideoCall → ℕ × Option CallSession
originator v =
    if v.originator_uid == 0
    then first_originator v.parties
    else (v.originator_uid, v.originator_sess)

-- handleCallInvite, after the invitation has been saved under the last id of the topic.
unfoldable pub handle_call_invite : Topic → ℕ → CallSession → Option ℕ → Calls → Calls
handle_call_invite t as_uid sess mime c = record {
  call = some (record {
    parties =
        (sess.sid, record { uid = as_uid; is_originator = true; sess = sess; agora = none }) ∷ [];
    seq = t.last_id;
    content_mime = mime;
    accepted_at = none;
    is_agora = true;
    originator_uid = as_uid;
    originator_sess = some sess;
  });
  timer = true;
}

abbrev or_else : Option ℕ → Option ℕ → Option ℕ
or_else none old = old
or_else (some new) old = some new

-- messageHead
unfoldable pub message_head : VideoCall → CallHead → CallState → ℕ → CallHead
message_head v head state duration = record {
  replace = some v.seq;
  webrtc = some state;
  provider_agora = v.is_agora || head.provider_agora;
  webrtc_duration = if ltb 0 duration then some duration else none;
  mime = or_else v.content_mime head.mime;
}

-- An event has no message, and so no head yet.
abbrev pub no_head : CallHead
no_head = record {
  replace = none;
  webrtc = none;
  provider_agora = false;
  webrtc_duration = none;
  mime = none;
}

-- persistCallState: the message, if it is saved.
unfoldable pub persist_call_state : Bool → VideoCall → CallState → ℕ → List CallOut
unfolding originator message_head
persist_call_state true v state duration =
    state_message (originator v).0 (message_head v no_head state duration) ∷ []
persist_call_state false v state duration = []

-- The state and the duration that a call ends with. `from` is `none` for the empty text.
unfoldable pub end_state : VideoCall → Option ℕ → ℕ → Bool → CallState × ℕ
unfolding originator
end_state v none now timed_out = (if timed_out then missed else disconnected, 0)
end_state v (some from) now timed_out = elim v.accepted_at [
  | some at ↦ (finished, now - at)
  | none ↦ (if from == (originator v).0 then missed else declined, 0)
]

-- maybeEndCallInProgress, for a topic with a call.
unfoldable pub end_call : VideoCall → Option ℕ → ℕ → Bool → Bool → Outcome
unfolding end_state persist_call_state
end_call v from now timed_out saved = (
  record { call = none; timer = false },
  persist_call_state saved v (end_state v from now timed_out).0 (end_state v from now timed_out).1
      ++ (hang_up_info v.seq ∷ hang_up_offline v.seq ∷ []),
)

abbrev terminate_from : VideoCall → Bool → ℕ → Bool → Bool → ℕ × Option CallSession → Outcome
terminate_from v timer now timed_out saved (uid, none) = (record { call = none; timer = timer }, [])
terminate_from v timer now timed_out saved (uid, some sess) =
    if uid == 0
    then (record { call = none; timer = timer }, [])
    else end_call v none now timed_out saved

-- terminateCallInProgress
unfoldable pub terminate : Calls → Option VideoCall → ℕ → Bool → Bool → Outcome
unfolding end_call originator
terminate c none now timed_out saved = (c, [])
terminate c (some v) now timed_out saved =
    terminate_from v c.timer now timed_out saved (originator v)

-- The timer of a topic fires.
unfoldable pub on_timeout : ℕ → Bool → Calls → Outcome
unfolding terminate
on_timeout now saved c =
    if c.timer then terminate (record c { timer = false }) c.call now true saved else (c, [])
