-- ===== src/Topic/Calls/Answer.antt =====
-- internal/server/calls_agora.go: the participants of a call: answering, credentials, leaving and
-- disconnecting.
use server_chat.Common.{
  ℕ, Bool, true, false, not, ◌&&◌, ◌||◌, Option, none, some, List, [], ◌∷◌, ◌++◌, ◌==◌, leb, length,
  if◌then◌else◌,
}
use server_chat.Access.{is_writer}
use server_chat.Topic.{Topic, PerUserData, user_data, is_read_only}
use server_chat.Topic.Calls.{
  proxy, multiplex, CallSession, AgoraRole, subscriber, publisher, AgoraPartyData, CallPartyData,
  VideoCall, CallEvent, accept, accepted, Refusal, service_unavailable, not_implemented, malformed,
  call_busy, CallOut, refused, leave_info, accept_offline, to_originator, credentials, Outcome,
  party_of, set_party, delete_party, has_agora, agora_count, originator, persist_call_state,
  end_call, terminate,
}

-- The configured provider: the limit on sessions with credentials.
pub record AgoraProvider : Type 0 where
  pub max_participants : ℕ

-- What comes with an event from outside the topic: the provider, if there is one, the number that its
-- credentials have, if they are issued, whether the save of a state message succeeds, and the time.
pub record CallInput : Type 0 where
  pub agora : Option AgoraProvider
  pub issued : Option ℕ
  pub saved : Bool
  pub now : ℕ

-- A note about a call: `has_id` if its sender waits for a reply.
pub record CallNote : Type 0 where
  pub event : CallEvent
  pub seq_id : ℕ
  pub as_uid : ℕ
  pub sess : CallSession
  pub has_id : Bool

abbrev pub reply_if : Bool → Refusal → List CallOut
reply_if has_id r = if has_id then refused r ∷ [] else []

abbrev pub go_on : VideoCall → Bool → List CallOut → Outcome
go_on v timer outs = (record { call = some v; timer = timer }, outs)

abbrev pub is_accept : CallEvent → Bool
is_accept accept = true
is_accept _ = false

-- msg.AsUser, `none` for the empty text.
abbrev pub from_user : ℕ → Option ℕ
from_user uid = if uid == 0 then none else some uid

-- handleP2PCallAnswer with the originator found.
abbrev pub answer_to : VideoCall → Bool → CallNote → CallInput → ℕ × Option CallSession → Outcome
answer_to v timer n i (uid, none) =
    terminate (record { call = some v; timer = timer }) (some v) i.now false i.saved
answer_to v timer n i (uid, some sess) =
    if sess.sid == n.sess.sid || uid == n.as_uid
    then go_on v timer []
    else if is_accept n.event
    then (if i.saved
        then go_on
            (record v {
              parties =
                  set_party n.sess.sid
                    (record { uid = n.as_uid; is_originator = false; sess = n.sess; agora = none })
                    v.parties;
              accepted_at = some i.now;
            })
            false
            (persist_call_state true v accepted 0
              ++ (accept_offline n.as_uid v.seq n.sess.sid
                  ∷ to_originator n.event n.as_uid sess.sid
                  ∷ []))
        else go_on v timer [])
    else go_on v timer (to_originator n.event n.as_uid sess.sid ∷ [])

-- handleP2PCallAnswer
unfoldable pub handle_p2p_call_answer : VideoCall → Bool → CallNote → CallInput → Outcome
unfolding originator terminate persist_call_state set_party
handle_p2p_call_answer v timer n i =
    if length v.parties == 1 then answer_to v timer n i (originator v) else go_on v timer []

abbrev pub is_there : Option CallPartyData → Bool
is_there none = false
is_there (some party) = true

abbrev pub other_session : ℕ → ℕ → ℕ × Option CallSession → Bool
other_session as_uid sid (uid, none) = false
other_session as_uid sid (uid, some sess) = not (as_uid == uid) || sess.sid == sid

-- canHangUpP2PCall
unfoldable pub can_hang_up_p2p_call : VideoCall → CallNote → Bool
unfolding party_of originator
can_hang_up_p2p_call v n =
    if length v.parties == 2
    then is_there (party_of n.sess.sid v.parties)
    else if length v.parties == 1
    then other_session n.as_uid n.sess.sid (originator v)
    else true

-- agoraRoleForParticipant
unfoldable pub agora_role : Topic → PerUserData → ℕ → AgoraRole
unfolding is_writer is_read_only
agora_role t pud mode =
    if is_writer mode && not pud.is_chan && not (is_read_only t) then publisher else subscriber

abbrev pub is_agora_party : Option CallPartyData → Bool
is_agora_party none = false
is_agora_party (some party) = has_agora party

-- The entry of the session with its media state.
abbrev pub with_agora : CallNote → Option CallPartyData → AgoraPartyData → CallPartyData
with_agora n none agora = record {
  uid = n.as_uid;
  is_originator = false;
  sess = n.sess;
  agora = some agora;
}
with_agora n (some party) agora = record party { agora = some agora }

-- The credentials have been issued, and the call is accepted.
abbrev pub grant_credentials :
    VideoCall → Bool → CallNote → Option CallPartyData → AgoraPartyData → List CallOut → Outcome
grant_credentials v timer n found agora outs =
    go_on (record v { parties = set_party n.sess.sid (with_agora n found agora) v.parties }) timer
      (outs ++ credentials n.event agora.uid agora.role ∷ [])

-- A join, by the time of the acceptance: `markAgoraCallAccepted` for the first credentials of a call.
abbrev pub join_call :
    VideoCall
    → Bool
    → CallNote
    → CallInput
    → Option CallPartyData
    → AgoraPartyData
    → Option ℕ
    → Outcome
join_call v timer n i found agora (some at) = grant_credentials v timer n found agora []
join_call v timer n i found agora none =
    if i.saved
    then grant_credentials (record v { accepted_at = some i.now }) false n found agora
        (persist_call_state true v accepted 0)
    else go_on v timer []

abbrev pub issue_found :
    Topic
    → VideoCall
    → Bool
    → CallNote
    → CallInput
    → AgoraProvider
    → ℕ
    → Bool
    → Option CallPartyData
    → Outcome
issue_found t v timer n i provider mode refreshes found =
    if refreshes && not (is_agora_party found)
    then go_on v timer (reply_if n.has_id malformed)
    else if not (is_agora_party found) && leb provider.max_participants (agora_count v.parties)
    then go_on v timer (reply_if n.has_id call_busy)
    else elim i.issued [
      | none ↦ go_on v timer (reply_if n.has_id service_unavailable)
      | some number ↦
          let agora : AgoraPartyData = record {
            uid = number;
            role = agora_role t (user_data t n.as_uid) mode;
          } in
          if refreshes
          then grant_credentials v timer n found agora []
          else join_call v timer n i found agora v.accepted_at
    ]

-- issueAgoraCallCredentials
unfoldable pub issue_credentials :
    Topic → VideoCall → Bool → CallNote → CallInput → ℕ → Bool → Outcome
unfolding party_of set_party agora_count agora_role persist_call_state
issue_credentials t v timer n i mode refreshes = elim i.agora [
  | none ↦ go_on v timer (reply_if n.has_id not_implemented)
  | some provider ↦
      issue_found t v timer n i provider mode refreshes (party_of n.sess.sid v.parties)
]

-- The call after a party has gone, which ends it if nobody has credentials.
abbrev pub after_leave : VideoCall → Bool → Option ℕ → CallInput → List CallOut → Outcome
after_leave v timer from i outs =
    if agora_count v.parties == 0
    then (let (c, more) = end_call v from i.now false i.saved in (c, outs ++ more))
    else go_on v timer outs

abbrev pub leave_party : VideoCall → Bool → CallNote → CallInput → Option CallPartyData → Outcome
leave_party v timer n i none = go_on v timer []
leave_party v timer n i (some party) =
    if has_agora party && party.uid == n.as_uid
    then after_leave (record v { parties = delete_party n.sess.sid v.parties }) timer
        (from_user n.as_uid) i (leave_info party.uid n.sess.sid ∷ [])
    else go_on v timer []

-- leaveAgoraCall
unfoldable pub leave_call : VideoCall → Bool → CallNote → CallInput → Outcome
unfolding party_of delete_party agora_count end_call
leave_call v timer n i = leave_party v timer n i (party_of n.sess.sid v.parties)

abbrev pub matches_kind : CallSession → ℕ → CallPartyData → Bool
matches_kind sess sid party = elim sess.kind [
  | multiplex own ↦ elim party.sess.kind [ proxy multi ↦ multi == own | _ ↦ false ]
  | _ ↦ sid == sess.sid
]

-- The loop of disconnectAgoraCallSessions: who is left, the last user who goes, and what is sent.
pub record Disconnected : Type 0 where
  pub left : List (ℕ × CallPartyData)
  pub last_uid : ℕ
  pub outs : List CallOut

unfoldable pub disconnect_all : CallSession → List (ℕ × CallPartyData) → Disconnected
disconnect_all sess [] = record { left = []; last_uid = 0; outs = [] }
disconnect_all sess ((sid, party) ∷ parties) =
    let rest = disconnect_all sess parties in
    if matches_kind sess sid party && has_agora party
    then record {
      left = rest.left;
      last_uid = if rest.last_uid == 0 then party.uid else rest.last_uid;
      outs = leave_info party.uid sid ∷ rest.outs;
    }
    else record rest { left = (sid, party) ∷ rest.left }

-- disconnectAgoraCallSessions
unfoldable pub disconnect_sessions : VideoCall → Bool → CallSession → CallInput → Outcome
unfolding disconnect_all agora_count end_call
disconnect_sessions v timer sess i =
    let d = disconnect_all sess v.parties in
    let v' = record v { parties = d.left } in
    if agora_count d.left == 0 && not (d.last_uid == 0)
    then (let (c, more) = end_call v' (some d.last_uid) i.now false i.saved in (c, d.outs ++ more))
    else go_on v' timer d.outs
