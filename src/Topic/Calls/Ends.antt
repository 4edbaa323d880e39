-- ===== src/Topic/Calls/Ends.antt =====
-- internal/server/calls.go and calls_agora.go: which notes end a call.
use server_chat.Common.{
  ℕ, ◌≡◌, ◌⊎◌, inl, inr, refl, ap, Bool, true, false, not, ◌&&◌, ◌||◌, Option, none, some, ◌==◌,
  leb, length, if◌then◌else◌, arith, ==_iff,
}
use server_chat.Access.{is_admin, is_joiner, is_reader}
use server_chat.Topic.{Topic, mode, user_data, is_p2p, is_inactive}
use server_chat.Topic.Calls.{
  CallSession, CallPartyData, AgoraPartyData, VideoCall, CallEvent, ringing, accept, hang_up, join,
  leave, refresh, other_event, Refusal, Calls, Outcome, party_of, delete_party, has_agora,
  agora_count, originator,
}
use server_chat.Topic.Calls.Answer.{
  AgoraProvider, CallInput, CallNote, answer_to, handle_p2p_call_answer, can_hang_up_p2p_call,
  is_agora_party, is_accept, join_call, issue_found, issue_credentials, leave_party, leave_call,
}
use server_chat.Topic.Calls.Note.{
  CallPolicy, dispatch_event, handle_agora_call_event, checked_event, check_policy, call_event,
  handle_call_event, event_at, is_member,
}
use server_chat.Topic.Calls.Reasons.{
  EndReason, host_hangs_up, last_leaves, no_originator, MayEnd, p2p-reason,
}

module _ (t : Topic) (n : CallNote) (v : VideoCall) (timer : Bool) where
  abbrev Ends : Outcome → Type 0
  Ends o = o.0.call ≡ none

  if-Ends {ℓ} :
      {P : Type ℓ} (b : Bool) (x y : Outcome)
      → (b ≡ true → Ends x → P)
      → (b ≡ false → Ends y → P)
      → Ends (if b then x else y)
      → P
  if-Ends true x y f g e = f refl e
  if-Ends false x y f g e = g refl e

  answer_to-Ends :
      (i : CallInput) (o : ℕ × Option CallSession)
      → (n.event ≡ ringing) ⊎ (n.event ≡ accept)
      → is_p2p t.cat ≡ true
      → length v.parties ≡ 1
      → originator v ≡ o
      → Ends (answer_to v timer n i o)
      → EndReason t n v
  answer_to-Ends i (uid, none) a p one e h =
      no_originator a p one (ap (λ (o : ℕ × Option CallSession). o.1) e)
  answer_to-Ends i (uid, some sess) a p one e h =
      if-Ends (sess.sid == n.sess.sid || uid == n.as_uid) _ _ (λ x k. cc)
        (λ x k.
          if-Ends (is_accept n.event) _ _ (λ b k'. if-Ends i.saved _ _ (λ d m. cc) (λ d m. cc) k')
            (λ b k'. cc) k)
        h

  join_call-goes_on :
      (i : CallInput) (found : Option CallPartyData) (agora : AgoraPartyData) (at : Option ℕ)
      → Ends (join_call v timer n i found agora at)
      → ⊥
  join_call-goes_on i found agora (some at) h = cc
  join_call-goes_on i found agora none h = if-Ends i.saved _ _ (λ a k. cc) (λ a k. cc) h

  issue_found-goes_on :
      (i : CallInput) (provider : AgoraProvider) (m : ℕ) (refreshes : Bool)
      (found : Option CallPartyData) (issued : Option ℕ)
      → i.issued ≡ issued
      → Ends (issue_found t v timer n i provider m refreshes found)
      → ⊥
  issue_found-goes_on i provider m refreshes found none e h =
      if-Ends (refreshes && not (is_agora_party found)) _ _ (λ a k. cc)
        (λ a k.
          if-Ends
            (not (is_agora_party found) && leb provider.max_participants (agora_count v.parties)) _
            _ (λ b k'. cc) (λ b k'. (let m' = rw e at k' in cc)) k)
        h
  issue_found-goes_on i provider m refreshes found (some number) e h =
      if-Ends (refreshes && not (is_agora_party found)) _ _ (λ a k. cc)
        (λ a k.
          if-Ends
            (not (is_agora_party found) && leb provider.max_participants (agora_count v.parties)) _
            _ (λ b k'. cc)
            (λ b k'.
              (let m' = rw e at k' in
                if-Ends refreshes _ _ (λ d q. cc)
                  (λ d q. join_call-goes_on i found _ v.accepted_at q) m'))
            k)
        h

  issue_credentials-goes_on :
      (i : CallInput) (m : ℕ) (refreshes : Bool) (provider : Option AgoraProvider)
      → i.agora ≡ provider
      → Ends (issue_credentials t v timer n i m refreshes)
      → ⊥
  unfolding issue_credentials
  issue_credentials-goes_on i m refreshes none e h = (let k = rw e at h in cc)
  issue_credentials-goes_on i m refreshes (some provider) e h =
      let k = rw e at h in
      issue_found-goes_on i provider m refreshes (party_of n.sess.sid v.parties) i.issued refl k

  leave_party-Ends :
      (i : CallInput) (found : Option CallPartyData)
      → n.event ≡ leave
      → party_of n.sess.sid v.parties ≡ found
      → Ends (leave_party v timer n i found)
      → EndReason t n v
  leave_party-Ends i none e f h = cc
  leave_party-Ends i (some party) e f h =
      if-Ends (has_agora party && party.uid == n.as_uid) _ _
        (λ a k.
          if-Ends (agora_count (delete_party n.sess.sid v.parties) == 0) _ _
            (λ b k'.
              last_leaves party e f (ground arith) (ground (arith, ==_iff party.uid n.as_uid))
                ((==_iff _ 0).0 b))
            (λ b k'. cc) k)
        (λ a k. cc) h

  answer-Ends :
      (i : CallInput)
      → (n.event ≡ ringing) ⊎ (n.event ≡ accept)
      → is_p2p t.cat ≡ true
      → Ends (handle_p2p_call_answer v timer n i)
      → EndReason t n v
  unfolding handle_p2p_call_answer
  answer-Ends i event p2p h =
      if-Ends (length v.parties == 1) _ _
        (λ a k. answer_to-Ends i (originator v) event p2p ((==_iff _ 1).0 a) refl k) (λ a k. cc) h

  dispatch_event-Ends :
      (i : CallInput) (e : CallEvent)
      → n.event ≡ e
      → Ends (dispatch_event t v timer n i (mode (user_data t n.as_uid)) e)
      → EndReason t n v
  unfolding dispatch_event leave_call
  dispatch_event-Ends i join same h =
      absurd (issue_credentials-goes_on i (mode (user_data t n.as_uid)) false i.agora refl h)
  dispatch_event-Ends i refresh same h =
      absurd (issue_credentials-goes_on i (mode (user_data t n.as_uid)) true i.agora refl h)
  dispatch_event-Ends i leave same h =
      leave_party-Ends i (party_of n.sess.sid v.parties) same refl h
  dispatch_event-Ends i hang_up same h =
      if-Ends (is_p2p t.cat) _ _
        (λ a k.
          if-Ends (can_hang_up_p2p_call v n) _ _ (λ b k'. p2p-reason t n v same a b) (λ b k'. cc) k)
        (λ a k.
          if-Ends (n.as_uid == (originator v).0 || is_admin (mode (user_data t n.as_uid))) _ _
            (λ b k'. host_hangs_up same a b) (λ b k'. cc) k)
        h
  dispatch_event-Ends i ringing same h =
      if-Ends (is_p2p t.cat) _ _ (λ a k. answer-Ends i (inl same) a k) (λ a k. cc) h
  dispatch_event-Ends i accept same h =
      if-Ends (is_p2p t.cat) _ _ (λ a k. answer-Ends i (inr same) a k) (λ a k. cc) h
  dispatch_event-Ends i (other_event e) same h = cc

  -- The guards of the note, and the reason.
  record Passed : Type 0 where
    joined : is_joiner (mode (user_data t n.as_uid)) ≡ true
    may_read : is_reader (mode (user_data t n.as_uid)) ≡ true
    reason : EndReason t n v

  or_false : (a b : Bool) → (a || b) ≡ false → (a ≡ false) × (b ≡ false)
  or_false a b h = ground arith

  not-false : (a : Bool) → not a ≡ false → a ≡ true
  not-false a h = ground arith

  agora_event-Ends : (i : CallInput) → Ends (handle_agora_call_event t v timer n i) → Passed
  unfolding handle_agora_call_event
  agora_event-Ends i h =
      if-Ends
        ((user_data t n.as_uid).deleted
          || not (is_joiner (mode (user_data t n.as_uid)))
          || not (is_reader (mode (user_data t n.as_uid))))
        _ _ (λ a k. cc)
        (λ a k.
          (let (front, reader) = or_false _ _ a in
            let (present, joiner) = or_false _ _ front in
            record {
              joined = not-false _ joiner;
              may_read = not-false _ reader;
              reason = dispatch_event-Ends i n.event refl k;
            }))
        h

  checked_event-Ends :
      (i : CallInput) (r : Option Refusal) → Ends (checked_event t v timer n i r) → Passed
  checked_event-Ends i (some r) h = cc
  checked_event-Ends i none h = if-Ends v.is_agora _ _ (λ a k. agora_event-Ends i k) (λ a k. cc) h

  call_event-Ends :
      (p : CallPolicy) (i : CallInput) → Ends (call_event t p v timer n i) → MayEnd t n v
  unfolding call_event
  call_event-Ends p i h =
      if-Ends (is_inactive t) _ _ (λ a k. cc)
        (λ a k.
          if-Ends (not (v.seq == n.seq_id)) _ _ (λ b k'. cc)
            (λ b k'.
              if-Ends (not (is_member (t.per_user n.as_uid))) _ _ (λ d q. cc)
                (λ d q.
                  if-Ends (not p.official_passes) _ _ (λ e r. cc)
                    (λ e r.
                      (let passed = checked_event-Ends i (check_policy t p n v) r in
                        record {
                          current = (==_iff v.seq n.seq_id).0 (not-false _ b);
                          active = a;
                          joined = passed.joined;
                          may_read = passed.may_read;
                          reason = passed.reason;
                        }))
                    q)
                k')
            k)
        h

event_at-Ends :
    (t : Topic) (p : CallPolicy) (n : CallNote) (i : CallInput) (c : Calls) (v : VideoCall)
    → (event_at t p n i c (some v)).0.call ≡ none
    → MayEnd t n v
event_at-Ends t p n i c v h = call_event-Ends t n v c.timer p i h

-- If a note ends the call of a topic, then the topic is active, the note is about this call, and
-- its user may join and read; and in a P2P topic it is a hang-up: with two parties from the session
-- of one of them, with one party from the originator's session or by another user, and with none or
-- more than two from any session; or in another topic a hang-up by the originator or an admin; or a
-- user leaves on an own session with credentials, and no other session has any; or in a P2P topic
-- it answers a call of one party, and no session of the originator is known.
pub handle_call_event-MayEnd :
    (t : Topic) (p : CallPolicy) (n : CallNote) (i : CallInput) (c : Calls) (v : VideoCall)
    → c.call ≡ some v
    → (handle_call_event t p n i c).0.call ≡ none
    → MayEnd t n v
unfolding handle_call_event
handle_call_event-MayEnd t p n i c v e h = event_at-Ends t p n i c v (rw e at h)
