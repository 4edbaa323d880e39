-- ===== src/Topic/Calls/Reasons.antt =====
-- internal/server/calls_agora.go: who may end a call by a note.
use mathlib.Core.List.{Memᴰ}
use mathlib.Core.List.Memᴰ.{head, tail}
use server_chat.Common.{
  ℕ, ◌≡◌, ◌≢◌, ◌⊎◌, inl, inr, refl, List, [], ◌∷◌, Bool-cases, true, false, ◌||◌, Option, none,
  some, ◌==◌, length, arith, ==_iff,
}
use server_chat.Access.{is_admin, is_joiner, is_reader}
use server_chat.Topic.{Topic, mode, user_data, is_p2p, is_inactive}
use server_chat.Topic.Calls.{
  CallSession, CallPartyData, VideoCall, ringing, accept, hang_up, leave, party_of, delete_party,
  has_agora, agora_count, originator,
}
use server_chat.Topic.Calls.Answer.{CallNote, can_hang_up_p2p_call, is_there, other_session}

-- Why a note may end a call.
pub data EndReason (t : Topic) (n : CallNote) (v : VideoCall) : Type 0 where
  -- of a P2P topic, where a call of two parties has one with this session
  party_hangs_up :
      (party : CallPartyData)
      → n.event ≡ hang_up
      → is_p2p t.cat ≡ true
      → length v.parties ≡ 2
      → Memᴰ (n.sess.sid, party) v.parties
      → EndReason t n v
  -- where one party is there: the session of the originator, or another user
  ringing_ends :
      (sess : CallSession)
      → n.event ≡ hang_up
      → is_p2p t.cat ≡ true
      → length v.parties ≡ 1
      → (originator v).1 ≡ some sess
      → (n.as_uid ≢ (originator v).0) ⊎ (n.sess.sid ≡ sess.sid)
      → EndReason t n v
  -- where no party is there or more than two, any session
  anyone_hangs_up :
      n.event ≡ hang_up
      → is_p2p t.cat ≡ true
      → length v.parties ≢ 1
      → length v.parties ≢ 2
      → EndReason t n v
  -- of another topic: the user has started the call, or is an admin
  host_hangs_up :
      n.event ≡ hang_up
      → is_p2p t.cat ≡ false
      → (n.as_uid == (originator v).0 || is_admin (mode (user_data t n.as_uid))) ≡ true
      → EndReason t n v
  -- the user leaves on a session with credentials, and nobody with credentials is left
  last_leaves :
      (party : CallPartyData)
      → n.event ≡ leave
      → party_of n.sess.sid v.parties ≡ some party
      → has_agora party ≡ true
      → party.uid ≡ n.as_uid
      → agora_count (delete_party n.sess.sid v.parties) ≡ 0
      → EndReason t n v
  -- an answer in a P2P topic, to a call of one party, finds no session of the originator
  no_originator :
      (n.event ≡ ringing) ⊎ (n.event ≡ accept)
      → is_p2p t.cat ≡ true
      → length v.parties ≡ 1
      → (originator v).1 ≡ none
      → EndReason t n v

-- What may take part in a call, and end it.
pub record MayEnd (t : Topic) (n : CallNote) (v : VideoCall) : Type 0 where
  pub current : v.seq ≡ n.seq_id
  pub active : is_inactive t ≡ false
  pub joined : is_joiner (mode (user_data t n.as_uid)) ≡ true
  pub may_read : is_reader (mode (user_data t n.as_uid)) ≡ true
  pub reason : EndReason t n v

party_of-Memᴰ :
    (parties : List (ℕ × CallPartyData)) (sid : ℕ)
    → is_there (party_of sid parties) ≡ true
    → (party : CallPartyData) × Memᴰ (sid, party) parties
unfolding party_of
party_of-Memᴰ [] sid h = cc
party_of-Memᴰ ((k, party) ∷ parties) sid h = elim (Bool-cases (k == sid)) [
  | inl e ↦ (party, rw (← (==_iff k sid).0 e) (head refl))
  | inr e ↦ let (found, m) = party_of-Memᴰ parties sid (rw (e, party_of) at h) in (found, tail m)
]

module _ (t : Topic) (n : CallNote) (v : VideoCall) where
  other_session-reason :
      (o : ℕ × Option CallSession)
      → other_session n.as_uid n.sess.sid o ≡ true
      → (sess : CallSession) × (o.1 ≡ some sess) × ((n.as_uid ≢ o.0) ⊎ (n.sess.sid ≡ sess.sid))
  other_session-reason (uid, none) h = cc
  other_session-reason (uid, some sess) h =
      (sess, refl, ground (arith, ==_iff n.as_uid uid, ==_iff sess.sid n.sess.sid))

  pub p2p-reason :
      n.event ≡ hang_up → is_p2p t.cat ≡ true → can_hang_up_p2p_call v n ≡ true → EndReason t n v
  unfolding can_hang_up_p2p_call
  p2p-reason event p2p h = elim (Bool-cases (length v.parties == 2)) [
    | inl two ↦
        let (party, m) = party_of-Memᴰ v.parties n.sess.sid (rw two at h) in
        party_hangs_up party event p2p ((==_iff _ 2).0 two) m
    | inr two ↦ (elim (Bool-cases (length v.parties == 1)) [
      | inl one ↦
          let (sess, o, who) = other_session-reason (originator v) (rw (two, one) at h) in
          ringing_ends sess event p2p ((==_iff _ 1).0 one) o who
      | inr one ↦
          anyone_hangs_up event p2p (ground (arith, ==_iff (length v.parties) 1))
            (ground (arith, ==_iff (length v.parties) 2))
    ])
  ]
