-- ===== src/Topic/Calls/Stranded.antt =====
-- internal/server/calls_agora.go: a P2P call that was answered and whose parties never had credentials.
use server_chat.Common.{
  ℕ, ◌≡◌, refl, Bool, true, false, not, ◌||◌, inl, inr, Option, none, some, List, [], ◌∷◌, ◌==◌,
  length, All, if◌then◌else◌, Bool-cases, Option-cases, arith,
}
use server_chat.Topic.{Topic, p2p, mode, user_data, is_inactive}
use server_chat.Access.{is_joiner, is_reader}
use server_chat.Topic.Calls.{
  CallSession, CallPartyData, VideoCall, CallEvent, ringing, accept, hang_up, join, leave, refresh,
  other_event, Refusal, Calls, Outcome, party_of, has_agora, agora_count, on_timeout,
}
use server_chat.Topic.Calls.Answer.{
  CallInput, CallNote, go_on, handle_p2p_call_answer, can_hang_up_p2p_call, issue_credentials,
  leave_call, disconnect_all, disconnect_sessions, matches_kind,
}
use server_chat.Topic.Calls.Note.{
  CallPolicy, dispatch_event, handle_agora_call_event, checked_event, check_policy, call_event,
  handle_call_event, unregister_session, CallStep, invite, note, unregister, timeout, take_step,
  take_steps, is_member,
}

-- The event is not one that asks for the first credentials.
abbrev is_join : CallEvent → Bool
is_join join = true
is_join _ = false

-- The step is an invitation, the timer or a session that leaves, or a note in the P2P topic from a
-- session that is no party of the call and does not join it.
abbrev pub IsOutside : VideoCall → CallStep → Type 0
IsOutside v (note t p n i) =
    (t.cat ≡ p2p) × (party_of n.sess.sid v.parties ≡ none) × (is_join n.event ≡ false)
IsOutside v (invite t as_uid sess mime) = Unit {0}
IsOutside v (unregister sess i) = Unit {0}
IsOutside v (timeout now saved) = Unit {0}

nobody_goes :
    (sess : CallSession) (parties : List (ℕ × CallPartyData))
    → agora_count parties ≡ 0
    → disconnect_all sess parties ≡ record { left = parties; last_uid = 0; outs = [] }
unfolding disconnect_all agora_count
nobody_goes sess [] h = refl
nobody_goes sess ((sid, party) ∷ parties) h = elim (Bool-cases (has_agora party)) [
  | inl e ↦ absurd (let k = rw e at h in omega (arith, k))
  | inr e ↦
      let rest : agora_count parties ≡ 0 = omega arith in
      elim (Bool-cases (matches_kind sess sid party)) [
        | inl m ↦ rw (m, e, nobody_goes sess parties rest) refl
        | inr m ↦ rw (m, nobody_goes sess parties rest) refl
      ]
]

-- A call of two parties without credentials, accepted, so that the timer is off.
pub record IsStranded (c : Calls) (v : VideoCall) : Type 0 where
  pub here : c ≡ record { call = some v; timer = false }
  pub through_agora : v.is_agora ≡ true
  pub two : length v.parties ≡ 2
  pub no_media : agora_count v.parties ≡ 0

module _ (v : VideoCall) (two : length v.parties ≡ 2) (no_media : agora_count v.parties ≡ 0) where
  abbrev Stays : Outcome → Type 0
  Stays o = o.0 ≡ record { call = some v; timer = false }

  Stays-either : (b : Bool) (x y : Outcome) → Stays x → Stays y → Stays (if b then x else y)
  Stays-either true x y p q = p
  Stays-either false x y p q = q

  Stays-true : (b : Bool) (x y : Outcome) → b ≡ true → Stays x → Stays (if b then x else y)
  Stays-true true x y e p = p
  Stays-true false x y e p = cc

  disconnect-Stays :
      (sess : CallSession) (i : CallInput) → Stays (disconnect_sessions v false sess i)
  unfolding disconnect_sessions
  disconnect-Stays sess i = rw (nobody_goes sess v.parties no_media, no_media) refl

  module _ (t : Topic) (n : CallNote) (i : CallInput)
      (outside : party_of n.sess.sid v.parties ≡ none) where
    refresh-Stays : (m : ℕ) → Stays (issue_credentials t v false n i m true)
    unfolding issue_credentials
    refresh-Stays m = elim (Option-cases i.agora) [
      | inl off ↦ rw off refl
      | inr (provider, on) ↦ rw (on, outside) refl
    ]

    leave-Stays : Stays (leave_call v false n i)
    unfolding leave_call
    leave-Stays = rw outside refl

    hang_up-refused : can_hang_up_p2p_call v n ≡ false
    unfolding can_hang_up_p2p_call
    hang_up-refused = rw (two, outside) refl

    answer-Stays : Stays (handle_p2p_call_answer v false n i)
    unfolding handle_p2p_call_answer
    answer-Stays = rw two refl

    dispatch-Stays :
        (m : ℕ) (e : CallEvent)
        → t.cat ≡ p2p
        → is_join e ≡ false
        → Stays (dispatch_event t v false n i m e)
    unfolding dispatch_event
    dispatch-Stays m join cat other = cc
    dispatch-Stays m refresh cat other = refresh-Stays m
    dispatch-Stays m leave cat other = leave-Stays
    dispatch-Stays m hang_up cat other = rw (cat, hang_up-refused) refl
    dispatch-Stays m ringing cat other = rw cat answer-Stays
    dispatch-Stays m accept cat other = rw cat answer-Stays
    dispatch-Stays m (other_event e) cat other = refl

    agora_event-Stays :
        t.cat ≡ p2p → is_join n.event ≡ false → Stays (handle_agora_call_event t v false n i)
    unfolding handle_agora_call_event
    agora_event-Stays cat other =
        Stays-either
          ((user_data t n.as_uid).deleted
            || not (is_joiner (mode (user_data t n.as_uid)))
            || not (is_reader (mode (user_data t n.as_uid))))
          _ (dispatch_event t v false n i (mode (user_data t n.as_uid)) n.event) refl
          (dispatch-Stays (mode (user_data t n.as_uid)) n.event cat other)

    checked_event-Stays :
        (r : Option Refusal)
        → t.cat ≡ p2p
        → is_join n.event ≡ false
        → Stays (checked_event t v false n i r)
    checked_event-Stays (some r) cat other = refl
    checked_event-Stays none cat other =
        Stays-either v.is_agora (handle_agora_call_event t v false n i) (go_on v false [])
          (agora_event-Stays cat other) refl

    call_event-Stays :
        (p : CallPolicy)
        → t.cat ≡ p2p
        → is_join n.event ≡ false
        → Stays (call_event t p v false n i)
    unfolding call_event
    call_event-Stays p cat other = Stays-either (is_inactive t) _ _ refl (
        Stays-either (not (v.seq == n.seq_id)) _ _ refl (
          Stays-either (not (is_member (t.per_user n.as_uid))) _ _ refl (
            Stays-either (not p.official_passes) _ _ refl
              (checked_event-Stays (check_policy t p n v) cat other))))

  take_step-Stays :
      (s : CallStep)
      → v.is_agora ≡ true
      → IsOutside v s
      → Stays (take_step s (record { call = some v; timer = false }))
  unfolding take_step handle_call_event unregister_session on_timeout
  take_step-Stays (invite t as_uid sess mime) agora o = refl
  take_step-Stays (note t p n i) agora (cat, outside, other) =
      call_event-Stays t n i outside p cat other
  take_step-Stays (unregister sess i) agora o =
      Stays-true v.is_agora (disconnect_sessions v false sess i) _ agora (disconnect-Stays sess i)
  take_step-Stays (timeout now saved) agora o = refl

  take_steps-Stays :
      (steps : List CallStep)
      → v.is_agora ≡ true
      → All (IsOutside v) steps
      → take_steps steps (record { call = some v; timer = false })
        ≡ record { call = some v; timer = false }
  unfolding take_steps
  take_steps-Stays [] agora h = refl
  take_steps-Stays (s ∷ steps) agora (o, os) =
      rw (take_step-Stays s agora o) (take_steps-Stays steps agora os)

-- An accepted P2P call whose two parties have no credentials stays as it is through any sequence of
-- leaving sessions, timeouts and invitations, and of notes in the topic, hang-ups included, from
-- sessions that are no party and do not join.
pub take_steps-stranded :
    (c : Calls) (v : VideoCall) (steps : List CallStep)
    → IsStranded c v
    → All (IsOutside v) steps
    → take_steps steps c ≡ c
take_steps-stranded c v steps h outside =
    rw h.here (take_steps-Stays v h.two h.no_media steps h.through_agora outside)
