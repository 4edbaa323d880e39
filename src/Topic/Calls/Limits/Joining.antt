-- ===== src/Topic/Calls/Limits/Joining.antt =====
-- internal/server/calls.go and calls_agora.go: the parties of a call as sessions join, answer and
-- leave.
use server_chat.Common.{
  ℕ, ◌<◌, ◌≡◌, refl, Bool, true, false, not, ◌&&◌, ◌||◌, ◌⊎◌, inl, inr, Option, none, some, List,
  [], ◌==◌, leb, length, if◌then◌else◌, Bool-cases, Option-cases, arith,
}
use server_chat.Topic.{Topic}
use server_chat.Topic.Calls.{
  CallSession, CallPartyData, AgoraPartyData, VideoCall, CallOut, Outcome, party_of, delete_party,
  has_agora, agora_count, originator, end_call, terminate, terminate_from,
}
use server_chat.Topic.Calls.Answer.{
  AgoraProvider, CallInput, CallNote, answer_to, handle_p2p_call_answer, is_agora_party, is_accept,
  with_agora, grant_credentials, join_call, issue_found, issue_credentials, leave_party,
  disconnect_all, disconnect_sessions,
}
use server_chat.Topic.Calls.Limits.Counting.{
  IsSoundCall, IsSound, UsesLimit, is_accepted, agora_count-set_party, agora_count-set_again,
  agora_count-delete_party, agora_count-disconnect_all,
}

module _ (limit : ℕ) where
  -- A branch of a test, each sound.
  pub either-IsSound :
      (b : Bool) (x y : Outcome)
      → IsSound limit x.0
      → IsSound limit y.0
      → IsSound limit (if b then x else y).0
  either-IsSound true x y p q = p
  either-IsSound false x y p q = q

  pub terminate_from-IsSound :
      (v : VideoCall) (timer : Bool) (now : ℕ) (timed_out saved : Bool) (o : ℕ × Option CallSession)
      → IsSound limit (terminate_from v timer now timed_out saved o).0
  unfolding end_call
  terminate_from-IsSound v timer now timed_out saved (uid, none) = tt
  terminate_from-IsSound v timer now timed_out saved (uid, some sess) =
      elim (Bool-cases (uid == 0)) [ inl e ↦ rw e tt | inr e ↦ rw e tt ]

  module _ (v : VideoCall) (timer : Bool) (h : IsSoundCall limit (some v) timer) where
    pub answer_to-IsSound :
        (n : CallNote) (i : CallInput) (o : ℕ × Option CallSession)
        → IsSound limit (answer_to v timer n i o).0
    unfolding terminate
    answer_to-IsSound n i (uid, none) =
        terminate_from-IsSound v timer i.now false i.saved (originator v)
    answer_to-IsSound n i (uid, some sess) =
        elim (Bool-cases (sess.sid == n.sess.sid || uid == n.as_uid)) [
          | inl e ↦ rw e h
          | inr e ↦ rw e (elim (Bool-cases (is_accept n.event)) [
            | inr other ↦ rw other h
            | inl accepts ↦ rw accepts (elim (Bool-cases i.saved) [
              | inr failed ↦ rw failed h
              | inl saved ↦
                  rw saved
                    (inl refl, omega (arith, h.1, agora_count-set_party n.sess.sid _ v.parties))
            ])
          ])
        ]

    pub grant_credentials-IsSound :
        (v' : VideoCall) (timer' : Bool) (n : CallNote) (found : Option CallPartyData)
        (agora : AgoraPartyData) (outs : List CallOut)
        → v'.parties ≡ v.parties
        → (is_accepted v' ≡ true) ⊎ (timer' ≡ true)
        → party_of n.sess.sid v.parties ≡ found
        → (is_agora_party found ≡ true) ⊎ (agora_count v.parties < limit)
        → IsSound limit (grant_credentials v' timer' n found agora outs).0
    grant_credentials-IsSound v' timer' n found agora outs same live e (inl again) =
        let known : is_agora_party (party_of n.sess.sid v.parties) ≡ true = rw e again in
        (
          live,
          rw same (
              omega (
                arith,
                h.1,
                agora_count-set_again n.sess.sid (with_agora n found agora) v.parties known,
              )),
        )
    grant_credentials-IsSound v' timer' n found agora outs same live e (inr room) = (
      live,
      rw same
          (ground (arith, agora_count-set_party n.sess.sid (with_agora n found agora) v.parties)),
    )

    pub join_call-IsSound :
        (n : CallNote) (i : CallInput) (found : Option CallPartyData) (agora : AgoraPartyData)
        (at : Option ℕ)
        → v.accepted_at ≡ at
        → party_of n.sess.sid v.parties ≡ found
        → (is_agora_party found ≡ true) ⊎ (agora_count v.parties < limit)
        → IsSound limit (join_call v timer n i found agora at).0
    join_call-IsSound n i found agora (some at) a e room =
        let answered : is_accepted v ≡ true = rw a refl in
        grant_credentials-IsSound v timer n found agora [] refl (inl answered) e room
    join_call-IsSound n i found agora none a e room = elim (Bool-cases i.saved) [
      | inr failed ↦ rw failed h
      | inl saved ↦ rw saved (
          grant_credentials-IsSound (record v { accepted_at = some i.now }) false n found agora []
            refl (inl refl) e room)
    ]

    pub issue_found-IsSound :
        (t : Topic) (n : CallNote) (i : CallInput) (provider : AgoraProvider) (m : ℕ)
        (refreshes : Bool) (found : Option CallPartyData)
        → provider.max_participants ≡ limit
        → party_of n.sess.sid v.parties ≡ found
        → IsSound limit (issue_found t v timer n i provider m refreshes found).0
    issue_found-IsSound t n i provider m refreshes found lim e =
        elim (Bool-cases (refreshes && not (is_agora_party found))) [
          | inl bad ↦ rw bad h
          | inr fine ↦
              rw fine
                (elim (Bool-cases (
                  not (is_agora_party found)
                  && leb provider.max_participants (agora_count v.parties))) [
                    | inl busy ↦ rw busy h
                    | inr free ↦
                        let room : (is_agora_party found ≡ true) ⊎ (agora_count v.parties < limit) =
                          ground arith in
                        rw free (elim (Option-cases i.issued) [
                          | inl failed ↦ rw failed h
                          | inr (number, issued) ↦ rw issued (elim (Bool-cases refreshes) [
                            | inl again ↦
                                rw again
                                  (grant_credentials-IsSound v timer n found _ [] refl h.0 e room)
                            | inr first ↦
                                rw first (join_call-IsSound n i found _ v.accepted_at refl e room)
                          ])
                        ])
                  ])
        ]

    pub issue_credentials-IsSound :
        (t : Topic) (n : CallNote) (i : CallInput) (m : ℕ) (refreshes : Bool)
        → UsesLimit limit i.agora
        → IsSound limit (issue_credentials t v timer n i m refreshes).0
    unfolding issue_credentials
    issue_credentials-IsSound t n i m refreshes lim = elim (Option-cases i.agora) [
      | inl off ↦ rw off h
      | inr (provider, on) ↦
          let same : provider.max_participants ≡ limit = rw on at lim in
          rw on (
            issue_found-IsSound t n i provider m refreshes (party_of n.sess.sid v.parties) same
              refl)
    ]

    pub leave_party-IsSound :
        (n : CallNote) (i : CallInput) (found : Option CallPartyData)
        → IsSound limit (leave_party v timer n i found).0
    unfolding end_call
    leave_party-IsSound n i none = h
    leave_party-IsSound n i (some party) =
        elim (Bool-cases (has_agora party && party.uid == n.as_uid)) [
          | inr other ↦ rw other h
          | inl goes ↦
              rw goes (elim (Bool-cases (agora_count (delete_party n.sess.sid v.parties) == 0)) [
                | inl last ↦ rw last tt
                | inr more ↦
                    rw more (h.0, omega (arith, h.1, agora_count-delete_party n.sess.sid v.parties))
              ])
        ]

    pub disconnect_sessions-IsSound :
        (sess : CallSession) (i : CallInput) → IsSound limit (disconnect_sessions v timer sess i).0
    unfolding disconnect_sessions end_call
    disconnect_sessions-IsSound sess i =
        elim (Bool-cases (
          agora_count (disconnect_all sess v.parties).left == 0
          && not ((disconnect_all sess v.parties).last_uid == 0))) [
            | inl last ↦ rw last tt
            | inr more ↦
                rw more (h.0, omega (arith, h.1, agora_count-disconnect_all sess v.parties))
          ]

    pub answer-IsSound :
        (n : CallNote) (i : CallInput) → IsSound limit (handle_p2p_call_answer v timer n i).0
    unfolding handle_p2p_call_answer
    answer-IsSound n i = elim (Bool-cases (length v.parties == 1)) [
      | inl e ↦ rw e (answer_to-IsSound n i (originator v))
      | inr e ↦ rw e h
    ]
