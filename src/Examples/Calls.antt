-- ===== src/Examples/Calls.antt =====
-- The call of a topic on concrete events.
use server_chat.Common.{ℕ, ◌≡◌, refl, true, false, none, some, List, [], ◌∷◌, All}
use server_chat.Access.{has, is_joiner, is_reader}
use server_chat.Topic.{Topic, p2p, PerUserData}
use server_chat.Topic.Calls.{
  CallSession, plain, VideoCall, accept, hang_up, join, Calls, party_of, agora_count,
}
use server_chat.Topic.Calls.Answer.{CallInput, CallNote}
use server_chat.Topic.Calls.Note.{
  CallPolicy, CallStep, invite, note, unregister, timeout, take_step, take_steps, no_call,
  handle_call_event, check_policy,
}
use server_chat.Topic.Calls.Limits.Counting.{IsSound}
use server_chat.Topic.Calls.Limits.{take_steps-IsSound}
use server_chat.Topic.Calls.Reasons.{MayEnd}
use server_chat.Topic.Calls.Ends.{handle_call_event-MayEnd}
use server_chat.Topic.Calls.Stranded.{IsStranded, IsOutside, take_steps-stranded}

abbrev caller_data : PerUserData
caller_data = record {
  recv_id = 0;
  read_id = 0;
  del_id = 0;
  mode_want = 0x1F;
  mode_given = 0x1F;
  deleted = false;
  is_chan = false;
}

abbrev two_users : Topic
two_users = record {
  cat = p2p;
  status = 0;
  is_chan = false;
  owner = 0;
  sub_cnt = 2;
  last_id = 8;
  del_id = 0;
  touched = 0;
  per_user = λ u. some caller_data;
}

abbrev caller_session : CallSession
caller_session = record { sid = 100; kind = plain }

abbrev callee_session : CallSession
callee_session = record { sid = 200; kind = plain }

abbrev no_policy : CallPolicy
no_policy = record { official_passes = true; authorize = none; p2p_other_user = 0 }

abbrev at_time : ℕ → CallInput
at_time now = record {
  agora = some (record { max_participants = 3 });
  issued = some 77;
  saved = true;
  now = now;
}

abbrev accept_note : CallNote
accept_note = record {
  event = accept;
  seq_id = 8;
  as_uid = 2;
  sess = callee_session;
  has_id = true;
}

abbrev hang_up_note : CallNote
hang_up_note = record accept_note { event = hang_up }

abbrev join_note : CallNote
join_note = record accept_note { event = join }

abbrev invitation : CallStep
invitation = invite two_users 1 caller_session none

abbrev ringing_call : Calls
ringing_call = take_steps (invitation ∷ []) no_call

abbrev answered_call : Calls
answered_call =
    take_steps (invitation ∷ note two_users no_policy accept_note (at_time 5) ∷ []) no_call

-- An answered call that nobody joined, as it stands in the topic.
abbrev left_call : VideoCall
left_call = record {
  parties =
      (100, record { uid = 1; is_originator = true; sess = caller_session; agora = none })
      ∷ (200, record { uid = 2; is_originator = false; sess = callee_session; agora = none })
      ∷ [];
  seq = 8;
  content_mime = none;
  accepted_at = some 5;
  is_agora = true;
  originator_uid = 1;
  originator_sess = some caller_session;
}

answered_is : answered_call ≡ record { call = some left_call; timer = false }
unfolding take_steps check_policy is_joiner is_reader has
answered_is = refl

ends_by_timeout : (take_step (timeout 60 true) ringing_call).0.call ≡ none
unfolding take_steps take_step
ends_by_timeout = refl

take_steps-IsSound_example :
    IsSound 3
      (take_steps (invitation ∷ note two_users no_policy join_note (at_time 5) ∷ []) no_call)
take_steps-IsSound_example =
    take_steps-IsSound 3 (invitation ∷ note two_users no_policy join_note (at_time 5) ∷ [])
      (tt, (refl, tt))

abbrev two_parties : Calls
two_parties = record { call = some left_call; timer = false }

hung_up : (handle_call_event two_users no_policy hang_up_note (at_time 9) two_parties).0.call ≡ none
unfolding handle_call_event is_joiner is_reader has
hung_up = refl

handle_call_event-MayEnd_example : MayEnd two_users hang_up_note left_call
handle_call_event-MayEnd_example =
    handle_call_event-MayEnd two_users no_policy hang_up_note (at_time 9) two_parties left_call refl
      hung_up

abbrev new_session : CallSession
new_session = record { sid = 300; kind = plain }

-- Both sessions go, the callee comes back on another session and hangs up, the timer fires, and the
-- other user calls again.
abbrev later_steps : List CallStep
later_steps =
    unregister caller_session (at_time 6)
    ∷ unregister callee_session (at_time 7)
    ∷ note two_users no_policy (record hang_up_note { sess = new_session }) (at_time 8)
    ∷ timeout 60 true
    ∷ invite two_users 1 new_session none
    ∷ []

left_call-IsStranded : IsStranded two_parties left_call
unfolding agora_count
left_call-IsStranded = record { here = refl; through_agora = refl; two = refl; no_media = refl }

nobody-IsOutside : All (IsOutside left_call) later_steps
unfolding party_of
nobody-IsOutside = (tt, (tt, ((refl, refl, refl), (tt, (tt, tt)))))

take_steps-stranded_example : take_steps later_steps two_parties ≡ two_parties
take_steps-stranded_example =
    take_steps-stranded two_parties left_call later_steps left_call-IsStranded nobody-IsOutside
