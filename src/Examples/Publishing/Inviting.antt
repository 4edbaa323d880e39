-- ===== src/Examples/Publishing/Inviting.antt =====
-- Invitations to a call on the topic of the examples.
use server_chat.Common.{ℕ, ◌≡◌, refl, true, none, some, List, [], ◌∷◌}
use server_chat.Access.{is_writer}
use server_chat.Topic.Store.{Message, find_row}
use server_chat.Topic.Calls.{CallSession, plain, VideoCall}
use server_chat.Topic.Calls.Note.{no_call}
use server_chat.Topic.Calls.Inviting.{Invitation, Invited, handle_invitation}
use server_chat.Topic.Calls.Inviting.Opening.{MayInvite, IsBacked, handle_invitation-IsBacked}
use server_chat.Examples.Publishing.{list_store, services, request, topic, stored}

abbrev own_session : CallSession
own_session = record { sid = 1; kind = plain }

abbrev call_invitation : Invitation
call_invitation = record {
  refreshed = true;
  official_allows = true;
  has_agora = true;
  sess = own_session;
  mime = none;
}

abbrev invited : ℕ → List Message → Invited list_store
invited last_id messages =
    handle_invitation list_store services request 7 call_invitation (topic last_id) no_call messages

-- The call with an id that user 7 has started.
abbrev call_of_seven : ℕ → VideoCall
call_of_seven seq = record {
  parties = (1, record { uid = 7; is_originator = true; sess = own_session; agora = none }) ∷ [];
  seq = seq;
  content_mime = none;
  accepted_at = none;
  is_agora = true;
  originator_uid = 7;
  originator_sess = some own_session;
}

opened_first : (invited 0 []).calls.call ≡ some (call_of_seven 1)
unfolding handle_invitation is_writer find_row
opened_first = refl

-- A repeat of the invitation 1, once the topic has come to 6, opens a call under 6.
opened_again : (invited 6 (stored ∷ [])).calls.call ≡ some (call_of_seven 6)
unfolding handle_invitation is_writer find_row
opened_again = refl

nothing_new : (invited 6 (stored ∷ [])).state ≡ stored ∷ []
unfolding handle_invitation is_writer find_row
nothing_new = refl

handle_invitation-IsBacked_example :
    MayInvite (topic 0) 7
    × IsBacked list_store request 7 (topic 0) [] (call_of_seven 1) (invited 0 []).state
    × ((call_of_seven 1).originator_uid ≡ 7)
handle_invitation-IsBacked_example =
    handle_invitation-IsBacked list_store services request 7 call_invitation (topic 0) no_call []
      (call_of_seven 1) refl opened_first
