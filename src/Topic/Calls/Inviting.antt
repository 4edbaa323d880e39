-- ===== src/Topic/Calls/Inviting.antt =====
-- internal/server/topic_msg.go: `handlePubBroadcast` for an invitation to a call, which is neither an
-- edit nor scheduled.
pub mod Opening
use server_chat.Common.{
  ℕ, Bool, true, false, not, ◌&&◌, ◌||◌, Option, none, some, List, [], ◌∷◌, if◌then◌else◌,
}
use server_chat.Access.{is_writer}
use server_chat.Topic.{Topic, PerUserData, mode, is_inactive, is_read_only, is_p2p, is_grp}
use server_chat.Topic.Store.{MessageStore}
use server_chat.Topic.Posting.{Services, Request, Out, PubErr}
use server_chat.Topic.Publish.{Outcome, save_and_broadcast}
use server_chat.Topic.Calls.{
  CallSession, VideoCall, Refusal, locked, permission_denied, not_implemented, call_busy, Calls,
  handle_call_invite,
}

-- What an invitation comes with besides the request: whether refreshOfficialChannelMember and
-- checkOfficialPublish return no error, and whether a media provider is configured.
pub record Invitation : Type 0 where
  pub refreshed : Bool
  pub official_allows : Bool
  pub has_agora : Bool
  pub sess : CallSession
  pub mime : Option ℕ

-- A member who may write and does not read a channel.
abbrev pub may_invite : Option PerUserData → Bool
may_invite none = false
may_invite (some pud) = not pud.is_chan && is_writer (mode pud)

abbrev pub is_calling : Option VideoCall → Bool
is_calling none = false
is_calling (some v) = true

-- The checks up to the last one for calls.
unfoldable pub check_invitation : Topic → Calls → ℕ → Invitation → Option Refusal
unfolding is_inactive is_read_only is_writer
check_invitation t c as_uid i =
    if is_inactive t
    then some locked
    else if is_read_only t
    then some permission_denied
    else if not i.refreshed
    then some permission_denied
    else if not (may_invite (t.per_user as_uid))
    then some permission_denied
    else if not (is_p2p t.cat || is_grp t.cat)
    then some permission_denied
    else if not i.has_agora
    then some not_implemented
    else if is_calling c.call
    then some call_busy
    else if not i.official_allows
    then some permission_denied
    else none

module _ (db : MessageStore) where
  -- The topic with its call, the database, the refusal, and what the publication sends.
  pub record Invited : Type 0 where
    pub topic : Topic
    pub calls : Calls
    pub state : MessageStore.State db
    pub refusal : Option Refusal
    pub outs : List Out

  -- handleCallInvite follows a publication without an error.
  abbrev pub open_call : ℕ → Invitation → Calls → Outcome db → Option PubErr → Invited
  open_call as_uid i c o (some e) = record {
    topic = o.topic;
    calls = c;
    state = o.state;
    refusal = none;
    outs = o.outs;
  }
  open_call as_uid i c o none = record {
    topic = o.topic;
    calls = handle_call_invite o.topic as_uid i.sess i.mime c;
    state = o.state;
    refusal = none;
    outs = o.outs;
  }

  abbrev pub checked_invitation :
      Services
      → Request
      → ℕ
      → Invitation
      → Topic
      → Calls
      → MessageStore.State db
      → Option Refusal
      → Invited
  checked_invitation sv req as_uid i t c s (some r) = record {
    topic = t;
    calls = c;
    state = s;
    refusal = some r;
    outs = [];
  }
  checked_invitation sv req as_uid i t c s none =
      let o = save_and_broadcast db sv req as_uid t s in open_call as_uid i c o o.error

  -- handlePubBroadcast
  unfoldable pub handle_invitation :
      Services → Request → ℕ → Invitation → Topic → Calls → MessageStore.State db → Invited
  unfolding check_invitation save_and_broadcast handle_call_invite
  handle_invitation sv req as_uid i t c s =
      checked_invitation sv req as_uid i t c s (check_invitation t c as_uid i)
