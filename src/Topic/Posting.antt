-- ===== src/Topic/Posting.antt =====
-- internal/server/topic_msg.go: what `saveAndBroadcastMessage` is given and what it sends: the
-- request, the answers of the services that it asks, the replies and the errors.
use server_chat.Common.{ℕ, Bool, Option, none, some, List, [], ◌∷◌, if◌then◌else◌}
use server_chat.Topic.Store.{Message, StoreErr, cluster_fenced, unavailable}

-- errBusinessPolicyUnavailable, errBusinessPolicyRateLimited, or a refusal.
pub data PolicyErr : Type 0 where
  policy_unavailable policy_rate_limited policy_denied : PolicyErr

-- The result of `enforceOfficialSlowMode`: no error, errOfficialSlowMode, or another error.
pub data SlowMode : Type 0 where
  passes too_soon slow_mode_failed : SlowMode

-- The result of `writeFenceToken`, when there is a cluster.
pub data Fence : Type 0 where
  standalone : Fence
  token : ℕ → Fence
  no_token : Fence

pub record Services : Type 0 where
  -- globals.businessPolicy != nil
  pub has_policy : Bool
  -- authorizeBusinessAction
  pub authorize : Option PolicyErr
  -- checkOfficialPublish returns no error
  pub official_allows : Bool
  pub slow_mode : SlowMode
  pub fence : Fence
  -- archiveTextMessage returns no error
  pub archives : Message → Bool

-- The part of ClientComMessage that matters: whether it has an id, the user of its session, if it
-- has one, its time, and `Pub.ClientId`.
pub record Request : Type 0 where
  pub has_id : Bool
  pub session : Option ℕ
  pub timestamp : ℕ
  pub client_id : Option ℕ
  pub no_echo : Bool
  pub content : ℕ

-- The replies to the session.
pub data Reply : Type 0 where
  accepted : ℕ → Option ℕ → Reply
  duplicate : ℕ → Option ℕ → Reply
  permission_denied service_unavailable too_many_requests malformed unknown : Reply

-- What is sent, in order: replies, the notice to offline subscribers, the plugin call, the
-- broadcast (with whether the own session is skipped) and the push.
pub data Out : Type 0 where
  reply : Reply → Out
  pres_offline : ℕ → Out
  plugin_message : Message → Out
  broadcast : Message → Bool → Out
  push : Bool → Out

pub data PubErr : Type 0 where
  no_permission official_denied slow_mode_hit slow_mode_error bad_request fenced not_archived :
      PubErr
  policy : PolicyErr → PubErr
  store : StoreErr → PubErr

-- `if msg.sess != nil { msg.sess.queueOut(...) }`
abbrev pub to_session : Request → Reply → List Out
to_session req r = elim req.session [ none ↦ [] | some u ↦ reply r ∷ [] ]

-- The replies that are sent only for a request with an id.
abbrev pub to_session_with_id : Request → Reply → List Out
to_session_with_id req r = if req.has_id then to_session req r else []

abbrev pub policy_reply : PolicyErr → Reply
policy_reply policy_unavailable = service_unavailable
policy_reply policy_rate_limited = service_unavailable
policy_reply policy_denied = permission_denied

abbrev pub store_reply : StoreErr → Reply
store_reply cluster_fenced = service_unavailable
store_reply unavailable = unknown
