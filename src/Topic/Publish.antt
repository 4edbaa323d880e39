-- ===== src/Topic/Publish.antt =====
-- internal/server/topic_msg.go: `saveAndBroadcastMessage`, which gives a message its id, saves it
-- and sends it on. What the business policy, the official policy, the cluster and the audit outbox
-- answer to the request is given with it, since they keep their own state. (For an official
-- channel, the policy also rereads the member's mode; that is not part of the model.)
pub mod Effect
pub mod Log
pub mod Retry
pub mod Guards
pub mod Stored
pub mod Marks
use server_chat.Common.{
  ℕ, ◌+◌, Bool, true, false, not, ◌&&◌, ◌||◌, Option, none, some, List, [], ◌∷◌, ◌++◌, ◌==◌,
  if◌then◌else◌,
}
use server_chat.Common.Result.{Result, ok, err}
use server_chat.Access.{is_writer, is_reader}
use server_chat.Topic.{Topic, PerUserData, user_data, set_user, mode, is_sys, is_p2p}
use server_chat.Topic.Store.{Message, StoreErr, cluster_fenced, unavailable, MessageStore}
use server_chat.Topic.Posting.{
  bad_request, official_denied, no_permission, not_archived, fenced, slow_mode_hit, slow_mode_error,
  Fence, Out, PolicyErr, PubErr, Reply, Request, Services, SlowMode, accepted, broadcast, duplicate,
  malformed, no_token, passes, permission_denied, plugin_message, policy, policy_denied,
  policy_rate_limited, policy_reply, policy_unavailable, pres_offline, push, reply,
  service_unavailable, slow_mode_failed, standalone, store, store_reply, to_session,
  to_session_with_id, token, too_many_requests, too_soon, unknown,
}

-- The checks before the message is built: the error and the reply of the first that fails.
module _ (sv : Services) (req : Request) (as_uid : ℕ) (t : Topic) where
  unfoldable pub may_write : Bool
  may_write =
      let pud = user_data t as_uid in is_sys t.cat || (not pud.is_chan && is_writer (mode pud))

  unfoldable pub check_slow_mode : Option (PubErr × Reply)
  check_slow_mode = elim sv.slow_mode [
    | passes ↦
        if is_p2p t.cat && sv.has_policy && (elim req.client_id [ none ↦ true | some c ↦ false ])
        then some (bad_request, malformed)
        else none
    | too_soon ↦ some (slow_mode_hit, too_many_requests)
    | slow_mode_failed ↦ some (slow_mode_error, service_unavailable)
  ]

  unfoldable pub check_official : Option (PubErr × Reply)
  unfolding check_slow_mode
  check_official =
      if sv.official_allows then check_slow_mode else some (official_denied, permission_denied)

  unfoldable pub check_request : Option (PubErr × Reply)
  unfolding may_write check_official
  check_request =
      if not may_write
      then some (no_permission, permission_denied)
      else if sv.has_policy
      then (elim sv.authorize [ some e ↦ some (policy e, policy_reply e) | none ↦ check_official ])
      else check_official

-- The "sender" entry of the head: the user of the session, where it acts for another one.
unfoldable pub sender_of : Option ℕ → ℕ → Option ℕ
sender_of none as_uid = none
sender_of (some uid) as_uid = if uid == as_uid then none else some uid

unfoldable pub new_message : Request → ℕ → Topic → Option ℕ → Message
unfolding sender_of
new_message req as_uid t epoch = record {
  seq_id = t.last_id + 1;
  from = as_uid;
  client_id = req.client_id;
  cluster_epoch = epoch;
  sender = sender_of req.session as_uid;
  content = req.content;
}

-- archiveForCompliance
unfoldable pub archived : Services → Topic → Message → Bool
archived sv t m = not (is_p2p t.cat && sv.has_policy) || sv.archives m

module _ (req : Request) (as_uid : ℕ) (t : Topic) where
  -- The topic after the message has been saved.
  unfoldable pub advanced : Topic
  advanced = record t { last_id = t.last_id + 1; touched = req.timestamp }

  -- The sender's marks are set only if the topic knows the sender.
  unfoldable pub marked_read : Topic
  unfolding advanced
  marked_read = elim (t.per_user as_uid) [
    | none ↦ advanced
    | some pud ↦ record advanced {
      per_user =
          set_user t.per_user as_uid
            (record pud { read_id = t.last_id + 1; recv_id = t.last_id + 1 });
    }
  ]

module _ (db : MessageStore) where
  -- The topic, the database, what was sent, and the error that is returned.
  pub record Outcome : Type 0 where
    pub topic : Topic
    pub state : MessageStore.State db
    pub outs : List Out
    pub error : Option PubErr

  module _ (sv : Services) (req : Request) (as_uid : ℕ) (t : Topic) where
    -- A message that was saved before: it is acknowledged, and in a P2P topic under a business policy
    -- sent once more.
    unfoldable pub acknowledge : MessageStore.State db → Message → Outcome
    unfolding archived
    acknowledge s m =
        if archived sv t m
        then record {
          topic = t;
          state = s;
          outs =
              to_session_with_id req (duplicate m.seq_id m.client_id)
              ++ (if is_p2p t.cat && sv.has_policy
                  then broadcast m
                      (req.no_echo && (elim req.session [ none ↦ false | some u ↦ true ]))
                    ∷ []
                  else []);
          error = none;
        }
        else record {
          topic = t;
          state = s;
          outs = to_session req service_unavailable;
          error = some not_archived;
        }

    -- What follows a successful save.
    unfoldable pub announce : MessageStore.State db → Message → Bool → Outcome
    unfolding archived advanced marked_read
    announce s m marked =
        if archived sv t m
        then record {
          topic = marked_read req as_uid t;
          state = s;
          outs =
              to_session_with_id req (accepted (t.last_id + 1) req.client_id)
              ++ pres_offline (t.last_id + 1)
                ∷ plugin_message m
                ∷ broadcast m (req.no_echo && (elim req.session [ none ↦ false | some u ↦ true ]))
                ∷ push marked
                ∷ [];
          error = none;
        }
        else record {
          topic = advanced req as_uid t;
          state = s;
          outs = to_session req service_unavailable;
          error = some not_archived;
        }

    -- A failed save, after the second look for a message with the same client id.
    unfoldable pub save_failed : MessageStore.State db → StoreErr → Outcome
    save_failed s e = record {
      topic = t;
      state = s;
      outs = to_session req (store_reply e);
      error = some (store e);
    }

    unfoldable pub after_failure : MessageStore.State db → StoreErr → Option ℕ → Outcome
    unfolding acknowledge save_failed
    after_failure s e none = save_failed s e
    after_failure s e (some cid) = elim (MessageStore.get_by_client_id db s as_uid cid) [
      | ok none ↦ save_failed s e
      | ok (some m) ↦ acknowledge s m
      | err e' ↦ save_failed s e
    ]

    unfoldable pub commit : MessageStore.State db → Option ℕ → Outcome
    unfolding new_message announce after_failure
    commit s epoch =
        let m = new_message req as_uid t epoch in
        let (s', saved) = MessageStore.save db s m (is_reader (mode (user_data t as_uid))) in
        elim saved [ ok marked ↦ announce s' m marked | err e ↦ after_failure s' e req.client_id ]

    -- The fence token of the cluster goes into the message; without one nothing is saved.
    unfoldable pub with_fence : MessageStore.State db → Fence → Outcome
    unfolding commit
    with_fence s standalone = commit s none
    with_fence s (token epoch) = commit s (some epoch)
    with_fence s no_token = record {
      topic = t;
      state = s;
      outs = to_session req service_unavailable;
      error = some fenced;
    }

    unfoldable pub deduplicate : MessageStore.State db → Option ℕ → Outcome
    unfolding acknowledge with_fence
    deduplicate s none = with_fence s sv.fence
    deduplicate s (some cid) = elim (MessageStore.get_by_client_id db s as_uid cid) [
      | ok none ↦ with_fence s sv.fence
      | ok (some m) ↦ acknowledge s m
      | err e ↦ record {
        topic = t;
        state = s;
        outs = to_session req unknown;
        error = some (store e);
      }
    ]

    -- saveAndBroadcastMessage
    unfoldable pub save_and_broadcast : MessageStore.State db → Outcome
    unfolding check_request deduplicate
    save_and_broadcast s = elim (check_request sv req as_uid t) [
      | some (e, r) ↦ record { topic = t; state = s; outs = to_session req r; error = some e }
      | none ↦ deduplicate s req.client_id
    ]
