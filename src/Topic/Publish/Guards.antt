-- ===== src/Topic/Publish/Guards.antt =====
-- What must hold before `saveAndBroadcastMessage` saves a message.
use server_chat.Common.{ℕ, ◌≡◌, arith, true, false, Option-cases, none, inl, inr, ◌⊎◌, ◌≢◌, ◌&&◌}
use server_chat.Topic.{Topic, is_p2p}
use server_chat.Topic.Store.{MessageStore}
use server_chat.Topic.Posting.{Services, passes, Request}
use server_chat.Topic.Publish.{
  may_write, check_slow_mode, check_official, check_request, save_and_broadcast,
}

-- Every check has let the request pass.
abbrev pub IsAllowed : Services → Request → ℕ → Topic → Type 0
IsAllowed sv req as_uid t =
    (may_write sv req as_uid t ≡ true)
    × ((sv.has_policy ≡ false) ⊎ (sv.authorize ≡ none))
    × (sv.official_allows ≡ true)
    × (sv.slow_mode ≡ passes)
    × ((is_p2p t.cat && sv.has_policy ≡ false) ⊎ (req.client_id ≢ none))

check_slow_mode-IsAllowed :
    (sv : Services) (req : Request) (as_uid : ℕ) (t : Topic)
    → check_slow_mode sv req as_uid t ≡ none
    → (sv.slow_mode ≡ passes) × ((is_p2p t.cat && sv.has_policy ≡ false) ⊎ (req.client_id ≢ none))
unfolding check_slow_mode
check_slow_mode-IsAllowed sv req as_uid t h = ground arith

check_request-IsAllowed :
    (sv : Services) (req : Request) (as_uid : ℕ) (t : Topic)
    → check_request sv req as_uid t ≡ none
    → IsAllowed sv req as_uid t
unfolding check_request check_official
check_request-IsAllowed sv req as_uid t h =
    ground (arith, check_slow_mode-IsAllowed sv req as_uid t)

-- If a request to publish changes the state of the store, then the user may write in the topic, a
-- business policy in force allows it, the official policy and the slow mode let it pass, and in a
-- P2P topic under a business policy it has a client id.
pub save_and_broadcast-IsAllowed :
    (db : MessageStore) (sv : Services) (req : Request) (as_uid : ℕ) (t : Topic)
    (s : MessageStore.State db)
    → (save_and_broadcast db sv req as_uid t s).state ≢ s
    → IsAllowed sv req as_uid t
unfolding save_and_broadcast
save_and_broadcast-IsAllowed db sv req as_uid t s changed =
    elim (Option-cases (check_request sv req as_uid t)) [
      | inl e ↦ check_request-IsAllowed sv req as_uid t e
      | inr ((x, r), e) ↦ absurd (changed (rw (e, save_and_broadcast)))
    ]
