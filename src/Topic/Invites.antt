-- ===== src/Topic/Invites.antt =====
-- internal/server/topic_invites.go: the uses of an invitation, which servers count in one stored
-- record by a compare-and-swap.
pub mod Limits
pub mod Revoked
use server_chat.Common.{
  ℕ, ◌+◌, ◌≡◌, Bool, true, false, not, ◌&&◌, ◌||◌, Option, none, some, List, [], ◌∷◌, ◌==◌, ltb,
  leb, get_elem?, if◌then◌else◌,
}
use server_chat.Common.Bytes.{Bytes, eq_bytes}

-- topicInviteState
pub record InviteState : Type 0 where
  pub id : ℕ
  pub topic : ℕ
  pub expires_at : ℕ
  pub max_uses : ℕ
  pub uses : ℕ
  pub active : Bool
  pub created_at : ℕ
  pub created_by : ℕ

-- Go's package `json` on such a record: what is written is read back.
pub record InviteJson : Type 0 where
  pub marshal : InviteState → Bytes
  pub unmarshal : Bytes → Option InviteState
  pub unmarshal_marshal : (s : InviteState) → unmarshal (marshal s) ≡ some s

-- The condition under which `consumeTopicInvite` refuses a state that it has loaded.
unfoldable pub is_spent : ℕ → InviteState → Bool
is_spent now s =
    not s.active || (not (ltb now s.expires_at) || (ltb 0 s.max_uses && leb s.max_uses s.uses))

-- validateTopicInvite, of the loaded state
unfoldable pub is_valid_state : ℕ → InviteState → Bool
is_valid_state now s =
    s.active && (ltb now s.expires_at && (s.max_uses == 0 || ltb s.uses s.max_uses))

-- The values that the record has had, the stored one first, and the number of uses that were
-- granted. What a server has loaded before is one of the values.
pub record Ledger : Type 0 where
  pub history : List Bytes
  pub granted : ℕ

-- store.PCache.CompareAndSwap
abbrev pub compare_and_swap : List Bytes → Bytes → Bytes → List Bytes × Bool
compare_and_swap [] old new = ([], false)
compare_and_swap (raw ∷ history) old new =
    if eq_bytes raw old then (new ∷ raw ∷ history, true) else (raw ∷ history, false)

abbrev pub count : ℕ → List Bytes × Bool → Ledger
count granted x = record { history = x.0; granted = if x.1 then granted + 1 else granted }

abbrev pub keep : List Bytes × Bool → ℕ → Ledger
keep x granted = record { history = x.0; granted = granted }

module _ (json : InviteJson) where
  -- issueManagedTopicInvite, once the record is stored
  abbrev pub issued : InviteState → Ledger
  issued s = record { history = json.marshal s ∷ []; granted = 0 }

  abbrev pub use_state : Ledger → ℕ → Bytes → Option InviteState → Ledger
  use_state w now old none = w
  use_state w now old (some s) =
      if is_spent now s
      then w
      else if s.max_uses == 0
      then record w { granted = w.granted + 1 }
      else count w.granted
          (compare_and_swap w.history old (json.marshal (record s { uses = s.uses + 1 })))

  abbrev pub revoke_state : Ledger → Bytes → Option InviteState → Ledger
  revoke_state w old none = w
  revoke_state w old (some s) =
      if not s.active
      then w
      else keep (compare_and_swap w.history old (json.marshal (record s { active = false })))
          w.granted

  -- One round of the loops of `consumeTopicInvite` and `revokeTopicInvite`: a server goes on with
  -- what it loaded, at a time that it read before.
  pub data Attempt : Type 0 where
    consume : (now loaded : ℕ) → Attempt
    revoke : (loaded : ℕ) → Attempt

  abbrev pub consume_loaded : Ledger → ℕ → Option Bytes → Ledger
  consume_loaded w now none = w
  consume_loaded w now (some old) = use_state w now old (json.unmarshal old)

  abbrev pub revoke_loaded : Ledger → Option Bytes → Ledger
  revoke_loaded w none = w
  revoke_loaded w (some old) = revoke_state w old (json.unmarshal old)

  abbrev pub attempt : Attempt → Ledger → Ledger
  attempt (consume now loaded) w = consume_loaded w now (get_elem? w.history loaded)
  attempt (revoke loaded) w = revoke_loaded w (get_elem? w.history loaded)

  -- The rounds of all servers, one after the other.
  abbrev pub attempts : List Attempt → Ledger → Ledger
  attempts [] w = w
  attempts (a ∷ rest) w = attempts rest (attempt a w)
