-- ===== src/Examples/Invitations.antt =====
-- The uses of an invitation: the theorems on an invitation for two uses.
use server_chat.Common.{
  ℕ, ◌≤◌, ◌≡◌, refl, arith, Bool, true, false, Option, none, some, List, [], ◌∷◌, ◌==◌,
}
use server_chat.Common.Bytes.{Bytes, eq_bytes}
use server_chat.Topic.Invites.{
  InviteState, InviteJson, is_spent, issued, Attempt, consume, attempts,
}
use server_chat.Topic.Invites.Limits.{attempts-granted}
use server_chat.Topic.Invites.Revoked.{attempts-revoked}

abbrev bit : Bool → ℕ
bit true = 1
bit false = 0

abbrev fields : InviteState → Bytes
fields s =
    s.id
    ∷ s.topic
    ∷ s.expires_at
    ∷ s.max_uses
    ∷ s.uses
    ∷ bit s.active
    ∷ s.created_at
    ∷ s.created_by
    ∷ []

abbrev parse : Bytes → Option InviteState
parse (id ∷ topic ∷ expires_at ∷ max_uses ∷ uses ∷ active ∷ created_at ∷ created_by ∷ []) =
    some (record {
      id = id;
      topic = topic;
      expires_at = expires_at;
      max_uses = max_uses;
      uses = uses;
      active = active == 1;
      created_at = created_at;
      created_by = created_by;
    })
parse _ = none

bit_read : (b : Bool) → (bit b == 1) ≡ b
bit_read true = refl
bit_read false = refl

parse-fields : (s : InviteState) → parse (fields s) ≡ some s
parse-fields s = rw bit_read refl

abbrev json : InviteJson
json = record { marshal = fields; unmarshal = parse; unmarshal_marshal = parse-fields }

abbrev invitation : InviteState
invitation = record {
  id = 1;
  topic = 2;
  expires_at = 100;
  max_uses = 2;
  uses = 0;
  active = true;
  created_at = 0;
  created_by = 3;
}

-- Two servers load the same value, and one of them tries again; a third comes too late.
abbrev rounds : List (Attempt json)
rounds = consume 5 0 ∷ consume 5 1 ∷ consume 6 0 ∷ consume 7 0 ∷ []

two_granted : (attempts json rounds (issued json invitation)).granted ≡ 2
unfolding is_spent eq_bytes
two_granted = refl

attempts-granted_example : (attempts json rounds (issued json invitation)).granted ≤ 2
attempts-granted_example = attempts-granted json invitation rounds refl (omega arith)

abbrev revoked : InviteState
revoked = record invitation { active = false }

attempts-revoked_example :
    (attempts json rounds
      (record { history = fields revoked ∷ fields invitation ∷ []; granted = 0 })).granted
    ≡ 0
attempts-revoked_example =
    attempts-revoked json 2 (omega arith) rounds (fields revoked) (fields invitation ∷ []) 0 revoked
      refl refl ((revoked, refl, refl), ((invitation, refl, refl), tt))
