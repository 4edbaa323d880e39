-- ===== src/Topic/Calls/Limits/Counting.antt =====
-- internal/server/calls.go and calls_agora.go: how many parties of a call have credentials, as parties
-- come and go.
use server_chat.Common.{
  ℕ, ◌+◌, ◌≤◌, ◌≡◌, Bool, true, false, ◌&&◌, ◌⊎◌, inl, inr, Option, none, some, List, [], ◌∷◌, ◌==◌,
  if◌then◌else◌, Bool-cases, arith,
}
use server_chat.Topic.Calls.{
  CallSession, CallPartyData, VideoCall, Calls, party_of, set_party, delete_party, has_agora,
  agora_count,
}
use server_chat.Topic.Calls.Answer.{AgoraProvider, is_agora_party, disconnect_all, matches_kind}
use server_chat.Topic.Calls.Note.{CallStep, invite, note, unregister, timeout}

abbrev pub is_accepted : VideoCall → Bool
is_accepted v = elim v.accepted_at [ none ↦ false | some at ↦ true ]

-- The timer runs for a call that nobody has accepted, and no more sessions than the limit have
-- credentials.
abbrev pub IsSoundCall : ℕ → Option VideoCall → Bool → Type 0
IsSoundCall limit none timer = Unit {0}
IsSoundCall limit (some v) timer =
    ((is_accepted v ≡ true) ⊎ (timer ≡ true)) × (agora_count v.parties ≤ limit)

abbrev pub IsSound : ℕ → Calls → Type 0
IsSound limit c = IsSoundCall limit c.call c.timer

-- The provider that comes with a step, if one does, has the limit.
abbrev pub UsesLimit : ℕ → Option AgoraProvider → Type 0
UsesLimit limit none = Unit {0}
UsesLimit limit (some provider) = provider.max_participants ≡ limit

abbrev pub HasLimit : ℕ → CallStep → Type 0
HasLimit limit (note t p n i) = UsesLimit limit i.agora
HasLimit limit (invite t as_uid sess mime) = Unit {0}
HasLimit limit (unregister sess i) = Unit {0}
HasLimit limit (timeout now saved) = Unit {0}

pub agora_count-set_party :
    (sid : ℕ) (party : CallPartyData) (parties : List (ℕ × CallPartyData))
    → agora_count (set_party sid party parties)
      ≤ agora_count parties + (if has_agora party then 1 else 0)
unfolding agora_count set_party
agora_count-set_party sid party [] = omega arith
agora_count-set_party sid party ((k, other) ∷ parties) = elim (Bool-cases (k == sid)) [
  | inl e ↦ rw e (omega arith)
  | inr e ↦ rw e (omega (arith, agora_count-set_party sid party parties))
]

-- A session that has credentials already is counted already.
pub agora_count-set_again :
    (sid : ℕ) (party : CallPartyData) (parties : List (ℕ × CallPartyData))
    → is_agora_party (party_of sid parties) ≡ true
    → agora_count (set_party sid party parties) ≤ agora_count parties
unfolding agora_count set_party party_of
agora_count-set_again sid party [] h = cc
agora_count-set_again sid party ((k, other) ∷ parties) h = elim (Bool-cases (k == sid)) [
  | inl e ↦ let counted : has_agora other ≡ true = rw e at h in rw (e, counted) (ground arith)
  | inr e ↦
      rw e (let rest = agora_count-set_again sid party parties (rw e at h) in omega (arith, rest))
]

pub agora_count-delete_party :
    (sid : ℕ) (parties : List (ℕ × CallPartyData))
    → agora_count (delete_party sid parties) ≤ agora_count parties
unfolding agora_count delete_party
agora_count-delete_party sid [] = omega arith
agora_count-delete_party sid ((k, other) ∷ parties) = elim (Bool-cases (k == sid)) [
  | inl e ↦ rw e (omega arith)
  | inr e ↦ rw e (omega (arith, agora_count-delete_party sid parties))
]

pub agora_count-disconnect_all :
    (sess : CallSession) (parties : List (ℕ × CallPartyData))
    → agora_count (disconnect_all sess parties).left ≤ agora_count parties
unfolding agora_count disconnect_all
agora_count-disconnect_all sess [] = omega arith
agora_count-disconnect_all sess ((k, party) ∷ parties) =
    elim (Bool-cases (matches_kind sess k party && has_agora party)) [
      | inl e ↦ rw e (omega (arith, agora_count-disconnect_all sess parties))
      | inr e ↦ rw e (omega (arith, agora_count-disconnect_all sess parties))
    ]
