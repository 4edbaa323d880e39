-- ===== src/Topic/Invites/Limits.antt =====
-- internal/server/topic_invites.go: the limit on the uses of an invitation.
use server_chat.Common.{
  ℕ, ◌+◌, ◌≤◌, ◌<◌, ◌≡◌, ◌∙◌, refl, sym, ap, inl, inr, arith, false, not, Bool-cases, Option, none,
  some, List, [], ◌∷◌, ◌==◌, get_elem?, zero, suc, All,
}
use server_chat.Common.Bytes.{Bytes, eq_bytes, eq_bytes_iff}
use server_chat.Topic.Invites.{
  InviteState, InviteJson, is_spent, is_valid_state, Ledger, issued, use_state, revoke_state,
  Attempt, consume, revoke, consume_loaded, revoke_loaded, attempt, attempts,
}

-- What is read before a use is what is asked before an invitation is accepted.
is_spent-not : (now : ℕ) (s : InviteState) → is_spent now s ≡ not (is_valid_state now s)
unfolding is_spent is_valid_state
is_spent-not now s = ground arith

not_spent :
    (now : ℕ) (s : InviteState) → 0 < s.max_uses → is_spent now s ≡ false → s.uses < s.max_uses
unfolding is_spent
not_spent now s p e = ground arith

module _ (json : InviteJson) (limit : ℕ) where
  -- The value is a state with the limit.
  abbrev pub HasLimit : Bytes → Type 0
  HasLimit raw = (s : InviteState) × (json.unmarshal raw ≡ some s) × (s.max_uses ≡ limit)

  -- The stored value counts the uses that were granted, and each value had the limit.
  pub data IsCounted : Ledger → Type 0 where
    counted :
        (raw : Bytes) (older : List Bytes) (granted : ℕ) (s : InviteState)
        → json.unmarshal raw ≡ some s
        → s.uses ≡ granted
        → granted ≤ limit
        → All HasLimit (raw ∷ older)
        → IsCounted (record { history = raw ∷ older; granted = granted })

  pub All-get :
      (history : List Bytes) (i : ℕ) {raw : Bytes}
      → All HasLimit history
      → get_elem? history i ≡ some raw
      → HasLimit raw
  All-get [] i all h = cc
  All-get (x ∷ xs) zero {raw} (p, ps) h = let q : x ≡ raw = cc in rw (← q) p
  All-get (x ∷ xs) (suc i) (p, ps) h = All-get xs i ps h

  module _ (positive : 0 < limit) where
    use_state-IsCounted :
        (w : Ledger) (now : ℕ) (old : Bytes) (s : InviteState)
        → IsCounted w
        → json.unmarshal old ≡ some s
        → s.max_uses ≡ limit
        → IsCounted (use_state json w now old (some s))
    use_state-IsCounted _ now old s (counted raw older granted s0 h u l all) there same =
        elim (Bool-cases (is_spent now s)) [
          | inl e ↦ rw e (counted raw older granted s0 h u l all)
          | inr e ↦ (elim (Bool-cases (eq_bytes raw old)) [
            | inr f ↦ rw (e, nonzero, f) (counted raw older granted s0 h u l all)
            | inl f ↦
                let q : raw ≡ old = (eq_bytes_iff raw old).0 f in
                let r : s0 ≡ s = (let m = rw q at h in cc) in
                let used = record s { uses = s.uses + 1 } in
                let n : s.uses ≡ granted = ap (λ (x : InviteState). x.uses) (sym r) ∙ u in
                rw (e, nonzero, f)
                  (counted (json.marshal used) (raw ∷ older) (granted + 1) used
                    (json.unmarshal_marshal used) (omega (arith, n))
                    (omega (arith, n, not_spent now s (omega (arith, same)) e, same))
                    ((used, json.unmarshal_marshal used, same), all))
          ])
        ]
      where
        nonzero : (s.max_uses == 0) ≡ false
        nonzero = ground (arith, same)

    revoke_state-IsCounted :
        (w : Ledger) (old : Bytes) (s : InviteState)
        → IsCounted w
        → json.unmarshal old ≡ some s
        → s.max_uses ≡ limit
        → IsCounted (revoke_state json w old (some s))
    revoke_state-IsCounted _ old s (counted raw older granted s0 h u l all) there same =
        elim (Bool-cases s.active) [
          | inr e ↦ rw e (counted raw older granted s0 h u l all)
          | inl e ↦ (elim (Bool-cases (eq_bytes raw old)) [
            | inr f ↦ rw (e, f) (counted raw older granted s0 h u l all)
            | inl f ↦
                let q : raw ≡ old = (eq_bytes_iff raw old).0 f in
                let r : s0 ≡ s = (let m = rw q at h in cc) in
                let gone = record s { active = false } in
                let n : s.uses ≡ granted = ap (λ (x : InviteState). x.uses) (sym r) ∙ u in
                rw (e, f)
                  (counted (json.marshal gone) (raw ∷ older) granted gone
                    (json.unmarshal_marshal gone) n l
                    ((gone, json.unmarshal_marshal gone, same), all))
          ])
        ]

    -- What a server has loaded has the limit, too.
    consume_loaded-IsCounted :
        (w : Ledger) (now : ℕ) (old : Option Bytes)
        → IsCounted w
        → ((raw : Bytes) → old ≡ some raw → HasLimit raw)
        → IsCounted (consume_loaded json w now old)
    consume_loaded-IsCounted w now none h has = h
    consume_loaded-IsCounted w now (some old) h has =
        let (s, there, same) = has old refl in
        rw there (use_state-IsCounted w now old s h there same)

    revoke_loaded-IsCounted :
        (w : Ledger) (old : Option Bytes)
        → IsCounted w
        → ((raw : Bytes) → old ≡ some raw → HasLimit raw)
        → IsCounted (revoke_loaded json w old)
    revoke_loaded-IsCounted w none h has = h
    revoke_loaded-IsCounted w (some old) h has =
        let (s, there, same) = has old refl in
        rw there (revoke_state-IsCounted w old s h there same)

    IsCounted-get :
        (w : Ledger) (i : ℕ)
        → IsCounted w
        → (raw : Bytes) → get_elem? w.history i ≡ some raw
        → HasLimit raw
    IsCounted-get _ i (counted raw older granted s h u l all) = λ x k. All-get (raw ∷ older) i all k

    attempts-IsCounted :
        (rounds : List (Attempt json)) (w : Ledger)
        → IsCounted w
        → IsCounted (attempts json rounds w)
    attempts-IsCounted [] w h = h
    attempts-IsCounted (consume now loaded ∷ rounds) w h =
        attempts-IsCounted rounds (attempt json (consume now loaded) w)
          (consume_loaded-IsCounted w now (get_elem? w.history loaded) h (IsCounted-get w loaded h))
    attempts-IsCounted (revoke loaded ∷ rounds) w h =
        attempts-IsCounted rounds (attempt json (revoke loaded) w)
          (revoke_loaded-IsCounted w (get_elem? w.history loaded) h (IsCounted-get w loaded h))

-- However many servers use and revoke a new invitation with a limit, in any order, each going on
-- with any value of the record that was stored before, no more uses are granted than the limit.
pub attempts-granted :
    (json : InviteJson) (s : InviteState) (rounds : List (Attempt json))
    → s.uses ≡ 0
    → 0 < s.max_uses
    → (attempts json rounds (issued json s)).granted ≤ s.max_uses
attempts-granted json s rounds fresh positive = limit_of (
    attempts-IsCounted json s.max_uses positive rounds (issued json s) (
      counted (json.marshal s) [] 0 s (json.unmarshal_marshal s) fresh (omega arith)
        ((s, json.unmarshal_marshal s, refl), tt)))
  where
    limit_of : {w : Ledger} → IsCounted json s.max_uses w → w.granted ≤ s.max_uses
    limit_of (counted raw older granted s h u l all) = l
