-- ===== src/Topic/Invites/Revoked.antt =====
-- internal/server/topic_invites.go: the uses of an invitation after it is revoked.
use server_chat.Common.{
  ℕ, ◌<◌, ◌≡◌, ◌∙◌, refl, sym, ap, inl, inr, arith, true, false, Bool-cases, Option, none, some,
  List, [], ◌∷◌, ◌==◌, get_elem?, All,
}
use server_chat.Common.Bytes.{Bytes, eq_bytes, eq_bytes_iff}
use server_chat.Topic.Invites.{
  InviteState, InviteJson, is_spent, Ledger, use_state, revoke_state, Attempt, consume, revoke,
  consume_loaded, revoke_loaded, attempt, attempts,
}
use server_chat.Topic.Invites.Limits.{HasLimit, All-get}

spent_if_revoked : (now : ℕ) (s : InviteState) → s.active ≡ false → is_spent now s ≡ true
unfolding is_spent
spent_if_revoked now s e = rw e refl

module _ (json : InviteJson) (limit : ℕ) (positive : 0 < limit) where
  -- The stored state is not active, each value had the limit, and so many uses were granted.
  data IsRevoked (granted : ℕ) : Ledger → Type 0 where
    stays_revoked :
        (raw : Bytes) (older : List Bytes) (s : InviteState)
        → json.unmarshal raw ≡ some s
        → s.active ≡ false
        → All (HasLimit json limit) (raw ∷ older)
        → IsRevoked granted (record { history = raw ∷ older; granted = granted })

  use_state-IsRevoked :
      {granted : ℕ} (w : Ledger) (now : ℕ) (old : Bytes) (s : InviteState)
      → IsRevoked granted w
      → json.unmarshal old ≡ some s
      → s.max_uses ≡ limit
      → IsRevoked granted (use_state json w now old (some s))
  use_state-IsRevoked _ now old s (stays_revoked raw older s0 h off all) there same =
      let nonzero : (s.max_uses == 0) ≡ false = ground (arith, same) in
      elim (Bool-cases (is_spent now s)) [
        | inl e ↦ rw e (stays_revoked raw older s0 h off all)
        | inr e ↦ (elim (Bool-cases (eq_bytes raw old)) [
          | inr f ↦ rw (e, nonzero, f) (stays_revoked raw older s0 h off all)
          | inl f ↦
              let q : raw ≡ old = (eq_bytes_iff raw old).0 f in
              let r : s0 ≡ s = (let m = rw q at h in cc) in
              absurd (
                let m = spent_if_revoked now s (ap (λ (x : InviteState). x.active) (sym r) ∙ off) in
                cc)
        ])
      ]

  revoke_state-IsRevoked :
      {granted : ℕ} (w : Ledger) (old : Bytes) (s : InviteState)
      → IsRevoked granted w
      → json.unmarshal old ≡ some s
      → IsRevoked granted (revoke_state json w old (some s))
  revoke_state-IsRevoked _ old s (stays_revoked raw older s0 h off all) there =
      elim (Bool-cases s.active) [
        | inr e ↦ rw e (stays_revoked raw older s0 h off all)
        | inl e ↦ (elim (Bool-cases (eq_bytes raw old)) [
          | inr f ↦ rw (e, f) (stays_revoked raw older s0 h off all)
          | inl f ↦
              let q : raw ≡ old = (eq_bytes_iff raw old).0 f in
              let r : s0 ≡ s = (let m = rw q at h in cc) in
              absurd (let m = ap (λ (x : InviteState). x.active) (sym r) ∙ off in cc)
        ])
      ]

  IsRevoked-get :
      {granted : ℕ} (w : Ledger) (i : ℕ)
      → IsRevoked granted w
      → (raw : Bytes) → get_elem? w.history i ≡ some raw
      → HasLimit json limit raw
  IsRevoked-get _ i (stays_revoked raw older s h off all) =
      λ x k. All-get json limit (raw ∷ older) i all k

  attempt-IsRevoked :
      {granted : ℕ} (a : Attempt json) (w : Ledger)
      → IsRevoked granted w
      → IsRevoked granted (attempt json a w)
  attempt-IsRevoked {granted} (consume now loaded) w h =
      go (get_elem? w.history loaded) (IsRevoked-get w loaded h)
    where
      go :
          (old : Option Bytes)
          → ((raw : Bytes) → old ≡ some raw → HasLimit json limit raw)
          → IsRevoked granted (consume_loaded json w now old)
      go none has = h
      go (some old) has =
          let (s, there, same) = has old refl in
          rw there (use_state-IsRevoked w now old s h there same)
  attempt-IsRevoked {granted} (revoke loaded) w h =
      go (get_elem? w.history loaded) (IsRevoked-get w loaded h)
    where
      go :
          (old : Option Bytes)
          → ((raw : Bytes) → old ≡ some raw → HasLimit json limit raw)
          → IsRevoked granted (revoke_loaded json w old)
      go none has = h
      go (some old) has =
          let (s, there, same) = has old refl in rw there (revoke_state-IsRevoked w old s h there)

  attempts-IsRevoked :
      {granted : ℕ} (rounds : List (Attempt json)) (w : Ledger)
      → IsRevoked granted w
      → IsRevoked granted (attempts json rounds w)
  attempts-IsRevoked [] w h = h
  attempts-IsRevoked (a ∷ rounds) w h =
      attempts-IsRevoked rounds (attempt json a w) (attempt-IsRevoked a w h)

  -- Once the stored record of an invitation with a limit is not active, and each value that it had
  -- has the limit, no further use is granted, also to a server that goes on with a value from
  -- before.
  pub attempts-revoked :
      (rounds : List (Attempt json)) (raw : Bytes) (older : List Bytes) (granted : ℕ)
      (s : InviteState)
      → json.unmarshal raw ≡ some s
      → s.active ≡ false
      → All (HasLimit json limit) (raw ∷ older)
      → (attempts json rounds (record { history = raw ∷ older; granted = granted })).granted
        ≡ granted
  attempts-revoked rounds raw older granted s h off all =
      unchanged (attempts-IsRevoked rounds _ (stays_revoked raw older s h off all))
    where
      unchanged : {w : Ledger} → IsRevoked granted w → w.granted ≡ granted
      unchanged (stays_revoked _ _ _ _ _ _) = refl
