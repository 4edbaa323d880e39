-- ===== src/Topic/Delete/Ownership.antt =====
-- internal/server/topic_meta_delete.go: the senders of the messages of a hard deletion.
use native.Mathlib.Decide.{dec_lt}
use server_chat.Common.{
  ℕ, zero, suc, ◌+◌, ◌-◌, ◌≤◌, ◌<◌, ◌≡◌, arith, Bool, true, false, ◌||◌, Bool-cases, Option,
  Option-cases, none, some, inl, inr, ◌⊎◌, List, [], ◌∷◌, ◌==◌, ==_iff,
}
use server_chat.Common.Result.{Result, Result-cases, ok}
use server_chat.Access.{is_deleter, is_reader}
use server_chat.Ranges.{Range, upper, covers, covered}
use server_chat.Topic.{Topic, user_data, mode}
use server_chat.Topic.Store.{StoreErr}
use server_chat.Topic.Delete.{MsgRange, Reply, requested, refuse_from, refuse_ranges, check_delete}

module _ (sender : ℕ → Result StoreErr (Option ℕ)) (as_uid : ℕ) where
  -- There is no such message, or it is the user's.
  abbrev pub IsOwn : ℕ → Type 0
  IsOwn id = (sender id ≡ ok none) ⊎ (sender id ≡ ok (some as_uid))

  refuse_from-step :
      (left seq : ℕ)
      → refuse_from sender as_uid (suc left) seq ≡ none
      → IsOwn seq × (refuse_from sender as_uid left (seq + 1) ≡ none)
  unfolding refuse_from
  refuse_from-step left seq h = elim (Result-cases (sender seq)) [
    | inr (e, q) ↦ (let k = rw (q, refuse_from) at h in cc)
    | inl (none, q) ↦ (inl q, rw (q, refuse_from) at h)
    | inl (some from, q) ↦ (elim (Bool-cases (from == as_uid)) [
      | inl same ↦ (inr (rw (← (==_iff from as_uid).0 same) q), rw (q, refuse_from, same) at h)
      | inr other ↦ (let k = rw (q, refuse_from, other) at h in cc)
    ])
  ]

  refuse_from-none :
      (left seq id : ℕ)
      → refuse_from sender as_uid left seq ≡ none
      → seq ≤ id
      → id < seq + left
      → IsOwn id
  refuse_from-none zero seq id h l u = absurd (omega arith)
  refuse_from-none (suc left) seq id h l u =
      let (own, rest) = refuse_from-step left seq h in
      elim (dec_lt seq id) [
        | yes past ↦ refuse_from-none left (seq + 1) id rest (omega arith) (omega arith)
        | no at_it ↦ (let e : id ≡ seq = omega arith in rw e own)
      ]

  refuse_ranges-none :
      (ranges : List Range) (id : ℕ)
      → refuse_ranges sender as_uid ranges ≡ none
      → covered ranges id ≡ true
      → IsOwn id
  unfolding refuse_ranges
  refuse_ranges-none [] id h c = cc
  refuse_ranges-none (r ∷ ranges) id h c =
      elim (Option-cases (refuse_from sender as_uid (upper r - r.low) r.low)) [
        | inl e ↦ (elim (Bool-cases (covers r id)) [
          | inl here ↦ refuse_from-none (upper r - r.low) r.low id e (ground arith) (ground arith)
          | inr other ↦ refuse_ranges-none ranges id (rw (e, refuse_ranges) at h) (rw other at c)
        ])
        | inr (x, e) ↦ (let k = rw (e, refuse_ranges) at h in cc)
      ]

check_delete-refuse_ranges :
    (sender : ℕ → Result StoreErr (Option ℕ)) (as_uid : ℕ) (as_chan : Bool) (seq : List MsgRange)
    (t : Topic) {ranges : List Range}
    → is_deleter (mode (user_data t as_uid)) ≡ false
    → check_delete sender as_uid as_chan true seq t ≡ ok ranges
    → refuse_ranges sender as_uid ranges ≡ none
unfolding check_delete
check_delete-refuse_ranges sender as_uid as_chan seq t {ranges} d h =
    elim (Bool-cases (as_chan || (user_data t as_uid).is_chan)) [
      | inl e ↦ (let k = rw e at h in cc)
      | inr e ↦ (elim (Bool-cases (is_reader (mode (user_data t as_uid)))) [
        | inr r ↦ (let k = rw (e, d, r) at h in cc)
        | inl r ↦ (elim (Option-cases (requested t.last_id seq)) [
          | inl q ↦ (let k = rw (e, d, r, q) at h in cc)
          | inr (found, q) ↦ (elim (Option-cases (refuse_ranges sender as_uid found)) [
            | inl p ↦
                let k : ◌≡◌ {A = Result Reply (List Range)} (ok found) (ok ranges) =
                  rw (e, d, r, q, d, p) at h in
                cc
            | inr (x, p) ↦ (let k = rw (e, d, r, q, d, p) at h in cc)
          ])
        ])
      ])
    ]

-- If the ranges of a request for a hard deletion pass the checks, and the user has no permission to
-- delete any message, then each id that they cover has no stored message or one of the user's own.
pub check_delete-IsOwn :
    (sender : ℕ → Result StoreErr (Option ℕ)) (as_uid : ℕ) (as_chan : Bool) (seq : List MsgRange)
    (t : Topic) {ranges : List Range} (id : ℕ)
    → is_deleter (mode (user_data t as_uid)) ≡ false
    → check_delete sender as_uid as_chan true seq t ≡ ok ranges
    → covered ranges id ≡ true
    → IsOwn sender as_uid id
check_delete-IsOwn sender as_uid as_chan seq t id d h c =
    refuse_ranges-none sender as_uid _ id
      (check_delete-refuse_ranges sender as_uid as_chan seq t d h) c
