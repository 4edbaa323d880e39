-- ===== src/Cluster/Dedupe/Once.antt =====
-- internal/server/cluster_transport_dedupe.go: when a call is dispatched.
use server_chat.Common.{
  ℕ, ◌+◌, ◌≤◌, ◌<◌, ◌≡◌, ◌⊎◌, refl, ap, inl, inr, arith, true, Bool-cases, Option, none, some, List,
  ◌∷◌, ◌==◌, ==_iff, leb, length,
}
use server_chat.Common.Bytes.{Bytes}
use server_chat.Cluster.Dedupe.{
  Entry, Slot, DedupeCache, lookup, remove, is_expired, store_at, evict_one, Decision, dispatch,
  Call, new_entry, insert, insert_after, admit, has_payload, enter_at, enter, complete, finish,
  Window, tick, call, end_call, Reach, start, next_step,
}
use server_chat.Cluster.Dedupe.Tracking.{
  Status, unused, held, over, IsPast, Tracks, cleared, remove-Tracks, evict_one-Tracks,
  lookup-remove_same, completion_expired_later,
}

-- The heap has nothing from `next` on.
abbrev pub IsFresh : DedupeCache → Type 0
IsFresh c = (id : ℕ) → (id < c.next) ⊎ (c.heap id ≡ none)

-- A call is dispatched only if its key is past.
abbrev pub IsFirst : (ℕ → Option Entry) → ℕ → ℕ → Decision → Type 0
IsFirst heap now key (dispatch id) = (heap id ≡ none) × ((other : ℕ) → IsPast heap now key other)
IsFirst heap now key _ = Unit

-- What holds after the first critical section, of the cache and the decision.
abbrev IsSound : DedupeCache → ℕ → ℕ → DedupeCache × Decision → Type 0
IsSound c now key x = Tracks x.0.heap now x.0.entries × IsFresh x.0 × IsFirst c.heap now key x.1

module _ (c : DedupeCache) (now : ℕ) (q : Call) (fresh : IsFresh c) (le : q.at ≤ now) where
  insert-IsSound :
      (es : List Slot)
      → Tracks c.heap now es
      → lookup q.key es ≡ none
      → IsSound c now q.key (insert c q es)
  insert-IsSound es tracks absent =
      (status, room, (new_id (fresh c.next), cleared c.heap now es tracks q.key absent))
    where
      new_id : (c.next < c.next) ⊎ (c.heap c.next ≡ none) → c.heap c.next ≡ none
      new_id (inl l) = absurd (omega arith)
      new_id (inr h) = h

      room : (id : ℕ) → (id < c.next + 1) ⊎ (store_at c.heap c.next (new_entry q) id ≡ none)
      room id = elim (Bool-cases (c.next == id)) [
        | inl e ↦ inl (ground arith)
        | inr e ↦ rw e (elim (fresh id) [ inl l ↦ inl (omega arith) | inr h ↦ inr h ])
      ]

      kept :
          (x : Entry) {id : ℕ}
          → lookup x.key es ≡ some id
          → lookup x.key (record { key = q.key; id = c.next } ∷ es) ≡ some id
      kept x l = elim (Bool-cases (q.key == x.key)) [
        | inl e ↦ absurd (let m = rw (← (==_iff q.key x.key).0 e) at l in cc)
        | inr e ↦ rw e l
      ]

      status :
          (id : ℕ)
          → Status
              (store_at c.heap c.next (new_entry q))
              now
              (record { key = q.key; id = c.next } ∷ es)
              id
      status id = elim (Bool-cases (c.next == id)) [
        | inl e ↦
            held (new_entry q) (rw e refl)
              (let s = (==_iff q.key q.key).1 refl in rw s (ap some ((==_iff c.next id).0 e)))
        | inr e ↦ (elim (tracks id) [
          | unused u ↦ unused (rw e u)
          | over x h k ↦ over x (rw e h) k
          | held x h l ↦ held x (rw e h) (kept x l)
        ])
      ]

  admit-IsSound :
      (es : List Slot)
      → Tracks c.heap now es
      → lookup q.key es ≡ none
      → IsSound c now q.key (admit c q es)
  unfolding admit
  admit-IsSound es tracks absent = elim (Bool-cases (leb c.capacity (length es))) [
    | inr e ↦ rw e (insert-IsSound es tracks absent)
    | inl e ↦ rw e (after (evict_one c.heap q.at q.order es) refl)
  ]
    where
      after :
          (rest : Option (List Slot))
          → evict_one c.heap q.at q.order es ≡ rest
          → IsSound c now q.key (insert_after c q es rest)
      after none h = (tracks, fresh, tt)
      after (some rest) h =
          let (t, a) = evict_one-Tracks c.heap now es tracks q.key q.at q.order le absent h in
          insert-IsSound rest t a

  enter_at-IsSound :
      (found : Option ℕ)
      → Tracks c.heap now c.entries
      → lookup q.key c.entries ≡ found
      → IsSound c now q.key (enter_at c q found)
  unfolding enter_at
  enter_at-IsSound none tracks f = admit-IsSound c.entries tracks f
  enter_at-IsSound (some id) tracks f = elim (Bool-cases (has_payload q (c.heap id))) [
    | inr e ↦ rw e (tracks, fresh, tt)
    | inl e ↦ (elim (Bool-cases (is_expired q.at (c.heap id))) [
      | inr x ↦ rw (e, x) (tracks, fresh, tt)
      | inl x ↦
          rw (e, x)
            (admit-IsSound (remove q.key c.entries)
              (remove-Tracks c.heap now c.entries tracks q.key id q.at f x le)
              (lookup-remove_same q.key c.entries))
    ])
  ]

-- Time that passes ends no status.
later :
    (heap : ℕ → Option Entry) (now n : ℕ) (es : List Slot)
    → Tracks heap now es
    → Tracks heap (now + n) es
later heap now n es tracks id = elim (tracks id) [
  | unused u ↦ unused u
  | held e h l ↦ held e h l
  | over e h x ↦ over e h (completion_expired_later now (now + n) e.completion (omega arith) x)
]

-- The end of a call keeps its entry where it is.
finish-Tracks :
    (c : DedupeCache) (now id : ℕ) (entry : Entry) (response error_text : Bytes)
    → Tracks c.heap now c.entries
    → c.heap id ≡ some entry
    → entry.completion ≡ none
    → Tracks (finish c now id entry response error_text).heap now c.entries
finish-Tracks c now id entry response error_text tracks there running other =
    elim (Bool-cases (id == other)) [
      | inl e ↦ rw (← (==_iff id other).0 e) (self (tracks id))
      | inr e ↦ (elim (tracks other) [
        | unused u ↦ unused (rw e u)
        | held x h l ↦ held x (rw e h) l
        | over x h k ↦ over x (rw e h) k
      ])
    ]
  where
    s : (id == id) ≡ true
    s = (==_iff id id).1 refl

    self :
        Status c.heap now c.entries id
        → Status (finish c now id entry response error_text).heap now c.entries id
    self (unused u) = absurd cc
    self (held x h l) =
        let q : x ≡ entry = cc in
        held
          (complete
            (record { response = response; error_text = error_text; expires_at = now + c.ttl })
            entry)
          (rw s refl) (rw q at l)
    self (over x h k) = let q : x ≡ entry = cc in absurd (let m = rw (q, running) at k in cc)

finish-IsFresh :
    (c : DedupeCache) (now id : ℕ) (entry : Entry) (response error_text : Bytes)
    → IsFresh c
    → c.heap id ≡ some entry
    → IsFresh (finish c now id entry response error_text)
finish-IsFresh c now id entry response error_text fresh there other =
    elim (Bool-cases (id == other)) [
      | inl e ↦
          inl (rw (← (==_iff id other).0 e) (elim (fresh id) [ inl l ↦ l | inr h ↦ absurd cc ]))
      | inr e ↦ rw e (fresh other)
    ]

tracked : {w : Window} → Reach w → Tracks w.cache.heap w.now w.cache.entries × IsFresh w.cache
tracked (start capacity ttl now) = (λ id. unused refl, λ id. inr refl)
tracked (next_step r (tick w n)) =
    let (t, f) = tracked r in (later w.cache.heap w.now n w.cache.entries t, f)
tracked (next_step r (call w q le)) =
    let (t, f) = tracked r in
    let (t1, f1, p) = enter_at-IsSound w.cache w.now q f le (lookup q.key w.cache.entries) t refl in
    (t1, f1)
tracked (next_step r (end_call w id entry response error_text h running)) =
    let (t, f) = tracked r in
    (
      finish-Tracks w.cache w.now id entry response error_text t h running,
      finish-IsFresh w.cache w.now id entry response error_text f h,
    )

-- In every state that a window of requests between nodes can reach, by any order of callers, ends
-- of calls and time, a call that is dispatched has a new entry, and no entry of its key is running
-- or has a result that is still kept.
pub enter-IsFirst :
    {w : Window} (q : Call)
    → Reach w
    → q.at ≤ w.now
    → IsFirst w.cache.heap w.now q.key (enter w.cache q).1
enter-IsFirst {w} q r le =
    let (t, f) = tracked r in
    (enter_at-IsSound w.cache w.now q f le (lookup q.key w.cache.entries) t refl).2
