-- ===== src/Cluster/Dedupe/Capacity.antt =====
-- internal/server/cluster_transport_dedupe.go: the number of entries of the window.
use server_chat.Common.{
  ℕ, ◌≤◌, ◌<◌, ◌≡◌, refl, inl, inr, arith, Bool-cases, Option, none, some, List, [], ◌∷◌, ◌==◌, leb,
  length,
}
use server_chat.Cluster.Dedupe.{
  Entry, Slot, DedupeCache, lookup, remove, is_expired, evict_slot, evict_one, Call, insert_after,
  admit, has_payload, enter_at, Window, Step, tick, call, end_call, Reach, start, next_step,
}

length-remove : (key : ℕ) (es : List Slot) → length (remove key es) ≤ length es
length-remove key [] = omega arith
length-remove key (slot ∷ es) = ground (arith, length-remove key es)

length-remove_found :
    (key id : ℕ) (es : List Slot) → lookup key es ≡ some id → length (remove key es) < length es
length-remove_found key id [] h = cc
length-remove_found key id (slot ∷ es) h = elim (Bool-cases (slot.key == key)) [
  | inl e ↦ rw e (omega (arith, length-remove key es))
  | inr e ↦ rw e (omega (arith, length-remove_found key id es (rw e at h)))
]

evict_slot-length :
    (heap : ℕ → Option Entry) (at key : ℕ) (es : List Slot) (left : Option (List Slot))
    (found : Option ℕ) {rest : List Slot}
    → lookup key es ≡ found
    → (left ≡ some rest → length rest < length es)
    → evict_slot heap at key es left found ≡ some rest
    → length rest < length es
evict_slot-length heap at key es left none f other h = other h
evict_slot-length heap at key es left (some id) {rest} f other h =
    elim (Bool-cases (is_expired at (heap id))) [
      | inr e ↦ other (rw e at h)
      | inl e ↦
          let gone : remove key es ≡ rest = (let m = rw e at h in cc) in
          rw (← gone) (length-remove_found key id es f)
    ]

evict_one-length :
    (heap : ℕ → Option Entry) (at : ℕ) (order : List ℕ) (es : List Slot) {rest : List Slot}
    → evict_one heap at order es ≡ some rest
    → length rest < length es
evict_one-length heap at [] es h = cc
evict_one-length heap at (key ∷ order) es h =
    evict_slot-length heap at key es (evict_one heap at order es) (lookup key es) refl
      (evict_one-length heap at order es) h

-- The cache has the capacity, and no more entries than it.
abbrev IsWithin : ℕ → DedupeCache → Type 0
IsWithin capacity c = (c.capacity ≡ capacity) × (length c.entries ≤ capacity)

module _ (capacity : ℕ) (c : DedupeCache) (q : Call) (same : c.capacity ≡ capacity) where
  admit-IsWithin : (es : List Slot) → length es ≤ capacity → IsWithin capacity (admit c q es).0
  unfolding admit
  admit-IsWithin es room = elim (Bool-cases (leb c.capacity (length es))) [
    | inr e ↦ rw e (same, ground arith)
    | inl e ↦ rw e (after (evict_one c.heap q.at q.order es) refl)
  ]
    where
      after :
          (rest : Option (List Slot))
          → evict_one c.heap q.at q.order es ≡ rest
          → IsWithin capacity (insert_after c q es rest).0
      after none h = (same, room)
      after (some rest) h = (same, omega (arith, evict_one-length c.heap q.at q.order es h))

  enter_at-IsWithin :
      (found : Option ℕ) → length c.entries ≤ capacity → IsWithin capacity (enter_at c q found).0
  unfolding enter_at
  enter_at-IsWithin none room = admit-IsWithin c.entries room
  enter_at-IsWithin (some id) room = elim (Bool-cases (has_payload q (c.heap id))) [
    | inr e ↦ rw e (same, room)
    | inl e ↦ (elim (Bool-cases (is_expired q.at (c.heap id))) [
      | inr x ↦ rw (e, x) (same, room)
      | inl x ↦
          rw (e, x)
            (admit-IsWithin (remove q.key c.entries) (omega (arith, length-remove q.key c.entries)))
    ])
  ]

Step-IsWithin :
    (capacity : ℕ) {w v : Window} → Step w v → IsWithin capacity w.cache → IsWithin capacity v.cache
Step-IsWithin capacity (tick w n) h = h
Step-IsWithin capacity (call w q le) (same, room) =
    enter_at-IsWithin capacity w.cache q same (lookup q.key w.cache.entries) room
Step-IsWithin capacity (end_call w id entry response error_text there running) h = h

-- In every state that it can reach, a window of requests between nodes has no more entries than its
-- capacity.
pub Reach-IsBounded : {w : Window} → Reach w → length w.cache.entries ≤ w.cache.capacity
Reach-IsBounded (start capacity ttl now) = omega arith
Reach-IsBounded (next_step {w} {v} r s) =
    let (same, room) = Step-IsWithin w.cache.capacity s (refl, Reach-IsBounded r) in rw same room
