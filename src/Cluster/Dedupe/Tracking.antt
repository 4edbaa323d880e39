-- ===== src/Cluster/Dedupe/Tracking.antt =====
-- internal/server/cluster_transport_dedupe.go: which entries the window still has.
use server_chat.Common.{
  ℕ, ◌≤◌, ◌≡◌, ◌≢◌, ◌∙◌, refl, inl, inr, arith, true, Bool-cases, Option, none, some, List, [], ◌∷◌,
  ◌==◌, ==_iff,
}
use server_chat.Cluster.Dedupe.{
  Completion, Entry, Slot, lookup, remove, completion_expired, is_expired, evict_slot, evict_one,
}

pub lookup-remove_same : (key : ℕ) (es : List Slot) → lookup key (remove key es) ≡ none
lookup-remove_same key [] = refl
lookup-remove_same key (slot ∷ es) = elim (Bool-cases (slot.key == key)) [
  | inl e ↦ rw e (lookup-remove_same key es)
  | inr e ↦ rw (e, e) (lookup-remove_same key es)
]

pub lookup-remove_other :
    (key k : ℕ) (es : List Slot) → key ≢ k → lookup k (remove key es) ≡ lookup k es
lookup-remove_other key k [] apart = refl
lookup-remove_other key k (slot ∷ es) apart = ground (arith, lookup-remove_other key k es apart)

-- An entry of the heap is in the window, or its result is no longer kept at the time.
pub data Status (heap : ℕ → Option Entry) (now : ℕ) (es : List Slot) (id : ℕ) : Type 0 where
  unused : heap id ≡ none → Status heap now es id
  held : (e : Entry) → heap id ≡ some e → lookup e.key es ≡ some id → Status heap now es id
  over :
      (e : Entry)
      → heap id ≡ some e
      → completion_expired now e.completion ≡ true
      → Status heap now es id

-- No entry for the key is running, or has a result that is still kept.
pub data IsPast (heap : ℕ → Option Entry) (now key id : ℕ) : Type 0 where
  no_entry : heap id ≡ none → IsPast heap now key id
  other_key : (e : Entry) → heap id ≡ some e → e.key ≢ key → IsPast heap now key id
  expired :
      (e : Entry)
      → heap id ≡ some e
      → completion_expired now e.completion ≡ true
      → IsPast heap now key id

abbrev pub Tracks : (ℕ → Option Entry) → ℕ → List Slot → Type 0
Tracks heap now es = (id : ℕ) → Status heap now es id

-- What is not kept any more at a time is not kept later.
pub completion_expired_later :
    (at now : ℕ) (c : Option Completion)
    → at ≤ now
    → completion_expired at c ≡ true
    → completion_expired now c ≡ true
completion_expired_later at now none le h = h
completion_expired_later at now (some c) le h = ground arith

module _ (heap : ℕ → Option Entry) (now : ℕ) (es : List Slot) (tracks : Tracks heap now es) where
  -- A key that the window does not have is past.
  pub cleared : (key : ℕ) → lookup key es ≡ none → (id : ℕ) → IsPast heap now key id
  cleared key absent id = elim (tracks id) [
    | unused u ↦ no_entry u
    | over e h x ↦ expired e h x
    | held e h l ↦ other_key e h (λ k. let m : lookup key es ≡ some id = rw k at l in cc)
  ]

  -- Removing an entry whose result is no longer kept.
  pub remove-Tracks :
      (key gone at : ℕ)
      → lookup key es ≡ some gone
      → is_expired at (heap gone) ≡ true
      → at ≤ now
      → Tracks heap now (remove key es)
  remove-Tracks key gone at there ended le id = elim (tracks id) [
    | unused u ↦ unused u
    | over e h x ↦ over e h x
    | held e h l ↦ (elim (Bool-cases (key == e.key)) [
      | inl same ↦
          let k : lookup e.key es ≡ some gone = rw (← (==_iff key e.key).0 same) there in
          let g : gone ≡ id = cc in
          let x : is_expired at (heap id) ≡ true = rw (← g) ended in
          over e h (completion_expired_later at now e.completion le (rw h at x))
      | inr other ↦
          held e h
            (lookup-remove_other key e.key es (λ q. let k = (==_iff key e.key).1 q in cc) ∙ l)
    ])
  ]

  -- What the eviction leaves.
  evict_slot-Tracks :
      (k at key : ℕ) (found : Option ℕ) (left : Option (List Slot)) {rest : List Slot}
      → at ≤ now
      → lookup key es ≡ found
      → lookup k es ≡ none
      → (left ≡ some rest → Tracks heap now rest × (lookup k rest ≡ none))
      → evict_slot heap at key es left found ≡ some rest
      → Tracks heap now rest × (lookup k rest ≡ none)
  evict_slot-Tracks k at key none left le f absent other h = other h
  evict_slot-Tracks k at key (some id) left {rest} le f absent other h =
      elim (Bool-cases (is_expired at (heap id))) [
        | inr e ↦ other (rw e at h)
        | inl e ↦
            let gone : remove key es ≡ rest = (let m = rw e at h in cc) in
            rw (← gone) (
              remove-Tracks key id at f e le,
              elim (Bool-cases (key == k)) [
                | inl q ↦ rw (← (==_iff key k).0 q) (lookup-remove_same key es)
                | inr q ↦
                    lookup-remove_other key k es (λ p. let m = (==_iff key k).1 p in cc) ∙ absent
              ],
            )
      ]

  pub evict_one-Tracks :
      (k at : ℕ) (order : List ℕ) {rest : List Slot}
      → at ≤ now
      → lookup k es ≡ none
      → evict_one heap at order es ≡ some rest
      → Tracks heap now rest × (lookup k rest ≡ none)
  evict_one-Tracks k at [] le absent h = cc
  evict_one-Tracks k at (key ∷ order) le absent h =
      evict_slot-Tracks k at key (lookup key es) (evict_one heap at order es) le refl absent
        (evict_one-Tracks k at order le absent) h
