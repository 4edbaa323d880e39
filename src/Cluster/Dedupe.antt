-- ===== src/Cluster/Dedupe.antt =====
-- internal/server/cluster_transport_dedupe.go: the window of requests between nodes. Each critical section of `Execute` is one step; a time is a number.
pub mod Tracking
pub mod Once
pub mod Capacity
use server_chat.Common.{
  ℕ, ◌+◌, ◌≤◌, ◌≡◌, Bool, true, false, not, ◌&&◌, Option, none, some, List, [], ◌∷◌, ◌==◌, leb,
  length, if◌then◌else◌,
}
use server_chat.Common.Bytes.{Bytes}

-- What a completed call has left: the response, the error text and the time of expiry.
pub record Completion : Type 0 where
  pub response : Bytes
  pub error_text : Bytes
  pub expires_at : ℕ

-- clusterDedupeEntry. A key, a kind and a digest are numbers; `ready` is closed when `completion`
-- is there.
pub record Entry : Type 0 where
  pub key : ℕ
  pub kind : ℕ
  pub digest : ℕ
  pub completion : Option Completion

pub record Slot : Type 0 where
  pub key : ℕ
  pub id : ℕ

-- clusterDedupeCache. The callers share the entries by pointers, so that `entries` holds numbers
-- in a heap.
pub record DedupeCache : Type 0 where
  pub heap : ℕ → Option Entry
  pub next : ℕ
  pub entries : List Slot
  pub capacity : ℕ
  pub ttl : ℕ

-- newClusterDedupeCache
abbrev pub new_dedupe_cache : ℕ → ℕ → DedupeCache
new_dedupe_cache capacity ttl = record {
  heap = λ id. none;
  next = 0;
  entries = [];
  capacity = capacity;
  ttl = ttl;
}

-- cache.entries[key]
abbrev pub lookup : ℕ → List Slot → Option ℕ
lookup key [] = none
lookup key (slot ∷ entries) = if slot.key == key then some slot.id else lookup key entries

-- delete(cache.entries, key)
abbrev pub remove : ℕ → List Slot → List Slot
remove key [] = []
remove key (slot ∷ entries) =
    let rest = remove key entries in if slot.key == key then rest else slot ∷ rest

abbrev pub completion_expired : ℕ → Option Completion → Bool
completion_expired at none = false
completion_expired at (some completion) = leb completion.expires_at at

-- entry.completed && !entry.expiresAt.After(now)
abbrev pub is_expired : ℕ → Option Entry → Bool
is_expired at none = false
is_expired at (some entry) = completion_expired at entry.completion

-- *p = entry
abbrev pub store_at : (ℕ → Option Entry) → ℕ → Entry → ℕ → Option Entry
store_at heap id entry other = if id == other then some entry else heap other

-- One round of the loop over the keys: the entry is deleted, or the rest is visited.
abbrev pub evict_slot :
    (ℕ → Option Entry) → ℕ → ℕ → List Slot → Option (List Slot) → Option ℕ → Option (List Slot)
evict_slot heap at key entries rest none = rest
evict_slot heap at key entries rest (some id) =
    if is_expired at (heap id) then some (remove key entries) else rest

-- evictOneCompletedLocked. Go visits the keys of a map in any order, which is an argument.
abbrev pub evict_one : (ℕ → Option Entry) → ℕ → List ℕ → List Slot → Option (List Slot)
evict_one heap at [] entries = none
evict_one heap at (key ∷ order) entries =
    evict_slot heap at key entries (evict_one heap at order entries) (lookup key entries)

-- What a caller does after the first critical section: it fails, waits for an entry, or dispatches
-- the call of a new one.
pub data Decision : Type 0 where
  collision window_full : Decision
  wait dispatch : ℕ → Decision

pub record Call : Type 0 where
  pub at : ℕ
  pub order : List ℕ
  pub key : ℕ
  pub kind : ℕ
  pub digest : ℕ

abbrev pub new_entry : Call → Entry
new_entry q = record { key = q.key; kind = q.kind; digest = q.digest; completion = none }

-- A new entry in a window that has room.
abbrev pub insert : DedupeCache → Call → List Slot → DedupeCache × Decision
insert c q entries = (
  record c {
    heap = store_at c.heap c.next (new_entry q);
    next = c.next + 1;
    entries = record { key = q.key; id = c.next } ∷ entries;
  },
  dispatch c.next,
)

abbrev pub insert_after :
    DedupeCache → Call → List Slot → Option (List Slot) → DedupeCache × Decision
insert_after c q entries none = (record c { entries = entries }, window_full)
insert_after c q entries (some rest) = insert c q rest

-- The test of the capacity.
unfoldable pub admit : DedupeCache → Call → List Slot → DedupeCache × Decision
admit c q entries =
    if leb c.capacity (length entries)
    then insert_after c q entries (evict_one c.heap q.at q.order entries)
    else insert c q entries

abbrev pub has_payload : Call → Option Entry → Bool
has_payload q none = false
has_payload q (some entry) = entry.kind == q.kind && entry.digest == q.digest

unfoldable pub enter_at : DedupeCache → Call → Option ℕ → DedupeCache × Decision
enter_at c q none = admit c q c.entries
enter_at c q (some id) =
    if not (has_payload q (c.heap id))
    then (c, collision)
    else if is_expired q.at (c.heap id)
    then admit c q (remove q.key c.entries)
    else (c, wait id)

-- The first critical section of `Execute`.
abbrev pub enter : DedupeCache → Call → DedupeCache × Decision
enter c q = enter_at c q (lookup q.key c.entries)

abbrev pub complete : Completion → Entry → Entry
complete completion entry = record entry { completion = some completion }

-- The second one, after the dispatch, for an entry of the heap.
abbrev pub finish : DedupeCache → ℕ → ℕ → Entry → Bytes → Bytes → DedupeCache
finish c now id entry response error_text = record c {
  heap = store_at c.heap id (
      complete (record { response = response; error_text = error_text; expires_at = now + c.ttl })
        entry);
}

pub record Window : Type 0 where
  pub cache : DedupeCache
  pub now : ℕ

-- Time passes, a caller enters with a time that it read before, and a dispatched call that runs
-- ends.
pub data Step : Window → Window → Type 0 where
  tick : (w : Window) (n : ℕ) → Step w (record w { now = w.now + n })
  call : (w : Window) (q : Call) → q.at ≤ w.now → Step w (record w { cache = (enter w.cache q).0 })
  end_call :
      (w : Window) (id : ℕ) (entry : Entry) (response error_text : Bytes)
      → w.cache.heap id ≡ some entry
      → entry.completion ≡ none
      → Step w (record w { cache = finish w.cache w.now id entry response error_text })

-- The windows that come from an empty one.
pub data Reach : Window → Type 0 where
  start :
      (capacity ttl now : ℕ) → Reach (record { cache = new_dedupe_cache capacity ttl; now = now })
  next_step : {w v : Window} → Reach w → Step w v → Reach v
