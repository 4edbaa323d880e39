-- ===== src/UserCache.antt =====
-- internal/server/user_cache.go: the goroutine that keeps the counters of unread messages, reads them
-- from the database when they are first needed, and holds push notifications back meanwhile.
pub mod Updater
pub mod Counting
pub mod Receipts
pub mod Reading
pub mod Pending
pub mod Steps
pub mod Tracking
pub mod Sending
pub mod Waiting
pub mod Delivery
use mathlib.Core.List.{Permᴰ}
use server_chat.Common.{
  ℕ, ◌+◌, ◌≤◌, ◌≡◌, Bool, true, false, Option, none, some, List, [], ◌∷◌, ◌++◌, ◌==◌, All,
  if◌then◌else◌,
}
use server_chat.Common.Int.{ℤ, pos, negsuc, ◌+ℤ◌, is_negative}

-- unreadUpdateIOPending and unreadUpdateError
abbrev pub unread_update_io_pending : ℤ
unread_update_io_pending = negsuc 0

abbrev pub unread_update_error : ℤ
unread_update_error = negsuc 1

-- userCacheEntry. `topics` is counted up from zero, and the entry goes before it comes back to zero.
pub record UserCacheEntry : Type 0 where
  pub unread : ℤ
  pub topics : ℕ

-- bufferedUpdate
pub record BufferedUpdate : Type 0 where
  pub val : ℤ
  pub inc : Bool

-- push.Recipient, without the devices.
pub record Recipient : Type 0 where
  pub unread : ℤ
  pub should_increment : Bool

-- push.Receipt: the recipients in the order in which a loop visits the map, and a number for the
-- channel and the payload.
pub record Receipt : Type 0 where
  pub to : List (ℕ × Recipient)
  pub content : ℕ

-- pendingReceipt; `serial` stands for the address of the object.
pub record PendingReceipt : Type 0 where
  pub serial : ℕ
  pub pending_ios : ℕ
  pub rcpt : Receipt

-- The calls of package `container/heap`. `Fix` has the address of the element that has changed.
pub data HeapCall : Type 0 where
  heap_push heap_pop : HeapCall
  heap_fix : ℕ → HeapCall

-- Go's package `container/heap`: the order in which a call leaves the elements of the slice that the
-- program passes to it. The elements stay the same, and a least one stands first.
pub record HeapPackage : Type 0 where
  pub arrange : HeapCall → List PendingReceipt → List PendingReceipt
  pub arrange_perm : (c : HeapCall) (q : List PendingReceipt) → Permᴰ q (arrange c q)
  pub arrange_least :
      (c : HeapCall) (q : List PendingReceipt) {first : PendingReceipt} {rest : List PendingReceipt}
      → arrange c q ≡ first ∷ rest
      → All (λ (p : PendingReceipt). first.pending_ios ≤ p.pending_ios) rest

-- The variables of `userUpdater`. A map is a function; `perUserPendingReceipts` is the list of its
-- pairs of a user and a receipt, in the order in which they were added, since no key has an empty
-- list. `reads` has the users of each goroutine that still reads the database, and `sent` the
-- receipts passed to `push.Push`, the last one first.
pub record Cache : Type 0 where
  pub users_cache : ℕ → Option UserCacheEntry
  pub per_user_buffers : ℕ → Option (List BufferedUpdate)
  pub waiting : List (ℕ × ℕ)
  pub receipt_queue : List PendingReceipt
  pub reads : List (List ℕ)
  pub next_serial : ℕ
  pub sent : List Receipt

abbrev pub set_key {ℓ} : {A : Type ℓ} → (ℕ → Option A) → ℕ → Option A → ℕ → Option A
set_key m key v k = if k == key then v else m k

-- The body of the loop of `unreadUpdater` for one user, with the value in the cache and the buffer:
-- the state, the users to read so far, and the count.
pub record Counted : Type 0 where
  pub cache : Cache
  pub db_pending : List ℕ
  pub counts : List (ℕ × ℤ)

abbrev pub updated_count : ℤ → Bool → ℤ → ℤ
updated_count unread true val = unread +ℤ val
updated_count unread false val = val

abbrev pub buffer_update : Counted → ℕ → BufferedUpdate → Option (List BufferedUpdate) → Counted
buffer_update c uid upd (some updates) = record {
  cache = record c.cache {
    per_user_buffers = set_key c.cache.per_user_buffers uid (some (updates ++ upd ∷ []));
  };
  db_pending = c.db_pending;
  counts = c.counts ++ (uid, unread_update_io_pending) ∷ [];
}
buffer_update c uid upd none = record {
  cache = record c.cache { per_user_buffers = set_key c.cache.per_user_buffers uid (some []) };
  db_pending = c.db_pending ++ uid ∷ [];
  counts = c.counts ++ (uid, unread_update_io_pending) ∷ [];
}

abbrev pub not_loaded : Counted → ℕ → Counted
not_loaded c uid = record c { counts = c.counts ++ (uid, unread_update_error) ∷ [] }

abbrev pub set_unread : Counted → ℕ → UserCacheEntry → ℤ → Counted
set_unread c uid uce unread = record {
  cache = record c.cache {
    users_cache = set_key c.cache.users_cache uid (some (record uce { unread = unread }));
  };
  db_pending = c.db_pending;
  counts = c.counts ++ (uid, unread) ∷ [];
}

unfoldable pub count_entry : Counted → ℕ → ℤ → Bool → Option UserCacheEntry → Counted
count_entry c uid val inc none = not_loaded c uid
count_entry c uid val inc (some uce) =
    if is_negative uce.unread
    then buffer_update c uid (record { val = val; inc = inc }) (c.cache.per_user_buffers uid)
    else set_unread c uid uce (updated_count uce.unread inc val)

unfoldable pub count_all : Counted → List (ℕ × ℤ) → Bool → Counted
unfolding count_entry
count_all c [] inc = c
count_all c ((uid, val) ∷ updates) inc =
    count_all (count_entry c uid val inc (c.cache.users_cache uid)) updates inc

-- One goroutine reads the counters of all users that need it.
abbrev pub start_read : List ℕ → Cache → Cache
start_read [] s = s
start_read (uid ∷ uids) s = record s { reads = s.reads ++ (uid ∷ uids) ∷ [] }

-- unreadUpdater
unfoldable pub unread_updater : Cache → List (ℕ × ℤ) → Bool → Counted
unfolding count_all
unread_updater s updates inc =
    let c = count_all (record { cache = s; db_pending = []; counts = [] }) updates inc in
    record c { cache = start_read c.db_pending c.cache }
