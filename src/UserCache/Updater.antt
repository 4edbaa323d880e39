-- ===== src/UserCache/Updater.antt =====
-- internal/server/user_cache.go: the cases of the loop of `userUpdater`.
use server_chat.Common.{
  ℕ, zero, suc, ◌+◌, ◌-◌, Bool, true, false, Option, none, some, List, [], ◌∷◌, ◌++◌, ◌==◌, ltb,
  length, if◌then◌else◌,
}
use server_chat.Common.Int.{ℤ, pos, negsuc, is_negative}
use server_chat.UserCache.{
  UserCacheEntry, BufferedUpdate, Recipient, Receipt, PendingReceipt, heap_push, heap_pop, heap_fix,
  HeapPackage, Cache, set_key, updated_count, unread_updater,
}

-- The updates that were kept during the read, applied to the value from the database.
unfoldable pub apply_updates : ℤ → List BufferedUpdate → ℤ
apply_updates count [] = count
apply_updates count (upd ∷ updates) = apply_updates (updated_count count upd.inc upd.val) updates

abbrev pub updates_of : Option (List BufferedUpdate) → List BufferedUpdate
updates_of none = []
updates_of (some updates) = updates

abbrev pub loaded : ℤ → Option UserCacheEntry → Option UserCacheEntry
loaded count none = none
loaded count (some uce) = some (record uce { unread = count })

-- `pp.pendingIOs--` through the address of a receipt.
unfoldable pub lowered : ℕ → List PendingReceipt → List PendingReceipt
lowered serial [] = []
lowered serial (p ∷ q) =
    let rest = lowered serial q in
    if p.serial == serial then record p { pending_ios = p.pending_ios - 1 } ∷ rest else p ∷ rest

unfoldable pub without : ℕ → List (ℕ × ℕ) → List (ℕ × ℕ)
without uid [] = []
without uid ((u, serial) ∷ waiting) =
    let rest = without uid waiting in if u == uid then rest else (u, serial) ∷ rest

-- The counters of a receipt that are known when it is sent.
abbrev pub with_unread : Recipient → Option UserCacheEntry → Recipient
with_unread r none = r
with_unread r (some uce) = if is_negative uce.unread then r else record r { unread = uce.unread }

unfoldable pub fill : (ℕ → Option UserCacheEntry) → List (ℕ × Recipient) → List (ℕ × Recipient)
fill users [] = []
fill users ((uid, r) ∷ to) = (uid, with_unread r (users uid)) ∷ fill users to

abbrev pub push_receipt : Receipt → Cache → Cache
push_receipt rcpt s = record s { sent = rcpt ∷ s.sent }

-- What the loop of `unreadUpdater` says about the recipients: the counters that are known, and the
-- users whose counters are being read.
unfoldable pub set_known : List (ℕ × Recipient) → List (ℕ × ℤ) → List (ℕ × Recipient)
set_known ((uid, r) ∷ to) ((_, unread) ∷ counts) =
    (uid, (if is_negative unread then r else record r { unread = unread })) ∷ set_known to counts
set_known to _ = to

abbrev pub is_pending : ℤ → Bool
is_pending (pos n) = false
is_pending (negsuc n) = n == 0

unfoldable pub pending_users : List (ℕ × ℤ) → List ℕ
pending_users [] = []
pending_users ((uid, unread) ∷ counts) =
    let rest = pending_users counts in if is_pending unread then uid ∷ rest else rest

unfoldable pub deltas : List (ℕ × Recipient) → List (ℕ × ℤ)
deltas [] = []
deltas ((uid, r) ∷ to) = (uid, (if r.should_increment then pos 1 else pos 0)) ∷ deltas to

abbrev pub wait_pairs : List ℕ → ℕ → List (ℕ × ℕ)
wait_pairs [] serial = []
wait_pairs (uid ∷ uids) serial = (uid, serial) ∷ wait_pairs uids serial

module _ (heap : HeapPackage) where
  -- The receipts that wait for a user, each with one read less to wait for.
  unfoldable pub lower_all : ℕ → List (ℕ × ℕ) → List PendingReceipt → List PendingReceipt
  unfolding lowered
  lower_all uid [] q = q
  lower_all uid ((u, serial) ∷ waiting) q =
      lower_all uid waiting
        (if u == uid then heap.arrange (heap_fix serial) (lowered serial q) else q)

  -- One user of a result, by whether the read failed.
  unfoldable pub count_read : Bool → ℕ → ℤ → Cache → Cache
  unfolding lower_all without apply_updates
  count_read true uid count s = record s { per_user_buffers = set_key s.per_user_buffers uid none }
  count_read false uid count s = record s {
    per_user_buffers = set_key s.per_user_buffers uid none;
    users_cache =
        set_key s.users_cache uid
          (loaded (apply_updates count (updates_of (s.per_user_buffers uid))) (s.users_cache uid));
    receipt_queue = lower_all uid s.waiting s.receipt_queue;
    waiting = without uid s.waiting;
  }

  unfoldable pub count_reads : Bool → List (ℕ × ℤ) → Cache → Cache
  unfolding count_read
  count_reads failed [] s = s
  count_reads failed ((uid, count) ∷ counts) s =
      count_reads failed counts (count_read failed uid count s)

  -- The loop that sends what is ready, over as many rounds as there are receipts.
  unfoldable pub send_ready : ℕ → List PendingReceipt → Cache → Cache
  unfolding fill
  send_ready zero q s = record s { receipt_queue = q }
  send_ready (suc fuel) [] s = record s { receipt_queue = [] }
  send_ready (suc fuel) (p ∷ q) s =
      let rest =
        send_ready fuel (heap.arrange heap_pop q)
          (push_receipt (record p.rcpt { to = fill s.users_cache p.rcpt.to }) s) in
      if p.pending_ios == 0 then rest else record s { receipt_queue = p ∷ q }

  -- case io := <-ioDone
  unfoldable pub on_io_done : Bool → List (ℕ × ℤ) → Cache → Cache
  unfolding count_reads send_ready
  on_io_done true counts s = count_reads true counts s
  on_io_done false counts s =
      let done = count_reads false counts s in
      send_ready (length done.receipt_queue) done.receipt_queue done

  unfoldable pub queue_receipt : Receipt → List ℕ → Cache → Cache
  queue_receipt rcpt [] s = push_receipt rcpt s
  queue_receipt rcpt (uid ∷ uids) s = record s {
    waiting = s.waiting ++ wait_pairs (uid ∷ uids) s.next_serial;
    receipt_queue = heap.arrange heap_push (
        s.receipt_queue
        ++ (record { serial = s.next_serial; pending_ios = length (uid ∷ uids); rcpt = rcpt })
          ∷ []);
    next_serial = s.next_serial + 1;
  }

  -- `upd.PushRcpt != nil`
  unfoldable pub on_receipt : Receipt → Cache → Cache
  unfolding unread_updater deltas set_known pending_users queue_receipt
  on_receipt rcpt s =
      let c = unread_updater s (deltas rcpt.to) true in
      queue_receipt (record rcpt { to = set_known rcpt.to c.counts }) (pending_users c.counts)
        c.cache

abbrev registered : Bool → Option UserCacheEntry → Option UserCacheEntry
registered true none = some (record { unread = negsuc 0; topics = 1 })
registered true (some uce) = some (record uce { topics = uce.topics + 1 })
registered false none = none
registered false (some uce) =
    if ltb 1 uce.topics then some (record uce { topics = uce.topics - 1 }) else none

-- `len(upd.UserIdList) > 0`
unfoldable pub on_register : List ℕ → Bool → Cache → Cache
on_register [] inc s = s
on_register (uid ∷ uids) inc s =
    on_register uids inc
      (record s { users_cache = set_key s.users_cache uid (registered inc (s.users_cache uid)) })

-- `upd.Gone`
unfoldable pub on_gone : ℕ → Cache → Cache
on_gone uid s = record s { users_cache = set_key s.users_cache uid none }

-- The update of the counter of one user.
unfoldable pub on_unread : ℕ → ℤ → Bool → Cache → Cache
unfolding unread_updater
on_unread uid unread inc s = (unread_updater s ((uid, unread) ∷ []) inc).cache
