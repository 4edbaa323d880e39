-- ===== src/UserCache/Tracking.antt =====
-- internal/server/user_cache.go: the receipts in the queue and the reads that they wait for.
use server_chat.Common.{
  ℕ, ◌+◌, ◌≤◌, ◌<◌, ◌≡◌, refl, sym, ◌∙◌, Bool, true, false, inl, inr, List, [], ◌∷◌, ◌++◌, ◌==◌,
  All, All-append, All-mono, length, if◌then◌else◌, Bool-cases, arith,
}
use server_chat.Common.Int.{ℤ}
use server_chat.UserCache.{
  Receipt, HeapPackage, heap_push, Cache, Counted, start_read, unread_updater,
}
use server_chat.UserCache.Updater.{
  without, lower_all, count_read, count_reads, on_io_done, queue_receipt, on_receipt, wait_pairs,
  deltas, on_register, on_unread,
}
use server_chat.UserCache.Counting.{waits, waits-append, IsLeast, All-arrange, arrange-IsLeast}
use server_chat.UserCache.Receipts.{
  IsCounted, IsHeld, lower_all-IsCounted, lower_all-IsLeast, send_ready-IsHeld,
  send_ready-SameTables,
}
use server_chat.UserCache.Reading.{Found, counted-Found}

abbrev IsOld : ℕ → ℕ × ℕ → Type 0
IsOld next w = w.1 < next

-- The receipts of the queue wait for as many reads as are noted for them, a least one first.
pub record IsLoose (s : Cache) : Type 0 where
  pub counted : All (IsCounted (λ n. waits n s.waiting) s.next_serial) s.receipt_queue
  pub least : IsLeast s.receipt_queue
  pub old : All (IsOld s.next_serial) s.waiting

-- And each of them for one at least.
pub record IsTracked (s : Cache) : Type 0 where
  pub queued : All (IsHeld (λ n. waits n s.waiting) s.next_serial) s.receipt_queue
  pub least : IsLeast s.receipt_queue
  pub old : All (IsOld s.next_serial) s.waiting

pub same-IsTracked :
    (s t : Cache)
    → t.waiting ≡ s.waiting
    → t.receipt_queue ≡ s.receipt_queue
    → t.next_serial ≡ s.next_serial
    → IsTracked s
    → IsTracked t
same-IsTracked s t w q n h = record {
  queued = rw (w, q, n) h.queued;
  least = rw q h.least;
  old = rw (w, n) h.old;
}

without-IsOld :
    (uid next : ℕ) (waiting : List (ℕ × ℕ))
    → All (IsOld next) waiting
    → All (IsOld next) (without uid waiting)
unfolding without
without-IsOld uid next [] h = tt
without-IsOld uid next ((u, serial) ∷ waiting) (o, h) = elim (Bool-cases (u == uid)) [
  | inl same ↦ rw same (without-IsOld uid next waiting h)
  | inr other ↦ rw other (o, without-IsOld uid next waiting h)
]

waits-old :
    (n next : ℕ) (waiting : List (ℕ × ℕ))
    → All (IsOld next) waiting
    → next ≤ n
    → waits n waiting ≡ 0
unfolding waits
waits-old n next [] h le = refl
waits-old n next ((u, serial) ∷ waiting) (o, h) le = ground (arith, waits-old n next waiting h le)

waits-wait_pairs :
    (n serial : ℕ) (uids : List ℕ)
    → waits n (wait_pairs uids serial) ≡ (if serial == n then length uids else 0)
unfolding waits
waits-wait_pairs n serial [] = ground arith
waits-wait_pairs n serial (uid ∷ uids) = ground (arith, waits-wait_pairs n serial uids)

wait_pairs-IsOld : (serial : ℕ) (uids : List ℕ) → All (IsOld (serial + 1)) (wait_pairs uids serial)
wait_pairs-IsOld serial [] = tt
wait_pairs-IsOld serial (uid ∷ uids) = (omega arith, wait_pairs-IsOld serial uids)

module _ (heap : HeapPackage) where
  count_reads-IsLoose :
      (counts : List (ℕ × ℤ)) (s : Cache) → IsLoose s → IsLoose (count_reads heap false counts s)
  unfolding count_reads count_read
  count_reads-IsLoose [] s h = h
  count_reads-IsLoose ((uid, count) ∷ counts) s h =
      count_reads-IsLoose counts (count_read heap false uid count s) (record {
        counted =
            All-mono _ _ (lower_all heap uid s.waiting s.receipt_queue)
              (λ p k. (omega (arith, k.0), k.1))
              (lower_all-IsCounted heap uid s.next_serial s.waiting (λ n. 0) s.receipt_queue
                (All-mono _ _ s.receipt_queue (λ p k. (omega (arith, k.0), k.1)) h.counted));
        least = lower_all-IsLeast heap uid s.waiting s.receipt_queue h.least;
        old = without-IsOld uid s.next_serial s.waiting h.old;
      })

  pub queue_receipt-IsTracked :
      (rcpt : Receipt) (uids : List ℕ) (s : Cache)
      → IsTracked s
      → IsTracked (queue_receipt heap rcpt uids s)
  unfolding queue_receipt
  queue_receipt-IsTracked rcpt [] s h = same-IsTracked s _ refl refl refl h
  queue_receipt-IsTracked rcpt (uid ∷ uids) s h = record {
    queued = All-arrange heap heap_push _ _ (
        All-append _ s.receipt_queue _
          (All-mono _ _ s.receipt_queue
            (λ p k. ((k.0.0 ∙ sym (waits_then p.serial k.0.1), omega (arith, k.0.1)), k.1))
            h.queued)
          (((fresh, omega arith), omega arith), tt));
    least = arrange-IsLeast heap heap_push _;
    old =
        All-append (IsOld (s.next_serial + 1)) s.waiting (wait_pairs (uid ∷ uids) s.next_serial)
          (All-mono _ _ s.waiting (λ w k. omega (arith, k)) h.old)
          (wait_pairs-IsOld s.next_serial (uid ∷ uids));
  }
    where
      fresh :
          length (uid ∷ uids)
          ≡ waits s.next_serial (s.waiting ++ wait_pairs (uid ∷ uids) s.next_serial)
      fresh = ground (
        arith,
        waits-append s.next_serial s.waiting (wait_pairs (uid ∷ uids) s.next_serial),
        waits-wait_pairs s.next_serial s.next_serial (uid ∷ uids),
        waits-old s.next_serial s.next_serial s.waiting h.old,
      )

      waits_then :
          (n : ℕ)
          → n < s.next_serial
          → waits n (s.waiting ++ wait_pairs (uid ∷ uids) s.next_serial) ≡ waits n s.waiting
      waits_then n less = ground (
        arith,
        waits-append n s.waiting (wait_pairs (uid ∷ uids) s.next_serial),
        waits-wait_pairs n s.next_serial (uid ∷ uids),
      )

  pub updated-IsTracked :
      (s : Cache) (c : Counted)
      → Found s c
      → IsTracked s
      → IsTracked (start_read c.db_pending c.cache)
  updated-IsTracked s c f h = started c.db_pending
    where
      counted : IsTracked c.cache
      counted = same-IsTracked s c.cache f.same_waiting f.same_queue f.same_serial h

      started : (uids : List ℕ) → IsTracked (start_read uids c.cache)
      started [] = counted
      started (uid ∷ uids) = record {
        queued = counted.queued;
        least = counted.least;
        old = counted.old;
      }

  pub on_receipt-IsTracked :
      (rcpt : Receipt) (s : Cache) → IsTracked s → IsTracked (on_receipt heap rcpt s)
  unfolding on_receipt unread_updater
  on_receipt-IsTracked rcpt s h =
      queue_receipt-IsTracked _ _ _
        (updated-IsTracked s _ (counted-Found s (deltas rcpt.to) true) h)

  pub on_unread-IsTracked :
      (uid : ℕ) (val : ℤ) (inc : Bool) (s : Cache)
      → IsTracked s
      → IsTracked (on_unread uid val inc s)
  unfolding on_unread unread_updater
  on_unread-IsTracked uid val inc s h =
      updated-IsTracked s _ (counted-Found s ((uid, val) ∷ []) inc) h

  pub on_register-IsTracked :
      (uids : List ℕ) (inc : Bool) (s : Cache) → IsTracked s → IsTracked (on_register uids inc s)
  unfolding on_register
  on_register-IsTracked [] inc s h = h
  on_register-IsTracked (uid ∷ uids) inc s h =
      on_register-IsTracked uids inc _ (same-IsTracked s _ refl refl refl h)

  failed-IsTracked :
      (counts : List (ℕ × ℤ)) (s : Cache) → IsTracked s → IsTracked (count_reads heap true counts s)
  unfolding count_reads count_read
  failed-IsTracked [] s h = h
  failed-IsTracked ((uid, count) ∷ counts) s h =
      failed-IsTracked counts _ (same-IsTracked s _ refl refl refl h)

  pub on_io_done-IsTracked :
      (failed : Bool) (counts : List (ℕ × ℤ)) (s : Cache)
      → IsTracked s
      → IsTracked (on_io_done heap failed counts s)
  unfolding on_io_done
  on_io_done-IsTracked true counts s h = failed-IsTracked counts s h
  on_io_done-IsTracked false counts s h =
      let t = count_reads heap false counts s in
      let loose : IsLoose t = count_reads-IsLoose counts s (record {
        counted = All-mono _ _ s.receipt_queue (λ p k. k.0) h.queued;
        least = h.least;
        old = h.old;
      }) in
      let same = send_ready-SameTables heap (length t.receipt_queue) t.receipt_queue t in
      let held =
        send_ready-IsHeld heap (λ n. waits n t.waiting) t.next_serial (length t.receipt_queue)
          t.receipt_queue t (omega arith) loose.least loose.counted in
      record {
        queued = rw (same.same_waiting, same.same_serial) held.0;
        least = held.1;
        old = rw (same.same_waiting, same.same_serial) loose.old;
      }
