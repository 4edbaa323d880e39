-- ===== src/UserCache/Sending.antt =====
-- internal/server/user_cache.go: how often a receipt is queued or sent.
use server_chat.Common.{
  ℕ, ◌+◌, ◌≡◌, refl, ◌∙◌, Bool, true, false, List, [], ◌∷◌, ◌==◌, length, if◌then◌else◌, arith,
}
use server_chat.Common.Int.{ℤ}
use server_chat.UserCache.{
  Receipt, HeapPackage, heap_push, Cache, Counted, start_read, unread_updater,
}
use server_chat.UserCache.Updater.{
  count_read, count_reads, on_io_done, queue_receipt, on_receipt, on_register, on_unread, deltas,
}
use server_chat.UserCache.Counting.{
  queued_times, sent_times, queued_times-append, queued_times-arrange,
}
use server_chat.UserCache.Receipts.{queued_times-lower_all, send_ready-times}
use server_chat.UserCache.Reading.{Found, counted-Found}

-- How often a content is in the queue or among the receipts that are sent.
abbrev pub kept_times : ℕ → Cache → ℕ
kept_times content s = queued_times content s.receipt_queue + sent_times content s.sent

module _ (heap : HeapPackage) (content : ℕ) where
  kept_times-queue_receipt :
      (rcpt : Receipt) (uids : List ℕ) (s : Cache)
      → kept_times content (queue_receipt heap rcpt uids s)
        ≡ kept_times content s + (if rcpt.content == content then 1 else 0)
  unfolding queue_receipt sent_times queued_times
  kept_times-queue_receipt rcpt [] s = omega arith
  kept_times-queue_receipt rcpt (uid ∷ uids) s = omega (
    arith,
    queued_times-arrange heap heap_push _ content,
    queued_times-append content s.receipt_queue _,
  )

  kept_times-started :
      (s : Cache) (c : Counted)
      → Found s c
      → kept_times content (start_read c.db_pending c.cache) ≡ kept_times content s
  kept_times-started s c f = started c.db_pending
    where
      started :
          (uids : List ℕ) → kept_times content (start_read uids c.cache) ≡ kept_times content s
      started [] = rw (f.same_queue, f.same_sent) refl
      started (uid ∷ uids) = rw (f.same_queue, f.same_sent) refl

  pub kept_times-on_receipt :
      (rcpt : Receipt) (s : Cache)
      → kept_times content (on_receipt heap rcpt s)
        ≡ kept_times content s + (if rcpt.content == content then 1 else 0)
  unfolding on_receipt unread_updater
  kept_times-on_receipt rcpt s = omega (
    arith,
    kept_times-queue_receipt (record rcpt { to = _ }) _ _,
    kept_times-started s _ (counted-Found s (deltas rcpt.to) true),
  )

  pub kept_times-on_unread :
      (uid : ℕ) (val : ℤ) (inc : Bool) (s : Cache)
      → kept_times content (on_unread uid val inc s) ≡ kept_times content s
  unfolding on_unread unread_updater
  kept_times-on_unread uid val inc s =
      kept_times-started s _ (counted-Found s ((uid, val) ∷ []) inc)

  pub kept_times-on_register :
      (uids : List ℕ) (inc : Bool) (s : Cache)
      → kept_times content (on_register uids inc s) ≡ kept_times content s
  unfolding on_register
  kept_times-on_register [] inc s = refl
  kept_times-on_register (uid ∷ uids) inc s = kept_times-on_register uids inc _

  kept_times-count_reads :
      (failed : Bool) (counts : List (ℕ × ℤ)) (s : Cache)
      → kept_times content (count_reads heap failed counts s) ≡ kept_times content s
  unfolding count_reads count_read
  kept_times-count_reads failed [] s = refl
  kept_times-count_reads true ((uid, count) ∷ counts) s = kept_times-count_reads true counts _
  kept_times-count_reads false ((uid, count) ∷ counts) s = omega (
    arith,
    kept_times-count_reads false counts (count_read heap false uid count s),
    queued_times-lower_all heap content uid s.waiting s.receipt_queue,
  )

  pub kept_times-on_io_done :
      (failed : Bool) (counts : List (ℕ × ℤ)) (s : Cache)
      → kept_times content (on_io_done heap failed counts s) ≡ kept_times content s
  unfolding on_io_done
  kept_times-on_io_done true counts s = kept_times-count_reads true counts s
  kept_times-on_io_done false counts s =
      let t = count_reads heap false counts s in
      send_ready-times heap content (length t.receipt_queue) t.receipt_queue t
      ∙ kept_times-count_reads false counts s
