-- ===== src/UserCache/Delivery.antt =====
-- internal/server/user_cache.go: every receipt that arrives is sent or held back for a read.
use server_chat.Common.{
  ℕ, ◌+◌, ◌<◌, ◌≡◌, refl, ◌∙◌, Bool, true, false, ◌⊎◌, inl, inr, List, [], ◌∷◌, All, All-mono,
  arith,
}
use server_chat.UserCache.{PendingReceipt, HeapPackage, Cache}
use server_chat.UserCache.Updater.{on_gone}
use server_chat.UserCache.Counting.{waits, queued_times, sent_times, times}
use server_chat.UserCache.Receipts.{IsHeld}
use server_chat.UserCache.Steps.{Reach, start, receipt, register, gone, unread, io_done}
use server_chat.UserCache.Tracking.{
  IsTracked, same-IsTracked, on_receipt-IsTracked, on_unread-IsTracked, on_register-IsTracked,
  on_io_done-IsTracked,
}
use server_chat.UserCache.Sending.{
  kept_times, kept_times-on_receipt, kept_times-on_unread, kept_times-on_register,
  kept_times-on_io_done,
}
use server_chat.UserCache.Waiting.{
  IsRead, WaitsFor, on_receipt-IsRead, on_unread-IsRead, on_register-IsRead, on_io_done-IsRead,
}

module _ (heap : HeapPackage) where
  pub Reach-IsTracked :
      {may_fail : Bool} {arrived : List ℕ} {s : Cache} → Reach heap may_fail arrived s → IsTracked s
  unfolding on_gone
  Reach-IsTracked start = record { queued = tt; least = tt; old = tt }
  Reach-IsTracked (receipt rcpt r) = on_receipt-IsTracked heap rcpt _ (Reach-IsTracked r)
  Reach-IsTracked (register uids inc r) = on_register-IsTracked heap uids inc _ (Reach-IsTracked r)
  Reach-IsTracked (gone uid r) = same-IsTracked _ _ refl refl refl (Reach-IsTracked r)
  Reach-IsTracked (unread uid val inc r) =
      on_unread-IsTracked heap uid val inc _ (Reach-IsTracked r)
  Reach-IsTracked (io_done before after uids failed counts may e covers r) =
      on_io_done-IsTracked heap failed counts _
        (same-IsTracked _ _ refl refl refl (Reach-IsTracked r))

  Reach-times :
      {may_fail : Bool} {arrived : List ℕ} {s : Cache} (content : ℕ)
      → Reach heap may_fail arrived s
      → kept_times content s ≡ times content arrived
  unfolding times queued_times sent_times on_gone
  Reach-times content start = refl
  Reach-times content (receipt rcpt r) =
      omega (arith, kept_times-on_receipt heap content rcpt _, Reach-times content r)
  Reach-times content (register uids inc r) =
      kept_times-on_register heap content uids inc _ ∙ Reach-times content r
  Reach-times content (gone uid r) = Reach-times content r
  Reach-times content (unread uid val inc r) =
      kept_times-on_unread heap content uid val inc _ ∙ Reach-times content r
  Reach-times content (io_done before after uids failed counts may e covers r) =
      kept_times-on_io_done heap content failed counts _ ∙ Reach-times content r

  -- A read that has not failed.
  success : {failed : Bool} → (failed ≡ false) ⊎ (false ≡ true) → failed ≡ false
  success (inl e) = e
  success (inr e) = cc

  Reach-IsRead : {arrived : List ℕ} {s : Cache} → Reach heap false arrived s → IsRead s
  unfolding on_gone
  Reach-IsRead start = record { waited = tt; reading = λ u b. cc }
  Reach-IsRead (receipt rcpt r) = on_receipt-IsRead heap rcpt _ (Reach-IsRead r)
  Reach-IsRead (register uids inc r) = on_register-IsRead heap uids inc _ (Reach-IsRead r)
  Reach-IsRead (gone uid r) =
      let h = Reach-IsRead r in record { waited = h.waited; reading = h.reading }
  Reach-IsRead (unread uid val inc r) = on_unread-IsRead heap uid val inc _ (Reach-IsRead r)
  Reach-IsRead (io_done before after uids failed counts may e covers r) =
      rw (success may) (on_io_done-IsRead heap before after uids counts _ e covers (Reach-IsRead r))

  nobody_waits : (s : Cache) → IsRead s → s.reads ≡ [] → s.waiting ≡ []
  nobody_waits s h e = go s.waiting h.waited
    where
      go : (waiting : List (ℕ × ℕ)) → All (WaitsFor s) waiting → waiting ≡ []
      go [] k = refl
      go (w ∷ waiting) (k, _) = absurd (rw e at (h.reading w.0 k))

  nothing_queued : (s : Cache) → IsTracked s → s.waiting ≡ [] → s.receipt_queue ≡ []
  unfolding waits
  nothing_queued s h e = go s.receipt_queue (rw e at h.queued)
    where
      go : (q : List PendingReceipt) → All (IsHeld (λ n. waits n []) s.next_serial) q → q ≡ []
      go [] k = refl
      go (p ∷ q) (((counted, _), held), _) = absurd (omega arith)

-- What a state says of the receipts with a content: each is queued or sent, once for each arrival.
abbrev pub IsKept : ℕ → List ℕ → Cache → Type 0
IsKept content arrived s =
    queued_times content s.receipt_queue + sent_times content s.sent ≡ times content arrived

-- In every state that the user cache can reach, also where reads fail, each content is queued or
-- sent as often as it has arrived, and each receipt in the queue waits for as many reads as are
-- noted for it, one at least.
pub Reach-IsKept :
    (heap : HeapPackage) (content : ℕ) {may_fail : Bool} {arrived : List ℕ} {s : Cache}
    → Reach heap may_fail arrived s
    → IsKept content arrived s
      × All
          (λ (p : PendingReceipt). (p.pending_ios ≡ waits p.serial s.waiting) × (0 < p.pending_ios))
          s.receipt_queue
Reach-IsKept heap content {s = s} r = (
  Reach-times heap content r,
  All-mono _ _ s.receipt_queue (λ p k. (k.0.0, k.1)) (Reach-IsTracked heap r).queued,
)

-- Where no read of the database fails, in every state that the user cache can reach, by any order
-- of receipts, registrations, updates and ends of reads, and in which no read goes on, no receipt
-- is held back, and each content has been sent as often as it has arrived.
pub Reach-sent :
    (heap : HeapPackage) (content : ℕ) {arrived : List ℕ} {s : Cache}
    → Reach heap false arrived s
    → s.reads ≡ []
    → (s.receipt_queue ≡ []) × (sent_times content s.sent ≡ times content arrived)
unfolding queued_times
Reach-sent heap content {s = s} r e =
    let empty =
      nothing_queued heap s (Reach-IsTracked heap r)
        (nobody_waits heap s (Reach-IsRead heap r) e) in
    let whole : kept_times content s ≡ times content _ = Reach-times heap content r in
    let none_left : queued_times content s.receipt_queue ≡ 0 = rw empty refl in
    (empty, omega (arith, whole, none_left))
