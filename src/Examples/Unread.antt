-- ===== src/Examples/Unread.antt =====
-- The user cache on small inputs, with a package `heap` that moves a least element to the front.
use mathlib.Core.List.{Permᴰ}
use server_chat.Common.{
  ◌≤◌, ◌<◌, ◌≡◌, refl, true, false, inl, inr, List, [], ◌∷◌, leb, All, length, if◌then◌else◌,
  Bool-cases, arith,
}
use server_chat.Common.Int.{pos}
use server_chat.UserCache.{Receipt, PendingReceipt, HeapPackage, Cache}
use server_chat.UserCache.Updater.{on_io_done, on_receipt, on_register}
use server_chat.UserCache.Counting.{IsLeast, waits, sent_times, times}
use server_chat.UserCache.Steps.{Reach, initial, start, receipt, register, io_done}
use server_chat.UserCache.Delivery.{IsKept, Reach-IsKept, Reach-sent}

put_first : PendingReceipt → List PendingReceipt → List PendingReceipt
put_first p [] = p ∷ []
put_first p (m ∷ q) = if leb p.pending_ios m.pending_ios then p ∷ m ∷ q else m ∷ p ∷ q

least_first : List PendingReceipt → List PendingReceipt
unfolding put_first
least_first [] = []
least_first (p ∷ q) = put_first p (least_first q)

same_items : {A : Type 0} (q : List A) → Permᴰ q q
same_items [] = Permᴰ.nil
same_items (p ∷ q) = Permᴰ.cons refl (same_items q)

put_first-perm : (p : PendingReceipt) (q : List PendingReceipt) → Permᴰ (p ∷ q) (put_first p q)
unfolding put_first
put_first-perm p [] = same_items (p ∷ [])
put_first-perm p (m ∷ q) = elim (Bool-cases (leb p.pending_ios m.pending_ios)) [
  | inl e ↦ rw e (same_items (p ∷ m ∷ q))
  | inr e ↦ rw e (Permᴰ.swap refl refl)
]

least_first-perm : (q : List PendingReceipt) → Permᴰ q (least_first q)
unfolding least_first
least_first-perm [] = Permᴰ.nil
least_first-perm (p ∷ q) =
    Permᴰ.trans (Permᴰ.cons refl (least_first-perm q)) (put_first-perm p (least_first q))

put_first-IsLeast :
    (p : PendingReceipt) (q : List PendingReceipt) → IsLeast q → IsLeast (put_first p q)
unfolding put_first
put_first-IsLeast p [] h = tt
put_first-IsLeast p (m ∷ q) h = elim (Bool-cases (leb p.pending_ios m.pending_ios)) [
  | inl e ↦ rw e (let le : p.pending_ios ≤ m.pending_ios = ground arith in (le, below q le h))
  | inr e ↦ rw e (ground arith, h)
]
  where
    below :
        (r : List PendingReceipt)
        → p.pending_ios ≤ m.pending_ios
        → All (λ (x : PendingReceipt). m.pending_ios ≤ x.pending_ios) r
        → All (λ (x : PendingReceipt). p.pending_ios ≤ x.pending_ios) r
    below [] le k = tt
    below (x ∷ r) le (k, ks) = (omega arith, below r le ks)

least_first-IsLeast : (q : List PendingReceipt) → IsLeast (least_first q)
unfolding least_first
least_first-IsLeast [] = tt
least_first-IsLeast (p ∷ q) = put_first-IsLeast p (least_first q) (least_first-IsLeast q)

abbrev plain_heap : HeapPackage
plain_heap = record {
  arrange = λ c q. least_first q;
  arrange_perm = λ c q. least_first-perm q;
  arrange_least = λ c q e. rw e at (least_first-IsLeast q);
}

abbrev to_seven : Receipt
to_seven = record {
  to = (7, record { unread = pos 0; should_increment = true }) ∷ [];
  content = 50;
}

abbrev second_receipt : Receipt
second_receipt = record to_seven { content = 51 }

-- Two receipts for a user whose counter is not known, and a read that says 4.
abbrev opened : Cache
opened = on_register (7 ∷ []) true initial

abbrev two_waiting : Cache
two_waiting = on_receipt plain_heap second_receipt (on_receipt plain_heap to_seven opened)

abbrev read_done : Cache
read_done = on_io_done plain_heap false ((7, pos 4) ∷ []) (record two_waiting { reads = [] })

both_wait : (two_waiting.sent ≡ []) × (two_waiting.waiting ≡ (7, 0) ∷ (7, 1) ∷ [])
unfolding on_receipt on_register
both_wait = (refl, refl)

both_sent : length read_done.sent ≡ 2
unfolding on_io_done on_receipt on_register least_first
both_sent = refl

one_read : two_waiting.reads ≡ (7 ∷ []) ∷ []
unfolding on_receipt on_register
one_read = refl

waiting_reached : Reach plain_heap false (51 ∷ 50 ∷ []) two_waiting
waiting_reached = receipt second_receipt (receipt to_seven (register (7 ∷ []) true start))

done_reached : Reach plain_heap false (51 ∷ 50 ∷ []) read_done
done_reached =
    io_done [] [] (7 ∷ []) false ((7, pos 4) ∷ []) (inl refl) one_read (omega arith) waiting_reached

no_reads : read_done.reads ≡ []
unfolding on_io_done on_receipt on_register least_first
no_reads = refl

Reach-IsKept_example :
    IsKept 50 (51 ∷ 50 ∷ []) two_waiting
    × All
        (λ (p : PendingReceipt).
          (p.pending_ios ≡ waits p.serial two_waiting.waiting) × (0 < p.pending_ios))
        two_waiting.receipt_queue
Reach-IsKept_example = Reach-IsKept plain_heap 50 waiting_reached

Reach-sent_example :
    (read_done.receipt_queue ≡ []) × (sent_times 50 read_done.sent ≡ times 50 (51 ∷ 50 ∷ []))
Reach-sent_example = Reach-sent plain_heap 50 done_reached no_reads
