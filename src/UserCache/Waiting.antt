-- ===== src/UserCache/Waiting.antt =====
-- internal/server/user_cache.go: the reads that the waiting receipts wait for, where no read fails.
use server_chat.Common.{
  ℕ, ◌≡◌, refl, sym, ◌∙◌, Bool, true, false, ◌⊎◌, inl, inr, List, [], ◌∷◌, ◌++◌, ◌==◌, length, All,
  All-append, All-mono, Bool-cases, ==_iff,
}
use server_chat.Common.Int.{ℤ}
use server_chat.Ring.{Has}
use server_chat.UserCache.{
  Receipt, HeapPackage, Cache, Counted, start_read, unread_updater, count_all,
}
use server_chat.UserCache.Updater.{
  without, count_read, count_reads, send_ready, on_io_done, queue_receipt, on_receipt, on_register,
  on_unread, deltas, wait_pairs, pending_users,
}
use server_chat.UserCache.Receipts.{SameTables, send_ready-SameTables}
use server_chat.UserCache.Reading.{IsBuffered, Found, counted-Found, begun}
use server_chat.UserCache.Pending.{deltas-IsReported, IsReported}
use server_chat.UserCache.Steps.{InReads, keys}

abbrev pub WaitsFor : Cache → ℕ × ℕ → Type 0
WaitsFor s w = IsBuffered s w.0

-- A user whom a receipt waits for has updates kept, and who has is being read.
pub record IsRead (s : Cache) : Type 0 where
  pub waited : All (WaitsFor s) s.waiting
  pub reading : (u : ℕ) → IsBuffered s u → InReads s.reads u

InReads-left : (a b : List (List ℕ)) (u : ℕ) → InReads a u → InReads (a ++ b) u
InReads-left [] b u h = elim h [ ]
InReads-left (r ∷ a) b u (inl h) = inl h
InReads-left (r ∷ a) b u (inr h) = inr (InReads-left a b u h)

InReads-right : (a b : List (List ℕ)) (u : ℕ) → InReads b u → InReads (a ++ b) u
InReads-right [] b u h = h
InReads-right (r ∷ a) b u h = inr (InReads-right a b u h)

-- Without one of the reads.
InReads-other :
    (before after : List (List ℕ)) (uids : List ℕ) (u : ℕ)
    → InReads (before ++ uids ∷ after) u
    → InReads (before ++ after) u ⊎ Has uids u
InReads-other [] after uids u (inl h) = inr h
InReads-other [] after uids u (inr h) = inl h
InReads-other (r ∷ before) after uids u (inl h) = inl (inl h)
InReads-other (r ∷ before) after uids u (inr h) = elim (InReads-other before after uids u h) [
  | inl k ↦ inl (inr k)
  | inr k ↦ inr k
]

module _ (s : Cache) (c : Counted) (f : Found s c) (h : IsRead s) where
  pub started-IsRead : IsRead (start_read c.db_pending c.cache)
  started-IsRead = started c.db_pending refl
    where
      waited : All (WaitsFor c.cache) c.cache.waiting
      waited = rw f.same_waiting (All-mono _ _ s.waiting (λ w k. f.kept w.0 k) h.waited)

      started : (uids : List ℕ) → c.db_pending ≡ uids → IsRead (start_read uids c.cache)
      started [] e = record {
        waited = waited;
        reading = λ u b. elim (f.reading u b) [
          | inl before ↦ rw f.same_reads (h.reading u before)
          | inr found ↦ absurd (rw e at found)
        ];
      }
      started (uid ∷ uids) e = record {
        waited = waited;
        reading = λ u b. elim (f.reading u b) [
          | inl before ↦
              InReads-left c.cache.reads ((uid ∷ uids) ∷ []) u
                (rw f.same_reads (h.reading u before))
          | inr found ↦ InReads-right c.cache.reads ((uid ∷ uids) ∷ []) u (inl (rw e at found))
        ];
      }

tables-IsRead : (t t' : Cache) → SameTables t t' → IsRead t → IsRead t'
tables-IsRead t t' same h = record {
  waited =
      rw same.same_waiting
        (All-mono _ _ t.waiting (λ w (k : IsBuffered t w.0). rw same.same_buffers k) h.waited);
  reading = λ u b. rw same.same_reads (h.reading u (rw same.same_buffers at b));
}

started-IsReported :
    (c : Counted)
    → IsReported c
    → All (IsBuffered (start_read c.db_pending c.cache)) (pending_users c.counts)
started-IsReported c h = started c.db_pending
  where
    started : (uids : List ℕ) → All (IsBuffered (start_read uids c.cache)) (pending_users c.counts)
    started [] = h
    started (uid ∷ uids) = h

wait_pairs-WaitsFor :
    (s : Cache) (serial : ℕ) (uids : List ℕ)
    → All (IsBuffered s) uids
    → All (WaitsFor s) (wait_pairs uids serial)
wait_pairs-WaitsFor s serial [] h = tt
wait_pairs-WaitsFor s serial (uid ∷ uids) (b, h) = (b, wait_pairs-WaitsFor s serial uids h)

module _ (heap : HeapPackage) where
  queue_receipt-IsRead :
      (rcpt : Receipt) (uids : List ℕ) (s : Cache)
      → All (IsBuffered s) uids
      → IsRead s
      → IsRead (queue_receipt heap rcpt uids s)
  unfolding queue_receipt
  queue_receipt-IsRead rcpt [] s b h = record { waited = h.waited; reading = h.reading }
  queue_receipt-IsRead rcpt (uid ∷ uids) s b h = record {
    waited =
        All-append (WaitsFor s) s.waiting _ h.waited
          (wait_pairs-WaitsFor s s.next_serial (uid ∷ uids) b);
    reading = h.reading;
  }

  pub on_receipt-IsRead : (rcpt : Receipt) (s : Cache) → IsRead s → IsRead (on_receipt heap rcpt s)
  unfolding on_receipt unread_updater
  on_receipt-IsRead rcpt s h =
      queue_receipt-IsRead _ _ _
        (started-IsReported (count_all (begun s) (deltas rcpt.to) true)
          (deltas-IsReported s rcpt.to))
        (started-IsRead s _ (counted-Found s (deltas rcpt.to) true) h)

  pub on_unread-IsRead :
      (uid : ℕ) (val : ℤ) (inc : Bool) (s : Cache) → IsRead s → IsRead (on_unread uid val inc s)
  unfolding on_unread unread_updater
  on_unread-IsRead uid val inc s h = started-IsRead s _ (counted-Found s ((uid, val) ∷ []) inc) h

  pub on_register-IsRead :
      (uids : List ℕ) (inc : Bool) (s : Cache) → IsRead s → IsRead (on_register uids inc s)
  unfolding on_register
  on_register-IsRead [] inc s h = h
  on_register-IsRead (uid ∷ uids) inc s h =
      on_register-IsRead uids inc _ (record { waited = h.waited; reading = h.reading })

  -- The updates of a user of the result are not kept any more.
  count_reads-IsBuffered :
      (counts : List (ℕ × ℤ)) (s : Cache) (u : ℕ)
      → IsBuffered (count_reads heap false counts s) u
      → IsBuffered s u × (Has (keys counts) u → ⊥)
  unfolding count_reads count_read
  count_reads-IsBuffered [] s u b = (b, λ h. h)
  count_reads-IsBuffered ((uid, count) ∷ counts) s u b =
      let (one, rest) = count_reads-IsBuffered counts (count_read heap false uid count s) u b in
      elim (Bool-cases (u == uid)) [
        | inl same ↦ absurd (let k : false ≡ true = rw same at one in cc)
        | inr other ↦ (
          (rw other at one),
          λ h. elim h [
            | inl e ↦
                (let k : (u == uid) ≡ true = (==_iff u uid).1 (sym e) in
                  absurd (let m : true ≡ false = sym k ∙ other in cc))
            | inr later ↦ rest later
          ],
        )
      ]

  without-WaitsFor :
      (s t : Cache) (uid : ℕ) (waiting : List (ℕ × ℕ))
      → ((u : ℕ) → (u == uid) ≡ false → IsBuffered s u → IsBuffered t u)
      → All (WaitsFor s) waiting
      → All (WaitsFor t) (without uid waiting)
  unfolding without
  without-WaitsFor s t uid [] other h = tt
  without-WaitsFor s t uid ((u, serial) ∷ waiting) other (b, h) = elim (Bool-cases (u == uid)) [
    | inl e ↦ rw e (without-WaitsFor s t uid waiting other h)
    | inr e ↦ rw e (other u e b, without-WaitsFor s t uid waiting other h)
  ]

  count_reads-WaitsFor :
      (counts : List (ℕ × ℤ)) (s : Cache)
      → All (WaitsFor s) s.waiting
      → All (WaitsFor (count_reads heap false counts s)) (count_reads heap false counts s).waiting
  unfolding count_reads count_read
  count_reads-WaitsFor [] s h = h
  count_reads-WaitsFor ((uid, count) ∷ counts) s h =
      count_reads-WaitsFor counts (count_read heap false uid count s)
        (without-WaitsFor s (count_read heap false uid count s) uid s.waiting (λ u e b. rw e b) h)

  count_reads-reads :
      (counts : List (ℕ × ℤ)) (s : Cache) → (count_reads heap false counts s).reads ≡ s.reads
  unfolding count_reads count_read
  count_reads-reads [] s = refl
  count_reads-reads ((uid, count) ∷ counts) s = count_reads-reads counts _

  -- The end of a read whose result has all its users.
  pub on_io_done-IsRead :
      (before after : List (List ℕ)) (uids : List ℕ) (counts : List (ℕ × ℤ)) (s : Cache)
      → s.reads ≡ before ++ uids ∷ after
      → All (Has (keys counts)) uids
      → IsRead s
      → IsRead (on_io_done heap false counts (record s { reads = before ++ after }))
  unfolding on_io_done
  on_io_done-IsRead before after uids counts s e covers h =
      let s' = record s { reads = before ++ after } in
      let t = count_reads heap false counts s' in
      let same = send_ready-SameTables heap (length t.receipt_queue) t.receipt_queue t in
      tables-IsRead t (send_ready heap (length t.receipt_queue) t.receipt_queue t) same (record {
        waited = count_reads-WaitsFor counts s' h.waited;
        reading = λ u b.
            let (buffered, unlisted) = count_reads-IsBuffered counts s' u b in
            rw (count_reads-reads counts s')
              (elim (InReads-other before after uids u (rw e at (h.reading u buffered))) [
                | inl other ↦ other
                | inr mine ↦ absurd (unlisted (All-Has uids u covers mine))
              ]);
      })
    where
      All-Has : (us : List ℕ) (u : ℕ) → All (Has (keys counts)) us → Has us u → Has (keys counts) u
      All-Has [] u k m = elim m [ ]
      All-Has (v ∷ us) u (p, ps) (inl q) = rw (← q) p
      All-Has (v ∷ us) u (p, ps) (inr m) = All-Has us u ps m
