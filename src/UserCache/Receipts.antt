-- ===== src/UserCache/Receipts.antt =====
-- internal/server/user_cache.go: the receipts that wait for reads, as reads end and receipts are sent.
use server_chat.Common.{
  ℕ, zero, suc, ◌+◌, ◌≤◌, ◌<◌, ◌≡◌, refl, sym, ◌∙◌, inl, inr, List, [], ◌∷◌, ◌==◌, All, All-mono,
  length, if◌then◌else◌, Bool-cases, arith,
}
use server_chat.UserCache.{PendingReceipt, HeapCall, heap_fix, heap_pop, HeapPackage, Cache}
use server_chat.UserCache.Updater.{lowered, lower_all, without, send_ready, fill, push_receipt}
use server_chat.UserCache.Counting.{
  waits, queued_times, sent_times, IsLeast, arrange-IsLeast, All-arrange, queued_times-arrange,
  length-perm,
}

-- A receipt waits for as many reads as a function of its address says, and the address is in use.
abbrev pub IsCounted : (ℕ → ℕ) → ℕ → PendingReceipt → Type 0
IsCounted expected next p = (p.pending_ios ≡ expected p.serial) × (p.serial < next)

-- One more for an address.
abbrev pub one_more : (ℕ → ℕ) → ℕ → ℕ → ℕ
one_more expected serial n = expected n + (if serial == n then 1 else 0)

lowered-IsCounted :
    (expected : ℕ → ℕ) (next serial : ℕ) (q : List PendingReceipt)
    → All (IsCounted (one_more expected serial) next) q
    → All (IsCounted expected next) (lowered serial q)
unfolding lowered
lowered-IsCounted expected next serial [] h = tt
lowered-IsCounted expected next serial (p ∷ q) ((counted, old), hs) =
    elim (Bool-cases (p.serial == serial)) [
      | inl same ↦ rw same ((ground arith, old), lowered-IsCounted expected next serial q hs)
      | inr other ↦ rw other ((ground arith, old), lowered-IsCounted expected next serial q hs)
    ]

queued_times-lowered :
    (content serial : ℕ) (q : List PendingReceipt)
    → queued_times content (lowered serial q) ≡ queued_times content q
unfolding queued_times lowered
queued_times-lowered content serial [] = refl
queued_times-lowered content serial (p ∷ q) = ground (arith, queued_times-lowered content serial q)

-- What a receipt waits for once a user's counter is known.
abbrev pub left_waits : ℕ → List (ℕ × ℕ) → ℕ → ℕ
left_waits uid waiting serial = waits serial (without uid waiting)

module _ (heap : HeapPackage) where
  pub lower_all-IsCounted :
      (uid next : ℕ) (waiting : List (ℕ × ℕ)) (expected : ℕ → ℕ) (q : List PendingReceipt)
      → All (IsCounted (λ n. expected n + waits n waiting) next) q
      → All
          (IsCounted (λ n. expected n + left_waits uid waiting n) next)
          (lower_all heap uid waiting q)
  unfolding lower_all waits without
  lower_all-IsCounted uid next [] expected q h = h
  lower_all-IsCounted uid next ((u, serial) ∷ waiting) expected q h = elim (Bool-cases (u == uid)) [
    | inl same ↦ rw same (
        lower_all-IsCounted uid next waiting expected
          (heap.arrange (heap_fix serial) (lowered serial q))
          (All-arrange heap (heap_fix serial) (lowered serial q) _ (
            lowered-IsCounted (λ n. expected n + waits n waiting) next serial q
              (All-mono _ _ q (λ p k. (omega (arith, k.0), k.1)) h))))
    | inr other ↦ rw other (
        All-mono _ _ (lower_all heap uid waiting q) (λ p k. (omega (arith, k.0), k.1))
          (lower_all-IsCounted uid next waiting (one_more expected serial) q
            (All-mono _ _ q (λ p k. (omega (arith, k.0), k.1)) h)))
  ]

  pub lower_all-IsLeast :
      (uid : ℕ) (waiting : List (ℕ × ℕ)) (q : List PendingReceipt)
      → IsLeast q
      → IsLeast (lower_all heap uid waiting q)
  unfolding lower_all
  lower_all-IsLeast uid [] q h = h
  lower_all-IsLeast uid ((u, serial) ∷ waiting) q h = elim (Bool-cases (u == uid)) [
    | inl same ↦ rw same (
        lower_all-IsLeast uid waiting (heap.arrange (heap_fix serial) (lowered serial q))
          (arrange-IsLeast heap (heap_fix serial) (lowered serial q)))
    | inr other ↦ rw other (lower_all-IsLeast uid waiting q h)
  ]

  pub queued_times-lower_all :
      (content uid : ℕ) (waiting : List (ℕ × ℕ)) (q : List PendingReceipt)
      → queued_times content (lower_all heap uid waiting q) ≡ queued_times content q
  unfolding lower_all
  queued_times-lower_all content uid [] q = refl
  queued_times-lower_all content uid ((u, serial) ∷ waiting) q = elim (Bool-cases (u == uid)) [
    | inl same ↦ rw same (
        queued_times-lower_all content uid waiting
          (heap.arrange (heap_fix serial) (lowered serial q))
        ∙ queued_times-arrange heap (heap_fix serial) (lowered serial q) content
        ∙ queued_times-lowered content serial q)
    | inr other ↦ rw other (queued_times-lower_all content uid waiting q)
  ]

-- What a state has besides the receipts.
pub record SameTables (s t : Cache) : Type 0 where
  pub same_buffers : t.per_user_buffers ≡ s.per_user_buffers
  pub same_waiting : t.waiting ≡ s.waiting
  pub same_reads : t.reads ≡ s.reads
  pub same_serial : t.next_serial ≡ s.next_serial

-- A receipt that still waits, and one that was counted.
abbrev pub IsHeld : (ℕ → ℕ) → ℕ → PendingReceipt → Type 0
IsHeld expected next p = IsCounted expected next p × (0 < p.pending_ios)

module _ (heap : HeapPackage) where
  pub send_ready-SameTables :
      (fuel : ℕ) (q : List PendingReceipt) (s : Cache) → SameTables s (send_ready heap fuel q s)
  unfolding send_ready
  send_ready-SameTables zero q s = ground arith
  send_ready-SameTables (suc fuel) [] s = ground arith
  send_ready-SameTables (suc fuel) (p ∷ q) s = elim (Bool-cases (p.pending_ios == 0)) [
    | inl ready ↦
        let rest =
          send_ready-SameTables fuel (heap.arrange heap_pop q)
            (push_receipt (record p.rcpt { to = fill s.users_cache p.rcpt.to }) s) in
        rw ready (record {
          same_buffers = rest.same_buffers;
          same_waiting = rest.same_waiting;
          same_reads = rest.same_reads;
          same_serial = rest.same_serial;
        })
    | inr held ↦
        rw held (record {
          same_buffers = refl;
          same_waiting = refl;
          same_reads = refl;
          same_serial = refl;
        })
  ]

  length-arrange : (c : HeapCall) (q : List PendingReceipt) → length (heap.arrange c q) ≡ length q
  length-arrange c q = sym (length-perm (heap.arrange_perm c q))

  -- What is left in the queue waits for something.
  pub send_ready-IsHeld :
      (expected : ℕ → ℕ) (next fuel : ℕ) (q : List PendingReceipt) (s : Cache)
      → length q ≤ fuel
      → IsLeast q
      → All (IsCounted expected next) q
      → All (IsHeld expected next) (send_ready heap fuel q s).receipt_queue
        × IsLeast (send_ready heap fuel q s).receipt_queue
  unfolding send_ready
  send_ready-IsHeld expected next zero [] s enough least h = (tt, tt)
  send_ready-IsHeld expected next zero (p ∷ q) s enough least h = absurd (omega arith)
  send_ready-IsHeld expected next (suc fuel) [] s enough least h = (tt, tt)
  send_ready-IsHeld expected next (suc fuel) (p ∷ q) s enough least (h, hs) =
      elim (Bool-cases (p.pending_ios == 0)) [
        | inl ready ↦ rw ready (
            send_ready-IsHeld expected next fuel (heap.arrange heap_pop q) _
              (omega (arith, length-arrange heap_pop q)) (arrange-IsLeast heap heap_pop q)
              (All-arrange heap heap_pop q (IsCounted expected next) hs))
        | inr held ↦
            let positive : 0 < p.pending_ios = ground arith in
            rw held (((h, positive), both q positive least hs), least)
      ]
    where
      both :
          (r : List PendingReceipt)
          → 0 < p.pending_ios
          → All (λ (x : PendingReceipt). p.pending_ios ≤ x.pending_ios) r
          → All (IsCounted expected next) r
          → All (IsHeld expected next) r
      both [] pp l k = tt
      both (x ∷ r) pp (l, ls) (k, ks) = ((k, omega arith), both r pp ls ks)

  -- A receipt that leaves the queue is sent.
  pub send_ready-times :
      (content fuel : ℕ) (q : List PendingReceipt) (s : Cache)
      → queued_times content (send_ready heap fuel q s).receipt_queue
          + sent_times content (send_ready heap fuel q s).sent
        ≡ queued_times content q + sent_times content s.sent
  unfolding send_ready queued_times sent_times
  send_ready-times content zero q s = refl
  send_ready-times content (suc fuel) [] s = refl
  send_ready-times content (suc fuel) (p ∷ q) s = elim (Bool-cases (p.pending_ios == 0)) [
    | inl ready ↦ rw ready (
        omega (
          arith,
          send_ready-times content fuel (heap.arrange heap_pop q)
              (push_receipt (record p.rcpt { to = fill s.users_cache p.rcpt.to }) s),
          queued_times-arrange heap heap_pop q content,
        ))
    | inr held ↦ rw held refl
  ]
