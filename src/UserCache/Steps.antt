-- ===== src/UserCache/Steps.antt =====
-- internal/server/user_cache.go: the states of `userUpdater`, by any order of requests and reads.
use server_chat.Common.{ℕ, ◌≡◌, Bool, true, false, ◌⊎◌, none, List, [], ◌∷◌, ◌++◌, All}
use server_chat.Common.Int.{ℤ}
use server_chat.Ring.{Has}
use server_chat.UserCache.{Receipt, HeapPackage, Cache}
use server_chat.UserCache.Updater.{on_io_done, on_receipt, on_register, on_gone, on_unread}

abbrev pub initial : Cache
initial = record {
  users_cache = λ uid. none;
  per_user_buffers = λ uid. none;
  waiting = [];
  receipt_queue = [];
  reads = [];
  next_serial = 0;
  sent = [];
}

abbrev pub keys : List (ℕ × ℤ) → List ℕ
keys [] = []
keys ((uid, count) ∷ counts) = uid ∷ keys counts

-- A read among those that go on.
abbrev pub InReads : List (List ℕ) → ℕ → Type 0
InReads [] u = ⊥
InReads (uids ∷ reads) u = Has uids u ⊎ InReads reads u

-- The states that the goroutine reaches, with the contents of the receipts that have arrived. The
-- adapters return a count for each user asked for, and an undefined one if the read has failed, which
-- happens only where reads may fail.
pub data Reach (heap : HeapPackage) (may_fail : Bool) : List ℕ → Cache → Type 0 where
  start : Reach heap may_fail [] initial
  receipt :
      {arrived : List ℕ} {s : Cache} (rcpt : Receipt)
      → Reach heap may_fail arrived s
      → Reach heap may_fail (rcpt.content ∷ arrived) (on_receipt heap rcpt s)
  register :
      {arrived : List ℕ} {s : Cache} (uids : List ℕ) (inc : Bool)
      → Reach heap may_fail arrived s
      → Reach heap may_fail arrived (on_register uids inc s)
  gone :
      {arrived : List ℕ} {s : Cache} (uid : ℕ)
      → Reach heap may_fail arrived s
      → Reach heap may_fail arrived (on_gone uid s)
  unread :
      {arrived : List ℕ} {s : Cache} (uid : ℕ) (val : ℤ) (inc : Bool)
      → Reach heap may_fail arrived s
      → Reach heap may_fail arrived (on_unread uid val inc s)
  io_done :
      {arrived : List ℕ} {s : Cache} (before after : List (List ℕ)) (uids : List ℕ) (failed : Bool)
      (counts : List (ℕ × ℤ))
      → (failed ≡ false) ⊎ (may_fail ≡ true)
      → s.reads ≡ before ++ uids ∷ after
      → All (Has (keys counts)) uids
      → Reach heap may_fail arrived s
      → Reach heap may_fail arrived
          (on_io_done heap failed counts (record s { reads = before ++ after }))
