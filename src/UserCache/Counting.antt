-- ===== src/UserCache/Counting.antt =====
-- internal/server/user_cache.go: how often a number occurs in the lists of the user cache, and what
-- the calls of package `container/heap` leave as it is.
use mathlib.Core.List.{Permᴰ}
use server_chat.Common.{
  ℕ, ◌+◌, ◌≤◌, ◌≡◌, refl, sym, ◌∙◌, List, [], ◌∷◌, ◌++◌, ◌==◌, All, length, if◌then◌else◌, arith,
}
use server_chat.UserCache.{Receipt, PendingReceipt, HeapCall, HeapPackage}

-- How many reads a receipt waits for.
unfoldable pub waits : ℕ → List (ℕ × ℕ) → ℕ
waits serial [] = 0
waits serial ((u, n) ∷ waiting) = waits serial waiting + (if n == serial then 1 else 0)

-- How often a content is queued, sent, and has arrived.
unfoldable pub queued_times : ℕ → List PendingReceipt → ℕ
queued_times content [] = 0
queued_times content (p ∷ q) = queued_times content q + (if p.rcpt.content == content then 1 else 0)

unfoldable pub sent_times : ℕ → List Receipt → ℕ
sent_times content [] = 0
sent_times content (r ∷ sent) = sent_times content sent + (if r.content == content then 1 else 0)

unfoldable pub times : ℕ → List ℕ → ℕ
times content [] = 0
times content (c ∷ arrived) = times content arrived + (if c == content then 1 else 0)

pub waits-append :
    (serial : ℕ) (a b : List (ℕ × ℕ)) → waits serial (a ++ b) ≡ waits serial a + waits serial b
unfolding waits
waits-append serial [] b = omega arith
waits-append serial (w ∷ a) b = omega (arith, waits-append serial a b)

pub queued_times-append :
    (content : ℕ) (a b : List PendingReceipt)
    → queued_times content (a ++ b) ≡ queued_times content a + queued_times content b
unfolding queued_times
queued_times-append content [] b = omega arith
queued_times-append content (p ∷ a) b = omega (arith, queued_times-append content a b)

pub queued_times-perm :
    (content : ℕ) {a b : List PendingReceipt}
    → Permᴰ a b
    → queued_times content a ≡ queued_times content b
unfolding queued_times
queued_times-perm content Permᴰ.nil = refl
queued_times-perm content (Permᴰ.cons e p) = rw e (rw (queued_times-perm content p) refl)
queued_times-perm content (Permᴰ.swap e f) = rw (e, f) (omega arith)
queued_times-perm content (Permᴰ.trans p q) =
    queued_times-perm content p ∙ queued_times-perm content q

module _ {ℓ κ} {A : Type ℓ} (P : A → Type κ) where
  pub All-perm : {xs ys : List A} → Permᴰ xs ys → All P xs → All P ys
  All-perm Permᴰ.nil h = h
  All-perm (Permᴰ.cons e p) (h, hs) = (rw e at h, All-perm p hs)
  All-perm (Permᴰ.swap e f) (h, (k, hs)) = (rw f at k, (rw e at h, hs))
  All-perm (Permᴰ.trans p q) h = All-perm q (All-perm p h)

-- A least element stands first.
abbrev pub IsLeast : List PendingReceipt → Type 0
IsLeast [] = Unit {0}
IsLeast (first ∷ rest) = All (λ (p : PendingReceipt). first.pending_ios ≤ p.pending_ios) rest

module _ (heap : HeapPackage) (c : HeapCall) (q : List PendingReceipt) where
  pub arrange-IsLeast : IsLeast (heap.arrange c q)
  arrange-IsLeast = go (heap.arrange c q) refl
    where
      go : (r : List PendingReceipt) → heap.arrange c q ≡ r → IsLeast r
      go [] e = tt
      go (first ∷ rest) e = heap.arrange_least c q e

  pub All-arrange : (P : PendingReceipt → Type 0) → All P q → All P (heap.arrange c q)
  All-arrange P h = All-perm P (heap.arrange_perm c q) h

  pub queued_times-arrange :
      (content : ℕ) → queued_times content (heap.arrange c q) ≡ queued_times content q
  queued_times-arrange content = sym (queued_times-perm content (heap.arrange_perm c q))

pub length-perm {ℓ} : {A : Type ℓ} {a b : List A} → Permᴰ a b → length a ≡ length b
length-perm Permᴰ.nil = refl
length-perm (Permᴰ.cons _ p) = omega (arith, length-perm p)
length-perm (Permᴰ.swap _ _) = refl
length-perm (Permᴰ.trans p q) = length-perm p ∙ length-perm q
