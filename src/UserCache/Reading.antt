-- ===== src/UserCache/Reading.antt =====
-- internal/server/user_cache.go: the users whose counters `unreadUpdater` finds to be read.
use server_chat.Common.{
  ℕ, ◌≡◌, refl, Bool, true, false, ◌⊎◌, inl, inr, Option, none, some, List, [], ◌∷◌, ◌++◌, ◌==◌,
  Bool-cases, ==_iff,
}
use server_chat.Common.Int.{ℤ, is_negative}
use server_chat.Ring.{Has}
use server_chat.UserCache.{
  UserCacheEntry, BufferedUpdate, Cache, Counted, buffer_update, count_entry, count_all,
}

abbrev pub is_some {ℓ} : {A : Type ℓ} → Option A → Bool
is_some none = false
is_some (some _) = true

-- Updates of a user are kept, as its counter is being read.
abbrev pub IsBuffered : Cache → ℕ → Type 0
IsBuffered s u = is_some (s.per_user_buffers u) ≡ true

-- What the loop has not touched, and the users that it has found.
pub record Found (s : Cache) (c : Counted) : Type 0 where
  pub same_waiting : c.cache.waiting ≡ s.waiting
  pub same_queue : c.cache.receipt_queue ≡ s.receipt_queue
  pub same_sent : c.cache.sent ≡ s.sent
  pub same_serial : c.cache.next_serial ≡ s.next_serial
  pub same_reads : c.cache.reads ≡ s.reads
  pub kept : (u : ℕ) → IsBuffered s u → IsBuffered c.cache u
  pub reading : (u : ℕ) → IsBuffered c.cache u → IsBuffered s u ⊎ Has c.db_pending u

Has-append_left : {A : Type 0} (xs ys : List A) (x : A) → Has xs x → Has (xs ++ ys) x
Has-append_left [] ys x h = elim h [ ]
Has-append_left (y ∷ xs) ys x (inl e) = inl e
Has-append_left (y ∷ xs) ys x (inr h) = inr (Has-append_left xs ys x h)

Has-last : {A : Type 0} (xs : List A) (x : A) → Has (xs ++ x ∷ []) x
Has-last [] x = inl refl
Has-last (y ∷ xs) x = inr (Has-last xs x)

module _ (s : Cache) (c : Counted) (f : Found s c) (uid : ℕ) where
  buffer_update-Found :
      (upd : BufferedUpdate) (b : Option (List BufferedUpdate))
      → c.cache.per_user_buffers uid ≡ b
      → Found s (buffer_update c uid upd b)
  buffer_update-Found upd (some updates) e = record {
    same_waiting = f.same_waiting;
    same_queue = f.same_queue;
    same_sent = f.same_sent;
    same_serial = f.same_serial;
    same_reads = f.same_reads;
    kept = λ u h. elim (Bool-cases (u == uid)) [
      | inl same ↦ rw same refl
      | inr other ↦ rw other (f.kept u h)
    ];
    reading = λ u h. elim (Bool-cases (u == uid)) [
      | inl same ↦ f.reading u (rw ((==_iff u uid).0 same, e) refl)
      | inr other ↦ f.reading u (rw other at h)
    ];
  }
  buffer_update-Found upd none e = record {
    same_waiting = f.same_waiting;
    same_queue = f.same_queue;
    same_sent = f.same_sent;
    same_serial = f.same_serial;
    same_reads = f.same_reads;
    kept = λ u h. elim (Bool-cases (u == uid)) [
      | inl same ↦ rw same refl
      | inr other ↦ rw other (f.kept u h)
    ];
    reading = λ u h. elim (Bool-cases (u == uid)) [
      | inl same ↦ inr (rw ((==_iff u uid).0 same) (Has-last c.db_pending uid))
      | inr other ↦ (elim (f.reading u (rw other at h)) [
        | inl before ↦ inl before
        | inr found ↦ inr (Has-append_left c.db_pending (uid ∷ []) u found)
      ])
    ];
  }

  pub count_entry-Found :
      (val : ℤ) (inc : Bool) (entry : Option UserCacheEntry)
      → Found s (count_entry c uid val inc entry)
  unfolding count_entry
  count_entry-Found val inc none = record {
    same_waiting = f.same_waiting;
    same_queue = f.same_queue;
    same_sent = f.same_sent;
    same_serial = f.same_serial;
    same_reads = f.same_reads;
    kept = f.kept;
    reading = f.reading;
  }
  count_entry-Found val inc (some uce) = elim (Bool-cases (is_negative uce.unread)) [
    | inl unknown ↦
        rw unknown (
          buffer_update-Found (record { val = val; inc = inc }) (c.cache.per_user_buffers uid) refl)
    | inr known ↦ rw known (record {
      same_waiting = f.same_waiting;
      same_queue = f.same_queue;
      same_sent = f.same_sent;
      same_serial = f.same_serial;
      same_reads = f.same_reads;
      kept = f.kept;
      reading = f.reading;
    })
  ]

count_all-Found :
    (s : Cache) (c : Counted) (updates : List (ℕ × ℤ)) (inc : Bool)
    → Found s c
    → Found s (count_all c updates inc)
unfolding count_all
count_all-Found s c [] inc f = f
count_all-Found s c ((uid, val) ∷ updates) inc f =
    count_all-Found s (count_entry c uid val inc (c.cache.users_cache uid)) updates inc
      (count_entry-Found s c f uid val inc (c.cache.users_cache uid))

abbrev pub begun : Cache → Counted
begun s = record { cache = s; db_pending = []; counts = [] }

pub begun-Found : (s : Cache) → Found s (begun s)
begun-Found s = record {
  same_waiting = refl;
  same_queue = refl;
  same_sent = refl;
  same_serial = refl;
  same_reads = refl;
  kept = λ u h. h;
  reading = λ u h. inl h;
}

pub counted-Found :
    (s : Cache) (updates : List (ℕ × ℤ)) (inc : Bool)
    → Found s (count_all (record { cache = s; db_pending = []; counts = [] }) updates inc)
counted-Found s updates inc = count_all-Found s (begun s) updates inc (begun-Found s)
