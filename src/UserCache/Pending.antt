-- ===== src/UserCache/Pending.antt =====
-- internal/server/user_cache.go: the recipients whose counters `unreadUpdater` reports as pending.
use server_chat.Common.{
  ℕ, ◌≡◌, refl, sym, ap, ◌∙◌, true, false, ◌⊎◌, inl, inr, Option, none, some, List, [], ◌∷◌, ◌++◌,
  ◌==◌, All, All-append, All-mono, Bool-cases, arith, ==_iff,
}
use server_chat.Common.Int.{ℤ, ◌+ℤ◌, is_negative}
use server_chat.UserCache.{
  unread_update_io_pending, unread_update_error, UserCacheEntry, BufferedUpdate, Recipient, Cache,
  Counted, updated_count, buffer_update, count_entry, count_all, not_loaded, set_unread,
}
use server_chat.UserCache.Updater.{pending_users, deltas, is_pending}
use server_chat.UserCache.Reading.{IsBuffered, Found, count_entry-Found, begun}

pending_users-append :
    (a b : List (ℕ × ℤ)) → pending_users (a ++ b) ≡ pending_users a ++ pending_users b
unfolding pending_users
pending_users-append [] b = refl
pending_users-append ((uid, unread) ∷ a) b = elim (Bool-cases (is_pending unread)) [
  | inl e ↦ rw e (ap (λ (l : List ℕ). uid ∷ l) (pending_users-append a b))
  | inr e ↦ rw e (pending_users-append a b)
]

-- The users that are reported as pending have updates kept for them.
abbrev pub IsReported : Counted → Type 0
IsReported c = All (IsBuffered c.cache) (pending_users c.counts)

self-Found : (c : Counted) → Found c.cache c
self-Found c = record {
  same_waiting = refl;
  same_queue = refl;
  same_sent = refl;
  same_serial = refl;
  same_reads = refl;
  kept = λ u h. h;
  reading = λ u h. inl h;
}

module _ (c : Counted) (uid : ℕ) (val : ℤ) (up : is_negative val ≡ false) (h : IsReported c) where
  -- One more count, of a user who is not pending or has updates kept.
  IsReported-next :
      (c' : Counted) (unread : ℤ)
      → ((u : ℕ) → IsBuffered c.cache u → IsBuffered c'.cache u)
      → c'.counts ≡ c.counts ++ (uid, unread) ∷ []
      → (is_pending unread ≡ false) ⊎ IsBuffered c'.cache uid
      → IsReported c'
  unfolding pending_users
  IsReported-next c' unread kept e last =
      rw (e, pending_users-append)
        (All-append (IsBuffered c'.cache) (pending_users c.counts) _
          (All-mono _ _ (pending_users c.counts) kept h)
          (elim (Bool-cases (is_pending unread)) [
            | inr quiet ↦ rw quiet tt
            | inl waits ↦ rw waits (elim last [
              | inl no_wait ↦ absurd (let k : true ≡ false = sym waits ∙ no_wait in cc)
              | inr buffered ↦ (buffered, tt)
            ])
          ]))

  buffer_update-IsReported :
      (upd : BufferedUpdate) (b : Option (List BufferedUpdate))
      → ((u : ℕ) → IsBuffered c.cache u → IsBuffered (buffer_update c uid upd b).cache u)
      → IsReported (buffer_update c uid upd b)
  buffer_update-IsReported upd (some updates) kept =
      let same : (uid == uid) ≡ true = (==_iff uid uid).1 refl in
      IsReported-next (buffer_update c uid upd (some updates)) unread_update_io_pending kept refl
        (inr (rw same refl))
  buffer_update-IsReported upd none kept =
      let same : (uid == uid) ≡ true = (==_iff uid uid).1 refl in
      IsReported-next (buffer_update c uid upd none) unread_update_io_pending kept refl
        (inr (rw same refl))

  sum_quiet :
      (unread : ℤ) → is_negative unread ≡ false → is_pending (updated_count unread true val) ≡ false
  unfolding ◌+ℤ◌
  sum_quiet unread e = ground arith

  count_entry-IsReported :
      (entry : Option UserCacheEntry)
      → ((u : ℕ) → IsBuffered c.cache u → IsBuffered (count_entry c uid val true entry).cache u)
      → IsReported (count_entry c uid val true entry)
  unfolding count_entry
  count_entry-IsReported none kept =
      IsReported-next (not_loaded c uid) unread_update_error kept refl (inl refl)
  count_entry-IsReported (some uce) kept = elim (Bool-cases (is_negative uce.unread)) [
    | inl unknown ↦ rw unknown (
        buffer_update-IsReported (record { val = val; inc = true }) (c.cache.per_user_buffers uid)
          (rw unknown at kept))
    | inr known ↦ rw known (
        IsReported-next (set_unread c uid uce (updated_count uce.unread true val))
          (updated_count uce.unread true val) (rw known at kept) refl
          (inl (sum_quiet uce.unread known)))
  ]

abbrev IsUp : ℕ × ℤ → Type 0
IsUp update = is_negative update.1 ≡ false

pub count_all-IsReported :
    (c : Counted) (updates : List (ℕ × ℤ))
    → All IsUp updates
    → IsReported c
    → IsReported (count_all c updates true)
unfolding count_all
count_all-IsReported c [] up h = h
count_all-IsReported c ((uid, val) ∷ updates) (up, ups) h =
    count_all-IsReported (count_entry c uid val true (c.cache.users_cache uid)) updates ups (
      count_entry-IsReported c uid val up h (c.cache.users_cache uid)
        (count_entry-Found c.cache c (self-Found c) uid val true (c.cache.users_cache uid)).kept)

deltas-IsUp : (to : List (ℕ × Recipient)) → All IsUp (deltas to)
unfolding deltas
deltas-IsUp [] = tt
deltas-IsUp ((uid, r) ∷ to) = elim (Bool-cases r.should_increment) [
  | inl e ↦ rw e (refl, deltas-IsUp to)
  | inr e ↦ rw e (refl, deltas-IsUp to)
]

pub deltas-IsReported :
    (s : Cache) (to : List (ℕ × Recipient))
    → IsReported (count_all (record { cache = s; db_pending = []; counts = [] }) (deltas to) true)
unfolding pending_users
deltas-IsReported s to = count_all-IsReported (begun s) (deltas to) (deltas-IsUp to) tt
