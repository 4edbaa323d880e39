-- ===== src/Topic/RoleChange/Written.antt =====
-- internal/server/topic_roles.go: what a change of a role writes to the store and to the cache.
use server_chat.Common.{
  ℕ, ◌≡◌, ◌⊎◌, refl, inl, inr, Bool, true, false, not, ◌&&◌, ◌||◌, Bool-cases, ◌==◌, ==_iff, Option,
  none, some, if◌then◌else◌,
}
use server_chat.Common.Bytes.{codes, eq_bytes}
use server_chat.Topic.{Topic, PerUserData, set_user, or_no_data}
use server_chat.Topic.Roles.{TopicRoleAccess}
use server_chat.Topic.RoleChange.{
  RoleRequest, Account, active, inactive, missing, unreadable, Current, Plan, role_sub, is_cached,
  evict_cached, with_role, cached, new_data,
}
use server_chat.Topic.RoleChange.Apply.{create_for, place_new, leave, move, place}
use server_chat.Topic.Subs.{Subscription, SubStore, Roster, same_kind, updated}

-- A table with other entries for one user at most, of which a property holds.
abbrev pub Only {ℓ} : {A : Type ℓ} → ℕ → (A → Type 0) → (ℕ → A) → (ℕ → A) → Type ℓ
Only uid P old new = (u : ℕ) → (new u ≡ old u) ⊎ ((uid ≡ u) × P (new u))

write-Only {ℓ} :
    {A : Type ℓ} (uid : ℕ) (P : A → Type 0) (old mid : ℕ → A) (b : Bool) (row : A)
    → Only uid P old mid
    → P row
    → Only uid P old (λ u. if b && (uid == u) then row else mid u)
write-Only uid P old mid b row h p u = elim (Bool-cases (b && (uid == u))) [
  | inl e ↦ rw e (inr ((==_iff uid u).0 (both b _ e), p))
  | inr e ↦ rw e (h u)
]
  where
    both : (x y : Bool) → (x && y) ≡ true → y ≡ true
    both true y e = e
    both false y e = cc

-- Nothing, or a row or data with this mode wanted and given.
abbrev pub HasSub : ℕ → Option Subscription → Type 0
HasSub m none = Unit
HasSub m (some sub) = (sub.mode_want ≡ m) × (sub.mode_given ≡ m)

abbrev pub HasMode : ℕ → Option PerUserData → Type 0
HasMode m none = Unit
HasMode m (some pud) = (pud.mode_want ≡ m) × (pud.mode_given ≡ m)

-- The rows that are not as they were are of the one user, and gone, or have the mode.
abbrev pub Changes : ℕ → ℕ → Roster → Roster → Type 0
Changes uid m old new = (chan : Bool) → Only uid (HasSub m) (old chan) (new chan)

module _ (d : SubStore) (s0 : d.State) (uid : ℕ) (r : TopicRoleAccess) where
  abbrev pub IsWritten : d.State → Type 0
  IsWritten s = Changes uid r.mode (d.rows s0) (d.rows s)

  create-IsWritten :
      (s : d.State) (chan : Bool) → IsWritten s → IsWritten (d.create s chan uid (role_sub r)).0
  create-IsWritten s chan h = elim (Bool-cases (d.create s chan uid (role_sub r)).1) [
    | inl e ↦ rw (d.create_ok s chan uid _ e) λ c.
        write-Only uid (HasSub r.mode) (d.rows s0 c) (d.rows s c) (same_kind chan c) _ (h c)
          (refl, refl)
    | inr e ↦ rw (d.create_err s chan uid _ e) h
  ]

  updated-HasSub : (old : Option Subscription) → HasSub r.mode (updated old (role_sub r))
  updated-HasSub none = tt
  updated-HasSub (some sub) = (refl, refl)

  update-IsWritten :
      (s : d.State) (chan : Bool) → IsWritten s → IsWritten (d.update s chan uid (role_sub r)).0
  update-IsWritten s chan h = elim (Bool-cases (d.update s chan uid (role_sub r)).1) [
    | inl e ↦ rw (d.update_ok s chan uid _ e) λ c.
        write-Only uid (HasSub r.mode) (d.rows s0 c) (d.rows s c) (same_kind chan c) _ (h c)
          (updated-HasSub (d.rows s chan uid))
    | inr e ↦ rw (d.update_err s chan uid _ e) h
  ]

  delete-IsWritten : (s : d.State) (chan : Bool) → IsWritten s → IsWritten (d.delete s chan uid).0
  delete-IsWritten s chan h = elim (Bool-cases (d.delete s chan uid).1) [
    | inl e ↦ rw (d.delete_ok s chan uid e) λ c.
        write-Only uid (HasSub r.mode) (d.rows s0 c) (d.rows s c) (same_kind chan c) none (h c) tt
    | inr e ↦ rw (d.delete_err s chan uid e) h
  ]

  leave-IsWritten :
      (x : d.State × Bool) (kept : Bool) → IsWritten x.0 → IsWritten (leave d uid kept x).0
  unfolding leave
  leave-IsWritten (s, true) kept h = h
  leave-IsWritten (s, false) kept h = delete-IsWritten s kept h

  move-IsWritten : (c : Current) (s : d.State) → IsWritten s → IsWritten (move d s uid r c).0
  unfolding move
  move-IsWritten c s h =
      let x = d.create s r.channel_sub uid (role_sub r) in
      let k = create-IsWritten s r.channel_sub h in
      elim (Bool-cases x.1) [
        | inl e ↦ rw e (
            leave-IsWritten (d.delete x.0 c.in_channel uid) r.channel_sub
              (delete-IsWritten x.0 c.in_channel k))
        | inr e ↦ rw e k
      ]

  create_for-IsWritten :
      (a : Account) (s : d.State) → IsWritten s → IsWritten (create_for d s uid r a).0
  unfolding create_for
  create_for-IsWritten unreadable s h = h
  create_for-IsWritten missing s h = h
  create_for-IsWritten inactive s h = h
  create_for-IsWritten active s h = create-IsWritten s r.channel_sub h

  unwritten : IsWritten s0
  unwritten chan u = inl refl

pub place-IsWritten :
    (d : SubStore) (s : d.State) (q : RoleRequest) (r : TopicRoleAccess) (current : Option Current)
    → IsWritten d s q.target r (place d s q r current).0
unfolding place place_new
place-IsWritten d s q r none = elim (Bool-cases (not r.channel_sub && q.is_full)) [
  | inl e ↦ rw e (unwritten d s q.target r)
  | inr e ↦ rw e (create_for-IsWritten d s q.target r q.account s (unwritten d s q.target r))
]
place-IsWritten d s q r (some c) = elim (Bool-cases (same_kind c.in_channel r.channel_sub)) [
  | inl e ↦ rw e (update-IsWritten d s q.target r s r.channel_sub (unwritten d s q.target r))
  | inr e ↦ rw e (move-IsWritten d s q.target r c s (unwritten d s q.target r))
]

module _ (t : Topic) (q : RoleRequest) where
  -- The same for the data in the cache.
  abbrev pub IsCached : ℕ → (ℕ → Option PerUserData) → Type 0
  IsCached m = Only q.target (HasMode m) t.per_user

  if-IsCached :
      (m : ℕ) (b : Bool) (f g : ℕ → Option PerUserData)
      → IsCached m f
      → IsCached m g
      → IsCached m (if b then f else g)
  if-IsCached m true f g h k = h
  if-IsCached m false f g h k = k

  cached-IsCached : (r : TopicRoleAccess) → IsCached r.mode (cached t q r)
  unfolding cached
  cached-IsCached r =
      if-IsCached r.mode (not r.channel_sub || is_cached (t.per_user q.target))
        (set_user t.per_user q.target (new_data t q r)) t.per_user
        (write-Only q.target (HasMode r.mode) t.per_user t.per_user true _ (λ u. inl refl)
          (refl, refl))
        (λ u. inl refl)

  evict_cached-IsCached :
      (m : ℕ) (users : ℕ → Option PerUserData)
      → IsCached m users
      → IsCached m (evict_cached users q.target)
  evict_cached-IsCached m users h = elim (Bool-cases (or_no_data (users q.target)).is_chan) [
    | inl e ↦ rw e (write-Only q.target (HasMode m) t.per_user users true none h tt)
    | inr e ↦ rw e h
  ]

  pub with_role-IsCached :
      (plan : Plan) → IsCached plan.requested.mode (with_role t q plan).per_user
  unfolding with_role
  with_role-IsCached plan =
      let h = cached-IsCached plan.requested in
      if-IsCached plan.requested.mode (eq_bytes plan.requested.name (codes "banned"))
        (evict_cached (cached t q plan.requested) q.target) (cached t q plan.requested)
        (evict_cached-IsCached _ (cached t q plan.requested) h) h

  pub with_role-owner : (plan : Plan) → (with_role t q plan).owner ≡ t.owner
  unfolding with_role
  with_role-owner plan = refl
