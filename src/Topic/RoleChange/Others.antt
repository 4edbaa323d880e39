-- ===== src/Topic/RoleChange/Others.antt =====
-- internal/server/topic_roles.go: users who are not the target of a change of a role.
use server_chat.Common.{
  ℕ, ◌≡◌, ◌≢◌, ◌∙◌, refl, inl, inr, arith, Bool, true, false, not, ◌&&◌, ◌||◌, Bool-cases, ◌==◌,
  ==_iff, Option, none, some, if◌then◌else◌,
}
use server_chat.Common.Bytes.{codes, eq_bytes}
use server_chat.Common.Result.{Result, ok, err}
use server_chat.Topic.{Topic, PerUserData, set_user, or_no_data}
use server_chat.Topic.Roles.{TopicRoleAccess}
use server_chat.Topic.RoleChange.{
  RoleRequest, ChangeErr, Account, active, inactive, missing, unreadable, Current, Plan, role_sub,
  is_same, is_cached, evict_cached, with_role, cached, new_data,
}
use server_chat.Topic.RoleChange.Apply.{
  create_for, place_new, leave, move, place, plan_role, finish_role, RoleChange, carry_out,
  set_another_user_role,
}
use server_chat.Topic.RoleChange.Effect.{Keeps}
use server_chat.Topic.Subs.{Subscription, SubStore, Roster, same_kind, with_row}

with_row-Keeps :
    (rows : Roster) (chan : Bool) (uid other : ℕ) (row : Option Subscription)
    → uid ≢ other
    → Keeps rows (with_row rows chan uid row) other
with_row-Keeps rows true uid other row apart =
    let e : (uid == other) ≡ false = ground (arith, ==_iff uid other) in (refl, rw e refl)
with_row-Keeps rows false uid other row apart =
    let e : (uid == other) ≡ false = ground (arith, ==_iff uid other) in (rw e refl, refl)

Keeps-trans : (a b c : Roster) (uid : ℕ) → Keeps a b uid → Keeps b c uid → Keeps a c uid
Keeps-trans a b c uid h k = (k.0 ∙ h.0, k.1 ∙ h.1)

-- What both branches of a test say of one user.
if-other :
    (b : Bool) (f g h : ℕ → Option PerUserData) (other : ℕ)
    → f other ≡ h other
    → g other ≡ h other
    → (if b then f else g) other ≡ h other
if-other true f g h other p q = p
if-other false f g h other p q = q

module _ (d : SubStore) (uid other : ℕ) (apart : uid ≢ other) where
  create-Keeps :
      (s : d.State) (chan : Bool) (new : Subscription)
      → Keeps (d.rows s) (d.rows (d.create s chan uid new).0) other
  create-Keeps s chan new = elim (Bool-cases (d.create s chan uid new).1) [
    | inl e ↦ rw (d.create_ok s chan uid new e) (with_row-Keeps (d.rows s) chan uid other _ apart)
    | inr e ↦ rw (d.create_err s chan uid new e) (refl, refl)
  ]

  update-Keeps :
      (s : d.State) (chan : Bool) (new : Subscription)
      → Keeps (d.rows s) (d.rows (d.update s chan uid new).0) other
  update-Keeps s chan new = elim (Bool-cases (d.update s chan uid new).1) [
    | inl e ↦ rw (d.update_ok s chan uid new e) (with_row-Keeps (d.rows s) chan uid other _ apart)
    | inr e ↦ rw (d.update_err s chan uid new e) (refl, refl)
  ]

  delete-Keeps :
      (s : d.State) (chan : Bool) → Keeps (d.rows s) (d.rows (d.delete s chan uid).0) other
  delete-Keeps s chan = elim (Bool-cases (d.delete s chan uid).1) [
    | inl e ↦ rw (d.delete_ok s chan uid e) (with_row-Keeps (d.rows s) chan uid other none apart)
    | inr e ↦ rw (d.delete_err s chan uid e) (refl, refl)
  ]

  leave-Keeps :
      (s : d.State) (kept gone : Bool)
      → Keeps (d.rows s) (d.rows (leave d uid kept (d.delete s gone uid)).0) other
  unfolding leave
  leave-Keeps s kept gone =
      let s1 = (d.delete s gone uid).0 in
      elim (Bool-cases (d.delete s gone uid).1) [
        | inl e ↦ rw e (delete-Keeps s gone)
        | inr e ↦ rw e (
            Keeps-trans (d.rows s) (d.rows s1) (d.rows (d.delete s1 kept uid).0) other
              (delete-Keeps s gone) (delete-Keeps s1 kept))
      ]

  move-Keeps :
      (s : d.State) (r : TopicRoleAccess) (c : Current)
      → Keeps (d.rows s) (d.rows (move d s uid r c).0) other
  unfolding move
  move-Keeps s r c =
      let x = d.create s r.channel_sub uid (role_sub r) in
      elim (Bool-cases x.1) [
        | inl e ↦ rw e (
            Keeps-trans (d.rows s) (d.rows x.0)
              (d.rows (leave d uid r.channel_sub (d.delete x.0 c.in_channel uid)).0) other
              (create-Keeps s r.channel_sub (role_sub r))
              (leave-Keeps x.0 r.channel_sub c.in_channel))
        | inr e ↦ rw e (create-Keeps s r.channel_sub (role_sub r))
      ]

  create_for-Keeps :
      (s : d.State) (r : TopicRoleAccess) (a : Account)
      → Keeps (d.rows s) (d.rows (create_for d s uid r a).0) other
  unfolding create_for
  create_for-Keeps s r unreadable = (refl, refl)
  create_for-Keeps s r missing = (refl, refl)
  create_for-Keeps s r inactive = (refl, refl)
  create_for-Keeps s r active = create-Keeps s r.channel_sub (role_sub r)

module _ (d : SubStore) (s : d.State) (t : Topic) (q : RoleRequest) (other : ℕ)
    (apart : q.target ≢ other) where
  place-Keeps :
      (r : TopicRoleAccess) (current : Option Current)
      → Keeps (d.rows s) (d.rows (place d s q r current).0) other
  unfolding place place_new
  place-Keeps r none = elim (Bool-cases (not r.channel_sub && q.is_full)) [
    | inl e ↦ rw e (refl, refl)
    | inr e ↦ rw e (create_for-Keeps d q.target other apart s r q.account)
  ]
  place-Keeps r (some c) = elim (Bool-cases (same_kind c.in_channel r.channel_sub)) [
    | inl e ↦ rw e (update-Keeps d q.target other apart s r.channel_sub (role_sub r))
    | inr e ↦ rw e (move-Keeps d q.target other apart s r c)
  ]

  evict_cached-other :
      (users : ℕ → Option PerUserData) → evict_cached users q.target other ≡ users other
  evict_cached-other users =
      let e : (q.target == other) ≡ false = ground (arith, ==_iff q.target other) in
      elim (Bool-cases (or_no_data (users q.target)).is_chan) [
        | inl k ↦ rw (k, e) refl
        | inr k ↦ rw k refl
      ]

  cached-other : (r : TopicRoleAccess) → cached t q r other ≡ t.per_user other
  unfolding cached
  cached-other r =
      let e : (q.target == other) ≡ false = ground (arith, ==_iff q.target other) in
      if-other (not r.channel_sub || is_cached (t.per_user q.target))
        (set_user t.per_user q.target (new_data t q r)) t.per_user t.per_user other (rw e refl) refl

  with_role-other : (plan : Plan) → (with_role t q plan).per_user other ≡ t.per_user other
  unfolding with_role
  with_role-other plan =
      let users = cached t q plan.requested in
      if-other (eq_bytes plan.requested.name (codes "banned")) (evict_cached users q.target) users
        t.per_user other (evict_cached-other users ∙ cached-other plan.requested)
        (cached-other plan.requested)

  -- The store has the same rows of the other user, and the cache the same data.
  abbrev pub IsUntouched : RoleChange d → Type 0
  IsUntouched r =
      Keeps (d.rows s) (d.rows r.state) other × (r.topic.per_user other ≡ t.per_user other)

  finish_role-IsUntouched :
      (plan : Plan) (x : d.State × Option ChangeErr)
      → Keeps (d.rows s) (d.rows x.0) other
      → IsUntouched (finish_role d t q plan x)
  unfolding finish_role
  finish_role-IsUntouched plan (s1, some e) h = (h, refl)
  finish_role-IsUntouched plan (s1, none) h = (h, with_role-other plan)

  carry_out-IsUntouched : (p : Result ChangeErr Plan) → IsUntouched (carry_out d s t q p)
  unfolding carry_out
  carry_out-IsUntouched (err e) = ((refl, refl), refl)
  carry_out-IsUntouched (ok plan) = elim (Bool-cases (is_same plan.requested plan.current)) [
    | inl same ↦ rw same ((refl, refl), refl)
    | inr new ↦ rw new (
        finish_role-IsUntouched plan (place d s q plan.requested plan.current)
          (place-Keeps plan.requested plan.current))
  ]

  -- A request to give a role changes, for a user who is not its target, neither the subscriptions
  -- in the store nor the data in the cache, whatever the store answers.
  pub set_another_user_role-IsUntouched : IsUntouched (set_another_user_role d s t q)
  set_another_user_role-IsUntouched = carry_out-IsUntouched (plan_role d s t q)
