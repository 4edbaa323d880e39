-- ===== src/Topic/RoleChange/Allowed.antt =====
-- internal/server/topic_roles.go: who may give a role to whom.
use server_chat.Common.{
  ℕ, ◌≡◌, ◌⊎◌, refl, sym, ap, inl, inr, arith, true, false, Bool-cases, ◌==◌, ==_iff, Option, none,
  some,
}
use server_chat.Common.Bytes.{codes, eq_bytes}
use server_chat.Common.Result.{Result, ok, err, Result-cases, >>=-eq-ok, ok-injective}
use server_chat.Access.{is_owner, is_admin, better_equal}
use server_chat.Topic.{Topic, mode, user_data, is_read_only}
use server_chat.Topic.Roles.{TopicRoleAccess, resolve_topic_role}
use server_chat.Topic.Roles.RoundTrip.{resolve_topic_role-IsSafe}
use server_chat.Topic.RoleChange.{
  RoleRequest, ChangeErr, Current, current_mode, Plan, check_actor, check_current, is_same,
}
use server_chat.Topic.RoleChange.Apply.{
  find_current, plan_role, finish_role, place, RoleChange, carry_out, set_another_user_role,
}
use server_chat.Topic.RoleChange.Written.{
  Changes, IsCached, place-IsWritten, with_role-IsCached, with_role-owner,
}
use server_chat.Topic.Subs.{SubStore}

-- The mode is that of the requested role. The actor manages the members of a topic that is not
-- read-only, and if the topic is not the actor's, the mode is not above the actor's own.
record IsGrantable (t : Topic) (q : RoleRequest) (mode_new : ℕ) : Type 0 where
  resolved :
      (r : TopicRoleAccess) × (resolve_topic_role q.role t.is_chan ≡ ok r) × (r.mode ≡ mode_new)
  host_admin : is_admin (mode (user_data t q.actor)) ≡ true
  writable : is_read_only t ≡ false
  not_owner : is_owner mode_new ≡ false
  within :
      (t.owner ≡ q.actor)
      ⊎ ((is_admin mode_new ≡ false) × (better_equal (mode (user_data t q.actor)) mode_new ≡ true))

-- What the guards on the actor let pass.
check_actor-passes :
    (t : Topic) (q : RoleRequest) {r : TopicRoleAccess}
    → check_actor t q ≡ ok r
    → (resolve_topic_role q.role t.is_chan ≡ ok r)
      × (is_admin (mode (user_data t q.actor)) ≡ true)
      × (is_read_only t ≡ false)
      × ((t.owner == q.actor) ≡ true
          ⊎ ((eq_bytes r.name (codes "admin") ≡ false)
              × (better_equal (mode (user_data t q.actor)) r.mode ≡ true)))
unfolding check_actor
check_actor-passes t q {r} h = elim (Result-cases (resolve_topic_role q.role t.is_chan)) [
  | inr (e, p) ↦ absurd (let k = rw p at h in ground arith)
  | inl (r1, p) ↦
      let k = rw p at h in
      let e : r1 ≡ r = ground arith in rw (← e) (p, ground arith, ground arith, ground arith)
]

check_actor-IsGrantable :
    (t : Topic) (q : RoleRequest) {r : TopicRoleAccess}
    → check_actor t q ≡ ok r
    → IsGrantable t q r.mode
check_actor-IsGrantable t q {r} h =
    let (p, a, w, o) = check_actor-passes t q h in
    let safe = resolve_topic_role-IsSafe q.role t.is_chan p in
    record {
      resolved = (r, p, refl);
      host_admin = a;
      writable = w;
      not_owner = safe.no_owner;
      within = ground (arith, o, ==_iff t.owner q.actor, safe.only_admins);
    }

check_current-passes :
    (t : Topic) (q : RoleRequest) (r : TopicRoleAccess) (c : Current) {placed : TopicRoleAccess}
    → check_current t q r (some c) ≡ ok placed
    → (placed.mode ≡ r.mode)
      × (is_owner (current_mode c) ≡ false)
      × ((t.owner ≡ q.actor) ⊎ (is_admin (current_mode c) ≡ false))
unfolding check_current
check_current-passes t q r c {placed} h =
    let m : placed.mode ≡ r.mode = ground arith in
    (m, ground arith, ground (arith, ==_iff t.owner q.actor))

-- The target's role can be replaced: there is none, or it is not the owner's, and an admin's only
-- by the owner.
abbrev IsReplaceable : Topic → RoleRequest → Option Current → Type 0
IsReplaceable t q none = Unit
IsReplaceable t q (some c) =
    (is_owner (current_mode c) ≡ false)
    × ((t.owner ≡ q.actor) ⊎ (is_admin (current_mode c) ≡ false))

module _ (d : SubStore) (s : d.State) (t : Topic) (q : RoleRequest) where
  pub record IsAllowed (mode_new : ℕ) : Type 0 where
    current : Option Current
    found : find_current d s t.is_chan q.target (t.per_user q.target) ≡ ok current
    replaceable : IsReplaceable t q current
    grantable : IsGrantable t q mode_new

  replaceable :
      (r : TopicRoleAccess) {placed : TopicRoleAccess} (current : Option Current)
      → check_current t q r current ≡ ok placed
      → IsReplaceable t q current × (placed.mode ≡ r.mode)
  unfolding check_current
  replaceable r none h = (tt, ap (λ (x : TopicRoleAccess). x.mode) (sym (ok-injective h)))
  replaceable r (some c) h = let (m, o, a) = check_current-passes t q r c h in ((o, a), m)

  plan_role-IsAllowed : {p : Plan} → plan_role d s t q ≡ ok p → IsAllowed p.requested.mode
  unfolding plan_role
  plan_role-IsAllowed {p} h =
      let (r, actor, h1) = >>=-eq-ok (check_actor t q) _ h in
      let (current, found, h2) =
        >>=-eq-ok (find_current d s t.is_chan q.target (t.per_user q.target)) _ h1 in
      let (placed, checked, h3) = >>=-eq-ok (check_current t q r current) _ h2 in
      let (ok_target, m) = replaceable r current checked in
      let e : placed ≡ p.requested = ap (λ (x : Plan). x.requested) (ok-injective h3) in
      record {
        current = current;
        found = found;
        replaceable = ok_target;
        grantable = rw (← e, m) (check_actor-IsGrantable t q actor);
      }

  -- What is stored and kept of the mode, and the answer.
  pub record IsGiven (mode_new : ℕ) (r : RoleChange d) : Type 0 where
    stored : Changes q.target mode_new (d.rows s) (d.rows r.state)
    kept : IsCached t q mode_new r.topic.per_user
    same_owner : r.topic.owner ≡ t.owner
    answered : (r.answer ≡ ok (some mode_new)) ⊎ ((e : ChangeErr) × (r.answer ≡ err e))

  -- Nothing has changed, or the change is allowed, and it is the one that was made.
  abbrev pub IsProper : RoleChange d → Type 0
  IsProper r =
      ((r.state ≡ s) × (r.topic ≡ t)) ⊎ ((mode_new : ℕ) × IsAllowed mode_new × IsGiven mode_new r)

  finish_role-IsGiven :
      (plan : Plan) (x : d.State × Option ChangeErr)
      → Changes q.target plan.requested.mode (d.rows s) (d.rows x.0)
      → IsGiven plan.requested.mode (finish_role d t q plan x)
  unfolding finish_role
  finish_role-IsGiven plan (s1, none) h = record {
    stored = h;
    kept = with_role-IsCached t q plan;
    same_owner = with_role-owner t q plan;
    answered = inl refl;
  }
  finish_role-IsGiven plan (s1, some e) h = record {
    stored = h;
    kept = λ u. inl refl;
    same_owner = refl;
    answered = inr (e, refl);
  }

  carry_out-IsProper :
      (p : Result ChangeErr Plan) → plan_role d s t q ≡ p → IsProper (carry_out d s t q p)
  unfolding carry_out
  carry_out-IsProper (err e) p = inl (refl, refl)
  carry_out-IsProper (ok plan) p = elim (Bool-cases (is_same plan.requested plan.current)) [
    | inl same ↦ inl (rw same (refl, refl))
    | inr new ↦ inr (
      plan.requested.mode,
      plan_role-IsAllowed p,
      rw new (
          finish_role-IsGiven plan (place d s q plan.requested plan.current)
            (place-IsWritten d s q plan.requested plan.current)),
    )
  ]

  -- A request to give a role leaves the state of the store and the topic as they are, or the actor
  -- is an admin of a topic that is not read-only, the new mode is that of the requested role and
  -- has no owner's permission, the mode that was found for the target has not either, and unless
  -- the actor owns the topic, neither of them is an admin's and the new one is within the actor's
  -- own; then, whatever the store answers, each row of the store and the data of each user in the
  -- cache are as they were, or they are the target's, and are gone or have the new mode wanted and
  -- given; the topic has the same owner; and the mode in a successful answer is the new one.
  pub set_another_user_role-IsProper : IsProper (set_another_user_role d s t q)
  set_another_user_role-IsProper = carry_out-IsProper (plan_role d s t q) refl
