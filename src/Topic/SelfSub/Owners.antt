-- ===== src/Topic/SelfSub/Owners.antt =====
-- internal/server/topic_sub_self.go: the owner while subscribers change their own modes.
use server_chat.Common.{
  ℕ, bit_and, ◌≡◌, ◌⊎◌, refl, inl, inr, arith, Bool, true, false, not, ◌&&◌, ◌||◌, Bool-cases, ◌==◌,
  ==_iff, some, List, [], ◌∷◌,
}
use server_chat.Common.Bits.{◌&^◌}
use server_chat.Common.Result.{Result, ok, err}
use server_chat.Access.{is_owner, is_joiner}
use server_chat.Access.Flags.{has-bit_and, has-and_not}
use server_chat.Access.Mode
use server_chat.Access.Text.{ModeErr}
use server_chat.Topic.{Topic, PerUserData, user_data, set_user, mode, is_grp}
use server_chat.Topic.Ownership.{evict_user-IsOwned, IsOwned, set_user-IsOwned}
use server_chat.Topic.Roles.{member_mode}
use server_chat.Topic.SelfAccess.{SelfErr, Transition, plan_existing_self}
use server_chat.Topic.SelfAccess.Owner.{is_owner-bit_and, plan_existing_self-IsOwner}
use server_chat.Topic.SelfAccess.Grant.{plan_existing_self-given}
use server_chat.Topic.SelfSub.{
  changed, SelfServices, SelfRequest, Write, update_sub, owner_change, parse_want, readmit,
  with_modes, conclude, strip, change_owner, proceed, apply_transition, self_input, change_modes,
  self_sub, this_user_sub,
}

owner_owns : is_owner Mode.owner ≡ true
unfolding is_owner
owner_owns = refl

member_not_owner : is_owner (bit_and member_mode member_mode) ≡ false
unfolding is_owner
member_not_owner = refl

module _ (sv : SelfServices) (t : Topic) (q : SelfRequest) (pud : PerUserData) where
  conclude-IsOwned :
      (t1 : Topic) (tr : Transition) (writes : List Write)
      → IsOwned t1
      → (is_owner (bit_and tr.given tr.want) ≡ false) ⊎ (t1.owner ≡ q.uid)
      → IsOwned (conclude sv t q pud t1 tr writes).topic
  unfolding conclude
  conclude-IsOwned t1 tr writes owned new =
      let stored = set_user-IsOwned t1 q.uid (with_modes sv t q pud tr) owned new in
      elim (Bool-cases (is_joiner tr.want)) [
        | inl j ↦ rw j stored
        | inr j ↦ rw j (
            evict_user-IsOwned pud.is_chan
              (record t1 { per_user = set_user t1.per_user q.uid (with_modes sv t q pud tr) }) q.uid
              stored)
      ]

  stripped : (old : PerUserData) → is_owner (mode (strip sv t q pud old)) ≡ false
  unfolding is_owner
  stripped old = ground (
    arith,
    has-bit_and 7 (old.mode_given &^ Mode.owner) (old.mode_want &^ Mode.owner),
    has-and_not 7 old.mode_given Mode.owner,
    owner_owns,
  )

  -- Once the old owner has lost the permission, anybody may be the owner.
  handed_over :
      (uid : ℕ)
      → IsOwned t
      → IsOwned (record t {
        per_user = set_user t.per_user t.owner (strip sv t q pud (user_data t t.owner));
        owner = uid;
      })
  handed_over uid owned other = elim (Bool-cases (t.owner == other)) [
    | inl e ↦ inl (rw e (stripped (user_data t t.owner)))
    | inr e ↦ rw e (elim (owned other) [
      | inl n ↦ inl n
      | inr o ↦ absurd (let k = (==_iff t.owner other).1 o in cc)
    ])
  ]

  change_owner-IsOwned :
      (tr : Transition) (writes : List Write)
      → IsOwned t
      → IsOwned (change_owner sv t q pud tr writes).topic
  unfolding change_owner
  change_owner-IsOwned tr writes owned =
      let old = strip sv t q pud (user_data t t.owner) in
      elim (Bool-cases (sv.write (update_sub t.owner (some old.mode_want) (some old.mode_given)))) [
        | inr e ↦ rw e owned
        | inl e ↦ (elim (Bool-cases (sv.write (owner_change q.uid))) [
          | inr f ↦ rw (e, f) owned
          | inl f ↦ rw (e, f) (conclude-IsOwned _ tr _ (handed_over q.uid owned) (inr refl))
        ])
      ]

  -- A transition makes nobody an owner but the topic's, unless the ownership changes.
  abbrev IsHonest : Transition → Type 0
  IsHonest tr =
      (tr.owner_change ≡ true) ⊎ ((is_owner (bit_and tr.given tr.want) ≡ false) ⊎ (t.owner ≡ q.uid))

  proceed-IsOwned :
      (change : Bool) (tr : Transition) (writes : List Write)
      → IsOwned t
      → (change ≡ true) ⊎ ((is_owner (bit_and tr.given tr.want) ≡ false) ⊎ (t.owner ≡ q.uid))
      → IsOwned (proceed sv t q pud change tr writes).topic
  proceed-IsOwned true tr writes owned honest = change_owner-IsOwned tr writes owned
  proceed-IsOwned false tr writes owned (inl c) = cc
  proceed-IsOwned false tr writes owned (inr h) = conclude-IsOwned t tr writes owned h

  apply_transition-IsOwned :
      (tr : Transition) → IsOwned t → IsHonest tr → IsOwned (apply_transition sv t q pud tr).topic
  unfolding apply_transition
  apply_transition-IsOwned tr owned honest =
      let update =
        update_sub q.uid (changed pud.mode_want tr.want) (changed pud.mode_given tr.given) in
      elim (Bool-cases
        (q.sets_private || (not (tr.want == pud.mode_want) || not (tr.given == pud.mode_given)))) [
          | inr e ↦ rw e (proceed-IsOwned tr.owner_change tr [] owned honest)
          | inl e ↦ (elim (Bool-cases (sv.write update)) [
            | inl f ↦ rw (e, f) (proceed-IsOwned tr.owner_change tr (update ∷ []) owned honest)
            | inr f ↦ rw (e, f) owned
          ])
        ]

  plan-IsHonest :
      (requested : ℕ) (tr : Transition)
      → IsOwned t
      → t.per_user q.uid ≡ some pud
      → (is_joiner pud.mode_want ≡ true) ⊎ (is_owner pud.mode_given ≡ false)
      → plan_existing_self (self_input sv t q pud requested) ≡ ok tr
      → IsHonest tr
  plan-IsHonest requested tr owned there stays h =
      let i = self_input sv t q pud requested in
      let both = is_owner-bit_and tr.given tr.want in
      let mine : (is_owner (mode pud) ≡ false) ⊎ (t.owner ≡ q.uid) =
        (let m = owned q.uid in rw there at m) in
      elim (Bool-cases (is_owner pud.mode_given)) [
        | inr n ↦ inr (inl (ground (arith, both, (plan_existing_self-given i tr n h).0)))
        | inl y ↦ (elim (Bool-cases (is_owner (bit_and tr.given tr.want))) [
          | inr n ↦ inr (inl n)
          | inl o ↦ ground (arith, plan_existing_self-IsOwner i tr h o, mine, stays)
        ])
      ]

  change_modes-IsOwned :
      (requested : ℕ) (r : Result SelfErr Transition)
      → IsOwned t
      → t.per_user q.uid ≡ some pud
      → (is_joiner pud.mode_want ≡ true) ⊎ (is_owner pud.mode_given ≡ false)
      → plan_existing_self (self_input sv t q pud requested) ≡ r
      → IsOwned (change_modes sv t q pud r).topic
  unfolding change_modes
  change_modes-IsOwned requested (err e) owned there stays h = owned
  change_modes-IsOwned requested (ok tr) owned there stays h =
      apply_transition-IsOwned tr owned (plan-IsHonest requested tr owned there stays h)

  readmit-IsOwned : IsOwned t → IsOwned (readmit sv t q pud).topic
  unfolding readmit
  readmit-IsOwned owned = elim (Bool-cases sv.consume_invite) [
    | inr e ↦ rw e owned
    | inl e ↦
        (elim (Bool-cases (sv.write (update_sub q.uid (some member_mode) (some member_mode)))) [
          | inl f ↦
              rw (e, f)
                (set_user-IsOwned t q.uid
                  (record pud { mode_want = member_mode; mode_given = member_mode }) owned
                  (inl member_not_owner))
          | inr f ↦ rw (e, f) owned
        ])
  ]

  self_sub-IsOwned :
      (r : Result ModeErr ℕ)
      → IsOwned t
      → t.per_user q.uid ≡ some pud
      → (is_joiner pud.mode_want ≡ true) ⊎ (is_owner pud.mode_given ≡ false)
      → IsOwned (self_sub sv t q pud r).topic
  unfolding self_sub
  self_sub-IsOwned (err e) owned there stays = owned
  self_sub-IsOwned (ok requested) owned there stays =
      let planned =
        change_modes-IsOwned requested (plan_existing_self (self_input sv t q pud requested)) owned
          there stays refl in
      elim (Bool-cases ((q.has_invite && is_grp t.cat) && not sv.validate_invite)) [
        | inl e ↦ rw e owned
        | inr e ↦
            (elim (Bool-cases ((q.has_invite && is_grp t.cat) && not (is_joiner pud.mode_given))) [
              | inl f ↦ rw (e, f) (readmit-IsOwned owned)
              | inr f ↦ (elim (Bool-cases (not pud.is_chan && q.as_chan)) [
                | inl g ↦ rw (e, f, g) owned
                | inr g ↦ rw (e, f, g) planned
              ])
            ])
      ]

  -- If no user of a topic but its owner has the owner's permission, and the user who asks has
  -- joined the topic or is not offered it, then after a request for the own subscription, whatever
  -- the store and the invitation answer, no user but the owner, old or new, has the owner's
  -- permission.
  pub this_user_sub-IsOwned :
      IsOwned t
      → t.per_user q.uid ≡ some pud
      → (is_joiner pud.mode_want ≡ true) ⊎ (is_owner pud.mode_given ≡ false)
      → IsOwned (this_user_sub sv t q pud).topic
  this_user_sub-IsOwned owned there stays = self_sub-IsOwned (parse_want q.want) owned there stays
