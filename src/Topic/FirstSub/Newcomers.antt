-- ===== src/Topic/FirstSub/Newcomers.antt =====
-- internal/server/topic_sub_self.go: what a newcomer to a topic is given.
use server_chat.Common.{
  ℕ, ◌≡◌, ◌⊎◌, refl, sym, inl, inr, arith, Bool, true, false, not, ◌&&◌, Bool-cases, Option, none,
  some, if◌then◌else◌,
}
use server_chat.Common.Result.{Result, ok, err, >>=-eq-ok, ok-injective}
use server_chat.Access.{is_joiner, is_owner}
use server_chat.Access.Mode
use server_chat.Topic.{
  Topic, TopicCat, me, fnd, p2p, grp, sys, slf, PerUserData, or_no_data, is_grp, set_user,
}
use server_chat.Topic.Roles.{member_mode}
use server_chat.Topic.Store.{StoreErr}
use server_chat.Topic.Ownership.{evict_user-IsOwned, IsOwned, set_user-IsOwned}
use server_chat.Topic.SelfAccess.Owner.{is_owner-bit_and}
use server_chat.Topic.FirstSub.{
  StoredSub, FirstRequest, Draft, draft_p2p, draft_sys, draft_reader, member_data, draft_member,
  draft_for, check_group, save_draft, restored, with_newcomer, first_sub,
}

-- What the store has given the user.
abbrev pub given_stored : Result StoreErr (Option StoredSub) → ℕ
given_stored (ok (some sub)) = sub.mode_given
given_stored _ = Mode.no_access

plain_member : is_owner member_mode ≡ false
unfolding is_owner
plain_member = refl

plain_sys : is_owner Mode.c_sys ≡ false
unfolding is_owner
plain_sys = refl

plain_unset : is_owner Mode.unset ≡ false
unfolding is_owner
plain_unset = refl

plain_reader : is_owner Mode.c_chn_reader ≡ false
unfolding is_owner
plain_reader = refl

module _ (q : FirstRequest) where
  -- Nobody gives the owner's permission to the user: not the topic's default, not the store and not
  -- the cache.
  abbrev pub IsPlain : Option PerUserData → Type 0
  IsPlain found =
      (is_owner q.default_access ≡ false)
      × (is_owner (given_stored q.stored) ≡ false)
      × (is_owner (or_no_data found).mode_given ≡ false)

  -- A member is invited, or has what was given before, or the default.
  member_data-given :
      (pud : PerUserData) (given : ℕ) (invited : Bool)
      → ((member_data q pud given invited).mode_given ≡ member_mode)
        ⊎ (((member_data q pud given invited).mode_given ≡ given)
            ⊎ ((given ≡ Mode.unset)
                × ((member_data q pud given invited).mode_given ≡ q.default_access)))
  member_data-given pud given true = inl refl
  member_data-given pud given false = ground arith

  member_data-plain :
      (pud : PerUserData) (given : ℕ) (invited : Bool)
      → is_owner q.default_access ≡ false
      → is_owner given ≡ false
      → is_owner (member_data q pud given invited).mode_given ≡ false
  member_data-plain pud given invited h k = elim (member_data-given pud given invited) [
    | inl e ↦ rw e plain_member
    | inr (inr (u, e)) ↦ rw e h
    | inr (inl e) ↦ rw e k
  ]

  draft_member-plain :
      (invited : Bool) (found : Option PerUserData) (stored : Result StoreErr (Option StoredSub))
      {d : Draft}
      → is_owner q.default_access ≡ false
      → is_owner (given_stored stored) ≡ false
      → is_owner (or_no_data found).mode_given ≡ false
      → draft_member q invited found stored ≡ ok d
      → is_owner d.user.mode_given ≡ false
  draft_member-plain invited (some pud) stored h k l e =
      rw (← ok-injective e) (member_data-plain pud pud.mode_given invited h l)
  draft_member-plain invited none (err x) h k l e = cc
  draft_member-plain invited none (ok none) h k l e =
      rw (← ok-injective e) (member_data-plain (or_no_data none) Mode.unset invited h plain_unset)
  draft_member-plain invited none (ok (some sub)) h k l e =
      rw (← ok-injective e) (member_data-plain (or_no_data none) sub.mode_given invited h k)

  draft_reader-plain :
      (pud : PerUserData) (stored : Result StoreErr (Option StoredSub)) {d : Draft}
      → is_owner (given_stored stored) ≡ false
      → draft_reader q pud stored ≡ ok d
      → is_owner d.user.mode_given ≡ false
  draft_reader-plain pud (err x) k e = cc
  draft_reader-plain pud (ok none) k e = rw (← ok-injective e) plain_reader
  draft_reader-plain pud (ok (some sub)) k e = rw (← ok-injective e) k

  draft_sys-plain :
      (pud : PerUserData) {d : Draft} → draft_sys q pud ≡ ok d → is_owner d.user.mode_given ≡ false
  unfolding draft_sys
  draft_sys-plain pud e = elim (Bool-cases q.is_root) [
    | inr r ↦ absurd (let m = rw r at e in cc)
    | inl r ↦ let m = rw r at e in rw (← ok-injective m) plain_sys
  ]

  -- The rest of the categories.
  draft_joined-plain :
      (invited : Bool) (found : Option PerUserData) {d : Draft}
      → IsPlain found
      → (if q.as_chan
          then draft_reader q (or_no_data found) q.stored
          else draft_member q invited found q.stored)
        ≡ ok d
      → is_owner d.user.mode_given ≡ false
  draft_joined-plain invited found (h, k, l) e = elim (Bool-cases q.as_chan) [
    | inl c ↦ draft_reader-plain (or_no_data found) q.stored k (rw c at e)
    | inr c ↦ draft_member-plain invited found q.stored h k l (rw c at e)
  ]

  draft_for-plain :
      (cat : TopicCat) (found : Option PerUserData) {d : Draft}
      → IsPlain found
      → draft_for q cat found ≡ ok d
      → is_owner d.user.mode_given ≡ false
  unfolding draft_for draft_p2p
  draft_for-plain p2p found (h, k, l) e = rw (← ok-injective e) l
  draft_for-plain sys found h e = draft_sys-plain (or_no_data found) e
  draft_for-plain me found h e = draft_joined-plain _ found h e
  draft_for-plain fnd found h e = draft_joined-plain _ found h e
  draft_for-plain grp found h e = draft_joined-plain _ found h e
  draft_for-plain slf found h e = draft_joined-plain _ found h e

  restored-given : (pud : PerUserData) → (restored q pud).mode_given ≡ pud.mode_given
  restored-given pud = ground arith

  pub save_draft-passes :
      (d : Draft) {pud : PerUserData}
      → save_draft q d ≡ ok pud
      → (is_joiner pud.mode_given ≡ true) × (pud.mode_given ≡ d.user.mode_given)
  unfolding save_draft
  save_draft-passes d {pud} e =
      let same : restored q d.user ≡ pud = ground arith in
      let joins : is_joiner d.user.mode_given ≡ true = ground arith in
      let g : pud.mode_given ≡ d.user.mode_given = rw (← same) (restored-given d.user) in
      (rw g joins, g)

  with_newcomer-IsOwned :
      (t : Topic) (pud : PerUserData)
      → IsOwned t
      → is_owner pud.mode_given ≡ false
      → IsOwned (with_newcomer q t pud)
  unfolding with_newcomer
  with_newcomer-IsOwned t pud owned plain =
      evict_user-IsOwned (not (is_joiner pud.mode_want) && pud.is_chan)
        (record t { per_user = set_user t.per_user q.uid pud }) q.uid
        (set_user-IsOwned t q.uid pud owned
          (inl (ground (arith, is_owner-bit_and pud.mode_given pud.mode_want))))

  -- The guards on a group leave the user's data as they are, and an invitation that is used is valid.
  pub check_group-passes :
      (t : Topic) {found : Option PerUserData}
      → check_group q t ≡ ok found
      → (found ≡ t.per_user q.uid)
        × (((is_grp t.cat && q.has_invite) ≡ false)
            ⊎ ((q.validate_invite ≡ true) × (q.consume_invite ≡ true)))
  unfolding check_group
  check_group-passes t {found} h =
      let same : t.per_user q.uid ≡ found = ground arith in (sym same, ground arith)

  -- If no user of a topic but its owner has the owner's permission, and the default access, the
  -- store and the cache do not give it to a user, then this still holds after the user has
  -- subscribed.
  pub first_sub-IsOwned :
      (t : Topic) {t1 : Topic}
      → IsOwned t
      → IsPlain (t.per_user q.uid)
      → first_sub q t ≡ ok t1
      → IsOwned t1
  unfolding first_sub
  first_sub-IsOwned t owned plain h =
      let (found, check, h1) = >>=-eq-ok (check_group q t) _ h in
      let (same, invite) = check_group-passes t check in
      let (d, draft, h2) = >>=-eq-ok (draft_for q t.cat found) _ h1 in
      let (pud, save, h3) = >>=-eq-ok (save_draft q d) _ h2 in
      let (joins, given) = save_draft-passes d save in
      let plain_given : is_owner d.user.mode_given ≡ false =
        draft_for-plain t.cat found (rw same plain) draft in
      rw (← ok-injective h3) (with_newcomer-IsOwned t pud owned (rw given plain_given))
