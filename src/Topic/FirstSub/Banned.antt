-- ===== src/Topic/FirstSub/Banned.antt =====
-- internal/server/topic_sub_self.go: banned users who subscribe again.
use server_chat.Common.{
  ◌≡◌, ◌≢◌, ◌∙◌, refl, inl, inr, arith, true, false, Bool-cases, none, some, ◌==◌, ==_iff,
}
use server_chat.Common.Result.{ok, >>=-eq-ok, ok-injective}
use server_chat.Access.{is_joiner}
use server_chat.Access.Mode
use server_chat.Topic.{Topic, grp, is_grp}
use server_chat.Topic.FirstSub.{
  StoredSub, FirstRequest, Draft, draft_member, draft_for, check_group, save_draft, first_sub,
}
use server_chat.Topic.FirstSub.Newcomers.{check_group-passes, save_draft-passes}

module _ (q : FirstRequest) (sub : StoredSub) where
  draft_member-stored :
      {d : Draft}
      → sub.mode_given ≢ Mode.unset
      → draft_member q false none (ok (some sub)) ≡ ok d
      → d.user.mode_given ≡ sub.mode_given
  draft_member-stored set h =
      let e : (sub.mode_given == Mode.unset) ≡ false =
        ground (arith, ==_iff sub.mode_given Mode.unset) in
      rw (← ok-injective h) (rw e refl)

  -- Without an invitation a member has what the store has.
  draft_for-stored :
      (t : Topic) {d : Draft}
      → t.cat ≡ grp
      → q.as_chan ≡ false
      → q.stored ≡ ok (some sub)
      → sub.mode_given ≢ Mode.unset
      → q.has_invite ≡ false
      → draft_for q t.cat none ≡ ok d
      → d.user.mode_given ≡ sub.mode_given
  unfolding draft_for
  draft_for-stored t {d} cat member stored set alone h =
      let k : draft_member q false none (ok (some sub)) ≡ ok d =
        rw (cat, member, alone, stored) at h in
      draft_member-stored set k

  -- If a user who is not in the cache of a group, and not a reader of its channel, has a stored
  -- subscription whose given mode is set and without the permission to join, then a successful
  -- request to subscribe has an invitation that is valid and whose use was granted.
  pub first_sub-banned :
      (t : Topic) {t1 : Topic}
      → t.cat ≡ grp
      → q.as_chan ≡ false
      → t.per_user q.uid ≡ none
      → q.stored ≡ ok (some sub)
      → sub.mode_given ≢ Mode.unset
      → is_joiner sub.mode_given ≡ false
      → first_sub q t ≡ ok t1
      → (q.has_invite ≡ true) × (q.validate_invite ≡ true) × (q.consume_invite ≡ true)
  unfolding first_sub
  first_sub-banned t cat member absent stored set out h =
      let (found, check, h1) = >>=-eq-ok (check_group q t) _ h in
      let (same, invite) = check_group-passes q t check in
      let (d, draft, h2) = >>=-eq-ok (draft_for q t.cat found) _ h1 in
      let (pud, save, h3) = >>=-eq-ok (save_draft q d) _ h2 in
      let (joins, given) = save_draft-passes q d save in
      let nothing : found ≡ none = same ∙ absent in
      let group : is_grp t.cat ≡ true = rw cat refl in
      elim (Bool-cases q.has_invite) [
        | inl e ↦ (e, ground arith, ground arith)
        | inr e ↦
            let g = draft_for-stored t cat member stored set e (rw nothing at draft) in
            absurd (let k = rw (given, g) at joins in cc)
      ]
