-- ===== src/Topic/OtherSub/Grants.antt =====
-- internal/server/topic_sub_other.go: what is given to another user.
use server_chat.Common.{
  ℕ, bit_or, ◌≡◌, ◌≢◌, ◌⊎◌, refl, inl, inr, arith, Bool, true, false, not, ◌&&◌, ◌||◌, Bool-cases,
  ◌==◌, ==_iff,
}
use server_chat.Common.Bits.{◌&^◌}
use server_chat.Common.Result.{Result, ok, err, >>=-eq-ok, ok-injective}
use server_chat.Access.{is_joiner, is_owner, is_admin, is_sharer, better_equal}
use server_chat.Access.Mode
use server_chat.Access.Text.{ModeErr}
use server_chat.Topic.{Topic, PerUserData, user_data, is_read_only, is_grp}
use server_chat.Topic.OtherSub.{
  OtherRequest, parse_given, host_mode, check_given, requested_given, check_host, invited_want,
  default_given, new_data, invite, regrant, is_subscriber, change_data, with_data, another_user_sub,
}

module _ (t : Topic) (q : OtherRequest) where
  -- The actor may give the mode to somebody, where a mode is given.
  abbrev pub IsWithin : ℕ → Type 0
  IsWithin given =
      (is_admin (host_mode t q) ≡ true)
      × ((t.owner ≡ q.actor)
          ⊎ ((is_owner given ≡ false)
              × (better_equal (host_mode t q) (given &^ Mode.owner) ≡ true)))

  requested_given-IsWithin :
      (r : Result ModeErr ℕ) (given : ℕ)
      → requested_given t q r ≡ ok given
      → (given ≡ Mode.unset) ⊎ IsWithin given
  unfolding check_given
  requested_given-IsWithin (err e) given h = cc
  requested_given-IsWithin (ok requested) given h =
      let e : requested ≡ given = ground arith in
      rw (← e) (ground (arith, ==_iff requested Mode.unset, ==_iff t.owner q.actor))

  check_host-passes :
      (given : ℕ)
      → check_host t q ≡ ok given
      → (is_sharer (host_mode t q) ≡ true)
        × (is_read_only t ≡ false)
        × ((given ≡ Mode.unset) ⊎ IsWithin given)
  unfolding check_host
  check_host-passes given h =
      let k : requested_given t q (parse_given t.cat q.p2p_access q.mode) ≡ ok given =
        ground arith in
      (ground arith, ground arith, requested_given-IsWithin _ given k)

  -- What a subscriber is given after the request, in terms of what was requested.
  regrant-passes :
      (old : PerUserData) (requested : ℕ) {pud : PerUserData}
      → regrant t q old requested ≡ ok pud
      → (pud.mode_want ≡ old.mode_want)
        × ((pud.mode_given ≡ old.mode_given)
            ⊎ ((pud.mode_given ≡ requested)
                × (requested ≢ Mode.unset)
                × (((t.owner == q.target) ≡ false)
                    ⊎ ((is_owner requested ≡ true) × (is_joiner requested ≡ true)))))
  unfolding regrant
  regrant-passes old requested {pud} h =
      elim (Bool-cases (requested == Mode.unset || requested == old.mode_given)) [
        | inl e ↦ let same : old ≡ pud = (let k = rw e at h in cc) in rw (← same) (refl, inl refl)
        | inr e ↦
            let same : record old { mode_given = requested } ≡ pud =
              (let k = rw e at h in ground arith) in
            let set : requested ≢ Mode.unset = ground (arith, ==_iff requested Mode.unset) in
            rw (← same) (refl, inr (refl, set, ground arith))
      ]

  invite-passes :
      (requested : ℕ) {pud : PerUserData}
      → invite t q requested ≡ ok pud
      → pud.mode_given ≡ default_given t q requested
  unfolding invite
  invite-passes requested {pud} h =
      elim (Bool-cases (is_grp t.cat && (not q.is_large && q.is_full))) [
        | inl e ↦ absurd (let k = rw e at h in cc)
        | inr e ↦
            let (want, w, k) =
              >>=-eq-ok (invited_want t q q.stored_want (default_given t q requested)) _
                (rw e at h) in
            let same : new_data t q want (default_given t q requested) ≡ pud = ground arith in
            rw (← same) refl
      ]

  abbrev subscribed : Bool
  subscribed = is_subscriber t q (t.per_user q.target)

  -- The topic with the new data of the target, and what the actor may do.
  pub record IsPermitted (t1 : Topic) : Type 0 where
    pub data_new : PerUserData
    pub topic_new : t1 ≡ with_data t q data_new
    pub sharer : is_sharer (host_mode t q) ≡ true
    pub writable : is_read_only t ≡ false
    -- The target has what it had, or the default access, or a mode that the actor may give.
    pub given :
        ((subscribed ≡ true) × (data_new.mode_given ≡ (user_data t q.target).mode_given))
        ⊎ (((subscribed ≡ false) × (data_new.mode_given ≡ bit_or q.auth_access Mode.join))
            ⊎ IsWithin data_new.mode_given)
    pub want_kept : (subscribed ≡ false) ⊎ (data_new.mode_want ≡ (user_data t q.target).mode_want)
    -- The owner stays the owner, and in the topic.
    pub owner_kept :
        (subscribed ≡ false)
        ⊎ ((data_new.mode_given ≡ (user_data t q.target).mode_given)
            ⊎ (((t.owner == q.target) ≡ false)
                ⊎ ((is_owner data_new.mode_given ≡ true) × (is_joiner data_new.mode_given ≡ true))))

  regranted :
      (requested : ℕ) {pud : PerUserData}
      → check_host t q ≡ ok requested
      → subscribed ≡ true
      → regrant t q (user_data t q.target) requested ≡ ok pud
      → IsPermitted (with_data t q pud)
  regranted requested {pud} host e change =
      let (share, write, within) = check_host-passes requested host in
      let (want, given) = regrant-passes (user_data t q.target) requested change in
      record {
        data_new = pud;
        topic_new = refl;
        sharer = share;
        writable = write;
        given = elim given [
          | inl same ↦ inl (e, same)
          | inr (new, set, o) ↦ elim within [
            | inl unset ↦ absurd (set unset)
            | inr w ↦ inr (inr (rw new w))
          ]
        ];
        want_kept = inr want;
        owner_kept = elim given [
          | inl same ↦ inr (inl same)
          | inr (new, set, o) ↦ inr (inr (rw new o))
        ];
      }

  invited :
      (requested : ℕ) {pud : PerUserData}
      → check_host t q ≡ ok requested
      → subscribed ≡ false
      → invite t q requested ≡ ok pud
      → IsPermitted (with_data t q pud)
  invited requested {pud} host e change =
      let (share, write, within) = check_host-passes requested host in
      let new = invite-passes requested change in
      record {
        data_new = pud;
        topic_new = refl;
        sharer = share;
        writable = write;
        given = elim (Bool-cases (requested == Mode.unset)) [
          | inl unset ↦ inr (inl (e, rw unset at new))
          | inr set ↦ elim within [
            | inl u ↦ absurd (let k = (==_iff requested Mode.unset).1 u in cc)
            | inr w ↦ let k = rw set at new in inr (inr (rw k w))
          ]
        ];
        want_kept = inl e;
        owner_kept = inl e;
      }

  permitted :
      (requested : ℕ) {pud : PerUserData}
      → check_host t q ≡ ok requested
      → change_data t q (t.per_user q.target) requested ≡ ok pud
      → IsPermitted (with_data t q pud)
  unfolding change_data
  permitted requested host change = elim (Bool-cases subscribed) [
    | inl e ↦ regranted requested host e (rw e at change)
    | inr e ↦ invited requested host e (rw e at change)
  ]

  -- If a request for the subscription of another user succeeds, then the actor may share the topic,
  -- which is not read-only; what the target is given is as it was, or the default access with the
  -- permission to join for a new subscriber, or a mode that an admin gives, who owns the topic or
  -- gives no more than the own mode and not the owner's permission; a subscriber's wanted mode is
  -- as it was; and the owner keeps the permissions to own and to join, if the given mode changes.
  pub another_user_sub-IsPermitted : {t1 : Topic} → another_user_sub t q ≡ ok t1 → IsPermitted t1
  unfolding another_user_sub
  another_user_sub-IsPermitted {t1} h =
      let (requested, host, h1) = >>=-eq-ok (check_host t q) _ h in
      let (pud, change, h2) = >>=-eq-ok (change_data t q (t.per_user q.target) requested) _ h1 in
      rw (← ok-injective h2) (permitted requested host change)
