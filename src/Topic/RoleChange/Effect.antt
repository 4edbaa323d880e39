-- ===== src/Topic/RoleChange/Effect.antt =====
-- internal/server/topic_roles.go: the rows of the target while a role is stored.
use server_chat.Common.{
  ℕ, ◌≡◌, ◌⊎◌, ◌∙◌, refl, sym, ap, inl, inr, Bool, true, false, not, ◌&&◌, Bool-cases, ◌==◌, ==_iff,
  Option, none, some,
}
use server_chat.Topic.Roles.{TopicRoleAccess}
use server_chat.Topic.RoleChange.{
  RoleRequest, ChangeErr, Current, Account, active, inactive, missing, unreadable, role_sub,
}
use server_chat.Topic.RoleChange.Apply.{wrote, create_for, place_new, leave, move, place}
use server_chat.Topic.Subs.{Subscription, SubStore, Roster, same_kind, with_row, updated}

==-refl : (n : ℕ) → (n == n) ≡ true
==-refl n = (==_iff n n).1 refl

pub with_row-hit :
    (rows : Roster) (chan : Bool) (uid : ℕ) (row : Option Subscription)
    → with_row rows chan uid row chan uid ≡ row
with_row-hit rows true uid row = rw (==-refl uid) refl
with_row-hit rows false uid row = rw (==-refl uid) refl

pub with_row-miss :
    (rows : Roster) (chan : Bool) (uid : ℕ) (row : Option Subscription)
    → with_row rows chan uid row (not chan) uid ≡ rows (not chan) uid
with_row-miss rows true uid row = refl
with_row-miss rows false uid row = refl

same_kind-cases :
    (a b : Bool) → ((same_kind a b ≡ true) × (a ≡ b)) ⊎ ((same_kind a b ≡ false) × (a ≡ not b))
same_kind-cases true true = inl (refl, refl)
same_kind-cases true false = inr (refl, refl)
same_kind-cases false true = inr (refl, refl)
same_kind-cases false false = inl (refl, refl)

-- The target has this row of this kind, and none of the other kind.
abbrev pub IsSole : Roster → ℕ → Bool → Subscription → Type 0
IsSole rows uid chan sub = (rows chan uid ≡ some sub) × (rows (not chan) uid ≡ none)

-- What the code has found about a user is what the rows say.
abbrev pub IsFound : Roster → ℕ → Option Current → Type 0
IsFound rows uid none = (rows false uid ≡ none) × (rows true uid ≡ none)
IsFound rows uid (some c) = (sub : Subscription) × IsSole rows uid c.in_channel sub

abbrev pub Keeps : Roster → Roster → ℕ → Type 0
Keeps old new uid = (new false uid ≡ old false uid) × (new true uid ≡ old true uid)

abbrev pub IsTorn : Roster → ℕ → Type 0
IsTorn rows uid =
    ((a : Subscription) × (rows false uid ≡ some a))
    × ((b : Subscription) × (rows true uid ≡ some b))

module _ (d : SubStore) (s : d.State) (q : RoleRequest) (r : TopicRoleAccess) where
  -- The outcome of the writes, with or without an error.
  abbrev pub IsPlaced : d.State × Option ChangeErr → Type 0
  IsPlaced (s1, none) = IsSole (d.rows s1) q.target r.channel_sub (role_sub r)
  IsPlaced (s1, some e) = Keeps (d.rows s) (d.rows s1) q.target ⊎ IsTorn (d.rows s1) q.target

  create-IsPlaced :
      (rows_other : d.rows s (not r.channel_sub) q.target ≡ none)
      → IsPlaced (wrote d (d.create s r.channel_sub q.target (role_sub r)))
  create-IsPlaced other =
      let x = d.create s r.channel_sub q.target (role_sub r) in
      elim (Bool-cases x.1) [
        | inl e ↦
            rw (e, d.create_ok s _ _ _ e)
              (
                with_row-hit (d.rows s) r.channel_sub q.target _,
                with_row-miss (d.rows s) r.channel_sub q.target _ ∙ other,
              )
        | inr e ↦ rw (e, d.create_err s _ _ _ e) (inl (refl, refl))
      ]

  update-IsPlaced :
      (old : Subscription)
      → IsSole (d.rows s) q.target r.channel_sub old
      → IsPlaced (wrote d (d.update s r.channel_sub q.target (role_sub r)))
  update-IsPlaced old (here, other) =
      let x = d.update s r.channel_sub q.target (role_sub r) in
      elim (Bool-cases x.1) [
        | inl e ↦
            rw (e, d.update_ok s _ _ _ e)
              (
                with_row-hit (d.rows s) r.channel_sub q.target _
                    ∙ ap (λ row. updated row (role_sub r)) here,
                with_row-miss (d.rows s) r.channel_sub q.target _ ∙ other,
              )
        | inr e ↦ rw (e, d.update_err s _ _ _ e) (inl (refl, refl))
      ]

  create_for-IsPlaced :
      (a : Account)
      → d.rows s (not r.channel_sub) q.target ≡ none
      → IsPlaced (create_for d s q.target r a)
  unfolding create_for
  create_for-IsPlaced unreadable h = inl (refl, refl)
  create_for-IsPlaced missing h = inl (refl, refl)
  create_for-IsPlaced inactive h = inl (refl, refl)
  create_for-IsPlaced active h = create-IsPlaced h

  place_new-IsPlaced : IsFound (d.rows s) q.target none → IsPlaced (place_new d s q r)
  unfolding place_new
  place_new-IsPlaced none_there = elim (Bool-cases (not r.channel_sub && q.is_full)) [
    | inl e ↦ rw e (inl (refl, refl))
    | inr e ↦ rw e (create_for-IsPlaced q.account (absent r.channel_sub))
  ]
    where
      absent : (chan : Bool) → d.rows s (not chan) q.target ≡ none
      absent true = none_there.0
      absent false = none_there.1

  abbrev with_new : Bool → Roster
  with_new chan = with_row (d.rows s) chan q.target (some (role_sub r))

  -- The rows while the target has both subscriptions, and after one of them went.
  both :
      (old : Subscription) (chan : Bool)
      → IsSole (d.rows s) q.target (not chan) old
      → IsTorn (with_new chan) q.target
  both old true (here, other) = ((old, here), (role_sub r, with_row-hit (d.rows s) true q.target _))
  both old false (here, other) =
      ((role_sub r, with_row-hit (d.rows s) false q.target _), (old, here))

  taken_back :
      (old : Subscription) (chan : Bool)
      → IsSole (d.rows s) q.target (not chan) old
      → Keeps (d.rows s) (with_row (with_new chan) chan q.target none) q.target
  taken_back old true (here, other) =
      (refl, with_row-hit (with_new true) true q.target none ∙ sym other)
  taken_back old false (here, other) =
      (with_row-hit (with_new false) false q.target none ∙ sym other, refl)

  moved :
      (chan : Bool)
      → IsSole (with_row (with_new chan) (not chan) q.target none) q.target chan (role_sub r)
  moved true =
      (with_row-hit (d.rows s) true q.target _, with_row-hit (with_new true) false q.target none)
  moved false =
      (with_row-hit (d.rows s) false q.target _, with_row-hit (with_new false) true q.target none)

  leave-IsPlaced :
      (old : Subscription) (s1 : d.State)
      → IsSole (d.rows s) q.target (not r.channel_sub) old
      → d.rows s1 ≡ with_row (d.rows s) r.channel_sub q.target (some (role_sub r))
      → IsPlaced (leave d q.target r.channel_sub (d.delete s1 (not r.channel_sub) q.target))
  unfolding leave
  leave-IsPlaced old s1 sole created =
      let x = d.delete s1 (not r.channel_sub) q.target in
      let y = d.delete x.0 r.channel_sub q.target in
      elim (Bool-cases x.1) [
        | inl e ↦ rw (e, d.delete_ok s1 _ _ e, created) (moved r.channel_sub)
        | inr e ↦ (elim (Bool-cases y.1) [
          | inl f ↦
              rw (e, d.delete_ok x.0 _ _ f, d.delete_err s1 _ _ e, created)
                (inl (taken_back old r.channel_sub sole))
          | inr f ↦
              rw (e, d.delete_err x.0 _ _ f, d.delete_err s1 _ _ e, created)
                (inr (both old r.channel_sub sole))
        ])
      ]

  move-IsPlaced :
      (old : Subscription) (c : Current)
      → c.in_channel ≡ not r.channel_sub
      → IsSole (d.rows s) q.target (not r.channel_sub) old
      → IsPlaced (move d s q.target r c)
  unfolding move
  move-IsPlaced old c k sole =
      let x = d.create s r.channel_sub q.target (role_sub r) in
      elim (Bool-cases x.1) [
        | inl e ↦ rw (e, k) (leave-IsPlaced old x.0 sole (d.create_ok s _ _ _ e))
        | inr e ↦ rw (e, d.create_err s _ _ _ e) (inl (refl, refl))
      ]

  pub place-IsPlaced :
      (current : Option Current)
      → IsFound (d.rows s) q.target current
      → IsPlaced (place d s q r current)
  unfolding place
  place-IsPlaced none found = place_new-IsPlaced found
  place-IsPlaced (some c) (old, sole) = elim (same_kind-cases c.in_channel r.channel_sub) [
    | inl (e, k) ↦ rw e (update-IsPlaced old (rw (← k) sole))
    | inr (e, k) ↦ rw e (move-IsPlaced old c k (rw (← k) sole))
  ]
