-- ===== src/Topic/RoleChange/Outcome.antt =====
-- internal/server/topic_roles.go: what each answer means for the subscriptions of the target.
use server_chat.Common.{ℕ, ◌≡◌, ◌⊎◌, Bool, true, false, Option, none, some}
use server_chat.Common.Result.{Result, ok, err}
use server_chat.Topic.{Topic, PerUserData}
use server_chat.Topic.RoleChange.{RoleRequest, ChangeErr}
use server_chat.Topic.RoleChange.Apply.{RoleChange}
use server_chat.Topic.RoleChange.Effect.{IsSole, Keeps, IsTorn}
use server_chat.Topic.Subs.{Subscription, SubStore, Roster}

-- A user in the cache has the row of the kind that the cache says and no other, another user has at
-- most one row, and only a channel has readers.
abbrev pub IsKnown : Roster → ℕ → Bool → Option PerUserData → Type 0
IsKnown rows uid is_chan none =
    ((rows false uid ≡ none) ⊎ (rows true uid ≡ none)) × ((rows true uid ≡ none) ⊎ (is_chan ≡ true))
IsKnown rows uid is_chan (some pud) = (sub : Subscription) × IsSole rows uid pud.is_chan sub

module _ (d : SubStore) (s : d.State) (t : Topic) (q : RoleRequest) where
  -- After an error the topic is as it was, and the target has what it had, or both subscriptions. After
  -- a success the target has the mode in one place only.
  abbrev pub IsSettled : RoleChange d → Result ChangeErr (Option ℕ) → Type 0
  IsSettled r (err e) =
      (r.topic ≡ t)
      × (Keeps (d.rows s) (d.rows r.state) q.target ⊎ IsTorn (d.rows r.state) q.target)
  IsSettled r (ok none) = (r.topic ≡ t) × Keeps (d.rows s) (d.rows r.state) q.target
  IsSettled r (ok (some mode)) =
      (chan : Bool) × IsSole (d.rows r.state) q.target chan
        (record { mode_want = mode; mode_given = mode })
