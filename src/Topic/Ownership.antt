-- ===== src/Topic/Ownership.antt =====
-- internal/server/topic.go: the owner among the subscribers of a topic.
use server_chat.Common.{ℕ, Bool, true, ◌≡◌, ◌⊎◌, refl, inl, inr, false, Bool-cases, ◌==◌, ==_iff}
use server_chat.Access.{is_owner}
use server_chat.Topic.{evict_user, Topic, PerUserData, user_data, set_user, remove_user, mode}

-- No user but the owner has the owner's permission.
abbrev pub IsOwned : Topic → Type 0
IsOwned t = (uid : ℕ) → (is_owner (mode (user_data t uid)) ≡ false) ⊎ (t.owner ≡ uid)

pub set_user-IsOwned :
    (t : Topic) (uid : ℕ) (pud : PerUserData)
    → IsOwned t
    → (is_owner (mode pud) ≡ false) ⊎ (t.owner ≡ uid)
    → IsOwned (record t { per_user = set_user t.per_user uid pud })
set_user-IsOwned t uid pud owned new other = elim (Bool-cases (uid == other)) [
  | inl e ↦ let q : uid ≡ other = (==_iff uid other).0 e in rw (e, ← q) new
  | inr e ↦ rw e (owned other)
]

remove_user-IsOwned :
    (t : Topic) (uid : ℕ) → IsOwned t → IsOwned (record t { per_user = remove_user t.per_user uid })
unfolding is_owner
remove_user-IsOwned t uid owned other = elim (Bool-cases (uid == other)) [
  | inl e ↦ inl (rw e refl)
  | inr e ↦ rw e (owned other)
]

pub evict_user-IsOwned :
    (gone : Bool) (t : Topic) (uid : ℕ)
    → IsOwned t
    → IsOwned (record t { per_user = evict_user gone t.per_user uid })
evict_user-IsOwned true t uid owned = remove_user-IsOwned t uid owned
evict_user-IsOwned false t uid owned = owned
