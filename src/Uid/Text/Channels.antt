-- ===== src/Uid/Text/Channels.antt =====
-- server/store/types/uid.go: the names of groups and of their channels.
use server_chat.Common.{◌≡◌, refl, inl, inr, some, [], ◌∷◌, ◌++◌, Option-cases, arith}
use server_chat.Common.Bytes.{Bytes, codes}
use server_chat.Uid.Text.{cut_prefix, grp_to_chn, chn_to_grp}

pub append-cut_prefix :
    (prefix s rest : Bytes) → cut_prefix prefix s ≡ some rest → s ≡ prefix ++ rest
unfolding cut_prefix
append-cut_prefix [] s rest h = ground arith
append-cut_prefix (p ∷ prefix) [] rest h = cc
append-cut_prefix (p ∷ prefix) (c ∷ s) rest h = ground (arith, append-cut_prefix prefix s rest)

-- To a channel and back, and back and to a channel: as one way alone.
pub names_agree :
    (name : Bytes)
    → (chn_to_grp (grp_to_chn name) ≡ chn_to_grp name)
      × (grp_to_chn (chn_to_grp name) ≡ grp_to_chn name)
unfolding grp_to_chn chn_to_grp cut_prefix
names_agree name = elim (Option-cases (cut_prefix (codes "grp") name)) [
  | inl g ↦ elim (Option-cases (cut_prefix (codes "chn") name)) [
    | inl c ↦ rw (g, c) (refl, refl)
    | inr (rest, c) ↦ rw (append-cut_prefix (codes "chn") name rest c) (refl, refl)
  ]
  | inr (rest, g) ↦ rw (append-cut_prefix (codes "grp") name rest g) (refl, refl)
]
