-- ===== src/Uid/Slice.antt =====
-- server/store/types/uid.go: slices of ids in ascending order.
pub mod Find
pub mod Change
pub mod Refinement
use server_chat.Common.{
  ℕ, zero, suc, ◌-◌, Bool, true, false, not, ◌&&◌, ◌||◌, List, [], ◌∷◌, ◌++◌, ◌==◌, ltb, leb,
  length, take, from_index, set, if◌then◌else◌,
}
use server_chat.Common.Search.{search}

-- `us[i]`, at an index in range.
abbrev pub at : List ℕ → ℕ → ℕ
at [] i = 0
at (u ∷ us) zero = u
at (u ∷ us) (suc i) = at us i

unfoldable pub found_at : List ℕ → ℕ → ℕ → ℕ × Bool
found_at us uid idx = (idx, ltb idx (length us) && at us idx == uid)

-- find
unfoldable pub find : List ℕ → ℕ → ℕ × Bool
unfolding found_at search
find us uid =
    if length us == 0
    then (0, false)
    else if ltb uid (at us 0)
    then (0, false)
    else if ltb (at us (length us - 1)) uid
    then (length us, false)
    else found_at us uid (search (length us) (λ i. leb uid (at us i)))

-- The slice after `append` of a zero, and the `copy` of what stands from `idx` on by one place.
abbrev pub moved : List ℕ → ℕ → List ℕ
moved us idx =
    take (suc idx) (us ++ 0 ∷ []) ++ take (length us - idx) (from_index idx (us ++ 0 ∷ []))

abbrev pub add_at : List ℕ → ℕ → ℕ × Bool → List ℕ × Bool
add_at us uid (idx, true) = (us, false)
add_at us uid (idx, false) = (set (moved us idx) idx uid, true)

-- Add
unfoldable pub add : List ℕ → ℕ → List ℕ × Bool
unfolding find
add us uid = add_at us uid (find us uid)

abbrev pub rem_at : List ℕ → ℕ × Bool → List ℕ × Bool
rem_at us (idx, false) = (us, false)
rem_at us (idx, true) =
    if idx == length us - 1
    then (take idx us, true)
    else (take idx us ++ from_index (suc idx) us, true)

-- Rem
unfoldable pub rem : List ℕ → ℕ → List ℕ × Bool
unfolding find
rem us uid = rem_at us (find us uid)

-- Contains
unfoldable pub contains : List ℕ → ℕ → Bool
unfolding find
contains us uid = (find us uid).1
