-- ===== src/Uid/Slice/Find.antt =====
-- server/store/types/uid.go: the place that `find` gives, against a plain pass over the slice.
use server_chat.Common.{
  ℕ, zero, suc, ◌≤◌, ◌<◌, ◌≡◌, refl, Bool, false, ◌&&◌, ◌||◌, List, [], ◌∷◌, ◌==◌, ltb, leb, length,
  All, inl, inr, Bool-cases, arith, if◌then◌else◌,
}
use server_chat.Common.Search.{search, search-least}
use server_chat.Uid.Slice.{at, find, found_at}

-- Each id is below those behind it.
abbrev pub IsAscending : List ℕ → Type 0
IsAscending [] = Unit {0}
IsAscending (u ∷ us) = All (λ (v : ℕ). u < v) us × IsAscending us

-- How many ids of an ascending slice are below an id.
unfoldable pub rank : List ℕ → ℕ → ℕ
rank [] x = 0
rank (u ∷ us) x = let rest = rank us x in if ltb u x then suc rest else 0

unfoldable pub member : List ℕ → ℕ → Bool
member [] x = false
member (u ∷ us) x = u == x || member us x

pub rank_le : (us : List ℕ) (x : ℕ) → rank us x ≤ length us
unfolding rank
rank_le [] x = omega arith
rank_le (u ∷ us) x = ground (arith, rank_le us x)

at-above : (us : List ℕ) (u i : ℕ) → All (λ (v : ℕ). u < v) us → i < length us → u < at us i
at-above [] u i h l = absurd (omega arith)
at-above (v ∷ us) u zero (p, h) l = p
at-above (v ∷ us) u (suc i) (p, h) l = at-above us u i h (omega arith)

pub rank_test :
    (us : List ℕ) (x i : ℕ) → IsAscending us → i < length us → leb x (at us i) ≡ leb (rank us x) i
unfolding rank
rank_test [] x i asc l = absurd (omega arith)
rank_test (u ∷ us) x zero (low, asc) l = ground arith
rank_test (u ∷ us) x (suc i) (low, asc) l =
    let rest : leb x (at us i) ≡ leb (rank us x) i = rank_test us x i asc (omega arith) in
    let above : u < at us i = at-above us u i low (omega arith) in ground arith

pub member-below : (us : List ℕ) (u x : ℕ) → All (λ (v : ℕ). u < v) us → x ≤ u → member us x ≡ false
unfolding member
member-below [] u x h l = refl
member-below (v ∷ us) u x (p, h) l = ground (arith, member-below us u x h l)

pub member-rank :
    (us : List ℕ) (x : ℕ)
    → IsAscending us
    → (ltb (rank us x) (length us) && at us (rank us x) == x) ≡ member us x
unfolding rank member
member-rank [] x asc = refl
member-rank (u ∷ us) x (low, asc) = elim (Bool-cases (ltb u x)) [
  | inl below ↦ rw below (ground (arith, member-rank us x asc))
  | inr above ↦ rw above (let none_behind = member-below us u x low (ground arith) in ground arith)
]

-- The binary search finds the rank.
searched :
    (us : List ℕ) (x : ℕ) → IsAscending us → search (length us) (λ i. leb x (at us i)) ≡ rank us x
searched us x asc =
    search-least (length us) (rank us x) (λ i. leb x (at us i)) (λ k hk. rank_test us x k asc hk)
      (rank_le us x)

-- `find` gives the rank, and whether the id is there.
pub find-eq : (us : List ℕ) (x : ℕ) → IsAscending us → find us x ≡ (rank us x, member us x)
unfolding find found_at rank member
find-eq [] x asc = refl
find-eq (u ∷ us) x asc =
    let first = rank_test (u ∷ us) x 0 asc (omega arith) in
    let last = rank_test (u ∷ us) x (length us) asc (omega arith) in
    let size = rank_le (u ∷ us) x in
    let there = member-rank (u ∷ us) x asc in
    let at_rank = searched (u ∷ us) x asc in rw at_rank (ground arith)
