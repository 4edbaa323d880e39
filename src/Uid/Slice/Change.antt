-- ===== src/Uid/Slice/Change.antt =====
-- server/store/types/uid.go: a slice after `Add` and `Rem`, against plain insertion and removal.
use server_chat.Common.{
  ℕ, zero, suc, ◌-◌, ◌≤◌, ◌<◌, ◌≡◌, refl, ap, append-nil, true, false, not, ◌&&◌, ◌||◌, List, [],
  ◌∷◌, ◌++◌, ◌==◌, ltb, length, take, from_index, set, All, inl, inr, Bool-cases, arith,
  if◌then◌else◌,
}
use server_chat.Uid.Slice.{moved, add, rem}
use server_chat.Uid.Slice.Find.{IsAscending, rank, member, member-below, find-eq}

-- An id put where it belongs, and an id left out.
unfoldable pub insert_id : List ℕ → ℕ → List ℕ
insert_id [] x = x ∷ []
insert_id (u ∷ us) x = let rest = insert_id us x in if ltb u x then u ∷ rest else x ∷ u ∷ us

unfoldable pub remove_id : List ℕ → ℕ → List ℕ
remove_id [] x = []
remove_id (u ∷ us) x = let rest = remove_id us x in if ltb u x then u ∷ rest else us

take-all : (us rest : List ℕ) → take (length us) (us ++ rest) ≡ us
take-all [] rest = refl
take-all (u ∷ us) rest = ap (λ (l : List ℕ). u ∷ l) (take-all us rest)

moved-insert_id : (us : List ℕ) (x : ℕ) → set (moved us (rank us x)) (rank us x) x ≡ insert_id us x
unfolding rank insert_id
moved-insert_id [] x = refl
moved-insert_id (u ∷ us) x = elim (Bool-cases (ltb u x)) [
  | inl below ↦
      let e : suc (length us) - suc (rank us x) ≡ length us - rank us x = omega arith in
      rw (below, e) (ap (λ (l : List ℕ). u ∷ l) (moved-insert_id us x))
  | inr above ↦
      let e : suc (length us) - 0 ≡ suc (length us) = omega arith in
      rw (above, e, take-all us (0 ∷ [])) refl
]

rest-remove_id :
    (us : List ℕ) (x : ℕ) → take (rank us x) us ++ from_index (suc (rank us x)) us ≡ remove_id us x
unfolding rank remove_id
rest-remove_id [] x = refl
rest-remove_id (u ∷ us) x = elim (Bool-cases (ltb u x)) [
  | inl below ↦ rw below (ap (λ (l : List ℕ). u ∷ l) (rest-remove_id us x))
  | inr above ↦ rw above refl
]

from_index-beyond : (us : List ℕ) (n : ℕ) → length us ≤ n → from_index n us ≡ []
from_index-beyond us zero h = ground arith
from_index-beyond [] (suc n) h = refl
from_index-beyond (u ∷ us) (suc n) h = from_index-beyond us n (omega arith)

last-remove_id :
    (us : List ℕ) (x : ℕ) → rank us x ≡ length us - 1 → take (rank us x) us ≡ remove_id us x
last-remove_id us x h =
    let e : from_index (suc (rank us x)) us ≡ [] =
      from_index-beyond us (suc (rank us x)) (omega arith) in
    let whole = rest-remove_id us x in rw (e, append-nil) at whole

pub add-eq :
    (us : List ℕ) (x : ℕ)
    → IsAscending us
    → add us x ≡ (if member us x then (us, false) else (insert_id us x, true))
unfolding add
add-eq us x asc = elim (Bool-cases (member us x)) [
  | inl there ↦ rw (find-eq us x asc, there) refl
  | inr missing ↦
      rw (find-eq us x asc, missing) (ap (λ (l : List ℕ). (l, true)) (moved-insert_id us x))
]

pub rem-eq :
    (us : List ℕ) (x : ℕ)
    → IsAscending us
    → rem us x ≡ (if member us x then (remove_id us x, true) else (us, false))
unfolding rem
rem-eq us x asc = elim (Bool-cases (member us x)) [
  | inl there ↦
      rw (find-eq us x asc, there)
        (elim (Bool-cases (rank us x == length us - 1)) [
          | inl last ↦ rw last (ap (λ (l : List ℕ). (l, true)) (last-remove_id us x (ground arith)))
          | inr inner ↦ rw inner (ap (λ (l : List ℕ). (l, true)) (rest-remove_id us x))
        ])
  | inr missing ↦ rw (find-eq us x asc, missing) refl
]

insert_id-above :
    (us : List ℕ) (u x : ℕ)
    → u < x
    → All (λ (v : ℕ). u < v) us
    → All (λ (v : ℕ). u < v) (insert_id us x)
unfolding insert_id
insert_id-above [] u x l h = (l, tt)
insert_id-above (v ∷ us) u x l (p, h) = elim (Bool-cases (ltb v x)) [
  | inl below ↦ rw below (p, insert_id-above us u x l h)
  | inr above ↦ rw above (l, (p, h))
]

above_trans :
    (us : List ℕ) (u x : ℕ) → x < u → All (λ (v : ℕ). u < v) us → All (λ (v : ℕ). x < v) us
above_trans [] u x l h = tt
above_trans (v ∷ us) u x l (p, h) = (omega arith, above_trans us u x l h)

-- An id that is missing is inserted in its place.
pub insert_id-IsAscending :
    (us : List ℕ) (x : ℕ) → IsAscending us → member us x ≡ false → IsAscending (insert_id us x)
unfolding insert_id member
insert_id-IsAscending [] x asc missing = (tt, tt)
insert_id-IsAscending (u ∷ us) x (low, asc) missing = elim (Bool-cases (ltb u x)) [
  | inl below ↦
      rw below
        (insert_id-above us u x (ground arith) low, insert_id-IsAscending us x asc (ground arith))
  | inr above ↦
      let less : x < u = ground arith in rw above ((less, above_trans us u x less low), (low, asc))
]

pub member-insert_id : (us : List ℕ) (x y : ℕ) → member (insert_id us x) y ≡ (x == y || member us y)
unfolding insert_id member
member-insert_id [] x y = ground arith
member-insert_id (u ∷ us) x y = ground (arith, member-insert_id us x y)

remove_id-above :
    (us : List ℕ) (u x : ℕ) → All (λ (v : ℕ). u < v) us → All (λ (v : ℕ). u < v) (remove_id us x)
unfolding remove_id
remove_id-above [] u x h = tt
remove_id-above (v ∷ us) u x (p, h) = elim (Bool-cases (ltb v x)) [
  | inl below ↦ rw below (p, remove_id-above us u x h)
  | inr above ↦ rw above h
]

pub remove_id-IsAscending : (us : List ℕ) (x : ℕ) → IsAscending us → IsAscending (remove_id us x)
unfolding remove_id
remove_id-IsAscending [] x asc = tt
remove_id-IsAscending (u ∷ us) x (low, asc) = elim (Bool-cases (ltb u x)) [
  | inl below ↦ rw below (remove_id-above us u x low, remove_id-IsAscending us x asc)
  | inr above ↦ rw above asc
]

-- What is there of an ascending slice after a removal of an id that was there.
pub member-remove_id :
    (us : List ℕ) (x y : ℕ)
    → IsAscending us
    → member us x ≡ true
    → member (remove_id us x) y ≡ (not (x == y) && member us y)
unfolding remove_id member
member-remove_id [] x y asc there = cc
member-remove_id (u ∷ us) x y (low, asc) there = elim (Bool-cases (ltb u x)) [
  | inl below ↦ rw below (ground (arith, member-remove_id us x y asc))
  | inr above ↦ rw above (ground (arith, member-below us u x low, member-below us u y low))
]
