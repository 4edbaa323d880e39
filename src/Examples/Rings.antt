-- ===== src/Examples/Rings.antt =====
-- The ring of consistent hashing: the theorems on a ring of two nodes, with an insertion sort and a
-- linear search in the places of Go's package.
use server_chat.Common.{
  ℕ, ◌+◌, ◌<◌, ◌≤◌, ◌≡◌, ◌⊎◌, ◌↔◌, inl, inr, refl, arith, Bool, true, false, Bool-cases, some, List,
  [], ◌∷◌, zero, suc, length, if◌then◌else◌,
}
use server_chat.Common.Bytes.{Bytes, codes}
use server_chat.Ring.{Elem, less, Has, IsAscending, SortPackage, Ring, hash_string, add, get, new}
use server_chat.Ring.Order.{less-asym, less_trans}
use server_chat.Ring.Search.{All-has, All-of_Has}
use server_chat.Ring.Nearest.{point, IsNext, get-IsNext}
use server_chat.Ring.Stable.{add-get, get_agrees}

insert : Elem → List Elem → List Elem
insert e [] = e ∷ []
insert e (x ∷ xs) = if less e x then e ∷ x ∷ xs else x ∷ insert e xs

sort : List Elem → List Elem
sort [] = []
sort (x ∷ xs) = insert x (sort xs)

insert-Has : (x : Elem) (es : List Elem) (e : Elem) → Has (insert x es) e ↔ ((x ≡ e) ⊎ Has es e)
unfolding insert
insert-Has x [] e = (λ h. h, λ h. h)
insert-Has x (y ∷ es) e = elim (Bool-cases (less x y)) [
  | inl c ↦ rw c (λ h. h, λ h. h)
  | inr c ↦ rw c (ground (arith, insert-Has x es e))
]

sort-Has : (es : List Elem) (e : Elem) → Has (sort es) e ↔ Has es e
unfolding sort
sort-Has [] e = (λ h. h, λ h. h)
sort-Has (x ∷ es) e = ground (arith, insert-Has x (sort es) e, sort-Has es e)

insert-IsAscending : (x : Elem) (es : List Elem) → IsAscending es → IsAscending (insert x es)
unfolding insert
insert-IsAscending x [] asc = (tt, tt)
insert-IsAscending x (y ∷ es) (low, asc) = elim (Bool-cases (less x y)) [
  | inl c ↦ rw c (
    (
      less-asym x y c,
      All-of_Has (λ z. less z x ≡ false) es
          (λ z h. less_trans x y z (less-asym x y c) (All-has (λ z. less z y ≡ false) es low h)),
    ),
    (low, asc),
  )
  | inr c ↦
      rw c (All-of_Has (λ z. less z y ≡ false) (insert x es) (after c), insert-IsAscending x es asc)
]
  where
    after : less x y ≡ false → (z : Elem) → Has (insert x es) z → less z y ≡ false
    after c z h = elim ((insert-Has x es z).0 h) [
      | inl q ↦ rw (← q) c
      | inr k ↦ All-has (λ z. less z y ≡ false) es low k
    ]

sort-IsAscending : (es : List Elem) → IsAscending (sort es)
unfolding sort
sort-IsAscending [] = tt
sort-IsAscending (x ∷ es) = insert-IsAscending x (sort es) (sort-IsAscending es)

search : ℕ → (ℕ → Bool) → ℕ
search zero f = 0
search (suc n) f = if f 0 then 0 else suc (search n (λ i. f (suc i)))

search_le : (n : ℕ) (f : ℕ → Bool) → search n f ≤ n
unfolding search
search_le zero f = omega arith
search_le (suc n) f = ground (arith, search_le n (λ i. f (suc i)))

search_before : (n : ℕ) (f : ℕ → Bool) (i : ℕ) → i < search n f → f i ≡ false
unfolding search
search_before zero f i h = absurd (omega arith)
search_before (suc n) f zero h = ground arith
search_before (suc n) f (suc i) h = ground (arith, search_before n (λ i. f (suc i)) i)

search_at : (n : ℕ) (f : ℕ → Bool) → search n f < n → f (search n f) ≡ true
unfolding search
search_at zero f h = absurd (omega arith)
search_at (suc n) f h = elim (Bool-cases (f 0)) [
  | inl e ↦ rw (e, e) refl
  | inr e ↦ rw e (search_at n (λ i. f (suc i)) (ground arith))
]

abbrev go : SortPackage
go = record {
  sort = sort;
  sort_has = sort-Has;
  sort_ascending = sort-IsAscending;
  search = search;
  search_le = search_le;
  search_before = λ n f mono. search_before n f;
  search_at = λ n f mono. search_at n f;
}

-- The digits of one byte, and a hash that adds the bytes.
abbrev itoa : ℕ → Bytes
itoa n = (48 + n) ∷ []

abbrev sum : Bytes → ℕ
sum [] = 0
sum (c ∷ s) = c + sum s

abbrev table : ℕ → ℕ
table n = n

abbrev one_node : Ring
one_node = add table itoa go (new 2 (some sum)) (codes "b" ∷ [])

one_node_has : 0 < length one_node.keys
unfolding add new sort insert less
one_node_has = omega arith

one_node-IsAscending : IsAscending one_node.keys
unfolding add new
one_node-IsAscending = sort-IsAscending _

get-IsNext_example :
    (e : Elem) × (get table go one_node (codes "x") ≡ e.key)
    × IsNext one_node.keys (point (hash_string table one_node (codes "x")) (codes "x")) e
get-IsNext_example = get-IsNext table go one_node one_node_has one_node-IsAscending (codes "x")

add-get_example :
    (get table go (add table itoa go one_node (codes "a" ∷ [])) (codes "x")
      ≡ get table go one_node (codes "x"))
    ⊎ Has (codes "a" ∷ []) (get table go (add table itoa go one_node (codes "a" ∷ [])) (codes "x"))
add-get_example =
    add-get table itoa go one_node (codes "a" ∷ []) (codes "x") one_node_has one_node-IsAscending

swapped : (k : Bytes) → Has (codes "a" ∷ codes "b" ∷ []) k ↔ Has (codes "b" ∷ codes "a" ∷ []) k
swapped k = ground arith

get_agrees_example :
    get table go (add table itoa go (new 2 (some sum)) (codes "a" ∷ codes "b" ∷ [])) (codes "x")
    ≡ get table go (add table itoa go (new 2 (some sum)) (codes "b" ∷ codes "a" ∷ [])) (codes "x")
get_agrees_example =
    get_agrees table itoa go (new 2 (some sum)) (codes "a" ∷ codes "b" ∷ [])
      (codes "b" ∷ codes "a" ∷ []) (codes "x") swapped
