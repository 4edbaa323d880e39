-- ===== src/Ring/Search.antt =====
-- server/ringhash/ringhash.go: the binary search in an ascending list of items.
use server_chat.Common.{
  ℕ, ◌<◌, ◌≡◌, ap, inl, inr, refl, arith, false, not, some, List, [], ◌∷◌, zero, suc, All, length,
  get_elem?,
}
use server_chat.Common.Bytes.{Bytes}
use server_chat.Ring.{Elem, less, Has, IsAscending, is_at}

pub All-has : (P : Elem → Type 0) (es : List Elem) {e : Elem} → All P es → Has es e → P e
All-has P [] ps h = elim h [ ]
All-has P (x ∷ es) (p, ps) (inl q) = rw (← q) p
All-has P (x ∷ es) (p, ps) (inr h) = All-has P es ps h

pub All-of_Has : (P : Elem → Type 0) (es : List Elem) → ((e : Elem) → Has es e → P e) → All P es
All-of_Has P [] h = tt
All-of_Has P (x ∷ es) h = (h x (inl refl), All-of_Has P es (λ e k. h e (inr k)))

pub Has-at : (es : List Elem) (i : ℕ) {e : Elem} → get_elem? es i ≡ some e → Has es e
Has-at [] i h = cc
Has-at (x ∷ es) zero h = inl (let k : x ≡ _ = cc in k)
Has-at (x ∷ es) (suc i) h = inr (Has-at es i h)

pub index_of_Has :
    (es : List Elem) (e : Elem) → Has es e → (i : ℕ) × (i < length es) × (get_elem? es i ≡ some e)
index_of_Has [] e h = elim h [ ]
index_of_Has (x ∷ es) e (inl q) = (0, omega arith, ap some q)
index_of_Has (x ∷ es) e (inr h) = let (i, l, g) = index_of_Has es e h in (suc i, omega arith, g)

pub get_elem?-below :
    (es : List Elem) (i : ℕ) → i < length es → (e : Elem) × (get_elem? es i ≡ some e)
get_elem?-below [] i h = absurd (omega arith)
get_elem?-below (x ∷ es) zero h = (x, refl)
get_elem?-below (x ∷ es) (suc i) h = get_elem?-below es i (omega arith)

-- In an ascending list a later item is not before an earlier one.
pub ascending_at :
    (es : List Elem) (i j : ℕ) (a b : Elem)
    → IsAscending es
    → i < j
    → get_elem? es i ≡ some a
    → get_elem? es j ≡ some b
    → less b a ≡ false
ascending_at [] i j a b asc l h k = cc
ascending_at (x ∷ es) i zero a b asc l h k = absurd (omega arith)
ascending_at (x ∷ es) zero (suc j) a b (low, asc) l h k =
    let e : x ≡ a = cc in rw (← e) (All-has (λ (y : Elem). less y x ≡ false) es low (Has-at es j k))
ascending_at (x ∷ es) (suc i) (suc j) a b (low, asc) l h k =
    ascending_at es i j a b asc (omega arith) h k

-- The test of the search is the order, against the point that is sought.
pub is_at-less :
    (key : Bytes) (hash : ℕ) (el : Elem)
    → is_at key hash (some el) ≡ not (less el (record { key = key; hash = hash }))
unfolding less
is_at-less key hash el = ground arith
