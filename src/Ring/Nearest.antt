-- ===== src/Ring/Nearest.antt =====
-- server/ringhash/ringhash.go: `Get` and the next item on the ring.
use server_chat.Common.{
  ℕ, ◌<◌, ◌≡◌, ◌⊎◌, inl, inr, refl, arith, Bool, true, false, not, Bool-cases, some, List, ◌==◌,
  ==_iff, ltb, zero, suc, All, length, get_elem?, if◌then◌else◌,
}
use server_chat.Common.Bytes.{Bytes}
use server_chat.Ring.{Elem, less, Has, IsAscending, SortPackage, is_at, Ring, hash_string, get}
use server_chat.Ring.Order.{less_trans, less_irrefl}
use server_chat.Ring.Search.{
  All-of_Has, Has-at, index_of_Has, get_elem?-below, ascending_at, is_at-less,
}

abbrev pub point : ℕ → Bytes → Elem
point hash key = record { key = key; hash = hash }

-- The item is in the list, and it is the first one that is not before the point, or the
-- first one of all if each is before the point.
pub data IsNext (es : List Elem) (p e : Elem) : Type 0 where
  ahead :
      Has es e
      → less e p ≡ false
      → All (λ x. (less x p ≡ true) ⊎ (less x e ≡ false)) es
      → IsNext es p e
  around : Has es e → All (λ x. less x p ≡ true) es → All (λ x. less x e ≡ false) es → IsNext es p e

module _ (es : List Elem) (asc : IsAscending es) (hash : ℕ) (key : Bytes) where
  abbrev test : ℕ → Bool
  test i = is_at key hash (get_elem? es i)

  test-eq : (i : ℕ) {e : Elem} → get_elem? es i ≡ some e → test i ≡ not (less e (point hash key))
  test-eq i {e} g = rw g (is_at-less key hash e)

  test_mono : (i : ℕ) → suc i < length es → test i ≡ true → test (suc i) ≡ true
  test_mono i l h =
      let (a, g) = get_elem?-below es i (omega arith) in
      let (b, k) = get_elem?-below es (suc i) l in
      let apart = ascending_at es i (suc i) a b asc (omega arith) g k in
      ground (arith, test-eq i g, test-eq (suc i) k, less_trans (point hash key) a b)

  -- Every item is before the point, or not before the item at an index below which all are.
  later :
      (i : ℕ) (e : Elem)
      → get_elem? es i ≡ some e
      → ((j : ℕ) → j < i → test j ≡ false)
      → (x : Elem) → Has es x
      → (less x (point hash key) ≡ true) ⊎ (less x e ≡ false)
  later i e g before x h =
      let (j, l, k) = index_of_Has es x h in
      elim (Bool-cases (ltb j i)) [
        | inl b ↦ inl (ground (arith, test-eq j k, before j (ground arith)))
        | inr b ↦ (elim (Bool-cases (i == j)) [
          | inl q ↦
              let q1 : i ≡ j = (==_iff i j).0 q in
              let same : e ≡ x = (let g1 = rw q1 at g in cc) in inr (rw same (less_irrefl x))
          | inr q ↦ inr (ascending_at es i j e x asc (ground arith) g k)
        ])
      ]

  -- The index that a search ends at, and what it says of the items around it.
  found_at :
      (i : ℕ)
      → i < length es
      → ((j : ℕ) → j < i → test j ≡ false)
      → test i ≡ true
      → (e : Elem) × (get_elem? es i ≡ some e) × IsNext es (point hash key) e
  found_at i l before at =
      let (e, g) = get_elem?-below es i l in
      (
        e,
        g,
        ahead (Has-at es i g) (ground (arith, test-eq i g)) (
            All-of_Has (λ x. (less x (point hash key) ≡ true) ⊎ (less x e ≡ false)) es
              (later i e g before)),
      )

  not_found :
      0 < length es
      → ((j : ℕ) → j < length es → test j ≡ false)
      → (e : Elem) × (get_elem? es 0 ≡ some e) × IsNext es (point hash key) e
  not_found l none_there =
      let (e, g) = get_elem?-below es 0 l in
      (
        e,
        g,
        around (Has-at es 0 g)
            (All-of_Has (λ x. less x (point hash key) ≡ true) es
              (λ x h.
                let (j, l, k) = index_of_Has es x h in ground (arith, test-eq j k, none_there j l)))
            (All-of_Has (λ x. less x e ≡ false) es (first e g)),
      )
    where
      first_at :
          (e : Elem)
          → get_elem? es 0 ≡ some e
          → (x : Elem) (j : ℕ) → get_elem? es j ≡ some x
          → less x e ≡ false
      first_at e g x zero k = let same : e ≡ x = cc in rw same (less_irrefl x)
      first_at e g x (suc j) k = ascending_at es 0 (suc j) e x asc (omega arith) g k

      first : (e : Elem) → get_elem? es 0 ≡ some e → (x : Elem) → Has es x → less x e ≡ false
      first e g x h = let (j, l, k) = index_of_Has es x h in first_at e g x j k

  search-IsNext :
      (go : SortPackage)
      → 0 < length es
      → let idx = go.search (length es) test in
        (e : Elem) × (get_elem? es (if idx == length es then 0 else idx) ≡ some e)
        × IsNext es (point hash key) e
  search-IsNext go l =
      let n = length es in
      let before = go.search_before n test test_mono in
      elim (Bool-cases (go.search n test == n)) [
        | inl q ↦
            let e : go.search n test ≡ n = (==_iff _ _).0 q in
            rw q (not_found l (λ j h. before j (omega (arith, e))))
        | inr q ↦
            let below : go.search n test < n = ground (arith, go.search_le n test) in
            rw q (found_at (go.search n test) below before (go.search_at n test test_mono below))
      ]

module _ (ieee_table : ℕ → ℕ) (go : SortPackage) (ring : Ring) where
  -- For a ring with items in ascending order, `Get` returns the key of an item that is next on the
  -- ring: the first that is not before the hash and the text of the key, or the first of all if
  -- every item is before them.
  pub get-IsNext :
      0 < length ring.keys
      → IsAscending ring.keys
      → (key : Bytes)
      → (e : Elem) × (get ieee_table go ring key ≡ e.key)
        × IsNext ring.keys (point (hash_string ieee_table ring key) key) e
  unfolding get
  get-IsNext l asc key =
      let (e, g, next) = search-IsNext ring.keys asc (hash_string ieee_table ring key) key go l in
      let some_keys : (length ring.keys == 0) ≡ false = ground arith in
      (e, rw (some_keys, g) refl, next)
