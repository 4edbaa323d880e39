-- ===== src/Ring/Stable.antt =====
-- server/ringhash/ringhash.go: how the answers of a ring depend on the nodes added to it.
use server_chat.Common.{
  ℕ, ◌<◌, ◌≡◌, ◌⊎◌, ◌↔◌, ◌∙◌, ap, inl, inr, refl, sym, arith, true, false, Bool-cases, List, [],
  ◌∷◌, ◌++◌, ◌==◌, zero, suc, length,
}
use server_chat.Common.Bytes.{Bytes}
use server_chat.Ring.{
  Elem, less, Has, IsAscending, SortPackage, Ring, replicas_from, append_keys, add, get,
}
use server_chat.Ring.Order.{less-antisym}
use server_chat.Ring.Search.{All-has, index_of_Has}
use server_chat.Ring.Nearest.{IsNext, ahead, around, get-IsNext}

-- Items that are next in two lists, and that both lists have, have the same key.
next_unique :
    (es fs : List Elem) (p a b : Elem)
    → IsNext es p a
    → IsNext fs p b
    → Has es b
    → Has fs a
    → a.key ≡ b.key
next_unique es fs p a b (ahead _ h hs) (ahead _ k ks) eb fa =
    less-antisym a b
      (ground (arith, All-has (λ x. (less x p ≡ true) ⊎ (less x b ≡ false)) fs ks fa))
      (ground (arith, All-has (λ x. (less x p ≡ true) ⊎ (less x a ≡ false)) es hs eb))
next_unique es fs p a b (ahead _ h hs) (around _ k ks) eb fa =
    let c = All-has (λ x. less x p ≡ true) fs k fa in cc
next_unique es fs p a b (around _ h hs) (ahead _ k ks) eb fa =
    let c = All-has (λ x. less x p ≡ true) es h eb in cc
next_unique es fs p a b (around _ h hs) (around _ k ks) eb fa =
    less-antisym a b (All-has (λ x. less x b ≡ false) fs ks fa)
      (All-has (λ x. less x a ≡ false) es hs eb)

next-Has : {es : List Elem} {p e : Elem} → IsNext es p e → Has es e
next-Has (ahead h _ _) = h
next-Has (around h _ _) = h

Has-length : (es : List Elem) (e : Elem) → Has es e → 0 < length es
Has-length es e h = let (i, l, g) = index_of_Has es e h in omega arith

Has-append : {A : Type 0} (xs ys : List A) (e : A) → Has (xs ++ ys) e ↔ (Has xs e ⊎ Has ys e)
Has-append [] ys e = (inr, λ h. elim h [ inl k ↦ elim k [ ] | inr k ↦ k ])
Has-append (x ∷ xs) ys e = ground (arith, Has-append xs ys e)

module _ (ieee_table : ℕ → ℕ) (itoa : ℕ → Bytes) (ring : Ring) where
  replicas : Bytes → List Elem
  replicas key = replicas_from ieee_table itoa ring key 0 ring.replicas

  -- The item belongs to one of the keys.
  IsReplica : List Bytes → Elem → Type 0
  IsReplica [] e = ⊥
  IsReplica (key ∷ keys) e = Has (replicas key) e ⊎ IsReplica keys e

  Has-append_keys :
      (keys : List Bytes) (es : List Elem) (e : Elem)
      → Has (append_keys ieee_table itoa ring keys es) e ↔ (Has es e ⊎ IsReplica keys e)
  unfolding IsReplica replicas
  Has-append_keys [] es e = (inl, λ h. elim h [ inl k ↦ k | inr k ↦ elim k [ ] ])
  Has-append_keys (key ∷ keys) es e =
      ground (arith, Has-append_keys keys (es ++ replicas key) e, Has-append es (replicas key) e)

  Has-replicas_from :
      (key : Bytes) (i n : ℕ) (e : Elem)
      → Has (replicas_from ieee_table itoa ring key i n) e
      → e.key ≡ key
  Has-replicas_from key i zero e h = elim h [ ]
  Has-replicas_from key i (suc n) e (inl q) = ap (λ (x : Elem). x.key) (sym q)
  Has-replicas_from key i (suc n) e (inr h) = Has-replicas_from key (suc i) n e h

  IsReplica-Has : (keys : List Bytes) (e : Elem) → IsReplica keys e → Has keys e.key
  unfolding IsReplica replicas
  IsReplica-Has [] e h = elim h [ ]
  IsReplica-Has (key ∷ keys) e (inl h) = inl (sym (Has-replicas_from key 0 ring.replicas e h))
  IsReplica-Has (key ∷ keys) e (inr h) = inr (IsReplica-Has keys e h)

  Has-IsReplica :
      (keys : List Bytes) (key : Bytes) (e : Elem)
      → Has keys key
      → Has (replicas key) e
      → IsReplica keys e
  unfolding IsReplica
  Has-IsReplica [] key e h k = elim h [ ]
  Has-IsReplica (x ∷ keys) key e (inl q) k = inl (rw q k)
  Has-IsReplica (x ∷ keys) key e (inr h) k = inr (Has-IsReplica keys key e h k)

  IsReplica-mono :
      (keys others : List Bytes) (e : Elem)
      → ((key : Bytes) → Has keys key → Has others key)
      → IsReplica keys e
      → IsReplica others e
  unfolding IsReplica
  IsReplica-mono [] others e sub h = elim h [ ]
  IsReplica-mono (key ∷ keys) others e sub (inl h) =
      Has-IsReplica others key e (sub key (inl refl)) h
  IsReplica-mono (key ∷ keys) others e sub (inr h) =
      IsReplica-mono keys others e (λ k m. sub k (inr m)) h

module _ (ieee_table : ℕ → ℕ) (itoa : ℕ → Bytes) (go : SortPackage) (ring : Ring) where
  Has-add :
      (keys : List Bytes) (e : Elem)
      → Has (add ieee_table itoa go ring keys).keys e
        ↔ (Has ring.keys e ⊎ IsReplica ieee_table itoa ring keys e)
  unfolding add
  Has-add keys e = ground (
    arith,
    go.sort_has (append_keys ieee_table itoa ring keys ring.keys) e,
    Has-append_keys ieee_table itoa ring keys ring.keys e,
  )

  add-IsAscending : (keys : List Bytes) → IsAscending (add ieee_table itoa go ring keys).keys
  unfolding add
  add-IsAscending keys = go.sort_ascending (append_keys ieee_table itoa ring keys ring.keys)

  -- Adding nodes to a ring that has items in ascending order leaves the answer of `Get` for a key
  -- as it was, or it becomes one of the added nodes.
  pub add-get :
      (keys : List Bytes) (key : Bytes)
      → 0 < length ring.keys
      → IsAscending ring.keys
      → (get ieee_table go (add ieee_table itoa go ring keys) key ≡ get ieee_table go ring key)
        ⊎ Has keys (get ieee_table go (add ieee_table itoa go ring keys) key)
  unfolding add
  add-get keys key l asc =
      let larger = add ieee_table itoa go ring keys in
      let (a, ga, na) = get-IsNext ieee_table go ring l asc key in
      let a_there = (Has-add keys a).1 (inl (next-Has na)) in
      let (b, gb, nb) =
        get-IsNext ieee_table go larger (Has-length larger.keys a a_there) (add-IsAscending keys)
          key in
      elim ((Has-add keys b).0 (next-Has nb)) [
        | inl old ↦ inl (gb ∙ next_unique larger.keys ring.keys _ b a nb na a_there old ∙ sym ga)
        | inr fresh ↦ inr (rw gb (IsReplica-Has ieee_table itoa ring keys b fresh))
      ]

  Has-same :
      (keys others : List Bytes) (e : Elem)
      → ((k : Bytes) → Has keys k ↔ Has others k)
      → Has (add ieee_table itoa go ring keys).keys e
      → Has (add ieee_table itoa go ring others).keys e
  Has-same keys others e same h = ground (
    arith,
    Has-add keys e,
    Has-add others e,
    IsReplica-mono ieee_table itoa ring keys others e (λ k. (same k).0),
  )

  get_agrees_of_some :
      (keys others : List Bytes) (key : Bytes)
      → ((k : Bytes) → Has keys k ↔ Has others k)
      → 0 < length (add ieee_table itoa go ring keys).keys
      → get ieee_table go (add ieee_table itoa go ring keys) key
        ≡ get ieee_table go (add ieee_table itoa go ring others) key
  unfolding add
  get_agrees_of_some keys others key same l =
      let one = add ieee_table itoa go ring keys in
      let two = add ieee_table itoa go ring others in
      let (a, ga, na) = get-IsNext ieee_table go one l (add-IsAscending keys) key in
      let a_there = Has-same keys others a same (next-Has na) in
      let (b, gb, nb) =
        get-IsNext ieee_table go two (Has-length two.keys a a_there) (add-IsAscending others) key in
      let b_there = Has-same others keys b (λ k. ((same k).1, (same k).0)) (next-Has nb) in
      ga ∙ next_unique one.keys two.keys _ a b na nb b_there a_there ∙ sym gb

  get_empty : (r : Ring) (key : Bytes) → (0 < length r.keys) ⊎ (get ieee_table go r key ≡ [])
  unfolding get
  get_empty r key = elim (Bool-cases (length r.keys == 0)) [
    | inl e ↦ inr (rw e refl)
    | inr e ↦ inl (ground arith)
  ]

  -- Two lists of the same nodes, in any order and with repetitions, added to a ring, give the same
  -- answer for each key.
  pub get_agrees :
      (keys others : List Bytes) (key : Bytes)
      → ((k : Bytes) → Has keys k ↔ Has others k)
      → get ieee_table go (add ieee_table itoa go ring keys) key
        ≡ get ieee_table go (add ieee_table itoa go ring others) key
  get_agrees keys others key same =
      let back : (k : Bytes) → Has others k ↔ Has keys k = λ k. ((same k).1, (same k).0) in
      elim (get_empty (add ieee_table itoa go ring keys) key) [
        | inl l ↦ get_agrees_of_some keys others key same l
        | inr e ↦ (elim (get_empty (add ieee_table itoa go ring others) key) [
          | inl l ↦ sym (get_agrees_of_some others keys key back l)
          | inr f ↦ e ∙ sym f
        ])
      ]
